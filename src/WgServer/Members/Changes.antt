-- ===== src/WgServer/Members/Changes.antt =====
-- A client that is added to the interface and the store, or removed from both
-- (internal/wgserver/server.go).
use wg_proxy.Common.{◌≡◌, sym, ap, ◌∙◌, Bool, true, false, List, if◌then◌else◌}
use wg_proxy.Common.Bytes.{Bytes, bytes_eq}
use wg_proxy.WgServer.Peers.{Peer}
use wg_proxy.WgServer.Server.{Server, Answers, ClientConfig, WgCall, set_peer, remove_peer_key}
use wg_proxy.WgServer.Server.Clients.{IsDistinct-concat}
use wg_proxy.WgServer.Server.Removal.{IsDistinct-without}
use wg_proxy.WgServer.Server.Added.{IsAdded}
use wg_proxy.WgServer.Server.Unfailing.{IsRemoved}
use wg_proxy.WgServer.Members.{Members, member_effect, members, members-append, by_key}
use wg_proxy.WgServer.Members.Store.{InSync, key, by_key-append, none-by_key, by_key-without}

pub IsAdded-InSync :
    (a : Answers) (name : Bytes) (s s' : Server) (c : ClientConfig) (p : Peer)
    → by_key s.peers.peers p.public_key ≡ false
    → IsAdded a name s s' c p
    → InSync s
    → InSync s'
unfolding member_effect
IsAdded-InSync a name s s' c p new h sync = record {
  same = λ j.
      ap (λ (cs : List WgCall). members cs (λ k. false) j) h.called
      ∙ (ap (λ (m : Members). m j)
            (members-append s.calls (set_peer p.public_key p.allowed_ip true) λ k. false)
          ∙ (ap (λ (o : Bool). if bytes_eq j p.public_key then true else o) (sync.same j)
              ∙ (sym (by_key-append s.peers.peers p j new)
                  ∙ ap (λ (ps : List Peer). by_key ps j) (sym h.listed))));
  distinct = rw h.listed (
      IsDistinct-concat key s.peers.peers p sync.distinct
        (none-by_key s.peers.peers p.public_key new));
}

pub IsRemoved-InSync :
    (name : Bytes) (s s' : Server) (p : Peer) → IsRemoved name s s' p → InSync s → InSync s'
unfolding member_effect
IsRemoved-InSync name s s' p h sync = record {
  same = λ j.
      ap (λ (cs : List WgCall). members cs (λ k. false) j) h.called
      ∙ (ap (λ (m : Members). m j)
            (members-append s.calls (remove_peer_key p.public_key true) λ k. false)
          ∙ (ap (λ (o : Bool). if bytes_eq j p.public_key then false else o) (sync.same j)
              ∙ sym (
                  by_key-without name s.peers.peers s'.peers.peers p j sync.distinct h.found
                    h.left)));
  distinct = IsDistinct-without key name s.peers.peers s'.peers.peers h.left sync.distinct;
}
