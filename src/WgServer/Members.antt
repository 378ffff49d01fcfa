-- ===== src/WgServer/Members.antt =====
-- The clients that the kernel's WireGuard interface knows, as the commands of the VPN server leave
-- them (internal/wgserver/server.go), and those of its store.
pub mod Store
pub mod Changes
pub mod Booting
pub mod Sync
use wg_proxy.Common.{◌≡◌, refl, Bool, true, false, List, [], ◌∷◌, ◌++◌, if◌then◌else◌, arith}
use wg_proxy.Common.Bytes.{Bytes, bytes_eq}
use wg_proxy.WgServer.Peers.{Peer}
use wg_proxy.WgServer.Server.{WgCall, set_peer, remove_peer_key, link_del, link_add}
use wg_proxy.WgServer.Gateway.Steps.{is_setup}

-- The clients of an interface: whether it knows a public key. The addresses that are allowed for a
-- key are left out.
abbrev pub Members : Type 0
Members = Bytes → Bool

-- `wg set … peer` that succeeds adds a key and `wg set … peer … remove` removes it; an interface
-- that is deleted or made has no clients.
unfoldable pub member_effect : WgCall → Members → Members
member_effect (set_peer k address true) m j = if bytes_eq j k then true else m j
member_effect (remove_peer_key k true) m j = if bytes_eq j k then false else m j
member_effect link_del m j = false
member_effect link_add m j = false
member_effect c m j = m j

-- The clients after some calls.
unfoldable pub members : List WgCall → Members → Members
members [] m = m
members (c ∷ cs) m = members cs (member_effect c m)

pub members-append :
    (cs : List WgCall) (c : WgCall) (m : Members)
    → members (cs ++ (c ∷ [])) m ≡ member_effect c (members cs m)
unfolding members
members-append [] c m = refl
members-append (d ∷ cs) c m = members-append cs c (member_effect d m)

-- Whether the store has a client with a key.
unfoldable pub by_key : List Peer → Members
by_key [] j = false
by_key (p ∷ ps) j = if bytes_eq j p.public_key then true else by_key ps j

pub setup-none :
    (c : WgCall) (m : Members) (j : Bytes)
    → is_setup c ≡ true
    → m j ≡ false
    → member_effect c m j ≡ false
unfolding member_effect
setup-none c m j q h = ground arith
