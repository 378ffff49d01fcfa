-- ===== src/Handlers/Requests.antt =====
-- What single requests do (internal/handlers/routes.go).
use wg_proxy.Common.{
  ℕ, zero, suc, ◌+◌, ◌-◌, ◌/◌, ◌%◌, ◌^◌, ltb, ◌≡◌, ◌≢◌, refl, ap, ◌∙◌, Bool, true, false, ◌&&◌,
  ◌||◌, ◌==◌, none, some, List, [], ◌∷◌, ◌++◌, All, Bool-cases, inl, inr, if_false, if◌then◌else◌,
  arith,
}
use wg_proxy.Common.Bytes.{Bytes, codes, bytes_eq, is_empty, decimal, decimal_from}
use wg_proxy.Common.Errors.{ok}
use wg_proxy.Common.Strings.{split, trim_prefix, has_prefix}
use wg_proxy.Common.Strings.Trimming.{split_from-line, split_from-end}
use wg_proxy.Common.Ini.{is_line, values, values-ini}
use wg_proxy.Tunnels.Manager.{Host, World, write_file, append_tunnel}
use wg_proxy.Tunnels.Manager.Actions.{import_config, restart, disconnect}
use wg_proxy.Health.{Checker}
use wg_proxy.WgServer.Routing.{Controller, mode_proxied, set_mode, get_status}
use wg_proxy.Handlers.{Method, post, delete, is_delete, Custom, Request, Outside}
use wg_proxy.Handlers.Imports.{
  import_as, import_custom, handle_import_custom, custom_conf, lacks_field, signed_decimal,
  keepalive,
}
use wg_proxy.Handlers.Actions.{
  is_last, tell, delete_tunnel, perform, act, act_on, handle_tunnel_action,
}
use wg_proxy.Handlers.Vpn.{
  no_gold, port_for, proxy_through, post_routing, by_method, handle_routing, tell_mode,
}

unfoldable has_slash : Bytes → Bool
has_slash [] = false
has_slash (c ∷ s) = c == b'/' || has_slash s

-- A name that the path of a request can carry.
abbrev pub IsSegment : Bytes → Type 0
IsSegment name = (is_empty name ≡ false) × All (λ c. c ≢ b'/') name

split-action :
    (name action : Bytes)
    → All (λ c. c ≢ b'/') name
    → All (λ c. c ≢ b'/') action
    → split b'/' (name ++ (b'/' ∷ action)) ≡ name ∷ action ∷ []
unfolding split
split-action name action h k =
    split_from-line b'/' [] name action h ∙ ap (◌∷◌ name) (split_from-end b'/' [] action k)

no_slash : (s : Bytes) → has_slash s ≡ false → All (λ c. c ≢ b'/') s
unfolding has_slash
no_slash [] e = tt
no_slash (c ∷ s) e = (ground arith, no_slash s (ground arith))

module _ (h : Host) (o : Outside) (r : Request) (name : Bytes) (w : World)
    (segment : IsSegment name) where
  act_on-name :
      (m : Method) (parts : List Bytes)
      → act_on h o m (name ∷ parts) w ≡ (
          if is_delete m && is_last parts then delete_tunnel h o name w else act h o m name parts w)
  unfolding act_on
  act_on-name m parts = if_false _ _ _ segment.0

  on_path :
      (m : Method) (parts : List Bytes) (rest : Bytes)
      → split b'/' rest ≡ name ∷ parts
      → handle_tunnel_action h o (record r { method = m; path = codes "/api/tunnels/" ++ rest }) w
        ≡ (if is_delete m && is_last parts
            then delete_tunnel h o name w
            else act h o m name parts w)
  unfolding handle_tunnel_action trim_prefix has_prefix
  on_path m parts rest e = ap (λ z. act_on h o m z w) e ∙ act_on-name m parts

  on_post :
      (action : Bytes)
      → All (λ c. c ≢ b'/') action
      → handle_tunnel_action h o
          (record r { method = post; path = codes "/api/tunnels/" ++ (name ++ (b'/' ∷ action)) })
          w
        ≡ perform h o post name action w
  unfolding act
  on_post action plain =
      on_path post (action ∷ []) (name ++ (b'/' ∷ action))
        (split-action name action segment.1 plain)

  -- For a name that is not empty and has no slash, a DELETE of the tunnel's path deletes the
  -- tunnel, and a POST to the path followed by "/restart" or "/disconnect" restarts or disconnects
  -- it.
  pub handle_tunnel_action-paths :
      (handle_tunnel_action h o
          (record r { method = delete; path = codes "/api/tunnels/" ++ name })
          w
        ≡ delete_tunnel h o name w)
      × (handle_tunnel_action h o
            (record r { method = post; path = codes "/api/tunnels/" ++ (name ++ codes "/restart") })
            w
          ≡ tell h o (codes "restarting") name (restart h.quote o.exit name w))
      × (handle_tunnel_action h o
            (record r {
              method = post;
              path = codes "/api/tunnels/" ++ (name ++ codes "/disconnect");
            })
            w
          ≡ tell h o (codes "disconnected") name (disconnect h.quote o.exit name w))
  unfolding split perform bytes_eq has_slash
  handle_tunnel_action-paths = (
    on_path delete [] name (split_from-end b'/' [] name segment.1),
    on_post (codes "restart") (no_slash (codes "restart") refl),
    on_post (codes "disconnect") (no_slash (codes "disconnect") refl),
  )

is_line-decimal_from :
    (f n : ℕ) (out : Bytes) → is_line out ≡ true → is_line (decimal_from f n out) ≡ true
unfolding decimal_from is_line
is_line-decimal_from zero n out h = h
is_line-decimal_from (suc f) n out h =
    let digit : ((b'0' + n % 10) == b'\n') ≡ false = ground arith in
    let rest = is_line-decimal_from f (n / 10) ((b'0' + n % 10) ∷ out) (rw digit h) in
    elim (Bool-cases (n == 0)) [ inl e ↦ rw e h | inr e ↦ rw e rest ]

is_line-decimal : (n : ℕ) → is_line (decimal n) ≡ true
unfolding decimal is_line
is_line-decimal n = elim (Bool-cases (n == 0)) [
  | inl e ↦ rw e refl
  | inr e ↦ rw e (is_line-decimal_from n n [] refl)
]

is_line-signed_decimal : (n : ℕ) → is_line (signed_decimal n) ≡ true
unfolding signed_decimal is_line
is_line-signed_decimal n = elim (Bool-cases (ltb n (2 ^ 63))) [
  | inl e ↦ rw e (is_line-decimal n)
  | inr e ↦ rw e (is_line-decimal (2 ^ 64 - n))
]

module _ (h : Host) (o : Outside) (r : Request) (c : Custom) (w : World) where
  -- A POST of a form with all its required values, of which those for the file hold no line feed,
  -- writes one file, if that can be written, in which a reader finds the values under their keys,
  -- with all IPv4 networks and with a keepalive of 25 in place of 0.
  pub handle_import_custom-values :
      r.method ≡ post
      → r.custom ≡ ok c
      → lacks_field c ≡ false
      → o.import_fault ≡ none
      → is_line c.private_key ≡ true
      → is_line c.address ≡ true
      → is_line c.dns ≡ true
      → is_line c.peer_pubkey ≡ true
      → is_line c.endpoint ≡ true
      → (text : Bytes) × ((handle_import_custom h o r w).0.calls
          ≡ w.calls ++ (write_file (h.join w.config_dir (c.name ++ codes ".conf")) text ∷ []))
        × (values text
            ≡ some c.private_key
              ∷ some c.address
              ∷ some c.dns
              ∷ some c.peer_pubkey
              ∷ some c.endpoint
              ∷ some (codes "0.0.0.0/0")
              ∷ some (signed_decimal (keepalive c.persistent_keepalive))
              ∷ [])
  unfolding handle_import_custom import_custom import_as import_config append_tunnel custom_conf
      is_line
  handle_import_custom-values m e full written a b d f g = (
    custom_conf c,
    rw (m, e, full, written) refl,
    values-ini _ record {
      private_key = a;
      address = b;
      dns = d;
      public_key = f;
      endpoint = g;
      allowed_ips = refl;
      keepalive = is_line-signed_decimal (keepalive c.persistent_keepalive);
    },
  )

-- A POST for the proxied mode that names no port takes the first verified port, unless that is 0,
-- and reports it with the country that it names; while there is no verified port it is refused with
-- the status 503 and changes nothing.
pub handle_routing-gold :
    (quote : Bytes → Bytes) (ip_text : List ℕ → Bytes) (o : Outside) (r : Request) (k : Checker)
    (c : Controller) (country : Bytes) (p : ℕ) (ps : List ℕ)
    → r.method ≡ post
    → r.wanted ≡ ok record { mode = codes "proxied"; country = country; port = 0 }
    → p ≢ 0
    → (handle_routing quote ip_text o r (record k { gold_ports = [] }) c
        ≡ (c, no_gold quote ip_text o))
      × (get_status (handle_routing quote ip_text o r (record k { gold_ports = p ∷ ps }) c).0
          ≡ (mode_proxied, country, p))
unfolding handle_routing by_method post_routing port_for proxy_through set_mode get_status tell_mode
    bytes_eq
handle_routing-gold quote ip_text o r k c country p ps m e ne =
    let kept : (p == 0) ≡ false = ground arith in (rw (m, e) refl, rw (m, e, kept) refl)
