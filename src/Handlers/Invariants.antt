-- ===== src/Handlers/Invariants.antt =====
-- What the requests to the manager keep (internal/handlers/routes.go).
use mathlib.Core.Path.{subst}
use wg_proxy.Common.{
  ℕ, ◌+◌, ◌^◌, ◌<◌, ◌≡◌, refl, ap, Option, none, some, List, [], ◌∷◌, ◌==◌, ◌&&◌, Bool-cases, inl,
  inr, some-inj, none-ne-some,
}
use wg_proxy.Common.Bytes.{Bytes, codes, bytes_eq, is_empty, trim_suffix}
use wg_proxy.Common.Errors.{GoError, Result, ok, err}
use wg_proxy.Tunnels.Manager.{Host, World}
use wg_proxy.Tunnels.Manager.Actions.{Outcome, restart, disconnect}
use wg_proxy.Tunnels.Manager.Actions
use wg_proxy.Tunnels.Manager.Validity.{IsValid, import_config-IsValid}
use wg_proxy.Tunnels.Manager.Outcomes.{restart-IsValid, disconnect-IsValid, delete_outcome-IsValid}
use wg_proxy.Handlers.{
  Method, is_post, is_delete, Custom, Request, Outside, Response, not_allowed, not_found_response,
}
use wg_proxy.Handlers.Imports.{
  import_as, import_file, import_form, handle_import, import_body, import_download, import_url,
  handle_import_url, import_custom, handle_import_custom, conf_suffix, lacks_field, custom_conf,
}
use wg_proxy.Handlers.Actions.{
  is_last, unknown_action, Acted, tell, delete_tunnel, perform, act, act_on, handle_tunnel_action,
}

-- All three branches of an import.
module _ (h : Host) (o : Outside) (w : World) (fits : w.next_port + 1 < 2 ^ 64)
    (valid : IsValid w) where
  abbrev pub Kept : World × Response → Type 0
  Kept x = IsValid x.0

  import_as-IsValid : (name content : Bytes) → Kept (import_as h o name content w)
  unfolding import_as
  import_as-IsValid name content = import_config-IsValid h o.import_fault name content w fits valid

  import_file-IsValid : (filename : Bytes) (c : Result Bytes) → Kept (import_file h o filename c w)
  unfolding import_file
  import_file-IsValid filename (err e) = valid
  import_file-IsValid filename (ok content) =
      elim (Bool-cases (is_empty (trim_suffix filename conf_suffix))) [
        | inl e ↦ rw e valid
        | inr e ↦ rw e (import_as-IsValid (trim_suffix filename conf_suffix) content)
      ]

  import_form-IsValid :
      (x : Option GoError) (f : Result (Bytes × Result Bytes)) → Kept (import_form h o x f w)
  unfolding import_form
  import_form-IsValid (some e) f = valid
  import_form-IsValid none (err e) = valid
  import_form-IsValid none (ok (filename, content)) = import_file-IsValid filename content

  pub handle_import-IsValid : (r : Request) → Kept (handle_import h o r w)
  unfolding handle_import
  handle_import-IsValid r = elim (Bool-cases (is_post r.method)) [
    | inl e ↦ rw e (import_form-IsValid r.form r.file)
    | inr e ↦ rw e valid
  ]

  import_body-IsValid : (url : Bytes) (c : Result Bytes) → Kept (import_body h o url c w)
  unfolding import_body
  import_body-IsValid url (err e) = valid
  import_body-IsValid url (ok content) = import_as-IsValid _ content

  import_download-IsValid :
      (url : Bytes) (d : Result (ℕ × Result Bytes)) → Kept (import_download h o url d w)
  unfolding import_download
  import_download-IsValid url (err e) = valid
  import_download-IsValid url (ok (status, content)) = elim (Bool-cases (status == 200)) [
    | inl e ↦ rw e (import_body-IsValid url content)
    | inr e ↦ rw e valid
  ]

  import_url-IsValid : (u : Result Bytes) → Kept (import_url h o u w)
  unfolding import_url
  import_url-IsValid (err e) = valid
  import_url-IsValid (ok url) = elim (Bool-cases (is_empty url)) [
    | inl e ↦ rw e valid
    | inr e ↦ rw e (import_download-IsValid url (o.download url))
  ]

  pub handle_import_url-IsValid : (r : Request) → Kept (handle_import_url h o r w)
  unfolding handle_import_url
  handle_import_url-IsValid r = elim (Bool-cases (is_post r.method)) [
    | inl e ↦ rw e (import_url-IsValid r.url)
    | inr e ↦ rw e valid
  ]

  import_custom-IsValid : (c : Result Custom) → Kept (import_custom h o c w)
  unfolding import_custom
  import_custom-IsValid (err e) = valid
  import_custom-IsValid (ok c) = elim (Bool-cases (lacks_field c)) [
    | inl e ↦ rw e valid
    | inr e ↦ rw e (import_as-IsValid c.name (custom_conf c))
  ]

  pub handle_import_custom-IsValid : (r : Request) → Kept (handle_import_custom h o r w)
  unfolding handle_import_custom
  handle_import_custom-IsValid r = elim (Bool-cases (is_post r.method)) [
    | inl e ↦ rw e (import_custom-IsValid r.custom)
    | inr e ↦ rw e valid
  ]

-- The actions on a tunnel, where they return.
module _ (h : Host) (o : Outside) (w : World) (valid : IsValid w) where
  abbrev pub IsKept : Acted → Type 0
  IsKept a = (v : World) (x : Response) → a ≡ some (v, x) → IsValid v

  same-IsKept : (x : Response) → IsKept (some (w, x))
  same-IsKept x v y e = subst IsValid (ap (λ z. z.0) (some-inj e)) valid

  tell-IsKept :
      (what name : Bytes) (r : Outcome)
      → ((v : World) (e : Option GoError) → r ≡ some (v, e) → IsValid v)
      → IsKept (tell h o what name r)
  unfolding tell
  tell-IsKept what name none k v x e = absurd (none-ne-some e)
  tell-IsKept what name (some (u, f)) k v x e =
      subst IsValid (ap (λ z. z.0) (some-inj e)) (k u f refl)

  delete_tunnel-IsKept : (name : Bytes) → IsKept (delete_tunnel h o name w)
  unfolding delete_tunnel
  delete_tunnel-IsKept name =
      tell-IsKept _ name (Actions.delete h.quote o.exit o.removal name w)
        λ v e k. delete_outcome-IsValid h.quote o.exit name o.removal w v e k valid

  perform-IsKept : (m : Method) (name action : Bytes) → IsKept (perform h o m name action w)
  unfolding perform
  perform-IsKept m name action = elim (Bool-cases (bytes_eq action (codes "restart"))) [
    | inl r ↦ elim (Bool-cases (is_post m)) [
      | inl p ↦
          rw (r, p)
            (tell-IsKept _ name (restart h.quote o.exit name w)
              λ v e k. restart-IsValid h.quote o.exit name w v e k valid)
      | inr p ↦ rw (r, p) (same-IsKept not_allowed)
    ]
    | inr r ↦ elim (Bool-cases (bytes_eq action (codes "disconnect"))) [
      | inl d ↦ elim (Bool-cases (is_post m)) [
        | inl p ↦
            rw (r, d, p)
              (tell-IsKept _ name (disconnect h.quote o.exit name w)
                λ v e k. disconnect-IsValid h.quote o.exit name w v e k valid)
        | inr p ↦ rw (r, d, p) (same-IsKept not_allowed)
      ]
      | inr d ↦ rw (r, d) (same-IsKept unknown_action)
    ]
  ]

  act-IsKept : (m : Method) (name : Bytes) (parts : List Bytes) → IsKept (act h o m name parts w)
  unfolding act
  act-IsKept m name [] = same-IsKept not_found_response
  act-IsKept m name (action ∷ parts) = perform-IsKept m name action

  act_on-IsKept : (m : Method) (parts : List Bytes) → IsKept (act_on h o m parts w)
  unfolding act_on
  act_on-IsKept m [] = same-IsKept not_found_response
  act_on-IsKept m (name ∷ parts) = elim (Bool-cases (is_empty name)) [
    | inl e ↦ rw e (same-IsKept not_found_response)
    | inr e ↦ elim (Bool-cases (is_delete m && is_last parts)) [
      | inl d ↦ rw (e, d) (delete_tunnel-IsKept name)
      | inr d ↦ rw (e, d) (act-IsKept m name parts)
    ]
  ]

  pub handle_tunnel_action-IsKept : (r : Request) → IsKept (handle_tunnel_action h o r w)
  unfolding handle_tunnel_action
  handle_tunnel_action-IsKept r = act_on-IsKept r.method _
