-- ===== src/Handlers/Imports.antt =====
-- The handlers that import a tunnel (internal/handlers/routes.go): from a file, from an address,
-- and from the values of a form.
use wg_proxy.Common.{
  ℕ, Bool, not, ◌||◌, Option, none, some, List, [], ◌∷◌, ◌++◌, ◌-◌, ◌^◌, ◌==◌, ltb, if◌then◌else◌,
}
use wg_proxy.Common.Bytes.{Bytes, codes, is_empty, trim_suffix, decimal}
use wg_proxy.Common.Errors.{GoError, Result, ok, err, error_string}
use wg_proxy.Common.Strings.{split}
use wg_proxy.Common.Ini.{ini}
use wg_proxy.Tunnels.Manager.{Host, World}
use wg_proxy.Tunnels.Manager.Actions.{import_config}
use wg_proxy.Handlers.{is_post, Custom, Request, Outside, Response, json_error, answer, not_allowed}

abbrev pub conf_suffix : Bytes
conf_suffix = codes ".conf"

-- The last part of a text that is split; there is one always.
unfoldable pub last_part : List Bytes → Bytes
last_part [] = []
last_part (s ∷ []) = s
last_part (s ∷ t ∷ ts) = last_part (t ∷ ts)

abbrev pub name_or_imported : Bytes → Bytes
name_or_imported name = if is_empty name then codes "imported" else name

-- A keepalive of zero is replaced by 25.
abbrev pub keepalive : ℕ → ℕ
keepalive n = if n == 0 then 25 else n

-- `%d` of an int, which is its 64-bit pattern.
unfoldable pub signed_decimal : ℕ → Bytes
signed_decimal n = if ltb n (2 ^ 63) then decimal n else b'-' ∷ decimal (2 ^ 64 - n)

-- The configuration that `handleImportCustom` prints.
unfoldable pub custom_conf : Custom → Bytes
custom_conf c = ini record {
  private_key = c.private_key;
  address = c.address;
  dns = c.dns;
  public_key = c.peer_pubkey;
  endpoint = c.endpoint;
  allowed_ips = codes "0.0.0.0/0";
  keepalive = signed_decimal (keepalive c.persistent_keepalive);
}

abbrev pub lacks_field : Custom → Bool
lacks_field c =
    is_empty c.name
    || (is_empty c.private_key
        || (is_empty c.address || (is_empty c.peer_pubkey || is_empty c.endpoint)))

module _ (h : Host) (o : Outside) where
  abbrev pub imported : Bytes → World × Option GoError → World × Response
  imported name (w, e) = (w, answer h.quote 500 (codes "imported") name e)

  -- From the name on, as the three handlers end.
  unfoldable pub import_as : Bytes → Bytes → World → World × Response
  import_as name content w = imported name (import_config h o.import_fault name content w)

  unfoldable pub import_file : Bytes → Result Bytes → World → World × Response
  import_file filename (err e) w = (w, json_error 500 (codes "failed to read file"))
  import_file filename (ok content) w =
      if is_empty (trim_suffix filename conf_suffix)
      then (w, json_error 400 (codes "invalid filename"))
      else import_as (trim_suffix filename conf_suffix) content w

  unfoldable pub import_form :
      Option GoError → Result (Bytes × Result Bytes) → World → World × Response
  import_form (some e) file w = (w, json_error 400 (codes "invalid multipart form"))
  import_form none (err e) w = (w, json_error 400 (codes "missing 'config' file field"))
  import_form none (ok (filename, content)) w = import_file filename content w

  -- `handleImport`
  unfoldable pub handle_import : Request → World → World × Response
  handle_import r w =
      if not (is_post r.method) then (w, not_allowed) else import_form r.form r.file w

  unfoldable pub import_body : Bytes → Result Bytes → World → World × Response
  import_body url (err e) w = (w, json_error 500 (codes "failed to read response body"))
  import_body url (ok content) w =
      import_as (name_or_imported (trim_suffix (last_part (split b'/' url)) conf_suffix)) content w

  unfoldable pub import_download : Bytes → Result (ℕ × Result Bytes) → World → World × Response
  import_download url (err e) w =
      (w, json_error 500 (codes "failed to download: " ++ error_string h.quote e))
  import_download url (ok (status, content)) w =
      if not (status == 200)
      then (w, json_error 500 (codes "download returned status " ++ signed_decimal status))
      else import_body url content w

  unfoldable pub import_url : Result Bytes → World → World × Response
  import_url (err e) w = (w, json_error 400 (codes "missing or invalid 'url' field"))
  import_url (ok url) w =
      if is_empty url
      then (w, json_error 400 (codes "missing or invalid 'url' field"))
      else import_download url (o.download url) w

  -- `handleImportURL`
  unfoldable pub handle_import_url : Request → World → World × Response
  handle_import_url r w = if not (is_post r.method) then (w, not_allowed) else import_url r.url w

  unfoldable pub import_custom : Result Custom → World → World × Response
  import_custom (err e) w = (w, json_error 400 (codes "invalid JSON body"))
  import_custom (ok c) w =
      if lacks_field c
      then (w, json_error 400 (codes "missing required fields"))
      else import_as c.name (custom_conf c) w

  -- `handleImportCustom`
  unfoldable pub handle_import_custom : Request → World → World × Response
  handle_import_custom r w =
      if not (is_post r.method) then (w, not_allowed) else import_custom r.custom w
