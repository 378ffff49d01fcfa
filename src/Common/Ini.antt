-- ===== src/Common/Ini.antt =====
-- The WireGuard configuration that the program prints for a client and for an imported tunnel, and
-- the reading of a value from its lines.
use mathlib.Core.List.{append_assoc, append-nil}
use wg_proxy.Common.{
  ◌≡◌, refl, ap, ◌∙◌, Bool, true, false, not, ◌&&◌, Option, none, some, List, [], ◌∷◌, ◌++◌, ◌==◌,
  if◌then◌else◌, map, and-eq-true, arith,
}
use wg_proxy.Common.Bytes.{Bytes, codes}
use wg_proxy.Common.Strings.{has_prefix, trim_prefix, split_from, split}

-- One line of the form `key = value`.
unfoldable pub setting : Bytes → Bytes → Bytes
setting key value = key ++ (codes " = " ++ value)

pub record Ini : Type 0 where
  pub private_key : Bytes
  pub address : Bytes
  pub dns : Bytes
  pub public_key : Bytes
  pub endpoint : Bytes
  pub allowed_ips : Bytes
  pub keepalive : Bytes

unfoldable pub ini_lines : Ini → List Bytes
unfolding setting
ini_lines c =
    codes "[Interface]"
    ∷ setting (codes "PrivateKey") c.private_key
    ∷ setting (codes "Address") c.address
    ∷ setting (codes "DNS") c.dns
    ∷ []
    ∷ codes "[Peer]"
    ∷ setting (codes "PublicKey") c.public_key
    ∷ setting (codes "Endpoint") c.endpoint
    ∷ setting (codes "AllowedIPs") c.allowed_ips
    ∷ setting (codes "PersistentKeepalive") c.keepalive
    ∷ []

-- Each line ends in a line feed.
unfoldable pub unlines : List Bytes → Bytes
unlines [] = []
unlines (l ∷ ls) = l ++ (b'\n' ∷ unlines ls)

-- The format of the two configurations.
unfoldable pub ini : Ini → Bytes
unfolding unlines ini_lines
ini c = unlines (ini_lines c)

-- A text without a line feed.
unfoldable pub is_line : Bytes → Bool
is_line [] = true
is_line (c ∷ s) = not (c == b'\n') && is_line s

unfoldable pub are_lines : List Bytes → Bool
are_lines [] = true
are_lines (l ∷ ls) = is_line l && are_lines ls

-- The value of the first line of a key.
unfoldable pub read_key : Bytes → List Bytes → Option Bytes
read_key key [] = none
read_key key (l ∷ ls) =
    if has_prefix l (key ++ codes " = ")
    then some (trim_prefix l (key ++ codes " = "))
    else read_key key ls

pub is_line-append : (s t : Bytes) → is_line s ≡ true → is_line t ≡ true → is_line (s ++ t) ≡ true
unfolding is_line
is_line-append [] t h k = k
is_line-append (c ∷ s) t h k =
    let (a, b) = and-eq-true (not (c == b'\n')) (is_line s) h in rw a (is_line-append s t b k)

split_from-is_line :
    (w s rest : Bytes)
    → is_line s ≡ true
    → split_from b'\n' w (s ++ (b'\n' ∷ rest)) ≡ (w ++ s) ∷ split_from b'\n' [] rest
unfolding split_from is_line
split_from-is_line w [] rest h = rw append-nil refl
split_from-is_line w (c ∷ s) rest h =
    let (a, b) = and-eq-true (not (c == b'\n')) (is_line s) h in
    let other : (c == b'\n') ≡ false = ground arith in
    rw (other, split_from)
      (split_from-is_line (w ++ (c ∷ [])) s rest b
        ∙ ap (λ v. v ∷ split_from b'\n' [] rest) (append_assoc w (c ∷ []) s))

pub split-unlines :
    (ls : List Bytes) → are_lines ls ≡ true → split b'\n' (unlines ls) ≡ ls ++ ([] ∷ [])
unfolding split unlines are_lines
split-unlines [] h = refl
split-unlines (l ∷ ls) h =
    let (a, b) = and-eq-true (is_line l) (are_lines ls) h in
    split_from-is_line [] l (unlines ls) a ∙ ap (◌∷◌ l) (split-unlines ls b)

-- The values are lines, so the settings are.
pub record AreLines (c : Ini) : Type 0 where
  pub private_key : is_line c.private_key ≡ true
  pub address : is_line c.address ≡ true
  pub dns : is_line c.dns ≡ true
  pub public_key : is_line c.public_key ≡ true
  pub endpoint : is_line c.endpoint ≡ true
  pub allowed_ips : is_line c.allowed_ips ≡ true
  pub keepalive : is_line c.keepalive ≡ true

setting-is_line :
    (key value : Bytes)
    → is_line key ≡ true
    → is_line value ≡ true
    → is_line (setting key value) ≡ true
unfolding setting is_line
setting-is_line key value h k = is_line-append key _ h k

are_lines-ini_lines : (c : Ini) → AreLines c → are_lines (ini_lines c) ≡ true
unfolding are_lines ini_lines is_line
are_lines-ini_lines c h =
    rw
      (
        setting-is_line (codes "PrivateKey") c.private_key refl h.private_key,
        setting-is_line (codes "Address") c.address refl h.address,
        setting-is_line (codes "DNS") c.dns refl h.dns,
        setting-is_line (codes "PublicKey") c.public_key refl h.public_key,
        setting-is_line (codes "Endpoint") c.endpoint refl h.endpoint,
        setting-is_line (codes "AllowedIPs") c.allowed_ips refl h.allowed_ips,
        setting-is_line (codes "PersistentKeepalive") c.keepalive refl h.keepalive,
      )
      refl

-- What a reader of the lines finds under the seven keys.
unfoldable values_of : List Bytes → List (Option Bytes)
values_of ls =
    map (λ key. read_key key ls)
      (codes "PrivateKey"
        ∷ codes "Address"
        ∷ codes "DNS"
        ∷ codes "PublicKey"
        ∷ codes "Endpoint"
        ∷ codes "AllowedIPs"
        ∷ codes "PersistentKeepalive"
        ∷ [])

unfoldable pub values : Bytes → List (Option Bytes)
unfolding split values_of
values text = values_of (split b'\n' text)

pub values-ini :
    (c : Ini)
    → AreLines c
    → values (ini c)
      ≡ some c.private_key
        ∷ some c.address
        ∷ some c.dns
        ∷ some c.public_key
        ∷ some c.endpoint
        ∷ some c.allowed_ips
        ∷ some c.keepalive
        ∷ []
unfolding values values_of ini ini_lines read_key setting has_prefix trim_prefix
values-ini c h = ap values_of (split-unlines (ini_lines c) (are_lines-ini_lines c h))
