-- ===== src/WgServer/Keys/Reload.antt =====
-- The keys survive a restart (internal/wgserver/server.go).
use wg_proxy.Common.{◌≡◌, refl, ap, ◌∙◌, Option, none, some}
use wg_proxy.Common.Bytes.{Bytes}
use wg_proxy.Common.Errors.{GoError, ok}
use wg_proxy.Common.Strings.Trimming.{NoSpace, trim_space-line}
use wg_proxy.WgServer.Keys.{KeyState, KeyAnswers, complete, load_or_generate_keys, key_line}

-- What a complete generation of a pair leaves.
generated : KeyState → Bytes → Bytes → KeyState
generated k private_key public_key = record k {
  private_key = private_key;
  public_key = public_key;
  key_file = some (key_line private_key);
  pub_file = some (key_line public_key);
}

load-generated :
    (a : KeyAnswers) (k : KeyState) (private_key public_key : Bytes)
    → k.key_file ≡ none
    → a.fresh ≡ ok (private_key, public_key)
    → a.wrote_key ≡ complete
    → a.wrote_pub ≡ complete
    → load_or_generate_keys a k ≡ (generated k private_key public_key, none)
unfolding load_or_generate_keys generated
load-generated a k private_key public_key absent made wrote wrote_pub = rw (
  absent, load_or_generate_keys, made, load_or_generate_keys, wrote, load_or_generate_keys,
  wrote_pub,
)

load-found :
    (b : KeyAnswers) (l : KeyState) (private_key public_key : Bytes)
    → NoSpace private_key
    → NoSpace public_key
    → l.key_file ≡ some (key_line private_key)
    → l.pub_file ≡ some (key_line public_key)
    → load_or_generate_keys b l
      ≡ (record l { private_key = private_key; public_key = public_key }, none)
unfolding load_or_generate_keys
load-found b l private_key public_key p q key key_pub = rw (
  key,
  load_or_generate_keys,
  key_pub,
  load_or_generate_keys,
  trim_space-line private_key p,
  trim_space-line public_key q,
)

-- A first start finds no private key, generates a pair without white space and writes both files.
-- Then any later start of a process that finds these files, whatever it could generate, ends with
-- the same pair, without an error, and leaves the files as they are.
pub load_or_generate_keys-reload :
    (a b : KeyAnswers) (k l : KeyState) (private_key public_key : Bytes)
    → k.key_file ≡ none
    → a.fresh ≡ ok (private_key, public_key)
    → NoSpace private_key
    → NoSpace public_key
    → a.wrote_key ≡ complete
    → a.wrote_pub ≡ complete
    → l.key_file ≡ (load_or_generate_keys a k).0.key_file
    → l.pub_file ≡ (load_or_generate_keys a k).0.pub_file
    → ((load_or_generate_keys b l).0 ≡ (load_or_generate_keys a k).0)
      × ((load_or_generate_keys b l).1 ≡ none)
unfolding generated
load_or_generate_keys-reload a b k l private_key public_key absent made p q wrote wrote_pub same
      same_pub =
    let first = load-generated a k private_key public_key absent made wrote wrote_pub in
    let key : l.key_file ≡ some (key_line private_key) =
      same ∙ ap (λ (r : KeyState × Option GoError). r.0.key_file) first in
    let key_pub : l.pub_file ≡ some (key_line public_key) =
      same_pub ∙ ap (λ (r : KeyState × Option GoError). r.0.pub_file) first in
    let second = load-found b l private_key public_key p q key key_pub in
    rw (second, first) (rw (key, key_pub) refl, refl)
