-- ===== src/WgServer/Keys.antt =====
-- The server's key pair: `loadOrGenerateKeys` (internal/wgserver/server.go). `derive` is
-- `derivePublicKey`, and `fresh` the result of `generateKeyPair`.
pub mod Reload
use wg_proxy.Common.{Option, none, some, [], ◌∷◌, ◌++◌}
use wg_proxy.Common.Bytes.{Bytes}
use wg_proxy.Common.Errors.{GoError, Result, ok, err}
use wg_proxy.Common.Strings.{trim_space}

-- The fields of the keys, and the two files; `none` is a file that cannot be read.
pub record KeyState : Type 0 where
  pub private_key : Bytes
  pub public_key : Bytes
  pub key_file : Option Bytes
  pub pub_file : Option Bytes

-- What a write of a file does: it may fail with any file left behind.
pub data FileWrite : Type 0 where
  complete : FileWrite
  partial : GoError → Option Bytes → FileWrite

pub record KeyAnswers : Type 0 where
  pub derive : Bytes → Result Bytes
  pub fresh : Result (Bytes × Bytes)
  pub wrote_key : FileWrite
  pub wrote_pub : FileWrite

abbrev pub key_line : Bytes → Bytes
key_line key = key ++ (b'\n' ∷ [])

unfoldable pub write_pub : FileWrite → KeyState → KeyState × Option GoError
write_pub complete k = (record k { pub_file = some (key_line k.public_key) }, none)
write_pub (partial e left) k = (record k { pub_file = left }, some e)

unfoldable pub write_keys : KeyAnswers → FileWrite → KeyState → KeyState × Option GoError
unfolding write_pub
write_keys a complete k =
    write_pub a.wrote_pub (record k { key_file = some (key_line k.private_key) })
write_keys a (partial e left) k = (record k { key_file = left }, some e)

unfoldable pub generate : KeyAnswers → Result (Bytes × Bytes) → KeyState → KeyState × Option GoError
unfolding write_keys
generate a (err e) k = (k, some e)
generate a (ok (private_key, public_key)) k =
    write_keys a a.wrote_key (record k { private_key = private_key; public_key = public_key })

unfoldable pub take_derived : KeyAnswers → Result Bytes → KeyState → KeyState × Option GoError
unfolding write_pub
take_derived a (err e) k = (k, some e)
take_derived a (ok key) k = write_pub a.wrote_pub (record k { public_key = key })

-- From the private key on, if its file could be read.
unfoldable pub take_public : KeyAnswers → Option Bytes → KeyState → KeyState × Option GoError
unfolding take_derived
take_public a (some text) k = (record k { public_key = trim_space text }, none)
take_public a none k = take_derived a (a.derive k.private_key) k

unfoldable pub load_with : KeyAnswers → Option Bytes → KeyState → KeyState × Option GoError
unfolding take_public generate
load_with a (some text) k = take_public a k.pub_file (record k { private_key = trim_space text })
load_with a none k = generate a a.fresh k

-- `loadOrGenerateKeys`
unfoldable pub load_or_generate_keys : KeyAnswers → KeyState → KeyState × Option GoError
unfolding load_with
load_or_generate_keys a k = load_with a k.key_file k
