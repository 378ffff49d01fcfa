-- ===== src/WgServer/Peers.antt =====
-- The store of the VPN clients (internal/wgserver/peers.go). The file is known by the JSON value
-- that its text is; what `os.ReadFile` and `os.WriteFile` return is an argument. Peers do not
-- change once they are stored, so that their pointers stand for the values; of a list with nil
-- entries only the panic of `List` is modelled, which `Start` calls behind `Load`.
use wg_proxy.Common.{ℕ, Bool, true, false, Option, none, some, List, [], ◌∷◌, ◌++◌, if◌then◌else◌}
use wg_proxy.Common.Bytes.{Bytes, codes, bytes_eq}
use wg_proxy.Common.Errors.{GoError, quoting, wrapping}

pub record Peer : Type 0 where
  pub name : Bytes
  pub public_key : Bytes
  pub private_key : Bytes
  pub allowed_ip : Bytes
  pub created_at : ℕ

-- A JSON string or time.
pub data Value : Type 0 where
  text : Bytes → Value
  time : ℕ → Value

-- The members of a JSON object, by their names.
abbrev pub Object : Type 0
Object = List (Bytes × Value)

-- The peers file: not there, unreadable, no list of peers, or the array that its text is; an entry
-- is an object that has each of the five names at most once, or `none` for `null`.
pub data PeersFile : Type 0 where
  absent : PeersFile
  unreadable malformed : GoError → PeersFile
  holds : List (Option Object) → PeersFile

-- `has_nil` tells that the loaded list has nil entries behind those in `peers`, on which `List`
-- panics.
pub record PeerStore : Type 0 where
  pub peers : List Peer
  pub has_nil : Bool
  pub file : PeersFile

-- What a write of the file does: it may fail with any file left behind. `coded` is what
-- encoding/json makes of a string, read back: the string itself, if it is valid UTF-8.
pub data Writing : Type 0 where
  written : (Bytes → Bytes) → Writing
  broken : GoError → PeersFile → Writing

-- `NewPeerStore`
unfoldable pub new_peer_store : PeersFile → PeerStore
new_peer_store file = record { peers = []; has_nil = false; file = file }

-- A field of a `Peer`, by the name in its tag; a member that is not there leaves the zero value.
unfoldable pub member_text : Bytes → Object → Bytes
member_text key [] = []
member_text key ((k, text s) ∷ o) = if bytes_eq k key then s else member_text key o
member_text key ((k, time t) ∷ o) = member_text key o

unfoldable pub member_time : Bytes → Object → ℕ
member_time key [] = 0
member_time key ((k, time t) ∷ o) = if bytes_eq k key then t else member_time key o
member_time key ((k, text s) ∷ o) = member_time key o

-- `json.Unmarshal` of an object
unfoldable pub decode_peer : Object → Peer
unfolding member_text member_time
decode_peer o = record {
  name = member_text (codes "name") o;
  public_key = member_text (codes "public_key") o;
  private_key = member_text (codes "private_key") o;
  allowed_ip = member_text (codes "allowed_ip") o;
  created_at = member_time (codes "created_at") o;
}

-- `json.MarshalIndent` of a peer
unfoldable pub encode_peer : (Bytes → Bytes) → Peer → Object
encode_peer coded p =
    (codes "name", text (coded p.name))
    ∷ (codes "public_key", text (coded p.public_key))
    ∷ (codes "private_key", text (coded p.private_key))
    ∷ (codes "allowed_ip", text (coded p.allowed_ip))
    ∷ (codes "created_at", time p.created_at)
    ∷ []

unfoldable pub decode_peers : List (Option Object) → List Peer
unfolding decode_peer
decode_peers [] = []
decode_peers (none ∷ os) = decode_peers os
decode_peers (some o ∷ os) = decode_peer o ∷ decode_peers os

unfoldable pub any_null : List (Option Object) → Bool
any_null [] = false
any_null (none ∷ os) = true
any_null (some o ∷ os) = any_null os

unfoldable pub encode_peers : (Bytes → Bytes) → List Peer → List (Option Object)
unfolding encode_peer
encode_peers coded [] = []
encode_peers coded (p ∷ ps) = some (encode_peer coded p) ∷ encode_peers coded ps

load_file : PeersFile → PeerStore → PeerStore × Option GoError
unfolding decode_peers any_null
load_file absent s = (s, none)
load_file (unreadable e) s = (s, some (wrapping (codes "reading peers file") e))
load_file (malformed e) s = (s, some (wrapping (codes "parsing peers file") e))
load_file (holds os) s = (record s { peers = decode_peers os; has_nil = any_null os }, none)

-- `Load`
unfoldable pub load : PeerStore → PeerStore × Option GoError
unfolding load_file
load s = load_file s.file s

-- `Save`
unfoldable pub save : Writing → PeerStore → PeerStore × Option GoError
unfolding encode_peers
save (written coded) s = (record s { file = holds (encode_peers coded s.peers) }, none)
save (broken e file) s = (record s { file = file }, some e)

-- `Add`, at the time `now`
unfoldable pub add : Writing → ℕ → Peer → PeerStore → PeerStore × Option GoError
unfolding save
add w now peer s = save w (record s { peers = s.peers ++ (record peer { created_at = now } ∷ []) })

unfoldable pub find : Bytes → List Peer → Option Peer
find name [] = none
find name (p ∷ ps) = if bytes_eq p.name name then some p else find name ps

-- `Get`
abbrev pub get : PeerStore → Bytes → Option Peer
get s name = find name s.peers

-- `append(ps.peers[:i], ps.peers[i+1:]...)` at the first peer of the name, if there is one
unfoldable pub without : Bytes → List Peer → Option (List Peer)
without name [] = none
without name (p ∷ ps) =
    if bytes_eq p.name name
    then some ps
    else elim (without name ps) [ none ↦ none | some rest ↦ some (p ∷ rest) ]

-- `Remove`
unfoldable pub remove : Writing → Bytes → PeerStore → PeerStore × Option GoError
unfolding save
remove w name s = elim (without name s.peers) [
  | none ↦ (s, some (quoting (codes "peer ") name (codes " not found")))
  | some rest ↦ save w (record s { peers = rest })
]
