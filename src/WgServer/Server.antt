-- ===== src/WgServer/Server.antt =====
-- The VPN server and its clients (internal/wgserver/server.go): `AddPeer`, `RemovePeer`,
-- `GetClientConfig` and `Status`. The commands `wg`, `ip` and `iptables` and the files are known by
-- their results, which are arguments; `calls` holds the commands in order.
pub mod Clients
pub mod Removal
pub mod Saving
pub mod Access
pub mod Added
pub mod Unfailing
use wg_proxy.Common.{
  true, false, ℕ, Bool, not, Option, none, some, List, [], ◌∷◌, ◌++◌, if◌then◌else◌, length,
}
use wg_proxy.Common.Bytes.{Bytes, codes, is_empty, decimal}
use wg_proxy.Common.Errors.{GoError, message, quoting, wrapping, Result, ok, err}
use wg_proxy.WgServer.Peers.{Peer, PeerStore, Writing, add, get, remove}
use wg_proxy.WgServer.Addresses.{Subnet, allocate_ip}

-- The fields of `config.Config` that the server reads.
pub record Settings : Type 0 where
  pub server_addr : Bytes
  pub server_port : ℕ
  pub server_subnet : Bytes
  pub server_dns : Bytes

-- The arguments of `iptables` less its flag `-A` or `-D`, joined by spaces.
abbrev pub Rule : Type 0
Rule = Bytes

-- What the server changes outside its memory. Those with a Boolean say whether the command
-- succeeded.
pub data WgCall : Type 0 where
  -- `wg set … peer` and `wg set … peer … remove`
  set_peer : Bytes → Bytes → Bool → WgCall
  remove_peer_key : Bytes → Bool → WgCall
  -- `wg set … listen-port … private-key`
  listen : ℕ → Bytes → WgCall
  -- `ip link del`, `ip link add`, `ip link set … up`, `ip addr add`
  link_del link_add link_up : WgCall
  addr_add : Bytes → WgCall
  -- the temporary file with the private key
  write_temp : Bytes → Bytes → WgCall
  remove_temp : Bytes → WgCall
  -- `/proc/sys/net/ipv4/ip_forward`
  enable_forwarding : WgCall
  -- `iptables -A` and `iptables -D`
  add_rule : Rule → Bool → WgCall
  delete_rule : Rule → Bool → WgCall

pub record Server : Type 0 where
  pub settings : Settings
  pub private_key : Bytes
  pub public_key : Bytes
  pub key_file : Option Bytes  -- none: cannot be read
  pub pub_file : Option Bytes
  pub running : Bool
  pub peers : PeerStore
  pub calls : List WgCall

-- `ClientConfig`
pub record ClientConfig : Type 0 where
  pub name : Bytes
  pub private_key : Bytes
  pub address : Bytes
  pub dns : Bytes
  pub server_pub_key : Bytes
  pub endpoint : Bytes
  pub allowed_ips : Bytes

-- `AllowedIPs` and the endpoint that a client gets; `public_ip` is what `detectPublicIP` returns.
abbrev pub endpoint_host : Settings → Bytes → Bytes
endpoint_host c public_ip =
    if not (is_empty c.server_addr)
    then c.server_addr
    else if not (is_empty public_ip)
    then public_ip
    else codes "YOUR_SERVER_IP"

unfoldable pub client_config : Server → Bytes → Bytes → Bytes → Bytes → ClientConfig
client_config s public_ip name private_key address = record {
  name = name;
  private_key = private_key;
  address = address;
  dns = s.settings.server_dns;
  server_pub_key = s.public_key;
  endpoint = endpoint_host s.settings public_ip ++ (codes ":" ++ decimal s.settings.server_port);
  allowed_ips = codes "0.0.0.0/0, ::/0";
}

-- What the world answers to one `AddPeer`: the new key pair, the subnet, the error of `wg set`,
-- whether `wg set … remove` succeeds, the write of the peers file, the time, and the public
-- address.
pub record Answers : Type 0 where
  pub keys : Result (Bytes × Bytes)
  pub subnet : Result Subnet
  pub wg_set : Option GoError
  pub unsets : Bool
  pub writing : Writing
  pub now : ℕ
  pub public_ip : Bytes

abbrev pub wg : WgCall → Server → Server
wg c s = record s { calls = s.calls ++ (c ∷ []) }

abbrev pub not_running : GoError
not_running = message (codes "wg server not running")

abbrev pub Added : Type 0
Added = Server × Result ClientConfig

-- From the saving of the peer on; on failure the peer is taken from the interface again.
abbrev pub after_save : Answers → Bytes → Peer → Server → PeerStore × Option GoError → Added
after_save a name peer s (store, some e) = (
  wg (remove_peer_key peer.public_key a.unsets) (record s { peers = store }),
  err (wrapping (codes "saving peer") e),
)
after_save a name peer s (store, none) = (
  record s { peers = store },
  ok (client_config s a.public_ip name peer.private_key peer.allowed_ip),
)

-- From the new peer on: `wg set`, then the store.
unfoldable pub install : Answers → Bytes → Peer → Option GoError → Server → Added
install a name peer (some e) s = (
  wg (set_peer peer.public_key peer.allowed_ip false) s,
  err (wrapping (codes "adding peer to interface") e),
)
install a name peer none s =
    after_save a name peer (wg (set_peer peer.public_key peer.allowed_ip true) s)
      (add a.writing a.now peer s.peers)

abbrev pub new_peer : Bytes → Bytes × Bytes → Bytes → Peer
new_peer name (private_key, public_key) ip = record {
  name = name;
  public_key = public_key;
  private_key = private_key;
  allowed_ip = ip ++ codes "/32";
  created_at = 0;
}

unfoldable pub with_address : Answers → Bytes → Bytes × Bytes → Result Bytes → Server → Added
unfolding install
with_address a name keys (err e) s = (s, err (wrapping (codes "allocating IP") e))
with_address a name keys (ok ip) s = install a name (new_peer name keys ip) a.wg_set s

module _ (ip_text : List ℕ → Bytes) where
  unfoldable pub with_keys : Answers → Bytes → Result (Bytes × Bytes) → Server → Added
  unfolding with_address
  with_keys a name (err e) s = (s, err (wrapping (codes "generating keypair") e))
  with_keys a name (ok keys) s =
      with_address a name keys (allocate_ip ip_text s.settings.server_subnet a.subnet s.peers.peers)
        s

  if_new : Answers → Bytes → Option Peer → Server → Added
  if_new a name (some p) s = (s, err (quoting (codes "peer ") name (codes " already exists")))
  if_new a name none s = with_keys a name a.keys s

  -- `AddPeer`
  unfoldable pub add_peer : Answers → Bytes → Server → Added
  unfolding with_keys if_new
  add_peer a name s =
      if not s.running then (s, err not_running) else if_new a name (get s.peers name) s

-- The last step of `RemovePeer`; an error of `wg set … remove` is only logged.
abbrev pub after_remove : Server → PeerStore × Option GoError → Server × Option GoError
after_remove s (store, none) = (record s { peers = store }, none)
after_remove s (store, some e) =
    (record s { peers = store }, some (wrapping (codes "removing peer from store") e))

remove_found : Bool → Writing → Bytes → Option Peer → Server → Server × Option GoError
remove_found unsets w name none s = (s, some (quoting (codes "peer ") name (codes " not found")))
remove_found unsets w name (some p) s =
    after_remove (wg (remove_peer_key p.public_key unsets) s) (remove w name s.peers)

-- `RemovePeer`, where `unsets` tells whether `wg set … remove` succeeds
unfoldable pub remove_peer : Bool → Writing → Bytes → Server → Server × Option GoError
unfolding remove_found
remove_peer unsets w name s =
    if not s.running then (s, some not_running) else remove_found unsets w name (get s.peers name) s

config_of : Server → Bytes → Bytes → Option Peer → Result ClientConfig
config_of s public_ip name none = err (quoting (codes "peer ") name (codes " not found"))
config_of s public_ip name (some p) = ok (client_config s public_ip name p.private_key p.allowed_ip)

-- `GetClientConfig`
unfoldable pub get_client_config : Bytes → Bytes → Server → Result ClientConfig
unfolding config_of
get_client_config public_ip name s = config_of s public_ip name (get s.peers name)

-- `ServerStatus`
pub record ServerStatus : Type 0 where
  pub running : Bool
  pub public_key : Bytes
  pub endpoint : Bytes
  pub port : ℕ
  pub subnet : Bytes
  pub peer_count : ℕ

-- `Status`
pub status : Bytes → Server → ServerStatus
status public_ip s = record {
  running = s.running;
  public_key = s.public_key;
  endpoint = if is_empty s.settings.server_addr then public_ip else s.settings.server_addr;
  port = s.settings.server_port;
  subnet = s.settings.server_subnet;
  peer_count = length s.peers.peers;
}
