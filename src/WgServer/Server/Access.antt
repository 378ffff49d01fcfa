-- ===== src/WgServer/Server/Access.antt =====
-- The reading methods of the VPN server (internal/wgserver/server.go) and of its store
-- (internal/wgserver/peers.go).
use wg_proxy.Common.{Bool, Option, List}
use wg_proxy.Common.Bytes.{Bytes}
use wg_proxy.WgServer.Peers.{Peer, PeerStore, get}
use wg_proxy.WgServer.Server.{Server}

-- `PublicKey` and `IsRunning`
abbrev pub public_key_of : Server → Bytes
public_key_of s = s.public_key

abbrev pub is_server_running : Server → Bool
is_server_running s = s.running

-- `PeerStore.List`: a copy of each peer
abbrev pub list : PeerStore → List Peer
list s = s.peers

-- `ListPeers`
abbrev pub list_peers : Server → List Peer
list_peers s = list s.peers

-- `GetPeer`
abbrev pub get_peer : Server → Bytes → Option Peer
get_peer s name = get s.peers name
