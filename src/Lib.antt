-- ===== src/Lib.antt =====
-- wg-proxy: a SOCKS5 gateway over WireGuard tunnels, with a VPN server of its own.
--
-- The program starts one `wireproxy` process for each WireGuard configuration, each with a SOCKS5
-- port on the local host. The balancing proxy gives every client to a healthy tunnel in turn, the
-- retrying proxy tries several; a health checker sets the tunnels' status; the VPN server hands
-- addresses to its clients.
--
-- Common: Boolean tests, lists over the native numbers, Go strings as lists of bytes, Go errors,
--   and `Option` as the monad in which `none` is a run-time panic.
-- Config: internal/config/config.go. `os.Getenv` and `time.ParseDuration` are parameters.
-- Tunnels: the types of internal/tunnels/manager.go, and the memory of the tunnels, which the
--   program shares by pointers. Tunnels.Manager and Tunnels.Manager.Actions: the methods of
--   `Manager` as functions on the `World`, with the calls to the operating system recorded and
--   their results as arguments. `start_tunnel` ends with the start of the process; `reap` is what
--   its goroutine does when the process has ended.
-- Proxy.Conn: a TCP connection as the segments that will arrive, with `Read` and `io.ReadFull`.
--   Proxy.Socks, Proxy.Picker, Proxy.Connection and Proxy.Countries: internal/proxy/server.go; a
--   peer that stops taking bytes ends the relay in its direction. Proxy.Retry and Proxy.Itoa:
--   internal/proxy/retry.go. A run of a handler is a function of what its peers send.
--   Proxy.Accepting has the accept loops and `Close` of internal/proxy/server.go as goroutines, and
--   Proxy.Retry.Accepting the accept loop of internal/proxy/retry.go.
-- Health: internal/health/checker.go. `checkAll` is a fold over the listed tunnels, run while
--   nothing else writes to them; `net.DialTimeout` and the HTTPS probe are parameters. Health.Loop
--   folds the rounds of the ticks, and Health.ExitIp has `resolveExitIP`, where `client.Get` is a
--   parameter. Health.Lifecycle has `Start`, `Stop` and `loop` as goroutines, by what they do to
--   `stopCh` and `wg`; there the ticker is a step that may come at any time.
-- WgServer.Peers: internal/wgserver/peers.go, with the file as the JSON value that its text is, an
--   array of objects with the names of the tags or of null entries. WgServer.Addresses and
--   WgServer.Server: internal/wgserver/server.go. `net.IP.String` and the result of `net.ParseCIDR`
--   are parameters. WgServer.Routing: internal/wgserver/routing.go, with the shell commands that it
--   runs as texts. WgServer.Keys, WgServer.Keypair, WgServer.Gateway and WgServer.Network: the rest
--   of internal/wgserver/server.go, which is the key files, the generation of keys, `Start` and
--   `Stop` with the interface and the firewall, and the texts for the clients.
--   WgServer.Gateway.Table interprets the calls of iptables in a table of rules, failed deletions
--   included, and WgServer.Members those of wg and ip in the public keys of the interface.
-- System: the goroutines of internal/tunnels/manager.go and internal/health/checker.go, and the
--   connections that internal/proxy/server.go serves, on one `World`. `Runs` has a step for each
--   critical section and for each call between two of them, `Arrives` one for each method that is
--   called, and `Steps` interleaves them in any order; `Goes` is the part of it without new calls.
-- Dashboard: internal/web/dashboard.go. `Reach` relates the messages of the broadcast loop to the
--   clients' channels; an event stream takes a message with `take_message`. Dashboard.Broadcast
--   ranges over the map of clients, a list up to its order, and Dashboard.Stream has what
--   `HandleSSE` writes and a reader of the format text/event-stream.
-- Handlers: internal/handlers/routes.go, as functions on the `App`, which holds the manager, the
--   checker, the mapping of the countries, the VPN server and the routing. A request carries what
--   the decoders make of its body, and `Outside` what the network and the system answer.
-- Tests: runs of the definitions, and the theorems at concrete inputs.
--
-- Machine integers keep their wrap-around: `add64` and `% 2 ^ 64`. The fuel of `attempts` is the
-- bound of the loop, the smaller of five and the number of backends; `search_from` has 252 rounds,
-- those of the loop from 2 to 253; `decimal` and `digit_loop` have the number itself, more than it
-- has digits, and `swap_loop` the length of the text, more than the swaps. `take_messages` counts
-- rounds of a loop that does not end.
--
-- Not modelled, as they are input and output: timers, deadlines, logging, the headers of responses,
-- the text form of the peers file, and the JSON coding of requests and of responses. Also not
-- modelled: what the commands wg and ip do besides, such as the allowed addresses of the clients,
-- and the effect of the routing commands.
pub mod Common
pub mod Config
pub mod Tunnels
pub mod Proxy
pub mod WgServer
pub mod Health
pub mod System
pub mod Dashboard
pub mod Handlers
pub mod Tests
