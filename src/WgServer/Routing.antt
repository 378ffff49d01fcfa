-- ===== src/WgServer/Routing.antt =====
-- The routing of the VPN clients' traffic (internal/wgserver/routing.go). The shell commands that
-- the controller runs are recorded; `runCmds` only logs their errors.
pub mod Modes
use wg_proxy.Common.{ℕ, Option, none, some, List, [], ◌∷◌, ◌++◌, ◌==◌, if◌then◌else◌}
use wg_proxy.Common.Bytes.{Bytes, codes, bytes_eq}
use wg_proxy.Common.Errors.{GoError, message}

abbrev pub mode_direct : Bytes
mode_direct = codes "direct"

abbrev pub mode_proxied : Bytes
mode_proxied = codes "proxied"

-- `RoutingController`, with the commands that it has run
pub record Controller : Type 0 where
  pub mode : Bytes
  pub exit_country : Bytes
  pub proxy_port : ℕ
  pub commands : List Bytes

-- `NewRoutingController`
unfoldable pub new_controller : Controller
new_controller = record { mode = mode_direct; exit_country = []; proxy_port = 10001; commands = [] }

-- `GetStatus`: the mode, the country of the exit and the port.
unfoldable pub get_status : Controller → Bytes × Bytes × ℕ
get_status c = (c.mode, c.exit_country, c.proxy_port)

-- `runCmds`
unfoldable pub run_cmds : List Bytes → Controller → Controller × Option GoError
run_cmds [] c = (c, none)
run_cmds (s ∷ ss) c = run_cmds ss (record c { commands = c.commands ++ (s ∷ []) })

-- Lines with line feeds between them.
abbrev lines : List Bytes → Bytes
lines [] = []
lines (l ∷ []) = l
lines (l ∷ m ∷ ls) = l ++ (b'\n' ∷ lines (m ∷ ls))

pub proxied_commands : List Bytes
proxied_commands =
    codes "iptables -t nat -D POSTROUTING -s 10.100.0.0/24 -j MASQUERADE 2>/dev/null || true"
    ∷ codes "iptables -t nat -F WG_PROXY 2>/dev/null || true"
    ∷ codes "iptables -t nat -N WG_PROXY 2>/dev/null || true"
    ∷ codes "iptables -t nat -A WG_PROXY -d 0.0.0.0/8 -j RETURN"
    ∷ codes "iptables -t nat -A WG_PROXY -d 10.0.0.0/8 -j RETURN"
    ∷ codes "iptables -t nat -A WG_PROXY -d 127.0.0.0/8 -j RETURN"
    ∷ codes "iptables -t nat -A WG_PROXY -d 169.254.0.0/16 -j RETURN"
    ∷ codes "iptables -t nat -A WG_PROXY -d 172.16.0.0/12 -j RETURN"
    ∷ codes "iptables -t nat -A WG_PROXY -d 192.168.0.0/16 -j RETURN"
    ∷ codes "iptables -t nat -A WG_PROXY -d 224.0.0.0/4 -j RETURN"
    ∷ codes "iptables -t nat -A WG_PROXY -d 240.0.0.0/4 -j RETURN"
    ∷ codes "iptables -t nat -A WG_PROXY -p tcp -j REDIRECT --to-ports 12345"
    ∷ codes
        "iptables -t nat -C PREROUTING -i wg-server -p tcp -j WG_PROXY 2>/dev/null || iptables -t nat -A PREROUTING -i wg-server -p tcp -j WG_PROXY"
    ∷ codes
        "iptables -t nat -C PREROUTING -i wg-server -p udp --dport 53 -j DNAT --to-destination 1.1.1.1:53 2>/dev/null || iptables -t nat -A PREROUTING -i wg-server -p udp --dport 53 -j DNAT --to-destination 1.1.1.1:53"
    ∷ codes
        "iptables -t nat -C POSTROUTING -o ens5 -j MASQUERADE 2>/dev/null || iptables -t nat -A POSTROUTING -o ens5 -j MASQUERADE"
    ∷ lines (
        codes "cat > /etc/redsocks.conf << 'RCONF'"
        ∷ codes "base {"
        ∷ codes "    log_debug = off;"
        ∷ codes "    log_info = on;"
        ∷ codes "    log = \"syslog:daemon\";"
        ∷ codes "    daemon = on;"
        ∷ codes "    redirector = iptables;"
        ∷ codes "}"
        ∷ codes "redsocks {"
        ∷ codes "    local_ip = 127.0.0.1;"
        ∷ codes "    local_port = 12345;"
        ∷ codes "    ip = 127.0.0.1;"
        ∷ codes "    port = 1090;"
        ∷ codes "    type = socks5;"
        ∷ codes "}"
        ∷ codes "RCONF"
        ∷ [])
    ∷ codes "systemctl restart redsocks"
    ∷ []

pub direct_commands : List Bytes
direct_commands =
    codes "iptables -t nat -D PREROUTING -i wg-server -p tcp -j WG_PROXY 2>/dev/null || true"
    ∷ codes
        "iptables -t nat -D PREROUTING -i wg-server -p udp --dport 53 -j DNAT --to-destination 1.1.1.1:53 2>/dev/null || true"
    ∷ codes "iptables -t nat -F WG_PROXY 2>/dev/null || true"
    ∷ codes
        "iptables -t nat -C POSTROUTING -s 10.100.0.0/24 -j MASQUERADE 2>/dev/null || iptables -t nat -A POSTROUTING -s 10.100.0.0/24 -j MASQUERADE"
    ∷ codes "systemctl stop redsocks 2>/dev/null || true"
    ∷ []

-- `enableProxiedMode`, which does not use its argument
unfoldable pub enable_proxied_mode : ℕ → Controller → Controller × Option GoError
unfolding run_cmds proxied_commands
enable_proxied_mode port c = run_cmds proxied_commands c

-- `enableDirectMode`
unfoldable pub enable_direct_mode : Controller → Controller × Option GoError
unfolding run_cmds direct_commands
enable_direct_mode c = run_cmds direct_commands c

abbrev pub default_port : ℕ → ℕ
default_port port = if port == 0 then 10001 else port

-- What `SetMode` does with the result of the commands.
abbrev pub switch : Bytes → Bytes → ℕ → Controller × Option GoError → Controller × Option GoError
switch mode country port (c, some e) = (c, some e)
switch mode country port (c, none) =
    (record c { mode = mode; exit_country = country; proxy_port = port }, none)

-- `SetMode`
unfoldable pub set_mode : Bytes → Bytes → ℕ → Controller → Controller × Option GoError
unfolding enable_proxied_mode enable_direct_mode
set_mode mode country port c =
    if bytes_eq mode mode_proxied
    then switch mode_proxied country (default_port port) (enable_proxied_mode (default_port port) c)
    else switch mode_direct [] 0 (enable_direct_mode c)

-- `SetProxiedFromGold`
unfoldable pub set_proxied_from_gold : List ℕ → Bytes → Controller → Controller × Option GoError
unfolding set_mode
set_proxied_from_gold [] country c =
    (c, some (message (codes "no HTTPS-verified backends available")))
set_proxied_from_gold (p ∷ ps) country c = set_mode mode_proxied country p c
