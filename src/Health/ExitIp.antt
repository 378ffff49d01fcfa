-- ===== src/Health/ExitIp.antt =====
-- The probes through a tunnel (internal/health/checker.go): `resolveExitIP` and `httpsProbe`.
-- What the tunnel's proxy sends, what `client.Get` makes of a connection, and what the command curl
-- prints are arguments. `none` is a panic.
pub mod Outcomes
use wg_proxy.Common.{
  ℕ, ◌%◌, Bool, false, not, ◌&&◌, Option, none, some, List, [], ◌∷◌, ◌++◌, ◌==◌, leb, if◌then◌else◌,
  ◌>>=◌, get_elem?, length, replicate,
}
use wg_proxy.Common.Bytes.{Bytes, codes, bytes_eq}
use wg_proxy.Common.Errors.{message, Result, ok, err}
use wg_proxy.Common.Strings.{trim_space}
use wg_proxy.Proxy.Conn.{Incoming, failed, got, read, fill}
use wg_proxy.Tunnels.{Tunnel}

-- `conn.Read(buf)` without a look at its results: the buffer, and what is still to come.
unfoldable pub blind_read : ℕ → Incoming → Bytes × Incoming
blind_read size c = elim (read size c) [
  | failed ↦ (replicate size 0, [])
  | got m rest ↦ (fill size m, rest)
]

-- The CONNECT request for port 80 of a host.
unfoldable pub connect_request : Bytes → Bytes
connect_request host = 5 ∷ 1 ∷ 0 ∷ 3 ∷ length host % 256 ∷ host ++ (0 ∷ 80 ∷ [])

-- What `Dial` wrote to the proxy, and its results.
pub record Dialled : Type 0 where
  pub writes : List Bytes
  pub conn : Result Incoming

-- The answer of the proxy, and the end of `Dial`.
abbrev pub judge : List Bytes → Bytes × Incoming → Option Dialled
judge writes (resp, rest) = do
  code ← get_elem? resp 1
  some record {
    writes = writes;
    conn =
        if leb 2 (length resp) && not (code == 0)
        then err (message (codes "SOCKS5 connect failed"))
        else ok rest;
  }

-- The function `Dial` of the transport, given what `net.DialTimeout` returns.
unfoldable pub dial_exit : Result Incoming → Option Dialled
dial_exit (err e) = some (record { writes = []; conn = err e })
dial_exit (ok c) =
    judge ((5 ∷ 1 ∷ 0 ∷ []) ∷ connect_request (codes "ifconfig.me") ∷ [])
      (blind_read 256 (blind_read 2 c).1)

-- The response of `client.Get` and the results of `io.ReadAll` on its body.
abbrev pub address_in : Result (Result Bytes) → Option Bytes
address_in (err e) = none
address_in (ok (err e)) = none
address_in (ok (ok body)) = some (trim_space body)

-- `resolveExitIP` up to its critical section: the address that it found, if any.
unfoldable pub exit_ip_of :
    (Result Incoming → Result (Result Bytes)) → Result Incoming → Option (Option Bytes)
exit_ip_of http_get c = do d ← dial_exit c; some (address_in (http_get d.conn))

-- The critical section of `resolveExitIP`.
abbrev pub resolved : Bytes → Tunnel → Tunnel
resolved ip t = record t { exit_ip = ip }

-- `httpsProbe`, given what `cmd.Output` returns
unfoldable pub https_probe : Result Bytes → Bool
https_probe (err e) = false
https_probe (ok out) = bytes_eq (trim_space out) (codes "200")
