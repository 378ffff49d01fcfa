-- ===== src/Proxy/Socks.antt =====
-- The SOCKS5 messages that internal/proxy/server.go reads and writes: the fixed replies, the
-- username and password request of RFC 1929, and the target of a CONNECT request.
-- A message is what one `Read` delivered, `buf[:n]`. An index or a slice bound at or past `n` is
-- `none`: it would panic, or would read a byte that the client did not send in this message.
pub mod Auth
pub mod Target
use wg_proxy.Common.{
  ℕ, ◌+◌, ◌*◌, Bool, false, not, ◌&&◌, Option, some, [], ◌∷◌, ◌++◌, ltb, leb, ◌==◌, if◌then◌else◌,
  ◌>>=◌, get_elem?, length,
}
use wg_proxy.Common.Bytes.{Bytes, codes, bytes_eq, slice, decimal}

-- `[]byte{0x05, rep, 0x00, 0x01, 0, 0, 0, 0, 0, 0}`
abbrev pub reply : ℕ → Bytes
reply rep = 5 ∷ rep ∷ 0 ∷ 1 ∷ 0 ∷ 0 ∷ 0 ∷ 0 ∷ 0 ∷ 0 ∷ []

abbrev pub succeeded : ℕ
succeeded = 0

abbrev pub general_failure : ℕ
general_failure = 1

abbrev pub connection_refused : ℕ
connection_refused = 5

abbrev pub command_not_supported : ℕ
command_not_supported = 7

-- The answers to a greeting and to an RFC 1929 request.
abbrev pub method_none : Bytes
method_none = 5 ∷ 0 ∷ []

abbrev pub method_password : Bytes
method_password = 5 ∷ 2 ∷ []

abbrev pub auth_failure : Bytes
auth_failure = 1 ∷ 1 ∷ []

abbrev pub auth_success : Bytes
auth_success = 1 ∷ 0 ∷ []

-- `n < 2 || buf[0] != 0x05`, negated.
unfoldable pub is_greeting : Bytes → Option Bool
is_greeting m =
    if ltb (length m) 2 then some false else do version ← get_elem? m 0; some (version == 5)

-- `n < 7 || buf[0] != 0x05 || buf[1] != 0x01`, negated.
unfoldable pub is_connect : Bytes → Option Bool
is_connect m = if ltb (length m) 7 then some false else do
  version ← get_elem? m 0
  if not (version == 5) then some false else do command ← get_elem? m 1; some (command == 1)

-- The request of a client that must log in: `some true` if it names the user and the password.
unfoldable pub check_auth : Bytes → Bytes → Bytes → Option Bool
check_auth user pass m = if ltb (length m) 5 then some false else do
  version ← get_elem? m 0
  if not (version == 1) then some false else do
    ulen ← get_elem? m 1
    if ltb (length m) (2 + ulen + 1) then some false else do
      username ← slice m 2 (2 + ulen)
      plen ← get_elem? m (2 + ulen)
      if ltb (length m) (2 + ulen + 1 + plen) then some false else do
        password ← slice m (2 + ulen + 1) (2 + ulen + 1 + plen)
        some (bytes_eq username user && bytes_eq password pass)

-- `int(hi)<<8|int(lo)` of two bytes
abbrev pub port_of : ℕ → ℕ → ℕ
port_of hi lo = hi * 256 + lo

abbrev unknown : Bytes
unknown = codes "unknown"

-- `fmt.Sprintf("%d.%d.%d.%d:%d", a, b, c, d, port)`
pub ipv4_text : ℕ → ℕ → ℕ → ℕ → ℕ → Bytes
ipv4_text a b c d port =
    decimal a
    ++ (dot
        ++ (decimal b
            ++ (dot ++ (decimal c ++ (dot ++ (decimal d ++ (codes ":" ++ decimal port)))))))
  where
    dot : Bytes
    dot = codes "."

-- `fmt.Sprintf("%s:%d", host, port)`
pub domain_text : Bytes → ℕ → Bytes
domain_text host port = host ++ (codes ":" ++ decimal port)

pub target_ipv4 : Bytes → Option Bytes
target_ipv4 m = if not (leb 10 (length m)) then some unknown else do
  a ← get_elem? m 4
  b ← get_elem? m 5
  c ← get_elem? m 6
  d ← get_elem? m 7
  hi ← get_elem? m 8
  lo ← get_elem? m 9
  some (ipv4_text a b c d (port_of hi lo))

pub target_domain : Bytes → Option Bytes
target_domain m = do
  len ← get_elem? m 4
  if not (leb (5 + len + 2) (length m)) then some unknown else do
    hi ← get_elem? m (5 + len)
    lo ← get_elem? m (5 + len + 1)
    host ← slice m 5 (5 + len)
    some (domain_text host (port_of hi lo))

-- `parseTarget`
unfoldable pub parse_target : Bytes → Option Bytes
unfolding target_ipv4 target_domain
parse_target m = if ltb (length m) 7 then some unknown else do
  kind ← get_elem? m 3
  if kind == 1 then target_ipv4 m else if kind == 3 then target_domain m else some unknown
