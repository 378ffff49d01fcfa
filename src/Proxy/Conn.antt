-- ===== src/Proxy/Conn.antt =====
-- A TCP connection (`net.Conn`), as far as internal/proxy reads and writes it: the segments that
-- will arrive, in order. Each `Read` takes at most its buffer's length from the front segment, and
-- fails once no segment is left (end of file, a reset, a passed deadline).
pub mod Laws
use wg_proxy.Common.{
  ℕ, ◌+◌, ◌-◌, Bool, true, List, [], ◌∷◌, ◌++◌, length, take, drop, replicate, leb, ◌==◌,
  if◌then◌else◌,
}
use wg_proxy.Common.Bytes.{Bytes}

abbrev pub Incoming : Type 0
Incoming = List Bytes

pub data Read : Type 0 where
  failed : Read
  got : Bytes → Incoming → Read

-- `conn.Read(buf)` with `len(buf)` as given: `got` has the bytes put in the buffer, `buf[:n]`.
unfoldable pub read : ℕ → Incoming → Read
read size [] = failed
read size (c ∷ cs) = if leb (length c) size then got c cs else got (take size c) (drop size c ∷ cs)

-- What `io.ReadFull` leaves: the bytes read, whether they fill the buffer, and the rest.
pub record Filled : Type 0 where
  pub bytes : Bytes
  pub full : Bool
  pub rest : Incoming

abbrev more : Bytes → Filled → Filled
more c f = record f { bytes = c ++ f.bytes }

-- `io.ReadFull(conn, buf)` with `len(buf)` as given.
unfoldable pub read_full : ℕ → Incoming → Filled
read_full size [] = record { bytes = []; full = size == 0; rest = [] }
read_full size (c ∷ cs) =
    let later = more c (read_full (size - length c) cs) in
    if size == 0
    then record { bytes = []; full = true; rest = c ∷ cs }
    else if leb size (length c)
    then record { bytes = take size c; full = true; rest = drop size c ∷ cs }
    else later

-- The buffer of `size` zero bytes after a read of `bs` into its front.
abbrev pub fill : ℕ → Bytes → Bytes
fill size bs = bs ++ replicate (size - length bs) 0

-- What `io.Copy` passes on until the stream ends, to a peer that takes all of it.
abbrev pub copy : Incoming → Bytes
copy [] = []
copy (c ∷ cs) = c ++ copy cs
