-- ===== src/Tests/WgServer.antt =====
-- A VPN server on 10.100.0.0/24 with one client.
use wg_proxy.Common.{
  ℕ, zero, suc, ◌+◌, ◌%◌, ◌/◌, ◌≡◌, ◌≢◌, ◌⊎◌, inl, inr, refl, true, false, none, some, List, [],
  ◌∷◌, ◌++◌, arith, All-append, Bool-cases, ◌==◌,
}
use wg_proxy.Common.Bytes.{Bytes, codes, decimal, decimal_from, bytes_eq}
use wg_proxy.Common.Errors.{GoError, external, message, quoting, wrapping, Result, ok, err}
use wg_proxy.WgServer.Peers.{Peer, absent, Writing, written, broken, find}
use wg_proxy.WgServer.Addresses.{
  Subnet, contains, set_last, before_slash, mem_text, used, server_ip, allocate_ip,
}
use wg_proxy.WgServer.Addresses.Allocation.{Finds, allocate_ip-first}
use wg_proxy.WgServer.Routing.{mode_direct, mode_proxied, new_controller, set_mode}
use wg_proxy.WgServer.Server.{Server, Answers, ClientConfig, add_peer}
use wg_proxy.WgServer.Server.Clients.{NoSlash, AreApart}
use wg_proxy.WgServer.Server.Saving.{add_peer-unsaved}

-- Decimal bytes with dots between them.
abbrev pub dotted : List ℕ → Bytes
dotted [] = []
dotted (a ∷ []) = decimal a
dotted (a ∷ b ∷ rest) = decimal a ++ (b'.' ∷ dotted (b ∷ rest))

decimal_from-NoSlash : (f n : ℕ) (out : Bytes) → NoSlash out → NoSlash (decimal_from f n out)
unfolding decimal_from
decimal_from-NoSlash zero n out h = h
decimal_from-NoSlash (suc f) n out h = elim (Bool-cases (n == 0)) [
  | inl e ↦ rw e h
  | inr e ↦ rw e (decimal_from-NoSlash f (n / 10) ((b'0' + n % 10) ∷ out) (omega arith, h))
]

decimal-NoSlash : (n : ℕ) → NoSlash (decimal n)
unfolding decimal
decimal-NoSlash n = elim (Bool-cases (n == 0)) [
  | inl e ↦ rw e (omega arith, tt)
  | inr e ↦ rw e (decimal_from-NoSlash n n [] tt)
]

pub dotted-NoSlash : (b : List ℕ) → NoSlash (dotted b)
dotted-NoSlash [] = tt
dotted-NoSlash (a ∷ []) = decimal-NoSlash a
dotted-NoSlash (a ∷ b ∷ rest) =
    All-append (λ c. c ≢ b'/') (decimal a) (b'.' ∷ dotted (b ∷ rest)) (decimal-NoSlash a)
      (omega arith, dotted-NoSlash (b ∷ rest))

abbrev pub net : Subnet
net = record { ip = 10 ∷ 100 ∷ 0 ∷ 0 ∷ []; mask = 255 ∷ 255 ∷ 255 ∷ 0 ∷ [] }

-- A string that is valid UTF-8.
abbrev pub same : Bytes → Bytes
same s = s

abbrev pub phone : Peer
phone = record {
  name = codes "phone";
  public_key = codes "P";
  private_key = codes "p";
  allowed_ip = codes "10.100.0.2/32";
  created_at = 5;
}

abbrev pub server : Server
server = record {
  settings = record {
    server_addr = [];
    server_port = 51820;
    server_subnet = codes "10.100.0.0/24";
    server_dns = codes "1.1.1.1";
  };
  private_key = codes "s";
  public_key = codes "S";
  key_file = none;
  pub_file = none;
  running = true;
  peers = record { peers = phone ∷ []; has_nil = false; file = absent };
  calls = [];
}

abbrev pub answers : Writing → Answers
answers w = record {
  keys = ok (codes "l", codes "L");
  subnet = ok net;
  wg_set = none;
  unsets = true;
  writing = w;
  now = 6;
  public_ip = codes "192.0.2.1";
}

abbrev pub full : GoError
full = external (codes "no space left on device")

next_address :
    allocate_ip dotted (codes "10.100.0.0/24") (ok net) (phone ∷ []) ≡ ok (codes "10.100.0.3")
unfolding allocate_ip contains set_last mem_text before_slash server_ip decimal
next_address = refl

allocate_ip-first_example :
    ((s : Bytes) × (allocate_ip dotted (codes "10.100.0.0/24") (ok net) (phone ∷ []) ≡ ok s)
      × Finds dotted net (used dotted (ok net) (phone ∷ [])) 2 254 (some s))
    ⊎ ((allocate_ip dotted (codes "10.100.0.0/24") (ok net) (phone ∷ [])
          ≡ err (message (codes "no available IPs in subnet " ++ codes "10.100.0.0/24")))
        × Finds dotted net (used dotted (ok net) (phone ∷ [])) 2 254 none)
allocate_ip-first_example = allocate_ip-first dotted (codes "10.100.0.0/24") net (phone ∷ [])

pub server-AreApart : AreApart server.peers
server-AreApart = record { names = (tt, tt); addresses = (tt, tt) }

new_name : find (codes "laptop") server.peers.peers ≡ none
unfolding find bytes_eq
new_name = refl

add_peer-unsaved_example :
    ((add_peer dotted (answers (broken full absent)) (codes "laptop") server).1
      ≡ err (wrapping (codes "saving peer") full))
    × ((add_peer dotted
          (answers (written same))
          (codes "laptop")
          (add_peer dotted (answers (broken full absent)) (codes "laptop") server).0).1
        ≡ err (quoting (codes "peer ") (codes "laptop") (codes " already exists")))
add_peer-unsaved_example =
    add_peer-unsaved dotted (answers (broken full absent)) (codes "laptop") server
      (codes "l", codes "L") (codes "10.100.0.3") full absent (answers (written same)) refl new_name
      refl next_address refl refl

switch_tests :
    ((set_mode mode_proxied (codes "NL") 0 new_controller).0.proxy_port ≡ 10001)
    × ((set_mode (codes "off") (codes "NL") 10002 new_controller).0.mode ≡ mode_direct)
unfolding set_mode bytes_eq new_controller
switch_tests = (refl, refl)

-- The server with the new client, and its configuration.
abbrev after_laptop : Server × Result ClientConfig
after_laptop = add_peer dotted (answers (written same)) (codes "laptop") server
