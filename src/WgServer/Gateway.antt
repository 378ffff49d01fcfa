-- ===== src/WgServer/Gateway.antt =====
-- The VPN server's interface and firewall (internal/wgserver/server.go): `Start`, `Stop`,
-- `setupInterface`, `setupNAT` and their opposites. The result of each command is an argument.
pub mod Steps
pub mod Table
pub mod Running
pub mod Success
pub mod Firewall
pub mod Panics
use wg_proxy.Common.{
  ℕ, Bool, true, false, not, Option, none, some, List, [], ◌∷◌, ◌++◌, ltb, if◌then◌else◌, length,
}
use wg_proxy.Common.Bytes.{Bytes, codes, decimal}
use wg_proxy.Common.Errors.{GoError, wrapping, Result, ok, err}
use wg_proxy.Common.Strings.{contains_text}
use wg_proxy.WgServer.Peers.{Peer, load}
use wg_proxy.WgServer.Addresses.{Subnet, server_ip}
use wg_proxy.WgServer.Keys.{KeyState, KeyAnswers, load_or_generate_keys}
use wg_proxy.WgServer.Server.{
  Server, Rule, wg, set_peer, listen, link_del, link_add, link_up, addr_add, write_temp,
  remove_temp, enable_forwarding, add_rule, delete_rule,
}

-- The combined output and the error of a command that failed.
abbrev pub Failure : Type 0
Failure = Option (Bytes × GoError)

-- What the world answers to one `Start`; `installs` tells whether `wg set` takes a stored public
-- key, `interface` is the result of `getDefaultInterface`, and `subnet` that of `net.ParseCIDR`
-- with the length of the mask.
pub record Boot : Type 0 where
  pub made_dir : Option GoError
  pub keys : KeyAnswers
  pub added : Failure
  pub temp_key : Result Bytes
  pub listening : Failure
  pub subnet : Result (Subnet × ℕ)
  pub addressed : Failure
  pub brought_up : Failure
  pub forwarding : Option GoError
  pub installs : Bytes → Bool
  pub interface : Bytes
  pub masqueraded : Failure
  pub accepted_in : Failure
  pub accepted_out : Failure

abbrev pub Step : Type 0
Step = Server × Option GoError

-- The next statement, unless an error was returned.
unfoldable pub and_then : Step → (Server → Step) → Step
and_then (s, some e) f = (s, some e)
and_then (s, none) f = f s

-- `fmt.Errorf("<what>: %w", err)` of an error that is not nil
unfoldable pub labelled : Bytes → Step → Step
labelled what (s, none) = (s, none)
labelled what (s, some e) = (s, some (wrapping what e))

-- `fmt.Errorf("<what>: %s: %w", out, err)` for a command that failed
unfoldable pub report : Bytes → Failure → Server → Step
report what none s = (s, none)
report what (some (out, e)) s = (s, some (wrapping (what ++ (codes ": " ++ out)) e))

abbrev pub succeeds : Failure → Bool
succeeds none = true
succeeds (some f) = false

-- `iptables -A …`
unfoldable pub append_rule : Bytes → Rule → Failure → Server → Step
append_rule what rule result s = report what result (wg (add_rule rule (succeeds result)) s)

abbrev pub masquerade : Bytes → Bytes → Rule
masquerade subnet interface =
    codes "-t nat POSTROUTING -s "
    ++ (subnet ++ (codes " -o " ++ (interface ++ codes " -j MASQUERADE")))

abbrev pub accept_in : Rule
accept_in = codes "FORWARD -i wg-server -j ACCEPT"

abbrev pub accept_out : Rule
accept_out = codes "FORWARD -o wg-server -m state --state RELATED,ESTABLISHED -j ACCEPT"

unfoldable pub enable_forward : Option GoError → Server → Step
enable_forward (some e) s = (s, some (wrapping (codes "enabling ip_forward") e))
enable_forward none s = (wg enable_forwarding s, none)

-- `setupNAT`
unfoldable pub setup_nat : Boot → Server → Step
setup_nat b s = and_then (enable_forward b.forwarding s) λ s.
    and_then
      (append_rule (codes "adding MASQUERADE rule")
        (masquerade s.settings.server_subnet b.interface) b.masqueraded s)
      λ s.
        and_then (append_rule (codes "adding FORWARD accept in") accept_in b.accepted_in s)
          λ s. append_rule (codes "adding FORWARD accept out") accept_out b.accepted_out s

-- What the world answers to one `Stop`: the result of `getDefaultInterface`, and whether the three
-- `iptables -D` succeed, which the program does not look at.
pub record Teardown : Type 0 where
  pub interface : Bytes
  pub unmasqueraded : Bool
  pub dropped_in : Bool
  pub dropped_out : Bool

-- `teardownNAT`
unfoldable pub teardown_nat : Teardown → Server → Server
teardown_nat d s = wg (delete_rule accept_out d.dropped_out) (
    wg (delete_rule accept_in d.dropped_in)
      (wg (delete_rule (masquerade s.settings.server_subnet d.interface) d.unmasqueraded) s))

-- `teardownInterface`
abbrev pub teardown_interface : Server → Server
teardown_interface s = wg link_del s

-- An address that is assigned already is no error.
unfoldable pub assign_address : Bytes → Failure → Server → Step
assign_address address none s = (wg (addr_add address) s, none)
assign_address address (some (out, e)) s =
    if contains_text out (codes "RTNETLINK answers: File exists")
    then (wg (addr_add address) s, none)
    else report (codes "assigning address") (some (out, e)) (wg (addr_add address) s)

unfoldable pub open_temp : Result Bytes → Server → Server × Result Bytes
open_temp (err e) s = (s, err (wrapping (codes "creating temp key file") e))
open_temp (ok path) s = (wg (write_temp path s.private_key) s, ok path)

-- `defer os.Remove(tmpKey.Name())`
unfoldable pub removing : Bytes → Step → Step
removing path (s, e) = (wg (remove_temp path) s, e)

abbrev pub keys_of : Server → KeyState
keys_of s = record {
  private_key = s.private_key;
  public_key = s.public_key;
  key_file = s.key_file;
  pub_file = s.pub_file;
}

unfoldable pub set_keys : Server → KeyState × Option GoError → Step
set_keys s (k, e) = (
  record s {
    private_key = k.private_key;
    public_key = k.public_key;
    key_file = k.key_file;
    pub_file = k.pub_file;
  },
  e,
)

unfoldable pub make_dir : Option GoError → Server → Step
make_dir none s = (s, none)
make_dir (some e) s = (s, some (wrapping (codes "creating config dir") e))

-- `peers.Load`, whose error is only logged
abbrev pub load_peers : Server → Server
load_peers s = record s { peers = (load s.peers).0 }

-- The loop over the stored peers; an error of `wg set` is only logged.
unfoldable pub add_peers : (Bytes → Bool) → List Peer → Server → Server
add_peers installs [] s = s
add_peers installs (p ∷ ps) s =
    add_peers installs ps (wg (set_peer p.public_key p.allowed_ip (installs p.public_key)) s)

unfoldable pub or_teardown : Step → Step
or_teardown (s, none) = (s, none)
or_teardown (s, some e) = (teardown_interface s, some (wrapping (codes "setting up NAT") e))

-- `s.peers.List()` panics on a nil entry.
unfoldable pub lists_nil : Step → Bool
lists_nil (s, none) = s.peers.has_nil
lists_nil (s, some e) = false

-- The end of `Start`: `s.publicKey[:8]` in the log panics on a shorter key.
unfoldable pub started : Step → Option Step
started (s, some e) = some (s, some e)
started (s, none) =
    if ltb (length s.public_key) 8 then none else some (record s { running = true }, none)

module _ (ip_text : List ℕ → Bytes) where
  unfoldable pub set_address : Boot → Result (Subnet × ℕ) → Server → Step
  set_address b (err e) s = (s, some (wrapping (codes "parsing subnet") e))
  set_address b (ok (net, ones)) s =
      and_then
        (assign_address (server_ip ip_text (ok net) ++ (codes "/" ++ decimal ones)) b.addressed s)
        λ s. report (codes "bringing up interface") b.brought_up (wg link_up s)

  unfoldable pub configure : Boot → Bytes → Server → Step
  configure b path s =
      and_then
        (report (codes "configuring interface") b.listening
          (wg (listen s.settings.server_port path) s))
        λ s. set_address b b.subnet s

  unfoldable pub with_key : Boot → Server × Result Bytes → Step
  with_key b (s, err e) = (s, some e)
  with_key b (s, ok path) = removing path (configure b path s)

  -- `setupInterface`
  unfoldable pub setup_interface : Boot → Server → Step
  setup_interface b s =
      and_then (report (codes "creating interface") b.added (wg link_add (wg link_del s)))
        λ s. with_key b (open_temp b.temp_key s)

  -- `Start` of a stopped server, up to the interface
  unfoldable pub to_interface : Boot → Server → Step
  to_interface b s = and_then (make_dir b.made_dir s) λ s.
      and_then
        (labelled (codes "loading keys") (set_keys s (load_or_generate_keys b.keys (keys_of s))))
        λ s. labelled (codes "setting up interface") (setup_interface b (load_peers s))

  -- From there on, up to `s.running = true`
  unfoldable pub bring_up : Boot → Server → Step
  unfolding to_interface
  bring_up b s =
      and_then (to_interface b s)
        λ s. or_teardown (setup_nat b (add_peers b.installs s.peers.peers s))

  -- `Start`
  unfoldable pub start : Boot → Server → Option Step
  unfolding started lists_nil
  start b s =
      if s.running
      then some (s, none)
      else if lists_nil (to_interface b s)
      then none
      else started (bring_up b s)

-- `Stop`
unfoldable pub stop : Teardown → Server → Server
unfolding teardown_nat
stop d s =
    if not s.running then s else record (teardown_interface (teardown_nat d s)) { running = false }
