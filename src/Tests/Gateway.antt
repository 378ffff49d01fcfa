-- ===== src/Tests/Gateway.antt =====
-- Starts and stops of the VPN server of Tests/WgServer.antt.
use wg_proxy.Common.{
  ◌≤◌, ◌≡◌, ◌⊎◌, refl, true, false, Option, none, some, List, [], ◌∷◌, ◌++◌, length, Defined, arith,
  ℕ, zero, suc, All, replicate, ◌%◌, ◌^◌, ◌<◌,
}
use wg_proxy.Common.Bytes.{codes, bytes_eq, Bytes, IsByte}
use wg_proxy.Common.Errors.{GoError, ok, err, Result}
use wg_proxy.Common.Strings.{fields, trim_left, trim_space}
use wg_proxy.Common.Ini.{values, is_line}
use wg_proxy.WgServer.Keypair.{update_at, clamp, derive_public_key, generate_key_pair}
use wg_proxy.WgServer.Keypair.Scalar.{little_endian, generate_key_pair-scalar}
use wg_proxy.WgServer.Peers.{load, holds}
use wg_proxy.WgServer.Keys.{
  KeyState, KeyAnswers, complete, load_or_generate_keys, load_with, take_public, generate,
}
use wg_proxy.WgServer.Keys.Reload.{load_or_generate_keys-reload}
use wg_proxy.WgServer.Server.{Server, Rule, ClientConfig}
use wg_proxy.WgServer.Network.{
  to_ini, get_default_interface, detect_public_ip, first_public, ip_net,
}
use wg_proxy.WgServer.Network.Clients.{values-to_ini}
use wg_proxy.WgServer.Gateway.{
  Boot, Teardown, and_then, labelled, report, append_rule, masquerade, enable_forward, setup_nat,
  assign_address, open_temp, removing, set_address, configure, with_key, setup_interface, set_keys,
  make_dir, add_peers, or_teardown, bring_up, to_interface, lists_nil, started, start, stop,
}
use wg_proxy.WgServer.Gateway.Running.{start-cases}
use wg_proxy.WgServer.Gateway.Table.{table, has_rule}
use wg_proxy.WgServer.Gateway.Firewall.{kept_rules, start-stop, stop-or_teardown}
use wg_proxy.Tests.WgServer.{dotted, server, full}

abbrev pub new_keys : KeyAnswers
new_keys = record {
  derive = λ k. ok (codes "derived");
  fresh = ok (codes "private", codes "publickey");
  wrote_key = complete;
  wrote_pub = complete;
}

abbrev no_keys : KeyState
no_keys = record { private_key = []; public_key = []; key_file = none; pub_file = none }

-- The state of a process that finds the two files.
abbrev later : KeyState
later = record {
  private_key = [];
  public_key = [];
  key_file = (load_or_generate_keys new_keys no_keys).0.key_file;
  pub_file = (load_or_generate_keys new_keys no_keys).0.pub_file;
}

load_or_generate_keys-reload_example :
    ((load_or_generate_keys new_keys later).0 ≡ (load_or_generate_keys new_keys no_keys).0)
    × ((load_or_generate_keys new_keys later).1 ≡ none)
load_or_generate_keys-reload_example =
    load_or_generate_keys-reload new_keys new_keys no_keys later (codes "private")
      (codes "publickey") refl refl (refl, (refl, (refl, (refl, (refl, (refl, (refl, tt)))))))
      (refl, (refl, (refl, (refl, (refl, (refl, (refl, (refl, (refl, tt))))))))) refl refl refl refl

abbrev pub boot : Boot
boot = record {
  made_dir = none;
  keys = new_keys;
  added = none;
  temp_key = ok (codes "/tmp/wg-key");
  listening = none;
  subnet = ok (record { ip = 10 ∷ 100 ∷ 0 ∷ 0 ∷ []; mask = 255 ∷ 255 ∷ 255 ∷ 0 ∷ [] }, 24);
  addressed = none;
  brought_up = none;
  forwarding = none;
  installs = λ k. true;
  interface = codes "eth0";
  masqueraded = none;
  accepted_in = none;
  accepted_out = none;
}

abbrev pub off : Server
off = record server { running = false }

abbrev pub on : Server
on = record (bring_up dotted boot off).0 { running = true }

abbrev no_error : Option GoError
no_error = none

pub starts : start dotted boot off ≡ some (on, none)
unfolding start started bring_up to_interface lists_nil make_dir set_keys load_or_generate_keys
    load_with generate load labelled and_then setup_interface report open_temp with_key removing
    configure set_address assign_address add_peers setup_nat enable_forward append_rule or_teardown
starts = refl

-- The file is not there, so that the clients in memory stay.
pub on-peers : on.peers ≡ server.peers
unfolding bring_up to_interface make_dir set_keys load_or_generate_keys load_with generate load
    labelled and_then setup_interface report open_temp with_key removing configure set_address
    assign_address add_peers setup_nat enable_forward append_rule or_teardown
on-peers = refl

start-cases_example :
    ((off.running ≡ true) × (on ≡ off) × (no_error ≡ none))
    ⊎ ((off.running ≡ false) × (on.running ≡ true) × (no_error ≡ none) × 8 ≤ length on.public_key)
    ⊎ ((off.running ≡ false) × (on.running ≡ false) × Defined no_error)
start-cases_example = start-cases dotted boot off on no_error starts

-- A file of the public key that is too short: the log of the start panics.
abbrev short_key : Server
short_key = record off { key_file = some (codes "private"); pub_file = some (codes "short") }

short_key_test : start dotted boot short_key ≡ none
unfolding start started bring_up to_interface lists_nil make_dir set_keys load_or_generate_keys
    load_with take_public trim_space trim_left load labelled and_then setup_interface report
    open_temp with_key removing configure set_address assign_address add_peers setup_nat
    enable_forward append_rule or_teardown
short_key_test = refl

-- A peers file with a `null`: the copying of the clients panics.
abbrev null_file : Server
null_file = record off { peers = record off.peers { file = holds (none ∷ []) } }

null_test : start dotted boot null_file ≡ none
unfolding start started bring_up to_interface lists_nil make_dir set_keys load_or_generate_keys
    load_with take_public trim_space trim_left load labelled and_then setup_interface report
    open_temp with_key removing configure set_address assign_address add_peers setup_nat
    enable_forward append_rule or_teardown
null_test = refl

abbrev rules : List Rule
rules = codes "FORWARD -i docker0 -j ACCEPT" ∷ []

-- The second deletion of this stop fails.
abbrev halting : Teardown
halting = record {
  interface = codes "eth0";
  unmasqueraded = true;
  dropped_in = false;
  dropped_out = true;
}

start-stop_example :
    (table (stop halting on).calls rules
      ≡ table off.calls rules
        ++ kept_rules halting (masquerade off.settings.server_subnet boot.interface))
    × (true ≡ true
        → false ≡ true
        → true ≡ true
        → table (stop halting on).calls rules ≡ table off.calls rules)
unfolding table has_rule bytes_eq
start-stop_example = start-stop dotted boot halting off on rules refl starts refl refl refl refl

abbrev failing : Boot
failing = record boot { accepted_in = some (codes "iptables: busy", full) }

stop-or_teardown_example :
    table (stop halting (or_teardown (setup_nat failing off)).0).calls rules
    ≡ table off.calls rules ++ (masquerade (codes "10.100.0.0/24") (codes "eth0") ∷ [])
stop-or_teardown_example =
    stop-or_teardown failing off rules (codes "iptables: busy", full) halting refl refl refl refl

abbrev client : ClientConfig
client = record {
  name = codes "phone";
  private_key = codes "p";
  address = codes "10.100.0.2/32";
  dns = codes "1.1.1.1";
  server_pub_key = codes "S";
  endpoint = codes "192.0.2.1:51820";
  allowed_ips = codes "0.0.0.0/0, ::/0";
}

values-to_ini_example :
    values (to_ini client)
    ≡ some (codes "p")
      ∷ some (codes "10.100.0.2/32")
      ∷ some (codes "1.1.1.1")
      ∷ some (codes "S")
      ∷ some (codes "192.0.2.1:51820")
      ∷ some (codes "0.0.0.0/0, ::/0")
      ∷ some (codes "25")
      ∷ []
unfolding is_line
values-to_ini_example = values-to_ini client refl refl refl refl refl refl

network_tests :
    (get_default_interface (ok (codes "default via 192.0.2.254 dev ens5 proto dhcp"))
      ≡ codes "ens5")
    × (detect_public_ip (err full) (λ i.
          ok (ip_net true true (codes "127.0.0.1") ∷ ip_net false true (codes "192.0.2.1") ∷ []))
        ≡ codes "192.0.2.1")
unfolding get_default_interface detect_public_ip fields first_public bytes_eq
network_tests = (refl, refl)

replicate-IsByte : (n b : ℕ) → IsByte b → All IsByte (replicate n b)
replicate-IsByte zero b h = tt
replicate-IsByte (suc n) b h = (h, replicate-IsByte n b h)

abbrev random : List ℕ
random = replicate 32 7

abbrev pubkey : Bytes → Result Bytes
pubkey k = ok (codes "PUB")

generated_pair : generate_key_pair (λ k. k) pubkey (ok random) ≡ ok (clamp random, codes "PUB")
unfolding generate_key_pair derive_public_key trim_space trim_left
generated_pair = refl

clamp_test : clamp random ≡ 0 ∷ (replicate 30 7 ++ (71 ∷ []))
unfolding clamp update_at
clamp_test = refl

generate_key_pair-scalar_example :
    (k : List ℕ) × (k ≡ clamp random)
    × (length k ≡ 32)
    × (little_endian k % 8 ≡ 0)
    × (2 ^ 254 ≤ little_endian k)
    × (little_endian k < 2 ^ 255)
    × (derive_public_key (ok (codes "PUB")) ≡ ok (codes "PUB"))
generate_key_pair-scalar_example =
    generate_key_pair-scalar (λ k. k) pubkey random (clamp random) (codes "PUB") refl
      (replicate-IsByte 32 7 (omega arith)) generated_pair
