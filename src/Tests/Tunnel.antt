-- ===== src/Tests/Tunnel.antt =====
-- A host for the TUN routing: one default route, nftables, and a number of iptables jumps.
use mihomo_loongnix.Prelude.{
  ℕ, zero, suc, ◌≡◌, refl, ◌⊎◌, true, false, String, [], none, some, if◌then◌else◌, string_eq,
  contains, arith,
}
use mihomo_loongnix.Config.Store.{ok}
use mihomo_loongnix.Tun.{Command, Host, Tun, Outcome, missing, holds}
use mihomo_loongnix.Tun.Preflight.{TunPreflight}
use mihomo_loongnix.Tun.Setup.{approve, setup_tun_routing_locked}
use mihomo_loongnix.Tun.Refusal.{IsApproved, IsUntouched, setup-refused}
use mihomo_loongnix.Tun.Legacy.{deletion, main_jump, delete_main_jumps}
use mihomo_loongnix.Tun.Legacy.Loops.{HasEnded, DeletesOne, delete_main_jumps-HasEnded}
use mihomo_loongnix.Tun.Policy.{new_state}

abbrev no_match : Outcome
no_match = record {
  output = "iptables: No chain/target/match by that name.";
  error = some "exit status 1";
}

abbrev printed : String → Outcome
printed out = record { output = out; error = none }

-- A deletion takes one jump away; every other command succeeds.
abbrev respond : Command → String → ℕ → Outcome × ℕ
respond c input zero = if contains c.args "-D" then (no_match, zero) else (
  printed (if contains c.args "default" then "default via 192.168.1.1 dev eth0" else ""),
  zero,
)
respond c input (suc m) = if contains c.args "-D" then (printed "", m) else (
  printed (if contains c.args "default" then "default via 192.168.1.1 dev eth0" else ""),
  suc m,
)

abbrev toy_host : Host ℕ
toy_host = record {
  execute = respond;
  decode_links = λ out. some [];
  decode_routes = λ out. some [];
  decode_ruleset = λ out. some [];
  quote = λ s. s;
  format = λ n. "7";
  has_nft = true;
  has_iptables = true;
  euid = 0;
  random_hex = some "00c0ffee";
  now = "2026-01-01T00:00:00Z";
  write_fails = λ m. false;
  remove_fails = λ m. false;
  rounds = λ c m. m;
}

abbrev idle : Tun ℕ
idle = record { machine = 2; saved = missing; trace = [] }

abbrev routed : Tun ℕ
routed = record {
  machine = 2;
  saved = holds (new_state toy_host "00c0ffee" "eth0" "192.168.1.1" "nft");
  trace = [];
}

setup-refused_example :
    IsUntouched toy_host idle (setup_tun_routing_locked toy_host idle)
    ⊎ ((p : TunPreflight) × ((approve toy_host idle).0 ≡ ok p) × IsApproved toy_host p)
setup-refused_example = setup-refused toy_host idle refl

abbrev jumps_left : Command → ℕ → ℕ
jumps_left c m = m

abbrev output_jump : Command
output_jump = main_jump "OUTPUT" "MIHOMO_TUI_OUTPUT"

jumps_left-lt : DeletesOne toy_host jumps_left (deletion output_jump)
jumps_left-lt zero e = absurd cc
jumps_left-lt (suc m) e = omega arith

delete_main_jumps-HasEnded_example : HasEnded (delete_main_jumps toy_host output_jump idle).0
delete_main_jumps-HasEnded_example =
    delete_main_jumps-HasEnded toy_host jumps_left output_jump jumps_left-lt (λ m. omega arith) idle
