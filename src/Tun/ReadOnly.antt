-- ===== src/Tun/ReadOnly.antt =====
-- The commands of mihomotui/tun_routing_linux.go that only print, and the actions that run no others.
use mihomo_loongnix.Prelude.{
  All, ◌∷◌, ◌≡◌, Bool, true, not, ◌&&◌, ◌||◌, String, contains, ◌==◌, string_eq,
}
use mihomo_loongnix.Tun.{Command, Outcome, StateFile, Step, Host, Tun}
use mihomo_loongnix.Tun.Actions.Traces.{Quiet, quiet_rules}
use mihomo_loongnix.Tun.Commands.{run_tun_command, run_tun_command_input}
use mihomo_loongnix.Tun.Preflight.{
  get_default_gateway, detect_tun_firewall_backend, detect_external_active_tuns,
  has_ipv6_default_route, validate_tun_route_slots_are_free, collect_tun_preflight,
}
use mihomo_loongnix.Tun.Setup.{approve}

-- `ip … show`, `nft list`, `iptables -S` and `iptables --version`: commands that only print.
unfoldable pub is_printing : Command → Bool
is_printing c =
    (c.name == "ip"
      && contains c.args "show"
      && not (contains c.args "add")
      && not (contains c.args "del"))
    || (c.name == "nft" && contains c.args "list")
    || (c.name == "iptables" && (contains c.args "-S" || contains c.args "--version"))

-- The state after a run.
abbrev pub after : {M : Type 0} → Command → String → Outcome → M → Tun M → Tun M
after c input o machine w = record w {
  machine = machine;
  trace = record { command = c; input = input; outcome = o; file = w.saved } ∷ w.trace;
}

abbrev pub IsPrinting : Step → Type 0
IsPrinting s = is_printing s.command ≡ true

module _ {M : Type 0} (h : Host M) where
  -- A run keeps what each of its outcomes keeps.
  pub Quiet-run_input :
      {I : Tun M → Type 0} (c : Command) (input : String)
      → ((w : Tun M) (o : Outcome) (machine : M) → I w → I (after c input o machine w))
      → Quiet I (run_tun_command_input h c input)
  unfolding run_tun_command_input
  Quiet-run_input c input k = record { at = λ w i. k w _ _ i }

  pub Quiet-run :
      {I : Tun M → Type 0} (c : Command)
      → ((w : Tun M) (o : Outcome) (machine : M) → I w → I (after c "" o machine w))
      → Quiet I (run_tun_command h c)
  unfolding run_tun_command
  Quiet-run c k = Quiet-run_input c "" k

  -- The state file is as it was, and only commands that print were run.
  abbrev pub IsUnchanged : StateFile → Tun M → Type 0
  IsUnchanged f w = (w.saved ≡ f) × All IsPrinting w.trace

  pub Quiet-print :
      (f : StateFile) (c : Command)
      → is_printing c ≡ true
      → Quiet (IsUnchanged f) (run_tun_command h c)
  Quiet-print f c k = Quiet-run c λ w o machine i. (i.0, (k, i.1))

  -- What the commands that only print keep, the preflight keeps.
  module _ {I : Tun M → Type 0}
      (Quiet-show : (c : Command) → is_printing c ≡ true → Quiet I (run_tun_command h c)) where
    pub Quiet-detect : Quiet I (detect_tun_firewall_backend h)
    unfolding detect_tun_firewall_backend is_printing
    Quiet-detect = search (quiet_rules, Quiet-show) depth 9

    Quiet-gateway : Quiet I (get_default_gateway h)
    unfolding get_default_gateway is_printing
    Quiet-gateway = search (quiet_rules, Quiet-show) depth 9

    Quiet-tuns : Quiet I (detect_external_active_tuns h)
    unfolding detect_external_active_tuns is_printing
    Quiet-tuns = search (quiet_rules, Quiet-show) depth 9

    Quiet-ipv6 : Quiet I (has_ipv6_default_route h)
    unfolding has_ipv6_default_route is_printing
    Quiet-ipv6 = search (quiet_rules, Quiet-show) depth 9

    Quiet-preflight : (backend : String) → Quiet I (collect_tun_preflight h backend)
    unfolding collect_tun_preflight
    Quiet-preflight backend = search (quiet_rules, Quiet-gateway, Quiet-tuns, Quiet-ipv6) depth 9

    pub Quiet-approve : Quiet I (approve h)
    unfolding approve
    Quiet-approve = search (quiet_rules, Quiet-detect, Quiet-preflight) depth 9

    pub Quiet-free : Quiet I (validate_tun_route_slots_are_free h)
    unfolding validate_tun_route_slots_are_free is_printing
    Quiet-free = search (quiet_rules, Quiet-show) depth 9
