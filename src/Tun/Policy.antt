-- ===== src/Tun/Policy.antt =====
-- The policy routing rules of mihomotui/tun_routing_linux.go: the values that the project uses, the
-- commands that add the rules, and those that remove what a state file records.
use mihomo_loongnix.Prelude.{
  Bool, ◌&&◌, ◌||◌, String, List, [], ◌∷◌, ◌++◌, Option, none, some, map, if◌then◌else◌, ◌==◌,
  string_eq,
}
use mihomo_loongnix.Prelude.Lines.{◌^◌, split_lines}
use mihomo_loongnix.Prelude.Text.{trim_space, has_prefix, contains_text}
use mihomo_loongnix.Config.Store.{Result, ok, err}
use mihomo_loongnix.Tun.{Command, TunState, StateFile, Host, Tun, missing, unreadable, holds}
use mihomo_loongnix.Tun.Actions.{
  Reason, Routine, pure, raise, lift, get, attempt, ◌>>=◌, ◌>>◌, state_unreadable, state_incomplete,
  state_without_values, other_route, no_random, state_unwritten,
}
use mihomo_loongnix.Tun.Commands.{ip, run_tun_command, is_tun_route_table_missing_error}

abbrev pub tun_routing_table : String
tun_routing_table = "100"

abbrev pub tun_private_rule_pref : String
tun_private_rule_pref = "100"

abbrev pub tun_mark_rule_pref : String
tun_mark_rule_pref = "200"

abbrev pub legacy_tun_routing_table : String
legacy_tun_routing_table = "2022"

abbrev pub legacy_tun_private_rule_pref : String
legacy_tun_private_rule_pref = "10010"

abbrev pub legacy_tun_mark_rule_pref : String
legacy_tun_mark_rule_pref = "10020"

abbrev pub tun_connection_mark : String
tun_connection_mark = "0x100"

abbrev pub tun_connection_mask : String
tun_connection_mask = "0x100"

-- `tunRoutingState{}`.
abbrev pub no_state : TunState
no_state = record {
  version = 0;
  phase = "";
  instance_id = "";
  interface = "";
  gateway = "";
  routing_table = "";
  private_rule_pref = "";
  mark_rule_pref = "";
  firewall_backend = "";
  connection_mark = "";
  connection_mask = "";
  nft_table = "";
  created_at = "";
}

abbrev pub state_in : StateFile → Result (List Reason) TunState
state_in missing = ok no_state
state_in unreadable = err (state_unreadable ∷ [])
state_in (holds s) = ok s

unfoldable pub is_owned_current_nft_table : TunState → Bool
is_owned_current_nft_table s =
    s.firewall_backend == "nft" && (s.nft_table == "" || s.nft_table == "mihomo_tui")

unfoldable pub tun_rule_comment_for_state : TunState → String
tun_rule_comment_for_state s =
    if s.instance_id == "" then "mihomo-tui" else "mihomo-tui" ^ ":" ^ s.instance_id

-- The destinations that keep the main table.
abbrev pub private_networks : List String
private_networks = "10.0.0.0/8" ∷ "172.16.0.0/12" ∷ "192.168.0.0/16" ∷ "100.64.0.0/10" ∷ []

abbrev pub private_rule : String → String → String → Command
private_rule action pref network =
    ip ("rule" ∷ action ∷ "to" ∷ network ∷ "table" ∷ "main" ∷ "pref" ∷ pref ∷ [])

abbrev pub mark_rule : (action mark table pref : String) → Command
mark_rule action mark table pref =
    ip ("rule" ∷ action ∷ "fwmark" ∷ mark ∷ "table" ∷ table ∷ "pref" ∷ pref ∷ [])

abbrev pub default_route : (action gateway interface table : String) → Command
default_route action gateway interface table =
    ip ("route" ∷ action ∷ "default" ∷ "via" ∷ gateway ∷ "dev" ∷ interface ∷ "table" ∷ table ∷ [])

unfoldable pub tun_policy_rule_commands :
    (table private_pref mark_pref action : String) → List Command
tun_policy_rule_commands table private_pref mark_pref action =
    map (private_rule action private_pref) private_networks
    ++ mark_rule action (tun_connection_mark ^ "/" ^ tun_connection_mask) table mark_pref ∷ []

unfoldable pub tun_policy_rule_add_commands : List Command
unfolding tun_policy_rule_commands
tun_policy_rule_add_commands =
    tun_policy_rule_commands tun_routing_table tun_private_rule_pref tun_mark_rule_pref "add"

unfoldable pub routing_values : TunState → String × String × String
routing_values s =
    if s.routing_table == "" && s.private_rule_pref == "" && s.mark_rule_pref == ""
    then (legacy_tun_routing_table, legacy_tun_private_rule_pref, legacy_tun_mark_rule_pref)
    else (s.routing_table, s.private_rule_pref, s.mark_rule_pref)

-- The rules that a0fa5d2 wrote: no exception for carrier-grade NAT, and no mask.
abbrev pub legacy_rule_commands : (table private_pref mark_pref : String) → List Command
legacy_rule_commands table private_pref mark_pref =
    private_rule "del" private_pref "10.0.0.0/8"
    ∷ private_rule "del" private_pref "172.16.0.0/12"
    ∷ private_rule "del" private_pref "192.168.0.0/16"
    ∷ mark_rule "del" tun_connection_mark table mark_pref
    ∷ []

-- The commands for the values of `routing_values`.
unfoldable pub cleanup_commands_for :
    TunState → String × String × String → Result (List Reason) (List Command)
unfolding tun_policy_rule_commands
cleanup_commands_for s (table, private_pref, mark_pref) =
    if table == "" || private_pref == "" || mark_pref == ""
    then err (state_without_values ∷ [])
    else ok (
        (if table == legacy_tun_routing_table
            && private_pref == legacy_tun_private_rule_pref
            && mark_pref == legacy_tun_mark_rule_pref
          then legacy_rule_commands table private_pref mark_pref
          else tun_policy_rule_commands table private_pref mark_pref "del")
        ++ default_route "del" s.gateway s.interface table ∷ [])

unfoldable pub tun_policy_cleanup_commands : TunState → Result (List Reason) (List Command)
unfolding cleanup_commands_for routing_values
tun_policy_cleanup_commands s =
    if s.interface == "" && s.gateway == ""
    then ok []
    else if s.interface == "" || s.gateway == ""
    then err (state_incomplete ∷ [])
    else cleanup_commands_for s (routing_values s)

-- The lines of `ip route show table`: `none` where no line is a default route, and else whether the
-- first one is the expected.
unfoldable pub find_default : String → List String → Option (Result String Unit)
find_default expected [] = none
find_default expected (l ∷ ls) =
    let line = trim_space l in
    let rest = find_default expected ls in
    if has_prefix line "default"
    then some (if contains_text line expected then ok tt else err line)
    else rest

-- The table's contents, where a table that was never created is empty.
abbrev pub shown_or_empty : Result (List Reason) String → Result (List Reason) String
shown_or_empty (ok out) = ok out
shown_or_empty (err e) = if is_tun_route_table_missing_error e then ok "" else err e

module _ {M : Type 0} (h : Host M) where
  unfoldable pub load_tun_routing_state : Routine (Tun M) TunState
  unfolding ◌>>=◌
  load_tun_routing_state = do file ← get (λ w. w.saved); lift (state_in file)

  -- A failure leaves the file as it was: the state is written beside it and renamed.
  unfoldable pub save_tun_routing_state : TunState → Routine (Tun M) Unit
  save_tun_routing_state s w =
      if h.write_fails w.machine
      then (err (state_unwritten ∷ []), w)
      else (ok tt, record w { saved = holds s })

  -- The state with the given installation identifier.
  abbrev pub new_state : (id iface gateway backend : String) → TunState
  new_state id iface gateway backend = record {
    version = 2;
    phase = "preparing";
    instance_id = id;
    interface = iface;
    gateway = gateway;
    routing_table = tun_routing_table;
    private_rule_pref = tun_private_rule_pref;
    mark_rule_pref = tun_mark_rule_pref;
    firewall_backend = backend;
    connection_mark = tun_connection_mark;
    connection_mask = tun_connection_mask;
    nft_table = "mihomo_tui";
    created_at = h.now;
  }

  unfoldable pub new_tun_routing_state :
      (iface gateway backend : String) → Result (List Reason) TunState
  new_tun_routing_state iface gateway backend = elim h.random_hex [
    | none ↦ err (no_random ∷ [])
    | some id ↦ ok (new_state id iface gateway backend)
  ]

  unfoldable pub add_default_route :
      (iface gateway : String) → Option (Result String Unit) → Routine (Tun M) Unit
  unfolding ◌>>=◌
  add_default_route iface gateway (some (ok _)) = pure tt
  add_default_route iface gateway (some (err line)) = raise (other_route line ∷ [])
  add_default_route iface gateway none = do
    run_tun_command h (default_route "add" gateway iface tun_routing_table)
    pure tt

  unfoldable pub ensure_tun_default_route : (iface gateway : String) → Routine (Tun M) Unit
  unfolding ◌>>=◌ add_default_route
  ensure_tun_default_route iface gateway = do
    r ← attempt (run_tun_command h (ip ("route" ∷ "show" ∷ "table" ∷ tun_routing_table ∷ [])))
    out ← lift (shown_or_empty r)
    add_default_route iface gateway
        (find_default ("default via " ^ gateway ^ " dev " ^ iface) (split_lines out))
