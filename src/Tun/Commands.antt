-- ===== src/Tun/Commands.antt =====
-- Running one command, in mihomotui/tun_routing_linux.go.
use mihomo_loongnix.Prelude.{Bool, true, false, ◌||◌, String, List, [], ◌∷◌, none, some}
use mihomo_loongnix.Prelude.Lines.{◌^◌, join, contains_lower}
use mihomo_loongnix.Prelude.Text.{trim_space}
use mihomo_loongnix.Config.Store.{Result, ok, err}
use mihomo_loongnix.Tun.{Command, Host, Outcome, Tun}
use mihomo_loongnix.Tun.Actions.{lift, Reason, Routine, run_failed, attempt, ◌>>=◌}

abbrev pub ip : List String → Command
ip args = record { name = "ip"; args = args }

abbrev pub nft : List String → Command
nft args = record { name = "nft"; args = args }

abbrev pub iptables : List String → Command
iptables args = record { name = "iptables"; args = "-t" ∷ "mangle" ∷ args }

-- `tunCommand.String`.
unfoldable pub string_of : Command → String
string_of c = c.name ^ " " ^ join " " c.args

-- The text of the error that `runTUNCommandInput` returns.
unfoldable pub failure_text : Command → String → String → String
failure_text c output e = "执行失败: " ^ string_of c ^ ": " ^ e ^ "; output: " ^ trim_space output

abbrev pub result_of : Command → Outcome → Result (List Reason) String
result_of c o = elim o.error [
  | none ↦ ok o.output
  | some e ↦ err (run_failed (failure_text c o.output e) ∷ [])
]

-- `err.Error()` of an error of `runTUNCommand`, put to a test.
unfoldable pub text_test : (String → Bool) → List Reason → Bool
text_test p (run_failed t ∷ []) = p t
text_test p _ = false

unfoldable pub is_tun_not_found_error : List Reason → Bool
is_tun_not_found_error = text_test λ t.
    contains_lower t "no such file"
    || contains_lower t "no such process"
    || contains_lower t "no chain/target/match"
    || contains_lower t "bad rule"
    || contains_lower t "does a matching rule exist"
    || contains_lower t "does not exist"

unfoldable pub is_tun_route_table_missing_error : List Reason → Bool
is_tun_route_table_missing_error = text_test λ t.
    contains_lower t "fib table does not exist" || contains_lower t "routing table does not exist"

unfoldable pub is_file_exists_error : List Reason → Bool
is_file_exists_error = text_test λ t. contains_lower t "file exists"

-- An error that a test allows counts as success.
abbrev forgive : (List Reason → Bool) → Result (List Reason) String → Result (List Reason) Unit
forgive p (ok out) = ok tt
forgive p (err e) = elim (p e) [ true ↦ ok tt | false ↦ err e ]

module _ {M : Type 0} (h : Host M) where
  unfoldable pub run_tun_command_input : Command → String → Routine (Tun M) String
  run_tun_command_input c input w =
      let (outcome, machine) = h.execute c input w.machine in
      (
        result_of c outcome,
        record w {
          machine = machine;
          trace =
              record { command = c; input = input; outcome = outcome; file = w.saved } ∷ w.trace;
        },
      )

  unfoldable pub run_tun_command : Command → Routine (Tun M) String
  unfolding run_tun_command_input
  run_tun_command c = run_tun_command_input c ""

  unfoldable pub run_forgiving : (List Reason → Bool) → Command → Routine (Tun M) Unit
  unfolding run_tun_command ◌>>=◌
  run_forgiving p c = do r ← attempt (run_tun_command c); lift (forgive p r)

  unfoldable pub run_tun_command_ignoring_not_found : Command → Routine (Tun M) Unit
  unfolding run_forgiving
  run_tun_command_ignoring_not_found = run_forgiving is_tun_not_found_error

  unfoldable pub run_tun_rule_add_ignoring_exists : Command → Routine (Tun M) Unit
  unfolding run_forgiving
  run_tun_rule_add_ignoring_exists = run_forgiving is_file_exists_error
