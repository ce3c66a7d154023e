-- ===== src/Tun/Legacy.antt =====
-- The iptables rules of mihomotui/tun_routing_linux.go, for hosts without nftables.
pub mod Loops
use mihomo_loongnix.Prelude.{
  ℕ, zero, suc, ◌+◌, String, List, [], ◌∷◌, ◌++◌, if◌then◌else◌, ◌==◌, string_eq,
}
use mihomo_loongnix.Config.Store.{Result, ok, err}
use mihomo_loongnix.Tun.{Command, Host, Tun}
use mihomo_loongnix.Tun.Actions.{
  Reason, Routine, pure, raise, get, attempt, ◌>>=◌, ◌>>◌, for_each, gather, join_errors, endless,
}
use mihomo_loongnix.Tun.Commands.{iptables, run_tun_command, is_tun_not_found_error}
use mihomo_loongnix.Tun.Nft.{
  tun_chain_names, tun_prerouting_chain, tun_output_chain, tun_forward_chain,
}

abbrev pub main_jump : String → String → Command
main_jump hook chain =
    iptables ("-A" ∷ hook ∷ "-m" ∷ "comment" ∷ "--comment" ∷ "mihomo-tui" ∷ "-j" ∷ chain ∷ [])

abbrev pub tun_main_jump_commands : List Command
tun_main_jump_commands =
    main_jump "PREROUTING" tun_prerouting_chain
    ∷ main_jump "OUTPUT" tun_output_chain
    ∷ main_jump "FORWARD" tun_forward_chain
    ∷ []

abbrev restore_rule : String → Command
restore_rule chain = iptables (
    "-A" ∷ chain ∷ "-m" ∷ "conntrack" ∷ "--ctstate" ∷ "ESTABLISHED,RELATED" ∷ "-m" ∷ "comment"
    ∷ "--comment" ∷ "mihomo-tui" ∷ "-j" ∷ "CONNMARK" ∷ "--restore-mark" ∷ "--nfmask" ∷ "0x100"
    ∷ "--ctmask" ∷ "0x100" ∷ [])

abbrev new_rule : String → Command
new_rule iface = iptables (
    "-A" ∷ tun_prerouting_chain ∷ "-i" ∷ iface ∷ "-m" ∷ "conntrack" ∷ "--ctstate" ∷ "NEW" ∷ "-m"
    ∷ "comment" ∷ "--comment" ∷ "mihomo-tui" ∷ "-j" ∷ "CONNMARK" ∷ "--set-xmark" ∷ "0x100/0x100"
    ∷ [])

-- The rules of all chains. The source ranges over a map: the chains come in any order.
unfoldable pub tun_chain_rule_commands : String → List Command
tun_chain_rule_commands iface =
    new_rule iface
    ∷ restore_rule tun_prerouting_chain
    ∷ restore_rule tun_output_chain
    ∷ restore_rule tun_forward_chain
    ∷ []

-- The first `-A` becomes `-D`.
abbrev pub as_deletion : List String → List String
as_deletion [] = []
as_deletion (a ∷ as') = let rest = as_deletion as' in if a == "-A" then "-D" ∷ as' else a ∷ rest

abbrev pub deletion : Command → Command
deletion c = record c { args = as_deletion c.args }

abbrev pub chain_op : String → String → Command
chain_op op chain = iptables (op ∷ chain ∷ [])

-- What the loop does after a round, `again` being the next round.
abbrev pub after_deletion :
    {S : Type 0} → Routine S Unit → Result (List Reason) String → Routine S Unit
after_deletion again (ok out) = again
after_deletion again (err e) = if is_tun_not_found_error e then pure tt else raise e

module _ {M : Type 0} (h : Host M) where
  -- The loop that runs a deletion until it finds no rule; `endless` when the fuel is used up.
  unfoldable pub delete_all : ℕ → Command → Routine (Tun M) Unit
  unfolding ◌>>=◌
  delete_all zero c = raise (endless ∷ [])
  delete_all (suc n) c =
      let again = delete_all n c in attempt (run_tun_command h c) >>= after_deletion again

  unfoldable pub delete_main_jumps : Command → Routine (Tun M) Unit
  unfolding delete_all
  delete_main_jumps c = do
    n ← get (λ w. h.rounds (deletion c) w.machine)
    delete_all (n + 1) (deletion c)

  -- What `-S` returned decides between emptying the chain and making it.
  unfoldable pub prepared_chain : String → Result (List Reason) String → Routine (Tun M) Unit
  unfolding ◌>>=◌
  prepared_chain chain (ok out) = do run_tun_command h (chain_op "-F" chain); pure tt
  prepared_chain chain (err e) =
      if is_tun_not_found_error e
      then run_tun_command h (chain_op "-N" chain) >> pure tt
      else raise e

  unfoldable pub ensure_legacy_tun_chain : String → Routine (Tun M) Unit
  unfolding ◌>>=◌ prepared_chain
  ensure_legacy_tun_chain chain =
      attempt (run_tun_command h (chain_op "-S" chain)) >>= prepared_chain chain

  unfoldable pub ensure_legacy_tun_main_jump : Command → Routine (Tun M) Unit
  unfolding ◌>>=◌ delete_main_jumps
  ensure_legacy_tun_main_jump c = do delete_main_jumps c; run_tun_command h c; pure tt

  unfoldable pub run_rule : Command → Routine (Tun M) Unit
  unfolding ◌>>=◌
  run_rule c = do run_tun_command h c; pure tt

  unfoldable pub setup_legacy_tun_iptables : String → Routine (Tun M) Unit
  unfolding ◌>>=◌ ensure_legacy_tun_chain ensure_legacy_tun_main_jump run_rule
  setup_legacy_tun_iptables iface = do
    for_each ensure_legacy_tun_chain tun_chain_names
    for_each ensure_legacy_tun_main_jump tun_main_jump_commands
    for_each run_rule (tun_chain_rule_commands iface)

  unfoldable pub removed_chain : String → Result (List Reason) String → Routine (Tun M) Unit
  unfolding ◌>>=◌
  removed_chain chain (err e) = if is_tun_not_found_error e then pure tt else raise e
  removed_chain chain (ok out) = do
    run_tun_command h (chain_op "-F" chain)
    run_tun_command h (chain_op "-X" chain)
    pure tt

  unfoldable pub remove_legacy_chain : String → Routine (Tun M) Unit
  unfolding ◌>>=◌ removed_chain
  remove_legacy_chain chain =
      attempt (run_tun_command h (chain_op "-S" chain)) >>= removed_chain chain

  unfoldable pub cleanup_legacy_tun_iptables : Routine (Tun M) Unit
  unfolding ◌>>=◌ delete_main_jumps remove_legacy_chain
  cleanup_legacy_tun_iptables = do
    of_jumps ← gather delete_main_jumps tun_main_jump_commands
    of_chains ← gather remove_legacy_chain tun_chain_names
    join_errors (of_jumps ++ of_chains)
