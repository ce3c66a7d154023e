-- ===== src/Tun/Justified.antt =====
-- Which commands of mihomotui/tun_routing_linux.go may be run, given the state file
-- of that moment and the commands run before.
pub mod Runs
pub mod Artifacts
pub mod Cleanup
pub mod Outcome
pub mod Install
pub mod Verify
pub mod Setup
pub mod Restore
use mihomo_loongnix.Prelude.{
  IsIn, ℕ, ◌≡◌, refl, Bool, true, false, not, ◌&&◌, ◌||◌, String, List, [], ◌∷◌, Option, some,
  get_elem?, if◌then◌else◌, ◌==◌, string_eq, contains, All, suc, zero, ◌⊎◌,
}
use mihomo_loongnix.Prelude.Lines.{◌^◌, join}
use mihomo_loongnix.Prelude.Text.{contains_text}
use mihomo_loongnix.Config.Store.{Result, ok, err}
use mihomo_loongnix.Tun.{
  Command, TunState, StateFile, Step, ChainLocation, NftObject, Host, Tun, holds,
}
use mihomo_loongnix.Tun.Actions.Traces.{IsQuiet}
use mihomo_loongnix.Tun.Commands.{ip, nft, iptables}
use mihomo_loongnix.Tun.Policy.{
  tun_policy_cleanup_commands, is_owned_current_nft_table, tun_rule_comment_for_state,
}
use mihomo_loongnix.Tun.Preflight.{validate_tun_interface_name}
use mihomo_loongnix.Tun.Nft.{
  NftRuleReference, is_tun_project_chain, delete_table, delete_rule, chain_command,
}
use mihomo_loongnix.Tun.Nft.Project.{JumpsToProject}
use mihomo_loongnix.Tun.Legacy.{tun_main_jump_commands, deletion, chain_op, tun_chain_rule_commands}
use mihomo_loongnix.Tun.ReadOnly.{is_printing}

-- The `ip` command that removes what an `add` command adds.
unfoldable pub undo_args : List String → List String
undo_args [] = []
undo_args (a ∷ rest) = let more = undo_args rest in if a == "add" then "del" ∷ rest else a ∷ more

abbrev pub undo : Command → Command
unfolding undo_args
undo c = record c { args = undo_args c.args }

-- What the state file records: the commands that clean up after the state.
abbrev pub IsRecorded : Command → TunState → Type 0
IsRecorded c s =
    (commands : List Command) × (tun_policy_cleanup_commands s ≡ ok commands) × IsIn c commands

-- A line of a script that makes the project's table for a state: the table, one of its chains, the
-- rule that marks the new connections of the state's interface, or one that restores their mark.
-- Each rule carries the state's comment.
pub data IsProjectLine (quote : String → String) (s : TunState) (line : String) : Type 0 where
  the_table : line ≡ "add table ip mihomo_tui" → IsProjectLine quote s line
  a_chain :
      (name kind : String)
      → IsIn {A = String × String}
          (name, kind)
          (("prerouting", "filter") ∷ ("output", "route") ∷ ("forward", "filter") ∷ [])
      → line
        ≡ "add chain ip mihomo_tui " ^ name ^ " { type " ^ kind ^ " hook " ^ name
          ^ " priority filter; policy accept; }"
      → IsProjectLine quote s line
  marks_new :
      line
        ≡ "add rule ip mihomo_tui prerouting iifname "
          ^ quote s.interface
          ^ " ct state new ct mark set ct mark | "
          ^ "0x100"
          ^ " comment "
          ^ quote (tun_rule_comment_for_state s)
      → IsProjectLine quote s line
  restores :
      (start : String)
      → IsIn start (
          "add rule ip mihomo_tui prerouting " ∷ "add rule ip mihomo_tui output "
          ∷ "add rule ip mihomo_tui forward " ∷ [])
      → line
        ≡ start
          ^ "ct state established,related ct mark & "
          ^ "0x100"
          ^ " != 0 meta mark set meta mark | "
          ^ "0x100"
          ^ " comment "
          ^ quote (tun_rule_comment_for_state s)
      → IsProjectLine quote s line

abbrev pub IsProjectScript : (String → String) → TunState → String → Type 0
IsProjectScript quote s script =
    (lines : List String) × (script ≡ join "\n" lines ^ "\n")
    × All (IsProjectLine quote s) lines
    × (validate_tun_interface_name s.interface ≡ ok tt)

-- A command that was run, and what it printed.
abbrev pub HasPrinted : Command → String → List Step → Type 0
HasPrinted c out before = (p : Step) × IsIn p before × (p.command ≡ c) × (p.outcome.output ≡ out)

abbrev pub list_ruleset : Command
list_ruleset = nft ("-j" ∷ "-a" ∷ "list" ∷ "ruleset" ∷ [])

abbrev pub list_table : Command
list_table = nft ("list" ∷ "table" ∷ "ip" ∷ "mihomo_tui" ∷ [])

module _ {M : Type 0} (h : Host M) where
  -- The ruleset was listed, and in it the rule with this location and handle jumps to a chain of
  -- the project.
  abbrev pub WasFound : ChainLocation → ℕ → List Step → Type 0
  WasFound location handle before =
      (out : String) × (os : List NftObject) × HasPrinted list_ruleset out before
      × (h.decode_ruleset out ≡ some os)
      × JumpsToProject os location handle

  -- The state has no identifier, or the table was listed with the state's comment in it.
  abbrev pub OwnsTable : TunState → List Step → Type 0
  OwnsTable s before =
      ((s.instance_id == "") ≡ true)
      ⊎ ((out : String) × HasPrinted list_table out before
          × (contains_text out (h.quote (tun_rule_comment_for_state s)) ≡ true))

  pub data IsJustified (before : List Step) : Command → String → StateFile → Type 0 where
    -- The command only prints.
    prints : (c : Command) (f : StateFile) → is_printing c ≡ true → IsJustified before c "" f
    -- It removes a rule or route that the state file records.
    removes : (c : Command) (s : TunState) → IsRecorded c s → IsJustified before c "" (holds s)
    -- It adds one whose removal the state file records.
    adds : (c : Command) (s : TunState) → IsRecorded (undo c) s → IsJustified before c "" (holds s)
    -- It makes the project's table by a script for the state in the file, which says that the table
    -- is the project's.
    makes_table :
        (s : TunState) (script : String)
        → is_owned_current_nft_table s ≡ true
        → IsProjectScript h.quote s script
        → IsJustified before (nft ("-f" ∷ "-" ∷ [])) script (holds s)
    -- It deletes that table, which was found to be this installation's.
    deletes_table :
        (s : TunState)
        → is_owned_current_nft_table s ≡ true
        → OwnsTable s before
        → IsJustified before delete_table "" (holds s)
    -- It empties or deletes a project chain of an older version.
    old_chain :
        (op : String) (c : ChainLocation) (f : StateFile)
        → (op == "flush" || op == "delete") ≡ true
        → is_tun_project_chain c.chain ≡ true
        → IsJustified before (chain_command op c) "" f
    -- It deletes a rule that was found to jump to a project chain.
    old_rule :
        (r : NftRuleReference) (f : StateFile)
        → WasFound r.location r.handle before
        → IsJustified before (delete_rule h.format r) "" f
    -- It empties or deletes a project chain of iptables, or the jump to one.
    empties_chain :
        (op chain : String) (f : StateFile)
        → (op == "-F" || op == "-X") ≡ true
        → is_tun_project_chain chain ≡ true
        → IsJustified before (chain_op op chain) "" f
    deletes_jump :
        (c : Command) (f : StateFile)
        → IsIn c tun_main_jump_commands
        → IsJustified before (deletion c) "" f
    -- It makes a chain, a jump or a rule of iptables, for a state that says so.
    makes_chain :
        (chain : String) (s : TunState)
        → (s.firewall_backend == "iptables-legacy") ≡ true
        → is_tun_project_chain chain ≡ true
        → IsJustified before (chain_op "-N" chain) "" (holds s)
    makes_jump :
        (c : Command) (s : TunState)
        → (s.firewall_backend == "iptables-legacy") ≡ true
        → IsIn c tun_main_jump_commands
        → IsJustified before c "" (holds s)
    makes_rule :
        (c : Command) (s : TunState)
        → (s.firewall_backend == "iptables-legacy") ≡ true
        → IsIn c (tun_chain_rule_commands s.interface)
        → IsJustified before c "" (holds s)

  abbrev pub Justified : List Step → Step → Type 0
  Justified before s = IsJustified before s.command s.input s.file

  -- The state file is `f`, the commands so far are justified, and `K` is known of them.
  abbrev pub With : StateFile → (List Step → Type 0) → Tun M → Type 0
  With f K w = IsQuiet Justified f w × K w.trace
