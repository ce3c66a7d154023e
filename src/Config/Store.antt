-- ===== src/Config/Store.antt =====
-- mihomotui/config_store.go: the committed configuration, in memory and on disk. The mutex makes
-- each of these functions one step. `Clone` is the identity here, since values are not shared.
pub mod Commit
use mihomo_loongnix.Prelude.{
  ℕ, suc, ◌+◌, String, Bool, not, List, [], ◌∷◌, Option, none, some, if◌then◌else◌, ◌==◌, string_eq,
  eqb,
}
use mihomo_loongnix.Config.Types.{Config}
use mihomo_loongnix.Config.Validate.{validate}
use mihomo_loongnix.Config.Validate.Problems.{Problem, NetLib}
use mihomo_loongnix.Config.Disk.{Yaml, OsAnswers, Disk, FlushError, flush}

-- `E` is what an update function may fail with.
pub data CommitError (E : Type 0) : Type 0 where
  refused : E → CommitError E
  invalid : List Problem → CommitError E
  storage : FlushError → CommitError E
  conflict : ℕ → ℕ → CommitError E

pub data Result (E A : Type 0) : Type 0 where
  ok : A → Result E A
  err : E → Result E A

pub record Store (Doc : Type 0) : Type 0 where
  pub memory : Config
  pub disk : Disk Doc

-- What stays the same while the daemon runs: the libraries, the default log directory, and
-- whether the daemon runs as root.
pub record World (Doc : Type 0) : Type 0 where
  pub net : NetLib
  pub yaml : Yaml Doc
  pub default_log_dir : String
  pub runs_as_root : Bool

module _ {Doc : Type 0} (w : World Doc) where
  -- Write to disk, and only then replace the memory.
  abbrev store_flushed :
      {E : Type 0}
      → Store Doc
      → Config
      → Option FlushError × Disk Doc
      → Result (CommitError E) Config × Store Doc
  store_flushed s next (some e, disk) = (err (storage e), record s { disk = disk })
  store_flushed s next (none, disk) = (ok next, record { memory = next; disk = disk })

  unfoldable pub commit_config_locked :
      {E : Type 0} → OsAnswers → Config → Store Doc → Result (CommitError E) Config × Store Doc
  commit_config_locked os next s = elim (validate w.net next) [
    | p ∷ ps ↦ (err (invalid (p ∷ ps)), s)
    | [] ↦
        let next' = record next { version = s.memory.version + 1 } in
        store_flushed s next' (flush w.yaml w.default_log_dir os next' s.disk)
  ]

  -- After the update function has returned.
  abbrev pub commit_updated :
      {E : Type 0}
      → OsAnswers
      → Store Doc
      → Result E Config
      → Result (CommitError E) Config × Store Doc
  commit_updated os s (err e) = (err (refused e), s)
  commit_updated os s (ok next) = commit_config_locked os next s

  unfoldable pub update_global_config :
      {E : Type 0}
      → OsAnswers
      → (Config → Result E Config)
      → Store Doc
      → Result (CommitError E) Config × Store Doc
  update_global_config os fn s = commit_updated os s (fn s.memory)

  -- The fields of a submitted configuration that the daemon keeps for itself.
  unfoldable pub kept_fields : Config → Config → Config
  kept_fields current req =
      let secret = if req.mihomo.secret == "" then current.mihomo.secret else req.mihomo.secret in
      let next = record req { mihomo = record (req.mihomo) { secret = secret } } in
      if w.runs_as_root
      then record next {
        mihomo_config_path = current.mihomo_config_path;
        mihomo_binary_path = current.mihomo_binary_path;
        log_dir = current.log_dir;
      }
      else next

  unfoldable pub replace_global_config :
      {E : Type 0} → OsAnswers → Config → Store Doc → Result (CommitError E) Config × Store Doc
  replace_global_config os req s =
      if not (eqb req.version s.memory.version)
      then (err (conflict s.memory.version req.version), s)
      else commit_config_locked os (kept_fields s.memory req) s
