-- ===== src/Config/Store/Commit.antt =====
-- What a commit guarantees: on success, on failure, and over a history of commits.
use mihomo_loongnix.Config.Secrets.{secrets_from_config}
use mihomo_loongnix.Config.Lookup.{find_subscription_by_id}
use mihomo_loongnix.Config.Validate.Scalars.{validate_scalars}
use mihomo_loongnix.Config.Validate.Rules.{validate_custom, validate_built_in, validate_providers}
use mihomo_loongnix.Config.Validate.Pools.{member_step, pool_step, validate_pools}
use mihomo_loongnix.Config.Validate.Subscriptions.{validate_active, validate_subscriptions}
use mihomo_loongnix.Config.Validate.{validate}
use mihomo_loongnix.Config.Disk.{
  config_write, config_for_file, write_private_file_atomically, write_config_file,
  write_runtime_secrets, flush, OsAnswers,
}
use mihomo_loongnix.Prelude.{
  some, false, true, string_eq, ◌==◌, if◌then◌else◌, ◌∙◌, ap, ◌≤◌, eqb_iff, ℕ, ◌+◌, List, [], ◌∷◌,
  none, ◌≡◌, refl, ◌≢◌, arith,
}
use mihomo_loongnix.Config.Types.{Config}
use mihomo_loongnix.Config.Store.{
  storage, commit_updated, Store, World, Result, ok, err, CommitError, conflict,
  commit_config_locked, update_global_config, replace_global_config, kept_fields,
}

module _ {Doc : Type 0} (w : World Doc) where
  abbrev with_version : Config → ℕ → Config
  with_version c n = record c { version = n }

  pub commit-ok :
      {E : Type 0} (os : OsAnswers) (next c : Config) (s t : Store Doc)
      → commit_config_locked w {E = E} os next s ≡ (ok c, t)
      → (validate w.net next ≡ [])
        × (c ≡ with_version next (s.memory.version + 1))
        × (t.memory ≡ c)
        × (flush w.yaml w.default_log_dir os c s.disk ≡ (none, t.disk))
  unfolding commit_config_locked
  commit-ok os next c s t h = ground arith

  pub commit-err :
      {E : Type 0} (os : OsAnswers) (next : Config) (s t : Store Doc) (e : CommitError E)
      → commit_config_locked w {E = E} os next s ≡ (err e, t)
      → t.memory ≡ s.memory
  unfolding commit_config_locked
  commit-err os next s t e h = ground arith

  updated-ok :
      {E : Type 0} (os : OsAnswers) (r : Result E Config) (s t : Store Doc) (c : Config)
      → commit_updated w os s r ≡ (ok c, t)
      → (next : Config) × (r ≡ ok next)
        × (validate w.net next ≡ [])
        × (c ≡ with_version next (s.memory.version + 1))
        × (t.memory ≡ c)
        × (flush w.yaml w.default_log_dir os c s.disk ≡ (none, t.disk))
  updated-ok os (err e) s t c h = cc
  updated-ok os (ok next) s t c h =
      let (valid, same, memory, disk) = commit-ok os next c s t h in
      (next, refl, valid, same, memory, disk)

  -- A successful update has changed the memory to what the function made of it, which the
  -- validator accepts, under the next version number; and that is what was written to disk.
  pub update-ok :
      {E : Type 0} (os : OsAnswers) (fn : Config → Result E Config) (s t : Store Doc) (c : Config)
      → update_global_config w os fn s ≡ (ok c, t)
      → (next : Config) × (fn s.memory ≡ ok next)
        × (validate w.net next ≡ [])
        × (c ≡ with_version next (s.memory.version + 1))
        × (t.memory ≡ c)
        × (flush w.yaml w.default_log_dir os c s.disk ≡ (none, t.disk))
  unfolding update_global_config
  update-ok os fn s t c h = updated-ok os (fn s.memory) s t c h

  updated-err :
      {E : Type 0} (os : OsAnswers) (r : Result E Config) (s t : Store Doc) (e : CommitError E)
      → commit_updated w os s r ≡ (err e, t)
      → t.memory ≡ s.memory
  updated-err os (err _) s t e h = cc
  updated-err os (ok next) s t e h = commit-err os next s t e h

  -- An update that fails, for whatever reason, leaves the memory as it was.
  pub update-err :
      {E : Type 0} (os : OsAnswers) (fn : Config → Result E Config) (s t : Store Doc)
      (e : CommitError E)
      → update_global_config w os fn s ≡ (err e, t)
      → t.memory ≡ s.memory
  unfolding update_global_config
  update-err os fn s t e h = updated-err os (fn s.memory) s t e h

  replace→commit :
      {E : Type 0} (os : OsAnswers) (req c : Config) (s t : Store Doc)
      → replace_global_config w {E = E} os req s ≡ (ok c, t)
      → (req.version ≡ s.memory.version)
        × (commit_config_locked w {E = E} os (kept_fields w s.memory req) s ≡ (ok c, t))
  unfolding replace_global_config
  replace→commit os req c s t h = ground arith

  kept_lem :
      (current req : Config)
      → ((kept_fields w current req).mihomo.secret
          ≡ (if req.mihomo.secret == "" then current.mihomo.secret else req.mihomo.secret))
        × ((kept_fields w current req).log_dir
            ≡ (if w.runs_as_root then current.log_dir else req.log_dir))
        × ((kept_fields w current req).mihomo_binary_path
            ≡ (if w.runs_as_root then current.mihomo_binary_path else req.mihomo_binary_path))
        × ((kept_fields w current req).mihomo_config_path
            ≡ (if w.runs_as_root then current.mihomo_config_path else req.mihomo_config_path))
  unfolding kept_fields
  kept_lem current req = (ground arith, ground arith, ground arith, ground arith)

  -- A replacement succeeds only at the current version, and then commits the next one. It keeps
  -- the daemon's own fields: the secret if none is submitted, and the three local paths if the
  -- daemon runs as root.
  pub replace-ok :
      {E : Type 0} (os : OsAnswers) (req c : Config) (s t : Store Doc)
      → replace_global_config w {E = E} os req s ≡ (ok c, t)
      → (req.version ≡ s.memory.version)
        × (t.memory ≡ c)
        × (c.version ≡ s.memory.version + 1)
        × (c.mihomo.secret
            ≡ (if req.mihomo.secret == "" then s.memory.mihomo.secret else req.mihomo.secret))
        × (c.log_dir ≡ (if w.runs_as_root then s.memory.log_dir else req.log_dir))
        × (c.mihomo_binary_path
            ≡ (if w.runs_as_root then s.memory.mihomo_binary_path else req.mihomo_binary_path))
        × (c.mihomo_config_path
            ≡ (if w.runs_as_root then s.memory.mihomo_config_path else req.mihomo_config_path))
  replace-ok {E} os req c s t h =
      let (same, committed) = replace→commit os req c s t h in
      let (_, e, memory, _) = commit-ok {E = E} os (kept_fields w s.memory req) c s t committed in
      let (secret, log, binary, path) = kept_lem s.memory req in
      (
        same,
        memory,
        ap (λ k. k.version) e,
        ap (λ k. k.mihomo.secret) e ∙ secret,
        ap (λ k. k.log_dir) e ∙ log,
        ap (λ k. k.mihomo_binary_path) e ∙ binary,
        ap (λ k. k.mihomo_config_path) e ∙ path,
      )

  -- A replacement based on any other version changes nothing.
  pub replace_stale :
      {E : Type 0} (os : OsAnswers) (req : Config) (s : Store Doc)
      → req.version ≢ s.memory.version
      → replace_global_config w {E = E} os req s ≡ (err (conflict s.memory.version req.version), s)
  unfolding replace_global_config
  replace_stale os req s h = ground (arith, eqb_iff req.version s.memory.version)

  -- The validator does not look at the version number.
  pub validate-with_version :
      (c : Config) (n : ℕ) → validate w.net (with_version c n) ≡ validate w.net c
  unfolding validate validate_subscriptions validate_active validate_pools validate_providers
      validate_built_in validate_custom validate_scalars pool_step member_step
      find_subscription_by_id
  validate-with_version c n = refl

  -- A sequence of updates, each with what the operating system answers.
  pub run_updates :
      {E : Type 0} → List (OsAnswers × (Config → Result E Config)) → Store Doc → Store Doc
  run_updates [] s = s
  run_updates ((os, fn) ∷ us) s = run_updates us (update_global_config w os fn s).1

  update-IsValid :
      {E : Type 0} (os : OsAnswers) (fn : Config → Result E Config) (s t : Store Doc)
      (r : Result (CommitError E) Config)
      → update_global_config w os fn s ≡ (r, t)
      → validate w.net s.memory ≡ []
      → (validate w.net t.memory ≡ []) × (s.memory.version ≤ t.memory.version)
  update-IsValid os fn s t (err e) h v =
      let same = update-err os fn s t e h in
      (ap (validate w.net) same ∙ v, omega (arith, ap (λ c. c.version) same))
  update-IsValid os fn s t (ok c) h v =
      let (next, _, valid, e, memory, _) = update-ok os fn s t c h in
      (
        ap (validate w.net) (memory ∙ e) ∙ (validate-with_version next _ ∙ valid),
        omega (arith, ap (λ k. k.version) (memory ∙ e)),
      )

  -- Whatever updates are made and however they fail, the configuration in memory stays one that
  -- the validator accepts, and its version number never falls.
  pub run_updates-IsValid :
      {E : Type 0} (us : List (OsAnswers × (Config → Result E Config))) (s : Store Doc)
      → validate w.net s.memory ≡ []
      → (validate w.net (run_updates us s).memory ≡ [])
        × (s.memory.version ≤ (run_updates us s).memory.version)
  unfolding run_updates
  run_updates-IsValid [] s v = (v, omega arith)
  run_updates-IsValid ((os, fn) ∷ us) s v =
      let step = update_global_config w os fn s in
      let (valid, grown) = update-IsValid os fn s step.1 step.0 refl v in
      let (valid', grown') = run_updates-IsValid us step.1 valid in (valid', omega arith)

  -- If the main file cannot be written, after the private values have been, the update fails and
  -- the memory is as it was, but the private values on disk are already those of the new
  -- configuration.
  pub commit_partial :
      {E : Type 0} (os : OsAnswers) (next : Config) (s : Store Doc) (ds dc : Doc)
      → validate w.net next ≡ []
      → os.mkdir_secrets ≡ true
      → os.chmod_secrets ≡ true
      → os.secrets_file ≡ record { write_tmp = true; chmod_tmp = true; rename = true; chmod = true }
      → os.config_file.write_tmp ≡ false
      → w.yaml.marshal_secrets (secrets_from_config next) ≡ some ds
      → w.yaml.marshal_config
          (config_for_file w.default_log_dir (with_version next (s.memory.version + 1)))
        ≡ some dc
      → commit_config_locked w {E = E} os next s
        ≡ (err (storage config_write), record s { disk = record (s.disk) { secrets = some ds } })
  unfolding commit_config_locked flush write_runtime_secrets write_config_file
      write_private_file_atomically secrets_from_config
  commit_partial os next s ds dc valid mk ch sf cf es ec = ground arith
