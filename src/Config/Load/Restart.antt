-- ===== src/Config/Load/Restart.antt =====
-- `updateGlobalConfig` of mihomotui/config_store.go, followed by `LoadConfig` of the next start.
use mihomo_loongnix.Prelude.{ap, subst, sym, none, ◌+◌, ◌∙◌, ◌≡◌, []}
use mihomo_loongnix.Config.Types.{Config}
use mihomo_loongnix.Config.Disk.{all_readable, flush, OsAnswers, ReadsBack}
use mihomo_loongnix.Config.Store.{Result, Store, World, ok, update_global_config}
use mihomo_loongnix.Config.Store.Commit.{update-ok, validate-with_version}
use mihomo_loongnix.Config.Load.{Defaults, load_config}
use mihomo_loongnix.Config.Load.RoundTrip.{IsComplete, load-flush}
use mihomo_loongnix.Config.Validate.{validate}

-- After a successful update that leaves a complete configuration, memory holds what the function
-- made of it, under the next version number, and a daemon that starts from the files it left reads
-- exactly that, if both files can be read, the mode of the private one can be tightened, and the
-- YAML package reads back what it writes.
pub update-restart :
    {Doc E : Type 0} (w : World Doc) (d : Defaults) (os : OsAnswers) (fn : Config → Result E Config)
    (s t : Store Doc) (c : Config)
    → ReadsBack w.yaml
    → d.log_dir ≡ w.default_log_dir
    → IsComplete c
    → update_global_config w os fn s ≡ (ok c, t)
    → (next : Config) × (fn s.memory ≡ ok next)
      × (t.memory ≡ record next { version = s.memory.version + 1 })
      × ((load_config w.yaml d os all_readable t.disk).0 ≡ t.memory)
update-restart w d os fn s t c back dir complete h =
    let (next, made, valid, e, memory, written) = update-ok w os fn s t c h in
    let accepted : validate w.net c ≡ [] =
      ap (validate w.net) e ∙ (validate-with_version w next _ ∙ valid) in
    (
      next,
      made,
      memory ∙ e,
      load-flush w.yaml d os w.net c s.disk t.disk back accepted complete
            (subst (λ l. flush w.yaml l os c s.disk ≡ (none, t.disk)) (sym dir) written)
          ∙ sym memory,
    )
