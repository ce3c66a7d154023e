-- ===== src/Tests/Configs.antt =====
-- The theorems on the configuration at concrete inputs.
use mihomo_loongnix.Prelude.Text.{
  upper, has_prefix_by, has_prefix, contains_text, is_space, trim_right, trim_left, trim_space,
  is_blank,
}
use mihomo_loongnix.Subscription.Remove.{remove_subscription-IsValid}
use mihomo_loongnix.Config.Validate.Problems.{port_out_of_range, unique_key, port_conflict}
use mihomo_loongnix.Config.Validate.Scalars.Ports.{validate_ports_iff, NoConflicts, PortOk}
use mihomo_loongnix.Config.Secrets.RoundTrip.{public_config-has_no_secrets, merge-public_config}
use mihomo_loongnix.Config.Validate.Subscriptions.Exact.{
  validate_subscriptions_iff, SubscriptionsOk,
}
use mihomo_loongnix.Config.Validate.Pools.Exact.{validate_pools_iff, PoolsOk}
use mihomo_loongnix.Config.Lookup.{find_subscription_by_id, find_subscription_by_name}
use mihomo_loongnix.Prelude.Int.{pos}
use mihomo_loongnix.Subscription.{empty_name, remove_subscription_at, Refusal, remove_subscription}
use mihomo_loongnix.Config.Load.RoundTrip.{load-flush, IsComplete}
use mihomo_loongnix.Config.Store.Commit.{
  replace-ok, commit_partial, run_updates-IsValid, run_updates,
}
use mihomo_loongnix.Config.Secrets.{
  secrets_from_config, public_config_for_disk, config_contains_inline_secrets,
  merge_runtime_secrets,
}
use mihomo_loongnix.Config.Store.{
  storage, Store, err, kept_fields, CommitError, replace_global_config, commit_config_locked, ok,
  update_global_config, Result,
}
use mihomo_loongnix.Config.Load.{load_config}
use mihomo_loongnix.Config.Load.Restart.{update-restart}
use mihomo_loongnix.Config.Disk.{
  all_readable, config_for_file, write_private_file_atomically, config_write, write_config_file,
  write_runtime_secrets, OsAnswers, flush, Disk,
}
use mihomo_loongnix.Config.Validate.Rules.{
  kind_problems, validate_custom, rule_step, validate_built_in, provider_step, validate_providers,
}
use mihomo_loongnix.Config.Validate.Pools.{member_step, pool_step, validate_pools}
use mihomo_loongnix.Config.Validate.Subscriptions.{
  validate_active, subscription_step, validate_subscriptions,
}
use mihomo_loongnix.Prelude.{
  string_eq, some, ◌==◌, if◌then◌else◌, ◌∷◌, true, false, ◌≤◌, ◌+◌, refl, All, arith, List, ◌↔◌, [],
  ◌≡◌,
}
use mihomo_loongnix.Tests.Data.{
  config_doc, secrets_doc, test_yaml-ReadsBack, sub_a, os_well, os_full, test_defaults, test_yaml,
  TestDoc, test_world, core, test_store, config_ab, test_net,
}
use mihomo_loongnix.Config.Validate.Scalars.{
  named_ports, validate_urls, validate_logging, validate_controller, validate_scalars, port_step,
  validate_ports,
}
use mihomo_loongnix.Config.Validate.{validate}
use mihomo_loongnix.Config.Types.{Config}

-- What a run of the validator computes with.
validator : Unit {0}
unfolding validate validate_ports port_step validate_scalars validate_controller validate_logging
    validate_urls validate_subscriptions subscription_step validate_active validate_pools pool_step
    member_step validate_providers provider_step validate_built_in rule_step validate_custom
    unique_key kind_problems find_subscription_by_id is_blank trim_space trim_left trim_right
    is_space contains_text has_prefix has_prefix_by upper
validator = tt

config_ab-IsValid : validate test_net config_ab ≡ []
unfolding validator
config_ab-IsValid = refl

-- Two enabled ports that are the same, and a pool whose active member is elsewhere.
validate_bad_ports :
    validate_ports (record core { redir_port = pos 7890; tproxy_port = pos 70000 })
    ≡ port_conflict "redir_port" "mixed_port" (pos 7890)
      ∷ port_out_of_range "tproxy_port" (pos 70000)
      ∷ []
unfolding validator
validate_bad_ports = refl

validate_ports_iff_example :
    (validate_ports core ≡ [])
    ↔ (All (λ p. PortOk p.1) (named_ports core) × NoConflicts (named_ports core))
validate_ports_iff_example = validate_ports_iff core

validate_subscriptions_iff_example :
    (validate_subscriptions config_ab ≡ []) ↔ SubscriptionsOk config_ab.subscriptions
validate_subscriptions_iff_example = validate_subscriptions_iff config_ab

validate_pools_iff_example :
    (validate_pools config_ab ≡ []) ↔ PoolsOk config_ab config_ab.subscription_pools
validate_pools_iff_example = validate_pools_iff config_ab

merge-public_config_example :
    merge_runtime_secrets (secrets_from_config config_ab) (public_config_for_disk config_ab)
    ≡ config_ab
unfolding validator
merge-public_config_example = merge-public_config config_ab refl refl

public_config-has_no_secrets_example :
    config_contains_inline_secrets (public_config_for_disk config_ab) ≡ false
public_config-has_no_secrets_example = public_config-has_no_secrets config_ab

config_ab-IsComplete : IsComplete config_ab
config_ab-IsComplete = record {
  config_path = refl;
  binary_or_url = refl;
  controller = refl;
  log_dir = refl;
  file_bytes = omega arith;
  backups = omega arith;
  pooled = refl;
}

writer : Unit {0}
unfolding validator update_global_config commit_config_locked flush write_runtime_secrets
    write_config_file write_private_file_atomically secrets_from_config public_config_for_disk
    config_for_file
writer = tt

abbrev flushed : Disk TestDoc
flushed = (flush test_yaml "/logs" os_well config_ab test_store.disk).1

load-flush_example :
    (load_config test_yaml test_defaults os_well all_readable flushed).0 ≡ config_ab
unfolding writer
load-flush_example =
    load-flush test_yaml test_defaults os_well test_net config_ab test_store.disk flushed
      test_yaml-ReadsBack refl config_ab-IsComplete refl

abbrev rename_group : Config → Result Refusal Config
rename_group c = ok (record c { default_proxy_group = "Manual" })

abbrev updated : Result (CommitError Refusal) Config × Store TestDoc
updated = update_global_config test_world os_well rename_group test_store

abbrev updated_config : Config
updated_config = record config_ab { default_proxy_group = "Manual"; version = 8 }

updated_config-IsComplete : IsComplete updated_config
updated_config-IsComplete = record {
  config_path = refl;
  binary_or_url = refl;
  controller = refl;
  log_dir = refl;
  file_bytes = omega arith;
  backups = omega arith;
  pooled = refl;
}

update-restart_example :
    (next : Config) × (rename_group config_ab ≡ ok next)
    × (updated.1.memory ≡ record next { version = 8 })
    × ((load_config test_yaml test_defaults os_well all_readable updated.1.disk).0
        ≡ updated.1.memory)
unfolding writer
update-restart_example =
    update-restart test_world test_defaults os_well rename_group test_store updated.1 updated_config
      test_yaml-ReadsBack refl updated_config-IsComplete refl

abbrev refused_update : Config → Result Refusal Config
refused_update c = err empty_name

abbrev history : List (OsAnswers × (Config → Result Refusal Config))
history = (os_well, rename_group) ∷ (os_full, rename_group) ∷ []

run_updates-IsValid_example :
    (validate test_net (run_updates test_world history test_store).memory ≡ [])
    × (7 ≤ (run_updates test_world history test_store).memory.version)
run_updates-IsValid_example = run_updates-IsValid test_world history test_store config_ab-IsValid

abbrev submitted : Config
submitted = record config_ab { log_dir = "/other"; mihomo = record core { secret = "" } }

abbrev replaced : Result (CommitError Refusal) Config × Store TestDoc
replaced = replace_global_config test_world os_well submitted test_store

abbrev next_config : Config
next_config = record config_ab { version = 8 }

replace-ok_example :
    (7 ≡ config_ab.version)
    × (replaced.1.memory ≡ next_config)
    × (next_config.version ≡ config_ab.version + 1)
    × (next_config.mihomo.secret ≡ (
        if submitted.mihomo.secret == "" then config_ab.mihomo.secret else submitted.mihomo.secret))
    × (next_config.log_dir ≡ (if true then config_ab.log_dir else submitted.log_dir))
    × (next_config.mihomo_binary_path
        ≡ (if true then config_ab.mihomo_binary_path else submitted.mihomo_binary_path))
    × (next_config.mihomo_config_path
        ≡ (if true then config_ab.mihomo_config_path else submitted.mihomo_config_path))
unfolding writer replace_global_config kept_fields
replace-ok_example =
    replace-ok test_world {E = Refusal} os_well submitted next_config test_store replaced.1 refl

commit_partial_example :
    commit_config_locked test_world {E = Refusal} os_full config_ab test_store ≡ (
      err (storage config_write),
      record test_store {
        disk = record (test_store.disk) {
          secrets = some (secrets_doc (secrets_from_config config_ab));
        };
      },
    )
unfolding writer
commit_partial_example =
    commit_partial test_world os_full config_ab test_store
      (secrets_doc (secrets_from_config config_ab))
      (config_doc (config_for_file "/logs" (record config_ab { version = 8 }))) config_ab-IsValid
      refl refl refl refl refl refl

remove_subscription-IsValid_example :
    validate test_net (remove_subscription_at "now" 0 sub_a config_ab) ≡ []
unfolding validator remove_subscription find_subscription_by_name
remove_subscription-IsValid_example =
    remove_subscription-IsValid test_net "now" "alpha" config_ab
      (remove_subscription_at "now" 0 sub_a config_ab) config_ab-IsValid refl
