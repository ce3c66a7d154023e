-- ===== src/Config/Load.antt =====
-- `LoadConfig` of mihomotui/config.go: reading the files, migrating older ones, and filling in
-- defaults. The default configuration, the default rules and the default paths are arguments (the
-- code takes them from tables and from the environment), and so are the random IDs.
pub mod RoundTrip
pub mod Restart
use mihomo_loongnix.Config.Secrets.{config_contains_inline_secrets}
use mihomo_loongnix.Config.Disk.{flush, Disk, load_runtime_secrets, OsAnswers, ReadAnswers, Yaml}
use mihomo_loongnix.Config.Validate.Pools.{is_empty}
use mihomo_loongnix.Prelude.Int.{ltb_ℤ, pos, negsuc, ℤ, leb_ℤ}
use mihomo_loongnix.Prelude.{
  ℕ, zero, suc, ◌+◌, ◌*◌, ◌^◌, String, Bool, true, false, not, ◌&&◌, ◌||◌, List, [], ◌∷◌, Option,
  none, some, if◌then◌else◌, ◌==◌, string_eq, length, get_elem?, map,
}
use mihomo_loongnix.Config.Types.{
  source_url, Config, SubscriptionMeta, SubscriptionPool, BuiltInRule,
}

pub record Defaults : Type 0 where
  pub config : Config
  pub rules : List BuiltInRule
  pub mihomo_config_path : String
  pub log_dir : String
  pub download_url : String
  pub random_id : ℕ → String

-- Subscriptions of old files get an ID; `i` counts them.
unfoldable pub fill_ids : (ℕ → String) → ℕ → List SubscriptionMeta → List SubscriptionMeta
fill_ids random_id i [] = []
fill_ids random_id i (s ∷ ss) =
    (if s.id == "" then record s { id = random_id i } else s) ∷ fill_ids random_id (suc i) ss

abbrev pub typed_source : SubscriptionMeta → SubscriptionMeta
typed_source s = if s.source_type == "" then record s { source_type = source_url } else s

-- `Subscriptions[i].ID` where the index is in range, and `otherwise` where it is not.
unfoldable pub active_id : List SubscriptionMeta → ℤ → String → String
active_id ss (negsuc n) otherwise = otherwise
active_id ss (pos i) otherwise = elim (get_elem? ss i) [ none ↦ otherwise | some s ↦ s.id ]

abbrev pub first_id : List SubscriptionMeta → String
first_id [] = ""
first_id (s ∷ ss) = s.id

-- Old files without pools: every subscription enters one failover pool.
unfoldable pub migrate_pools : (ℕ → String) → Config → Config
unfolding active_id
migrate_pools random_id c =
    if not (is_empty c.subscriptions) && is_empty c.subscription_pools
    then record c {
      subscriptions = map typed_source c.subscriptions;
      subscription_pools =
          record {
            id = random_id (length c.subscriptions);
            name = "默认订阅池";
            mode = "";
            members = map (λ s. s.id) c.subscriptions;
            active_member_id =
                active_id c.subscriptions c.active_subscription (first_id c.subscriptions);
            enabled = true;
            refresh_interval = pos 86400;
            last_switch_at = "";
            last_switch_reason = "";
            degraded = false;
          }
          ∷ [];
    }
    else c

unfoldable pub ensure_built_in_rules : List BuiltInRule → Config → Config
ensure_built_in_rules rules c = if c.built_in_rules_initialized then c else record c {
  built_in_rules = rules;
  built_in_rules_initialized = true;
  pre_custom_rules =
      if not (is_empty c.custom_rules) && is_empty c.pre_custom_rules
      then c.custom_rules
      else c.pre_custom_rules;
}

-- `len(xs) - 1`.
abbrev pub last_index {ℓ} : {A : Type ℓ} → List A → ℤ
last_index [] = negsuc 0
last_index (x ∷ xs) = pos (length xs)

unfoldable pub heal_active : Config → Config
heal_active c =
    let a =
      if leb_ℤ (pos (length c.subscriptions)) c.active_subscription
      then last_index c.subscriptions
      else c.active_subscription in
    record c { active_subscription = if ltb_ℤ a (negsuc 0) then negsuc 0 else a }

abbrev pub or_default : String → String → String
or_default s default = if s == "" then default else s

unfoldable pub fill_defaults : Defaults → Config → Config
fill_defaults d c = record c {
  mihomo_config_path = or_default c.mihomo_config_path d.mihomo_config_path;
  external_resources =
      if c.mihomo_binary_path == "" && c.external_resources.mihomo == ""
      then record (c.external_resources) { mihomo = d.download_url }
      else c.external_resources;
  system = record (c.system) { language = or_default c.system.language "zh-CN" };
  mihomo = record (c.mihomo) {
    log_level = or_default c.mihomo.log_level "info";
    external_controller = or_default c.mihomo.external_controller "127.0.0.1:9090";
  };
  log_dir = or_default c.log_dir d.log_dir;
  proxy_mode = or_default c.proxy_mode "rule";
  log_level = or_default c.log_level "info";
  managed_logging = record (c.managed_logging) {
    max_file_bytes =
        if leb_ℤ c.managed_logging.max_file_bytes (pos 0)
        then pos (10 * 2 ^ 20)
        else c.managed_logging.max_file_bytes;
    max_backups =
        if leb_ℤ c.managed_logging.max_backups (pos 0)
        then pos 3
        else c.managed_logging.max_backups;
  };
  default_proxy_group = or_default c.default_proxy_group "Auto";
}

-- A failure to load the private values is only logged.
unfoldable pub with_secrets : {Doc : Type 0} → Yaml Doc → ReadAnswers → Option Doc → Config → Config
with_secrets yaml os secrets c = elim (load_runtime_secrets yaml os secrets c) [
  | none ↦ c
  | some loaded ↦ loaded
]

unfoldable pub migrate : Defaults → Config → Config
migrate d c =
    fill_defaults d (heal_active (ensure_built_in_rules d.rules (migrate_pools d.random_id c)))

-- What follows the reading of the main file, up to the last write.
unfoldable pub upgrade :
    {Doc : Type 0} → Yaml Doc → Defaults → ReadAnswers → Option Doc → Config → Config
upgrade yaml d os secrets c = migrate d (
    with_secrets yaml os secrets
      (record c { subscriptions = fill_ids d.random_id 0 c.subscriptions }))

-- The configuration, and the disk after what `LoadConfig` itself writes.
unfoldable pub load_config :
    {Doc : Type 0} → Yaml Doc → Defaults → OsAnswers → ReadAnswers → Disk Doc → Config × Disk Doc
load_config yaml d os reads disk = elim disk.config [
  | none ↦ (d.config, (flush yaml d.log_dir os d.config disk).1)
  | some doc ↦
      if not reads.read_config then (d.config, disk) else elim (yaml.unmarshal_config doc) [
        | none ↦ (d.config, disk)
        | some c ↦
            let cfg = upgrade yaml d reads disk.secrets c in
            (
              cfg,
              if config_contains_inline_secrets
                    (record c { subscriptions = fill_ids d.random_id 0 c.subscriptions })
                  then (flush yaml d.log_dir os cfg disk).1
                  else disk,
            )
      ]
]
