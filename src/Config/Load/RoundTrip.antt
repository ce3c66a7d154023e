-- ===== src/Config/Load/RoundTrip.antt =====
-- Loading what was written gives the configuration back.
use mihomo_loongnix.Config.Validate.Parts.{validate→Parts}
use mihomo_loongnix.Config.Secrets.RoundTrip.{not_empty, merge-public_config}
use mihomo_loongnix.Prelude.Text.{is_blank}
use mihomo_loongnix.Config.Validate.Subscriptions.Exact.{validate_subscriptions_iff, SubscriptionOk}
use mihomo_loongnix.Config.Secrets.{
  RuntimeSecrets, public_config_for_disk, secrets_from_config, merge_runtime_secrets,
  public_subscription,
}
use mihomo_loongnix.Config.Disk.{
  all_readable, load_runtime_secrets, write_private_file_atomically, write_config_file, ReadsBack,
  write_runtime_secrets, Disk, flush, config_for_file, OsAnswers, Yaml,
}
use mihomo_loongnix.Config.Validate.Problems.{add_if-eq-nil, add_if-append, NetLib}
use mihomo_loongnix.Config.Validate.Scalars.{
  proxy_modes, validate_urls, validate_logging, app_log_levels, mihomo_log_levels,
  validate_controller, validate_scalars,
}
use mihomo_loongnix.Config.Validate.{validate}
use mihomo_loongnix.Config.Validate.Rules.{validate_providers, validate_built_in}
use mihomo_loongnix.Prelude.Int.{leb_ℤ, ℤ, ◌≤ℤ◌, pos}
use mihomo_loongnix.Config.Validate.Pools.{is_empty}
use mihomo_loongnix.Config.Validate.Subscriptions.{validate_subscriptions, validate_active}
use mihomo_loongnix.Prelude.{
  sym, Option, none, map, some, ◌∙◌, ==→eq, ap, inr, append-eq-nil, inl, contains, refl, Bool-cases,
  suc, if◌then◌else◌, ◌^◌, arith, ◌*◌, ◌∷◌, Bool, string_eq, All, ◌&&◌, not, true, [], false,
  String, List, ℕ, ◌≡◌, ◌==◌,
}
use mihomo_loongnix.Config.Load.{
  migrate, with_secrets, load_config, upgrade, or_default, Defaults, ensure_built_in_rules,
  fill_defaults, heal_active, fill_ids, migrate_pools,
}
use mihomo_loongnix.Config.Types.{ExternalResources, SubscriptionMeta, BuiltInRule, Config}

-- What the loader would otherwise fill in or repair.
pub record IsComplete (c : Config) : Type 0 where
  pub config_path : (c.mihomo_config_path == "") ≡ false
  pub binary_or_url : (c.mihomo_binary_path == "" && c.external_resources.mihomo == "") ≡ false
  pub controller : (c.mihomo.external_controller == "") ≡ false
  pub log_dir : (c.log_dir == "") ≡ false
  pub file_bytes : pos 1 ≤ℤ c.managed_logging.max_file_bytes
  pub backups : pos 1 ≤ℤ c.managed_logging.max_backups
  pub pooled : (not (is_empty c.subscriptions) && is_empty c.subscription_pools) ≡ false

fill_ids_id :
    (random_id : ℕ → String) (i : ℕ) (ss : List SubscriptionMeta)
    → All (λ s. (s.id == "") ≡ false) ss
    → fill_ids random_id i ss ≡ ss
unfolding fill_ids
fill_ids_id random_id i [] h = refl
fill_ids_id random_id i (s ∷ ss) h = ground (arith, fill_ids_id random_id (suc i) ss h.1)

migrate_pools_id :
    (random_id : ℕ → String) (c : Config)
    → (not (is_empty c.subscriptions) && is_empty c.subscription_pools) ≡ false
    → migrate_pools random_id c ≡ c
unfolding migrate_pools
migrate_pools_id random_id c h = rw h

ensure_built_in_rules_id :
    (rules : List BuiltInRule) (c : Config)
    → c.built_in_rules_initialized ≡ true
    → ensure_built_in_rules rules c ≡ c
unfolding ensure_built_in_rules
ensure_built_in_rules_id rules c h = rw (h, ensure_built_in_rules)

healed :
    (c : Config)
    → validate_active c ≡ []
    → (heal_active c).active_subscription ≡ c.active_subscription
unfolding heal_active validate_active
healed c h = ground arith

heal_active_id : (c : Config) → validate_active c ≡ [] → heal_active c ≡ c
unfolding heal_active
heal_active_id c h = let e = healed c h in λ i. record c { active_subscription = e i }

or_default_id : (s default : String) → (s == "") ≡ false → or_default s default ≡ s
or_default_id s default h = ground arith

positive_id : (n default : ℤ) → pos 1 ≤ℤ n → (if leb_ℤ n (pos 0) then default else n) ≡ n
positive_id n default h = ground arith

url_id :
    (b : Bool) (e : ExternalResources) (url : String)
    → b ≡ false
    → (if b then record e { mihomo = url } else e) ≡ e
url_id b e url h = rw h

-- The values that the validator never lets be empty.
record IsNamed (c : Config) : Type 0 where
  language : (c.system.language == "") ≡ false
  core_level : (c.mihomo.log_level == "") ≡ false
  mode : (c.proxy_mode == "") ≡ false
  level : (c.log_level == "") ≡ false
  group : (c.default_proxy_group == "") ≡ false

fill_defaults_id :
    (d : Defaults) (c : Config) (stored_dir : String)
    → IsComplete c
    → IsNamed c
    → or_default stored_dir d.log_dir ≡ c.log_dir
    → fill_defaults d (record c { log_dir = stored_dir }) ≡ c
unfolding fill_defaults
fill_defaults_id d c stored_dir k n log_dir =
    let path = or_default_id c.mihomo_config_path d.mihomo_config_path k.config_path in
    let resources =
      url_id (c.mihomo_binary_path == "" && c.external_resources.mihomo == "") c.external_resources
        d.download_url k.binary_or_url in
    let language = or_default_id c.system.language "zh-CN" n.language in
    let core_level = or_default_id c.mihomo.log_level "info" n.core_level in
    let controller = or_default_id c.mihomo.external_controller "127.0.0.1:9090" k.controller in
    let mode = or_default_id c.proxy_mode "rule" n.mode in
    let level = or_default_id c.log_level "info" n.level in
    let bytes = positive_id c.managed_logging.max_file_bytes (pos (10 * 2 ^ 20)) k.file_bytes in
    let backups = positive_id c.managed_logging.max_backups (pos 3) k.backups in
    let group = or_default_id c.default_proxy_group "Auto" n.group in
    λ i. record c {
      mihomo_config_path = path i;
      external_resources = resources i;
      system = record (c.system) { language = language i };
      mihomo = record (c.mihomo) { log_level = core_level i; external_controller = controller i };
      log_dir = log_dir i;
      proxy_mode = mode i;
      log_level = level i;
      managed_logging = record (c.managed_logging) {
        max_file_bytes = bytes i;
        max_backups = backups i;
      };
      default_proxy_group = group i;
    }

initialized : (c : Config) → validate_built_in c ≡ [] → c.built_in_rules_initialized ≡ true
unfolding validate_built_in
initialized c h = elim (Bool-cases c.built_in_rules_initialized) [
  | inl e ↦ e
  | inr e ↦ cc (rw (e, validate_built_in) at h)
]

named : (net : NetLib) (c : Config) → validate_scalars net c ≡ [] → IsNamed c
unfolding validate_scalars
named net c h =
    let (_, h1) = append-eq-nil (validate_controller net c.mihomo) _ h in
    let (core, h2) = add_if-append (not (contains mihomo_log_levels c.mihomo.log_level)) _ _ h1 in
    let (app, h3) = add_if-append (not (contains app_log_levels c.log_level)) _ _ h2 in
    let (_, h4) = append-eq-nil (validate_logging c.managed_logging) _ h3 in
    let (_, h5) = append-eq-nil (validate_urls net c) _ h4 in
    let (mode, h6) = add_if-append (not (contains proxy_modes c.proxy_mode)) _ _ h5 in
    let (group, h7) = add_if-append (is_blank c.default_proxy_group) _ _ h6 in
    let language = add_if-eq-nil (is_blank c.system.language) _ h7 in
    record {
      language = not_empty c.system.language language;
      core_level = listed mihomo_log_levels c.mihomo.log_level refl core;
      mode = listed proxy_modes c.proxy_mode refl mode;
      level = listed app_log_levels c.log_level refl app;
      group = not_empty c.default_proxy_group group;
    }
  where
    listed :
        (levels : List String) (s : String)
        → contains levels "" ≡ false
        → not (contains levels s) ≡ false
        → (s == "") ≡ false
    listed levels s h k = elim (Bool-cases (s == "")) [
      | inl e ↦ cc (k, ap not (ap (contains levels) (==→eq s "" e) ∙ h))
      | inr e ↦ e
    ]

module _ {Doc : Type 0} (yaml : Yaml Doc) (d : Defaults) (os : OsAnswers) where
  -- What a successful flush leaves in the two files.
  flush_docs :
      (c : Config) (old new : Disk Doc)
      → flush yaml d.log_dir os c old ≡ (none, new)
      → (ds : Doc) × (dc : Doc) × (yaml.marshal_secrets (secrets_from_config c) ≡ some ds)
        × (yaml.marshal_config (config_for_file d.log_dir c) ≡ some dc)
        × (new.secrets ≡ some ds)
        × (new.config ≡ some dc)
  unfolding flush write_runtime_secrets write_config_file write_private_file_atomically
  flush_docs c old new h =
      go (yaml.marshal_secrets (secrets_from_config c))
        (yaml.marshal_config (config_for_file d.log_dir c)) refl refl
    where
      go :
          (ms mc : Option Doc)
          → yaml.marshal_secrets (secrets_from_config c) ≡ ms
          → yaml.marshal_config (config_for_file d.log_dir c) ≡ mc
          → (ds : Doc) × (dc : Doc) × (yaml.marshal_secrets (secrets_from_config c) ≡ some ds)
            × (yaml.marshal_config (config_for_file d.log_dir c) ≡ some dc)
            × (new.secrets ≡ some ds)
            × (new.config ≡ some dc)
      go none mc e f = absurd (ground arith)
      go (some ds) none e f = absurd (ground arith)
      go (some ds) (some dc) e f = (ds, dc, e, f, ground arith, ground arith)

  abbrev dir_in_file : Config → String
  dir_in_file c = if c.log_dir == d.log_dir then "" else c.log_dir

  merged :
      (c : Config)
      → validate_subscriptions c ≡ []
      → validate_providers c ≡ []
      → merge_runtime_secrets (secrets_from_config c) (config_for_file d.log_dir c)
        ≡ record c { log_dir = dir_in_file c }
  unfolding config_for_file merge_runtime_secrets public_config_for_disk
  merged c hs hp =
      ap (λ (k : Config). record k { log_dir = dir_in_file c }) (merge-public_config c hs hp)

  ids_kept :
      (ss : List SubscriptionMeta)
      → All SubscriptionOk ss
      → All (λ s. (s.id == "") ≡ false) (map public_subscription ss)
  unfolding public_subscription
  ids_kept [] h = tt
  ids_kept (s ∷ ss) h = (ground (arith, h.0.has_id), ids_kept ss h.1)

  stored_dir :
      (c : Config) → (c.log_dir == "") ≡ false → or_default (dir_in_file c) d.log_dir ≡ c.log_dir
  stored_dir c h = elim (Bool-cases (c.log_dir == d.log_dir)) [
    | inl e ↦ rw e (sym (==→eq c.log_dir d.log_dir e))
    | inr e ↦ rw e (or_default_id c.log_dir d.log_dir h)
  ]

  migrate_id :
      (net : NetLib) (c : Config) (dir : String)
      → validate net c ≡ []
      → IsComplete c
      → or_default dir d.log_dir ≡ c.log_dir
      → migrate d (record c { log_dir = dir }) ≡ c
  unfolding migrate
  migrate_id net c dir h k e =
      let parts = validate→Parts net c h in
      let c' : Config = record c { log_dir = dir } in
      let e1 = migrate_pools_id d.random_id c' k.pooled in
      let e2 = ensure_built_in_rules_id d.rules c' (initialized c parts.built_in) in
      let e3 = heal_active_id c' (same_active c dir parts.active) in
      ap (λ x. fill_defaults d (heal_active (ensure_built_in_rules d.rules x))) e1
      ∙ (ap (λ x. fill_defaults d (heal_active x)) e2
          ∙ (ap (fill_defaults d) e3 ∙ fill_defaults_id d c dir k (named net c parts.scalars) e))
    where
      same_active :
          (c : Config) (dir : String)
          → validate_active c ≡ []
          → validate_active (record c { log_dir = dir }) ≡ []
      same_active c dir h = unfold validate_active in h

  with_secrets_lem :
      (ds : Doc) (c : Config) (secrets : RuntimeSecrets)
      → yaml.unmarshal_secrets ds ≡ some secrets
      → with_secrets yaml all_readable (some ds) c ≡ merge_runtime_secrets secrets c
  unfolding with_secrets load_runtime_secrets
  with_secrets_lem ds c secrets e = ground arith

  upgrade-public :
      (net : NetLib) (c : Config) (ds : Doc)
      → validate net c ≡ []
      → IsComplete c
      → yaml.unmarshal_secrets ds ≡ some (secrets_from_config c)
      → upgrade yaml d all_readable (some ds) (config_for_file d.log_dir c) ≡ c
  unfolding upgrade
  upgrade-public net c ds h k e =
      let parts = validate→Parts net c h in
      let p : Config = config_for_file d.log_dir c in
      let oks = ((validate_subscriptions_iff c).0 parts.subscriptions).each in
      let ids = file_ids c oks in
      ap
        (λ x. migrate d (with_secrets yaml all_readable (some ds) (record p { subscriptions = x })))
        ids
      ∙ (ap (migrate d) (with_secrets_lem ds p (secrets_from_config c) e)
          ∙ (ap (migrate d) (merged c parts.subscriptions parts.providers)
              ∙ migrate_id net c (dir_in_file c) h k (stored_dir c k.log_dir)))
    where
      file_ids :
          (c : Config)
          → All SubscriptionOk c.subscriptions
          → fill_ids d.random_id 0 (config_for_file d.log_dir c).subscriptions
            ≡ (config_for_file d.log_dir c).subscriptions
      file_ids c oks =
          unfold config_for_file public_config_for_disk in
          fill_ids_id d.random_id 0 (map public_subscription c.subscriptions)
            (ids_kept c.subscriptions oks)

  -- A valid and complete configuration that was written without an error is what the next start
  -- reads, if both files can then be read, the mode of the private one can be tightened, and the
  -- YAML package reads back what it writes.
  pub load-flush :
      (net : NetLib) (c : Config) (old new : Disk Doc)
      → ReadsBack yaml
      → validate net c ≡ []
      → IsComplete c
      → flush yaml d.log_dir os c old ≡ (none, new)
      → (load_config yaml d os all_readable new).0 ≡ c
  unfolding load_config
  load-flush net c old new back h k written =
      let (ds, dc, es, ec, fs, fc) = flush_docs c old new written in
      let read = back.config (config_for_file d.log_dir c) dc ec in
      let secrets = back.secrets (secrets_from_config c) ds es in
      rw (fc, load_config) (rw (read, load_config) (rw fs (upgrade-public net c ds h k secrets)))
