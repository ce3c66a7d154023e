-- ===== src/Tests/Data.antt =====
-- A small valid configuration, and concrete libraries, for the tests.
use mihomo_loongnix.Subscription.{new_subscription}
use mihomo_loongnix.Config.Validate.Problems.{NetLib}
use mihomo_loongnix.Config.Secrets.{RuntimeSecrets}
use mihomo_loongnix.Prelude.Int.{pos}
use mihomo_loongnix.Config.Load.{Defaults}
use mihomo_loongnix.Config.Store.{World, Store}
use mihomo_loongnix.Config.Disk.{Yaml, WriteAnswers, ReadsBack, OsAnswers}
use mihomo_loongnix.Prelude.{refl, arith, subst, ◌≡◌, true, false, [], ◌∷◌, none, some}
use mihomo_loongnix.Config.Types.{
  Config, SubscriptionMeta, SubscriptionPool, RuleProviderSubscription, BuiltInRule, MihomoConfig,
}

abbrev pub test_net : NetLib
test_net = record {
  url_parse = λ s. some (record { scheme = "https"; host = s });
  split_host_port = λ s. some ("127.0.0.1", "9090");
  atoi = λ s. some (pos 9090);
}

pub data TestDoc : Type 0 where
  config_doc : Config → TestDoc
  secrets_doc : RuntimeSecrets → TestDoc

abbrev pub test_yaml : Yaml TestDoc
test_yaml = record {
  marshal_config = λ c. some (config_doc c);
  unmarshal_config = λ d. elim d [ config_doc c ↦ some c | secrets_doc s ↦ none ];
  marshal_secrets = λ s. some (secrets_doc s);
  unmarshal_secrets = λ d. elim d [ config_doc c ↦ none | secrets_doc s ↦ some s ];
}

pub test_yaml-ReadsBack : ReadsBack test_yaml
test_yaml-ReadsBack = record {
  config = λ c d h. config_back c d h;
  secrets = λ s d h. secrets_back s d h;
}
  where
    config_back :
        (c : Config) (d : TestDoc)
        → some (config_doc c) ≡ some d
        → test_yaml.unmarshal_config d ≡ some c
    config_back c d h =
        let e : config_doc c ≡ d = ground arith in
        subst (λ x. test_yaml.unmarshal_config x ≡ some c) e refl

    secrets_back :
        (s : RuntimeSecrets) (d : TestDoc)
        → some (secrets_doc s) ≡ some d
        → test_yaml.unmarshal_secrets d ≡ some s
    secrets_back s d h =
        let e : secrets_doc s ≡ d = ground arith in
        subst (λ x. test_yaml.unmarshal_secrets x ≡ some s) e refl

abbrev pub all_well : WriteAnswers
all_well = record { write_tmp = true; chmod_tmp = true; rename = true; chmod = true }

abbrev pub os_well : OsAnswers
os_well = record {
  mkdir_secrets = true;
  chmod_secrets = true;
  secrets_file = all_well;
  config_file = all_well;
}

abbrev pub os_full : OsAnswers
os_full = record os_well { config_file = record all_well { write_tmp = false } }

abbrev pub sub_a : SubscriptionMeta
sub_a = record (new_subscription "a" "alpha" "https://a.example/x") { cache_file = "/c/a.yaml" }

abbrev pub sub_b : SubscriptionMeta
sub_b = record (new_subscription "b" "beta" "https://b.example/y") { cache_file = "/c/b.yaml" }

abbrev pub pool_ab : SubscriptionPool
pool_ab = record {
  id = "p";
  name = "pool";
  mode = "";
  members = "a" ∷ "b" ∷ [];
  active_member_id = "a";
  enabled = true;
  refresh_interval = pos 3600;
  last_switch_at = "";
  last_switch_reason = "";
  degraded = false;
}

abbrev pub rule_match : BuiltInRule
rule_match = record {
  id = "builtin-match";
  name = "match";
  kind = "match";
  enabled = true;
  order = pos 0;
  rule = "";
  url = "";
  behavior = "";
  format = "";
  interval = pos 0;
  proxy_group = "Auto";
}

abbrev pub provider_r : RuleProviderSubscription
provider_r = record {
  name = "r";
  url = "https://r.example/z";
  behavior = "domain";
  format = "yaml";
  interval = pos 86400;
  proxy_group = "Auto";
  updated_at = "";
  last_success_at = "";
  last_failure_at = "";
  last_error = "";
}

abbrev pub core : MihomoConfig
core = record {
  http_port = pos 0;
  socks5_port = pos 0;
  mixed_port = pos 7890;
  redir_port = pos 7893;
  tproxy_port = pos 0;
  allow_lan = false;
  ipv6 = true;
  unified_delay = true;
  auto_redirect = false;
  log_level = "info";
  test_url = "";
  external_controller = "127.0.0.1:9090";
  secret = "s3cret";
}

abbrev pub config_ab : Config
config_ab = record {
  version = 7;
  mihomo_config_path = "/etc/m.yaml";
  mihomo_binary_path = "/usr/bin/mihomo";
  mihomo_active_version = "";
  mihomo_running_version = "";
  mihomo_running_version_at = "";
  mihomo_versions = [];
  mihomo_versions_checked_at = "";
  mihomo_versions_source = "";
  mihomo_versions_last_error = "";
  system = record { auto_start = false; system_proxy = false; tun = false; language = "zh-CN" };
  mihomo = core;
  subscriptions = sub_a ∷ sub_b ∷ [];
  subscription_pools = pool_ab ∷ [];
  active_subscription = pos 1;
  rule_provider_subscriptions = provider_r ∷ [];
  custom_rules = [];
  pre_custom_rules = "DOMAIN,x,DIRECT" ∷ [];
  post_custom_rules = [];
  built_in_rules_initialized = true;
  built_in_rules = rule_match ∷ [];
  external_resources = record { geo_ip = "https://g"; geo_site = "https://s"; mihomo = "" };
  proxy_mode = "rule";
  default_proxy_group = "Auto";
  log_dir = "/logs";
  log_level = "info";
  managed_logging = record { enabled = false; max_file_bytes = pos 10485760; max_backups = pos 3 };
}

abbrev pub test_defaults : Defaults
test_defaults = record {
  config = config_ab;
  rules = rule_match ∷ [];
  mihomo_config_path = "/m.yaml";
  log_dir = "/logs";
  download_url = "https://d";
  random_id = λ i. "id";
}

abbrev pub test_world : World TestDoc
test_world = record {
  net = test_net;
  yaml = test_yaml;
  default_log_dir = "/logs";
  runs_as_root = true;
}

abbrev pub test_store : Store TestDoc
test_store = record { memory = config_ab; disk = record { secrets = none; config = none } }
