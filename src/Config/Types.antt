-- ===== src/Config/Types.antt =====
-- The configuration records of mihomotui/config.go and builtin_rules.go, field for field. Two
-- float fields that only display usage in GB (`UsedGB`, `TotalGB`) are left out.
-- Strings that Go restricts by convention only (modes, levels, kinds) stay strings, since the
-- validator tests them.
use mihomo_loongnix.Prelude.{ℕ, String, Bool, List}
use mihomo_loongnix.Prelude.Int.{ℤ}

pub record SystemConfig : Type 0 where
  pub auto_start : Bool
  pub system_proxy : Bool
  pub tun : Bool
  pub language : String

pub record ManagedLoggingConfig : Type 0 where
  pub enabled : Bool
  pub max_file_bytes : ℤ
  pub max_backups : ℤ

pub record MihomoConfig : Type 0 where
  pub http_port : ℤ
  pub socks5_port : ℤ
  pub mixed_port : ℤ
  pub redir_port : ℤ
  pub tproxy_port : ℤ
  pub allow_lan : Bool
  pub ipv6 : Bool
  pub unified_delay : Bool
  pub auto_redirect : Bool
  pub log_level : String
  pub test_url : String
  pub external_controller : String
  pub secret : String

pub record ExternalResources : Type 0 where
  pub geo_ip : String
  pub geo_site : String
  pub mihomo : String

abbrev pub source_url : String
source_url = "url"

abbrev pub source_file : String
source_file = "file"

abbrev pub source_content : String
source_content = "content"

abbrev pub mode_failover : String
mode_failover = "failover"

abbrev pub mode_merge : String
mode_merge = "merge"

pub record SubscriptionPool : Type 0 where
  pub id : String
  pub name : String
  pub mode : String
  pub members : List String
  pub active_member_id : String
  pub enabled : Bool
  pub refresh_interval : ℤ
  pub last_switch_at : String
  pub last_switch_reason : String
  pub degraded : Bool

abbrev pub fetch_direct : String
fetch_direct = "direct"

abbrev pub fetch_local_mihomo : String
fetch_local_mihomo = "local_mihomo"

abbrev pub fetch_system : String
fetch_system = "system"

-- `upload_bytes` to `profile_update_interval` are the quota metadata of the last fetch.
pub record SubscriptionMeta : Type 0 where
  pub id : String
  pub name : String
  pub url : String
  pub updated_at : String
  pub last_success_at : String
  pub last_failure_at : String
  pub last_error : String
  pub upload_bytes : ℤ
  pub download_bytes : ℤ
  pub total_bytes : ℤ
  pub remaining_bytes : ℤ
  pub expire_at : String
  pub metadata_available : Bool
  pub metadata_status : String
  pub profile_update_interval : ℤ
  pub user_agent : String
  pub fetch_proxy_strategy : String
  pub source_type : String
  pub cache_file : String
  pub content_sha256 : String
  pub failure_count : ℕ
  pub last_checked_at : String
  pub use_local_proxy : Bool

pub record RuleProviderSubscription : Type 0 where
  pub name : String
  pub url : String
  pub behavior : String
  pub format : String
  pub interval : ℤ
  pub proxy_group : String
  pub updated_at : String
  pub last_success_at : String
  pub last_failure_at : String
  pub last_error : String

pub record BuiltInRule : Type 0 where
  pub id : String
  pub name : String
  pub kind : String
  pub enabled : Bool
  pub order : ℤ
  pub rule : String
  pub url : String
  pub behavior : String
  pub format : String
  pub interval : ℤ
  pub proxy_group : String

pub record MihomoVersionInfo : Type 0 where
  pub version : String
  pub published_at : String
  pub prerelease : Bool
  pub downloaded : Bool
  pub active : Bool
  pub path : String
  pub size : ℤ
  pub source : String
  pub asset_url : String
  pub asset_name : String
  pub manual : Bool

pub record Config : Type 0 where
  pub version : ℕ
  pub mihomo_config_path : String
  pub mihomo_binary_path : String
  pub mihomo_active_version : String
  pub mihomo_running_version : String
  pub mihomo_running_version_at : String
  pub mihomo_versions : List MihomoVersionInfo
  pub mihomo_versions_checked_at : String
  pub mihomo_versions_source : String
  pub mihomo_versions_last_error : String
  pub system : SystemConfig
  pub mihomo : MihomoConfig
  pub subscriptions : List SubscriptionMeta
  pub subscription_pools : List SubscriptionPool
  pub active_subscription : ℤ
  pub rule_provider_subscriptions : List RuleProviderSubscription
  pub custom_rules : List String
  pub pre_custom_rules : List String
  pub post_custom_rules : List String
  pub built_in_rules_initialized : Bool
  pub built_in_rules : List BuiltInRule
  pub external_resources : ExternalResources
  pub proxy_mode : String
  pub default_proxy_group : String
  pub log_dir : String
  pub log_level : String
  pub managed_logging : ManagedLoggingConfig
