-- ===== src/Generator/Groups.antt =====
-- The proxy providers and groups of the generated core configuration: `buildProxyConfig` of
-- mihomotui/mihomo_config.go. `has_cache` is `hasSubscriptionCache`.
pub mod Uses
use mihomo_loongnix.Prelude.{
  ℕ, zero, suc, ◌+◌, String, Bool, true, false, not, ◌&&◌, ◌||◌, List, [], ◌∷◌, ◌++◌, Option, none,
  some, if◌then◌else◌, ◌==◌, string_eq, map,
}
use mihomo_loongnix.Prelude.Int.{ℤ, pos}
use mihomo_loongnix.Prelude.Lines.{◌^◌}
use mihomo_loongnix.Config.Types.{Config, SubscriptionMeta}
use mihomo_loongnix.Config.Validate.Pools.{is_empty}
use mihomo_loongnix.Config.Store.{Result, ok, err}
use mihomo_loongnix.Pool.{PoolError, active_pool_subscriptions}
use mihomo_loongnix.Generator.{GeneratorLib}

-- The health check has the test URL of the configuration and the interval 300.
pub record ProxyProviderYaml : Type 0 where
  pub url : String
  pub path : String
  pub provider_type : String
  pub interval : ℤ
  pub test_url : String

pub record ProxyGroupYaml : Type 0 where
  pub name : String
  pub group_type : String
  pub proxies : List String
  pub use_providers : List String
  pub url : String
  pub interval : ℤ
  pub tolerance : ℤ

pub data ProxyError : Type 0 where
  no_valid_url : ProxyError
  of_pools : PoolError → ProxyError

-- The subscriptions to use, and whether they are fetched by the core itself.
unfoldable pub usable_subscriptions :
    Config
    → Result PoolError (List SubscriptionMeta)
    → Result ProxyError (List SubscriptionMeta × Bool)
usable_subscriptions c (ok subs) = ok (subs, false)
usable_subscriptions c (err e) =
    if is_empty c.subscription_pools && not (is_empty c.subscriptions)
    then ok (c.subscriptions, true)
    else err (of_pools e)

module _ (lib : GeneratorLib) (c : Config) where
  unfoldable pub proxy_provider : Bool → SubscriptionMeta → ProxyProviderYaml
  proxy_provider legacy_remote sub =
      if legacy_remote
      then record {
        url = sub.url;
        path = "";
        provider_type = "http";
        interval = pos 86400;
        test_url = c.mihomo.test_url;
      }
      else record {
        url = "";
        path = sub.cache_file;
        provider_type = "file";
        interval = pos 0;
        test_url = c.mihomo.test_url;
      }

  -- The loop over the subscriptions, the next of which has the number `i`.
  unfoldable pub proxy_providers :
      Bool → ℕ → List SubscriptionMeta → List (String × ProxyProviderYaml)
  unfolding proxy_provider
  proxy_providers legacy_remote i [] = []
  proxy_providers legacy_remote i (sub ∷ subs) =
      let rest = proxy_providers legacy_remote (i + 1) subs in
      if legacy_remote && (sub.url == "" || sub.url == "手动配置")
      then rest
      else ("provider" ^ lib.decimal i, proxy_provider legacy_remote sub) ∷ rest

  abbrev pub tested_group : (name group_type : String) → List String → ℤ → ProxyGroupYaml
  tested_group name group_type names tolerance = record {
    name = name;
    group_type = group_type;
    proxies = [];
    use_providers = names;
    url = c.mihomo.test_url;
    interval = pos 300;
    tolerance = tolerance;
  }

  unfoldable pub proxy_groups : List String → List ProxyGroupYaml
  proxy_groups names =
      tested_group "Auto" "url-test" names (pos 50)
      ∷ record {
        name = "Manual";
        group_type = "select";
        proxies = "DIRECT" ∷ [];
        use_providers = names;
        url = "";
        interval = pos 0;
        tolerance = pos 0;
      }
      ∷ tested_group "Fallback" "fallback" names (pos 0)
      ∷ tested_group "Load-Balance" "load-balance" names (pos 0)
      ∷ []

  unfoldable pub grouped :
      List (String × ProxyProviderYaml)
      → Result ProxyError (List (String × ProxyProviderYaml) × List ProxyGroupYaml)
  unfolding proxy_groups
  grouped [] = err no_valid_url
  grouped (p ∷ ps) =
      ok (p ∷ ps, proxy_groups (p.0 ∷ map (λ (q : String × ProxyProviderYaml). q.0) ps))

  unfoldable pub provided :
      Result ProxyError (List SubscriptionMeta × Bool)
      → Result ProxyError (List (String × ProxyProviderYaml) × List ProxyGroupYaml)
  unfolding grouped proxy_providers
  provided (err e) = err e
  provided (ok (subs, legacy_remote)) = grouped (proxy_providers legacy_remote 1 subs)

  unfoldable pub build_proxy_config :
      (SubscriptionMeta → Bool)
      → Result ProxyError (List (String × ProxyProviderYaml) × List ProxyGroupYaml)
  unfolding usable_subscriptions provided
  build_proxy_config has_cache =
      provided (usable_subscriptions c (active_pool_subscriptions has_cache c))
