-- ===== src/Tests/Generated.antt =====
-- The theorems on the generated core configuration at a concrete one.
use mihomo_loongnix.Prelude.{List, ◌≡◌, ◌≢◌, refl, String, true, false, [], ◌∷◌, ◌++◌, All}
use mihomo_loongnix.Config.Lookup.{find_subscription_by_id}
use mihomo_loongnix.Pool.{
  active_pool_subscriptions, collect_pools, pool_subscriptions, active_subscription_for_pool,
  available,
}
use mihomo_loongnix.Tests.Data.{config_ab, sub_a}
use mihomo_loongnix.Generator.{GeneratorLib, build_rule_config}
use mihomo_loongnix.Generator.Closed.{IsServed, IsMatch, build_rule_config-closed}
use mihomo_loongnix.Generator.Groups.{
  build_proxy_config, proxy_providers, proxy_groups, proxy_provider, usable_subscriptions, provided,
  grouped,
}
use mihomo_loongnix.Generator.Groups.Uses.{IsLocal, UsesAll, build_proxy_config-uses}

abbrev plain_lib : GeneratorLib
plain_lib = record { sanitize = λ s. s; digest = λ url. "0a1b2c3d"; decimal = λ i. "1" }

build_rule_config-closed_example :
    (middle : List String) × (last : String) × ((build_rule_config plain_lib config_ab).1
      ≡ config_ab.pre_custom_rules ++ (middle ++ (config_ab.post_custom_rules ++ last ∷ [])))
    × All (IsServed config_ab (build_rule_config plain_lib config_ab).0) middle
    × IsMatch config_ab last
build_rule_config-closed_example = build_rule_config-closed plain_lib config_ab refl refl refl

build_proxy_config-uses_example :
    (proxy_providers plain_lib config_ab false 1 (sub_a ∷ []) ≢ [])
    × All IsLocal (proxy_providers plain_lib config_ab false 1 (sub_a ∷ []))
    × All
        (UsesAll (proxy_providers plain_lib config_ab false 1 (sub_a ∷ [])))
        (proxy_groups plain_lib config_ab ("provider1" ∷ []))
unfolding active_pool_subscriptions collect_pools pool_subscriptions active_subscription_for_pool
    available find_subscription_by_id build_proxy_config usable_subscriptions provided grouped
    proxy_groups proxy_providers proxy_provider
build_proxy_config-uses_example =
    build_proxy_config-uses plain_lib config_ab (λ s. true) (sub_a ∷ [])
      (proxy_providers plain_lib config_ab false 1 (sub_a ∷ []))
      (proxy_groups plain_lib config_ab ("provider1" ∷ [])) refl refl
