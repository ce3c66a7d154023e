-- ===== src/Tests/Managed.antt =====
-- The theorem on the pool of the profiles at a concrete configuration.
use mihomo_loongnix.Prelude.{◌≡◌, ◌↔◌, false}
use mihomo_loongnix.Tests.Data.{config_ab}
use mihomo_loongnix.Profiles.{profile_pool_needs_normalization, normalize_profile_pool, IsNormal}
use mihomo_loongnix.Profiles.Normal.{needs_normalization_iff}

needs_normalization_iff_example :
    ((profile_pool_needs_normalization config_ab ≡ false)
      ↔ IsNormal config_ab config_ab.subscriptions config_ab.subscription_pools)
    × (profile_pool_needs_normalization (normalize_profile_pool config_ab) ≡ false)
needs_normalization_iff_example = needs_normalization_iff config_ab
