-- ===== src/Tests/Pools.antt =====
-- The theorems on the subscription pools at concrete inputs.
use mihomo_loongnix.Prelude.Int.{pos}
use mihomo_loongnix.Prelude.{
  none, false, ◌+◌, some, length, ◌≡◌, get_elem?, refl, remove_at, ◌≢◌, true, [], All, ◌∷◌,
}
use mihomo_loongnix.Prelude.Text.{is_blank, trim_space, trim_left, trim_right, is_space}
use mihomo_loongnix.Config.Types.{Config}
use mihomo_loongnix.Config.Lookup.{find_pool_by_identifier, find_subscription_by_id}
use mihomo_loongnix.Tests.Data.{config_ab, sub_a}
use mihomo_loongnix.Pool.{
  SubscriptionPoolRequest, create_pool, new_pool, with_pool, active_pool_subscriptions,
  collect_pools, pool_subscriptions, active_subscription_for_pool, available,
}
use mihomo_loongnix.Pool.Moves.{IsFreeOf, create_pool-IsFreeOf}
use mihomo_loongnix.Pool.Active.{IsUsable, active_pool_subscriptions-IsUsable}

abbrev request_a : SubscriptionPoolRequest
request_a = record {
  name = "second";
  mode = "merge";
  members = sub_a.id ∷ [];
  active_member_id = "";
  enabled = true;
  refresh_interval = pos 0;
}

abbrev moved_config : Config
moved_config = with_pool "now" (new_pool "p2" request_a) config_ab

create_pool-IsFreeOf_example :
    All (IsFreeOf (sub_a.id ∷ [])) (remove_at moved_config.subscription_pools 1)
    × (get_elem? moved_config.subscription_pools 1 ≡ some (new_pool "p2" request_a))
    × (length moved_config.subscription_pools ≡ length config_ab.subscription_pools + 1)
    × (moved_config.subscriptions ≡ config_ab.subscriptions)
    × (is_blank "second" ≡ false)
    × (find_pool_by_identifier config_ab "second" ≡ none)
unfolding create_pool is_blank trim_space trim_left trim_right is_space find_pool_by_identifier
create_pool-IsFreeOf_example = create_pool-IsFreeOf "now" "p2" request_a config_ab moved_config refl

active_pool_subscriptions-IsUsable_example :
    All (IsUsable (λ s. true) config_ab) (sub_a ∷ []) × ((sub_a ∷ []) ≢ [])
unfolding active_pool_subscriptions collect_pools pool_subscriptions active_subscription_for_pool
    available find_subscription_by_id
active_pool_subscriptions-IsUsable_example =
    active_pool_subscriptions-IsUsable (λ s. true) config_ab (sub_a ∷ []) refl
