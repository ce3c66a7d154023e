-- ===== src/Config/Validate/Subscriptions.antt =====
-- The checks on the subscriptions and on the active index.
pub mod Exact
use Prim.Native.String.{len}
use mihomo_loongnix.Prelude.{
  ℕ, ◌+◌, String, not, ◌&&◌, ◌||◌, List, [], ◌++◌, ◌==◌, string_eq, ltb, length,
}
use mihomo_loongnix.Prelude.Int.{pos, negsuc, ltb_ℤ, leb_ℤ}
use mihomo_loongnix.Prelude.Text.{is_blank}
use mihomo_loongnix.Prelude.Loops.{collect}
use mihomo_loongnix.Config.Types.{
  Config, SubscriptionMeta, fetch_direct, fetch_local_mihomo, fetch_system,
}
use mihomo_loongnix.Config.Validate.Problems.{
  Problem, add_if, unique_key, subscription_no_name, subscription_same_name, subscription_no_id,
  subscription_same_id, subscription_no_url, subscription_bad_strategy,
  subscription_long_user_agent, active_out_of_range,
}

-- The loop's variables: the index `i`, `subNames` and `subIDs`.
pub record Seen : Type 0 where
  pub index : ℕ
  pub names : List (String × ℕ)
  pub ids : List (String × ℕ)

unfoldable pub subscription_step : Seen → SubscriptionMeta → List Problem × Seen
unfolding unique_key
subscription_step seen s =
    let i = seen.index in
    let (p1, names) =
      unique_key (is_blank s.name) s.name i seen.names (subscription_no_name (i + 1))
        (λ prev. subscription_same_name s.name (prev + 1) (i + 1)) in
    let (p2, ids) =
      unique_key (s.id == "") s.id i seen.ids (subscription_no_id s.name)
        (λ prev. subscription_same_id s.id (prev + 1) (i + 1)) in
    let strategy = s.fetch_proxy_strategy in
    (
      p1
          ++ (p2
              ++ (add_if (is_blank s.url) (subscription_no_url s.name)
                  ++ (add_if
                        (not (strategy == "")
                          && (not (strategy == fetch_direct)
                              && (not (strategy == fetch_local_mihomo)
                                  && not (strategy == fetch_system))))
                        (subscription_bad_strategy s.name strategy)
                      ++ add_if (ltb 512 (len s.user_agent))
                          (subscription_long_user_agent s.name)))),
      record { index = i + 1; names = names; ids = ids },
    )

unfoldable pub validate_subscriptions : Config → List Problem
validate_subscriptions c =
    (collect subscription_step (record { index = 0; names = []; ids = [] }) c.subscriptions).0

unfoldable pub validate_active : Config → List Problem
validate_active c =
    add_if
      (ltb_ℤ c.active_subscription (negsuc 0)
        || leb_ℤ (pos (length c.subscriptions)) c.active_subscription)
      (active_out_of_range c.active_subscription (length c.subscriptions))
