-- ===== src/Config/Validate/Pools.antt =====
-- The checks on the subscription pools.
pub mod Members
pub mod Exact
use mihomo_loongnix.Prelude.{
  String, Bool, true, false, not, ◌&&◌, ◌||◌, List, [], ◌∷◌, ◌++◌, Option, none, some, ◌==◌,
  string_eq, contains, find_value,
}
use mihomo_loongnix.Prelude.Int.{pos, ltb_ℤ}
use mihomo_loongnix.Prelude.Text.{is_blank}
use mihomo_loongnix.Prelude.Loops.{collect}
use mihomo_loongnix.Config.Types.{Config, SubscriptionPool, mode_failover, mode_merge}
use mihomo_loongnix.Config.Lookup.{find_subscription_by_id, normalized_subscription_pool_mode}
use mihomo_loongnix.Config.Validate.Problems.{
  Problem, add_if, pool_bad_id, pool_no_name, pool_bad_mode, pool_bad_interval, pool_same_member,
  pool_unknown_member, pool_shared_member, pool_no_members, pool_bad_active,
}

abbrev pub is_missing {ℓ} : {A : Type ℓ} → Option A → Bool
is_missing none = true
is_missing (some a) = false

abbrev pub is_empty {ℓ} : {A : Type ℓ} → List A → Bool
is_empty [] = true
is_empty (x ∷ xs) = false

-- The variables of the loop over a pool's members: `members` and `memberOwner`.
pub record Owned : Type 0 where
  pub members : List String
  pub owner : List (String × String)

unfoldable pub member_step : Config → SubscriptionPool → Owned → String → List Problem × Owned
member_step c pool o id = (
  add_if (contains o.members id) (pool_same_member pool.name id)
      ++ (add_if (is_missing (find_subscription_by_id c id)) (pool_unknown_member pool.name id)
          ++ elim (find_value id o.owner) [
            | some old ↦ pool_shared_member id old pool.name ∷ []
            | none ↦ []
          ]),
  record {
    members = id ∷ o.members;
    owner = elim (find_value id o.owner) [ some old ↦ o.owner | none ↦ (id, pool.name) ∷ o.owner ];
  },
)

-- The variables of the loop over the pools: `poolIDs` and `memberOwner`.
pub record SeenPools : Type 0 where
  pub pool_ids : List String
  pub owner : List (String × String)

abbrev pub is_mode : String → Bool
is_mode mode = mode == mode_failover || mode == mode_merge

unfoldable pub pool_step : Config → SeenPools → SubscriptionPool → List Problem × SeenPools
pool_step c seen pool =
    let (problems, o) =
      collect (member_step c pool) (record { members = []; owner = seen.owner }) pool.members in
    (
      add_if (is_blank pool.id || contains seen.pool_ids pool.id) (pool_bad_id pool.id)
          ++ (add_if (is_blank pool.name) pool_no_name
              ++ (add_if (not (is_mode (normalized_subscription_pool_mode pool.mode)))
                    (pool_bad_mode pool.name pool.mode)
                  ++ (add_if (ltb_ℤ pool.refresh_interval (pos 0)) (pool_bad_interval pool.name)
                      ++ (problems
                          ++ (add_if (pool.enabled && is_empty pool.members)
                                (pool_no_members pool.name)
                              ++ add_if
                                  (not (pool.active_member_id == "")
                                    && not (contains o.members pool.active_member_id))
                                  (pool_bad_active pool.name)))))),
      record { pool_ids = pool.id ∷ seen.pool_ids; owner = o.owner },
    )

unfoldable pub validate_pools : Config → List Problem
validate_pools c =
    (collect (pool_step c) (record { pool_ids = []; owner = [] }) c.subscription_pools).0
