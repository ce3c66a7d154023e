-- ===== src/Pool.antt =====
-- The subscription pools: mihomotui/subscription_pool.go, and the update functions of
-- mihomotui/daemon_handlers_pool.go.
pub mod Moves
pub mod Active
use mihomo_loongnix.Prelude.Text.{is_blank}
use mihomo_loongnix.Prelude.{
  any, map, ℕ, zero, suc, String, Bool, true, false, not, ◌&&◌, ◌||◌, List, [], ◌∷◌, ◌++◌, Option,
  none, some, if◌then◌else◌, ◌==◌, string_eq, contains, keep, length, remove_at, get_elem?, eqb,
}
use mihomo_loongnix.Prelude.Int.{int_eq, ℤ, pos, ltb_ℤ}
use mihomo_loongnix.Config.Types.{SubscriptionPool, SubscriptionMeta, Config, mode_merge}
use mihomo_loongnix.Config.Lookup.{
  find_pool_by_identifier, find_subscription_by_id, normalized_subscription_pool_mode,
}
use mihomo_loongnix.Config.Store.{Result, ok, err}
use mihomo_loongnix.Subscription.{
  Refusal, empty_pool_name, pool_not_found, pool_name_taken, bad_mode, update_at, first_member,
}
use mihomo_loongnix.Config.Validate.Pools.{is_mode, is_empty}

-- The request of the pool handlers.
pub record SubscriptionPoolRequest : Type 0 where
  pub name : String
  pub mode : String
  pub members : List String
  pub active_member_id : String
  pub enabled : Bool
  pub refresh_interval : ℤ

abbrev pub default_refresh_interval : ℤ
default_refresh_interval = pos 3600

-- What the move of the members `wanted` does to another pool.
unfoldable pub give_up_members : String → List String → SubscriptionPool → SubscriptionPool
give_up_members now wanted pool =
    let kept = keep (λ id. not (contains wanted id)) pool.members in
    if not (contains wanted pool.active_member_id)
    then record pool { members = kept }
    else if is_empty kept
    then record pool {
      members = kept;
      active_member_id = "";
      enabled = false;
      degraded = true;
      last_switch_at = now;
      last_switch_reason = "成员已移入其他订阅池";
    }
    else record pool { members = kept; active_member_id = first_member kept }

-- The loop of `assignPoolMembers`; the target is the pool at the given index.
unfoldable pub assign_pool_members :
    String → List String → ℕ → List SubscriptionPool → List SubscriptionPool
assign_pool_members now wanted target [] = []
assign_pool_members now wanted zero (p ∷ ps) = p ∷ map (give_up_members now wanted) ps
assign_pool_members now wanted (suc target) (p ∷ ps) =
    give_up_members now wanted p ∷ assign_pool_members now wanted target ps

abbrev pub active_or_first : String → List String → String
active_or_first active members = if active == "" then first_member members else active

-- The pool that a POST request asks for.
abbrev pub new_pool : String → SubscriptionPoolRequest → SubscriptionPool
new_pool new_id req = record {
  id = new_id;
  name = req.name;
  mode = normalized_subscription_pool_mode req.mode;
  members = req.members;
  active_member_id = active_or_first req.active_member_id req.members;
  enabled = req.enabled;
  refresh_interval =
      if req.refresh_interval == pos 0 then default_refresh_interval else req.refresh_interval;
  last_switch_at = "";
  last_switch_reason = "";
  degraded = false;
}

-- The configuration with a pool added, which takes its members from the other pools.
abbrev pub with_pool : String → SubscriptionPool → Config → Config
with_pool now pool c = record c {
  subscription_pools =
      assign_pool_members now pool.members (length c.subscription_pools)
        (c.subscription_pools ++ pool ∷ []);
}

-- The update function of a POST request.
unfoldable pub create_pool :
    String → String → SubscriptionPoolRequest → Config → Result Refusal Config
create_pool now new_id req c =
    if is_blank req.name then err empty_pool_name else elim (find_pool_by_identifier c req.name) [
      | some i ↦ err (pool_name_taken req.name)
      | none ↦
          if not (is_mode (normalized_subscription_pool_mode req.mode))
          then err (bad_mode req.mode)
          else ok (with_pool now (new_pool new_id req) c)
    ]

-- Another pool than the one at the index has the name.
unfoldable pub is_name_taken : String → ℕ → List SubscriptionPool → Bool
is_name_taken name i [] = false
is_name_taken name zero (p ∷ ps) = any (λ q. q.name == name) ps
is_name_taken name (suc i) (p ∷ ps) = p.name == name || is_name_taken name i ps

abbrev pub updated_pool : SubscriptionPoolRequest → SubscriptionPool → SubscriptionPool
updated_pool req p = record p {
  name = req.name;
  mode = normalized_subscription_pool_mode req.mode;
  members = req.members;
  active_member_id = active_or_first req.active_member_id req.members;
  enabled = req.enabled;
  refresh_interval =
      if ltb_ℤ (pos 0) req.refresh_interval then req.refresh_interval else p.refresh_interval;
}

-- The update function of a PUT request.
unfoldable pub update_pool :
    String → String → SubscriptionPoolRequest → Config → Result Refusal Config
update_pool now identifier req c = elim (find_pool_by_identifier c identifier) [
  | none ↦ err pool_not_found
  | some i ↦
      if is_blank req.name
      then err empty_pool_name
      else if is_name_taken req.name i c.subscription_pools
      then err (pool_name_taken req.name)
      else if not (is_mode (normalized_subscription_pool_mode req.mode))
      then err (bad_mode req.mode)
      else ok (record c {
        subscription_pools =
            assign_pool_members now req.members i
              (update_at (updated_pool req) c.subscription_pools i);
      })
]

-- The update function of a DELETE request.
unfoldable pub delete_pool : String → Config → Result Refusal Config
delete_pool identifier c = elim (find_pool_by_identifier c identifier) [
  | none ↦ err pool_not_found
  | some i ↦ ok (record c { subscription_pools = remove_at c.subscription_pools i })
]

-- Why `activePoolSubscriptions` fails.
pub data PoolError : Type 0 where
  nothing_cached no_active : String → PoolError
  active_not_cached : String → String → PoolError
  no_pool : PoolError

-- `has_cache` tells whether a subscription's cache file is there.
module _ (has_cache : SubscriptionMeta → Bool) where
  -- The members of a merged pool that are there and cached.
  unfoldable pub available : Config → List String → List SubscriptionMeta
  available c [] = []
  available c (id ∷ ids) =
      let rest = available c ids in
      elim (find_subscription_by_id c id) [
        | none ↦ rest
        | some i ↦ elim (get_elem? c.subscriptions i) [
          | none ↦ rest
          | some s ↦ if has_cache s then s ∷ rest else rest
        ]
      ]

  unfoldable pub active_subscription_for_pool : Config → SubscriptionPool → Option SubscriptionMeta
  active_subscription_for_pool c pool = elim (find_subscription_by_id c pool.active_member_id) [
    | none ↦ none
    | some i ↦ get_elem? c.subscriptions i
  ]

  -- What one enabled pool adds.
  unfoldable pub pool_subscriptions :
      Config → SubscriptionPool → Result PoolError (List SubscriptionMeta)
  pool_subscriptions c pool =
      if normalized_subscription_pool_mode pool.mode == mode_merge
      then if is_empty (available c pool.members)
        then err (nothing_cached pool.name)
        else ok (available c pool.members)
      else elim (active_subscription_for_pool c pool) [
        | none ↦ err (no_active pool.name)
        | some s ↦ if has_cache s then ok (s ∷ []) else err (active_not_cached pool.name s.name)
      ]

  abbrev pub joined :
      Result PoolError (List SubscriptionMeta)
      → Result PoolError (List SubscriptionMeta)
      → Result PoolError (List SubscriptionMeta)
  joined (err e) rest = err e
  joined (ok xs) (err e) = err e
  joined (ok xs) (ok ys) = ok (xs ++ ys)

  -- The loop over the pools.
  unfoldable pub collect_pools :
      Config → List SubscriptionPool → Result PoolError (List SubscriptionMeta)
  collect_pools c [] = ok []
  collect_pools c (p ∷ ps) =
      let rest = collect_pools c ps in
      if not p.enabled then rest else joined (pool_subscriptions c p) rest

  abbrev pub not_empty_result :
      Result PoolError (List SubscriptionMeta) → Result PoolError (List SubscriptionMeta)
  not_empty_result (err e) = err e
  not_empty_result (ok []) = err no_pool
  not_empty_result (ok (s ∷ ss)) = ok (s ∷ ss)

  unfoldable pub active_pool_subscriptions : Config → Result PoolError (List SubscriptionMeta)
  active_pool_subscriptions c = not_empty_result (collect_pools c c.subscription_pools)
