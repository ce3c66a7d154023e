-- ===== src/Pool/Active.antt =====
-- Which subscriptions the generated core configuration is made of.
use mathlib.Core.Bool.{false}
use mihomo_loongnix.Config.Lookup.{normalized_subscription_pool_mode, find_subscription_by_id}
use mihomo_loongnix.Config.Validate.Pools.{is_empty}
use mihomo_loongnix.Prelude.{
  string_eq, refl, not, ◌==◌, ◌∙◌, ap, subst, none, ◌≢◌, if◌then◌else◌, Option, some, get_elem?, ℕ,
  ◌++◌, [], All, ◌∷◌, true, String, List, ◌≡◌, Bool,
}
use mihomo_loongnix.Config.Types.{mode_merge, SubscriptionPool, SubscriptionMeta, Config}
use mihomo_loongnix.Config.Store.{Result, ok, err}
use mihomo_loongnix.Pool.{
  PoolError, nothing_cached, no_active, active_not_cached, available, active_subscription_for_pool,
  pool_subscriptions, joined, collect_pools, not_empty_result, active_pool_subscriptions,
}

module _ (has_cache : SubscriptionMeta → Bool) (c : Config) where
  -- Every subscription of a result stands in the configuration and is cached.
  abbrev pub IsUsable : SubscriptionMeta → Type 0
  IsUsable s = (has_cache s ≡ true) × ((i : ℕ) × (get_elem? c.subscriptions i ≡ some s))

  abbrev AreUsable : Result PoolError (List SubscriptionMeta) → Type 0
  AreUsable (err e) = Unit
  AreUsable (ok ss) = All IsUsable ss

  available-IsUsable : (ids : List String) → All IsUsable (available has_cache c ids)
  unfolding available
  available-IsUsable [] = tt
  available-IsUsable (id ∷ ids) = go (available-IsUsable ids) (find_subscription_by_id c id)
    where
      rest : List SubscriptionMeta
      rest = available has_cache c ids

      added : Option SubscriptionMeta → List SubscriptionMeta
      added known = elim known [ none ↦ rest | some s ↦ if has_cache s then s ∷ rest else rest ]

      found : Option ℕ → List SubscriptionMeta
      found index = elim index [ none ↦ rest | some i ↦ added (get_elem? c.subscriptions i) ]

      kept :
          (s : SubscriptionMeta) (i : ℕ)
          → get_elem? c.subscriptions i ≡ some s
          → (b : Bool) → has_cache s ≡ b
          → All IsUsable rest
          → All IsUsable (if b then s ∷ rest else rest)
      kept s i e true t ih = ((t, (i, e)), ih)
      kept s i e false t ih = ih

      at :
          (i : ℕ) (known : Option SubscriptionMeta)
          → get_elem? c.subscriptions i ≡ known
          → All IsUsable rest
          → All IsUsable (added known)
      at i none e ih = ih
      at i (some s) e ih = kept s i e (has_cache s) refl ih

      go : All IsUsable rest → (index : Option ℕ) → All IsUsable (found index)
      go ih none = ih
      go ih (some i) = at i (get_elem? c.subscriptions i) refl ih

  pool_subscriptions-AreUsable :
      (p : SubscriptionPool) → AreUsable (pool_subscriptions has_cache c p)
  unfolding pool_subscriptions active_subscription_for_pool
  pool_subscriptions-AreUsable p = either (normalized_subscription_pool_mode p.mode == mode_merge)
    where
      merged : Bool → Result PoolError (List SubscriptionMeta)
      merged b = if b then err (nothing_cached p.name) else ok (available has_cache c p.members)

      merged-AreUsable : (b : Bool) → AreUsable (merged b)
      merged-AreUsable true = tt
      merged-AreUsable false = available-IsUsable p.members

      single : Option SubscriptionMeta → Result PoolError (List SubscriptionMeta)
      single known = elim known [
        | none ↦ err (no_active p.name)
        | some s ↦ if has_cache s then ok (s ∷ []) else err (active_not_cached p.name s.name)
      ]

      cached :
          (s : SubscriptionMeta) (i : ℕ)
          → get_elem? c.subscriptions i ≡ some s
          → (b : Bool) → has_cache s ≡ b
          → AreUsable (if b then ok (s ∷ []) else err (active_not_cached p.name s.name))
      cached s i e true t = ((t, (i, e)), tt)
      cached s i e false t = tt

      at :
          (i : ℕ) (known : Option SubscriptionMeta)
          → get_elem? c.subscriptions i ≡ known
          → AreUsable (single known)
      at i none e = tt
      at i (some s) e = cached s i e (has_cache s) refl

      active : Option ℕ → Option SubscriptionMeta
      active index = elim index [ none ↦ none | some i ↦ get_elem? c.subscriptions i ]

      single-AreUsable : (index : Option ℕ) → AreUsable (single (active index))
      single-AreUsable none = tt
      single-AreUsable (some i) = at i (get_elem? c.subscriptions i) refl

      chosen : Bool → Result PoolError (List SubscriptionMeta)
      chosen b =
          if b
          then merged (is_empty (available has_cache c p.members))
          else single (active (find_subscription_by_id c p.active_member_id))

      either : (b : Bool) → AreUsable (chosen b)
      either true = merged-AreUsable (is_empty (available has_cache c p.members))
      either false = single-AreUsable (find_subscription_by_id c p.active_member_id)

  append-IsUsable :
      (xs ys : List SubscriptionMeta) → All IsUsable xs → All IsUsable ys → All IsUsable (xs ++ ys)
  append-IsUsable [] ys h k = k
  append-IsUsable (x ∷ xs) ys h k = (h.0, append-IsUsable xs ys h.1 k)

  joined-AreUsable :
      (x y : Result PoolError (List SubscriptionMeta))
      → AreUsable x
      → AreUsable y
      → AreUsable (joined has_cache x y)
  joined-AreUsable (err e) y h k = tt
  joined-AreUsable (ok xs) (err e) h k = tt
  joined-AreUsable (ok xs) (ok ys) h k = append-IsUsable xs ys h k

  collect_pools-AreUsable : (ps : List SubscriptionPool) → AreUsable (collect_pools has_cache c ps)
  unfolding collect_pools
  collect_pools-AreUsable [] = tt
  collect_pools-AreUsable (p ∷ ps) = go (collect_pools-AreUsable ps) (not p.enabled)
    where
      rest : Result PoolError (List SubscriptionMeta)
      rest = collect_pools has_cache c ps

      step : Bool → Result PoolError (List SubscriptionMeta)
      step b = if b then rest else joined has_cache (pool_subscriptions has_cache c p) rest

      go : AreUsable rest → (b : Bool) → AreUsable (step b)
      go ih true = ih
      go ih false =
          joined-AreUsable (pool_subscriptions has_cache c p) rest (pool_subscriptions-AreUsable p)
            ih

  -- When the subscriptions of the active pools are found, there is at least one, and each of
  -- them is a subscription of the configuration with a cache file.
  pub active_pool_subscriptions-IsUsable :
      (ss : List SubscriptionMeta)
      → active_pool_subscriptions has_cache c ≡ ok ss
      → All IsUsable ss × (ss ≢ [])
  unfolding active_pool_subscriptions
  active_pool_subscriptions-IsUsable ss h =
      go (collect_pools has_cache c c.subscription_pools)
        (collect_pools-AreUsable c.subscription_pools) h
    where
      given : Result PoolError (List SubscriptionMeta) → List SubscriptionMeta
      given result = elim result [ ok xs ↦ xs | err e ↦ [] ]

      go :
          (result : Result PoolError (List SubscriptionMeta))
          → AreUsable result
          → not_empty_result has_cache result ≡ ok ss
          → All IsUsable ss × (ss ≢ [])
      go (err e) u k = absurd cc
      go (ok []) u k = absurd cc
      go (ok (x ∷ xs)) u k =
          (subst (All IsUsable) (ap given k) u, λ e. absurd (filled (ap given k ∙ e)))
        where
          filled : ¬ (◌≡◌ {A = List SubscriptionMeta} (x ∷ xs) [])
          filled e = cc
