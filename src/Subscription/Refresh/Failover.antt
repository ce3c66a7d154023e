-- ===== src/Subscription/Refresh/Failover.antt =====
-- What the failover does to each pool, and when a pool leaves a source that fails.
use mihomo_loongnix.Prelude.{
  ℕ, zero, suc, ◌≡◌, refl, subst, ◌⊎◌, inl, inr, String, Bool, true, false, List, [], ◌∷◌, none,
  some, string_eq, nat_eq, get_elem?, All, contains, arith, Bool-cases, ==-refl,
}
use mihomo_loongnix.Config.Types.{Config, SubscriptionMeta, SubscriptionPool}
use mihomo_loongnix.Subscription.Refresh.{
  first_such, is_healthy, is_failing, switched_to, degraded_pool, failover_pool, failover_pools,
  failover_subscription,
}

-- `first_such` finds a member that passes, unless none does.
pub first_such-cases :
    (p : String → Bool) (ms : List String)
    → ((m : String) × (first_such p ms ≡ some m) × (contains ms m ≡ true) × (p m ≡ true))
      ⊎ ((first_such p ms ≡ none) × All (λ m. p m ≡ false) ms)
first_such-cases p [] = inr (refl, tt)
first_such-cases p (m ∷ ms) = elim (Bool-cases (p m)) [
  | inl t ↦ inl (m, ground arith, ground (arith, ==-refl m), t)
  | inr f ↦ elim (first_such-cases p ms) [
    | inl (n, e, k, q) ↦ inl (n, ground arith, ground arith, q)
    | inr (e, all) ↦ inr (ground arith, (f, all))
  ]
]

-- Two lists of one length, related element by element.
abbrev pub Pairwise : {A B : Type 0} → (A → B → Type 0) → List A → List B → Type 0
Pairwise R [] [] = Unit
Pairwise R [] (y ∷ ys) = (⊥)
Pairwise R (x ∷ xs) [] = (⊥)
Pairwise R (x ∷ xs) (y ∷ ys) = R x y × Pairwise R xs ys

pub Pairwise-get :
    {A B : Type 0} (R : A → B → Type 0) (xs : List A) (ys : List B)
    → Pairwise R xs ys
    → (i : ℕ) (x : A) → get_elem? xs i ≡ some x
    → (y : B) × (get_elem? ys i ≡ some y) × R x y
Pairwise-get R [] [] h i x e = absurd cc
Pairwise-get R [] (y ∷ ys) h i x e = absurd h
Pairwise-get R (x' ∷ xs) [] h i x e = absurd h
Pairwise-get R (x' ∷ xs) (y ∷ ys) h zero x e = (y, refl, subst (λ z. R z y) (ground arith) h.0)
Pairwise-get R (x' ∷ xs) (y ∷ ys) h (suc i) x e = Pairwise-get R xs ys h.1 i x e

module _ (has_cache : SubscriptionMeta → Bool) (now cause failed_id : String) (c : Config) where
  -- A pool whose active source does not fail is kept. Another is switched to a healthy member, or
  -- has none: then it is marked, or kept.
  abbrev pub Settles : SubscriptionPool → SubscriptionPool → Type 0
  Settles p q =
      ((is_failing failed_id c p ≡ false) × (q ≡ p))
      ⊎ ((is_failing failed_id c p ≡ true)
          × (((m : String) × (contains p.members m ≡ true)
                × (is_healthy has_cache failed_id c m ≡ true)
                × (q ≡ switched_to now cause m p))
              ⊎ (All (λ m. is_healthy has_cache failed_id c m ≡ false) p.members
                  × ((q ≡ degraded_pool now cause p) ⊎ (q ≡ p)))))

  failover_pool-Settles :
      (switched : Bool) (p : SubscriptionPool)
      → Settles p (failover_pool has_cache now cause failed_id c switched p).0
  unfolding failover_pool
  failover_pool-Settles switched p = elim (Bool-cases (is_failing failed_id c p)) [
    | inr f ↦ inl (f, rw f refl)
    | inl t ↦ inr (
      t,
      elim (first_such-cases (is_healthy has_cache failed_id c) p.members) [
        | inl (m, e, k, q) ↦ inl (m, k, q, rw t (rw e refl))
        | inr (e, none_healthy) ↦ inr (none_healthy, kept switched t e)
      ],
    )
  ]
    where
      kept :
          (b : Bool)
          → is_failing failed_id c p ≡ true
          → first_such (is_healthy has_cache failed_id c) p.members ≡ none
          → ((failover_pool has_cache now cause failed_id c b p).0 ≡ degraded_pool now cause p)
            ⊎ ((failover_pool has_cache now cause failed_id c b p).0 ≡ p)
      kept true t e = inr (rw t (rw e refl))
      kept false t e = inl (rw t (rw e refl))

  failover_pools-Settles :
      (switched : Bool) (ps : List SubscriptionPool)
      → Pairwise Settles ps (failover_pools has_cache now cause failed_id c switched ps).0
  unfolding failover_pools
  failover_pools-Settles switched [] = tt
  failover_pools-Settles switched (p ∷ ps) = (
    failover_pool-Settles switched p,
    failover_pools-Settles (failover_pool has_cache now cause failed_id c switched p).1 ps,
  )

  -- The failover settles each pool, in place: a pool whose active source does not fail is kept; one
  -- whose source fails is switched to a healthy member, or, having none, is marked or kept.
  pub failover-Settles :
      Pairwise Settles c.subscription_pools
        (failover_subscription has_cache now cause failed_id c).subscription_pools
  unfolding failover_subscription
  failover-Settles = failover_pools-Settles false c.subscription_pools
