-- ===== src/Subscription/Refresh/Settled.antt =====
-- What `failoverSubscription` of mihomotui/daemon_handlers_subscription.go does to each pool, in
-- terms of the subscriptions: their cached files and their failures.
use mihomo_loongnix.Prelude.{
  if◌then◌else◌, suc, ◌≤◌, ◌<◌, ◌≡◌, ◌≢◌, refl, sym, ap, subst, ◌∙◌, ◌⊎◌, inl, inr, String, Bool,
  true, false, not, ◌&&◌, List, [], ◌∷◌, Option, none, some, ◌==◌, string_eq, ltb, leb, All,
  All-imp, All-contains, IsIn, contains, arith, Bool-cases, ==→eq, ==-refl, ne→==, ==_false→ne,
}
use mihomo_loongnix.Prelude.Lines.{◌^◌}
use mihomo_loongnix.Config.Types.{Config, SubscriptionMeta, SubscriptionPool, mode_failover}
use mihomo_loongnix.Config.Lookup.{normalized_subscription_pool_mode}
use mihomo_loongnix.Subscription.Refresh.{
  is_healthy, is_failing, degraded_pool, failover_pool, failover_pools, failover_subscription,
}
use mihomo_loongnix.Subscription.Refresh.Failover.{first_such-cases}
use mihomo_loongnix.Subscription.Refresh.Liveness.{find_sub, test_of-find_sub}

module _ (has_cache : SubscriptionMeta → Bool) (failed_id : String) (c : Config) where
  -- Another subscription than the failing one, with a cached file and fewer than three failures.
  abbrev pub IsUsable : String → Type 0
  IsUsable m =
      (s : SubscriptionMeta) × (m ≢ failed_id)
      × (find_sub m c.subscriptions ≡ some s)
      × (has_cache s ≡ true)
      × (s.failure_count < 3)

  -- An enabled failover pool whose active member is the failing subscription, with at least three
  -- failures.
  abbrev pub HasFailed : SubscriptionPool → Type 0
  HasFailed p =
      (s : SubscriptionMeta) × (normalized_subscription_pool_mode p.mode ≡ mode_failover)
      × (p.enabled ≡ true)
      × (p.active_member_id ≡ failed_id)
      × (find_sub failed_id c.subscriptions ≡ some s)
      × (3 ≤ s.failure_count)

  abbrev pub CanSwitch : SubscriptionPool → Type 0
  CanSwitch p = HasFailed p × ((m : String) × (contains p.members m ≡ true) × IsUsable m)

  abbrev is_usable : SubscriptionMeta → Bool
  is_usable s = has_cache s && ltb s.failure_count 3

  abbrev has_failed : SubscriptionMeta → Bool
  has_failed s = leb 3 s.failure_count

  abbrev tested : (SubscriptionMeta → Bool) → Option SubscriptionMeta → Bool
  tested p r = elim r [ none ↦ false | some s ↦ p s ]

  IsUsable-split :
      (m : String) (r : Option SubscriptionMeta)
      → find_sub m c.subscriptions ≡ r
      → (not (m == failed_id) && tested is_usable r) ≡ true
      → IsUsable m
  IsUsable-split m none e k = absurd (ground arith)
  IsUsable-split m (some s) e k =
      (s, ==_false→ne m failed_id (ground arith), e, ground arith, ground arith)

  HasFailed-split :
      (p : SubscriptionPool) (r : Option SubscriptionMeta)
      → find_sub failed_id c.subscriptions ≡ r
      → (normalized_subscription_pool_mode p.mode == mode_failover
          && p.enabled
          && p.active_member_id == failed_id
          && tested has_failed r)
        ≡ true
      → HasFailed p
  HasFailed-split p none e k = absurd (ground arith)
  HasFailed-split p (some s) e k = (
    s,
    ==→eq _ mode_failover (ground arith),
    ground arith,
    ==→eq p.active_member_id failed_id (ground arith),
    e,
    ground arith,
  )

  is_healthy→ : (m : String) → is_healthy has_cache failed_id c m ≡ true → IsUsable m
  unfolding is_healthy
  is_healthy→ m h =
      IsUsable-split m (find_sub m c.subscriptions) refl
        (ap (λ b. not (m == failed_id) && b) (sym (test_of-find_sub is_usable c m)) ∙ h)

  usable→ : (m : String) → IsUsable m → is_healthy has_cache failed_id c m ≡ true
  unfolding is_healthy
  usable→ m (s, other, found, cached, few) =
      ap (λ b. not (m == failed_id) && b)
        (test_of-find_sub is_usable c m ∙ ap (tested is_usable) found)
      ∙ (let different = ne→== m failed_id other in ground arith)

  is_failing→ : (p : SubscriptionPool) → is_failing failed_id c p ≡ true → HasFailed p
  unfolding is_failing
  is_failing→ p h = HasFailed-split p (find_sub failed_id c.subscriptions) refl (
      ap
        (λ b.
          normalized_subscription_pool_mode p.mode == mode_failover
          && p.enabled
          && p.active_member_id == failed_id
          && b)
        (sym (test_of-find_sub has_failed c failed_id))
      ∙ h)

  has_failed→ : (p : SubscriptionPool) → HasFailed p → is_failing failed_id c p ≡ true
  unfolding is_failing
  has_failed→ p (s, mode, on, active, found, many) =
      let counted = test_of-find_sub has_failed c failed_id ∙ ap (tested has_failed) found in
      let same_mode =
        subst (λ t. (normalized_subscription_pool_mode p.mode == t) ≡ true) mode
          (==-refl (normalized_subscription_pool_mode p.mode)) in
      let same_active =
        subst (λ t. (p.active_member_id == t) ≡ true) active (==-refl p.active_member_id) in
      ground arith

  module _ (now cause : String) where
    -- What becomes of a pool, given the pools before it. One whose active source has not failed is
    -- kept. Another takes a usable member as the active one and is no longer degraded; or it has no
    -- such member, and is then marked as degraded, or kept where a pool before it could switch.
    abbrev pub IsSettled : List SubscriptionPool → SubscriptionPool → SubscriptionPool → Type 0
    IsSettled before p q =
        ((HasFailed p → (⊥)) × (q ≡ p))
        ⊎ (HasFailed p
            × (((m : String) × (contains p.members m ≡ true)
                  × IsUsable m
                  × (q ≡ record p {
                    active_member_id = m;
                    degraded = false;
                    last_switch_at = now;
                    last_switch_reason = cause;
                  }))
                ⊎ (All (λ m. IsUsable m → (⊥)) p.members
                    × ((All (λ p'. CanSwitch p' → (⊥)) before
                          × (q ≡ record p {
                            degraded = true;
                            last_switch_at = now;
                            last_switch_reason = "所有订阅源不可用: " ^ cause;
                          }))
                        ⊎ (((p' : SubscriptionPool) × IsIn p' before × CanSwitch p') × (q ≡ p))))))

    -- All pools, in place.
    abbrev pub AreSettled :
        List SubscriptionPool → List SubscriptionPool → List SubscriptionPool → Type 0
    AreSettled before [] [] = Unit
    AreSettled before [] (q ∷ qs) = (⊥)
    AreSettled before (p ∷ ps) [] = (⊥)
    AreSettled before (p ∷ ps) (q ∷ qs) = IsSettled before p q × AreSettled (p ∷ before) ps qs

    -- What `switched` tells of the pools before.
    abbrev Tells : List SubscriptionPool → Bool → Type 0
    Tells before true = (p : SubscriptionPool) × IsIn p before × CanSwitch p
    Tells before false = All (λ p. CanSwitch p → (⊥)) before

    Tells-cons :
        (before : List SubscriptionPool) (p : SubscriptionPool) (b : Bool)
        → (CanSwitch p → (⊥))
        → Tells before b
        → Tells (p ∷ before) b
    Tells-cons before p true n (p', (i, at), k) = (p', (suc i, at), k)
    Tells-cons before p false n h = (n, h)

    none-IsUsable :
        (ms : List String)
        → All (λ m. is_healthy has_cache failed_id c m ≡ false) ms
        → All (λ m. IsUsable m → (⊥)) ms
    none-IsUsable ms h = All-imp (λ m f u. let k = usable→ m u in cc) ms h

    stuck : (p : SubscriptionPool) → All (λ m. IsUsable m → (⊥)) p.members → CanSwitch p → (⊥)
    stuck p none_of (_, (m, at, u)) = All-contains (λ m. IsUsable m → (⊥)) p.members m none_of at u

    -- The pool and the flag after one round.
    abbrev Round : List SubscriptionPool → SubscriptionPool → SubscriptionPool × Bool → Type 0
    Round before p r = IsSettled before p r.0 × Tells (p ∷ before) r.1

    round :
        (before : List SubscriptionPool) (b : Bool) (p : SubscriptionPool)
        → Tells before b
        → Round before p (failover_pool has_cache now cause failed_id c b p)
    unfolding failover_pool
    round before b p h = elim (Bool-cases (is_failing failed_id c p)) [
      | inl t ↦ elim (first_such-cases (is_healthy has_cache failed_id c) p.members) [
        | inl (m, e, at, k) ↦ rw t (
            rw e (
              inr (is_failing→ p t, inl (m, at, is_healthy→ m k, refl)),
              (p, (0, refl), (is_failing→ p t, (m, at, is_healthy→ m k))),
            ))
        | inr (e, unhealthy) ↦
            rw t (rw e (last b h (is_failing→ p t) (none-IsUsable p.members unhealthy)))
      ]
      | inr f ↦
          let calm : HasFailed p → (⊥) = λ k. (let t = has_failed→ p k in cc) in
          rw f (inl (calm, refl), Tells-cons before p b (λ k. calm k.0) h)
    ]
      where
        last :
            (b : Bool)
            → Tells before b
            → HasFailed p
            → All (λ m. IsUsable m → (⊥)) p.members
            → Round before p (if b then (p, true) else (degraded_pool now cause p, false))
        last true h k n = (inr (k, inr (n, inr (h, refl))), Tells-cons before p true (stuck p n) h)
        last false h k n =
            (inr (k, inr (n, inl (h, refl))), Tells-cons before p false (stuck p n) h)

    rounds :
        (before : List SubscriptionPool) (b : Bool) (ps : List SubscriptionPool)
        → Tells before b
        → AreSettled before ps (failover_pools has_cache now cause failed_id c b ps).0
    unfolding failover_pools
    rounds before b [] h = tt
    rounds before b (p ∷ ps) h =
        let (settled, told) = round before b p h in
        (settled, rounds (p ∷ before) (failover_pool has_cache now cause failed_id c b p).1 ps told)

    -- The failover settles the pools in place, in their order. An enabled failover pool whose
    -- active member is the failing subscription, with at least three failures, takes another member
    -- with a cached file and fewer than three failures as the active one and is no longer degraded;
    -- where it has none, it is marked as degraded, or, where an earlier pool could switch, kept.
    -- Every other pool is kept.
    pub failover-AreSettled :
        AreSettled [] c.subscription_pools
          (failover_subscription has_cache now cause failed_id c).subscription_pools
    unfolding failover_subscription
    failover-AreSettled = rounds [] false c.subscription_pools tt
