-- ===== src/Subscription/Refresh/Liveness.antt =====
-- When a pool leaves a source that fails, in mihomotui/daemon_handlers_subscription.go.
use mihomo_loongnix.Prelude.{
  All-contains, ℕ, zero, suc, ◌≤◌, ◌≡◌, refl, sym, ap, subst, ◌∙◌, inl, inr, String, Bool, true,
  false, not, ◌&&◌, List, [], ◌∷◌, Option, none, some, if◌then◌else◌, ◌==◌, string_eq, nat_eq,
  get_elem?, ltb, leb, contains, find_index, arith, Bool-cases, ==-refl, ne→==, ==_false→ne, ==→eq,
}
use mihomo_loongnix.Config.Types.{Config, SubscriptionMeta, SubscriptionPool, mode_failover}
use mihomo_loongnix.Config.Lookup.{find_subscription_by_id, normalized_subscription_pool_mode}
use mihomo_loongnix.Config.Store.{ok, err}
use mihomo_loongnix.Subscription.{deleted_meanwhile, update_at}
use mihomo_loongnix.Subscription.Refresh.Failover.{Pairwise-get, Settles, failover-Settles}
use mihomo_loongnix.Subscription.Refresh.{
  is_healthy, is_failing, test_of, note_failure, record_fetch, failed_refresh, then_failover,
  failure_threshold, with_subscriptions,
}

-- The subscription that a lookup by ID comes to.
abbrev pub find_sub : String → List SubscriptionMeta → Option SubscriptionMeta
find_sub id [] = none
find_sub id (s ∷ ss) = let rest = find_sub id ss in if s.id == id then some s else rest

pub test_of-find_sub :
    (p : SubscriptionMeta → Bool) (c : Config) (id : String)
    → test_of p c id ≡ elim (find_sub id c.subscriptions) [ none ↦ false | some s ↦ p s ]
unfolding find_subscription_by_id
test_of-find_sub p c id = go c.subscriptions
  where
    go :
        (ss : List SubscriptionMeta)
        → (elim (find_index (λ s. s.id == id) ss) [
          | none ↦ false
          | some i ↦ elim (get_elem? ss i) [ none ↦ false | some s ↦ p s ]
        ])
          ≡ elim (find_sub id ss) [ none ↦ false | some s ↦ p s ]
    go [] = refl
    go (s ∷ ss) = ground (arith, go ss)

index-suc :
    (b : Bool) (r : Option ℕ) (i : ℕ)
    → (if b then some 0 else elim r [ none ↦ none | some k ↦ some (suc k) ]) ≡ some (suc i)
    → (b ≡ false) × (r ≡ some i)
index-suc true r i h = absurd (ground arith)
index-suc false none i h = absurd cc
index-suc false (some k) i h = (refl, ground arith)

index-zero :
    (b : Bool) (r : Option ℕ)
    → (if b then some 0 else elim r [ none ↦ none | some k ↦ some (suc k) ]) ≡ some 0
    → b ≡ true
index-zero true r h = refl
index-zero false none h = absurd cc
index-zero false (some k) h = absurd (ground arith)

module _ (f : SubscriptionMeta → SubscriptionMeta)
    (same : (s : SubscriptionMeta) → (f s).id ≡ s.id) where
  find_sub-update :
      (id : String) (ss : List SubscriptionMeta) (i : ℕ)
      → find_index (λ s. s.id == id) ss ≡ some i
      → (s : SubscriptionMeta) → find_sub id ss ≡ some s
      → find_sub id (update_at f ss i) ≡ some (f s)
  find_sub-update id [] i h s k = absurd cc
  find_sub-update id (x ∷ ss) zero h s k =
      let t = index-zero (x.id == id) (find_index (λ s. s.id == id) ss) h in
      let e = same x in ground arith
  find_sub-update id (x ∷ ss) (suc i) h s k =
      let (d, later) = index-suc (x.id == id) (find_index (λ s. s.id == id) ss) i h in
      ground (arith, find_sub-update id ss i later s)

  find_sub-other :
      (id m : String) (ss : List SubscriptionMeta) (i : ℕ)
      → find_index (λ s. s.id == id) ss ≡ some i
      → (m == id) ≡ false
      → find_sub m (update_at f ss i) ≡ find_sub m ss
  find_sub-other id m [] i h d = refl
  find_sub-other id m (x ∷ ss) zero h d =
      let t = index-zero (x.id == id) (find_index (λ s. s.id == id) ss) h in
      let e = same x in
      let o : (x.id == m) ≡ false =
        ne→== x.id m (λ q. ==_false→ne m id d (sym q ∙ ==→eq x.id id t)) in
      ground arith
  find_sub-other id m (x ∷ ss) (suc i) h d =
      let (e, later) = index-suc (x.id == id) (find_index (λ s. s.id == id) ss) i h in
      ground (arith, find_sub-other id m ss i later d)

-- The configuration after a failed fetch has been recorded.
module _ (now error : String) (sub : SubscriptionMeta) (c : Config) (i : ℕ)
    (at : find_subscription_by_id c sub.id ≡ some i) where
  abbrev noted : Config
  noted = with_subscriptions c (update_at (note_failure now error) c.subscriptions i)

  note_failure-id : (s : SubscriptionMeta) → (note_failure now error s).id ≡ s.id
  unfolding note_failure
  note_failure-id s = refl

  healthy-noted :
      (has_cache : SubscriptionMeta → Bool) (m : String)
      → is_healthy has_cache sub.id noted m ≡ is_healthy has_cache sub.id c m
  unfolding is_healthy find_subscription_by_id
  healthy-noted has_cache m = elim (Bool-cases (m == sub.id)) [
    | inl t ↦ rw t refl
    | inr d ↦
        ap (λ b. not (m == sub.id) && b)
          (test_of-find_sub (usable has_cache) noted m
            ∙ ap (λ r. elim r [ none ↦ false | some s ↦ usable has_cache s ])
                (find_sub-other (note_failure now error) note_failure-id sub.id m c.subscriptions i
                  at d)
            ∙ sym (test_of-find_sub (usable has_cache) c m))
  ]
    where
      usable : (SubscriptionMeta → Bool) → SubscriptionMeta → Bool
      usable cached s = cached s && ltb s.failure_count failure_threshold

  failing-noted :
      (s : SubscriptionMeta)
      → find_sub sub.id c.subscriptions ≡ some s
      → 2 ≤ s.failure_count
      → (p : SubscriptionPool) → (normalized_subscription_pool_mode p.mode == mode_failover) ≡ true
      → p.enabled ≡ true
      → (p.active_member_id == sub.id) ≡ true
      → is_failing sub.id noted p ≡ true
  unfolding is_failing find_subscription_by_id note_failure
  failing-noted s k n p mode on active =
      let counted =
        test_of-find_sub (λ s. leb failure_threshold s.failure_count) noted sub.id
        ∙ ap (λ r. elim r [ none ↦ false | some s ↦ leb failure_threshold s.failure_count ])
            (find_sub-update (note_failure now error) note_failure-id sub.id c.subscriptions i at s
              k) in
      ground arith

  -- A pool in failover mode, whose active source fails for at least the third time in a row.
  leaves :
      (cause : String) (has_cache : SubscriptionMeta → Bool) (s : SubscriptionMeta)
      → find_sub sub.id c.subscriptions ≡ some s
      → 2 ≤ s.failure_count
      → (p q : SubscriptionPool)
      → (normalized_subscription_pool_mode p.mode == mode_failover) ≡ true
      → p.enabled ≡ true
      → (p.active_member_id == sub.id) ≡ true
      → (m : String) → contains p.members m ≡ true
      → is_healthy has_cache sub.id c m ≡ true
      → Settles has_cache now cause sub.id noted p q
      → (contains p.members q.active_member_id ≡ true)
        × (is_healthy has_cache sub.id c q.active_member_id ≡ true)
        × (q.degraded ≡ false)
  leaves cause has_cache s k n p q mode on active m member healthy (inl (calm, _)) =
      let failing = failing-noted s k n p mode on active in absurd (ground arith)
  leaves cause has_cache s k n p q mode on active m member healthy (inr (_, inl (m', k', h', e))) =
      subst
        (λ q.
          (contains p.members q.active_member_id ≡ true)
          × (is_healthy has_cache sub.id c q.active_member_id ≡ true)
          × (q.degraded ≡ false))
        (sym e) (k', sym (healthy-noted has_cache m') ∙ h', refl)
  leaves cause has_cache s k n p q mode on active m member healthy
        (inr (_, inr (none_healthy, _))) =
      let no =
        All-contains (λ m. is_healthy has_cache sub.id noted m ≡ false) p.members m none_healthy
          member in
      let same = healthy-noted has_cache m in absurd (ground arith)

-- Let the active source of an enabled failover pool have failed at least twice in a row, and let
-- the pool have another member with a cached file and fewer than three failures. After one more
-- failed refresh, with its updates stored, the active member of the pool is such a member, and the
-- pool is not degraded.
pub third_failure-switches :
    (has_cache : SubscriptionMeta → Bool) (now error cause : String) (sub : SubscriptionMeta)
    (c : Config)
    → find_sub sub.id c.subscriptions ≡ some sub
    → 2 ≤ sub.failure_count
    → (j : ℕ) (p : SubscriptionPool) → get_elem? c.subscription_pools j ≡ some p
    → (normalized_subscription_pool_mode p.mode == mode_failover) ≡ true
    → p.enabled ≡ true
    → p.active_member_id ≡ sub.id
    → (m : String) → contains p.members m ≡ true
    → is_healthy has_cache sub.id c m ≡ true
    → (q : SubscriptionPool) × (get_elem?
          (failed_refresh has_cache now error cause sub c).subscription_pools
          j
        ≡ some q)
      × (contains p.members q.active_member_id ≡ true)
      × (is_healthy has_cache sub.id c q.active_member_id ≡ true)
      × (q.degraded ≡ false)
unfolding failed_refresh record_fetch
third_failure-switches has_cache now error cause sub c known n j p at_j mode on active m member
      healthy =
    go (find_subscription_by_id c sub.id) refl
  where
    go :
        (r : Option ℕ)
        → find_subscription_by_id c sub.id ≡ r
        → (q : SubscriptionPool) × (get_elem?
              (then_failover has_cache now cause sub.id c (elim r [
                | none ↦ err (deleted_meanwhile sub.name)
                | some i ↦
                    ok (with_subscriptions c (update_at (note_failure now error) c.subscriptions i))
              ])).subscription_pools
              j
            ≡ some q)
          × (contains p.members q.active_member_id ≡ true)
          × (is_healthy has_cache sub.id c q.active_member_id ≡ true)
          × (q.degraded ≡ false)
    go none e = let found = test_of-find_sub (λ s. true) c sub.id in absurd (ground arith)
    go (some i) e =
        let next = with_subscriptions c (update_at (note_failure now error) c.subscriptions i) in
        let (q, got, settled) =
          Pairwise-get (Settles has_cache now cause sub.id next) c.subscription_pools _
            (failover-Settles has_cache now cause sub.id next) j p at_j in
        let (k, h, d) =
          leaves now error sub c i e cause has_cache sub known n p q mode on
            (subst (λ id. (id == sub.id) ≡ true) (sym active) (==-refl sub.id)) m member healthy
            settled in
        (q, got, k, h, d)
