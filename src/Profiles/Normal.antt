-- ===== src/Profiles/Normal.antt =====
-- When the pool of the profiles is normal, in mihomotui/manager_profiles.go.
use mihomo_loongnix.Prelude.{
  subst, suc, ◌≡◌, refl, sym, ap, ◌∙◌, ◌↔◌, String, false, not, ◌||◌, List, [], ◌∷◌, if◌then◌else◌,
  ◌==◌, string_eq, length, map, ==→eq, ==-refl, eqb_iff, arith, or-eq-false,
}
use mihomo_loongnix.Prelude.Int.{negsuc, int_eq}
use mihomo_loongnix.Config.Types.{Config, SubscriptionMeta, SubscriptionPool, mode_failover}
use mihomo_loongnix.Config.Validate.Pools.{is_empty}
use mihomo_loongnix.Profiles.{
  active_profile_id, profile_pool, normalize_profile_pool, members_differ, pool_differs,
  pools_differ, profile_pool_needs_normalization, IsProfilePool, IsNormal,
}

members→ :
    (ms : List String) (ss : List SubscriptionMeta)
    → length ms ≡ length ss
    → members_differ ms ss ≡ false
    → ms ≡ map SubscriptionMeta.id ss
unfolding members_differ
members→ [] [] e h = refl
members→ [] (s ∷ ss) e h = absurd (omega (arith, e))
members→ (m ∷ ms) [] e h = absurd (omega (arith, e))
members→ (m ∷ ms) (s ∷ ss) e h =
    let (same, rest) = or-eq-false (not (m == s.id)) (members_differ ms ss) h in
    let e' : length ms ≡ length ss = omega (arith, e) in
    let q = ==→eq m s.id (ground arith) in cc (q, members→ ms ss e' rest)

members← :
    (ss : List SubscriptionMeta)
    → (length (map SubscriptionMeta.id ss) ≡ length ss)
      × (members_differ (map SubscriptionMeta.id ss) ss ≡ false)
unfolding members_differ
members← [] = (refl, refl)
members← (s ∷ ss) = let (n, d) = members← ss in (ap suc n, ground (arith, ==-refl s.id))

pool_differs→ : (c : Config) (p : SubscriptionPool) → pool_differs c p ≡ false → IsProfilePool c p
unfolding pool_differs
pool_differs→ c p h = record {
  named = ==→eq p.id "profiles" (ground arith);
  fails_over = ==→eq p.mode mode_failover (ground arith);
  is_on = ground arith;
  holds_all =
      members→ p.members c.subscriptions
        ((eqb_iff (length p.members) (length c.subscriptions)).0 (ground arith)) (ground arith);
  led = ==→eq p.active_member_id (active_profile_id c) (ground arith);
}

pool_differs← : (c : Config) (p : SubscriptionPool) → IsProfilePool c p → pool_differs c p ≡ false
unfolding pool_differs
pool_differs← c p k =
    let (n, d) = members← c.subscriptions in
    let named = (string_eq.beq_iff p.id "profiles").1 k.named in
    let mode = (string_eq.beq_iff p.mode mode_failover).1 k.fails_over in
    let on = k.is_on in
    let long =
      (eqb_iff (length p.members) (length c.subscriptions)).1 (ap length k.holds_all ∙ n) in
    let same = ap (λ ms. members_differ ms c.subscriptions) k.holds_all ∙ d in
    let led = (string_eq.beq_iff p.active_member_id (active_profile_id c)).1 k.led in ground arith

needs→ :
    (c : Config) (ss : List SubscriptionMeta) (ps : List SubscriptionPool)
    → (if is_empty ss
        then not (c.active_subscription == negsuc 0) || not (is_empty ps)
        else pools_differ c ps)
      ≡ false
    → IsNormal c ss ps
needs→ c [] [] h = (==→eq c.active_subscription (negsuc 0) (ground arith), refl)
needs→ c [] (p ∷ ps) h = absurd (ground arith)
needs→ c (s ∷ ss) [] h = absurd cc
needs→ c (s ∷ ss) (p ∷ []) h = (p, refl, pool_differs→ c p h)
needs→ c (s ∷ ss) (p ∷ q ∷ ps) h = absurd cc

needs← :
    (c : Config) (ss : List SubscriptionMeta) (ps : List SubscriptionPool)
    → IsNormal c ss ps
    → (if is_empty ss
        then not (c.active_subscription == negsuc 0) || not (is_empty ps)
        else pools_differ c ps)
      ≡ false
needs← c [] ps (a, e) =
    let t = (int_eq.beq_iff c.active_subscription (negsuc 0)).1 a in
    let u = ap is_empty e in ground arith
needs← c (s ∷ ss) ps (p, e, k) = ap (pools_differ c) e ∙ pool_differs← c p k

normalize-IsNormal :
    (c : Config)
    → IsNormal
        (normalize_profile_pool c)
        (normalize_profile_pool c).subscriptions
        (normalize_profile_pool c).subscription_pools
unfolding normalize_profile_pool active_profile_id
normalize-IsNormal c = go c.subscriptions refl
  where
    emptied : Config
    emptied = record c { subscription_pools = []; active_subscription = negsuc 0 }

    pool : SubscriptionPool
    pool = profile_pool (map SubscriptionMeta.id c.subscriptions) (active_profile_id c)

    pooled : Config
    pooled = record c { subscription_pools = pool ∷ [] }

    chosen : List SubscriptionMeta → Config
    chosen ss = if is_empty ss then emptied else pooled

    go :
        (ss : List SubscriptionMeta)
        → c.subscriptions ≡ ss
        → IsNormal (chosen ss) (chosen ss).subscriptions (chosen ss).subscription_pools
    go [] e = subst (λ x. IsNormal emptied x []) (sym e) (refl, refl)
    go (s ∷ ss) e =
        subst (λ x. IsNormal pooled x (pool ∷ [])) (sym e)
          (
            pool,
            refl,
            record { named = refl; fails_over = refl; is_on = refl; holds_all = refl; led = refl },
          )

-- The pool is left alone exactly when it is normal, and normalizing makes it so: without profiles
-- there is no pool and no active profile; otherwise there is one enabled failover pool that holds
-- every profile in order and is led by the active one.
pub needs_normalization_iff :
    (c : Config)
    → ((profile_pool_needs_normalization c ≡ false)
        ↔ IsNormal c c.subscriptions c.subscription_pools)
      × (profile_pool_needs_normalization (normalize_profile_pool c) ≡ false)
unfolding profile_pool_needs_normalization
needs_normalization_iff c =
    let n = normalize_profile_pool c in
    (
      (
        needs→ c c.subscriptions c.subscription_pools,
        needs← c c.subscriptions c.subscription_pools,
      ),
      needs← n n.subscriptions n.subscription_pools (normalize-IsNormal c),
    )
