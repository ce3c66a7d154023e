-- ===== src/Profiles.antt =====
-- The pool of the profiles: mihomotui/manager_profiles.go.
pub mod Normal
use mihomo_loongnix.Prelude.{
  ℕ, zero, suc, ◌≡◌, refl, sym, ap, ◌∙◌, ◌↔◌, ◌⊎◌, inl, inr, String, Bool, true, false, not, ◌&&◌,
  ◌||◌, List, [], ◌∷◌, Option, none, some, if◌then◌else◌, ◌==◌, string_eq, get_elem?, length, eqb,
  map, ==→eq, ==-refl, eqb_iff, arith, or-eq-false,
}
use mihomo_loongnix.Prelude.Int.{ℤ, pos, negsuc, int_eq}
use mihomo_loongnix.Config.Types.{Config, SubscriptionMeta, SubscriptionPool, mode_failover}
use mihomo_loongnix.Config.Validate.Pools.{is_empty}

-- The ID of the active profile, or the empty text.
unfoldable pub active_profile_id : Config → String
active_profile_id c = elim c.active_subscription [
  | negsuc n ↦ ""
  | pos i ↦ elim (get_elem? c.subscriptions i) [ none ↦ "" | some s ↦ s.id ]
]

abbrev pub profile_pool : List String → String → SubscriptionPool
profile_pool members active = record {
  id = "profiles";
  name = "配置";
  mode = mode_failover;
  members = members;
  active_member_id = active;
  enabled = true;
  refresh_interval = pos 86400;
  last_switch_at = "";
  last_switch_reason = "";
  degraded = false;
}

unfoldable pub normalize_profile_pool : Config → Config
normalize_profile_pool c =
    if is_empty c.subscriptions
    then record c { subscription_pools = []; active_subscription = negsuc 0 }
    else record c {
      subscription_pools =
          profile_pool (map SubscriptionMeta.id c.subscriptions) (active_profile_id c) ∷ [];
    }

-- Some member is not the profile at its place; the lists have one length.
unfoldable pub members_differ : List String → List SubscriptionMeta → Bool
members_differ (m ∷ ms) (s ∷ ss) = not (m == s.id) || members_differ ms ss
members_differ _ _ = false

unfoldable pub pool_differs : Config → SubscriptionPool → Bool
pool_differs c pool =
    not (pool.id == "profiles")
    || not (pool.mode == mode_failover)
    || not pool.enabled
    || not (eqb (length pool.members) (length c.subscriptions))
    || not (pool.active_member_id == active_profile_id c)
    || members_differ pool.members c.subscriptions

abbrev pub pools_differ : Config → List SubscriptionPool → Bool
pools_differ c [] = true
pools_differ c (p ∷ q ∷ ps) = true
pools_differ c (p ∷ []) = pool_differs c p

unfoldable pub profile_pool_needs_normalization : Config → Bool
unfolding pool_differs members_differ
profile_pool_needs_normalization c =
    if is_empty c.subscriptions
    then not (c.active_subscription == negsuc 0) || not (is_empty c.subscription_pools)
    else pools_differ c c.subscription_pools

-- The pool that the profiles have: one, with every profile in order, led by the active one.
pub record IsProfilePool (c : Config) (p : SubscriptionPool) : Type 0 where
  pub named : p.id ≡ "profiles"
  pub fails_over : p.mode ≡ mode_failover
  pub is_on : p.enabled ≡ true
  pub holds_all : p.members ≡ map SubscriptionMeta.id c.subscriptions
  pub led : p.active_member_id ≡ active_profile_id c

-- Without profiles there is no pool and no active profile.
abbrev pub IsNormal : Config → List SubscriptionMeta → List SubscriptionPool → Type 0
IsNormal c [] ps = (c.active_subscription ≡ negsuc 0) × (ps ≡ [])
IsNormal c (s ∷ ss) ps = (p : SubscriptionPool) × (ps ≡ p ∷ []) × IsProfilePool c p
