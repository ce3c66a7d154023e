-- ===== src/Subscription/Remove.antt =====
-- Removing a subscription keeps a valid configuration valid.
pub mod Members
use mihomo_loongnix.Subscription.Remove.Members.{
  All-remove_at, AreOther-remove_at, active-in_range, is_missing-find_index, any-remove_at, others,
  contains-others, others-contains, IsDistinct-others, All-kept, drop_fields, drop_enabled,
  first_member_ok, active_ok,
}
use mihomo_loongnix.Config.Validate.Parts.{Parts→validate, validate→Parts, Parts}
use mihomo_loongnix.Config.Store.{err, ok}
use mihomo_loongnix.Config.Validate.{validate}
use mihomo_loongnix.Config.Validate.Rules.{validate_custom, validate_built_in, validate_providers}
use mihomo_loongnix.Config.Validate.Problems.{NetLib}
use mihomo_loongnix.Config.Validate.Scalars.{validate_ports, validate_scalars}
use mihomo_loongnix.Config.Validate.Subscriptions.{validate_active}
use mihomo_loongnix.Config.Lookup.{find_subscription_by_name, find_subscription_by_id}
use mihomo_loongnix.Config.Validate.Pools.Exact.{
  validate_pools_iff, PoolsOk, AreApart, IsApart, PoolOk,
}
use mihomo_loongnix.Config.Validate.Subscriptions.Exact.{
  validate_subscriptions_iff, SubscriptionOk, SubscriptionsOk, IsOther, AreOther,
}
use mihomo_loongnix.Prelude.Int.{pos, ◌<ℤ◌, ◌≤ℤ◌, negsuc, ℤ}
use mihomo_loongnix.Config.Validate.Pools.{is_empty, is_missing}
use mihomo_loongnix.Subscription.{
  not_found, remove_subscription, first_member, remove_subscription_at, drop_member,
  active_after_removal,
}
use mihomo_loongnix.Prelude.{
  find_index-lt, subst, Option-cases, none, some, Option, length-remove_at, length, sym, ap, inr,
  All-map, ◌∙◌, inl, map, Bool-cases, ◌&&◌, ◌||◌, All-imp, All-and, ◌⊎◌, refl, zero, [], All-keep,
  if◌then◌else◌, arith, suc, string_eq, some, ◌==◌, ◌<◌, false, any, remove_at, true, not, ◌≡◌, All,
  get_elem?, find_index, ◌∷◌, contains, keep, IsDistinct, ℕ, List, Bool, String,
}
use mihomo_loongnix.Config.Types.{Config, SubscriptionMeta, SubscriptionPool}

module _ (now : String) (c : Config) (i : ℕ) (s : SubscriptionMeta)
    (found : get_elem? c.subscriptions i ≡ some s) where
  abbrev after : Config
  after = remove_subscription_at now i s c

  known_after :
      (x : String)
      → is_missing (find_subscription_by_id c x) ≡ false
      → not (x == s.id) ≡ true
      → is_missing (find_subscription_by_id after x) ≡ false
  unfolding find_subscription_by_id remove_subscription_at
  known_after x h n =
      let p = λ (t : SubscriptionMeta). t.id == x in
      let other : (s.id == x) ≡ false =
        ground (arith, string_eq.beq_iff x s.id, string_eq.beq_iff s.id x) in
      is_missing-find_index p (remove_at c.subscriptions i)
      ∙ (ap not (any-remove_at p c.subscriptions i s found other)
          ∙ (sym (is_missing-find_index p c.subscriptions) ∙ h))

  -- Every pool is well formed after the removal.
  PoolOk-drop_member : (p : SubscriptionPool) → PoolOk c p → PoolOk after (drop_member now s.id p)
  PoolOk-drop_member p k =
      let (id, name, mode, interval, members, active) = drop_fields now s.id p in
      record {
        has_id = rw id k.has_id;
        has_name = rw name k.has_name;
        has_mode = rw mode k.has_mode;
        interval = rw interval k.interval;
        members_known = rw members (
            All-and (λ x known kept. known_after x known kept) (others s.id p.members)
              (All-keep (λ x. is_missing (find_subscription_by_id c x) ≡ false)
                (λ m. not (m == s.id)) p.members k.members_known)
              (All-kept (λ m. not (m == s.id)) p.members));
        members_distinct = rw members (IsDistinct-others s.id p.members k.members_distinct);
        enabled_has_members = rw members (drop_enabled now s.id p k.enabled_has_members);
        active_is_member =
            rw (active, members) (active_ok s.id p.active_member_id p.members k.active_is_member);
      }

IsApart-drop_member :
    (now removed : String) (p q : SubscriptionPool)
    → IsApart p q
    → IsApart (drop_member now removed p) (drop_member now removed q)
IsApart-drop_member now removed p q h =
    let (id_p, _, _, _, members_p, _) = drop_fields now removed p in
    let (id_q, _, _, _, members_q, _) = drop_fields now removed q in
    (
      rw (id_p, id_q) h.0,
      rw (members_p, members_q)
          (All-imp (λ x e. contains-others removed p.members x e) (others removed q.members)
            (All-keep (λ x. contains p.members x ≡ false) (λ m. not (m == removed)) q.members h.1)),
    )

AreApart-map :
    (now removed : String) (ps : List SubscriptionPool)
    → AreApart ps
    → AreApart (map (drop_member now removed) ps)
AreApart-map now removed [] h = tt
AreApart-map now removed (p ∷ ps) h = (
  All-map (IsApart (drop_member now removed p)) (drop_member now removed) ps
      (All-imp (λ q e. IsApart-drop_member now removed p q e) ps h.0),
  AreApart-map now removed ps h.1,
)

-- The part of the validator that `remove_subscription_at` affects.
active_after :
    (now : String) (c : Config) (i : ℕ) (s : SubscriptionMeta)
    → i < length c.subscriptions
    → validate_active c ≡ []
    → validate_active (remove_subscription_at now i s c) ≡ []
unfolding validate_active remove_subscription_at active_after_removal
active_after now c i s h v = ground (arith, length-remove_at c.subscriptions i h)

-- The other parts read nothing that the removal changes.
untouched :
    (net : NetLib) (now : String) (c : Config) (i : ℕ) (s : SubscriptionMeta)
    → Parts net c
    → (validate_ports (remove_subscription_at now i s c).mihomo ≡ [])
      × (validate_scalars net (remove_subscription_at now i s c) ≡ [])
      × (validate_providers (remove_subscription_at now i s c) ≡ [])
      × (validate_built_in (remove_subscription_at now i s c) ≡ [])
      × (validate_custom (remove_subscription_at now i s c) ≡ [])
unfolding remove_subscription_at validate_scalars validate_providers validate_built_in
    validate_custom
untouched net now c i s k = (k.ports, k.scalars, k.providers, k.built_in, k.custom)

remove_at-IsValid :
    (net : NetLib) (now : String) (c : Config) (i : ℕ) (s : SubscriptionMeta)
    → get_elem? c.subscriptions i ≡ some s
    → i < length c.subscriptions
    → validate net c ≡ []
    → validate net (remove_subscription_at now i s c) ≡ []
remove_at-IsValid net now c i s found lt h =
    let k = validate→Parts net c h in
    let subs = (validate_subscriptions_iff c).0 k.subscriptions in
    let pools = (validate_pools_iff c).0 k.pools in
    let (ports, scalars, providers, built_in, custom) = untouched net now c i s k in
    let c'' : Config = remove_subscription_at now i s c in
    Parts→validate net c'' (record {
      ports = ports;
      scalars = scalars;
      subscriptions = (validate_subscriptions_iff c'').1 (subscriptions_after subs);
      active = active_after now c i s lt k.active;
      pools = (validate_pools_iff c'').1 (pools_after pools);
      providers = providers;
      built_in = built_in;
      custom = custom;
    })
  where
    subscriptions_after :
        SubscriptionsOk c.subscriptions
        → SubscriptionsOk (remove_subscription_at now i s c).subscriptions
    subscriptions_after k =
        unfold remove_subscription_at in
        record {
          each = All-remove_at SubscriptionOk c.subscriptions i k.each;
          others = AreOther-remove_at c.subscriptions i k.others;
        }

    pools_after :
        PoolsOk c c.subscription_pools
        → PoolsOk
            (remove_subscription_at now i s c)
            (remove_subscription_at now i s c).subscription_pools
    pools_after k =
        unfold remove_subscription_at in
        record {
          each =
              All-map (PoolOk (remove_subscription_at now i s c)) (drop_member now s.id)
                c.subscription_pools
                (All-imp (λ p ok. PoolOk-drop_member now c i s found p ok) c.subscription_pools
                  k.each);
          apart = AreApart-map now s.id c.subscription_pools k.apart;
        }

-- Removing a subscription from a configuration that the validator accepts gives one that it
-- accepts: pools keep distinct known members, an active member of their own, and none is enabled
-- without members; the active index stays in range.
pub remove_subscription-IsValid :
    (net : NetLib) (now name : String) (c c' : Config)
    → validate net c ≡ []
    → remove_subscription now name c ≡ ok c'
    → validate net c' ≡ []
unfolding remove_subscription find_subscription_by_name
remove_subscription-IsValid net now name c c' h e =
    go (find_index (λ s. s.name == name) c.subscriptions) refl e
  where
    go :
        (r : Option ℕ)
        → find_index (λ s. s.name == name) c.subscriptions ≡ r
        → elim r [
          | none ↦ err (not_found name)
          | some i ↦ elim (get_elem? c.subscriptions i) [
            | none ↦ err (not_found name)
            | some s ↦ ok (remove_subscription_at now i s c)
          ]
        ]
          ≡ ok c'
        → validate net c' ≡ []
    go none f g = absurd (ground arith)
    go (some i) f g = elim (Option-cases (get_elem? c.subscriptions i)) [
      | inl missing ↦ absurd (ground arith)
      | inr (s, found) ↦
          let same : remove_subscription_at now i s c ≡ c' = ground arith in
          subst (λ k. validate net k ≡ []) same
            (remove_at-IsValid net now c i s found
              (find_index-lt (λ t. t.name == name) c.subscriptions f) h)
    ]
