-- ===== src/Pool/Moves.antt =====
-- A subscription belongs to one pool: what the moves of members guarantee.
use mihomo_loongnix.Config.Lookup.{normalized_subscription_pool_mode, find_pool_by_identifier}
use mihomo_loongnix.Prelude.Text.{is_blank}
use mihomo_loongnix.Config.Validate.Pools.{is_mode, is_empty}
use mihomo_loongnix.Subscription.{bad_mode, pool_name_taken, empty_pool_name, Refusal, first_member}
use mihomo_loongnix.Prelude.{
  zero, length-append, ◌∙◌, none, ◌+◌, some, ◌++◌, inr, sym, subst, inl, Bool-cases, refl, true,
  if◌then◌else◌, [], suc, All-const, Bool, ap, All-map, not, Option, ◌∷◌, keep, map, string_eq,
  false, length, ◌≡◌, get_elem?, remove_at, contains, All, ℕ, List, String,
}
use mihomo_loongnix.Config.Types.{SubscriptionPool, Config}
use mihomo_loongnix.Config.Store.{Result, ok, err}
use mihomo_loongnix.Pool.{
  with_pool, new_pool, SubscriptionPoolRequest, give_up_members, assign_pool_members, create_pool,
}

-- No member of the pool is among the ids.
abbrev pub IsFreeOf : List String → SubscriptionPool → Type 0
IsFreeOf wanted pool = All (λ id. contains wanted id ≡ false) pool.members

module _ (wanted : List String) where
  keep-free :
      (ids : List String)
      → All (λ id. contains wanted id ≡ false) (keep (λ id. not (contains wanted id)) ids)
  keep-free [] = tt
  keep-free (id ∷ ids) = elim (Bool-cases (contains wanted id)) [
    | inl t ↦ subst Free (sym t) (keep-free ids)
    | inr f ↦ subst Free (sym f) (f, keep-free ids)
  ]
    where
      Free : Bool → Type 0
      Free b =
          All (λ j. contains wanted j ≡ false)
            (if not b
              then id ∷ keep (λ j. not (contains wanted j)) ids
              else keep (λ j. not (contains wanted j)) ids)

give_up_members-IsFreeOf :
    (now : String) (wanted : List String) (p : SubscriptionPool)
    → IsFreeOf wanted (give_up_members now wanted p)
unfolding give_up_members
give_up_members-IsFreeOf now wanted p =
    either (not (contains wanted p.active_member_id)) (is_empty kept)
  where
    kept : List String
    kept = keep (λ id. not (contains wanted id)) p.members

    free : All (λ id. contains wanted id ≡ false) kept
    free = keep-free wanted p.members

    moved : Bool → Bool → SubscriptionPool
    moved b e =
        if b
        then record p { members = kept }
        else if e
        then record p {
          members = kept;
          active_member_id = "";
          enabled = false;
          degraded = true;
          last_switch_at = now;
          last_switch_reason = "成员已移入其他订阅池";
        }
        else record p { members = kept; active_member_id = first_member kept }

    either : (b e : Bool) → IsFreeOf wanted (moved b e)
    either true e = free
    either false true = free
    either false false = free

length-map : {A B : Type 0} (f : A → B) (xs : List A) → length (map f xs) ≡ length xs
length-map f [] = refl
length-map f (x ∷ xs) = ap suc (length-map f xs)

-- After the members of the target pool were assigned, no pool before it or after it has one of
-- them, the pool at the target's index is unchanged, and there are as many pools as before.
pub assign-IsFreeOf :
    (now : String) (wanted : List String) (target : ℕ) (ps : List SubscriptionPool)
    → All (IsFreeOf wanted) (remove_at (assign_pool_members now wanted target ps) target)
      × (get_elem? (assign_pool_members now wanted target ps) target ≡ get_elem? ps target)
      × (length (assign_pool_members now wanted target ps) ≡ length ps)
unfolding assign_pool_members
assign-IsFreeOf now wanted target [] = (tt, refl, refl)
assign-IsFreeOf now wanted zero (p ∷ ps) = (
  All-map (IsFreeOf wanted) (give_up_members now wanted) ps (
      All-const {P = λ q. IsFreeOf wanted (give_up_members now wanted q)}
        (give_up_members-IsFreeOf now wanted) ps),
  refl,
  ap suc (length-map (give_up_members now wanted) ps),
)
assign-IsFreeOf now wanted (suc target) (p ∷ ps) =
    let rest : All (IsFreeOf wanted) (remove_at (assign_pool_members now wanted target ps) target)
        × (get_elem? (assign_pool_members now wanted target ps) target ≡ get_elem? ps target)
        × (length (assign_pool_members now wanted target ps) ≡ length ps) =
      assign-IsFreeOf now wanted target ps in
    ((give_up_members-IsFreeOf now wanted p, rest.0), rest.1, ap suc rest.2)

get_elem?-append :
    (ps : List SubscriptionPool) (p : SubscriptionPool)
    → get_elem? (ps ++ p ∷ []) (length ps) ≡ some p
get_elem?-append [] p = refl
get_elem?-append (q ∷ ps) p = get_elem?-append ps p

create_pool-ok :
    (now new_id : String) (req : SubscriptionPoolRequest) (c d : Config)
    → create_pool now new_id req c ≡ ok d
    → (is_blank req.name ≡ false)
      × (find_pool_by_identifier c req.name ≡ none)
      × (d ≡ with_pool now (new_pool new_id req) c)
unfolding create_pool
create_pool-ok now new_id req c d h =
    go (is_blank req.name) (find_pool_by_identifier c req.name)
      (is_mode (normalized_subscription_pool_mode req.mode)) h
  where
    made : Config
    made = with_pool now (new_pool new_id req) c

    answer : Bool → Option ℕ → Bool → Result Refusal Config
    answer blank found valid = if blank then err empty_pool_name else elim found [
      | some i ↦ err (pool_name_taken req.name)
      | none ↦ if not valid then err (bad_mode req.mode) else ok made
    ]

    given : Result Refusal Config → Config
    given result = elim result [ ok e ↦ e | err e ↦ c ]

    go :
        (blank : Bool) (found : Option ℕ) (valid : Bool)
        → answer blank found valid ≡ ok d
        → (blank ≡ false) × (found ≡ none) × (d ≡ made)
    go true found valid k = absurd cc
    go false (some i) valid k = absurd cc
    go false none false k = absurd cc
    go false none true k = (refl, refl, sym (ap given k))

-- A pool that is created stands at the end of the list with exactly the members that were asked
-- for, and no other pool has one of them. The subscriptions are unchanged, the name is
-- not blank, and no pool had it as its name or ID.
pub create_pool-IsFreeOf :
    (now new_id : String) (req : SubscriptionPoolRequest) (c d : Config)
    → create_pool now new_id req c ≡ ok d
    → All (IsFreeOf req.members) (remove_at d.subscription_pools (length c.subscription_pools))
      × (get_elem? d.subscription_pools (length c.subscription_pools) ≡ some (new_pool new_id req))
      × (length d.subscription_pools ≡ length c.subscription_pools + 1)
      × (d.subscriptions ≡ c.subscriptions)
      × (is_blank req.name ≡ false)
      × (find_pool_by_identifier c req.name ≡ none)
create_pool-IsFreeOf now new_id req c d h = subst Goal (sym facts.2) (
  moves.0,
  moves.1 ∙ get_elem?-append pools pool,
  moves.2 ∙ length-append pools (pool ∷ []),
  refl,
  facts.0,
  facts.1,
)
  where
    pool : SubscriptionPool
    pool = new_pool new_id req

    pools : List SubscriptionPool
    pools = c.subscription_pools

    facts :
        (is_blank req.name ≡ false)
        × (find_pool_by_identifier c req.name ≡ none)
        × (d ≡ with_pool now pool c)
    facts = create_pool-ok now new_id req c d h

    moves :
        All (IsFreeOf req.members) (
          remove_at
            (assign_pool_members now req.members (length pools) (pools ++ pool ∷ []))
            (length pools))
        × (get_elem?
              (assign_pool_members now req.members (length pools) (pools ++ pool ∷ []))
              (length pools)
            ≡ get_elem? (pools ++ pool ∷ []) (length pools))
        × (length (assign_pool_members now req.members (length pools) (pools ++ pool ∷ []))
            ≡ length (pools ++ pool ∷ []))
    moves = assign-IsFreeOf now req.members (length pools) (pools ++ pool ∷ [])

    Goal : Config → Type 0
    Goal e =
        All (IsFreeOf req.members) (remove_at e.subscription_pools (length pools))
        × (get_elem? e.subscription_pools (length pools) ≡ some pool)
        × (length e.subscription_pools ≡ length pools + 1)
        × (e.subscriptions ≡ c.subscriptions)
        × (is_blank req.name ≡ false)
        × (find_pool_by_identifier c req.name ≡ none)
