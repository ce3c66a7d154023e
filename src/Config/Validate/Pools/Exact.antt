-- ===== src/Config/Validate/Pools/Exact.antt =====
-- The pool checks report nothing exactly on well-formed pools.
use mihomo_loongnix.Prelude.{
  or-eq-false, not, ◌++◌, Bool, String, true, false, ◌&&◌, ◌||◌, List, [], ◌∷◌, none, ◌≡◌, refl,
  ◌↔◌, ◌==◌, string_eq, contains, find_value, All, All-imp, All-and, All-const, IsDistinct,
  append-eq-nil, arith,
}
use mihomo_loongnix.Prelude.Int.{ltb_ℤ, ℤ, pos, ◌≤ℤ◌}
use mihomo_loongnix.Prelude.Text.{is_blank}
use mihomo_loongnix.Prelude.Loops.{collect, collect-eq-nil}
use mihomo_loongnix.Config.Types.{Config, SubscriptionPool}
use mihomo_loongnix.Config.Lookup.{find_subscription_by_id, normalized_subscription_pool_mode}
use mihomo_loongnix.Config.Validate.Problems.{add_if-eq-nil, add_if-append, Problem, add_if}
use mihomo_loongnix.Config.Validate.Pools.{
  member_step, Owned, SeenPools, pool_step, validate_pools, is_missing, is_empty, is_mode,
}
use mihomo_loongnix.Config.Validate.Pools.Members.{
  MemberOk, members→, members←, final_members, final_owner,
}

-- A pool on its own: an ID, a name, a known mode, an interval, distinct known members, a member
-- if it is enabled, and an active member of its own, if any.
pub record PoolOk (c : Config) (p : SubscriptionPool) : Type 0 where
  pub has_id : is_blank p.id ≡ false
  pub has_name : is_blank p.name ≡ false
  pub has_mode : is_mode (normalized_subscription_pool_mode p.mode) ≡ true
  pub interval : pos 0 ≤ℤ p.refresh_interval
  pub members_known : All (λ id. is_missing (find_subscription_by_id c id) ≡ false) p.members
  pub members_distinct : IsDistinct p.members
  pub enabled_has_members : (p.enabled && is_empty p.members) ≡ false
  pub active_is_member : (p.active_member_id == "" || contains p.members p.active_member_id) ≡ true

-- Two pools share neither an ID nor a member.
abbrev pub IsApart : SubscriptionPool → SubscriptionPool → Type 0
IsApart p q = ((q.id == p.id) ≡ false) × All (λ id. contains p.members id ≡ false) q.members

abbrev pub AreApart : List SubscriptionPool → Type 0
AreApart [] = Unit {0}
AreApart (p ∷ ps) = All (IsApart p) ps × AreApart ps

pub record PoolsOk (c : Config) (ps : List SubscriptionPool) : Type 0 where
  pub each : All (PoolOk c) ps
  pub apart : AreApart ps

-- A pool that uses nothing of what the loop has seen.
abbrev IsFresh : SeenPools → SubscriptionPool → Type 0
IsFresh seen p =
    (contains seen.pool_ids p.id ≡ false) × All (λ id. find_value id seen.owner ≡ none) p.members

no_problems :
    (t1 t2 t3 t4 : Bool) (ms : List Problem) (t5 t6 : Bool) (p1 p2 p3 p4 p5 p6 : Problem)
    → add_if t1 p1
        ++ (add_if t2 p2
            ++ (add_if t3 p3 ++ (add_if t4 p4 ++ (ms ++ (add_if t5 p5 ++ add_if t6 p6)))))
      ≡ []
    → (t1 ≡ false)
      × (t2 ≡ false)
      × (t3 ≡ false)
      × (t4 ≡ false)
      × (ms ≡ [])
      × (t5 ≡ false)
      × (t6 ≡ false)
no_problems t1 t2 t3 t4 ms t5 t6 p1 p2 p3 p4 p5 p6 h =
    let (e1, h1) = add_if-append t1 p1 _ h in
    let (e2, h2) = add_if-append t2 p2 _ h1 in
    let (e3, h3) = add_if-append t3 p3 _ h2 in
    let (e4, h4) = add_if-append t4 p4 _ h3 in
    let (em, h5) = append-eq-nil ms _ h4 in
    let (e5, h6) = add_if-append t5 p5 _ h5 in (e1, e2, e3, e4, em, e5, add_if-eq-nil t6 p6 h6)

not-eq-false : (t : Bool) → not t ≡ false → t ≡ true
not-eq-false t h = ground arith

nonneg : (n : ℤ) → ltb_ℤ n (pos 0) ≡ false → pos 0 ≤ℤ n
nonneg n h = ground arith

own_active :
    (t seen own : Bool) → seen ≡ (own || false) → (not t && not seen) ≡ false → (t || own) ≡ true
own_active t seen own e h = ground arith

module _ (c : Config) where
  abbrev start : SeenPools → Owned
  start seen = record { members = []; owner = seen.owner }

  pool_step→ :
      (seen : SeenPools) (p : SubscriptionPool)
      → (pool_step c seen p).0 ≡ []
      → PoolOk c p × IsFresh seen p
  unfolding pool_step
  pool_step→ seen p h =
      let o = collect (member_step c p) (start seen) p.members in
      let (no_id, no_name, no_mode, negative, bad_members, no_members, bad_active) =
        no_problems (is_blank p.id || contains seen.pool_ids p.id) (is_blank p.name)
          (not (is_mode (normalized_subscription_pool_mode p.mode)))
          (ltb_ℤ p.refresh_interval (pos 0)) o.0 (p.enabled && is_empty p.members)
          (not (p.active_member_id == "") && not (contains o.1.members p.active_member_id)) _ _ _ _
          _ _ h in
      let (members, distinct) = members→ c p (start seen) p.members bad_members in
      let last = final_members c p (start seen) p.members p.active_member_id in
      (
        record {
          has_id = (or-eq-false _ _ no_id).0;
          has_name = no_name;
          has_mode = not-eq-false _ no_mode;
          interval = nonneg p.refresh_interval negative;
          members_known = All-imp (λ id k. k.known) p.members members;
          members_distinct = distinct;
          enabled_has_members = no_members;
          active_is_member =
              own_active (p.active_member_id == "") (contains o.1.members p.active_member_id)
                (contains p.members p.active_member_id) last bad_active;
        },
        ((or-eq-false _ _ no_id).1, All-imp (λ id k. k.unowned) p.members members),
      )

  pool_step← :
      (seen : SeenPools) (p : SubscriptionPool)
      → PoolOk c p
      → IsFresh seen p
      → (pool_step c seen p).0 ≡ []
  unfolding pool_step
  pool_step← seen p k f =
      let clean =
        members← c p (start seen) p.members (All-and ok p.members k.members_known f.1)
          k.members_distinct in
      let last = final_members c p (start seen) p.members p.active_member_id in
      ground (arith, clean, last)
    where
      ok :
          (id : String)
          → is_missing (find_subscription_by_id c id) ≡ false
          → find_value id seen.owner ≡ none
          → MemberOk c (start seen) id
      ok id known unowned = record { unseen = refl; known = known; unowned = unowned }

  fresh→ :
      (seen : SeenPools) (p q : SubscriptionPool)
      → IsFresh (pool_step c seen p).1 q
      → IsFresh seen q × IsApart p q
  unfolding pool_step
  fresh→ seen p q f =
      let owners =
        All-imp (λ id e. (final_owner c p (start seen) p.members id).0 e) q.members f.1 in
      (
        (ground arith, All-imp (λ id e. e.0) q.members owners),
        (ground arith, All-imp (λ id e. e.1) q.members owners),
      )

  fresh← :
      (seen : SeenPools) (p q : SubscriptionPool)
      → IsFresh seen q
      → IsApart p q
      → IsFresh (pool_step c seen p).1 q
  unfolding pool_step
  fresh← seen p q f a = (
    ground arith,
    All-and (λ id e g. (final_owner c p (start seen) p.members id).1 (e, g)) q.members f.1 a.1,
  )

  pools→ :
      (seen : SeenPools) (ps : List SubscriptionPool)
      → (collect (pool_step c) seen ps).0 ≡ []
      → PoolsOk c ps × All (IsFresh seen) ps
  pools→ seen [] h = (record { each = tt; apart = tt }, tt)
  pools→ seen (p ∷ ps) h =
      let (here, there) = collect-eq-nil (pool_step c) seen p ps h in
      let (ok, fresh) = pool_step→ seen p here in
      let (oks, freshes) = pools→ (pool_step c seen p).1 ps there in
      let both = All-imp (λ q f. fresh→ seen p q f) ps freshes in
      (
        record { each = (ok, oks.each); apart = (All-imp (λ q f. f.1) ps both, oks.apart) },
        (fresh, All-imp (λ q f. f.0) ps both),
      )

  pools← :
      (seen : SeenPools) (ps : List SubscriptionPool)
      → All (PoolOk c) ps
      → AreApart ps
      → All (IsFresh seen) ps
      → (collect (pool_step c) seen ps).0 ≡ []
  pools← seen [] k a f = refl
  pools← seen (p ∷ ps) k a f =
      let rest =
        pools← (pool_step c seen p).1 ps k.1 a.1
          (All-and (λ q fresh apart. fresh← seen p q fresh apart) ps f.1 a.0) in
      ground (arith, rest, pool_step← seen p k.0 f.0)

-- The validator accepts the pools exactly when each is well formed and no two share an ID or a
-- member.
pub validate_pools_iff : (c : Config) → (validate_pools c ≡ []) ↔ PoolsOk c c.subscription_pools
unfolding validate_pools
validate_pools_iff c = (
  λ h. (pools→ c _ c.subscription_pools h).0,
  λ k.
      pools← c _ c.subscription_pools k.each k.apart
        (All-const (λ p. (refl, All-const (λ id. refl) p.members)) c.subscription_pools),
)
