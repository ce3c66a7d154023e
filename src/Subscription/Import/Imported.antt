-- ===== src/Subscription/Import/Imported.antt =====
-- What an import leaves in the configuration.
use mihomo_loongnix.Prelude.{
  ℕ, zero, suc, ◌≡◌, refl, ap, subst, inl, inr, String, Bool, true, false, ◌||◌, List, [], ◌∷◌,
  ◌++◌, Option, some, string_eq, length, contains, get_elem?, set, Option-cases, arith, if-intro,
  ==-refl,
}
use mihomo_loongnix.Prelude.Int.{pos}
use mihomo_loongnix.Config.Types.{Config, SubscriptionMeta, SubscriptionPool}
use mihomo_loongnix.Config.Store.{ok}
use mihomo_loongnix.Subscription.Import.{
  ImportLib, import_subscription, import_target, imported_meta, with_import, join_pool,
  ensure_default_pool, unique_subscription_name,
}
use mihomo_loongnix.Subscription.Metadata.{FetchResult, apply_subscription_fetch_metadata}

get-set :
    {A : Type 0} (xs : List A) (i : ℕ) (x y : A)
    → get_elem? xs i ≡ some x
    → get_elem? (set xs i y) i ≡ some y
get-set [] i x y h = absurd cc
get-set (z ∷ xs) zero x y h = refl
get-set (z ∷ xs) (suc i) x y h = get-set xs i x y h

get-append : {A : Type 0} (xs : List A) (y : A) → get_elem? (xs ++ y ∷ []) (length xs) ≡ some y
get-append [] y = refl
get-append (x ∷ xs) y = get-append xs y

contains-last : (ms : List String) (m : String) → contains (ms ++ m ∷ []) m ≡ true
contains-last [] m = ap (λ b. b || false) (==-refl m)
contains-last (n ∷ ms) m = ground (arith, contains-last ms m)

-- The imported subscription is the active one, and a member of the first pool.
abbrev pub IsImported : String → Config → Type 0
IsImported source c =
    (i : ℕ) × (s : SubscriptionMeta) × (p : SubscriptionPool) × (c.active_subscription ≡ pos i)
    × (get_elem? c.subscriptions i ≡ some s)
    × (s.url ≡ source)
    × (get_elem? c.subscription_pools 0 ≡ some p)
    × (contains p.members s.id ≡ true)

join_pool-contains :
    (id : String) (p : SubscriptionPool) → contains (join_pool id p).members id ≡ true
unfolding join_pool
join_pool-contains id p =
    if-intro (λ ms. contains ms id ≡ true) (contains p.members id) (λ e. e)
      (λ _. contains-last p.members id)

with_import-IsImported :
    (pool_id source : String) (subs : List SubscriptionMeta) (i : ℕ) (s : SubscriptionMeta)
    (c : Config)
    → get_elem? subs i ≡ some s
    → s.url ≡ source
    → IsImported source (with_import pool_id s.id subs i c)
unfolding ensure_default_pool
with_import-IsImported pool_id source subs i s c at url = go c.subscription_pools
  where
    go :
        (ps : List SubscriptionPool)
        → IsImported source (with_import pool_id s.id subs i (record c { subscription_pools = ps }))
    go [] = (i, s, _, refl, at, url, refl, join_pool-contains s.id _)
    go (p ∷ ps) = (i, s, _, refl, at, url, refl, join_pool-contains s.id p)

module _ (lib : ImportLib) where
  -- An import that succeeds leaves a subscription with the given source, which is the active one
  -- and a member of the first pool.
  pub import_subscription-IsImported :
      (now new_id pool_id requested source source_type : String)
      (cache : String → Option (String × String)) (local : Bool) (r : FetchResult) (c c' : Config)
      → import_subscription lib now new_id pool_id requested source source_type cache local r c
        ≡ ok c'
      → IsImported source c'
  unfolding import_subscription imported_meta apply_subscription_fetch_metadata
  import_subscription-IsImported now new_id pool_id requested source source_type cache local r c c'
        h =
      elim (Option-cases (import_target requested source source_type c)) [
        | inr (i, e) ↦ elim (Option-cases (get_elem? c.subscriptions i)) [
          | inl n ↦ absurd (ground arith)
          | inr (s, k) ↦ elim (Option-cases (cache s.id)) [
            | inl n ↦ absurd (ground arith)
            | inr ((file, digest), m) ↦
                let meta =
                  imported_meta lib now s.id s.name source source_type file digest local r in
                let q : with_import pool_id s.id (set c.subscriptions i meta) i c ≡ c' =
                  ground arith in
                subst (IsImported source) q (
                  with_import-IsImported pool_id source (set c.subscriptions i meta) i meta c
                    (get-set c.subscriptions i s meta k) refl)
          ]
        ]
        | inl e ↦ elim (Option-cases (unique_subscription_name lib requested source c)) [
          | inl n ↦ absurd (ground arith)
          | inr (name, k) ↦ elim (Option-cases (cache new_id)) [
            | inl n ↦ absurd (ground arith)
            | inr ((file, digest), m) ↦
                let meta =
                  imported_meta lib now new_id name source source_type file digest local r in
                let q : with_import pool_id new_id (c.subscriptions ++ meta ∷ [])
                      (length c.subscriptions) c
                    ≡ c' =
                  ground arith in
                subst (IsImported source) q (
                  with_import-IsImported pool_id source (c.subscriptions ++ meta ∷ [])
                    (length c.subscriptions) meta c (get-append c.subscriptions meta) refl)
          ]
        ]
      ]
