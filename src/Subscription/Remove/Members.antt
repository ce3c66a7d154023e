-- ===== src/Subscription/Remove/Members.antt =====
-- What the removal of a subscription leaves of lists, of members and of one pool.
use mihomo_loongnix.Config.Validate.Subscriptions.Exact.{IsOther, AreOther}
use mihomo_loongnix.Prelude.Int.{pos, ◌<ℤ◌, ◌≤ℤ◌, negsuc, ℤ}
use mihomo_loongnix.Config.Validate.Pools.{is_empty, is_missing}
use mihomo_loongnix.Subscription.{first_member, drop_member, active_after_removal}
use mihomo_loongnix.Prelude.{
  some, inr, inl, Bool-cases, ◌&&◌, ◌||◌, ◌⊎◌, refl, zero, [], All-keep, if◌then◌else◌, arith, suc,
  string_eq, some, ◌==◌, ◌<◌, false, any, remove_at, true, not, ◌≡◌, All, get_elem?, find_index,
  ◌∷◌, contains, keep, IsDistinct, ℕ, List, Bool, String,
}
use mihomo_loongnix.Config.Types.{SubscriptionMeta, SubscriptionPool}

module _ {ℓ κ} {A : Type ℓ} (P : A → Type κ) where
  pub All-remove_at : (xs : List A) (i : ℕ) → All P xs → All P (remove_at xs i)
  All-remove_at [] i h = tt
  All-remove_at (x ∷ xs) zero h = h.1
  All-remove_at (x ∷ xs) (suc i) h = (h.0, All-remove_at xs i h.1)

pub AreOther-remove_at :
    (ss : List SubscriptionMeta) (i : ℕ) → AreOther ss → AreOther (remove_at ss i)
AreOther-remove_at [] i h = tt
AreOther-remove_at (s ∷ ss) zero h = h.1
AreOther-remove_at (s ∷ ss) (suc i) h =
    (All-remove_at (IsOther s) ss i h.0, AreOther-remove_at ss i h.1)

-- The new active index is in range.
pub active-in_range :
    (n i : ℕ) (a : ℤ)
    → i < suc n
    → negsuc 0 ≤ℤ a
    → a <ℤ pos (suc n)
    → (negsuc 0 ≤ℤ active_after_removal n i a) × (active_after_removal n i a <ℤ pos n ⊎ (n ≡ 0))
unfolding active_after_removal
active-in_range n i a h l u = ground arith

pub is_missing-find_index :
    {A : Type 0} (p : A → Bool) (xs : List A) → is_missing (find_index p xs) ≡ not (any p xs)
is_missing-find_index p [] = refl
is_missing-find_index p (x ∷ xs) = ground (arith, is_missing-find_index p xs)

pub any-remove_at :
    {A : Type 0} (p : A → Bool) (xs : List A) (i : ℕ) (x : A)
    → get_elem? xs i ≡ some x
    → p x ≡ false
    → any p (remove_at xs i) ≡ any p xs
any-remove_at p [] i x g h = refl
any-remove_at p (y ∷ xs) zero x g h = ground arith
any-remove_at p (y ∷ xs) (suc i) x g h = ground (arith, any-remove_at p xs i x g h)

module _ (removed : String) where
  abbrev pub others : List String → List String
  others ms = keep (λ m. not (m == removed)) ms

  pub contains-others :
      (ms : List String) (x : String) → contains ms x ≡ false → contains (others ms) x ≡ false
  contains-others [] x h = refl
  contains-others (m ∷ ms) x h = ground (arith, contains-others ms x)

  pub others-contains :
      (ms : List String) (x : String)
      → contains ms x ≡ true
      → (x == removed) ≡ false
      → contains (others ms) x ≡ true
  others-contains [] x h n = cc
  others-contains (m ∷ ms) x h n = ground (arith, others-contains ms x, string_eq.beq_iff x m)

  pub IsDistinct-others : (ms : List String) → IsDistinct ms → IsDistinct (others ms)
  IsDistinct-others [] h = tt
  IsDistinct-others (m ∷ ms) h =
      elim (m == removed) as (λ b. IsDistinct (if not b then m ∷ others ms else others ms)) [
        | true ↦ IsDistinct-others ms h.1
        | false ↦ (
          All-keep (λ y. (y == m) ≡ false) (λ y. not (y == removed)) ms h.0,
          IsDistinct-others ms h.1,
        )
      ]

pub All-kept {ℓ} : {A : Type ℓ} (p : A → Bool) (xs : List A) → All (λ x. p x ≡ true) (keep p xs)
All-kept p [] = tt
All-kept p (x ∷ xs) = elim (Bool-cases (p x)) [
  | inl e ↦ rw e (e, All-kept p xs)
  | inr e ↦ rw e (All-kept p xs)
]

module _ (now removed : String) (p : SubscriptionPool) where
  pub drop_fields :
      ((drop_member now removed p).id ≡ p.id)
      × ((drop_member now removed p).name ≡ p.name)
      × ((drop_member now removed p).mode ≡ p.mode)
      × ((drop_member now removed p).refresh_interval ≡ p.refresh_interval)
      × ((drop_member now removed p).members ≡ others removed p.members)
      × ((drop_member now removed p).active_member_id ≡ (
          if p.active_member_id == removed
          then first_member (others removed p.members)
          else p.active_member_id))
  unfolding drop_member
  drop_fields = (ground arith, ground arith, ground arith, ground arith, ground arith, ground arith)

  pub drop_enabled :
      (p.enabled && is_empty p.members) ≡ false
      → ((drop_member now removed p).enabled && is_empty (others removed p.members)) ≡ false
  unfolding drop_member
  drop_enabled h = ground arith

pub first_member_ok :
    (ms : List String) → (first_member ms == "" || contains ms (first_member ms)) ≡ true
first_member_ok [] = refl
first_member_ok (m ∷ ms) = ground (arith, string_eq.beq_iff m m)

pub active_ok :
    (removed active : String) (ms : List String)
    → (active == "" || contains ms active) ≡ true
    → let a = if active == removed then first_member (others removed ms) else active in
      (a == "" || contains (others removed ms) a) ≡ true
active_ok removed active ms h = elim (Bool-cases (active == removed)) [
  | inl e ↦ rw e (first_member_ok (others removed ms))
  | inr e ↦ rw e (kept e)
]
  where
    kept :
        (active == removed) ≡ false → (active == "" || contains (others removed ms) active) ≡ true
    kept e = ground (arith, others-contains removed ms active)
