-- ===== src/Subscription/Import/Names.antt =====
-- `uniqueSubscriptionName` of mihomotui/daemon_handlers_subscription.go ends, with a free name.
use mihomo_loongnix.Prelude.{
  ==-refl, ℕ, zero, suc, ◌+◌, ◌≤◌, ◌<◌, ◌≡◌, refl, sym, ap, subst, ◌∙◌, ◌⊎◌, inl, inr, String, Bool,
  true, false, ◌||◌, List, [], ◌∷◌, ◌++◌, Option, none, some, if◌then◌else◌, ◌==◌, string_eq,
  length, contains, find_index, All, All-imp, IsDistinct, arith, Bool-cases, Option-cases, ne→==,
  ==→eq, map, length-append, ◌≢◌,
}
use mihomo_loongnix.Prelude.Pigeonhole.{length-IsDistinct}
use mihomo_loongnix.Prelude.Lines.{◌^◌}
use text.Mathlib.TextLemmas.{append_inj}
use mihomo_loongnix.Config.Types.{Config, SubscriptionMeta}
use mihomo_loongnix.Config.Lookup.{
  find_subscription_by_name, find_subscription_by_id, find_subscription_by_identifier,
}
use mihomo_loongnix.Config.Validate.Pools.{is_missing}
use mihomo_loongnix.Subscription.Import.{ImportLib, first_free, unique_subscription_name, base_name}

-- A lookup that finds something found an element of the list of keys.
index-contains :
    {A : Type 0} (key : A → String) (xs : List A) (k : String)
    → is_missing (find_index (λ x. key x == k) xs) ≡ false
    → contains (map key xs) k ≡ true
index-contains key [] k h = absurd cc
index-contains key (x ∷ xs) k h = elim (Bool-cases (key x == k)) [
  | inl t ↦
      ap (λ b. b || contains (map key xs) k)
        (subst (λ y. (k == y) ≡ true) (sym (==→eq (key x) k t)) (==-refl k))
  | inr f ↦ ap (λ b. (k == key x) || b) (index-contains key xs k (later f h)) ∙ or-true (k == key x)
]
  where
    later :
        (key x == k) ≡ false
        → is_missing (find_index (λ x. key x == k) (x ∷ xs)) ≡ false
        → is_missing (find_index (λ x. key x == k) xs) ≡ false
    later f h = ground arith

    or-true : (b : Bool) → (b || true) ≡ true
    or-true b = ground arith

contains-append :
    (xs ys : List String) (k : String) → (contains xs k || contains ys k) ≡ contains (xs ++ ys) k
contains-append [] ys k = refl
contains-append (x ∷ xs) ys k = ground (arith, contains-append xs ys k)

abbrev identifiers : Config → List String
identifiers c = map SubscriptionMeta.id c.subscriptions ++ map SubscriptionMeta.name c.subscriptions

length-map : {A : Type 0} (f : A → String) (xs : List A) → length (map f xs) ≡ length xs
length-map f [] = refl
length-map f (x ∷ xs) = ap suc (length-map f xs)

length-identifiers :
    (c : Config) → length (identifiers c) ≡ length c.subscriptions + length c.subscriptions
length-identifiers c =
    length-append (map SubscriptionMeta.id c.subscriptions)
      (map SubscriptionMeta.name c.subscriptions)
    ∙ ap (λ n. n + length (map SubscriptionMeta.name c.subscriptions))
        (length-map SubscriptionMeta.id c.subscriptions)
    ∙ ap (λ n. length c.subscriptions + n) (length-map SubscriptionMeta.name c.subscriptions)

taken-contains :
    (c : Config) (k : String)
    → is_missing (find_subscription_by_identifier c k) ≡ false
    → contains (identifiers c) k ≡ true
unfolding find_subscription_by_identifier find_subscription_by_name find_subscription_by_id
taken-contains c k h =
    sym (
      contains-append (map SubscriptionMeta.id c.subscriptions)
        (map SubscriptionMeta.name c.subscriptions) k)
    ∙ go (Option-cases (find_subscription_by_id c k))
  where
    go :
        (find_subscription_by_id c k ≡ none) ⊎ ((i : ℕ) × (find_subscription_by_id c k ≡ some i))
        → (contains (map SubscriptionMeta.id c.subscriptions) k
            || contains (map SubscriptionMeta.name c.subscriptions) k)
          ≡ true
    go (inr (i, e)) =
        let found = index-contains SubscriptionMeta.id c.subscriptions k (ap is_missing e) in
        ground arith
    go (inl e) =
        let found = index-contains SubscriptionMeta.name c.subscriptions k (ground arith) in
        ground arith

module _ (lib : ImportLib) where
  abbrev pub IsInjective : Type 0
  IsInjective = (i j : ℕ) → lib.decimal i ≡ lib.decimal j → i ≡ j

  -- The numbered names from `i` on.
  abbrev numbered : String → ℕ → ℕ → List String
  numbered base i zero = []
  numbered base i (suc n) = (base ^ lib.decimal i) ∷ numbered base (i + 1) n

  length-numbered : (base : String) (i n : ℕ) → length (numbered base i n) ≡ n
  length-numbered base i zero = refl
  length-numbered base i (suc n) = ap suc (length-numbered base (i + 1) n)

  later-differs :
      IsInjective
      → (base : String) (i j n : ℕ) → i < j
      → All (λ y. (y == (base ^ lib.decimal i)) ≡ false) (numbered base j n)
  later-differs inj base i j zero h = tt
  later-differs inj base i j (suc n) h = (
    ne→== (base ^ lib.decimal j) (base ^ lib.decimal i)
        (λ q. apart (inj j i ((append_inj {s₁ = base} {s₂ = base} q refl).1))),
    later-differs inj base i (j + 1) n (omega (arith, h)),
  )
    where
      apart : j ≢ i
      apart e = omega (arith, e, h)

  numbered-IsDistinct : IsInjective → (base : String) (i n : ℕ) → IsDistinct (numbered base i n)
  numbered-IsDistinct inj base i zero = tt
  numbered-IsDistinct inj base i (suc n) =
      (later-differs inj base i (i + 1) n (omega arith), numbered-IsDistinct inj base (i + 1) n)

  both :
      (b : Bool) (name : String) (r : Option String)
      → (if b then some name else r) ≡ none
      → (b ≡ false) × (r ≡ none)
  both true name r h = absurd cc
  both false name r h = (refl, h)

  -- When the loop finds nothing, the names that it tried are taken.
  All-taken :
      (fuel : ℕ) (base : String) (i : ℕ) (c : Config) (name : String)
      → first_free lib (suc fuel) base i c name ≡ none
      → (is_missing (find_subscription_by_identifier c name) ≡ false)
        × All (λ k. is_missing (find_subscription_by_identifier c k) ≡ false) (numbered base i fuel)
  unfolding first_free
  All-taken zero base i c name h = ((both _ name _ h).0, tt)
  All-taken (suc fuel) base i c name h =
      let (t, rest) = both _ name _ h in
      (t, All-taken fuel base (i + 1) c (base ^ lib.decimal i) rest)

  found-free :
      (fuel : ℕ) (base : String) (i : ℕ) (c : Config) (name found : String)
      → first_free lib fuel base i c name ≡ some found
      → find_subscription_by_identifier c found ≡ none
  unfolding first_free
  found-free zero base i c name found h = absurd cc
  found-free (suc fuel) base i c name found h =
      elim (Option-cases (find_subscription_by_identifier c name)) [
        | inl e ↦ subst (λ n. find_subscription_by_identifier c n ≡ none) (ground arith) e
        | inr (k, e) ↦ found-free fuel base (i + 1) c (base ^ lib.decimal i) found (ground arith)
      ]

  -- With distinct decimal notations the fuel is enough: there is a name, and no subscription has it
  -- as its name or its ID.
  pub unique_subscription_name-free :
      IsInjective
      → (requested raw_url : String) (c : Config)
      → (name : String) × (unique_subscription_name lib requested raw_url c ≡ some name)
        × (find_subscription_by_identifier c name ≡ none)
  unfolding unique_subscription_name
  unique_subscription_name-free inj requested raw_url c =
      elim (Option-cases (unique_subscription_name lib requested raw_url c)) [
        | inr (name, e) ↦ (
          name,
          e,
          found-free (suc (suc count)) (base_name lib requested raw_url) 2 c
              (base_name lib requested raw_url) name e,
        )
        | inl e ↦ absurd (omega (arith, crowded (base_name lib requested raw_url) e))
      ]
    where
      count : ℕ
      count = length c.subscriptions + length c.subscriptions

      crowded :
          (base : String)
          → first_free lib (suc (suc count)) base 2 c base ≡ none
          → suc count ≤ count
      crowded base e = omega (
        arith,
        length-IsDistinct (numbered base 2 (suc count)) (identifiers c)
            (numbered-IsDistinct inj base 2 (suc count))
            (All-imp (taken-contains c) (numbered base 2 (suc count))
              (All-taken (suc count) base 2 c base e).1),
        length-numbered base 2 (suc count),
        length-identifiers c,
      )
