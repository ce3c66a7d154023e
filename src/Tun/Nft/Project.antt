-- ===== src/Tun/Nft/Project.antt =====
-- What is read off a ruleset in mihomotui/tun_routing_linux.go belongs to the project.
use mihomo_loongnix.Prelude.{
  suc, arith, ◌≡◌, refl, Bool, true, false, not, ◌&&◌, ◌||◌, String, List, [], ◌∷◌, Option, none,
  some, if◌then◌else◌, ◌==◌, string_eq, All, All-imp, IsIn, ltb, if-intro, ℕ,
}
use mihomo_loongnix.Tun.{
  Json, Items, Fields, atom, text, array, object, no_item, item, no_field, field, ChainLocation,
  NftObject, NftJsonRule,
}
use mihomo_loongnix.Tun.Nft.{
  NftRuleReference, is_tun_project_chain, find_tun_project_target, find_in_fields, find_in_items,
  first_target, project_chains, project_rules, or_else, target_field, jump_target, without_repeats,
  occurs,
}

-- A `target` that names a project chain.
pub data HasTarget : Fields → Type 0 where
  this_field :
      (k t : String) (r : Fields)
      → (k == "target") ≡ true
      → is_tun_project_chain t ≡ true
      → HasTarget (field k (text t) r)
  later_field : (k : String) (v : Json) (r : Fields) → HasTarget r → HasTarget (field k v r)

-- A JSON value with a `jump` or a `goto`, at any depth, whose target is a project chain.
mutual
  pub data HasJump : Json → Type 0 where
    in_object : (fs : Fields) → HasJumpField fs → HasJump (object fs)
    in_array : (is : Items) → HasJumpItem is → HasJump (array is)

  pub data HasJumpField : Fields → Type 0 where
    jumps :
        (k : String) (fs r : Fields)
        → (k == "jump" || k == "goto") ≡ true
        → HasTarget fs
        → HasJumpField (field k (object fs) r)
    inside : (k : String) (v : Json) (r : Fields) → HasJump v → HasJumpField (field k v r)
    further : (k : String) (v : Json) (r : Fields) → HasJumpField r → HasJumpField (field k v r)

  pub data HasJumpItem : Items → Type 0 where
    this_item : (v : Json) (r : Items) → HasJump v → HasJumpItem (item v r)
    later_item : (v : Json) (r : Items) → HasJumpItem r → HasJumpItem (item v r)

-- The rule with a location and a handle is in the ruleset, and one of its expressions jumps to a
-- project chain.
abbrev pub JumpsToProject : List NftObject → ChainLocation → ℕ → Type 0
JumpsToProject os location handle =
    (o : NftObject) × (j : NftJsonRule) × (e : Json) × IsIn o os
    × (o.as_rule ≡ some j)
    × (j.location ≡ location)
    × (j.handle ≡ handle)
    × IsIn e j.expr
    × HasJump e

-- A text that is not empty shows a fact.
abbrev Shows : String → Type 0 → Type 0
Shows t R = (t == "") ≡ false → R

or_else-Shows : (a b : String) (R : Type 0) → Shows a R → Shows b R → Shows (or_else a b) R
or_else-Shows a b R p q = if-intro (λ x. Shows x R) (a == "") (λ _. q) (λ _. p)

target_field-Shows : (fs : Fields) → Shows (target_field fs) (HasTarget fs)
target_field-Shows no_field = λ h. absurd cc
target_field-Shows (field k (text t) r) =
    if-intro (λ x. Shows x (HasTarget (field k (text t) r))) (k == "target")
      (λ e.
        if-intro (λ x. Shows x (HasTarget (field k (text t) r))) (is_tun_project_chain t)
          (λ p _. this_field k t r e p) (λ _ h. absurd cc))
      (λ _ h. later_field k (text t) r (target_field-Shows r h))
target_field-Shows (field k atom r) =
    if-intro (λ x. Shows x (HasTarget (field k atom r))) (k == "target") (λ _ h. absurd cc)
      (λ _ h. later_field k atom r (target_field-Shows r h))
target_field-Shows (field k (array is) r) =
    if-intro (λ x. Shows x (HasTarget (field k (array is) r))) (k == "target") (λ _ h. absurd cc)
      (λ _ h. later_field k (array is) r (target_field-Shows r h))
target_field-Shows (field k (object fs) r) =
    if-intro (λ x. Shows x (HasTarget (field k (object fs) r))) (k == "target") (λ _ h. absurd cc)
      (λ _ h. later_field k (object fs) r (target_field-Shows r h))

jump_target-Shows :
    (k : String) (v : Json) (r : Fields) → Shows (jump_target k v) (HasJumpField (field k v r))
jump_target-Shows k (object fs) r =
    if-intro (λ x. Shows x (HasJumpField (field k (object fs) r))) (k == "jump" || k == "goto")
      (λ e h. jumps k fs r e (target_field-Shows fs h)) (λ _ h. absurd cc)
jump_target-Shows k atom r = λ h. absurd cc
jump_target-Shows k (text t) r = λ h. absurd cc
jump_target-Shows k (array is) r = λ h. absurd cc

mutual
  unfolding find_tun_project_target

  find-Shows : (v : Json) → Shows (find_tun_project_target v) (HasJump v)
  find-Shows (object fs) h = in_object fs (find_fields-Shows fs h)
  find-Shows (array is) h = in_array is (find_items-Shows is h)
  find-Shows (text t) h = absurd cc
  find-Shows atom h = absurd cc

  find_fields-Shows : (fs : Fields) → Shows (find_in_fields fs) (HasJumpField fs)
  find_fields-Shows no_field = λ h. absurd cc
  find_fields-Shows (field k v r) =
      or_else-Shows _ _ (HasJumpField (field k v r))
        (or_else-Shows _ _ (HasJumpField (field k v r)) (jump_target-Shows k v r)
          (λ h. inside k v r (find-Shows v h)))
        (λ h. further k v r (find_fields-Shows r h))

  find_items-Shows : (is : Items) → Shows (find_in_items is) (HasJumpItem is)
  find_items-Shows no_item = λ h. absurd cc
  find_items-Shows (item v r) =
      or_else-Shows _ _ (HasJumpItem (item v r)) (λ h. this_item v r (find-Shows v h))
        (λ h. later_item v r (find_items-Shows r h))

abbrev SomeJumps : List Json → Type 0
SomeJumps es = (e : Json) × IsIn e es × HasJump e

first_target-Shows : (es : List Json) → Shows (first_target es) (SomeJumps es)
unfolding first_target
first_target-Shows [] = λ h. absurd cc
first_target-Shows (e ∷ es) =
    or_else-Shows _ _ (SomeJumps (e ∷ es)) (λ h. (e, (0, refl), find-Shows e h))
      λ h. let (e', (n, at), k) = first_target-Shows es h in (e', (suc n, at), k)

abbrev pub IsProjectChain : ChainLocation → Type 0
IsProjectChain c = is_tun_project_chain c.chain ≡ true

abbrev pub IsProjectRule : List NftObject → NftRuleReference → Type 0
IsProjectRule os r = JumpsToProject os r.location r.handle

pub project_chains-All : (os : List NftObject) → All IsProjectChain (project_chains os)
project_chains-All [] = tt
project_chains-All (o ∷ os) = go o.as_chain _ (project_chains-All os)
  where
    go :
        (c : Option ChainLocation) (rest : List ChainLocation)
        → All IsProjectChain rest
        → All IsProjectChain (elim c [
          | none ↦ rest
          | some c ↦ if is_tun_project_chain c.chain then c ∷ rest else rest
        ])
    go none rest k = k
    go (some c) rest k =
        if-intro (All IsProjectChain) (is_tun_project_chain c.chain) (λ e. (e, k)) (λ _. k)

one_more :
    (o : NftObject) (os : List NftObject) (r : NftRuleReference)
    → IsProjectRule os r
    → IsProjectRule (o ∷ os) r
one_more o os r (o', j, e, (n, at), q, l, h, i, k) = (o', j, e, (suc n, at), q, l, h, i, k)

pub project_rules-All : (os : List NftObject) → All (IsProjectRule os) (project_rules os)
project_rules-All [] = tt
project_rules-All (o ∷ os) =
    go o.as_rule refl _ (All-imp (one_more o os) (project_rules os) (project_rules-All os))
  where
    go :
        (r : Option NftJsonRule)
        → o.as_rule ≡ r
        → (rest : List NftRuleReference) → All (IsProjectRule (o ∷ os)) rest
        → All (IsProjectRule (o ∷ os)) (elim r [
          | none ↦ rest
          | some r ↦
              if not (first_target r.expr == "") && ltb 0 r.handle
              then record { location = r.location; handle = r.handle; target = first_target r.expr }
                ∷ rest
              else rest
        ])
    go none q rest k = k
    go (some r) q rest k =
        if-intro (All (IsProjectRule (o ∷ os))) (not (first_target r.expr == "") && ltb 0 r.handle)
          (λ e.
            let (x, at, jump) = first_target-Shows r.expr (ground arith) in
            ((o, r, x, (0, refl), q, refl, refl, at, jump), k))
          (λ _. k)

pub All-without_repeats :
    {A : Type 0} (P : A → Type 0) (same : A → A → Bool) (seen xs : List A)
    → All P xs
    → All P (without_repeats same seen xs)
All-without_repeats P same seen [] k = tt
All-without_repeats P same seen (x ∷ xs) (p, k) =
    if-intro (All P) (occurs same x seen) (λ _. All-without_repeats P same seen xs k)
      (λ _. (p, All-without_repeats P same (x ∷ seen) xs k))
