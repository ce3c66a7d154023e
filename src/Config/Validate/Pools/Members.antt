-- ===== src/Config/Validate/Pools/Members.antt =====
-- The loop over a pool's members: it reports nothing exactly when the members are distinct, known
-- subscriptions that no earlier pool owns.
use mihomo_loongnix.Prelude.{
  String, false, ◌||◌, List, [], ◌∷◌, none, ◌≡◌, refl, ◌↔◌, ◌==◌, string_eq, contains, find_value,
  All, All-imp, All-and, IsDistinct, arith,
}
use mihomo_loongnix.Prelude.Loops.{collect, collect-eq-nil}
use mihomo_loongnix.Config.Types.{Config, SubscriptionPool}
use mihomo_loongnix.Config.Lookup.{find_subscription_by_id}
use mihomo_loongnix.Config.Validate.Pools.{Owned, member_step, is_missing}

pub record MemberOk (c : Config) (o : Owned) (id : String) : Type 0 where
  pub unseen : contains o.members id ≡ false
  pub known : is_missing (find_subscription_by_id c id) ≡ false
  pub unowned : find_value id o.owner ≡ none

module _ (c : Config) (pool : SubscriptionPool) where
  step→MemberOk : (o : Owned) (id : String) → (member_step c pool o id).0 ≡ [] → MemberOk c o id
  unfolding member_step
  step→MemberOk o id h = ground arith

  MemberOk→step : (o : Owned) (id : String) → MemberOk c o id → (member_step c pool o id).0 ≡ []
  unfolding member_step
  MemberOk→step o id h = ground arith

  -- What one round leaves for a later member.
  step-later :
      (o : Owned) (id y : String)
      → MemberOk c o id
      → MemberOk c (member_step c pool o id).1 y
      → MemberOk c o y × ((y == id) ≡ false)
  unfolding member_step
  step-later o id y h k = ground arith

  later-step :
      (o : Owned) (id y : String)
      → MemberOk c o id
      → MemberOk c o y
      → (y == id) ≡ false
      → MemberOk c (member_step c pool o id).1 y
  unfolding member_step
  later-step o id y h k e = ground arith

  pub members→ :
      (o : Owned) (ms : List String)
      → (collect (member_step c pool) o ms).0 ≡ []
      → All (MemberOk c o) ms × IsDistinct ms
  members→ o [] h = (tt, tt)
  members→ o (id ∷ ms) h =
      let (here, there) = collect-eq-nil (member_step c pool) o id ms h in
      let ok = step→MemberOk o id here in
      let (oks, distinct) = members→ (member_step c pool o id).1 ms there in
      let both = All-imp (λ y k. step-later o id y ok k) ms oks in
      ((ok, All-imp (λ y k. k.0) ms both), (All-imp (λ y k. k.1) ms both, distinct))

  pub members← :
      (o : Owned) (ms : List String)
      → All (MemberOk c o) ms
      → IsDistinct ms
      → (collect (member_step c pool) o ms).0 ≡ []
  members← o [] h d = refl
  members← o (id ∷ ms) h d =
      let rest =
        members← (member_step c pool o id).1 ms
          (All-and (λ y k e. later-step o id y h.0 k e) ms h.1 d.0) d.1 in
      ground (arith, rest, MemberOk→step o id h.0)

  -- The loop's final variables, as far as they are looked up.
  pub final_members :
      (o : Owned) (ms : List String) (y : String)
      → contains (collect (member_step c pool) o ms).1.members y
        ≡ (contains ms y || contains o.members y)
  unfolding member_step
  final_members o [] y = refl
  final_members o (id ∷ ms) y = ground (arith, final_members (member_step c pool o id).1 ms y)

  step_owner :
      (o : Owned) (id y : String)
      → (find_value y (member_step c pool o id).1.owner ≡ none)
        ↔ ((find_value y o.owner ≡ none) × ((y == id) ≡ false))
  unfolding member_step
  step_owner o id y = ground (arith, string_eq.beq_iff y id)

  pub final_owner :
      (o : Owned) (ms : List String) (y : String)
      → (find_value y (collect (member_step c pool) o ms).1.owner ≡ none)
        ↔ ((find_value y o.owner ≡ none) × (contains ms y ≡ false))
  final_owner o [] y = ground arith
  final_owner o (id ∷ ms) y =
      ground (arith, final_owner (member_step c pool o id).1 ms y, step_owner o id y)
