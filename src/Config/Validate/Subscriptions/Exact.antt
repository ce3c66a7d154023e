-- ===== src/Config/Validate/Subscriptions/Exact.antt =====
-- The subscription checks report nothing exactly on well-formed subscriptions.
use mihomo_loongnix.Prelude.Loops.{collect-eq-nil, collect}
use mihomo_loongnix.Prelude.Text.{is_blank}
use mihomo_loongnix.Config.Validate.Subscriptions.{validate_subscriptions, subscription_step, Seen}
use Prim.Native.String.{len}
use mihomo_loongnix.Prelude.{
  All-const, ◌↔◌, refl, All-imp, All-and, ◌+◌, ◌≤◌, String, true, false, List, [], ◌∷◌, none, ◌≡◌,
  ◌==◌, string_eq, find_value, All, contains, arith,
}
use mihomo_loongnix.Config.Types.{
  Config, fetch_system, fetch_local_mihomo, fetch_direct, SubscriptionMeta,
}

abbrev strategies : List String
strategies = "" ∷ fetch_direct ∷ fetch_local_mihomo ∷ fetch_system ∷ []

-- A subscription on its own: a name, an ID, a link, a known fetch strategy, a short user agent.
pub record SubscriptionOk (s : SubscriptionMeta) : Type 0 where
  pub has_name : is_blank s.name ≡ false
  pub has_id : (s.id == "") ≡ false
  pub has_url : is_blank s.url ≡ false
  pub strategy : contains strategies s.fetch_proxy_strategy ≡ true
  pub user_agent : len s.user_agent ≤ 512

abbrev pub IsOther : SubscriptionMeta → SubscriptionMeta → Type 0
IsOther s t = ((t.name == s.name) ≡ false) × ((t.id == s.id) ≡ false)

-- Names and IDs are unique.
abbrev pub AreOther : List SubscriptionMeta → Type 0
AreOther [] = Unit {0}
AreOther (s ∷ ss) = All (IsOther s) ss × AreOther ss

pub record SubscriptionsOk (ss : List SubscriptionMeta) : Type 0 where
  pub each : All SubscriptionOk ss
  pub others : AreOther ss

abbrev IsNew : Seen → SubscriptionMeta → Type 0
IsNew seen s = (find_value s.name seen.names ≡ none) × (find_value s.id seen.ids ≡ none)

-- What a round that reports nothing has found, and the variables that it leaves.
step→ :
    (seen : Seen) (s : SubscriptionMeta)
    → (subscription_step seen s).0 ≡ []
    → SubscriptionOk s
      × IsNew seen s
      × ((subscription_step seen s).1 ≡ record {
        index = seen.index + 1;
        names = (s.name, seen.index) ∷ seen.names;
        ids = (s.id, seen.index) ∷ seen.ids;
      })
unfolding subscription_step
step→ seen s h = ground arith

step← :
    (seen : Seen) (s : SubscriptionMeta)
    → SubscriptionOk s
    → IsNew seen s
    → subscription_step seen s ≡ (
      [],
      record {
        index = seen.index + 1;
        names = (s.name, seen.index) ∷ seen.names;
        ids = (s.id, seen.index) ∷ seen.ids;
      },
    )
unfolding subscription_step
step← seen s k n = ground arith

abbrev after : Seen → SubscriptionMeta → Seen
after seen s = record {
  index = seen.index + 1;
  names = (s.name, seen.index) ∷ seen.names;
  ids = (s.id, seen.index) ∷ seen.ids;
}

new→ : (seen : Seen) (s t : SubscriptionMeta) → IsNew (after seen s) t → IsNew seen t × IsOther s t
new→ seen s t h = ground arith

new← : (seen : Seen) (s t : SubscriptionMeta) → IsNew seen t → IsOther s t → IsNew (after seen s) t
new← seen s t h k = ground arith

loop→ :
    (seen : Seen) (ss : List SubscriptionMeta)
    → (collect subscription_step seen ss).0 ≡ []
    → SubscriptionsOk ss × All (IsNew seen) ss
loop→ seen [] h = (record { each = tt; others = tt }, tt)
loop→ seen (s ∷ ss) h =
    let (here, there) = collect-eq-nil subscription_step seen s ss h in
    let (ok, new, e) = step→ seen s here in
    let (oks, news) = loop→ (after seen s) ss (rw e at there) in
    let both = All-imp (λ t k. new→ seen s t k) ss news in
    (
      record { each = (ok, oks.each); others = (All-imp (λ t k. k.1) ss both, oks.others) },
      (new, All-imp (λ t k. k.0) ss both),
    )

loop← :
    (seen : Seen) (ss : List SubscriptionMeta)
    → All SubscriptionOk ss
    → AreOther ss
    → All (IsNew seen) ss
    → (collect subscription_step seen ss).0 ≡ []
loop← seen [] k o n = refl
loop← seen (s ∷ ss) k o n =
    rw (step← seen s k.0 n.0) (
      loop← (after seen s) ss k.1 o.1 (All-and (λ t new other. new← seen s t new other) ss n.1 o.0))

-- The validator accepts the subscriptions exactly when each is well formed and no two share a
-- name or an ID.
pub validate_subscriptions_iff :
    (c : Config) → (validate_subscriptions c ≡ []) ↔ SubscriptionsOk c.subscriptions
unfolding validate_subscriptions
validate_subscriptions_iff c = (
  λ h. (loop→ _ c.subscriptions h).0,
  λ k. loop← _ c.subscriptions k.each k.others (All-const (λ s. (refl, refl)) c.subscriptions),
)
