-- ===== src/Subscription/Refresh.antt =====
-- Refreshing a subscription: the update functions of `refreshSubscription` and
-- `failoverSubscription` in mihomotui/daemon_handlers_subscription.go, and the choice of the due
-- subscriptions in mihomotui/subscription_scheduler.go. `has_cache` is `hasSubscriptionCache`.
pub mod Failover
pub mod Liveness
pub mod Settled
use mihomo_loongnix.Prelude.{
  ℕ, ◌+◌, String, Bool, true, false, not, ◌&&◌, ◌||◌, List, [], ◌∷◌, Option, none, some, any,
  if◌then◌else◌, ◌==◌, string_eq, nat_eq, get_elem?, ltb, leb,
}
use mihomo_loongnix.Prelude.Int.{ℤ, pos, int_eq, ltb_ℤ}
use mihomo_loongnix.Prelude.Lines.{◌^◌, contains_lower}
use mihomo_loongnix.Prelude.Text.{trim_space, contains_text}
use mihomo_loongnix.Config.Types.{
  Config, SubscriptionMeta, SubscriptionPool, source_url, mode_failover,
}
use mihomo_loongnix.Config.Lookup.{find_subscription_by_id, normalized_subscription_pool_mode}
use mihomo_loongnix.Config.Store.{Result, ok, err}
use mihomo_loongnix.Subscription.Metadata.{FetchResult, apply_subscription_fetch_metadata}
use mihomo_loongnix.Subscription.{Refusal, deleted_meanwhile, cache_failed, update_at}

-- What a fetch came back with: an error's text, or a result whose content was cached (the file and
-- its digest) or could not be.
pub data Fetch : Type 0 where
  fetch_failed : String → Fetch
  uncached : Fetch
  fetched : (cache_file digest : String) → FetchResult → Fetch

unfoldable pub note_failure : (now text : String) → SubscriptionMeta → SubscriptionMeta
note_failure now text s = record s {
  last_checked_at = now;
  failure_count = s.failure_count + 1;
  last_error = text;
  last_failure_at = now;
}

unfoldable pub note_success :
    (String → Option String)
    → (now cache_file digest : String) → FetchResult
    → SubscriptionMeta
    → SubscriptionMeta
unfolding apply_subscription_fetch_metadata
note_success find_date now cache_file digest r s =
    apply_subscription_fetch_metadata find_date r (record s {
      last_checked_at = now;
      cache_file = cache_file;
      content_sha256 = digest;
      updated_at = now;
      last_success_at = now;
      last_error = "";
      last_failure_at = "";
      failure_count = 0;
    })

abbrev pub with_subscriptions : Config → List SubscriptionMeta → Config
with_subscriptions c subs = record c { subscriptions = subs }

-- The update function of a refresh of the subscription `sub`.
unfoldable pub record_fetch :
    (String → Option String) → String → SubscriptionMeta → Fetch → Config → Result Refusal Config
record_fetch find_date now sub fetch c = elim (find_subscription_by_id c sub.id) [
  | none ↦ err (deleted_meanwhile sub.name)
  | some i ↦ elim fetch [
    | fetch_failed text ↦
        ok (with_subscriptions c (update_at (note_failure now text) c.subscriptions i))
    | uncached ↦ err (cache_failed sub.id)
    | fetched file digest r ↦ ok (
        with_subscriptions c
          (update_at (note_success find_date now file digest r) c.subscriptions i))
  ]
]

-- Whether a refreshed subscription is the active member of an enabled pool, and is applied.
unfoldable pub is_active_member : String → Config → Bool
is_active_member id c = any (λ p. p.active_member_id == id && p.enabled) c.subscription_pools

abbrev pub failure_threshold : ℕ
failure_threshold = 3

-- The subscription with an ID, put to a test.
abbrev pub test_of : (SubscriptionMeta → Bool) → Config → String → Bool
test_of p c id = elim (find_subscription_by_id c id) [
  | none ↦ false
  | some i ↦ elim (get_elem? c.subscriptions i) [ none ↦ false | some s ↦ p s ]
]

-- The first member that passes a test.
abbrev pub first_such : (String → Bool) → List String → Option String
first_such p [] = none
first_such p (m ∷ ms) = let rest = first_such p ms in if p m then some m else rest

unfoldable pub is_healthy : (SubscriptionMeta → Bool) → String → Config → String → Bool
is_healthy has_cache failed_id c m =
    not (m == failed_id) && test_of (λ s. has_cache s && ltb s.failure_count failure_threshold) c m

unfoldable pub is_failing : String → Config → SubscriptionPool → Bool
is_failing failed_id c pool =
    normalized_subscription_pool_mode pool.mode == mode_failover
    && pool.enabled
    && pool.active_member_id == failed_id
    && test_of (λ s. leb failure_threshold s.failure_count) c failed_id

abbrev pub switched_to : (now cause m : String) → SubscriptionPool → SubscriptionPool
switched_to now cause m pool = record pool {
  active_member_id = m;
  degraded = false;
  last_switch_at = now;
  last_switch_reason = cause;
}

abbrev pub degraded_pool : (now cause : String) → SubscriptionPool → SubscriptionPool
degraded_pool now cause pool = record pool {
  degraded = true;
  last_switch_at = now;
  last_switch_reason = "所有订阅源不可用: " ^ cause;
}

module _ (has_cache : SubscriptionMeta → Bool) (now cause failed_id : String) where
  -- One round of the loop over the pools; `switched` is kept from pool to pool.
  unfoldable pub failover_pool : Config → Bool → SubscriptionPool → SubscriptionPool × Bool
  failover_pool c switched pool =
      if not (is_failing failed_id c pool)
      then (pool, switched)
      else elim (first_such (is_healthy has_cache failed_id c) pool.members) [
        | some m ↦ (switched_to now cause m pool, true)
        | none ↦ if switched then (pool, true) else (degraded_pool now cause pool, false)
      ]

  unfoldable pub failover_pools :
      Config → Bool → List SubscriptionPool → List SubscriptionPool × Bool
  failover_pools c switched [] = ([], switched)
  failover_pools c switched (p ∷ ps) =
      let (p', s) = failover_pool c switched p in
      let (ps', s') = failover_pools c s ps in (p' ∷ ps', s')

  -- The update function of `failoverSubscription`.
  unfoldable pub failover_subscription : Config → Config
  unfolding failover_pools
  failover_subscription c = record c {
    subscription_pools = (failover_pools c false c.subscription_pools).0;
  }

-- What follows the record of a failed refresh; where it was refused, nothing.
abbrev pub then_failover :
    (SubscriptionMeta → Bool) → (now cause id : String) → Config → Result Refusal Config → Config
then_failover has_cache now cause id c (err e) = c
then_failover has_cache now cause id c (ok next) = failover_subscription has_cache now cause id next

-- A refresh of `sub`, which has a remote address, that fails with `error`, and the failover after
-- it, which records `cause`, the error without its address.
unfoldable pub failed_refresh :
    (SubscriptionMeta → Bool) → (now error cause : String) → SubscriptionMeta → Config → Config
unfolding record_fetch
failed_refresh has_cache now error cause sub c =
    then_failover has_cache now cause sub.id c
      (record_fetch (λ value. none) now sub (fetch_failed error) c)
