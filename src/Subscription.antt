-- ===== src/Subscription.antt =====
-- The operations on subscriptions and rule providers of mihomotui/config.go. `now` is
-- `timestampNow()` and `new_id` the next `newSubscriptionID()`.
pub mod Remove
pub mod Metadata
pub mod Refresh
pub mod Import
pub mod Update
use mihomo_loongnix.Config.Lookup.{find_subscription_by_name, find_rule_provider_by_name}
use mihomo_loongnix.Config.Load.{or_default}
use mihomo_loongnix.Prelude.Int.{int_eq, ltb_ℤ, pred_ℤ, leb_ℤ, negsuc, ℤ, pos}
use mihomo_loongnix.Config.Validate.Pools.{is_empty}
use mihomo_loongnix.Config.Store.{ok, err, Result}
use mihomo_loongnix.Prelude.{
  leb, eqb, zero, ℕ, suc, ◌-◌, String, Bool, true, false, not, ◌&&◌, List, [], ◌∷◌, ◌++◌, Option,
  none, some, if◌then◌else◌, ◌==◌, string_eq, length, get_elem?, set, remove_at, keep, map,
}
use mihomo_loongnix.Config.Types.{
  Config, SubscriptionMeta, SubscriptionPool, RuleProviderSubscription,
}

-- What the update functions of the daemon refuse.
pub data Refusal : Type 0 where
  empty_name empty_url empty_pool_name pool_not_found bad_source_change bad_url : Refusal
  not_found name_taken pool_name_taken bad_mode deleted_meanwhile cache_failed : String → Refusal

-- A record whose fields are all zero values, but for those that the literal gives.
abbrev pub new_subscription : String → String → String → SubscriptionMeta
new_subscription id name url = record {
  id = id;
  name = name;
  url = url;
  updated_at = "";
  last_success_at = "";
  last_failure_at = "";
  last_error = "";
  upload_bytes = pos 0;
  download_bytes = pos 0;
  total_bytes = pos 0;
  remaining_bytes = pos 0;
  expire_at = "";
  metadata_available = false;
  metadata_status = "";
  profile_update_interval = pos 0;
  user_agent = "";
  fetch_proxy_strategy = "";
  source_type = "";
  cache_file = "";
  content_sha256 = "";
  failure_count = 0;
  last_checked_at = "";
  use_local_proxy = false;
}

-- `xs[i] = f(xs[i])`.
abbrev pub update_at {ℓ} : {A : Type ℓ} → (A → A) → List A → ℕ → List A
update_at f [] i = []
update_at f (x ∷ xs) zero = f x ∷ xs
update_at f (x ∷ xs) (suc i) = x ∷ update_at f xs i

unfoldable pub add_subscription : String → String → String → Config → Result Refusal Config
add_subscription new_id name url c =
    if name == ""
    then err empty_name
    else ok (record c {
      subscriptions = elim (find_subscription_by_name c name) [
        | some i ↦ update_at (λ s. record s { url = url }) c.subscriptions i
        | none ↦ c.subscriptions ++ new_subscription new_id name url ∷ []
      ];
    })

abbrev pub first_member : List String → String
first_member [] = ""
first_member (m ∷ ms) = m

-- What the removal of a subscription does to a pool.
unfoldable pub drop_member : String → String → SubscriptionPool → SubscriptionPool
drop_member now removed pool =
    let members = keep (λ m. not (m == removed)) pool.members in
    let active =
      if pool.active_member_id == removed then first_member members else pool.active_member_id in
    if is_empty members
    then record pool {
      members = members;
      active_member_id = active;
      enabled = false;
      degraded = true;
      last_switch_at = now;
      last_switch_reason = "订阅池成员已全部删除";
    }
    else record pool { members = members; active_member_id = active }

-- The `switch` on the active index, with `n` subscriptions left after that at `i` was removed.
unfoldable pub active_after_removal : ℕ → ℕ → ℤ → ℤ
active_after_removal n i active =
    if eqb n 0
    then negsuc 0
    else if active == pos i
    then if leb n i then pred_ℤ (pos n) else pos i
    else if ltb_ℤ (pos i) active
    then pred_ℤ active
    else if leb_ℤ (pos n) active
    then pred_ℤ (pos n)
    else active

unfoldable pub remove_subscription_at : String → ℕ → SubscriptionMeta → Config → Config
remove_subscription_at now i s c =
    let rest = remove_at c.subscriptions i in
    record c {
      subscription_pools = map (drop_member now s.id) c.subscription_pools;
      subscriptions = rest;
      active_subscription = active_after_removal (length rest) i c.active_subscription;
    }

unfoldable pub remove_subscription : String → String → Config → Result Refusal Config
remove_subscription now name c = elim (find_subscription_by_name c name) [
  | none ↦ err (not_found name)
  | some i ↦ elim (get_elem? c.subscriptions i) [
    | none ↦ err (not_found name)
    | some s ↦ ok (remove_subscription_at now i s c)
  ]
]

unfoldable pub set_active_subscription : String → Config → Result Refusal Config
set_active_subscription name c = elim (find_subscription_by_name c name) [
  | none ↦ err (not_found name)
  | some i ↦ ok (record c { active_subscription = pos i })
]

unfoldable pub add_rule_provider :
    (now name url behavior format proxy_group : String) → ℤ → Config → Result Refusal Config
add_rule_provider now name url behavior format proxy_group interval c =
    if name == ""
    then err empty_name
    else if url == ""
    then err empty_url
    else ok (record c {
      rule_provider_subscriptions = elim (find_rule_provider_by_name c name) [
        | some i ↦ update_at filled c.rule_provider_subscriptions i
        | none ↦ c.rule_provider_subscriptions ++ filled blank ∷ []
      ];
    })
  where
    filled : RuleProviderSubscription → RuleProviderSubscription
    filled r = record r {
      url = url;
      behavior = or_default behavior "classical";
      format = or_default format "yaml";
      proxy_group = or_default proxy_group "Auto";
      interval = if leb_ℤ interval (pos 0) then pos 86400 else interval;
      updated_at = now;
    }

    blank : RuleProviderSubscription
    blank = record {
      name = name;
      url = "";
      behavior = "";
      format = "";
      interval = pos 0;
      proxy_group = "";
      updated_at = "";
      last_success_at = "";
      last_failure_at = "";
      last_error = "";
    }

unfoldable pub remove_rule_provider : String → Config → Result Refusal Config
remove_rule_provider name c = elim (find_rule_provider_by_name c name) [
  | none ↦ err (not_found name)
  | some i ↦
      ok (record c { rule_provider_subscriptions = remove_at c.rule_provider_subscriptions i })
]
