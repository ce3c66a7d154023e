-- ===== src/Subscription/Update.antt =====
-- The handlers of one subscription in mihomotui/daemon_handlers_subscription.go: the update
-- functions of PATCH, DELETE and apply, and what is due for a refresh in
-- mihomotui/subscription_scheduler.go.
use mihomo_loongnix.Prelude.{
  ℕ, String, Bool, false, not, ◌&&◌, Option, none, some, if◌then◌else◌, ◌==◌, string_eq, nat_eq,
  eqb, get_elem?, any,
}
use mihomo_loongnix.Prelude.Text.{trim_space, is_blank}
use mihomo_loongnix.Config.Types.{Config, SubscriptionMeta, source_url, fetch_local_mihomo}
use mihomo_loongnix.Config.Lookup.{find_subscription_by_name, find_subscription_by_identifier}
use mihomo_loongnix.Config.Store.{Result, ok, err}
use mihomo_loongnix.Subscription.{
  Refusal, not_found, empty_name, name_taken, bad_url, bad_source_change, update_at,
  set_active_subscription, remove_subscription,
}
use mihomo_loongnix.Subscription.Metadata.{normalized_source}

pub record SubscriptionUpdateRequest : Type 0 where
  pub name : String
  pub url : String
  pub use_local_proxy : Bool
  pub user_agent : String
  pub fetch_proxy_strategy : String

abbrev pub is_other : Option ℕ → ℕ → Bool
is_other none i = false
is_other (some j) i = not (eqb j i)

abbrev pub remote_fields : SubscriptionUpdateRequest → SubscriptionMeta → SubscriptionMeta
remote_fields req s = record s {
  url = trim_space req.url;
  use_local_proxy = req.use_local_proxy;
  user_agent = trim_space req.user_agent;
  fetch_proxy_strategy =
      if req.fetch_proxy_strategy == "" && req.use_local_proxy
      then fetch_local_mihomo
      else req.fetch_proxy_strategy;
}

-- The new record of one subscription; `valid_url` is `validateSubscriptionURL`.
unfoldable pub updated_subscription :
    (String → Bool)
    → (now : String) → SubscriptionUpdateRequest
    → SubscriptionMeta
    → Result Refusal SubscriptionMeta
updated_subscription valid_url now req s =
    let named =
      λ (t : SubscriptionMeta). record t { name = trim_space req.name; updated_at = now } in
    if normalized_source s.source_type == source_url
    then (if not (valid_url req.url) then err bad_url else ok (named (remote_fields req s)))
    else if not (is_blank req.url)
    then err bad_source_change
    else ok (named s)

abbrev put_at : Config → ℕ → Result Refusal SubscriptionMeta → Result Refusal Config
put_at c i (err e) = err e
put_at c i (ok s) = ok (record c { subscriptions = update_at (λ _. s) c.subscriptions i })

unfoldable pub update_subscription :
    (String → Bool)
    → (now identifier : String) → SubscriptionUpdateRequest
    → Config
    → Result Refusal Config
unfolding updated_subscription
update_subscription valid_url now identifier req c =
    elim (find_subscription_by_identifier c identifier) [
      | none ↦ err (not_found identifier)
      | some i ↦ elim (get_elem? c.subscriptions i) [
        | none ↦ err (not_found identifier)
        | some s ↦
            if trim_space req.name == ""
            then err empty_name
            else if is_other (find_subscription_by_name c (trim_space req.name)) i
            then err (name_taken (trim_space req.name))
            else put_at c i (updated_subscription valid_url now req s)
      ]
    ]

-- An operation on a name, for the subscription that an identifier comes to.
abbrev by_identifier :
    (String → Config → Result Refusal Config) → String → Config → Result Refusal Config
by_identifier f identifier c = elim (find_subscription_by_identifier c identifier) [
  | none ↦ err (not_found identifier)
  | some i ↦ elim (get_elem? c.subscriptions i) [
    | none ↦ err (not_found identifier)
    | some s ↦ f s.name c
  ]
]

unfoldable pub delete_subscription : (now identifier : String) → Config → Result Refusal Config
delete_subscription now identifier c = by_identifier (remove_subscription now) identifier c

unfoldable pub apply_subscription : String → Config → Result Refusal Config
apply_subscription identifier c = by_identifier set_active_subscription identifier c

unfoldable pub has_usable_proxy_subscription : Config → Bool
has_usable_proxy_subscription c =
    any (λ s. not (s.url == "") && not (s.url == "手动配置")) c.subscriptions
