-- ===== src/Tests/Sources.antt =====
-- The theorems on refreshing and importing subscriptions at concrete inputs.
use mihomo_loongnix.Prelude.{
  ◌++◌, string_eq, ℕ, zero, suc, ◌≡◌, refl, sym, ap, subst, String, true, false, [], ◌∷◌, none,
  some, get_elem?, contains, arith,
}
use mihomo_loongnix.Prelude.Int.{pos}
use mihomo_loongnix.Prelude.Lines.{◌^◌}
use mihomo_loongnix.Prelude.Text.{
  has_prefix, has_prefix-append, trim_space, trim_left, trim_right, is_space,
}
use text.Mathlib.TextLemmas.{append_inj}
use mihomo_loongnix.Config.Types.{Config, SubscriptionPool, SubscriptionMeta}
use mihomo_loongnix.Config.Lookup.{
  find_subscription_by_url, find_subscription_by_identifier, find_subscription_by_id,
  find_subscription_by_name,
}
use mihomo_loongnix.Tests.Data.{config_ab, sub_a, sub_b, pool_ab}
use mihomo_loongnix.Subscription.Refresh.{failed_refresh, failover_subscription, is_healthy}
use mihomo_loongnix.Subscription.Metadata.{
  FetchResult, apply_subscription_fetch_metadata, normalize_subscription_expiry,
}
use mihomo_loongnix.Subscription.Refresh.Settled.{AreSettled, failover-AreSettled}
use mihomo_loongnix.Subscription.Refresh.Liveness.{third_failure-switches}
use mihomo_loongnix.Subscription.Import.{
  ImportLib, unique_subscription_name, first_free, import_subscription, import_target,
  imported_meta, with_import,
}
use mihomo_loongnix.Subscription.Import.Names.{unique_subscription_name-free}
use mihomo_loongnix.Subscription.Import.Imported.{IsImported, import_subscription-IsImported}

-- The source `sub_a` has failed twice, and `sub_b` is well.
abbrev tired : SubscriptionMeta
tired = record sub_a { failure_count = 2 }

abbrev failing : SubscriptionMeta
failing = record sub_a { failure_count = 3 }

abbrev failing_config : Config
failing_config = record config_ab { subscriptions = failing ∷ sub_b ∷ [] }

abbrev tired_config : Config
tired_config = record config_ab { subscriptions = tired ∷ sub_b ∷ [] }

failover-AreSettled_example :
    AreSettled
      (λ s. true)
      sub_a.id
      failing_config
      "now"
      "timeout"
      []
      failing_config.subscription_pools
      (failover_subscription (λ s. true) "now" "timeout" sub_a.id failing_config).subscription_pools
failover-AreSettled_example =
    failover-AreSettled (λ s. true) sub_a.id failing_config "now" "timeout"

third_failure-switches_example :
    (q : SubscriptionPool) × (get_elem?
        (failed_refresh
          (λ s. true)
          "now"
          "GET: timeout"
          "timeout"
          tired
          tired_config).subscription_pools
        0
      ≡ some q)
    × (contains pool_ab.members q.active_member_id ≡ true)
    × (is_healthy (λ s. true) tired.id tired_config q.active_member_id ≡ true)
    × (q.degraded ≡ false)
unfolding is_healthy find_subscription_by_id
third_failure-switches_example =
    third_failure-switches (λ s. true) "now" "GET: timeout" "timeout" tired tired_config refl
      (omega arith) 0 pool_ab refl refl refl refl sub_b.id refl refl

-- Numbers in unary notation.
abbrev unary : ℕ → String
unary zero = ""
unary (suc n) = "1" ^ unary n

starts : {A : Type 0} {t : String} → "" ≡ t → has_prefix t "1" ≡ true → A
unfolding has_prefix
starts h p = absurd (not_empty (subst (λ t. has_prefix t "1" ≡ true) (sym h) p))
  where
    not_empty : has_prefix "" "1" ≡ true → (⊥)
    not_empty e = cc

unary-inj : (i j : ℕ) → unary i ≡ unary j → i ≡ j
unary-inj zero zero h = refl
unary-inj zero (suc j) h = starts h (has_prefix-append "1" (unary j))
unary-inj (suc i) zero h = starts (sym h) (has_prefix-append "1" (unary i))
unary-inj (suc i) (suc j) h = ap suc (unary-inj i j (append_inj {s₁ = "1"} {s₂ = "1"} h refl).1)

abbrev test_lib : ImportLib
test_lib = record {
  decimal = unary;
  derive_name = λ url. "订阅";
  find_date = λ value. none;
  valid_url = λ url. true;
}

unique_subscription_name-free_example :
    (name : String) × (unique_subscription_name test_lib "A" "" config_ab ≡ some name)
    × (find_subscription_by_identifier config_ab name ≡ none)
unique_subscription_name-free_example =
    unique_subscription_name-free test_lib unary-inj "A" "" config_ab

abbrev no_quota : FetchResult
no_quota = record {
  upload_bytes = pos 0;
  download_bytes = pos 0;
  total_bytes = pos 0;
  remaining_bytes = pos 0;
  expire_at = "";
  metadata_available = false;
  metadata_status = "";
  profile_update_interval = pos 0;
}

abbrev imported : SubscriptionMeta
unfolding imported_meta apply_subscription_fetch_metadata normalize_subscription_expiry
imported =
    imported_meta test_lib "now" "n" "gamma" "https://c.example/z" "url" "/c/n.yaml" "d" false
      no_quota

import_subscription-IsImported_example :
    IsImported "https://c.example/z"
      (with_import "q" "n" (config_ab.subscriptions ++ imported ∷ []) 2 config_ab)
unfolding import_subscription import_target unique_subscription_name first_free
    find_subscription_by_identifier find_subscription_by_id find_subscription_by_name
    find_subscription_by_url trim_space trim_left trim_right is_space imported imported_meta
import_subscription-IsImported_example =
    import_subscription-IsImported test_lib "now" "n" "q" "gamma" "https://c.example/z" "url"
      (λ id. some ("/c/n.yaml", "d")) false no_quota config_ab
      (with_import "q" "n" (config_ab.subscriptions ++ imported ∷ []) 2 config_ab) refl
