-- ===== src/Subscription/Import.antt =====
-- Importing a subscription: the update functions of `importSubscriptionContent`,
-- `createManualSubscription` and the handler of PATCH in
-- mihomotui/daemon_handlers_subscription.go, with `uniqueSubscriptionName`.
pub mod Names
pub mod Imported
use mihomo_loongnix.Prelude.Int.{pos}
use mihomo_loongnix.Pool.{default_refresh_interval}
use mihomo_loongnix.Subscription.{
  not_found, cache_failed, name_taken, update_at, new_subscription, Refusal,
}
use mihomo_loongnix.Config.Store.{ok, err, Result}
use mihomo_loongnix.Subscription.Metadata.{apply_subscription_fetch_metadata, FetchResult}
use mihomo_loongnix.Prelude.{
  set, [], false, ◌∷◌, get_elem?, ◌++◌, true, contains, List, ℕ, zero, suc, ◌+◌, String, Bool,
  Option, none, some, if◌then◌else◌, ◌==◌, string_eq, length,
}
use mihomo_loongnix.Prelude.Lines.{◌^◌}
use mihomo_loongnix.Prelude.Text.{trim_space}
use mihomo_loongnix.Config.Types.{SubscriptionMeta, source_url, SubscriptionPool, Config}
use mihomo_loongnix.Config.Lookup.{
  find_subscription_by_url, find_subscription_by_name, find_subscription_by_identifier,
}
use mihomo_loongnix.Config.Validate.Pools.{is_missing}

-- `strconv`'s decimal notation, `deriveSubscriptionName`, the next ID, the time, the check of a URL
-- and the search for a date.
pub record ImportLib : Type 0 where
  pub decimal : ℕ → String
  pub derive_name : String → String
  pub find_date : String → Option String
  pub valid_url : String → Bool

-- The subscription that an import replaces.
unfoldable pub import_target : (requested source source_type : String) → Config → Option ℕ
import_target requested source source_type c =
    elim (if trim_space requested == ""
      then none
      else find_subscription_by_name c (trim_space requested)) [
        | some i ↦ some i
        | none ↦ if source_type == source_url then find_subscription_by_url c source else none
      ]

unfoldable pub ensure_default_pool : String → List SubscriptionPool → List SubscriptionPool
ensure_default_pool pool_id [] =
    record {
      id = pool_id;
      name = "默认订阅池";
      mode = "";
      members = [];
      active_member_id = "";
      enabled = true;
      refresh_interval = default_refresh_interval;
      last_switch_at = "";
      last_switch_reason = "";
      degraded = false;
    }
    ∷ []
ensure_default_pool pool_id (p ∷ ps) = p ∷ ps

unfoldable pub join_pool : String → SubscriptionPool → SubscriptionPool
join_pool id pool = record pool {
  members = if contains pool.members id then pool.members else pool.members ++ id ∷ [];
  active_member_id = if pool.active_member_id == "" then id else pool.active_member_id;
}

-- The configuration with an imported subscription at the index `i`.
abbrev pub with_import : (pool_id id : String) → List SubscriptionMeta → ℕ → Config → Config
with_import pool_id id subs i c = record c {
  subscriptions = subs;
  subscription_pools =
      update_at (join_pool id) (ensure_default_pool pool_id c.subscription_pools) 0;
  active_subscription = pos i;
}

module _ (lib : ImportLib) where
  -- The loop of `uniqueSubscriptionName`: `name` is tried first, then the base with a number.
  unfoldable pub first_free : ℕ → String → ℕ → Config → String → Option String
  first_free zero base i c name = none
  first_free (suc fuel) base i c name =
      let rest = first_free fuel base (i + 1) c (base ^ lib.decimal i) in
      if is_missing (find_subscription_by_identifier c name) then some name else rest

  abbrev pub base_name : (requested raw_url : String) → String
  base_name requested raw_url =
      if trim_space requested == "" then lib.derive_name raw_url else trim_space requested

  -- Every subscription has two identifiers, so one name more than those is free.
  unfoldable pub unique_subscription_name : (requested raw_url : String) → Config → Option String
  unfolding first_free
  unique_subscription_name requested raw_url c =
      first_free (suc (suc (length c.subscriptions + length c.subscriptions)))
        (base_name requested raw_url) 2 c (base_name requested raw_url)

  -- `SubscriptionMeta{…}`, and the metadata of the fetch.
  unfoldable pub imported_meta :
      (now id name source source_type file digest : String) → Bool → FetchResult → SubscriptionMeta
  unfolding apply_subscription_fetch_metadata
  imported_meta now id name source source_type file digest local result =
      apply_subscription_fetch_metadata lib.find_date result
        (record (new_subscription id name source) {
          source_type = source_type;
          cache_file = file;
          content_sha256 = digest;
          updated_at = now;
          last_success_at = now;
          last_checked_at = now;
          use_local_proxy = local;
        })

  -- `new_id` and `pool_id` are the next IDs; `cache` is what writing the cache returned for an ID.
  unfoldable pub import_subscription :
      (now new_id pool_id requested source source_type : String)
      → (String → Option (String × String))
      → Bool
      → FetchResult
      → Config
      → Result Refusal Config
  import_subscription now new_id pool_id requested source source_type cache local result c =
      elim (import_target requested source source_type c) [
        | some i ↦ elim (get_elem? c.subscriptions i) [
          | none ↦ err (not_found requested)
          | some s ↦ elim (cache s.id) [
            | none ↦ err (cache_failed s.id)
            | some (file, digest) ↦ ok (
                with_import pool_id s.id
                  (set c.subscriptions i
                    (imported_meta now s.id s.name source source_type file digest local result))
                  i c)
          ]
        ]
        | none ↦ elim (unique_subscription_name requested source c) [
          | none ↦ err (name_taken requested)
          | some name ↦ elim (cache new_id) [
            | none ↦ err (cache_failed new_id)
            | some (file, digest) ↦ ok (
                with_import pool_id new_id
                  (c.subscriptions
                    ++ imported_meta now new_id name source source_type file digest local result
                      ∷ [])
                  (length c.subscriptions) c)
          ]
        ]
      ]

  unfoldable pub create_manual_subscription :
      (now new_id requested : String) → Config → Result Refusal Config
  create_manual_subscription now new_id requested c =
      let wanted = if trim_space requested == "" then "手动配置" else trim_space requested in
      elim (unique_subscription_name wanted "" c) [
        | none ↦ err (name_taken wanted)
        | some name ↦ ok (record c {
          subscriptions =
              c.subscriptions
              ++ record (new_subscription new_id name "手动配置") { updated_at = now } ∷ [];
        })
      ]
