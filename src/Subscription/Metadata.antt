-- ===== src/Subscription/Metadata.antt =====
-- The quota metadata of a subscription in mihomotui/daemon_handlers_subscription.go, and the source
-- type of mihomotui/subscription_pool.go.
use mihomo_loongnix.Prelude.{
  String, Bool, not, ◌&&◌, ◌||◌, Option, none, some, if◌then◌else◌, ◌==◌, string_eq, nat_eq,
}
use mihomo_loongnix.Prelude.Int.{ℤ, pos, int_eq, ltb_ℤ}
use mihomo_loongnix.Prelude.Lines.{contains_lower}
use mihomo_loongnix.Prelude.Text.{trim_space, contains_text}
use mihomo_loongnix.Config.Types.{SubscriptionMeta, source_url}

-- The quota metadata of `subscriptionFetchResult`; its two float fields are left out.
pub record FetchResult : Type 0 where
  pub upload_bytes : ℤ
  pub download_bytes : ℤ
  pub total_bytes : ℤ
  pub remaining_bytes : ℤ
  pub expire_at : String
  pub metadata_available : Bool
  pub metadata_status : String
  pub profile_update_interval : ℤ

abbrev pub normalized_source : String → String
normalized_source t = if t == "" then source_url else t

-- `find_date` is the search for the regular expression of a date.
unfoldable pub normalize_subscription_expiry : (String → Option String) → String → String
normalize_subscription_expiry find_date raw =
    let value = trim_space raw in
    if value == ""
    then ""
    else if contains_text value "长期有效"
    then "长期有效"
    else if contains_text value "永久"
        || contains_lower value "permanent"
        || contains_lower value "never"
    then "长期有效"
    else elim (find_date value) [ none ↦ "" | some date ↦ date ]

unfoldable pub apply_subscription_fetch_metadata :
    (String → Option String) → FetchResult → SubscriptionMeta → SubscriptionMeta
unfolding normalize_subscription_expiry
apply_subscription_fetch_metadata find_date r s = record s {
  upload_bytes = r.upload_bytes;
  download_bytes = r.download_bytes;
  total_bytes = r.total_bytes;
  remaining_bytes = r.remaining_bytes;
  expire_at = normalize_subscription_expiry find_date r.expire_at;
  metadata_available = r.metadata_available;
  metadata_status = r.metadata_status;
  profile_update_interval = r.profile_update_interval;
}

-- The quota fields that the header does not give come from the remarks of the nodes.
unfoldable pub merge_subscription_metadata : FetchResult → FetchResult → FetchResult
merge_subscription_metadata primary fallback = with_status (record (with_bytes primary) {
  remaining_bytes =
      if primary.remaining_bytes == pos 0
      then fallback.remaining_bytes
      else primary.remaining_bytes;
  expire_at = if primary.expire_at == "" then fallback.expire_at else primary.expire_at;
  profile_update_interval =
      if primary.profile_update_interval == pos 0
      then fallback.profile_update_interval
      else primary.profile_update_interval;
})
  where
    with_bytes : FetchResult → FetchResult
    with_bytes p =
        if p.upload_bytes == pos 0 && p.download_bytes == pos 0 && p.total_bytes == pos 0
        then record p {
          upload_bytes = fallback.upload_bytes;
          download_bytes = fallback.download_bytes;
          total_bytes = fallback.total_bytes;
        }
        else p

    is_known : FetchResult → Bool
    is_known p =
        ltb_ℤ (pos 0) p.remaining_bytes
        || ltb_ℤ (pos 0) p.upload_bytes
        || ltb_ℤ (pos 0) p.download_bytes
        || ltb_ℤ (pos 0) p.total_bytes
        || not (p.expire_at == "")

    status : FetchResult → String
    status p =
        if is_known p
          && ((ltb_ℤ (pos 0) fallback.remaining_bytes && p.total_bytes == pos 0)
              || p.metadata_status == "")
        then fallback.metadata_status
        else p.metadata_status

    with_status : FetchResult → FetchResult
    with_status p = record p {
      metadata_available = is_known p || p.metadata_available;
      metadata_status = if status p == "" then "无法解析有效的订阅元数据" else status p;
    }
