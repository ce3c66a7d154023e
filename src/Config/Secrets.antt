-- ===== src/Config/Secrets.antt =====
-- mihomotui/secrets.go: the private values are kept in a file of their own, and the main
-- configuration holds references in their place. A Go map is an association list, newest first.
pub mod RoundTrip
use Prim.Native.Char.{code}
use Prim.Native.String.{slice, len, [], ◌∷◌}
use Prim.Native.String
use mihomo_loongnix.Prelude.{
  ℕ, String, Bool, not, ◌&&◌, ◌||◌, List, Option, none, some, if◌then◌else◌, ◌==◌, string_eq,
  nat_eq, find_value, any, map, ltb, contains,
}
use mathlib.Core.List.{[], ◌∷◌}
use mihomo_loongnix.Prelude.Text.{trim_space, is_blank, has_prefix}
use mihomo_loongnix.Config.Types.{Config, SubscriptionMeta, RuleProviderSubscription}

pub record RuntimeSecrets : Type 0 where
  pub version : ℕ
  pub mihomo_api_secret : String
  pub subscription_sources : List (String × String)
  pub rule_provider_urls : List (String × String)

-- The characters that `SanitizeFileName` replaces.
abbrev illegal : List ℕ
illegal = b'/' ∷ b'\\' ∷ b':' ∷ b'*' ∷ b'?' ∷ b'"' ∷ b'<' ∷ b'>' ∷ b'|' ∷ b' ' ∷ []

replace_illegal : String → String
replace_illegal [] = []
replace_illegal (c ∷ s) =
    let rest = replace_illegal s in
    if contains illegal (code c) then String.◌++◌ "_" rest else c ∷ rest

unfoldable pub sanitize_file_name : String → String
unfolding replace_illegal
sanitize_file_name name =
    let sanitized = replace_illegal name in
    if ltb 64 (len sanitized) then slice sanitized 0 64 else sanitized

unfoldable pub subscription_secret_ref : String → String
subscription_secret_ref id = String.◌++◌ "secret://subscription/" id

unfoldable pub rule_provider_secret_ref : String → String
rule_provider_secret_ref name = String.◌++◌ "secret://rule-provider/" (sanitize_file_name name)

unfoldable pub is_secret_ref : String → Bool
is_secret_ref value = has_prefix value "secret://"

-- The URL of a subscription made by hand.
abbrev pub manual_url : String
manual_url = "手动配置"

unfoldable pub should_separate_subscription_source : String → Bool
should_separate_subscription_source url =
    let value = trim_space url in
    not (value == "") && (not (value == manual_url) && not (is_secret_ref value))

-- The condition on a provider's link, which the source writes out three times.
unfoldable pub should_separate_provider_url : String → Bool
should_separate_provider_url url = not (is_blank url) && not (is_secret_ref url)

unfoldable pub add_source : List (String × String) → SubscriptionMeta → List (String × String)
add_source sources s =
    if not (s.id == "") && should_separate_subscription_source s.url
    then (s.id, s.url) ∷ sources
    else sources

unfoldable pub collect_sources :
    List (String × String) → List SubscriptionMeta → List (String × String)
collect_sources sources [] = sources
collect_sources sources (s ∷ ss) = collect_sources (add_source sources s) ss

unfoldable pub add_url : List (String × String) → RuleProviderSubscription → List (String × String)
add_url urls r =
    if not (r.name == "") && should_separate_provider_url r.url
    then (r.name, r.url) ∷ urls
    else urls

unfoldable pub collect_urls :
    List (String × String) → List RuleProviderSubscription → List (String × String)
collect_urls urls [] = urls
collect_urls urls (r ∷ rs) = collect_urls (add_url urls r) rs

unfoldable pub secrets_from_config : Config → RuntimeSecrets
secrets_from_config c = record {
  version = 1;
  mihomo_api_secret = c.mihomo.secret;
  subscription_sources = collect_sources [] c.subscriptions;
  rule_provider_urls = collect_urls [] c.rule_provider_subscriptions;
}

unfoldable pub public_subscription : SubscriptionMeta → SubscriptionMeta
public_subscription s =
    if should_separate_subscription_source s.url
    then record s { url = subscription_secret_ref s.id }
    else s

unfoldable pub public_provider : RuleProviderSubscription → RuleProviderSubscription
public_provider r =
    if should_separate_provider_url r.url
    then record r { url = rule_provider_secret_ref r.name }
    else r

unfoldable pub public_config_for_disk : Config → Config
public_config_for_disk c = record c {
  mihomo = record (c.mihomo) { secret = "" };
  subscriptions = map public_subscription c.subscriptions;
  rule_provider_subscriptions = map public_provider c.rule_provider_subscriptions;
}

unfoldable pub config_contains_inline_secrets : Config → Bool
config_contains_inline_secrets c =
    not (is_blank c.mihomo.secret)
    || (any (λ s. should_separate_subscription_source s.url) c.subscriptions
        || any (λ r. should_separate_provider_url r.url) c.rule_provider_subscriptions)

-- `m[key]` where a missing key reads as "", and "" changes nothing.
abbrev pub stored : Option String → String → String
stored none old = old
stored (some value) old = if value == "" then old else value

unfoldable pub restored_subscription : List (String × String) → SubscriptionMeta → SubscriptionMeta
restored_subscription sources s = record s { url = stored (find_value s.id sources) s.url }

unfoldable pub restored_provider :
    List (String × String) → RuleProviderSubscription → RuleProviderSubscription
restored_provider urls r = record r { url = stored (find_value r.name urls) r.url }

-- `loadRuntimeSecrets`, once the file is read.
unfoldable pub merge_runtime_secrets : RuntimeSecrets → Config → Config
merge_runtime_secrets secrets c = record c {
  mihomo = record (c.mihomo) { secret = stored (some secrets.mihomo_api_secret) c.mihomo.secret };
  subscriptions = map (restored_subscription secrets.subscription_sources) c.subscriptions;
  rule_provider_subscriptions =
      map (restored_provider secrets.rule_provider_urls) c.rule_provider_subscriptions;
}
