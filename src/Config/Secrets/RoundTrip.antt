-- ===== src/Config/Secrets/RoundTrip.antt =====
-- Splitting the private values off and merging them back gives the configuration again.
use mihomo_loongnix.Config.Validate.Rules.{validate_providers}
use mihomo_loongnix.Config.Validate.Subscriptions.{validate_subscriptions}
use mihomo_loongnix.Config.Validate.Rules.Providers.{validate_providers→, AreNamedApart, ProviderOk}
use mihomo_loongnix.Config.Validate.Subscriptions.Exact.{
  validate_subscriptions_iff, SubscriptionsOk, AreOther, SubscriptionOk,
}
use mihomo_loongnix.Prelude.Text.{
  trim_right, trim_left, has_prefix-trim_space, is_space, trim_space, has_prefix-append, is_blank,
}
use mihomo_loongnix.Config.Secrets.{
  sanitize_file_name, rule_provider_secret_ref, public_config_for_disk, secrets_from_config,
  public_provider, subscription_secret_ref, collect_urls, merge_runtime_secrets,
  config_contains_inline_secrets, add_url, is_secret_ref, stored, restored_provider,
  public_subscription, should_separate_provider_url, add_source, collect_sources,
  should_separate_subscription_source, restored_subscription,
}
use mihomo_loongnix.Prelude.{
  any, inr, ==→eq, All-const, subst, inl, ◌∙◌, Bool-cases, String, Bool, true, false, List, [], ◌∷◌,
  Option, none, some, ◌≡◌, refl, sym, ◌==◌, string_eq, find_value, map, All, All-imp, All-and,
  arith,
}
use Prim.Native.String
use text.Mathlib.TextLemmas.{append_assoc}
use mihomo_loongnix.Config.Types.{Config, SubscriptionMeta, RuleProviderSubscription}

-- What a lookup of a separated link finds.
abbrev expected : Bool → String → Option String
expected true url = some url
expected false url = none

==_false_comm : (s t : String) → (s == t) ≡ false → (t == s) ≡ false
==_false_comm s t h = ground (arith, string_eq.beq_iff s t, string_eq.beq_iff t s)

pub not_empty : (s : String) → is_blank s ≡ false → (s == "") ≡ false
not_empty s h = elim (Bool-cases (s == "")) [
  | inl e ↦ cc (h, subst (λ t. is_blank t ≡ true) (sym (==→eq s "" e)) blank)
  | inr e ↦ e
]
  where
    blank : is_blank "" ≡ true
    blank = unfold is_blank trim_space trim_left trim_right in refl

-- A table that holds of each item exactly what was separated.
abbrev IsFound : List (String × String) → SubscriptionMeta → Type 0
IsFound m s = find_value s.id m ≡ expected (should_separate_subscription_source s.url) s.url

abbrev IsUrlFound : List (String × String) → RuleProviderSubscription → Type 0
IsUrlFound m r = find_value r.name m ≡ expected (should_separate_provider_url r.url) r.url

find-add_source :
    (m : List (String × String)) (s : SubscriptionMeta)
    → SubscriptionOk s
    → find_value s.id m ≡ none
    → IsFound (add_source m s) s
unfolding add_source
find-add_source m s k n = ground (arith, string_eq.beq_iff s.id s.id)

skip-add_source :
    (m : List (String × String)) (s : SubscriptionMeta) (k : String)
    → (k == s.id) ≡ false
    → find_value k (add_source m s) ≡ find_value k m
unfolding add_source
skip-add_source m s k h = ground arith

skip-collect_sources :
    (k : String) (m : List (String × String)) (ss : List SubscriptionMeta)
    → All (λ t. (t.id == k) ≡ false) ss
    → find_value k (collect_sources m ss) ≡ find_value k m
unfolding collect_sources
skip-collect_sources k m [] h = refl
skip-collect_sources k m (s ∷ ss) h =
    skip-collect_sources k (add_source m s) ss h.1
    ∙ skip-add_source m s k (==_false_comm s.id k h.0)

collect_sources-IsFound :
    (m : List (String × String)) (ss : List SubscriptionMeta)
    → All SubscriptionOk ss
    → AreOther ss
    → All (λ s. find_value s.id m ≡ none) ss
    → All (IsFound (collect_sources m ss)) ss
unfolding collect_sources
collect_sources-IsFound m [] k o n = tt
collect_sources-IsFound m (s ∷ ss) k o n = (
  skip-collect_sources s.id (add_source m s) ss (All-imp (λ t other. other.1) ss o.0)
      ∙ find-add_source m s k.0 n.0,
  collect_sources-IsFound (add_source m s) ss k.1 o.1
      (All-and (λ t other none_before. skip-add_source m s t.id other.1 ∙ none_before) ss o.0 n.1),
)

restored-public_subscription :
    (m : List (String × String)) (s : SubscriptionMeta)
    → SubscriptionOk s
    → IsFound m s
    → restored_subscription m (public_subscription s) ≡ s
unfolding restored_subscription public_subscription
restored-public_subscription m s k f = ground (arith, not_empty s.url k.has_url)

find-add_url :
    (m : List (String × String)) (r : RuleProviderSubscription)
    → ProviderOk r
    → find_value r.name m ≡ none
    → IsUrlFound (add_url m r) r
unfolding add_url
find-add_url m r k n = ground (arith, string_eq.beq_iff r.name r.name, not_empty r.name k.has_name)

skip-add_url :
    (m : List (String × String)) (r : RuleProviderSubscription) (k : String)
    → (k == r.name) ≡ false
    → find_value k (add_url m r) ≡ find_value k m
unfolding add_url
skip-add_url m r k h = ground arith

skip-collect_urls :
    (k : String) (m : List (String × String)) (rs : List RuleProviderSubscription)
    → All (λ t. (t.name == k) ≡ false) rs
    → find_value k (collect_urls m rs) ≡ find_value k m
unfolding collect_urls
skip-collect_urls k m [] h = refl
skip-collect_urls k m (r ∷ rs) h =
    skip-collect_urls k (add_url m r) rs h.1 ∙ skip-add_url m r k (==_false_comm r.name k h.0)

collect_urls-IsUrlFound :
    (m : List (String × String)) (rs : List RuleProviderSubscription)
    → All ProviderOk rs
    → AreNamedApart rs
    → All (λ r. find_value r.name m ≡ none) rs
    → All (IsUrlFound (collect_urls m rs)) rs
unfolding collect_urls
collect_urls-IsUrlFound m [] k o n = tt
collect_urls-IsUrlFound m (r ∷ rs) k o n = (
  skip-collect_urls r.name (add_url m r) rs o.0 ∙ find-add_url m r k.0 n.0,
  collect_urls-IsUrlFound (add_url m r) rs k.1 o.1
      (All-and (λ t other none_before. skip-add_url m r t.name other ∙ none_before) rs o.0 n.1),
)

restored-public_provider :
    (m : List (String × String)) (r : RuleProviderSubscription)
    → ProviderOk r
    → IsUrlFound m r
    → restored_provider m (public_provider r) ≡ r
unfolding restored_provider public_provider
restored-public_provider m r k f = ground (arith, not_empty r.url k.has_url)

map-map_id {ℓ κ} :
    {A : Type ℓ} {P : A → Type κ} (f g : A → A)
    → ((a : A) → P a → g (f a) ≡ a)
    → (xs : List A) → All P xs
    → map g (map f xs) ≡ xs
map-map_id f g e [] h = refl
map-map_id f g e (x ∷ xs) h = cc (e x h.0, map-map_id f g e xs h.1)

subscriptions_back :
    (ss : List SubscriptionMeta)
    → SubscriptionsOk ss
    → map (restored_subscription (collect_sources [] ss)) (map public_subscription ss) ≡ ss
subscriptions_back ss k =
    map-map_id {P = λ s. SubscriptionOk s × IsFound (collect_sources [] ss) s} public_subscription
      (restored_subscription (collect_sources [] ss))
      (λ s h. restored-public_subscription (collect_sources [] ss) s h.0 h.1) ss
      (All-and (λ s ok found. (ok, found)) ss k.each
        (collect_sources-IsFound [] ss k.each k.others (All-const (λ s. refl) ss)))

providers_back :
    (rs : List RuleProviderSubscription)
    → All ProviderOk rs
    → AreNamedApart rs
    → map (restored_provider (collect_urls [] rs)) (map public_provider rs) ≡ rs
providers_back rs k o =
    map-map_id {P = λ r. ProviderOk r × IsUrlFound (collect_urls [] rs) r} public_provider
      (restored_provider (collect_urls [] rs))
      (λ r h. restored-public_provider (collect_urls [] rs) r h.0 h.1) rs
      (All-and (λ r ok found. (ok, found)) rs k
        (collect_urls-IsUrlFound [] rs k o (All-const (λ r. refl) rs)))

secret_back : (s : String) → stored (some s) "" ≡ s
secret_back s = ground (arith, string_eq.beq_iff s "")

-- The private values that `secrets_from_config` takes out are what `merge_runtime_secrets` puts
-- back, for every configuration whose subscriptions and rule providers pass the validator.
pub merge-public_config :
    (c : Config)
    → validate_subscriptions c ≡ []
    → validate_providers c ≡ []
    → merge_runtime_secrets (secrets_from_config c) (public_config_for_disk c) ≡ c
unfolding merge_runtime_secrets secrets_from_config public_config_for_disk
merge-public_config c hs hp =
    let ss = subscriptions_back c.subscriptions ((validate_subscriptions_iff c).0 hs) in
    let (oks, apart) = validate_providers→ c hp in
    let rs = providers_back c.rule_provider_subscriptions oks apart in
    let secret = secret_back c.mihomo.secret in
    λ i. record c {
      mihomo = record (c.mihomo) { secret = secret i };
      subscriptions = ss i;
      rule_provider_subscriptions = rs i;
    }

ref-is_secret_ref :
    (kind id : String) → is_secret_ref (String.◌++◌ (String.◌++◌ "secret://" kind) id) ≡ true
unfolding is_secret_ref
ref-is_secret_ref kind id =
    rw (append_assoc "secret://" kind id) (has_prefix-append "secret://" (String.◌++◌ kind id))

trimmed_ref : (url : String) → is_secret_ref url ≡ true → is_secret_ref (trim_space url) ≡ true
unfolding is_secret_ref is_space
trimmed_ref url h = has_prefix-trim_space url "ecret://" "s" refl h

public_subscription-is_public :
    (s : SubscriptionMeta) → should_separate_subscription_source (public_subscription s).url ≡ false
unfolding public_subscription subscription_secret_ref
public_subscription-is_public s = elim (Bool-cases (should_separate_subscription_source s.url)) [
  | inl e ↦ rw e (refs_stay _ (ref-is_secret_ref "subscription/" s.id))
  | inr e ↦ rw e e
]
  where
    refs_stay :
        (url : String) → is_secret_ref url ≡ true → should_separate_subscription_source url ≡ false
    refs_stay url h =
        unfold should_separate_subscription_source is_secret_ref in
        ground (arith, trimmed_ref url h)

public_provider-is_public :
    (r : RuleProviderSubscription) → should_separate_provider_url (public_provider r).url ≡ false
unfolding public_provider rule_provider_secret_ref should_separate_provider_url
public_provider-is_public r =
    ground (arith, ref-is_secret_ref "rule-provider/" (sanitize_file_name r.name))

any-map {ℓ κ} :
    {A : Type ℓ} {B : Type κ} (p : B → Bool) (f : A → B) (xs : List A)
    → ((a : A) → p (f a) ≡ false)
    → any p (map f xs) ≡ false
any-map p f [] h = refl
any-map p f (x ∷ xs) h = ground (arith, h x, any-map p f xs h)

-- What is written to the main configuration file holds no private value in clear: no API secret,
-- and no subscription or rule provider link that is to be separated.
pub public_config-has_no_secrets :
    (c : Config) → config_contains_inline_secrets (public_config_for_disk c) ≡ false
unfolding config_contains_inline_secrets public_config_for_disk is_blank trim_space trim_left
    trim_right
public_config-has_no_secrets c = ground (
  arith,
  any-map (λ s. should_separate_subscription_source s.url) public_subscription c.subscriptions
      public_subscription-is_public,
  any-map (λ r. should_separate_provider_url r.url) public_provider c.rule_provider_subscriptions
      public_provider-is_public,
)
