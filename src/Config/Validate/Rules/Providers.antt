-- ===== src/Config/Validate/Rules/Providers.antt =====
-- The checks on rule providers report nothing only on providers with distinct names and links.
use mihomo_loongnix.Prelude.Int.{◌≤ℤ◌, pos}
use mihomo_loongnix.Config.Validate.Problems.{valid_formats, valid_behaviors}
use mihomo_loongnix.Prelude.Loops.{collect-eq-nil, collect}
use mihomo_loongnix.Prelude.Text.{is_blank}
use mihomo_loongnix.Config.Validate.Rules.{validate_providers, provider_step, SeenProviders}
use mihomo_loongnix.Prelude.{
  ◌+◌, true, false, List, [], ◌∷◌, none, ◌≡◌, ◌==◌, string_eq, find_value, All, All-imp, contains,
  arith,
}
use mihomo_loongnix.Config.Types.{Config, RuleProviderSubscription}

-- A rule provider on its own: a name, a link, a known behavior and format, a positive interval.
pub record ProviderOk (r : RuleProviderSubscription) : Type 0 where
  pub has_name : is_blank r.name ≡ false
  pub has_url : is_blank r.url ≡ false
  pub behavior : contains valid_behaviors r.behavior ≡ true
  pub format : contains valid_formats r.format ≡ true
  pub interval : pos 1 ≤ℤ r.interval

abbrev pub AreNamedApart : List RuleProviderSubscription → Type 0
AreNamedApart [] = Unit {0}
AreNamedApart (r ∷ rs) = All (λ s. (s.name == r.name) ≡ false) rs × AreNamedApart rs

abbrev IsNew : SeenProviders → RuleProviderSubscription → Type 0
IsNew seen r = find_value r.name seen.names ≡ none

abbrev after : SeenProviders → RuleProviderSubscription → SeenProviders
after seen r = record { index = seen.index + 1; names = (r.name, seen.index) ∷ seen.names }

step→ :
    (seen : SeenProviders) (r : RuleProviderSubscription)
    → (provider_step seen r).0 ≡ []
    → ProviderOk r × IsNew seen r × ((provider_step seen r).1 ≡ after seen r)
unfolding provider_step
step→ seen r h = ground arith

new→ :
    (seen : SeenProviders) (r s : RuleProviderSubscription)
    → IsNew (after seen r) s
    → IsNew seen s × ((s.name == r.name) ≡ false)
new→ seen r s h = ground arith

loop→ :
    (seen : SeenProviders) (rs : List RuleProviderSubscription)
    → (collect provider_step seen rs).0 ≡ []
    → All ProviderOk rs × AreNamedApart rs × All (IsNew seen) rs
loop→ seen [] h = (tt, tt, tt)
loop→ seen (r ∷ rs) h =
    let (here, there) = collect-eq-nil provider_step seen r rs h in
    let (ok, new, e) = step→ seen r here in
    let (oks, apart, news) = loop→ (after seen r) rs (rw e at there) in
    let both = All-imp (λ s k. new→ seen r s k) rs news in
    ((ok, oks), (All-imp (λ s k. k.1) rs both, apart), (new, All-imp (λ s k. k.0) rs both))

pub validate_providers→ :
    (c : Config)
    → validate_providers c ≡ []
    → All ProviderOk c.rule_provider_subscriptions × AreNamedApart c.rule_provider_subscriptions
unfolding validate_providers
validate_providers→ c h =
    let (oks, apart, _) = loop→ _ c.rule_provider_subscriptions h in (oks, apart)
