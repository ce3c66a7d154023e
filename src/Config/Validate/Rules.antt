-- ===== src/Config/Validate/Rules.antt =====
-- The checks on rule providers, the built-in rules and the user's rules.
pub mod Providers
use mihomo_loongnix.Prelude.{
  ℕ, ◌+◌, String, not, ◌||◌, List, [], ◌∷◌, ◌++◌, if◌then◌else◌, ◌==◌, eqb, string_eq, contains,
  length,
}
use mihomo_loongnix.Prelude.Int.{ℤ, pos, leb_ℤ, int_eq}
use mihomo_loongnix.Prelude.Text.{is_blank, trim_space, has_prefix_by, upper}
use mihomo_loongnix.Prelude.Loops.{collect}
use mihomo_loongnix.Config.Types.{Config, RuleProviderSubscription, BuiltInRule}
use mihomo_loongnix.Config.Validate.Problems.{
  Problem, add_if, unique_key, valid_behaviors, valid_formats, provider_no_name, provider_same_name,
  provider_no_url, provider_bad_behavior, provider_bad_format, provider_bad_interval,
  rules_not_initialized, rule_bad_id, rule_bad_order, rule_no_content, rule_no_url,
  rule_bad_behavior, rule_bad_format, rule_bad_interval, match_disabled, match_not_last,
  match_no_group, rule_bad_kind, match_count, custom_match,
}

-- The loop's variables: the index and `rpNames`.
pub record SeenProviders : Type 0 where
  pub index : ℕ
  pub names : List (String × ℕ)

unfoldable pub provider_step :
    SeenProviders → RuleProviderSubscription → List Problem × SeenProviders
unfolding unique_key
provider_step seen rp =
    let i = seen.index in
    let (p, names) =
      unique_key (is_blank rp.name) rp.name i seen.names (provider_no_name (i + 1))
        (λ prev. provider_same_name rp.name (prev + 1) (i + 1)) in
    (
      p
          ++ (add_if (is_blank rp.url) (provider_no_url rp.name)
              ++ (add_if (not (contains valid_behaviors rp.behavior))
                    (provider_bad_behavior rp.name rp.behavior)
                  ++ (add_if (not (contains valid_formats rp.format))
                        (provider_bad_format rp.name rp.format)
                      ++ add_if (leb_ℤ rp.interval (pos 0))
                          (provider_bad_interval rp.name rp.interval)))),
      record { index = i + 1; names = names },
    )

unfoldable pub validate_providers : Config → List Problem
validate_providers c =
    (collect provider_step (record { index = 0; names = [] }) c.rule_provider_subscriptions).0

-- The loop's variables: the index, `ids`, `orders` and `matchCount`.
pub record SeenRules : Type 0 where
  pub index : ℕ
  pub ids : List String
  pub orders : List ℤ
  pub matches : ℕ

abbrev pub kind_literal : String
kind_literal = "literal"

abbrev pub kind_provider : String
kind_provider = "provider"

abbrev pub kind_match : String
kind_match = "match"

-- The `switch` on the kind, for the rule at index `i` of `n`.
unfoldable pub kind_problems : ℕ → ℕ → BuiltInRule → List Problem
kind_problems n i rule =
    if rule.kind == kind_literal
    then add_if (is_blank rule.rule) (rule_no_content rule.name)
    else if rule.kind == kind_provider
    then add_if (is_blank rule.url) (rule_no_url rule.name)
      ++ (add_if (not (contains valid_behaviors rule.behavior)) (rule_bad_behavior rule.name)
          ++ (add_if (not (contains valid_formats rule.format)) (rule_bad_format rule.name)
              ++ add_if (leb_ℤ rule.interval (pos 0)) (rule_bad_interval rule.name)))
    else if rule.kind == kind_match
    then add_if (not rule.enabled) match_disabled
      ++ (add_if (not (eqb (i + 1) n)) match_not_last
          ++ add_if (is_blank rule.proxy_group) match_no_group)
    else rule_bad_kind rule.name rule.kind ∷ []

unfoldable pub rule_step : ℕ → SeenRules → BuiltInRule → List Problem × SeenRules
unfolding kind_problems
rule_step n seen rule =
    let i = seen.index in
    (
      add_if (is_blank rule.id || contains seen.ids rule.id) (rule_bad_id rule.id)
          ++ (add_if (not (rule.order == pos i) || contains seen.orders rule.order)
                (rule_bad_order rule.name)
              ++ kind_problems n i rule),
      record {
        index = i + 1;
        ids = rule.id ∷ seen.ids;
        orders = rule.order ∷ seen.orders;
        matches = if rule.kind == kind_match then seen.matches + 1 else seen.matches;
      },
    )

unfoldable pub validate_built_in : Config → List Problem
validate_built_in c =
    if not c.built_in_rules_initialized
    then rules_not_initialized ∷ []
    else let (problems, seen) =
        collect (rule_step (length c.built_in_rules))
          (record { index = 0; ids = []; orders = []; matches = 0 }) c.built_in_rules in
      problems ++ add_if (not (eqb seen.matches 1)) match_count

custom_problems : List String → List Problem
custom_problems [] = []
custom_problems (rule ∷ rules) =
    add_if (has_prefix_by upper (trim_space rule) "MATCH,") (custom_match rule)
    ++ custom_problems rules

unfoldable pub validate_custom : Config → List Problem
unfolding custom_problems
validate_custom c = custom_problems (c.pre_custom_rules ++ c.post_custom_rules)
