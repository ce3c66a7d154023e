-- ===== src/Config/Lookup.antt =====
-- The lookups of mihomotui/config.go and subscription_pool.go. `none` stands for the index -1.
use mihomo_loongnix.Prelude.{
  ℕ, String, Option, none, some, find_index, ◌==◌, string_eq, ◌||◌, if◌then◌else◌,
}
use mihomo_loongnix.Config.Types.{Config, mode_failover}

unfoldable pub find_subscription_by_name : Config → String → Option ℕ
find_subscription_by_name c name = find_index (λ s. s.name == name) c.subscriptions

unfoldable pub find_subscription_by_id : Config → String → Option ℕ
find_subscription_by_id c id = find_index (λ s. s.id == id) c.subscriptions

unfoldable pub find_subscription_by_identifier : Config → String → Option ℕ
unfolding find_subscription_by_name find_subscription_by_id
find_subscription_by_identifier c identifier = elim (find_subscription_by_id c identifier) [
  | some i ↦ some i
  | none ↦ find_subscription_by_name c identifier
]

unfoldable pub find_subscription_by_url : Config → String → Option ℕ
find_subscription_by_url c raw_url = find_index (λ s. s.url == raw_url) c.subscriptions

unfoldable pub find_pool_by_identifier : Config → String → Option ℕ
find_pool_by_identifier c id = find_index (λ p. p.id == id || p.name == id) c.subscription_pools

unfoldable pub find_rule_provider_by_name : Config → String → Option ℕ
find_rule_provider_by_name c name = find_index (λ r. r.name == name) c.rule_provider_subscriptions

-- Pools that predate the field `mode` keep their failover meaning.
abbrev pub normalized_subscription_pool_mode : String → String
normalized_subscription_pool_mode mode = if mode == "" then mode_failover else mode
