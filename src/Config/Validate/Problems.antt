-- ===== src/Config/Validate/Problems.antt =====
-- What the validator reports, and the library functions it calls.
use mihomo_loongnix.Prelude.{
  refl, true, arith, false, ◌++◌, ◌≡◌, ℕ, String, Bool, List, [], ◌∷◌, Option, none, some,
  if◌then◌else◌, find_value, string_eq,
}
use mihomo_loongnix.Prelude.Int.{ℤ}

pub data Problem : Type 0 where
  port_out_of_range : String → ℤ → Problem
  port_conflict : String → String → ℤ → Problem
  controller_scheme controller_format controller_port : String → Problem
  bad_mihomo_log_level bad_app_log_level : String → Problem
  bad_max_file_bytes bad_max_backups : Problem
  bad_test_url : String → Problem
  bad_resource_url : String → String → Problem
  bad_proxy_mode : String → Problem
  no_default_group no_language : Problem
  subscription_no_name : ℕ → Problem
  subscription_same_name : String → ℕ → ℕ → Problem
  subscription_no_id : String → Problem
  subscription_same_id : String → ℕ → ℕ → Problem
  subscription_no_url : String → Problem
  subscription_bad_strategy : String → String → Problem
  subscription_long_user_agent : String → Problem
  active_out_of_range : ℤ → ℕ → Problem
  pool_bad_id : String → Problem
  pool_no_name : Problem
  pool_bad_mode : String → String → Problem
  pool_bad_interval : String → Problem
  pool_same_member pool_unknown_member : String → String → Problem
  pool_shared_member : String → String → String → Problem
  pool_no_members pool_bad_active : String → Problem
  provider_no_name : ℕ → Problem
  provider_same_name : String → ℕ → ℕ → Problem
  provider_no_url : String → Problem
  provider_bad_behavior provider_bad_format : String → String → Problem
  provider_bad_interval : String → ℤ → Problem
  rules_not_initialized : Problem
  rule_bad_id rule_bad_order rule_no_content : String → Problem
  rule_no_url rule_bad_behavior rule_bad_format rule_bad_interval : String → Problem
  match_disabled match_not_last match_no_group : Problem
  rule_bad_kind : String → String → Problem
  match_count : Problem
  custom_match : String → Problem

-- The parts of a parsed URL that the code reads.
pub record Url : Type 0 where
  pub scheme : String
  pub host : String

pub record NetLib : Type 0 where
  pub url_parse : String → Option Url
  pub split_host_port : String → Option (String × String)
  pub atoi : String → Option ℤ

-- `if t { add(p) }`.
abbrev pub add_if : Bool → Problem → List Problem
add_if t p = if t then p ∷ [] else []

-- One round of the loops that keep names or IDs unique: a blank key is reported, a key seen before
-- is reported with its first index, and a new key is recorded.
unfoldable pub unique_key :
    Bool
    → String
    → ℕ
    → List (String × ℕ)
    → Problem
    → (ℕ → Problem)
    → List Problem × List (String × ℕ)
unique_key blank key i seen missing repeated =
    if blank then (missing ∷ [], seen) else elim (find_value key seen) [
      | some prev ↦ (repeated prev ∷ [], seen)
      | none ↦ ([], (key, i) ∷ seen)
    ]

abbrev pub valid_behaviors : List String
valid_behaviors = "classical" ∷ "domain" ∷ "ipcidr" ∷ []

abbrev pub valid_formats : List String
valid_formats = "yaml" ∷ "text" ∷ "mrs" ∷ []

pub add_if-eq-nil : (t : Bool) (p : Problem) → add_if t p ≡ [] → t ≡ false
add_if-eq-nil t p h = ground arith

pub add_if-append :
    (t : Bool) (p : Problem) (rest : List Problem)
    → add_if t p ++ rest ≡ []
    → (t ≡ false) × (rest ≡ [])
add_if-append true p rest h = cc
add_if-append false p rest h = (refl, h)

pub unique_key→ :
    (blank : Bool) (key : String) (i : ℕ) (seen : List (String × ℕ)) (p : Problem) (q : ℕ → Problem)
    → (unique_key blank key i seen p q).0 ≡ []
    → (blank ≡ false)
      × (find_value key seen ≡ none)
      × ((unique_key blank key i seen p q).1 ≡ (key, i) ∷ seen)
unfolding unique_key
unique_key→ blank key i seen p q h = ground arith

pub unique_key← :
    (blank : Bool) (key : String) (i : ℕ) (seen : List (String × ℕ)) (p : Problem) (q : ℕ → Problem)
    → blank ≡ false
    → find_value key seen ≡ none
    → unique_key blank key i seen p q ≡ ([], (key, i) ∷ seen)
unfolding unique_key
unique_key← blank key i seen p q b f = ground arith
