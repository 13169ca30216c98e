-- ===== src/Dashboard/Policy/Rule.antt =====
-- Policy rules (src/dashboard/model.rs) and the checks of rule sets (src/dashboard/policy.rs).
use devicelane.Shared.{
  ℕ, Bool, not, ◌&&◌, Option, List, [], ◌∷◌, String, string_eq, bool_eq, string_discrete,
  ℕ_discrete, Eq, ◌==◌, ltb, is_some, length, contains, Result, ok, ◌>>◌, reject, map_err,
}
use devicelane.Dashboard.Model.{
  PolicyEffect, ResourceClass, ResourceClass-discrete, ValidationError, error_at,
  validate_unique_resources, max_collection_items,
}

pub data PolicyOrigin : Type 0 where
  user managed : PolicyOrigin

pub record PolicyRule : Type 0 where
  pub id : String
  pub revision : ℕ
  pub effect : PolicyEffect
  pub principal_id : Option String
  pub source_host_id : Option String
  pub target_host_id : Option String
  pub device_id : Option String
  pub operation : Option String
  pub resources : List ResourceClass
  pub expires_at_ms : Option ℕ
  pub require_user_presence : Bool
  pub user_presence : Option Bool
  pub physical_device : Option Bool
  pub match_device_exact : Bool
  pub match_resources_exact : Bool
  pub enabled : Bool
  pub origin : PolicyOrigin

-- The derived equalities.
unfoldable pub PolicyOrigin-discrete : Discrete PolicyOrigin
PolicyOrigin-discrete = hlevel

instance abbrev pub origin_eq : Eq PolicyOrigin
origin_eq = record { dec = PolicyOrigin-discrete }

unfoldable pub PolicyEffect-discrete : Discrete PolicyEffect
PolicyEffect-discrete = hlevel

instance abbrev pub effect_eq : Eq PolicyEffect
effect_eq = record { dec = PolicyEffect-discrete }

unfoldable pub PolicyRule-discrete : Discrete PolicyRule
PolicyRule-discrete = hlevel (string_discrete, ℕ_discrete, ResourceClass-discrete)

instance abbrev pub rule_eq : Eq PolicyRule
rule_eq = record { dec = PolicyRule-discrete }

unfoldable pub validate_rule : PolicyRule → Result ValidationError (Unit {0})
unfolding validate_unique_resources
validate_rule rule = do
  validate_unique_resources rule.resources
  reject (rule.require_user_presence && is_some rule.user_presence)
      (error_at "redundant_presence_constraints" "user_presence")

pub data PolicyConfigurationError : Type 0 where
  invalid_rule : ValidationError → PolicyConfigurationError
  rule_limit_exceeded duplicate_rule_id managed_origin_requires_verification :
      PolicyConfigurationError

abbrev pub max_policy_rules : ℕ
max_policy_rules = max_collection_items

abbrev pub is_managed : PolicyRule → Bool
is_managed rule = rule.origin == managed

-- The loop over the rules, with the ids that the hash set holds.
unfoldable pub rules_from :
    Bool → List String → List PolicyRule → Result PolicyConfigurationError (Unit {0})
unfolding validate_rule
rules_from verified_managed ids [] = ok tt
rules_from verified_managed ids (rule ∷ rules) = do
  map_err invalid_rule (validate_rule rule)
  reject (contains ids rule.id) duplicate_rule_id
  reject (not (is_managed rule == verified_managed)) managed_origin_requires_verification
  rules_from verified_managed (rule.id ∷ ids) rules

unfoldable pub validate_rule_set :
    List PolicyRule → Bool → Result PolicyConfigurationError (Unit {0})
unfolding rules_from
validate_rule_set rules verified_managed = do
  reject (ltb max_policy_rules (length rules)) rule_limit_exceeded
  rules_from verified_managed [] rules

unfoldable pub mixed_from :
    List String → List PolicyRule → Result PolicyConfigurationError (Unit {0})
unfolding validate_rule
mixed_from ids [] = ok tt
mixed_from ids (rule ∷ rules) = do
  map_err invalid_rule (validate_rule rule)
  reject (contains ids rule.id) duplicate_rule_id
  mixed_from (rule.id ∷ ids) rules

unfoldable pub validate_mixed_rule_set :
    List PolicyRule → Result PolicyConfigurationError (Unit {0})
unfolding mixed_from
validate_mixed_rule_set rules = do
  reject (ltb max_policy_rules (length rules)) rule_limit_exceeded
  mixed_from [] rules
