-- ===== src/Dashboard/Policy/Engine.antt =====
-- `PolicyEngine` and the changes of its rules (src/dashboard/policy.rs). A verified managed bundle
-- is the rules in it.
use devicelane.Shared.{
  ℕ, Bool, true, false, not, ◌&&◌, ◌||◌, none, some, List, [], ◌∷◌, ◌++◌, String, string_eq, nat_eq,
  bool_eq, Bytes, ◌==◌, ltb, leb, if◌then◌else◌, length, any, find, retain, contains,
  saturating_add, Result, ok, err, ◌>>◌, reject, map_err,
}
use devicelane.Map.{Map}
use devicelane.Dashboard.Model.{max_collection_items}
use devicelane.Dashboard.Policy.Rule.{
  PolicyRule, user, managed, origin_eq, rule_eq, validate_rule, PolicyConfigurationError,
  invalid_rule, rule_limit_exceeded, duplicate_rule_id, managed_origin_requires_verification,
  max_policy_rules, is_managed, validate_rule_set, validate_mixed_rule_set,
}

pub record PendingApproval : Type 0 where
  pub request_digest : Bytes
  pub target_host_id : String
  pub expires_at_ms : ℕ
  pub used : Bool

pub record PolicyEngine : Type 0 where
  pub rules : List PolicyRule
  pub approvals : Map String PendingApproval

abbrev pub max_pending_approvals : ℕ
max_pending_approvals = max_collection_items

abbrev pub new : PolicyEngine
new = record { rules = []; approvals = [] }

-- A change of an engine, which leaves it as it was where it fails.
abbrev pub Change : Type 0 → Type 0
Change A = PolicyEngine × Result PolicyConfigurationError A

unfoldable pub with_rules : List PolicyRule → Result PolicyConfigurationError PolicyEngine
unfolding validate_rule_set
with_rules rules = do validate_rule_set rules false; ok (record { rules = rules; approvals = [] })

abbrev pub has_id : String → List PolicyRule → Bool
has_id id rules = any (λ rule. rule.id == id) rules

unfoldable pub checked_managed :
    PolicyEngine → List PolicyRule → Result PolicyConfigurationError (Unit {0})
unfolding validate_rule_set
checked_managed s rules = do
  validate_rule_set rules true
  reject (ltb max_policy_rules (saturating_add (length s.rules) (length rules))) rule_limit_exceeded
  reject (any (λ rule. has_id rule.id s.rules) rules) duplicate_rule_id

unfoldable pub add_verified_managed_rules : PolicyEngine → List PolicyRule → Change (Unit {0})
unfolding checked_managed
add_verified_managed_rules s rules = elim (checked_managed s rules) [
  | err e ↦ (s, err e)
  | ok _ ↦ (record s { rules = s.rules ++ rules }, ok tt)
]

unfoldable pub is_verified_managed_rule : PolicyEngine → String → Bool
is_verified_managed_rule s id = any (λ rule. rule.id == id && is_managed rule) s.rules

unfoldable pub validate_restored : PolicyEngine → Result PolicyConfigurationError (Unit {0})
unfolding validate_mixed_rule_set
validate_restored s = do
  validate_mixed_rule_set s.rules
  reject (ltb max_pending_approvals (length s.approvals)) rule_limit_exceeded

abbrev pub managed_rules : List PolicyRule → List PolicyRule
managed_rules rules = retain (λ rule. rule.origin == managed) rules

abbrev pub user_rules : List PolicyRule → List PolicyRule
user_rules rules = retain (λ rule. rule.origin == user) rules

-- The test of the checkpoint's managed rules.
abbrev pub managed_differ : PolicyEngine → PolicyEngine → Bool
managed_differ s checkpoint =
    not (length (managed_rules checkpoint.rules) == length (managed_rules s.rules))
    || any (λ rule. not (contains (managed_rules s.rules) rule)) (managed_rules checkpoint.rules)

-- The rules after a restoration.
unfoldable pub restored_rules :
    PolicyEngine → PolicyEngine → Result PolicyConfigurationError (List PolicyRule)
unfolding validate_restored validate_rule_set validate_mixed_rule_set
restored_rules s checkpoint = do
  validate_restored checkpoint
  reject (managed_differ s checkpoint) managed_origin_requires_verification
  validate_rule_set (user_rules checkpoint.rules) false
  validate_mixed_rule_set (user_rules checkpoint.rules ++ managed_rules s.rules)
  ok (user_rules checkpoint.rules ++ managed_rules s.rules)

unfoldable pub restore_checkpoint : PolicyEngine → PolicyEngine → Change (Unit {0})
unfolding restored_rules
restore_checkpoint s checkpoint = elim (restored_rules s checkpoint) [
  | err e ↦ (s, err e)
  | ok rules ↦ (record { rules = rules; approvals = checkpoint.approvals }, ok tt)
]

-- The first rule with the id becomes the given one.
unfoldable pub replace_first : PolicyRule → List PolicyRule → List PolicyRule
replace_first rule [] = []
replace_first rule (r ∷ rs) = if r.id == rule.id then rule ∷ rs else r ∷ replace_first rule rs

unfoldable pub put_rules :
    List PolicyRule → PolicyRule → Result PolicyConfigurationError (List PolicyRule)
unfolding validate_rule replace_first
put_rules rules rule = do
  map_err invalid_rule (validate_rule rule)
  reject (not (rule.origin == user)) managed_origin_requires_verification
  elim (find (λ item. item.id == rule.id) rules) [
    | some existing ↦ (do
      reject (is_managed existing || leb rule.revision existing.revision)
          managed_origin_requires_verification
      ok (replace_first rule rules))
    | none ↦ (do
      reject (leb max_policy_rules (length rules)) rule_limit_exceeded
      ok (rules ++ rule ∷ []))
  ]

unfoldable pub put_user_rule : PolicyEngine → PolicyRule → Change (Unit {0})
unfolding put_rules
put_user_rule s rule = elim (put_rules s.rules rule) [
  | err e ↦ (s, err e)
  | ok rules ↦ (record s { rules = rules }, ok tt)
]

unfoldable pub delete_user_rule : PolicyEngine → String → Change Bool
delete_user_rule s id =
    if any (λ rule. rule.id == id && is_managed rule) s.rules
    then (s, err managed_origin_requires_verification)
    else let rules = retain (λ rule. not (rule.id == id)) s.rules in
      (record s { rules = rules }, ok (not (length s.rules == length rules)))
