-- ===== src/Dashboard/Policy/RuleSet.antt =====
-- The rule sets that the checks of src/dashboard/policy.rs let through.
use devicelane.Shared.{
  ◌≤◌, ◌≡◌, ◌≢◌, sym, inl, inr, Bool, Bool-cases, false, not, List, [], ◌∷◌, ◌++◌, String,
  string_eq, bool_eq, ◌==◌, ltb, retain, contains, length, All, All-retain, All-append, All-imp, ok,
  map_err, reject, >>-ok, map_err-ok, reject-ok, arith,
}
use devicelane.Dashboard.Policy.Rule.{
  PolicyRule, validate_rule, validate_rule_set, validate_mixed_rule_set, rules_from, mixed_from,
  is_managed, origin_eq, max_policy_rules, invalid_rule, duplicate_rule_id,
  managed_origin_requires_verification, rule_limit_exceeded,
}

-- No rule has the id.
abbrev pub Unused : String → List PolicyRule → Type 0
Unused id rules = All (λ rule. rule.id ≢ id) rules

abbrev pub Distinct : List PolicyRule → Type 0
Distinct [] = Unit
Distinct (rule ∷ rules) = Unused rule.id rules × Distinct rules

abbrev pub IsValid : PolicyRule → Type 0
IsValid rule = validate_rule rule ≡ ok tt

-- The rules are valid, their ids differ, and there are at most as many as an engine holds.
pub record IsRuleSet (rules : List PolicyRule) : Type 0 where
  pub valid : All IsValid rules
  pub distinct : Distinct rules
  pub bounded : length rules ≤ max_policy_rules

-- The ids seen are none of the rules'.
abbrev Passed : List String → List PolicyRule → Type 0
Passed ids rules =
    All IsValid rules × Distinct rules × All (λ rule. contains ids rule.id ≡ false) rules

pass :
    (ids : List String) (rule : PolicyRule) (rules : List PolicyRule)
    → IsValid rule
    → contains ids rule.id ≡ false
    → Passed (rule.id ∷ ids) rules
    → Passed ids (rule ∷ rules)
pass ids rule rules v fresh (valid, distinct, unseen) = (
  (v, valid),
  (
    All-imp _ _ rules
        (λ (r : PolicyRule) (h : contains (rule.id ∷ ids) r.id ≡ false). ground (arith, h)) unseen,
    distinct,
  ),
  (
    fresh,
    All-imp _ _ rules
        (λ (r : PolicyRule) (h : contains (rule.id ∷ ids) r.id ≡ false). ground (arith, h)) unseen,
  ),
)

mixed_from-Passed :
    (ids : List String) (rules : List PolicyRule) → mixed_from ids rules ≡ ok tt → Passed ids rules
unfolding mixed_from
mixed_from-Passed ids [] h = (tt, tt, tt)
mixed_from-Passed ids (rule ∷ rules) h =
    let (checked, rest) = >>-ok (map_err invalid_rule (validate_rule rule)) _ tt h in
    let (fresh, others) = >>-ok (reject (contains ids rule.id) duplicate_rule_id) _ tt rest in
    pass ids rule rules (map_err-ok invalid_rule (validate_rule rule) tt checked)
      (reject-ok _ _ fresh) (mixed_from-Passed (rule.id ∷ ids) rules others)

rules_from-Passed :
    (verified : Bool) (ids : List String) (rules : List PolicyRule)
    → rules_from verified ids rules ≡ ok tt
    → Passed ids rules
unfolding rules_from
rules_from-Passed verified ids [] h = (tt, tt, tt)
rules_from-Passed verified ids (rule ∷ rules) h =
    let (checked, rest) = >>-ok (map_err invalid_rule (validate_rule rule)) _ tt h in
    let (fresh, origins) = >>-ok (reject (contains ids rule.id) duplicate_rule_id) _ tt rest in
    let (_, others) =
      >>-ok (reject (not (is_managed rule == verified)) managed_origin_requires_verification) _ tt
        origins in
    pass ids rule rules (map_err-ok invalid_rule (validate_rule rule) tt checked)
      (reject-ok _ _ fresh) (rules_from-Passed verified (rule.id ∷ ids) rules others)

pub validate_mixed_rule_set-IsRuleSet :
    (rules : List PolicyRule) → validate_mixed_rule_set rules ≡ ok tt → IsRuleSet rules
unfolding validate_mixed_rule_set
validate_mixed_rule_set-IsRuleSet rules h =
    let (few, checked) =
      >>-ok (reject (ltb max_policy_rules (length rules)) rule_limit_exceeded) _ tt h in
    let (valid, distinct, _) = mixed_from-Passed [] rules checked in
    record { valid = valid; distinct = distinct; bounded = ground (arith, reject-ok _ _ few) }

pub validate_rule_set-IsRuleSet :
    (verified : Bool) (rules : List PolicyRule)
    → validate_rule_set rules verified ≡ ok tt
    → IsRuleSet rules
unfolding validate_rule_set
validate_rule_set-IsRuleSet verified rules h =
    let (few, checked) =
      >>-ok (reject (ltb max_policy_rules (length rules)) rule_limit_exceeded) _ tt h in
    let (valid, distinct, _) = rules_from-Passed verified [] rules checked in
    record { valid = valid; distinct = distinct; bounded = ground (arith, reject-ok _ _ few) }

-- Rule sets of different ids, put together.
pub Distinct-append :
    (rules others : List PolicyRule)
    → Distinct rules
    → Distinct others
    → All (λ r. Unused r.id rules) others
    → Distinct (rules ++ others)
Distinct-append [] others d e apart = e
Distinct-append (rule ∷ rules) others d e apart = (
  All-append (λ r. r.id ≢ rule.id) rules others d.0
      (All-imp (λ r. Unused r.id (rule ∷ rules)) (λ r. r.id ≢ rule.id) others (λ r h k. h.0 (sym k))
        apart),
  Distinct-append rules others d.1 e (
      All-imp (λ r. Unused r.id (rule ∷ rules)) (λ r. Unused r.id rules) others (λ r h. h.1) apart),
)

pub Distinct-retain :
    (p : PolicyRule → Bool) (rules : List PolicyRule) → Distinct rules → Distinct (retain p rules)
Distinct-retain p [] d = tt
Distinct-retain p (rule ∷ rules) d = elim (Bool-cases (p rule)) [
  | inl keeps ↦ rw keeps (All-retain (λ r. r.id ≢ rule.id) p rules d.0, Distinct-retain p rules d.1)
  | inr drops ↦ rw drops (Distinct-retain p rules d.1)
]
