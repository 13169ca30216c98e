-- ===== src/Dashboard/Policy/Changes.antt =====
-- The changes of an engine's rules, and the rules that they leave (src/dashboard/policy.rs).
use devicelane.Shared.{
  ◌≡◌, ◌≢◌, refl, sym, subst, inl, inr, Bool-cases, Option-cases, true, false, not, ◌&&◌, ◌||◌,
  none, List, [], ◌∷◌, ◌++◌, String, string_eq, nat_eq, ◌==◌, ltb, leb, any, find, length,
  length-append, length-retain-le, All, All-retain, All-append, saturating_add, Result-cases, ok,
  map_err, reject, >>-ok, map_err-ok, reject-ok, arith,
}
use devicelane.Dashboard.Policy.Rule.{
  PolicyRule, user, origin_eq, rule_eq, validate_rule, validate_rule_set, validate_mixed_rule_set,
  is_managed, max_policy_rules, invalid_rule, rule_limit_exceeded,
  managed_origin_requires_verification,
}
use devicelane.Dashboard.Policy.Engine.{
  PolicyEngine, put_user_rule, put_rules, replace_first, delete_user_rule,
  add_verified_managed_rules, checked_managed, restore_checkpoint, restored_rules, has_id,
  managed_rules, user_rules, validate_restored, managed_differ,
}
use devicelane.Dashboard.Policy.RuleSet.{
  IsRuleSet, IsValid, Unused, Distinct, Distinct-append, Distinct-retain,
  validate_mixed_rule_set-IsRuleSet, validate_rule_set-IsRuleSet,
}

-- What the callers of an engine do to its rules.
pub data Change : Type 0 where
  put : PolicyRule → Change
  delete : String → Change
  add_managed : List PolicyRule → Change
  restore : PolicyEngine → Change

abbrev pub step : PolicyEngine → Change → PolicyEngine
step s (put rule) = (put_user_rule s rule).0
step s (delete id) = (delete_user_rule s id).0
step s (add_managed rules) = (add_verified_managed_rules s rules).0
step s (restore checkpoint) = (restore_checkpoint s checkpoint).0

abbrev pub run : PolicyEngine → List Change → PolicyEngine
run s [] = s
run s (change ∷ changes) = run (step s change) changes

find-none-Unused :
    (id : String) (rules : List PolicyRule)
    → find (λ item. item.id == id) rules ≡ none
    → Unused id rules
find-none-Unused id [] h = tt
find-none-Unused id (rule ∷ rules) h = ground (arith, h, find-none-Unused id rules)

any-Unused : (id : String) (rules : List PolicyRule) → has_id id rules ≡ false → Unused id rules
any-Unused id [] h = tt
any-Unused id (rule ∷ rules) h = ground (arith, h, any-Unused id rules)

length-replace_first :
    (rule : PolicyRule) (rules : List PolicyRule) → length (replace_first rule rules) ≡ length rules
unfolding replace_first
length-replace_first rule [] = refl
length-replace_first rule (r ∷ rules) = ground (arith, length-replace_first rule rules)

All-replace_first {κ} :
    (P : PolicyRule → Type κ) (rule : PolicyRule) (rules : List PolicyRule)
    → P rule
    → All P rules
    → All P (replace_first rule rules)
unfolding replace_first
All-replace_first P rule [] p h = tt
All-replace_first P rule (r ∷ rules) p h = elim (Bool-cases (r.id == rule.id)) [
  | inl same ↦ rw same (p, h.1)
  | inr other ↦ rw other (h.0, All-replace_first P rule rules p h.1)
]

Distinct-replace_first :
    (rule : PolicyRule) (rules : List PolicyRule)
    → Distinct rules
    → Distinct (replace_first rule rules)
unfolding replace_first
Distinct-replace_first rule [] d = tt
Distinct-replace_first rule (r ∷ rules) d = elim (Bool-cases (r.id == rule.id)) [
  | inl same ↦ rw same (subst (λ id. Unused id rules) (ground (arith, same)) d.0, d.1)
  | inr other ↦ rw other (
    All-replace_first (λ x. x.id ≢ r.id) rule rules (λ e. ground (arith, other, e)) d.0,
    Distinct-replace_first rule rules d.1,
  )
]

put_rules-IsRuleSet :
    (rules : List PolicyRule) (rule : PolicyRule) (after : List PolicyRule)
    → IsRuleSet rules
    → put_rules rules rule ≡ ok after
    → IsRuleSet after
unfolding put_rules
put_rules-IsRuleSet rules rule after i h =
    let (checked, more) = >>-ok (map_err invalid_rule (validate_rule rule)) _ after h in
    let valid : IsValid rule = map_err-ok invalid_rule (validate_rule rule) tt checked in
    let (_, found) =
      >>-ok (reject (not (rule.origin == user)) managed_origin_requires_verification) _ after
        more in
    elim (Option-cases (find (λ item. item.id == rule.id) rules)) [
      | inr (existing, at) ↦
          let (_, done) =
            >>-ok
              (reject (is_managed existing || leb rule.revision existing.revision)
                managed_origin_requires_verification)
              _ after (rw at at found) in
          subst IsRuleSet (ground (arith, done)) (record {
            valid = All-replace_first IsValid rule rules valid i.valid;
            distinct = Distinct-replace_first rule rules i.distinct;
            bounded = rw (length-replace_first rule rules) i.bounded;
          })
      | inl at ↦
          let (room, done) =
            >>-ok (reject (leb max_policy_rules (length rules)) rule_limit_exceeded) _ after
              (rw at at found) in
          let free = reject-ok _ _ room in
          subst IsRuleSet (ground (arith, done)) (record {
            valid = All-append IsValid rules (rule ∷ []) i.valid (valid, tt);
            distinct =
                Distinct-append rules (rule ∷ []) i.distinct (tt, tt)
                  (find-none-Unused rule.id rules at, tt);
            bounded = rw (length-append rules (rule ∷ [])) (ground (arith, free));
          })
    ]

any-apart :
    (rules others : List PolicyRule)
    → any (λ rule. has_id rule.id rules) others ≡ false
    → All (λ r. Unused r.id rules) others
any-apart rules [] h = tt
any-apart rules (rule ∷ others) h = elim (Bool-cases (has_id rule.id rules)) [
  | inl used ↦ absurd (ground (arith, used, h))
  | inr unused ↦ (any-Unused rule.id rules unused, any-apart rules others (rw unused at h))
]

checked_managed-IsRuleSet :
    (s : PolicyEngine) (rules : List PolicyRule)
    → IsRuleSet s.rules
    → checked_managed s rules ≡ ok tt
    → IsRuleSet (s.rules ++ rules)
unfolding checked_managed
checked_managed-IsRuleSet s rules i h =
    let (checked, more) = >>-ok (validate_rule_set rules true) _ tt h in
    let (few, apart) =
      >>-ok
        (reject (ltb max_policy_rules (saturating_add (length s.rules) (length rules)))
          rule_limit_exceeded)
        _ tt more in
    let room = reject-ok _ _ few in
    let set = validate_rule_set-IsRuleSet true rules checked in
    record {
      valid = All-append IsValid s.rules rules i.valid set.valid;
      distinct =
          Distinct-append s.rules rules i.distinct set.distinct
            (any-apart s.rules rules (reject-ok _ _ apart));
      bounded = rw (length-append s.rules rules) (ground (arith, room));
    }

-- What a checkpoint that is restored has passed.
pub restored_rules-ok :
    (s checkpoint : PolicyEngine) (rules : List PolicyRule)
    → restored_rules s checkpoint ≡ ok rules
    → (validate_mixed_rule_set rules ≡ ok tt)
      × (rules ≡ user_rules checkpoint.rules ++ managed_rules s.rules)
unfolding restored_rules
restored_rules-ok s checkpoint rules h =
    let (_, a) = >>-ok (validate_restored checkpoint) _ rules h in
    let (_, b) =
      >>-ok (reject (managed_differ s checkpoint) managed_origin_requires_verification) _ rules a in
    let (_, c) = >>-ok (validate_rule_set (user_rules checkpoint.rules) false) _ rules b in
    let (mixed, d) =
      >>-ok (validate_mixed_rule_set (user_rules checkpoint.rules ++ managed_rules s.rules)) _ rules
        c in
    let same : user_rules checkpoint.rules ++ managed_rules s.rules ≡ rules = ground (arith, d) in
    (subst (λ x. validate_mixed_rule_set x ≡ ok tt) same mixed, sym same)

step-IsRuleSet :
    (s : PolicyEngine) (change : Change) → IsRuleSet s.rules → IsRuleSet (step s change).rules
unfolding put_user_rule delete_user_rule add_verified_managed_rules restore_checkpoint
step-IsRuleSet s (put rule) i = elim (Result-cases (put_rules s.rules rule)) [
  | inl (after, at) ↦ rw (step, put_user_rule, at) (put_rules-IsRuleSet s.rules rule after i at)
  | inr (e, at) ↦ rw (step, put_user_rule, at) i
]
step-IsRuleSet s (delete id) i =
    elim (Bool-cases (any (λ rule. rule.id == id && is_managed rule) s.rules)) [
      | inl protected ↦ rw (step, delete_user_rule, protected) i
      | inr free ↦
          rw (step, delete_user_rule, free)
            (record {
              valid = All-retain IsValid _ s.rules i.valid;
              distinct = Distinct-retain _ s.rules i.distinct;
              bounded =
                  omega (arith, i.bounded, length-retain-le (λ rule. not (rule.id == id)) s.rules);
            })
    ]
step-IsRuleSet s (add_managed rules) i = elim (Result-cases (checked_managed s rules)) [
  | inl (tt, at) ↦
      rw (step, add_verified_managed_rules, at) (checked_managed-IsRuleSet s rules i at)
  | inr (e, at) ↦ rw (step, add_verified_managed_rules, at) i
]
step-IsRuleSet s (restore checkpoint) i = elim (Result-cases (restored_rules s checkpoint)) [
  | inl (after, at) ↦
      rw (step, restore_checkpoint, at)
        (validate_mixed_rule_set-IsRuleSet after (restored_rules-ok s checkpoint after at).0)
  | inr (e, at) ↦ rw (step, restore_checkpoint, at) i
]

-- From a rule set of valid rules with different ids, at most as many as the limit, any sequence of
-- puts, deletions, additions of managed rules and restored checkpoints, whether they succeed or
-- fail, leads to such a rule set.
pub run-IsRuleSet :
    (s : PolicyEngine) (changes : List Change) → IsRuleSet s.rules → IsRuleSet (run s changes).rules
run-IsRuleSet s [] i = i
run-IsRuleSet s (change ∷ changes) i =
    run-IsRuleSet (step s change) changes (step-IsRuleSet s change i)
