-- ===== src/Dashboard/Policy/Managed.antt =====
-- The managed rules of an engine (src/dashboard/policy.rs).
use devicelane.Shared.{
  ℕ, ◌≡◌, refl, sym, ◌∙◌, ap, subst, inl, inr, Bool-cases, Option-cases, false, not, ◌&&◌, ◌||◌,
  some, List, [], ◌∷◌, ◌++◌, String, string_eq, Bytes, ◌==◌, leb, if◌then◌else◌, any, find, retain,
  retain-append, append-nil, length, Result, Result-cases, ok, map_err, reject, >>-ok, arith,
}
use devicelane.Dashboard.Policy.Rule.{
  PolicyRule, PolicyOrigin-discrete, user, origin_eq, validate_rule, is_managed, max_policy_rules,
  invalid_rule, rule_limit_exceeded, managed_origin_requires_verification,
}
use devicelane.Dashboard.Policy.Engine.{
  PolicyEngine, put_user_rule, put_rules, replace_first, delete_user_rule, restore_checkpoint,
  restored_rules, managed_rules, user_rules,
}
use devicelane.Shared.{reject-ok}
use devicelane.Dashboard.Policy.Changes.{restored_rules-ok}
use devicelane.Dashboard.Policy.Request.{AccessRequest, Codec}
use devicelane.Dashboard.Policy.Approval.{
  ApprovalDecision, ApprovalChallenge, ApprovalOutcome, ApprovalError, decide, create_approval,
  exact_rule, next_revision,
}
use devicelane.Dashboard.Policy.Nonces.{decide-cases}
use devicelane.Dashboard.Policy.Lifetime.{create_approval-cases}

managed_rules-replace_first :
    (rule existing : PolicyRule) (rules : List PolicyRule)
    → is_managed rule ≡ false
    → is_managed existing ≡ false
    → find (λ item. item.id == rule.id) rules ≡ some existing
    → managed_rules (replace_first rule rules) ≡ managed_rules rules
unfolding replace_first
managed_rules-replace_first rule existing [] m e at = refl
managed_rules-replace_first rule existing (r ∷ rules) m e at = elim (Bool-cases (r.id == rule.id)) [
  | inl same ↦
      let first : r ≡ existing = ground (arith, same, at) in
      rw (same, m, subst (λ x. is_managed x ≡ false) (sym first) e) refl
  | inr other ↦ rw other (
      ap (λ rest. if is_managed r then r ∷ rest else rest)
        (managed_rules-replace_first rule existing rules m e (ground (arith, other, at))))
]

managed_rules-delete :
    (id : String) (rules : List PolicyRule)
    → any (λ rule. rule.id == id && is_managed rule) rules ≡ false
    → managed_rules (retain (λ rule. not (rule.id == id)) rules) ≡ managed_rules rules
managed_rules-delete id [] h = refl
managed_rules-delete id (rule ∷ rules) h = ground (arith, h, managed_rules-delete id rules)

managed_rules-user_rules : (rules : List PolicyRule) → managed_rules (user_rules rules) ≡ []
managed_rules-user_rules [] = refl
managed_rules-user_rules (rule ∷ rules) = ground (arith, managed_rules-user_rules rules)

managed_rules-managed_rules :
    (rules : List PolicyRule) → managed_rules (managed_rules rules) ≡ managed_rules rules
managed_rules-managed_rules [] = refl
managed_rules-managed_rules (rule ∷ rules) = ground (arith, managed_rules-managed_rules rules)

put_rules-managed_rules :
    (rules : List PolicyRule) (rule : PolicyRule) (after : List PolicyRule)
    → put_rules rules rule ≡ ok after
    → managed_rules after ≡ managed_rules rules
unfolding put_rules
put_rules-managed_rules rules rule after h =
    let (_, more) = >>-ok (map_err invalid_rule (validate_rule rule)) _ after h in
    let (origin, found) =
      >>-ok (reject (not (rule.origin == user)) managed_origin_requires_verification) _ after
        more in
    let own = reject-ok _ _ origin in
    let plain : is_managed rule ≡ false = ground (arith, own) in
    elim (Option-cases (find (λ item. item.id == rule.id) rules)) [
      | inr (existing, at) ↦
          let (newer, done) =
            >>-ok
              (reject (is_managed existing || leb rule.revision existing.revision)
                managed_origin_requires_verification)
              _ after (rw at at found) in
          let checks = reject-ok _ _ newer in
          subst (λ x. managed_rules x ≡ managed_rules rules) (ground (arith, done))
            (managed_rules-replace_first rule existing rules plain (ground (arith, checks)) at)
      | inl at ↦
          let (_, done) =
            >>-ok (reject (leb max_policy_rules (length rules)) rule_limit_exceeded) _ after
              (rw at at found) in
          subst (λ x. managed_rules x ≡ managed_rules rules) (ground (arith, done))
            (retain-append is_managed rules (rule ∷ [])
              ∙ rw plain (append-nil (managed_rules rules)))
    ]

-- The calls of users: changes of user rules, restored checkpoints, approvals and decisions.
pub data UserStep (c : Codec) (s after : PolicyEngine) : Type 0 where
  put : (rule : PolicyRule) → (put_user_rule s rule).0 ≡ after → UserStep c s after
  delete : (id : String) → (delete_user_rule s id).0 ≡ after → UserStep c s after
  restore :
      (checkpoint : PolicyEngine) → (restore_checkpoint s checkpoint).0 ≡ after → UserStep c s after
  create :
      (request : AccessRequest) (now_ms lifetime_ms : ℕ) (draws : List Bytes)
      (result : Result ApprovalError ApprovalChallenge)
      → create_approval c s request now_ms lifetime_ms draws ≡ some (after, result)
      → UserStep c s after
  settled :
      (nonce host : String) (request : AccessRequest) (decision : ApprovalDecision) (now_ms : ℕ)
      (result : Result ApprovalError ApprovalOutcome)
      → decide c s nonce host request decision now_ms ≡ some (after, result)
      → UserStep c s after

-- Any number of them.
pub data UserSteps (c : Codec) : PolicyEngine → PolicyEngine → Type 0 where
  stay : {s : PolicyEngine} → UserSteps c s s
  next : {s t u : PolicyEngine} → UserStep c s t → UserSteps c t u → UserSteps c s u

UserStep-managed_rules :
    (c : Codec) (s after : PolicyEngine)
    → UserStep c s after
    → managed_rules after.rules ≡ managed_rules s.rules
unfolding put_user_rule delete_user_rule restore_checkpoint exact_rule PolicyOrigin-discrete
UserStep-managed_rules c s after (UserStep.put rule at) =
    ap (λ x. managed_rules x.rules) (sym at) ∙ elim (Result-cases (put_rules s.rules rule)) [
      | inl (rules, done) ↦
          rw (put_user_rule, done) (put_rules-managed_rules s.rules rule rules done)
      | inr (e, failed) ↦ rw (put_user_rule, failed) refl
    ]
UserStep-managed_rules c s after (UserStep.delete id at) =
    ap (λ x. managed_rules x.rules) (sym at)
    ∙ elim (Bool-cases (any (λ rule. rule.id == id && is_managed rule) s.rules)) [
      | inl protected ↦ rw (delete_user_rule, protected) refl
      | inr free ↦ rw (delete_user_rule, free) (managed_rules-delete id s.rules free)
    ]
UserStep-managed_rules c s after (UserStep.restore checkpoint at) =
    ap (λ x. managed_rules x.rules) (sym at) ∙ elim (Result-cases (restored_rules s checkpoint)) [
      | inl (rules, done) ↦
          rw (restore_checkpoint, done)
            (ap managed_rules (restored_rules-ok s checkpoint rules done).1
              ∙ retain-append is_managed (user_rules checkpoint.rules) (managed_rules s.rules)
              ∙ ap (λ x. x ++ managed_rules (managed_rules s.rules))
                  (managed_rules-user_rules checkpoint.rules)
              ∙ managed_rules-managed_rules s.rules)
      | inr (e, failed) ↦ rw (restore_checkpoint, failed) refl
    ]
UserStep-managed_rules c s after (UserStep.create request now_ms lifetime_ms draws result at) =
    elim (create_approval-cases c s request now_ms lifetime_ms draws after result at) [
      | inl (e, _, same) ↦ ap managed_rules same
      | inr (challenge, _, made) ↦ ap managed_rules made.rules
    ]
UserStep-managed_rules c s after (UserStep.settled nonce host request decision now_ms result at) =
    elim (decide-cases c s nonce host request decision now_ms after result at) [
      | inl (e, _, same) ↦ ap (λ x. managed_rules x.rules) same
      | inr (o, _, (_, _, _, inl (same, _))) ↦ ap managed_rules same
      | inr (o, _, (_, _, _, inr (effect, id, _, _, more))) ↦
          ap managed_rules more
          ∙ retain-append is_managed s.rules
              (exact_rule request effect (next_revision s.rules) id ∷ [])
          ∙ append-nil (managed_rules s.rules)
    ]

-- No sequence of puts and deletions of user rules, restored checkpoints, created approvals and
-- decisions, whether they succeed or fail, adds, removes, changes or reorders a managed rule.
pub UserSteps-managed_rules :
    (c : Codec) (s after : PolicyEngine)
    → UserSteps c s after
    → managed_rules after.rules ≡ managed_rules s.rules
UserSteps-managed_rules c s _ UserSteps.stay = refl
UserSteps-managed_rules c s after (UserSteps.next {t = t} one more) =
    UserSteps-managed_rules c t after more ∙ UserStep-managed_rules c s t one
