-- ===== src/Dashboard/Policy/Decisions.antt =====
-- What an evaluation decides (src/dashboard/policy.rs), said of the rules as a set.
use devicelane.Shared.{
  ℕ, ◌≡◌, refl, sym, ◌∙◌, ap, inl, inr, Bool, Bool-cases, List, if◌then◌else◌, retain, In,
  In-retain, retain-In, Result-cases, ok,
}
use devicelane.Dashboard.Model.{PolicyEffect, allow, deny}
use devicelane.Dashboard.Policy.Rule.{PolicyRule, is_managed, origin_eq}
use devicelane.Dashboard.Policy.Request.{AccessRequest, Codec, validate_request}
use devicelane.Dashboard.Policy.Evaluation.{
  PolicyDecision, allowed, denied, approval_required, rule_matches, is_high_risk, decide_by,
  evaluate,
}
use devicelane.Dashboard.Policy.Order.{IsSelected, IsSelected-unique, Without, select_rule-cases}

-- The rules that match a request.
abbrev pub matching : List PolicyRule → AccessRequest → ℕ → List PolicyRule
matching rules request now_ms = retain (λ rule. rule_matches rule request now_ms) rules

-- The matching rules that may allow a request: of a risky one, the managed ones only.
abbrev pub granting : List PolicyRule → AccessRequest → List PolicyRule
granting rules request = if is_high_risk request then retain is_managed rules else rules

-- What a decision by the matching rules says.
abbrev pub Decides : List PolicyRule → AccessRequest → PolicyDecision → Type 0
Decides rules request (denied id) = (r : PolicyRule) × (r.id ≡ id) × IsSelected deny r rules
Decides rules request (allowed id) =
    Without deny rules
    × ((r : PolicyRule) × (r.id ≡ id) × IsSelected allow r (granting rules request))
Decides rules request (approval_required reason) =
    Without deny rules
    × Without allow (granting rules request)
    × (reason ≡ (if is_high_risk request then "fresh_target_confirmation" else "no_matching_rule"))

decide_by-Decides :
    (rules : List PolicyRule) (request : AccessRequest)
    → Decides rules request (decide_by rules request)
unfolding decide_by
decide_by-Decides rules request = elim (select_rule-cases rules deny) [
  | inr (r, at, selected) ↦ rw (at, decide_by) (r, refl, selected)
  | inl (at, clear) ↦ elim (Bool-cases (is_high_risk request)) [
    | inl risky ↦ elim (select_rule-cases (retain is_managed rules) allow) [
      | inr (r, found, selected) ↦
          rw (at, risky, found, decide_by) (clear, (r, refl, rw risky selected))
      | inl (found, nobody) ↦
          rw (at, risky, found, decide_by) (clear, rw risky nobody, rw risky refl)
    ]
    | inr safe ↦ elim (select_rule-cases rules allow) [
      | inr (r, found, selected) ↦
          rw (at, safe, found, decide_by) (clear, (r, refl, rw safe selected))
      | inl (found, nobody) ↦ rw (at, safe, found, decide_by) (clear, rw safe nobody, rw safe refl)
    ]
  ]
]

-- `evaluate` of a valid request returns a decision that is right for the matching rules as a set:
-- denied by the rule of highest precedence (specificity, revision, id) that denies, if any rule
-- denies; else allowed by the rule of highest precedence that allows, where a request of high risk
-- counts managed rules only; else an approval is required, with the reason that says which.
pub evaluate-Decides :
    (c : Codec) (rules : List PolicyRule) (request : AccessRequest) (now_ms : ℕ)
    → validate_request c request ≡ ok tt
    → (d : PolicyDecision) × (evaluate c rules request now_ms ≡ ok d)
      × Decides (matching rules request now_ms) request d
unfolding evaluate
evaluate-Decides c rules request now_ms valid = (
  decide_by (matching rules request now_ms) request,
  rw (valid, evaluate) refl,
  decide_by-Decides (matching rules request now_ms) request,
)

-- Every rule of the one list is in the other.
abbrev pub Within : List PolicyRule → List PolicyRule → Type 0
Within rules others = (x : PolicyRule) → In x rules → In x others

retain-Within :
    (p : PolicyRule → Bool) (rules others : List PolicyRule)
    → Within rules others
    → Within (retain p rules) (retain p others)
retain-Within p rules others h x k =
    let (member, passes) = retain-In p x rules k in In-retain p x others (h x member) passes

granting-Within :
    (rules others : List PolicyRule) (request : AccessRequest)
    → Within rules others
    → Within (granting rules request) (granting others request)
granting-Within rules others request h = elim (Bool-cases (is_high_risk request)) [
  | inl risky ↦ rw risky (retain-Within is_managed rules others h)
  | inr safe ↦ rw safe h
]

clash :
    (effect : PolicyEffect) (r : PolicyRule) (rules others : List PolicyRule)
    → Within rules others
    → IsSelected effect r rules
    → Without effect others
    → ⊥
clash effect r rules others h s none_there = none_there r (h r s.member) s.has_effect

Decides-unique :
    (rules others : List PolicyRule) (request : AccessRequest) (d e : PolicyDecision)
    → Within rules others
    → Within others rules
    → Decides rules request d
    → Decides others request e
    → d ≡ e
Decides-unique rules others request (denied i) (denied j) f g (r, ri, s) (q, qj, t) =
    ap denied (sym ri ∙ IsSelected-unique deny r q rules others f g s t ∙ qj)
Decides-unique rules others request (denied i) (allowed j) f g (r, ri, s) (clear, t) =
    absurd (clash deny r rules others f s clear)
Decides-unique rules others request (denied i) (approval_required j) f g (r, ri, s) (clear, t, _) =
    absurd (clash deny r rules others f s clear)
Decides-unique rules others request (allowed i) (denied j) f g (clear, s) (q, qj, t) =
    absurd (clash deny q others rules g t clear)
Decides-unique rules others request (allowed i) (allowed j) f g (clear, (r, ri, s))
      (clear', (q, qj, t)) =
    ap allowed (
      sym ri
      ∙ IsSelected-unique allow r q (granting rules request) (granting others request)
          (granting-Within rules others request f) (granting-Within others rules request g) s t
      ∙ qj)
Decides-unique rules others request (allowed i) (approval_required j) f g (clear, (r, ri, s))
      (clear', nobody, _) =
    absurd (
      clash allow r (granting rules request) (granting others request)
        (granting-Within rules others request f) s nobody)
Decides-unique rules others request (approval_required i) (denied j) f g (clear, s, _) (q, qj, t) =
    absurd (clash deny q others rules g t clear)
Decides-unique rules others request (approval_required i) (allowed j) f g (clear, nobody, _)
      (clear', (q, qj, t)) =
    absurd (
      clash allow q (granting others request) (granting rules request)
        (granting-Within others rules request g) t nobody)
Decides-unique rules others request (approval_required i) (approval_required j) f g (_, _, ri)
      (_, _, qj) =
    ap approval_required (ri ∙ sym qj)

-- Two rule lists with the same members, in any order and with any repetition, evaluate every
-- request alike, errors included.
pub evaluate_order :
    (c : Codec) (rules others : List PolicyRule) (request : AccessRequest) (now_ms : ℕ)
    → Within rules others
    → Within others rules
    → evaluate c rules request now_ms ≡ evaluate c others request now_ms
unfolding evaluate
evaluate_order c rules others request now_ms f g =
    elim (Result-cases (validate_request c request)) [
      | inr (e, invalid) ↦ rw (invalid, evaluate) refl
      | inl (done, valid) ↦
          rw (valid, evaluate)
            (ap ok (
              Decides-unique (matching rules request now_ms) (matching others request now_ms)
                request (decide_by (matching rules request now_ms) request)
                (decide_by (matching others request now_ms) request)
                (retain-Within _ rules others f) (retain-Within _ others rules g)
                (decide_by-Decides (matching rules request now_ms) request)
                (decide_by-Decides (matching others request now_ms) request)))
    ]
