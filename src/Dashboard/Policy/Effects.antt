-- ===== src/Dashboard/Policy/Effects.antt =====
-- What decisions do to later evaluations (src/dashboard/policy.rs).
use devicelane.Shared.{
  ℕ, ◌≡◌, refl, ◌∙◌, ap, inl, inr, ◌⊎◌, false, some, List, String, In, In-retain, In-last,
  Result-cases, ok, err, arith,
}
use devicelane.Dashboard.Model.{PolicyEffect, allow, deny}
use devicelane.Dashboard.Policy.Rule.{PolicyRule}
use devicelane.Dashboard.Policy.Request.{AccessRequest, Codec, validate_request}
use devicelane.Dashboard.Policy.Evaluation.{
  PolicyDecision, allowed, denied, approval_required, is_high_risk, evaluate,
}
use devicelane.Dashboard.Policy.Decisions.{Decides, matching, evaluate-Decides}
use devicelane.Dashboard.Policy.Engine.{PolicyEngine}
use devicelane.Dashboard.Policy.Approval.{
  ApprovalDecision, ApprovalOutcome, invalid_request, deny_and_block, allow_and_remember,
  remembered, check_decision, decide, exact_rule, next_revision,
}
use devicelane.Dashboard.Policy.Nonces.{decide-cases}
use devicelane.Dashboard.Policy.Remembered.{rule_matches-exact_rule}

check_decision-valid :
    (c : Codec) (s : PolicyEngine) (nonce host : String) (request : AccessRequest)
    (decision : ApprovalDecision) (now_ms : ℕ) (pending : _)
    → check_decision c s nonce host request decision now_ms ≡ ok pending
    → validate_request c request ≡ ok tt
unfolding check_decision
check_decision-valid c s nonce host request decision now_ms pending h =
    elim (Result-cases (validate_request c request)) [
      | inl (tt, valid) ↦ valid
      | inr (e, invalid) ↦
          let refused : err invalid_request ≡ ok pending = rw (check_decision, invalid) at h in
          absurd (ground (arith, refused))
    ]

-- A matching rule that denies.
Decides-deny :
    (rules : List PolicyRule) (request : AccessRequest) (d : PolicyDecision) (r : PolicyRule)
    → In r rules
    → r.effect ≡ deny
    → Decides rules request d
    → (id : String) × (d ≡ denied id)
Decides-deny rules request (denied id) r member h s = (id, refl)
Decides-deny rules request (allowed id) r member h (clear, _) = absurd (clear r member h)
Decides-deny rules request (approval_required reason) r member h (clear, _, _) =
    absurd (clear r member h)

-- A matching rule that allows a request without a high risk.
Decides-allow :
    (rules : List PolicyRule) (request : AccessRequest) (d : PolicyDecision) (r : PolicyRule)
    → is_high_risk request ≡ false
    → In r rules
    → r.effect ≡ allow
    → Decides rules request d
    → (id : String) × ((d ≡ allowed id) ⊎ (d ≡ denied id))
Decides-allow rules request (denied id) r safe member h s = (id, inr refl)
Decides-allow rules request (allowed id) r safe member h s = (id, inl refl)
Decides-allow rules request (approval_required reason) r safe member h (_, clear, _) =
    absurd ((rw safe at clear) r member h)

module _ (c : Codec) (s after : PolicyEngine) (nonce host : String) (request : AccessRequest)
    (now_ms later : ℕ) (outcome : ApprovalOutcome) where
  -- A rule of the decision's effect matches the request from then on.
  remembered-matching :
      (decision : ApprovalDecision) (effect : PolicyEffect)
      → remembered decision ≡ some effect
      → decide c s nonce host request decision now_ms ≡ some (after, ok outcome)
      → (validate_request c request ≡ ok tt)
        × ((r : PolicyRule) × (r.effect ≡ effect) × In r (matching after.rules request later))
  unfolding exact_rule
  remembered-matching decision effect ever h =
      elim (decide-cases c s nonce host request decision now_ms after (ok outcome) h) [
        | inl (e, refused, _) ↦ absurd (ground (arith, refused))
        | inr (o, _, (pending, passed, _, inl (_, once))) ↦ absurd (ground (arith, once, ever))
        | inr (o, _, (pending, passed, _, inr (other, id, such, named, rules))) ↦
            let valid =
              check_decision-valid c s nonce host request decision now_ms pending passed in
            let rule = exact_rule request other (next_revision s.rules) id in
            (
              valid,
              (
                rule,
                ground (arith, such, ever),
                In-retain _ rule after.rules (rw rules (In-last rule s.rules)) (
                    rule_matches-exact_rule c request other (next_revision s.rules) id later valid),
              ),
            )
      ]

  -- After a decision to deny and block succeeds, the same request is denied at every later
  -- evaluation of the rules that it leaves.
  pub evaluate-deny_and_block :
      decide c s nonce host request deny_and_block now_ms ≡ some (after, ok outcome)
      → (id : String) × (evaluate c after.rules request later ≡ ok (denied id))
  evaluate-deny_and_block h =
      let (valid, (r, deny_it, member)) = remembered-matching deny_and_block deny refl h in
      let (d, at, decides) = evaluate-Decides c after.rules request later valid in
      let (id, same) = Decides-deny _ request d r member deny_it decides in (id, at ∙ ap ok same)

  -- After a decision to allow and remember succeeds on a request without high risk, the same
  -- request is allowed, or denied by a rule, but never asks for approval, at every later
  -- evaluation of the rules that it leaves.
  pub evaluate-allow_and_remember :
      is_high_risk request ≡ false
      → decide c s nonce host request allow_and_remember now_ms ≡ some (after, ok outcome)
      → (id : String) × ((evaluate c after.rules request later ≡ ok (allowed id))
          ⊎ (evaluate c after.rules request later ≡ ok (denied id)))
  evaluate-allow_and_remember safe h =
      let (valid, (r, allow_it, member)) = remembered-matching allow_and_remember allow refl h in
      let (d, at, decides) = evaluate-Decides c after.rules request later valid in
      let (id, which) = Decides-allow _ request d r safe member allow_it decides in
      elim which [ inl same ↦ (id, inl (at ∙ ap ok same)) | inr same ↦ (id, inr (at ∙ ap ok same)) ]
