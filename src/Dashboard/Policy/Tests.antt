-- ===== src/Dashboard/Policy/Tests.antt =====
-- Tests of the policy (src/dashboard/policy.rs), with a codec that keeps the number of resources.
use devicelane.Shared.{
  ◌⊎◌, ◌+◌, ◌<◌, ◌≤◌, ℕ, ◌≡◌, refl, inl, inr, none, some, List, [], ◌∷◌, String, Bytes, true, false,
  In, In-cases, In-nil, ok, err, length, arith, zero, suc, string_discrete, ℕ_discrete,
  bytes_discrete,
}
use devicelane.Map.{get}
use devicelane.Dashboard.Model.{allow, deny, workspace_write, debugger}
use devicelane.Dashboard.Policy.Rule.{
  PolicyRule, PolicyOrigin-discrete, PolicyEffect-discrete, user, managed, validate_rule, rule_eq,
}
use devicelane.Dashboard.Policy.Request.{
  AccessRequest, Codec, RemoteOperationGrant, validate_grant, validate_request,
}
use devicelane.Dashboard.Policy.Evaluation.{
  PolicyDecision, is_high_risk, allowed, denied, approval_required, evaluate,
}
use devicelane.Dashboard.Policy.Engine.{PolicyEngine, managed_rules, new}
use devicelane.Dashboard.Policy.Approval.{
  deny_and_block, allow_and_remember, allow_once, ApprovalChallenge, ApprovalOutcome, ApprovalError,
  request_digest, max_approval_lifetime_ms, create_approval, decide, exact_rule,
}
use devicelane.Dashboard.Policy.Decisions.{
  Decides, matching, Within, evaluate-Decides, evaluate_order,
}
use devicelane.Dashboard.Policy.RuleSet.{IsRuleSet}
use devicelane.Dashboard.Policy.Grant.{made_of, new_grant-validate_grant}
use devicelane.RemoteApple.Protocol.{discovery}
use devicelane.Dashboard.Policy.Changes.{Change, run, run-IsRuleSet}
use devicelane.Dashboard.Policy.Managed.{UserStep, UserSteps, UserSteps-managed_rules}
use devicelane.Dashboard.Policy.Nonces.{decide_once}
use devicelane.Dashboard.Policy.Lifetime.{decide-create_approval, create_approval-decide}
use devicelane.Dashboard.Policy.Effects.{evaluate-deny_and_block, evaluate-allow_and_remember}

abbrev codec : Codec
codec = record {
  envelope_json = λ _ _ _ _. [];
  request_json = λ request. length request.resources ∷ [];
  sha256 = λ bytes. bytes;
}

abbrev request : AccessRequest
request = record {
  activity_id = "activity";
  principal_id = "principal";
  source_host_id = "source";
  target_host_id = "target";
  device_id = none;
  operation = "workspace.write";
  resources = workspace_write ∷ [];
  remote_operation = none;
  physical_device = false;
  user_present = false;
}

abbrev allow_target : PolicyRule
allow_target = record {
  id = "allow-target";
  revision = 1;
  effect = allow;
  principal_id = none;
  source_host_id = none;
  target_host_id = some "target";
  device_id = none;
  operation = none;
  resources = [];
  expires_at_ms = none;
  require_user_presence = false;
  user_presence = none;
  physical_device = none;
  match_device_exact = false;
  match_resources_exact = false;
  enabled = true;
  origin = managed;
}

abbrev deny_principal : PolicyRule
deny_principal = record allow_target {
  id = "deny-principal";
  effect = deny;
  principal_id = some "principal";
  origin = user;
}

abbrev zeros : ℕ → Bytes
zeros zero = []
zeros (suc n) = 0 ∷ zeros n

abbrev drawn : List Bytes
drawn = zeros 32 ∷ []

abbrev engine : PolicyEngine
engine = record { rules = allow_target ∷ []; approvals = [] }

request-valid : validate_request codec request ≡ ok tt
unfolding validate_request
request-valid = refl

denies :
    evaluate codec (allow_target ∷ deny_principal ∷ []) request 0 ≡ ok (denied "deny-principal")
unfolding evaluate string_discrete PolicyEffect-discrete
denies = refl

debugs :
    evaluate codec engine.rules (record request { resources = debugger ∷ [] }) 0
    ≡ ok (allowed "allow-target")
unfolding evaluate string_discrete PolicyEffect-discrete PolicyOrigin-discrete
debugs = refl

asks : evaluate codec [] request 0 ≡ ok (approval_required "no_matching_rule")
unfolding evaluate ℕ_discrete
asks = refl

-- The nonce of the draw.
abbrev nonce : String
nonce = "0000000000000000000000000000000000000000000000000000000000000000"

abbrev asked : PolicyEngine
asked = record engine {
  approvals =
      (
        nonce,
        record {
          request_digest = 1 ∷ [];
          target_host_id = "target";
          expires_at_ms = 400;
          used = false;
        },
      )
      ∷ [];
}

abbrev challenge : ApprovalChallenge
challenge = record { nonce = nonce; expires_at_ms = 400 }

creates : create_approval codec engine request 100 300 drawn ≡ some (asked, ok challenge)
unfolding create_approval get ℕ_discrete string_discrete
creates = refl

abbrev denied_rule : PolicyRule
denied_rule = exact_rule request deny 2 "approval-00000000000000000000000000000000"

abbrev blocked : PolicyEngine
blocked = record {
  rules = allow_target ∷ denied_rule ∷ [];
  approvals =
      (
        nonce,
        record {
          request_digest = 1 ∷ [];
          target_host_id = "target";
          expires_at_ms = 400;
          used = true;
        },
      )
      ∷ [];
}

blocks :
    decide codec asked nonce "target" request deny_and_block 200
    ≡ some (blocked, ok (record { decision = deny_and_block; created_rule = some denied_rule }))
unfolding decide ℕ_discrete string_discrete bytes_discrete
blocks = refl

abbrev allowed_rule : PolicyRule
allowed_rule = exact_rule request allow 2 "approval-00000000000000000000000000000000"

abbrev trusting : PolicyEngine
trusting = record blocked { rules = allow_target ∷ allowed_rule ∷ [] }

trusts :
    decide codec asked nonce "target" request allow_and_remember 200
    ≡ some
        (trusting, ok (record { decision = allow_and_remember; created_rule = some allowed_rule }))
unfolding decide get ℕ_discrete string_discrete bytes_discrete
trusts = refl

evaluate-Decides_example :
    (d : PolicyDecision) × (evaluate codec (allow_target ∷ deny_principal ∷ []) request 0 ≡ ok d)
    × Decides (matching (allow_target ∷ deny_principal ∷ []) request 0) request d
evaluate-Decides_example =
    evaluate-Decides codec (allow_target ∷ deny_principal ∷ []) request 0 request-valid

Within-swap : (a b : PolicyRule) → Within (a ∷ b ∷ []) (b ∷ a ∷ [])
Within-swap a b x h = elim (In-cases x a (b ∷ []) h) [
  | inl same ↦ In.there (In.here same)
  | inr later ↦ elim (In-cases x b [] later) [
    | inl same ↦ In.here same
    | inr never ↦ absurd (In-nil x never)
  ]
]

evaluate_order_example :
    evaluate codec (allow_target ∷ deny_principal ∷ []) request 0
    ≡ evaluate codec (deny_principal ∷ allow_target ∷ []) request 0
evaluate_order_example =
    evaluate_order codec (allow_target ∷ deny_principal ∷ []) (deny_principal ∷ allow_target ∷ [])
      request 0 (Within-swap allow_target deny_principal) (Within-swap deny_principal allow_target)

engine-IsRuleSet : IsRuleSet engine.rules
unfolding validate_rule
engine-IsRuleSet = record { valid = (refl, tt); distinct = (tt, tt); bounded = omega arith }

run-IsRuleSet_example :
    IsRuleSet
      (run engine (
        Change.put deny_principal
        ∷ Change.restore new
        ∷ Change.add_managed (allow_target ∷ [])
        ∷ Change.delete "deny-principal"
        ∷ [])).rules
run-IsRuleSet_example =
    run-IsRuleSet engine
      (Change.put deny_principal
        ∷ Change.restore new
        ∷ Change.add_managed (allow_target ∷ [])
        ∷ Change.delete "deny-principal"
        ∷ [])
      engine-IsRuleSet

UserSteps-managed_rules_example : managed_rules blocked.rules ≡ managed_rules engine.rules
UserSteps-managed_rules_example = UserSteps-managed_rules codec engine blocked (
    UserSteps.next (UserStep.create request 100 300 drawn (ok challenge) creates) (
      UserSteps.next
        (UserStep.settled nonce "target" request deny_and_block 200
          (ok (record { decision = deny_and_block; created_rule = some denied_rule })) blocks)
        UserSteps.stay))

decide_once_example :
    (e : ApprovalError) × (decide codec blocked nonce "target" request allow_and_remember 210
      ≡ some (blocked, err e))
decide_once_example =
    decide_once codec asked blocked nonce "target" "target" request request deny_and_block
      allow_and_remember 200 210
      (record { decision = deny_and_block; created_rule = some denied_rule }) blocks

decide-create_approval_example :
    ("target" ≡ request.target_host_id)
    × (request_digest codec request ≡ request_digest codec request)
    × (200 < challenge.expires_at_ms)
    × (challenge.expires_at_ms ≤ 100 + max_approval_lifetime_ms)
decide-create_approval_example =
    decide-create_approval codec engine request 100 300 drawn asked blocked challenge "target"
      request deny_and_block 200
      (record { decision = deny_and_block; created_rule = some denied_rule }) creates blocks

create_approval-decide_example :
    (final : PolicyEngine) × (outcome : ApprovalOutcome) × (decide codec asked challenge.nonce
        request.target_host_id request allow_once 200
      ≡ some (final, ok outcome))
create_approval-decide_example =
    create_approval-decide codec engine request 100 300 drawn asked challenge allow_once 200 creates
      request-valid (omega arith) (omega arith)

evaluate-deny_and_block_example :
    (id : String) × (evaluate codec blocked.rules request 999 ≡ ok (denied id))
evaluate-deny_and_block_example =
    evaluate-deny_and_block codec asked blocked nonce "target" request 200 999
      (record { decision = deny_and_block; created_rule = some denied_rule }) blocks

plain : is_high_risk request ≡ false
unfolding is_high_risk ℕ_discrete
plain = refl

evaluate-allow_and_remember_example :
    (id : String) × ((evaluate codec trusting.rules request 999 ≡ ok (allowed id))
      ⊎ (evaluate codec trusting.rules request 999 ≡ ok (denied id)))
evaluate-allow_and_remember_example =
    evaluate-allow_and_remember codec asked trusting nonce "target" request 200 999
      (record { decision = allow_and_remember; created_rule = some allowed_rule }) plain trusts

abbrev remote_grant : RemoteOperationGrant
remote_grant = record {
  request_id = "r-1";
  workspace_path = "app/ios";
  device_id = none;
  operation = discovery;
  canonical_sha256 = "";
}

new_grant-validate_grant_example :
    (validate_grant codec remote_grant ≡ ok tt → made_of codec remote_grant ≡ ok remote_grant)
    × (made_of codec remote_grant ≡ ok remote_grant → validate_grant codec remote_grant ≡ ok tt)
new_grant-validate_grant_example = new_grant-validate_grant codec remote_grant
