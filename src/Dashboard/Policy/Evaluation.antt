-- ===== src/Dashboard/Policy/Evaluation.antt =====
-- The evaluation of access requests (src/dashboard/policy.rs).
use devicelane.Shared.{
  ℕ, ◌+◌, Bool, true, false, not, ◌&&◌, ◌||◌, Option, none, some, List, [], ◌∷◌, String, string_eq,
  option_string_eq, bool_eq, nat_eq, ◌==◌, ltb, if◌then◌else◌, is_some, is_none_or, length, all,
  any, retain, contains, codes, leb_codes, is_prefix, Result, ok, ◌>>◌,
}
use devicelane.Dashboard.Model.{
  PolicyEffect, allow, deny, ResourceClass, debugger, signing, microphone, screen_capture,
  application_install, resource_eq,
}
use devicelane.Dashboard.Policy.Rule.{PolicyRule, effect_eq, is_managed}
use devicelane.Dashboard.Policy.Request.{AccessRequest, Codec, PolicyError, validate_request}

pub data PolicyDecision : Type 0 where
  allowed denied : String → PolicyDecision
  approval_required : String → PolicyDecision

unfoldable pub same_resources : List ResourceClass → List ResourceClass → Bool
same_resources left right = length left == length right && all (λ r. contains right r) left

abbrev pub is_empty : List ResourceClass → Bool
is_empty [] = true
is_empty (_ ∷ _) = false

unfoldable pub rule_matches : PolicyRule → AccessRequest → ℕ → Bool
unfolding same_resources
rule_matches rule request now_ms =
    rule.enabled
    && (is_none_or rule.expires_at_ms (λ expiry. ltb now_ms expiry)
        && (is_none_or rule.principal_id (λ value. value == request.principal_id)
            && (is_none_or rule.source_host_id (λ value. value == request.source_host_id)
                && (is_none_or rule.target_host_id (λ value. value == request.target_host_id)
                    && ((if rule.match_device_exact
                          then rule.device_id == request.device_id
                          else is_none_or rule.device_id (λ value. request.device_id == some value))
                        && (is_none_or rule.operation (λ value. value == request.operation)
                            && ((if rule.match_resources_exact
                                  then same_resources rule.resources request.resources
                                  else is_empty rule.resources
                                    || same_resources rule.resources request.resources)
                                && ((not rule.require_user_presence || request.user_present)
                                    && (is_none_or rule.user_presence
                                          (λ value. value == request.user_present)
                                        && is_none_or rule.physical_device
                                            (λ value. value == request.physical_device))))))))))

-- `u8::from`. The sum is eight at most.
abbrev pub as_u8 : Bool → ℕ
as_u8 b = if b then 1 else 0

unfoldable pub specificity : PolicyRule → ℕ
specificity rule =
    as_u8 (is_some rule.principal_id)
    + (as_u8 (is_some rule.source_host_id)
        + (as_u8 (is_some rule.target_host_id)
            + (as_u8 (is_some rule.device_id || rule.match_device_exact)
                + (as_u8 (is_some rule.operation)
                    + (as_u8 (not (is_empty rule.resources) || rule.match_resources_exact)
                        + (as_u8 (rule.require_user_presence || is_some rule.user_presence)
                            + as_u8 (is_some rule.physical_device)))))))

-- The order of the keys: specificity, revision, id.
unfoldable pub key_le : PolicyRule → PolicyRule → Bool
unfolding specificity codes
key_le a b =
    ltb (specificity a) (specificity b)
    || (specificity a == specificity b
        && (ltb a.revision b.revision
            || (a.revision == b.revision && leb_codes (codes a.id) (codes b.id))))

-- `Iterator::max_by_key`: the last of the greatest.
unfoldable pub max_from : PolicyRule → List PolicyRule → PolicyRule
unfolding key_le
max_from best [] = best
max_from best (r ∷ rs) = max_from (if key_le best r then r else best) rs

unfoldable pub max_rule : List PolicyRule → Option PolicyRule
unfolding max_from
max_rule [] = none
max_rule (r ∷ rs) = some (max_from r rs)

unfoldable pub select_rule : List PolicyRule → PolicyEffect → Option PolicyRule
unfolding max_rule
select_rule rules effect = max_rule (retain (λ rule. rule.effect == effect) rules)

abbrev pub is_sensitive : ResourceClass → Bool
is_sensitive debugger = true
is_sensitive signing = true
is_sensitive microphone = true
is_sensitive screen_capture = true
is_sensitive _ = false

unfoldable pub is_high_risk : AccessRequest → Bool
unfolding codes
is_high_risk request =
    any is_sensitive request.resources
    || (is_prefix (codes "keychain.") (codes request.operation)
        || (is_prefix (codes "devicelane.policy.") (codes request.operation)
            || (is_prefix (codes "devicelane.service.") (codes request.operation)
                || (request.physical_device && contains request.resources application_install))))

-- The decision of a valid request by the rules that match it.
unfoldable pub decide_by : List PolicyRule → AccessRequest → PolicyDecision
unfolding select_rule is_high_risk
decide_by matching request = elim (select_rule matching deny) [
  | some rule ↦ denied rule.id
  | none ↦
      if is_high_risk request
      then elim (select_rule (retain is_managed matching) allow) [
        | some rule ↦ allowed rule.id
        | none ↦ approval_required "fresh_target_confirmation"
      ]
      else elim (select_rule matching allow) [
        | some rule ↦ allowed rule.id
        | none ↦ approval_required "no_matching_rule"
      ]
]

unfoldable pub evaluate :
    Codec → List PolicyRule → AccessRequest → ℕ → Result PolicyError PolicyDecision
unfolding validate_request rule_matches decide_by
evaluate c rules request now_ms = do
  validate_request c request
  ok (decide_by (retain (λ rule. rule_matches rule request now_ms) rules) request)
