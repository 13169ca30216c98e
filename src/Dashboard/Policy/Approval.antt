-- ===== src/Dashboard/Policy/Approval.antt =====
-- Approvals (src/dashboard/policy.rs). The random draws and the codec are parameters, and `none`
-- is a panic.
use devicelane.Shared.{
  ℕ, ◌*◌, min, Bool, true, false, not, ◌&&◌, Option, none, some, List, [], ◌∷◌, ◌++◌, String,
  string_eq, nat_eq, Bytes, bytes_eq, ◌==◌, ltb, leb, if◌then◌else◌, is_some, length, all, take,
  retain, saturating_add, max, map, push_str, trim_end, byte_prefix, Result, ok, err, ◌>>=◌, ◌>>◌,
  reject, ok_or, map_err,
}
use devicelane.Map.{get, insert, contains_key}
use devicelane.Dashboard.Model.{
  PolicyEffect, allow, deny, ResourceClass, workspace_read, workspace_write, artifact_upload,
  artifact_download, device_lease, application_install, application_launch, debugger, signing,
  microphone, screen_capture, network_endpoint, devicelane_policy, devicelane_service, resource_eq,
}
use devicelane.Dashboard.Policy.Rule.{PolicyRule, user, max_policy_rules}
use devicelane.Dashboard.Policy.Request.{AccessRequest, Codec, validate_request, hex}
use devicelane.Dashboard.Policy.Engine.{PolicyEngine, PendingApproval, max_pending_approvals}

abbrev pub max_approval_lifetime_ms : ℕ
max_approval_lifetime_ms = 5 * 60 * 1000

abbrev pub nonce_generation_attempts : ℕ
nonce_generation_attempts = 32

pub data ApprovalDecision : Type 0 where
  allow_once allow_and_remember deny_once deny_and_block : ApprovalDecision

pub record ApprovalChallenge : Type 0 where
  pub nonce : String
  pub expires_at_ms : ℕ

pub record ApprovalOutcome : Type 0 where
  pub decision : ApprovalDecision
  pub created_rule : Option PolicyRule

pub data ApprovalError : Type 0 where
  invalid_request invalid_lifetime unknown_nonce wrong_target request_mismatch : ApprovalError
  expired already_used approval_limit_exceeded rule_limit_exceeded : ApprovalError
  nonce_generation_failed unauthenticated_target_session : ApprovalError

-- The derived order of the resource classes.
abbrev pub rank : ResourceClass → ℕ
rank workspace_read = 0
rank workspace_write = 1
rank artifact_upload = 2
rank artifact_download = 3
rank device_lease = 4
rank application_install = 5
rank application_launch = 6
rank debugger = 7
rank signing = 8
rank microphone = 9
rank screen_capture = 10
rank network_endpoint = 11
rank devicelane_policy = 12
rank devicelane_service = 13

-- `sort_unstable`: equal classes are the same, so every sort gives this.
unfoldable pub insert_sorted : ResourceClass → List ResourceClass → List ResourceClass
insert_sorted r [] = r ∷ []
insert_sorted r (x ∷ xs) = if leb (rank r) (rank x) then r ∷ x ∷ xs else x ∷ insert_sorted r xs

unfoldable pub sort_unstable : List ResourceClass → List ResourceClass
unfolding insert_sorted
sort_unstable [] = []
sort_unstable (r ∷ rs) = insert_sorted r (sort_unstable rs)

-- `Vec::dedup`: of neighbours that are equal, the first.
unfoldable pub dedup_after : ResourceClass → List ResourceClass → List ResourceClass
dedup_after r [] = []
dedup_after r (x ∷ xs) =
    let rest = dedup_after x xs in if r == x then dedup_after r xs else x ∷ rest

unfoldable pub dedup : List ResourceClass → List ResourceClass
unfolding dedup_after
dedup [] = []
dedup (r ∷ rs) = r ∷ dedup_after r rs

unfoldable pub canonical_resources : List ResourceClass → List ResourceClass
unfolding sort_unstable dedup
canonical_resources rs = dedup (sort_unstable rs)

unfoldable pub request_digest : Codec → AccessRequest → Bytes
unfolding canonical_resources
request_digest c request =
    c.sha256 (c.request_json (record request { resources = canonical_resources request.resources }))

-- `none` where the nonce is cut short or inside a character. The id has 41 bytes, within the limit
-- of ids.
unfoldable pub generated_rule_id : String → Option String
unfolding push_str trim_end byte_prefix
generated_rule_id nonce = elim (byte_prefix 32 nonce) [
  | none ↦ none
  | some p ↦ some (trim_end (push_str "approval-" p))
]

unfoldable pub max_revision : List PolicyRule → ℕ
max_revision [] = 0
max_revision (r ∷ rs) = max r.revision (max_revision rs)

unfoldable pub next_revision : List PolicyRule → ℕ
unfolding max_revision
next_revision rules = saturating_add (max_revision rules) 1

unfoldable pub exact_rule : AccessRequest → PolicyEffect → ℕ → String → PolicyRule
unfolding canonical_resources
exact_rule request effect revision id = record {
  id = id;
  revision = revision;
  effect = effect;
  principal_id = some request.principal_id;
  source_host_id = some request.source_host_id;
  target_host_id = some request.target_host_id;
  device_id = request.device_id;
  operation = some request.operation;
  resources = canonical_resources request.resources;
  expires_at_ms = none;
  require_user_presence = false;
  user_presence = some request.user_present;
  physical_device = some request.physical_device;
  match_device_exact = true;
  match_resources_exact = true;
  enabled = true;
  origin = user;
}

-- The comparison with the ids that the pending nonces generate, in the map's order.
unfoldable pub is_new_id : String → List String → Option Bool
unfolding generated_rule_id
is_new_id id [] = some true
is_new_id id (pending ∷ nonces) =
    let rest = is_new_id id nonces in
    elim (generated_rule_id pending) [
      | none ↦ none
      | some other ↦ if other == id then some false else rest
    ]

unfoldable pub is_usable : PolicyEngine → String → Option Bool
unfolding generated_rule_id is_new_id
is_usable s candidate = elim (generated_rule_id candidate) [
  | none ↦ none
  | some id ↦
      if contains_key candidate s.approvals
      then some false
      else elim (is_new_id id (map (λ p. p.0) s.approvals)) [
        | none ↦ none
        | some fresh ↦ some (fresh && all (λ rule. not (rule.id == id)) s.rules)
      ]
]

-- The loop over the draws.
unfoldable pub pick_nonce : PolicyEngine → List Bytes → Option (Option String)
unfolding is_usable hex
pick_nonce s [] = some none
pick_nonce s (bytes ∷ draws) =
    let rest = pick_nonce s draws in
    elim (is_usable s (hex bytes)) [
      | none ↦ none
      | some usable ↦ if usable then some (some (hex bytes)) else rest
    ]

-- What an approval call leaves and returns, `none` for a panic.
abbrev pub Answer : Type 0 → Type 0
Answer A = Option (PolicyEngine × Result ApprovalError A)

abbrev pub sweep : PolicyEngine → ℕ → PolicyEngine
sweep s now_ms = record s {
  approvals = retain (λ p. not p.1.used && ltb now_ms p.1.expires_at_ms) s.approvals;
}

abbrev pub lifetime_end : ℕ → ℕ → ℕ
lifetime_end now_ms lifetime_ms = saturating_add now_ms (min lifetime_ms max_approval_lifetime_ms)

unfoldable pub create_swept :
    Codec → PolicyEngine → AccessRequest → ℕ → List Bytes → Answer ApprovalChallenge
unfolding pick_nonce request_digest insert
create_swept c s request expires_at_ms draws =
    if leb max_pending_approvals (length s.approvals)
    then some (s, err approval_limit_exceeded)
    else elim (pick_nonce s (take nonce_generation_attempts draws)) [
      | none ↦ none
      | some none ↦ some (s, err nonce_generation_failed)
      | some (some nonce) ↦
          let pending : PendingApproval = record {
            request_digest = request_digest c request;
            target_host_id = request.target_host_id;
            expires_at_ms = expires_at_ms;
            used = false;
          } in
          some (
            record s { approvals = insert nonce pending s.approvals },
            ok (record { nonce = nonce; expires_at_ms = expires_at_ms }),
          )
    ]

unfoldable pub create_approval :
    Codec → PolicyEngine → AccessRequest → ℕ → ℕ → List Bytes → Answer ApprovalChallenge
unfolding create_swept validate_request
create_approval c s request now_ms lifetime_ms draws = elim (validate_request c request) [
  | err _ ↦ some (s, err invalid_request)
  | ok _ ↦
      if lifetime_ms == 0
      then some (s, err invalid_lifetime)
      else create_swept c (sweep s now_ms) request (lifetime_end now_ms lifetime_ms) draws
]

-- The effect of the rule that a decision creates.
abbrev pub remembered : ApprovalDecision → Option PolicyEffect
remembered allow_and_remember = some allow
remembered deny_and_block = some deny
remembered allow_once = none
remembered deny_once = none

-- The checks of `decide`, for a target session of a host.
unfoldable pub check_decision :
    Codec
    → PolicyEngine
    → String
    → String
    → AccessRequest
    → ApprovalDecision
    → ℕ
    → Result ApprovalError PendingApproval
unfolding validate_request request_digest get
check_decision c s nonce local_host_id request decision now_ms = do
  map_err (λ _. invalid_request) (validate_request c request)
  pending ← ok_or (get nonce s.approvals) unknown_nonce
  reject pending.used already_used
  reject (leb pending.expires_at_ms now_ms) expired
  reject (not (local_host_id == pending.target_host_id)) wrong_target
  reject (not (request_digest c request == pending.request_digest)) request_mismatch
  reject (is_some (remembered decision) && leb max_policy_rules (length s.rules))
      rule_limit_exceeded
  ok pending

unfoldable pub decide :
    Codec
    → PolicyEngine
    → String
    → String
    → AccessRequest
    → ApprovalDecision
    → ℕ
    → Answer ApprovalOutcome
unfolding check_decision insert next_revision exact_rule generated_rule_id
decide c s nonce local_host_id request decision now_ms =
    elim (check_decision c s nonce local_host_id request decision now_ms) [
      | err e ↦ some (s, err e)
      | ok pending ↦
          let approvals = insert nonce (record pending { used = true }) s.approvals in
          elim (remembered decision) [
            | none ↦ some (
              record s { approvals = approvals },
              ok (record { decision = decision; created_rule = none }),
            )
            | some effect ↦ elim (generated_rule_id nonce) [
              | none ↦ none
              | some id ↦
                  let rule = exact_rule request effect (next_revision s.rules) id in
                  some (
                    record { rules = s.rules ++ rule ∷ []; approvals = approvals },
                    ok (record { decision = decision; created_rule = some rule }),
                  )
            ]
          ]
    ]
