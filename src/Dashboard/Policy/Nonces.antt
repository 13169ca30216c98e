-- ===== src/Dashboard/Policy/Nonces.antt =====
-- What an approval's nonce stands for (src/dashboard/policy.rs).
use devicelane.Shared.{
  ℕ, ◌<◌, ◌≡◌, refl, ap, subst, inl, inr, ◌⊎◌, Option-cases, true, false, not, ◌&&◌, Option, none,
  some, [], ◌∷◌, ◌++◌, String, string_eq, nat_eq, bytes_eq, ◌==◌, leb, is_some, length, Result,
  Result-cases, ok, err, map_err, reject, ok_or, >>-ok, >>=-ok, ok_or-ok, arith,
}
use devicelane.Map.{Map, get, insert, get-insert}
use devicelane.Dashboard.Model.{PolicyEffect}
use devicelane.Dashboard.Policy.Rule.{max_policy_rules}
use devicelane.Dashboard.Policy.Request.{AccessRequest, Codec, validate_request}
use devicelane.Dashboard.Policy.Engine.{PolicyEngine, PendingApproval}
use devicelane.Shared.{reject-ok}
use devicelane.Dashboard.Policy.Approval.{
  ApprovalDecision, ApprovalOutcome, ApprovalError, invalid_request, unknown_nonce, wrong_target,
  request_mismatch, expired, already_used, rule_limit_exceeded, remembered, check_decision, decide,
  request_digest, generated_rule_id, exact_rule, next_revision,
}

pub some-pair {ℓ κ} :
    {A : Type ℓ} {B : Type κ} (a x : A) (b y : B)
    → ◌≡◌ {A = Option (A × B)} (some (a, b)) (some (x, y))
    → (x ≡ a) × (y ≡ b)
some-pair a x b y h = (cc, cc)

abbrev pub spent : PolicyEngine → String → PendingApproval → Map String PendingApproval
spent s nonce pending = insert nonce (record pending { used = true }) s.approvals

module _ (c : Codec) (s : PolicyEngine) (nonce host : String) (request : AccessRequest)
    (decision : ApprovalDecision) (now_ms : ℕ) where
  -- What a decision that the checks let through leaves.
  abbrev pub Decided : PolicyEngine → ApprovalOutcome → Type 0
  Decided after outcome =
      (pending : PendingApproval) × (check_decision c s nonce host request decision now_ms
        ≡ ok pending)
      × (after.approvals ≡ spent s nonce pending)
      × ((after.rules ≡ s.rules) × (remembered decision ≡ none)
          ⊎ ((effect : PolicyEffect) × (id : String) × (remembered decision ≡ some effect)
              × (generated_rule_id nonce ≡ some id)
              × (after.rules
                  ≡ s.rules ++ exact_rule request effect (next_revision s.rules) id ∷ [])))

  pub decide-cases :
      (after : PolicyEngine) (result : Result ApprovalError ApprovalOutcome)
      → decide c s nonce host request decision now_ms ≡ some (after, result)
      → ((e : ApprovalError) × (result ≡ err e) × (after ≡ s))
        ⊎ ((outcome : ApprovalOutcome) × (result ≡ ok outcome) × Decided after outcome)
  unfolding decide
  decide-cases after result h =
      elim (Result-cases (check_decision c s nonce host request decision now_ms)) [
        | inr (e, refused) ↦
            let (left, returned) = some-pair s after (err e) result (rw (decide, refused) at h) in
            inl (e, returned, left)
        | inl (pending, passed) ↦ elim (Option-cases (remembered decision)) [
          | inl once ↦
              let (left, returned) = some-pair _ after _ result (rw (decide, passed, once) at h) in
              inr (
                _,
                returned,
                (pending, passed, ap (λ x. x.approvals) left, inl (ap (λ x. x.rules) left, once)),
              )
          | inr (effect, ever) ↦ elim (Option-cases (generated_rule_id nonce)) [
            | inl short ↦
                let panic : none ≡ some (after, result) = rw (decide, passed, ever, short) at h in
                absurd (ground (arith, panic))
            | inr (id, named) ↦
                let (left, returned) =
                  some-pair _ after _ result (rw (decide, passed, ever, named) at h) in
                inr (
                  _,
                  returned,
                  (
                    pending,
                    passed,
                    ap (λ x. x.approvals) left,
                    inr (effect, id, ever, named, ap (λ x. x.rules) left),
                  ),
                )
          ]
        ]
      ]

module _ (c : Codec) (s : PolicyEngine) (nonce host : String) (request : AccessRequest)
    (decision : ApprovalDecision) (now_ms : ℕ) where
  -- What the nonce is bound to.
  pub record IsBound (pending : PendingApproval) : Type 0 where
    pub found : get nonce s.approvals ≡ some pending
    pub unused : pending.used ≡ false
    pub live : now_ms < pending.expires_at_ms
    pub target : host ≡ pending.target_host_id
    pub digest : request_digest c request ≡ pending.request_digest
    pub room : (is_some (remembered decision) && leb max_policy_rules (length s.rules)) ≡ false

  pub check_decision-IsBound :
      (pending : PendingApproval)
      → check_decision c s nonce host request decision now_ms ≡ ok pending
      → IsBound pending
  unfolding check_decision
  check_decision-IsBound pending h =
      let (_, a) =
        >>-ok (map_err (λ _. invalid_request) (validate_request c request)) _ pending h in
      let (p, found, b) = >>=-ok (ok_or (get nonce s.approvals) unknown_nonce) _ pending a in
      let (u, d) = >>-ok (reject p.used already_used) _ pending b in
      let (l, e) = >>-ok (reject (leb p.expires_at_ms now_ms) expired) _ pending d in
      let (t, f) = >>-ok (reject (not (host == p.target_host_id)) wrong_target) _ pending e in
      let (g, i) =
        >>-ok (reject (not (request_digest c request == p.request_digest)) request_mismatch) _
          pending f in
      let (r, done) =
        >>-ok
          (reject (is_some (remembered decision) && leb max_policy_rules (length s.rules))
            rule_limit_exceeded)
          _ pending i in
      let target = reject-ok _ _ t in
      let digest = reject-ok _ _ g in
      let live = reject-ok _ _ l in
      subst IsBound (ground (arith, done)) (record {
        found = ok_or-ok (get nonce s.approvals) unknown_nonce p found;
        unused = reject-ok _ _ u;
        live = ground (arith, live);
        target = ground (arith, target);
        digest = ground (arith, digest);
        room = reject-ok _ _ r;
      })

  pub IsBound-check_decision :
      (pending : PendingApproval)
      → validate_request c request ≡ ok tt
      → IsBound pending
      → check_decision c s nonce host request decision now_ms ≡ ok pending
  unfolding check_decision
  IsBound-check_decision pending valid b =
      let live : leb pending.expires_at_ms now_ms ≡ false = ground (arith, b.live) in
      let target : (host == pending.target_host_id) ≡ true = ground (arith, b.target) in
      let digest : (request_digest c request == pending.request_digest) ≡ true =
        ground (arith, b.digest) in
      rw (check_decision, valid, b.found, b.unused, live, target, digest, b.room) refl

  -- A used nonce is refused.
  check_decision_used :
      (pending : PendingApproval)
      → get nonce s.approvals ≡ some pending
      → pending.used ≡ true
      → (e : ApprovalError) × (check_decision c s nonce host request decision now_ms ≡ err e)
  unfolding check_decision
  check_decision_used pending found used = elim (Result-cases (validate_request c request)) [
    | inl (tt, valid) ↦ (already_used, rw (check_decision, valid, found, used) refl)
    | inr (e, invalid) ↦ (invalid_request, rw (check_decision, invalid) refl)
  ]

-- After a decision that succeeds, any second decision with the same nonce, for any host, request,
-- decision and time, is refused with an error and changes nothing.
pub decide_once :
    (c : Codec) (s after : PolicyEngine) (nonce host other : String)
    (request second : AccessRequest) (decision again : ApprovalDecision) (now_ms later : ℕ)
    (outcome : ApprovalOutcome)
    → decide c s nonce host request decision now_ms ≡ some (after, ok outcome)
    → (e : ApprovalError) × (decide c after nonce other second again later ≡ some (after, err e))
unfolding decide
decide_once c s after nonce host other request second decision again now_ms later outcome h =
    elim (decide-cases c s nonce host request decision now_ms after (ok outcome) h) [
      | inl (e, refused, _) ↦ absurd (ground (arith, refused))
      | inr (o, _, (pending, passed, approvals, _)) ↦
          let used : PendingApproval = record pending { used = true } in
          let (e, refused) =
            check_decision_used c after nonce other second again later used
              (rw approvals (rw (get-insert nonce nonce used s.approvals) (ground arith))) refl in
          (e, rw (decide, refused) refl)
    ]
