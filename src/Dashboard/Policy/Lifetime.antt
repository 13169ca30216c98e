-- ===== src/Dashboard/Policy/Lifetime.antt =====
-- Approvals from their creation to their decision (src/dashboard/policy.rs).
use devicelane.Shared.{
  ℕ, ◌+◌, ◌≤◌, ◌<◌, ◌≡◌, refl, sym, ◌∙◌, ap, subst, inl, inr, ◌⊎◌, Bool-cases, Option-cases, true,
  false, none, some, List, [], ◌∷◌, ◌++◌, String, string_eq, nat_eq, Bytes, bytes_eq, ◌==◌, leb,
  length, take, Result, Result-cases, ok, err, arith,
}
use devicelane.Map.{get, get-insert}
use devicelane.Dashboard.Policy.Rule.{max_policy_rules}
use devicelane.Dashboard.Policy.Request.{AccessRequest, Codec, validate_request, hex}
use devicelane.Dashboard.Policy.Engine.{PolicyEngine, PendingApproval, max_pending_approvals}
use devicelane.Dashboard.Policy.Approval.{
  ApprovalDecision, ApprovalChallenge, ApprovalOutcome, ApprovalError, remembered, decide,
  create_approval, create_swept, sweep, lifetime_end, pick_nonce, is_usable,
  nonce_generation_attempts, request_digest, generated_rule_id, exact_rule, next_revision,
  max_approval_lifetime_ms,
}
use devicelane.Dashboard.Policy.Nonces.{
  some-pair, spent, decide-cases, check_decision-IsBound, IsBound-check_decision,
}

-- A nonce that is picked has an id.
pick_nonce-generated :
    (s : PolicyEngine) (draws : List Bytes) (nonce : String)
    → pick_nonce s draws ≡ some (some nonce)
    → (id : String) × (generated_rule_id nonce ≡ some id)
unfolding pick_nonce is_usable
pick_nonce-generated s [] nonce h = absurd (ground (arith, h))
pick_nonce-generated s (bytes ∷ draws) nonce h =
    elim (Option-cases (generated_rule_id (hex bytes))) [
      | inl short ↦
          let panic : none ≡ some (some nonce) = rw (pick_nonce, is_usable, short) at h in
          absurd (ground (arith, panic))
      | inr (id, named) ↦ elim (Option-cases (is_usable s (hex bytes))) [
        | inl panics ↦
            let panic : none ≡ some (some nonce) = rw (pick_nonce, panics) at h in
            absurd (ground (arith, panic))
        | inr (true, usable) ↦
            let picked : some (some (hex bytes)) ≡ some (some nonce) =
              rw (pick_nonce, usable) at h in
            let same : hex bytes ≡ nonce = ground (arith, picked) in
            (id, subst (λ n. generated_rule_id n ≡ some id) same named)
        | inr (false, used) ↦ pick_nonce-generated s draws nonce (rw (pick_nonce, used) at h)
      ]
    ]

module _ (c : Codec) (s : PolicyEngine) (request : AccessRequest) (now_ms lifetime_ms : ℕ)
    (draws : List Bytes) where
  -- What a creation that succeeds leaves.
  pub record IsCreated (after : PolicyEngine) (challenge : ApprovalChallenge) : Type 0 where
    pub pending : PendingApproval
    pub found : get challenge.nonce after.approvals ≡ some pending
    pub expiry : challenge.expires_at_ms ≡ lifetime_end now_ms lifetime_ms
    pub same_expiry : pending.expires_at_ms ≡ challenge.expires_at_ms
    pub unused : pending.used ≡ false
    pub target : pending.target_host_id ≡ request.target_host_id
    pub digest : pending.request_digest ≡ request_digest c request
    pub rules : after.rules ≡ s.rules
    pub id : String
    pub named : generated_rule_id challenge.nonce ≡ some id

  -- The engine after the creation, with the nonce.
  abbrev pub created : String → PendingApproval
  created nonce = record {
    request_digest = request_digest c request;
    target_host_id = request.target_host_id;
    expires_at_ms = lifetime_end now_ms lifetime_ms;
    used = false;
  }

  abbrev pub Created : PolicyEngine → Result ApprovalError ApprovalChallenge → Type 0
  Created after result =
      ((e : ApprovalError) × (result ≡ err e) × (after.rules ≡ s.rules))
      ⊎ ((challenge : ApprovalChallenge) × (result ≡ ok challenge) × IsCreated after challenge)

  create_swept-cases :
      (after : PolicyEngine) (result : Result ApprovalError ApprovalChallenge)
      → create_swept c (sweep s now_ms) request (lifetime_end now_ms lifetime_ms) draws
        ≡ some (after, result)
      → Created after result
  unfolding create_swept
  create_swept-cases after result h =
      elim (Bool-cases (leb max_pending_approvals (length (sweep s now_ms).approvals))) [
        | inl full ↦
            let (left, returned) = some-pair _ after _ result (rw (create_swept, full) at h) in
            inl (_, returned, ap (λ x. x.rules) left)
        | inr free ↦
            elim (Option-cases
              (pick_nonce (sweep s now_ms) (take nonce_generation_attempts draws))) [
                | inl panics ↦
                    let panic : none ≡ some (after, result) =
                      rw (create_swept, free, panics) at h in
                    absurd (ground (arith, panic))
                | inr (none, failed) ↦
                    let (left, returned) =
                      some-pair _ after _ result (rw (create_swept, free, failed) at h) in
                    inl (_, returned, ap (λ x. x.rules) left)
                | inr (some nonce, picked) ↦
                    let (left, returned) =
                      some-pair _ after _ result (rw (create_swept, free, picked) at h) in
                    let (id, named) = pick_nonce-generated _ _ nonce picked in
                    inr (
                      _,
                      returned,
                      record {
                        pending = created nonce;
                        found = rw left (get-insert nonce nonce (created nonce) _ ∙ ground arith);
                        expiry = refl;
                        same_expiry = refl;
                        unused = refl;
                        target = refl;
                        digest = refl;
                        rules = ap (λ x. x.rules) left;
                        id = id;
                        named = named;
                      },
                    )
              ]
      ]

  pub create_approval-cases :
      (after : PolicyEngine) (result : Result ApprovalError ApprovalChallenge)
      → create_approval c s request now_ms lifetime_ms draws ≡ some (after, result)
      → Created after result
  unfolding create_approval
  create_approval-cases after result h = elim (Result-cases (validate_request c request)) [
    | inr (e, invalid) ↦
        let (left, returned) = some-pair _ after _ result (rw (create_approval, invalid) at h) in
        inl (_, returned, ap (λ x. x.rules) left)
    | inl (tt, valid) ↦ elim (Bool-cases (lifetime_ms == 0)) [
      | inl never ↦
          let (left, returned) =
            some-pair _ after _ result (rw (create_approval, valid, never) at h) in
          inl (_, returned, ap (λ x. x.rules) left)
      | inr lasting ↦ create_swept-cases after result (rw (create_approval, valid, lasting) at h)
    ]
  ]

  pub create_approval-IsCreated :
      (after : PolicyEngine) (challenge : ApprovalChallenge)
      → create_approval c s request now_ms lifetime_ms draws ≡ some (after, ok challenge)
      → IsCreated after challenge
  create_approval-IsCreated after challenge h =
      elim (create_approval-cases after (ok challenge) h) [
        | inl (e, refused, _) ↦ absurd (ground (arith, refused))
        | inr (made, same, done) ↦ subst (IsCreated after) (ground (arith, same)) done
      ]

  -- A decision with the nonce of an approval succeeds, right after the approval is created, only
  -- on the target host of the approved request, for a request of the same digest, before the
  -- approval expires, and the expiry is at most five minutes after the creation.
  pub decide-create_approval :
      (after final : PolicyEngine) (challenge : ApprovalChallenge) (host : String)
      (other : AccessRequest) (decision : ApprovalDecision) (later : ℕ) (outcome : ApprovalOutcome)
      → create_approval c s request now_ms lifetime_ms draws ≡ some (after, ok challenge)
      → decide c after challenge.nonce host other decision later ≡ some (final, ok outcome)
      → (host ≡ request.target_host_id)
        × (request_digest c other ≡ request_digest c request)
        × (later < challenge.expires_at_ms)
        × (challenge.expires_at_ms ≤ now_ms + max_approval_lifetime_ms)
  decide-create_approval after final challenge host other decision later outcome h k =
      let made = create_approval-IsCreated after challenge h in
      elim (decide-cases c after challenge.nonce host other decision later final (ok outcome) k) [
        | inl (e, refused, _) ↦ absurd (ground (arith, refused))
        | inr (o, _, (pending, passed, _, _)) ↦
            let bound =
              check_decision-IsBound c after challenge.nonce host other decision later pending
                passed in
            let same : pending ≡ made.pending = ground (arith, sym bound.found ∙ made.found) in
            let expiry : pending.expires_at_ms ≡ challenge.expires_at_ms =
              ap (λ p. p.expires_at_ms) same ∙ made.same_expiry in
            (
              bound.target ∙ ap (λ p. p.target_host_id) same ∙ made.target,
              bound.digest ∙ ap (λ p. p.request_digest) same ∙ made.digest,
              ground (arith, bound.live, expiry),
              ground (arith, made.expiry),
            )
      ]

  -- Where an approval is created for a valid request and an engine below its limit of rules, each
  -- decision on that request by its target host before the expiry succeeds, right after the
  -- creation.
  pub create_approval-decide :
      (after : PolicyEngine) (challenge : ApprovalChallenge) (decision : ApprovalDecision)
      (later : ℕ)
      → create_approval c s request now_ms lifetime_ms draws ≡ some (after, ok challenge)
      → validate_request c request ≡ ok tt
      → later < challenge.expires_at_ms
      → length s.rules < max_policy_rules
      → (final : PolicyEngine) × (outcome : ApprovalOutcome) × (decide c after challenge.nonce
            request.target_host_id request decision later
          ≡ some (final, ok outcome))
  unfolding decide
  create_approval-decide after challenge decision later h valid in_time room =
      let made = create_approval-IsCreated after challenge h in
      let few : leb max_policy_rules (length after.rules) ≡ false =
        rw made.rules (ground (arith, room)) in
      let passed =
        IsBound-check_decision c after challenge.nonce request.target_host_id request decision later
          made.pending valid
          (record {
            found = made.found;
            unused = made.unused;
            live = ground (arith, in_time, made.same_expiry);
            target = sym made.target;
            digest = sym made.digest;
            room = ground (arith, few);
          }) in
      elim (Option-cases (remembered decision)) [
        | inl once ↦ (
          record after { approvals = spent after challenge.nonce made.pending },
          record { decision = decision; created_rule = none },
          rw (decide, passed, once) refl,
        )
        | inr (effect, ever) ↦
            let rule = exact_rule request effect (next_revision after.rules) made.id in
            (
              record {
                rules = after.rules ++ rule ∷ [];
                approvals = spent after challenge.nonce made.pending;
              },
              record { decision = decision; created_rule = some rule },
              rw (decide, passed, ever, made.named) refl,
            )
      ]
