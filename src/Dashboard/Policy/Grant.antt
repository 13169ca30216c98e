-- ===== src/Dashboard/Policy/Grant.antt =====
-- Grants of remote operations: making and checking them (src/dashboard/policy.rs).
use devicelane.Shared.{
  ◌≡◌, refl, ap, sym, string_eq, ◌==◌, inl, inr, Result, Result-cases, ok, err, true, >>-ok, arith,
}
use devicelane.Dashboard.Policy.Request.{
  RemoteOperationGrant, Codec, PolicyError, compute_digest, validate_fields, new_grant,
  validate_grant,
}
use devicelane.Shared.{reject-ok}

-- The grant that the constructor makes of a grant's fields.
abbrev pub made_of : Codec → RemoteOperationGrant → Result PolicyError RemoteOperationGrant
made_of c g = new_grant c g.request_id g.workspace_path g.device_id g.operation

valid_made :
    (c : Codec) (g : RemoteOperationGrant) → validate_grant c g ≡ ok tt → made_of c g ≡ ok g
unfolding new_grant validate_grant
valid_made c g h =
    let (fields, checked) = >>-ok (validate_fields c g) _ tt h in
    let differs = reject-ok _ _ checked in
    let digest : g.canonical_sha256 ≡ compute_digest c g = ground (arith, differs) in
    rw (new_grant, fields) (ap (λ d. ok (record g { canonical_sha256 = d })) (sym digest))

made_valid :
    (c : Codec) (g : RemoteOperationGrant) → made_of c g ≡ ok g → validate_grant c g ≡ ok tt
unfolding new_grant validate_grant
made_valid c g h = elim (Result-cases (validate_fields c g)) [
  | inr (e, refused) ↦
      let failed : err e ≡ ok g = rw (new_grant, refused) at h in absurd (ground (arith, failed))
  | inl (tt, fields) ↦
      let made : ok (record g { canonical_sha256 = compute_digest c g }) ≡ ok g =
        rw (new_grant, fields) at h in
      let digest : (g.canonical_sha256 == compute_digest c g) ≡ true = ground (arith, made) in
      rw (validate_grant, fields, digest) refl
]

-- A grant is valid exactly if the constructor, given its request id, path, device and operation,
-- makes that grant again.
pub new_grant-validate_grant :
    (c : Codec) (g : RemoteOperationGrant)
    → (validate_grant c g ≡ ok tt → made_of c g ≡ ok g)
      × (made_of c g ≡ ok g → validate_grant c g ≡ ok tt)
new_grant-validate_grant c g = (valid_made c g, made_valid c g)
