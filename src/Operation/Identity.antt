-- ===== src/Operation/Identity.antt =====
-- src/deployment.rs: what a valid record says of the fields that its phase does not touch.
use dirextalk_vnext_deployer.Prelude.{
  false, str_eq, ◌≡◌, ◌!=◌, not, nat_beq, nat_beq_iff, ne-eq-false, arith,
}
use dirextalk_vnext_deployer.Errors.{ok, Checked, reject_if, contract, >>-eq-ok, reject_if-eq-ok}
use dirextalk_vnext_deployer.Contract.{artifact_eq}
use dirextalk_vnext_deployer.Contract.Syntax.{Parsers, sha256, uuid, token}
use dirextalk_vnext_deployer.Contract.Validation.{validate_artifact, validate_host}
use dirextalk_vnext_deployer.Operation.{OperationRecord}
use dirextalk_vnext_deployer.Operation.Validity.{
  valid_record, valid_identity, valid_predecessor, valid_workload,
}
use dirextalk_vnext_deployer.Operation.Steps.{IsValid}

pub record IdentityChecked (p : Parsers) (r : OperationRecord) : Type 0 where
  pub version_one : r.schema_version ≡ 1
  pub id_ok : uuid r.operation_id "operation_id" ≡ ok tt
  pub manifest_ok : sha256 r.manifest_digest "manifest_digest" ≡ ok tt
  pub artifact_ok : validate_artifact p r.artifact "operation artifact" ≡ ok tt
  pub artifact_bound : r.artifact ≡ r.binding.artifact
  pub target_ok : token r.target "target" ≡ ok tt
  pub target_bound : r.binding.target ≡ r.target
  pub host_ok : validate_host r.binding.host ≡ ok tt
  pub bound_artifact_ok : validate_artifact p r.binding.artifact "binding artifact" ≡ ok tt
  pub workload_ok : valid_workload p r.binding.artifact r.binding.workload ≡ ok tt

pub IsValid-IdentityChecked :
    (p : Parsers) (r : OperationRecord) → IsValid p r → IdentityChecked p r
unfolding valid_record valid_identity
IsValid-IdentityChecked p r v =
    let identity = (>>-eq-ok (valid_identity p r) _ v).0 in
    let version : Checked =
      reject_if (not (nat_beq r.schema_version 1))
        (contract "operation schema_version must be 1") in
    let artifact : Checked =
      reject_if (r.artifact != r.binding.artifact)
        (contract "operation artifact does not match binding") in
    let target : Checked =
      reject_if (r.binding.target != r.target) (contract "operation binding target mismatch") in
    let (a, h1) = >>-eq-ok version _ identity in
    let (b, h2) = >>-eq-ok (uuid r.operation_id "operation_id") _ h1 in
    let (c, h3) = >>-eq-ok (sha256 r.manifest_digest "manifest_digest") _ h2 in
    let (d, h4) = >>-eq-ok (validate_artifact p r.artifact "operation artifact") _ h3 in
    let (e, h5) = >>-eq-ok artifact _ h4 in
    let (_, h6) =
      >>-eq-ok
        (valid_predecessor r.predecessor_operation_id r.operation_id "predecessor_operation_id"
          "operation cannot succeed itself")
        _ h5 in
    let (f, h7) = >>-eq-ok (token r.target "target") _ h6 in
    let (g, h8) = >>-eq-ok target _ h7 in
    let (i, h9) = >>-eq-ok (validate_host r.binding.host) _ h8 in
    let (j, k) = >>-eq-ok (validate_artifact p r.binding.artifact "binding artifact") _ h9 in
    let one : not (nat_beq r.schema_version 1) ≡ false = reject_if-eq-ok _ _ a in
    record {
      version_one = ground (arith, nat_beq_iff r.schema_version 1);
      id_ok = b;
      manifest_ok = c;
      artifact_ok = d;
      artifact_bound = ne-eq-false r.artifact r.binding.artifact (reject_if-eq-ok _ _ e);
      target_ok = f;
      target_bound = ne-eq-false r.binding.target r.target (reject_if-eq-ok _ _ g);
      host_ok = i;
      bound_artifact_ok = j;
      workload_ok = k;
    }
