-- ===== src/Store/Claim/Owner.antt =====
-- Reading back the projection that src/deployment.rs `claim` writes.
use dirextalk_vnext_deployer.Prelude.{
  Str, str_eq, ◌≡◌, refl, Option, none, some, nat_beq, false, ltb, ne_self, String, ◌!=◌, not, ◌==◌,
}
use dirextalk_vnext_deployer.Errors.{ok, Checked, reject_if, contract, >>-eq-ok, reject_if-eq-ok}
use dirextalk_vnext_deployer.Contract.{HostTuple, artifact_eq}
use dirextalk_vnext_deployer.Contract.Syntax.{uuid, is_uuid7, token, sha256}
use dirextalk_vnext_deployer.Contract.Validation.{validate_host, validate_artifact}
use dirextalk_vnext_deployer.Operation.{OperationRecord}
use dirextalk_vnext_deployer.Operation.Validity.{valid_predecessor, valid_record, valid_identity}
use dirextalk_vnext_deployer.Operation.Steps.{IsValid}
use dirextalk_vnext_deployer.Store.Names.{owner_file}
use dirextalk_vnext_deployer.Store.World.{Codec, CodecLaws, World}
use dirextalk_vnext_deployer.Store.Documents.{
  ownership_from_record, verify_ownership, check_uuid, ownership_fence, operation_identity_digest,
}
use dirextalk_vnext_deployer.Store.Files.{lookup, read_owner, checked_owner, written, max_bytes}
use dirextalk_vnext_deployer.Store.Frame.{written-opens}

-- The name of the checked field only enters the error.
uuid-name : (s : Str) (name other : String) → uuid s name ≡ ok tt → uuid s other ≡ ok tt
unfolding uuid
uuid-name s name other h = rw (reject_if-eq-ok (not (is_uuid7 s)) _ h) refl

valid_predecessor-uuid :
    (x : Codec) (o : Option Str) (id : Str) (name same : String)
    → valid_predecessor o id name same ≡ ok tt
    → check_uuid x o ≡ ok tt
unfolding valid_predecessor
valid_predecessor-uuid x none id name same h = refl
valid_predecessor-uuid x (some p) id name same h =
    uuid-name p name "ownership predecessor"
      (>>-eq-ok (uuid p name) (reject_if (p == id) (contract same)) h).0

-- The checks of `valid_identity` on the identifier and the predecessor.
IsValid-ids :
    (x : Codec) (r : OperationRecord)
    → IsValid x.parsers r
    → (uuid r.operation_id "operation_id" ≡ ok tt)
      × (check_uuid x r.predecessor_operation_id ≡ ok tt)
unfolding valid_record valid_identity
IsValid-ids x r v =
    let identity = (>>-eq-ok (valid_identity x.parsers r) _ v).0 in
    let version : Checked =
      reject_if (not (nat_beq r.schema_version 1))
        (contract "operation schema_version must be 1") in
    let bound : Checked =
      reject_if (r.artifact != r.binding.artifact)
        (contract "operation artifact does not match binding") in
    let predecessor =
      valid_predecessor r.predecessor_operation_id r.operation_id "predecessor_operation_id"
        "operation cannot succeed itself" in
    let h1 = (>>-eq-ok version _ identity).1 in
    let (id, h2) = >>-eq-ok (uuid r.operation_id "operation_id") _ h1 in
    let h3 = (>>-eq-ok (sha256 r.manifest_digest "manifest_digest") _ h2).1 in
    let h4 = (>>-eq-ok (validate_artifact x.parsers r.artifact "operation artifact") _ h3).1 in
    let h5 = (>>-eq-ok bound _ h4).1 in
    (
      id,
      valid_predecessor-uuid x r.predecessor_operation_id r.operation_id "predecessor_operation_id"
          "operation cannot succeed itself" (>>-eq-ok predecessor _ h5).0,
    )

pub IsValid-uuid :
    (x : Codec) (r : OperationRecord)
    → IsValid x.parsers r
    → uuid r.operation_id "operation_id" ≡ ok tt
IsValid-uuid x r v = (IsValid-ids x r v).0

ownership_fence-parts :
    (x : Codec) (target : Str) (h : HostTuple) {fence : Str}
    → ownership_fence x target h ≡ ok fence
    → (token target "ownership target" ≡ ok tt) × (validate_host h ≡ ok tt)
unfolding ownership_fence
ownership_fence-parts x target h e =
    let (named, rest) = >>-eq-ok (token target "ownership target") _ e in
    (named, (>>-eq-ok (validate_host h) _ rest).0)

module _ (x : Codec) (laws : CodecLaws x) where
  pub verify_ownership-from_record :
      (r : OperationRecord) {fence : Str}
      → ownership_fence x r.target r.binding.host ≡ ok fence
      → uuid r.operation_id "operation_id" ≡ ok tt
      → IsValid x.parsers r
      → verify_ownership x (ownership_from_record x r) ≡ ok tt
  unfolding verify_ownership ownership_from_record operation_identity_digest
  verify_ownership-from_record r fenced id valid =
      let (named, host) = ownership_fence-parts x r.target r.binding.host fenced in
      rw
        (
          ne_self (ownership_from_record x r).integrity_digest,
          named,
          host,
          uuid-name r.operation_id "operation_id" "ownership operation" id,
          (IsValid-ids x r valid).1,
          laws.sha256_hex_is_hex _ _,
        )
        refl

  pub read_owner-written :
      (r : OperationRecord) (fence : Str) (w v : World x.Document)
      → verify_ownership x (ownership_from_record x r) ≡ ok tt
      → v.euid ≡ w.euid
      → lookup (owner_file fence) v.files
        ≡ some (written x w.euid (x.push_newline (x.ownership_to_vec (ownership_from_record x r))))
      → ltb max_bytes
          (x.document_len (x.push_newline (x.ownership_to_vec (ownership_from_record x r))))
        ≡ false
      → read_owner x fence v ≡ ok (ownership_from_record x r)
  unfolding read_owner checked_owner
  read_owner-written r fence w v verified e l fits =
      rw
        (
          written-opens x (owner_file fence) _ w v e l fits,
          laws.ownership_round_trip (ownership_from_record x r),
          verified,
        )
        refl
