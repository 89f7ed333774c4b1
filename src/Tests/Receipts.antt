-- ===== src/Tests/Receipts.antt =====
-- The receipt of a completed node operation, and the theorems on receipts applied to it.
use dirextalk_vnext_deployer.Prelude.{
  ℕ_discrete, Str-discrete, true, List, [], ◌∷◌, none, some, Str, bytes, refl, ◌≡◌, ◌↔◌, split,
}
use dirextalk_vnext_deployer.Errors.{ok}
use dirextalk_vnext_deployer.Contract.{
  node, realtime_gateway, NodeService-discrete, ImmutableArtifact-discrete,
}
use dirextalk_vnext_deployer.Contract.Syntax.{
  is_token, is_sha256, token, sha256, uuid, is_uuid7, identity_id, https_origin,
}
use dirextalk_vnext_deployer.Contract.Validation.{validate_artifact, validate_host}
use dirextalk_vnext_deployer.Operation.{OperationRecord, OperationPhase-discrete, completed}
use dirextalk_vnext_deployer.Operation.Validity.{
  valid_record, valid_identity, valid_phase, valid_workload, valid_predecessor, valid_evidence,
}
use dirextalk_vnext_deployer.Operation.Steps.{IsValid, moved}
use dirextalk_vnext_deployer.Receipt.{
  ServiceReceiptEvidence, ForwardMigrationEvidence, DeploymentReceipt, node_receipt, succeeded,
  validate_receipt, canonical_service_subsequence, evidenced, check_outcome, check_services,
  check_evidence, check_migration, valid_binding, seal_receipt, verify_receipt,
  ReceiptService-discrete, ReceiptServices-discrete,
}
use dirextalk_vnext_deployer.Receipt.Accepted.{Accepted, validate_receipt-Accepted}
use dirextalk_vnext_deployer.Receipt.Subsequence.{
  Subsequence, canonical_service_subsequence-Subsequence,
}
use dirextalk_vnext_deployer.Receipt.Sealed.{
  receipt_for, seal_receipt-verify_receipt, IsValid-seal_receipt,
}
use dirextalk_vnext_deployer.Tests.Codec.{sixteen, parsers}
use dirextalk_vnext_deployer.Tests.Records.{node_operation}

abbrev completed_operation : OperationRecord
completed_operation = moved node_operation completed completed none

completed_operation-IsValid : IsValid parsers completed_operation
unfolding valid_record valid_identity valid_phase valid_workload valid_predecessor valid_evidence
    uuid is_uuid7 sha256 token validate_artifact validate_host identity_id https_origin
    OperationPhase-discrete NodeService-discrete ImmutableArtifact-discrete Str-discrete ℕ_discrete
    split is_token is_sha256
completed_operation-IsValid = refl

abbrev node_evidence : ServiceReceiptEvidence
node_evidence = record {
  service = node_receipt node;
  service_revision_digest = sixteen (bytes "1111");
  config_digest = sixteen (bytes "2222");
  unit_digest = sixteen (bytes "3333");
  readiness_digest = sixteen (bytes "4444");
  entrypoint_digest = sixteen (bytes "5555");
  runtime_uid = 1000;
  runtime_gid = 1000;
}

abbrev both_services : List ServiceReceiptEvidence
both_services =
    node_evidence ∷ record node_evidence { service = node_receipt realtime_gateway } ∷ []

abbrev migration : ForwardMigrationEvidence
migration = record {
  from_version = 4;
  to_version = 5;
  before_digest = sixteen (bytes "6666");
  after_digest = sixteen (bytes "7777");
  migration_artifact_digest = sixteen (bytes "1111");
}

abbrev digest_of : DeploymentReceipt → Str
digest_of _ = sixteen (bytes "8888")

services-checked : check_services both_services ≡ ok tt
unfolding check_services check_evidence sha256 is_sha256
services-checked = refl

migration-checked : check_migration (sixteen (bytes "1111")) (some migration) ≡ ok tt
unfolding check_migration sha256 is_sha256 Str-discrete ℕ_discrete
migration-checked = refl

abbrev unsealed_receipt : DeploymentReceipt
unsealed_receipt = receipt_for completed_operation succeeded both_services (some migration)

IsValid-seal_receipt_example :
    (s : DeploymentReceipt) × (seal_receipt parsers digest_of unsealed_receipt ≡ ok s)
    × (verify_receipt parsers digest_of s ≡ ok tt)
IsValid-seal_receipt_example =
    IsValid-seal_receipt parsers digest_of completed_operation succeeded both_services
      (some migration) completed_operation-IsValid refl refl services-checked refl migration-checked

abbrev sealed_receipt : DeploymentReceipt
sealed_receipt = record unsealed_receipt { integrity_digest = sixteen (bytes "8888") }

receipt-accepted : validate_receipt parsers sealed_receipt ≡ ok tt
unfolding validate_receipt valid_binding check_outcome check_services check_evidence check_migration
    valid_record valid_identity valid_phase valid_workload valid_predecessor valid_evidence uuid
    is_uuid7 sha256 token validate_artifact validate_host identity_id https_origin
    OperationPhase-discrete NodeService-discrete ImmutableArtifact-discrete Str-discrete ℕ_discrete
    split is_token is_sha256 ReceiptService-discrete ReceiptServices-discrete
receipt-accepted = refl

receipt-sealed : seal_receipt parsers digest_of unsealed_receipt ≡ ok sealed_receipt
unfolding seal_receipt validate_receipt valid_binding check_outcome check_services check_evidence
    check_migration valid_record valid_identity valid_phase valid_workload valid_predecessor
    valid_evidence uuid is_uuid7 sha256 token validate_artifact validate_host identity_id
    https_origin OperationPhase-discrete NodeService-discrete ImmutableArtifact-discrete
    Str-discrete ℕ_discrete split is_token is_sha256 ReceiptService-discrete
    ReceiptServices-discrete
receipt-sealed = refl

validate_receipt-Accepted_example : Accepted parsers sealed_receipt
validate_receipt-Accepted_example =
    validate_receipt-Accepted parsers sealed_receipt receipt-accepted

abbrev resealed : DeploymentReceipt
resealed = record unsealed_receipt { integrity_digest = sealed_receipt.integrity_digest }

seal_receipt-verify_receipt_example :
    (sealed_receipt ≡ resealed) × (verify_receipt parsers digest_of sealed_receipt ≡ ok tt)
seal_receipt-verify_receipt_example =
    seal_receipt-verify_receipt parsers digest_of unsealed_receipt sealed_receipt receipt-sealed

canonical_service_subsequence-Subsequence_example :
    (canonical_service_subsequence
        (node_receipt node ∷ node_receipt realtime_gateway ∷ [])
        (node_evidence ∷ [])
      ≡ true)
    ↔ Subsequence
        (evidenced (node_evidence ∷ []))
        (node_receipt node ∷ node_receipt realtime_gateway ∷ [])
canonical_service_subsequence-Subsequence_example =
    canonical_service_subsequence-Subsequence
      (node_receipt node ∷ node_receipt realtime_gateway ∷ []) (node_evidence ∷ [])
