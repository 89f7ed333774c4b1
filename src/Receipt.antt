-- ===== src/Receipt.antt =====
-- src/deployment.rs: the receipt of an operation, its validation and its seal.
pub mod Subsequence
pub mod Accepted
pub mod Sealed
use dirextalk_vnext_deployer.Prelude.{
  ℕ, ℕ_discrete, Str, str_eq, bytes, Bool, true, false, ◌&&◌, ◌||◌, not, List, [], ◌∷◌, ◌++◌, map,
  Option, none, some, is_some, PartialEq, of_discrete, ◌==◌, ◌!=◌, nat_beq, leb, ltb, if◌then◌else◌,
}
use dirextalk_vnext_deployer.Errors.{Checked, Result, ok, reject_if, contract, err, ◌>>◌}
use dirextalk_vnext_deployer.Contract.{
  ImmutableArtifact, artifact_eq, NodeService, AdapterKind, BoundConnector, BindingWorkload,
  OperationBinding, node_workload, connector_host,
}
use dirextalk_vnext_deployer.Contract.Syntax.{Parsers, sha256, uuid}
use dirextalk_vnext_deployer.Contract.Validation.{validate_artifact}
use dirextalk_vnext_deployer.Operation.{
  OperationPhase, OperationRecord, phase_eq, planned, claimed, host_bound, artifacts_verified,
  material_prepared, configs_written, migration_applied, services_converged, readiness_verified,
  completed, expired_unclaimed, failed_recoverable, rollback_fenced, rollback_converged,
  rollback_blocked,
}
use dirextalk_vnext_deployer.Operation.Validity.{
  valid_record, is_forward_nonterminal, is_connector_host,
}

-- The outcomes `Succeeded`, `FailedRecoverable`, `RollbackConverged` and `RollbackBlocked`.
pub data ReceiptOutcome : Type 0 where
  succeeded receipt_failed receipt_converged receipt_blocked : ReceiptOutcome

-- The cases `Node` and `Connector`.
pub data ReceiptService : Type 0 where
  node_receipt : (service : NodeService) → ReceiptService
  connector_receipt : (instance_id : Str) (adapter_kind : AdapterKind) → ReceiptService

unfoldable pub ReceiptService-discrete : Discrete ReceiptService
unfolding ℕ_discrete
ReceiptService-discrete = hlevel ℕ_discrete

instance abbrev pub receipt_service_eq : PartialEq ReceiptService
receipt_service_eq = of_discrete ReceiptService-discrete

unfoldable pub ReceiptServices-discrete : Discrete (List ReceiptService)
unfolding ℕ_discrete
ReceiptServices-discrete = hlevel ℕ_discrete

instance abbrev pub receipt_services_eq : PartialEq (List ReceiptService)
receipt_services_eq = of_discrete ReceiptServices-discrete

pub record ServiceReceiptEvidence : Type 0 where
  pub service : ReceiptService
  pub service_revision_digest : Str
  pub config_digest : Str
  pub unit_digest : Str
  pub readiness_digest : Str
  pub entrypoint_digest : Str
  pub runtime_uid : ℕ
  pub runtime_gid : ℕ

pub record ForwardMigrationEvidence : Type 0 where
  pub from_version : ℕ
  pub to_version : ℕ
  pub before_digest : Str
  pub after_digest : Str
  pub migration_artifact_digest : Str

pub record DeploymentReceipt : Type 0 where
  pub schema_version : ℕ
  pub operation_id : Str
  pub manifest_digest : Str
  pub binding : OperationBinding
  pub artifact : ImmutableArtifact
  pub phase : OperationPhase
  pub last_proven_phase : OperationPhase
  pub outcome : ReceiptOutcome
  pub services : List ServiceReceiptEvidence
  pub forward_migration : Option ForwardMigrationEvidence
  pub integrity_digest : Str

-- The discriminant, `phase as u8`.
abbrev pub ordinal : OperationPhase → ℕ
ordinal planned = 0
ordinal claimed = 1
ordinal host_bound = 2
ordinal artifacts_verified = 3
ordinal material_prepared = 4
ordinal configs_written = 5
ordinal migration_applied = 6
ordinal services_converged = 7
ordinal readiness_verified = 8
ordinal completed = 9
ordinal expired_unclaimed = 10
ordinal failed_recoverable = 11
ordinal rollback_fenced = 12
ordinal rollback_converged = 13
ordinal rollback_blocked = 14

-- The record that `valid_binding` validates.
abbrev pub binding_record : OperationBinding → OperationRecord
binding_record b = record {
  schema_version = 1;
  operation_id = bytes "018f856e-e0bd-71d2-9428-58d50cf77eaf";
  manifest_digest = bytes "aaaaaaaaaaaaaaaaaaaaaaaaaaaaaaaaaaaaaaaaaaaaaaaaaaaaaaaaaaaaaaaa";
  artifact = b.artifact;
  binding = b;
  target = b.target;
  predecessor_operation_id = none;
  phase = planned;
  last_proven_phase = planned;
  last_failure = none;
  integrity_digest = [];
}

unfoldable pub valid_binding : Parsers → OperationBinding → Checked
valid_binding p b = valid_record p (binding_record b)

abbrev pub connector_service : BoundConnector → ReceiptService
connector_service c = connector_receipt c.instance_id c.adapter_kind

abbrev pub expected_services : BindingWorkload → List ReceiptService
expected_services (node_workload _ _ services) = map node_receipt services
expected_services (connector_host _ connectors) = map connector_service connectors

abbrev pub required_migration : BindingWorkload → OperationPhase → Bool
required_migration (node_workload _ _ _) proven = leb (ordinal migration_applied) (ordinal proven)
required_migration (connector_host _ _) proven = false

-- The guards of the `match` on the outcome.
abbrev pub outcome_matches :
    ReceiptOutcome → OperationPhase → OperationPhase → BindingWorkload → Bool
outcome_matches succeeded phase proven w = phase == completed && proven == completed
outcome_matches receipt_failed phase proven w =
    phase == failed_recoverable && is_forward_nonterminal proven w
outcome_matches receipt_converged phase proven w =
    phase == rollback_converged && proven == completed
outcome_matches receipt_blocked phase proven w = phase == rollback_blocked && proven == completed

abbrev pub is_complete : ReceiptOutcome → Bool
is_complete receipt_failed = false
is_complete _ = true

-- `any` on a borrowed iterator: whether an element passes, and what the iterator still holds.
abbrev pub take_any : (ReceiptService → Bool) → List ReceiptService → Bool × List ReceiptService
take_any p [] = (false, [])
take_any p (x ∷ xs) = if p x then (true, xs) else take_any p xs

abbrev pub canonical_service_subsequence : List ReceiptService → List ServiceReceiptEvidence → Bool
canonical_service_subsequence remaining [] = true
canonical_service_subsequence remaining (e ∷ evidence) =
    let (found, rest) = take_any (λ planned_service. planned_service == e.service) remaining in
    found && canonical_service_subsequence rest evidence

unfoldable pub check_evidence : ServiceReceiptEvidence → Checked
check_evidence e = do
  sha256 e.service_revision_digest "service evidence"
  sha256 e.config_digest "service evidence"
  sha256 e.unit_digest "service evidence"
  sha256 e.readiness_digest "service evidence"
  sha256 e.entrypoint_digest "service evidence"
  reject_if (nat_beq e.runtime_uid 0 || nat_beq e.runtime_gid 0)
      (contract "receipt runtime identity must be non-root")

-- The loop over the services' evidence.
unfoldable pub check_services : List ServiceReceiptEvidence → Checked
check_services [] = ok tt
check_services (e ∷ evidence) = do check_evidence e; check_services evidence

unfoldable pub check_migration : Str → Option ForwardMigrationEvidence → Checked
check_migration artifact_digest none = ok tt
check_migration artifact_digest (some m) = do
  reject_if (ltb m.to_version m.from_version) (contract "migration must be forward")
  sha256 m.before_digest "migration evidence"
  sha256 m.after_digest "migration evidence"
  sha256 m.migration_artifact_digest "migration evidence"
  reject_if (m.migration_artifact_digest != artifact_digest)
      (contract "migration artifact must match node artifact")

abbrev pub evidenced : List ServiceReceiptEvidence → List ReceiptService
evidenced services = map (λ (e : ServiceReceiptEvidence). e.service) services

abbrev pub migration_needed : DeploymentReceipt → Bool
migration_needed r =
    not (is_connector_host r.binding.workload)
    && (is_complete r.outcome || required_migration r.binding.workload r.last_proven_phase)

abbrev pub bool_ne : Bool → Bool → Bool
bool_ne true b = not b
bool_ne false b = b

-- The tests of `validate_receipt` on the receipt's phases, services and migration.
unfoldable pub check_outcome : DeploymentReceipt → Checked
check_outcome r = do
  reject_if (not (outcome_matches r.outcome r.phase r.last_proven_phase r.binding.workload))
      (contract "receipt outcome and phase mismatch")
  reject_if (is_complete r.outcome && evidenced r.services != expected_services r.binding.workload)
      (contract "receipt service evidence is incomplete")
  reject_if
      (not (is_complete r.outcome)
        && not (canonical_service_subsequence (expected_services r.binding.workload) r.services))
      (contract "receipt service evidence is unknown")
  reject_if (bool_ne (migration_needed r) (is_some r.forward_migration))
      (contract "receipt migration evidence requirement mismatch")

unfoldable pub validate_receipt : Parsers → DeploymentReceipt → Checked
validate_receipt p r = do
  reject_if (not (nat_beq r.schema_version 1)) (contract "receipt schema must be 1")
  uuid r.operation_id "receipt operation"
  sha256 r.manifest_digest "receipt manifest"
  valid_binding p r.binding
  validate_artifact p r.artifact "receipt artifact"
  reject_if (r.artifact != r.binding.artifact) (contract "receipt artifact does not match binding")
  check_outcome r
  check_services r.services
  check_migration r.artifact.digest r.forward_migration

-- `DeploymentReceipt::seal` and `DeploymentReceipt::verify`. `digest_of` is the hexadecimal SHA-256
-- of the receipt's JSON.
unfoldable pub seal_receipt :
    Parsers → (DeploymentReceipt → Str) → DeploymentReceipt → Result DeploymentReceipt
seal_receipt p digest_of r = do
  validate_receipt p r
  ok (record r { integrity_digest = digest_of (record r { integrity_digest = [] }) })

unfoldable pub verify_receipt : Parsers → (DeploymentReceipt → Str) → DeploymentReceipt → Checked
verify_receipt p digest_of r = do
  validate_receipt p r
  reject_if (r.integrity_digest != digest_of (record r { integrity_digest = [] }))
      (contract "deployment receipt integrity mismatch")
