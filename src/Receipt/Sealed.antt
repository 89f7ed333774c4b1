-- ===== src/Receipt/Sealed.antt =====
-- src/deployment.rs: a sealed receipt verifies, and the receipts that a valid operation record can be
-- given.
use dirextalk_vnext_deployer.Prelude.{
  Str, str_eq, Bool, true, false, ◌&&◌, not, List, [], Option, none, some, is_some, ◌≡◌, refl, ap,
  sym, ◌∙◌, ne_of_eq, ne_self, ◌!=◌, arith,
}
use dirextalk_vnext_deployer.Errors.{ok, >>-eq-ok}
use dirextalk_vnext_deployer.Contract.{artifact_eq, BindingWorkload}
use dirextalk_vnext_deployer.Contract.Syntax.{Parsers, sha256, is_sha256, uuid, is_uuid7, token}
use dirextalk_vnext_deployer.Contract.Named.{sha256-name, validate_artifact-name, uuid-name}
use dirextalk_vnext_deployer.Operation.{
  OperationPhase, OperationPhase-discrete, phase_eq, OperationRecord, completed, failed_recoverable,
  rollback_converged, rollback_blocked,
}
use dirextalk_vnext_deployer.Operation.Validity.{
  valid_record, valid_identity, valid_phase, valid_evidence, valid_predecessor,
}
use dirextalk_vnext_deployer.Operation.Steps.{IsValid}
use dirextalk_vnext_deployer.Operation.Invariant.{IsValid-phase}
use dirextalk_vnext_deployer.Operation.Identity.{IsValid-IdentityChecked}
use dirextalk_vnext_deployer.Receipt.{
  DeploymentReceipt, ReceiptOutcome, succeeded, receipt_failed, receipt_converged, receipt_blocked,
  ServiceReceiptEvidence, ForwardMigrationEvidence, ReceiptService, receipt_services_eq,
  validate_receipt, check_outcome, check_services, check_migration, valid_binding, outcome_matches,
  is_complete, evidenced, expected_services, migration_needed, bool_ne,
  canonical_service_subsequence, seal_receipt, verify_receipt,
}
use dirextalk_vnext_deployer.Receipt.Subsequence.{canonical_service_subsequence-Subsequence}
use dirextalk_vnext_deployer.Receipt.Accepted.{Covers}

validate_receipt-integrity :
    (p : Parsers) (r : DeploymentReceipt) (digest : Str)
    → validate_receipt p (record r { integrity_digest = digest }) ≡ validate_receipt p r
unfolding validate_receipt check_outcome
validate_receipt-integrity p r digest = refl

-- What `seal` returns is the receipt with another integrity digest, and `verify` accepts it.
pub seal_receipt-verify_receipt :
    (p : Parsers) (digest_of : DeploymentReceipt → Str) (r s : DeploymentReceipt)
    → seal_receipt p digest_of r ≡ ok s
    → (s ≡ record r { integrity_digest = s.integrity_digest })
      × (verify_receipt p digest_of s ≡ ok tt)
unfolding seal_receipt verify_receipt
seal_receipt-verify_receipt p digest_of r s h =
    let (valid, sealed) = >>-eq-ok (validate_receipt p r) _ h in
    let digest : Str = digest_of (record r { integrity_digest = [] }) in
    let same : s ≡ record r { integrity_digest = digest } = cc in
    rw same (refl, rw (validate_receipt-integrity p r digest, valid) (rw (ne_self digest) refl))

IsValid-valid_binding :
    (p : Parsers) (r : OperationRecord) → IsValid p r → valid_binding p r.binding ≡ ok tt
unfolding valid_binding valid_record valid_identity valid_phase valid_evidence valid_predecessor
    OperationPhase-discrete uuid is_uuid7 sha256 is_sha256
IsValid-valid_binding p r v =
    let c = IsValid-IdentityChecked p r v in
    let a = r.binding.artifact in
    let target : token r.binding.target "target" ≡ ok tt =
      ap (λ t. token t "target") c.target_bound ∙ c.target_ok in
    rw
      (
        (validate_artifact-name p a "binding artifact" "operation artifact" c.bound_artifact_ok).0,
        ne_self a,
        target,
        ne_self r.binding.target,
        c.host_ok,
        c.bound_artifact_ok,
        c.workload_ok,
      )
      refl

-- The outcome that a phase is recorded with.
abbrev pub outcome_of : OperationPhase → Option ReceiptOutcome
outcome_of completed = some succeeded
outcome_of failed_recoverable = some receipt_failed
outcome_of rollback_converged = some receipt_converged
outcome_of rollback_blocked = some receipt_blocked
outcome_of _ = none

-- The receipt of an operation, before its seal.
abbrev pub receipt_for :
    OperationRecord
    → ReceiptOutcome
    → List ServiceReceiptEvidence
    → Option ForwardMigrationEvidence
    → DeploymentReceipt
receipt_for r outcome services migration = record {
  schema_version = 1;
  operation_id = r.operation_id;
  manifest_digest = r.manifest_digest;
  binding = r.binding;
  artifact = r.artifact;
  phase = r.phase;
  last_proven_phase = r.last_proven_phase;
  outcome = outcome;
  services = services;
  forward_migration = migration;
  integrity_digest = [];
}

outcome_of-outcome_matches :
    (phase proven : OperationPhase) (failed : Bool) (w : BindingWorkload) (o : ReceiptOutcome)
    → outcome_of phase ≡ some o
    → valid_phase phase proven failed w ≡ ok tt
    → outcome_matches o phase proven w ≡ true
unfolding valid_phase OperationPhase-discrete
outcome_of-outcome_matches completed completed failed w o h k =
    let is : succeeded ≡ o = cc in rw (sym is) refl
outcome_of-outcome_matches failed_recoverable proven failed w o h k =
    let is : receipt_failed ≡ o = cc in rw (sym is) (ground arith)
outcome_of-outcome_matches rollback_converged completed failed w o h k =
    let is : receipt_converged ≡ o = cc in rw (sym is) refl
outcome_of-outcome_matches rollback_blocked completed failed w o h k =
    let is : receipt_blocked ≡ o = cc in rw (sym is) refl
outcome_of-outcome_matches _ proven failed w o h k = ground arith

covered :
    (complete : Bool) (planned_services : List ReceiptService) (es : List ServiceReceiptEvidence)
    → Covers complete (evidenced es) planned_services
    → ((complete && evidenced es != planned_services) ≡ false)
      × ((not complete && not (canonical_service_subsequence planned_services es)) ≡ false)
covered true planned_services es h = (ne_of_eq h, refl)
covered false planned_services es h =
    (refl, rw ((canonical_service_subsequence-Subsequence planned_services es).1 h) refl)

bool_ne_self : (a b : Bool) → a ≡ b → bool_ne b a ≡ false
bool_ne_self a b h = ground arith

-- A valid operation that has ended, with evidence of its planned services (all of them, or some in
-- order when it failed), acceptable service and migration evidence, and the latter present exactly
-- when it is needed, can be given a receipt: sealing it succeeds, and what it returns verifies.
pub IsValid-seal_receipt :
    (p : Parsers) (digest_of : DeploymentReceipt → Str) (r : OperationRecord) (o : ReceiptOutcome)
    (services : List ServiceReceiptEvidence) (migration : Option ForwardMigrationEvidence)
    → IsValid p r
    → outcome_of r.phase ≡ some o
    → Covers (is_complete o) (evidenced services) (expected_services r.binding.workload)
    → check_services services ≡ ok tt
    → is_some migration ≡ migration_needed (receipt_for r o services migration)
    → check_migration r.artifact.digest migration ≡ ok tt
    → (s : DeploymentReceipt) × (seal_receipt p digest_of (receipt_for r o services migration)
        ≡ ok s)
      × (verify_receipt p digest_of s ≡ ok tt)
unfolding seal_receipt validate_receipt check_outcome
IsValid-seal_receipt p digest_of r o services migration v ended covers services_ok needed forward =
    let c = IsValid-IdentityChecked p r v in
    let (whole, known) =
      covered (is_complete o) (expected_services r.binding.workload) services covers in
    let sealed = record (receipt_for r o services migration) {
      integrity_digest = digest_of (receipt_for r o services migration);
    } in
    let done : seal_receipt p digest_of (receipt_for r o services migration) ≡ ok sealed =
      rw
        (
          uuid-name r.operation_id "operation_id" "receipt operation" c.id_ok,
          sha256-name r.manifest_digest "manifest_digest" "receipt manifest" c.manifest_ok,
          IsValid-valid_binding p r v,
          (validate_artifact-name p r.artifact "operation artifact" "receipt artifact"
              c.artifact_ok).0,
          ne_of_eq c.artifact_bound,
          outcome_of-outcome_matches r.phase r.last_proven_phase (is_some r.last_failure)
              r.binding.workload o ended (IsValid-phase p r v),
          whole,
          known,
          bool_ne_self (is_some migration) _ needed,
          services_ok,
          forward,
        )
        refl in
    (
      sealed,
      done,
      (seal_receipt-verify_receipt p digest_of (receipt_for r o services migration) sealed done).1,
    )
