-- ===== src/Receipt/Accepted.antt =====
-- src/deployment.rs `validate_receipt`: what an accepted receipt says of its operation.
use dirextalk_vnext_deployer.Prelude.{
  ◌≤◌, ◌≢◌, Str, str_eq, Bool, true, false, ◌&&◌, not, List, [], ◌∷◌, Option, none, some, is_some,
  ◌≡◌, refl, ◌==◌, ◌!=◌, ne-eq-false, arith, nat_beq, ltb, All, and-eq-true, eq_iff, or-eq-false,
  nat_beq_iff,
}
use dirextalk_vnext_deployer.Errors.{ok, Checked, reject_if, contract, >>-eq-ok, reject_if-eq-ok}
use dirextalk_vnext_deployer.Contract.{BindingWorkload, artifact_eq}
use dirextalk_vnext_deployer.Contract.Syntax.{Parsers, sha256, uuid}
use dirextalk_vnext_deployer.Contract.Validation.{validate_artifact}
use dirextalk_vnext_deployer.Operation.{
  OperationPhase, phase_eq, completed, failed_recoverable, rollback_converged, rollback_blocked,
}
use dirextalk_vnext_deployer.Operation.Validity.{is_forward_nonterminal}
use dirextalk_vnext_deployer.Receipt.{
  DeploymentReceipt, ReceiptOutcome, succeeded, receipt_failed, receipt_converged, receipt_blocked,
  ServiceReceiptEvidence, ForwardMigrationEvidence, ReceiptService, receipt_services_eq,
  validate_receipt, check_outcome, check_services, check_evidence, check_migration, valid_binding,
  outcome_matches, is_complete, evidenced, expected_services, migration_needed, bool_ne,
  canonical_service_subsequence,
}
use dirextalk_vnext_deployer.Receipt.Subsequence.{
  Subsequence, canonical_service_subsequence-Subsequence,
}

-- The phase and the proven phase that an outcome stands for.
pub data Concluded (w : BindingWorkload)
    : ReceiptOutcome → OperationPhase → OperationPhase → Type 0 where
  as_succeeded : Concluded w succeeded completed completed
  as_failed :
      (proven : OperationPhase)
      → is_forward_nonterminal proven w ≡ true
      → Concluded w receipt_failed failed_recoverable proven
  as_converged : Concluded w receipt_converged rollback_converged completed
  as_blocked : Concluded w receipt_blocked rollback_blocked completed

abbrev IsForward : ForwardMigrationEvidence → Str → Type 0
IsForward m artifact_digest =
    (m.from_version ≤ m.to_version) × (m.migration_artifact_digest ≡ artifact_digest)

abbrev MigratesForward : Option ForwardMigrationEvidence → Str → Type 0
MigratesForward none artifact_digest = Unit {0}
MigratesForward (some m) artifact_digest = IsForward m artifact_digest

abbrev IsNonRoot : ServiceReceiptEvidence → Type 0
IsNonRoot e = (e.runtime_uid ≢ 0) × (e.runtime_gid ≢ 0)

-- A complete receipt names every planned service, another one some of them in their order.
abbrev pub Covers : Bool → List ReceiptService → List ReceiptService → Type 0
Covers true services planned_services = services ≡ planned_services
Covers false services planned_services = Subsequence services planned_services

pub record Accepted (p : Parsers) (r : DeploymentReceipt) : Type 0 where
  pub binds : valid_binding p r.binding ≡ ok tt
  pub same_artifact : r.artifact ≡ r.binding.artifact
  pub concluded : Concluded r.binding.workload r.outcome r.phase r.last_proven_phase
  pub covers :
      Covers (is_complete r.outcome) (evidenced r.services) (expected_services r.binding.workload)
  pub migrated : is_some r.forward_migration ≡ migration_needed r
  pub forward : MigratesForward r.forward_migration r.artifact.digest
  pub non_root : All IsNonRoot r.services

both_phases :
    (phase proven first second : OperationPhase)
    → (phase == first && proven == second) ≡ true
    → (phase ≡ first) × (proven ≡ second)
both_phases phase proven first second h =
    let (a, b) = and-eq-true (phase == first) (proven == second) h in
    ((eq_iff phase first).0 a, (eq_iff proven second).0 b)

outcome_matches-Concluded :
    (o : ReceiptOutcome) (phase proven : OperationPhase) (w : BindingWorkload)
    → outcome_matches o phase proven w ≡ true
    → Concluded w o phase proven
outcome_matches-Concluded succeeded phase proven w h =
    let (a, b) = both_phases phase proven completed completed h in rw (a, b) as_succeeded
outcome_matches-Concluded receipt_failed phase proven w h =
    let (a, b) = and-eq-true (phase == failed_recoverable) (is_forward_nonterminal proven w) h in
    rw ((eq_iff phase failed_recoverable).0 a) (as_failed proven b)
outcome_matches-Concluded receipt_converged phase proven w h =
    let (a, b) = both_phases phase proven rollback_converged completed h in rw (a, b) as_converged
outcome_matches-Concluded receipt_blocked phase proven w h =
    let (a, b) = both_phases phase proven rollback_blocked completed h in rw (a, b) as_blocked

not-eq-false : (b : Bool) → not b ≡ false → b ≡ true
not-eq-false b h = ground arith

and-eq-false : (a b : Bool) → (a && b) ≡ false → a ≡ true → b ≡ false
and-eq-false a b h e = ground arith

bool_ne-eq-false : (a b : Bool) → bool_ne a b ≡ false → b ≡ a
bool_ne-eq-false true true h = refl
bool_ne-eq-false false false h = refl
bool_ne-eq-false true false h = cc
bool_ne-eq-false false true h = cc

check_evidence-IsNonRoot : (e : ServiceReceiptEvidence) → check_evidence e ≡ ok tt → IsNonRoot e
unfolding check_evidence
check_evidence-IsNonRoot e h =
    let (_, h1) = >>-eq-ok (sha256 e.service_revision_digest "service evidence") _ h in
    let (_, h2) = >>-eq-ok (sha256 e.config_digest "service evidence") _ h1 in
    let (_, h3) = >>-eq-ok (sha256 e.unit_digest "service evidence") _ h2 in
    let (_, h4) = >>-eq-ok (sha256 e.readiness_digest "service evidence") _ h3 in
    let (_, h5) = >>-eq-ok (sha256 e.entrypoint_digest "service evidence") _ h4 in
    let (uid, gid) =
      or-eq-false (nat_beq e.runtime_uid 0) (nat_beq e.runtime_gid 0) (reject_if-eq-ok _ _ h5) in
    (ground (arith, nat_beq_iff e.runtime_uid 0), ground (arith, nat_beq_iff e.runtime_gid 0))

check_services-All :
    (es : List ServiceReceiptEvidence) → check_services es ≡ ok tt → All IsNonRoot es
unfolding check_services
check_services-All [] h = tt
check_services-All (e ∷ es) h =
    let (first, rest) = >>-eq-ok (check_evidence e) (check_services es) h in
    (check_evidence-IsNonRoot e first, check_services-All es rest)

check_migration-MigratesForward :
    (digest : Str) (m : Option ForwardMigrationEvidence)
    → check_migration digest m ≡ ok tt
    → MigratesForward m digest
unfolding check_migration
check_migration-MigratesForward digest none h = tt
check_migration-MigratesForward digest (some m) h =
    let forward : Checked =
      reject_if (ltb m.to_version m.from_version) (contract "migration must be forward") in
    let (f, h1) = >>-eq-ok forward _ h in
    let (_, h2) = >>-eq-ok (sha256 m.before_digest "migration evidence") _ h1 in
    let (_, h3) = >>-eq-ok (sha256 m.after_digest "migration evidence") _ h2 in
    let (_, h4) = >>-eq-ok (sha256 m.migration_artifact_digest "migration evidence") _ h3 in
    let not_back : ltb m.to_version m.from_version ≡ false = reject_if-eq-ok _ _ f in
    (ground arith, ne-eq-false m.migration_artifact_digest digest (reject_if-eq-ok _ _ h4))

check_services-Covers :
    (complete : Bool) (planned_services : List ReceiptService) (es : List ServiceReceiptEvidence)
    → (complete && evidenced es != planned_services) ≡ false
    → (not complete && not (canonical_service_subsequence planned_services es)) ≡ false
    → Covers complete (evidenced es) planned_services
check_services-Covers true planned_services es h k = ne-eq-false (evidenced es) planned_services h
check_services-Covers false planned_services es h k =
    (canonical_service_subsequence-Subsequence planned_services es).0 (not-eq-false _ k)

-- What the tests on phases, services and migration leave.
abbrev Consistent : DeploymentReceipt → Type 0
Consistent r =
    Concluded r.binding.workload r.outcome r.phase r.last_proven_phase
    × Covers (is_complete r.outcome) (evidenced r.services) (expected_services r.binding.workload)
    × (is_some r.forward_migration ≡ migration_needed r)

check_outcome-Consistent : (r : DeploymentReceipt) → check_outcome r ≡ ok tt → Consistent r
unfolding check_outcome
check_outcome-Consistent r h =
    let w = r.binding.workload in
    let outcome : Checked =
      reject_if (not (outcome_matches r.outcome r.phase r.last_proven_phase w))
        (contract "receipt outcome and phase mismatch") in
    let incomplete : Checked =
      reject_if (is_complete r.outcome && evidenced r.services != expected_services w)
        (contract "receipt service evidence is incomplete") in
    let unknown : Checked =
      reject_if
        (not (is_complete r.outcome)
          && not (canonical_service_subsequence (expected_services w) r.services))
        (contract "receipt service evidence is unknown") in
    let (a, h1) = >>-eq-ok outcome _ h in
    let (b, h2) = >>-eq-ok incomplete _ h1 in
    let (c, d) = >>-eq-ok unknown _ h2 in
    (
      outcome_matches-Concluded r.outcome r.phase r.last_proven_phase w
          (not-eq-false _ (reject_if-eq-ok _ _ a)),
      check_services-Covers (is_complete r.outcome) (expected_services w) r.services
          (reject_if-eq-ok _ _ b) (reject_if-eq-ok _ _ c),
      bool_ne-eq-false (migration_needed r) (is_some r.forward_migration) (reject_if-eq-ok _ _ d),
    )

-- An accepted receipt has a valid binding whose artifact is its own, the phases that its outcome
-- stands for, evidence of exactly the planned services, or of some of them in order when the
-- operation failed, and migration evidence exactly when it is needed; the migration is forward and
-- of the same artifact, and no service runs as root.
pub validate_receipt-Accepted :
    (p : Parsers) (r : DeploymentReceipt) → validate_receipt p r ≡ ok tt → Accepted p r
unfolding validate_receipt
validate_receipt-Accepted p r h =
    let schema : Checked =
      reject_if (not (nat_beq r.schema_version 1)) (contract "receipt schema must be 1") in
    let artifact : Checked =
      reject_if (r.artifact != r.binding.artifact)
        (contract "receipt artifact does not match binding") in
    let (_, h1) = >>-eq-ok schema _ h in
    let (_, h2) = >>-eq-ok (uuid r.operation_id "receipt operation") _ h1 in
    let (_, h3) = >>-eq-ok (sha256 r.manifest_digest "receipt manifest") _ h2 in
    let (binding, h4) = >>-eq-ok (valid_binding p r.binding) _ h3 in
    let (_, h5) = >>-eq-ok (validate_artifact p r.artifact "receipt artifact") _ h4 in
    let (same, h6) = >>-eq-ok artifact _ h5 in
    let (outcome, h7) = >>-eq-ok (check_outcome r) _ h6 in
    let (services, migration) = >>-eq-ok (check_services r.services) _ h7 in
    let (concluded, covers, migrated) = check_outcome-Consistent r outcome in
    record {
      binds = binding;
      same_artifact = ne-eq-false r.artifact r.binding.artifact (reject_if-eq-ok _ _ same);
      concluded = concluded;
      covers = covers;
      migrated = migrated;
      forward = check_migration-MigratesForward r.artifact.digest r.forward_migration migration;
      non_root = check_services-All r.services services;
    }
