-- ===== src/Alpha/Lifecycle.antt =====
-- src/alpha_deployment.rs: the fences, the evidence and `AlphaLifecycleRecord`.
pub mod Steps
pub mod Evidence
pub mod Reached
pub mod Completion
use dirextalk_vnext_deployer.Prelude.{
  ℕ, Bool, true, false, ◌&&◌, ◌||◌, not, List, [], ◌∷◌, ◌++◌, Option, none, some, is_some, Str,
  str_eq, bytes, nat_beq, ltb, length, is_empty, all, contains_byte, is_ascii_alphanumeric, ◌==◌,
  ◌!=◌,
}
use dirextalk_vnext_deployer.Errors.{Checked, Result, ok, err, reject_if, contract, ◌>>◌, ◌>>=◌}
use dirextalk_vnext_deployer.Alpha.{
  AlphaManifest, VerifiedAlphaPackage, ConnectorFence, connector_fence_eq, OperationFence,
  operation_fence_eq, AlphaLifecycle, lifecycle_eq, alpha_planned, installed, started, alpha_ready,
  acceptance_observed, alpha_completed, ReadinessFacts, AcceptanceObservation, AlphaLifecycleRecord,
  Crates,
}
use dirextalk_vnext_deployer.Alpha.Syntax.{uuid_v7, positive, alpha_digest, prefixed_digest}
use dirextalk_vnext_deployer.Alpha.Package.{alpha_schema}

abbrev pub alpha_scenario : Str
alpha_scenario = bytes "dirextalk.internal-test-alpha.v1"

unfoldable pub validate_connector_fence : Crates → ConnectorFence → Checked
validate_connector_fence x f = do
  uuid_v7 x f.connector_id "connector_id"
  uuid_v7 x f.lease_id "connector_lease_id"
  positive f.generation "connector_generation"
  positive f.lease_epoch "connector_lease_epoch"

unfoldable pub validate_operation_fence : Crates → OperationFence → Checked
validate_operation_fence x f = do
  uuid_v7 x f.operation_id "operation_id"
  positive f.epoch "operation_epoch"

unfoldable pub validate_facts : ReadinessFacts → Checked
validate_facts f =
    reject_if (not (f.server_ready && f.client_ready && f.connector_ready && f.sidecar_ready))
      (contract "all four readiness facts must be true")

abbrev pub is_signer_byte : ℕ → Bool
is_signer_byte b = is_ascii_alphanumeric b || contains_byte b (bytes ".-_:")

abbrev pub is_signer : Str → Bool
is_signer signer =
    not (is_empty signer || ltb 128 (length signer) || not (all is_signer_byte signer))

-- `AcceptanceObservation::validate_for`
unfoldable pub validate_for : Crates → AcceptanceObservation → AlphaLifecycleRecord → Checked
validate_for x o r = do
  validate_connector_fence x o.connector_fence
  validate_operation_fence x o.operation_fence
  alpha_digest o.receipt_digest "receipt_digest"
  reject_if
      (o.scenario != alpha_scenario
        || o.target_id != r.target_id
        || o.manifest_digest != r.manifest_digest
        || o.package_digest != r.package_digest
        || o.connector_fence != r.connector_fence
        || o.operation_fence != r.operation_fence
        || not o.signature_verified
        || not (is_signer o.signer_identity))
      (contract "acceptance receipt does not match the exact Alpha operation")

-- `AlphaLifecycleRecord::seal`
unfoldable pub alpha_seal : Crates → AlphaLifecycleRecord → AlphaLifecycleRecord
alpha_seal x r = record r {
  integrity_digest = prefixed_digest x (x.record_to_vec (record r { integrity_digest = [] }));
}

-- The checks of `verify` that do not read the integrity digest.
unfoldable pub check_alpha_identity : Crates → AlphaLifecycleRecord → Checked
check_alpha_identity x r = do
  reject_if (r.schema != alpha_schema || not (nat_beq r.schema_version 3))
      (contract "invalid Alpha lifecycle schema")
  validate_connector_fence x r.connector_fence
  validate_operation_fence x r.operation_fence
  alpha_digest r.manifest_digest "manifest_digest"
  alpha_digest r.package_digest "package_digest"

-- `AlphaLifecycleRecord::verify`
unfoldable pub verify_alpha : Crates → AlphaLifecycleRecord → Checked
verify_alpha x r = do
  check_alpha_identity x r
  reject_if
      (r.integrity_digest
        != prefixed_digest x (x.record_to_vec (record r { integrity_digest = [] })))
      (contract "Alpha lifecycle integrity mismatch")

-- `AlphaLifecycleRecord::planned`
unfoldable pub alpha_plan :
    Crates
    → AlphaManifest
    → VerifiedAlphaPackage
    → ConnectorFence
    → OperationFence
    → Result AlphaLifecycleRecord
alpha_plan x m verified connector operation = do
  validate_connector_fence x connector
  validate_operation_fence x operation
  reject_if (verified.manifest_digest != m.digest)
      (contract "verified package does not match manifest")
  ok (
      alpha_seal x (record {
        schema = alpha_schema;
        schema_version = 3;
        target_id = m.contract.target.id;
        manifest_digest = verified.manifest_digest;
        package_digest = verified.package_digest;
        component_digests = verified.component_digests;
        connector_fence = connector;
        operation_fence = operation;
        state = alpha_planned;
        readiness = none;
        receipt_digest = none;
        receipt_signer_identity = none;
        integrity_digest = [];
      }))

-- The `match` that gives the expected state.
abbrev pub next_state : AlphaLifecycle → Option AlphaLifecycle
next_state alpha_planned = some installed
next_state installed = some started
next_state started = some alpha_ready
next_state alpha_ready = some acceptance_observed
next_state acceptance_observed = some alpha_completed
next_state alpha_completed = none

unfoldable pub check_next : Option AlphaLifecycle → AlphaLifecycle → Checked
check_next none next = err (contract "completed Alpha operation is immutable")
check_next (some expected) next =
    reject_if (next != expected) (contract "invalid Alpha lifecycle transition")

unfoldable pub with_facts :
    AlphaLifecycleRecord → Option ReadinessFacts → Result AlphaLifecycleRecord
with_facts r none = err (contract "readiness facts are required")
with_facts r (some facts) = do validate_facts facts; ok (record r { readiness = some facts })

-- `current` is the record before its state changed.
unfoldable pub with_acceptance :
    Crates
    → AlphaLifecycleRecord
    → AlphaLifecycleRecord
    → Option AcceptanceObservation
    → Result AlphaLifecycleRecord
with_acceptance x current r none = err (contract "acceptance receipt is required")
with_acceptance x current r (some o) = do
  validate_for x o current
  ok (record r {
    receipt_digest = some o.receipt_digest;
    receipt_signer_identity = some o.signer_identity;
  })

unfoldable pub check_complete : AlphaLifecycleRecord → Result AlphaLifecycleRecord
check_complete r = do
  reject_if
      (not (is_some r.readiness)
        || not (is_some r.receipt_digest)
        || not (is_some r.receipt_signer_identity))
      (contract "completed Alpha record lacks acceptance evidence")
  ok r

-- The `match` on the next state.
unfoldable pub with_evidence :
    Crates
    → AlphaLifecycle
    → AlphaLifecycleRecord
    → AlphaLifecycleRecord
    → Option ReadinessFacts
    → Option AcceptanceObservation
    → Result AlphaLifecycleRecord
with_evidence x alpha_ready current r facts acceptance = with_facts r facts
with_evidence x acceptance_observed current r facts acceptance =
    with_acceptance x current r acceptance
with_evidence x alpha_completed current r facts acceptance = check_complete r
with_evidence x _ current r facts acceptance = ok r

-- `AlphaLifecycleRecord::advance`
unfoldable pub alpha_advance :
    Crates
    → AlphaLifecycleRecord
    → AlphaLifecycle
    → Option ReadinessFacts
    → Option AcceptanceObservation
    → Result AlphaLifecycleRecord
alpha_advance x r next facts acceptance = do
  verify_alpha x r
  check_next (next_state r.state) next
  moved ← with_evidence x next r (record r { state = next }) facts acceptance
  ok (alpha_seal x moved)
