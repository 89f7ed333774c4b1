-- ===== src/Operation/Validity.antt =====
-- src/deployment.rs: `valid_record` and the checks that it calls, in its order.
use dirextalk_vnext_deployer.Prelude.{
  Str, Bool, true, false, ◌&&◌, ◌||◌, not, List, [], ◌∷◌, Option, none, some, nat_beq, leb, is_some,
  ◌==◌, ◌!=◌, str_eq, is_empty, str_le, any, String,
}
use dirextalk_vnext_deployer.Errors.{ok, Checked, reject_if, contract, ◌>>◌}
use dirextalk_vnext_deployer.Contract.{
  ImmutableArtifact, artifact_eq, BindingWorkload, node_workload, connector_host, BoundConnector,
  NodeService, service_eq, node, rank,
}
use dirextalk_vnext_deployer.Contract.Syntax.{Parsers, sha256, uuid, token, https_origin}
use dirextalk_vnext_deployer.Contract.Validation.{validate_artifact, validate_host}
use dirextalk_vnext_deployer.Operation.{
  OperationPhase, phase_eq, planned, claimed, host_bound, artifacts_verified, material_prepared,
  configs_written, migration_applied, services_converged, readiness_verified, completed,
  expired_unclaimed, failed_recoverable, rollback_fenced, rollback_converged, rollback_blocked,
  OperationFailureEvidence, OperationRecord,
}

-- `is_forward_nonterminal`
abbrev pub is_forward_nonterminal : OperationPhase → BindingWorkload → Bool
is_forward_nonterminal planned w = true
is_forward_nonterminal claimed w = true
is_forward_nonterminal host_bound w = true
is_forward_nonterminal artifacts_verified w = true
is_forward_nonterminal material_prepared w = true
is_forward_nonterminal configs_written w = true
is_forward_nonterminal services_converged w = true
is_forward_nonterminal readiness_verified w = true
is_forward_nonterminal migration_applied (node_workload _ _ _) = true
is_forward_nonterminal _ w = false

abbrev pub check_digest : String → Option Str → Checked
check_digest name none = ok tt
check_digest name (some d) = sha256 d name

-- `valid_evidence`
unfoldable pub valid_evidence : Option OperationFailureEvidence → Checked
valid_evidence none = ok tt
valid_evidence (some e) = do
  check_digest "evidence digest" e.service_revision_digest
  check_digest "evidence digest" e.config_digest
  check_digest "evidence digest" e.unit_digest
  check_digest "evidence digest" e.readiness_digest
  check_digest "evidence digest" e.entrypoint_digest

-- The test on the predecessor, which `valid_record`, `valid_claim` and `planned` share.
unfoldable pub valid_predecessor : Option Str → Str → (name same : String) → Checked
valid_predecessor none id name same = ok tt
valid_predecessor (some predecessor) id name same = do
  uuid predecessor name
  reject_if (predecessor == id) (contract same)

abbrev pub contains_node : List NodeService → Bool
contains_node services = any (λ s. s == node) services

-- `services.iter().collect::<HashSet<_>>().len() != services.len()`
abbrev pub has_duplicate : List NodeService → Bool
has_duplicate [] = false
has_duplicate (s ∷ services) = any (λ t. t == s) services || has_duplicate services

-- `services.windows(2).any(|pair| pair[0].rank() >= pair[1].rank())`
abbrev pub is_unordered : List NodeService → Bool
is_unordered [] = false
is_unordered (s ∷ []) = false
is_unordered (s ∷ t ∷ services) = leb (rank t) (rank s) || is_unordered (t ∷ services)

-- The loop over the connectors, with `previous`.
unfoldable pub valid_connectors : Str → List BoundConnector → Checked
valid_connectors previous [] = ok tt
valid_connectors previous (c ∷ connectors) = do
  uuid c.instance_id "connector instance"
  sha256 c.handoff_digest "connector handoff"
  reject_if (str_le c.instance_id previous) (contract "connectors must be canonical sorted")
  valid_connectors c.instance_id connectors

-- The `match` on the workload in `valid_record`.
unfoldable pub valid_workload : Parsers → ImmutableArtifact → BindingWorkload → Checked
valid_workload p a (node_workload origin server_digest services) = do
  https_origin p origin
  sha256 server_digest "server digest"
  reject_if (server_digest != a.digest) (contract "node workload artifact digest mismatch")
  reject_if
      (is_empty services
        || not (contains_node services)
        || has_duplicate services
        || is_unordered services)
      (contract "invalid node binding services")
valid_workload p a (connector_host connector_digest connectors) = do
  sha256 connector_digest "connector digest"
  reject_if (connector_digest != a.digest) (contract "connector workload artifact digest mismatch")
  reject_if (is_empty connectors) (contract "connector binding is empty")
  valid_connectors [] connectors

abbrev pub binds_one : BindingWorkload → Bool
binds_one (connector_host _ (c ∷ [])) = true
binds_one _ = false

abbrev pub is_connector_host : BindingWorkload → Bool
is_connector_host (node_workload _ _ _) = false
is_connector_host (connector_host _ _) = true

-- The `match` on the phase in `valid_record`, on the proven phase, whether there is a failure, and
-- the workload.
unfoldable pub valid_phase : OperationPhase → OperationPhase → Bool → BindingWorkload → Checked
valid_phase failed_recoverable proven has_failure w =
    reject_if (not (is_forward_nonterminal proven w) || not has_failure)
      (contract "failed operation must retain a nonterminal proven phase and failure evidence")
valid_phase rollback_fenced proven has_failure w =
    reject_if (proven != completed || has_failure) (contract "rollback operation state is invalid")
valid_phase rollback_converged proven has_failure w =
    reject_if (proven != completed || has_failure) (contract "rollback operation state is invalid")
valid_phase rollback_blocked proven has_failure w =
    reject_if (proven != completed || has_failure) (contract "rollback operation state is invalid")
valid_phase expired_unclaimed proven has_failure w =
    reject_if (not (binds_one w) || proven != expired_unclaimed || has_failure)
      (contract "expired-unclaimed operation state is invalid")
valid_phase phase proven has_failure w = do
  reject_if (phase != proven || has_failure) (contract "forward operation state is invalid")
  reject_if (phase == migration_applied && is_connector_host w)
      (contract "connector operation cannot enter migration phase")

-- The checks of `valid_record` that do not read the phase.
unfoldable pub valid_identity : Parsers → OperationRecord → Checked
valid_identity p r = do
  reject_if (not (nat_beq r.schema_version 1)) (contract "operation schema_version must be 1")
  uuid r.operation_id "operation_id"
  sha256 r.manifest_digest "manifest_digest"
  validate_artifact p r.artifact "operation artifact"
  reject_if (r.artifact != r.binding.artifact)
      (contract "operation artifact does not match binding")
  valid_predecessor r.predecessor_operation_id r.operation_id "predecessor_operation_id"
      "operation cannot succeed itself"
  token r.target "target"
  reject_if (r.binding.target != r.target) (contract "operation binding target mismatch")
  validate_host r.binding.host
  validate_artifact p r.binding.artifact "binding artifact"
  valid_workload p r.binding.artifact r.binding.workload

-- `valid_record`
unfoldable pub valid_record : Parsers → OperationRecord → Checked
valid_record p r = do
  valid_identity p r
  valid_phase r.phase r.last_proven_phase (is_some r.last_failure) r.binding.workload
  valid_evidence r.last_failure
