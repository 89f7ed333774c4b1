-- ===== src/Manifest.antt =====
-- src/deployment.rs: the deployment contract and its validation, and the operation that is planned
-- from it.
pub mod Services
pub mod Planning
use dirextalk_vnext_deployer.Prelude.{
  ℕ, ℕ_discrete, Bool, false, ◌||◌, not, List, [], ◌∷◌, PartialEq, of_discrete, Str, str_eq, ◌==◌,
  ◌!=◌, nat_beq, is_empty, any, find, Option, none, some, if◌then◌else◌, leb, str_le, sort_by, map,
}
use dirextalk_vnext_deployer.Errors.{Checked, Result, ok, err, reject_if, contract, ◌>>◌, ◌>>=◌}
use dirextalk_vnext_deployer.AgentBundle.{AgentBundle, validate_bundle, verify_bundle_digest}
use dirextalk_vnext_deployer.Contract.{
  ImmutableArtifact, HostTuple, NodeService, service_eq, rank, AdapterKind, adapter_eq, codex,
  BoundConnector, OperationBinding, node_workload, connector_host,
}
use dirextalk_vnext_deployer.Contract.Syntax.{Parsers, token, sha256, uuid, https_origin}
use dirextalk_vnext_deployer.Contract.Validation.{validate_artifact, validate_host}
use dirextalk_vnext_deployer.Operation.{OperationRecord, planned}
use dirextalk_vnext_deployer.Operation.Validity.{
  contains_node, has_duplicate, valid_record, valid_predecessor,
}

pub record ConnectorBinding : Type 0 where
  pub instance_id : Str
  pub adapter_kind : AdapterKind
  pub handoff_digest : Str
  pub agent_bundle : Option AgentBundle

-- The cases `Node` and `ConnectorHost` of `DeploymentTarget`.
pub data DeploymentTarget : Type 0 where
  node_target :
      (id origin : Str) (services : List NodeService) (host : HostTuple) → DeploymentTarget
  connector_target :
      (id : Str) (host : HostTuple) (connectors : List ConnectorBinding) → DeploymentTarget

abbrev pub target_id : DeploymentTarget → Str
target_id (node_target id _ _ _) = id
target_id (connector_target id _ _) = id

pub record DeploymentContract : Type 0 where
  pub schema_version : ℕ
  pub server : ImmutableArtifact
  pub connector : ImmutableArtifact
  pub targets : List DeploymentTarget

pub record DeploymentManifest : Type 0 where
  pub contract : DeploymentContract
  pub digest : Str

-- The tuple that the validation keeps for a host id.
pub record HostIdentity : Type 0 where
  pub tenant_id : Str
  pub owner_id : Str
  pub host_credential_id : Str

unfoldable pub HostIdentity-discrete : Discrete HostIdentity
unfolding ℕ_discrete
HostIdentity-discrete = hlevel ℕ_discrete

instance abbrev pub host_identity_eq : PartialEq HostIdentity
host_identity_eq = of_discrete HostIdentity-discrete

-- The sets and the map that the loop over the targets fills.
pub record Seen : Type 0 where
  pub target_ids : List Str
  pub origins : List Str
  pub host_ids : List (Str × HostIdentity)
  pub connectors : List Str

abbrev pub member : Str → List Str → Bool
member s seen = any (λ t. t == s) seen

abbrev pub lookup_host : Str → List (Str × HostIdentity) → Option HostIdentity
lookup_host s [] = none
lookup_host s ((t, v) ∷ m) = if t == s then some v else lookup_host s m

abbrev pub differs : Option HostIdentity → HostIdentity → Bool
differs none new = false
differs (some old) new = old != new

-- `host_ids.insert(…)`, refused where the old tuple is another one.
unfoldable pub note_host : HostTuple → Seen → Result Seen
note_host h seen = do
  let identity : HostIdentity = record {
    tenant_id = h.tenant_id;
    owner_id = h.owner_id;
    host_credential_id = h.host_credential_id;
  }
  reject_if (differs (lookup_host h.host_id seen.host_ids) identity)
      (contract "host id has inconsistent tuple")
  ok (record seen { host_ids = (h.host_id, identity) ∷ seen.host_ids })

-- The `match` on the schema version and the bundle.
unfoldable pub check_bundle :
    Parsers → (AgentBundle → Str) → ℕ → ConnectorBinding → Option AgentBundle → Checked
check_bundle p d version c none =
    reject_if (not (nat_beq version 1))
      (contract "schema v2 Connector targets require agent_bundle")
check_bundle p d version c (some bundle) = do
  reject_if (nat_beq version 1)
      (contract "schema v1 Connector targets cannot carry an Agent Bundle")
  reject_if (c.adapter_kind != codex)
      (contract "the production Agent Bundle profile accepts only codex")
  validate_bundle p bundle
  verify_bundle_digest d bundle

-- `ConnectorBinding::validate`
unfoldable pub validate_binding : ConnectorBinding → Checked
validate_binding c = do
  uuid c.instance_id "connector.instance_id"
  sha256 c.handoff_digest "connector.handoff_digest"

-- The loop over a target's connectors.
unfoldable pub check_connectors :
    Parsers → (AgentBundle → Str) → ℕ → List ConnectorBinding → Seen → Result Seen
check_connectors p d version [] seen = ok seen
check_connectors p d version (c ∷ connectors) seen = do
  validate_binding c
  check_bundle p d version c c.agent_bundle
  reject_if (member c.instance_id seen.connectors) (contract "duplicate connector instance")
  check_connectors p d version connectors
      (record seen { connectors = c.instance_id ∷ seen.connectors })

-- The `match` on one target.
unfoldable pub check_target :
    Parsers → (AgentBundle → Str) → ℕ → DeploymentTarget → Seen → Result Seen
check_target p d version (node_target id origin services host) seen = do
  https_origin p origin
  reject_if (member origin seen.origins) (contract "duplicate node origin")
  reject_if (is_empty services || has_duplicate services)
      (contract "node services must be non-empty and duplicate-free")
  reject_if (not (contains_node services)) (contract "node target must include node service")
  validate_host host
  note_host host (record seen { origins = origin ∷ seen.origins })
check_target p d version (connector_target id host connectors) seen = do
  validate_host host
  reject_if (is_empty connectors) (contract "connector host requires bindings")
  seen' ← note_host host seen
  check_connectors p d version connectors seen'

-- The loop over the targets.
unfoldable pub check_targets :
    Parsers → (AgentBundle → Str) → ℕ → List DeploymentTarget → Seen → Result Seen
check_targets p d version [] seen = ok seen
check_targets p d version (t ∷ targets) seen = do
  token (target_id t) "target.id"
  reject_if (member (target_id t) seen.target_ids) (contract "duplicate target id")
  seen' ← check_target p d version t (record seen { target_ids = target_id t ∷ seen.target_ids })
  check_targets p d version targets seen'

abbrev pub nothing_seen : Seen
nothing_seen = record { target_ids = []; origins = []; host_ids = []; connectors = [] }

-- `DeploymentContract::validate`. `d` is `AgentBundle::computed_digest`.
unfoldable pub validate : Parsers → (AgentBundle → Str) → DeploymentContract → Checked
validate p d m = do
  reject_if (not (nat_beq m.schema_version 1 || nat_beq m.schema_version 2))
      (contract "schema_version must be exactly 1 or 2")
  validate_artifact p m.server "server"
  validate_artifact p m.connector "connector"
  reject_if (is_empty m.targets) (contract "targets must not be empty")
  check_targets p d m.schema_version m.targets nothing_seen >>= λ _. ok tt

abbrev pub by_rank : NodeService → NodeService → Bool
by_rank a b = leb (rank a) (rank b)

abbrev pub by_instance : BoundConnector → BoundConnector → Bool
by_instance a b = str_le a.instance_id b.instance_id

abbrev pub bound : ConnectorBinding → BoundConnector
bound c = record {
  instance_id = c.instance_id;
  adapter_kind = c.adapter_kind;
  handoff_digest = c.handoff_digest;
}

-- `binding_from_manifest`; the artifact of the pair that it returns is the binding's own.
unfoldable pub binding_from_manifest :
    DeploymentContract → DeploymentTarget → OperationBinding × ImmutableArtifact
binding_from_manifest m (node_target id origin services host) = (
  record {
    target = id;
    host = host;
    artifact = m.server;
    workload = node_workload origin m.server.digest (sort_by by_rank services);
  },
  m.server,
)
binding_from_manifest m (connector_target id host connectors) = (
  record {
    target = id;
    host = host;
    artifact = m.connector;
    workload = connector_host m.connector.digest (sort_by by_instance (map bound connectors));
  },
  m.connector,
)

abbrev pub find_target : Str → List DeploymentTarget → Option DeploymentTarget
find_target target targets = find (λ t. target_id t == target) targets

-- The record that `planned` builds for a target.
unfoldable pub initial_record :
    DeploymentManifest → Str → Str → Option Str → DeploymentTarget → OperationRecord
initial_record m target operation_id predecessor t =
    let (binding, artifact) = binding_from_manifest m.contract t in
    record {
      schema_version = 1;
      operation_id = operation_id;
      manifest_digest = m.digest;
      artifact = artifact;
      binding = binding;
      target = target;
      predecessor_operation_id = predecessor;
      phase = planned;
      last_proven_phase = planned;
      last_failure = none;
      integrity_digest = [];
    }

unfoldable pub plan_target :
    Parsers
    → DeploymentManifest
    → Str
    → Str
    → Option Str
    → Option DeploymentTarget
    → Result OperationRecord
plan_target p m target operation_id predecessor none =
    err (contract "operation target is absent from deployment manifest")
plan_target p m target operation_id predecessor (some t) = do
  let r = initial_record m target operation_id predecessor t
  valid_record p r
  ok r

-- `OperationRecord::planned`
unfoldable pub plan : Parsers → DeploymentManifest → Str → Str → Option Str → Result OperationRecord
plan p m target operation_id predecessor = do
  uuid operation_id "operation_id"
  valid_predecessor predecessor operation_id "predecessor_operation_id"
      "operation cannot succeed itself"
  plan_target p m target operation_id predecessor (find_target target m.contract.targets)
