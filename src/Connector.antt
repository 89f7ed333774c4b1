-- ===== src/Connector.antt =====
-- src/deployment.rs: the connector's claim on an operation, and the ownership of an instance.
use dirextalk_vnext_deployer.Prelude.{
  ℕ, ℕ_discrete, not, nat_beq, List, PartialEq, of_discrete, Str, str_eq, ◌==◌, Option, none, some,
  find, [],
}
use dirextalk_vnext_deployer.Errors.{Result, ok, err, Checked, reject_if, contract, ◌>>◌}
use dirextalk_vnext_deployer.Contract.{ImmutableArtifact, AdapterKind, adapter_eq, BoundConnector}
use dirextalk_vnext_deployer.Contract.Syntax.{Parsers, token, sha256, uuid}
use dirextalk_vnext_deployer.Contract.Validation.{validate_artifact}
use dirextalk_vnext_deployer.Operation.{OperationRecord, host_connectors}
use dirextalk_vnext_deployer.Operation.Validity.{valid_record, valid_predecessor}

pub data ConnectorClaimPhase : Type 0 where
  prepared handoff_observed released claim_expired : ConnectorClaimPhase

unfoldable pub ConnectorClaimPhase-discrete : Discrete ConnectorClaimPhase
ConnectorClaimPhase-discrete = hlevel

instance abbrev pub claim_phase_eq : PartialEq ConnectorClaimPhase
claim_phase_eq = of_discrete ConnectorClaimPhase-discrete

pub record ConnectorClaim : Type 0 where
  pub schema_version : ℕ
  pub operation_id : Str
  pub manifest_digest : Str
  pub target : Str
  pub instance_id : Str
  pub artifact : ImmutableArtifact
  pub adapter_kind : AdapterKind
  pub handoff_digest : Str
  pub predecessor_operation_id : Option Str
  pub phase : ConnectorClaimPhase
  pub integrity_digest : Str

pub record ConnectorOwnership : Type 0 where
  pub schema_version : ℕ
  pub instance_id : Str
  pub current_operation_id : Str
  pub predecessor_operation_id : Option Str
  pub claim_identity_digest : Str
  pub integrity_digest : Str

unfoldable pub ConnectorOwnership-discrete : Discrete ConnectorOwnership
unfolding ℕ_discrete
ConnectorOwnership-discrete = hlevel ℕ_discrete

instance abbrev pub connector_ownership_eq : PartialEq ConnectorOwnership
connector_ownership_eq = of_discrete ConnectorOwnership-discrete

-- `valid_claim`
unfoldable pub valid_claim : Parsers → ConnectorClaim → Checked
unfolding uuid sha256 validate_artifact valid_predecessor token
valid_claim p c = do
  reject_if (not (nat_beq c.schema_version 1)) (contract "connector claim schema_version must be 1")
  uuid c.operation_id "operation_id"
  uuid c.instance_id "instance_id"
  sha256 c.manifest_digest "manifest_digest"
  validate_artifact p c.artifact "connector claim artifact"
  sha256 c.handoff_digest "handoff_digest"
  valid_predecessor c.predecessor_operation_id c.operation_id "connector claim predecessor"
      "connector claim cannot succeed itself"
  token c.target "target"

abbrev pub find_instance : Str → List BoundConnector → Option BoundConnector
find_instance instance_id connectors = find (λ c. c.instance_id == instance_id) connectors

prepared_from :
    Parsers → OperationRecord → Option Str → Option BoundConnector → Result ConnectorClaim
unfolding valid_claim
prepared_from p parent predecessor none =
    err (contract "connector instance is absent from parent operation")
prepared_from p parent predecessor (some binding) = do
  let claim : ConnectorClaim = record {
    schema_version = 1;
    operation_id = parent.operation_id;
    manifest_digest = parent.manifest_digest;
    target = parent.target;
    instance_id = binding.instance_id;
    artifact = parent.artifact;
    adapter_kind = binding.adapter_kind;
    handoff_digest = binding.handoff_digest;
    predecessor_operation_id = predecessor;
    phase = prepared;
    integrity_digest = [];
  }
  valid_claim p claim
  ok claim

prepared_among :
    Parsers
    → OperationRecord
    → Str
    → Option Str
    → Option (List BoundConnector)
    → Result ConnectorClaim
unfolding prepared_from
prepared_among p parent instance_id predecessor none =
    err (contract "connector claim parent must bind a connector host")
prepared_among p parent instance_id predecessor (some connectors) =
    prepared_from p parent predecessor (find_instance instance_id connectors)

-- `ConnectorClaim::prepared`
unfoldable pub prepared_claim : Parsers → OperationRecord → Str → Option Str → Result ConnectorClaim
unfolding valid_record prepared_among
prepared_claim p parent instance_id predecessor = do
  valid_record p parent
  prepared_among p parent instance_id predecessor (host_connectors parent.binding.workload)
