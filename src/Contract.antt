-- ===== src/Contract.antt =====
-- src/deployment.rs: the data of a deployment contract, and the operation's binding to it.
pub mod Syntax
pub mod Validation
pub mod Named
use dirextalk_vnext_deployer.Prelude.{
  PartialEq, Str, of_discrete, ℕ, ℕ_discrete, nat_beq, ltb, Bool, List, Option,
}

pub record ImmutableArtifact : Type 0 where
  pub version : Str
  pub digest : Str

unfoldable pub ImmutableArtifact-discrete : Discrete ImmutableArtifact
unfolding ℕ_discrete
ImmutableArtifact-discrete = hlevel ℕ_discrete

instance abbrev pub artifact_eq : PartialEq ImmutableArtifact
artifact_eq = of_discrete ImmutableArtifact-discrete

pub record HostTuple : Type 0 where
  pub tenant_id : Str
  pub host_id : Str
  pub owner_id : Str
  pub host_credential_id : Str

unfoldable pub HostTuple-discrete : Discrete HostTuple
unfolding ℕ_discrete
HostTuple-discrete = hlevel ℕ_discrete

instance abbrev pub host_eq : PartialEq HostTuple
host_eq = of_discrete HostTuple-discrete

pub data NodeService : Type 0 where
  node agent_control realtime_gateway opaque_push_broker : NodeService

unfoldable pub NodeService-discrete : Discrete NodeService
NodeService-discrete = hlevel

instance abbrev pub service_eq : PartialEq NodeService
service_eq = of_discrete NodeService-discrete

-- `NodeService::rank`
abbrev pub rank : NodeService → ℕ
rank node = 0
rank agent_control = 1
rank realtime_gateway = 2
rank opaque_push_broker = 3

pub data AdapterKind : Type 0 where
  codex openclaw_acp eino rig claude_code custom_acp hermes_acp : AdapterKind

unfoldable pub AdapterKind-discrete : Discrete AdapterKind
AdapterKind-discrete = hlevel

instance abbrev pub adapter_eq : PartialEq AdapterKind
adapter_eq = of_discrete AdapterKind-discrete

pub record BoundConnector : Type 0 where
  pub instance_id : Str
  pub adapter_kind : AdapterKind
  pub handoff_digest : Str

-- The first case is `BindingWorkload::Node`, the second `BindingWorkload::ConnectorHost`.
pub data BindingWorkload : Type 0 where
  node_workload : (origin server_digest : Str) (services : List NodeService) → BindingWorkload
  connector_host : (connector_digest : Str) (connectors : List BoundConnector) → BindingWorkload

pub record OperationBinding : Type 0 where
  pub target : Str
  pub host : HostTuple
  pub artifact : ImmutableArtifact
  pub workload : BindingWorkload
