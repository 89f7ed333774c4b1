-- ===== src/Operation.antt =====
-- src/deployment.rs: the durable operation record, its phases and its transitions.
pub mod Validity
pub mod Steps
pub mod Inversion
pub mod Identity
pub mod Invariant
pub mod Progress
pub mod Passing
pub mod Recovery
use dirextalk_vnext_deployer.Prelude.{
  PartialEq, Str, of_discrete, ℕ, ℕ_discrete, Bool, true, false, ◌&&◌, ◌||◌, not, List, [], ◌∷◌,
  Option, none, some, nat_beq, length, get_elem?, is_some, ◌==◌, ◌!=◌, str_eq, is_empty,
}
use dirextalk_vnext_deployer.Errors.{
  Result, ok, err, Checked, reject_if, contract, ◌>>=◌, ◌>>◌, ReleaseError,
}
use dirextalk_vnext_deployer.Contract.{
  ImmutableArtifact, OperationBinding, BindingWorkload, node_workload, connector_host,
  BoundConnector,
}

pub data OperationPhase : Type 0 where
  planned claimed host_bound artifacts_verified material_prepared configs_written migration_applied
        services_converged readiness_verified completed expired_unclaimed failed_recoverable
        rollback_fenced rollback_converged rollback_blocked :
      OperationPhase

unfoldable pub OperationPhase-discrete : Discrete OperationPhase
OperationPhase-discrete = hlevel

instance abbrev pub phase_eq : PartialEq OperationPhase
phase_eq = of_discrete OperationPhase-discrete

abbrev pub after_configs : BindingWorkload → OperationPhase
after_configs (node_workload _ _ _) = migration_applied
after_configs (connector_host _ _) = services_converged

-- `OperationPhase::next`
unfoldable pub next : OperationPhase → BindingWorkload → Option OperationPhase
next planned w = some claimed
next claimed w = some host_bound
next host_bound w = some artifacts_verified
next artifacts_verified w = some material_prepared
next material_prepared w = some configs_written
next configs_written w = some (after_configs w)
next migration_applied w = some services_converged
next services_converged w = some readiness_verified
next readiness_verified w = some completed
next _ w = none

unfoldable pub OptionPhase-discrete : Discrete (Option OperationPhase)
OptionPhase-discrete = hlevel

instance abbrev pub option_phase_eq : PartialEq (Option OperationPhase)
option_phase_eq = of_discrete OptionPhase-discrete

pub record OperationFailureEvidence : Type 0 where
  pub service_revision_digest : Option Str
  pub config_digest : Option Str
  pub unit_digest : Option Str
  pub readiness_digest : Option Str
  pub runtime_uid : Option ℕ
  pub runtime_gid : Option ℕ
  pub entrypoint_digest : Option Str

pub record OperationRecord : Type 0 where
  pub schema_version : ℕ
  pub operation_id : Str
  pub manifest_digest : Str
  pub artifact : ImmutableArtifact
  pub binding : OperationBinding
  pub target : Str
  pub predecessor_operation_id : Option Str
  pub phase : OperationPhase
  pub last_proven_phase : OperationPhase
  pub last_failure : Option OperationFailureEvidence
  pub integrity_digest : Str

-- `OperationRecord::advance`. A method on `&mut self` returns the new record.
unfoldable pub advance : OperationRecord → OperationPhase → Result OperationRecord
advance r to = do
  reject_if (r.phase == failed_recoverable) (contract "failed operation must be explicitly resumed")
  reject_if (next r.phase r.binding.workload != some to)
      (contract "illegal operation state transition")
  ok (record r { phase = to; last_proven_phase = to })

-- The phases that `fail` refuses.
abbrev pub refuses_failure : OperationPhase → Bool
refuses_failure completed = true
refuses_failure expired_unclaimed = true
refuses_failure rollback_fenced = true
refuses_failure rollback_converged = true
refuses_failure rollback_blocked = true
refuses_failure failed_recoverable = true
refuses_failure _ = false

-- `OperationRecord::fail`
unfoldable pub fail : OperationRecord → OperationFailureEvidence → Result OperationRecord
fail r evidence = do
  reject_if (refuses_failure r.phase) (contract "completed operation is rollback-fenced")
  ok (record r {
    last_proven_phase = r.phase;
    phase = failed_recoverable;
    last_failure = some evidence;
  })

-- The connectors of a connector-host workload.
abbrev pub host_connectors : BindingWorkload → Option (List BoundConnector)
host_connectors (node_workload _ _ _) = none
host_connectors (connector_host _ connectors) = some connectors

abbrev pub is_only_instance : List BoundConnector → Str → Bool
is_only_instance (c ∷ []) instance_id = c.instance_id == instance_id
is_only_instance _ instance_id = false

expire_bound : OperationRecord → Str → Option (List BoundConnector) → Result OperationRecord
expire_bound r instance_id none =
    err (contract "only a Connector-host operation may expire unclaimed")
expire_bound r instance_id (some connectors) = do
  reject_if
      (r.phase != artifacts_verified
        || r.last_proven_phase != artifacts_verified
        || is_some r.last_failure
        || not (is_only_instance connectors instance_id))
      (contract "expired-unclaimed operation is not exact no-effect state")
  ok (record r { phase = expired_unclaimed; last_proven_phase = expired_unclaimed })

-- `OperationRecord::expire_unclaimed`
unfoldable pub expire_unclaimed : OperationRecord → Str → Result OperationRecord
unfolding expire_bound
expire_unclaimed r instance_id = expire_bound r instance_id (host_connectors r.binding.workload)

-- `OperationRecord::rollback_service_only`
unfoldable pub rollback_service_only : OperationRecord → OperationPhase → Result OperationRecord
rollback_service_only r to = do
  reject_if (r.phase != completed) (contract "only completed operations can be rollback fenced")
  reject_if (to != rollback_fenced) (contract "rollback must begin with a fence")
  ok (record r { phase = to })

abbrev pub is_rollback_end : OperationPhase → Bool
is_rollback_end rollback_converged = true
is_rollback_end rollback_blocked = true
is_rollback_end _ = false

-- `OperationRecord::finish_rollback`
unfoldable pub finish_rollback : OperationRecord → OperationPhase → Result OperationRecord
finish_rollback r to = do
  reject_if (r.phase != rollback_fenced || not (is_rollback_end to))
      (contract "illegal rollback transition")
  ok (record r { phase = to })

-- The change that `DeploymentStateStore::resume` makes to the record.
unfoldable pub resume : OperationRecord → Result OperationRecord
resume r = do
  reject_if (r.phase != failed_recoverable)
      (contract "only a failed recoverable operation may resume")
  ok (record r { phase = r.last_proven_phase; last_failure = none })
