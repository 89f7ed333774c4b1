-- ===== src/Store/Transitions.antt =====
-- src/deployment.rs: the methods of `DeploymentStateStore` that change a durable operation:
-- `lock_current`, the change of the record, and `persist_record`.
pub mod Current
pub mod Durable
pub mod Persist
pub mod Transact
pub mod Expiry
use dirextalk_vnext_deployer.Prelude.{
  Bool, true, false, ◌&&◌, ◌||◌, not, List, [], ◌∷◌, ◌++◌, Option, none, some, Str, str_eq, bytes,
  ◌==◌, ◌!=◌, if◌then◌else◌,
}
use dirextalk_vnext_deployer.Errors.{Result, ok, err, Checked, operation_conflict, reject_if}
use dirextalk_vnext_deployer.Errors
use dirextalk_vnext_deployer.Contract.{BoundConnector}
use dirextalk_vnext_deployer.Contract.Syntax.{uuid}
use dirextalk_vnext_deployer.Connector.{
  ConnectorClaim, ConnectorOwnership, released, claim_expired, claim_phase_eq,
}
use dirextalk_vnext_deployer.Operation.{
  OperationPhase, OperationRecord, OperationFailureEvidence, phase_eq, completed, expired_unclaimed,
  rollback_fenced, host_connectors, advance, fail, resume, expire_unclaimed, rollback_service_only,
  finish_rollback,
}
use dirextalk_vnext_deployer.Operation.Validity.{valid_record}
use dirextalk_vnext_deployer.Store.Names.{operation_file}
use dirextalk_vnext_deployer.Store.World.{Codec, M, ◌>>=◌, ◌>>◌, lift, look, World, TargetOwnership}
use dirextalk_vnext_deployer.Store.Documents.{
  seal, operation_identity_digest, ownership_fence, connector_claim_identity_digest,
}
use dirextalk_vnext_deployer.Store.Files.{
  read, read_owner, read_claim, read_connector_owner, write_path, lock,
}

module _ (x : Codec) where
  -- The owner's projection names this operation and its identity.
  abbrev pub is_owner_of : TargetOwnership → OperationRecord → Bool
  is_owner_of owner r = not (
      owner.current_operation_id != r.operation_id
      || owner.operation_identity_digest != operation_identity_digest x r)

  -- The second half of `lock_current`, which `verify_current_owner` repeats.
  unfoldable pub check_owner : Str → OperationRecord → World x.Document → Checked
  check_owner fence current w =
      Errors.◌>>=◌ (read_owner x fence w)
        λ owner. reject_if (not (is_owner_of owner current)) operation_conflict

  -- `lock_current`
  unfoldable pub lock_current : Str → M x.Document OperationRecord
  lock_current id = do
    initial ← look (read x id)
    fence ← lift (ownership_fence x initial.target initial.binding.host)
    lock x (bytes "target-" ++ fence)
    current ← look (read x id)
    look (check_owner fence current)
    lift (ok current)

  -- One round of the loop in `verify_connector_completion`.
  unfoldable pub check_released : OperationRecord → BoundConnector → World x.Document → Checked
  check_released r c w = Errors.◌>>=◌ (read_connector_owner x c.instance_id w) λ owner.
      Errors.◌>>=◌ (read_claim x c.instance_id owner.current_operation_id w) λ claim.
        reject_if
          (owner.current_operation_id != r.operation_id
            || connector_claim_identity_digest x claim != owner.claim_identity_digest
            || claim.phase != released)
          operation_conflict

  unfoldable pub check_all_released :
      OperationRecord → List BoundConnector → World x.Document → Checked
  check_all_released r [] w = ok tt
  check_all_released r (c ∷ connectors) w =
      Errors.◌>>◌ (check_released r c w) (check_all_released r connectors w)

  unfoldable pub check_completion :
      OperationRecord → Option (List BoundConnector) → World x.Document → Checked
  check_completion r none w = ok tt
  check_completion r (some connectors) w = check_all_released r connectors w

  -- `verify_connector_completion`
  unfoldable pub verify_connector_completion : OperationRecord → World x.Document → Checked
  verify_connector_completion r w = check_completion r (host_connectors r.binding.workload) w

  unfoldable pub check_if_completed : OperationRecord → World x.Document → Checked
  check_if_completed r w = if r.phase == completed then verify_connector_completion r w else ok tt

  -- `persist_record`
  unfoldable pub persist_record : OperationRecord → M x.Document OperationRecord
  persist_record r = do
    lift (valid_record x.parsers r)
    look (check_if_completed r)
    lift (uuid r.operation_id "operation_id")
    write_path x (operation_file r.operation_id) (x.record_to_vec (seal x r))
    lift (ok (seal x r))

  -- What the methods share: the record is read under its lock, changed, and persisted.
  unfoldable pub transact :
      Str → (OperationRecord → Result OperationRecord) → M x.Document OperationRecord
  transact id change = do
    current ← lock_current id
    changed ← lift (change current)
    persist_record changed

  -- `DeploymentStateStore::advance`
  unfoldable pub store_advance : Str → OperationPhase → M x.Document OperationRecord
  store_advance id to = transact id (λ r. advance r to)

  -- `DeploymentStateStore::fail`
  unfoldable pub store_fail : Str → OperationFailureEvidence → M x.Document OperationRecord
  store_fail id evidence = transact id (λ r. fail r evidence)

  -- `DeploymentStateStore::resume`
  unfoldable pub store_resume : Str → M x.Document OperationRecord
  store_resume id = transact id resume

  -- `rollback_fence`
  unfoldable pub rollback_fence : Str → M x.Document OperationRecord
  rollback_fence id = transact id (λ r. rollback_service_only r rollback_fenced)

  -- `DeploymentStateStore::finish_rollback`
  unfoldable pub store_finish_rollback : Str → OperationPhase → M x.Document OperationRecord
  store_finish_rollback id to = transact id (λ r. finish_rollback r to)

  unfoldable pub expire_or_keep : Str → OperationRecord → M x.Document OperationRecord
  expire_or_keep instance_id r =
      if r.phase == expired_unclaimed
      then lift (ok r)
      else (lift (expire_unclaimed r instance_id) >>= persist_record)

  unfoldable pub check_claim_expired : Str → Str → World x.Document → Checked
  check_claim_expired instance_id id w =
      Errors.◌>>=◌ (read_claim x instance_id id w)
        λ claim. reject_if (claim.phase != claim_expired) operation_conflict

  -- `expire_unclaimed_operation`
  unfoldable pub expire_unclaimed_operation : Str → Str → M x.Document OperationRecord
  expire_unclaimed_operation id instance_id = do
    r ← lock_current id
    look (check_claim_expired instance_id id)
    expire_or_keep instance_id r
