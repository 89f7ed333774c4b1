-- ===== src/Store/Connectors.antt =====
-- src/deployment.rs: the store's methods on connector claims.
pub mod Moves
pub mod Current
pub mod Outcome
use dirextalk_vnext_deployer.Prelude.{
  Bool, true, false, ◌&&◌, ◌||◌, not, List, [], ◌∷◌, ◌++◌, Option, none, some, Str, str_eq,
  option_str_eq, bytes, ◌==◌, ◌!=◌, if◌then◌else◌, is_empty, is_some, any, find, String,
}
use dirextalk_vnext_deployer.Errors.{
  Result, ok, err, Checked, operation_conflict, reject_if, contract,
}
use dirextalk_vnext_deployer.Errors
use dirextalk_vnext_deployer.Contract.{
  HostTuple, host_eq, BoundConnector, BindingWorkload, node_workload, connector_host, adapter_eq,
  artifact_eq,
}
use dirextalk_vnext_deployer.Contract.Syntax.{uuid}
use dirextalk_vnext_deployer.Connector.{
  ConnectorClaim, ConnectorOwnership, ConnectorClaimPhase, connector_ownership_eq, claim_phase_eq,
  prepared, handoff_observed, released, claim_expired, valid_claim, find_instance,
}
use dirextalk_vnext_deployer.Operation.{
  OperationRecord, OperationPhase, phase_eq, completed, rollback_converged, expired_unclaimed,
  host_connectors,
}
use dirextalk_vnext_deployer.Store.Names.{claim_file, connector_owner_file}
use dirextalk_vnext_deployer.Store.World.{Codec, M, ◌>>=◌, ◌>>◌, lift, look, World}
use dirextalk_vnext_deployer.Store.Documents.{
  seal_claim, connector_claim_identity_digest, ownership_from_claim, ownership_fence,
}
use dirextalk_vnext_deployer.Store.Files.{
  read, read_claim, read_connector_owner, absent_ok, serialize_bounded, ensure_root, lock,
  write_path,
}
use dirextalk_vnext_deployer.Store.Transitions.{check_owner}

-- The tests of `claim_matches_parent` on the workload of the parent.
unfoldable pub matches_workload : ConnectorClaim → OperationRecord → BindingWorkload → Checked
matches_workload claim parent (node_workload _ _ _) = err operation_conflict
matches_workload claim parent (connector_host digest connectors) =
    elim (find_instance claim.instance_id connectors) [
      | none ↦ err operation_conflict
      | some binding ↦
          reject_if
            (claim.artifact != parent.artifact
              || claim.artifact.digest != digest
              || claim.adapter_kind != binding.adapter_kind
              || claim.handoff_digest != binding.handoff_digest)
            operation_conflict
    ]

-- `claim_matches_parent`; `proof` is the host of the `VerifiedHostBinding`.
unfoldable pub claim_matches_parent : ConnectorClaim → OperationRecord → HostTuple → Checked
claim_matches_parent claim parent proof =
    Errors.◌>>◌
      (reject_if
        (proof != parent.binding.host
          || claim.manifest_digest != parent.manifest_digest
          || claim.target != parent.target)
        operation_conflict)
      (matches_workload claim parent parent.binding.workload)

abbrev pub binds_instance : Option (List BoundConnector) → Str → Bool
binds_instance none instance_id = false
binds_instance (some connectors) instance_id = any (λ c. c.instance_id == instance_id) connectors

module _ (x : Codec) where
  -- `verify_current_owner`
  unfoldable pub verify_current_owner : OperationRecord → World x.Document → Checked
  verify_current_owner r w =
      Errors.◌>>=◌ (ownership_fence x r.target r.binding.host) λ fence. check_owner x fence r w

  unfoldable pub predecessor_of :
      OperationRecord → Str → Option Str → World x.Document → Result (Option Str)
  predecessor_of parent instance_id none w = ok none
  predecessor_of parent instance_id (some id) w = Errors.◌>>=◌ (read x id w) λ predecessor.
      Errors.◌>>◌
        (reject_if
          (predecessor.target != parent.target || predecessor.binding.host != parent.binding.host)
          operation_conflict)
        (ok (
          if binds_instance (host_connectors predecessor.binding.workload) instance_id
          then some id
          else none))

  -- `connector_predecessor_for_parent`
  unfoldable pub connector_predecessor_for_parent :
      OperationRecord → Str → World x.Document → Result (Option Str)
  connector_predecessor_for_parent parent instance_id w =
      predecessor_of parent instance_id parent.predecessor_operation_id w

  -- The `match` on the prior claim's phase.
  unfoldable pub may_follow : ConnectorClaimPhase → OperationRecord → OperationRecord → Bool
  may_follow released prior_parent parent =
      prior_parent.phase == completed || prior_parent.phase == rollback_converged
  may_follow claim_expired prior_parent parent =
      prior_parent.phase == expired_unclaimed
      && parent.predecessor_operation_id == some prior_parent.operation_id
  may_follow _ prior_parent parent = false

  abbrev pub names_other : Option Str → Str → Bool
  names_other none id = false
  names_other (some predecessor) id = predecessor != id

  -- The instance's projection is another operation's.
  unfoldable pub check_prior :
      ConnectorClaim
      → OperationRecord
      → Option Str
      → ConnectorOwnership
      → World x.Document
      → Checked
  check_prior claim parent expected current w =
      Errors.◌>>◌ (reject_if (current.instance_id != claim.instance_id) operation_conflict) (
        Errors.◌>>◌
          (reject_if (names_other expected current.current_operation_id) operation_conflict)
          (Errors.◌>>=◌ (read_claim x claim.instance_id current.current_operation_id w) λ prior.
            Errors.◌>>=◌ (read x prior.operation_id w) λ prior_parent.
              Errors.◌>>◌
                (reject_if
                  (connector_claim_identity_digest x prior != current.claim_identity_digest
                    || prior.target != parent.target
                    || prior_parent.binding.host != parent.binding.host)
                  operation_conflict)
                (reject_if (not (may_follow prior.phase prior_parent parent)) operation_conflict)))

  -- The `match` on the instance's projection.
  unfoldable pub take_instance :
      ConnectorClaim
      → OperationRecord
      → Option Str
      → Option ConnectorOwnership
      → M x.Document (Unit {0})
  take_instance claim parent expected none = do
    lift (reject_if (is_some expected) operation_conflict)
    write_path x (connector_owner_file claim.instance_id)
        (x.connector_owner_to_vec (ownership_from_claim x claim))
  take_instance claim parent expected (some current) =
      if current.current_operation_id == claim.operation_id
      then lift (reject_if (current != ownership_from_claim x claim) operation_conflict)
      else (look (check_prior claim parent expected current)
          >> write_path x (connector_owner_file claim.instance_id)
              (x.connector_owner_to_vec (ownership_from_claim x claim)))

  unfoldable pub converge_with :
      ConnectorClaim → Option ConnectorClaim → M x.Document ConnectorClaim
  converge_with claim (some existing) = do
    lift (
        reject_if
          (connector_claim_identity_digest x existing != connector_claim_identity_digest x claim)
          operation_conflict)
    lift (ok existing)
  converge_with claim none = do
    write_path x (claim_file claim.instance_id claim.operation_id) (x.claim_to_vec claim)
    lift (ok claim)

  -- `converge_connector_claim`
  unfoldable pub converge_connector_claim : ConnectorClaim → M x.Document ConnectorClaim
  converge_connector_claim claim = do
    existing ← look (λ w. absent_ok (read_claim x claim.instance_id claim.operation_id w))
    converge_with claim existing

  -- `claim_connector` behind the checks on its arguments, on the sealed claim.
  unfoldable pub claim_sealed : ConnectorClaim → HostTuple → M x.Document ConnectorClaim
  claim_sealed claim proof = do
    parent ← look (read x claim.operation_id)
    lift (claim_matches_parent claim parent proof)
    fence ← lift (ownership_fence x parent.target parent.binding.host)
    lock x (bytes "target-" ++ fence)
    parent' ← look (read x claim.operation_id)
    look (verify_current_owner parent')
    lock x (bytes "connector-" ++ claim.instance_id)
    expected ← look (connector_predecessor_for_parent parent' claim.instance_id)
    lift (reject_if (claim.predecessor_operation_id != expected) operation_conflict)
    current ← look (λ w. absent_ok (read_connector_owner x claim.instance_id w))
    take_instance claim parent' expected current
    converge_connector_claim claim

  -- `claim_connector`
  unfoldable pub claim_connector : ConnectorClaim → HostTuple → M x.Document ConnectorClaim
  claim_connector claim proof = do
    lift (valid_claim x.parsers claim)
    lift (
        reject_if (claim.phase != prepared || not (is_empty claim.integrity_digest))
          (contract "new connector claim must be canonical prepared state"))
    bytes_of_claim ← lift (serialize_bounded x (x.claim_to_vec (seal_claim x claim)))
    bytes_of_owner ← lift (
        serialize_bounded x
          (x.connector_owner_to_vec (ownership_from_claim x (seal_claim x claim))))
    ensure_root
    claim_sealed (seal_claim x claim) proof

  unfoldable pub reread_connector :
      Str → OperationRecord → M x.Document (ConnectorOwnership × ConnectorClaim)
  reread_connector instance_id parent = do
    owner ← look (read_connector_owner x instance_id)
    claim ← look (read_claim x instance_id owner.current_operation_id)
    lift (
        reject_if
          (owner.instance_id != instance_id
            || connector_claim_identity_digest x claim != owner.claim_identity_digest
            || claim.operation_id != parent.operation_id)
          operation_conflict)
    lift (ok (owner, claim))

  -- `lock_current_connector`
  unfoldable pub lock_current_connector : Str → M x.Document (ConnectorOwnership × ConnectorClaim)
  lock_current_connector instance_id = do
    initial_owner ← look (read_connector_owner x instance_id)
    initial_claim ← look (read_claim x instance_id initial_owner.current_operation_id)
    parent ← look (read x initial_claim.operation_id)
    fence ← lift (ownership_fence x parent.target parent.binding.host)
    lock x (bytes "target-" ++ fence)
    parent' ← look (read x initial_claim.operation_id)
    look (verify_current_owner parent')
    lock x (bytes "connector-" ++ instance_id)
    reread_connector instance_id parent'

  -- `persist_connector_claim`
  unfoldable pub persist_connector_claim :
      ConnectorOwnership → ConnectorClaim → M x.Document ConnectorClaim
  persist_connector_claim owner claim = do
    lift (valid_claim x.parsers claim)
    lift (
        reject_if (connector_claim_identity_digest x claim != owner.claim_identity_digest)
          operation_conflict)
    lift (uuid claim.instance_id "instance_id")
    lift (uuid claim.operation_id "operation_id")
    write_path x (claim_file claim.instance_id claim.operation_id)
        (x.claim_to_vec (seal_claim x claim))
    lift (ok (seal_claim x claim))

  -- The tests on the phase that the three methods below share: a claim that is at `to` is
  -- returned, a claim at `source` is moved.
  unfoldable pub move_claim :
      ConnectorClaimPhase
      → ConnectorClaimPhase
      → String
      → ConnectorOwnership × ConnectorClaim
      → M x.Document ConnectorClaim
  move_claim source to refusal (owner, claim) =
      if claim.phase == to
      then lift (ok claim)
      else (lift (reject_if (claim.phase != source) (contract refusal))
          >> persist_connector_claim owner (record claim { phase = to }))

  unfoldable pub move_connector :
      ConnectorClaimPhase → ConnectorClaimPhase → String → Str → M x.Document ConnectorClaim
  move_connector source to refusal instance_id = do
    lift (uuid instance_id "instance_id")
    current ← lock_current_connector instance_id
    move_claim source to refusal current

  -- `observe_connector_handoff`
  unfoldable pub observe_connector_handoff : Str → M x.Document ConnectorClaim
  observe_connector_handoff instance_id =
      move_connector prepared handoff_observed "illegal connector enrollment transition" instance_id

  -- `release_connector_claim`
  unfoldable pub release_connector_claim : Str → M x.Document ConnectorClaim
  release_connector_claim instance_id =
      move_connector handoff_observed released "only an observed connector handoff may be released"
        instance_id

  -- `expire_unclaimed_connector_claim`
  unfoldable pub expire_unclaimed_connector_claim : Str → M x.Document ConnectorClaim
  expire_unclaimed_connector_claim instance_id =
      move_connector prepared claim_expired
        "only an unobserved connector claim may expire unclaimed" instance_id
