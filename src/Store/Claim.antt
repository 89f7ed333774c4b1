-- ===== src/Store/Claim.antt =====
-- src/deployment.rs: `claim`, by which a new operation takes its target, with the checks that it
-- makes on the state directory.
pub mod Owner
pub mod Writes
pub mod Ends
pub mod Outcome
pub mod Takeover
pub mod Succession
use dirextalk_vnext_deployer.Prelude.{
  ℕ, Bool, true, false, ◌&&◌, ◌||◌, not, List, [], ◌∷◌, ◌++◌, Option, none, some, Str, str_eq,
  option_str_eq, bytes, ◌==◌, ◌!=◌, if◌then◌else◌, is_some, is_empty, nat_beq, length, suc, ltb,
}
use dirextalk_vnext_deployer.Errors.{
  Result, ok, err, Checked, operation_conflict, state_unsafe, reject_if, contract,
}
use dirextalk_vnext_deployer.Errors
use dirextalk_vnext_deployer.AgentBundle.{AgentBundle}
use dirextalk_vnext_deployer.Contract.{HostTuple, host_eq, BoundConnector}
use dirextalk_vnext_deployer.Contract.Syntax.{uuid}
use dirextalk_vnext_deployer.Connector.{ConnectorClaim, claim_expired, claim_phase_eq}
use dirextalk_vnext_deployer.Manifest.{DeploymentManifest, validate, plan}
use dirextalk_vnext_deployer.Operation.{
  OperationPhase, OperationRecord, phase_eq, planned, completed, expired_unclaimed,
  rollback_converged, host_connectors,
}
use dirextalk_vnext_deployer.Operation.Validity.{valid_record}
use dirextalk_vnext_deployer.Store.Names.{
  StateName, name_eq, operation_file, owner_file, render, is_target_owner_projection_filename,
}
use dirextalk_vnext_deployer.Store.World.{
  Codec, M, ◌>>=◌, ◌>>◌, lift, look, World, File, TargetOwnership, ownership_eq,
}
use dirextalk_vnext_deployer.Store.Documents.{
  seal, operation_identity_digest, ownership_from_record, ownership_fence, verify_ownership,
}
use dirextalk_vnext_deployer.Store.Files.{
  read, read_owner, read_claim, read_secure, parsed, absent_ok, serialize_bounded, write_path, lock,
  ensure_root,
}

abbrev pub max_state_root_entries : ℕ
max_state_root_entries = 4096

-- `bundle_digest` is `AgentBundle::computed_digest`.
module _ (x : Codec) (bundle_digest : AgentBundle → Str) where
  -- `record_matches_manifest`
  unfoldable pub record_matches_manifest : OperationRecord → DeploymentManifest → Checked
  record_matches_manifest r m = Errors.◌>>◌ (validate x.parsers bundle_digest m.contract) (
      Errors.◌>>=◌ (plan x.parsers m r.target r.operation_id r.predecessor_operation_id) λ expected.
        reject_if (operation_identity_digest x r != operation_identity_digest x expected)
          operation_conflict)

  unfoldable pub is_initial : OperationRecord → Bool
  is_initial r = not (
      r.phase != planned
      || r.last_proven_phase != planned
      || is_some r.last_failure
      || not (is_empty r.integrity_digest))

  -- The checks on the arguments, before the state directory is touched.
  unfoldable pub admit : DeploymentManifest → OperationRecord → HostTuple → Checked
  admit m r proof = Errors.◌>>◌ (valid_record x.parsers r) (
      Errors.◌>>◌ (record_matches_manifest r m) (
        Errors.◌>>◌
          (reject_if (proof != r.binding.host)
            (contract "verified host binding does not match operation"))
          (reject_if (not (is_initial r))
            (contract "new operation claim must use canonical initial state"))))

module _ (x : Codec) where
  -- `read_owner` at a path of the directory's listing.
  unfoldable pub read_owner_at : StateName → World x.Document → Result TargetOwnership
  read_owner_at n w = Errors.◌>>=◌ (read_secure x n w) λ bytes.
      Errors.◌>>=◌ (parsed x (x.ownership_from_slice bytes))
        λ o. Errors.◌>>◌ (verify_ownership x o) (ok o)

  -- The loop of `reconcile_legacy_owner_for_absent_operation` over the directory's entries, with
  -- the number of owner projections seen and whether one of them named the operation.
  unfoldable pub reconcile_from :
      OperationRecord
      → TargetOwnership
      → StateName
      → World x.Document
      → ℕ
      → Bool
      → List (StateName × File x.Document)
      → Checked
  reconcile_from r ownership expected w count matching [] = ok tt
  reconcile_from r ownership expected w count matching ((n, f) ∷ entries) =
      let skip = reconcile_from r ownership expected w count matching entries in
      let other = reconcile_from r ownership expected w (suc count) matching entries in
      let found = reconcile_from r ownership expected w (suc count) true entries in
      if not (is_target_owner_projection_filename (render n))
      then skip
      else Errors.◌>>◌ (reject_if (ltb max_state_root_entries (suc count)) (state_unsafe [])) (
          Errors.◌>>=◌ (read_owner_at n w) λ current.
            if current.current_operation_id != r.operation_id
            then other
            else Errors.◌>>◌
                (reject_if (matching || n != expected || current != ownership) operation_conflict)
                found)

  -- `reconcile_legacy_owner_for_absent_operation`
  unfoldable pub reconcile_legacy_owner :
      OperationRecord → TargetOwnership → StateName → World x.Document → Checked
  reconcile_legacy_owner r ownership expected w =
      reconcile_from r ownership expected w 0 false w.files

  abbrev pub is_same_single : List BoundConnector → List BoundConnector → Bool
  is_same_single (a ∷ []) (b ∷ []) = a.instance_id == b.instance_id
  is_same_single _ _ = false

  unfoldable pub expired_claim_of :
      OperationRecord → List BoundConnector → World x.Document → Checked
  expired_claim_of predecessor [] w = err operation_conflict
  expired_claim_of predecessor (c ∷ _) w =
      Errors.◌>>=◌ (read_claim x c.instance_id predecessor.operation_id w) λ claim.
        reject_if
          (claim.phase != claim_expired
            || claim.operation_id != predecessor.operation_id
            || claim.target != predecessor.target)
          operation_conflict

  unfoldable pub expired_successor :
      OperationRecord
      → Option (List BoundConnector)
      → Option (List BoundConnector)
      → World x.Document
      → Checked
  expired_successor predecessor (some prior) (some next) w =
      Errors.◌>>◌ (reject_if (not (is_same_single prior next)) operation_conflict)
        (expired_claim_of predecessor prior w)
  expired_successor predecessor _ _ w = err operation_conflict

  -- `validate_expired_unclaimed_successor`
  unfoldable pub validate_expired_unclaimed_successor :
      OperationRecord → OperationRecord → World x.Document → Checked
  validate_expired_unclaimed_successor predecessor successor w =
      expired_successor predecessor (host_connectors predecessor.binding.workload)
        (host_connectors successor.binding.workload) w

  -- The `match` on the predecessor's phase.
  unfoldable pub check_ended :
      OperationPhase → OperationRecord → OperationRecord → World x.Document → Checked
  check_ended completed predecessor r w = ok tt
  check_ended rollback_converged predecessor r w = ok tt
  check_ended expired_unclaimed predecessor r w =
      validate_expired_unclaimed_successor predecessor r w
  check_ended _ predecessor r w = err operation_conflict

  -- The owner's projection is another operation's.
  unfoldable pub succeed_owner : TargetOwnership → OperationRecord → World x.Document → Checked
  succeed_owner current r w =
      Errors.◌>>◌
        (reject_if
          (current.target != r.target
            || current.host != r.binding.host
            || r.predecessor_operation_id != some current.current_operation_id)
          operation_conflict)
        (Errors.◌>>=◌ (read x current.current_operation_id w) λ predecessor.
          Errors.◌>>◌
            (reject_if
              (operation_identity_digest x predecessor != current.operation_identity_digest)
              operation_conflict)
            (check_ended predecessor.phase predecessor r w))

  unfoldable pub owner_transition :
      OperationRecord → TargetOwnership → Option TargetOwnership → World x.Document → Checked
  owner_transition r ownership none w =
      reject_if (is_some r.predecessor_operation_id) operation_conflict
  owner_transition r ownership (some current) w =
      if current.current_operation_id == r.operation_id
      then reject_if (current != ownership) operation_conflict
      else succeed_owner current r w

  -- `validate_owner_transition`
  unfoldable pub validate_owner_transition :
      Str → OperationRecord → TargetOwnership → World x.Document → Checked
  validate_owner_transition fence r ownership w =
      Errors.◌>>=◌ (absent_ok (read_owner x fence w))
        λ current. owner_transition r ownership current w

  -- An operation of this identifier that exists must be the same one.
  unfoldable pub check_existing : OperationRecord → Option OperationRecord → Checked
  check_existing r none = ok tt
  check_existing r (some existing) =
      reject_if (operation_identity_digest x existing != operation_identity_digest x r)
        operation_conflict

  unfoldable pub reconcile_if_absent :
      OperationRecord
      → TargetOwnership
      → StateName
      → Option OperationRecord
      → World x.Document
      → Checked
  reconcile_if_absent r ownership expected none w = reconcile_legacy_owner r ownership expected w
  reconcile_if_absent r ownership expected (some _) w = ok tt

  -- The record first, then the owner's projection; an exact retry rewrites the projection alone.
  unfoldable pub publish :
      OperationRecord
      → TargetOwnership
      → Str
      → Option OperationRecord
      → M x.Document OperationRecord
  publish r ownership fence (some existing) = do
    write_path x (owner_file fence) (x.ownership_to_vec ownership)
    lift (ok existing)
  publish r ownership fence none = do
    lift (uuid r.operation_id "operation_id")
    write_path x (operation_file r.operation_id) (x.record_to_vec r)
    write_path x (owner_file fence) (x.ownership_to_vec ownership)
    lift (ok r)

  -- The part of `claim` under the operation's lock, on the sealed record.
  unfoldable pub claim_locked : OperationRecord → TargetOwnership → M x.Document OperationRecord
  claim_locked r ownership = do
    existing ← look (λ w. absent_ok (read x r.operation_id w))
    lift (check_existing r existing)
    fence ← lift (ownership_fence x r.target r.binding.host)
    look (reconcile_if_absent r ownership (owner_file fence) existing)
    lock x (bytes "target-" ++ fence)
    look (validate_owner_transition fence r ownership)
    publish r ownership fence existing

  -- `claim` behind the checks on its arguments.
  unfoldable pub claim_admitted : OperationRecord → M x.Document OperationRecord
  claim_admitted record_given = do
    let r = seal x record_given
    let ownership = ownership_from_record x r
    record_bytes ← lift (serialize_bounded x (x.record_to_vec r))
    ownership_bytes ← lift (serialize_bounded x (x.ownership_to_vec ownership))
    ensure_root
    lock x (bytes "id-" ++ r.operation_id)
    claim_locked r ownership

-- `DeploymentStateStore::claim`; `proof` is the host of the `VerifiedHostBinding`.
unfoldable pub claim :
    (x : Codec)
    → (AgentBundle → Str)
    → DeploymentManifest
    → OperationRecord
    → HostTuple
    → M x.Document OperationRecord
claim x bundle_digest m r proof = do lift (admit x bundle_digest m r proof); claim_admitted x r
