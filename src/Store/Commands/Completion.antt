-- ===== src/Store/Commands/Completion.antt =====
-- What src/deployment.rs `verify_connector_completion` guarantees of a completed operation.
use mathlib.Core.Path.{subst}
use dirextalk_vnext_deployer.Prelude.{
  Str, ◌≡◌, sym, ap, ◌∙◌, List, [], ◌∷◌, some, ◌!=◌, ◌||◌, if◌then◌else◌, str_eq, ne-eq-false,
  or-eq-false, eq_iff,
}
use dirextalk_vnext_deployer.Errors.{
  Result, ok, err, Checked, reject_if, operation_conflict, >>-eq-ok, >>=-eq-ok, reject_if-eq-ok,
}
use dirextalk_vnext_deployer.Errors
use dirextalk_vnext_deployer.Contract.{BoundConnector}
use dirextalk_vnext_deployer.Connector.{
  ConnectorClaim, ConnectorOwnership, released, claim_phase_eq,
}
use dirextalk_vnext_deployer.Operation.{OperationRecord, completed, host_connectors, phase_eq}
use dirextalk_vnext_deployer.Operation.Inversion.{advance-inv}
use dirextalk_vnext_deployer.Store.World.{Codec, CodecLaws, World}
use dirextalk_vnext_deployer.Store.Documents.{seal, connector_claim_identity_digest}
use dirextalk_vnext_deployer.Store.Files.{read_claim, read_connector_owner}
use dirextalk_vnext_deployer.Store.Transitions.{
  check_released, check_all_released, check_completion, verify_connector_completion,
  check_if_completed, store_advance,
}
use dirextalk_vnext_deployer.Store.Transitions.Transact.{Transacted}
use dirextalk_vnext_deployer.Store.Commands.{advance_to, run-Transacted, change_of}

-- The connector's projection names the operation, and its claim is the released one.
pub record IsReleased (x : Codec) (id : Str) (c : BoundConnector) (w : World x.Document)
    : Type 0 where
  pub owner : ConnectorOwnership
  pub claim : ConnectorClaim
  pub owner_read : read_connector_owner x c.instance_id w ≡ ok owner
  pub owner_named : owner.current_operation_id ≡ id
  pub claim_read : read_claim x c.instance_id id w ≡ ok claim
  pub claim_named : owner.claim_identity_digest ≡ connector_claim_identity_digest x claim
  pub claim_released : claim.phase ≡ released

pub AllReleased : (x : Codec) → Str → List BoundConnector → World x.Document → Type 0
AllReleased x id [] w = Unit
AllReleased x id (c ∷ connectors) w = IsReleased x id c w × AllReleased x id connectors w

module _ (x : Codec) (r : OperationRecord) where
  check_released-IsReleased :
      (c : BoundConnector) (w : World x.Document)
      → check_released x r c w ≡ ok tt
      → IsReleased x r.operation_id c w
  unfolding check_released
  check_released-IsReleased c w h =
      let test : ConnectorOwnership → ConnectorClaim → Checked = λ owner claim.
        reject_if
          (owner.current_operation_id != r.operation_id
            || connector_claim_identity_digest x claim != owner.claim_identity_digest
            || claim.phase != released)
          operation_conflict in
      let (owner, owner_read, h1) =
        >>=-eq-ok (read_connector_owner x c.instance_id w)
          (λ owner.
            Errors.◌>>=◌ (read_claim x c.instance_id owner.current_operation_id w) (test owner))
          h in
      let (claim, claim_read, h2) =
        >>=-eq-ok (read_claim x c.instance_id owner.current_operation_id w) (test owner) h1 in
      let (first, is_released) = or-eq-false _ _ (reject_if-eq-ok _ operation_conflict h2) in
      let (named, digest) = or-eq-false _ _ first in
      let same = ne-eq-false owner.current_operation_id r.operation_id named in
      record {
        owner = owner;
        claim = claim;
        owner_read = owner_read;
        owner_named = same;
        claim_read = subst (λ i. read_claim x c.instance_id i w ≡ ok claim) same claim_read;
        claim_named = sym (ne-eq-false _ _ digest);
        claim_released = ne-eq-false _ _ is_released;
      }

  check_all_released-AllReleased :
      (connectors : List BoundConnector) (w : World x.Document)
      → check_all_released x r connectors w ≡ ok tt
      → AllReleased x r.operation_id connectors w
  unfolding check_all_released AllReleased
  check_all_released-AllReleased [] w h = tt
  check_all_released-AllReleased (c ∷ connectors) w h =
      let (one, rest) = >>-eq-ok (check_released x r c w) (check_all_released x r connectors w) h in
      (check_released-IsReleased c w one, check_all_released-AllReleased connectors w rest)

  check_if_completed-AllReleased :
      (connectors : List BoundConnector) (w : World x.Document)
      → r.phase ≡ completed
      → host_connectors r.binding.workload ≡ some connectors
      → check_if_completed x r w ≡ ok tt
      → AllReleased x r.operation_id connectors w
  unfolding check_if_completed verify_connector_completion check_completion
  check_if_completed-AllReleased connectors w done host h =
      check_all_released-AllReleased connectors w (
        subst (λ o. check_completion x r o w ≡ ok tt) host
          (subst (λ b. (if b then verify_connector_completion x r w else ok tt) ≡ ok tt)
            ((eq_iff r.phase completed).1 done) h))

-- Where a serialized value is read back: when an advance to `completed` succeeds on a
-- connector-host operation, then for each of its connectors the projection names this operation
-- and its claim by this operation can be read and is released.
pub store_advance-AllReleased :
    (x : Codec)
    → CodecLaws x
    → (id : Str) (w v : World x.Document) (s : OperationRecord) (connectors : List BoundConnector)
    → store_advance x id completed w ≡ (ok s, v)
    → host_connectors s.binding.workload ≡ some connectors
    → AllReleased x s.operation_id connectors w
unfolding seal Transacted
store_advance-AllReleased x laws id w v s connectors h host =
    let (r, t, _, changed, _, checked, made, _, _) =
      subst (Transacted x id (change_of (advance_to completed)) w) h
        (run-Transacted x laws id (advance_to completed) w) in
    let is_moved = (advance-inv r t completed changed).1 in
    subst (λ i. AllReleased x i connectors w) (sym (ap (λ q. q.operation_id) made))
      (check_if_completed-AllReleased x t connectors w (ap (λ q. q.phase) is_moved)
        (sym (ap (λ q. host_connectors q.binding.workload) made) ∙ host) checked)
