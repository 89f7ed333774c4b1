-- ===== src/Store/Commands/History.antt =====
-- Sequences of the store's methods of src/deployment.rs.
use dirextalk_vnext_deployer.Prelude.{Str, ◌≡◌, List, [], ◌∷◌}
use dirextalk_vnext_deployer.Errors.{ok}
use dirextalk_vnext_deployer.AgentBundle.{AgentBundle}
use dirextalk_vnext_deployer.Operation.{OperationRecord}
use dirextalk_vnext_deployer.Operation.Steps.{IsValid, SameIdentity, SameIdentity-refl}
use dirextalk_vnext_deployer.Store.World.{Codec, CodecLaws, World}
use dirextalk_vnext_deployer.Store.Files.{read}
use dirextalk_vnext_deployer.Store.Transitions.Transact.{read-ok}
use dirextalk_vnext_deployer.Store.Commands.Reached.{
  SealedReach, unmoved, SealedReach-trans, SealedReach-SameIdentity,
}
use dirextalk_vnext_deployer.Store.Commands.Calls.{Call, after, after-ReadsReached}

-- The world after the calls, whatever each returned.
pub run_all : (x : Codec) → (AgentBundle → Str) → List Call → World x.Document → World x.Document
run_all x d [] w = w
run_all x d (c ∷ calls) w = run_all x d calls (after x d c w)

-- Where a serialized value is read back and a digest is hexadecimal: after any calls of `advance`,
-- `fail`, `resume`, `rollback_fence`, `finish_rollback`, `expire_unclaimed_operation`, `claim`,
-- `observe_connector_handoff`, `release_connector_claim` and `expire_unclaimed_connector_claim`, on any
-- operations and connectors, whatever each returned and however each replacement of a file ended, an
-- operation that could be read can be read; the record is reached by sealed steps from the first one,
-- is valid, and has its identity.
pub run_all-ReadsReached :
    (x : Codec)
    → CodecLaws x
    → (d : AgentBundle → Str) (id : Str) (calls : List Call) (w : World x.Document)
      (r : OperationRecord)
    → read x id w ≡ ok r
    → (s : OperationRecord) × (read x id (run_all x d calls w) ≡ ok s)
      × SealedReach x r s
      × IsValid x.parsers s
      × SameIdentity r s
unfolding run_all
run_all-ReadsReached x laws d id [] w r first =
    (r, first, unmoved, (read-ok x id w first).0, SameIdentity-refl r)
run_all-ReadsReached x laws d id (c ∷ calls) w r first =
    let (q, reads, trace) = after-ReadsReached x laws id w first d c in
    let (s, last, rest, valid, _) =
      run_all-ReadsReached x laws d id calls (after x d c w) q reads in
    let whole = SealedReach-trans x trace rest in
    (s, last, whole, valid, SealedReach-SameIdentity x whole)
