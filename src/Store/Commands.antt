-- ===== src/Store/Commands.antt =====
-- src/deployment.rs: the store's methods `advance`, `fail`, `resume`, `rollback_fence` and
-- `finish_rollback`, as commands.
pub mod Reached
pub mod Calls
pub mod History
pub mod Completion
pub mod Success
use mathlib.Core.Path.{subst}
use dirextalk_vnext_deployer.Prelude.{
  Str, ◌≡◌, refl, sym, ap, ◌∙◌, inl, inr, ◌⊎◌, List, [], ◌∷◌, some,
}
use dirextalk_vnext_deployer.Errors.{Result, ok, err}
use dirextalk_vnext_deployer.Operation.{
  OperationPhase, OperationFailureEvidence, OperationRecord, advance, fail, resume,
  rollback_service_only, finish_rollback, rollback_fenced,
}
use dirextalk_vnext_deployer.Operation.Validity.{valid_evidence}
use dirextalk_vnext_deployer.Operation.Steps.{
  IsValid, Step, SameIdentity, moved, by_advance, by_fail, by_resume, by_fence, by_finish,
}
use dirextalk_vnext_deployer.Operation.Inversion.{
  advance-inv, fail-inv, resume-inv, fence-inv, finish-inv,
}
use dirextalk_vnext_deployer.Operation.Invariant.{IsValid-evidence}
use dirextalk_vnext_deployer.Store.World.{Codec, CodecLaws, M, World}
use dirextalk_vnext_deployer.Store.Documents.{seal}
use dirextalk_vnext_deployer.Store.Files.{read}
use dirextalk_vnext_deployer.Store.Transitions.{
  transact, store_advance, store_fail, store_resume, rollback_fence, store_finish_rollback,
}
use dirextalk_vnext_deployer.Store.Transitions.Current.{IsCurrent}
use dirextalk_vnext_deployer.Store.Transitions.Durable.{OthersKept}
use dirextalk_vnext_deployer.Store.Transitions.Transact.{Transacted, KeepsId, transact-Transacted}

-- The methods that make one transition of the current record and nothing else: `advance`, `fail`,
-- `resume`, `rollback_fence` and `finish_rollback`.
pub data Command : Type 0 where
  advance_to : OperationPhase → Command
  fail_with : OperationFailureEvidence → Command
  resume_failed : Command
  fence_rollback : Command
  finish_at : OperationPhase → Command

-- The change that a command makes to the record.
abbrev pub change_of : Command → OperationRecord → Result OperationRecord
change_of (advance_to to) r = advance r to
change_of (fail_with e) r = fail r e
change_of resume_failed r = resume r
change_of fence_rollback r = rollback_service_only r rollback_fenced
change_of (finish_at to) r = finish_rollback r to

-- The store's method for a command.
abbrev pub run : (x : Codec) → Str → Command → M x.Document OperationRecord
run x id (advance_to to) = store_advance x id to
run x id (fail_with e) = store_fail x id e
run x id resume_failed = store_resume x id
run x id fence_rollback = rollback_fence x id
run x id (finish_at to) = store_finish_rollback x id to

run-transact : (x : Codec) (id : Str) (c : Command) → run x id c ≡ transact x id (change_of c)
unfolding store_advance store_fail store_resume rollback_fence store_finish_rollback
run-transact x id (advance_to to) = refl
run-transact x id (fail_with e) = refl
run-transact x id resume_failed = refl
run-transact x id fence_rollback = refl
run-transact x id (finish_at to) = refl

change_of-KeepsId : (c : Command) → KeepsId (change_of c)
change_of-KeepsId (advance_to to) r t h = ap (λ s. s.operation_id) (advance-inv r t to h).1
change_of-KeepsId (fail_with e) r t h = ap (λ s. s.operation_id) (fail-inv r t e h).1
change_of-KeepsId resume_failed r t h = ap (λ s. s.operation_id) (resume-inv r t h).1
change_of-KeepsId fence_rollback r t h =
    ap (λ s. s.operation_id) (fence-inv r t rollback_fenced h).2
change_of-KeepsId (finish_at to) r t h = ap (λ s. s.operation_id) (finish-inv r t to h).2

-- A change whose outcome is valid is a step.
change_of-Step :
    (x : Codec) (c : Command) (r t : OperationRecord)
    → change_of c r ≡ ok t
    → IsValid x.parsers t
    → Step r t
change_of-Step x (advance_to to) r t h v = by_advance to h
change_of-Step x (fail_with e) r t h v = by_fail e h
change_of-Step x resume_failed r t h v = by_resume h
change_of-Step x fence_rollback r t h v = by_fence rollback_fenced h
change_of-Step x (finish_at to) r t h v = by_finish to h

pub run-Transacted :
    (x : Codec)
    → CodecLaws x
    → (id : Str) (c : Command) (w : World x.Document)
    → Transacted x id (change_of c) w (run x id c w)
run-Transacted x laws id c w =
    subst (λ m. Transacted x id (change_of c) w (m w)) (sym (run-transact x id c))
      (transact-Transacted x id (change_of c) laws (change_of-KeepsId c) w)

-- How a command may end. A success returns the sealed result of one step of the current record,
-- and that is what is read next. An error leaves what was read, or that step's result. No other
-- document changes.
pub Committed :
    (x : Codec) → Str → World x.Document → Result OperationRecord × World x.Document → Type 0
Committed x id w (ok s, v) =
    (r : OperationRecord) × (t : OperationRecord) × IsCurrent x id w r
    × Step r t
    × (s ≡ seal x t)
    × (read x id v ≡ ok s)
    × OthersKept x id w v
Committed x id w (err e, v) =
    ((read x id v ≡ read x id w)
      ⊎ ((r : OperationRecord) × (t : OperationRecord) × IsCurrent x id w r
          × Step r t
          × (read x id v ≡ ok (seal x t))))
    × OthersKept x id w v

Transacted-Committed :
    (x : Codec) (id : Str) (c : Command) (w : World x.Document)
    (p : Result OperationRecord × World x.Document)
    → Transacted x id (change_of c) w p
    → Committed x id w p
unfolding Transacted Committed
Transacted-Committed x id c w (ok s, v) (r, t, current, changed, valid, _, made, reads, kept) =
    (r, t, current, change_of-Step x c r t changed valid, made, reads, kept)
Transacted-Committed x id c w (err e, v) (old_or_new, kept) = (
  elim old_or_new [
    | inl old ↦ inl old
    | inr (r, t, current, changed, valid, reads) ↦
        inr (r, t, current, change_of-Step x c r t changed valid, reads)
  ],
  kept,
)

-- Where a serialized value is read back, each of `advance`, `fail`, `resume`, `rollback_fence` and
-- `finish_rollback` ends as `Committed` says, however the replacement of the record's file ended.
pub run-Committed :
    (x : Codec)
    → CodecLaws x
    → (id : Str) (c : Command) (w : World x.Document) → Committed x id w (run x id c w)
run-Committed x laws id c w =
    Transacted-Committed x id c w (run x id c w) (run-Transacted x laws id c w)
