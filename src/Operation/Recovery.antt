-- ===== src/Operation/Recovery.antt =====
-- src/deployment.rs: failing and resuming, and the phases that nothing leaves.
use dirextalk_vnext_deployer.Prelude.{
  Bool, true, false, Option, none, some, ◌≡◌, refl, arith, ◌⊎◌, sym, ap, is_some, ◌∙◌, eq_iff,
  ne_of_eq,
}
use dirextalk_vnext_deployer.Errors.{ok}
use dirextalk_vnext_deployer.Contract.{BindingWorkload}
use dirextalk_vnext_deployer.Contract.Syntax.{Parsers}
use dirextalk_vnext_deployer.Operation.{
  OperationPhase, OperationRecord, planned, completed, expired_unclaimed, failed_recoverable,
  rollback_converged, rollback_blocked, refuses_failure, next, fail, resume,
  OperationFailureEvidence, phase_eq, option_phase_eq,
}
use dirextalk_vnext_deployer.Operation.Validity.{valid_phase}
use dirextalk_vnext_deployer.Operation.Steps.{
  Step, by_advance, by_fail, by_resume, by_expire, by_fence, by_finish, IsValid, moved,
}
use dirextalk_vnext_deployer.Operation.Inversion.{
  advance-inv, fail-inv, resume-inv, expire-inv, fence-inv, finish-inv,
}
use dirextalk_vnext_deployer.Operation.Invariant.{IsValid-phase}

-- The phases that no transition leaves.
abbrev pub IsTerminal : OperationPhase → Type 0
IsTerminal phase =
    (phase ≡ expired_unclaimed) ⊎ (phase ≡ rollback_converged) ⊎ (phase ≡ rollback_blocked)

next-IsTerminal :
    (phase : OperationPhase) (w : BindingWorkload) → IsTerminal phase → next phase w ≡ none
unfolding next
next-IsTerminal phase w h = ground arith

refuses-IsTerminal : (phase : OperationPhase) → IsTerminal phase → refuses_failure phase ≡ true
refuses-IsTerminal phase h = ground arith

-- An expired operation and a finished rollback stay as they are: every transition is refused.
pub IsTerminal-absorbs : (r s : OperationRecord) → IsTerminal r.phase → ¬ Step r s
IsTerminal-absorbs r s h (by_advance to a) =
    let (legal, _) = advance-inv r s to a in cc (next-IsTerminal r.phase r.binding.workload h)
IsTerminal-absorbs r s h (by_fail e a) =
    let (legal, _) = fail-inv r s e a in cc (refuses-IsTerminal r.phase h)
IsTerminal-absorbs r s h (by_resume a) = let (was, _) = resume-inv r s a in ground arith
IsTerminal-absorbs r s h (by_expire i a) = let (was, _, _, _) = expire-inv r s i a in ground arith
IsTerminal-absorbs r s h (by_fence to a) = let (was, _, _) = fence-inv r s to a in ground arith
IsTerminal-absorbs r s h (by_finish to a) = let (was, _, _) = finish-inv r s to a in ground arith

-- What the three transitions accept, exactly.
fail-eq-ok :
    (r : OperationRecord) (e : OperationFailureEvidence)
    → refuses_failure r.phase ≡ false
    → fail r e ≡ ok (moved r failed_recoverable r.phase (some e))
unfolding fail
fail-eq-ok r e h = rw h

resume-eq-ok :
    (r : OperationRecord)
    → r.phase ≡ failed_recoverable
    → resume r ≡ ok (moved r r.last_proven_phase r.last_proven_phase none)
unfolding resume
resume-eq-ok r h = rw (ne_of_eq h)

none_of_not_some {ℓ} : {A : Type ℓ} (o : Option A) → is_some o ≡ false → o ≡ none
none_of_not_some none h = refl
none_of_not_some (some a) h = cc

forward_fields :
    (phase proven : OperationPhase) (f : Bool) (w : BindingWorkload)
    → valid_phase phase proven f w ≡ ok tt
    → refuses_failure phase ≡ false
    → (proven ≡ phase) × (f ≡ false)
unfolding valid_phase
forward_fields planned proven f w v h = ground (arith, eq_iff planned proven)
forward_fields completed proven f w v h = cc
forward_fields phase proven f w v h = ground (arith, eq_iff phase proven)

moved_back :
    (r : OperationRecord) {proven : OperationPhase} {failure : Option OperationFailureEvidence}
    → r.last_proven_phase ≡ proven
    → r.last_failure ≡ failure
    → moved r r.phase proven failure ≡ r
moved_back r a b = λ i. moved r r.phase (sym a i) (sym b i)

-- A failure of a valid record, resumed, gives the record back.
pub resume-fail :
    (p : Parsers) (r s : OperationRecord) (e : OperationFailureEvidence)
    → IsValid p r
    → fail r e ≡ ok s
    → resume s ≡ ok r
resume-fail p r s e v h =
    let (forward, made) = fail-inv r s e h in
    let (proven, no_failure) = forward_fields r.phase _ _ _ (IsValid-phase p r v) forward in
    let back = moved_back r proven (none_of_not_some r.last_failure no_failure) in
    resume-eq-ok s (ap (λ x. x.phase) made)
    ∙ ap ok (ap (λ x. moved x x.last_proven_phase x.last_proven_phase none) made ∙ back)
