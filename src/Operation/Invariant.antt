-- ===== src/Operation/Invariant.antt =====
-- src/deployment.rs: what every transition keeps, the validity that `valid_record` tests and the
-- identity fields.
use dirextalk_vnext_deployer.Prelude.{
  Bool, true, false, Option, none, some, is_some, ◌≡◌, refl, arith, sym, ◌∙◌,
}
use dirextalk_vnext_deployer.Errors.{ok, >>-eq-ok}
use dirextalk_vnext_deployer.Contract.{BindingWorkload, node_workload, connector_host}
use dirextalk_vnext_deployer.Contract.Syntax.{Parsers}
use dirextalk_vnext_deployer.Operation.{
  OperationPhase, OperationPhase-discrete, OperationFailureEvidence, OperationRecord, planned,
  completed, failed_recoverable, rollback_fenced, refuses_failure, is_rollback_end,
  expired_unclaimed, migration_applied, rollback_converged, rollback_blocked, phase_eq,
  option_phase_eq, next,
}
use dirextalk_vnext_deployer.Operation.Validity.{
  valid_identity, valid_phase, valid_evidence, valid_record, binds_one,
}
use mathlib.Core.Path.{subst}
use dirextalk_vnext_deployer.Operation.Steps.{
  Step, by_advance, by_fail, by_resume, by_expire, by_fence, by_finish, Reach, here, then,
  SameIdentity, SameIdentity-refl, SameIdentity-trans, IsValid, moved, WellEvidenced, AllEvidenced,
}
use dirextalk_vnext_deployer.Operation.Inversion.{
  advance-inv, fail-inv, resume-inv, expire-inv, fence-inv, finish-inv,
}

valid_identity-moved :
    (p : Parsers) (r : OperationRecord) (to proven : OperationPhase)
    (failure : Option OperationFailureEvidence)
    → valid_identity p (moved r to proven failure) ≡ valid_identity p r
unfolding valid_identity
valid_identity-moved p r to proven failure = refl

-- How each transition keeps the phase check, over the fields that it reads.
next-valid_phase :
    (phase to proven : OperationPhase) (f : Bool) (w : BindingWorkload)
    → next phase w ≡ some to
    → valid_phase phase proven f w ≡ ok tt
    → valid_phase to to f w ≡ ok tt
unfolding next valid_phase OperationPhase-discrete
next-valid_phase planned to proven f w h k = ground arith
next-valid_phase _ to proven f w h k = ground arith

fail-valid_phase :
    (phase proven : OperationPhase) (f : Bool) (w : BindingWorkload)
    → refuses_failure phase ≡ false
    → valid_phase phase proven f w ≡ ok tt
    → valid_phase failed_recoverable phase true w ≡ ok tt
unfolding valid_phase OperationPhase-discrete
fail-valid_phase planned proven f w h k = refl
fail-valid_phase migration_applied proven f (node_workload _ _ _) h k = refl
fail-valid_phase migration_applied proven f (connector_host _ _) h k = ground arith
fail-valid_phase _ proven f w h k = ground arith

resume-valid_phase :
    (proven : OperationPhase) (f : Bool) (w : BindingWorkload)
    → valid_phase failed_recoverable proven f w ≡ ok tt
    → valid_phase proven proven false w ≡ ok tt
unfolding valid_phase OperationPhase-discrete
resume-valid_phase planned f w k = refl
resume-valid_phase migration_applied f (node_workload _ _ _) k = refl
resume-valid_phase migration_applied f (connector_host _ _) k = ground arith
resume-valid_phase _ f w k = ground arith

expire-valid_phase :
    (f : Bool) (w : BindingWorkload)
    → binds_one w ≡ true
    → f ≡ false
    → valid_phase expired_unclaimed expired_unclaimed f w ≡ ok tt
unfolding valid_phase OperationPhase-discrete
expire-valid_phase f w h k = ground arith

rollback-valid_phase :
    (to proven : OperationPhase) (f : Bool) (w : BindingWorkload)
    → is_rollback_end to ≡ true
    → valid_phase rollback_fenced proven f w ≡ ok tt
    → valid_phase to proven f w ≡ ok tt
unfolding valid_phase
rollback-valid_phase rollback_converged proven f w h k = k
rollback-valid_phase rollback_blocked proven f w h k = k
rollback-valid_phase _ proven f w h k = cc

fence-valid_phase :
    (proven : OperationPhase) (f : Bool) (w : BindingWorkload)
    → valid_phase completed proven f w ≡ ok tt
    → valid_phase rollback_fenced proven f w ≡ ok tt
unfolding valid_phase OperationPhase-discrete
fence-valid_phase completed f w k = ground arith
fence-valid_phase _ f w k = ground arith

-- A record whose three mutable fields changed is valid if its phase and evidence are.
moved-IsValid :
    (p : Parsers) (r : OperationRecord) (to proven : OperationPhase)
    (failure : Option OperationFailureEvidence)
    → IsValid p r
    → valid_phase to proven (is_some failure) r.binding.workload ≡ ok tt
    → valid_evidence failure ≡ ok tt
    → IsValid p (moved r to proven failure)
unfolding valid_record
moved-IsValid p r to proven failure v phase evidence =
    let (identity, _) = >>-eq-ok (valid_identity p r) _ v in
    let kept = valid_identity-moved p r to proven failure ∙ identity in rw kept (rw phase evidence)

pub IsValid-phase :
    (p : Parsers) (r : OperationRecord)
    → IsValid p r
    → valid_phase r.phase r.last_proven_phase (is_some r.last_failure) r.binding.workload ≡ ok tt
unfolding valid_record
IsValid-phase p r v =
    let (_, rest) = >>-eq-ok (valid_identity p r) _ v in (>>-eq-ok (valid_phase _ _ _ _) _ rest).0

pub IsValid-evidence :
    (p : Parsers) (r : OperationRecord) → IsValid p r → valid_evidence r.last_failure ≡ ok tt
unfolding valid_record
IsValid-evidence p r v =
    let (_, rest) = >>-eq-ok (valid_identity p r) _ v in (>>-eq-ok (valid_phase _ _ _ _) _ rest).1

phase_at :
    (r : OperationRecord) {phase : OperationPhase}
    → r.phase ≡ phase
    → valid_phase r.phase r.last_proven_phase (is_some r.last_failure) r.binding.workload ≡ ok tt
    → valid_phase phase r.last_proven_phase (is_some r.last_failure) r.binding.workload ≡ ok tt
phase_at r e h =
    subst
      (λ x. valid_phase x r.last_proven_phase (is_some r.last_failure) r.binding.workload ≡ ok tt) e
      h

-- The part of validity that reads the phases alone.
abbrev pub HasValidPhase : OperationRecord → Type 0
HasValidPhase r =
    valid_phase r.phase r.last_proven_phase (is_some r.last_failure) r.binding.workload ≡ ok tt

none_evidence : valid_evidence none ≡ ok tt
unfolding valid_evidence
none_evidence = refl

-- A successful transition keeps the phases consistent, whatever evidence a failure is called with.
pub Step-HasValidPhase : (r s : OperationRecord) → Step r s → HasValidPhase r → HasValidPhase s
Step-HasValidPhase r s (by_advance to h) v =
    let (legal, made) = advance-inv r s to h in
    subst HasValidPhase (sym made) (next-valid_phase r.phase to _ _ _ legal v)
Step-HasValidPhase r s (by_fail e h) v =
    let (legal, made) = fail-inv r s e h in
    subst HasValidPhase (sym made) (fail-valid_phase r.phase _ _ _ legal v)
Step-HasValidPhase r s (by_resume h) v =
    let (was, made) = resume-inv r s h in
    subst HasValidPhase (sym made) (resume-valid_phase _ _ _ (phase_at r was v))
Step-HasValidPhase r s (by_expire i h) v =
    let (_, one, no_failure, made) = expire-inv r s i h in
    subst HasValidPhase (sym made) (expire-valid_phase _ r.binding.workload one no_failure)
Step-HasValidPhase r s (by_fence to h) v =
    let (was, _, made) = fence-inv r s to h in
    subst HasValidPhase (sym made) (fence-valid_phase _ _ _ (phase_at r was v))
Step-HasValidPhase r s (by_finish to h) v =
    let (was, ends, made) = finish-inv r s to h in
    subst HasValidPhase (sym made) (rollback-valid_phase to _ _ _ ends (phase_at r was v))

-- A successful transition of a valid record gives a valid record, when the evidence of a failure is
-- acceptable.
pub Step-IsValid :
    (p : Parsers) (r s : OperationRecord) (step : Step r s)
    → WellEvidenced step
    → IsValid p r
    → IsValid p s
Step-IsValid p r s (by_advance to h) _ v =
    let made = (advance-inv r s to h).1 in
    let kept = Step-HasValidPhase r s (by_advance to h) (IsValid-phase p r v) in
    subst (IsValid p) (sym made)
      (moved-IsValid p r to to _ v (subst HasValidPhase made kept) (IsValid-evidence p r v))
Step-IsValid p r s (by_fail e h) ev v =
    let made = (fail-inv r s e h).1 in
    let kept = Step-HasValidPhase r s (by_fail e h) (IsValid-phase p r v) in
    subst (IsValid p) (sym made)
      (moved-IsValid p r failed_recoverable r.phase (some e) v (subst HasValidPhase made kept) ev)
Step-IsValid p r s (by_resume h) _ v =
    let made = (resume-inv r s h).1 in
    let kept = Step-HasValidPhase r s (by_resume h) (IsValid-phase p r v) in
    subst (IsValid p) (sym made) (
      moved-IsValid p r r.last_proven_phase r.last_proven_phase none v
        (subst HasValidPhase made kept) none_evidence)
Step-IsValid p r s (by_expire i h) _ v =
    let made = (expire-inv r s i h).3 in
    let kept = Step-HasValidPhase r s (by_expire i h) (IsValid-phase p r v) in
    subst (IsValid p) (sym made) (
      moved-IsValid p r expired_unclaimed expired_unclaimed _ v (subst HasValidPhase made kept)
        (IsValid-evidence p r v))
Step-IsValid p r s (by_fence to h) _ v =
    let made = (fence-inv r s to h).2 in
    let kept = Step-HasValidPhase r s (by_fence to h) (IsValid-phase p r v) in
    subst (IsValid p) (sym made) (
      moved-IsValid p r rollback_fenced _ _ v (subst HasValidPhase made kept)
        (IsValid-evidence p r v))
Step-IsValid p r s (by_finish to h) _ v =
    let made = (finish-inv r s to h).2 in
    let kept = Step-HasValidPhase r s (by_finish to h) (IsValid-phase p r v) in
    subst (IsValid p) (sym made)
      (moved-IsValid p r to _ _ v (subst HasValidPhase made kept) (IsValid-evidence p r v))

moved-SameIdentity :
    (r s : OperationRecord) (to proven : OperationPhase) (f : Option OperationFailureEvidence)
    → s ≡ moved r to proven f
    → SameIdentity r s
moved-SameIdentity r s to proven f made = subst (SameIdentity r) (sym made) (record {
  same_version = refl;
  same_id = refl;
  same_manifest = refl;
  same_artifact = refl;
  same_binding = refl;
  same_target = refl;
  same_predecessor = refl;
})

pub Step-SameIdentity : (r s : OperationRecord) → Step r s → SameIdentity r s
Step-SameIdentity r s (by_advance to h) = moved-SameIdentity r s to to _ (advance-inv r s to h).1
Step-SameIdentity r s (by_fail e h) = moved-SameIdentity r s _ _ _ (fail-inv r s e h).1
Step-SameIdentity r s (by_resume h) = moved-SameIdentity r s _ _ _ (resume-inv r s h).1
Step-SameIdentity r s (by_expire i h) = moved-SameIdentity r s _ _ _ (expire-inv r s i h).3
Step-SameIdentity r s (by_fence to h) = moved-SameIdentity r s _ _ _ (fence-inv r s to h).2
Step-SameIdentity r s (by_finish to h) = moved-SameIdentity r s _ _ _ (finish-inv r s to h).2

-- The same over every history of transitions, with the fields that none of them changes.
pub Reach-HasValidPhase :
    (r : OperationRecord) {s : OperationRecord}
    → HasValidPhase r
    → Reach r s
    → HasValidPhase s × SameIdentity r s
Reach-HasValidPhase r v here = (v, SameIdentity-refl r)
Reach-HasValidPhase r v (then {s = s} {t = t} trace step) =
    let (phases, same) = Reach-HasValidPhase r v trace in
    (Step-HasValidPhase s t step phases, SameIdentity-trans same (Step-SameIdentity s t step))

-- Every record that the transitions reach from a valid record, where each failure is called with
-- evidence that `valid_record` accepts, is valid, and has the first record's version, identifier,
-- manifest, artifact, binding, target and predecessor.
pub Reach-IsValid :
    (p : Parsers) (r : OperationRecord) {s : OperationRecord}
    → IsValid p r
    → (trace : Reach r s) → AllEvidenced trace
    → IsValid p s × SameIdentity r s
Reach-IsValid p r v here _ = (v, SameIdentity-refl r)
Reach-IsValid p r v (then {s = s} {t = t} trace step) e =
    let (valid, same) = Reach-IsValid p r v trace e.0 in
    (Step-IsValid p s t step e.1 valid, SameIdentity-trans same (Step-SameIdentity s t step))
