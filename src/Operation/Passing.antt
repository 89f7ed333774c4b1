-- ===== src/Operation/Passing.antt =====
-- src/deployment.rs: no phase of an operation's forward path is skipped, over every history of
-- advances, failures, resumes, expiries and rollbacks.
use dirextalk_vnext_deployer.Prelude.{
  ℕ, ◌≤◌, Bool, true, false, some, ◌≡◌, arith, ◌⊎◌, inl, inr, ap, eq_iff,
}
use mathlib.Core.Path.{subst}
use dirextalk_vnext_deployer.Errors.{ok}
use dirextalk_vnext_deployer.Contract.{BindingWorkload, node_workload, connector_host}
use dirextalk_vnext_deployer.Contract.Syntax.{Parsers}
use dirextalk_vnext_deployer.Operation.{
  OperationPhase, OperationRecord, planned, claimed, host_bound, artifacts_verified,
  material_prepared, configs_written, migration_applied, services_converged, readiness_verified,
  completed, expired_unclaimed, refuses_failure, next, advance, phase_eq, option_phase_eq,
}
use dirextalk_vnext_deployer.Operation.Validity.{valid_phase}
use dirextalk_vnext_deployer.Operation.Steps.{
  by_advance, by_fail, by_resume, by_expire, by_fence, by_finish, Reach, here, then, IsValid,
}
use dirextalk_vnext_deployer.Operation.Inversion.{
  advance-inv, fail-inv, resume-inv, expire-inv, fence-inv, finish-inv,
}
use dirextalk_vnext_deployer.Operation.Invariant.{Reach-HasValidPhase, IsValid-phase, HasValidPhase}

-- The place of a phase on the forward path.
abbrev pub depth : OperationPhase → ℕ
depth planned = 0
depth claimed = 1
depth host_bound = 2
depth artifacts_verified = 3
depth material_prepared = 4
depth configs_written = 5
depth migration_applied = 6
depth services_converged = 7
depth readiness_verified = 8
depth completed = 9
depth expired_unclaimed = 3
depth _ = 0

-- The phases that an operation with this workload passes after `planned`.
abbrev pub is_on_path : OperationPhase → BindingWorkload → Bool
is_on_path claimed w = true
is_on_path host_bound w = true
is_on_path artifacts_verified w = true
is_on_path material_prepared w = true
is_on_path configs_written w = true
is_on_path services_converged w = true
is_on_path readiness_verified w = true
is_on_path completed w = true
is_on_path migration_applied (node_workload _ _ _) = true
is_on_path _ w = false

-- The trace has an advance to this phase.
abbrev pub AdvancedTo : OperationPhase → {r s : OperationRecord} → Reach r s → Type 0
AdvancedTo q here = ⊥
AdvancedTo q (then trace (by_advance to _)) = AdvancedTo q trace ⊎ (q ≡ to)
AdvancedTo q (then trace _) = AdvancedTo q trace

next-depth :
    (phase to q : OperationPhase) (w : BindingWorkload)
    → next phase w ≡ some to
    → is_on_path q w ≡ true
    → depth q ≤ depth to
    → (depth q ≤ depth phase) ⊎ (q ≡ to)
unfolding next
next-depth planned to q w h k d = ground arith
next-depth configs_written to migration_applied (connector_host _ _) h k d = ground arith
next-depth configs_written to q (node_workload _ _ _) h k d = ground arith
next-depth configs_written to q (connector_host _ _) h k d = ground arith
next-depth _ to q w h k d = ground arith

forward-proven :
    (phase proven : OperationPhase) (f : Bool) (w : BindingWorkload)
    → valid_phase phase proven f w ≡ ok tt
    → refuses_failure phase ≡ false
    → phase ≡ proven
unfolding valid_phase
forward-proven planned proven f w v h = ground (arith, eq_iff planned proven)
forward-proven completed proven f w v h = cc
forward-proven phase proven f w v h = ground (arith, eq_iff phase proven)

next-refuses_failure :
    (phase to : OperationPhase) (w : BindingWorkload)
    → next phase w ≡ some to
    → refuses_failure phase ≡ false
unfolding next
next-refuses_failure phase to w h = ground arith

proven-depth :
    (s : OperationRecord)
    → HasValidPhase s
    → refuses_failure s.phase ≡ false
    → depth s.phase ≡ depth s.last_proven_phase
proven-depth s v h = ap depth (forward-proven _ _ _ s.binding.workload v h)

planned-proven :
    (p : Parsers) (r : OperationRecord)
    → IsValid p r
    → r.phase ≡ planned
    → depth r.last_proven_phase ≡ 0
planned-proven p r v e = omega (arith, proven-depth r (IsValid-phase p r v) (rw e), ap depth e)

not_at_start : (q : OperationPhase) (w : BindingWorkload) → is_on_path q w ≡ true → 1 ≤ depth q
not_at_start migration_applied w h = omega arith
not_at_start q w h = ground arith

module _ (p : Parsers) (r : OperationRecord) (valid : IsValid p r) (start : r.phase ≡ planned)
    (q : OperationPhase) (on_path : is_on_path q r.binding.workload ≡ true) where
  workload_kept : {s : OperationRecord} → Reach r s → is_on_path q s.binding.workload ≡ true
  workload_kept trace =
      subst (λ b. is_on_path q b.workload ≡ true)
        (Reach-HasValidPhase r (IsValid-phase p r valid) trace).1.same_binding on_path

  advance-passes :
      {s t : OperationRecord} (trace : Reach r s) (to : OperationPhase)
      → advance s to ≡ ok t
      → (depth q ≤ depth s.last_proven_phase → AdvancedTo q trace)
      → depth q ≤ depth t.last_proven_phase
      → AdvancedTo q trace ⊎ (q ≡ to)
  advance-passes {s} {t} trace to h ih d =
      let (legal, made) = advance-inv s t to h in
      let reached : depth q ≤ depth to = omega (arith, ap (λ x. depth x.last_proven_phase) made) in
      let forward = next-refuses_failure s.phase to _ legal in
      let proven =
        proven-depth s (Reach-HasValidPhase r (IsValid-phase p r valid) trace).0 forward in
      elim (next-depth s.phase to q s.binding.workload legal (workload_kept trace) reached) [
        | inl before ↦ inl (ih (omega arith))
        | inr now ↦ inr now
      ]

  -- When the proven phase of a record that was reached from a planned one lies at or behind a
  -- phase of the path of its workload, then some step advanced to that phase: none is skipped.
  pub Reach-passes :
      {s : OperationRecord} (trace : Reach r s)
      → depth q ≤ depth s.last_proven_phase
      → AdvancedTo q trace
  Reach-passes here d =
      absurd (omega (arith, planned-proven p r valid start, not_at_start q _ on_path))
  Reach-passes (then trace (by_advance to h)) d = advance-passes trace to h (Reach-passes trace) d
  Reach-passes (then {s = s} {t = t} trace (by_fail e h)) d =
      let (forward, made) = fail-inv s t e h in
      let proven =
        proven-depth s (Reach-HasValidPhase r (IsValid-phase p r valid) trace).0 forward in
      Reach-passes trace (omega (arith, ap (λ x. depth x.last_proven_phase) made))
  Reach-passes (then {s = s} {t = t} trace (by_resume h)) d =
      let (_, made) = resume-inv s t h in
      Reach-passes trace (omega (arith, ap (λ x. depth x.last_proven_phase) made))
  Reach-passes (then {s = s} {t = t} trace (by_expire i h)) d =
      let (was, _, _, made) = expire-inv s t i h in
      let proven =
        proven-depth s (Reach-HasValidPhase r (IsValid-phase p r valid) trace).0 (rw was) in
      Reach-passes trace (omega (arith, ap depth was, ap (λ x. depth x.last_proven_phase) made))
  Reach-passes (then {s = s} {t = t} trace (by_fence to h)) d =
      let (_, _, made) = fence-inv s t to h in
      Reach-passes trace (omega (arith, ap (λ x. depth x.last_proven_phase) made))
  Reach-passes (then {s = s} {t = t} trace (by_finish to h)) d =
      let (_, _, made) = finish-inv s t to h in
      Reach-passes trace (omega (arith, ap (λ x. depth x.last_proven_phase) made))
