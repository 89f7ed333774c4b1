-- ===== src/Operation/Progress.antt =====
-- src/deployment.rs: the forward path of an operation, as `next` gives it: it ends at `completed`
-- after a number of advances that the phase determines.
use dirextalk_vnext_deployer.Prelude.{
  ℕ, zero, suc, true, none, some, ◌≡◌, refl, arith, ◌⊎◌, inl, eq-eq-false, ne_self, ◌≢◌,
}
use dirextalk_vnext_deployer.Errors.{ok}
use dirextalk_vnext_deployer.Contract.{BindingWorkload, node_workload, connector_host}
use dirextalk_vnext_deployer.Operation.{
  OperationPhase, OperationRecord, planned, claimed, host_bound, artifacts_verified,
  material_prepared, configs_written, migration_applied, services_converged, readiness_verified,
  completed, failed_recoverable, next, advance, phase_eq, option_phase_eq,
}
use dirextalk_vnext_deployer.Operation.Validity.{is_forward_nonterminal}
use dirextalk_vnext_deployer.Operation.Steps.{moved}

-- How many advances are left, as an independent table.
abbrev pub remaining : OperationPhase → BindingWorkload → ℕ
remaining planned (node_workload _ _ _) = 9
remaining claimed (node_workload _ _ _) = 8
remaining host_bound (node_workload _ _ _) = 7
remaining artifacts_verified (node_workload _ _ _) = 6
remaining material_prepared (node_workload _ _ _) = 5
remaining configs_written (node_workload _ _ _) = 4
remaining planned (connector_host _ _) = 8
remaining claimed (connector_host _ _) = 7
remaining host_bound (connector_host _ _) = 6
remaining artifacts_verified (connector_host _ _) = 5
remaining material_prepared (connector_host _ _) = 4
remaining configs_written (connector_host _ _) = 3
remaining migration_applied w = 3
remaining services_converged w = 2
remaining readiness_verified w = 1
remaining _ w = 0

-- `n` successful advances.
pub data Forward : ℕ → OperationRecord → OperationRecord → Type 0 where
  done : {r : OperationRecord} → Forward 0 r r
  more :
      {n : ℕ} {r s t : OperationRecord} (to : OperationPhase)
      → advance r to ≡ ok s
      → Forward n s t
      → Forward (suc n) r t

next-ne-failed :
    (phase to : OperationPhase) (w : BindingWorkload)
    → next phase w ≡ some to
    → phase ≢ failed_recoverable
unfolding next
next-ne-failed phase to w h = ground arith

-- The phase that `next` gives is accepted, and becomes the proven phase.
pub advance-next :
    (r : OperationRecord) (to : OperationPhase)
    → next r.phase r.binding.workload ≡ some to
    → advance r to ≡ ok (moved r to to r.last_failure)
unfolding advance
advance-next r to h =
    rw
      (eq-eq-false r.phase failed_recoverable (next-ne-failed r.phase to _ h), h, ne_self (some to))

next-remaining :
    (phase : OperationPhase) (w : BindingWorkload) (n : ℕ)
    → remaining phase w ≡ suc n
    → (to : OperationPhase) × (next phase w ≡ some to) × (remaining to w ≡ n)
unfolding next
next-remaining planned (node_workload _ _ _) n h = (claimed, refl, omega arith)
next-remaining planned (connector_host _ _) n h = (claimed, refl, omega arith)
next-remaining claimed (node_workload _ _ _) n h = (host_bound, refl, omega arith)
next-remaining claimed (connector_host _ _) n h = (host_bound, refl, omega arith)
next-remaining host_bound (node_workload _ _ _) n h = (artifacts_verified, refl, omega arith)
next-remaining host_bound (connector_host _ _) n h = (artifacts_verified, refl, omega arith)
next-remaining artifacts_verified (node_workload _ _ _) n h = (material_prepared, refl, omega arith)
next-remaining artifacts_verified (connector_host _ _) n h = (material_prepared, refl, omega arith)
next-remaining material_prepared (node_workload _ _ _) n h = (configs_written, refl, omega arith)
next-remaining material_prepared (connector_host _ _) n h = (configs_written, refl, omega arith)
next-remaining configs_written (node_workload _ _ _) n h = (migration_applied, refl, omega arith)
next-remaining configs_written (connector_host _ _) n h = (services_converged, refl, omega arith)
next-remaining migration_applied w n h = (services_converged, refl, omega arith)
next-remaining services_converged w n h = (readiness_verified, refl, omega arith)
next-remaining readiness_verified w n h = (completed, refl, omega arith)
next-remaining _ w n h = absurd (omega arith)

remaining_zero :
    (phase : OperationPhase) (w : BindingWorkload) → remaining phase w ≡ 0 → next phase w ≡ none
unfolding next
remaining_zero phase w h = ground arith

abbrev pub OnTheWay : OperationPhase → BindingWorkload → Type 0
OnTheWay phase w = (is_forward_nonterminal phase w ≡ true) ⊎ (phase ≡ completed)

next-OnTheWay :
    (phase to : OperationPhase) (w : BindingWorkload) → next phase w ≡ some to → OnTheWay to w
unfolding next
next-OnTheWay migration_applied to w h = ground arith
next-OnTheWay configs_written to (node_workload _ _ _) h = ground arith
next-OnTheWay configs_written to (connector_host _ _) h = ground arith
next-OnTheWay _ to w h = ground arith

OnTheWay-remaining_zero :
    (phase : OperationPhase) (w : BindingWorkload)
    → OnTheWay phase w
    → remaining phase w ≡ 0
    → phase ≡ completed
OnTheWay-remaining_zero completed w o h = refl
OnTheWay-remaining_zero phase (node_workload _ _ _) o h = ground arith
OnTheWay-remaining_zero phase (connector_host _ _) o h = ground arith

completes_in :
    (n : ℕ) (r : OperationRecord)
    → remaining r.phase r.binding.workload ≡ n
    → OnTheWay r.phase r.binding.workload
    → (t : OperationRecord) × Forward n r t × (t.phase ≡ completed)
completes_in zero r left o = (r, done, OnTheWay-remaining_zero _ _ o left)
completes_in (suc n) r left o =
    let (to, legal, fewer) = next-remaining r.phase r.binding.workload n left in
    let s = moved r to to r.last_failure in
    let (t, path, ends) = completes_in n s fewer (next-OnTheWay _ _ _ legal) in
    (t, more to (advance-next r to legal) path, ends)

-- From every forward phase, the phases that `next` gives in turn are accepted by `advance`, and
-- after exactly as many advances as the table says the operation is completed.
pub advance-completes :
    (r : OperationRecord)
    → is_forward_nonterminal r.phase r.binding.workload ≡ true
    → (t : OperationRecord) × Forward (remaining r.phase r.binding.workload) r t
      × (t.phase ≡ completed)
advance-completes r h = completes_in _ r refl (inl h)
