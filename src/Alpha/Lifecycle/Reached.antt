-- ===== src/Alpha/Lifecycle/Reached.antt =====
-- src/alpha_deployment.rs: what holds of every record that advances lead to.
use dirextalk_vnext_deployer.Prelude.{
  ℕ, zero, suc, ◌+◌, ◌≤◌, some, str_eq, ◌≡◌, refl, sym, ◌∙◌, ap, ◌!=◌, ne-eq-false, arith,
}
use dirextalk_vnext_deployer.Errors.{Checked, ok, reject_if, contract, >>-eq-ok, reject_if-eq-ok}
use dirextalk_vnext_deployer.Alpha.{
  AlphaLifecycle, lifecycle_eq, alpha_planned, installed, started, alpha_ready, acceptance_observed,
  alpha_completed, AlphaManifest, AlphaLifecycleRecord, ConnectorFence, OperationFence,
  VerifiedAlphaPackage, Crates,
}
use dirextalk_vnext_deployer.Alpha.Lifecycle.{
  alpha_plan, alpha_seal, verify_alpha, next_state, validate_connector_fence,
  validate_operation_fence,
}
use dirextalk_vnext_deployer.Alpha.Lifecycle.Steps.{
  SameAlpha, AlphaStep, by_alpha_advance, AlphaRun, not_started, and_then, alpha_advance-Advanced,
  Advanced-SameAlpha, Advanced-verify_alpha,
}
use dirextalk_vnext_deployer.Alpha.Lifecycle.Evidence.{
  stage, Evidenced, HoldsIn, with_evidence-HoldsIn,
}

next_state-stage :
    (prev next : AlphaLifecycle) → next_state prev ≡ some next → stage next ≡ suc (stage prev)
next_state-stage alpha_planned installed h = refl
next_state-stage installed started h = refl
next_state-stage started alpha_ready h = refl
next_state-stage alpha_ready acceptance_observed h = refl
next_state-stage acceptance_observed alpha_completed h = refl
next_state-stage _ _ h = cc

stage_le : (state : AlphaLifecycle) → stage state ≤ 5
stage_le alpha_planned = omega arith
stage_le installed = omega arith
stage_le started = omega arith
stage_le alpha_ready = omega arith
stage_le acceptance_observed = omega arith
stage_le alpha_completed = omega arith

-- What one step does.
pub AlphaStep-effect :
    (x : Crates) (r s : AlphaLifecycleRecord)
    → AlphaStep x r s
    → SameAlpha r s × (stage s.state ≡ suc (stage r.state)) × (verify_alpha x s ≡ ok tt)
AlphaStep-effect x r s (by_alpha_advance next facts acceptance h) =
    let a = alpha_advance-Advanced x r s next facts acceptance h in
    let (same, state) = Advanced-SameAlpha x r s next facts acceptance a in
    (
      same,
      ap stage state ∙ next_state-stage r.state next a.legal,
      Advanced-verify_alpha x r s next facts acceptance a,
    )

AlphaStep-Evidenced :
    (x : Crates) (r s : AlphaLifecycleRecord) → AlphaStep x r s → Evidenced r → Evidenced s
unfolding alpha_seal
AlphaStep-Evidenced x r s (by_alpha_advance next facts acceptance h) e =
    let a = alpha_advance-Advanced x r s next facts acceptance h in
    let (_, state) = Advanced-SameAlpha x r s next facts acceptance a in
    let moved = record r { state = next } in
    let held : HoldsIn next a.unsealed =
      with_evidence-HoldsIn x r.state next r moved a.unsealed facts acceptance a.legal e
        a.evidence in
    let here : HoldsIn next s = rw a.sealed held in rw state here

AlphaRun-stage :
    (x : Crates) (r s : AlphaLifecycleRecord) (n : ℕ)
    → AlphaRun x r n s
    → stage r.state + n ≡ stage s.state
AlphaRun-stage x r s zero not_started = omega arith
AlphaRun-stage x r s (suc n) (and_then {mid} run step) =
    let (_, e, _) = AlphaStep-effect x mid s step in omega (arith, e, AlphaRun-stage x r mid n run)

-- Advancing ends: each advance moves to the next of the six states, so at most as many follow one
-- another as there are states behind the first record's.
pub AlphaRun-bound :
    (x : Crates) (r s : AlphaLifecycleRecord) (n : ℕ)
    → AlphaRun x r n s
    → (stage r.state + n ≡ stage s.state) × (n ≤ 5)
AlphaRun-bound x r s n run =
    let e = AlphaRun-stage x r s n run in (e, omega (arith, e, stage_le s.state))

-- The record that `planned` returns.
record FreshlyPlanned (x : Crates) (m : AlphaManifest) (c : ConnectorFence) (o : OperationFence)
    (r : AlphaLifecycleRecord) : Type 0 where
  first_state : r.state ≡ alpha_planned
  of_manifest : r.manifest_digest ≡ m.digest
  of_target : r.target_id ≡ m.contract.target.id
  fences : (r.connector_fence ≡ c) × (r.operation_fence ≡ o)
  no_evidence : HoldsIn alpha_planned r

alpha_plan-FreshlyPlanned :
    (x : Crates) (m : AlphaManifest) (v : VerifiedAlphaPackage) (c : ConnectorFence)
    (o : OperationFence) (r : AlphaLifecycleRecord)
    → alpha_plan x m v c o ≡ ok r
    → FreshlyPlanned x m c o r
unfolding alpha_plan alpha_seal
alpha_plan-FreshlyPlanned x m v c o r h =
    let (_, h1) = >>-eq-ok (validate_connector_fence x c) _ h in
    let (_, h2) = >>-eq-ok (validate_operation_fence x o) _ h1 in
    let matching : Checked =
      reject_if (v.manifest_digest != m.digest)
        (contract "verified package does not match manifest") in
    let (matches, h3) = >>-eq-ok matching _ h2 in
    let same = ne-eq-false v.manifest_digest m.digest (reject_if-eq-ok _ _ matches) in
    record {
      first_state = cc;
      of_manifest = cc;
      of_target = cc;
      fences = (cc, cc);
      no_evidence = (cc, cc, cc);
    }

-- What holds of a record that a planned operation was advanced to.
pub record AlphaInvariant (x : Crates) (m : AlphaManifest) (c : ConnectorFence) (o : OperationFence)
    (n : ℕ) (r : AlphaLifecycleRecord) : Type 0 where
  pub at_stage : stage r.state ≡ n
  pub for_manifest : r.manifest_digest ≡ m.digest
  pub for_target : r.target_id ≡ m.contract.target.id
  pub for_connector : r.connector_fence ≡ c
  pub for_operation : r.operation_fence ≡ o
  pub evidenced : Evidenced r

-- Every record that `n` advances make of a planned operation is in the n-th state behind the first,
-- is still for the manifest, the target and the fences that it was planned for, and holds evidence
-- as its state asks: the four readiness facts from ReadinessVerified on, a well-formed receipt digest
-- and signer from AcceptanceObserved on, and neither before.
pub AlphaRun-AlphaInvariant :
    (x : Crates) (m : AlphaManifest) (v : VerifiedAlphaPackage) (c : ConnectorFence)
    (o : OperationFence) (r s : AlphaLifecycleRecord) (n : ℕ)
    → alpha_plan x m v c o ≡ ok r
    → AlphaRun x r n s
    → AlphaInvariant x m c o n s
AlphaRun-AlphaInvariant x m v c o r s zero h not_started =
    let p = alpha_plan-FreshlyPlanned x m v c o r h in
    record {
      at_stage = ap stage p.first_state;
      for_manifest = p.of_manifest;
      for_target = p.of_target;
      for_connector = p.fences.0;
      for_operation = p.fences.1;
      evidenced = rw p.first_state p.no_evidence;
    }
AlphaRun-AlphaInvariant x m v c o r s (suc n) h (and_then {mid} run step) =
    let i = AlphaRun-AlphaInvariant x m v c o r mid n h run in
    let (same, e, _) = AlphaStep-effect x mid s step in
    record {
      at_stage = e ∙ ap suc i.at_stage;
      for_manifest = sym same.same_manifest ∙ i.for_manifest;
      for_target = sym same.same_target ∙ i.for_target;
      for_connector = sym same.same_connector ∙ i.for_connector;
      for_operation = sym same.same_operation ∙ i.for_operation;
      evidenced = AlphaStep-Evidenced x mid s step i.evidenced;
    }
