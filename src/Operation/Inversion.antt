-- ===== src/Operation/Inversion.antt =====
-- src/deployment.rs: what a successful transition tested, and the record that it returned.
use dirextalk_vnext_deployer.Prelude.{
  Str, true, false, ◌||◌, not, List, [], ◌∷◌, Option, none, some, is_some, ◌≡◌, refl, arith,
  ne-eq-false, or-eq-false, ◌==◌, ◌!=◌,
}
use dirextalk_vnext_deployer.Errors.{ok, >>-eq-ok, reject_if, reject_if-eq-ok}
use dirextalk_vnext_deployer.Contract.{
  BindingWorkload, node_workload, connector_host, BoundConnector,
}
use dirextalk_vnext_deployer.Operation.{
  OperationPhase, OperationFailureEvidence, OperationRecord, completed, failed_recoverable,
  rollback_fenced, refuses_failure, is_rollback_end, artifacts_verified, expired_unclaimed,
  host_connectors, is_only_instance, expire_bound, phase_eq, option_phase_eq, next, advance, fail,
  resume, expire_unclaimed, rollback_service_only, finish_rollback,
}
use dirextalk_vnext_deployer.Operation.Validity.{binds_one}
use dirextalk_vnext_deployer.Operation.Steps.{moved}

-- Each transition, inverted: the test that it passed and the record that it returns.
pub advance-inv :
    (r s : OperationRecord) (to : OperationPhase)
    → advance r to ≡ ok s
    → (next r.phase r.binding.workload ≡ some to) × (s ≡ moved r to to r.last_failure)
unfolding advance
advance-inv r s to h =
    let (_, h1) = >>-eq-ok (reject_if (r.phase == failed_recoverable) _) _ h in
    let (legal, h2) = >>-eq-ok (reject_if (next r.phase r.binding.workload != some to) _) _ h1 in
    (ne-eq-false _ _ (reject_if-eq-ok _ _ legal), cc)

pub fail-inv :
    (r s : OperationRecord) (e : OperationFailureEvidence)
    → fail r e ≡ ok s
    → (refuses_failure r.phase ≡ false) × (s ≡ moved r failed_recoverable r.phase (some e))
unfolding fail
fail-inv r s e h =
    let (legal, h1) = >>-eq-ok (reject_if (refuses_failure r.phase) _) _ h in
    (reject_if-eq-ok _ _ legal, cc)

pub resume-inv :
    (r s : OperationRecord)
    → resume r ≡ ok s
    → (r.phase ≡ failed_recoverable) × (s ≡ moved r r.last_proven_phase r.last_proven_phase none)
unfolding resume
resume-inv r s h =
    let (legal, h1) = >>-eq-ok (reject_if (r.phase != failed_recoverable) _) _ h in
    (ne-eq-false _ _ (reject_if-eq-ok _ _ legal), cc)

pub fence-inv :
    (r s : OperationRecord) (to : OperationPhase)
    → rollback_service_only r to ≡ ok s
    → (r.phase ≡ completed)
      × (to ≡ rollback_fenced)
      × (s ≡ moved r rollback_fenced r.last_proven_phase r.last_failure)
unfolding rollback_service_only
fence-inv r s to h =
    let (was, h1) = >>-eq-ok (reject_if (r.phase != completed) _) _ h in
    let (fence, h2) = >>-eq-ok (reject_if (to != rollback_fenced) _) _ h1 in
    let is_fence = ne-eq-false to rollback_fenced (reject_if-eq-ok _ _ fence) in
    (ne-eq-false _ _ (reject_if-eq-ok _ _ was), is_fence, cc)

pub finish-inv :
    (r s : OperationRecord) (to : OperationPhase)
    → finish_rollback r to ≡ ok s
    → (r.phase ≡ rollback_fenced)
      × (is_rollback_end to ≡ true)
      × (s ≡ moved r to r.last_proven_phase r.last_failure)
unfolding finish_rollback
finish-inv r s to h =
    let (was, h1) =
      >>-eq-ok (reject_if (r.phase != rollback_fenced || not (is_rollback_end to)) _) _ h in
    let (fenced, ends) = or-eq-false _ _ (reject_if-eq-ok _ _ was) in
    (ne-eq-false _ _ fenced, ground arith, cc)

only_instance-binds_one :
    (w : BindingWorkload) (connectors : List BoundConnector) (instance_id : Str)
    → host_connectors w ≡ some connectors
    → is_only_instance connectors instance_id ≡ true
    → binds_one w ≡ true
only_instance-binds_one (node_workload _ _ _) cs i h k = cc
only_instance-binds_one (connector_host d []) cs i h k = ground arith
only_instance-binds_one (connector_host d (c ∷ [])) cs i h k = refl
only_instance-binds_one (connector_host d (c ∷ c' ∷ r)) cs i h k = ground arith

expire_bound-inv :
    (r s : OperationRecord) (instance_id : Str) (o : Option (List BoundConnector))
    → host_connectors r.binding.workload ≡ o
    → expire_bound r instance_id o ≡ ok s
    → (r.phase ≡ artifacts_verified)
      × (binds_one r.binding.workload ≡ true)
      × (is_some r.last_failure ≡ false)
      × (s ≡ moved r expired_unclaimed expired_unclaimed r.last_failure)
unfolding expire_bound
expire_bound-inv r s i none e h = cc
expire_bound-inv r s i (some cs) e h =
    let (exact, h1) =
      >>-eq-ok
        (reject_if
          (r.phase != artifacts_verified
            || r.last_proven_phase != artifacts_verified
            || is_some r.last_failure
            || not (is_only_instance cs i))
          _)
        _ h in
    let (more', only) = or-eq-false _ (not (is_only_instance cs i)) (reject_if-eq-ok _ _ exact) in
    let (more, no_failure) = or-eq-false _ (is_some r.last_failure) more' in
    let (phase, proven) = or-eq-false (r.phase != artifacts_verified) _ more in
    let is_only : is_only_instance cs i ≡ true = ground arith in
    (
      ne-eq-false _ _ phase,
      only_instance-binds_one r.binding.workload cs i e is_only,
      no_failure,
      cc,
    )

pub expire-inv :
    (r s : OperationRecord) (instance_id : Str)
    → expire_unclaimed r instance_id ≡ ok s
    → (r.phase ≡ artifacts_verified)
      × (binds_one r.binding.workload ≡ true)
      × (is_some r.last_failure ≡ false)
      × (s ≡ moved r expired_unclaimed expired_unclaimed r.last_failure)
unfolding expire_unclaimed
expire-inv r s i h = expire_bound-inv r s i (host_connectors r.binding.workload) refl h
