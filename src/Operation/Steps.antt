-- ===== src/Operation/Steps.antt =====
-- src/deployment.rs: the transitions of an operation record as one step relation.
use dirextalk_vnext_deployer.Prelude.{Str, Option, some, ◌≡◌, refl, ◌∙◌}
use dirextalk_vnext_deployer.Errors.{ok}
use dirextalk_vnext_deployer.Contract.Syntax.{Parsers}
use dirextalk_vnext_deployer.Operation.{
  OperationPhase, OperationFailureEvidence, OperationRecord, phase_eq, option_phase_eq, advance,
  fail, resume, expire_unclaimed, rollback_service_only, finish_rollback,
}
use dirextalk_vnext_deployer.Operation.Validity.{valid_evidence, valid_record}

-- One successful call of a transition.
pub data Step (r s : OperationRecord) : Type 0 where
  by_advance : (to : OperationPhase) → advance r to ≡ ok s → Step r s
  by_fail : (e : OperationFailureEvidence) → fail r e ≡ ok s → Step r s
  by_resume : resume r ≡ ok s → Step r s
  by_expire : (instance_id : Str) → expire_unclaimed r instance_id ≡ ok s → Step r s
  by_fence : (to : OperationPhase) → rollback_service_only r to ≡ ok s → Step r s
  by_finish : (to : OperationPhase) → finish_rollback r to ≡ ok s → Step r s

pub data Reach (r : OperationRecord) : OperationRecord → Type 0 where
  here : Reach r r
  then : {s t : OperationRecord} → Reach r s → Step s t → Reach r t

-- The evidence that a failure is called with is one that `valid_record` accepts; `fail` itself does
-- not look at it.
abbrev pub WellEvidenced : {r s : OperationRecord} → Step r s → Type 0
WellEvidenced (by_fail e _) = valid_evidence (some e) ≡ ok tt
WellEvidenced _ = Unit {0}

abbrev pub AllEvidenced : {r s : OperationRecord} → Reach r s → Type 0
AllEvidenced here = Unit {0}
AllEvidenced (then trace step) = AllEvidenced trace × WellEvidenced step

-- The fields that `operation_identity_digest` covers agree.
pub record SameIdentity (r s : OperationRecord) : Type 0 where
  pub same_version : r.schema_version ≡ s.schema_version
  pub same_id : r.operation_id ≡ s.operation_id
  pub same_manifest : r.manifest_digest ≡ s.manifest_digest
  pub same_artifact : r.artifact ≡ s.artifact
  pub same_binding : r.binding ≡ s.binding
  pub same_target : r.target ≡ s.target
  pub same_predecessor : r.predecessor_operation_id ≡ s.predecessor_operation_id

abbrev pub IsValid : Parsers → OperationRecord → Type 0
IsValid p r = valid_record p r ≡ ok tt

pub SameIdentity-refl : (r : OperationRecord) → SameIdentity r r
SameIdentity-refl r = record {
  same_version = refl;
  same_id = refl;
  same_manifest = refl;
  same_artifact = refl;
  same_binding = refl;
  same_target = refl;
  same_predecessor = refl;
}

pub SameIdentity-trans :
    {r s t : OperationRecord} → SameIdentity r s → SameIdentity s t → SameIdentity r t
SameIdentity-trans a b = record {
  same_version = a.same_version ∙ b.same_version;
  same_id = a.same_id ∙ b.same_id;
  same_manifest = a.same_manifest ∙ b.same_manifest;
  same_artifact = a.same_artifact ∙ b.same_artifact;
  same_binding = a.same_binding ∙ b.same_binding;
  same_target = a.same_target ∙ b.same_target;
  same_predecessor = a.same_predecessor ∙ b.same_predecessor;
}

-- The record `r` with its phase, proven phase and failure replaced.
abbrev pub moved :
    OperationRecord
    → OperationPhase
    → OperationPhase
    → Option OperationFailureEvidence
    → OperationRecord
moved r to proven failure = record r {
  phase = to;
  last_proven_phase = proven;
  last_failure = failure;
}
