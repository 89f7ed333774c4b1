-- ===== src/Tests/Operations.antt =====
-- The theorems on operation records, at concrete ones.
use dirextalk_vnext_deployer.Prelude.{arith, none, some, ◌≡◌, refl, inl, inr}
use dirextalk_vnext_deployer.Errors.{ok}
use dirextalk_vnext_deployer.Operation.{
  OperationRecord, OperationPhase-discrete, OptionPhase-discrete, planned, claimed, completed,
  failed_recoverable, rollback_converged, advance, fail, resume, next,
}
use dirextalk_vnext_deployer.Operation.Validity.{valid_evidence}
use dirextalk_vnext_deployer.Operation.Steps.{
  Step, Reach, AllEvidenced, here, then, by_advance, by_fail, by_resume, IsValid, SameIdentity,
  moved,
}
use dirextalk_vnext_deployer.Operation.Invariant.{Reach-IsValid}
use dirextalk_vnext_deployer.Operation.Passing.{Reach-passes, AdvancedTo}
use dirextalk_vnext_deployer.Operation.Progress.{advance-completes, Forward, remaining}
use dirextalk_vnext_deployer.Operation.Recovery.{IsTerminal-absorbs, resume-fail}
use dirextalk_vnext_deployer.Contract.Syntax.{is_sha256, sha256}
use dirextalk_vnext_deployer.Tests.Codec.{parsers}
use dirextalk_vnext_deployer.Tests.Records.{node_operation, node_operation-IsValid, evidence}

abbrev claimed_operation : OperationRecord
claimed_operation = moved node_operation claimed claimed none

abbrev failed_operation : OperationRecord
failed_operation = moved node_operation failed_recoverable claimed (some evidence)

claims : advance node_operation claimed ≡ ok claimed_operation
unfolding advance next OperationPhase-discrete OptionPhase-discrete
claims = refl

fails : fail claimed_operation evidence ≡ ok failed_operation
unfolding fail
fails = refl

resumes : resume failed_operation ≡ ok claimed_operation
unfolding resume OperationPhase-discrete
resumes = refl

evidence-valid : valid_evidence (some evidence) ≡ ok tt
unfolding valid_evidence sha256 is_sha256
evidence-valid = refl

trace : Reach node_operation claimed_operation
trace =
    then (then (then here (by_advance claimed claims)) (by_fail evidence fails)) (by_resume resumes)

trace-AllEvidenced : AllEvidenced trace
unfolding trace
trace-AllEvidenced = (((tt, tt), evidence-valid), tt)

claimed_operation-IsValid : IsValid parsers claimed_operation
claimed_operation-IsValid =
    (Reach-IsValid parsers node_operation node_operation-IsValid trace trace-AllEvidenced).0

Reach-IsValid_example :
    IsValid parsers claimed_operation × SameIdentity node_operation claimed_operation
Reach-IsValid_example =
    Reach-IsValid parsers node_operation node_operation-IsValid trace trace-AllEvidenced

resume-fail_example : resume failed_operation ≡ ok claimed_operation
resume-fail_example =
    resume-fail parsers claimed_operation failed_operation evidence claimed_operation-IsValid fails

advance-completes_example :
    (t : OperationRecord) × Forward
      (remaining planned node_operation.binding.workload)
      node_operation
      t
    × (t.phase ≡ completed)
advance-completes_example = advance-completes node_operation refl

IsTerminal-absorbs_example :
    ¬ Step (moved node_operation rollback_converged completed none) node_operation
IsTerminal-absorbs_example =
    IsTerminal-absorbs (moved node_operation rollback_converged completed none) node_operation
      (inr (inl refl))

Reach-passes_example : AdvancedTo claimed trace
Reach-passes_example =
    Reach-passes parsers node_operation node_operation-IsValid refl claimed refl trace (omega arith)
