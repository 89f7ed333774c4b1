-- ===== src/Tests/Success.antt =====
-- A command that succeeds, at a concrete state directory.
use dirextalk_vnext_deployer.Prelude.{
  ℕ_discrete, Str, Str-discrete, none, [], ◌∷◌, bytes, ◌++◌, ◌≡◌, refl,
}
use dirextalk_vnext_deployer.Errors.{ok}
use dirextalk_vnext_deployer.Contract.{ImmutableArtifact-discrete, NodeService-discrete}
use dirextalk_vnext_deployer.Contract.Syntax.{
  token, is_token, sha256, is_sha256, uuid, is_uuid7, identity_id, https_origin,
}
use dirextalk_vnext_deployer.Contract.Validation.{validate_artifact, validate_host}
use dirextalk_vnext_deployer.Operation.{
  OperationRecord, OperationPhase-discrete, OptionPhase-discrete, claimed, advance, next,
}
use dirextalk_vnext_deployer.Operation.Steps.{by_advance, moved}
use dirextalk_vnext_deployer.Operation.Validity.{
  valid_record, valid_identity, valid_phase, valid_workload, valid_predecessor, valid_evidence,
}
use dirextalk_vnext_deployer.Store.Names.{StateName-discrete, operation_file, owner_file}
use dirextalk_vnext_deployer.Store.World.{World, directory}
use dirextalk_vnext_deployer.Store.Documents.{
  seal, verify_record, verify_ownership, ownership_from_record, ownership_fence,
  operation_identity_digest,
}
use dirextalk_vnext_deployer.Store.Files.{
  read, read_secure, open_validated, validate_open_state_file, checked_record, read_owner,
  checked_owner, check_present, serialize_bounded, written,
}
use dirextalk_vnext_deployer.Store.Transitions.{check_owner, check_if_completed}
use dirextalk_vnext_deployer.Store.Transitions.Current.{IsCurrent}
use dirextalk_vnext_deployer.Store.Commands.{advance_to, run}
use dirextalk_vnext_deployer.Store.Commands.Success.{Ready, run-succeeds}
use dirextalk_vnext_deployer.Tests.Codec.{Content, codec, ended, of_record, of_ownership, sixteen}
use dirextalk_vnext_deployer.Tests.Records.{node_operation, first_id}

abbrev fence : Str
fence = sixteen (bytes "dddd")

-- The directory with the planned node operation, whose replacements succeed.
abbrev ready_world : World Content
ready_world = record {
  files =
      (operation_file first_id, written codec 1000 (ended (of_record (seal codec node_operation))))
      ∷ (
        owner_file fence,
        written codec 1000 (ended (of_ownership (ownership_from_record codec node_operation))),
      )
      ∷ [];
  root = directory 0o700 1000;
  euid = 1000;
  held = [];
  outcomes = [];
}

abbrev planned_record : OperationRecord
planned_record = seal codec node_operation

abbrev claimed_record : OperationRecord
claimed_record = moved planned_record claimed claimed none

current : IsCurrent codec first_id ready_world planned_record
unfolding check_owner read_owner checked_owner verify_ownership ownership_from_record
    ownership_fence operation_identity_digest read read_secure open_validated
    validate_open_state_file checked_record seal verify_record valid_record valid_identity
    valid_phase valid_workload valid_predecessor valid_evidence uuid is_uuid7 sha256 token
    validate_artifact validate_host identity_id https_origin OperationPhase-discrete
    NodeService-discrete ImmutableArtifact-discrete Str-discrete ℕ_discrete StateName-discrete
    is_token is_sha256
current = record { reads = refl; fence = fence; is_fence = refl; owned = refl }

ready : Ready codec (bytes "target-" ++ current.fence) ready_world
unfolding current token is_token check_present StateName-discrete Str-discrete ℕ_discrete
ready = record {
  own_root = refl;
  is_token = refl;
  lock_usable = refl;
  lock_free = refl;
  replacements = refl;
}

advances : advance planned_record claimed ≡ ok claimed_record
unfolding advance next seal OperationPhase-discrete OptionPhase-discrete
advances = refl

not_completed : check_if_completed codec claimed_record ready_world ≡ ok tt
unfolding check_if_completed OperationPhase-discrete
not_completed = refl

fits :
    serialize_bounded codec (of_record (seal codec claimed_record))
    ≡ ok (ended (of_record (seal codec claimed_record)))
unfolding serialize_bounded
fits = refl

run-succeeds_example :
    (v : World Content) × (run codec first_id (advance_to claimed) ready_world
      ≡ (ok (seal codec claimed_record), v))
run-succeeds_example =
    run-succeeds codec first_id (advance_to claimed) ready_world planned_record claimed_record
      (ended (of_record (seal codec claimed_record))) current ready advances
      (by_advance claimed advances) tt not_completed fits
