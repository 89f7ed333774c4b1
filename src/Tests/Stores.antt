-- ===== src/Tests/Stores.antt =====
-- The theorems on the store, at concrete state directories.
use dirextalk_vnext_deployer.Prelude.{
  ℕ_discrete, Str-discrete, List, [], ◌∷◌, none, some, Str, bytes, ◌≡◌, refl,
}
use dirextalk_vnext_deployer.Errors.{ok}
use dirextalk_vnext_deployer.AgentBundle.{AgentBundle}
use dirextalk_vnext_deployer.Contract.{
  ImmutableArtifact-discrete, NodeService-discrete, BoundConnector, codex,
}
use dirextalk_vnext_deployer.Contract.Syntax.{
  is_token, is_sha256, token, sha256, uuid, is_uuid7, identity_id, https_origin,
}
use dirextalk_vnext_deployer.Contract.Validation.{validate_artifact, validate_host}
use dirextalk_vnext_deployer.Connector.{
  ConnectorClaim, released, handoff_observed, prepared, claim_expired, valid_claim,
  ConnectorClaimPhase-discrete,
}
use dirextalk_vnext_deployer.Operation.{
  OperationRecord, OperationPhase-discrete, OptionPhase-discrete, claimed, completed,
  artifacts_verified, advance, next, host_connectors,
}
use dirextalk_vnext_deployer.Operation.Steps.{IsValid, SameIdentity, moved}
use dirextalk_vnext_deployer.Operation.Validity.{
  valid_record, valid_identity, valid_phase, valid_workload, valid_connectors, valid_predecessor,
  valid_evidence,
}
use dirextalk_vnext_deployer.Store.Names.{
  StateName-discrete, operation_file, owner_file, claim_file, connector_owner_file,
}
use dirextalk_vnext_deployer.Store.World.{
  World, File, directory, absent, replaced, failed_after_rename,
}
use dirextalk_vnext_deployer.Store.Documents.{
  seal, seal_claim, verify_record, verify_ownership, verify_claim, verify_connector_owner,
  ownership_from_record, ownership_from_claim, ownership_fence, operation_identity_digest,
  connector_claim_identity_digest,
}
use dirextalk_vnext_deployer.Store.Files.{
  read, read_secure, open_validated, validate_open_state_file, checked_record, read_owner,
  checked_owner, read_claim, checked_claim, read_connector_owner, checked_connector_owner,
  ensure_root, check_root, lock, open_lock, check_present, write_path, replace, replace_from,
  serialize_bounded, written,
}
use dirextalk_vnext_deployer.Store.Transitions.{
  expire_unclaimed_operation, lock_current, check_owner, check_released, check_all_released,
  check_completion, verify_connector_completion, check_if_completed, persist_record, transact,
  store_advance,
}
use dirextalk_vnext_deployer.Store.Transitions.Expiry.{Expired, expire_unclaimed_operation-Expired}
use dirextalk_vnext_deployer.Store.Writes.{Wrote, write_path-Wrote}
use dirextalk_vnext_deployer.Store.Commands.{
  advance_to, fail_with, resume_failed, run, Committed, run-Committed,
}
use dirextalk_vnext_deployer.Store.Commands.Reached.{SealedReach}
use dirextalk_vnext_deployer.Store.Commands.Calls.{Call, claiming, commanded, expiry, observing}
use dirextalk_vnext_deployer.Store.Commands.History.{run_all, run_all-ReadsReached}
use dirextalk_vnext_deployer.Store.Commands.Completion.{AllReleased, store_advance-AllReleased}
use dirextalk_vnext_deployer.Store.Claim.{claim}
use dirextalk_vnext_deployer.Store.Claim.Outcome.{claim-Claimed}
use dirextalk_vnext_deployer.Store.Claim.Ends.{Claimed}
use dirextalk_vnext_deployer.Store.Claim.Succession.{claim-TakesOver}
use dirextalk_vnext_deployer.Store.Claim.Takeover.{TakesOver}
use dirextalk_vnext_deployer.Store.Connectors.{
  observe_connector_handoff, release_connector_claim, expire_unclaimed_connector_claim,
}
use dirextalk_vnext_deployer.Store.Connectors.Moves.{ClaimMoved}
use dirextalk_vnext_deployer.Store.Connectors.Outcome.{
  observe_connector_handoff-ClaimMoved, release_connector_claim-ClaimMoved,
  expire_unclaimed_connector_claim-ClaimMoved,
}
use dirextalk_vnext_deployer.Tests.Codec.{
  Content, codec, laws, ended, of_record, of_ownership, of_claim, of_connector_owner, sixteen,
  parsers,
}
use dirextalk_vnext_deployer.Tests.Records.{
  node_operation, connector_operation, evidence, manifest, host, first_id, second_id, instance_id,
  server,
}

abbrev file : Content → File Content
file d = written codec 1000 (ended d)

abbrev fence : Str
fence = sixteen (bytes "dddd")

-- The directory with the planned node operation; the third replacement fails after its rename.
abbrev node_world : World Content
node_world = record {
  files =
      (operation_file first_id, file (of_record (seal codec node_operation)))
      ∷ (owner_file fence, file (of_ownership (ownership_from_record codec node_operation)))
      ∷ [];
  root = directory 0o700 1000;
  euid = 1000;
  held = [];
  outcomes = replaced ∷ replaced ∷ failed_after_rename ∷ [];
}

-- The directory before the first claim.
abbrev pub empty_world : World Content
empty_world = record { files = []; root = absent; euid = 1000; held = []; outcomes = [] }

abbrev released_claim : ConnectorClaim
released_claim = record {
  schema_version = 1;
  operation_id = second_id;
  manifest_digest = sixteen (bytes "2222");
  target = bytes "host-1";
  instance_id = instance_id;
  artifact = server;
  adapter_kind = codex;
  handoff_digest = sixteen (bytes "3333");
  predecessor_operation_id = none;
  phase = released;
  integrity_digest = [];
}

-- The directory with the connector operation and its connector's claim.
abbrev pub connector_world : ConnectorClaim → World Content
connector_world c = record {
  files =
      (operation_file second_id, file (of_record (seal codec connector_operation)))
      ∷ (owner_file fence, file (of_ownership (ownership_from_record codec connector_operation)))
      ∷ (claim_file instance_id second_id, file (of_claim (seal_claim codec c)))
      ∷ (connector_owner_file instance_id, file (of_connector_owner (ownership_from_claim codec c)))
      ∷ [];
  root = directory 0o700 1000;
  euid = 1000;
  held = [];
  outcomes = [];
}

abbrev pub prepared_claim_record : ConnectorClaim
prepared_claim_record = record released_claim { phase = prepared }

abbrev observed_claim : ConnectorClaim
observed_claim = record released_claim { phase = handoff_observed }

-- The directory with the connector operation before its material, and the connector's expired claim.
abbrev pub expired_world : World Content
expired_world = record (connector_world (record released_claim { phase = claim_expired })) {
  files =
      (
        operation_file second_id,
        file (
            of_record
              (seal codec (moved connector_operation artifacts_verified artifacts_verified none))),
      )
      ∷ (owner_file fence, file (of_ownership (ownership_from_record codec connector_operation)))
      ∷ (
        claim_file instance_id second_id,
        file (of_claim (seal_claim codec (record released_claim { phase = claim_expired }))),
      )
      ∷ [];
}

abbrev pub no_digest : AgentBundle → Str
no_digest b = []

node_read : read codec first_id node_world ≡ ok (seal codec node_operation)
unfolding read read_secure open_validated validate_open_state_file checked_record seal verify_record
    valid_record valid_identity valid_phase valid_workload valid_predecessor valid_evidence uuid
    is_uuid7 sha256 token validate_artifact validate_host identity_id https_origin
    OperationPhase-discrete NodeService-discrete ImmutableArtifact-discrete Str-discrete ℕ_discrete
    StateName-discrete is_token is_sha256
node_read = refl

history : List Call
history =
    claiming manifest node_operation host
    ∷ commanded first_id (advance_to claimed)
    ∷ commanded second_id (advance_to claimed)
    ∷ expiry first_id instance_id
    ∷ commanded first_id (fail_with evidence)
    ∷ observing instance_id
    ∷ commanded first_id resume_failed
    ∷ []

run_all-ReadsReached_example :
    (s : OperationRecord) × (read codec first_id (run_all codec no_digest history node_world)
      ≡ ok s)
    × SealedReach codec (seal codec node_operation) s
    × IsValid parsers s
    × SameIdentity (seal codec node_operation) s
run_all-ReadsReached_example =
    run_all-ReadsReached codec laws no_digest first_id history node_world
      (seal codec node_operation) node_read

run-Committed_example :
    Committed codec first_id node_world (run codec first_id (advance_to claimed) node_world)
run-Committed_example = run-Committed codec laws first_id (advance_to claimed) node_world

claim-Claimed_example :
    Claimed codec node_operation empty_world
      (claim codec no_digest manifest node_operation host empty_world)
claim-Claimed_example = claim-Claimed codec laws no_digest manifest node_operation host empty_world

claim-TakesOver_example :
    TakesOver codec node_operation empty_world
      (claim codec no_digest manifest node_operation host empty_world)
claim-TakesOver_example = claim-TakesOver codec no_digest manifest node_operation host empty_world

observe_connector_handoff-ClaimMoved_example :
    ClaimMoved codec prepared handoff_observed instance_id
      (connector_world prepared_claim_record)
      (observe_connector_handoff codec instance_id (connector_world prepared_claim_record))
observe_connector_handoff-ClaimMoved_example =
    observe_connector_handoff-ClaimMoved codec laws instance_id
      (connector_world prepared_claim_record)

release_connector_claim-ClaimMoved_example :
    ClaimMoved codec handoff_observed released instance_id
      (connector_world observed_claim)
      (release_connector_claim codec instance_id (connector_world observed_claim))
release_connector_claim-ClaimMoved_example =
    release_connector_claim-ClaimMoved codec laws instance_id (connector_world observed_claim)

expire_unclaimed_connector_claim-ClaimMoved_example :
    ClaimMoved codec prepared claim_expired instance_id
      (connector_world prepared_claim_record)
      (expire_unclaimed_connector_claim codec instance_id (connector_world prepared_claim_record))
expire_unclaimed_connector_claim-ClaimMoved_example =
    expire_unclaimed_connector_claim-ClaimMoved codec laws instance_id
      (connector_world prepared_claim_record)

write_path-Wrote_example :
    Wrote codec
      (operation_file first_id)
      (ended (of_record node_operation))
      node_world
      (write_path codec (operation_file first_id) (of_record node_operation) node_world)
write_path-Wrote_example =
    write_path-Wrote codec (operation_file first_id) (of_record node_operation) node_world refl

completed_operation : OperationRecord
completed_operation = seal codec (moved connector_operation completed completed none)

completes : store_advance codec second_id completed (connector_world released_claim) ≡ (
  ok completed_operation,
  (store_advance codec second_id completed (connector_world released_claim)).1,
)
unfolding completed_operation store_advance transact lock_current lock open_lock ensure_root
    check_root check_present check_owner persist_record check_if_completed
    verify_connector_completion check_completion check_all_released check_released write_path
    replace replace_from serialize_bounded advance next read read_secure open_validated
    validate_open_state_file checked_record read_owner checked_owner read_claim checked_claim
    read_connector_owner checked_connector_owner seal seal_claim verify_record verify_ownership
    verify_claim verify_connector_owner ownership_from_record ownership_from_claim ownership_fence
    operation_identity_digest connector_claim_identity_digest valid_record valid_identity
    valid_phase valid_workload valid_connectors valid_predecessor valid_evidence valid_claim uuid
    is_uuid7 sha256 token validate_artifact validate_host identity_id OperationPhase-discrete
    OptionPhase-discrete ConnectorClaimPhase-discrete ImmutableArtifact-discrete Str-discrete
    ℕ_discrete StateName-discrete is_token is_sha256
completes = refl

connectors : List BoundConnector
connectors =
    record {
      instance_id = instance_id;
      adapter_kind = codex;
      handoff_digest = sixteen (bytes "3333");
    }
    ∷ []

binds : host_connectors completed_operation.binding.workload ≡ some connectors
unfolding completed_operation connectors seal
binds = refl

store_advance-AllReleased_example :
    AllReleased codec completed_operation.operation_id connectors (connector_world released_claim)
store_advance-AllReleased_example =
    store_advance-AllReleased codec laws second_id (connector_world released_claim)
      (store_advance codec second_id completed (connector_world released_claim)).1
      completed_operation connectors completes binds

expire_unclaimed_operation-Expired_example :
    Expired codec second_id instance_id expired_world
      (expire_unclaimed_operation codec second_id instance_id expired_world)
expire_unclaimed_operation-Expired_example =
    expire_unclaimed_operation-Expired codec laws second_id instance_id expired_world
