-- ===== src/Tests/Runs.antt =====
-- Runs of `claim` and of the connector methods, computed.
use dirextalk_vnext_deployer.Prelude.{
  ℕ_discrete, Str-discrete, OptionStr-discrete, ◌≡◌, refl, split,
}
use dirextalk_vnext_deployer.Errors.{ok}
use dirextalk_vnext_deployer.Contract.{
  HostTuple-discrete, ImmutableArtifact-discrete, NodeService-discrete,
}
use dirextalk_vnext_deployer.Contract.Syntax.{
  token, is_token, sha256, is_sha256, uuid, is_uuid7, identity_id, https_origin,
}
use dirextalk_vnext_deployer.Contract.Validation.{validate_artifact, validate_host}
use dirextalk_vnext_deployer.Connector.{ConnectorClaimPhase-discrete, handoff_observed, valid_claim}
use dirextalk_vnext_deployer.Operation.{OperationPhase-discrete}
use dirextalk_vnext_deployer.Operation.Validity.{
  valid_record, valid_identity, valid_phase, valid_workload, valid_connectors, valid_predecessor,
  valid_evidence,
}
use dirextalk_vnext_deployer.Manifest.{
  validate, check_targets, check_target, note_host, initial_record, binding_from_manifest, plan,
  plan_target,
}
use dirextalk_vnext_deployer.Store.Names.{
  StateName-discrete, render, is_target_owner_projection_filename,
}
use dirextalk_vnext_deployer.Store.Documents.{
  seal, seal_claim, verify_record, verify_ownership, verify_claim, verify_connector_owner,
  ownership_from_record, ownership_from_claim, ownership_fence, operation_identity_digest,
  connector_claim_identity_digest,
}
use dirextalk_vnext_deployer.Store.Files.{
  read, read_secure, open_validated, validate_open_state_file, checked_record, read_owner,
  checked_owner, read_claim, checked_claim, read_connector_owner, checked_connector_owner,
  ensure_root, check_root, lock, open_lock, check_present, write_path, replace, replace_from,
  serialize_bounded,
}
use dirextalk_vnext_deployer.Store.Transitions.{
  check_owner, expire_unclaimed_operation, expire_or_keep, check_claim_expired, lock_current,
  persist_record, check_if_completed,
}
use dirextalk_vnext_deployer.Operation.Steps.{moved}
use dirextalk_vnext_deployer.Prelude.{none}
use dirextalk_vnext_deployer.Operation.{expired_unclaimed, expire_unclaimed}
use dirextalk_vnext_deployer.Tests.Records.{connector_operation, second_id}
use dirextalk_vnext_deployer.Tests.Stores.{expired_world}
use dirextalk_vnext_deployer.Store.Claim.{
  claim, admit, is_initial, record_matches_manifest, claim_admitted, claim_locked, check_existing,
  reconcile_if_absent, reconcile_legacy_owner, reconcile_from, validate_owner_transition,
  owner_transition, publish,
}
use dirextalk_vnext_deployer.Store.Connectors.{
  observe_connector_handoff, move_connector, move_claim, lock_current_connector, reread_connector,
  verify_current_owner, persist_connector_claim,
}
use dirextalk_vnext_deployer.Tests.Codec.{codec}
use dirextalk_vnext_deployer.Tests.Records.{manifest, node_operation, host, instance_id}
use dirextalk_vnext_deployer.Tests.Stores.{
  no_digest, empty_world, connector_world, prepared_claim_record,
}

claim_runs :
    (claim codec no_digest manifest node_operation host empty_world).0
    ≡ ok (seal codec node_operation)
unfolding claim admit is_initial record_matches_manifest claim_admitted claim_locked check_existing
    reconcile_if_absent reconcile_legacy_owner reconcile_from validate_owner_transition
    owner_transition publish validate check_targets check_target note_host initial_record
    binding_from_manifest plan plan_target read read_secure open_validated validate_open_state_file
    checked_record read_owner checked_owner ensure_root check_root lock open_lock check_present
    write_path replace replace_from serialize_bounded seal verify_record verify_ownership
    ownership_from_record ownership_fence operation_identity_digest valid_record valid_identity
    valid_phase valid_workload valid_predecessor valid_evidence token is_token sha256 is_sha256 uuid
    is_uuid7 identity_id https_origin validate_artifact validate_host OperationPhase-discrete
    HostTuple-discrete NodeService-discrete ImmutableArtifact-discrete Str-discrete
    OptionStr-discrete ℕ_discrete StateName-discrete render is_target_owner_projection_filename
    split
claim_runs = refl

observe_runs :
    (observe_connector_handoff codec instance_id (connector_world prepared_claim_record)).0
    ≡ ok (seal_claim codec (record prepared_claim_record { phase = handoff_observed }))
unfolding observe_connector_handoff move_connector move_claim lock_current_connector
    reread_connector verify_current_owner persist_connector_claim check_owner read read_secure
    open_validated validate_open_state_file checked_record read_owner checked_owner read_claim
    checked_claim read_connector_owner checked_connector_owner ensure_root check_root lock open_lock
    check_present write_path replace replace_from serialize_bounded seal seal_claim verify_record
    verify_ownership verify_claim verify_connector_owner ownership_from_record ownership_from_claim
    ownership_fence operation_identity_digest connector_claim_identity_digest valid_record
    valid_identity valid_phase valid_workload valid_connectors valid_predecessor valid_evidence
    valid_claim token is_token sha256 is_sha256 uuid is_uuid7 identity_id validate_artifact
    validate_host OperationPhase-discrete ConnectorClaimPhase-discrete ImmutableArtifact-discrete
    Str-discrete ℕ_discrete StateName-discrete
observe_runs = refl

expire_runs :
    (expire_unclaimed_operation codec second_id instance_id expired_world).0
    ≡ ok (seal codec (moved connector_operation expired_unclaimed expired_unclaimed none))
unfolding expire_unclaimed_operation expire_or_keep check_claim_expired expire_unclaimed
    lock_current persist_record check_if_completed check_owner read read_secure open_validated
    validate_open_state_file checked_record read_owner checked_owner read_claim checked_claim
    ensure_root check_root lock open_lock check_present write_path replace replace_from
    serialize_bounded seal seal_claim verify_record verify_ownership verify_claim
    ownership_from_record ownership_fence operation_identity_digest connector_claim_identity_digest
    valid_record valid_identity valid_phase valid_workload valid_connectors valid_predecessor
    valid_evidence valid_claim token is_token sha256 is_sha256 uuid is_uuid7 identity_id
    validate_artifact validate_host OperationPhase-discrete ConnectorClaimPhase-discrete
    ImmutableArtifact-discrete Str-discrete OptionStr-discrete ℕ_discrete StateName-discrete
expire_runs = refl
