-- ===== src/Tests/Manifests.antt =====
-- The theorem on planning, at a concrete manifest.
use dirextalk_vnext_deployer.Prelude.{
  ℕ_discrete, Str-discrete, Str, [], ◌∷◌, some, bytes, ◌≡◌, refl, split,
}
use dirextalk_vnext_deployer.Errors.{ok}
use dirextalk_vnext_deployer.AgentBundle.{AgentBundle}
use dirextalk_vnext_deployer.Contract.{node, realtime_gateway, NodeService-discrete}
use dirextalk_vnext_deployer.Contract.Syntax.{
  token, is_token, sha256, is_sha256, uuid, is_uuid7, identity_id, https_origin,
}
use dirextalk_vnext_deployer.Contract.Validation.{validate_artifact, validate_host}
use dirextalk_vnext_deployer.Operation.Steps.{IsValid}
use dirextalk_vnext_deployer.Operation.Validity.{valid_predecessor}
use dirextalk_vnext_deployer.Manifest.{
  node_target, validate, check_targets, check_target, note_host, initial_record, plan,
}
use dirextalk_vnext_deployer.Manifest.Planning.{plan-initial_record}
use dirextalk_vnext_deployer.Tests.Codec.{parsers}
use dirextalk_vnext_deployer.Tests.Records.{manifest, host, first_id, second_id}

bundle_digest : AgentBundle → Str
bundle_digest b = []

manifest-valid : validate parsers bundle_digest manifest.contract ≡ ok tt
unfolding validate check_targets check_target note_host validate_artifact validate_host token
    is_token sha256 is_sha256 uuid is_uuid7 identity_id https_origin NodeService-discrete
    Str-discrete ℕ_discrete split
manifest-valid = refl

first_id-valid : uuid first_id "operation_id" ≡ ok tt
unfolding uuid is_uuid7
first_id-valid = refl

predecessor-valid :
    valid_predecessor
      (some second_id)
      first_id
      "predecessor_operation_id"
      "operation cannot succeed itself"
    ≡ ok tt
unfolding valid_predecessor uuid is_uuid7 Str-discrete ℕ_discrete
predecessor-valid = refl

digest-valid : sha256 manifest.digest "manifest_digest" ≡ ok tt
unfolding sha256 is_sha256
digest-valid = refl

plan-initial_record_example :
    (plan parsers manifest (bytes "node-1") first_id (some second_id)
      ≡ ok (
          initial_record manifest (bytes "node-1") first_id (some second_id) (
            node_target
              (bytes "node-1")
              (bytes "https://node.example.com")
              (realtime_gateway ∷ node ∷ [])
              host)))
    × IsValid parsers (
        initial_record manifest (bytes "node-1") first_id (some second_id) (
          node_target
            (bytes "node-1")
            (bytes "https://node.example.com")
            (realtime_gateway ∷ node ∷ [])
            host))
unfolding Str-discrete ℕ_discrete
plan-initial_record_example =
    plan-initial_record parsers bundle_digest manifest (bytes "node-1") first_id (some second_id)
      (bytes "node-1") (bytes "https://node.example.com") (realtime_gateway ∷ node ∷ []) host
      manifest-valid refl first_id-valid predecessor-valid digest-valid
