-- ===== src/Tests/Records.antt =====
-- Operations, a manifest, and a connector claim.
use dirextalk_vnext_deployer.Prelude.{
  ℕ_discrete, Str-discrete, [], ◌∷◌, none, some, Str, bytes, refl, ◌++◌, split,
}
use dirextalk_vnext_deployer.Contract.{
  HostTuple, ImmutableArtifact, OperationBinding, node_workload, connector_host, node,
  realtime_gateway, codex, NodeService-discrete, ImmutableArtifact-discrete,
}
use dirextalk_vnext_deployer.Contract.Syntax.{
  is_token, is_sha256, token, sha256, uuid, is_uuid7, identity_id, https_origin,
}
use dirextalk_vnext_deployer.Contract.Validation.{validate_artifact, validate_host}
use dirextalk_vnext_deployer.Operation.{
  OperationRecord, OperationFailureEvidence, planned, readiness_verified, OperationPhase-discrete,
}
use dirextalk_vnext_deployer.Operation.Validity.{
  valid_record, valid_identity, valid_phase, valid_workload, valid_predecessor, valid_evidence,
  valid_connectors,
}
use dirextalk_vnext_deployer.Operation.Steps.{IsValid}
use dirextalk_vnext_deployer.Manifest.{DeploymentManifest, node_target}
use dirextalk_vnext_deployer.Tests.Codec.{sixteen, parsers}

abbrev pub first_id : Str
first_id = bytes "01890000-0000-7000-8000-000000000001"

abbrev pub second_id : Str
second_id = bytes "01890000-0000-7000-8000-000000000002"

abbrev pub instance_id : Str
instance_id = bytes "01890000-0000-7000-8000-00000000000a"

abbrev pub host : HostTuple
host = record {
  tenant_id = bytes "01890000-0000-7000-8000-0000000000b1";
  host_id = bytes "01890000-0000-7000-8000-0000000000b2";
  owner_id = bytes "dtxi1" ++ sixteen (bytes "abc") ++ bytes "wxyz";
  host_credential_id = bytes "01890000-0000-7000-8000-0000000000b3";
}

abbrev pub server : ImmutableArtifact
server = record { version = bytes "1.2.3"; digest = sixteen (bytes "1111") }

abbrev pub node_binding : OperationBinding
node_binding = record {
  target = bytes "node-1";
  host = host;
  artifact = server;
  workload =
      node_workload (bytes "https://node.example.com") (sixteen (bytes "1111"))
        (node ∷ realtime_gateway ∷ []);
}

abbrev pub node_operation : OperationRecord
node_operation = record {
  schema_version = 1;
  operation_id = first_id;
  manifest_digest = sixteen (bytes "2222");
  artifact = server;
  binding = node_binding;
  target = bytes "node-1";
  predecessor_operation_id = none;
  phase = planned;
  last_proven_phase = planned;
  last_failure = none;
  integrity_digest = [];
}

abbrev pub connector_operation : OperationRecord
connector_operation = record {
  schema_version = 1;
  operation_id = second_id;
  manifest_digest = sixteen (bytes "2222");
  artifact = server;
  binding = record {
    target = bytes "host-1";
    host = host;
    artifact = server;
    workload = connector_host (sixteen (bytes "1111")) (
        record {
          instance_id = instance_id;
          adapter_kind = codex;
          handoff_digest = sixteen (bytes "3333");
        }
        ∷ []);
  };
  target = bytes "host-1";
  predecessor_operation_id = none;
  phase = readiness_verified;
  last_proven_phase = readiness_verified;
  last_failure = none;
  integrity_digest = [];
}

abbrev pub evidence : OperationFailureEvidence
evidence = record {
  service_revision_digest = some (sixteen (bytes "4444"));
  config_digest = none;
  unit_digest = none;
  readiness_digest = none;
  runtime_uid = some 1000;
  runtime_gid = none;
  entrypoint_digest = none;
}

abbrev pub manifest : DeploymentManifest
manifest = record {
  contract = record {
    schema_version = 1;
    server = server;
    connector = server;
    targets =
        node_target (bytes "node-1") (bytes "https://node.example.com")
          (realtime_gateway ∷ node ∷ []) host
        ∷ [];
  };
  digest = sixteen (bytes "2222");
}

pub node_operation-IsValid : IsValid parsers node_operation
unfolding valid_record valid_identity valid_phase valid_workload valid_predecessor valid_evidence
    uuid is_uuid7 sha256 token validate_artifact validate_host identity_id https_origin
    OperationPhase-discrete NodeService-discrete ImmutableArtifact-discrete Str-discrete ℕ_discrete
    split is_token is_sha256
node_operation-IsValid = refl

pub connector_operation-IsValid : IsValid parsers connector_operation
unfolding valid_record valid_identity valid_phase valid_workload valid_connectors valid_predecessor
    valid_evidence uuid is_uuid7 sha256 token validate_artifact validate_host identity_id
    OperationPhase-discrete ImmutableArtifact-discrete Str-discrete ℕ_discrete is_token is_sha256
connector_operation-IsValid = refl
