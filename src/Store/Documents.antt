-- ===== src/Store/Documents.antt =====
-- src/deployment.rs: sealing, verifying and identifying the stored values.
use dirextalk_vnext_deployer.Prelude.{not, [], Str, str_eq, ◌!=◌, nat_beq, Option, none, some}
use dirextalk_vnext_deployer.Errors.{Result, ok, Checked, reject_if, contract, ◌>>◌}
use dirextalk_vnext_deployer.Contract.{HostTuple}
use dirextalk_vnext_deployer.Contract.Syntax.{token, sha256, uuid}
use dirextalk_vnext_deployer.Contract.Validation.{validate_host}
use dirextalk_vnext_deployer.Operation.{OperationRecord}
use dirextalk_vnext_deployer.Store.World.{Codec, OperationIdentity, ClaimIdentity, TargetOwnership}
use dirextalk_vnext_deployer.Connector.{ConnectorClaim, ConnectorOwnership}

module _ (x : Codec) where
  -- `hex::encode(Sha256::digest(serde_json::to_vec(&copy)?))` with the digest cleared
  abbrev pub record_seal : OperationRecord → Str
  record_seal r = x.sha256_hex (x.record_to_vec (record r { integrity_digest = [] }))

  -- `OperationRecord::seal`
  unfoldable pub seal : OperationRecord → OperationRecord
  seal r = record r { integrity_digest = record_seal r }

  -- `OperationRecord::verify`
  unfoldable pub verify_record : OperationRecord → Checked
  verify_record r =
      reject_if (r.integrity_digest != record_seal r) (contract "operation integrity mismatch")

  abbrev pub identity_of : OperationRecord → OperationIdentity
  identity_of r = record {
    schema_version = r.schema_version;
    operation_id = r.operation_id;
    manifest_digest = r.manifest_digest;
    artifact = r.artifact;
    binding = r.binding;
    target = r.target;
    predecessor_operation_id = r.predecessor_operation_id;
  }

  -- `operation_identity_digest`
  unfoldable pub operation_identity_digest : OperationRecord → Str
  operation_identity_digest r = x.sha256_hex (x.identity_to_vec (identity_of r))

  abbrev pub ownership_seal : TargetOwnership → Str
  ownership_seal o = x.sha256_hex (x.ownership_to_vec (record o { integrity_digest = [] }))

  -- `TargetOwnership::from_record`, sealed
  unfoldable pub ownership_from_record : OperationRecord → TargetOwnership
  ownership_from_record r =
      let o : TargetOwnership = record {
        schema_version = 1;
        target = r.target;
        host = r.binding.host;
        current_operation_id = r.operation_id;
        predecessor_operation_id = r.predecessor_operation_id;
        operation_identity_digest = operation_identity_digest r;
        integrity_digest = [];
      } in
      record o { integrity_digest = ownership_seal o }

  abbrev pub check_uuid : Option Str → Checked
  check_uuid none = ok tt
  check_uuid (some predecessor) = uuid predecessor "ownership predecessor"

  -- `TargetOwnership::verify`
  unfoldable pub verify_ownership : TargetOwnership → Checked
  verify_ownership o = do
    reject_if (o.integrity_digest != ownership_seal o)
        (contract "target ownership integrity mismatch")
    reject_if (not (nat_beq o.schema_version 1)) (contract "target ownership schema must be 1")
    token o.target "ownership target"
    validate_host o.host
    uuid o.current_operation_id "ownership operation"
    check_uuid o.predecessor_operation_id
    sha256 o.operation_identity_digest "ownership operation identity"

  -- `ownership_fence`
  unfoldable pub ownership_fence : Str → HostTuple → Result Str
  ownership_fence target host = do
    token target "ownership target"
    validate_host host
    ok (x.sha256_hex (x.fence_to_vec target host))

  abbrev pub claim_seal : ConnectorClaim → Str
  claim_seal c = x.sha256_hex (x.claim_to_vec (record c { integrity_digest = [] }))

  -- `ConnectorClaim::seal`
  unfoldable pub seal_claim : ConnectorClaim → ConnectorClaim
  seal_claim c = record c { integrity_digest = claim_seal c }

  -- `ConnectorClaim::verify`
  unfoldable pub verify_claim : ConnectorClaim → Checked
  verify_claim c =
      reject_if (c.integrity_digest != claim_seal c) (contract "connector claim integrity mismatch")

  abbrev pub claim_identity_of : ConnectorClaim → ClaimIdentity
  claim_identity_of c = record {
    schema_version = c.schema_version;
    operation_id = c.operation_id;
    manifest_digest = c.manifest_digest;
    target = c.target;
    instance_id = c.instance_id;
    artifact = c.artifact;
    adapter_kind = c.adapter_kind;
    handoff_digest = c.handoff_digest;
    predecessor_operation_id = c.predecessor_operation_id;
  }

  -- `connector_claim_identity_digest`
  unfoldable pub connector_claim_identity_digest : ConnectorClaim → Str
  connector_claim_identity_digest c = x.sha256_hex (x.claim_identity_to_vec (claim_identity_of c))

  abbrev pub connector_owner_seal : ConnectorOwnership → Str
  connector_owner_seal o =
      x.sha256_hex (x.connector_owner_to_vec (record o { integrity_digest = [] }))

  -- `ConnectorOwnership::from_claim`, sealed
  unfoldable pub ownership_from_claim : ConnectorClaim → ConnectorOwnership
  ownership_from_claim c =
      let o : ConnectorOwnership = record {
        schema_version = 1;
        instance_id = c.instance_id;
        current_operation_id = c.operation_id;
        predecessor_operation_id = c.predecessor_operation_id;
        claim_identity_digest = connector_claim_identity_digest c;
        integrity_digest = [];
      } in
      record o { integrity_digest = connector_owner_seal o }

  abbrev pub check_owner_uuid : Option Str → Checked
  check_owner_uuid none = ok tt
  check_owner_uuid (some predecessor) = uuid predecessor "connector owner predecessor"

  -- `ConnectorOwnership::verify`
  unfoldable pub verify_connector_owner : ConnectorOwnership → Checked
  verify_connector_owner o = do
    reject_if (o.integrity_digest != connector_owner_seal o)
        (contract "connector ownership integrity mismatch")
    reject_if (not (nat_beq o.schema_version 1)) (contract "connector ownership schema must be 1")
    uuid o.instance_id "connector owner instance"
    uuid o.current_operation_id "connector owner operation"
    check_owner_uuid o.predecessor_operation_id
    sha256 o.claim_identity_digest "connector claim identity"
