-- ===== src/Contract/Validation.antt =====
-- src/deployment.rs: the `validate` methods of the contract's data.
use dirextalk_vnext_deployer.Prelude.{not}
use dirextalk_vnext_deployer.Errors.{Checked, reject_if, contract, ◌>>◌}
use dirextalk_vnext_deployer.Contract.{ImmutableArtifact, HostTuple}
use dirextalk_vnext_deployer.Contract.Syntax.{Parsers, ◌+++◌, sha256, uuid, identity_id}
use dirextalk_vnext_deployer.Prelude.{String}

-- `ImmutableArtifact::validate`
unfoldable pub validate_artifact : Parsers → ImmutableArtifact → String → Checked
validate_artifact p a name = do
  reject_if (not (p.is_semver a.version)) (contract (name +++ ".version must be SemVer"))
  sha256 a.digest (name +++ ".digest")

-- `HostTuple::validate`
unfoldable pub validate_host : HostTuple → Checked
validate_host h = do
  uuid h.tenant_id "tenant_id"
  uuid h.host_id "host_id"
  uuid h.host_credential_id "host_credential_id"
  identity_id h.owner_id "owner_id"
