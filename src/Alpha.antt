-- ===== src/Alpha.antt =====
-- src/alpha_deployment.rs: the data of the Internal Test Alpha deployment, and what other crates and
-- src/strict_json.rs give it.
pub mod Syntax
pub mod Package
pub mod Lifecycle
pub mod Store
use dirextalk_vnext_deployer.Prelude.{ℕ, ℕ_discrete, Bool, Option, Str, PartialEq, of_discrete}
use dirextalk_vnext_deployer.Errors.{Result}

pub record AlphaTarget : Type 0 where
  pub id : Str

pub record SourceComponent : Type 0 where
  pub source_commit : Str

pub record ImageComponent : Type 0 where
  pub source_commit : Str
  pub image : Str

-- A path is the text of a Unix path.
pub record PackageArtifact : Type 0 where
  pub path : Str
  pub sha256 : Str

pub record ClientComponent : Type 0 where
  pub source_commit : Str
  pub apk : PackageArtifact
  pub test_apk : PackageArtifact

pub record ConnectorComponent : Type 0 where
  pub source_commit : Str
  pub binary : PackageArtifact

pub record AlphaContract : Type 0 where
  pub schema : Str
  pub schema_version : ℕ
  pub fresh_only : Bool
  pub target : AlphaTarget
  pub server : ImageComponent
  pub client : ClientComponent
  pub connector : ConnectorComponent
  pub sidecar : ImageComponent
  pub deployer : SourceComponent
  pub config : PackageArtifact

pub record AlphaManifest : Type 0 where
  pub contract : AlphaContract
  pub digest : Str

pub record ComponentDigests : Type 0 where
  pub server_image : Str
  pub client_apk : Str
  pub client_test_apk : Str
  pub connector_binary : Str
  pub sidecar_image : Str
  pub config : Str

pub record VerifiedAlphaPackage : Type 0 where
  pub manifest_digest : Str
  pub package_digest : Str
  pub component_digests : ComponentDigests

pub record ConnectorFence : Type 0 where
  pub connector_id : Str
  pub generation : ℕ
  pub lease_id : Str
  pub lease_epoch : ℕ

unfoldable pub ConnectorFence-discrete : Discrete ConnectorFence
unfolding ℕ_discrete
ConnectorFence-discrete = hlevel ℕ_discrete

instance abbrev pub connector_fence_eq : PartialEq ConnectorFence
connector_fence_eq = of_discrete ConnectorFence-discrete

pub record OperationFence : Type 0 where
  pub operation_id : Str
  pub epoch : ℕ

unfoldable pub OperationFence-discrete : Discrete OperationFence
unfolding ℕ_discrete
OperationFence-discrete = hlevel ℕ_discrete

instance abbrev pub operation_fence_eq : PartialEq OperationFence
operation_fence_eq = of_discrete OperationFence-discrete

pub data AlphaLifecycle : Type 0 where
  alpha_planned installed started alpha_ready acceptance_observed alpha_completed : AlphaLifecycle

unfoldable pub AlphaLifecycle-discrete : Discrete AlphaLifecycle
AlphaLifecycle-discrete = hlevel

instance abbrev pub lifecycle_eq : PartialEq AlphaLifecycle
lifecycle_eq = of_discrete AlphaLifecycle-discrete

pub record ReadinessFacts : Type 0 where
  pub server_ready : Bool
  pub client_ready : Bool
  pub connector_ready : Bool
  pub sidecar_ready : Bool

pub record AcceptanceObservation : Type 0 where
  pub scenario : Str
  pub target_id : Str
  pub manifest_digest : Str
  pub package_digest : Str
  pub connector_fence : ConnectorFence
  pub operation_fence : OperationFence
  pub receipt_digest : Str
  pub signer_identity : Str
  pub signature_verified : Bool

pub record AlphaLifecycleRecord : Type 0 where
  pub schema : Str
  pub schema_version : ℕ
  pub target_id : Str
  pub manifest_digest : Str
  pub package_digest : Str
  pub component_digests : ComponentDigests
  pub connector_fence : ConnectorFence
  pub operation_fence : OperationFence
  pub state : AlphaLifecycle
  pub readiness : Option ReadinessFacts
  pub receipt_digest : Option Str
  pub receipt_signer_identity : Option Str
  pub integrity_digest : Str

unfoldable pub AlphaLifecycleRecord-discrete : Discrete AlphaLifecycleRecord
unfolding ℕ_discrete
AlphaLifecycleRecord-discrete = hlevel ℕ_discrete

instance abbrev pub alpha_record_eq : PartialEq AlphaLifecycleRecord
alpha_record_eq = of_discrete AlphaLifecycleRecord-discrete

-- `uuid::Uuid`, SHA-256 in hexadecimal, and JSON: `parse_value` and `canonical_bytes` are those of
-- src/strict_json.rs, `contract_of` and `record_of` are serde's `from_value`.
pub record Crates : Type 1 where
  pub Uuid : Type 0
  pub parse_uuid : Str → Option Uuid
  pub version_num : Uuid → ℕ
  pub uuid_text : Uuid → Str
  pub sha256_hex : Str → Str
  pub Value : Type 0
  pub parse_value : Str → Result Value
  pub canonical_bytes : Value → Str
  pub contract_of : Value → Option AlphaContract
  pub record_of : Value → Option AlphaLifecycleRecord
  pub to_value : AlphaLifecycleRecord → Value
  pub record_to_vec : AlphaLifecycleRecord → Str
