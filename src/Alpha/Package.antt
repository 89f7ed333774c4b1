-- ===== src/Alpha/Package.antt =====
-- src/alpha_deployment.rs: `AlphaContract::validate`, the loading of a manifest, and `verify_package`.
pub mod Material
pub mod Verified
use dirextalk_vnext_deployer.Prelude.{
  ℕ, ◌*◌, Bool, true, false, ◌&&◌, ◌||◌, not, List, [], ◌∷◌, ◌++◌, Option, none, some, String, Str,
  str_eq, bytes, nat_beq, ltb, length, is_empty, starts_with, ends_with, ◌==◌, ◌!=◌, if◌then◌else◌,
}
use dirextalk_vnext_deployer.Errors.{
  Checked, Result, ok, err, reject_if, contract, ◌>>◌, ◌>>=◌, json, unsafe_file, invalid_path,
  missing_artifact, source_mismatch,
}
use dirextalk_vnext_deployer.Contract.Syntax.{◌+++◌}
use dirextalk_vnext_deployer.Alpha.{
  AlphaTarget, SourceComponent, ImageComponent, PackageArtifact, ClientComponent,
  ConnectorComponent, AlphaContract, AlphaManifest, ComponentDigests, VerifiedAlphaPackage, Crates,
}
use dirextalk_vnext_deployer.Alpha.Syntax.{
  Component, components, components_eq, is_absolute, safe_relative, commit, alpha_digest,
  check_image, prefixed_digest, append_part,
}

abbrev pub alpha_schema : Str
alpha_schema = bytes "dirextalk.internal-test-alpha-deployment"

abbrev pub max_manifest_bytes : ℕ
max_manifest_bytes = 1024 * 1024

abbrev pub max_artifact_bytes : ℕ
max_artifact_bytes = 1024 * 1024 * 1024

unfoldable pub validate_alpha_target : AlphaTarget → Checked
validate_alpha_target t =
    reject_if
      (not (
        t.id == bytes "x3.dirextalk.ai"
        || t.id == bytes "x4.dirextalk.ai"
        || t.id == bytes "x5.dirextalk.ai"))
      (contract "target.id must be x3, x4, or x5")

unfoldable pub validate_source : SourceComponent → String → Checked
validate_source c name = commit c.source_commit (name +++ ".source_commit")

unfoldable pub validate_image : ImageComponent → String → Checked
validate_image c name = do
  commit c.source_commit (name +++ ".source_commit")
  check_image c.image (name +++ ".image")

unfoldable pub validate_package_artifact : PackageArtifact → String → Checked
validate_package_artifact a name = do
  safe_relative a.path name
  alpha_digest a.sha256 (name +++ ".sha256")

unfoldable pub validate_client : ClientComponent → Checked
validate_client c = do
  commit c.source_commit "client.source_commit"
  validate_package_artifact c.apk "client.apk"
  validate_package_artifact c.test_apk "client.test_apk"

unfoldable pub validate_connector : ConnectorComponent → Checked
validate_connector c = do
  commit c.source_commit "connector.source_commit"
  validate_package_artifact c.binary "connector.binary"

-- `AlphaContract::validate`. Paths are compared by their components.
unfoldable pub validate_alpha : AlphaContract → Checked
validate_alpha c = do
  reject_if (c.schema != alpha_schema || not (nat_beq c.schema_version 3) || not c.fresh_only)
      (contract "only fresh-only dirextalk Internal Test Alpha schema 3 is accepted")
  validate_alpha_target c.target
  validate_image c.server "server"
  validate_client c.client
  validate_connector c.connector
  validate_image c.sidecar "sidecar"
  validate_source c.deployer "deployer"
  validate_package_artifact c.config "config"
  reject_if (components c.client.apk.path == components c.client.test_apk.path)
      (contract "client APK and test APK must be distinct")

unfoldable pub parsed_contract : Option AlphaContract → Result AlphaContract
parsed_contract none = err json
parsed_contract (some c) = ok c

-- `AlphaManifest::from_bytes`
unfoldable pub alpha_from_bytes : Crates → Str → Result AlphaManifest
alpha_from_bytes x content = do
  reject_if (is_empty content || ltb max_manifest_bytes (length content))
      (contract "manifest bytes are invalid")
  value ← x.parse_value content
  reject_if (x.canonical_bytes value != content) (contract "manifest must be canonical JSON")
  c ← parsed_contract (x.contract_of value)
  validate_alpha c
  ok (record { contract = c; digest = prefixed_digest x content })

-- `ComponentDigests::from_contract`
unfoldable pub component_digests_from_contract : AlphaContract → ComponentDigests
component_digests_from_contract c = record {
  server_image = c.server.image;
  client_apk = c.client.apk.sha256;
  client_test_apk = c.client.test_apk.sha256;
  connector_binary = c.connector.binary.sha256;
  sidecar_image = c.sidecar.image;
  config = c.config.sha256;
}

-- `fs::Metadata` of a path whose link is not followed.
pub record Metadata : Type 0 where
  pub is_symlink : Bool
  pub is_file : Bool
  pub len : ℕ

-- The file system's answers.
pub record FileView : Type 0 where
  pub canonicalize : Str → Result Str
  pub is_dir : Str → Bool
  pub symlink_metadata : Str → Result Metadata
  pub read : Str → Result Str

abbrev pub is_outside : ℕ → Metadata → Bool
is_outside bound m = m.is_symlink || not m.is_file || nat_beq m.len 0 || ltb bound m.len

-- `AlphaManifest::load`
unfoldable pub load_manifest : Crates → FileView → Str → Result AlphaManifest
load_manifest x fs path = do
  metadata ← fs.symlink_metadata path
  reject_if (is_outside max_manifest_bytes metadata) (unsafe_file path)
  content ← fs.read path
  alpha_from_bytes x content

-- `Path::join`
abbrev pub join : Str → Str → Str
join root path =
    if is_absolute path
    then path
    else (if ends_with root (bytes "/") then root ++ path else root ++ (bytes "/" ++ path))

-- `Path::starts_with`, on components
abbrev pub path_starts_with : List Component → List Component → Bool
path_starts_with path [] = true
path_starts_with [] (c ∷ prefix) = false
path_starts_with (d ∷ path) (c ∷ prefix) = (d ∷ []) == (c ∷ []) && path_starts_with path prefix

-- The checks on one artifact, up to its digest.
unfoldable pub verify_artifact : Crates → FileView → Str → PackageArtifact → Result Str
verify_artifact x fs root artifact = do
  canonical ← fs.canonicalize (join root artifact.path)
  reject_if (not (path_starts_with (components canonical) (components root)))
      (invalid_path (join root artifact.path))
  metadata ← fs.symlink_metadata canonical
  reject_if (is_outside max_artifact_bytes metadata) (missing_artifact canonical)
  content ← fs.read canonical
  reject_if (prefixed_digest x content != artifact.sha256) (source_mismatch canonical)
  ok (prefixed_digest x content)

-- The loop over the artifacts, with the material so far.
unfoldable pub verify_artifacts :
    Crates → FileView → Str → List (Str × PackageArtifact) → Str → Result Str
verify_artifacts x fs root [] material = ok material
verify_artifacts x fs root ((name, artifact) ∷ artifacts) material =
    verify_artifact x fs root artifact >>= λ actual.
    verify_artifacts x fs root artifacts (append_part (append_part material name) actual)

abbrev pub package_artifacts : AlphaContract → List (Str × PackageArtifact)
package_artifacts c =
    (bytes "client.apk", c.client.apk)
    ∷ (bytes "client.test_apk", c.client.test_apk)
    ∷ (bytes "connector.binary", c.connector.binary)
    ∷ (bytes "config", c.config)
    ∷ []

-- `AlphaManifest::verify_package`
unfoldable pub verify_package :
    Crates → FileView → AlphaManifest → Str → Result VerifiedAlphaPackage
verify_package x fs m package_root = do
  root ← fs.canonicalize package_root
  reject_if (not (fs.is_dir root)) (invalid_path package_root)
  material ← verify_artifacts x fs root (package_artifacts m.contract) (append_part [] m.digest)
  ok (record {
    manifest_digest = m.digest;
    package_digest = prefixed_digest x material;
    component_digests = component_digests_from_contract m.contract;
  })
