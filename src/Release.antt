-- ===== src/Release.antt =====
-- src/manifest.rs: the release manifest, its validators and its validation.
pub mod Names
pub mod Targets
pub mod Selection
pub mod Platforms
pub mod Validated
pub mod Build
use dirextalk_vnext_deployer.Prelude.{
  ℕ, Bool, true, false, ◌&&◌, ◌||◌, not, List, [], ◌∷◌, ◌++◌, Option, none, some, Str, str_eq,
  bytes, nat_beq, ltb, is_empty, any, all, length, is_ascii_alphanumeric, is_ascii_uppercase,
  starts_with, contains_byte, ◌==◌, ◌!=◌, if◌then◌else◌,
}
use dirextalk_vnext_deployer.Errors
use dirextalk_vnext_deployer.Errors.{Checked, Result, ok, err, reject_if, ◌>>◌, ◌>>=◌, manifest}
use dirextalk_vnext_deployer.Contract.Syntax.{Parsers, ◌+++◌}
use dirextalk_vnext_deployer.Release.Names.{
  validate_relative_file, validate_relative_module, validate_binary_name, validate_token,
  contains_text, valid_platform, validate_image_repository, validate_npm_name,
  validate_github_repository, validate_optional_source_commit,
}

pub record ReleaseIdentity : Type 0 where
  pub version : Str
  pub source_date_epoch : ℕ

pub record ServerArtifact : Type 0 where
  pub repository : Str
  pub dockerfile : Str
  pub image : Str
  pub platforms : List Str
  pub source_commit : Option Str

pub record RustArtifact : Type 0 where
  pub repository : Str
  pub package_name : Str
  pub binary : Str
  pub source_commit : Option Str

pub record GoArtifact : Type 0 where
  pub repository : Str
  pub module_path : Str
  pub binary : Str
  pub source_commit : Option Str

pub data ArchiveKind : Type 0 where
  zip_archive tar_gz : ArchiveKind

pub record ReleaseTarget : Type 0 where
  pub id : Str
  pub rust_target : Str
  pub rust_toolchain : Option Str
  pub rust_native : Bool
  pub goos : Str
  pub goarch : Str
  pub node_platform : Str
  pub node_arch : Str
  pub archive : ArchiveKind

pub data NpmAccess : Type 0 where
  public_access restricted : NpmAccess

pub record NpmPackage : Type 0 where
  pub package_name : Str
  pub access : NpmAccess

pub record GitHubRelease : Type 0 where
  pub repository : Str
  pub tag_prefix : Str

pub record ReleaseManifest : Type 0 where
  pub schema_version : ℕ
  pub release : ReleaseIdentity
  pub server : ServerArtifact
  pub deployer : RustArtifact
  pub connector : GoArtifact
  pub targets : List ReleaseTarget
  pub npm : NpmPackage
  pub github : GitHubRelease

-- `expected_node_platform`, where the operating system is supported
abbrev pub node_platform_of : Str → Option Str
node_platform_of goos =
    if goos == bytes "windows"
    then some (bytes "win32")
    else (if goos == bytes "linux"
        then some (bytes "linux")
        else (if goos == bytes "darwin" then some (bytes "darwin") else none))

-- `expected_node_arch`
abbrev pub node_arch_of : Str → Option Str
node_arch_of goarch =
    if goarch == bytes "amd64"
    then some (bytes "x64")
    else (if goarch == bytes "arm64" then some (bytes "arm64") else none)

-- `expected_rust_architecture`; only the two architectures reach it.
abbrev pub rust_architecture_of : Str → Str
rust_architecture_of goarch = if goarch == bytes "amd64" then bytes "x86_64-" else bytes "aarch64-"

-- `rust_os_matches`; only the three operating systems reach it.
abbrev pub rust_os_matches : Str → Str → Bool
rust_os_matches goos rust_target =
    if goos == bytes "windows"
    then contains_text (bytes "windows") rust_target
    else (if goos == bytes "linux"
        then contains_text (bytes "linux") rust_target
        else contains_text (bytes "apple-darwin") rust_target)

unfoldable pub validate_toolchain : Option Str → Checked
validate_toolchain none = ok tt
validate_toolchain (some toolchain) = validate_token toolchain "target.rust_toolchain"

unfoldable pub check_node_platform : Option Str → Str → Checked
check_node_platform none node_platform = err (manifest "unsupported target goos")
check_node_platform (some expected) node_platform =
    reject_if (node_platform != expected) (manifest "target has inconsistent Go and Node platforms")

unfoldable pub check_node_arch : Option Str → Str → Checked
check_node_arch none node_arch = err (manifest "unsupported target goarch")
check_node_arch (some expected) node_arch =
    reject_if (node_arch != expected) (manifest "target has inconsistent Go and Node architectures")

-- The tests on the platforms of a target.
unfoldable pub check_platforms : ReleaseTarget → Checked
check_platforms t = do
  check_node_platform (node_platform_of t.goos) t.node_platform
  check_node_arch (node_arch_of t.goarch) t.node_arch
  reject_if
      (not (starts_with t.rust_target (rust_architecture_of t.goarch))
        || not (rust_os_matches t.goos t.rust_target))
      (manifest "target has inconsistent Rust and Go platforms")

unfoldable pub validate_target : ReleaseTarget → Checked
validate_target t = do
  validate_token t.id "target.id"
  validate_token t.rust_target "target.rust_target"
  validate_token t.goos "target.goos"
  validate_token t.goarch "target.goarch"
  validate_token t.node_platform "target.node_platform"
  validate_token t.node_arch "target.node_arch"
  validate_toolchain t.rust_toolchain
  reject_if (any is_ascii_uppercase t.id) (manifest "target.id must be lowercase")
  check_platforms t

-- The loop over the server's platforms, with those seen.
unfoldable pub check_server_platforms : List Str → List Str → Checked
check_server_platforms seen [] = ok tt
check_server_platforms seen (platform ∷ platforms) = do
  reject_if (not (valid_platform platform) || any (λ s. s == platform) seen)
      (manifest "invalid or duplicate server platform")
  check_server_platforms (platform ∷ seen) platforms

abbrev pub has_node_target : (Str × Str) → List (Str × Str) → Bool
has_node_target (platform, arch) seen = any (λ (s : Str × Str). s.0 == platform && s.1 == arch) seen

-- The loop over the targets, with the identifiers and Node platforms seen.
unfoldable pub check_release_targets : List Str → List (Str × Str) → List ReleaseTarget → Checked
check_release_targets ids nodes [] = ok tt
check_release_targets ids nodes (t ∷ targets) = do
  validate_target t
  reject_if (any (λ s. s == t.id) ids) (manifest "duplicate target id")
  reject_if (has_node_target (t.node_platform, t.node_arch) nodes)
      (manifest "duplicate npm platform mapping")
  check_release_targets (t.id ∷ ids) ((t.node_platform, t.node_arch) ∷ nodes) targets

abbrev is_tag_byte : ℕ → Bool
is_tag_byte b = is_ascii_alphanumeric b || nat_beq b b'-' || nat_beq b b'_'

-- `ReleaseManifest::validate`. The messages do not carry the offending text.
unfoldable pub validate_release : Parsers → ReleaseManifest → Checked
validate_release p m = do
  reject_if (not (nat_beq m.schema_version 1)) (manifest "schema_version must be exactly 1")
  reject_if (not (p.is_semver m.release.version)) (manifest "release.version must be SemVer")
  reject_if (nat_beq m.release.source_date_epoch 0)
      (manifest "release.source_date_epoch must be non-zero")
  validate_relative_file m.server.dockerfile "server.dockerfile"
  validate_image_repository m.server.image
  validate_optional_source_commit m.server.source_commit
  validate_optional_source_commit m.deployer.source_commit
  validate_optional_source_commit m.connector.source_commit
  reject_if (is_empty m.server.platforms) (manifest "server.platforms must not be empty")
  check_server_platforms [] m.server.platforms
  validate_token m.deployer.package_name "deployer.package"
  validate_binary_name m.deployer.binary "deployer.binary"
  validate_relative_module m.connector.module_path
  validate_binary_name m.connector.binary "connector.binary"
  reject_if (m.deployer.binary == m.connector.binary)
      (manifest "deployer.binary and connector.binary must be distinct")
  validate_npm_name m.npm.package_name
  validate_github_repository m.github.repository
  reject_if (ltb 8 (length m.github.tag_prefix) || not (all is_tag_byte m.github.tag_prefix))
      (manifest "github.tag_prefix is invalid")
  reject_if (is_empty m.targets) (manifest "targets must not be empty")
  check_release_targets [] [] m.targets
