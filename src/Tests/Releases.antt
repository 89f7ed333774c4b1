-- ===== src/Tests/Releases.antt =====
-- The theorems on release manifests and plans, at a concrete manifest.
use dirextalk_vnext_deployer.Prelude.{
  ℕ, ℕ_discrete, Str-discrete, true, false, List, [], ◌∷◌, none, some, Str, bytes, refl, ◌≡◌, split,
}
use dirextalk_vnext_deployer.Errors.{ok}
use dirextalk_vnext_deployer.Alpha.Syntax.{components}
use dirextalk_vnext_deployer.Release.{
  ReleaseManifest, ReleaseTarget, zip_archive, tar_gz, public_access, validate_release,
  validate_target, validate_toolchain, check_node_platform, check_node_arch, check_platforms,
  check_server_platforms, check_release_targets,
}
use dirextalk_vnext_deployer.Release.Names.{
  validate_relative_file, validate_relative_module, validate_token, validate_binary_name,
  valid_platform, validate_image_repository, validate_npm_name, validate_github_repository,
  validate_optional_source_commit,
}
use dirextalk_vnext_deployer.Release.Targets.{select_targets, select_from, add_target}
use dirextalk_vnext_deployer.Release.Selection.{Selected, select_targets-Selected}
use dirextalk_vnext_deployer.Release.Validated.{Validated, validate_release-Validated}
use dirextalk_vnext_deployer.Release.Build.{
  LoadedManifest, SourceRevisions, ReleasePlan, plan_for, create_release_plan,
}
use dirextalk_vnext_deployer.Release.Build.Local.{LocalPlan, create_release_plan-LocalPlan}
use dirextalk_vnext_deployer.Tests.Codec.{parsers}

abbrev linux_target : ReleaseTarget
linux_target = record {
  id = bytes "linux-amd64";
  rust_target = bytes "x86_64-unknown-linux-gnu";
  rust_toolchain = none;
  rust_native = true;
  goos = bytes "linux";
  goarch = bytes "amd64";
  node_platform = bytes "linux";
  node_arch = bytes "x64";
  archive = tar_gz;
}

abbrev windows_target : ReleaseTarget
windows_target = record {
  id = bytes "windows-amd64";
  rust_target = bytes "x86_64-pc-windows-msvc";
  rust_toolchain = some (bytes "stable");
  rust_native = false;
  goos = bytes "windows";
  goarch = bytes "amd64";
  node_platform = bytes "win32";
  node_arch = bytes "x64";
  archive = zip_archive;
}

abbrev release_1 : ReleaseManifest
release_1 = record {
  schema_version = 1;
  release = record { version = bytes "1.2.3"; source_date_epoch = 1700000000 };
  server = record {
    repository = bytes "../server";
    dockerfile = bytes "deploy/Dockerfile";
    image = bytes "docker.io/dirextalk/vnet-server";
    platforms = bytes "linux/amd64" ∷ bytes "linux/arm64" ∷ [];
    source_commit = none;
  };
  deployer = record {
    repository = bytes ".";
    package_name = bytes "deployer";
    binary = bytes "dtx-deployer";
    source_commit = none;
  };
  connector = record {
    repository = bytes "../connector";
    module_path = bytes "./cmd/connector";
    binary = bytes "dtx-connector";
    source_commit = some (bytes "0123456789abcdef0123456789abcdef01234567");
  };
  targets = linux_target ∷ windows_target ∷ [];
  npm = record { package_name = bytes "@dirextalk/deployer"; access = public_access };
  github = record { repository = bytes "YingSuiAI/deployer"; tag_prefix = bytes "v" };
}

release_1-valid : validate_release parsers release_1 ≡ ok tt
unfolding validate_release validate_target validate_toolchain check_node_platform check_node_arch
    check_platforms check_server_platforms check_release_targets validate_relative_file
    validate_relative_module validate_token validate_binary_name valid_platform
    validate_image_repository validate_npm_name validate_github_repository
    validate_optional_source_commit components split Str-discrete ℕ_discrete
release_1-valid = refl

validate_release-Validated_example : Validated release_1
validate_release-Validated_example = validate_release-Validated parsers release_1 release_1-valid

windows_first : List ReleaseTarget
windows_first = windows_target ∷ linux_target ∷ []

selects :
    select_targets release_1 (bytes "windows-amd64" ∷ bytes "linux-amd64" ∷ []) ≡ ok windows_first
unfolding select_targets select_from add_target windows_first Str-discrete ℕ_discrete
selects = refl

select_targets-Selected_example :
    Selected release_1.targets (bytes "windows-amd64" ∷ bytes "linux-amd64" ∷ []) windows_first
select_targets-Selected_example =
    select_targets-Selected release_1 (bytes "windows-amd64") (bytes "linux-amd64" ∷ [])
      windows_first selects

abbrev loaded : LoadedManifest
loaded = record {
  release_manifest = release_1;
  manifest_path = bytes "/work/release.json";
  root = bytes "/work";
}

abbrev revisions : SourceRevisions
revisions = record { server = bytes "s"; deployer = bytes "d"; connector = bytes "c" }

abbrev to_text : ℕ → Str
to_text n = bytes "1700000000"

abbrev release_plan_1 : ReleasePlan
release_plan_1 =
    plan_for to_text loaded revisions (bytes "/work/out") (bytes "/work/release") true
      (linux_target ∷ [])

plans :
    create_release_plan to_text loaded revisions
      (bytes "out")
      (bytes "release")
      (bytes "linux-amd64" ∷ [])
      true
    ≡ ok release_plan_1
unfolding create_release_plan select_targets select_from add_target Str-discrete ℕ_discrete
plans = refl

create_release_plan-LocalPlan_example :
    LocalPlan to_text loaded revisions (bytes "linux-amd64" ∷ []) release_plan_1
create_release_plan-LocalPlan_example =
    create_release_plan-LocalPlan to_text loaded revisions (bytes "out") (bytes "release")
      (bytes "linux-amd64" ∷ []) true release_plan_1 plans
