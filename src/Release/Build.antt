-- ===== src/Release/Build.antt =====
-- src/plan.rs: `ReleasePlan::create` and the commands that it plans. The revisions of the sources,
-- which git gives, are an argument.
pub mod Local
use dirextalk_vnext_deployer.Prelude.{
  ℕ, Bool, true, false, not, List, [], ◌∷◌, ◌++◌, map, Option, none, some, Str, str_eq, bytes, ◌==◌,
  ends_with, if◌then◌else◌,
}
use dirextalk_vnext_deployer.Errors.{Result, ok, ◌>>=◌}
use dirextalk_vnext_deployer.Alpha.Syntax.{is_absolute}
use dirextalk_vnext_deployer.Alpha.Package.{join}
use dirextalk_vnext_deployer.Release.{ReleaseManifest, ReleaseTarget}
use dirextalk_vnext_deployer.Release.Targets.{executable_suffix, select_targets}

pub record LoadedManifest : Type 0 where
  pub release_manifest : ReleaseManifest
  pub manifest_path : Str
  pub root : Str

-- `LoadedManifest::resolve`, which `absolute_from_manifest` calls
abbrev pub resolve : LoadedManifest → Str → Str
resolve l path = if is_absolute path then path else join l.root path

abbrev pub server_repository : LoadedManifest → Str
server_repository l = resolve l l.release_manifest.server.repository

abbrev pub deployer_repository : LoadedManifest → Str
deployer_repository l = resolve l l.release_manifest.deployer.repository

abbrev pub connector_repository : LoadedManifest → Str
connector_repository l = resolve l l.release_manifest.connector.repository

pub record SourceRevisions : Type 0 where
  pub server : Str
  pub deployer : Str
  pub connector : Str

pub record BuildHost : Type 0 where
  pub os : Str
  pub architecture : Str

pub data MutationKind : Type 0 where
  local_build local_artifact remote_publish : MutationKind

-- The environment is a sorted map of variables.
pub record PlannedCommand : Type 0 where
  pub id : Str
  pub program : Str
  pub arguments : List Str
  pub working_directory : Str
  pub environment : List (Str × Str)
  pub required_host : Option BuildHost
  pub mutation : MutationKind

pub record ArtifactCollection : Type 0 where
  pub source : Str
  pub destination : Str

pub record BuildReceiptPlan : Type 0 where
  pub target : Str
  pub path : Str
  pub deployer_name : Str
  pub deployer_path : Str
  pub connector_name : Str
  pub connector_path : Str

pub record ReleasePlan : Type 0 where
  pub schema_version : ℕ
  pub version : Str
  pub tag : Str
  pub image : Str
  pub artifacts_directory : Str
  pub release_directory : Str
  pub sources : SourceRevisions
  pub commands : List PlannedCommand
  pub collections : List ArtifactCollection
  pub receipts : List BuildReceiptPlan

-- `join(",")`
abbrev pub comma_joined : List Str → Str
comma_joined [] = []
comma_joined (s ∷ []) = s
comma_joined (s ∷ t ∷ texts) = s ++ (bytes "," ++ comma_joined (t ∷ texts))

abbrev pub image_tag : LoadedManifest → Str
image_tag l = l.release_manifest.server.image ++ (bytes ":" ++ l.release_manifest.release.version)

abbrev server_output : LoadedManifest → Str → Bool → List Str
server_output l output_dir true = bytes "--push" ∷ []
server_output l output_dir false =
    bytes "--output"
    ∷ (bytes "type=oci,dest="
        ++ join output_dir
            (bytes "dirextalk-vent-" ++ (l.release_manifest.release.version ++ bytes ".oci.tar")))
    ∷ []

unfoldable pub server_build_command : LoadedManifest → SourceRevisions → Str → Bool → PlannedCommand
server_build_command l sources output_dir push = record {
  id = if push then bytes "publish-server-image" else bytes "build-server-image";
  program = bytes "docker";
  arguments =
      (bytes "buildx"
        ∷ bytes "build"
        ∷ bytes "--file"
        ∷ join (server_repository l) l.release_manifest.server.dockerfile
        ∷ bytes "--platform"
        ∷ comma_joined l.release_manifest.server.platforms
        ∷ bytes "--tag"
        ∷ image_tag l
        ∷ bytes "--label"
        ∷ (bytes "org.opencontainers.image.version=" ++ l.release_manifest.release.version)
        ∷ bytes "--label"
        ∷ (bytes "org.opencontainers.image.revision=" ++ sources.server)
        ∷ [])
      ++ (server_output l output_dir push ++ (server_repository l ∷ []));
  working_directory = server_repository l;
  environment = [];
  required_host = none;
  mutation = if push then remote_publish else local_artifact;
}

-- The decimal digits of a number, which the standard library writes.
module _ (to_text : ℕ → Str) where
  abbrev pub cargo_arguments : LoadedManifest → ReleaseTarget → List Str
  cargo_arguments l t =
      (bytes "build"
        ∷ bytes "--locked"
        ∷ bytes "--release"
        ∷ bytes "--package"
        ∷ l.release_manifest.deployer.package_name
        ∷ [])
      ++ (if t.rust_native then [] else bytes "--target" ∷ t.rust_target ∷ [])

  -- The program, and its arguments.
  abbrev pub with_toolchain : Option Str → List Str → Str × List Str
  with_toolchain none arguments = (bytes "cargo", arguments)
  with_toolchain (some toolchain) arguments =
      (bytes "rustup", bytes "run" ∷ toolchain ∷ bytes "cargo" ∷ arguments)

  unfoldable pub rust_build_command :
      LoadedManifest → ReleaseTarget → SourceRevisions → PlannedCommand
  rust_build_command l t sources =
      let (program, arguments) = with_toolchain t.rust_toolchain (cargo_arguments l t) in
      record {
        id = bytes "build-deployer-" ++ t.id;
        program = program;
        arguments = arguments;
        working_directory = deployer_repository l;
        environment =
            (bytes "DTX_RELEASE_VERSION", l.release_manifest.release.version)
            ∷ (bytes "DTX_SOURCE_COMMIT", sources.deployer)
            ∷ (bytes "SOURCE_DATE_EPOCH", to_text l.release_manifest.release.source_date_epoch)
            ∷ [];
        required_host =
            if t.rust_native then some (record { os = t.goos; architecture = t.goarch }) else none;
        mutation = local_build;
      }

  abbrev linker_flags : LoadedManifest → SourceRevisions → Str
  linker_flags l sources =
      bytes "-s -w -X main.version="
      ++ (l.release_manifest.release.version
          ++ (bytes " -X main.commit="
              ++ (sources.connector
                  ++ (bytes " -X main.buildTime="
                      ++ to_text l.release_manifest.release.source_date_epoch))))

  unfoldable pub go_build_command :
      LoadedManifest → ReleaseTarget → SourceRevisions → Str → PlannedCommand
  go_build_command l t sources output = record {
    id = bytes "build-connector-" ++ t.id;
    program = bytes "go";
    arguments =
        bytes "build"
        ∷ bytes "-trimpath"
        ∷ bytes "-buildvcs=true"
        ∷ bytes "-ldflags"
        ∷ linker_flags l sources
        ∷ bytes "-o"
        ∷ output
        ∷ l.release_manifest.connector.module_path
        ∷ [];
    working_directory = connector_repository l;
    environment =
        (bytes "CGO_ENABLED", bytes "0") ∷ (bytes "GOARCH", t.goarch) ∷ (bytes "GOOS", t.goos) ∷ [];
    required_host = none;
    mutation = local_build;
  }

  abbrev pub deployer_name : LoadedManifest → ReleaseTarget → Str
  deployer_name l t = l.release_manifest.deployer.binary ++ executable_suffix t

  abbrev pub connector_name : LoadedManifest → ReleaseTarget → Str
  connector_name l t = l.release_manifest.connector.binary ++ executable_suffix t

  abbrev pub rust_release_directory : LoadedManifest → ReleaseTarget → Str
  rust_release_directory l t =
      let built = join (deployer_repository l) (bytes "target") in
      join (if t.rust_native then built else join built t.rust_target) (bytes "release")

  -- What the loop adds for one target.
  unfoldable pub target_commands :
      LoadedManifest → SourceRevisions → Str → ReleaseTarget → List PlannedCommand
  target_commands l sources artifacts t =
      rust_build_command l t sources
      ∷ go_build_command l t sources (join (join artifacts t.id) (connector_name l t))
      ∷ []

  unfoldable pub target_collection : LoadedManifest → Str → ReleaseTarget → ArtifactCollection
  target_collection l artifacts t = record {
    source = join (rust_release_directory l t) (deployer_name l t);
    destination = join (join artifacts t.id) (deployer_name l t);
  }

  unfoldable pub target_receipt : LoadedManifest → Str → ReleaseTarget → BuildReceiptPlan
  target_receipt l artifacts t = record {
    target = t.id;
    path = join (join artifacts t.id) (bytes "build-receipt.json");
    deployer_name = deployer_name l t;
    deployer_path = join (join artifacts t.id) (deployer_name l t);
    connector_name = connector_name l t;
    connector_path = join (join artifacts t.id) (connector_name l t);
  }

  abbrev pub all_commands :
      LoadedManifest → SourceRevisions → Str → List ReleaseTarget → List PlannedCommand
  all_commands l sources artifacts [] = []
  all_commands l sources artifacts (t ∷ targets) =
      target_commands l sources artifacts t ++ all_commands l sources artifacts targets

  -- The plan for the targets that were selected.
  unfoldable pub plan_for :
      LoadedManifest → SourceRevisions → Str → Str → Bool → List ReleaseTarget → ReleasePlan
  plan_for l sources artifacts output_dir include_server_image targets = record {
    schema_version = 1;
    version = l.release_manifest.release.version;
    tag = l.release_manifest.github.tag_prefix ++ l.release_manifest.release.version;
    image = image_tag l;
    artifacts_directory = artifacts;
    release_directory = output_dir;
    sources = sources;
    commands =
        (if include_server_image
          then server_build_command l sources (join artifacts (bytes "server")) false ∷ []
          else [])
        ++ all_commands l sources artifacts targets;
    collections = map (λ t. target_collection l artifacts t) targets;
    receipts = map (λ t. target_receipt l artifacts t) targets;
  }

  -- `ReleasePlan::create`, behind the resolution of the revisions.
  unfoldable pub create_release_plan :
      LoadedManifest → SourceRevisions → Str → Str → List Str → Bool → Result ReleasePlan
  create_release_plan l sources artifacts_dir output_dir selected include_server_image =
      select_targets l.release_manifest selected >>= λ targets. ok (
        plan_for l sources (resolve l artifacts_dir) (resolve l output_dir) include_server_image
          targets)
