-- ===== src/Release/Build/Local.antt =====
-- src/plan.rs `ReleasePlan::create`: the plan publishes nothing, and what it collects and records.
use dirextalk_vnext_deployer.Prelude.{
  ℕ, Bool, true, false, List, [], ◌∷◌, ◌++◌, map, Str, bytes, ◌≡◌, ◌≢◌, refl, ap, All,
  if◌then◌else◌,
}
use mathlib.Core.Path.{subst}
use dirextalk_vnext_deployer.Errors.{ok, >>=-eq-ok}
use dirextalk_vnext_deployer.Alpha.Package.{join}
use dirextalk_vnext_deployer.Prelude.{Option, none, some, str_eq, ◌⊎◌, inl, inr}
use dirextalk_vnext_deployer.Release.{ReleaseTarget}
use dirextalk_vnext_deployer.Release.Targets.{select_targets, target_ids}
use dirextalk_vnext_deployer.Release.Build.{
  with_toolchain, cargo_arguments, server_repository, comma_joined, image_tag,
}
use dirextalk_vnext_deployer.Release.Build.{
  LoadedManifest, SourceRevisions, local_build, local_artifact, remote_publish, PlannedCommand,
  ArtifactCollection, BuildReceiptPlan, ReleasePlan, resolve, server_build_command,
  rust_build_command, go_build_command, target_commands, target_collection, target_receipt,
  all_commands, plan_for, create_release_plan,
}

-- The options of `docker buildx build`: behind the two words, each flag with its value; the last
-- argument is the context.
pub docker_options : List Str → List (Str × Str)
docker_options (flag ∷ value ∷ arguments) = (flag, value) ∷ docker_options arguments
docker_options _ = []

-- The command is `docker buildx build` with these flags alone, of which the last writes the image to
-- a local archive; `--push` is none of them.
abbrev pub WritesArchive : PlannedCommand → Type 0
WritesArchive c =
    (options : List Str) × (before : List (Str × Str)) × (file : Str) × (c.program ≡ bytes "docker")
    × (c.arguments ≡ bytes "buildx" ∷ bytes "build" ∷ options)
    × (docker_options options ≡ before ++ ((bytes "--output", bytes "type=oci,dest=" ++ file) ∷ []))
    × (map (λ (o : Str × Str). o.0) before
        ≡ bytes "--file"
          ∷ bytes "--platform"
          ∷ bytes "--tag"
          ∷ bytes "--label"
          ∷ bytes "--label"
          ∷ [])

-- The command is `cargo build`, that under a toolchain of rustup, or `go build`.
abbrev pub IsCompilation : PlannedCommand → Type 0
IsCompilation c =
    (rest : List Str) × (((c.program ≡ bytes "cargo") × (c.arguments ≡ bytes "build" ∷ rest))
      ⊎ ((toolchain : Str) × (c.program ≡ bytes "rustup")
          × (c.arguments ≡ bytes "run" ∷ toolchain ∷ bytes "cargo" ∷ bytes "build" ∷ rest))
      ⊎ ((c.program ≡ bytes "go") × (c.arguments ≡ bytes "build" ∷ rest)))

-- The command is not marked as publishing, and it is a compilation or writes an archive.
abbrev pub IsLocal : PlannedCommand → Type 0
IsLocal c = (c.mutation ≢ remote_publish) × (IsCompilation c ⊎ WritesArchive c)

build_is_local : local_build ≢ remote_publish
build_is_local e = cc

All-append {ℓ κ} :
    {A : Type ℓ} (P : A → Type κ) (xs ys : List A) → All P xs → All P ys → All P (xs ++ ys)
All-append P [] ys a b = b
All-append P (x ∷ xs) ys a b = (a.0, All-append P xs ys a.1 b)

module _ (to_text : ℕ → Str) (l : LoadedManifest) (sources : SourceRevisions) where
  rust_build_command-IsCompilation :
      (t : ReleaseTarget) → IsCompilation (rust_build_command to_text l t sources)
  unfolding rust_build_command
  rust_build_command-IsCompilation t = of_toolchain t.rust_toolchain
    where
      of_toolchain :
          (toolchain : Option Str)
          → IsCompilation (record (rust_build_command to_text l t sources) {
            program = (with_toolchain to_text toolchain (cargo_arguments to_text l t)).0;
            arguments = (with_toolchain to_text toolchain (cargo_arguments to_text l t)).1;
          })
      of_toolchain none = (_, inl (refl, refl))
      of_toolchain (some toolchain) = (_, inr (inl (toolchain, refl, refl)))

  target_commands-IsLocal :
      (artifacts : Str) (t : ReleaseTarget)
      → All IsLocal (target_commands to_text l sources artifacts t)
  unfolding target_commands rust_build_command go_build_command
  target_commands-IsLocal artifacts t = (
    (build_is_local, inl (rust_build_command-IsCompilation t)),
    ((build_is_local, inl (_, inr (inr (refl, refl)))), tt),
  )

  all_commands-IsLocal :
      (artifacts : Str) (targets : List ReleaseTarget)
      → All IsLocal (all_commands to_text l sources artifacts targets)
  all_commands-IsLocal artifacts [] = tt
  all_commands-IsLocal artifacts (t ∷ targets) =
      All-append IsLocal (target_commands to_text l sources artifacts t)
        (all_commands to_text l sources artifacts targets) (target_commands-IsLocal artifacts t)
        (all_commands-IsLocal artifacts targets)

  server_commands-IsLocal :
      (output : Str) (include_server_image : Bool)
      → All IsLocal
          (if include_server_image then server_build_command l sources output false ∷ [] else [])
  unfolding server_build_command docker_options
  server_commands-IsLocal output true =
      ((λ (e : local_artifact ≡ remote_publish). cc e, inr archive), tt)
    where
      before : List (Str × Str)
      before =
          (bytes "--file", join (server_repository l) l.release_manifest.server.dockerfile)
          ∷ (bytes "--platform", comma_joined l.release_manifest.server.platforms)
          ∷ (bytes "--tag", image_tag l)
          ∷ (
            bytes "--label",
            bytes "org.opencontainers.image.version=" ++ l.release_manifest.release.version,
          )
          ∷ (bytes "--label", bytes "org.opencontainers.image.revision=" ++ sources.server)
          ∷ []

      archive : WritesArchive (server_build_command l sources output false)
      archive = (
        _,
        before,
        join output
            (bytes "dirextalk-vent-" ++ (l.release_manifest.release.version ++ bytes ".oci.tar")),
        refl,
        refl,
        refl,
        refl,
      )
  server_commands-IsLocal output false = tt

  receipts-collected :
      (artifacts : Str) (targets : List ReleaseTarget)
      → map
          (λ (c : ArtifactCollection). c.destination)
          (map (λ t. target_collection to_text l artifacts t) targets)
        ≡ map
            (λ (r : BuildReceiptPlan). r.deployer_path)
            (map (λ t. target_receipt to_text l artifacts t) targets)
  unfolding target_collection target_receipt
  receipts-collected artifacts [] = refl
  receipts-collected artifacts (t ∷ targets) =
      ap (λ z. (target_receipt to_text l artifacts t).deployer_path ∷ z)
        (receipts-collected artifacts targets)

  receipts-named :
      (artifacts : Str) (targets : List ReleaseTarget)
      → map
          (λ (r : BuildReceiptPlan). r.target)
          (map (λ t. target_receipt to_text l artifacts t) targets)
        ≡ target_ids targets
  unfolding target_receipt
  receipts-named artifacts [] = refl
  receipts-named artifacts (t ∷ targets) = ap (λ z. t.id ∷ z) (receipts-named artifacts targets)

  -- What a release plan does, for the targets that were selected.
  pub record LocalPlan (selected : List Str) (plan : ReleasePlan) : Type 0 where
    pub targets : List ReleaseTarget
    pub were_selected : select_targets l.release_manifest selected ≡ ok targets
    pub unpublished : All IsLocal plan.commands
    pub named : map (λ (r : BuildReceiptPlan). r.target) plan.receipts ≡ target_ids targets
    pub collected :
        map (λ (c : ArtifactCollection). c.destination) plan.collections
        ≡ map (λ (r : BuildReceiptPlan). r.deployer_path) plan.receipts

  -- A release plan has only compilations and the writing of the server's image to a local archive, and
  -- no command that is marked as publishing; it has one receipt for each selected target, in
  -- order, and the deployer that a receipt records is the file that is collected for its target.
  pub create_release_plan-LocalPlan :
      (artifacts output : Str) (selected : List Str) (include_server_image : Bool)
      (plan : ReleasePlan)
      → create_release_plan to_text l sources artifacts output selected include_server_image
        ≡ ok plan
      → LocalPlan selected plan
  unfolding create_release_plan plan_for
  create_release_plan-LocalPlan artifacts output selected include_server_image plan h =
      let dir = resolve l artifacts in
      let made = λ (targets : List ReleaseTarget).
        plan_for to_text l sources dir (resolve l output) include_server_image targets in
      let (targets, were_selected, h1) =
        >>=-eq-ok (select_targets l.release_manifest selected) (λ ts. ok (made ts)) h in
      let is : made targets ≡ plan = cc in
      subst (λ q. LocalPlan selected q) is
        (record {
          targets = targets;
          were_selected = were_selected;
          unpublished =
              All-append IsLocal
                (if include_server_image
                  then server_build_command l sources (join dir (bytes "server")) false ∷ []
                  else [])
                (all_commands to_text l sources dir targets)
                (server_commands-IsLocal (join dir (bytes "server")) include_server_image)
                (all_commands-IsLocal dir targets);
          named = receipts-named dir targets;
          collected = receipts-collected dir targets;
        })
