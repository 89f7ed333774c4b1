-- ===== src/Alpha/Package/Verified.antt =====
-- src/alpha_deployment.rs `verify_package`: what a verified package has been checked for.
use mathlib.Core.List.{append_assoc, append-nil}
use dirextalk_vnext_deployer.Prelude.{
  Bool, true, false, not, List, [], ◌∷◌, ◌++◌, Str, str_eq, ◌≡◌, refl, sym, ap, ◌∙◌, ◌!=◌,
  ne-eq-false, All, arith,
}
use dirextalk_vnext_deployer.Errors.{
  Checked, ok, reject_if, >>-eq-ok, >>=-eq-ok, reject_if-eq-ok, invalid_path, missing_artifact,
  source_mismatch,
}
use dirextalk_vnext_deployer.Alpha.{PackageArtifact, AlphaManifest, VerifiedAlphaPackage, Crates}
use dirextalk_vnext_deployer.Alpha.Syntax.{components, prefixed_digest, append_part}
use dirextalk_vnext_deployer.Alpha.Package.{
  FileView, Metadata, is_outside, max_artifact_bytes, join, path_starts_with, verify_artifact,
  verify_artifacts, verify_package, package_artifacts, component_digests_from_contract,
}
use dirextalk_vnext_deployer.Alpha.Package.Material.{material_of}

-- The artifact is a non-empty regular file of bounded size under the root, with the digest of the
-- manifest.
pub record Held (x : Crates) (fs : FileView) (root : Str) (a : PackageArtifact) : Type 0 where
  pub canonical : Str
  pub metadata : Metadata
  pub content : Str
  pub found : fs.canonicalize (join root a.path) ≡ ok canonical
  pub inside : path_starts_with (components canonical) (components root) ≡ true
  pub described : fs.symlink_metadata canonical ≡ ok metadata
  pub regular : is_outside max_artifact_bytes metadata ≡ false
  pub has_content : fs.read canonical ≡ ok content
  pub same_digest : prefixed_digest x content ≡ a.sha256

not-eq-false : (b : Bool) → not b ≡ false → b ≡ true
not-eq-false b h = ground arith

verify_artifact-Held :
    (x : Crates) (fs : FileView) (root : Str) (a : PackageArtifact) (actual : Str)
    → verify_artifact x fs root a ≡ ok actual
    → Held x fs root a × (actual ≡ a.sha256)
unfolding verify_artifact
verify_artifact-Held x fs root a actual h =
    let (canonical, found, h1) = >>=-eq-ok (fs.canonicalize (join root a.path)) _ h in
    let inside : Checked =
      reject_if (not (path_starts_with (components canonical) (components root)))
        (invalid_path (join root a.path)) in
    let (is_inside, h2) = >>-eq-ok inside _ h1 in
    let (metadata, described, h3) = >>=-eq-ok (fs.symlink_metadata canonical) _ h2 in
    let regular : Checked =
      reject_if (is_outside max_artifact_bytes metadata) (missing_artifact canonical) in
    let (is_regular, h4) = >>-eq-ok regular _ h3 in
    let (content, has_content, h5) = >>=-eq-ok (fs.read canonical) _ h4 in
    let matching : Checked =
      reject_if (prefixed_digest x content != a.sha256) (source_mismatch canonical) in
    let (matches, h6) = >>-eq-ok matching _ h5 in
    let same = ne-eq-false (prefixed_digest x content) a.sha256 (reject_if-eq-ok _ _ matches) in
    let result : prefixed_digest x content ≡ actual = cc in
    (
      record {
        canonical = canonical;
        metadata = metadata;
        content = content;
        found = found;
        inside = not-eq-false _ (reject_if-eq-ok _ _ is_inside);
        described = described;
        regular = reject_if-eq-ok _ _ is_regular;
        has_content = has_content;
        same_digest = same;
      },
      sym result ∙ same,
    )

-- The parts of the material: each artifact's name and digest.
abbrev pub artifact_parts : List (Str × PackageArtifact) → List Str
artifact_parts [] = []
artifact_parts ((name, a) ∷ artifacts) = name ∷ a.sha256 ∷ artifact_parts artifacts

append_part-append : (output part : Str) → append_part output part ≡ output ++ append_part [] part
unfolding append_part
append_part-append output part = refl

append_part-material_of :
    (material part : Str) (parts : List Str)
    → append_part material part ++ material_of parts ≡ material ++ material_of (part ∷ parts)
append_part-material_of material part parts =
    rw (append_part-append material part)
      (append_assoc material (append_part [] part) (material_of parts))

abbrev AllHeld : Crates → FileView → Str → List (Str × PackageArtifact) → Type 0
AllHeld x fs root artifacts = All (λ (n : Str × PackageArtifact). Held x fs root n.1) artifacts

verify_artifacts-AllHeld :
    (x : Crates) (fs : FileView) (root : Str) (artifacts : List (Str × PackageArtifact))
    (material out : Str)
    → verify_artifacts x fs root artifacts material ≡ ok out
    → AllHeld x fs root artifacts × (out ≡ material ++ material_of (artifact_parts artifacts))
unfolding verify_artifacts
verify_artifacts-AllHeld x fs root [] material out h = (tt, cc (append-nil material))
verify_artifacts-AllHeld x fs root ((name, a) ∷ artifacts) material out h =
    let (actual, first, rest) = >>=-eq-ok (verify_artifact x fs root a) _ h in
    let (held, same) = verify_artifact-Held x fs root a actual first in
    let later = artifact_parts artifacts in
    let named = append_part material name in
    let (all_held, whole) =
      verify_artifacts-AllHeld x fs root artifacts (append_part named actual) out rest in
    (
      (held, all_held),
      whole
          ∙ append_part-material_of named actual later
          ∙ append_part-material_of material name (actual ∷ later)
          ∙ ap (λ d. material ++ material_of (name ∷ d ∷ later)) same,
    )

-- What `verify_package` returns for a manifest and a package's root.
pub record Verified (x : Crates) (fs : FileView) (m : AlphaManifest) (package_root : Str)
    (v : VerifiedAlphaPackage) : Type 0 where
  pub root : Str
  pub is_root : fs.canonicalize package_root ≡ ok root
  pub is_directory : fs.is_dir root ≡ true
  pub held : AllHeld x fs root (package_artifacts m.contract)
  pub same_manifest : v.manifest_digest ≡ m.digest
  pub hashed :
      v.package_digest
      ≡ prefixed_digest x (material_of (m.digest ∷ artifact_parts (package_artifacts m.contract)))
  pub same_components : v.component_digests ≡ component_digests_from_contract m.contract

-- A package that is verified has a root whose canonical path is a directory, and has every artifact of
-- its manifest as a bounded regular file inside that directory with the digest that the manifest gives it, and its own digest is that of the manifest's
-- digest and of the artifacts' names and digests, in order.
pub verify_package-Verified :
    (x : Crates) (fs : FileView) (m : AlphaManifest) (root : Str) (v : VerifiedAlphaPackage)
    → verify_package x fs m root ≡ ok v
    → Verified x fs m root v
unfolding verify_package
verify_package-Verified x fs m root v h =
    let artifacts = package_artifacts m.contract in
    let (canonical, is_root, h1) = >>=-eq-ok (fs.canonicalize root) _ h in
    let is_directory : Checked = reject_if (not (fs.is_dir canonical)) (invalid_path root) in
    let (directory, h2) = >>-eq-ok is_directory _ h1 in
    let (material, verified, h3) =
      >>=-eq-ok (verify_artifacts x fs canonical artifacts (append_part [] m.digest)) _ h2 in
    let (all_held, whole) =
      verify_artifacts-AllHeld x fs canonical artifacts (append_part [] m.digest) material
        verified in
    let digest_is : v.package_digest ≡ prefixed_digest x material = cc in
    record {
      root = canonical;
      is_root = is_root;
      is_directory = not-eq-false _ (reject_if-eq-ok _ _ directory);
      held = all_held;
      same_manifest = cc;
      hashed = digest_is ∙ ap (λ s. prefixed_digest x s) whole;
      same_components = cc;
    }
