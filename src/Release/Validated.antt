-- ===== src/Release/Validated.antt =====
-- src/manifest.rs `ReleaseManifest::validate`: what holds of a release manifest that it accepts.
use dirextalk_vnext_deployer.Prelude.{
  Bool, true, false, ◌||◌, List, [], ◌∷◌, String, Str, str_eq, ◌≡◌, ◌≢◌, refl, ◌==◌, eq_self,
  or-eq-false, All, any, is_empty, arith,
}
use dirextalk_vnext_deployer.Errors.{Checked, ok, reject_if, manifest, >>-eq-ok, reject_if-eq-ok}
use dirextalk_vnext_deployer.Contract.Syntax.{Parsers, ◌+++◌}
use dirextalk_vnext_deployer.Alpha.Syntax.{components, is_absolute}
use dirextalk_vnext_deployer.Release.{
  ReleaseTarget, ReleaseManifest, validate_target, has_node_target, check_release_targets,
  check_server_platforms, validate_release,
}
use dirextalk_vnext_deployer.Release.Names.{
  leaves_root, validate_relative_file, validate_token, validate_image_repository,
  validate_optional_source_commit, validate_binary_name, validate_relative_module,
  validate_npm_name, validate_github_repository,
}
use dirextalk_vnext_deployer.Release.Targets.{npm_key}
use dirextalk_vnext_deployer.Release.Platforms.{
  Consistent, validate_target-Consistent, npm_key-platform,
}

-- Every target is consistent, and no two have the same npm key.
abbrev pub AllConsistent : List ReleaseTarget → Type 0
AllConsistent targets = All Consistent targets

abbrev pub DistinctKeys : List ReleaseTarget → Type 0
DistinctKeys [] = Unit {0}
DistinctKeys (t ∷ targets) =
    All (λ (u : ReleaseTarget). npm_key t ≢ npm_key u) targets × DistinctKeys targets

-- One round of the loop over the targets.
check_release_targets-round :
    (ids : List Str) (nodes : List (Str × Str)) (t : ReleaseTarget) (targets : List ReleaseTarget)
    → check_release_targets ids nodes (t ∷ targets) ≡ ok tt
    → Consistent t
      × (has_node_target (t.node_platform, t.node_arch) nodes ≡ false)
      × (check_release_targets (t.id ∷ ids) ((t.node_platform, t.node_arch) ∷ nodes) targets
          ≡ ok tt)
unfolding check_release_targets
check_release_targets-round ids nodes t targets h =
    let new_id : Checked = reject_if (any (λ s. s == t.id) ids) (manifest "duplicate target id") in
    let new_node : Checked =
      reject_if (has_node_target (t.node_platform, t.node_arch) nodes)
        (manifest "duplicate npm platform mapping") in
    let (valid, h1) = >>-eq-ok (validate_target t) _ h in
    let (_, h2) = >>-eq-ok new_id _ h1 in
    let (is_new, rest) = >>-eq-ok new_node _ h2 in
    (validate_target-Consistent t valid, reject_if-eq-ok _ _ is_new, rest)

or-right : (a b : Bool) → b ≡ true → (a || b) ≡ true
or-right a b h = ground arith

-- A Node platform that was seen is not that of a later target.
seen-apart :
    (ids : List Str) (nodes : List (Str × Str)) (t : ReleaseTarget) (targets : List ReleaseTarget)
    → Consistent t
    → has_node_target (t.node_platform, t.node_arch) nodes ≡ true
    → check_release_targets ids nodes targets ≡ ok tt
    → All (λ (u : ReleaseTarget). npm_key t ≢ npm_key u) targets
seen-apart ids nodes t [] c seen h = tt
seen-apart ids nodes t (u ∷ targets) c seen h =
    let (d, is_new, rest) = check_release_targets-round ids nodes u targets h in
    let apart : npm_key t ≢ npm_key u = λ (e : npm_key t ≡ npm_key u).
      let (p, a) = npm_key-platform t u c d e in cc (seen, is_new, p, a) in
    (
      apart,
      seen-apart (u.id ∷ ids) ((u.node_platform, u.node_arch) ∷ nodes) t targets c
          (or-right _ _ seen) rest,
    )

check_release_targets-DistinctKeys :
    (ids : List Str) (nodes : List (Str × Str)) (targets : List ReleaseTarget)
    → check_release_targets ids nodes targets ≡ ok tt
    → AllConsistent targets × DistinctKeys targets
check_release_targets-DistinctKeys ids nodes [] h = (tt, tt)
check_release_targets-DistinctKeys ids nodes (t ∷ targets) h =
    let (c, is_new, rest) = check_release_targets-round ids nodes t targets h in
    let later = (t.node_platform, t.node_arch) ∷ nodes in
    let (cs, ds) = check_release_targets-DistinctKeys (t.id ∷ ids) later targets rest in
    let seen : has_node_target (t.node_platform, t.node_arch) later ≡ true =
      rw (eq_self t.node_platform, eq_self t.node_arch) refl in
    ((c, cs), (seen-apart (t.id ∷ ids) later t targets c seen rest, ds))

-- What `validate` has checked.
pub record Validated (m : ReleaseManifest) : Type 0 where
  pub targets_consistent : AllConsistent m.targets
  pub distinct_keys : DistinctKeys m.targets
  pub dockerfile_inside : any leaves_root (components m.server.dockerfile) ≡ false
  pub distinct_binaries : (m.deployer.binary == m.connector.binary) ≡ false

validate_relative_file-inside :
    (path : Str) (field : String)
    → validate_relative_file path field ≡ ok tt
    → any leaves_root (components path) ≡ false
unfolding validate_relative_file
validate_relative_file-inside path field h =
    let ok_path =
      reject_if-eq-ok (is_empty path || is_absolute path || any leaves_root (components path))
        (manifest (field +++ " must be a safe relative path")) h in
    (or-eq-false (is_empty path || is_absolute path) (any leaves_root (components path)) ok_path).1

-- In an accepted release manifest the Go, Node and Rust names of every target's platform agree, no two
-- targets have the same npm key, the path of the server's Dockerfile does not leave its repository, and
-- the two binaries have different names.
pub validate_release-Validated :
    (p : Parsers) (m : ReleaseManifest) → validate_release p m ≡ ok tt → Validated m
unfolding validate_release
validate_release-Validated p m h =
    let (_, h1) = >>-eq-ok (reject_if _ (manifest "schema_version must be exactly 1")) _ h in
    let (_, h2) = >>-eq-ok (reject_if _ (manifest "release.version must be SemVer")) _ h1 in
    let (_, h3) =
      >>-eq-ok (reject_if _ (manifest "release.source_date_epoch must be non-zero")) _ h2 in
    let (dockerfile, h4) =
      >>-eq-ok (validate_relative_file m.server.dockerfile "server.dockerfile") _ h3 in
    let (_, h5) = >>-eq-ok (validate_image_repository m.server.image) _ h4 in
    let (_, h6) = >>-eq-ok (validate_optional_source_commit m.server.source_commit) _ h5 in
    let (_, h7) = >>-eq-ok (validate_optional_source_commit m.deployer.source_commit) _ h6 in
    let (_, h8) = >>-eq-ok (validate_optional_source_commit m.connector.source_commit) _ h7 in
    let (_, h9) = >>-eq-ok (reject_if _ (manifest "server.platforms must not be empty")) _ h8 in
    let (_, h10) = >>-eq-ok (check_server_platforms [] m.server.platforms) _ h9 in
    let (_, h11) = >>-eq-ok (validate_token m.deployer.package_name "deployer.package") _ h10 in
    let (_, h12) = >>-eq-ok (validate_binary_name m.deployer.binary "deployer.binary") _ h11 in
    let (_, h13) = >>-eq-ok (validate_relative_module m.connector.module_path) _ h12 in
    let (_, h14) = >>-eq-ok (validate_binary_name m.connector.binary "connector.binary") _ h13 in
    let binaries : Checked =
      reject_if (m.deployer.binary == m.connector.binary)
        (manifest "deployer.binary and connector.binary must be distinct") in
    let (distinct, h15) = >>-eq-ok binaries _ h14 in
    let (_, h16) = >>-eq-ok (validate_npm_name m.npm.package_name) _ h15 in
    let (_, h17) = >>-eq-ok (validate_github_repository m.github.repository) _ h16 in
    let (_, h18) = >>-eq-ok (reject_if _ (manifest "github.tag_prefix is invalid")) _ h17 in
    let (_, targets) = >>-eq-ok (reject_if _ (manifest "targets must not be empty")) _ h18 in
    let (cs, ds) = check_release_targets-DistinctKeys [] [] m.targets targets in
    record {
      targets_consistent = cs;
      distinct_keys = ds;
      dockerfile_inside =
          validate_relative_file-inside m.server.dockerfile "server.dockerfile" dockerfile;
      distinct_binaries = reject_if-eq-ok _ _ distinct;
    }
