-- ===== src/Release/Targets.antt =====
-- src/plan.rs `select_targets`, and src/manifest.rs `executable_suffix` and `npm_key`.
use dirextalk_vnext_deployer.Prelude.{
  Bool, List, [], ◌∷◌, ◌++◌, map, Option, none, some, Str, str_eq, bytes, is_empty, any, find, ◌==◌,
  if◌then◌else◌,
}
use dirextalk_vnext_deployer.Errors.{Result, ok, err, reject_if, ◌>>◌, ◌>>=◌, manifest}
use dirextalk_vnext_deployer.Release.{ReleaseTarget, ReleaseManifest}

-- `ReleaseTarget::executable_suffix`
abbrev pub executable_suffix : ReleaseTarget → Str
executable_suffix t = if t.goos == bytes "windows" then bytes ".exe" else []

-- `ReleaseTarget::npm_key`
abbrev pub npm_key : ReleaseTarget → Str
npm_key t = t.node_platform ++ (bytes "-" ++ t.node_arch)

abbrev pub target_ids : List ReleaseTarget → List Str
target_ids targets = map (λ (t : ReleaseTarget). t.id) targets

abbrev pub find_release : Str → List ReleaseTarget → Option ReleaseTarget
find_release id targets = find (λ (t : ReleaseTarget). t.id == id) targets

abbrev pub is_chosen : Str → List ReleaseTarget → Bool
is_chosen id chosen = any (λ (t : ReleaseTarget). t.id == id) chosen

unfoldable pub add_target : List ReleaseTarget → Option ReleaseTarget → Result (List ReleaseTarget)
add_target chosen none = err (manifest "unknown target id")
add_target chosen (some t) = do
  reject_if (is_chosen t.id chosen) (manifest "duplicate selected target")
  ok (chosen ++ (t ∷ []))

-- The loop over the selected identifiers, with the targets chosen so far.
unfoldable pub select_from :
    List ReleaseTarget → List ReleaseTarget → List Str → Result (List ReleaseTarget)
select_from targets chosen [] = ok chosen
select_from targets chosen (id ∷ selected) =
    add_target chosen (find_release id targets) >>= λ longer. select_from targets longer selected

unfoldable pub select_targets : ReleaseManifest → List Str → Result (List ReleaseTarget)
select_targets m selected =
    if is_empty selected then ok m.targets else select_from m.targets [] selected
