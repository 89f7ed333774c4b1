-- ===== src/Tests/Plans.antt =====
-- The theorems on deployment plans, at a concrete manifest.
use dirextalk_vnext_deployer.Prelude.{
  ℕ_discrete, Str-discrete, Str, [], ◌∷◌, some, bytes, ◌≡◌, refl, split,
}
use dirextalk_vnext_deployer.Errors.{ok}
use dirextalk_vnext_deployer.AgentBundle.{AgentBundle}
use dirextalk_vnext_deployer.Contract.{node, realtime_gateway, NodeService-discrete}
use dirextalk_vnext_deployer.Contract.Syntax.{
  token, is_token, sha256, is_sha256, uuid, is_uuid7, identity_id, https_origin,
}
use dirextalk_vnext_deployer.Contract.Validation.{validate_artifact, validate_host}
use dirextalk_vnext_deployer.Manifest.{
  DeploymentTarget, node_target, connector_target, validate, check_targets, check_target, note_host,
}
use dirextalk_vnext_deployer.Plan.{create_plan, target_steps}
use dirextalk_vnext_deployer.Plan.Insertion.{actions_at}
use dirextalk_vnext_deployer.Plan.Order.{
  SameTargets, services_reordered, targets_swapped, same_then, passed, create_plan-SameTargets,
}
use dirextalk_vnext_deployer.Plan.Lookup.{create_plan-target_steps}
use dirextalk_vnext_deployer.Tests.Codec.{parsers}
use dirextalk_vnext_deployer.Tests.Records.{manifest, host}

bundle_digest : AgentBundle → Str
bundle_digest b = []

abbrev node_1 : DeploymentTarget
node_1 =
    node_target (bytes "node-1") (bytes "https://node.example.com") (realtime_gateway ∷ node ∷ [])
      host

abbrev same_node_1 : DeploymentTarget
same_node_1 =
    node_target (bytes "node-1") (bytes "https://node.example.com") (node ∷ realtime_gateway ∷ [])
      host

abbrev host_1 : DeploymentTarget
host_1 = connector_target (bytes "host-1") host []

manifest-valid : validate parsers bundle_digest manifest.contract ≡ ok tt
unfolding validate check_targets check_target note_host validate_artifact validate_host token
    is_token sha256 is_sha256 uuid is_uuid7 identity_id https_origin NodeService-discrete
    Str-discrete ℕ_discrete split
manifest-valid = refl

create_plan-target_steps_example :
    actions_at (bytes "node-1") (create_plan manifest).actions ≡ some (target_steps node_1)
unfolding Str-discrete ℕ_discrete
create_plan-target_steps_example =
    create_plan-target_steps parsers bundle_digest manifest (bytes "node-1") node_1 manifest-valid
      refl

reordered : SameTargets (node_1 ∷ host_1 ∷ []) (host_1 ∷ same_node_1 ∷ [])
unfolding Str-discrete ℕ_discrete
reordered = same_then (services_reordered (passed tt)) (targets_swapped refl)

create_plan-SameTargets_example :
    create_plan
      (record manifest { contract = record manifest.contract { targets = node_1 ∷ host_1 ∷ [] } })
    ≡ create_plan (record manifest {
      contract = record manifest.contract { targets = host_1 ∷ same_node_1 ∷ [] };
    })
create_plan-SameTargets_example =
    create_plan-SameTargets manifest (node_1 ∷ host_1 ∷ []) (host_1 ∷ same_node_1 ∷ []) reordered
