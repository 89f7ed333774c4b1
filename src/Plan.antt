-- ===== src/Plan.antt =====
-- src/deployment.rs: `DeploymentPlan::create`, the steps that an offline plan lists for each target.
-- The list of actions that the source builds first is only read for a third kind of target, which
-- there is not.
pub mod Insertion
pub mod Order
pub mod Lookup
use dirextalk_vnext_deployer.Prelude.{
  Bool, true, false, List, [], ◌∷◌, ◌++◌, map, Option, none, some, Str, str_eq, ◌==◌, str_le,
  sort_by, if◌then◌else◌,
}
use dirextalk_vnext_deployer.Contract.{NodeService, AdapterKind}
use dirextalk_vnext_deployer.Manifest.{
  ConnectorBinding, DeploymentTarget, node_target, connector_target, target_id, DeploymentManifest,
  by_rank,
}

pub data DeploymentAction : Type 0 where
  inspect_host_binding claim_operation verify_artifact stage_artifact prepare_material write_config
        prepare_unit forward_migration converge_service readback verify_readiness write_receipt
        record_connector_claim rollback_fence restore_service :
      DeploymentAction

-- The cases `Target`, `Service` and `Connector`.
pub data PlanSubject : Type 0 where
  target_subject : (id : Str) → PlanSubject
  service_subject : (id : Str) (service : NodeService) → PlanSubject
  connector_subject : (id instance_id : Str) (adapter_kind : AdapterKind) → PlanSubject

pub record PlannedDeploymentStep : Type 0 where
  pub action : DeploymentAction
  pub subject : PlanSubject

abbrev pub step : PlanSubject → DeploymentAction → PlannedDeploymentStep
step subject action = record { action = action; subject = subject }

-- `for action in [..] { steps.push(..) }`
abbrev pub steps_of : PlanSubject → List DeploymentAction → List PlannedDeploymentStep
steps_of subject actions = map (λ action. step subject action) actions

abbrev pub service_actions : List DeploymentAction
service_actions =
    prepare_material ∷ write_config ∷ prepare_unit ∷ converge_service ∷ readback ∷ verify_readiness
    ∷ []

abbrev pub connector_actions : List DeploymentAction
connector_actions = record_connector_claim ∷ service_actions

abbrev pub first_actions : List DeploymentAction
first_actions = inspect_host_binding ∷ claim_operation ∷ verify_artifact ∷ stage_artifact ∷ []

-- The loop over the ordered services.
abbrev pub service_steps : Str → List NodeService → List PlannedDeploymentStep
service_steps id [] = []
service_steps id (s ∷ services) =
    steps_of (service_subject id s) service_actions ++ service_steps id services

-- The loop over the ordered connectors.
abbrev pub connector_steps : Str → List ConnectorBinding → List PlannedDeploymentStep
connector_steps id [] = []
connector_steps id (c ∷ connectors) =
    steps_of (connector_subject id c.instance_id c.adapter_kind) connector_actions
    ++ connector_steps id connectors

-- `a.instance_id.cmp(&b.instance_id)`, as "not greater"
abbrev pub by_binding_instance : ConnectorBinding → ConnectorBinding → Bool
by_binding_instance a b = str_le a.instance_id b.instance_id

unfoldable pub target_steps : DeploymentTarget → List PlannedDeploymentStep
target_steps (node_target id origin services host) =
    steps_of (target_subject id) (first_actions ++ (forward_migration ∷ []))
    ++ (service_steps id (sort_by by_rank services)
        ++ steps_of (target_subject id) (write_receipt ∷ []))
target_steps (connector_target id host connectors) =
    steps_of (target_subject id) first_actions
    ++ (connector_steps id (sort_by by_binding_instance connectors)
        ++ steps_of (target_subject id) (write_receipt ∷ []))

-- `BTreeMap`: the entries in the order of their keys.
abbrev pub Actions : Type 0
Actions = List (Str × List PlannedDeploymentStep)

-- `BTreeMap::insert`
abbrev pub insert_actions : Str → List PlannedDeploymentStep → Actions → Actions
insert_actions id steps [] = (id, steps) ∷ []
insert_actions id steps ((key, value) ∷ actions) =
    let later = insert_actions id steps actions in
    if id == key
    then (id, steps) ∷ actions
    else (if str_le id key then (id, steps) ∷ (key, value) ∷ actions else (key, value) ∷ later)

-- The loop over the targets.
unfoldable pub plan_actions : List DeploymentTarget → Actions → Actions
plan_actions [] actions = actions
plan_actions (t ∷ targets) actions =
    plan_actions targets (insert_actions (target_id t) (target_steps t) actions)

pub record DeploymentPlan : Type 0 where
  pub manifest_digest : Str
  pub offline : Bool
  pub actions : Actions

-- `DeploymentPlan::create`
unfoldable pub create_plan : DeploymentManifest → DeploymentPlan
create_plan m = record {
  manifest_digest = m.digest;
  offline = true;
  actions = plan_actions m.contract.targets [];
}
