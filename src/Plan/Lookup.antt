-- ===== src/Plan/Lookup.antt =====
-- src/deployment.rs: the plan of a validated manifest has the steps of each of its targets.
use dirextalk_vnext_deployer.Prelude.{
  ℕ, true, false, ◌||◌, List, [], ◌∷◌, some, Str, str_eq, ◌≡◌, refl, sym, ap, ◌∙◌, ◌==◌, eq_iff,
  Bool-cases, inl, inr, not, is_empty,
}
use mathlib.Core.Path.{subst}
use dirextalk_vnext_deployer.Errors.{
  Checked, ok, reject_if, contract, >>-eq-ok, >>=-eq-ok, reject_if-eq-ok,
}
use dirextalk_vnext_deployer.AgentBundle.{AgentBundle}
use dirextalk_vnext_deployer.Contract.{HostTuple}
use dirextalk_vnext_deployer.Contract.Syntax.{Parsers, token, https_origin}
use dirextalk_vnext_deployer.Contract.Validation.{validate_host}
use dirextalk_vnext_deployer.Operation.Validity.{has_duplicate, contains_node}
use dirextalk_vnext_deployer.Manifest.{
  ConnectorBinding, DeploymentManifest, DeploymentTarget, node_target, connector_target, target_id,
  Seen, HostIdentity, host_identity_eq, lookup_host, differs, note_host, check_bundle,
  validate_binding, check_connectors, check_target, check_targets, find_target, member,
  nothing_seen, validate,
}
use dirextalk_vnext_deployer.Manifest.Planning.{validate-parts}
use dirextalk_vnext_deployer.Plan.{Actions, insert_actions, target_steps, plan_actions, create_plan}
use dirextalk_vnext_deployer.Plan.Insertion.{
  actions_at, actions_at-insert_actions, actions_at-other,
}

-- The checks of one target leave the identifiers that were seen.
note_host-target_ids :
    (h : HostTuple) (s s' : Seen) → note_host h s ≡ ok s' → s'.target_ids ≡ s.target_ids
unfolding note_host
note_host-target_ids h s s' e =
    let identity : HostIdentity = record {
      tenant_id = h.tenant_id;
      owner_id = h.owner_id;
      host_credential_id = h.host_credential_id;
    } in
    let consistent : Checked =
      reject_if (differs (lookup_host h.host_id s.host_ids) identity)
        (contract "host id has inconsistent tuple") in
    let (_, e1) = >>-eq-ok consistent _ e in
    let is : record s { host_ids = (h.host_id, identity) ∷ s.host_ids } ≡ s' = cc in
    ap (λ (t : Seen). t.target_ids) (sym is)

check_connectors-target_ids :
    (p : Parsers) (d : AgentBundle → Str) (version : ℕ) (cs : List ConnectorBinding) (s s' : Seen)
    → check_connectors p d version cs s ≡ ok s'
    → s'.target_ids ≡ s.target_ids
unfolding check_connectors
check_connectors-target_ids p d version [] s s' e = cc
check_connectors-target_ids p d version (c ∷ cs) s s' e =
    let (_, e1) = >>-eq-ok (validate_binding c) _ e in
    let (_, e2) = >>-eq-ok (check_bundle p d version c c.agent_bundle) _ e1 in
    let fresh : Checked =
      reject_if (member c.instance_id s.connectors) (contract "duplicate connector instance") in
    let (_, e3) = >>-eq-ok fresh _ e2 in
    check_connectors-target_ids p d version cs
      (record s { connectors = c.instance_id ∷ s.connectors }) s' e3

check_target-target_ids :
    (p : Parsers) (d : AgentBundle → Str) (version : ℕ) (t : DeploymentTarget) (s s' : Seen)
    → check_target p d version t s ≡ ok s'
    → s'.target_ids ≡ s.target_ids
unfolding check_target
check_target-target_ids p d version (node_target id origin services host) s s' e =
    let fresh : Checked = reject_if (member origin s.origins) (contract "duplicate node origin") in
    let distinct : Checked =
      reject_if (is_empty services || has_duplicate services)
        (contract "node services must be non-empty and duplicate-free") in
    let with_node : Checked =
      reject_if (not (contains_node services)) (contract "node target must include node service") in
    let (_, e1) = >>-eq-ok (https_origin p origin) _ e in
    let (_, e2) = >>-eq-ok fresh _ e1 in
    let (_, e3) = >>-eq-ok distinct _ e2 in
    let (_, e4) = >>-eq-ok with_node _ e3 in
    let (_, e5) = >>-eq-ok (validate_host host) _ e4 in
    note_host-target_ids host (record s { origins = origin ∷ s.origins }) s' e5
check_target-target_ids p d version (connector_target id host connectors) s s' e =
    let bound : Checked =
      reject_if (is_empty connectors) (contract "connector host requires bindings") in
    let (_, e1) = >>-eq-ok (validate_host host) _ e in
    let (_, e2) = >>-eq-ok bound _ e1 in
    let (u, noted, e3) =
      >>=-eq-ok (note_host host s) (λ u. check_connectors p d version connectors u) e2 in
    check_connectors-target_ids p d version connectors u s' e3 ∙ note_host-target_ids host s u noted

-- One round of the loop over the targets.
record Round (p : Parsers) (d : AgentBundle → Str) (version : ℕ) (a : DeploymentTarget)
    (targets : List DeploymentTarget) (s s' : Seen) : Type 0 where
  after : Seen
  is_new : member (target_id a) s.target_ids ≡ false
  seen_ids : after.target_ids ≡ target_id a ∷ s.target_ids
  remaining : check_targets p d version targets after ≡ ok s'

check_targets-Round :
    (p : Parsers) (d : AgentBundle → Str) (version : ℕ) (a : DeploymentTarget)
    (targets : List DeploymentTarget) (s s' : Seen)
    → check_targets p d version (a ∷ targets) s ≡ ok s'
    → Round p d version a targets s s'
unfolding check_targets
check_targets-Round p d version a targets s s' h =
    let fresh : Checked =
      reject_if (member (target_id a) s.target_ids) (contract "duplicate target id") in
    let (_, h1) = >>-eq-ok (token (target_id a) "target.id") _ h in
    let (is_fresh, h2) = >>-eq-ok fresh _ h1 in
    let u : Seen = record s { target_ids = target_id a ∷ s.target_ids } in
    let (u', checked, h3) =
      >>=-eq-ok (check_target p d version a u) (λ v. check_targets p d version targets v) h2 in
    record {
      after = u';
      is_new = reject_if-eq-ok _ _ is_fresh;
      seen_ids = check_target-target_ids p d version a u u' checked;
      remaining = h3;
    }

member-apart :
    (id other : Str) (ids : List Str)
    → member id ids ≡ true
    → member other ids ≡ false
    → (other == id) ≡ false
member-apart id other ids h k = elim (Bool-cases (other == id)) [
  | inl same ↦
      let is : other ≡ id = (eq_iff other id).0 same in cc (h, k, ap (λ z. member z ids) is)
  | inr apart ↦ apart
]

-- An identifier that was seen is not that of a later target.
plan_actions-seen :
    (p : Parsers) (d : AgentBundle → Str) (version : ℕ) (id : Str) (targets : List DeploymentTarget)
    (s s' : Seen) (m : Actions)
    → check_targets p d version targets s ≡ ok s'
    → member id s.target_ids ≡ true
    → actions_at id (plan_actions targets m) ≡ actions_at id m
unfolding plan_actions
plan_actions-seen p d version id [] s s' m h seen = refl
plan_actions-seen p d version id (a ∷ targets) s s' m h seen =
    let r = check_targets-Round p d version a targets s s' h in
    let apart = member-apart id (target_id a) s.target_ids seen r.is_new in
    let still : member id r.after.target_ids ≡ true =
      ap (λ ids. member id ids) r.seen_ids ∙ rw apart seen in
    plan_actions-seen p d version id targets r.after s'
      (insert_actions (target_id a) (target_steps a) m) r.remaining still
    ∙ actions_at-other id (target_id a) (target_steps a) m apart

plan_actions-found :
    (p : Parsers) (d : AgentBundle → Str) (version : ℕ) (id : Str) (targets : List DeploymentTarget)
    (t : DeploymentTarget) (s s' : Seen) (m : Actions)
    → check_targets p d version targets s ≡ ok s'
    → find_target id targets ≡ some t
    → actions_at id (plan_actions targets m) ≡ some (target_steps t)
unfolding plan_actions
plan_actions-found p d version id [] t s s' m h f = cc
plan_actions-found p d version id (a ∷ targets) t s s' m h f =
    let r = check_targets-Round p d version a targets s s' h in
    let m' = insert_actions (target_id a) (target_steps a) m in
    elim (Bool-cases (target_id a == id)) [
      | inl found ↦
          let named : target_id a ≡ id = (eq_iff (target_id a) id).0 found in
          let is : a ≡ t = cc (rw found at f) in
          let seen : member id r.after.target_ids ≡ true =
            ap (λ ids. member id ids) r.seen_ids ∙ rw found refl in
          let stored : actions_at id m' ≡ some (target_steps a) =
            subst (λ z. actions_at z m' ≡ some (target_steps a)) named
              (actions_at-insert_actions (target_id a) (target_steps a) m) in
          plan_actions-seen p d version id targets r.after s' m' r.remaining seen
          ∙ stored
          ∙ ap (λ z. some (target_steps z)) is
      | inr other ↦
          plan_actions-found p d version id targets t r.after s' m' r.remaining (rw other at f)
    ]

-- In the plan of a validated manifest, the entry of a target's identifier is that target's steps.
pub create_plan-target_steps :
    (p : Parsers) (d : AgentBundle → Str) (m : DeploymentManifest) (id : Str) (t : DeploymentTarget)
    → validate p d m.contract ≡ ok tt
    → find_target id m.contract.targets ≡ some t
    → actions_at id (create_plan m).actions ≡ some (target_steps t)
unfolding create_plan
create_plan-target_steps p d m id t valid found =
    let (_, s, loop) = validate-parts p d m.contract valid in
    plan_actions-found p d m.contract.schema_version id m.contract.targets t nothing_seen s [] loop
      found
