-- ===== src/Manifest/Planning.antt =====
-- src/deployment.rs: what `OperationRecord::planned` makes of a validated contract.
use mathlib.Core.Path.{subst}
use dirextalk_vnext_deployer.Prelude.{
  ℕ, Str, str_eq, Bool, true, false, ◌||◌, not, List, [], ◌∷◌, Option, some, ◌≡◌, refl, ◌∙◌, ◌==◌,
  eq_iff, ne_self, Bool-cases, inl, inr, nat_beq, is_empty, or-eq-false, sort_by,
}
use dirextalk_vnext_deployer.Errors.{
  ok, Checked, reject_if, contract, >>-eq-ok, >>=-eq-ok, reject_if-eq-ok,
}
use dirextalk_vnext_deployer.AgentBundle.{AgentBundle}
use dirextalk_vnext_deployer.Contract.{
  ImmutableArtifact, artifact_eq, HostTuple, NodeService, node, node_workload,
}
use dirextalk_vnext_deployer.Contract.Syntax.{Parsers, token, sha256, uuid, https_origin}
use dirextalk_vnext_deployer.Contract.Validation.{validate_artifact, validate_host}
use dirextalk_vnext_deployer.Contract.Named.{token-name, validate_artifact-name}
use dirextalk_vnext_deployer.Operation.{OperationPhase-discrete}
use dirextalk_vnext_deployer.Operation.Validity.{
  valid_record, valid_identity, valid_phase, valid_evidence, valid_workload, valid_predecessor,
  has_duplicate, contains_node,
}
use dirextalk_vnext_deployer.Operation.Steps.{IsValid}
use dirextalk_vnext_deployer.Manifest.{
  DeploymentManifest, DeploymentContract, DeploymentTarget, node_target, target_id, Seen, validate,
  check_targets, check_target, find_target, initial_record, plan, plan_target,
  binding_from_manifest, by_rank, member, nothing_seen,
}
use dirextalk_vnext_deployer.Manifest.Services.{sort_by-canonical}

-- What the loop over the targets has checked of the one that is found.
pub check_targets-find :
    (p : Parsers) (d : AgentBundle → Str) (version : ℕ) (target : Str)
    (targets : List DeploymentTarget) (t : DeploymentTarget) (s s' : Seen)
    → check_targets p d version targets s ≡ ok s'
    → find_target target targets ≡ some t
    → (token (target_id t) "target.id" ≡ ok tt)
      × (target_id t ≡ target)
      × (u : Seen) × (u' : Seen) × (check_target p d version t u ≡ ok u')
unfolding check_targets
check_targets-find p d version target [] t s s' h f = cc f
check_targets-find p d version target (a ∷ targets) t s s' h f =
    let fresh : Checked =
      reject_if (member (target_id a) s.target_ids) (contract "duplicate target id") in
    let (named, h1) = >>-eq-ok (token (target_id a) "target.id") _ h in
    let (_, h2) = >>-eq-ok fresh _ h1 in
    let u : Seen = record s { target_ids = target_id a ∷ s.target_ids } in
    let (u', checked, h3) =
      >>=-eq-ok (check_target p d version a u) (λ v. check_targets p d version targets v) h2 in
    elim (Bool-cases (target_id a == target)) [
      | inl found ↦
          let same : a ≡ t = cc (rw found at f) in
          subst
            (λ b.
              (token (target_id b) "target.id" ≡ ok tt)
              × (target_id b ≡ target)
              × (u : Seen) × (u' : Seen) × (check_target p d version b u ≡ ok u'))
            same (named, (eq_iff (target_id a) target).0 found, u, u', checked)
      | inr other ↦ check_targets-find p d version target targets t u' s' h3 (rw other at f)
    ]

-- What `validate` has checked of a node target.
record NodeChecked (p : Parsers) (origin : Str) (services : List NodeService) (host : HostTuple)
    : Type 0 where
  is_origin : https_origin p origin ≡ ok tt
  no_duplicate : has_duplicate services ≡ false
  has_node : contains_node services ≡ true
  is_host : validate_host host ≡ ok tt

not-eq-false : (b : Bool) → not b ≡ false → b ≡ true
not-eq-false true h = refl
not-eq-false false h = cc

check_target-NodeChecked :
    (p : Parsers) (d : AgentBundle → Str) (version : ℕ) (id origin : Str)
    (services : List NodeService) (host : HostTuple) (s s' : Seen)
    → check_target p d version (node_target id origin services host) s ≡ ok s'
    → NodeChecked p origin services host
unfolding check_target
check_target-NodeChecked p d version id origin services host s s' h =
    let fresh : Checked = reject_if (member origin s.origins) (contract "duplicate node origin") in
    let distinct : Checked =
      reject_if (is_empty services || has_duplicate services)
        (contract "node services must be non-empty and duplicate-free") in
    let with_node : Checked =
      reject_if (not (contains_node services)) (contract "node target must include node service") in
    let (origin_ok, h1) = >>-eq-ok (https_origin p origin) _ h in
    let (_, h2) = >>-eq-ok fresh _ h1 in
    let (distinct_ok, h3) = >>-eq-ok distinct _ h2 in
    let (node_ok, h4) = >>-eq-ok with_node _ h3 in
    record {
      is_origin = origin_ok;
      no_duplicate =
          (or-eq-false (is_empty services) (has_duplicate services)
            (reject_if-eq-ok _ _ distinct_ok)).1;
      has_node = not-eq-false (contains_node services) (reject_if-eq-ok _ _ node_ok);
      is_host = (>>-eq-ok (validate_host host) _ h4).0;
    }

pub validate-parts :
    (p : Parsers) (d : AgentBundle → Str) (m : DeploymentContract)
    → validate p d m ≡ ok tt
    → (validate_artifact p m.server "server" ≡ ok tt)
      × (s : Seen) × (check_targets p d m.schema_version m.targets nothing_seen ≡ ok s)
unfolding validate
validate-parts p d m h =
    let version : Checked =
      reject_if (not (nat_beq m.schema_version 1 || nat_beq m.schema_version 2))
        (contract "schema_version must be exactly 1 or 2") in
    let some_target : Checked =
      reject_if (is_empty m.targets) (contract "targets must not be empty") in
    let (_, h1) = >>-eq-ok version _ h in
    let (server, h2) = >>-eq-ok (validate_artifact p m.server "server") _ h1 in
    let (_, h3) = >>-eq-ok (validate_artifact p m.connector "connector") _ h2 in
    let (_, h4) = >>-eq-ok some_target _ h3 in
    let (s, loop, _) =
      >>=-eq-ok (check_targets p d m.schema_version m.targets nothing_seen) (λ _. ok tt) h4 in
    (server, s, loop)

is_empty-contains_node :
    (services : List NodeService) → contains_node services ≡ true → is_empty services ≡ false
is_empty-contains_node [] h = cc
is_empty-contains_node (a ∷ services) h = refl

valid_workload-node :
    (p : Parsers) (a : ImmutableArtifact) (origin : Str) (services : List NodeService)
    (host : HostTuple)
    → NodeChecked p origin services host
    → sha256 a.digest "server digest" ≡ ok tt
    → valid_workload p a (node_workload origin a.digest (sort_by by_rank services)) ≡ ok tt
unfolding valid_workload
valid_workload-node p a origin services host c digest =
    let sorted = sort_by by_rank services in
    let (ordered, distinct, same) = sort_by-canonical services c.no_duplicate in
    let there : contains_node sorted ≡ true = same node ∙ c.has_node in
    rw
      (
        c.is_origin,
        digest,
        ne_self a.digest,
        is_empty-contains_node sorted there,
        there,
        distinct,
        ordered,
      )
      refl

initial_record-IsValid :
    (p : Parsers) (m : DeploymentManifest) (target id : Str) (predecessor : Option Str)
    (name origin : Str) (services : List NodeService) (host : HostTuple)
    → NodeChecked p origin services host
    → validate_artifact p m.contract.server "server" ≡ ok tt
    → token name "target.id" ≡ ok tt
    → name ≡ target
    → uuid id "operation_id" ≡ ok tt
    → valid_predecessor predecessor id "predecessor_operation_id" "operation cannot succeed itself"
      ≡ ok tt
    → sha256 m.digest "manifest_digest" ≡ ok tt
    → IsValid p (initial_record m target id predecessor (node_target name origin services host))
unfolding valid_record valid_identity valid_phase valid_evidence initial_record
    binding_from_manifest OperationPhase-discrete
initial_record-IsValid p m target id predecessor name origin services host c server named same op
      pred digest =
    let a = m.contract.server in
    rw
      (
        op,
        digest,
        (validate_artifact-name p a "server" "operation artifact" server).0,
        ne_self a,
        pred,
        same,
        token-name target "target.id" "target" (rw same at named),
        ne_self target,
        c.is_host,
        (validate_artifact-name p a "server" "binding artifact" server).0,
        valid_workload-node p a origin services host c
            (validate_artifact-name p a "server" "server" server).1,
      )
      refl

-- From a validated contract whose node target is found by its name, with an operation identifier that
-- is a canonical UUIDv7, an absent predecessor or one that is another canonical UUIDv7, and a
-- hexadecimal manifest digest, `planned` gives the initial record of that target, and the record is
-- valid.
pub plan-initial_record :
    (p : Parsers) (d : AgentBundle → Str) (m : DeploymentManifest) (target id : Str)
    (predecessor : Option Str) (name origin : Str) (services : List NodeService) (host : HostTuple)
    → validate p d m.contract ≡ ok tt
    → find_target target m.contract.targets ≡ some (node_target name origin services host)
    → uuid id "operation_id" ≡ ok tt
    → valid_predecessor predecessor id "predecessor_operation_id" "operation cannot succeed itself"
      ≡ ok tt
    → sha256 m.digest "manifest_digest" ≡ ok tt
    → (plan p m target id predecessor
        ≡ ok (initial_record m target id predecessor (node_target name origin services host)))
      × IsValid p (initial_record m target id predecessor (node_target name origin services host))
unfolding plan plan_target
plan-initial_record p d m target id predecessor name origin services host valid found op pred
      digest =
    let t = node_target name origin services host in
    let (server, s, loop) = validate-parts p d m.contract valid in
    let (named, same, u, u', checked) =
      check_targets-find p d m.contract.schema_version target m.contract.targets t nothing_seen s
        loop found in
    let is_valid : IsValid p (initial_record m target id predecessor t) =
      initial_record-IsValid p m target id predecessor name origin services host
        (check_target-NodeChecked p d m.contract.schema_version name origin services host u u'
          checked)
        server named same op pred digest in
    (rw (op, pred, found, is_valid) refl, is_valid)
