-- ===== src/Plan/Order.antt =====
-- src/deployment.rs `DeploymentPlan::create`: the order of the manifest's lists does not matter.
use dirextalk_vnext_deployer.Prelude.{
  Bool, true, false, List, [], ◌∷◌, Str, str_eq, ◌≡◌, refl, sym, ap, ◌∙◌, ◌==◌, ◌⊎◌, eq_iff,
  Bool-cases, inl, inr, str_le, sort_by, insert_by, arith,
}
use dirextalk_vnext_deployer.Prelude.Order.{
  IsOrder, insert_by-before, str_le_total, str_le_antisym, str_le_trans,
}
use dirextalk_vnext_deployer.Contract.{NodeService, service_eq, HostTuple}
use dirextalk_vnext_deployer.Manifest.{
  ConnectorBinding, DeploymentManifest, DeploymentTarget, node_target, connector_target, target_id,
  by_rank,
}
use dirextalk_vnext_deployer.Manifest.Services.{rank-eq}
use dirextalk_vnext_deployer.Plan.Insertion.{insert_actions-swap, eq-flip}
use dirextalk_vnext_deployer.Plan.{
  Actions, by_binding_instance, insert_actions, target_steps, plan_actions, create_plan,
}

-- One list is the other with its elements in another order; only elements that are `Apart` pass one
-- another.
pub data Reordered {ℓ κ} {A : Type ℓ} (Apart : A → A → Type κ)
    : List A → List A → Type (ℓ ⊔ κ) where
  same_order : {xs : List A} → Reordered Apart xs xs
  behind : {x : A} {xs ys : List A} → Reordered Apart xs ys → Reordered Apart (x ∷ xs) (x ∷ ys)
  passed : {x y : A} {xs : List A} → Apart x y → Reordered Apart (x ∷ y ∷ xs) (y ∷ x ∷ xs)
  further :
      {xs ys zs : List A} → Reordered Apart xs ys → Reordered Apart ys zs → Reordered Apart xs zs

-- The two are the same, or the comparison puts one before the other.
abbrev OneWay {ℓ} : {A : Type ℓ} → (A → A → Bool) → A → A → Type ℓ
OneWay le x y =
    (x ≡ y) ⊎ ((le x y ≡ true) × (le y x ≡ false)) ⊎ ((le y x ≡ true) × (le x y ≡ false))

insert_by-swap {ℓ} :
    {A : Type ℓ} (le : A → A → Bool)
    → IsOrder le
    → (x y : A) (l : List A) → OneWay le x y
    → insert_by le x (insert_by le y l) ≡ insert_by le y (insert_by le x l)
insert_by-swap le o x y l (inl same) =
    ap (λ z. insert_by le z (insert_by le y l)) same
    ∙ ap (λ z. insert_by le y (insert_by le z l)) (sym same)
insert_by-swap le o x y l (inr (inl (h, k))) = insert_by-before le o x y l h k
insert_by-swap le o x y l (inr (inr (h, k))) = sym (insert_by-before le o y x l h k)

sort_by-Reordered {ℓ κ} :
    {A : Type ℓ} (le : A → A → Bool) (Apart : A → A → Type κ)
    → IsOrder le
    → ((x y : A) → Apart x y → OneWay le x y)
    → (xs ys : List A) → Reordered Apart xs ys
    → sort_by le xs ≡ sort_by le ys
sort_by-Reordered le Apart o one_way xs ys same_order = refl
sort_by-Reordered le Apart o one_way (x ∷ xs) (y ∷ ys) (behind r) =
    ap (λ l. insert_by le x l) (sort_by-Reordered le Apart o one_way xs ys r)
sort_by-Reordered le Apart o one_way (x ∷ y ∷ xs) (_ ∷ _ ∷ _) (passed apart) =
    insert_by-swap le o x y (sort_by le xs) (one_way x y apart)
sort_by-Reordered le Apart o one_way xs zs (further {ys} r s) =
    sort_by-Reordered le Apart o one_way xs ys r ∙ sort_by-Reordered le Apart o one_way ys zs s

one_way {ℓ} :
    {A : Type ℓ} (le : A → A → Bool) (x y : A)
    → (le x y ≡ false → le y x ≡ true)
    → (le x y ≡ true → le y x ≡ true → x ≡ y)
    → OneWay le x y
one_way le x y total antisym = elim (Bool-cases (le x y)) [
  | inl a ↦ elim (Bool-cases (le y x)) [ inl b ↦ inl (antisym a b) | inr b ↦ inr (inl (a, b)) ]
  | inr a ↦ inr (inr (total a, a))
]

by_rank-IsOrder : IsOrder by_rank
by_rank-IsOrder = record { total = λ x y h. ground arith; trans = λ x y z h k. ground arith }

by_rank-OneWay : (x y : NodeService) → OneWay by_rank x y
by_rank-OneWay x y =
    one_way by_rank x y (λ h. by_rank-IsOrder.total x y h) (λ h k. rank-eq x y (ground arith))

abbrev pub AnyOrder : NodeService → NodeService → Type 0
AnyOrder x y = Unit {0}

-- Connectors of different identifiers.
abbrev pub DifferentInstance : ConnectorBinding → ConnectorBinding → Type 0
DifferentInstance a b = (a.instance_id == b.instance_id) ≡ false

by_binding_instance-IsOrder : IsOrder by_binding_instance
by_binding_instance-IsOrder = record {
  total = λ x y h. str_le_total x.instance_id y.instance_id h;
  trans = λ x y z h k. str_le_trans x.instance_id y.instance_id z.instance_id h k;
}

by_binding_instance-OneWay :
    (x y : ConnectorBinding) → DifferentInstance x y → OneWay by_binding_instance x y
by_binding_instance-OneWay x y apart =
    let s = x.instance_id in
    let t = y.instance_id in
    elim (one_way str_le s t (λ h. str_le_total s t h) (λ h k. str_le_antisym s t h k)) [
      | inl same ↦ cc (apart, (eq_iff s t).1 same)
      | inr e ↦ inr e
    ]

-- The steps of a target do not depend on the order of its services or connectors.
target_steps-services :
    (id origin : Str) (services others : List NodeService) (host : HostTuple)
    → Reordered AnyOrder services others
    → target_steps (node_target id origin services host)
      ≡ target_steps (node_target id origin others host)
unfolding target_steps
target_steps-services id origin services others host r =
    rw
      (sort_by-Reordered by_rank AnyOrder by_rank-IsOrder (λ x y _. by_rank-OneWay x y) services
        others r)
      refl

target_steps-connectors :
    (id : Str) (host : HostTuple) (connectors others : List ConnectorBinding)
    → Reordered DifferentInstance connectors others
    → target_steps (connector_target id host connectors)
      ≡ target_steps (connector_target id host others)
unfolding target_steps
target_steps-connectors id host connectors others r =
    rw
      (sort_by-Reordered by_binding_instance DifferentInstance by_binding_instance-IsOrder
        by_binding_instance-OneWay connectors others r)
      refl

-- Two manifests' targets that differ in order only.
pub data SameTargets : List DeploymentTarget → List DeploymentTarget → Type 0 where
  same_targets : {ts : List DeploymentTarget} → SameTargets ts ts
  same_first :
      {t : DeploymentTarget} {ts us : List DeploymentTarget}
      → SameTargets ts us
      → SameTargets (t ∷ ts) (t ∷ us)
  services_reordered :
      {id origin : Str} {services others : List NodeService} {host : HostTuple}
      {ts : List DeploymentTarget}
      → Reordered AnyOrder services others
      → SameTargets
          (node_target id origin services host ∷ ts)
          (node_target id origin others host ∷ ts)
  connectors_reordered :
      {id : Str} {host : HostTuple} {connectors others : List ConnectorBinding}
      {ts : List DeploymentTarget}
      → Reordered DifferentInstance connectors others
      → SameTargets
          (connector_target id host connectors ∷ ts)
          (connector_target id host others ∷ ts)
  targets_swapped :
      {t u : DeploymentTarget} {ts : List DeploymentTarget}
      → (target_id t == target_id u) ≡ false
      → SameTargets (t ∷ u ∷ ts) (u ∷ t ∷ ts)
  same_then :
      {ts us vs : List DeploymentTarget} → SameTargets ts us → SameTargets us vs → SameTargets ts vs

plan_actions-same :
    (ts us : List DeploymentTarget) (m : Actions)
    → SameTargets ts us
    → plan_actions ts m ≡ plan_actions us m
unfolding plan_actions
plan_actions-same ts us m same_targets = refl
plan_actions-same (t ∷ ts) (_ ∷ us) m (same_first s) =
    plan_actions-same ts us (insert_actions (target_id t) (target_steps t) m) s
plan_actions-same (_ ∷ ts) (_ ∷ _) m
      (services_reordered {id} {origin} {services} {others} {host} r) =
    ap (λ steps. plan_actions ts (insert_actions id steps m))
      (target_steps-services id origin services others host r)
plan_actions-same (_ ∷ ts) (_ ∷ _) m (connectors_reordered {id} {host} {connectors} {others} r) =
    ap (λ steps. plan_actions ts (insert_actions id steps m))
      (target_steps-connectors id host connectors others r)
plan_actions-same (t ∷ u ∷ ts) (_ ∷ _ ∷ _) m (targets_swapped apart) =
    ap (λ actions. plan_actions ts actions)
      (insert_actions-swap (target_id u) (target_id t) (target_steps u) (target_steps t) m
        (eq-flip (target_id t) (target_id u) apart))
plan_actions-same ts vs m (same_then {us} r s) =
    plan_actions-same ts us m r ∙ plan_actions-same us vs m s

-- The plan of a manifest does not depend on the order in which the manifest lists its targets, a
-- node's services, or a host's connectors, where targets and connectors that change places have
-- different identifiers.
pub create_plan-SameTargets :
    (m : DeploymentManifest) (ts us : List DeploymentTarget)
    → SameTargets ts us
    → create_plan (record m { contract = record m.contract { targets = ts } })
      ≡ create_plan (record m { contract = record m.contract { targets = us } })
unfolding create_plan
create_plan-SameTargets m ts us s = rw (plan_actions-same ts us [] s) refl
