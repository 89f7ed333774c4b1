-- ===== src/Plan/Insertion.antt =====
-- src/deployment.rs `DeploymentPlan::create`: what inserting into the map of actions does.
use dirextalk_vnext_deployer.Prelude.{
  true, false, List, [], ◌∷◌, Option, none, some, Str, str_eq, ◌≡◌, refl, sym, ap, ◌∙◌, ◌==◌,
  eq_iff, eq_self, eq-eq-false, Bool-cases, inl, inr, str_le, if◌then◌else◌,
}
use dirextalk_vnext_deployer.Prelude.Order.{str_le_total, str_le_antisym, str_le_trans}
use dirextalk_vnext_deployer.Plan.{PlannedDeploymentStep, Actions, insert_actions}

-- Insertions at different keys commute; here `a` is before `b`.
insert_actions-before :
    (a b : Str) (x y : List PlannedDeploymentStep) (m : Actions)
    → (a == b) ≡ false
    → (b == a) ≡ false
    → str_le a b ≡ true
    → str_le b a ≡ false
    → insert_actions a x (insert_actions b y m) ≡ insert_actions b y (insert_actions a x m)
insert_actions-before a b x y [] ab ba h k = rw (ab, ba, h, k) refl
insert_actions-before a b x y ((key, v) ∷ m) ab ba h k = elim (Bool-cases (b == key)) [
  | inl at ↦
      let is : b ≡ key = (eq_iff b key).0 at in
      let a_key : (a == key) ≡ false = ap (λ z. a == z) (sym is) ∙ ab in
      let a_le : str_le a key ≡ true = ap (λ z. str_le a z) (sym is) ∙ h in
      rw (at, a_key, a_le, ab, ba) (rw (h, k) (rw at refl))
  | inr off ↦ elim (Bool-cases (str_le b key)) [
    | inl before ↦
        let a_le : str_le a key ≡ true = str_le_trans a b key h before in
        let a_key : (a == key) ≡ false =
          eq-eq-false a key (λ (e : a ≡ key). cc (k, ap (λ z. str_le b z) e, before)) in
        rw (off, before, a_key, a_le, ab, ba) (rw (h, k) (rw (off, before) refl))
    | inr past ↦ elim (Bool-cases (a == key)) [
      | inl here ↦ rw (off, past, here, ba, k) refl
      | inr apart ↦ elim (Bool-cases (str_le a key)) [
        | inl first ↦ rw (off, past, apart, first, ba, k) (rw (off, past) refl)
        | inr last ↦
            rw (off, past, apart, last)
              (rw (off, past) (ap (λ l. (key, v) ∷ l) (insert_actions-before a b x y m ab ba h k)))
      ]
    ]
  ]
]

pub eq-flip : (a b : Str) → (a == b) ≡ false → (b == a) ≡ false
eq-flip a b h = eq-eq-false b a (λ (e : b ≡ a). cc (h, (eq_iff a b).1 (sym e)))

pub insert_actions-swap :
    (a b : Str) (x y : List PlannedDeploymentStep) (m : Actions)
    → (a == b) ≡ false
    → insert_actions a x (insert_actions b y m) ≡ insert_actions b y (insert_actions a x m)
insert_actions-swap a b x y m apart = elim (Bool-cases (str_le a b)) [
  | inl h ↦ elim (Bool-cases (str_le b a)) [
    | inl k ↦ cc (apart, (eq_iff a b).1 (str_le_antisym a b h k))
    | inr k ↦ insert_actions-before a b x y m apart (eq-flip a b apart) h k
  ]
  | inr h ↦ sym (insert_actions-before b a y x m (eq-flip a b apart) apart (str_le_total a b h) h)
]

-- Reading the map.
abbrev pub actions_at : Str → Actions → Option (List PlannedDeploymentStep)
actions_at id [] = none
actions_at id ((key, steps) ∷ m) = if key == id then some steps else actions_at id m

pub actions_at-insert_actions :
    (id : Str) (steps : List PlannedDeploymentStep) (m : Actions)
    → actions_at id (insert_actions id steps m) ≡ some steps
actions_at-insert_actions id steps [] = rw (eq_self id) refl
actions_at-insert_actions id steps ((key, v) ∷ m) = elim (Bool-cases (id == key)) [
  | inl at ↦ rw at (rw (eq_self id) refl)
  | inr off ↦ elim (Bool-cases (str_le id key)) [
    | inl before ↦ rw (off, before) (rw (eq_self id) refl)
    | inr past ↦ rw (off, past, eq-flip id key off) (actions_at-insert_actions id steps m)
  ]
]

pub actions_at-other :
    (id other : Str) (steps : List PlannedDeploymentStep) (m : Actions)
    → (other == id) ≡ false
    → actions_at id (insert_actions other steps m) ≡ actions_at id m
actions_at-other id other steps [] apart = rw apart refl
actions_at-other id other steps ((key, v) ∷ m) apart = elim (Bool-cases (other == key)) [
  | inl at ↦
      let is : key ≡ other = sym ((eq_iff other key).0 at) in
      let key_apart : (key == id) ≡ false = ap (λ z. z == id) is ∙ apart in
      rw (at, key_apart) (rw apart refl)
  | inr off ↦ elim (Bool-cases (str_le other key)) [
    | inl before ↦ rw (off, before) (rw apart refl)
    | inr past ↦ elim (Bool-cases (key == id)) [
      | inl found ↦ rw (off, past, found) refl
      | inr missing ↦ rw (off, past, missing) (actions_at-other id other steps m apart)
    ]
  ]
]
