-- ===== src/Prelude/Order.antt =====
-- The order of byte strings, and insertion sorts that forget the order of their input.
use mathlib.Core.Path.{◌≡◌, refl, sym, ap}
use mathlib.Core.Logic.{inl, inr}
use mathlib.Core.Bool.{Bool, true, false}
use mathlib.Core.List.{List, [], ◌∷◌}
use native.Mathlib.Omega.{arith}
use dirextalk_vnext_deployer.Prelude.Tests.{Bool-cases, nat_beq, nat_beq_iff}
use dirextalk_vnext_deployer.Prelude.Lists.{insert_by}
use dirextalk_vnext_deployer.Prelude.Equality.{Str}
use dirextalk_vnext_deployer.Prelude.Text.{str_le}

pub str_le_total : (s t : Str) → str_le s t ≡ false → str_le t s ≡ true
str_le_total [] t h = cc
str_le_total (c ∷ s) [] h = refl
str_le_total (c ∷ s) (d ∷ t) h = ground (arith, nat_beq_iff c d, nat_beq_iff d c, str_le_total s t)

pub str_le_antisym : (s t : Str) → str_le s t ≡ true → str_le t s ≡ true → s ≡ t
str_le_antisym [] [] h k = refl
str_le_antisym [] (d ∷ t) h k = cc
str_le_antisym (c ∷ s) [] h k = cc
str_le_antisym (c ∷ s) (d ∷ t) h k = elim (Bool-cases (nat_beq c d)) [
  | inl same ↦
      let is : c ≡ d = (nat_beq_iff c d).0 same in
      let back : nat_beq d c ≡ true = (nat_beq_iff d c).1 (sym is) in
      let tails : s ≡ t = str_le_antisym s t (rw same at h) (rw back at k) in cc
  | inr differ ↦ ground (arith, nat_beq_iff c d, nat_beq_iff d c)
]

pub str_le_trans : (s t u : Str) → str_le s t ≡ true → str_le t u ≡ true → str_le s u ≡ true
str_le_trans [] t u h k = refl
str_le_trans (c ∷ s) [] u h k = cc
str_le_trans (c ∷ s) (d ∷ t) [] h k = cc
str_le_trans (c ∷ s) (d ∷ t) (e ∷ u) h k =
    ground (arith, nat_beq_iff c d, nat_beq_iff d e, nat_beq_iff c e, str_le_trans s t u)

-- What a sort needs of its comparison.
pub record IsOrder {ℓ} {A : Type ℓ} (le : A → A → Bool) : Type ℓ where
  pub total : (x y : A) → le x y ≡ false → le y x ≡ true
  pub trans : (x y z : A) → le x y ≡ true → le y z ≡ true → le x z ≡ true

pub insert_by-before {ℓ} :
    {A : Type ℓ} (le : A → A → Bool)
    → IsOrder le
    → (x y : A) (l : List A) → le x y ≡ true
    → le y x ≡ false
    → insert_by le x (insert_by le y l) ≡ insert_by le y (insert_by le x l)
insert_by-before le o x y [] h k = rw (h, k) refl
insert_by-before le o x y (z ∷ l) h k = elim (Bool-cases (le y z)) [
  | inl first ↦ rw (first, o.trans x y z h first, h, k) (rw first refl)
  | inr later ↦ elim (Bool-cases (le x z)) [
    | inl before ↦ rw (later, before, k) (rw later refl)
    | inr behind ↦ rw (later, behind) (rw later (ap (λ m. z ∷ m) (insert_by-before le o x y l h k)))
  ]
]
