-- ===== src/Prelude/Equality.antt =====
-- The derived `PartialEq` of the source: one operator for every type with decidable equality.
use Prim.Native.Nat.{ℕ}
use mathlib.Core.Path.{◌≡◌, refl}
use mathlib.Core.Logic.{◌↔◌, ◌≢◌}
use mathlib.Core.Bool.{Bool, true, false, not}
use mathlib.Core.Option.{Option}
use mathlib.Core.List.{List}
unfoldable pub use native.Mathlib.Decide.{ℕ_discrete}
use native.Mathlib.Omega.{arith}

pub record PartialEq {ℓ} (A : Type ℓ) : Type ℓ where
  pub same : A → A → Bool
  pub same_iff : (x y : A) → (same x y ≡ true) ↔ (x ≡ y)

infix 50 ◌==◌ ◌!=◌
abbrev pub ◌==◌ {ℓ} : {A : Type ℓ} ⦃e : PartialEq A⦄ → A → A → Bool
◌==◌ ⦃e⦄ x y = e.same x y

abbrev pub ◌!=◌ {ℓ} : {A : Type ℓ} ⦃e : PartialEq A⦄ → A → A → Bool
◌!=◌ ⦃e⦄ a b = not (e.same a b)

pub eq_iff {ℓ} : {A : Type ℓ} ⦃e : PartialEq A⦄ (a b : A) → ((a == b) ≡ true) ↔ (a ≡ b)
eq_iff ⦃e⦄ a b = e.same_iff a b

pub eq_self {ℓ} : {A : Type ℓ} ⦃e : PartialEq A⦄ (a : A) → (a == a) ≡ true
eq_self ⦃e⦄ a = (e.same_iff a a).1 refl

pub ne_self {ℓ} : {A : Type ℓ} ⦃e : PartialEq A⦄ (a : A) → (a != a) ≡ false
ne_self ⦃e⦄ a = rw (eq_self ⦃e = e⦄ a)

pub ne-eq-false {ℓ} : {A : Type ℓ} ⦃e : PartialEq A⦄ (a b : A) → (a != b) ≡ false → a ≡ b
ne-eq-false ⦃e⦄ a b h = (e.same_iff a b).0 (ground arith)

pub ne_of_eq {ℓ} : {A : Type ℓ} ⦃e : PartialEq A⦄ {a b : A} → a ≡ b → (a != b) ≡ false
ne_of_eq ⦃e⦄ {a} {b} h = rw ((e.same_iff a b).1 h)

pub eq-eq-false {ℓ} : {A : Type ℓ} ⦃e : PartialEq A⦄ (a b : A) → a ≢ b → (a == b) ≡ false
eq-eq-false ⦃e⦄ a b h = ground (arith, e.same_iff a b)

abbrev pub dec_bool {ℓ} : {A : Type ℓ} → Dec A → Bool
dec_bool (yes _) = true
dec_bool (no _) = false

pub dec_bool_iff {ℓ} : {A : Type ℓ} (d : Dec A) → (dec_bool d ≡ true) ↔ A
dec_bool_iff (yes p) = (λ _. p, λ _. refl)
dec_bool_iff (no q) = (λ e. cc, λ p. absurd (q p))

abbrev pub of_discrete {ℓ} : {A : Type ℓ} → Discrete A → PartialEq A
of_discrete d = record { same = λ x y. dec_bool (d x y); same_iff = λ x y. dec_bool_iff (d x y) }

instance abbrev pub nat_eq : PartialEq ℕ
nat_eq = of_discrete ℕ_discrete

-- Text is the list of its UTF-8 bytes, as `&str` is.
abbrev pub Str : Type 0
Str = List ℕ

unfoldable pub Str-discrete : Discrete Str
unfolding ℕ_discrete
Str-discrete = hlevel ℕ_discrete

instance abbrev pub str_eq : PartialEq Str
str_eq = of_discrete Str-discrete

unfoldable pub OptionStr-discrete : Discrete (Option Str)
unfolding ℕ_discrete
OptionStr-discrete = hlevel ℕ_discrete

instance abbrev pub option_str_eq : PartialEq (Option Str)
option_str_eq = of_discrete OptionStr-discrete
