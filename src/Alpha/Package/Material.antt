-- ===== src/Alpha/Package/Material.antt =====
-- src/alpha_deployment.rs `append_part`: the material that `verify_package` hashes can be read back.
use dirextalk_vnext_deployer.Prelude.{
  ℕ, zero, suc, ◌+◌, ◌*◌, ◌%◌, ◌/◌, ◌^◌, ◌<◌, List, [], ◌∷◌, ◌++◌, Str, ◌≡◌, ◌≢◌, refl, ap, sym,
  ◌∙◌, length, length-append, All, arith,
}
use mathlib.Core.List.{append_assoc}
use dirextalk_vnext_deployer.Alpha.Syntax.{be_bytes, append_part}

-- What is appended for a list of parts.
abbrev pub material_of : List Str → Str
material_of [] = []
material_of (part ∷ parts) = append_part [] part ++ material_of parts

abbrev pub FitsU64 : Str → Type 0
FitsU64 part = length part < 2 ^ 64

-- The number that big-endian bytes stand for, behind a first value.
abbrev from_be : ℕ → Str → ℕ
from_be acc [] = acc
from_be acc (b ∷ s) = from_be (acc * 256 + b) s

from_be-append : (acc : ℕ) (s t : Str) → from_be acc (s ++ t) ≡ from_be (from_be acc s) t
from_be-append acc [] t = refl
from_be-append acc (b ∷ s) t = from_be-append (acc * 256 + b) s t

from_be-be_bytes : (count n : ℕ) → n < 256 ^ count → from_be 0 (be_bytes count n) ≡ n
unfolding be_bytes
from_be-be_bytes zero n h = omega arith
from_be-be_bytes (suc count) n h =
    let small : n / 256 < 256 ^ count = omega arith in
    rw
      (
        from_be-append 0 (be_bytes count (n / 256)) (n % 256 ∷ []),
        from_be-be_bytes count (n / 256) small,
      )
      (omega arith)

be_bytes-length : (count n : ℕ) → length (be_bytes count n) ≡ count
unfolding be_bytes
be_bytes-length zero n = refl
be_bytes-length (suc count) n = omega (
  arith,
  length-append (be_bytes count (n / 256)) (n % 256 ∷ []),
  be_bytes-length count (n / 256),
)

-- Lists of one length split alike.
append-split : (s t u v : Str) → length s ≡ length t → s ++ u ≡ t ++ v → (s ≡ t) × (u ≡ v)
append-split [] [] u v h e = (refl, e)
append-split [] (b ∷ t) u v h e = ground arith
append-split (a ∷ s) [] u v h e = ground arith
append-split (a ∷ s) (b ∷ t) u v h e =
    let (front, back) = append-split s t u v (omega arith) (cc) in (cc, back)

part-split :
    (p q u v : Str)
    → FitsU64 p
    → FitsU64 q
    → append_part [] p ++ u ≡ append_part [] q ++ v
    → (p ≡ q) × (u ≡ v)
unfolding append_part
part-split p q u v fits_p fits_q e =
    let a = be_bytes 8 (length p % 2 ^ 64) in
    let b = be_bytes 8 (length q % 2 ^ 64) in
    let whole : a ++ (p ++ u) ≡ b ++ (q ++ v) = sym (append_assoc a p u) ∙ e ∙ append_assoc b q v in
    let same_size : length a ≡ length b =
      be_bytes-length 8 (length p % 2 ^ 64) ∙ sym (be_bytes-length 8 (length q % 2 ^ 64)) in
    let (prefixes, rest) = append-split a b (p ++ u) (q ++ v) same_size whole in
    let read_p : from_be 0 a ≡ length p % 2 ^ 64 =
      from_be-be_bytes 8 (length p % 2 ^ 64) (omega arith) in
    let read_q : from_be 0 b ≡ length q % 2 ^ 64 =
      from_be-be_bytes 8 (length q % 2 ^ 64) (omega arith) in
    let same_length : length p ≡ length q =
      omega (arith, fits_p, fits_q, sym read_p ∙ ap (λ s. from_be 0 s) prefixes ∙ read_q) in
    append-split p q u v same_length rest

nonempty : (p u : Str) → append_part [] p ++ u ≢ []
unfolding append_part be_bytes
nonempty p u e = cc

-- The parts whose material is a given text are determined by it, when their lengths fit in 64 bits:
-- no two different lists of parts are hashed as one text.
pub material_of-injective :
    (ps qs : List Str) → All FitsU64 ps → All FitsU64 qs → material_of ps ≡ material_of qs → ps ≡ qs
material_of-injective [] [] h k e = refl
material_of-injective [] (q ∷ qs) h k e = absurd (nonempty q (material_of qs) (sym e))
material_of-injective (p ∷ ps) [] h k e = absurd (nonempty p (material_of ps) e)
material_of-injective (p ∷ ps) (q ∷ qs) h k e =
    let (first, rest) = part-split p q (material_of ps) (material_of qs) h.0 k.0 e in
    let later = material_of-injective ps qs h.1 k.1 rest in cc
