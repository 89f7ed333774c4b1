-- ===== src/Alpha/Syntax.antt =====
-- src/alpha_deployment.rs: the validators of paths, commits, images, digests and identifiers.
-- A path's components are those of Rust's `Path::components` on Unix.
use dirextalk_vnext_deployer.Prelude.{
  ℕ, ℕ_discrete, ◌%◌, ◌/◌, ◌^◌, Bool, true, false, ◌&&◌, ◌||◌, not, List, [], ◌∷◌, ◌++◌, Option,
  none, some, String, Str, str_eq, bytes, nat_beq, ltb, leb, length, drop, is_empty, all, any,
  split, starts_with, strip_prefix, is_ascii_hexdigit, is_ascii_uppercase, PartialEq, of_discrete,
  ◌==◌, ◌!=◌, if◌then◌else◌, suc, zero,
}
use dirextalk_vnext_deployer.Errors.{Checked, err, reject_if, contract, ◌>>◌}
use dirextalk_vnext_deployer.Contract.Syntax.{◌+++◌}
use dirextalk_vnext_deployer.Alpha.{Crates}

-- `Component`, with the prefix of other platforms left out.
pub data Component : Type 0 where
  root_dir cur_dir parent_dir : Component
  normal : (name : Str) → Component

unfoldable pub Components-discrete : Discrete (List Component)
unfolding ℕ_discrete
Components-discrete = hlevel ℕ_discrete

instance abbrev pub components_eq : PartialEq (List Component)
components_eq = of_discrete Components-discrete

abbrev pub is_absolute : Str → Bool
is_absolute path = starts_with path (bytes "/")

-- The pieces behind the first: a repeated separator and a `.` leave nothing.
later_components : List Str → List Component
later_components [] = []
later_components (piece ∷ pieces) =
    let rest = later_components pieces in
    if is_empty piece || piece == bytes "."
    then rest
    else (if piece == bytes ".." then parent_dir ∷ rest else normal piece ∷ rest)

relative_components : List Str → List Component
unfolding later_components
relative_components [] = []
relative_components (piece ∷ pieces) =
    if piece == bytes "."
    then cur_dir ∷ later_components pieces
    else later_components (piece ∷ pieces)

unfoldable pub components : Str → List Component
unfolding relative_components split later_components
components path =
    if is_absolute path
    then root_dir ∷ later_components (split b'/' path)
    else relative_components (split b'/' path)

-- The test on one component; its text is that of the manifest's JSON, so it is UTF-8.
is_unsafe_component : Component → Bool
is_unsafe_component (normal name) = is_empty name || ltb 255 (length name)
is_unsafe_component _ = true

unfoldable pub safe_relative : Str → String → Checked
unfolding is_unsafe_component components
safe_relative path name =
    reject_if (is_empty path || is_absolute path || any is_unsafe_component (components path))
      (contract (name +++ ".path must be safe-relative"))

abbrev is_lower_hexdigit : ℕ → Bool
is_lower_hexdigit b = is_ascii_hexdigit b && not (is_ascii_uppercase b)

unfoldable pub commit : Str → String → Checked
commit value name =
    reject_if (not (nat_beq (length value) 40) || not (all is_lower_hexdigit value))
      (contract (name +++ " must be a lowercase 40-hex commit"))

unfoldable pub digest_hex : Option Str → String → Checked
digest_hex none name = err (contract (name +++ " must use sha256"))
digest_hex (some hex) name =
    reject_if (not (nat_beq (length hex) 64) || not (all is_lower_hexdigit hex))
      (contract (name +++ " must be lowercase sha256"))

-- `digest`
unfoldable pub alpha_digest : Str → String → Checked
alpha_digest value name = digest_hex (strip_prefix value (bytes "sha256:")) name

-- The text before and behind the last occurrence of a pattern.
unfoldable pub rsplit_once : Str → Str → Option (Str × Str)
rsplit_once [] pattern = none
rsplit_once (c ∷ s) pattern = elim (rsplit_once s pattern) [
  | some (before, behind) ↦ some (c ∷ before, behind)
  | none ↦ if starts_with (c ∷ s) pattern then some ([], drop (length pattern) (c ∷ s)) else none
]

-- The UTF-8 forms of the characters with the White_Space property.
starts_with_space : Str → Bool
starts_with_space [] = false
starts_with_space (c ∷ s) =
    (leb 9 c && leb c 13)
    || nat_beq c 32
    || (nat_beq c 194 && (starts_with s (133 ∷ []) || starts_with s (160 ∷ [])))
    || (nat_beq c 225 && starts_with s (154 ∷ 128 ∷ []))
    || (nat_beq c 226
        && (any (λ last. starts_with s (128 ∷ last ∷ []))
              (128 ∷ 129 ∷ 130 ∷ 131 ∷ 132 ∷ 133 ∷ 134 ∷ 135 ∷ 136 ∷ 137 ∷ 138 ∷ 168 ∷ 169 ∷ 175
                ∷ [])
            || starts_with s (129 ∷ 159 ∷ [])))
    || (nat_beq c 227 && starts_with s (128 ∷ 128 ∷ []))

-- `contains(char::is_whitespace)`
unfoldable pub contains_whitespace : Str → Bool
unfolding starts_with_space
contains_whitespace [] = false
contains_whitespace (c ∷ s) = starts_with_space (c ∷ s) || contains_whitespace s

unfoldable pub image_parts : Option (Str × Str) → String → Checked
unfolding contains_whitespace
image_parts none name = err (contract (name +++ " must be an immutable image digest"))
image_parts (some (repository, digest_value)) name = do
  reject_if (is_empty repository || contains_whitespace repository)
      (contract (name +++ " has an invalid repository"))
  alpha_digest (bytes "sha256:" ++ digest_value) name

-- `image`
unfoldable pub check_image : Str → String → Checked
check_image value name = image_parts (rsplit_once value (bytes "@sha256:")) name

unfoldable pub positive : ℕ → String → Checked
positive value name =
    reject_if (nat_beq value 0 || ltb 9007199254740991 value)
      (contract (name +++ " is out of range"))

module _ (x : Crates) where
  unfoldable pub parsed_uuid : Option x.Uuid → Str → String → Checked
  parsed_uuid none value name = err (contract (name +++ " must be UUIDv7"))
  parsed_uuid (some u) value name =
      reject_if (not (nat_beq (x.version_num u) 7) || x.uuid_text u != value)
        (contract (name +++ " must be canonical UUIDv7"))

  unfoldable pub uuid_v7 : Str → String → Checked
  uuid_v7 value name = parsed_uuid (x.parse_uuid value) value name

  abbrev pub prefixed_digest : Str → Str
  prefixed_digest content = bytes "sha256:" ++ x.sha256_hex content

-- `(n as u64).to_be_bytes()`, the last `count` of them
unfoldable pub be_bytes : (count n : ℕ) → Str
be_bytes zero n = []
be_bytes (suc count) n = be_bytes count (n / 256) ++ (n % 256 ∷ [])

-- What `append_part` appends; a length is a `u64`.
unfoldable pub append_part : Str → Str → Str
append_part output content = output ++ (be_bytes 8 (length content % 2 ^ 64) ++ content)
