-- ===== src/Prelude/Text.antt =====
-- The byte tests and string functions of the Rust standard library that the validators use.
use Prim.Native.Nat.{ℕ}
use Prim.Native.Char.{code}
use Prim.Native.String.{String}
use mathlib.Core.Bool.{Bool, true, false, ◌&&◌, ◌||◌}
use mathlib.Core.Option.{Option, none, some}
use mathlib.Core.List.{List, [], ◌∷◌, reverse}
use dirextalk_vnext_deployer.Prelude.Tests.{leb, nat_beq, if◌then◌else◌}
use dirextalk_vnext_deployer.Prelude.Lists.{length, any, drop}
use dirextalk_vnext_deployer.Prelude.Equality.{Str}

-- The bytes of an ASCII literal.
abbrev pub bytes : String → Str
bytes String.[] = []
bytes (String.◌∷◌ c s) = code c ∷ bytes s

abbrev pub is_ascii_digit : ℕ → Bool
is_ascii_digit b = leb b'0' b && leb b b'9'

abbrev pub is_ascii_lowercase : ℕ → Bool
is_ascii_lowercase b = leb b'a' b && leb b b'z'

abbrev pub is_ascii_uppercase : ℕ → Bool
is_ascii_uppercase b = leb b'A' b && leb b b'Z'

abbrev pub is_ascii_alphanumeric : ℕ → Bool
is_ascii_alphanumeric b = is_ascii_digit b || is_ascii_lowercase b || is_ascii_uppercase b

abbrev pub is_ascii_hexdigit : ℕ → Bool
is_ascii_hexdigit b = is_ascii_digit b || (leb b'a' b && leb b b'f') || (leb b'A' b && leb b b'F')

-- space, tab, line feed, form feed, carriage return
abbrev pub is_ascii_whitespace : ℕ → Bool
is_ascii_whitespace b = nat_beq b 32 || nat_beq b 9 || nat_beq b 10 || nat_beq b 12 || nat_beq b 13

abbrev pub is_ascii : ℕ → Bool
is_ascii b = leb b 127

-- `b.is_ascii_digit() || matches!(b, b'a'..=b'f')`
abbrev pub is_lower_hex : ℕ → Bool
is_lower_hex b = is_ascii_digit b || (leb b'a' b && leb b b'f')

abbrev pub starts_with : Str → Str → Bool
starts_with s [] = true
starts_with [] (p ∷ ps) = false
starts_with (c ∷ s) (p ∷ ps) = nat_beq c p && starts_with s ps

abbrev pub ends_with : Str → Str → Bool
ends_with s suffix = starts_with (reverse s) (reverse suffix)

abbrev pub strip_prefix : Str → Str → Option Str
strip_prefix s p = if starts_with s p then some (drop (length p) s) else none

abbrev pub strip_suffix : Str → Str → Option Str
strip_suffix s p = if ends_with s p then some (reverse (drop (length p) (reverse s))) else none

abbrev pub contains_byte : ℕ → Str → Bool
contains_byte b s = any (nat_beq b) s

-- `split`: the pieces between the separators, at least one. The current piece is kept reversed.
pub split_from : ℕ → Str → Str → List Str
split_from sep cur [] = reverse cur ∷ []
split_from sep cur (c ∷ s) =
    let closed = reverse cur ∷ split_from sep [] s in
    let longer = split_from sep (c ∷ cur) s in if nat_beq c sep then closed else longer

unfoldable pub split : ℕ → Str → List Str
unfolding split_from
split sep s = split_from sep [] s

-- The lexicographic order of byte strings.
abbrev pub str_le : Str → Str → Bool
str_le [] t = true
str_le (c ∷ s) [] = false
str_le (c ∷ s) (d ∷ t) = if nat_beq c d then str_le s t else leb c d
