-- ===== src/Contract/Syntax.antt =====
-- src/deployment.rs: the syntactic validators of identifiers, digests and origins.
-- The parsers of versions and of IP addresses belong to other crates and are arguments.
use dirextalk_vnext_deployer.Prelude.{
  Bool, false, ◌&&◌, ◌||◌, not, ℕ, ◌-◌, [], ◌∷◌, some, none, leb, ltb, nat_beq, length, get_elem?,
  drop, is_empty, all, any, String, Str, bytes, is_ascii_digit, is_ascii_lowercase,
  is_ascii_alphanumeric, is_ascii_whitespace, is_ascii, is_lower_hex, starts_with, ends_with,
  contains_byte, split, ◌==◌, suc, str_eq,
}
use Prim.Native.String
use dirextalk_vnext_deployer.Errors.{Checked, reject_if, contract, ◌>>◌}

infixl 65 ◌+++◌
abbrev pub ◌+++◌ : String → String → String
s +++ t = String.◌++◌ s t

-- The functions of other crates that the syntax rests on: `semver::Version::parse` and
-- `str::parse::<IpAddr>`, as tests for success.
pub record Parsers : Type 0 where
  pub is_semver : Str → Bool
  pub is_ip_addr : Str → Bool

is_token_byte : ℕ → Bool
is_token_byte b = is_ascii_alphanumeric b || nat_beq b b'-' || nat_beq b b'_' || nat_beq b b'.'

unfoldable pub is_token : Str → Bool
unfolding is_token_byte
is_token s = not (is_empty s || ltb 128 (length s) || not (all is_token_byte s))

unfoldable pub token : Str → String → Checked
token s name = reject_if (not (is_token s)) (contract (name +++ " is invalid"))

unfoldable pub is_sha256 : Str → Bool
is_sha256 s = not (not (nat_beq (length s) 64) || not (all is_lower_hex s))

unfoldable pub sha256 : Str → String → Checked
sha256 s name = reject_if (not (is_sha256 s)) (contract (name +++ " must be a SHA-256 hex digest"))

is_hyphen_index : ℕ → Bool
is_hyphen_index i = nat_beq i 8 || nat_beq i 13 || nat_beq i 18 || nat_beq i 23

abbrev byte_is : Str → ℕ → ℕ → Bool
byte_is s i b = elim (get_elem? s i) [ none ↦ false | some c ↦ nat_beq c b ]

-- `b.iter().enumerate().any(…)` from index `i`
any_bad_from : ℕ → Str → Bool
any_bad_from i [] = false
any_bad_from i (b ∷ s) = not (is_hyphen_index i || is_lower_hex b) || any_bad_from (suc i) s

unfoldable pub is_uuid7 : Str → Bool
unfolding any_bad_from is_hyphen_index
is_uuid7 s = not (
    not (nat_beq (length s) 36)
    || any (λ i. not (byte_is s i b'-')) (8 ∷ 13 ∷ 18 ∷ 23 ∷ [])
    || not (byte_is s 14 b'7')
    || not (byte_is s 19 b'8' || byte_is s 19 b'9' || byte_is s 19 b'a' || byte_is s 19 b'b')
    || any_bad_from 0 s)

-- `require_canonical_uuid7`, which `uuid` calls
unfoldable pub uuid : Str → String → Checked
uuid s name =
    reject_if (not (is_uuid7 s)) (contract (name +++ " must be a canonical RFC4122 UUIDv7"))

is_identity_byte : ℕ → Bool
is_identity_byte b = is_ascii_lowercase b || (leb b'2' b && leb b b'7')

is_identity_id : Str → Bool
unfolding is_identity_byte
is_identity_id s = not (
    not (nat_beq (length s) 57)
    || not (starts_with s (bytes "dtxi1"))
    || not (all is_identity_byte (drop 5 s)))

unfoldable pub identity_id : Str → String → Checked
unfolding is_identity_id
identity_id s name =
    reject_if (not (is_identity_id s)) (contract (name +++ " must be a stable IdentityId"))

abbrev byte_passes : (ℕ → Bool) → Str → ℕ → Bool
byte_passes p s i = elim (get_elem? s i) [ none ↦ false | some c ↦ p c ]

is_origin_label_byte : ℕ → Bool
is_origin_label_byte b = is_ascii_lowercase b || is_ascii_digit b || nat_beq b b'-'

is_bad_origin_label : Str → Bool
unfolding is_origin_label_byte
is_bad_origin_label label =
    is_empty label
    || ltb 63 (length label)
    || not (byte_passes is_ascii_alphanumeric label 0)
    || not (byte_passes is_ascii_alphanumeric label (length label - 1))
    || not (all is_origin_label_byte label)

is_reserved_byte : ℕ → Bool
is_reserved_byte b = contains_byte b (bytes "/?#@:[]")

-- The second test of `https_origin`, on the text behind the scheme.
is_bad_host : Parsers → Str → Bool
unfolding is_reserved_byte
is_bad_host p host =
    is_empty host
    || any (λ b. not (is_ascii b) || is_ascii_whitespace b) host
    || any is_reserved_byte host
    || starts_with host (bytes ".")
    || ends_with host (bytes ".")
    || ends_with host (bytes ".localhost")
    || host == bytes "localhost"
    || p.is_ip_addr host

unfoldable pub https_origin : Parsers → Str → Checked
unfolding is_bad_host is_bad_origin_label split
https_origin p s = do
  let bad = contract "target.origin must be canonical HTTPS DNS origin"
  reject_if (not (starts_with s (bytes "https://")) || ltb 256 (length s)) bad
  reject_if (is_bad_host p (drop 8 s)) bad
  reject_if
      (ltb (length (split b'.' (drop 8 s))) 2 || any is_bad_origin_label (split b'.' (drop 8 s)))
      bad
