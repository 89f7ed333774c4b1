-- ===== src/Ec2/Syntax.antt =====
-- src/aws_ec2.rs and src/aws_ec2/bundle.rs: the validators of digests, images, names, domains,
-- regions and addresses.
use dirextalk_vnext_deployer.Prelude.{
  ℕ, Bool, false, ◌&&◌, ◌||◌, not, List, [], ◌∷◌, Option, none, some, String, Str, str_eq, bytes,
  nat_beq, ltb, is_empty, any, all, length, drop, map, is_ascii_alphanumeric, is_ascii_lowercase,
  is_ascii_uppercase, is_ascii_digit, is_lower_hex, starts_with, ends_with, strip_suffix,
  contains_byte, split, ◌!=◌, if◌then◌else◌, ◌+◌, ◌++◌,
}
use dirextalk_vnext_deployer.Errors.{Checked, err, reject_if, ◌>>◌, contract}
use dirextalk_vnext_deployer.Contract.Syntax.{◌+++◌}
use dirextalk_vnext_deployer.Alpha.Syntax.{contains_whitespace}
use dirextalk_vnext_deployer.Release.Names.{split_once}

-- The functions of other crates: `semver::Version::parse` and `str::parse::<Ipv4Addr>`, as tests
-- for success.
pub record Ec2Parsers : Type 0 where
  pub is_semver : Str → Bool
  pub is_ipv4_addr : Str → Bool

unfoldable pub is_digest_text : Str → Bool
is_digest_text value = not (not (nat_beq (length value) 64) || not (all is_lower_hex value))

-- `bundle::digest`
unfoldable pub ec2_digest : Str → String → Checked
unfolding is_digest_text
ec2_digest value name =
    reject_if (not (is_digest_text value)) (contract (name +++ " must be canonical SHA-256"))

-- `split_once` at a text.
unfoldable pub split_once_text : Str → Str → Option (Str × Str)
split_once_text sep [] = none
split_once_text sep (c ∷ s) =
    if starts_with (c ∷ s) sep
    then some ([], drop (length sep) (c ∷ s))
    else elim (split_once_text sep s) [
      | none ↦ none
      | some (before, behind) ↦ some (c ∷ before, behind)
    ]

unfoldable pub bundle_image_parts : Option (Str × Str) → String → Checked
unfolding contains_whitespace
bundle_image_parts none name = err (contract (name +++ " must be repository@sha256"))
bundle_image_parts (some (repository, sha)) name = do
  reject_if (is_empty repository || contains_whitespace repository || contains_byte b':' repository)
      (contract (name +++ " repository is invalid"))
  ec2_digest sha name

-- `bundle::image`
unfoldable pub bundle_image : Str → String → Checked
unfolding split_once_text
bundle_image value name = bundle_image_parts (split_once_text (bytes "@sha256:") value) name

-- `bundle::commit`
unfoldable pub bundle_commit : Str → Checked
bundle_commit value =
    reject_if
      (not (nat_beq (length value) 40 || nat_beq (length value) 64) || not (all is_lower_hex value))
      (contract "source_commit must be canonical lowercase hex")

unfoldable pub exact_image : Str → Str → String → Checked
exact_image value repository name = do
  bundle_image value name
  reject_if (not (starts_with value (repository ++ bytes "@sha256:")))
      (contract (name +++ " repository is not allowed"))

is_ec2_token_byte : ℕ → Bool
is_ec2_token_byte b = is_ascii_alphanumeric b || contains_byte b (bytes "-_.")

unfoldable pub ec2_token : Str → String → Checked
unfolding is_ec2_token_byte
ec2_token value name =
    reject_if (is_empty value || ltb 128 (length value) || not (all is_ec2_token_byte value))
      (contract (name +++ " is invalid"))

abbrev to_ascii_lowercase : Str → Str
to_ascii_lowercase s = map (λ (b : ℕ). if is_ascii_uppercase b then b + 32 else b) s

is_label_byte : ℕ → Bool
is_label_byte b = is_ascii_alphanumeric b || nat_beq b b'-'

is_bad_label : Str → Bool
unfolding is_label_byte
is_bad_label label =
    is_empty label
    || ltb 63 (length label)
    || starts_with label (bytes "-")
    || ends_with label (bytes "-")
    || not (all is_label_byte label)

unfoldable pub domain : Str → Checked
unfolding is_bad_label split
domain value =
    reject_if
      (ltb (length value) 3
        || ltb 253 (length value)
        || ends_with value (bytes ".")
        || value != to_ascii_lowercase value
        || any is_bad_label (split b'.' value))
      (contract "domain must be a normalized lowercase DNS name")

unfoldable pub cidr_address : Ec2Parsers → Option Str → Checked
cidr_address p none = err (contract "operator_ssh_cidr must be an IPv4 /32")
cidr_address p (some address) =
    reject_if (not (p.is_ipv4_addr address)) (contract "operator_ssh_cidr must be an IPv4 /32")

unfoldable pub operator_cidr : Ec2Parsers → Str → Checked
operator_cidr p value = cidr_address p (strip_suffix value (bytes "/32"))

-- `parts.last().is_some_and(…)`
ends_in_number : List Str → Bool
ends_in_number [] = false
ends_in_number (part ∷ []) = not (is_empty part) && all is_ascii_digit part
ends_in_number (part ∷ next ∷ parts) = ends_in_number (next ∷ parts)

is_region_byte : ℕ → Bool
is_region_byte b = is_ascii_lowercase b || is_ascii_digit b || nat_beq b b'-'

unfoldable pub aws_region : Str → Checked
unfolding ends_in_number is_region_byte split
aws_region value =
    reject_if
      (ltb (length value) 9
        || ltb 32 (length value)
        || ltb (length (split b'-' value)) 3
        || not (ends_in_number (split b'-' value))
        || any (λ b. not (is_region_byte b)) value)
      (contract "region must be a normalized AWS region identifier")

is_type_byte : ℕ → Bool
is_type_byte b = is_ascii_lowercase b || is_ascii_digit b || nat_beq b b'.'

instance_type_parts : Str → Option (Str × Str) → Checked
unfolding is_type_byte
instance_type_parts value none = err (contract "instance_type is invalid")
instance_type_parts value (some (family, size)) =
    reject_if
      (is_empty family || is_empty size || ltb 64 (length value) || not (all is_type_byte value))
      (contract "instance_type is invalid")

-- `instance_type`
unfoldable pub check_instance_type : Str → Checked
unfolding instance_type_parts
check_instance_type value = instance_type_parts value (split_once b'.' value)
