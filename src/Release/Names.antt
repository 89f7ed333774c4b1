-- ===== src/Release/Names.antt =====
-- src/manifest.rs: the validators of paths, names, repositories and commits.
use dirextalk_vnext_deployer.Prelude.{
  ℕ, Bool, true, false, ◌&&◌, ◌||◌, not, [], ◌∷◌, Option, none, some, String, Str, str_eq, bytes,
  nat_beq, ltb, is_empty, any, all, length, is_ascii_alphanumeric, is_ascii_lowercase,
  is_ascii_digit, is_ascii_whitespace, is_ascii_hexdigit, starts_with, strip_prefix, contains_byte,
  ◌==◌, if◌then◌else◌,
}
use dirextalk_vnext_deployer.Errors.{Checked, ok, reject_if, ◌>>◌, manifest}
use dirextalk_vnext_deployer.Contract.Syntax.{◌+++◌}
use dirextalk_vnext_deployer.Alpha.Syntax.{Component, root_dir, parent_dir, components, is_absolute}

-- `contains`, of a text that is not empty
abbrev pub contains_text : Str → Str → Bool
contains_text pattern [] = false
contains_text pattern (c ∷ s) = starts_with (c ∷ s) pattern || contains_text pattern s

-- `split_once`
abbrev pub split_once : ℕ → Str → Option (Str × Str)
split_once sep [] = none
split_once sep (c ∷ s) = elim (split_once sep s) [
  | none ↦ if nat_beq c sep then some ([], s) else none
  | some (before, behind) ↦ if nat_beq c sep then some ([], s) else some (c ∷ before, behind)
]

-- The test on one component.
abbrev pub leaves_root : Component → Bool
leaves_root parent_dir = true
leaves_root root_dir = true
leaves_root _ = false

unfoldable pub validate_relative_file : Str → String → Checked
validate_relative_file path field =
    reject_if (is_empty path || is_absolute path || any leaves_root (components path))
      (manifest (field +++ " must be a safe relative path"))

unfoldable pub validate_relative_module : Str → Checked
validate_relative_module module_path =
    reject_if
      (not (starts_with module_path (bytes "./"))
        || ltb 256 (length module_path)
        || contains_text (bytes "..") module_path
        || any is_ascii_whitespace module_path)
      (manifest "connector.module must be a bounded ./ relative Go package")

is_name_byte : ℕ → Bool
is_name_byte b = is_ascii_alphanumeric b || contains_byte b (bytes "-_.")

unfoldable pub validate_token : Str → String → Checked
unfolding is_name_byte
validate_token value field =
    reject_if (is_empty value || ltb 128 (length value) || not (all is_name_byte value))
      (manifest (field +++ " is invalid"))

unfoldable pub validate_binary_name : Str → String → Checked
validate_binary_name value field = do
  validate_token value field
  reject_if (contains_byte b'.' value || contains_byte b'/' value || contains_byte b'\\' value)
      (manifest (field +++ " must be a bare binary name without an extension"))

is_linux : Option (Str × Str) → Bool
is_linux none = false
is_linux (some (os, architecture)) =
    os == bytes "linux" && (architecture == bytes "amd64" || architecture == bytes "arm64")

unfoldable pub valid_platform : Str → Bool
unfolding is_linux
valid_platform value = is_linux (split_once b'/' value)

-- `rsplit('/').next()`: the text behind the last separator.
abbrev pub last_piece : Str → Str → Str
last_piece cur [] = cur
last_piece cur (c ∷ s) =
    let within = last_piece cur s in if nat_beq c b'/' then last_piece s s else within

unfoldable pub validate_image_repository : Str → Checked
validate_image_repository value = do
  reject_if
      (is_empty value
        || ltb 255 (length value)
        || contains_byte b'@' value
        || any is_ascii_whitespace value)
      (manifest "server.image must be an untagged OCI repository")
  reject_if (contains_byte b':' (last_piece value value) || not (contains_byte b'/' value))
      (manifest "server.image must be an untagged namespace/repository value")

valid_package_byte : ℕ → Bool
valid_package_byte b = is_ascii_lowercase b || is_ascii_digit b || contains_byte b (bytes "-_.")

is_scoped : Str → Option (Str × Str) → Bool
unfolding valid_package_byte
is_scoped value none = false
is_scoped value (some (scope, name)) =
    not (is_empty scope)
    && not (is_empty name)
    && not (ltb 214 (length value))
    && all valid_package_byte scope
    && all valid_package_byte name

scoped_parts : Option Str → Option (Str × Str)
scoped_parts none = none
scoped_parts (some remaining) = split_once b'/' remaining

unfoldable pub validate_npm_name : Str → Checked
unfolding is_scoped scoped_parts
validate_npm_name value =
    reject_if (not (is_scoped value (scoped_parts (strip_prefix value (bytes "@")))))
      (manifest "npm.package must be a lowercase scoped package")

is_github_byte : ℕ → Bool
is_github_byte b = is_ascii_alphanumeric b || contains_byte b (bytes "-_./")

is_owned : Str → Option (Str × Str) → Bool
unfolding is_github_byte
is_owned value none = false
is_owned value (some (owner, repository)) =
    not (is_empty owner)
    && not (is_empty repository)
    && not (contains_byte b'/' repository)
    && not (ltb 200 (length value))
    && all is_github_byte value

unfoldable pub validate_github_repository : Str → Checked
unfolding is_owned
validate_github_repository value =
    reject_if (not (is_owned value (split_once b'/' value)))
      (manifest "github.repository must be owner/repository")

abbrev pub valid_source_commit : Str → Bool
valid_source_commit value =
    (nat_beq (length value) 40 || nat_beq (length value) 64) && all is_ascii_hexdigit value

unfoldable pub validate_optional_source_commit : Option Str → Checked
validate_optional_source_commit none = ok tt
validate_optional_source_commit (some commit) =
    reject_if (not (valid_source_commit commit))
      (manifest "source_commit must be a full hexadecimal Git object id")
