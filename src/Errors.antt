-- ===== src/Errors.antt =====
-- src/error.rs: `ReleaseError` and `Result`. An I/O error keeps its kind, which the code inspects,
-- and the name of the file; the JSON and archive errors do not keep their source.
use dirextalk_vnext_deployer.Prelude.{◌≡◌, refl, Bool, true, false, String, Str}

pub data IoKind : Type 0 where
  not_found : IoKind
  filesystem_loop : IoKind
  other : IoKind

pub data ReleaseError : Type 0 where
  manifest : String → ReleaseError
  invalid_path : Str → ReleaseError
  unsafe_file : Str → ReleaseError
  output_not_empty : Str → ReleaseError
  missing_artifact : Str → ReleaseError
  build_host_mismatch : (step required current : Str) → ReleaseError
  dirty_repository : Str → ReleaseError
  source_mismatch : Str → ReleaseError
  no_publication_selected : ReleaseError
  publication_not_confirmed : ReleaseError
  credentials_unavailable : String → ReleaseError
  command_failed : (program status : Str) → ReleaseError
  command_start : Str → ReleaseError
  io : IoKind → Str → ReleaseError
  json : ReleaseError
  zip : ReleaseError
  deployment : String → ReleaseError
  state_unsafe : Str → ReleaseError
  operation_conflict : ReleaseError
  operation_locked : ReleaseError
  unsupported_platform : String → ReleaseError

pub data Result {ℓ} (T : Type ℓ) : Type ℓ where
  ok : T → Result T
  err : ReleaseError → Result T

-- The source's `Result<()>`.
abbrev pub Checked : Type 0
Checked = Result (Unit {0})

abbrev pub contract : String → ReleaseError
contract message = deployment message

-- `if test { return Err(failure); }`
abbrev pub reject_if : (test : Bool) (failure : ReleaseError) → Checked
reject_if true failure = err failure
reject_if false failure = ok tt

-- The question mark.
infixl 5 ◌>>=◌ ◌>>◌
abbrev pub ◌>>=◌ {ℓ κ} : {S : Type ℓ} {T : Type κ} → Result S → (S → Result T) → Result T
ok value >>= rest = rest value
err failure >>= rest = err failure

abbrev pub ◌>>◌ {ℓ} : {T : Type ℓ} → Checked → Result T → Result T
check >> rest = check >>= λ _. rest

pub reject_if-eq-ok :
    (test : Bool) (failure : ReleaseError) → reject_if test failure ≡ ok tt → test ≡ false
reject_if-eq-ok false failure h = refl
reject_if-eq-ok true failure h = cc

-- Inversion of a successful sequence, for proofs that leave the parts shut.
pub >>-eq-ok {ℓ} :
    {T : Type ℓ} (check : Checked) (rest : Result T) {t : T}
    → (check >> rest) ≡ ok t
    → (check ≡ ok tt) × (rest ≡ ok t)
>>-eq-ok (err failure) rest h = cc
>>-eq-ok (ok tt) rest h = (refl, h)

pub >>=-eq-ok {ℓ κ} :
    {S : Type ℓ} {T : Type κ} (first : Result S) (rest : S → Result T) {t : T}
    → (first >>= rest) ≡ ok t
    → (s : S) × (first ≡ ok s) × (rest s ≡ ok t)
>>=-eq-ok (err failure) rest h = cc
>>=-eq-ok (ok value) rest h = (value, refl, h)
