-- ===== src/Store/Files.antt =====
-- src/deployment.rs: `ensure_root`, `validate_open_state_file`, `read_secure`, `write_path`,
-- `serialize_bounded`, `lock`, and the reads of records and owners that stand on them.
-- Reads fail as the entry makes them fail: missing, a symbolic link, unsafe, malformed.
use dirextalk_vnext_deployer.Prelude.{
  nat_eq, ℕ, ◌*◌, ◌%◌, Bool, true, false, ◌||◌, not, List, [], ◌∷◌, Option, none, some, Str, str_eq,
  bytes, if◌then◌else◌, ◌==◌, ◌!=◌, ltb, leb, any,
}
use dirextalk_vnext_deployer.Errors.{
  Result, ok, err, ReleaseError, Checked, io, IoKind, not_found, filesystem_loop, other,
  state_unsafe, json, contract, operation_locked, reject_if,
}
use dirextalk_vnext_deployer.Errors
use dirextalk_vnext_deployer.Contract.Syntax.{token, uuid}
use dirextalk_vnext_deployer.Operation.{OperationRecord}
use dirextalk_vnext_deployer.Operation.Validity.{valid_record}
use dirextalk_vnext_deployer.Store.Names.{
  StateName, name_eq, operation_file, owner_file, lock_file, claim_file, connector_owner_file,
  render,
}
use dirextalk_vnext_deployer.Store.World.{
  Codec, M, ◌>>=◌, ◌>>◌, lift, look, World, File, RootState, absent, not_directory, directory,
  WriteOutcome, replaced, failed_before_rename, failed_after_rename, TargetOwnership,
}
use dirextalk_vnext_deployer.Store.Documents.{
  verify_record, verify_ownership, verify_claim, verify_connector_owner,
}
use dirextalk_vnext_deployer.Connector.{ConnectorClaim, ConnectorOwnership, valid_claim}

abbrev pub max_bytes : ℕ
max_bytes = 1024 * 1024

-- `mode & 0o777`
abbrev pub permissions : ℕ → ℕ
permissions mode = mode % 512

abbrev pub lookup : {D : Type 0} → StateName → List (StateName × File D) → Option (File D)
lookup n [] = none
lookup n ((m, f) ∷ files) = if m == n then some f else lookup n files

abbrev pub insert :
    {D : Type 0} → StateName → File D → List (StateName × File D) → List (StateName × File D)
insert n f [] = (n, f) ∷ []
insert n f ((m, g) ∷ files) = if m == n then (n, f) ∷ files else (m, g) ∷ insert n f files

-- A result whose `NotFound` error counts as absence.
abbrev pub absent_ok : {A : Type 0} → Result A → Result (Option A)
absent_ok (ok a) = ok (some a)
absent_ok (err (io not_found _)) = ok none
absent_ok (err e) = err e

unfoldable pub check_root : {D : Type 0} → RootState → M D (Unit {0})
check_root absent = λ w. (ok tt, record w { root = directory 0o700 w.euid })
check_root not_directory = λ w. (err (state_unsafe []), w)
check_root (directory mode uid) =
    λ w. (reject_if (permissions mode != 0o700 || uid != w.euid) (state_unsafe []), w)

-- `ensure_root`. A directory that it makes has mode 0o700 and the process as its owner.
unfoldable pub ensure_root : {D : Type 0} → M D (Unit {0})
ensure_root = λ w. check_root w.root w

module _ (x : Codec) where
  -- `validate_open_state_file`
  unfoldable pub validate_open_state_file : ℕ → StateName → File x.Document → Checked
  validate_open_state_file euid n f =
      reject_if
        (not f.is_regular
          || ltb max_bytes (x.document_len f.content)
          || permissions f.mode != 0o600
          || f.uid != euid)
        (state_unsafe (render n))

  -- `open` with `O_NOFOLLOW`, and the metadata test.
  unfoldable pub open_validated : ℕ → StateName → Option (File x.Document) → Result x.Document
  open_validated euid n none = err (io not_found (render n))
  open_validated euid n (some f) =
      Errors.◌>>◌ (reject_if f.is_symlink (io filesystem_loop (render n)))
        (Errors.◌>>◌ (validate_open_state_file euid n f) (ok f.content))

  -- `read_secure`
  unfoldable pub read_secure : StateName → World x.Document → Result x.Document
  read_secure n w = open_validated w.euid n (lookup n w.files)

  abbrev pub parsed : {A : Type 0} → Option A → Result A
  parsed none = err json
  parsed (some a) = ok a

  unfoldable pub checked_record : Str → Option OperationRecord → Result OperationRecord
  checked_record id parse = Errors.◌>>=◌ (parsed parse) λ r.
      Errors.◌>>◌ (valid_record x.parsers r) (
        Errors.◌>>◌ (verify_record x r) (
          Errors.◌>>◌ (reject_if (r.operation_id != id) (state_unsafe (render (operation_file id))))
            (ok r)))

  -- `DeploymentStateStore::read`
  unfoldable pub read : Str → World x.Document → Result OperationRecord
  read id w = Errors.◌>>◌ (uuid id "operation_id") (
      Errors.◌>>=◌ (read_secure (operation_file id) w)
        λ bytes. checked_record id (x.record_from_slice bytes))

  unfoldable pub checked_owner : Option TargetOwnership → Result TargetOwnership
  checked_owner parse = Errors.◌>>=◌ (parsed parse) λ o. Errors.◌>>◌ (verify_ownership x o) (ok o)

  -- `read_owner`
  unfoldable pub read_owner : Str → World x.Document → Result TargetOwnership
  read_owner fence w =
      Errors.◌>>=◌ (read_secure (owner_file fence) w)
        λ bytes. checked_owner (x.ownership_from_slice bytes)

  unfoldable pub checked_claim : Option ConnectorClaim → Result ConnectorClaim
  checked_claim parse =
      Errors.◌>>=◌ (parsed parse)
        λ c. Errors.◌>>◌ (valid_claim x.parsers c) (Errors.◌>>◌ (verify_claim x c) (ok c))

  -- `read_claim` at `connector_claim_path`
  unfoldable pub read_claim : Str → Str → World x.Document → Result ConnectorClaim
  read_claim instance_id operation_id w = Errors.◌>>◌ (uuid instance_id "instance_id") (
      Errors.◌>>◌ (uuid operation_id "operation_id") (
        Errors.◌>>=◌ (read_secure (claim_file instance_id operation_id) w)
          λ bytes. checked_claim (x.claim_from_slice bytes)))

  unfoldable pub checked_connector_owner : Option ConnectorOwnership → Result ConnectorOwnership
  checked_connector_owner parse =
      Errors.◌>>=◌ (parsed parse) λ o. Errors.◌>>◌ (verify_connector_owner x o) (ok o)

  -- `read_connector_owner` at `connector_owner_path`
  unfoldable pub read_connector_owner : Str → World x.Document → Result ConnectorOwnership
  read_connector_owner instance_id w = Errors.◌>>◌ (uuid instance_id "instance_id") (
      Errors.◌>>=◌ (read_secure (connector_owner_file instance_id) w)
        λ bytes. checked_connector_owner (x.connector_owner_from_slice bytes))

  -- `serialize_bounded`, of a value that is serialized already.
  unfoldable pub serialize_bounded : x.Document → Result x.Document
  serialize_bounded body =
      let bytes = x.push_newline body in
      Errors.◌>>◌
        (reject_if (leb (x.document_len bytes) 1 || ltb max_bytes (x.document_len bytes))
          (contract "durable state serialization is empty or oversized"))
        (ok bytes)

  abbrev pub written : ℕ → x.Document → File x.Document
  written euid bytes = record {
    content = bytes;
    is_symlink = false;
    is_regular = true;
    mode = 0o600;
    uid = euid;
  }

  -- The entry that a replacement would cover is opened and tested first.
  unfoldable pub check_present : ℕ → StateName → Option (File x.Document) → Checked
  check_present euid n none = ok tt
  check_present euid n (some f) =
      Errors.◌>>◌ (reject_if f.is_symlink (io filesystem_loop (render n)))
        (validate_open_state_file euid n f)

  -- The temporary file, the rename and the directory's fsync, as the environment lets them end.
  unfoldable pub replace_from : List WriteOutcome → StateName → x.Document → M x.Document (Unit {0})
  replace_from [] n bytes =
      λ w. (ok tt, record w { files = insert n (written w.euid bytes) w.files })
  replace_from (replaced ∷ later) n bytes =
      λ w. (ok tt, record w { files = insert n (written w.euid bytes) w.files; outcomes = later })
  replace_from (failed_before_rename ∷ later) n bytes =
      λ w. (err (io other (render n)), record w { outcomes = later })
  replace_from (failed_after_rename ∷ later) n bytes = λ w. (
    err (io other []),
    record w { files = insert n (written w.euid bytes) w.files; outcomes = later },
  )

  unfoldable pub replace : StateName → x.Document → M x.Document (Unit {0})
  replace n bytes = λ w. replace_from w.outcomes n bytes w

  abbrev pub check_replaced : StateName → M x.Document (Unit {0})
  check_replaced n = look (λ w. check_present w.euid n (lookup n w.files))

  -- `write_path`
  unfoldable pub write_path : StateName → x.Document → M x.Document (Unit {0})
  write_path n body = do
    bytes ← lift (serialize_bounded body)
    ensure_root
    check_replaced n
    replace n bytes

  unfoldable pub open_lock : StateName → Option (File x.Document) → M x.Document (Unit {0})
  open_lock n none =
      λ w. (ok tt, record w { files = insert n (written w.euid x.empty_document) w.files })
  open_lock n (some f) = λ w. (check_present w.euid n (some f), w)

  abbrev pub is_held : StateName → List StateName → Bool
  is_held n names = any (λ m. m == n) names

  -- `lock`. The lock is released when the calling method returns.
  unfoldable pub lock : Str → M x.Document (Unit {0})
  lock id = do
    lift (token id "lock id")
    ensure_root
    λ w. open_lock (lock_file id) (lookup (lock_file id) w.files) w
    λ w. (reject_if (is_held (lock_file id) w.held) operation_locked, w)
