-- ===== src/Store/Commands/Success.antt =====
-- When src/deployment.rs `advance` and the other methods that change a record succeed.
use mathlib.Core.Path.{subst}
use dirextalk_vnext_deployer.Prelude.{
  ℕ, ℕ_discrete, Str, bytes, ◌++◌, ◌≡◌, refl, sym, ap, ◌∙◌, false, Option, none, some, [], nat_eq,
  ne_self,
}
use dirextalk_vnext_deployer.Errors.{Result, ok, err, reject_if, >>-eq-ok, >>=-eq-ok}
use dirextalk_vnext_deployer.Errors
use dirextalk_vnext_deployer.Contract.Syntax.{token, uuid}
use dirextalk_vnext_deployer.Operation.{OperationRecord}
use dirextalk_vnext_deployer.Operation.Steps.{IsValid, Step, WellEvidenced}
use dirextalk_vnext_deployer.Operation.Invariant.{Step-IsValid, Step-SameIdentity}
use dirextalk_vnext_deployer.Store.Names.{StateName, operation_file, lock_file}
use dirextalk_vnext_deployer.Store.World.{Codec, World, File, directory}
use dirextalk_vnext_deployer.Store.Documents.{seal}
use dirextalk_vnext_deployer.Store.Files.{
  lookup, read, read_secure, open_validated, validate_open_state_file, checked_record,
  check_present, ensure_root, check_root, lock, open_lock, is_held, write_path, replace,
  replace_from, serialize_bounded, written, insert,
}
use dirextalk_vnext_deployer.Store.Frame.{SameDocuments, read-same, lock-SameDocuments}
use dirextalk_vnext_deployer.Store.Transitions.{
  transact, lock_current, persist_record, check_if_completed,
}
use dirextalk_vnext_deployer.Store.Transitions.Current.{IsCurrent, check_owner-same}
use dirextalk_vnext_deployer.Store.Transitions.Transact.{read-ok}
use dirextalk_vnext_deployer.Store.Commands.{Command, change_of, run, run-transact}
use dirextalk_vnext_deployer.Store.Transitions.Durable.{check_if_completed-same}

-- The environment lets the method through: the directory is the process's own, the lock is free,
-- and the replacements succeed.
pub record Ready (x : Codec) (lock_id : Str) (w : World x.Document) : Type 0 where
  pub own_root : w.root ≡ directory 0o700 w.euid
  pub is_token : token lock_id "lock id" ≡ ok tt
  pub lock_usable :
      check_present x w.euid (lock_file lock_id) (lookup (lock_file lock_id) w.files) ≡ ok tt
  pub lock_free : is_held x (lock_file lock_id) w.held ≡ false
  pub replacements : w.outcomes ≡ []

ensure_root-own :
    {D : Type 0} (w : World D) → w.root ≡ directory 0o700 w.euid → ensure_root w ≡ (ok tt, w)
unfolding ensure_root check_root ℕ_discrete
ensure_root-own w h = rw (h, ne_self w.euid) refl

module _ (x : Codec) where
  abbrev Locks : Str → World x.Document → Type 0
  Locks id w = (v : World x.Document) × (lock x id w ≡ (ok tt, v)) × (v.root ≡ w.root)

  lock-present :
      (id : Str) (w : World x.Document) (o : Option (File x.Document))
      → Ready x id w
      → lookup (lock_file id) w.files ≡ o
      → Locks id w
  unfolding lock open_lock
  lock-present id w none r h = (
    record w { files = insert (lock_file id) (written x w.euid x.empty_document) w.files },
    rw (r.is_token, ensure_root-own w r.own_root, h, r.lock_free) refl,
    refl,
  )
  lock-present id w (some f) r h = (
    w,
    rw (r.is_token, ensure_root-own w r.own_root, h, rw h at r.lock_usable, r.lock_free) refl,
    refl,
  )

  open_validated-check_present :
      (euid : ℕ) (n : StateName) (o : Option (File x.Document)) {d : x.Document}
      → open_validated x euid n o ≡ ok d
      → check_present x euid n o ≡ ok tt
  unfolding open_validated check_present
  open_validated-check_present euid n none h = cc
  open_validated-check_present euid n (some f) h =
      let (link, h1) = >>-eq-ok (reject_if f.is_symlink _) _ h in
      let (fits, _) = >>-eq-ok (validate_open_state_file x euid n f) (ok f.content) h1 in
      rw (link, fits) refl

  lock-succeeds : (id : Str) (w : World x.Document) → Ready x id w → Locks id w
  lock-succeeds id w r = lock-present id w (lookup (lock_file id) w.files) r refl

  -- A record that is read stands in an entry that a replacement accepts.
  read-check_present :
      (id : Str) (w : World x.Document) {r : OperationRecord}
      → read x id w ≡ ok r
      → (uuid id "operation_id" ≡ ok tt)
        × (check_present x w.euid (operation_file id) (lookup (operation_file id) w.files) ≡ ok tt)
  unfolding read read_secure
  read-check_present id w {r} h =
      let parse : x.Document → Result OperationRecord =
        λ b. checked_record x id (x.record_from_slice b) in
      let (is_uuid, h1) =
        >>-eq-ok (uuid id "operation_id") (Errors.◌>>=◌ (read_secure x (operation_file id) w) parse)
          h in
      let (_, opened, _) = >>=-eq-ok (read_secure x (operation_file id) w) parse h1 in
      (is_uuid, open_validated-check_present w.euid (operation_file id) _ opened)

  write_path-succeeds :
      (n : StateName) (body : x.Document) (w : World x.Document) {bytes : x.Document}
      → w.root ≡ directory 0o700 w.euid
      → w.outcomes ≡ []
      → check_present x w.euid n (lookup n w.files) ≡ ok tt
      → serialize_bounded x body ≡ ok bytes
      → (v : World x.Document) × (write_path x n body w ≡ (ok tt, v))
  unfolding write_path replace replace_from
  write_path-succeeds n body w {bytes} own done present fits = (
    record w { files = insert n (written x w.euid bytes) w.files },
    rw (fits, ensure_root-own w own, present, done) refl,
  )

  lock_current-succeeds :
      (id : Str) (w : World x.Document) {r : OperationRecord} (c : IsCurrent x id w r)
      → Ready x (bytes "target-" ++ c.fence) w
      → (v : World x.Document) × (lock_current x id w ≡ (ok r, v))
        × SameDocuments w v
        × (v.root ≡ w.root)
  unfolding lock_current
  lock_current-succeeds id w {r} c ready =
      let lock_id = bytes "target-" ++ c.fence in
      let (v, locked, root) = lock-succeeds lock_id w ready in
      let same : SameDocuments w v =
        subst (λ p. SameDocuments w p.1) locked (lock-SameDocuments x lock_id w) in
      (
        v,
        rw
            (
              c.reads,
              c.is_fence,
              locked,
              read-same x id w v same,
              c.reads,
              check_owner-same x c.fence r w v same,
              c.owned,
            )
            refl,
        same,
        root,
      )

  persist_record-succeeds :
      (t : OperationRecord) (w : World x.Document) {bytes : x.Document}
      → IsValid x.parsers t
      → check_if_completed x t w ≡ ok tt
      → uuid t.operation_id "operation_id" ≡ ok tt
      → w.root ≡ directory 0o700 w.euid
      → w.outcomes ≡ []
      → check_present x w.euid
          (operation_file t.operation_id)
          (lookup (operation_file t.operation_id) w.files)
        ≡ ok tt
      → serialize_bounded x (x.record_to_vec (seal x t)) ≡ ok bytes
      → (v : World x.Document) × (persist_record x t w ≡ (ok (seal x t), v))
  unfolding persist_record
  persist_record-succeeds t w valid checked id own done present fits =
      let (v, wrote) =
        write_path-succeeds (operation_file t.operation_id) (x.record_to_vec (seal x t)) w own done
          present fits in
      (v, rw (valid, checked, id, wrote) refl)

-- Where the lock is free, the directory is the process's own and the replacement succeeds, a
-- change that the current record accepts is persisted and returned, if its result is valid, keeps
-- the identifier, passes the test on completion and fits the bound.
transact-succeeds :
    (x : Codec) (id : Str) (change : OperationRecord → Result OperationRecord)
    (w : World x.Document) (r t : OperationRecord) (bytes_of : x.Document) (c : IsCurrent x id w r)
    → Ready x (bytes "target-" ++ c.fence) w
    → change r ≡ ok t
    → id ≡ t.operation_id
    → IsValid x.parsers t
    → check_if_completed x t w ≡ ok tt
    → serialize_bounded x (x.record_to_vec (seal x t)) ≡ ok bytes_of
    → (v : World x.Document) × (transact x id change w ≡ (ok (seal x t), v))
unfolding transact
transact-succeeds x id change w r t bytes_of c ready changed same valid checked fits =
    let (u, current, docs, root) = lock_current-succeeds x id w c ready in
    let (is_uuid, present) = read-check_present x id u (read-same x id w u docs ∙ c.reads) in
    let (v, persisted) =
      persist_record-succeeds x t u valid (check_if_completed-same x t w u docs ∙ checked)
        (rw same at is_uuid)
        (root ∙ ready.own_root ∙ ap (λ e. directory 0o700 e) (sym docs.same_euid))
        (docs.same_outcomes ∙ ready.replacements)
        (subst
          (λ n.
            check_present x u.euid (operation_file n) (lookup (operation_file n) u.files) ≡ ok tt)
          same present)
        fits in
    (v, rw (current, changed, persisted) refl)

-- In a directory of the process's own, where the target's lock has a well-formed name and a file that
-- is absent or usable, and is free, and where the replacements succeed: each of the methods `advance`,
-- `fail`, with acceptable evidence, `resume`, `rollback_fence` and `finish_rollback` that makes a step
-- of the current record returns that step, sealed, if its result passes the test on completion and
-- fits the size bound.
pub run-succeeds :
    (x : Codec) (id : Str) (command : Command) (w : World x.Document) (r t : OperationRecord)
    (bytes_of : x.Document) (c : IsCurrent x id w r)
    → Ready x (bytes "target-" ++ c.fence) w
    → change_of command r ≡ ok t
    → (step : Step r t) → WellEvidenced step
    → check_if_completed x t w ≡ ok tt
    → serialize_bounded x (x.record_to_vec (seal x t)) ≡ ok bytes_of
    → (v : World x.Document) × (run x id command w ≡ (ok (seal x t), v))
run-succeeds x id command w r t bytes_of c ready changed step evidenced checked fits =
    let (valid, named) = read-ok x id w c.reads in
    let (v, done) =
      transact-succeeds x id (change_of command) w r t bytes_of c ready changed
        (sym named ∙ (Step-SameIdentity r t step).same_id)
        (Step-IsValid x.parsers r t step evidenced valid) checked fits in
    (v, ap (λ m. m w) (run-transact x id command) ∙ done)
