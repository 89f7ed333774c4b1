-- ===== src/Alpha/Store.antt =====
-- src/alpha_deployment.rs: `AlphaStateStore` over its directory. The environment chooses how each
-- call that changes the directory ends.
pub mod Framed
pub mod Advance
pub mod Create
use dirextalk_vnext_deployer.Prelude.{
  ℕ, ℕ_discrete, Bool, true, false, ◌&&◌, ◌||◌, not, List, [], ◌∷◌, ◌++◌, Option, none, some,
  is_some, Str, str_eq, bytes, nat_beq, ltb, length, is_empty, ◌==◌, ◌!=◌, PartialEq, of_discrete,
  if◌then◌else◌,
}
use dirextalk_vnext_deployer.Errors.{
  Checked, Result, ok, err, reject_if, contract, io, not_found, other, unsafe_file, state_unsafe,
  json, operation_conflict,
}
use dirextalk_vnext_deployer.Errors
use dirextalk_vnext_deployer.Alpha.{
  AlphaLifecycle, lifecycle_eq, alpha_planned, ReadinessFacts, AcceptanceObservation,
  AlphaLifecycleRecord, alpha_record_eq, Crates,
}
use dirextalk_vnext_deployer.Alpha.Syntax.{uuid_v7}
use dirextalk_vnext_deployer.Alpha.Package.{max_manifest_bytes}
use dirextalk_vnext_deployer.Alpha.Lifecycle.{verify_alpha, alpha_advance}

-- A record's file `<id>.json`, and the new file `.<id>.json.new` that replaces it.
pub data AlphaName : Type 0 where
  alpha_file alpha_temp : (id : Str) → AlphaName

unfoldable pub AlphaName-discrete : Discrete AlphaName
unfolding ℕ_discrete
AlphaName-discrete = hlevel ℕ_discrete

instance abbrev pub alpha_name_eq : PartialEq AlphaName
alpha_name_eq = of_discrete AlphaName-discrete

abbrev pub file_name : AlphaName → Str
file_name (alpha_file id) = id ++ bytes ".json"
file_name (alpha_temp id) = bytes "." ++ (id ++ bytes ".json.new")

-- A directory entry: a regular file, a link whose target may be there, or something else.
pub data Entry : Type 0 where
  regular : (content : Str) → Entry
  link : (target_exists : Bool) → Entry
  special : Entry

pub data AlphaRoot : Type 0 where
  no_root root_link root_file : AlphaRoot
  root_directory : (uid : ℕ) → AlphaRoot

-- How a call ends: done, failed without effect, or failed behind a part of its effect. A torn write
-- leaves `content`; a torn rename has renamed.
pub data CallEnd : Type 0 where
  call_done call_failed : CallEnd
  call_torn : (content : Str) → CallEnd

pub record AlphaWorld : Type 0 where
  pub entries : AlphaName → Option Entry
  pub root : AlphaRoot
  pub euid : ℕ
  -- the ends of the next calls; behind the list's end they succeed
  pub ends : List CallEnd

abbrev pub AlphaM : Type 0 → Type 0
AlphaM A = AlphaWorld → Result A × AlphaWorld

abbrev pub continue :
    {A B : Type 0} → Result A × AlphaWorld → (A → AlphaM B) → Result B × AlphaWorld
continue (ok a, w) f = f a w
continue (err e, w) f = (err e, w)

infixl 5 ◌>>=◌ ◌>>◌
abbrev pub ◌>>=◌ : {A B : Type 0} → AlphaM A → (A → AlphaM B) → AlphaM B
◌>>=◌ m f w = continue (m w) f

abbrev pub ◌>>◌ : {B : Type 0} → AlphaM (Unit {0}) → AlphaM B → AlphaM B
m >> k = m >>= λ _. k

abbrev pub lift : {A : Type 0} → Result A → AlphaM A
lift r w = (r, w)

-- A change of the entry of one name.
abbrev pub put : AlphaName → Option Entry → (AlphaName → Option Entry) → AlphaName → Option Entry
put n e entries m = if m == n then e else entries m

abbrev pub pop_end : AlphaWorld → CallEnd × AlphaWorld
pop_end w = elim w.ends [ [] ↦ (call_done, w) | end ∷ later ↦ (end, record w { ends = later }) ]

-- The steps of `ensure_root`. Only its owner and root may change a directory's mode.
unfoldable pub check_alpha_root : AlphaRoot → AlphaM (Unit {0})
check_alpha_root no_root = λ w. (ok tt, record w { root = root_directory w.euid })
check_alpha_root root_file = λ w. (err (io other []), w)
check_alpha_root root_link = λ w. (err (state_unsafe []), w)
check_alpha_root (root_directory uid) = λ w. (
  Errors.◌>>◌ (reject_if (not (nat_beq uid w.euid || nat_beq w.euid 0)) (io other []))
      (reject_if (not (nat_beq uid w.euid)) (state_unsafe [])),
  w,
)

-- `AlphaStateStore::ensure_root`
unfoldable pub ensure_alpha_root : AlphaM (Unit {0})
ensure_alpha_root = λ w. check_alpha_root w.root w

abbrev pub exists : Option Entry → Bool
exists none = false
exists (some (link target_exists)) = target_exists
exists (some _) = true

module _ (x : Crates) where
  unfoldable pub decoded : Option AlphaLifecycleRecord → Result AlphaLifecycleRecord
  decoded none = err json
  decoded (some r) = ok r

  -- The part of `load_canonical` behind the file's metadata.
  unfoldable pub decode_canonical : Str → Result AlphaLifecycleRecord
  decode_canonical content = Errors.◌>>=◌ (x.parse_value content) λ value.
      Errors.◌>>◌
        (reject_if (x.canonical_bytes value != content)
          (contract "Alpha evidence or state must be canonical JSON"))
        (decoded (x.record_of value))

  -- `load_canonical`
  unfoldable pub load_canonical : Str → Option Entry → Result AlphaLifecycleRecord
  load_canonical name none = err (io not_found name)
  load_canonical name (some (regular content)) =
      Errors.◌>>◌
        (reject_if (is_empty content || ltb max_manifest_bytes (length content)) (unsafe_file name))
        (decode_canonical content)
  load_canonical name (some _) = err (unsafe_file name)

  unfoldable pub checked_alpha : Str → AlphaLifecycleRecord → Result AlphaLifecycleRecord
  checked_alpha id r =
      Errors.◌>>◌ (verify_alpha x r)
        (Errors.◌>>◌ (reject_if (r.operation_fence.operation_id != id) operation_conflict) (ok r))

  -- `AlphaStateStore::read`
  unfoldable pub alpha_read : Str → AlphaWorld → Result AlphaLifecycleRecord
  alpha_read id w = Errors.◌>>◌ (uuid_v7 x id "operation_id") (
      Errors.◌>>=◌ (load_canonical (file_name (alpha_file id)) (w.entries (alpha_file id)))
        λ r. checked_alpha id r)

  abbrev pub serialized : AlphaLifecycleRecord → Str
  serialized r = x.canonical_bytes (x.to_value r)

  unfoldable pub write_end : AlphaName → Str → CallEnd → AlphaM (Unit {0})
  write_end n content call_done =
      λ w. (ok tt, record w { entries = put n (some (regular content)) w.entries })
  write_end n content call_failed = λ w. (err (io other (file_name n)), w)
  write_end n content (call_torn part) = λ w.
      (err (io other (file_name n)), record w { entries = put n (some (regular part)) w.entries })

  unfoldable pub write_if_new : AlphaName → Str → Option Entry → AlphaM (Unit {0})
  write_if_new n content none = λ w. let (end, later) = pop_end w in write_end n content end later
  write_if_new n content (some e) = λ w. (err (io other (file_name n)), w)

  -- `write_new`: a file that is there already is not opened.
  unfoldable pub write_new : AlphaName → AlphaLifecycleRecord → AlphaM (Unit {0})
  write_new n r = λ w. write_if_new n (serialized r) (w.entries n) w

  unfoldable pub remove_end : AlphaName → CallEnd → AlphaM (Unit {0})
  remove_end n call_done = λ w. (ok tt, record w { entries = put n none w.entries })
  remove_end n _ = λ w. (err (io other (file_name n)), w)

  -- `fs::remove_file`, where a missing file is no error.
  unfoldable pub remove_stale : AlphaName → Option Entry → AlphaM (Unit {0})
  remove_stale n none = λ w. (ok tt, w)
  remove_stale n (some e) = λ w. let (end, later) = pop_end w in remove_end n end later

  abbrev pub renamed : AlphaName → AlphaName → AlphaWorld → AlphaWorld
  renamed from to w = record w { entries = put from none (put to (w.entries from) w.entries) }

  -- The rename and the sync of the directory.
  unfoldable pub rename_end : AlphaName → AlphaName → CallEnd → AlphaM (Unit {0})
  rename_end from to call_done = λ w. (ok tt, renamed from to w)
  rename_end from to call_failed = λ w. (err (io other (file_name to)), w)
  rename_end from to (call_torn _) = λ w. (err (io other []), renamed from to w)

  unfoldable pub rename : AlphaName → AlphaName → AlphaM (Unit {0})
  rename from to = λ w. let (end, later) = pop_end w in rename_end from to end later

  -- `AlphaStateStore::replace`
  unfoldable pub alpha_replace : Str → AlphaLifecycleRecord → AlphaM (Unit {0})
  alpha_replace id r = do
    λ w. remove_stale (alpha_temp id) (w.entries (alpha_temp id)) w
    write_new (alpha_temp id) r
    rename (alpha_temp id) (alpha_file id)

  unfoldable pub keep_or_write : AlphaLifecycleRecord → Str → Bool → AlphaM AlphaLifecycleRecord
  keep_or_write r id true = λ w. (
    Errors.◌>>=◌ (alpha_read id w)
        λ existing. if existing == r then ok existing else err operation_conflict,
    w,
  )
  keep_or_write r id false = write_new (alpha_file id) r >> lift (ok r)

  -- `AlphaStateStore::create`
  unfoldable pub alpha_create : AlphaLifecycleRecord → AlphaM AlphaLifecycleRecord
  alpha_create r = do
    let id = r.operation_fence.operation_id
    lift (verify_alpha x r)
    lift (reject_if (r.state != alpha_planned) (contract "new Alpha state must be Planned"))
    ensure_alpha_root
    lift (uuid_v7 x id "operation_id")
    λ w. keep_or_write r id (exists (w.entries (alpha_file id))) w

  -- `AlphaStateStore::advance`
  unfoldable pub alpha_store_advance :
      Str
      → AlphaLifecycle
      → Option ReadinessFacts
      → Option AcceptanceObservation
      → AlphaM AlphaLifecycleRecord
  alpha_store_advance id next facts acceptance = do
    current ← λ w. (alpha_read id w, w)
    next_record ← lift (alpha_advance x current next facts acceptance)
    lift (uuid_v7 x id "operation_id")
    alpha_replace id next_record
    lift (ok next_record)
