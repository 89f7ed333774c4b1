-- ===== src/Store/Claim/Writes.antt =====
-- The two writes of src/deployment.rs `claim`: the record's and the projection's.
use mathlib.Core.Path.{subst}
use dirextalk_vnext_deployer.Prelude.{
  Str, str_eq, ◌≡◌, ◌≢◌, refl, sym, ap, ◌∙◌, Bool, true, false, inl, inr, ◌⊎◌, Bool-cases, ◌==◌,
  eq_iff, [],
}
use dirextalk_vnext_deployer.Errors.{Result, ok, err}
use dirextalk_vnext_deployer.Contract.Syntax.{uuid}
use dirextalk_vnext_deployer.Operation.{OperationRecord}
use dirextalk_vnext_deployer.Operation.Steps.{IsValid}
use dirextalk_vnext_deployer.Store.Names.{StateName, operation_file, owner_file}
use dirextalk_vnext_deployer.Store.World.{Codec, CodecLaws, World}
use dirextalk_vnext_deployer.Store.Documents.{seal, ownership_from_record, verify_ownership}
use dirextalk_vnext_deployer.Store.Files.{lookup, read, read_owner, read_secure, write_path}
use dirextalk_vnext_deployer.Store.Frame.{is_lock, SameDocuments}
use dirextalk_vnext_deployer.Store.Writes.{Touched, Wrote, write_path-Wrote}
use dirextalk_vnext_deployer.Store.Transitions.Durable.{read-written, read-untouched}
use dirextalk_vnext_deployer.Store.Claim.Owner.{read_owner-written}

abbrev pub is_owner_file : StateName → Bool
is_owner_file (owner_file _) = true
is_owner_file _ = false

-- Every document is what it was but the record of `id` and the projections.
pub record ClaimKept (x : Codec) (id : Str) (w v : World x.Document) : Type 0 where
  pub euid_kept : v.euid ≡ w.euid
  pub files_kept :
      (m : StateName)
      → operation_file id ≢ m
      → is_owner_file m ≡ false
      → is_lock m ≡ false
      → lookup m v.files ≡ lookup m w.files

pub ClaimKept-trans :
    (x : Codec) (id : Str) {u v w : World x.Document}
    → ClaimKept x id u v
    → ClaimKept x id v w
    → ClaimKept x id u w
ClaimKept-trans x id a b = record {
  euid_kept = b.euid_kept ∙ a.euid_kept;
  files_kept = λ m h o l. b.files_kept m h o l ∙ a.files_kept m h o l;
}

pub SameDocuments-ClaimKept :
    (x : Codec) (id : Str) {w v : World x.Document} → SameDocuments w v → ClaimKept x id w v
SameDocuments-ClaimKept x id s = record {
  euid_kept = s.same_euid;
  files_kept = λ m h o l. s.same_files m l;
}

owner_id : StateName → Str
owner_id (owner_file fence) = fence
owner_id _ = []

read_owner-untouched :
    (x : Codec) (fence : Str) (w v : World x.Document)
    → v.euid ≡ w.euid
    → lookup (owner_file fence) v.files ≡ lookup (owner_file fence) w.files
    → read_owner x fence v ≡ read_owner x fence w
unfolding read_owner read_secure
read_owner-untouched x fence w v e l = rw (e, l)

-- How the record's write ends.
unfoldable pub RecordWrote :
    (x : Codec) → OperationRecord → World x.Document → Result (Unit {0}) × World x.Document → Type 0
RecordWrote x r w (ok _, v) =
    (read x r.operation_id v ≡ ok (seal x r))
    × ((fence : Str) → read_owner x fence v ≡ read_owner x fence w)
    × ClaimKept x r.operation_id w v
RecordWrote x r w (err _, v) =
    ((read x r.operation_id v ≡ read x r.operation_id w)
      ⊎ (read x r.operation_id v ≡ ok (seal x r)))
    × ((fence : Str) → read_owner x fence v ≡ read_owner x fence w)
    × ClaimKept x r.operation_id w v

-- How the projection's write ends.
unfoldable pub OwnerWrote :
    (x : Codec)
    → OperationRecord
    → Str
    → World x.Document
    → Result (Unit {0}) × World x.Document
    → Type 0
OwnerWrote x r fence w (ok _, v) =
    (read_owner x fence v ≡ ok (ownership_from_record x (seal x r)))
    × ((other : Str) → fence ≢ other → read_owner x other v ≡ read_owner x other w)
    × (read x r.operation_id v ≡ read x r.operation_id w)
    × ClaimKept x r.operation_id w v
OwnerWrote x r fence w (err _, v) =
    ((other : Str)
      → (read_owner x other v ≡ read_owner x other w)
        ⊎ (read_owner x other v ≡ ok (ownership_from_record x (seal x r))))
    × (read x r.operation_id v ≡ read x r.operation_id w)
    × ClaimKept x r.operation_id w v

module _ (x : Codec) (r : OperationRecord) {bytes : x.Document} {w v : World x.Document} where
  Touched-ClaimKept :
      Touched x (operation_file r.operation_id) bytes w v → ClaimKept x r.operation_id w v
  Touched-ClaimKept t = record {
    euid_kept = t.euid_kept;
    files_kept = λ m h o l. t.others_kept m h l;
  }

  Touched-owners :
      Touched x (operation_file r.operation_id) bytes w v
      → (fence : Str) → read_owner x fence v ≡ read_owner x fence w
  Touched-owners t fence =
      read_owner-untouched x fence w v t.euid_kept (t.others_kept (owner_file fence) (λ e. cc) refl)

  Touched-owner-ClaimKept :
      (fence : Str) → Touched x (owner_file fence) bytes w v → ClaimKept x r.operation_id w v
  Touched-owner-ClaimKept fence t = record {
    euid_kept = t.euid_kept;
    files_kept = λ m h o l. t.others_kept m (λ e. cc (ap is_owner_file e ∙ o)) l;
  }

  Touched-owner-read :
      (fence : Str)
      → Touched x (owner_file fence) bytes w v
      → read x r.operation_id v ≡ read x r.operation_id w
  Touched-owner-read fence t =
      read-untouched x r.operation_id w v t.euid_kept
        (t.others_kept (operation_file r.operation_id) (λ e. cc) refl)

  Touched-owner-others :
      (fence : Str)
      → Touched x (owner_file fence) bytes w v
      → (other : Str) → fence ≢ other
      → read_owner x other v ≡ read_owner x other w
  unfolding owner_id
  Touched-owner-others fence t other h =
      read_owner-untouched x other w v t.euid_kept
        (t.others_kept (owner_file other) (λ e. h (ap owner_id e)) refl)

module _ (x : Codec) (laws : CodecLaws x) (r : OperationRecord) where
  pub write_path-RecordWrote :
      (w : World x.Document)
      → IsValid x.parsers r
      → uuid r.operation_id "operation_id" ≡ ok tt
      → RecordWrote x r w
          (write_path x (operation_file r.operation_id) (x.record_to_vec (seal x r)) w)
  unfolding Wrote RecordWrote
  write_path-RecordWrote w valid id =
      from (write_path x (operation_file r.operation_id) (x.record_to_vec (seal x r)) w)
        (write_path-Wrote x (operation_file r.operation_id) (x.record_to_vec (seal x r)) w refl)
    where
      from :
          (p : Result (Unit {0}) × World x.Document)
          → Wrote x
              (operation_file r.operation_id)
              (x.push_newline (x.record_to_vec (seal x r)))
              w
              p
          → RecordWrote x r w p
      from (ok _, v) (done, fits) = (
        read-written x laws r w v valid id done.touched.euid_kept done.is_new fits,
        Touched-owners x r done.touched,
        Touched-ClaimKept x r done.touched,
      )
      from (err e, v) t = (
        elim t.old_or_new [
          | inl old ↦ inl (read-untouched x r.operation_id w v t.euid_kept old)
          | inr (new, fits) ↦ inr (read-written x laws r w v valid id t.euid_kept new fits)
        ],
        Touched-owners x r t,
        Touched-ClaimKept x r t,
      )

  pub write_path-OwnerWrote :
      (fence : Str) (w : World x.Document)
      → verify_ownership x (ownership_from_record x (seal x r)) ≡ ok tt
      → OwnerWrote x r fence w (
          write_path x
            (owner_file fence)
            (x.ownership_to_vec (ownership_from_record x (seal x r)))
            w)
  unfolding Wrote OwnerWrote
  write_path-OwnerWrote fence w verified =
      from
        (write_path x (owner_file fence) (x.ownership_to_vec (ownership_from_record x (seal x r)))
          w)
        (write_path-Wrote x (owner_file fence)
          (x.ownership_to_vec (ownership_from_record x (seal x r))) w refl)
    where
      from :
          (p : Result (Unit {0}) × World x.Document)
          → Wrote x
              (owner_file fence)
              (x.push_newline (x.ownership_to_vec (ownership_from_record x (seal x r))))
              w
              p
          → OwnerWrote x r fence w p
      from (ok _, v) (done, fits) = (
        read_owner-written x laws (seal x r) fence w v verified done.touched.euid_kept done.is_new
            fits,
        Touched-owner-others x r fence done.touched,
        Touched-owner-read x r fence done.touched,
        Touched-owner-ClaimKept x r fence done.touched,
      )
      from (err e, v) t = (
        λ other. elim (Bool-cases (fence == other)) [
          | inl same ↦
              subst
                (λ f.
                  (read_owner x f v ≡ read_owner x f w)
                  ⊎ (read_owner x f v ≡ ok (ownership_from_record x (seal x r))))
                ((eq_iff fence other).0 same)
                (elim t.old_or_new [
                  | inl old ↦ inl (read_owner-untouched x fence w v t.euid_kept old)
                  | inr (new, fits) ↦
                      inr (
                        read_owner-written x laws (seal x r) fence w v verified t.euid_kept new
                          fits)
                ])
          | inr differs ↦ inl (
              Touched-owner-others x r fence t other
                (λ e. cc (sym differs ∙ (eq_iff fence other).1 e)))
        ],
        Touched-owner-read x r fence t,
        Touched-owner-ClaimKept x r fence t,
      )
