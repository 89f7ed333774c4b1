-- ===== src/Store/Transitions/Transact.antt =====
-- How src/deployment.rs `advance`, `fail`, `resume`, `rollback_fence` and `finish_rollback` of the
-- store end.
use mathlib.Core.Path.{subst}
use dirextalk_vnext_deployer.Prelude.{
  Str, ◌≡◌, sym, ap, ◌∙◌, inl, inr, ◌⊎◌, Option, none, some, ◌!=◌, str_eq, ne-eq-false,
}
use dirextalk_vnext_deployer.Errors.{
  Result, ok, err, Checked, reject_if, state_unsafe, >>-eq-ok, >>=-eq-ok, reject_if-eq-ok,
}
use dirextalk_vnext_deployer.Errors
use dirextalk_vnext_deployer.Contract.Syntax.{uuid}
use dirextalk_vnext_deployer.Operation.Validity.{valid_record}
use dirextalk_vnext_deployer.Store.Names.{operation_file, render}
use dirextalk_vnext_deployer.Operation.{OperationRecord}
use dirextalk_vnext_deployer.Operation.Steps.{IsValid}
use dirextalk_vnext_deployer.Store.World.{Codec, CodecLaws, ◌>>=◌, lift, World}
use dirextalk_vnext_deployer.Store.Documents.{seal, verify_record}
use dirextalk_vnext_deployer.Store.Files.{read, read_secure, checked_record}
use dirextalk_vnext_deployer.Store.Frame.{
  SameDocuments-sym, SameDocuments, SameDocuments-refl, SameDocuments-trans, Framed, bind-Framed,
  read-same,
}
use dirextalk_vnext_deployer.Store.Transitions.{
  check_if_completed, persist_record, transact, lock_current,
}
use dirextalk_vnext_deployer.Store.Transitions.Current.{
  IsCurrent, IsCurrent-before, lock_current-SameDocuments, lock_current-IsCurrent,
}
use dirextalk_vnext_deployer.Store.Transitions.Durable.{
  check_if_completed-same, OthersKept, OthersKept-extends, SameDocuments-OthersKept,
}
use dirextalk_vnext_deployer.Store.Transitions.Persist.{Persisted, persist_record-Persisted}

-- A success is one change of the current record, which is what is read from then on. An error
-- leaves the old record or, when only the directory's sync failed, the changed one. Nothing else
-- on disk changes.
unfoldable pub Transacted :
    (x : Codec)
    → Str
    → (OperationRecord → Result OperationRecord)
    → World x.Document
    → Result OperationRecord × World x.Document
    → Type 0
Transacted x id change w (ok s, v) =
    (r : OperationRecord) × (t : OperationRecord) × IsCurrent x id w r
    × (change r ≡ ok t)
    × IsValid x.parsers t
    × (check_if_completed x t w ≡ ok tt)
    × (s ≡ seal x t)
    × (read x id v ≡ ok s)
    × OthersKept x id w v
Transacted x id change w (err e, v) =
    ((read x id v ≡ read x id w)
      ⊎ ((r : OperationRecord) × (t : OperationRecord) × IsCurrent x id w r
          × (change r ≡ ok t)
          × IsValid x.parsers t
          × (read x id v ≡ ok (seal x t))))
    × OthersKept x id w v

abbrev pub KeepsId : (OperationRecord → Result OperationRecord) → Type 0
KeepsId change = (r t : OperationRecord) → change r ≡ ok t → t.operation_id ≡ r.operation_id

-- What a read gives is valid and has the identifier that was asked for.
checked_record-ok :
    (x : Codec) (id : Str) (o : Option OperationRecord) {r : OperationRecord}
    → checked_record x id o ≡ ok r
    → IsValid x.parsers r × (r.operation_id ≡ id)
unfolding checked_record
checked_record-ok x id none h = cc
checked_record-ok x id (some o) {r} h =
    let wrong : Checked =
      reject_if (o.operation_id != id) (state_unsafe (render (operation_file id))) in
    let (valid, h1) =
      >>-eq-ok (valid_record x.parsers o)
        (Errors.◌>>◌ (verify_record x o) (Errors.◌>>◌ wrong (ok o))) h in
    let (_, h2) = >>-eq-ok (verify_record x o) (Errors.◌>>◌ wrong (ok o)) h1 in
    let (right, h3) = >>-eq-ok wrong (ok o) h2 in
    let same : o ≡ r = cc h3 in
    (
      subst (IsValid x.parsers) same valid,
      ap (λ s. s.operation_id) (sym same)
          ∙ ne-eq-false o.operation_id id (reject_if-eq-ok (o.operation_id != id) _ right),
    )

pub read-ok :
    (x : Codec) (id : Str) (w : World x.Document) {r : OperationRecord}
    → read x id w ≡ ok r
    → IsValid x.parsers r × (r.operation_id ≡ id)
unfolding read
read-ok x id w h =
    let parse : x.Document → Result OperationRecord =
      λ b. checked_record x id (x.record_from_slice b) in
    let (_, h1) =
      >>-eq-ok (uuid id "operation_id") (Errors.◌>>=◌ (read_secure x (operation_file id) w) parse)
        h in
    let (b, _, h2) = >>=-eq-ok (read_secure x (operation_file id) w) parse h1 in
    checked_record-ok x id (x.record_from_slice b) h2

pub read-operation_id :
    (x : Codec) (id : Str) (w : World x.Document) {r : OperationRecord}
    → read x id w ≡ ok r
    → r.operation_id ≡ id
read-operation_id x id w h = (read-ok x id w h).1

module _ (x : Codec) (id : Str) (change : OperationRecord → Result OperationRecord) where
  Transacted-extends :
      {u v : World x.Document} (p : Result OperationRecord × World x.Document)
      → SameDocuments u v
      → Transacted x id change v p
      → Transacted x id change u p
  unfolding Transacted
  Transacted-extends {u} {v} (ok s, w) same
        (r, t, current, changed, valid, checked, made, reads, kept) =
      (
        r,
        t,
        IsCurrent-before x same current,
        changed,
        valid,
        sym (check_if_completed-same x t u v same) ∙ checked,
        made,
        reads,
        OthersKept-extends x id same kept,
      )
  Transacted-extends {u} {v} (err e, w) same (old_or_new, kept) = (
    elim old_or_new [
      | inl old ↦ inl (old ∙ read-same x id u v same)
      | inr (r, t, current, changed, valid, reads) ↦
          inr (r, t, IsCurrent-before x same current, changed, valid, reads)
    ],
    OthersKept-extends x id same kept,
  )

  Transacted-Framed : Framed x (Transacted x id change)
  unfolding Transacted
  Transacted-Framed = record {
    extends = λ {u} {v} {p} s h. Transacted-extends p s h;
    fails = λ {u} {v} e s. (inl (read-same x id u v s), SameDocuments-OthersKept x id s);
  }

  Persisted-Transacted :
      (r t : OperationRecord) (w : World x.Document) (p : Result OperationRecord × World x.Document)
      → IsCurrent x id w r
      → change r ≡ ok t
      → t.operation_id ≡ id
      → Persisted x t w p
      → Transacted x id change w p
  unfolding Transacted Persisted
  Persisted-Transacted r t w (ok s, v) current changed same (made, reads, valid, checked, kept) = (
    r,
    t,
    current,
    changed,
    valid,
    checked,
    made,
    subst (λ i. read x i v ≡ ok s) same reads,
    subst (λ i. OthersKept x i w v) same kept,
  )
  Persisted-Transacted r t w (err e, v) current changed same (old_or_new, kept) = (
    elim old_or_new [
      | inl old ↦ inl (subst (λ i. read x i v ≡ read x i w) same old)
      | inr (reads, valid) ↦
          inr (r, t, current, changed, valid, subst (λ i. read x i v ≡ ok (seal x t)) same reads)
    ],
    subst (λ i. OthersKept x i w v) same kept,
  )

  pub transact-Transacted :
      CodecLaws x
      → KeepsId change
      → (w : World x.Document) → Transacted x id change w (transact x id change w)
  unfolding transact
  transact-Transacted laws keeps w =
      bind-Framed x Transacted-Framed (lock_current x id)
        (λ r. lift (change r) >>= persist_record x) w (lock_current-SameDocuments x id)
        λ r v current s.
          bind-Framed x Transacted-Framed (lift (change r)) (persist_record x) v SameDocuments-refl
            λ t u changed same.
              Persisted-Transacted r t u (persist_record x t u)
                (IsCurrent-before x (SameDocuments-sym (SameDocuments-trans s same))
                  (lock_current-IsCurrent x id w current))
                (ap (λ p. p.0) changed)
                (keeps r t (ap (λ p. p.0) changed)
                  ∙ read-operation_id x id w (lock_current-IsCurrent x id w current).reads)
                (persist_record-Persisted x laws t u)
