-- ===== src/Store/Transitions/Persist.antt =====
-- How src/deployment.rs `persist_record` ends.
use dirextalk_vnext_deployer.Prelude.{◌≡◌, refl, sym, ap, ◌∙◌, inl, inr, ◌⊎◌, str_eq}
use dirextalk_vnext_deployer.Errors.{Result, ok, err}
use dirextalk_vnext_deployer.Contract.Syntax.{uuid}
use dirextalk_vnext_deployer.Operation.{OperationRecord}
use dirextalk_vnext_deployer.Operation.Validity.{valid_record}
use dirextalk_vnext_deployer.Operation.Steps.{IsValid}
use dirextalk_vnext_deployer.Store.Names.{operation_file}
use dirextalk_vnext_deployer.Store.World.{Codec, CodecLaws, M, ◌>>◌, continue, lift, look, World}
use dirextalk_vnext_deployer.Store.Documents.{seal}
use dirextalk_vnext_deployer.Store.Files.{read, write_path}
use dirextalk_vnext_deployer.Store.Frame.{
  SameDocuments, SameDocuments-refl, SameDocuments-trans, Framed, bind-Framed, read-same,
}
use dirextalk_vnext_deployer.Store.Writes.{Wrote, write_path-Wrote}
use dirextalk_vnext_deployer.Store.Transitions.{persist_record, check_if_completed}
use dirextalk_vnext_deployer.Store.Transitions.Durable.{
  OthersKept, OthersKept-extends, SameDocuments-OthersKept, Touched-OthersKept,
  check_if_completed-same, read-untouched, read-written,
}

-- How a persist of `t` ends.
unfoldable pub Persisted :
    (x : Codec)
    → OperationRecord
    → World x.Document
    → Result OperationRecord × World x.Document
    → Type 0
Persisted x t w (ok s, v) =
    (s ≡ seal x t)
    × (read x t.operation_id v ≡ ok s)
    × IsValid x.parsers t
    × (check_if_completed x t w ≡ ok tt)
    × OthersKept x t.operation_id w v
Persisted x t w (err e, v) =
    ((read x t.operation_id v ≡ read x t.operation_id w)
      ⊎ ((read x t.operation_id v ≡ ok (seal x t)) × IsValid x.parsers t))
    × OthersKept x t.operation_id w v

module _ (x : Codec) (t : OperationRecord) where
  Persisted-extends :
      {u v : World x.Document} (p : Result OperationRecord × World x.Document)
      → SameDocuments u v
      → Persisted x t v p
      → Persisted x t u p
  unfolding Persisted
  Persisted-extends {u} {v} (ok s, w) same (made, reads, valid, checked, kept) = (
    made,
    reads,
    valid,
    sym (check_if_completed-same x t u v same) ∙ checked,
    OthersKept-extends x t.operation_id same kept,
  )
  Persisted-extends {u} {v} (err e, w) same (old_or_new, kept) = (
    elim old_or_new [
      | inl old ↦ inl (old ∙ read-same x t.operation_id u v same)
      | inr new ↦ inr new
    ],
    OthersKept-extends x t.operation_id same kept,
  )

  Persisted-Framed : Framed x (Persisted x t)
  unfolding Persisted
  Persisted-Framed = record {
    extends = λ {u} {v} {p} s h. Persisted-extends p s h;
    fails = λ {u} {v} e s.
        (inl (read-same x t.operation_id u v s), SameDocuments-OthersKept x t.operation_id s);
  }

  abbrev document : x.Document
  document = x.push_newline (x.record_to_vec (seal x t))

  abbrev replaced_by : M x.Document OperationRecord
  replaced_by =
      write_path x (operation_file t.operation_id) (x.record_to_vec (seal x t))
      >> lift (ok (seal x t))

  write-Persisted :
      CodecLaws x
      → (w : World x.Document) → IsValid x.parsers t
      → uuid t.operation_id "operation_id" ≡ ok tt
      → check_if_completed x t w ≡ ok tt
      → Persisted x t w (replaced_by w)
  unfolding Wrote Persisted
  write-Persisted laws w valid id checked =
      from (write_path x (operation_file t.operation_id) (x.record_to_vec (seal x t)) w)
        (write_path-Wrote x (operation_file t.operation_id) (x.record_to_vec (seal x t)) w refl)
    where
      from :
          (p : Result (Unit {0}) × World x.Document)
          → Wrote x (operation_file t.operation_id) document w p
          → Persisted x t w (continue p (λ _. lift (ok (seal x t))))
      from (ok _, v) (done, fits) = (
        refl,
        read-written x laws t w v valid id done.touched.euid_kept done.is_new fits,
        valid,
        checked,
        Touched-OthersKept x t.operation_id done.touched,
      )
      from (err e, v) touched = (
        elim touched.old_or_new [
          | inl old ↦ inl (read-untouched x t.operation_id w v touched.euid_kept old)
          | inr (new, fits) ↦
              inr (read-written x laws t w v valid id touched.euid_kept new fits, valid)
        ],
        Touched-OthersKept x t.operation_id touched,
      )

pub persist_record-Persisted :
    (x : Codec)
    → CodecLaws x
    → (t : OperationRecord) (w : World x.Document) → Persisted x t w (persist_record x t w)
unfolding persist_record
persist_record-Persisted x laws t w =
    let framed = Persisted-Framed x t in
    bind-Framed x framed (lift (valid_record x.parsers t))
      (λ _.
        look (check_if_completed x t)
        >> (lift (uuid t.operation_id "operation_id") >> replaced_by x t))
      w SameDocuments-refl
      λ _ w1 valid _.
        bind-Framed x framed (look (check_if_completed x t))
          (λ _. lift (uuid t.operation_id "operation_id") >> replaced_by x t) w1 SameDocuments-refl
          λ _ w2 checked s2.
            bind-Framed x framed (lift (uuid t.operation_id "operation_id")) (λ _. replaced_by x t)
              w2 SameDocuments-refl
              λ _ w3 id s3. write-Persisted x t laws w3 (ap (λ p. p.0) valid) (ap (λ p. p.0) id) (
                check_if_completed-same x t w1 w3 (SameDocuments-trans s2 s3)
                ∙ ap (λ p. p.0) checked)
