-- ===== src/Alpha/Store/Advance.antt =====
-- src/alpha_deployment.rs: `AlphaStateStore::advance` under every end of its calls.
use dirextalk_vnext_deployer.Prelude.{
  false, ◌||◌, Option, none, some, Str, str_eq, ◌≡◌, refl, sym, ap, ◌∙◌, ◌==◌, ◌!=◌, ne-eq-false,
  Bool-cases, ne_self, ne_of_eq, ◌⊎◌, inl, inr, is_empty, ltb, length,
}
use dirextalk_vnext_deployer.Errors.{
  Result, ok, err, reject_if, operation_conflict, >>-eq-ok, >>=-eq-ok, reject_if-eq-ok,
}
use dirextalk_vnext_deployer.Alpha.{
  AlphaLifecycle, ReadinessFacts, AcceptanceObservation, AlphaLifecycleRecord, OperationFence,
  Crates,
}
use dirextalk_vnext_deployer.Alpha.Syntax.{uuid_v7}
use dirextalk_vnext_deployer.Alpha.Package.{max_manifest_bytes}
use dirextalk_vnext_deployer.Alpha.Lifecycle.{alpha_advance, verify_alpha}
use dirextalk_vnext_deployer.Alpha.Lifecycle.Steps.{
  alpha_advance-Advanced, Advanced-SameAlpha, Advanced-verify_alpha,
}
use dirextalk_vnext_deployer.Alpha.Store.{
  alpha_name_eq, alpha_file, alpha_temp, put, file_name, regular, AlphaWorld, continue, serialized,
  decoded, decode_canonical, load_canonical, checked_alpha, alpha_read, remove_stale, write_new,
  rename, alpha_replace, alpha_store_advance,
}
use dirextalk_vnext_deployer.Alpha.Store.Framed.{
  FilesSame, FilesSame-trans, remove_stale-FilesSame, Failed, Wrote, write_new-FilesSame,
  write_new-Wrote, rename-Renamed,
}

module _ (x : Crates) where
  -- The record's file as it was, or whole and new; the other records' files as they were.
  pub record Replaced (id : Str) (s : AlphaLifecycleRecord) (w : AlphaWorld)
      (out : Result (Unit {0}) × AlphaWorld) : Type 0 where
    pub here :
        (Failed x out × (out.1.entries (alpha_file id) ≡ w.entries (alpha_file id)))
        ⊎ (out.1.entries (alpha_file id) ≡ some (regular (serialized x s)))
    pub elsewhere :
        (j : Str)
        → (alpha_file j == alpha_file id) ≡ false
        → out.1.entries (alpha_file j) ≡ w.entries (alpha_file j)

  after_write :
      (id : Str) (s : AlphaLifecycleRecord) (w : AlphaWorld) (out : Result (Unit {0}) × AlphaWorld)
      → FilesSame w out.1
      → Failed x out ⊎ Wrote x (alpha_temp id) (serialized x s) out
      → Replaced id s w (continue out (λ _. rename x (alpha_temp id) (alpha_file id)))
  after_write id s w (err e, v) same either = record {
    here = inl ((e, refl), same id);
    elsewhere = λ j h. same j;
  }
  after_write id s w (ok tt, v) same (inl (e, bad)) = cc
  after_write id s w (ok tt, v) same (inr (_, whole)) =
      let r = rename-Renamed x id v in
      record {
        here = elim r.here [
          | inl (failed, kept) ↦ inl (failed, kept ∙ same id)
          | inr moved ↦ inr (moved ∙ whole)
        ];
        elsewhere = λ j h. r.elsewhere j h ∙ same j;
      }

  after_remove :
      (id : Str) (s : AlphaLifecycleRecord) (w : AlphaWorld) (out : Result (Unit {0}) × AlphaWorld)
      → FilesSame w out.1
      → Replaced id s w (
          continue out (λ _ v.
            continue
              (write_new x (alpha_temp id) s v)
              (λ _. rename x (alpha_temp id) (alpha_file id))))
  after_remove id s w (err e, v) same = record {
    here = inl ((e, refl), same id);
    elsewhere = λ j h. same j;
  }
  after_remove id s w (ok tt, v) same =
      after_write id s w (write_new x (alpha_temp id) s v)
        (FilesSame-trans w v (write_new x (alpha_temp id) s v).1 same
          (write_new-FilesSame x id s v))
        (write_new-Wrote x (alpha_temp id) s v)

  pub alpha_replace-Replaced :
      (id : Str) (s : AlphaLifecycleRecord) (w : AlphaWorld)
      → Replaced id s w (alpha_replace x id s w)
  unfolding alpha_replace
  alpha_replace-Replaced id s w =
      after_remove id s w (remove_stale x (alpha_temp id) (w.entries (alpha_temp id)) w)
        (remove_stale-FilesSame x id (w.entries (alpha_temp id)) w)

  -- JSON reads back what it wrote of this record, and the file is of an accepted size.
  pub record Readable (s : AlphaLifecycleRecord) : Type 0 where
    pub parses : x.parse_value (serialized x s) ≡ ok (x.to_value s)
    pub decodes : x.record_of (x.to_value s) ≡ some s
    pub fits :
        (is_empty (serialized x s) || ltb max_manifest_bytes (length (serialized x s))) ≡ false

  pub alpha_read-same :
      (id : Str) (v w : AlphaWorld)
      → v.entries (alpha_file id) ≡ w.entries (alpha_file id)
      → alpha_read x id v ≡ alpha_read x id w
  unfolding alpha_read
  alpha_read-same id v w h = rw h refl

  -- A whole file of a record that verifies is read as that record.
  pub alpha_read-serialized :
      (id : Str) (s : AlphaLifecycleRecord) (w : AlphaWorld)
      → Readable s
      → uuid_v7 x id "operation_id" ≡ ok tt
      → verify_alpha x s ≡ ok tt
      → s.operation_fence.operation_id ≡ id
      → w.entries (alpha_file id) ≡ some (regular (serialized x s))
      → alpha_read x id w ≡ ok s
  unfolding alpha_read load_canonical decode_canonical decoded checked_alpha
  alpha_read-serialized id s w readable named v same there =
      rw
        (
          named,
          there,
          readable.fits,
          readable.parses,
          ne_self (serialized x s),
          readable.decodes,
          v,
          ne_of_eq same,
        )
        refl

  pub alpha_read-checked :
      (id : Str) (r : AlphaLifecycleRecord) (w : AlphaWorld)
      → alpha_read x id w ≡ ok r
      → (uuid_v7 x id "operation_id" ≡ ok tt)
        × (verify_alpha x r ≡ ok tt)
        × (r.operation_fence.operation_id ≡ id)
  unfolding alpha_read checked_alpha
  alpha_read-checked id r w h =
      let (named, h1) = >>-eq-ok (uuid_v7 x id "operation_id") _ h in
      let (t, _, h2) =
        >>=-eq-ok (load_canonical x (file_name (alpha_file id)) (w.entries (alpha_file id)))
          (λ t. checked_alpha x id t) h1 in
      let (verified, h3) = >>-eq-ok (verify_alpha x t) _ h2 in
      let (same, h4) =
        >>-eq-ok (reject_if (t.operation_fence.operation_id != id) operation_conflict) (ok t) h3 in
      let is : t ≡ r = cc in
      (
        named,
        rw is at verified,
        ap (λ (u : AlphaLifecycleRecord). u.operation_fence.operation_id) (sym is)
            ∙ ne-eq-false t.operation_fence.operation_id id (reject_if-eq-ok _ _ same),
      )

  -- How one durable advance from `r` to `s` may end.
  pub record DurablyAdvanced (id : Str) (r s : AlphaLifecycleRecord) (w : AlphaWorld)
      (out : Result AlphaLifecycleRecord × AlphaWorld) : Type 0 where
    pub read_back : (Failed x out × (alpha_read x id out.1 ≡ ok r)) ⊎ (alpha_read x id out.1 ≡ ok s)
    pub returned : Failed x out ⊎ (out.0 ≡ ok s)
    pub others :
        (j : Str)
        → put (alpha_file id) none out.1.entries (alpha_file j)
          ≡ put (alpha_file id) none w.entries (alpha_file j)

  others_same :
      (id : Str) (v w : AlphaWorld) (j : Str)
      → ((alpha_file j == alpha_file id) ≡ false
          → v.entries (alpha_file j) ≡ w.entries (alpha_file j))
      → put (alpha_file id) none v.entries (alpha_file j)
        ≡ put (alpha_file id) none w.entries (alpha_file j)
  others_same id v w j same = elim (Bool-cases (alpha_file j == alpha_file id)) [
    | inl t ↦ rw t refl
    | inr f ↦ rw f (same f)
  ]

  after_replace :
      (id : Str) (r s : AlphaLifecycleRecord) (w : AlphaWorld)
      (out : Result (Unit {0}) × AlphaWorld)
      → alpha_read x id w ≡ ok r
      → Readable s
      → verify_alpha x s ≡ ok tt
      → s.operation_fence.operation_id ≡ id
      → Replaced id s w out
      → DurablyAdvanced id r s w (continue out (λ _ v. (ok s, v)))
  after_replace id r s w (err e, v) read readable verified same o =
      let (named, _, _) = alpha_read-checked id r w read in
      record {
        read_back = elim o.here [
          | inl (failed, kept) ↦ inl ((e, refl), alpha_read-same id v w kept ∙ read)
          | inr there ↦ inr (alpha_read-serialized id s v readable named verified same there)
        ];
        returned = inl (e, refl);
        others = λ j. others_same id v w j (o.elsewhere j);
      }
  after_replace id r s w (ok tt, v) read readable verified same o =
      let (named, _, _) = alpha_read-checked id r w read in
      record {
        read_back = elim o.here [
          | inl ((e, bad), kept) ↦ cc
          | inr there ↦ inr (alpha_read-serialized id s v readable named verified same there)
        ];
        returned = inr refl;
        others = λ j. others_same id v w j (o.elsewhere j);
      }

  -- A durable advance is atomic where the advanced record can be read: where the operation is read as
  -- `r`, `r` may be advanced to `s`, and the JSON of `s` is at most 1 MiB, which the write does not test,
  -- and is read back, the operation is read afterwards as `s`, or the call has failed and it is still
  -- read as `r`, whatever the ends of the calls; a result other than a failure is `s`; and the files of
  -- all other operations are as before.
  pub alpha_store_advance-DurablyAdvanced :
      (id : Str) (r s : AlphaLifecycleRecord) (next : AlphaLifecycle)
      (facts : Option ReadinessFacts) (acceptance : Option AcceptanceObservation) (w : AlphaWorld)
      → alpha_read x id w ≡ ok r
      → alpha_advance x r next facts acceptance ≡ ok s
      → Readable s
      → DurablyAdvanced id r s w (alpha_store_advance x id next facts acceptance w)
  unfolding alpha_store_advance
  alpha_store_advance-DurablyAdvanced id r s next facts acceptance w read moved readable =
      let (named, _, owner) = alpha_read-checked id r w read in
      let a = alpha_advance-Advanced x r s next facts acceptance moved in
      let (same, _) = Advanced-SameAlpha x r s next facts acceptance a in
      let same_id : s.operation_fence.operation_id ≡ id =
        ap (λ (f : OperationFence). f.operation_id) (sym same.same_operation) ∙ owner in
      rw (read, moved, named)
        (after_replace id r s w (alpha_replace x id s w) read readable
          (Advanced-verify_alpha x r s next facts acceptance a) same_id
          (alpha_replace-Replaced id s w))
