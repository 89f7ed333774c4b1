-- ===== src/Store/Claim/Ends.antt =====
-- The ways in which src/deployment.rs `claim` may end.
use dirextalk_vnext_deployer.Prelude.{Str, str_eq, ◌≡◌, ◌≢◌, sym, ap, ◌∙◌, none, inl, inr, ◌⊎◌}
use dirextalk_vnext_deployer.Errors.{Result, ok, err}
use dirextalk_vnext_deployer.Operation.{OperationRecord}
use dirextalk_vnext_deployer.Store.World.{Codec, continue, lift, World}
use dirextalk_vnext_deployer.Store.Documents.{
  seal, ownership_from_record, operation_identity_digest, ownership_fence,
}
use dirextalk_vnext_deployer.Store.Files.{read, read_owner, absent_ok}
use dirextalk_vnext_deployer.Store.Frame.{SameDocuments, Framed, read-same, read_owner-same}
use dirextalk_vnext_deployer.Store.Claim.Writes.{
  ClaimKept, ClaimKept-trans, SameDocuments-ClaimKept, RecordWrote, OwnerWrote,
}

-- The record that is returned: the one that was there, or the given one, sealed.
unfoldable pub Origin : (x : Codec) → OperationRecord → World x.Document → OperationRecord → Type 0
Origin x r w s =
    (read x r.operation_id w ≡ ok s)
    ⊎ ((absent_ok (read x r.operation_id w) ≡ ok none) × (s ≡ seal x r))

-- How a claim of `r` may end. After a success the record that is returned is read, has the
-- identity of `r`, and is the one that the target's projection names. After an error the record
-- is as before, or new where there was none, and a projection that is new names a record that can be read. No other
-- document changes.
unfoldable pub Claimed :
    (x : Codec)
    → OperationRecord
    → World x.Document
    → Result OperationRecord × World x.Document
    → Type 0
Claimed x r w (ok s, v) =
    (fence : Str) × (ownership_fence x r.target r.binding.host ≡ ok fence)
    × Origin x r w s
    × (operation_identity_digest x s ≡ operation_identity_digest x (seal x r))
    × (read x r.operation_id v ≡ ok s)
    × (read_owner x fence v ≡ ok (ownership_from_record x (seal x r)))
    × ((other : Str) → fence ≢ other → read_owner x other v ≡ read_owner x other w)
    × ClaimKept x r.operation_id w v
Claimed x r w (err e, v) =
    ((read x r.operation_id v ≡ read x r.operation_id w)
      ⊎ ((absent_ok (read x r.operation_id w) ≡ ok none)
          × (read x r.operation_id v ≡ ok (seal x r))))
    × ((other : Str)
        → (read_owner x other v ≡ read_owner x other w)
          ⊎ ((read_owner x other v ≡ ok (ownership_from_record x (seal x r)))
              × (s : OperationRecord) × (read x r.operation_id v ≡ ok s)))
    × ClaimKept x r.operation_id w v

module _ (x : Codec) (r : OperationRecord) where
  Origin-same :
      {u v : World x.Document} (s : OperationRecord)
      → SameDocuments u v
      → Origin x r v s
      → Origin x r u s
  unfolding Origin
  Origin-same {u} {v} s same o = elim o [
    | inl old ↦ inl (sym (read-same x r.operation_id u v same) ∙ old)
    | inr (absent, new) ↦
        inr (ap absent_ok (sym (read-same x r.operation_id u v same)) ∙ absent, new)
  ]

  Claimed-extends :
      {u v : World x.Document} (p : Result OperationRecord × World x.Document)
      → SameDocuments u v
      → Claimed x r v p
      → Claimed x r u p
  unfolding Claimed
  Claimed-extends {u} {v} (ok s, w) same
        (fence, is_fence, origin, identity, reads, owned, others, kept) =
      (
        fence,
        is_fence,
        Origin-same s same origin,
        identity,
        reads,
        owned,
        λ other h. others other h ∙ read_owner-same x other u v same,
        ClaimKept-trans x r.operation_id (SameDocuments-ClaimKept x r.operation_id same) kept,
      )
  Claimed-extends {u} {v} (err e, w) same (old_or_new, owners, kept) = (
    elim old_or_new [
      | inl old ↦ inl (old ∙ read-same x r.operation_id u v same)
      | inr (absent, new) ↦
          inr (ap absent_ok (sym (read-same x r.operation_id u v same)) ∙ absent, new)
    ],
    λ other. elim (owners other) [
      | inl old ↦ inl (old ∙ read_owner-same x other u v same)
      | inr new ↦ inr new
    ],
    ClaimKept-trans x r.operation_id (SameDocuments-ClaimKept x r.operation_id same) kept,
  )

  pub Claimed-Framed : Framed x (Claimed x r)
  unfolding Claimed
  Claimed-Framed = record {
    extends = λ {u} {v} {p} s h. Claimed-extends p s h;
    fails = λ {u} {v} e s. (
      inl (read-same x r.operation_id u v s),
      λ other. inl (read_owner-same x other u v s),
      SameDocuments-ClaimKept x r.operation_id s,
    );
  }

  abbrev pub owner_document : x.Document
  owner_document = x.ownership_to_vec (ownership_from_record x (seal x r))

  -- The projection's write, when the record can be read.
  pub OwnerWrote-Claimed :
      (fence : Str) (s : OperationRecord) (w : World x.Document)
      (p : Result (Unit {0}) × World x.Document)
      → ownership_fence x r.target r.binding.host ≡ ok fence
      → read x r.operation_id w ≡ ok s
      → operation_identity_digest x s ≡ operation_identity_digest x (seal x r)
      → OwnerWrote x r fence w p
      → Claimed x r w (continue p (λ _. lift (ok s)))
  unfolding OwnerWrote Claimed Origin
  OwnerWrote-Claimed fence s w (ok _, v) is_fence reads identity (owned, others, same, kept) =
      (fence, is_fence, inl reads, identity, same ∙ reads, owned, others, kept)
  OwnerWrote-Claimed fence s w (err e, v) is_fence reads identity (owners, same, kept) = (
    inl same,
    λ other. elim (owners other) [ inl old ↦ inl old | inr new ↦ inr (new, s, same ∙ reads) ],
    kept,
  )

  -- The same after the record's write.
  pub after_RecordWrote :
      (u w : World x.Document) (p : Result OperationRecord × World x.Document)
      → absent_ok (read x r.operation_id u) ≡ ok none
      → RecordWrote x r u (ok tt, w)
      → Claimed x r w p
      → Claimed x r u p
  unfolding RecordWrote Claimed Origin
  after_RecordWrote u w (ok q, v) absent (reads, owners, kept)
        (f, is_fence, origin, identity, read_later, owned, others, rest) =
      (
        f,
        is_fence,
        elim origin [ inl there ↦ inr (absent, cc) | inr (_, new) ↦ inr (absent, new) ],
        identity,
        read_later,
        owned,
        λ other h. others other h ∙ owners other,
        ClaimKept-trans x r.operation_id kept rest,
      )
  after_RecordWrote u w (err e, v) absent (reads, owners, kept) (old_or_new, later, rest) = (
    inr (absent, elim old_or_new [ inl old ↦ old ∙ reads | inr (_, new) ↦ new ]),
    λ other. elim (later other) [ inl old ↦ inl (old ∙ owners other) | inr new ↦ inr new ],
    ClaimKept-trans x r.operation_id kept rest,
  )
