-- ===== src/Store/Claim/Outcome.antt =====
-- How src/deployment.rs `claim` ends.
use dirextalk_vnext_deployer.Prelude.{
  Str, str_eq, bytes, ◌++◌, ◌≡◌, refl, ap, ◌∙◌, Option, none, some, inl, inr, ◌!=◌, ne-eq-false,
}
use dirextalk_vnext_deployer.Errors.{
  Result, ok, err, operation_conflict, reject_if-eq-ok, io, not_found, >>-eq-ok,
}
use dirextalk_vnext_deployer.AgentBundle.{AgentBundle}
use dirextalk_vnext_deployer.Contract.{HostTuple}
use dirextalk_vnext_deployer.Contract.Syntax.{uuid}
use dirextalk_vnext_deployer.Manifest.{DeploymentManifest}
use dirextalk_vnext_deployer.Operation.{OperationRecord}
use dirextalk_vnext_deployer.Operation.Validity.{valid_record}
use dirextalk_vnext_deployer.Operation.Steps.{IsValid}
use dirextalk_vnext_deployer.Store.Names.{operation_file, owner_file}
use dirextalk_vnext_deployer.Store.World.{
  Codec, CodecLaws, M, ◌>>=◌, ◌>>◌, continue, lift, look, World, TargetOwnership,
}
use dirextalk_vnext_deployer.Store.Documents.{
  seal, ownership_from_record, verify_ownership, operation_identity_digest, ownership_fence,
}
use dirextalk_vnext_deployer.Store.Files.{
  read, write_path, absent_ok, serialize_bounded, ensure_root, lock,
}
use dirextalk_vnext_deployer.Store.Frame.{
  SameDocuments-refl, SameDocuments-trans, bind-Framed, read-same, ensure_root-SameDocuments,
  lock-SameDocuments,
}
use dirextalk_vnext_deployer.Store.Transitions.Durable.{valid_record-seal}
use dirextalk_vnext_deployer.Store.Claim.{
  claim, claim_admitted, claim_locked, publish, check_existing, reconcile_if_absent,
  validate_owner_transition, admit,
}
use dirextalk_vnext_deployer.Store.Claim.Owner.{IsValid-uuid, verify_ownership-from_record}
use dirextalk_vnext_deployer.Store.Claim.Writes.{
  RecordWrote, write_path-RecordWrote, write_path-OwnerWrote,
}
use dirextalk_vnext_deployer.Store.Claim.Ends.{
  Claimed, Claimed-Framed, OwnerWrote-Claimed, after_RecordWrote, owner_document,
}

absent_ok-some :
    (m : Result OperationRecord) {s : OperationRecord} → absent_ok m ≡ ok (some s) → m ≡ ok s
absent_ok-some (ok a) h = cc
absent_ok-some (err (io not_found name)) h = cc
absent_ok-some (err e) h = cc

-- What is known of the sealed record before `publish`.
record Admitted (x : Codec) (r : OperationRecord) (fence : Str) : Type 0 where
  is_valid : IsValid x.parsers r
  is_uuid : uuid r.operation_id "operation_id" ≡ ok tt
  is_fence : ownership_fence x r.target r.binding.host ≡ ok fence

module _ (x : Codec) (laws : CodecLaws x) (r : OperationRecord) (fence : Str) where
  Admitted-verified :
      Admitted x r fence → verify_ownership x (ownership_from_record x (seal x r)) ≡ ok tt
  unfolding seal
  Admitted-verified a =
      verify_ownership-from_record x laws (seal x r) a.is_fence a.is_uuid
        (valid_record-seal x laws r ∙ a.is_valid)

  owner_write-Claimed :
      (s : OperationRecord) (w : World x.Document)
      → Admitted x r fence
      → read x r.operation_id w ≡ ok s
      → operation_identity_digest x s ≡ operation_identity_digest x (seal x r)
      → Claimed x r w ((write_path x (owner_file fence) (owner_document x r) >> lift (ok s)) w)
  owner_write-Claimed s w a reads identity =
      OwnerWrote-Claimed x r fence s w (write_path x (owner_file fence) (owner_document x r) w)
        a.is_fence reads identity (write_path-OwnerWrote x laws r fence w (Admitted-verified a))

  abbrev write_owner : M x.Document OperationRecord
  write_owner = write_path x (owner_file fence) (owner_document x r) >> lift (ok (seal x r))

  both_writes-Claimed :
      (w : World x.Document)
      → Admitted x r fence
      → absent_ok (read x r.operation_id w) ≡ ok none
      → Claimed x r w (
          (write_path x (operation_file r.operation_id) (x.record_to_vec (seal x r)) >> write_owner)
            w)
  unfolding RecordWrote Claimed
  both_writes-Claimed w a absent =
      from (write_path x (operation_file r.operation_id) (x.record_to_vec (seal x r)) w)
        (write_path-RecordWrote x laws r w a.is_valid a.is_uuid)
    where
      from :
          (p : Result (Unit {0}) × World x.Document)
          → RecordWrote x r w p
          → Claimed x r w (continue p (λ _. write_owner))
      from (ok _, v) wrote =
          after_RecordWrote x r w v (write_owner v) absent wrote
            (owner_write-Claimed (seal x r) v a wrote.0 refl)
      from (err e, v) (old_or_new, owners, kept) = (
        elim old_or_new [ inl old ↦ inl old | inr new ↦ inr (absent, new) ],
        λ other. inl (owners other),
        kept,
      )

  publish-Claimed :
      (existing : Option OperationRecord) (w : World x.Document)
      → Admitted x r fence
      → absent_ok (read x r.operation_id w) ≡ ok existing
      → check_existing x (seal x r) existing ≡ ok tt
      → Claimed x r w (publish x (seal x r) (ownership_from_record x (seal x r)) fence existing w)
  unfolding publish check_existing seal
  publish-Claimed (some s) w a reads identity =
      owner_write-Claimed s w a (absent_ok-some (read x r.operation_id w) reads) (
        ne-eq-false _ _ (
          reject_if-eq-ok (operation_identity_digest x s != operation_identity_digest x (seal x r))
            operation_conflict identity))
  publish-Claimed none w a absent identity =
      bind-Framed x (Claimed-Framed x r) (lift (uuid r.operation_id "operation_id"))
        (λ _.
          write_path x (operation_file r.operation_id) (x.record_to_vec (seal x r)) >> write_owner)
        w SameDocuments-refl
        λ _ v _ same.
          both_writes-Claimed v a (ap absent_ok (read-same x r.operation_id w v same) ∙ absent)

module _ (x : Codec) (r : OperationRecord) where
  abbrev pub owner_of : TargetOwnership
  owner_of = ownership_from_record x (seal x r)

  abbrev pub after_lock : Option OperationRecord → Str → M x.Document OperationRecord
  after_lock existing fence =
      look (validate_owner_transition x fence (seal x r) owner_of)
      >> publish x (seal x r) owner_of fence existing

  abbrev pub with_fence : Option OperationRecord → Str → M x.Document OperationRecord
  with_fence existing fence =
      look (reconcile_if_absent x (seal x r) owner_of (owner_file fence) existing)
      >> (lock x (bytes "target-" ++ fence) >> after_lock existing fence)

  abbrev pub with_existing : Option OperationRecord → M x.Document OperationRecord
  with_existing existing =
      lift (check_existing x (seal x r) existing)
      >> (lift (ownership_fence x r.target r.binding.host) >>= with_fence existing)

  abbrev pub locked_by_id : M x.Document OperationRecord
  locked_by_id = lock x (bytes "id-" ++ r.operation_id) >> claim_locked x (seal x r) owner_of

module _ (x : Codec) (laws : CodecLaws x) (r : OperationRecord) where
  with_fence-Claimed :
      (existing : Option OperationRecord) (fence : Str) (w : World x.Document)
      → Admitted x r fence
      → absent_ok (read x r.operation_id w) ≡ ok existing
      → check_existing x (seal x r) existing ≡ ok tt
      → Claimed x r w (with_fence x r existing fence w)
  with_fence-Claimed existing fence w a reads same =
      bind-Framed x (Claimed-Framed x r)
        (look (reconcile_if_absent x (seal x r) (owner_of x r) (owner_file fence) existing))
        (λ _. lock x (bytes "target-" ++ fence) >> after_lock x r existing fence) w
        SameDocuments-refl
        λ _ w1 _ s1.
          bind-Framed x (Claimed-Framed x r) (lock x (bytes "target-" ++ fence))
            (λ _. after_lock x r existing fence) w1
            (lock-SameDocuments x (bytes "target-" ++ fence))
            λ _ w2 _ s2.
              bind-Framed x (Claimed-Framed x r)
                (look (validate_owner_transition x fence (seal x r) (owner_of x r)))
                (λ _. publish x (seal x r) (owner_of x r) fence existing) w2 SameDocuments-refl
                λ _ w3 _ s3.
                  let s = SameDocuments-trans s1 (SameDocuments-trans s2 s3) in
                  publish-Claimed x laws r fence existing w3 a
                    (ap absent_ok (read-same x r.operation_id w w3 s) ∙ reads) same

  claim_locked-Claimed :
      (w : World x.Document)
      → IsValid x.parsers r
      → uuid r.operation_id "operation_id" ≡ ok tt
      → Claimed x r w (claim_locked x (seal x r) (owner_of x r) w)
  unfolding claim_locked seal
  claim_locked-Claimed w valid id =
      bind-Framed x (Claimed-Framed x r) (look (λ v. absent_ok (read x r.operation_id v)))
        (with_existing x r) w SameDocuments-refl
        λ existing w1 reads s1.
          bind-Framed x (Claimed-Framed x r) (lift (check_existing x (seal x r) existing))
            (λ _. lift (ownership_fence x r.target r.binding.host) >>= with_fence x r existing) w1
            SameDocuments-refl
            λ _ w2 same s2.
              bind-Framed x (Claimed-Framed x r) (lift (ownership_fence x r.target r.binding.host))
                (with_fence x r existing) w2 SameDocuments-refl
                λ fence w3 fenced s3.
                  with_fence-Claimed existing fence w3
                    (record { is_valid = valid; is_uuid = id; is_fence = ap (λ p. p.0) fenced })
                    (ap absent_ok (
                        read-same x r.operation_id w w3
                          (SameDocuments-trans s1 (SameDocuments-trans s2 s3)))
                      ∙ ap (λ p. p.0) reads)
                    (ap (λ p. p.0) same)

  claim_admitted-Claimed :
      (w : World x.Document) → IsValid x.parsers r → Claimed x r w (claim_admitted x r w)
  unfolding claim_admitted seal
  claim_admitted-Claimed w valid =
      bind-Framed x (Claimed-Framed x r) (lift (serialize_bounded x (x.record_to_vec (seal x r))))
        (λ _.
          lift (serialize_bounded x (owner_document x r)) >>= λ _. ensure_root >> locked_by_id x r)
        w SameDocuments-refl
        λ _ w1 _ _.
          bind-Framed x (Claimed-Framed x r) (lift (serialize_bounded x (owner_document x r)))
            (λ _. ensure_root >> locked_by_id x r) w1 SameDocuments-refl
            λ _ w2 _ _.
              bind-Framed x (Claimed-Framed x r) ensure_root (λ _. locked_by_id x r) w2
                ensure_root-SameDocuments
                λ _ w3 _ _.
                  bind-Framed x (Claimed-Framed x r) (lock x (bytes "id-" ++ r.operation_id))
                    (λ _. claim_locked x (seal x r) (owner_of x r)) w3
                    (lock-SameDocuments x (bytes "id-" ++ r.operation_id))
                    λ _ w4 _ _. claim_locked-Claimed w4 valid (IsValid-uuid x r valid)

-- Where a serialized value is read back and a digest is hexadecimal, `claim` ends as `Claimed`
-- says, however the replacements of its two files ended.
pub claim-Claimed :
    (x : Codec)
    → CodecLaws x
    → (bundle_digest : AgentBundle → Str) (m : DeploymentManifest) (r : OperationRecord)
      (proof : HostTuple) (w : World x.Document)
    → Claimed x r w (claim x bundle_digest m r proof w)
unfolding claim admit
claim-Claimed x laws bundle_digest m r proof w =
    bind-Framed x (Claimed-Framed x r) (lift (admit x bundle_digest m r proof))
      (λ _. claim_admitted x r) w SameDocuments-refl
      λ _ v admitted _.
        claim_admitted-Claimed x laws r v
          (>>-eq-ok (valid_record x.parsers r) _ (ap (λ p. p.0) admitted)).0
