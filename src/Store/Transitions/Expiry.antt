-- ===== src/Store/Transitions/Expiry.antt =====
-- How src/deployment.rs `expire_unclaimed_operation` ends.
use mathlib.Core.Path.{subst}
use dirextalk_vnext_deployer.Prelude.{
  Str, ◌≡◌, refl, sym, ap, ◌∙◌, inl, inr, ◌⊎◌, Bool, Bool-cases, ◌==◌, ◌!=◌, eq_iff, ne-eq-false,
  if◌then◌else◌,
}
use dirextalk_vnext_deployer.Errors.{
  Result, ok, err, reject_if, reject_if-eq-ok, operation_conflict, Checked, >>=-eq-ok,
}
use dirextalk_vnext_deployer.Connector.{ConnectorClaim, claim_expired, claim_phase_eq}
use dirextalk_vnext_deployer.Operation.{
  OperationRecord, expired_unclaimed, phase_eq, expire_unclaimed,
}
use dirextalk_vnext_deployer.Operation.Inversion.{expire-inv}
use dirextalk_vnext_deployer.Store.World.{Codec, CodecLaws, M, ◌>>=◌, ◌>>◌, lift, look, World}
use dirextalk_vnext_deployer.Store.Documents.{seal}
use dirextalk_vnext_deployer.Store.Files.{read, read_claim}
use dirextalk_vnext_deployer.Store.Frame.{
  SameDocuments, SameDocuments-refl, SameDocuments-sym, SameDocuments-trans, Framed, bind-Framed,
  read-same, read_claim-same,
}
use dirextalk_vnext_deployer.Store.Transitions.{
  expire_unclaimed_operation, expire_or_keep, check_claim_expired, persist_record, lock_current,
}
use dirextalk_vnext_deployer.Store.Transitions.Current.{
  IsCurrent, IsCurrent-before, lock_current-SameDocuments, lock_current-IsCurrent,
}
use dirextalk_vnext_deployer.Store.Transitions.Durable.{
  OthersKept, OthersKept-extends, SameDocuments-OthersKept,
}
use dirextalk_vnext_deployer.Store.Transitions.Persist.{Persisted, persist_record-Persisted}
use dirextalk_vnext_deployer.Store.Transitions.Transact.{read-operation_id}

-- The connector's claim by the operation is read, and is expired.
pub ClaimExpired : (x : Codec) → (id instance_id : Str) → World x.Document → Type 0
ClaimExpired x id instance_id w =
    (c : ConnectorClaim) × (read_claim x instance_id id w ≡ ok c) × (c.phase ≡ claim_expired)

-- How an expiry may end. A success needs the connector's expired claim; the current operation is
-- returned where it had expired, and is read as expired from then on otherwise. After an error the
-- record is as before, or it is the expiry of the current one. No other document changes.
unfoldable pub Expired :
    (x : Codec)
    → (id instance_id : Str) → World x.Document
    → Result OperationRecord × World x.Document
    → Type 0
Expired x id i w (ok s, v) =
    (r : OperationRecord) × IsCurrent x id w r
    × ClaimExpired x id i w
    × (s.phase ≡ expired_unclaimed)
    × (((s ≡ r) × SameDocuments w v)
        ⊎ ((t : OperationRecord) × (expire_unclaimed r i ≡ ok t)
            × (s ≡ seal x t)
            × (read x id v ≡ ok s)))
    × OthersKept x id w v
Expired x id i w (err e, v) =
    ((read x id v ≡ read x id w)
      ⊎ ((r : OperationRecord) × (t : OperationRecord) × IsCurrent x id w r
          × ClaimExpired x id i w
          × (expire_unclaimed r i ≡ ok t)
          × (read x id v ≡ ok (seal x t))))
    × OthersKept x id w v

module _ (x : Codec) (id i : Str) where
  ClaimExpired-before :
      {u v : World x.Document} → SameDocuments u v → ClaimExpired x id i v → ClaimExpired x id i u
  unfolding ClaimExpired
  ClaimExpired-before {u} {v} s (c, reads, at) = (c, sym (read_claim-same x i id u v s) ∙ reads, at)

  Expired-extends :
      {u v : World x.Document} (p : Result OperationRecord × World x.Document)
      → SameDocuments u v
      → Expired x id i v p
      → Expired x id i u p
  unfolding Expired
  Expired-extends {u} {v} (ok s, w) same (r, current, claim, at, how, kept) = (
    r,
    IsCurrent-before x same current,
    ClaimExpired-before same claim,
    at,
    elim how [
      | inl (returned, quiet) ↦ inl (returned, SameDocuments-trans same quiet)
      | inr changed ↦ inr changed
    ],
    OthersKept-extends x id same kept,
  )
  Expired-extends {u} {v} (err e, w) same (how, kept) = (
    elim how [
      | inl old ↦ inl (old ∙ read-same x id u v same)
      | inr (r, t, current, claim, changed, reads) ↦
          inr
            (r, t, IsCurrent-before x same current, ClaimExpired-before same claim, changed, reads)
    ],
    OthersKept-extends x id same kept,
  )

  Expired-Framed : Framed x (Expired x id i)
  unfolding Expired
  Expired-Framed = record {
    extends = λ {u} {v} {p} s h. Expired-extends p s h;
    fails = λ {u} {v} e s. (inl (read-same x id u v s), SameDocuments-OthersKept x id s);
  }

  Persisted-Expired :
      (r t : OperationRecord) (w : World x.Document) (p : Result OperationRecord × World x.Document)
      → IsCurrent x id w r
      → ClaimExpired x id i w
      → expire_unclaimed r i ≡ ok t
      → Persisted x t w p
      → Expired x id i w p
  unfolding Expired Persisted seal
  Persisted-Expired r t w (ok s, v) current claim changed (made, reads, _, _, kept) =
      let (_, _, _, is_moved) = expire-inv r t i changed in
      let same = ap (λ q. q.operation_id) is_moved ∙ read-operation_id x id w current.reads in
      (
        r,
        current,
        claim,
        ap (λ q. q.phase) made ∙ ap (λ q. q.phase) is_moved,
        inr (t, changed, made, subst (λ n. read x n v ≡ ok s) same reads),
        subst (λ n. OthersKept x n w v) same kept,
      )
  Persisted-Expired r t w (err e, v) current claim changed (how, kept) =
      let (_, _, _, is_moved) = expire-inv r t i changed in
      let same = ap (λ q. q.operation_id) is_moved ∙ read-operation_id x id w current.reads in
      (
        elim how [
          | inl old ↦ inl (subst (λ n. read x n v ≡ read x n w) same old)
          | inr (reads, _) ↦
              inr
                (r, t, current, claim, changed, subst (λ n. read x n v ≡ ok (seal x t)) same reads)
        ],
        subst (λ n. OthersKept x n w v) same kept,
      )

  expire_or_keep-Expired :
      CodecLaws x
      → (r : OperationRecord) (w : World x.Document) → IsCurrent x id w r
      → ClaimExpired x id i w
      → Expired x id i w (expire_or_keep x i r w)
  unfolding expire_or_keep Expired
  expire_or_keep-Expired laws r w current claim =
      let branches : Bool → M x.Document OperationRecord =
        λ b. if b then lift (ok r) else (lift (expire_unclaimed r i) >>= persist_record x) in
      elim (Bool-cases (r.phase == expired_unclaimed)) [
        | inl at ↦
            subst (λ b. Expired x id i w (branches b w)) (sym at)
              (
                r,
                current,
                claim,
                (eq_iff r.phase expired_unclaimed).0 at,
                inl (refl, SameDocuments-refl w),
                SameDocuments-OthersKept x id (SameDocuments-refl w),
              )
        | inr other ↦
            subst (λ b. Expired x id i w (branches b w)) (sym other)
              (bind-Framed x Expired-Framed (lift (expire_unclaimed r i)) (persist_record x) w
                SameDocuments-refl
                λ t v changed s.
                  Persisted-Expired r t v (persist_record x t v)
                    (IsCurrent-before x (SameDocuments-sym s) current)
                    (ClaimExpired-before (SameDocuments-sym s) claim) (ap (λ p. p.0) changed)
                    (persist_record-Persisted x laws t v))
      ]

  check_claim_expired-ClaimExpired :
      (w : World x.Document) → check_claim_expired x i id w ≡ ok tt → ClaimExpired x id i w
  unfolding check_claim_expired ClaimExpired
  check_claim_expired-ClaimExpired w h =
      let test : ConnectorClaim → Checked =
        λ c. reject_if (c.phase != claim_expired) operation_conflict in
      let (c, reads, at) = >>=-eq-ok (read_claim x i id w) test h in
      (c, reads, ne-eq-false c.phase claim_expired (reject_if-eq-ok _ operation_conflict at))

-- Where a serialized value is read back, `expire_unclaimed_operation` ends as `Expired` says,
-- however the replacement of the record's file ended.
pub expire_unclaimed_operation-Expired :
    (x : Codec)
    → CodecLaws x
    → (id i : Str) (w : World x.Document) → Expired x id i w (expire_unclaimed_operation x id i w)
unfolding expire_unclaimed_operation
expire_unclaimed_operation-Expired x laws id i w =
    bind-Framed x (Expired-Framed x id i) (lock_current x id)
      (λ r. look (check_claim_expired x i id) >> expire_or_keep x i r) w
      (lock_current-SameDocuments x id)
      λ r v current s.
        bind-Framed x (Expired-Framed x id i) (look (check_claim_expired x i id))
          (λ _. expire_or_keep x i r) v SameDocuments-refl
          λ _ u checked t.
            expire_or_keep-Expired x id i laws r u
              (IsCurrent-before x (SameDocuments-sym (SameDocuments-trans s t))
                (lock_current-IsCurrent x id w current))
              (ClaimExpired-before x id i (SameDocuments-sym t)
                (check_claim_expired-ClaimExpired x id i v (ap (λ p. p.0) checked)))
