-- ===== src/Store/Connectors/Current.antt =====
-- What src/deployment.rs `lock_current_connector` establishes.
use dirextalk_vnext_deployer.Prelude.{Str, str_eq, bytes, ◌++◌, ◌≡◌, sym, ap, ◌∙◌, ◌!=◌, ◌||◌}
use dirextalk_vnext_deployer.Errors.{Result, ok, err, operation_conflict, reject_if}
use dirextalk_vnext_deployer.Connector.{ConnectorClaim, ConnectorOwnership, claim_phase_eq}
use dirextalk_vnext_deployer.Operation.{OperationRecord}
use dirextalk_vnext_deployer.Store.World.{Codec, M, ◌>>=◌, ◌>>◌, lift, look, World}
use dirextalk_vnext_deployer.Store.Documents.{connector_claim_identity_digest, ownership_fence}
use dirextalk_vnext_deployer.Store.Files.{read, read_claim, read_connector_owner, lock}
use dirextalk_vnext_deployer.Store.Frame.{
  SameDocuments, SameDocuments-refl, SameDocuments-trans, Framed, bind-Framed, read_claim-same,
  read_connector_owner-same, lock-SameDocuments,
}
use dirextalk_vnext_deployer.Store.Connectors.{
  lock_current_connector, reread_connector, verify_current_owner,
}

module _ (x : Codec) (i : Str) where
  abbrev pub Pair : Type 0
  Pair = ConnectorOwnership × ConnectorClaim

  -- What `lock_current_connector` establishes, and that it keeps the documents.
  unfoldable pub LockedConnector : World x.Document → Result Pair × World x.Document → Type 0
  LockedConnector w (ok (owner, c), v) =
      (read_connector_owner x i w ≡ ok owner)
      × (read_claim x i owner.current_operation_id w ≡ ok c)
      × SameDocuments w v
  LockedConnector w (err e, v) = SameDocuments w v

  LockedConnector-extends :
      {u v : World x.Document} (p : Result Pair × World x.Document)
      → SameDocuments u v
      → LockedConnector v p
      → LockedConnector u p
  unfolding LockedConnector
  LockedConnector-extends {u} {v} (ok (owner, c), w) same (owner_read, claim_read, quiet) = (
    sym (read_connector_owner-same x i u v same) ∙ owner_read,
    sym (read_claim-same x i owner.current_operation_id u v same) ∙ claim_read,
    SameDocuments-trans same quiet,
  )
  LockedConnector-extends (err e, w) same quiet = SameDocuments-trans same quiet

  LockedConnector-Framed : Framed x LockedConnector
  unfolding LockedConnector
  LockedConnector-Framed = record {
    extends = λ {u} {v} {p} s h. LockedConnector-extends p s h;
    fails = λ e s. s;
  }

  pub LockedConnector-quiet :
      {w : World x.Document} (p : Result Pair × World x.Document)
      → LockedConnector w p
      → SameDocuments w p.1
  unfolding LockedConnector
  LockedConnector-quiet (ok (owner, c), v) h = h.2
  LockedConnector-quiet (err e, v) h = h

  abbrev test : OperationRecord → Pair → M x.Document (Unit {0})
  test parent (owner, c) = lift (
      reject_if
        (owner.instance_id != i
          || connector_claim_identity_digest x c != owner.claim_identity_digest
          || c.operation_id != parent.operation_id)
        operation_conflict)

  reread_connector-LockedConnector :
      (parent : OperationRecord) (w : World x.Document)
      → LockedConnector w (reread_connector x i parent w)
  unfolding reread_connector LockedConnector
  reread_connector-LockedConnector parent w =
      bind-Framed x LockedConnector-Framed (look (read_connector_owner x i))
        (λ owner. look (read_claim x i owner.current_operation_id) >>= λ c.
          test parent (owner, c) >> lift (ok (owner, c)))
        w SameDocuments-refl
        λ owner w1 owner_read s1.
          bind-Framed x LockedConnector-Framed (look (read_claim x i owner.current_operation_id))
            (λ c. test parent (owner, c) >> lift (ok (owner, c))) w1 SameDocuments-refl
            λ c w2 claim_read s2.
              bind-Framed x LockedConnector-Framed (test parent (owner, c))
                (λ _. lift (ok (owner, c))) w2 SameDocuments-refl
                λ _ w3 _ s3.
                  let s = SameDocuments-trans s2 s3 in
                  (
                    read_connector_owner-same x i w w3 (SameDocuments-trans s1 s)
                        ∙ ap (λ p. p.0) owner_read,
                    read_claim-same x i owner.current_operation_id w1 w3 s
                        ∙ ap (λ p. p.0) claim_read,
                    SameDocuments-refl w3,
                  )

  abbrev locked_connector : OperationRecord → M x.Document Pair
  locked_connector parent =
      look (verify_current_owner x parent)
      >> (lock x (bytes "connector-" ++ i) >> reread_connector x i parent)

  abbrev locked_target : Str → Str → M x.Document Pair
  locked_target id fence =
      lock x (bytes "target-" ++ fence) >> (look (read x id) >>= locked_connector)

  locked_target-LockedConnector :
      (id fence : Str) (w : World x.Document) → LockedConnector w (locked_target id fence w)
  locked_target-LockedConnector id fence w =
      bind-Framed x LockedConnector-Framed (lock x (bytes "target-" ++ fence))
        (λ _. look (read x id) >>= locked_connector) w
        (lock-SameDocuments x (bytes "target-" ++ fence))
        λ _ w1 _ _.
          bind-Framed x LockedConnector-Framed (look (read x id)) locked_connector w1
            SameDocuments-refl
            λ parent w2 _ _.
              bind-Framed x LockedConnector-Framed (look (verify_current_owner x parent))
                (λ _. lock x (bytes "connector-" ++ i) >> reread_connector x i parent) w2
                SameDocuments-refl
                λ _ w3 _ _.
                  bind-Framed x LockedConnector-Framed (lock x (bytes "connector-" ++ i))
                    (λ _. reread_connector x i parent) w3
                    (lock-SameDocuments x (bytes "connector-" ++ i))
                    λ _ w4 _ _. reread_connector-LockedConnector parent w4

  pub lock_current_connector-LockedConnector :
      (w : World x.Document) → LockedConnector w (lock_current_connector x i w)
  unfolding lock_current_connector
  lock_current_connector-LockedConnector w =
      bind-Framed x LockedConnector-Framed (look (read_connector_owner x i))
        (λ o. look (read_claim x i o.current_operation_id) >>= λ c.
          look (read x c.operation_id) >>= λ parent.
          lift (ownership_fence x parent.target parent.binding.host)
          >>= locked_target c.operation_id)
        w SameDocuments-refl
        λ o w1 _ _.
          bind-Framed x LockedConnector-Framed (look (read_claim x i o.current_operation_id))
            (λ c. look (read x c.operation_id) >>= λ parent.
              lift (ownership_fence x parent.target parent.binding.host)
              >>= locked_target c.operation_id)
            w1 SameDocuments-refl
            λ c w2 _ _.
              bind-Framed x LockedConnector-Framed (look (read x c.operation_id))
                (λ parent.
                  lift (ownership_fence x parent.target parent.binding.host)
                  >>= locked_target c.operation_id)
                w2 SameDocuments-refl
                λ parent w3 _ _.
                  bind-Framed x LockedConnector-Framed
                    (lift (ownership_fence x parent.target parent.binding.host))
                    (locked_target c.operation_id) w3 SameDocuments-refl
                    λ fence w4 _ _. locked_target-LockedConnector c.operation_id fence w4
