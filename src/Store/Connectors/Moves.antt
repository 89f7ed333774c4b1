-- ===== src/Store/Connectors/Moves.antt =====
-- How src/deployment.rs `observe_connector_handoff`, `release_connector_claim` and
-- `expire_unclaimed_connector_claim` end.
use dirextalk_vnext_deployer.Prelude.{
  Str, str_eq, ◌≡◌, refl, sym, ◌∙◌, some, inl, inr, ◌⊎◌, ne_self, false, ltb,
}
use dirextalk_vnext_deployer.Errors.{Result, ok, err}
use dirextalk_vnext_deployer.Contract.Syntax.{uuid}
use dirextalk_vnext_deployer.Connector.{
  ConnectorClaim, ConnectorOwnership, ConnectorClaimPhase, claim_phase_eq, valid_claim,
}
use dirextalk_vnext_deployer.Store.Names.{StateName, name_eq, claim_file, operation_file}
use dirextalk_vnext_deployer.Store.World.{Codec, CodecLaws, M, ◌>>◌, continue, lift, World}
use dirextalk_vnext_deployer.Store.Documents.{seal_claim, verify_claim}
use dirextalk_vnext_deployer.Store.Files.{
  lookup, read, read_secure, read_claim, read_connector_owner, checked_claim, write_path, written,
  max_bytes,
}
use dirextalk_vnext_deployer.Store.Frame.{
  SameDocuments, SameDocuments-trans, Framed, read-same, read_claim-same, read_connector_owner-same,
  written-opens,
}
use dirextalk_vnext_deployer.Store.Writes.{Touched, Wrote, write_path-Wrote}
use dirextalk_vnext_deployer.Store.Transitions.Durable.{read-untouched}

module _ (x : Codec) (laws : CodecLaws x) where
  verify_claim-seal : (c : ConnectorClaim) → verify_claim x (seal_claim x c) ≡ ok tt
  unfolding verify_claim seal_claim
  verify_claim-seal c = rw (ne_self (seal_claim x c).integrity_digest) refl

  valid_claim-seal :
      (c : ConnectorClaim) → valid_claim x.parsers (seal_claim x c) ≡ valid_claim x.parsers c
  unfolding valid_claim seal_claim
  valid_claim-seal c = refl

  read_claim-written :
      (c : ConnectorClaim) (w v : World x.Document)
      → valid_claim x.parsers c ≡ ok tt
      → uuid c.instance_id "instance_id" ≡ ok tt
      → uuid c.operation_id "operation_id" ≡ ok tt
      → v.euid ≡ w.euid
      → lookup (claim_file c.instance_id c.operation_id) v.files
        ≡ some (written x w.euid (x.push_newline (x.claim_to_vec (seal_claim x c))))
      → ltb max_bytes (x.document_len (x.push_newline (x.claim_to_vec (seal_claim x c)))) ≡ false
      → read_claim x c.instance_id c.operation_id v ≡ ok (seal_claim x c)
  unfolding read_claim checked_claim
  read_claim-written c w v valid instance operation e l fits =
      rw
        (
          instance,
          operation,
          written-opens x (claim_file c.instance_id c.operation_id) _ w v e l fits,
          laws.claim_round_trip (seal_claim x c),
          valid_claim-seal c,
          valid,
          verify_claim-seal c,
        )
        refl

read_claim-untouched :
    (x : Codec) (i id : Str) (w v : World x.Document)
    → v.euid ≡ w.euid
    → lookup (claim_file i id) v.files ≡ lookup (claim_file i id) w.files
    → read_claim x i id v ≡ read_claim x i id w
unfolding read_claim read_secure
read_claim-untouched x i id w v e l = rw (e, l)

-- How a move of the instance's claim from `source` to `to` may end. After a success the claim that
-- was current is returned where it was at `to`; it was at `source` otherwise, and is read at `to`
-- from then on. After an error no document has changed, or the claim that was current and at
-- `source` is read as before or as moved. No operation record changes.
unfoldable pub ClaimMoved :
    (x : Codec)
    → ConnectorClaimPhase
    → ConnectorClaimPhase
    → Str
    → World x.Document
    → Result ConnectorClaim × World x.Document
    → Type 0
ClaimMoved x source to i w (ok s, v) =
    (owner : ConnectorOwnership) × (c : ConnectorClaim) × (read_connector_owner x i w ≡ ok owner)
    × (read_claim x i owner.current_operation_id w ≡ ok c)
    × (((c.phase ≡ to) × (s ≡ c) × SameDocuments w v)
        ⊎ ((c.phase ≡ source)
            × (s ≡ seal_claim x (record c { phase = to }))
            × (read_claim x c.instance_id c.operation_id v ≡ ok s)))
    × ((id : Str) → read x id v ≡ read x id w)
ClaimMoved x source to i w (err e, v) =
    (SameDocuments w v
      ⊎ ((owner : ConnectorOwnership) × (c : ConnectorClaim) × (read_connector_owner x i w
            ≡ ok owner)
          × (read_claim x i owner.current_operation_id w ≡ ok c)
          × (c.phase ≡ source)
          × ((read_claim x c.instance_id c.operation_id v
                ≡ read_claim x c.instance_id c.operation_id w)
              ⊎ (read_claim x c.instance_id c.operation_id v
                  ≡ ok (seal_claim x (record c { phase = to }))))))
    × ((id : Str) → read x id v ≡ read x id w)

module _ (x : Codec) (source to : ConnectorClaimPhase) (i : Str) where
  ClaimMoved-extends :
      {u v : World x.Document} (p : Result ConnectorClaim × World x.Document)
      → SameDocuments u v
      → ClaimMoved x source to i v p
      → ClaimMoved x source to i u p
  unfolding ClaimMoved
  ClaimMoved-extends {u} {v} (ok s, w) same (owner, c, owner_read, claim_read, moved, kept) = (
    owner,
    c,
    sym (read_connector_owner-same x i u v same) ∙ owner_read,
    sym (read_claim-same x i owner.current_operation_id u v same) ∙ claim_read,
    elim moved [
      | inl (at, returned, quiet) ↦ inl (at, returned, SameDocuments-trans same quiet)
      | inr changed ↦ inr changed
    ],
    λ id. kept id ∙ read-same x id u v same,
  )
  ClaimMoved-extends {u} {v} (err e, w) same (moved, kept) = (
    elim moved [
      | inl quiet ↦ inl (SameDocuments-trans same quiet)
      | inr (owner, c, owner_read, claim_read, at, old_or_new) ↦ inr (
        owner,
        c,
        sym (read_connector_owner-same x i u v same) ∙ owner_read,
        sym (read_claim-same x i owner.current_operation_id u v same) ∙ claim_read,
        at,
        elim old_or_new [
          | inl old ↦ inl (old ∙ read_claim-same x c.instance_id c.operation_id u v same)
          | inr new ↦ inr new
        ],
      )
    ],
    λ id. kept id ∙ read-same x id u v same,
  )

  pub ClaimMoved-Framed : Framed x (ClaimMoved x source to i)
  unfolding ClaimMoved
  ClaimMoved-Framed = record {
    extends = λ {u} {v} {p} s h. ClaimMoved-extends p s h;
    fails = λ {u} {v} e s. (inl s, λ id. read-same x id u v s);
  }

  abbrev pub moved_claim : ConnectorClaim → ConnectorClaim
  moved_claim c = record c { phase = to }

  abbrev pub write_moved : ConnectorClaim → M x.Document ConnectorClaim
  write_moved c =
      write_path x (claim_file c.instance_id c.operation_id)
        (x.claim_to_vec (seal_claim x (moved_claim c)))
      >> lift (ok (seal_claim x (moved_claim c)))

  pub write_moved-ClaimMoved :
      CodecLaws x
      → (owner : ConnectorOwnership) (c : ConnectorClaim) (w : World x.Document)
      → read_connector_owner x i w ≡ ok owner
      → read_claim x i owner.current_operation_id w ≡ ok c
      → c.phase ≡ source
      → valid_claim x.parsers (moved_claim c) ≡ ok tt
      → uuid c.instance_id "instance_id" ≡ ok tt
      → uuid c.operation_id "operation_id" ≡ ok tt
      → ClaimMoved x source to i w (write_moved c w)
  unfolding Wrote ClaimMoved
  write_moved-ClaimMoved laws owner c w owner_read claim_read at valid instance operation =
      from (write_path x n (x.claim_to_vec (seal_claim x (moved_claim c))) w)
        (write_path-Wrote x n (x.claim_to_vec (seal_claim x (moved_claim c))) w refl)
    where
      n : StateName
      n = claim_file c.instance_id c.operation_id

      bytes_of : x.Document
      bytes_of = x.push_newline (x.claim_to_vec (seal_claim x (moved_claim c)))

      records :
          (v : World x.Document) → Touched x n bytes_of w v → (id : Str) → read x id v ≡ read x id w
      records v t id =
          read-untouched x id w v t.euid_kept (t.others_kept (operation_file id) (λ e. cc) refl)

      from :
          (p : Result (Unit {0}) × World x.Document)
          → Wrote x n bytes_of w p
          → ClaimMoved x source to i w (continue p (λ _. lift (ok (seal_claim x (moved_claim c)))))
      from (ok _, v) (done, fits) = (
        owner,
        c,
        owner_read,
        claim_read,
        inr (
          at,
          refl,
          read_claim-written x laws (moved_claim c) w v valid instance operation
              done.touched.euid_kept done.is_new fits,
        ),
        records v done.touched,
      )
      from (err e, v) t = (
        inr (
          owner,
          c,
          owner_read,
          claim_read,
          at,
          elim t.old_or_new [
            | inl old ↦
                inl (read_claim-untouched x c.instance_id c.operation_id w v t.euid_kept old)
            | inr (new, fits) ↦ inr (
                read_claim-written x laws (moved_claim c) w v valid instance operation t.euid_kept
                  new fits)
          ],
        ),
        records v t,
      )
