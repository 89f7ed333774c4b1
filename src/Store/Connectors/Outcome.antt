-- ===== src/Store/Connectors/Outcome.antt =====
-- src/deployment.rs: the moves of a connector claim, from the call to the file.
use mathlib.Core.Path.{subst}
use dirextalk_vnext_deployer.Prelude.{
  Str, str_eq, ◌≡◌, refl, sym, ap, ◌∙◌, inl, inr, ◌!=◌, ◌==◌, ne-eq-false, eq_iff, Bool-cases, Bool,
  String, if◌then◌else◌,
}
use dirextalk_vnext_deployer.Errors.{ok, operation_conflict, contract, reject_if, reject_if-eq-ok}
use dirextalk_vnext_deployer.Contract.Syntax.{uuid}
use dirextalk_vnext_deployer.Connector.{
  ConnectorClaim, ConnectorOwnership, ConnectorClaimPhase, claim_phase_eq, prepared,
  handoff_observed, released, claim_expired, valid_claim,
}
use dirextalk_vnext_deployer.Store.World.{Codec, CodecLaws, M, ◌>>=◌, ◌>>◌, lift, World}
use dirextalk_vnext_deployer.Store.Documents.{connector_claim_identity_digest}
use dirextalk_vnext_deployer.Store.Files.{read_claim, read_connector_owner}
use dirextalk_vnext_deployer.Store.Frame.{
  SameDocuments-refl, SameDocuments-trans, Framed, bind-Framed, read_claim-same,
  read_connector_owner-same,
}
use dirextalk_vnext_deployer.Store.Connectors.{
  lock_current_connector, persist_connector_claim, move_claim, move_connector,
  observe_connector_handoff, release_connector_claim, expire_unclaimed_connector_claim,
}
use dirextalk_vnext_deployer.Store.Connectors.Current.{
  LockedConnector, LockedConnector-quiet, lock_current_connector-LockedConnector,
}
use dirextalk_vnext_deployer.Store.Connectors.Moves.{
  ClaimMoved, ClaimMoved-Framed, moved_claim, write_moved, write_moved-ClaimMoved,
}

module _ (x : Codec) (laws : CodecLaws x) (source to : ConnectorClaimPhase) (i : Str) where
  abbrev framed : Framed x (ClaimMoved x source to i)
  framed = ClaimMoved-Framed x source to i

  persist-ClaimMoved :
      (owner : ConnectorOwnership) (c : ConnectorClaim) (w : World x.Document)
      → read_connector_owner x i w ≡ ok owner
      → read_claim x i owner.current_operation_id w ≡ ok c
      → c.phase ≡ source
      → ClaimMoved x source to i w (persist_connector_claim x owner (moved_claim x source to i c) w)
  unfolding persist_connector_claim
  persist-ClaimMoved owner c w owner_read claim_read at =
      let m = moved_claim x source to i c in
      let test : M x.Document (Unit {0}) = lift (
        reject_if (connector_claim_identity_digest x m != owner.claim_identity_digest)
          operation_conflict) in
      let write : M x.Document ConnectorClaim =
        lift (uuid c.operation_id "operation_id") >> write_moved x source to i c in
      bind-Framed x framed (lift (valid_claim x.parsers m))
        (λ _. test >> (lift (uuid c.instance_id "instance_id") >> write)) w SameDocuments-refl
        λ _ w1 valid s1.
          bind-Framed x framed test (λ _. lift (uuid c.instance_id "instance_id") >> write) w1
            SameDocuments-refl
            λ _ w2 _ s2.
              bind-Framed x framed (lift (uuid c.instance_id "instance_id")) (λ _. write) w2
                SameDocuments-refl
                λ _ w3 instance s3.
                  bind-Framed x framed (lift (uuid c.operation_id "operation_id"))
                    (λ _. write_moved x source to i c) w3 SameDocuments-refl
                    λ _ w4 operation s4.
                      let s =
                        SameDocuments-trans s1
                          (SameDocuments-trans s2 (SameDocuments-trans s3 s4)) in
                      write_moved-ClaimMoved x source to i laws owner c w4
                        (read_connector_owner-same x i w w4 s ∙ owner_read)
                        (read_claim-same x i owner.current_operation_id w w4 s ∙ claim_read) at
                        (ap (λ p. p.0) valid) (ap (λ p. p.0) instance) (ap (λ p. p.0) operation)

  move_claim-ClaimMoved :
      (refusal : String) (owner : ConnectorOwnership) (c : ConnectorClaim) (w : World x.Document)
      → read_connector_owner x i w ≡ ok owner
      → read_claim x i owner.current_operation_id w ≡ ok c
      → ClaimMoved x source to i w (move_claim x source to refusal (owner, c) w)
  unfolding move_claim ClaimMoved
  move_claim-ClaimMoved refusal owner c w owner_read claim_read =
      let persist = persist_connector_claim x owner (moved_claim x source to i c) in
      let test : M x.Document (Unit {0}) =
        lift (reject_if (c.phase != source) (contract refusal)) in
      let branches : Bool → M x.Document ConnectorClaim =
        λ b. if b then lift (ok c) else (test >> persist) in
      elim (Bool-cases (c.phase == to)) [
        | inl at ↦
            subst (λ b. ClaimMoved x source to i w (branches b w)) (sym at)
              (
                owner,
                c,
                owner_read,
                claim_read,
                inl ((eq_iff c.phase to).0 at, refl, SameDocuments-refl w),
                λ id. refl,
              )
        | inr other ↦
            subst (λ b. ClaimMoved x source to i w (branches b w)) (sym other)
              (bind-Framed x framed test (λ _. persist) w SameDocuments-refl
                λ _ v was s.
                  persist-ClaimMoved owner c v (read_connector_owner-same x i w v s ∙ owner_read)
                    (read_claim-same x i owner.current_operation_id w v s ∙ claim_read)
                    (ne-eq-false c.phase source
                      (reject_if-eq-ok (c.phase != source) _ (ap (λ p. p.0) was))))
      ]

  move_connector-ClaimMoved :
      (refusal : String) (w : World x.Document)
      → ClaimMoved x source to i w (move_connector x source to refusal i w)
  unfolding move_connector LockedConnector
  move_connector-ClaimMoved refusal w =
      bind-Framed x framed (lift (uuid i "instance_id"))
        (λ _. lock_current_connector x i >>= move_claim x source to refusal) w SameDocuments-refl
        λ _ w1 _ _.
          bind-Framed x framed (lock_current_connector x i) (move_claim x source to refusal) w1
            (λ v.
              LockedConnector-quiet x i (lock_current_connector x i v)
                (lock_current_connector-LockedConnector x i v))
            λ (owner, c) w2 locked s.
              let (owner_read, claim_read, _) =
                subst (LockedConnector x i w1) locked
                  (lock_current_connector-LockedConnector x i w1) in
              move_claim-ClaimMoved refusal owner c w2
                (read_connector_owner-same x i w1 w2 s ∙ owner_read)
                (read_claim-same x i owner.current_operation_id w1 w2 s ∙ claim_read)

-- Where a serialized value is read back, `observe_connector_handoff` ends as `ClaimMoved` says: it
-- moves a claim that was prepared, or returns one whose handoff was observed; no operation record
-- changes.
pub observe_connector_handoff-ClaimMoved :
    (x : Codec)
    → CodecLaws x
    → (i : Str) (w : World x.Document)
    → ClaimMoved x prepared handoff_observed i w (observe_connector_handoff x i w)
unfolding observe_connector_handoff
observe_connector_handoff-ClaimMoved x laws i w =
    move_connector-ClaimMoved x laws prepared handoff_observed i _ w

-- Where a serialized value is read back, `release_connector_claim` ends as `ClaimMoved` says: it
-- moves a claim whose handoff was observed, or returns a released one; no operation record changes.
pub release_connector_claim-ClaimMoved :
    (x : Codec)
    → CodecLaws x
    → (i : Str) (w : World x.Document)
    → ClaimMoved x handoff_observed released i w (release_connector_claim x i w)
unfolding release_connector_claim
release_connector_claim-ClaimMoved x laws i w =
    move_connector-ClaimMoved x laws handoff_observed released i _ w

-- Where a serialized value is read back, `expire_unclaimed_connector_claim` ends as `ClaimMoved`
-- says: it moves a claim that was prepared, or returns an expired one; no operation record changes.
pub expire_unclaimed_connector_claim-ClaimMoved :
    (x : Codec)
    → CodecLaws x
    → (i : Str) (w : World x.Document)
    → ClaimMoved x prepared claim_expired i w (expire_unclaimed_connector_claim x i w)
unfolding expire_unclaimed_connector_claim
expire_unclaimed_connector_claim-ClaimMoved x laws i w =
    move_connector-ClaimMoved x laws prepared claim_expired i _ w
