-- ===== src/Store/Claim/Succession.antt =====
-- Which operation src/deployment.rs `validate_owner_transition` lets take a target.
use dirextalk_vnext_deployer.Prelude.{Str, str_eq, option_str_eq, bytes, ◌++◌, ◌≡◌, ap, ◌∙◌, Option}
use dirextalk_vnext_deployer.Errors.{Result, ok, err}
use dirextalk_vnext_deployer.AgentBundle.{AgentBundle}
use dirextalk_vnext_deployer.Contract.{HostTuple, host_eq}
use dirextalk_vnext_deployer.Manifest.{DeploymentManifest}
use dirextalk_vnext_deployer.Operation.{OperationRecord}
use dirextalk_vnext_deployer.Store.Names.{owner_file}
use dirextalk_vnext_deployer.Store.World.{
  Codec, ◌>>=◌, ◌>>◌, lift, look, World, TargetOwnership, ownership_eq,
}
use dirextalk_vnext_deployer.Store.Documents.{seal, ownership_fence}
use dirextalk_vnext_deployer.Store.Files.{
  read, read_owner, absent_ok, serialize_bounded, ensure_root, lock,
}
use dirextalk_vnext_deployer.Store.Frame.{
  SameDocuments-sym, SameDocuments-refl, bind-Framed, read_owner-same, ensure_root-SameDocuments,
  lock-SameDocuments,
}
use dirextalk_vnext_deployer.Store.Claim.{
  claim, claim_admitted, claim_locked, publish, check_existing, reconcile_if_absent,
  validate_owner_transition, admit,
}
use dirextalk_vnext_deployer.Store.Claim.Outcome.{
  owner_of, after_lock, with_fence, with_existing, locked_by_id,
}
use dirextalk_vnext_deployer.Store.Claim.Ends.{owner_document}
use dirextalk_vnext_deployer.Store.Claim.Takeover.{
  Allowed, Allowed-same, TakesOver, TakesOver-Framed, validate_owner_transition-Allowed,
}

module _ (x : Codec) (r : OperationRecord) where
  Allowed-TakesOver :
      (fence : Str) (current : Option TargetOwnership) (w : World x.Document)
      (p : Result OperationRecord × World x.Document)
      → ownership_fence x r.target r.binding.host ≡ ok fence
      → absent_ok (read_owner x fence w) ≡ ok current
      → Allowed x r w current
      → TakesOver x r w p
  unfolding TakesOver
  Allowed-TakesOver fence current w (ok s, v) is_fence reads allowed =
      (fence, current, is_fence, reads, allowed)
  Allowed-TakesOver fence current w (err e, v) is_fence reads allowed = tt

  after_lock-TakesOver :
      (existing : Option OperationRecord) (fence : Str) (w : World x.Document)
      → ownership_fence x r.target r.binding.host ≡ ok fence
      → TakesOver x r w (after_lock x r existing fence w)
  after_lock-TakesOver existing fence w is_fence =
      bind-Framed x (TakesOver-Framed x r)
        (look (validate_owner_transition x fence (seal x r) (owner_of x r)))
        (λ _. publish x (seal x r) (owner_of x r) fence existing) w SameDocuments-refl
        λ _ v checked s.
          let (current, reads, allowed) =
            validate_owner_transition-Allowed x r fence w (ap (λ p. p.0) checked) in
          Allowed-TakesOver fence current v _ is_fence
            (ap absent_ok (read_owner-same x fence w v s) ∙ reads)
            (Allowed-same x r current v w (SameDocuments-sym s) allowed)

  with_fence-TakesOver :
      (existing : Option OperationRecord) (fence : Str) (w : World x.Document)
      → ownership_fence x r.target r.binding.host ≡ ok fence
      → TakesOver x r w (with_fence x r existing fence w)
  with_fence-TakesOver existing fence w is_fence =
      bind-Framed x (TakesOver-Framed x r)
        (look (reconcile_if_absent x (seal x r) (owner_of x r) (owner_file fence) existing))
        (λ _. lock x (bytes "target-" ++ fence) >> after_lock x r existing fence) w
        SameDocuments-refl
        λ _ w1 _ _.
          bind-Framed x (TakesOver-Framed x r) (lock x (bytes "target-" ++ fence))
            (λ _. after_lock x r existing fence) w1
            (lock-SameDocuments x (bytes "target-" ++ fence))
            λ _ w2 _ _. after_lock-TakesOver existing fence w2 is_fence

  claim_locked-TakesOver :
      (w : World x.Document) → TakesOver x r w (claim_locked x (seal x r) (owner_of x r) w)
  unfolding claim_locked seal
  claim_locked-TakesOver w =
      bind-Framed x (TakesOver-Framed x r) (look (λ v. absent_ok (read x r.operation_id v)))
        (with_existing x r) w SameDocuments-refl
        λ existing w1 _ _.
          bind-Framed x (TakesOver-Framed x r) (lift (check_existing x (seal x r) existing))
            (λ _. lift (ownership_fence x r.target r.binding.host) >>= with_fence x r existing) w1
            SameDocuments-refl
            λ _ w2 _ _.
              bind-Framed x (TakesOver-Framed x r)
                (lift (ownership_fence x r.target r.binding.host)) (with_fence x r existing) w2
                SameDocuments-refl
                λ fence w3 fenced _. with_fence-TakesOver existing fence w3 (ap (λ p. p.0) fenced)

  claim_admitted-TakesOver : (w : World x.Document) → TakesOver x r w (claim_admitted x r w)
  unfolding claim_admitted seal
  claim_admitted-TakesOver w =
      bind-Framed x (TakesOver-Framed x r) (lift (serialize_bounded x (x.record_to_vec (seal x r))))
        (λ _.
          lift (serialize_bounded x (owner_document x r)) >>= λ _. ensure_root >> locked_by_id x r)
        w SameDocuments-refl
        λ _ w1 _ _.
          bind-Framed x (TakesOver-Framed x r) (lift (serialize_bounded x (owner_document x r)))
            (λ _. ensure_root >> locked_by_id x r) w1 SameDocuments-refl
            λ _ w2 _ _.
              bind-Framed x (TakesOver-Framed x r) ensure_root (λ _. locked_by_id x r) w2
                ensure_root-SameDocuments
                λ _ w3 _ _.
                  bind-Framed x (TakesOver-Framed x r) (lock x (bytes "id-" ++ r.operation_id))
                    (λ _. claim_locked x (seal x r) (owner_of x r)) w3
                    (lock-SameDocuments x (bytes "id-" ++ r.operation_id))
                    λ _ w4 _ _. claim_locked-TakesOver w4

-- When `claim` succeeds, the target was free and the record has no predecessor, or the target's
-- projection was the record's own, or the record names the projection's operation as its
-- predecessor, that operation could be read, and it was completed, rolled back or expired.
pub claim-TakesOver :
    (x : Codec) (bundle_digest : AgentBundle → Str) (m : DeploymentManifest) (r : OperationRecord)
    (proof : HostTuple) (w : World x.Document)
    → TakesOver x r w (claim x bundle_digest m r proof w)
unfolding claim
claim-TakesOver x bundle_digest m r proof w =
    bind-Framed x (TakesOver-Framed x r) (lift (admit x bundle_digest m r proof))
      (λ _. claim_admitted x r) w SameDocuments-refl λ _ v _ _. claim_admitted-TakesOver x r v
