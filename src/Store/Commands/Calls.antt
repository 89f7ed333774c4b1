-- ===== src/Store/Commands/Calls.antt =====
-- The store's methods of src/deployment.rs that write an operation's record or a connector's claim in
-- place, as calls, and what is read of an operation after one.
use dirextalk_vnext_deployer.Prelude.{
  false, Str, ◌≡◌, ◌≢◌, refl, sym, ap, ◌∙◌, inl, inr, Bool-cases, ◌==◌, eq_iff, str_eq,
}
use mathlib.Core.Path.{subst}
use dirextalk_vnext_deployer.Errors.{Result, ok, err}
use dirextalk_vnext_deployer.AgentBundle.{AgentBundle}
use dirextalk_vnext_deployer.Contract.{HostTuple}
use dirextalk_vnext_deployer.Manifest.{DeploymentManifest}
use dirextalk_vnext_deployer.Connector.{
  ConnectorClaim, ConnectorClaimPhase, prepared, handoff_observed, released, claim_expired,
}
use dirextalk_vnext_deployer.Operation.{OperationRecord}
use dirextalk_vnext_deployer.Operation.Steps.{by_expire}
use dirextalk_vnext_deployer.Store.Names.{operation_file}
use dirextalk_vnext_deployer.Store.World.{Codec, CodecLaws, World}
use dirextalk_vnext_deployer.Store.Files.{read, absent_ok}
use dirextalk_vnext_deployer.Store.Frame.{read-same}
use dirextalk_vnext_deployer.Store.Claim.{claim}
use dirextalk_vnext_deployer.Store.Claim.Writes.{ClaimKept}
use dirextalk_vnext_deployer.Store.Claim.Ends.{Claimed, Origin}
use dirextalk_vnext_deployer.Store.Claim.Outcome.{claim-Claimed}
use dirextalk_vnext_deployer.Store.Connectors.{
  observe_connector_handoff, release_connector_claim, expire_unclaimed_connector_claim,
}
use dirextalk_vnext_deployer.Store.Connectors.Moves.{ClaimMoved}
use dirextalk_vnext_deployer.Store.Connectors.Outcome.{
  observe_connector_handoff-ClaimMoved, release_connector_claim-ClaimMoved,
  expire_unclaimed_connector_claim-ClaimMoved,
}
use dirextalk_vnext_deployer.Store.Transitions.{expire_unclaimed_operation}
use dirextalk_vnext_deployer.Store.Transitions.Durable.{OthersKept, read-untouched}
use dirextalk_vnext_deployer.Store.Transitions.Expiry.{Expired, expire_unclaimed_operation-Expired}
use dirextalk_vnext_deployer.Store.Commands.{Command, run}
use dirextalk_vnext_deployer.Store.Commands.Reached.{
  ReadsReached, unmoved, read-Step, read-OthersKept, operation_file-apart, run-ReadsReached,
}

-- `claiming` is `claim`; `expiry` is `expire_unclaimed_operation`.
pub data Call : Type 0 where
  commanded : (id : Str) → Command → Call
  expiry : (id instance_id : Str) → Call
  claiming : DeploymentManifest → OperationRecord → HostTuple → Call
  observing releasing expiring : (instance_id : Str) → Call

-- The world after a call, whatever it returned.
abbrev pub after : (x : Codec) → (AgentBundle → Str) → Call → World x.Document → World x.Document
after x d (commanded id c) w = (run x id c w).1
after x d (expiry id i) w = (expire_unclaimed_operation x id i w).1
after x d (claiming m r proof) w = (claim x d m r proof w).1
after x d (observing i) w = (observe_connector_handoff x i w).1
after x d (releasing i) w = (release_connector_claim x i w).1
after x d (expiring i) w = (expire_unclaimed_connector_claim x i w).1

Expired-own :
    (x : Codec) (id i : Str) (w : World x.Document) (p : Result OperationRecord × World x.Document)
    {r : OperationRecord}
    → read x id w ≡ ok r
    → Expired x id i w p
    → ReadsReached x id r p.1
unfolding Expired
Expired-own x id i w (ok s, v) {r} first (q, current, _, _, how, _) = elim how [
  | inl (_, quiet) ↦ (r, read-same x id w v quiet ∙ first, unmoved)
  | inr (t, changed, made, reads) ↦
      read-Step x id w v first current (by_expire i changed) (reads ∙ ap ok made)
]
Expired-own x id i w (err e, v) {r} first (how, _) = elim how [
  | inl old ↦ (r, old ∙ first, unmoved)
  | inr (q, t, current, _, changed, reads) ↦
      read-Step x id w v first current (by_expire i changed) reads
]

Expired-OthersKept :
    (x : Codec) (id i : Str) (w : World x.Document) (p : Result OperationRecord × World x.Document)
    → Expired x id i w p
    → OthersKept x id w p.1
unfolding Expired
Expired-OthersKept x id i w (ok s, v) (_, _, _, _, _, kept) = kept
Expired-OthersKept x id i w (err e, v) (_, kept) = kept

-- A claim leaves every record that could be read as it was, also that of its own identifier.
Claimed-reads :
    (x : Codec) (g : OperationRecord) (w : World x.Document)
    (p : Result OperationRecord × World x.Document) {r : OperationRecord}
    → read x g.operation_id w ≡ ok r
    → Claimed x g w p
    → read x g.operation_id p.1 ≡ ok r
unfolding Claimed Origin
Claimed-reads x g w (ok s, v) first (_, _, origin, _, reads, _, _, _) = elim origin [
  | inl there ↦ reads ∙ (sym there ∙ first)
  | inr (absent, _) ↦ cc (sym absent ∙ ap absent_ok first)
]
Claimed-reads x g w (err e, v) first (old_or_new, _, _) = elim old_or_new [
  | inl old ↦ old ∙ first
  | inr (absent, _) ↦ cc (sym absent ∙ ap absent_ok first)
]

Claimed-ClaimKept :
    (x : Codec) (g : OperationRecord) (w : World x.Document)
    (p : Result OperationRecord × World x.Document)
    → Claimed x g w p
    → ClaimKept x g.operation_id w p.1
unfolding Claimed
Claimed-ClaimKept x g w (ok s, v) (_, _, _, _, _, _, _, kept) = kept
Claimed-ClaimKept x g w (err e, v) (_, _, kept) = kept

read-ClaimKept :
    (x : Codec) (id other : Str) (w v : World x.Document)
    → other ≢ id
    → ClaimKept x other w v
    → read x id v ≡ read x id w
read-ClaimKept x id other w v h k =
    read-untouched x id w v k.euid_kept
      (k.files_kept (operation_file id) (operation_file-apart other id h) refl refl)

ClaimMoved-reads :
    (x : Codec) (source to : ConnectorClaimPhase) (i : Str) (w : World x.Document)
    (p : Result ConnectorClaim × World x.Document)
    → ClaimMoved x source to i w p
    → (id : Str) → read x id p.1 ≡ read x id w
unfolding ClaimMoved
ClaimMoved-reads x source to i w (ok s, v) (_, _, _, _, _, kept) = kept
ClaimMoved-reads x source to i w (err e, v) (_, kept) = kept

apart : (a b : Str) → (a == b) ≡ false → a ≢ b
apart a b differs e = cc (sym differs ∙ (eq_iff a b).1 e)

module _ (x : Codec) (laws : CodecLaws x) (id : Str) (w : World x.Document) {r : OperationRecord}
    (first : read x id w ≡ ok r) where
  expiry-ReadsReached :
      (other i : Str) → ReadsReached x id r (expire_unclaimed_operation x other i w).1
  expiry-ReadsReached other i =
      let p = expire_unclaimed_operation x other i w in
      let ends = expire_unclaimed_operation-Expired x laws other i w in
      elim (Bool-cases (other == id)) [
        | inl same ↦
            Expired-own x id i w p first
              (subst (λ n. Expired x n i w p) ((eq_iff other id).0 same) ends)
        | inr differs ↦ (
          r,
          read-OthersKept x id other w p.1 (apart other id differs)
                (Expired-OthersKept x other i w p ends)
              ∙ first,
          unmoved,
        )
      ]

  claiming-reads :
      (d : AgentBundle → Str) (m : DeploymentManifest) (g : OperationRecord) (proof : HostTuple)
      → read x id (claim x d m g proof w).1 ≡ ok r
  claiming-reads d m g proof =
      let p = claim x d m g proof w in
      let ends = claim-Claimed x laws d m g proof w in
      elim (Bool-cases (g.operation_id == id)) [
        | inl same ↦
            let is = (eq_iff g.operation_id id).0 same in
            subst (λ n. read x n p.1 ≡ ok r) is
              (Claimed-reads x g w p (subst (λ n. read x n w ≡ ok r) (sym is) first) ends)
        | inr differs ↦
            read-ClaimKept x id g.operation_id w p.1 (apart g.operation_id id differs)
              (Claimed-ClaimKept x g w p ends)
            ∙ first
      ]

  -- One call, about this operation or another.
  pub after-ReadsReached : (d : AgentBundle → Str) (c : Call) → ReadsReached x id r (after x d c w)
  after-ReadsReached d (commanded other c) = run-ReadsReached x laws id other c w first
  after-ReadsReached d (expiry other i) = expiry-ReadsReached other i
  after-ReadsReached d (claiming m g proof) = (r, claiming-reads d m g proof, unmoved)
  after-ReadsReached d (observing i) = (
    r,
    ClaimMoved-reads x prepared handoff_observed i w (observe_connector_handoff x i w)
          (observe_connector_handoff-ClaimMoved x laws i w) id
        ∙ first,
    unmoved,
  )
  after-ReadsReached d (releasing i) = (
    r,
    ClaimMoved-reads x handoff_observed released i w (release_connector_claim x i w)
          (release_connector_claim-ClaimMoved x laws i w) id
        ∙ first,
    unmoved,
  )
  after-ReadsReached d (expiring i) = (
    r,
    ClaimMoved-reads x prepared claim_expired i w (expire_unclaimed_connector_claim x i w)
          (expire_unclaimed_connector_claim-ClaimMoved x laws i w) id
        ∙ first,
    unmoved,
  )
