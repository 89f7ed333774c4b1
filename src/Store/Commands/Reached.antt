-- ===== src/Store/Commands/Reached.antt =====
-- What is read of an operation after one of the store's commands of src/deployment.rs.
use mathlib.Core.Path.{subst}
use dirextalk_vnext_deployer.Prelude.{
  Str, ◌≡◌, ◌≢◌, refl, sym, ap, ◌∙◌, inl, inr, [], Bool-cases, ◌==◌, eq_iff, str_eq,
}
use dirextalk_vnext_deployer.Errors.{Result, ok, err}
use dirextalk_vnext_deployer.Operation.{OperationRecord}
use dirextalk_vnext_deployer.Operation.Steps.{
  Step, SameIdentity, SameIdentity-refl, SameIdentity-trans,
}
use dirextalk_vnext_deployer.Operation.Invariant.{Step-SameIdentity}
use dirextalk_vnext_deployer.Store.Names.{StateName, operation_file}
use dirextalk_vnext_deployer.Store.World.{Codec, CodecLaws, World}
use dirextalk_vnext_deployer.Store.Documents.{seal}
use dirextalk_vnext_deployer.Store.Files.{read}
use dirextalk_vnext_deployer.Store.Transitions.Current.{IsCurrent}
use dirextalk_vnext_deployer.Store.Transitions.Durable.{OthersKept, read-untouched}
use dirextalk_vnext_deployer.Store.Commands.{Command, run, Committed, run-Committed}

-- Steps, each with its result sealed.
pub data SealedReach (x : Codec) (r : OperationRecord) : OperationRecord → Type 0 where
  unmoved : SealedReach x r r
  moves : {s t : OperationRecord} → SealedReach x r s → Step s t → SealedReach x r (seal x t)

pub SealedReach-trans :
    (x : Codec) {r s t : OperationRecord}
    → SealedReach x r s
    → SealedReach x s t
    → SealedReach x r t
SealedReach-trans x a unmoved = a
SealedReach-trans x a (moves b step) = moves (SealedReach-trans x a b) step

seal-SameIdentity : (x : Codec) (t : OperationRecord) → SameIdentity t (seal x t)
unfolding seal
seal-SameIdentity x t = record {
  same_version = refl;
  same_id = refl;
  same_manifest = refl;
  same_artifact = refl;
  same_binding = refl;
  same_target = refl;
  same_predecessor = refl;
}

pub SealedReach-SameIdentity :
    (x : Codec) {r s : OperationRecord} → SealedReach x r s → SameIdentity r s
SealedReach-SameIdentity x {r} unmoved = SameIdentity-refl r
SealedReach-SameIdentity x (moves {s = s} {t = t} trace step) =
    SameIdentity-trans (SealedReach-SameIdentity x trace)
      (SameIdentity-trans (Step-SameIdentity s t step) (seal-SameIdentity x t))

abbrev pub ReadsReached : (x : Codec) → Str → OperationRecord → World x.Document → Type 0
ReadsReached x id r v = (s : OperationRecord) × (read x id v ≡ ok s) × SealedReach x r s

pub read-Step :
    (x : Codec) (id : Str) (w v : World x.Document) {r q t : OperationRecord}
    → read x id w ≡ ok r
    → IsCurrent x id w q
    → Step q t
    → read x id v ≡ ok (seal x t)
    → ReadsReached x id r v
read-Step x id w v {r} {q} {t} first current step reads =
    let same : q ≡ r = cc (sym current.reads ∙ first) in
    (seal x t, reads, moves unmoved (subst (λ o. Step o t) same step))

file_id : StateName → Str
file_id (operation_file id) = id
file_id _ = []

-- A command of the operation itself.
Committed-own :
    (x : Codec) (id : Str) (w : World x.Document) (p : Result OperationRecord × World x.Document)
    {r : OperationRecord}
    → read x id w ≡ ok r
    → Committed x id w p
    → ReadsReached x id r p.1
unfolding Committed
Committed-own x id w (ok s, v) first (q, t, current, step, made, reads, _) =
    read-Step x id w v first current step (reads ∙ ap ok made)
Committed-own x id w (err e, v) {r} first (old_or_new, _) = elim old_or_new [
  | inl old ↦ (r, old ∙ first, unmoved)
  | inr (q, t, current, step, reads) ↦ read-Step x id w v first current step reads
]

Committed-OthersKept :
    (x : Codec) (id : Str) (w : World x.Document) (p : Result OperationRecord × World x.Document)
    → Committed x id w p
    → OthersKept x id w p.1
unfolding Committed
Committed-OthersKept x id w (ok s, v) (_, _, _, _, _, _, kept) = kept
Committed-OthersKept x id w (err e, v) (_, kept) = kept

pub operation_file-apart : (a b : Str) → a ≢ b → operation_file a ≢ operation_file b
unfolding file_id
operation_file-apart a b h e = h (ap file_id e)

pub read-OthersKept :
    (x : Codec) (id other : Str) (w v : World x.Document)
    → other ≢ id
    → OthersKept x other w v
    → read x id v ≡ read x id w
read-OthersKept x id other w v h k =
    read-untouched x id w v k.euid_kept
      (k.files_kept (operation_file id) (operation_file-apart other id h) refl)

-- One command, of this operation or of another.
pub run-ReadsReached :
    (x : Codec)
    → CodecLaws x
    → (id other : Str) (c : Command) (w : World x.Document) {r : OperationRecord}
    → read x id w ≡ ok r
    → ReadsReached x id r (run x other c w).1
run-ReadsReached x laws id other c w {r} first = elim (Bool-cases (other == id)) [
  | inl same ↦ Committed-own x id w (run x other c w) first (
      subst (λ i. Committed x i w (run x other c w)) ((eq_iff other id).0 same)
        (run-Committed x laws other c w))
  | inr differs ↦ (
    r,
    read-OthersKept x id other w (run x other c w).1 (λ e. cc (sym differs ∙ (eq_iff other id).1 e))
          (Committed-OthersKept x other w (run x other c w) (run-Committed x laws other c w))
        ∙ first,
    unmoved,
  )
]
