-- ===== src/Alpha/Lifecycle/Evidence.antt =====
-- src/alpha_deployment.rs: the evidence that a record holds in each state.
use dirextalk_vnext_deployer.Prelude.{
  ℕ, Bool, true, false, ◌||◌, not, Option, none, some, Str, str_eq, ◌≡◌, refl, sym, ap, arith,
}
use dirextalk_vnext_deployer.Errors.{ok, >>-eq-ok, reject_if-eq-ok}
use dirextalk_vnext_deployer.Alpha.{
  AlphaLifecycle, lifecycle_eq, alpha_planned, installed, started, alpha_ready, acceptance_observed,
  alpha_completed, ReadinessFacts, AcceptanceObservation, AlphaLifecycleRecord, connector_fence_eq,
  operation_fence_eq, Crates,
}
use dirextalk_vnext_deployer.Alpha.Syntax.{alpha_digest}
use dirextalk_vnext_deployer.Alpha.Lifecycle.{
  next_state, with_evidence, with_facts, with_acceptance, validate_facts, validate_for, is_signer,
  validate_connector_fence, validate_operation_fence,
}
use dirextalk_vnext_deployer.Alpha.Lifecycle.Steps.{check_complete-same}

-- How many states lie before one.
abbrev pub stage : AlphaLifecycle → ℕ
stage alpha_planned = 0
stage installed = 1
stage started = 2
stage alpha_ready = 3
stage acceptance_observed = 4
stage alpha_completed = 5

abbrev pub everything_ready : ReadinessFacts
everything_ready = record {
  server_ready = true;
  client_ready = true;
  connector_ready = true;
  sidecar_ready = true;
}

abbrev IsReceipt : Option Str → Type 0
IsReceipt digest = (d : Str) × (digest ≡ some d) × (alpha_digest d "receipt_digest" ≡ ok tt)

abbrev IsSigned : Option Str → Type 0
IsSigned signer = (n : Str) × (signer ≡ some n) × (is_signer n ≡ true)

-- The readiness facts are there from the fourth state on, the receipt from the fifth on.
abbrev pub HoldsEvidence : AlphaLifecycle → Option ReadinessFacts → Option Str → Option Str → Type 0
HoldsEvidence alpha_ready facts digest signer =
    (facts ≡ some everything_ready) × (digest ≡ none) × (signer ≡ none)
HoldsEvidence acceptance_observed facts digest signer =
    (facts ≡ some everything_ready) × IsReceipt digest × IsSigned signer
HoldsEvidence alpha_completed facts digest signer =
    (facts ≡ some everything_ready) × IsReceipt digest × IsSigned signer
HoldsEvidence _ facts digest signer = (facts ≡ none) × (digest ≡ none) × (signer ≡ none)

abbrev pub Evidenced : AlphaLifecycleRecord → Type 0
Evidenced r = HoldsEvidence r.state r.readiness r.receipt_digest r.receipt_signer_identity

validate_facts-everything_ready :
    (f : ReadinessFacts) → validate_facts f ≡ ok tt → f ≡ everything_ready
unfolding validate_facts
validate_facts-everything_ready f h =
    let all_true = reject_if-eq-ok _ _ h in
    let a : f.server_ready ≡ true = ground arith in
    let b : f.client_ready ≡ true = ground arith in
    let c : f.connector_ready ≡ true = ground arith in
    let d : f.sidecar_ready ≡ true = ground arith in cc

validate_for-IsReceipt :
    (x : Crates) (o : AcceptanceObservation) (r : AlphaLifecycleRecord)
    → validate_for x o r ≡ ok tt
    → IsReceipt (some o.receipt_digest) × IsSigned (some o.signer_identity)
unfolding validate_for
validate_for-IsReceipt x o r h =
    let (_, h1) = >>-eq-ok (validate_connector_fence x o.connector_fence) _ h in
    let (_, h2) = >>-eq-ok (validate_operation_fence x o.operation_fence) _ h1 in
    let (digest, h3) = >>-eq-ok (alpha_digest o.receipt_digest "receipt_digest") _ h2 in
    let matching = reject_if-eq-ok _ _ h3 in
    let signed : not (is_signer o.signer_identity) ≡ false =
      last_test o.signature_verified (is_signer o.signer_identity) _ matching in
    ((o.receipt_digest, refl, digest), (o.signer_identity, refl, ground arith))
  where
    last_test : (a b c : Bool) → (c || not a || not b) ≡ false → not b ≡ false
    last_test a b c e = ground arith

-- The three changes of evidence.
with_facts-HoldsEvidence :
    (r s : AlphaLifecycleRecord) (facts : Option ReadinessFacts)
    → HoldsEvidence started r.readiness r.receipt_digest r.receipt_signer_identity
    → with_facts r facts ≡ ok s
    → HoldsEvidence alpha_ready s.readiness s.receipt_digest s.receipt_signer_identity
unfolding with_facts
with_facts-HoldsEvidence r s none e h = cc
with_facts-HoldsEvidence r s (some f) e h =
    let (valid, h1) = >>-eq-ok (validate_facts f) _ h in
    let all_ready = validate_facts-everything_ready f valid in
    let is : record r { readiness = some f } ≡ s = cc in
    rw (sym is) (ap (λ g. some g) all_ready, e.1, e.2)

with_acceptance-HoldsEvidence :
    (x : Crates) (current r s : AlphaLifecycleRecord) (acceptance : Option AcceptanceObservation)
    → HoldsEvidence alpha_ready r.readiness r.receipt_digest r.receipt_signer_identity
    → with_acceptance x current r acceptance ≡ ok s
    → HoldsEvidence acceptance_observed s.readiness s.receipt_digest s.receipt_signer_identity
unfolding with_acceptance
with_acceptance-HoldsEvidence x current r s none e h = cc
with_acceptance-HoldsEvidence x current r s (some o) e h =
    let (valid, h1) = >>-eq-ok (validate_for x o current) _ h in
    let is : record r {
      receipt_digest = some o.receipt_digest;
      receipt_signer_identity = some o.signer_identity;
    }
        ≡ s =
      cc in
    let (receipt, signed) = validate_for-IsReceipt x o current valid in
    rw (sym is) (e.0, receipt, signed)

abbrev pub HoldsIn : AlphaLifecycle → AlphaLifecycleRecord → Type 0
HoldsIn state r = HoldsEvidence state r.readiness r.receipt_digest r.receipt_signer_identity

pub with_evidence-HoldsIn :
    (x : Crates) (prev next : AlphaLifecycle) (current r s : AlphaLifecycleRecord)
    (facts : Option ReadinessFacts) (acceptance : Option AcceptanceObservation)
    → next_state prev ≡ some next
    → HoldsIn prev r
    → with_evidence x next current r facts acceptance ≡ ok s
    → HoldsIn next s
unfolding with_evidence
with_evidence-HoldsIn x alpha_planned installed current r s facts acceptance l e h =
    let is : r ≡ s = cc in rw (sym is) e
with_evidence-HoldsIn x installed started current r s facts acceptance l e h =
    let is : r ≡ s = cc in rw (sym is) e
with_evidence-HoldsIn x started alpha_ready current r s facts acceptance l e h =
    with_facts-HoldsEvidence r s facts e h
with_evidence-HoldsIn x alpha_ready acceptance_observed current r s facts acceptance l e h =
    with_acceptance-HoldsEvidence x current r s acceptance e h
with_evidence-HoldsIn x acceptance_observed alpha_completed current r s facts acceptance l e h =
    rw (sym (check_complete-same r s h)) e
with_evidence-HoldsIn x _ _ current r s facts acceptance l e h = cc
