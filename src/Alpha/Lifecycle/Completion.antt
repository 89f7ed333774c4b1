-- ===== src/Alpha/Lifecycle/Completion.antt =====
-- src/alpha_deployment.rs: a planned operation with its evidence can be advanced to its end, and no
-- further.
use dirextalk_vnext_deployer.Prelude.{
  ℕ, suc, true, Option, none, some, is_some, Str, ◌≡◌, refl, ◌∙◌, ap, ne_self,
}
use dirextalk_vnext_deployer.Errors.{ok}
use dirextalk_vnext_deployer.Alpha.{
  AlphaLifecycle, lifecycle_eq, alpha_planned, installed, started, alpha_ready, acceptance_observed,
  alpha_completed, ReadinessFacts, AcceptanceObservation, AlphaLifecycleRecord, Crates,
}
use dirextalk_vnext_deployer.Alpha.Lifecycle.{
  alpha_advance, alpha_seal, verify_alpha, next_state, check_next, with_evidence, with_facts,
  with_acceptance, check_complete, validate_facts, validate_for,
}
use dirextalk_vnext_deployer.Alpha.Lifecycle.Steps.{
  SameAlpha, SameAlpha-refl, SameAlpha-trans, SameAlpha-updated, alpha_seal-SameAlpha,
  alpha_seal-verify_alpha, by_alpha_advance, AlphaRun, not_started, and_then,
}
use dirextalk_vnext_deployer.Alpha.Lifecycle.Evidence.{everything_ready}

alpha_advance-ok :
    (x : Crates) (r m : AlphaLifecycleRecord) (next : AlphaLifecycle)
    (facts : Option ReadinessFacts) (acceptance : Option AcceptanceObservation)
    → verify_alpha x r ≡ ok tt
    → next_state r.state ≡ some next
    → with_evidence x next r (record r { state = next }) facts acceptance ≡ ok m
    → alpha_advance x r next facts acceptance ≡ ok (alpha_seal x m)
unfolding alpha_advance check_next
alpha_advance-ok x r m next facts acceptance v legal evidence =
    rw (v, legal, ne_self next, evidence) refl

validate_for-same :
    (x : Crates) (o : AcceptanceObservation) (r s : AlphaLifecycleRecord)
    → SameAlpha r s
    → validate_for x o s ≡ validate_for x o r
unfolding validate_for
validate_for-same x o r s same =
    rw
      (
        same.same_target, same.same_manifest, same.same_package, same.same_connector,
        same.same_operation,
      )
      refl

with_acceptance-ok :
    (x : Crates) (o : AcceptanceObservation) (current r : AlphaLifecycleRecord)
    → validate_for x o current ≡ ok tt
    → with_acceptance x current r (some o)
      ≡ ok (record r {
        receipt_digest = some o.receipt_digest;
        receipt_signer_identity = some o.signer_identity;
      })
unfolding with_acceptance
with_acceptance-ok x o current r h = rw h refl

check_complete-ok :
    (r : AlphaLifecycleRecord)
    → is_some r.readiness ≡ true
    → is_some r.receipt_digest ≡ true
    → is_some r.receipt_signer_identity ≡ true
    → check_complete r ≡ ok r
unfolding check_complete
check_complete-ok r a b c = rw (a, b, c) refl

-- A record on the way, with what it keeps.
record Arrived (x : Crates) (r : AlphaLifecycleRecord) (n : ℕ) (state : AlphaLifecycle)
    (facts : Option ReadinessFacts) (digest signer : Option Str) : Type 0 where
  there : AlphaLifecycleRecord
  path : AlphaRun x r n there
  in_state : there.state ≡ state
  has_facts : there.readiness ≡ facts
  has_digest : there.receipt_digest ≡ digest
  has_signer : there.receipt_signer_identity ≡ signer
  same : SameAlpha r there
  verified : verify_alpha x there ≡ ok tt

-- One more advance, which leaves the evidence that is given with it.
arrive :
    (x : Crates) (r : AlphaLifecycleRecord) (n : ℕ) (state next : AlphaLifecycle)
    (old : Option ReadinessFacts) (old_digest old_signer : Option Str)
    (a : Arrived x r n state old old_digest old_signer) (facts : Option ReadinessFacts)
    (acceptance : Option AcceptanceObservation) (new : Option ReadinessFacts)
    (digest signer : Option Str)
    → next_state state ≡ some next
    → with_evidence x next a.there (record a.there { state = next }) facts acceptance
      ≡ ok (record a.there {
        state = next;
        readiness = new;
        receipt_digest = digest;
        receipt_signer_identity = signer;
      })
    → Arrived x r (suc n) next new digest signer
unfolding alpha_seal
arrive x r n state next old old_digest old_signer a facts acceptance new digest signer legal
      evidence =
    let t = a.there in
    let m : AlphaLifecycleRecord = record t {
      state = next;
      readiness = new;
      receipt_digest = digest;
      receipt_signer_identity = signer;
    } in
    let to_m : SameAlpha t m = SameAlpha-updated t next new digest signer t.integrity_digest in
    let step =
      alpha_advance-ok x t m next facts acceptance a.verified (ap next_state a.in_state ∙ legal)
        evidence in
    record {
      there = alpha_seal x m;
      path = and_then a.path (by_alpha_advance next facts acceptance step);
      in_state = refl;
      has_facts = refl;
      has_digest = refl;
      has_signer = refl;
      same = SameAlpha-trans a.same (SameAlpha-trans to_m (alpha_seal-SameAlpha x m));
      verified = alpha_seal-verify_alpha x t m a.verified to_m;
    }

-- From a planned record that verifies, all readiness facts and an observation that matches the record
-- are enough: five advances lead to the completed state.
pub planned-completes :
    (x : Crates) (r : AlphaLifecycleRecord) (o : AcceptanceObservation)
    → verify_alpha x r ≡ ok tt
    → r.state ≡ alpha_planned
    → validate_for x o r ≡ ok tt
    → (s : AlphaLifecycleRecord) × AlphaRun x r 5 s × (s.state ≡ alpha_completed)
unfolding with_evidence with_facts validate_facts
planned-completes x r o v first matches =
    let f = r.readiness in
    let d = r.receipt_digest in
    let g = r.receipt_signer_identity in
    let a0 : Arrived x r 0 alpha_planned f d g = record {
      there = r;
      path = not_started;
      in_state = first;
      has_facts = refl;
      has_digest = refl;
      has_signer = refl;
      same = SameAlpha-refl r;
      verified = v;
    } in
    let ready = some everything_ready in
    let digest = some o.receipt_digest in
    let signer = some o.signer_identity in
    let a1 = arrive x r 0 alpha_planned installed f d g a0 none none f d g refl refl in
    let t1 = a1.there in
    let a2 =
      arrive x r 1 installed started f d g a1 none none t1.readiness t1.receipt_digest
        t1.receipt_signer_identity refl refl in
    let t2 = a2.there in
    let a3 =
      arrive x r 2 started alpha_ready t1.readiness t1.receipt_digest t1.receipt_signer_identity a2
        ready none ready t2.receipt_digest t2.receipt_signer_identity refl refl in
    let t3 = a3.there in
    let still : validate_for x o t3 ≡ ok tt = validate_for-same x o r t3 a3.same ∙ matches in
    let a4 =
      arrive x r 3 alpha_ready acceptance_observed ready t2.receipt_digest
        t2.receipt_signer_identity a3 none (some o) t3.readiness digest signer refl
        (with_acceptance-ok x o t3 (record t3 { state = acceptance_observed }) still) in
    let t4 = a4.there in
    let facts_there : t4.readiness ≡ ready = a4.has_facts ∙ a3.has_facts in
    let a5 =
      arrive x r 4 acceptance_observed alpha_completed t3.readiness digest signer a4 none none
        t4.readiness t4.receipt_digest t4.receipt_signer_identity refl
        (check_complete-ok (record t4 { state = alpha_completed }) (ap is_some facts_there)
          (ap is_some a4.has_digest) (ap is_some a4.has_signer)) in
    (a5.there, a5.path, a5.in_state)
