-- ===== src/Alpha/Lifecycle/Steps.antt =====
-- src/alpha_deployment.rs: advances as steps, what a step returns, and what it keeps.
use dirextalk_vnext_deployer.Prelude.{
  ℕ, zero, suc, ◌||◌, not, [], Option, none, some, is_some, Str, str_eq, ◌≡◌, refl, sym, ◌∙◌, ap,
  ne-eq-false, ne_self,
}
use dirextalk_vnext_deployer.Errors.{
  Checked, ok, reject_if, contract, >>-eq-ok, >>=-eq-ok, reject_if-eq-ok,
}
use dirextalk_vnext_deployer.Alpha.{
  AlphaLifecycle, lifecycle_eq, alpha_ready, acceptance_observed, alpha_completed, ReadinessFacts,
  AcceptanceObservation, AlphaLifecycleRecord, Crates,
}
use dirextalk_vnext_deployer.Alpha.Syntax.{prefixed_digest}
use dirextalk_vnext_deployer.Alpha.Lifecycle.{
  alpha_advance, alpha_seal, verify_alpha, check_alpha_identity, next_state, check_next,
  with_evidence, with_facts, with_acceptance, check_complete, validate_facts, validate_for,
}

-- The fields that no advance changes.
pub record SameAlpha (r s : AlphaLifecycleRecord) : Type 0 where
  pub same_schema : r.schema ≡ s.schema
  pub same_version : r.schema_version ≡ s.schema_version
  pub same_target : r.target_id ≡ s.target_id
  pub same_manifest : r.manifest_digest ≡ s.manifest_digest
  pub same_package : r.package_digest ≡ s.package_digest
  pub same_components : r.component_digests ≡ s.component_digests
  pub same_connector : r.connector_fence ≡ s.connector_fence
  pub same_operation : r.operation_fence ≡ s.operation_fence

-- Such a change of the other fields.
pub SameAlpha-updated :
    (r : AlphaLifecycleRecord) (state : AlphaLifecycle) (facts : Option ReadinessFacts)
    (digest signer : Option Str) (integrity : Str)
    → SameAlpha r (record r {
      state = state;
      readiness = facts;
      receipt_digest = digest;
      receipt_signer_identity = signer;
      integrity_digest = integrity;
    })
SameAlpha-updated r state facts digest signer integrity = record {
  same_schema = refl;
  same_version = refl;
  same_target = refl;
  same_manifest = refl;
  same_package = refl;
  same_components = refl;
  same_connector = refl;
  same_operation = refl;
}

pub SameAlpha-refl : (r : AlphaLifecycleRecord) → SameAlpha r r
SameAlpha-refl r =
    SameAlpha-updated r r.state r.readiness r.receipt_digest r.receipt_signer_identity
      r.integrity_digest

pub SameAlpha-trans : {r s t : AlphaLifecycleRecord} → SameAlpha r s → SameAlpha s t → SameAlpha r t
SameAlpha-trans a b = record {
  same_schema = a.same_schema ∙ b.same_schema;
  same_version = a.same_version ∙ b.same_version;
  same_target = a.same_target ∙ b.same_target;
  same_manifest = a.same_manifest ∙ b.same_manifest;
  same_package = a.same_package ∙ b.same_package;
  same_components = a.same_components ∙ b.same_components;
  same_connector = a.same_connector ∙ b.same_connector;
  same_operation = a.same_operation ∙ b.same_operation;
}

pub data AlphaStep (x : Crates) (r s : AlphaLifecycleRecord) : Type 0 where
  by_alpha_advance :
      (next : AlphaLifecycle) (facts : Option ReadinessFacts)
      (acceptance : Option AcceptanceObservation)
      → alpha_advance x r next facts acceptance ≡ ok s
      → AlphaStep x r s

-- `n` advances in a row.
pub data AlphaRun (x : Crates) (r : AlphaLifecycleRecord) : ℕ → AlphaLifecycleRecord → Type 0 where
  not_started : AlphaRun x r zero r
  and_then :
      {n : ℕ} {mid last : AlphaLifecycleRecord}
      → AlphaRun x r n mid
      → AlphaStep x mid last
      → AlphaRun x r (suc n) last

-- What an advance tested, and the record that it sealed.
pub record Advanced (x : Crates) (r : AlphaLifecycleRecord) (next : AlphaLifecycle)
    (facts : Option ReadinessFacts) (acceptance : Option AcceptanceObservation)
    (s : AlphaLifecycleRecord) : Type 0 where
  pub verified : verify_alpha x r ≡ ok tt
  pub legal : next_state r.state ≡ some next
  pub unsealed : AlphaLifecycleRecord
  pub evidence : with_evidence x next r (record r { state = next }) facts acceptance ≡ ok unsealed
  pub sealed : s ≡ alpha_seal x unsealed

check_next-legal :
    (expected : Option AlphaLifecycle) (next : AlphaLifecycle)
    → check_next expected next ≡ ok tt
    → expected ≡ some next
unfolding check_next
check_next-legal none next h = cc
check_next-legal (some expected) next h =
    ap (λ s. some s) (sym (ne-eq-false next expected (reject_if-eq-ok _ _ h)))

pub alpha_advance-Advanced :
    (x : Crates) (r s : AlphaLifecycleRecord) (next : AlphaLifecycle)
    (facts : Option ReadinessFacts) (acceptance : Option AcceptanceObservation)
    → alpha_advance x r next facts acceptance ≡ ok s
    → Advanced x r next facts acceptance s
unfolding alpha_advance
alpha_advance-Advanced x r s next facts acceptance h =
    let (verified, h1) = >>-eq-ok (verify_alpha x r) _ h in
    let (legal, h2) = >>-eq-ok (check_next (next_state r.state) next) _ h1 in
    let moved = record r { state = next } in
    let (unsealed, evidence, h3) =
      >>=-eq-ok (with_evidence x next r moved facts acceptance) (λ m. ok (alpha_seal x m)) h2 in
    record {
      verified = verified;
      legal = check_next-legal (next_state r.state) next legal;
      unsealed = unsealed;
      evidence = evidence;
      sealed = cc;
    }

-- The `match` on the next state changes the evidence only.
with_facts-SameAlpha :
    (r s : AlphaLifecycleRecord) (facts : Option ReadinessFacts)
    → with_facts r facts ≡ ok s
    → SameAlpha r s × (s.state ≡ r.state)
unfolding with_facts
with_facts-SameAlpha r s none h = cc
with_facts-SameAlpha r s (some f) h =
    let (_, h1) = >>-eq-ok (validate_facts f) _ h in
    let is : record r { readiness = some f } ≡ s = cc in
    rw (sym is) (
      SameAlpha-updated r r.state (some f) r.receipt_digest r.receipt_signer_identity
          r.integrity_digest,
      refl,
    )

with_acceptance-SameAlpha :
    (x : Crates) (current r s : AlphaLifecycleRecord) (acceptance : Option AcceptanceObservation)
    → with_acceptance x current r acceptance ≡ ok s
    → SameAlpha r s × (s.state ≡ r.state)
unfolding with_acceptance
with_acceptance-SameAlpha x current r s none h = cc
with_acceptance-SameAlpha x current r s (some o) h =
    let (_, h1) = >>-eq-ok (validate_for x o current) _ h in
    let is : record r {
      receipt_digest = some o.receipt_digest;
      receipt_signer_identity = some o.signer_identity;
    }
        ≡ s =
      cc in
    rw (sym is) (
      SameAlpha-updated r r.state r.readiness (some o.receipt_digest) (some o.signer_identity)
          r.integrity_digest,
      refl,
    )

pub check_complete-same : (r s : AlphaLifecycleRecord) → check_complete r ≡ ok s → r ≡ s
unfolding check_complete
check_complete-same r s h =
    let missing : Checked =
      reject_if
        (not (is_some r.readiness)
          || not (is_some r.receipt_digest)
          || not (is_some r.receipt_signer_identity))
        (contract "completed Alpha record lacks acceptance evidence") in
    let (_, h1) = >>-eq-ok missing (ok r) h in cc

kept_as : (r s : AlphaLifecycleRecord) → r ≡ s → SameAlpha r s × (s.state ≡ r.state)
kept_as r s is = rw (sym is) (SameAlpha-refl r, refl)

with_evidence-SameAlpha :
    (x : Crates) (next : AlphaLifecycle) (current r s : AlphaLifecycleRecord)
    (facts : Option ReadinessFacts) (acceptance : Option AcceptanceObservation)
    → with_evidence x next current r facts acceptance ≡ ok s
    → SameAlpha r s × (s.state ≡ r.state)
unfolding with_evidence
with_evidence-SameAlpha x alpha_ready current r s facts acceptance h =
    with_facts-SameAlpha r s facts h
with_evidence-SameAlpha x acceptance_observed current r s facts acceptance h =
    with_acceptance-SameAlpha x current r s acceptance h
with_evidence-SameAlpha x alpha_completed current r s facts acceptance h =
    kept_as r s (check_complete-same r s h)
with_evidence-SameAlpha x _ current r s facts acceptance h = kept_as r s (cc)

pub Advanced-SameAlpha :
    (x : Crates) (r s : AlphaLifecycleRecord) (next : AlphaLifecycle)
    (facts : Option ReadinessFacts) (acceptance : Option AcceptanceObservation)
    → Advanced x r next facts acceptance s
    → SameAlpha r s × (s.state ≡ next)
unfolding alpha_seal
Advanced-SameAlpha x r s next facts acceptance a =
    let u = a.unsealed in
    let moved = record r { state = next } in
    let (same, state) = with_evidence-SameAlpha x next r moved u facts acceptance a.evidence in
    let from_r =
      SameAlpha-trans
        (SameAlpha-updated r next r.readiness r.receipt_digest r.receipt_signer_identity
          r.integrity_digest)
        same in
    rw a.sealed (
      SameAlpha-trans from_r (
          SameAlpha-updated u u.state u.readiness u.receipt_digest u.receipt_signer_identity
            (prefixed_digest x (x.record_to_vec (record u { integrity_digest = [] })))),
      state,
    )

check_alpha_identity-same :
    (x : Crates) (r s : AlphaLifecycleRecord)
    → SameAlpha r s
    → check_alpha_identity x s ≡ check_alpha_identity x r
unfolding check_alpha_identity
check_alpha_identity-same x r s same =
    rw
      (
        same.same_schema, same.same_version, same.same_connector, same.same_operation,
        same.same_manifest, same.same_package,
      )
      refl

pub alpha_seal-SameAlpha : (x : Crates) (r : AlphaLifecycleRecord) → SameAlpha r (alpha_seal x r)
unfolding alpha_seal
alpha_seal-SameAlpha x r =
    SameAlpha-updated r r.state r.readiness r.receipt_digest r.receipt_signer_identity
      (prefixed_digest x (x.record_to_vec (record r { integrity_digest = [] })))

alpha_seal-verified :
    (x : Crates) (r : AlphaLifecycleRecord)
    → check_alpha_identity x (alpha_seal x r) ≡ ok tt
    → verify_alpha x (alpha_seal x r) ≡ ok tt
unfolding verify_alpha alpha_seal
alpha_seal-verified x r h =
    rw h
      (rw (ne_self (prefixed_digest x (x.record_to_vec (record r { integrity_digest = [] })))) refl)

-- A sealed record verifies where its fences and digests do.
pub alpha_seal-verify_alpha :
    (x : Crates) (r s : AlphaLifecycleRecord)
    → verify_alpha x r ≡ ok tt
    → SameAlpha r s
    → verify_alpha x (alpha_seal x s) ≡ ok tt
unfolding verify_alpha
alpha_seal-verify_alpha x r s v same =
    let (fields, _) = >>-eq-ok (check_alpha_identity x r) _ v in
    alpha_seal-verified x s (
      check_alpha_identity-same x r (alpha_seal x s)
        (SameAlpha-trans same (alpha_seal-SameAlpha x s))
      ∙ fields)

-- An advance keeps a record that verifies.
pub Advanced-verify_alpha :
    (x : Crates) (r s : AlphaLifecycleRecord) (next : AlphaLifecycle)
    (facts : Option ReadinessFacts) (acceptance : Option AcceptanceObservation)
    → Advanced x r next facts acceptance s
    → verify_alpha x s ≡ ok tt
Advanced-verify_alpha x r s next facts acceptance a =
    let moved = record r { state = next } in
    let (same, _) = with_evidence-SameAlpha x next r moved a.unsealed facts acceptance a.evidence in
    let from_r : SameAlpha r a.unsealed =
      SameAlpha-trans
        (SameAlpha-updated r next r.readiness r.receipt_digest r.receipt_signer_identity
          r.integrity_digest)
        same in
    rw a.sealed (alpha_seal-verify_alpha x r a.unsealed a.verified from_r)
