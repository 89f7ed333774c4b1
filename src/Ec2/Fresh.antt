-- ===== src/Ec2/Fresh.antt =====
-- src/aws_ec2/workflow.rs `new_state`: the state that `apply` plans is one that it resumes.
use dirextalk_vnext_deployer.Prelude.{
  ℕ, false, some, Str, bytes, str_eq, nat_beq, ltb, ◌==◌, ◌!=◌, ◌*◌, ◌≤◌, ◌≡◌, refl, sym, ◌∙◌,
  arith, Bool-cases, nat_beq_iff, inl, inr,
}
use dirextalk_vnext_deployer.Errors.{Result, ok, reject_if, reject_if-eq-ok, >>-eq-ok, >>=-eq-ok}
use dirextalk_vnext_deployer.Errors.{state_unsafe}
use dirextalk_vnext_deployer.Ec2.Syntax.{Ec2Parsers}
use dirextalk_vnext_deployer.Ec2.{
  AwsEc2Manifest, BundleFacts, validate_ec2, bundle, enforce_cost_guard, u64,
  monthly_estimate_cents,
}
use dirextalk_vnext_deployer.Ec2.State.{
  Ec2State, bundle_record_eq, infrastructure_record_eq, tags_eq,
}
use dirextalk_vnext_deployer.Ec2.Validated.{Ec2Checks, validate_ec2-Ec2Checks}
use dirextalk_vnext_deployer.Ec2.Cost.{u64-small, monthly_estimate_cents-positive}
use dirextalk_vnext_deployer.Ec2.Planned.{Agrees, bundle-Agrees}
use dirextalk_vnext_deployer.Prelude.{Str-discrete}
use dirextalk_vnext_deployer.Ec2.Apply.{validate_if_present, is_bad_account}
use dirextalk_vnext_deployer.Ec2.Apply.{
  Ec2Crates, infrastructure_from_manifest, bundle_from_facts, ownership_tags_of,
  ensure_apply_resumable_phase, ensure_apply_identity, parsed_version, check_ids, verify_semantics,
  ec2_seal, verify_ec2, unsealed_state, new_state, apply_planned,
}
use dirextalk_vnext_deployer.Ec2.Records.{
  both, passes, ne_self, ec2_token-any, infrastructure_from_manifest-checked,
  bundle_from_facts-checked, WellLoaded,
}

enforce_cost_guard-within :
    (m : AwsEc2Manifest) (limit estimate : ℕ)
    → enforce_cost_guard m limit ≡ ok estimate
    → (estimate ≡ monthly_estimate_cents m)
      × (ltb (u64 (limit * 100)) (monthly_estimate_cents m) ≡ false)
unfolding enforce_cost_guard
enforce_cost_guard-within m limit estimate h =
    let (within, same) = >>-eq-ok (reject_if _ _) _ h in (cc (same), reject_if-eq-ok _ _ within)

ltb-eq-false : (a b : ℕ) → ltb a b ≡ false → b ≤ a
ltb-eq-false a b h = ground arith

within-nonzero :
    (limit cents : ℕ)
    → 600 ≤ cents
    → ltb (u64 (limit * 100)) cents ≡ false
    → nat_beq limit 0 ≡ false
within-nonzero limit cents h k = elim (Bool-cases (nat_beq limit 0)) [
  | inl is ↦
      let zero_limit : limit ≡ 0 = (nat_beq_iff limit 0).0 is in
      let small : u64 (limit * 100) ≡ 0 = u64-small (limit * 100) (omega arith) ∙ omega arith in
      absurd (omega (arith, small, ltb-eq-false _ _ k))
  | inr other ↦ other
]

-- Three identifiers as `Uuid::now_v7` makes them.
pub record FreshIds (x : Ec2Crates) (operation_id tenant_id indexer_id : Str) : Type 0 where
  pub operation_version : x.uuid_version operation_id ≡ some 7
  pub tenant_version : x.uuid_version tenant_id ≡ some 7
  pub indexer_version : x.uuid_version indexer_id ≡ some 7
  pub apart : (tenant_id == indexer_id) ≡ false

module _ (p : Ec2Parsers) (x : Ec2Crates) (operation_id tenant_id indexer_id : Str)
    (ids : FreshIds x operation_id tenant_id indexer_id) where
  parsed : (id : Str) → x.uuid_version id ≡ some 7 → parsed_version p x id ≡ ok 7
  unfolding parsed_version
  parsed id h = rw (h, parsed_version) refl

  check_ids-ok :
      (s : Ec2State)
      → parsed_version p x s.operation_id ≡ ok 7
      → parsed_version p x s.tenant_id ≡ ok 7
      → parsed_version p x s.indexer_id ≡ ok 7
      → (s.tenant_id == s.indexer_id) ≡ false
      → (s.client_token != s.operation_id) ≡ false
      → (s.client_token_sha256 != x.hash s.client_token) ≡ false
      → nat_beq s.max_monthly_usd 0 ≡ false
      → ltb (u64 (s.max_monthly_usd * 100)) s.monthly_estimate_cents ≡ false
      → check_ids p x s ≡ ok tt
  unfolding check_ids
  check_ids-ok s a b c d e f g h = rw (a, b, c, d, e, f, g, h) refl

  new_state-verify_ec2 :
      (m : AwsEc2Manifest) (facts : BundleFacts) (estimate limit : ℕ)
      → Ec2Checks p m
      → Agrees facts m
      → WellLoaded facts
      → nat_beq limit 0 ≡ false
      → ltb (u64 (limit * 100)) estimate ≡ false
      → verify_ec2 p x (new_state p x m facts estimate limit operation_id tenant_id indexer_id)
        ≡ ok tt
  unfolding verify_ec2 verify_semantics new_state ec2_seal unsealed_state validate_if_present
      is_bad_account Str-discrete
  new_state-verify_ec2 m facts estimate limit c a w nonzero within =
      let fresh = unsealed_state p x m facts estimate limit operation_id tenant_id indexer_id in
      let sealed = new_state p x m facts estimate limit operation_id tenant_id indexer_id in
      let digest : (x.digest_of fresh != x.digest_of fresh) ≡ false = ne_self (x.digest_of fresh) in
      let tags = ne_self (ownership_tags_of m.target operation_id (x.hash operation_id) m.domain) in
      let named =
        check_ids-ok sealed (parsed operation_id ids.operation_version)
          (parsed tenant_id ids.tenant_version) (parsed indexer_id ids.indexer_version) ids.apart
          (ne_self operation_id) (ne_self (x.hash operation_id)) nonzero within in
      both _ _ refl (
        both _ _ c.region_ok (
          both _ _ (passes _ (state_unsafe (bytes "EC2 state")) digest) (
            both _ _ named (
              both _ _ (ec2_token-any m.target _ _ c.target_ok) (
                both _ _ c.domain_ok (
                  both _ _ (passes _ (state_unsafe (bytes "EC2 state")) tags) (
                    both _ _ (infrastructure_from_manifest-checked p m c)
                      (both _ _ (bundle_from_facts-checked p m facts c a w) refl))))))))

  new_state-ensure_apply_identity :
      (m : AwsEc2Manifest) (facts : BundleFacts) (estimate limit : ℕ)
      → ensure_apply_identity
          (new_state p x m facts estimate limit operation_id tenant_id indexer_id)
          m
          facts
        ≡ ok tt
  unfolding ensure_apply_identity new_state ec2_seal unsealed_state
  new_state-ensure_apply_identity m facts estimate limit =
      rw
        (
          ne_self m.target,
          ne_self m.region,
          ne_self m.domain,
          ne_self (infrastructure_from_manifest m),
          ne_self (bundle_from_facts facts m),
        )
        refl

  new_state-resumable :
      (m : AwsEc2Manifest) (facts : BundleFacts) (estimate limit : ℕ)
      → ensure_apply_resumable_phase
          (new_state p x m facts estimate limit operation_id tenant_id indexer_id).phase
        ≡ ok tt
  unfolding ensure_apply_resumable_phase new_state ec2_seal unsealed_state
  new_state-resumable m facts estimate limit = refl

  -- The state that `apply` plans is one that it resumes: with fresh identifiers, and a bundle whose
  -- digests and marker are well-formed, the state verifies, its phase may be resumed, and it has the
  -- identity of the manifest and of the bundle that it was made of.
  pub apply_planned-verify_ec2 :
      (load_bundle : AwsEc2Manifest → Result BundleFacts)
      → ((m : AwsEc2Manifest) (facts : BundleFacts) → load_bundle m ≡ ok facts → WellLoaded facts)
      → (m : AwsEc2Manifest) (limit : ℕ) (s : Ec2State)
      → apply_planned p x load_bundle m limit operation_id tenant_id indexer_id ≡ ok s
      → (verify_ec2 p x s ≡ ok tt)
        × (ensure_apply_resumable_phase s.phase ≡ ok tt)
        × ((facts : BundleFacts) × (load_bundle m ≡ ok facts)
            × (ensure_apply_identity s m facts ≡ ok tt))
  unfolding apply_planned
  apply_planned-verify_ec2 load_bundle well m limit s h =
      let (valid, h1) = >>-eq-ok (validate_ec2 p m) _ h in
      let (facts, has_bundle, h2) = >>=-eq-ok (bundle load_bundle m) _ h1 in
      let (estimate, guarded, h3) = >>=-eq-ok (enforce_cost_guard m limit) _ h2 in
      let (loaded, agrees) = bundle-Agrees load_bundle m facts has_bundle in
      let (is_estimate, within) = enforce_cost_guard-within m limit estimate guarded in
      let nonzero =
        within-nonzero limit (monthly_estimate_cents m) (monthly_estimate_cents-positive p m valid)
          within in
      let made = new_state p x m facts estimate limit operation_id tenant_id indexer_id in
      let is_made : made ≡ s = cc (h3) in
      rw (sym is_made) (
        new_state-verify_ec2 m facts estimate limit (validate_ec2-Ec2Checks p m valid) agrees
            (well m facts loaded) nonzero (rw is_estimate within),
        new_state-resumable m facts estimate limit,
        (facts, loaded, new_state-ensure_apply_identity m facts estimate limit),
      )
