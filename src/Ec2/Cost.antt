-- ===== src/Ec2/Cost.antt =====
-- src/aws_ec2.rs `enforce_cost_guard` and `monthly_estimate_cents`: the estimate does not wrap around.
use dirextalk_vnext_deployer.Prelude.{
  ℕ, Str, str_eq, ltb, ◌+◌, ◌*◌, ◌^◌, ◌≡◌, ap, sym, ◌∙◌, ◌≤◌, ◌<◌, ◌↔◌, Bool-cases, inl, inr, arith,
}
use dirextalk_vnext_deployer.Prelude.{not, leb}
use dirextalk_vnext_deployer.Errors.{ok, err, reject_if, ReleaseError, ◌>>◌}
use dirextalk_vnext_deployer.Ec2.Syntax.{Ec2Parsers}
use dirextalk_vnext_deployer.Ec2.Validated.{validate_ec2-Ec2Validated}
use dirextalk_vnext_deployer.Ec2.{
  AwsEc2Manifest, validate_ec2, u64, compute_cents, monthly_estimate_cents, enforce_cost_guard,
}

pub u64-small : (n : ℕ) → n < 2 ^ 64 → u64 n ≡ n
unfolding u64
u64-small n h = omega arith

compute_cents_le : (kind : Str) → compute_cents kind ≤ 10000
unfolding compute_cents
compute_cents_le kind = ground arith

-- The monthly estimate in cents, without a bound on numbers.
abbrev pub monthly_cents : AwsEc2Manifest → ℕ
monthly_cents m = compute_cents m.instance_type + m.disk_gib * 14 + 600

sums-small :
    (compute disk : ℕ)
    → compute + disk + 600 ≤ 39272
    → u64 (u64 (u64 (compute + u64 disk) + 500) + 100) ≡ compute + disk + 600
sums-small compute disk h =
    rw
      (
        u64-small disk (omega arith),
        u64-small (compute + disk) (omega arith),
        u64-small (compute + disk + 500) (omega arith),
        u64-small (compute + disk + 500 + 100) (omega arith),
      )
      (omega arith)

monthly_estimate_cents-small :
    (m : AwsEc2Manifest) → monthly_cents m ≤ 39272 → monthly_estimate_cents m ≡ monthly_cents m
unfolding monthly_estimate_cents
monthly_estimate_cents-small m h = sums-small (compute_cents m.instance_type) (m.disk_gib * 14) h

guarded :
    (failure : ReleaseError) (limit cents : ℕ)
    → ((do reject_if (ltb limit cents) failure; ok cents) ≡ ok cents) ↔ (cents ≤ limit)
guarded failure limit cents = elim (Bool-cases (ltb limit cents)) [
  | inl over ↦ (
    (λ h.
        let refused : err failure ≡ ok cents =
          ap (λ b. reject_if b failure >> ok cents) (sym over) ∙ h in
        cc),
    λ h. ground arith,
  )
  | inr within ↦ (λ h. ground arith, λ h. ap (λ b. reject_if b failure >> ok cents) within)
]

-- The estimate of an accepted manifest does not wrap around and is at most 392.72 dollars; and the
-- guard passes, and returns it, exactly when it is within the limit, a 32-bit number of dollars.
pub enforce_cost_guard-monthly_cents :
    (p : Ec2Parsers) (m : AwsEc2Manifest) (limit : ℕ)
    → validate_ec2 p m ≡ ok tt
    → limit < 2 ^ 32
    → (monthly_estimate_cents m ≡ monthly_cents m)
      × (monthly_cents m ≤ 39272)
      × ((enforce_cost_guard m limit ≡ ok (monthly_cents m)) ↔ (monthly_cents m ≤ limit * 100))
unfolding enforce_cost_guard
enforce_cost_guard-monthly_cents p m limit valid h =
    let v = validate_ec2-Ec2Validated p m valid in
    let most : monthly_cents m ≤ 39272 =
      omega (arith, compute_cents_le m.instance_type, v.disk_to) in
    let same = monthly_estimate_cents-small m most in
    let dollars = u64-small (limit * 100) (omega arith) in
    (same, most, rw (same, dollars) (guarded _ (limit * 100) (monthly_cents m)))

pub monthly_estimate_cents-positive :
    (p : Ec2Parsers) (m : AwsEc2Manifest)
    → validate_ec2 p m ≡ ok tt
    → 600 ≤ monthly_estimate_cents m
monthly_estimate_cents-positive p m valid =
    let v = validate_ec2-Ec2Validated p m valid in
    let most : monthly_cents m ≤ 39272 =
      omega (arith, compute_cents_le m.instance_type, v.disk_to) in
    rw (monthly_estimate_cents-small m most) (omega arith)

not-ltb : (a b : ℕ) → not (ltb a b) ≡ leb b a
not-ltb a b = ground arith

pub monthly_estimate_cents-within :
    (p : Ec2Parsers) (m : AwsEc2Manifest) (limit : ℕ)
    → validate_ec2 p m ≡ ok tt
    → limit < 2 ^ 32
    → not (ltb (u64 (limit * 100)) (monthly_estimate_cents m)) ≡ leb (monthly_cents m) (limit * 100)
monthly_estimate_cents-within p m limit valid h =
    let (same, _, _) = enforce_cost_guard-monthly_cents p m limit valid h in
    rw (same, u64-small (limit * 100) (omega arith)) (not-ltb (limit * 100) (monthly_cents m))
