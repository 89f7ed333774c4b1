-- ===== src/Ec2/Planned.antt =====
-- src/aws_ec2.rs `plan` and `AwsEc2Manifest::bundle`: what a plan is.
use dirextalk_vnext_deployer.Prelude.{
  ℕ, true, ◌||◌, Option, Str, str_eq, nat_beq, inl, inr, ◌≡◌, refl, ap, sym, ◌∙◌, All, ◌⊎◌, inl,
  inr, or-eq-false, ne-eq-false,
}
use dirextalk_vnext_deployer.Errors.{Result, ok, reject_if, reject_if-eq-ok, >>-eq-ok, >>=-eq-ok}
use dirextalk_vnext_deployer.Ec2.Syntax.{Ec2Parsers}
use dirextalk_vnext_deployer.Ec2.{
  AwsEc2Manifest, validate_ec2, Ec2Plan, plan_ec2, plan_from, ingress_rules, IngressRule, bundle,
  BundleFacts,
}
use dirextalk_vnext_deployer.Ec2.Validated.{
  IsOneAddress, Ec2Validated, validate_ec2-Ec2Validated, Ec2Checks, validate_ec2-Ec2Checks,
}
use dirextalk_vnext_deployer.Ec2.Cost.{monthly_cents, monthly_estimate_cents-within}
use dirextalk_vnext_deployer.Prelude.{
  Bool, none, some, leb, ◌*◌, ◌<◌, ◌^◌, any, ◌==◌, eq_self, arith,
}

-- Which traffic a rule lets in: from everywhere to a web port, or from one address by SSH.
abbrev pub IsNarrow : Ec2Parsers → IngressRule → Type 0
IsNarrow p r =
    (r.from_port ≡ r.to_port)
    × (((nat_beq r.from_port 80 || nat_beq r.from_port 443) ≡ true)
        ⊎ ((r.from_port ≡ 22) × IsOneAddress p r.cidr))

ingress_rules-IsNarrow :
    (p : Ec2Parsers) (m : AwsEc2Manifest)
    → IsOneAddress p m.operator_ssh_cidr
    → All (IsNarrow p) (ingress_rules m)
unfolding ingress_rules
ingress_rules-IsNarrow p m one =
    ((refl, inl refl), ((refl, inl refl), ((refl, inr (refl, one)), tt)))

-- The manifest in a bundle is that of the deployment.
pub record Agrees (facts : BundleFacts) (m : AwsEc2Manifest) : Type 0 where
  pub same_version : facts.manifest.version ≡ m.release_version
  pub same_commit : facts.manifest.source_commit ≡ m.source_commit
  pub same_server : facts.manifest.server_image ≡ m.server_image
  pub same_migrator : facts.manifest.migrator_image ≡ m.migrator_image

pub bundle-Agrees :
    (load_bundle : AwsEc2Manifest → Result BundleFacts) (m : AwsEc2Manifest) (facts : BundleFacts)
    → bundle load_bundle m ≡ ok facts
    → (load_bundle m ≡ ok facts) × Agrees facts m
unfolding bundle
bundle-Agrees load_bundle m facts h =
    let (found, loaded, h1) = >>=-eq-ok (load_bundle m) _ h in
    let (agrees, same) = >>-eq-ok (reject_if _ _) _ h1 in
    let (three, migrator) = or-eq-false _ _ (reject_if-eq-ok _ _ agrees) in
    let (two, server) = or-eq-false _ _ three in
    let (version, commit) = or-eq-false _ _ two in
    let is_facts : found ≡ facts = cc (same) in
    (
      loaded ∙ same,
      rw (sym is_facts) (record {
        same_version = ne-eq-false found.manifest.version m.release_version version;
        same_commit = ne-eq-false found.manifest.source_commit m.source_commit commit;
        same_server = ne-eq-false found.manifest.server_image m.server_image server;
        same_migrator = ne-eq-false found.manifest.migrator_image m.migrator_image migrator;
      }),
    )

-- What the plan says of the limit: nothing without one, and otherwise whether the estimate, as a
-- number without a bound, is within it.
abbrev pub SaysWithin : AwsEc2Manifest → Option ℕ → Option Bool → Type 0
SaysWithin m none said = said ≡ none
SaysWithin m (some limit) said = said ≡ some (leb (monthly_cents m) (limit * 100))

abbrev pub FitsU32 : Option ℕ → Type 0
FitsU32 none = Unit {0}
FitsU32 (some limit) = limit < 2 ^ 32

ingress_rules-operator :
    (m : AwsEc2Manifest)
    → any (λ (r : IngressRule). r.cidr == m.operator_ssh_cidr) (ingress_rules m) ≡ true
unfolding ingress_rules
ingress_rules-operator m = rw (eq_self m.operator_ssh_cidr) (ground arith)

-- What a plan made of a manifest, a limit of dollars and the facts of the manifest's bundle is.
pub record Planned (p : Ec2Parsers) (facts : BundleFacts) (m : AwsEc2Manifest) (limit : Option ℕ)
    (plan : Ec2Plan) : Type 0 where
  pub accepted : validate_ec2 p m ≡ ok tt
  pub checks : Ec2Checks p m
  pub valid : Ec2Validated p m
  pub agrees : Agrees facts m
  pub same_target : plan.target ≡ m.target
  pub same_region : plan.region ≡ m.region
  pub same_limit : plan.max_monthly_usd ≡ limit
  pub guarded : SaysWithin m limit plan.within_cost_guard
  pub narrow : All (IsNarrow p) plan.ingress
  pub operator_rule : any (λ (r : IngressRule). r.cidr == m.operator_ssh_cidr) plan.ingress ≡ true

module _ (load_bundle : AwsEc2Manifest → Result BundleFacts) (p : Ec2Parsers)
    (to_text : ℕ → Str) where
  -- A plan is made only of a manifest that passes every check of `validate`, and whose bundle is loaded
  -- and has its version, commit and images. The plan has the manifest's target and region, and tells
  -- whether the estimate is within the limit, a 32-bit number of dollars, if there is one. Each of its
  -- rules is for one port, which is 80, 443, or 22 from one IPv4 address; the manifest's operator has
  -- a rule.
  pub plan_ec2-Planned :
      (m : AwsEc2Manifest) (limit : Option ℕ) (plan : Ec2Plan)
      → FitsU32 limit
      → plan_ec2 load_bundle p to_text m limit ≡ ok plan
      → (facts : BundleFacts) × (load_bundle m ≡ ok facts) × Planned p facts m limit plan
  unfolding plan_ec2 plan_from
  plan_ec2-Planned m limit plan bound h =
      let (accepted, h1) = >>-eq-ok (validate_ec2 p m) _ h in
      let (facts, has_bundle, h2) = >>=-eq-ok (bundle load_bundle m) _ h1 in
      let (loaded, agrees) = bundle-Agrees load_bundle m facts has_bundle in
      let is_plan : plan_from load_bundle p to_text m limit ≡ plan = cc (h2) in
      let v = validate_ec2-Ec2Validated p m accepted in
      (
        facts,
        loaded,
        rw (sym is_plan) (record {
          accepted = accepted;
          checks = validate_ec2-Ec2Checks p m accepted;
          valid = v;
          agrees = agrees;
          same_target = refl;
          same_region = refl;
          same_limit = refl;
          guarded = guarded_by m accepted limit bound;
          narrow = ingress_rules-IsNarrow p m v.one_operator;
          operator_rule = ingress_rules-operator m;
        }),
      )
    where
      guarded_by :
          (m : AwsEc2Manifest)
          → validate_ec2 p m ≡ ok tt
          → (limit : Option ℕ) → FitsU32 limit
          → SaysWithin m limit (plan_from load_bundle p to_text m limit).within_cost_guard
      guarded_by m accepted none bound = refl
      guarded_by m accepted (some l) bound =
          ap some (monthly_estimate_cents-within p m l accepted bound)
