-- ===== src/Ec2.antt =====
-- src/aws_ec2.rs: the manifest of an EC2 node, its plan and its cost guard.
pub mod Syntax
pub mod Images
pub mod Validated
pub mod Planned
pub mod Cost
pub mod State
pub mod Apply
pub mod Records
pub mod Fresh
use dirextalk_vnext_deployer.Prelude.{
  ℕ, Bool, true, false, ◌&&◌, ◌||◌, not, List, [], ◌∷◌, Option, none, some, is_some, String, Str,
  str_eq, bytes, nat_beq, ltb, leb, ◌==◌, ◌!=◌, if◌then◌else◌, ◌+◌, ◌*◌, ◌%◌, ◌^◌, ◌/◌, ◌++◌, map,
}
use dirextalk_vnext_deployer.Errors.{
  Result, Checked, ok, err, reject_if, ◌>>◌, ◌>>=◌, contract, operation_conflict,
}
use dirextalk_vnext_deployer.Ec2.Syntax.{
  Ec2Parsers, ec2_digest, bundle_commit, exact_image, ec2_token, domain, operator_cidr, aws_region,
  check_instance_type,
}

pub record AwsEc2Manifest : Type 0 where
  pub schema_version : ℕ
  pub target : Str
  pub provider : Str
  pub region : Str
  pub domain : Str
  pub instance_type : Str
  pub disk_gib : ℕ
  pub operator_ssh_cidr : Str
  pub stack_bundle_sha256 : Str
  pub stack_bundle_path : Str
  pub host_installer_path : Str
  pub host_installer_sha256 : Str
  pub cross_version_installer_path : Option Str
  pub cross_version_installer_sha256 : Option Str
  pub host_provisioner_path : Str
  pub host_provisioner_sha256 : Str
  pub receipt_reader_path : Str
  pub receipt_reader_sha256 : Str
  pub release_version : Str
  pub source_commit : Str
  pub server_image : Str
  pub migrator_image : Str
  pub postgres_image : Str
  pub caddy_image : Str
  pub probe_image : Str
  pub ubuntu_ami_owner : Str
  pub ubuntu_ami_pattern : Str
  pub key_name : Str

abbrev cross_version_bootstrap_sha256 : Str
cross_version_bootstrap_sha256 =
    bytes "7b20ee7f048d7d813610659af60b597ab1e74b03b60a159fb685586cab7ac4da"

abbrev pub ubuntu_owner : Str
ubuntu_owner = bytes "099720109477"

abbrev pub ubuntu_pattern : Str
ubuntu_pattern = bytes "ubuntu/images/hvm-ssd-gp3/ubuntu-noble-24.04-amd64-server-*"

-- The match on the pair of path and digest.
pub check_cross_version : Option Str → Option Str → Checked
check_cross_version (some _) (some sha256) =
    reject_if (sha256 != cross_version_bootstrap_sha256)
      (contract "cross-version installer digest is not the admitted bootstrap")
check_cross_version none none = ok tt
check_cross_version (some _) none =
    err (contract "cross-version installer path and digest must be paired")
check_cross_version none (some _) =
    err (contract "cross-version installer path and digest must be paired")

pub check_images : AwsEc2Manifest → Checked
check_images m = do
  exact_image m.server_image (bytes "dirextalk/vnet-server") "server_image"
  exact_image m.migrator_image (bytes "dirextalk/vnet-server") "migrator_image"
  exact_image m.postgres_image (bytes "postgres") "postgres_image"
  exact_image m.caddy_image (bytes "caddy") "caddy_image"
  exact_image m.probe_image (bytes "curlimages/curl") "probe_image"

unfoldable pub validate_ec2 : Ec2Parsers → AwsEc2Manifest → Checked
unfolding check_cross_version check_images
validate_ec2 p m = do
  reject_if (not (nat_beq m.schema_version 1)) (contract "EC2 schema_version must be 1")
  reject_if (m.provider != bytes "aws") (contract "provider must be aws")
  aws_region m.region
  ec2_token m.target "target"
  domain m.domain
  check_instance_type m.instance_type
  reject_if (not (leb 30 m.disk_gib && leb m.disk_gib 2048))
      (contract "disk_gib must be between 30 and 2048 GiB")
  operator_cidr p m.operator_ssh_cidr
  ec2_digest m.stack_bundle_sha256 "stack bundle"
  ec2_digest m.host_installer_sha256 "host installer"
  check_cross_version m.cross_version_installer_path m.cross_version_installer_sha256
  ec2_digest m.host_provisioner_sha256 "host provisioner"
  ec2_digest m.receipt_reader_sha256 "receipt reader"
  reject_if (not (p.is_semver m.release_version)) (contract "release_version must be SemVer")
  bundle_commit m.source_commit
  check_images m
  reject_if (m.ubuntu_ami_owner != ubuntu_owner || m.ubuntu_ami_pattern != ubuntu_pattern)
      (contract "Ubuntu AMI owner/pattern must be the Canonical 24.04 amd64 allowlist")
  ec2_token m.key_name "key_name"

-- A `u64` keeps its wrap-around.
unfoldable pub u64 : ℕ → ℕ
u64 n = n % 2 ^ 64

unfoldable pub compute_cents : Str → ℕ
compute_cents kind =
    if kind == bytes "t3.small" then 3600 else if kind == bytes "t3.medium" then 7200 else 10000

unfoldable pub monthly_estimate_cents : AwsEc2Manifest → ℕ
unfolding u64 compute_cents
monthly_estimate_cents m =
    u64 (u64 (u64 (compute_cents m.instance_type + u64 (m.disk_gib * 14)) + 500) + 100)

unfoldable pub enforce_cost_guard : AwsEc2Manifest → (limit : ℕ) → Result ℕ
unfolding u64 monthly_estimate_cents
enforce_cost_guard m limit = do
  reject_if (ltb (u64 (limit * 100)) (monthly_estimate_cents m))
      (contract "monthly estimate exceeds --max-monthly-usd")
  ok (monthly_estimate_cents m)

pub record IngressRule : Type 0 where
  pub protocol : Str
  pub from_port : ℕ
  pub to_port : ℕ
  pub cidr : Str
  pub purpose : Str

unfoldable pub ingress_rules : AwsEc2Manifest → List IngressRule
ingress_rules m =
    record {
      protocol = bytes "tcp";
      from_port = 80;
      to_port = 80;
      cidr = bytes "0.0.0.0/0";
      purpose = bytes "public ACME HTTP challenge";
    }
    ∷ record {
      protocol = bytes "tcp";
      from_port = 443;
      to_port = 443;
      cidr = bytes "0.0.0.0/0";
      purpose = bytes "public HTTPS";
    }
    ∷ record {
      protocol = bytes "tcp";
      from_port = 22;
      to_port = 22;
      cidr = m.operator_ssh_cidr;
      purpose = bytes "manifest-bound operator SSH";
    }
    ∷ []

pub record PlannedAction : Type 0 where
  pub id : Str
  pub program : Str
  pub mutation : Bool

pub record Ec2Plan : Type 0 where
  pub target : Str
  pub provider : Str
  pub region : Str
  pub dry_run : Bool
  pub monthly_estimate_usd : Str
  pub max_monthly_usd : Option ℕ
  pub within_cost_guard : Option Bool
  pub ingress : List IngressRule
  pub actions : List PlannedAction

-- `bundle.rs`: the manifest inside a bundle, without its list of files, and what loading gives.
pub record CrossVersionCompatibility : Type 0 where
  pub schema : Str
  pub schema_version : ℕ
  pub retained_version : Str
  pub candidate_version : Str
  pub forward_migrations_only : Bool
  pub code_only_rollback : Bool

pub record StackFile : Type 0 where
  pub path : Str
  pub sha256 : Str
  pub mode : Str

pub record StackManifest : Type 0 where
  pub schema : Str
  pub schema_version : ℕ
  pub version : Str
  pub source_commit : Str
  pub target : Str
  pub server_image : Str
  pub migrator_image : Str
  pub installer_sha256 : Str
  pub cross_version_compatibility : Option CrossVersionCompatibility
  pub files : List StackFile

pub record BundleFacts : Type 0 where
  pub bundle_sha256 : Str
  pub manifest_sha256 : Str
  pub compose_sha256 : Str
  pub manifest : StackManifest
  pub host_installer : Str
  pub host_installer_sha256 : Str
  pub host_provisioner : Str
  pub host_provisioner_sha256 : Str
  pub receipt_reader : Str
  pub receipt_reader_sha256 : Str
  pub cross_version_compatibility : Option CrossVersionCompatibility

-- `load_bundle` reads files and a tar archive; its result on the manifest's paths and digests is an
-- argument.
module _ (load_bundle : AwsEc2Manifest → Result BundleFacts) where
  unfoldable pub bundle : AwsEc2Manifest → Result BundleFacts
  bundle m = do
    facts ← load_bundle m
    reject_if
        (facts.manifest.version != m.release_version
          || facts.manifest.source_commit != m.source_commit
          || facts.manifest.server_image != m.server_image
          || facts.manifest.migrator_image != m.migrator_image)
        (contract "deployment manifest does not match the digest-bound stack manifest")
    ok facts

  -- `to_text` writes a number in decimal.
  module _ (p : Ec2Parsers) (to_text : ℕ → Str) where
    cents_text : ℕ → Str
    cents_text n =
        to_text (n / 100)
        ++ (bytes "." ++ ((if ltb (n % 100) 10 then bytes "0" else []) ++ to_text (n % 100)))

    planned_actions : List PlannedAction
    planned_actions =
        action "bind-account" "aws" false
        ∷ action "resolve-ami" "aws" false
        ∷ action "create-key" "ssh-keygen" true
        ∷ action "import-key" "aws" true
        ∷ action "create-security-group" "aws" true
        ∷ action "run-instance" "aws" true
        ∷ action "allocate-associate-eip" "aws" true
        ∷ action "create-dns" "aws" true
        ∷ action "pin-host-key" "ssh-keyscan" false
        ∷ action "stage-host-helpers" "scp" true
        ∷ action "stage-bundle" "scp" true
        ∷ action "install" "ssh" true
        ∷ action "verify-receipt" "ssh" false
        ∷ action "verify-https" "curl" false
        ∷ []
      where
        action : String → String → Bool → PlannedAction
        action id program mutation = record {
          id = bytes id;
          program = bytes program;
          mutation = mutation;
        }

    unfoldable pub plan_from : AwsEc2Manifest → Option ℕ → Ec2Plan
    unfolding cents_text planned_actions
    plan_from m max_monthly_usd = record {
      target = m.target;
      provider = bytes "aws";
      region = m.region;
      dry_run = true;
      monthly_estimate_usd = cents_text (monthly_estimate_cents m);
      max_monthly_usd = max_monthly_usd;
      within_cost_guard = elim max_monthly_usd [
        | none ↦ none
        | some limit ↦ some (not (ltb (u64 (limit * 100)) (monthly_estimate_cents m)))
      ];
      ingress = ingress_rules m;
      actions = planned_actions;
    }

    -- `plan`
    unfoldable pub plan_ec2 : AwsEc2Manifest → (max_monthly_usd : Option ℕ) → Result Ec2Plan
    unfolding plan_from
    plan_ec2 m max_monthly_usd = do validate_ec2 p m; _ ← bundle m; ok (plan_from m max_monthly_usd)
