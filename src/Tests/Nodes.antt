-- ===== src/Tests/Nodes.antt =====
-- The theorems on EC2 manifests and plans, at a concrete manifest.
use dirextalk_vnext_deployer.Prelude.{
  ℕ, ℕ_discrete, Str-discrete, ◌*◌, [], ◌∷◌, ◌++◌, none, some, Str, String, bytes, refl, sym, ◌||◌,
  if◌then◌else◌, ◌≡◌, ◌↔◌, ◌≤◌, split, str_eq, arith, ◌==◌,
}
use dirextalk_vnext_deployer.Errors.{Result, ok}
use dirextalk_vnext_deployer.Ec2.Syntax.{
  Ec2Parsers, ec2_digest, is_digest_text, bundle_image, bundle_image_parts, split_once_text,
  bundle_commit, exact_image, ec2_token, domain, cidr_address, operator_cidr, aws_region,
  check_instance_type,
}
use dirextalk_vnext_deployer.Ec2.{
  AwsEc2Manifest, BundleFacts, validate_ec2, bundle, plan_from, plan_ec2, u64, compute_cents,
  monthly_estimate_cents, enforce_cost_guard,
}
use dirextalk_vnext_deployer.Ec2.Planned.{Planned, plan_ec2-Planned}
use dirextalk_vnext_deployer.Ec2.Cost.{monthly_cents, enforce_cost_guard-monthly_cents}
use dirextalk_vnext_deployer.Ec2.State.{Ec2State}
use dirextalk_vnext_deployer.Ec2.Apply.{
  Ec2Crates, validate_marker, new_state, apply_planned, verify_ec2, ensure_apply_resumable_phase,
  ensure_apply_identity,
}
use dirextalk_vnext_deployer.Ec2.Records.{WellLoaded}
use dirextalk_vnext_deployer.Ec2.Fresh.{FreshIds, apply_planned-verify_ec2}
use dirextalk_vnext_deployer.Tests.Codec.{sixteen}

abbrev hash_a : Str
hash_a = sixteen (bytes "aaaa")

abbrev of_image : String → Str
of_image repository = bytes repository ++ bytes "@sha256:" ++ hash_a

abbrev node_1 : AwsEc2Manifest
node_1 = record {
  schema_version = 1;
  target = bytes "node-1";
  provider = bytes "aws";
  region = bytes "ap-east-1";
  domain = bytes "chat.example.org";
  instance_type = bytes "t3.small";
  disk_gib = 30;
  operator_ssh_cidr = bytes "203.0.113.7/32";
  stack_bundle_sha256 = hash_a;
  stack_bundle_path = bytes "/srv/stack.bundle";
  host_installer_path = bytes "/srv/install";
  host_installer_sha256 = hash_a;
  cross_version_installer_path = none;
  cross_version_installer_sha256 = none;
  host_provisioner_path = bytes "/srv/provision";
  host_provisioner_sha256 = hash_a;
  receipt_reader_path = bytes "/srv/read";
  receipt_reader_sha256 = hash_a;
  release_version = bytes "0.1.4";
  source_commit = hash_a;
  server_image = of_image "dirextalk/vnet-server";
  migrator_image = of_image "dirextalk/vnet-server";
  postgres_image = of_image "postgres";
  caddy_image = of_image "caddy";
  probe_image = of_image "curlimages/curl";
  ubuntu_ami_owner = bytes "099720109477";
  ubuntu_ami_pattern = bytes "ubuntu/images/hvm-ssd-gp3/ubuntu-noble-24.04-amd64-server-*";
  key_name = bytes "node-1-key";
}

abbrev facts_1 : BundleFacts
facts_1 = record {
  bundle_sha256 = hash_a;
  manifest_sha256 = hash_a;
  compose_sha256 = hash_a;
  manifest = record {
    schema = bytes "dirextalk.vnext.stack";
    schema_version = 1;
    version = bytes "0.1.4";
    source_commit = hash_a;
    target = bytes "linux-amd64";
    server_image = of_image "dirextalk/vnet-server";
    migrator_image = of_image "dirextalk/vnet-server";
    installer_sha256 = hash_a;
    cross_version_compatibility = none;
    files = [];
  };
  host_installer = [];
  host_installer_sha256 = hash_a;
  host_provisioner = [];
  host_provisioner_sha256 = hash_a;
  receipt_reader = [];
  receipt_reader_sha256 = hash_a;
  cross_version_compatibility = none;
}

abbrev ec2_parsers : Ec2Parsers
ec2_parsers = record {
  is_semver = λ s. s == bytes "0.1.4";
  is_ipv4_addr = λ s. s == bytes "203.0.113.7";
}

abbrev load_facts : AwsEc2Manifest → Result BundleFacts
load_facts m = ok facts_1

abbrev decimal : ℕ → Str
decimal n = n ∷ []

accepted : validate_ec2 ec2_parsers node_1 ≡ ok tt
unfolding validate_ec2 ec2_digest is_digest_text bundle_image bundle_image_parts split_once_text
    bundle_commit exact_image ec2_token domain cidr_address operator_cidr aws_region
    check_instance_type split Str-discrete ℕ_discrete
accepted = refl

planned_1 :
    plan_ec2 load_facts ec2_parsers decimal node_1 (some 50)
    ≡ ok (plan_from load_facts ec2_parsers decimal node_1 (some 50))
unfolding plan_ec2 bundle validate_ec2 ec2_digest is_digest_text bundle_image bundle_image_parts
    split_once_text bundle_commit exact_image ec2_token domain cidr_address operator_cidr aws_region
    check_instance_type split Str-discrete ℕ_discrete
planned_1 = refl

plan_ec2-Planned_example :
    (facts : BundleFacts) × (load_facts node_1 ≡ ok facts)
    × Planned ec2_parsers facts node_1
        (some 50)
        (plan_from load_facts ec2_parsers decimal node_1 (some 50))
plan_ec2-Planned_example =
    plan_ec2-Planned load_facts ec2_parsers decimal node_1 (some 50)
      (plan_from load_facts ec2_parsers decimal node_1 (some 50)) (omega arith) planned_1

enforce_cost_guard-monthly_cents_example :
    (monthly_estimate_cents node_1 ≡ monthly_cents node_1)
    × (monthly_cents node_1 ≤ 39272)
    × ((enforce_cost_guard node_1 47 ≡ ok (monthly_cents node_1))
        ↔ (monthly_cents node_1 ≤ 47 * 100))
enforce_cost_guard-monthly_cents_example =
    enforce_cost_guard-monthly_cents ec2_parsers node_1 47 accepted (omega arith)

-- A limit of 46 dollars is 20 cents too low for the smallest node.
guarded_47 : enforce_cost_guard node_1 47 ≡ ok 4620
unfolding enforce_cost_guard monthly_estimate_cents compute_cents u64 Str-discrete ℕ_discrete
guarded_47 = refl

abbrev id_1 : Str
id_1 = bytes "01890a5d-ac96-774b-bcce-b302099a8057"

abbrev id_2 : Str
id_2 = bytes "01890a5d-ac96-774b-bcce-b302099a8058"

abbrev id_3 : Str
id_3 = bytes "01890a5d-ac96-774b-bcce-b302099a8059"

abbrev ec2_crates : Ec2Crates
ec2_crates = record {
  uuid_version = λ id. if id == id_1 || id == id_2 || id == id_3 then some 7 else none;
  is_private_ipv4 = λ s. s == bytes "10.0.0.4";
  hash = λ s. hash_a;
  digest_of = λ s. hash_a;
}

fresh_ids : FreshIds ec2_crates id_1 id_2 id_3
unfolding Str-discrete ℕ_discrete
fresh_ids = record {
  operation_version = refl;
  tenant_version = refl;
  indexer_version = refl;
  apart = refl;
}

facts_1-WellLoaded : WellLoaded facts_1
unfolding is_digest_text validate_marker
facts_1-WellLoaded = record {
  bundle_ok = refl;
  manifest_ok = refl;
  compose_ok = refl;
  installer_ok = refl;
  host_installer_ok = refl;
  provisioner_ok = refl;
  reader_ok = refl;
  marker_ok = refl;
}

load_facts-WellLoaded :
    (m : AwsEc2Manifest) (facts : BundleFacts) → load_facts m ≡ ok facts → WellLoaded facts
load_facts-WellLoaded m facts h =
    let same : facts_1 ≡ facts = cc (h) in rw (sym same) facts_1-WellLoaded

abbrev state_1 : Ec2State
state_1 = new_state ec2_parsers ec2_crates node_1 facts_1 4620 50 id_1 id_2 id_3

applied_1 : apply_planned ec2_parsers ec2_crates load_facts node_1 50 id_1 id_2 id_3 ≡ ok state_1
unfolding apply_planned bundle enforce_cost_guard monthly_estimate_cents compute_cents u64
    validate_ec2 ec2_digest is_digest_text bundle_image bundle_image_parts split_once_text
    bundle_commit exact_image ec2_token domain cidr_address operator_cidr aws_region
    check_instance_type split Str-discrete ℕ_discrete
applied_1 = refl

apply_planned-verify_ec2_example :
    (verify_ec2 ec2_parsers ec2_crates state_1 ≡ ok tt)
    × (ensure_apply_resumable_phase state_1.phase ≡ ok tt)
    × ((facts : BundleFacts) × (load_facts node_1 ≡ ok facts)
        × (ensure_apply_identity state_1 node_1 facts ≡ ok tt))
apply_planned-verify_ec2_example =
    apply_planned-verify_ec2 ec2_parsers ec2_crates id_1 id_2 id_3 fresh_ids load_facts
      load_facts-WellLoaded node_1 50 state_1 applied_1
