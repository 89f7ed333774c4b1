-- ===== src/Ec2/Apply.antt =====
-- src/aws_ec2.rs and src/aws_ec2/workflow.rs: the state that `apply` makes of a manifest, the
-- verification of a state, and the checks of a state before it is resumed.
use dirextalk_vnext_deployer.Prelude.{
  ℕ, Bool, false, ◌&&◌, ◌||◌, not, List, [], ◌∷◌, Option, none, some, Str, bytes, str_eq, nat_beq,
  ltb, leb, length, all, is_ascii_digit, ◌==◌, ◌!=◌, ◌*◌,
}
use dirextalk_vnext_deployer.Errors.{
  Result, Checked, ok, err, reject_if, ◌>>◌, ◌>>=◌, contract, state_unsafe, operation_conflict,
}
use dirextalk_vnext_deployer.Ec2.Syntax.{
  Ec2Parsers, ec2_digest, bundle_commit, exact_image, ec2_token, domain, operator_cidr, aws_region,
  check_instance_type,
}
use dirextalk_vnext_deployer.Ec2.{
  AwsEc2Manifest, BundleFacts, CrossVersionCompatibility, validate_ec2, bundle, enforce_cost_guard,
  u64, ubuntu_owner, ubuntu_pattern,
}
use dirextalk_vnext_deployer.Ec2.State.{
  BundleRecord, bundle_record_eq, InfrastructureRecord, infrastructure_record_eq, tags_eq,
  KeyRecord, Ec2State, LifecyclePhase, planned, account_bound, ami_resolved, key_ready,
  security_group_ready, instance_ready, eip_ready, dns_ready, host_key_pinned, provision_pending,
  provisioning, host_ready, installed_phase, verified, destroying,
  infrastructure_removed_volume_retained, volume_purged,
}

-- `uuid::Uuid::parse_str` with `get_version_num`, `str::parse::<Ipv4Addr>` with `is_private`, and
-- SHA-256 in hexadecimal, of a text and of a state's JSON.
pub record Ec2Crates : Type 0 where
  pub uuid_version : Str → Option ℕ
  pub is_private_ipv4 : Str → Bool
  pub hash : Str → Str
  pub digest_of : Ec2State → Str

-- `InfrastructureRecord::from_manifest`
unfoldable pub infrastructure_from_manifest : AwsEc2Manifest → InfrastructureRecord
infrastructure_from_manifest m = record {
  instance_type = m.instance_type;
  disk_gib = m.disk_gib;
  operator_ssh_cidr = m.operator_ssh_cidr;
  key_name = m.key_name;
  ubuntu_ami_owner = m.ubuntu_ami_owner;
  ubuntu_ami_pattern = m.ubuntu_ami_pattern;
}

-- `BundleRecord::from_facts`
unfoldable pub bundle_from_facts : BundleFacts → AwsEc2Manifest → BundleRecord
bundle_from_facts facts m = record {
  version = facts.manifest.version;
  source_commit = facts.manifest.source_commit;
  bundle_sha256 = facts.bundle_sha256;
  manifest_sha256 = facts.manifest_sha256;
  compose_sha256 = facts.compose_sha256;
  server_image = facts.manifest.server_image;
  migrator_image = facts.manifest.migrator_image;
  postgres_image = m.postgres_image;
  caddy_image = m.caddy_image;
  probe_image = m.probe_image;
  installer_sha256 = facts.manifest.installer_sha256;
  host_installer_sha256 = facts.host_installer_sha256;
  host_provisioner_sha256 = facts.host_provisioner_sha256;
  receipt_reader_sha256 = facts.receipt_reader_sha256;
  cross_version_compatibility = facts.cross_version_compatibility;
}

-- The map of the ownership tags, in the order of its keys.
unfoldable pub ownership_tags_of : (target operation_id token_hash domain : Str) → List (Str × Str)
ownership_tags_of target operation_id token_hash domain =
    (bytes "DirextalkClientTokenSha256", token_hash)
    ∷ (bytes "DirextalkDomain", domain)
    ∷ (bytes "DirextalkManaged", bytes "true")
    ∷ (bytes "DirextalkOperation", operation_id)
    ∷ (bytes "DirextalkTarget", target)
    ∷ []

-- `CrossVersionCompatibility::validate`, of a marker that is there
unfoldable pub validate_marker : Option CrossVersionCompatibility → Checked
validate_marker none = ok tt
validate_marker (some c) =
    reject_if
      (c.schema != bytes "dirextalk.vnext.cross-version-compatibility"
        || not (nat_beq c.schema_version 1)
        || c.retained_version != bytes "0.1.1"
        || c.candidate_version != bytes "0.1.4"
        || not c.forward_migrations_only
        || not c.code_only_rollback)
      (contract "cross-version compatibility marker is invalid")

unfoldable pub validate_infrastructure_record : Ec2Parsers → InfrastructureRecord → Checked
validate_infrastructure_record p r = do
  reject_if
      (not (leb 30 r.disk_gib && leb r.disk_gib 2048)
        || r.ubuntu_ami_owner != ubuntu_owner
        || r.ubuntu_ami_pattern != ubuntu_pattern)
      (state_unsafe (bytes "EC2 state"))
  check_instance_type r.instance_type
  operator_cidr p r.operator_ssh_cidr
  ec2_token r.key_name "state key_name"

unfoldable pub check_digests : BundleRecord → Checked
check_digests r = do
  ec2_digest r.bundle_sha256 "state bundle"
  ec2_digest r.manifest_sha256 "state manifest"
  ec2_digest r.compose_sha256 "state compose"
  ec2_digest r.installer_sha256 "state installer"
  ec2_digest r.host_installer_sha256 "state host installer"
  ec2_digest r.host_provisioner_sha256 "state host provisioner"
  ec2_digest r.receipt_reader_sha256 "state receipt reader"

unfoldable pub check_record_images : BundleRecord → Checked
check_record_images r = do
  exact_image r.server_image (bytes "dirextalk/vnet-server") "state server image"
  exact_image r.migrator_image (bytes "dirextalk/vnet-server") "state migrator image"
  exact_image r.postgres_image (bytes "postgres") "state postgres image"
  exact_image r.caddy_image (bytes "caddy") "state caddy image"
  exact_image r.probe_image (bytes "curlimages/curl") "state probe image"

unfoldable pub validate_bundle_record : Ec2Parsers → BundleRecord → Checked
validate_bundle_record p r = do
  reject_if (not (p.is_semver r.version)) (state_unsafe (bytes "EC2 state"))
  bundle_commit r.source_commit
  check_digests r
  validate_marker r.cross_version_compatibility
  check_record_images r

unfoldable pub validate_if_present : Ec2Parsers → Option BundleRecord → Checked
validate_if_present p none = ok tt
validate_if_present p (some r) = validate_bundle_record p r

unfoldable pub is_bad_account : Option Str → Bool
is_bad_account none = false
is_bad_account (some account) =
    not (nat_beq (length account) 12) || not (all is_ascii_digit account)

unfoldable pub ensure_apply_resumable_phase : LifecyclePhase → Checked
ensure_apply_resumable_phase planned = ok tt
ensure_apply_resumable_phase account_bound = ok tt
ensure_apply_resumable_phase ami_resolved = ok tt
ensure_apply_resumable_phase key_ready = ok tt
ensure_apply_resumable_phase security_group_ready = ok tt
ensure_apply_resumable_phase instance_ready = ok tt
ensure_apply_resumable_phase eip_ready = ok tt
ensure_apply_resumable_phase dns_ready = ok tt
ensure_apply_resumable_phase host_key_pinned = ok tt
ensure_apply_resumable_phase provision_pending = ok tt
ensure_apply_resumable_phase provisioning = ok tt
ensure_apply_resumable_phase host_ready = ok tt
ensure_apply_resumable_phase installed_phase = ok tt
ensure_apply_resumable_phase verified = ok tt
ensure_apply_resumable_phase destroying =
    err (contract "apply/resume refuses destroying or terminal lifecycle state")
ensure_apply_resumable_phase infrastructure_removed_volume_retained =
    err (contract "apply/resume refuses destroying or terminal lifecycle state")
ensure_apply_resumable_phase volume_purged =
    err (contract "apply/resume refuses destroying or terminal lifecycle state")
ensure_apply_resumable_phase _ =
    err (contract "apply/resume refuses update or rollback lifecycle state")

has_other_key : Option KeyRecord → Str → Bool
has_other_key none name = false
has_other_key (some key) name = key.key_name != name

unfoldable pub ensure_apply_identity : Ec2State → AwsEc2Manifest → BundleFacts → Checked
unfolding has_other_key
ensure_apply_identity s m facts =
    reject_if
      (s.target != m.target
        || s.region != m.region
        || s.domain != m.domain
        || s.infrastructure != infrastructure_from_manifest m
        || s.desired != bundle_from_facts facts m
        || has_other_key s.key m.key_name)
      operation_conflict

module _ (p : Ec2Parsers) (x : Ec2Crates) where
  -- Whether an identifier is parsed, and is of version 7.
  unfoldable pub parsed_version : Str → Result ℕ
  parsed_version id = elim (x.uuid_version id) [
    | none ↦ err (state_unsafe (bytes "EC2 state"))
    | some version ↦ ok version
  ]

  unfoldable pub check_ids : Ec2State → Checked
  check_ids s = do
    operation ← parsed_version s.operation_id
    tenant ← parsed_version s.tenant_id
    indexer ← parsed_version s.indexer_id
    reject_if
        (not (nat_beq operation 7)
          || not (nat_beq tenant 7)
          || not (nat_beq indexer 7)
          || s.tenant_id == s.indexer_id
          || s.client_token != s.operation_id
          || s.client_token_sha256 != x.hash s.client_token
          || nat_beq s.max_monthly_usd 0
          || ltb (u64 (s.max_monthly_usd * 100)) s.monthly_estimate_cents)
        (state_unsafe (bytes "EC2 state"))

  is_bad_address : Option Str → Bool
  is_bad_address none = false
  is_bad_address (some address) = not (x.is_private_ipv4 address)

  unfoldable pub verify_semantics : Ec2State → Checked
  unfolding is_bad_address
  verify_semantics s = do
    check_ids s
    ec2_token s.target "state target"
    domain s.domain
    reject_if
        (ownership_tags_of s.target s.operation_id s.client_token_sha256 s.domain
          != s.ownership_tags)
        (state_unsafe (bytes "EC2 state"))
    validate_infrastructure_record p s.infrastructure
    validate_bundle_record p s.desired
    validate_if_present p s.current
    validate_if_present p s.previous
    reject_if (is_bad_account s.account_id) (state_unsafe (bytes "EC2 state"))
    reject_if (is_bad_address s.private_ipv4) (state_unsafe (bytes "EC2 state"))

  -- `Ec2State::seal`
  unfoldable pub ec2_seal : Ec2State → Ec2State
  ec2_seal s = record s { integrity_sha256 = x.digest_of (record s { integrity_sha256 = [] }) }

  -- `Ec2State::verify`
  unfoldable pub verify_ec2 : Ec2State → Checked
  verify_ec2 s = do
    reject_if (s.schema != bytes "dirextalk.aws-ec2-lifecycle" || not (nat_beq s.schema_version 1))
        (contract "EC2 state schema or region is invalid")
    aws_region s.region
    reject_if (s.integrity_sha256 != x.digest_of (record s { integrity_sha256 = [] }))
        (state_unsafe (bytes "EC2 state"))
    verify_semantics s

  -- The state before it is sealed; the three identifiers are those that `Uuid::now_v7` returns.
  unfoldable pub unsealed_state :
      AwsEc2Manifest
      → BundleFacts
      → (estimate max_monthly_usd : ℕ) → (operation_id tenant_id indexer_id : Str) → Ec2State
  unsealed_state m facts estimate max_monthly_usd operation_id tenant_id indexer_id = record {
    schema = bytes "dirextalk.aws-ec2-lifecycle";
    schema_version = 1;
    operation_id = operation_id;
    client_token = operation_id;
    client_token_sha256 = x.hash operation_id;
    target = m.target;
    account_id = none;
    region = m.region;
    domain = m.domain;
    tenant_id = tenant_id;
    indexer_id = indexer_id;
    ownership_tags = ownership_tags_of m.target operation_id (x.hash operation_id) m.domain;
    monthly_estimate_cents = estimate;
    max_monthly_usd = max_monthly_usd;
    infrastructure = infrastructure_from_manifest m;
    desired = bundle_from_facts facts m;
    current = none;
    previous = none;
    ami = none;
    key = none;
    vpc_id = none;
    security_group_id = none;
    instance_id = none;
    private_ipv4 = none;
    volume_id = none;
    eip = none;
    dns = none;
    host_key = none;
    current_receipt = none;
    previous_receipt = none;
    rollback_receipt = none;
    host_ready_receipt = none;
    current_bundle_suffix = none;
    current_request_suffix = none;
    previous_bundle_suffix = none;
    previous_request_suffix = none;
    candidate_bundle_suffix = none;
    candidate_request_suffix = none;
    provision_request_suffix = none;
    phase = planned;
    pending_effect = none;
    retained_volume = false;
    integrity_sha256 = [];
  }

  unfoldable pub new_state :
      AwsEc2Manifest
      → BundleFacts
      → (estimate max_monthly_usd : ℕ) → (operation_id tenant_id indexer_id : Str) → Ec2State
  new_state m facts estimate max_monthly_usd operation_id tenant_id indexer_id =
      ec2_seal (unsealed_state m facts estimate max_monthly_usd operation_id tenant_id indexer_id)

  -- `apply` without `execute`.
  unfoldable pub apply_planned :
      (load_bundle : AwsEc2Manifest → Result BundleFacts)
      → AwsEc2Manifest
      → (max_monthly_usd : ℕ) → (operation_id tenant_id indexer_id : Str) → Result Ec2State
  apply_planned load_bundle m max_monthly_usd operation_id tenant_id indexer_id = do
    validate_ec2 p m
    facts ← bundle load_bundle m
    estimate ← enforce_cost_guard m max_monthly_usd
    ok (new_state m facts estimate max_monthly_usd operation_id tenant_id indexer_id)
