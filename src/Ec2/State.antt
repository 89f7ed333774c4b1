-- ===== src/Ec2/State.antt =====
-- src/aws_ec2.rs: the durable state of an EC2 node.
use dirextalk_vnext_deployer.Prelude.{
  ℕ, ℕ_discrete, Bool, List, Option, Str, PartialEq, of_discrete,
}
use dirextalk_vnext_deployer.Ec2.{CrossVersionCompatibility}

pub record BundleRecord : Type 0 where
  pub version : Str
  pub source_commit : Str
  pub bundle_sha256 : Str
  pub manifest_sha256 : Str
  pub compose_sha256 : Str
  pub server_image : Str
  pub migrator_image : Str
  pub postgres_image : Str
  pub caddy_image : Str
  pub probe_image : Str
  pub installer_sha256 : Str
  pub host_installer_sha256 : Str
  pub host_provisioner_sha256 : Str
  pub receipt_reader_sha256 : Str
  pub cross_version_compatibility : Option CrossVersionCompatibility

unfoldable pub BundleRecord-discrete : Discrete BundleRecord
unfolding ℕ_discrete
BundleRecord-discrete = hlevel ℕ_discrete

instance abbrev pub bundle_record_eq : PartialEq BundleRecord
bundle_record_eq = of_discrete BundleRecord-discrete

pub record InfrastructureRecord : Type 0 where
  pub instance_type : Str
  pub disk_gib : ℕ
  pub operator_ssh_cidr : Str
  pub key_name : Str
  pub ubuntu_ami_owner : Str
  pub ubuntu_ami_pattern : Str

unfoldable pub InfrastructureRecord-discrete : Discrete InfrastructureRecord
unfolding ℕ_discrete
InfrastructureRecord-discrete = hlevel ℕ_discrete

instance abbrev pub infrastructure_record_eq : PartialEq InfrastructureRecord
infrastructure_record_eq = of_discrete InfrastructureRecord-discrete

unfoldable pub Tags-discrete : Discrete (List (Str × Str))
unfolding ℕ_discrete
Tags-discrete = hlevel ℕ_discrete

instance abbrev pub tags_eq : PartialEq (List (Str × Str))
tags_eq = of_discrete Tags-discrete

pub record AmiRecord : Type 0 where
  pub image_id : Str
  pub name : Str
  pub creation_date : Str
  pub owner_id : Str
  pub architecture : Str
  pub root_device_type : Str
  pub virtualization_type : Str

pub record KeyRecord : Type 0 where
  pub key_name : Str
  pub private_key_suffix : Str
  pub public_key_suffix : Str
  pub public_key_sha256 : Str
  pub fingerprint : Str
  pub imported : Bool

pub record EipRecord : Type 0 where
  pub allocation_id : Str
  pub association_id : Str
  pub public_ip : Str

pub record OwnedRecordSet : Type 0 where
  pub hosted_zone_id : Str
  pub hosted_zone_name : Str
  pub name : Str
  pub record_type : Str
  pub ttl : ℕ
  pub value : Str
  pub change_id : Str

pub record HostKeyRecord : Type 0 where
  pub algorithm : Str
  pub key_base64 : Str
  pub key_sha256 : Str
  pub console_line_sha256 : Str
  pub known_hosts_suffix : Str

pub data ReceiptState : Type 0 where
  installed rolled_back : ReceiptState

pub record InstalledReceipt : Type 0 where
  pub schema : Str
  pub schema_version : ℕ
  pub state : ReceiptState
  pub target : Str
  pub domain : Str
  pub version : Str
  pub source_commit : Str
  pub bundle_sha256 : Str
  pub manifest_sha256 : Str
  pub server_image : Str
  pub migrator_image : Str
  pub previous_receipt_sha256 : Option Str
  pub installed_at_ms : ℕ
  pub receipt_sha256 : Str

pub record HostReadyReceipt : Type 0 where
  pub schema : Str
  pub schema_version : ℕ
  pub state : Str
  pub request_sha256 : Str
  pub target : Str
  pub domain : Str
  pub tenant_id : Str
  pub indexer_id : Str
  pub release_version : Str
  pub bundle_sha256 : Str
  pub compose_sha256 : Str
  pub receipt_sha256 : Str

pub data LifecyclePhase : Type 0 where
  planned account_bound ami_resolved key_ready : LifecyclePhase
  security_group_ready instance_ready eip_ready dns_ready : LifecyclePhase
  host_key_pinned provision_pending provisioning host_ready : LifecyclePhase
  installed_phase verified : LifecyclePhase
  update_staged update_installing update_verifying : LifecyclePhase
  rollback_staged rollback_installing rolled_back_phase : LifecyclePhase
  destroying infrastructure_removed_volume_retained volume_purged : LifecyclePhase

pub record Ec2State : Type 0 where
  pub schema : Str
  pub schema_version : ℕ
  pub operation_id : Str
  pub client_token : Str
  pub client_token_sha256 : Str
  pub target : Str
  pub account_id : Option Str
  pub region : Str
  pub domain : Str
  pub tenant_id : Str
  pub indexer_id : Str
  pub ownership_tags : List (Str × Str)
  pub monthly_estimate_cents : ℕ
  pub max_monthly_usd : ℕ
  pub infrastructure : InfrastructureRecord
  pub desired : BundleRecord
  pub current : Option BundleRecord
  pub previous : Option BundleRecord
  pub ami : Option AmiRecord
  pub key : Option KeyRecord
  pub vpc_id : Option Str
  pub security_group_id : Option Str
  pub instance_id : Option Str
  pub private_ipv4 : Option Str
  pub volume_id : Option Str
  pub eip : Option EipRecord
  pub dns : Option OwnedRecordSet
  pub host_key : Option HostKeyRecord
  pub current_receipt : Option InstalledReceipt
  pub previous_receipt : Option InstalledReceipt
  pub rollback_receipt : Option InstalledReceipt
  pub host_ready_receipt : Option HostReadyReceipt
  pub current_bundle_suffix : Option Str
  pub current_request_suffix : Option Str
  pub previous_bundle_suffix : Option Str
  pub previous_request_suffix : Option Str
  pub candidate_bundle_suffix : Option Str
  pub candidate_request_suffix : Option Str
  pub provision_request_suffix : Option Str
  pub phase : LifecyclePhase
  pub pending_effect : Option Str
  pub retained_volume : Bool
  pub integrity_sha256 : Str
