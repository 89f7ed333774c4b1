-- ===== src/Ec2/Validated.antt =====
-- src/aws_ec2.rs `AwsEc2Manifest::validate`: what an accepted manifest is.
use dirextalk_vnext_deployer.Prelude.{
  ℕ, true, false, ◌&&◌, not, [], ◌++◌, none, some, Str, bytes, str_eq, nat_beq, leb, ◌!=◌, length,
  drop, strip_suffix, reverse, inl, inr, ◌≡◌, ap, sym, ◌∙◌, ◌≤◌, arith, Bool-cases, inl, inr,
  ends_with, or-eq-false, ne-eq-false, if◌then◌else◌,
}
use mathlib.Core.List.{reverse-append, reverse-reverse}
use dirextalk_vnext_deployer.Errors.{ok, reject_if, reject_if-eq-ok, >>-eq-ok, contract}
use dirextalk_vnext_deployer.Ec2.Syntax.{
  Ec2Parsers, ec2_digest, exact_image, operator_cidr, cidr_address, check_instance_type, aws_region,
  ec2_token, domain, bundle_commit,
}
use dirextalk_vnext_deployer.Ec2.{
  AwsEc2Manifest, validate_ec2, check_images, check_cross_version, ubuntu_owner, ubuntu_pattern,
}
use dirextalk_vnext_deployer.Ec2.Images.{
  OfRepository, starts_with-append, drop-append, reverse_aux-length, not-eq-false,
  exact_image-OfRepository, server_splits, postgres_splits, caddy_splits, curl_splits,
}

strip_suffix-append :
    (s p : Str)
    → ends_with s p ≡ true
    → (rest : Str) × (strip_suffix s p ≡ some rest) × (s ≡ rest ++ p)
strip_suffix-append s p h =
    let (rest, e) = starts_with-append (reverse s) (reverse p) h in
    let count : length p ≡ length (reverse p) = omega (arith, reverse_aux-length p []) in
    (
      reverse rest,
      ap (λ b. if b then some (reverse (drop (length p) (reverse s))) else none) h
          ∙ (ap (λ z. some (reverse (drop (length p) z))) e
              ∙ (ap (λ n. some (reverse (drop n (reverse p ++ rest)))) count
                  ∙ ap (λ z. some (reverse z)) (drop-append (reverse p) rest))),
      sym (reverse-reverse s)
          ∙ (ap reverse e
              ∙ (reverse-append (reverse p) rest
                  ∙ ap (λ z. reverse rest ++ z) (reverse-reverse p))),
    )

-- One address, as a block.
abbrev pub IsOneAddress : Ec2Parsers → Str → Type 0
IsOneAddress p cidr =
    (address : Str) × (cidr ≡ address ++ bytes "/32") × (p.is_ipv4_addr address ≡ true)

operator_cidr-IsOneAddress :
    (p : Ec2Parsers) (value : Str) → operator_cidr p value ≡ ok tt → IsOneAddress p value
unfolding operator_cidr cidr_address
operator_cidr-IsOneAddress p value h =
    let (address, stripped, e) = parts in
    let parsed : cidr_address p (some address) ≡ ok tt = ap (cidr_address p) (sym stripped) ∙ h in
    (address, e, not-eq-false _ (reject_if-eq-ok _ _ parsed))
  where
    no_suffix : ends_with value (bytes "/32") ≡ false → operator_cidr p value ≡ ok tt → ⊥
    no_suffix f h = cc

    parts :
        (address : Str) × (strip_suffix value (bytes "/32") ≡ some address)
        × (value ≡ address ++ bytes "/32")
    parts = elim (Bool-cases (ends_with value (bytes "/32"))) [
      | inl t ↦ strip_suffix-append value (bytes "/32") t
      | inr f ↦ absurd (no_suffix f h)
    ]

-- What `validate` has checked.
pub record Ec2Validated (p : Ec2Parsers) (m : AwsEc2Manifest) : Type 0 where
  pub disk_from : 30 ≤ m.disk_gib
  pub disk_to : m.disk_gib ≤ 2048
  pub one_operator : IsOneAddress p m.operator_ssh_cidr
  pub bound_server : OfRepository (bytes "dirextalk/vnet-server") m.server_image
  pub bound_migrator : OfRepository (bytes "dirextalk/vnet-server") m.migrator_image
  pub bound_postgres : OfRepository (bytes "postgres") m.postgres_image
  pub bound_caddy : OfRepository (bytes "caddy") m.caddy_image
  pub bound_probe : OfRepository (bytes "curlimages/curl") m.probe_image
  pub canonical_owner : m.ubuntu_ami_owner ≡ ubuntu_owner
  pub canonical_pattern : m.ubuntu_ami_pattern ≡ ubuntu_pattern

check_images-parts :
    (p : Ec2Parsers) (m : AwsEc2Manifest)
    → check_images m ≡ ok tt
    → OfRepository (bytes "dirextalk/vnet-server") m.server_image
      × OfRepository (bytes "dirextalk/vnet-server") m.migrator_image
      × OfRepository (bytes "postgres") m.postgres_image
      × OfRepository (bytes "caddy") m.caddy_image
      × OfRepository (bytes "curlimages/curl") m.probe_image
unfolding check_images
check_images-parts p m h =
    let (server, h1) = >>-eq-ok (exact_image m.server_image _ _) _ h in
    let (migrator, h2) = >>-eq-ok (exact_image m.migrator_image _ _) _ h1 in
    let (postgres, h3) = >>-eq-ok (exact_image m.postgres_image _ _) _ h2 in
    let (caddy, probe) = >>-eq-ok (exact_image m.caddy_image _ _) _ h3 in
    (
      exact_image-OfRepository _ _ _ server_splits server,
      exact_image-OfRepository _ _ _ server_splits migrator,
      exact_image-OfRepository _ _ _ postgres_splits postgres,
      exact_image-OfRepository _ _ _ caddy_splits caddy,
      exact_image-OfRepository _ _ _ curl_splits probe,
    )

disk_gib-bounds : (n : ℕ) → not (leb 30 n && leb n 2048) ≡ false → (30 ≤ n) × (n ≤ 2048)
disk_gib-bounds n h = ground arith

-- The checks of `validate`, each for itself.
pub record Ec2Checks (p : Ec2Parsers) (m : AwsEc2Manifest) : Type 0 where
  pub schema_ok : not (nat_beq m.schema_version 1) ≡ false
  pub provider_ok : (m.provider != bytes "aws") ≡ false
  pub region_ok : aws_region m.region ≡ ok tt
  pub target_ok : ec2_token m.target "target" ≡ ok tt
  pub domain_ok : domain m.domain ≡ ok tt
  pub type_ok : check_instance_type m.instance_type ≡ ok tt
  pub disk_ok : not (leb 30 m.disk_gib && leb m.disk_gib 2048) ≡ false
  pub cidr_ok : operator_cidr p m.operator_ssh_cidr ≡ ok tt
  pub stack_bundle_ok : ec2_digest m.stack_bundle_sha256 "stack bundle" ≡ ok tt
  pub installer_ok : ec2_digest m.host_installer_sha256 "host installer" ≡ ok tt
  pub cross_version_ok :
      check_cross_version m.cross_version_installer_path m.cross_version_installer_sha256 ≡ ok tt
  pub provisioner_ok : ec2_digest m.host_provisioner_sha256 "host provisioner" ≡ ok tt
  pub reader_ok : ec2_digest m.receipt_reader_sha256 "receipt reader" ≡ ok tt
  pub semver_ok : not (p.is_semver m.release_version) ≡ false
  pub commit_ok : bundle_commit m.source_commit ≡ ok tt
  pub images_ok : check_images m ≡ ok tt
  pub owner_ok : (m.ubuntu_ami_owner != ubuntu_owner) ≡ false
  pub pattern_ok : (m.ubuntu_ami_pattern != ubuntu_pattern) ≡ false
  pub key_ok : ec2_token m.key_name "key_name" ≡ ok tt

pub validate_ec2-Ec2Checks :
    (p : Ec2Parsers) (m : AwsEc2Manifest) → validate_ec2 p m ≡ ok tt → Ec2Checks p m
unfolding validate_ec2
validate_ec2-Ec2Checks p m h =
    let (schema, h1) = >>-eq-ok (reject_if _ (contract "EC2 schema_version must be 1")) _ h in
    let (provider, h2) = >>-eq-ok (reject_if _ (contract "provider must be aws")) _ h1 in
    let (region, h3) = >>-eq-ok (aws_region m.region) _ h2 in
    let (target, h4) = >>-eq-ok (ec2_token m.target "target") _ h3 in
    let (named, h5) = >>-eq-ok (domain m.domain) _ h4 in
    let (kind, h6) = >>-eq-ok (check_instance_type m.instance_type) _ h5 in
    let (disk, h7) =
      >>-eq-ok (reject_if _ (contract "disk_gib must be between 30 and 2048 GiB")) _ h6 in
    let (cidr, h8) = >>-eq-ok (operator_cidr p m.operator_ssh_cidr) _ h7 in
    let (stack_bundle, h9) = >>-eq-ok (ec2_digest m.stack_bundle_sha256 "stack bundle") _ h8 in
    let (installer, h10) = >>-eq-ok (ec2_digest m.host_installer_sha256 "host installer") _ h9 in
    let (cross_version, h11) =
      >>-eq-ok (check_cross_version m.cross_version_installer_path m.cross_version_installer_sha256)
        _ h10 in
    let (provisioner, h12) =
      >>-eq-ok (ec2_digest m.host_provisioner_sha256 "host provisioner") _ h11 in
    let (reader, h13) = >>-eq-ok (ec2_digest m.receipt_reader_sha256 "receipt reader") _ h12 in
    let (semver, h14) = >>-eq-ok (reject_if _ (contract "release_version must be SemVer")) _ h13 in
    let (commit, h15) = >>-eq-ok (bundle_commit m.source_commit) _ h14 in
    let (images, h16) = >>-eq-ok (check_images m) _ h15 in
    let (ami, key) = >>-eq-ok (reject_if _ _) _ h16 in
    let (owner, pattern_) = or-eq-false _ _ (reject_if-eq-ok _ _ ami) in
    record {
      schema_ok = reject_if-eq-ok _ _ schema;
      provider_ok = reject_if-eq-ok _ _ provider;
      region_ok = region;
      target_ok = target;
      domain_ok = named;
      type_ok = kind;
      disk_ok = reject_if-eq-ok _ _ disk;
      cidr_ok = cidr;
      stack_bundle_ok = stack_bundle;
      installer_ok = installer;
      cross_version_ok = cross_version;
      provisioner_ok = provisioner;
      reader_ok = reader;
      semver_ok = reject_if-eq-ok _ _ semver;
      commit_ok = commit;
      images_ok = images;
      owner_ok = owner;
      pattern_ok = pattern_;
      key_ok = key;
    }

-- What an accepted EC2 manifest is.
pub validate_ec2-Ec2Validated :
    (p : Ec2Parsers) (m : AwsEc2Manifest) → validate_ec2 p m ≡ ok tt → Ec2Validated p m
validate_ec2-Ec2Validated p m h =
    let c = validate_ec2-Ec2Checks p m h in
    let (server, migrator, postgres, caddy, probe) = check_images-parts p m c.images_ok in
    let (low, high) = disk_gib-bounds m.disk_gib c.disk_ok in
    record {
      disk_from = low;
      disk_to = high;
      one_operator = operator_cidr-IsOneAddress p m.operator_ssh_cidr c.cidr_ok;
      bound_server = server;
      bound_migrator = migrator;
      bound_postgres = postgres;
      bound_caddy = caddy;
      bound_probe = probe;
      canonical_owner = ne-eq-false m.ubuntu_ami_owner ubuntu_owner c.owner_ok;
      canonical_pattern = ne-eq-false m.ubuntu_ami_pattern ubuntu_pattern c.pattern_ok;
    }
