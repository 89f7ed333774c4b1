-- ===== src/Ec2/Records.antt =====
-- src/aws_ec2.rs `validate_infrastructure_record` and `validate_bundle_record`, on the records of an
-- accepted manifest and its bundle.
use dirextalk_vnext_deployer.Prelude.{
  Bool, true, false, not, Option, none, some, String, Str, str_eq, ◌!=◌, ◌≡◌, refl, ap, ◌∙◌,
  eq_self, PartialEq,
}
use dirextalk_vnext_deployer.Errors.{
  Checked, ReleaseError, ok, reject_if, reject_if-eq-ok, >>-eq-ok, ◌>>◌,
}
use dirextalk_vnext_deployer.Ec2.Syntax.{
  Ec2Parsers, ec2_digest, bundle_image, bundle_image_parts, exact_image, ec2_token, is_digest_text,
}
use dirextalk_vnext_deployer.Ec2.{AwsEc2Manifest, BundleFacts, check_images}
use dirextalk_vnext_deployer.Ec2.State.{bundle_record_eq, infrastructure_record_eq, tags_eq}
use dirextalk_vnext_deployer.Ec2.Validated.{Ec2Checks}
use dirextalk_vnext_deployer.Ec2.Planned.{Agrees}
use dirextalk_vnext_deployer.Ec2.Apply.{
  infrastructure_from_manifest, bundle_from_facts, validate_marker, validate_infrastructure_record,
  check_digests, check_record_images, validate_bundle_record,
}

-- A check does not depend on its message.
reject_if-any :
    (test : Bool) (failure other : ReleaseError)
    → reject_if test failure ≡ ok tt
    → reject_if test other ≡ ok tt
reject_if-any test failure other h = ap (λ b. reject_if b other) (reject_if-eq-ok test failure h)

pub passes : (test : Bool) (failure : ReleaseError) → test ≡ false → reject_if test failure ≡ ok tt
passes test failure h = ap (λ b. reject_if b failure) h

pub both : (a b : Checked) → a ≡ ok tt → b ≡ ok tt → (a >> b) ≡ ok tt
both a b h k = ap (λ z. z >> b) h ∙ k

pub ne_self {ℓ} : {A : Type ℓ} ⦃e : PartialEq A⦄ (a : A) → (a != a) ≡ false
ne_self a = ap not (eq_self a)

pub ec2_token-any :
    (s : Str) (name other : String) → ec2_token s name ≡ ok tt → ec2_token s other ≡ ok tt
unfolding ec2_token
ec2_token-any s name other h = reject_if-any _ _ _ h

bundle_image_parts-any :
    (parts : Option (Str × Str)) (name other : String)
    → bundle_image_parts parts name ≡ ok tt
    → bundle_image_parts parts other ≡ ok tt
unfolding bundle_image_parts ec2_digest
bundle_image_parts-any none name other h = cc
bundle_image_parts-any (some (repository, sha)) name other h =
    let (named, digest) = >>-eq-ok (reject_if _ _) _ h in
    both _ _ (reject_if-any _ _ _ named) (reject_if-any _ _ _ digest)

exact_image-any :
    (value repository : Str) (name other : String)
    → exact_image value repository name ≡ ok tt
    → exact_image value repository other ≡ ok tt
unfolding exact_image bundle_image
exact_image-any value repository name other h =
    let (parts, allowed) = >>-eq-ok (bundle_image_parts _ name) _ h in
    both _ _ (bundle_image_parts-any _ name other parts) (reject_if-any _ _ _ allowed)

check_images-check_record_images :
    (m : AwsEc2Manifest) (facts : BundleFacts)
    → facts.manifest.server_image ≡ m.server_image
    → facts.manifest.migrator_image ≡ m.migrator_image
    → check_images m ≡ ok tt
    → check_record_images (bundle_from_facts facts m) ≡ ok tt
unfolding check_images check_record_images bundle_from_facts
check_images-check_record_images m facts same_server same_migrator h =
    let (server, h1) = >>-eq-ok (exact_image m.server_image _ _) _ h in
    let (migrator, h2) = >>-eq-ok (exact_image m.migrator_image _ _) _ h1 in
    let (postgres, h3) = >>-eq-ok (exact_image m.postgres_image _ _) _ h2 in
    let (caddy, probe) = >>-eq-ok (exact_image m.caddy_image _ _) _ h3 in
    both _ _ (rw same_server (exact_image-any _ _ _ _ server)) (
      both _ _ (rw same_migrator (exact_image-any _ _ _ _ migrator)) (
        both _ _ (exact_image-any _ _ _ _ postgres)
          (both _ _ (exact_image-any _ _ _ _ caddy) (exact_image-any _ _ _ _ probe))))

pub infrastructure_from_manifest-checked :
    (p : Ec2Parsers) (m : AwsEc2Manifest)
    → Ec2Checks p m
    → validate_infrastructure_record p (infrastructure_from_manifest m) ≡ ok tt
unfolding validate_infrastructure_record infrastructure_from_manifest
infrastructure_from_manifest-checked p m c =
    both _ _ (rw (c.disk_ok, c.owner_ok, c.pattern_ok) refl)
      (both _ _ c.type_ok (both _ _ c.cidr_ok (ec2_token-any m.key_name _ _ c.key_ok)))

-- What the loading of a bundle checks of the facts that it returns: the digests are written in
-- canonical form, and the marker of compatibility is the admitted one.
pub record WellLoaded (facts : BundleFacts) : Type 0 where
  pub bundle_ok : is_digest_text facts.bundle_sha256 ≡ true
  pub manifest_ok : is_digest_text facts.manifest_sha256 ≡ true
  pub compose_ok : is_digest_text facts.compose_sha256 ≡ true
  pub installer_ok : is_digest_text facts.manifest.installer_sha256 ≡ true
  pub host_installer_ok : is_digest_text facts.host_installer_sha256 ≡ true
  pub provisioner_ok : is_digest_text facts.host_provisioner_sha256 ≡ true
  pub reader_ok : is_digest_text facts.receipt_reader_sha256 ≡ true
  pub marker_ok : validate_marker facts.cross_version_compatibility ≡ ok tt

is_digest_text-ec2_digest :
    (s : Str) (name : String) → is_digest_text s ≡ true → ec2_digest s name ≡ ok tt
unfolding ec2_digest
is_digest_text-ec2_digest s name h = rw h refl

pub bundle_from_facts-checked :
    (p : Ec2Parsers) (m : AwsEc2Manifest) (facts : BundleFacts)
    → Ec2Checks p m
    → Agrees facts m
    → WellLoaded facts
    → validate_bundle_record p (bundle_from_facts facts m) ≡ ok tt
unfolding validate_bundle_record check_digests bundle_from_facts
bundle_from_facts-checked p m facts c a w = both _ _ (rw (a.same_version, c.semver_ok) refl) (
    both _ _ (rw a.same_commit c.commit_ok) (
      both _ _ digests (
        both _ _ w.marker_ok
          (check_images-check_record_images m facts a.same_server a.same_migrator c.images_ok))))
  where
    digests : check_digests (bundle_from_facts facts m) ≡ ok tt
    digests = both _ _ (is_digest_text-ec2_digest _ _ w.bundle_ok) (
        both _ _ (is_digest_text-ec2_digest _ _ w.manifest_ok) (
          both _ _ (is_digest_text-ec2_digest _ _ w.compose_ok) (
            both _ _ (is_digest_text-ec2_digest _ _ w.installer_ok) (
              both _ _ (is_digest_text-ec2_digest _ _ w.host_installer_ok) (
                both _ _ (is_digest_text-ec2_digest _ _ w.provisioner_ok)
                  (is_digest_text-ec2_digest _ _ w.reader_ok))))))
