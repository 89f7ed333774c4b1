-- ===== src/Ec2/Images.antt =====
-- src/aws_ec2.rs `exact_image`: what an accepted image is.
use dirextalk_vnext_deployer.Prelude.{
  Bool, true, false, not, [], ◌∷◌, ◌++◌, some, String, Str, bytes, str_eq, nat_beq, length, drop,
  starts_with, ◌≡◌, refl, ap, sym, ◌∙◌, arith, ◌+◌, and-eq-true, nat_beq_iff,
}
use mathlib.Core.List.{append_assoc, reverse_aux}
use dirextalk_vnext_deployer.Errors.{ok, reject_if, reject_if-eq-ok, >>-eq-ok}
use dirextalk_vnext_deployer.Ec2.Syntax.{
  is_digest_text, ec2_digest, split_once_text, bundle_image_parts, bundle_image, exact_image,
}

-- An image of the repository, named by its digest.
abbrev pub OfRepository : (repository value : Str) → Type 0
OfRepository repository value =
    (sha : Str) × (value ≡ repository ++ (bytes "@sha256:" ++ sha)) × (is_digest_text sha ≡ true)

-- A text that starts with another is it and a rest.
pub starts_with-append : (s p : Str) → starts_with s p ≡ true → (rest : Str) × (s ≡ p ++ rest)
starts_with-append s [] h = (s, refl)
starts_with-append [] (c ∷ p) h = cc
starts_with-append (d ∷ s) (c ∷ p) h =
    let (head, tail) = and-eq-true (nat_beq d c) (starts_with s p) h in
    let (rest, e) = starts_with-append s p tail in
    let same : d ≡ c = (nat_beq_iff d c).0 head in (rest, cc)

pub drop-append : (p rest : Str) → drop (length p) (p ++ rest) ≡ rest
drop-append [] rest = refl
drop-append (c ∷ p) rest = drop-append p rest

pub reverse_aux-length : (l r : Str) → length (reverse_aux l r) ≡ length l + length r
reverse_aux-length [] r = omega arith
reverse_aux-length (c ∷ l) r = omega (arith, reverse_aux-length l (c ∷ r))

pub not-eq-false : (b : Bool) → not b ≡ false → b ≡ true
not-eq-false b h = ground arith

pub exact_image-OfRepository :
    (value repository : Str) (name : String)
    → ((sha : Str)
        → split_once_text (bytes "@sha256:") ((repository ++ bytes "@sha256:") ++ sha)
          ≡ some (repository, sha))
    → exact_image value repository name ≡ ok tt
    → OfRepository repository value
unfolding exact_image bundle_image bundle_image_parts ec2_digest
exact_image-OfRepository value repository name splits h =
    let (is_image, allowed) = >>-eq-ok (bundle_image value name) _ h in
    let (sha, e) =
      starts_with-append value (repository ++ bytes "@sha256:")
        (not-eq-false _ (reject_if-eq-ok _ _ allowed)) in
    let parts : bundle_image_parts (some (repository, sha)) name ≡ ok tt =
      ap (λ v. bundle_image_parts v name) (sym (splits sha))
      ∙ (ap (λ v. bundle_image v name) (sym e) ∙ is_image) in
    let (_, digest) = >>-eq-ok (reject_if _ _) _ parts in
    (
      sha,
      e ∙ append_assoc repository (bytes "@sha256:") sha,
      not-eq-false _ (reject_if-eq-ok _ _ digest),
    )

module _ (sha : Str) where
  pub server_splits :
      split_once_text
        (bytes "@sha256:")
        ((bytes "dirextalk/vnet-server" ++ bytes "@sha256:") ++ sha)
      ≡ some (bytes "dirextalk/vnet-server", sha)
  unfolding split_once_text
  server_splits = refl

  pub postgres_splits :
      split_once_text (bytes "@sha256:") ((bytes "postgres" ++ bytes "@sha256:") ++ sha)
      ≡ some (bytes "postgres", sha)
  unfolding split_once_text
  postgres_splits = refl

  pub caddy_splits :
      split_once_text (bytes "@sha256:") ((bytes "caddy" ++ bytes "@sha256:") ++ sha)
      ≡ some (bytes "caddy", sha)
  unfolding split_once_text
  caddy_splits = refl

  pub curl_splits :
      split_once_text (bytes "@sha256:") ((bytes "curlimages/curl" ++ bytes "@sha256:") ++ sha)
      ≡ some (bytes "curlimages/curl", sha)
  unfolding split_once_text
  curl_splits = refl
