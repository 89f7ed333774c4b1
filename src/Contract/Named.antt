-- ===== src/Contract/Named.antt =====
-- src/deployment.rs: the name that a validator is given only enters its error.
use dirextalk_vnext_deployer.Prelude.{String, Str, ◌≡◌, refl, not}
use dirextalk_vnext_deployer.Errors.{ok, reject_if, contract, >>-eq-ok, reject_if-eq-ok}
use dirextalk_vnext_deployer.Contract.{ImmutableArtifact}
use dirextalk_vnext_deployer.Contract.Syntax.{
  Parsers, token, is_token, sha256, is_sha256, uuid, is_uuid7, ◌+++◌,
}
use dirextalk_vnext_deployer.Contract.Validation.{validate_artifact}

-- The names of checked fields only enter the errors.
pub token-name : (s : Str) (name other : String) → token s name ≡ ok tt → token s other ≡ ok tt
unfolding token
token-name s name other h = rw (reject_if-eq-ok (not (is_token s)) _ h) refl

pub sha256-name : (s : Str) (name other : String) → sha256 s name ≡ ok tt → sha256 s other ≡ ok tt
unfolding sha256
sha256-name s name other h = rw (reject_if-eq-ok (not (is_sha256 s)) _ h) refl

pub validate_artifact-name :
    (p : Parsers) (a : ImmutableArtifact) (name other : String)
    → validate_artifact p a name ≡ ok tt
    → (validate_artifact p a other ≡ ok tt) × (sha256 a.digest "server digest" ≡ ok tt)
unfolding validate_artifact
validate_artifact-name p a name other h =
    let (version, digest) =
      >>-eq-ok
        (reject_if (not (p.is_semver a.version)) (contract (name +++ ".version must be SemVer")))
        (sha256 a.digest (name +++ ".digest")) h in
    (
      rw
          (
            reject_if-eq-ok (not (p.is_semver a.version)) _ version,
            sha256-name a.digest (name +++ ".digest") (other +++ ".digest") digest,
          )
          refl,
      sha256-name a.digest (name +++ ".digest") "server digest" digest,
    )

pub uuid-name : (s : Str) (name other : String) → uuid s name ≡ ok tt → uuid s other ≡ ok tt
unfolding uuid
uuid-name s name other h = rw (reject_if-eq-ok (not (is_uuid7 s)) _ h) refl
