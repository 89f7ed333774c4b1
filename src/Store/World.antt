-- ===== src/Store/World.antt =====
-- The state directory as the store sees it, what other crates give (JSON, SHA-256, the parsers),
-- and the monad of the store's methods. src/deployment.rs, `ownership_fence` and the `seal` and
-- `verify` methods excepted, reads and writes only through Store/Files.antt.
use dirextalk_vnext_deployer.Prelude.{
  ℕ, ℕ_discrete, PartialEq, of_discrete, Bool, List, Option, some, Str, ◌≡◌, String,
}
use dirextalk_vnext_deployer.Errors.{Result, ok, err}
use dirextalk_vnext_deployer.Contract.{ImmutableArtifact, HostTuple, OperationBinding, AdapterKind}
use dirextalk_vnext_deployer.Connector.{ConnectorClaim, ConnectorOwnership}
use dirextalk_vnext_deployer.Contract.Syntax.{Parsers, sha256}
use dirextalk_vnext_deployer.Operation.{OperationRecord}
use dirextalk_vnext_deployer.Store.Names.{StateName, name_eq}

-- The tuple that `operation_identity_digest` serializes.
pub record OperationIdentity : Type 0 where
  pub schema_version : ℕ
  pub operation_id : Str
  pub manifest_digest : Str
  pub artifact : ImmutableArtifact
  pub binding : OperationBinding
  pub target : Str
  pub predecessor_operation_id : Option Str

-- The tuple that `connector_claim_identity_digest` serializes.
pub record ClaimIdentity : Type 0 where
  pub schema_version : ℕ
  pub operation_id : Str
  pub manifest_digest : Str
  pub target : Str
  pub instance_id : Str
  pub artifact : ImmutableArtifact
  pub adapter_kind : AdapterKind
  pub handoff_digest : Str
  pub predecessor_operation_id : Option Str

pub record TargetOwnership : Type 0 where
  pub schema_version : ℕ
  pub target : Str
  pub host : HostTuple
  pub current_operation_id : Str
  pub predecessor_operation_id : Option Str
  pub operation_identity_digest : Str
  pub integrity_digest : Str

unfoldable pub TargetOwnership-discrete : Discrete TargetOwnership
unfolding ℕ_discrete
TargetOwnership-discrete = hlevel ℕ_discrete

instance abbrev pub ownership_eq : PartialEq TargetOwnership
ownership_eq = of_discrete TargetOwnership-discrete

-- A `Document` is a serialized value, whose bytes the store never reads itself.
pub record Codec : Type 1 where
  pub parsers : Parsers
  pub Document : Type 0
  pub document_len : Document → ℕ
  pub empty_document : Document
  pub push_newline : Document → Document
  pub sha256_hex : Document → Str
  pub record_to_vec : OperationRecord → Document
  pub record_from_slice : Document → Option OperationRecord
  pub ownership_to_vec : TargetOwnership → Document
  pub ownership_from_slice : Document → Option TargetOwnership
  pub identity_to_vec : OperationIdentity → Document
  pub fence_to_vec : Str → HostTuple → Document
  pub claim_to_vec : ConnectorClaim → Document
  pub claim_from_slice : Document → Option ConnectorClaim
  pub claim_identity_to_vec : ClaimIdentity → Document
  pub connector_owner_to_vec : ConnectorOwnership → Document
  pub connector_owner_from_slice : Document → Option ConnectorOwnership

-- What the store relies on: a value that was serialized and ended by a newline is read
-- back, and a digest is written as 64 hexadecimal digits.
pub record CodecLaws (x : Codec) : Type 0 where
  pub record_round_trip :
      (r : OperationRecord) → x.record_from_slice (x.push_newline (x.record_to_vec r)) ≡ some r
  pub ownership_round_trip :
      (o : TargetOwnership)
      → x.ownership_from_slice (x.push_newline (x.ownership_to_vec o)) ≡ some o
  pub claim_round_trip :
      (c : ConnectorClaim) → x.claim_from_slice (x.push_newline (x.claim_to_vec c)) ≡ some c
  pub connector_owner_round_trip :
      (o : ConnectorOwnership)
      → x.connector_owner_from_slice (x.push_newline (x.connector_owner_to_vec o)) ≡ some o
  -- `hex::encode` of 32 bytes
  pub sha256_hex_is_hex : (d : x.Document) (name : String) → sha256 (x.sha256_hex d) name ≡ ok tt

-- A directory entry. A symbolic link is not opened.
pub record File (D : Type 0) : Type 0 where
  pub content : D
  pub is_symlink : Bool
  pub is_regular : Bool
  pub mode : ℕ
  pub uid : ℕ

pub data RootState : Type 0 where
  absent : RootState
  not_directory : RootState
  directory : (mode uid : ℕ) → RootState

-- How the environment lets one atomic replacement end: done, failed with nothing renamed, or
-- failed after the rename (the directory's fsync).
pub data WriteOutcome : Type 0 where
  replaced failed_before_rename failed_after_rename : WriteOutcome

pub record World (D : Type 0) : Type 0 where
  pub files : List (StateName × File D)
  pub root : RootState
  pub euid : ℕ
  -- the lock files that other processes hold
  pub held : List StateName
  -- the ends of the next replacements; behind the list's end they succeed
  pub outcomes : List WriteOutcome

abbrev pub M : Type 0 → Type 0 → Type 0
M D A = World D → Result A × World D

abbrev pub continue :
    {D A B : Type 0} → Result A × World D → (A → World D → Result B × World D) → Result B × World D
continue (ok a, w) f = f a w
continue (err e, w) f = (err e, w)

infixl 5 ◌>>=◌ ◌>>◌
abbrev pub ◌>>=◌ : {D A B : Type 0} → M D A → (A → M D B) → M D B
◌>>=◌ m f w = continue (m w) f

abbrev pub ◌>>◌ : {D B : Type 0} → M D (Unit {0}) → M D B → M D B
m >> k = m >>= λ _. k

-- A `Result` as a step that changes nothing, and a read of the world.
abbrev pub lift : {D A : Type 0} → Result A → M D A
lift r w = (r, w)

abbrev pub look : {D A : Type 0} → (World D → Result A) → M D A
look f w = (f w, w)
