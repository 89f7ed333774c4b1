-- ===== src/Tests/Codec.antt =====
-- A codec whose documents are the values themselves.
use dirextalk_vnext_deployer.Prelude.{
  ℕ, true, false, Option, none, some, Str, String, bytes, ◌≡◌, refl, ◌++◌,
}
use dirextalk_vnext_deployer.Errors.{ok}
use dirextalk_vnext_deployer.Contract.{HostTuple}
use dirextalk_vnext_deployer.Contract.Syntax.{is_sha256, Parsers, sha256}
use dirextalk_vnext_deployer.Connector.{ConnectorClaim, ConnectorOwnership}
use dirextalk_vnext_deployer.Operation.{OperationRecord}
use dirextalk_vnext_deployer.Store.World.{
  Codec, CodecLaws, OperationIdentity, ClaimIdentity, TargetOwnership,
}

pub data Content : Type 0 where
  nothing : Content
  ended : Content → Content
  of_record : OperationRecord → Content
  of_ownership : TargetOwnership → Content
  of_identity : OperationIdentity → Content
  of_fence : Str → HostTuple → Content
  of_claim : ConnectorClaim → Content
  of_claim_identity : ClaimIdentity → Content
  of_connector_owner : ConnectorOwnership → Content

abbrev pub sixteen : Str → Str
sixteen s = (s ++ s ++ s ++ s) ++ (s ++ s ++ s ++ s) ++ (s ++ s ++ s ++ s) ++ (s ++ s ++ s ++ s)

-- A digest that tells the kinds of content apart.
abbrev pub digest : Content → Str
digest (of_record _) = sixteen (bytes "aaaa")
digest (of_ownership _) = sixteen (bytes "bbbb")
digest (of_identity _) = sixteen (bytes "cccc")
digest (of_fence _ _) = sixteen (bytes "dddd")
digest (of_claim _) = sixteen (bytes "eeee")
digest (of_claim_identity _) = sixteen (bytes "ffff")
digest (of_connector_owner _) = sixteen (bytes "0123")
digest _ = sixteen (bytes "0000")

abbrev pub to_record : Content → Option OperationRecord
to_record (ended (of_record r)) = some r
to_record _ = none

abbrev pub to_ownership : Content → Option TargetOwnership
to_ownership (ended (of_ownership o)) = some o
to_ownership _ = none

abbrev pub to_claim : Content → Option ConnectorClaim
to_claim (ended (of_claim c)) = some c
to_claim _ = none

abbrev pub to_connector_owner : Content → Option ConnectorOwnership
to_connector_owner (ended (of_connector_owner o)) = some o
to_connector_owner _ = none

abbrev pub content_len : Content → ℕ
content_len nothing = 0
content_len _ = 2

abbrev pub parsers : Parsers
parsers = record { is_semver = λ _. true; is_ip_addr = λ _. false }

abbrev pub codec : Codec
codec = record {
  parsers = parsers;
  Document = Content;
  document_len = content_len;
  empty_document = nothing;
  push_newline = ended;
  sha256_hex = digest;
  record_to_vec = of_record;
  record_from_slice = to_record;
  ownership_to_vec = of_ownership;
  ownership_from_slice = to_ownership;
  identity_to_vec = of_identity;
  fence_to_vec = of_fence;
  claim_to_vec = of_claim;
  claim_from_slice = to_claim;
  claim_identity_to_vec = of_claim_identity;
  connector_owner_to_vec = of_connector_owner;
  connector_owner_from_slice = to_connector_owner;
}

digest-sha256 : (d : Content) (name : String) → sha256 (digest d) name ≡ ok tt
unfolding sha256 is_sha256
digest-sha256 nothing name = refl
digest-sha256 (ended _) name = refl
digest-sha256 (of_record _) name = refl
digest-sha256 (of_ownership _) name = refl
digest-sha256 (of_identity _) name = refl
digest-sha256 (of_fence _ _) name = refl
digest-sha256 (of_claim _) name = refl
digest-sha256 (of_claim_identity _) name = refl
digest-sha256 (of_connector_owner _) name = refl

pub laws : CodecLaws codec
laws = record {
  record_round_trip = λ r. refl;
  ownership_round_trip = λ o. refl;
  claim_round_trip = λ c. refl;
  connector_owner_round_trip = λ o. refl;
  sha256_hex_is_hex = digest-sha256;
}
