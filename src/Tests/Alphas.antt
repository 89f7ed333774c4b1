-- ===== src/Tests/Alphas.antt =====
-- An Alpha operation, and the theorems on its lifecycle applied to it.
use dirextalk_vnext_deployer.Prelude.{
  zero, suc, ◌≤◌, ◌+◌, ℕ_discrete, arith, Str-discrete, true, false, [], ◌∷◌, ◌++◌, none, some, Str,
  bytes, refl, ◌≡◌, split,
}
use dirextalk_vnext_deployer.Errors.{Result, ok, err, json}
use dirextalk_vnext_deployer.Alpha.{
  AlphaContract, AlphaManifest, VerifiedAlphaPackage, ConnectorFence, OperationFence, alpha_planned,
  installed, alpha_completed, AcceptanceObservation, AlphaLifecycleRecord, Crates,
  AlphaLifecycle-discrete, ConnectorFence-discrete, OperationFence-discrete,
}
use dirextalk_vnext_deployer.Alpha.Syntax.{
  uuid_v7, parsed_uuid, positive, alpha_digest, digest_hex, components, Components-discrete,
}
use dirextalk_vnext_deployer.Alpha.Package.{
  alpha_schema, component_digests_from_contract, FileView, verify_package, verify_artifacts,
  verify_artifact,
}
use dirextalk_vnext_deployer.Alpha.Package.Material.{material_of-injective}
use dirextalk_vnext_deployer.Alpha.Package.Verified.{Verified, verify_package-Verified}
use dirextalk_vnext_deployer.Alpha.Lifecycle.{
  alpha_plan, alpha_advance, alpha_seal, verify_alpha, check_alpha_identity,
  validate_connector_fence, validate_operation_fence, validate_for, check_next, with_evidence,
  alpha_scenario,
}
use dirextalk_vnext_deployer.Alpha.Lifecycle.Steps.{
  AlphaRun, not_started, and_then, by_alpha_advance,
}
use dirextalk_vnext_deployer.Alpha.Lifecycle.Evidence.{stage}
use dirextalk_vnext_deployer.Alpha.Lifecycle.Reached.{
  AlphaInvariant, AlphaRun-AlphaInvariant, AlphaRun-bound,
}
use dirextalk_vnext_deployer.Alpha.Lifecycle.Completion.{planned-completes}
use dirextalk_vnext_deployer.Alpha.Store.{
  AlphaName-discrete, AlphaWorld, root_directory, no_root, alpha_file, alpha_read, put, regular,
  load_canonical, decode_canonical, decoded, checked_alpha, alpha_create, ensure_alpha_root,
  check_alpha_root, keep_or_write, write_new, write_if_new, write_end, call_torn,
  alpha_store_advance,
}
use dirextalk_vnext_deployer.Alpha.Store.Advance.{
  Readable, DurablyAdvanced, alpha_store_advance-DurablyAdvanced,
}
use dirextalk_vnext_deployer.Alpha.Store.Create.{alpha_create-alpha_create}
use dirextalk_vnext_deployer.Tests.Codec.{sixteen}

abbrev a_digest : Str
a_digest = bytes "sha256:" ++ sixteen (bytes "aaaa")

abbrev a_commit : Str
a_commit = bytes "0123456789abcdef0123456789abcdef01234567"

abbrev an_image : Str
an_image = bytes "registry/dirextalk@" ++ a_digest

abbrev alpha_contract : AlphaContract
alpha_contract = record {
  schema = alpha_schema;
  schema_version = 3;
  fresh_only = true;
  target = record { id = bytes "x4.dirextalk.ai" };
  server = record { source_commit = a_commit; image = an_image };
  client = record {
    source_commit = a_commit;
    apk = record { path = bytes "client.apk"; sha256 = a_digest };
    test_apk = record { path = bytes "test.apk"; sha256 = a_digest };
  };
  connector = record {
    source_commit = a_commit;
    binary = record { path = bytes "connector"; sha256 = a_digest };
  };
  sidecar = record { source_commit = a_commit; image = an_image };
  deployer = record { source_commit = a_commit };
  config = record { path = bytes "config.json"; sha256 = a_digest };
}

abbrev alpha_manifest : AlphaManifest
alpha_manifest = record { contract = alpha_contract; digest = a_digest }

abbrev package_dir : VerifiedAlphaPackage
package_dir = record {
  manifest_digest = a_digest;
  package_digest = a_digest;
  component_digests = component_digests_from_contract alpha_contract;
}

abbrev connector : ConnectorFence
connector = record {
  connector_id = bytes "c";
  generation = 1;
  lease_id = bytes "l";
  lease_epoch = 13;
}

abbrev operation : OperationFence
operation = record { operation_id = bytes "op"; epoch = 1 }

abbrev planned_alpha : AlphaLifecycleRecord
planned_alpha = record {
  schema = alpha_schema;
  schema_version = 3;
  target_id = bytes "x4.dirextalk.ai";
  manifest_digest = a_digest;
  package_digest = a_digest;
  component_digests = component_digests_from_contract alpha_contract;
  connector_fence = connector;
  operation_fence = operation;
  state = alpha_planned;
  readiness = none;
  receipt_digest = none;
  receipt_signer_identity = none;
  integrity_digest = a_digest;
}

abbrev installed_alpha : AlphaLifecycleRecord
installed_alpha = record planned_alpha { state = installed }

-- Identifiers are their own texts, and two records have a JSON form.
abbrev parse_json : Str → Result AlphaLifecycleRecord
parse_json (zero ∷ []) = ok planned_alpha
parse_json (suc zero ∷ []) = ok installed_alpha
parse_json _ = err json

abbrev crates : Crates
crates = record {
  Uuid = Str;
  parse_uuid = λ s. some s;
  version_num = λ _. 7;
  uuid_text = λ s. s;
  sha256_hex = λ _. sixteen (bytes "aaaa");
  Value = AlphaLifecycleRecord;
  parse_value = parse_json;
  canonical_bytes = λ (r : AlphaLifecycleRecord). stage r.state ∷ [];
  contract_of = λ _. some alpha_contract;
  record_of = λ r. some r;
  to_value = λ r. r;
  record_to_vec = λ _. [];
}

planned_alpha-verify : verify_alpha crates planned_alpha ≡ ok tt
unfolding verify_alpha check_alpha_identity validate_connector_fence validate_operation_fence
    uuid_v7 parsed_uuid positive alpha_digest digest_hex Str-discrete ℕ_discrete
planned_alpha-verify = refl

planned_alpha-plan :
    alpha_plan crates alpha_manifest package_dir connector operation ≡ ok planned_alpha
unfolding alpha_plan alpha_seal validate_connector_fence validate_operation_fence uuid_v7
    parsed_uuid positive Str-discrete ℕ_discrete component_digests_from_contract
planned_alpha-plan = refl

planned_alpha-installed :
    alpha_advance crates planned_alpha installed none none ≡ ok installed_alpha
unfolding alpha_advance alpha_seal verify_alpha check_alpha_identity check_next with_evidence
    validate_connector_fence validate_operation_fence uuid_v7 parsed_uuid positive alpha_digest
    digest_hex Str-discrete ℕ_discrete AlphaLifecycle-discrete
planned_alpha-installed = refl

abbrev one_advance : AlphaRun crates planned_alpha 1 installed_alpha
one_advance = and_then not_started (by_alpha_advance installed none none planned_alpha-installed)

AlphaRun-AlphaInvariant_example :
    AlphaInvariant crates alpha_manifest connector operation 1 installed_alpha
AlphaRun-AlphaInvariant_example =
    AlphaRun-AlphaInvariant crates alpha_manifest package_dir connector operation planned_alpha
      installed_alpha 1 planned_alpha-plan one_advance

AlphaRun-bound_example : (1 + 0 ≡ 1) × (1 ≤ 5)
AlphaRun-bound_example = AlphaRun-bound crates planned_alpha installed_alpha 1 one_advance

abbrev observation : AcceptanceObservation
observation = record {
  scenario = alpha_scenario;
  target_id = bytes "x4.dirextalk.ai";
  manifest_digest = a_digest;
  package_digest = a_digest;
  connector_fence = connector;
  operation_fence = operation;
  receipt_digest = a_digest;
  signer_identity = bytes "x4.internal-acceptance";
  signature_verified = true;
}

observation-matches : validate_for crates observation planned_alpha ≡ ok tt
unfolding validate_for validate_connector_fence validate_operation_fence uuid_v7 parsed_uuid
    positive alpha_digest digest_hex Str-discrete ℕ_discrete ConnectorFence-discrete
    OperationFence-discrete
observation-matches = refl

planned-completes_example :
    (s : AlphaLifecycleRecord) × AlphaRun crates planned_alpha 5 s × (s.state ≡ alpha_completed)
planned-completes_example =
    planned-completes crates planned_alpha observation planned_alpha-verify refl observation-matches

material_of-injective_example : (bytes "client.apk" ∷ []) ≡ (bytes "client.apk" ∷ [])
material_of-injective_example =
    material_of-injective (bytes "client.apk" ∷ []) (bytes "client.apk" ∷ []) (omega arith, tt)
      (omega arith, tt) refl

abbrev file_view : FileView
file_view = record {
  canonicalize = λ path. ok path;
  is_dir = λ _. true;
  symlink_metadata = λ _. ok (record { is_symlink = false; is_file = true; len = 5 });
  read = λ _. ok (bytes "bytes");
}

package_verifies :
    verify_package crates file_view alpha_manifest (bytes "/package") ≡ ok package_dir
unfolding verify_package verify_artifacts verify_artifact components Components-discrete
    Str-discrete ℕ_discrete split component_digests_from_contract
package_verifies = refl

verify_package-Verified_example :
    Verified crates file_view alpha_manifest (bytes "/package") package_dir
verify_package-Verified_example =
    verify_package-Verified crates file_view alpha_manifest (bytes "/package") package_dir
      package_verifies

abbrev empty_world : AlphaWorld
empty_world = record { entries = λ _. none; root = no_root; euid = 0; ends = [] }

abbrev created_world : AlphaWorld
created_world = record {
  entries = put (alpha_file (bytes "op")) (some (regular (0 ∷ []))) (λ _. none);
  root = root_directory 0;
  euid = 0;
  ends = [];
}

planned_alpha-Readable : Readable crates planned_alpha
planned_alpha-Readable = record { parses = refl; decodes = refl; fits = refl }

installed_alpha-Readable : Readable crates installed_alpha
installed_alpha-Readable = record { parses = refl; decodes = refl; fits = refl }

planned_alpha-created :
    alpha_create crates planned_alpha empty_world ≡ (ok planned_alpha, created_world)
unfolding alpha_create ensure_alpha_root check_alpha_root keep_or_write write_new write_if_new
    write_end verify_alpha check_alpha_identity validate_connector_fence validate_operation_fence
    uuid_v7 parsed_uuid positive alpha_digest digest_hex Str-discrete ℕ_discrete
    AlphaLifecycle-discrete
planned_alpha-created = refl

alpha_create-alpha_create_example :
    (planned_alpha ≡ planned_alpha)
    × (alpha_read crates (bytes "op") created_world ≡ ok planned_alpha)
    × (alpha_create crates planned_alpha created_world ≡ (ok planned_alpha, created_world))
alpha_create-alpha_create_example =
    alpha_create-alpha_create crates planned_alpha planned_alpha empty_world created_world
      planned_alpha-Readable planned_alpha-created

-- The first call of the replacement, the write of the new file, fails half way.
abbrev failing_world : AlphaWorld
failing_world = record created_world { ends = call_torn (7 ∷ []) ∷ [] }

planned_alpha-read : alpha_read crates (bytes "op") failing_world ≡ ok planned_alpha
unfolding alpha_read load_canonical decode_canonical decoded checked_alpha verify_alpha
    check_alpha_identity validate_connector_fence validate_operation_fence uuid_v7 parsed_uuid
    positive alpha_digest digest_hex Str-discrete ℕ_discrete AlphaName-discrete
planned_alpha-read = refl

alpha_store_advance-DurablyAdvanced_example :
    DurablyAdvanced crates
      (bytes "op")
      planned_alpha
      installed_alpha
      failing_world
      (alpha_store_advance crates (bytes "op") installed none none failing_world)
alpha_store_advance-DurablyAdvanced_example =
    alpha_store_advance-DurablyAdvanced crates (bytes "op") planned_alpha installed_alpha installed
      none none failing_world planned_alpha-read planned_alpha-installed installed_alpha-Readable
