-- ===== src/Lib.antt =====
-- The durable deployment operations of the deployer, its alpha lifecycle, its release plans and its
-- EC2 plans: a model of src/deployment.rs, src/alpha_deployment.rs, src/manifest.rs and
-- src/plan.rs, and of the validation in src/agent_bundle.rs, with the theorems at the end of this
-- comment.
--
-- The program's parts and their files:
--   Errors            src/error.rs: `ReleaseError`, and `Result` with its sequencing.
--   Contract          src/deployment.rs: artifacts, hosts, services, workloads; Contract/Syntax the
--                     validators of tokens, digests, UUIDs and origins.
--   AgentBundle       src/agent_bundle.rs: `AgentBundle::validate` and `verify_digest`.
--   Manifest          src/deployment.rs: `DeploymentContract::validate`, `binding_from_manifest` and
--                     `OperationRecord::planned`.
--   Operation         src/deployment.rs: `OperationRecord` and its transitions; Operation/Validity
--                     `valid_record`; Operation/Steps the transitions as one step relation.
--   Connector         src/deployment.rs: `ConnectorClaim` and `ConnectorOwnership`.
--   Store             src/deployment.rs: `DeploymentStateStore`. Store/World is the state directory,
--                     Store/Files its reads, writes and locks, Store/Documents the sealed values,
--                     Store/Claim `claim`, Store/Transitions the methods that change a record,
--                     Store/Connectors the methods on connector claims. Store/Commands holds sequences of
--                     these methods. Store/Frame and Store/Writes
--                     hold what a step leaves alone and how a replacement ends.
--   Plan              src/deployment.rs: `DeploymentPlan::create`; Plan/Order and Plan/Lookup hold what
--                     its entries are.
--   Receipt           src/deployment.rs: `DeploymentReceipt`, its validation and its seal.
--   Alpha             src/alpha_deployment.rs. Alpha/Syntax the validators, Alpha the manifest,
--                     Alpha/Package `verify_package`, Alpha/Lifecycle `AlphaLifecycleRecord` and its
--                     advances, Alpha/Store `AlphaStateStore`.
--   Release           src/manifest.rs and src/plan.rs. Release/Names and Release/Targets the validators,
--                     Release `ReleaseManifest::validate`, Release/Selection `select_targets`,
--                     Release/Build `ReleasePlan::create`.
--   Ec2               src/aws_ec2.rs: `AwsEc2Manifest::validate`, `plan` and `enforce_cost_guard`; Ec2/Syntax
--                     the validators, also of src/aws_ec2/bundle.rs; Ec2/State and Ec2/Apply the state
--                     that `apply` plans and its verification (src/aws_ec2/workflow.rs).
--   Tests             concrete inputs, and the theorems applied to them.
--
-- How they interact: `claim` validates a manifest, plans the operation again, and writes the record
-- and the projection of its target; every later method reads the record under the target's lock,
-- checks that the projection names it, applies a transition, and replaces the record's file. A
-- connector claim belongs to an operation; a connector-host operation completes only over released
-- claims. A receipt is made of an operation that has ended, and is checked with the operation's own
-- `valid_record`. The alpha lifecycle plans a record from a verified package, and its store
-- replaces the record's file after every advance; it shares no state with the deployment store. A
-- release plan is made of a validated release manifest and a selection of its targets.
--
-- How the model stands to the code: a method on `&mut self` returns the new value; a method of the
-- store is a function from the state directory to a result and the state directory after it, also
-- when it fails. A byte string is a list of numbers. A field that the code clones is copied. Enum
-- variants and record fields keep their names, in snake case; `ExpiredUnclaimed` of a connector
-- claim is `claim_expired`. A transition of a record and the store's method of the same name differ
-- by the prefix `store_` of the latter. The phases `Installed` and `RolledBack` of an EC2 node are
-- `installed_phase` and `rolled_back_phase`.
--
-- What the environment decides: `WriteOutcome` says how each replacement of a file ends: done,
-- failed before the rename, or failed after it (the directory's sync). A crash between two writes
-- is the second kind of end at the later write. The lock files that other processes hold are a list
-- in the directory's state. A lock is released when the method returns. Other errors of the file
-- system (a refused `mkdir` or `open`, a failing read) are not in the model. The alpha store's
-- directory lists, in turn, how each of its calls ends (`CallEnd`): done, failed without an effect,
-- or failed with a part of the effect; its calls are the write of a
-- new file, the removal of a stale one and the rename.
--
-- Bounds: the loops are structural on lists, so no fuel is needed. Sizes are natural numbers; the
-- code only compares them, but for the monthly estimate of an EC2 node, which wraps around at 2^64,
-- and the length of a part of an alpha package's digest, which is written as eight bytes (`be_bytes
-- 8`, that is modulo 2^64). A path is a Unix path, a byte string with its components.
--
-- Parameters: semver and IP-address parsing (`Parsers`), JSON and SHA-256 (`Codec`), and the digest
-- over canonical bundle JSON; of the alpha lifecycle, JSON, SHA-256 and UUID parsing (`Crates`) and
-- the file system that holds a package (`FileView`); of a receipt, its digest; of a release plan,
-- the resolved source revisions and the decimal text of a number; of an EC2 plan, version and IPv4
-- parsing (`Ec2Parsers`), UUIDs and SHA-256 (`Ec2Crates`), decimal text and the loading of the
-- stack bundle. `CodecLaws` says that a value that was serialized is read back and that a digest is
-- hexadecimal.
--
-- Not modelled: the names of temporary files and the byte-level calls of `write_path`, the
-- execution lease, the host's evidence file, the variants for other platforms, the execution of a
-- release plan and the resolution of its sources, and the other files of src/ (the effects of an
-- EC2 deployment and the store of its state, the connector client, client bindings and release
-- materials, publication, archives and the command line), which mostly call other programs,
-- services and crates.
pub mod Prelude
pub mod Errors
pub mod Contract
pub mod Operation
pub mod AgentBundle
pub mod Manifest
pub mod Plan
pub mod Receipt
pub mod Connector
pub mod Store
pub mod Alpha
pub mod Release
pub mod Ec2
pub mod Tests
