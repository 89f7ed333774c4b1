-- ===== src/AgentBundle.antt =====
-- src/agent_bundle.rs: the bundle's data and its validation. The digest over the canonical JSON
-- body (`computed_digest`) rests on the JSON and SHA-256 crates, and is an argument.
use dirextalk_vnext_deployer.Prelude.{
  ℕ, ℕ_discrete, ◌*◌, Bool, ◌&&◌, ◌||◌, not, List, [], ◌∷◌, PartialEq, of_discrete, Str, bytes,
  str_eq, ◌==◌, ◌!=◌, nat_beq, ltb, length, all, any, is_empty, contains_byte, is_ascii_lowercase,
  is_ascii_digit, is_ascii_hexdigit, is_ascii_uppercase, String,
}
use dirextalk_vnext_deployer.Errors.{Checked, ok, reject_if, contract, ◌>>◌}
use dirextalk_vnext_deployer.Contract.Syntax.{Parsers, ◌+++◌}

pub record AgentBundleComponent : Type 0 where
  pub role : Str
  pub identity : Str
  pub version : Str
  pub source_commit : Str
  pub sha256 : Str
  pub size : ℕ

pub record AgentControlBounds : Type 0 where
  pub major : ℕ
  pub minimum_minor : ℕ
  pub maximum_minor : ℕ

-- A `RequiredCapability` has one field, `required`.
pub record AgentBundleProtocol : Type 0 where
  pub agent_control : AgentControlBounds
  pub sidecar_route_required : Str
  pub sidecar_approval_required : Str

-- `required_options` is a `BTreeMap`: the pairs in the order of their keys.
pub record RuntimeBinding : Type 0 where
  pub kind : Str
  pub adapter : Str
  pub profile : Str
  pub launcher_component : Str
  pub required_options : List (Str × Str)
  pub required_capabilities : List Str

pub record AgentBundle : Type 0 where
  pub schema : Str
  pub schema_version : ℕ
  pub target : Str
  pub acceptance_profile : Str
  pub bundle_digest : Str
  pub protocol : AgentBundleProtocol
  pub components : List AgentBundleComponent
  pub runtime : RuntimeBinding

Options-discrete : Discrete (List (Str × Str))
unfolding ℕ_discrete
Options-discrete = hlevel ℕ_discrete

instance abbrev options_eq : PartialEq (List (Str × Str))
options_eq = of_discrete Options-discrete

Capabilities-discrete : Discrete (List Str)
unfolding ℕ_discrete
Capabilities-discrete = hlevel ℕ_discrete

instance abbrev capabilities_eq : PartialEq (List Str)
capabilities_eq = of_discrete Capabilities-discrete

abbrev max_component_size : ℕ
max_component_size = 64 * 1024 * 1024

is_component_token_byte : ℕ → Bool
is_component_token_byte b =
    is_ascii_lowercase b || is_ascii_digit b || nat_beq b b'-' || nat_beq b b'_' || nat_beq b b'.'

-- `token` of this file, which admits no capital letters
component_token : Str → String → Checked
component_token s name =
    reject_if (is_empty s || ltb 128 (length s) || not (all is_component_token_byte s))
      (contract (name +++ " is invalid"))

is_hex_not_upper : ℕ → Bool
is_hex_not_upper b = is_ascii_hexdigit b && not (is_ascii_uppercase b)

is_commit : Str → Bool
is_commit s = (nat_beq (length s) 40 || nat_beq (length s) 64) && all is_hex_not_upper s

is_digest : Str → Bool
is_digest s = nat_beq (length s) 64 && all is_hex_not_upper s

-- `validate_component`
validate_component : Parsers → AgentBundleComponent → Checked
unfolding component_token is_commit is_digest is_component_token_byte is_hex_not_upper
validate_component p c = do
  component_token c.identity "component.identity"
  reject_if (not (p.is_semver c.version)) (contract "component.version must be SemVer")
  reject_if (not (is_commit c.source_commit))
      (contract "component.source_commit must be lowercase Git object id")
  reject_if (not (is_digest c.sha256)) (contract "component.sha256 must be lowercase SHA-256")
  reject_if (nat_beq c.size 0 || ltb max_component_size c.size)
      (contract "component.size must be positive and safely bounded")

abbrev required_roles : List Str
required_roles = bytes "connector" ∷ bytes "agent_device" ∷ bytes "runtime_launcher" ∷ []

-- The loop over the components beside the required roles, with the set of the roles seen.
validate_components : Parsers → List Str → List AgentBundleComponent → List Str → Checked
validate_components p seen (c ∷ components) (role ∷ roles) = do
  reject_if (c.role != role || any (λ r. r == c.role) seen)
      (contract "agent bundle components must be sorted and unique")
  validate_component p c
  validate_components p (c.role ∷ seen) components roles
validate_components p seen _ _ = ok tt

validate_capabilities : List Str → Checked
validate_capabilities [] = ok tt
validate_capabilities (s ∷ capabilities) = do
  reject_if (contains_byte b'/' s || contains_byte b'\\' s || contains_byte b' ' s)
      (contract "runtime capability is invalid")
  validate_capabilities capabilities

abbrev codex_options : List (Str × Str)
codex_options =
    (bytes "app_server_url", bytes "stdio")
    ∷ (bytes "backend", bytes "app_server")
    ∷ (bytes "mode", bytes "suggest")
    ∷ []

-- `RuntimeBinding::validate`
validate_runtime : RuntimeBinding → Checked
unfolding validate_capabilities
validate_runtime r = do
  reject_if
      (r.kind != bytes "codex"
        || r.adapter != bytes "codex-app-server"
        || r.profile != bytes "safe"
        || r.launcher_component != bytes "runtime_launcher"
        || r.required_options != codex_options
        || r.required_capabilities != (bytes "runtime.execute" ∷ bytes "runtime.approval.v1" ∷ []))
      (contract "runtime binding is outside the closed production profile")
  validate_capabilities r.required_capabilities

-- `AgentBundle::validate`
unfoldable pub validate_bundle : Parsers → AgentBundle → Checked
unfolding validate_components validate_component validate_runtime
validate_bundle p b = do
  reject_if (b.schema != bytes "dirextalk.agent-bundle" || not (nat_beq b.schema_version 1))
      (contract "agent bundle schema/version is unsupported")
  reject_if (b.target != bytes "linux-amd64") (contract "agent bundle target must be linux-amd64")
  reject_if (b.acceptance_profile != bytes "codex-app-server-safe-v1")
      (contract "agent bundle acceptance profile is unsupported")
  reject_if (not (nat_beq (length b.components) (length required_roles)))
      (contract "agent bundle requires exactly three components")
  validate_components p [] b.components required_roles
  reject_if
      (not (
        nat_beq b.protocol.agent_control.major 1
        && nat_beq b.protocol.agent_control.minimum_minor 2
        && nat_beq b.protocol.agent_control.maximum_minor 5))
      (contract "Agent Control protocol bounds are unsupported")
  reject_if
      (b.protocol.sidecar_route_required != bytes "agent-route-bootstrap-v1"
        || b.protocol.sidecar_approval_required != bytes "runtime.approval.v1")
      (contract "agent bundle required sidecar routes are unsupported")
  validate_runtime b.runtime

-- `AgentBundle::verify_digest`
unfoldable pub verify_bundle_digest : (AgentBundle → Str) → AgentBundle → Checked
unfolding is_digest is_hex_not_upper
verify_bundle_digest computed_digest b = do
  reject_if (not (is_digest b.bundle_digest))
      (contract "agent bundle digest is not lowercase SHA-256")
  reject_if (computed_digest b != b.bundle_digest) (contract "agent bundle digest mismatch")
