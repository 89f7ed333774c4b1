-- ===== src/Store/Names.antt =====
-- src/deployment.rs: the files of the state directory by what they hold, and the names that
-- `record_path`, `lock`, `connector_claim_path`, `connector_owner_path` and `claim` give them.
use dirextalk_vnext_deployer.Prelude.{
  ℕ_discrete, Bool, false, ◌&&◌, ◌++◌, Option, none, some, PartialEq, of_discrete, Str, bytes,
  strip_prefix, strip_suffix, nat_beq, length, all, is_lower_hex,
}

pub data StateName : Type 0 where
  operation_file : (id : Str) → StateName
  owner_file : (fence : Str) → StateName
  claim_file : (instance_id operation_id : Str) → StateName
  connector_owner_file : (instance_id : Str) → StateName
  execution_file : (id : Str) → StateName
  lock_file : (id : Str) → StateName
  other_file : (name : Str) → StateName

unfoldable pub StateName-discrete : Discrete StateName
unfolding ℕ_discrete
StateName-discrete = hlevel ℕ_discrete

instance abbrev pub name_eq : PartialEq StateName
name_eq = of_discrete StateName-discrete

-- The name in the directory.
unfoldable pub render : StateName → Str
render (operation_file id) = bytes "operation-" ++ (id ++ bytes ".json")
render (owner_file fence) = bytes "target-owner-" ++ (fence ++ bytes ".json")
render (claim_file instance_id operation_id) =
    bytes "connector-" ++ (instance_id ++ (bytes "-operation-" ++ (operation_id ++ bytes ".json")))
render (connector_owner_file instance_id) =
    bytes "connector-owner-" ++ (instance_id ++ bytes ".json")
render (execution_file id) = bytes "connector-execution-" ++ (id ++ bytes ".json")
render (lock_file id) = bytes "operation-" ++ (id ++ bytes ".lock")
render (other_file name) = name

abbrev is_fence_name : Option Str → Bool
is_fence_name none = false
is_fence_name (some fence) = nat_beq (length fence) 64 && all is_lower_hex fence

abbrev without_json : Option Str → Option Str
without_json none = none
without_json (some rest) = strip_suffix rest (bytes ".json")

-- `is_target_owner_projection_filename`
unfoldable pub is_target_owner_projection_filename : Str → Bool
is_target_owner_projection_filename name =
    is_fence_name (without_json (strip_prefix name (bytes "target-owner-")))
