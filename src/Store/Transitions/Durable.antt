-- ===== src/Store/Transitions/Durable.antt =====
-- What src/deployment.rs reads after a record's file is replaced, and what is kept.
use dirextalk_vnext_deployer.Prelude.{
  Str, List, [], ◌∷◌, Option, none, ◌≡◌, ◌≢◌, refl, ◌∙◌, false, some, ltb, ne_self, ◌!=◌, str_eq,
}
use dirextalk_vnext_deployer.Errors.{ok}
use dirextalk_vnext_deployer.Contract.{BoundConnector}
use dirextalk_vnext_deployer.Contract.Syntax.{uuid}
use dirextalk_vnext_deployer.Operation.{OperationRecord, host_connectors}
use dirextalk_vnext_deployer.Operation.Validity.{valid_record, valid_identity}
use dirextalk_vnext_deployer.Operation.Steps.{IsValid}
use dirextalk_vnext_deployer.Store.Names.{StateName, operation_file}
use dirextalk_vnext_deployer.Store.World.{Codec, CodecLaws, World}
use dirextalk_vnext_deployer.Store.Documents.{seal, verify_record}
use dirextalk_vnext_deployer.Store.Files.{
  lookup, read, read_secure, read_secure, checked_record, written, max_bytes,
}
use dirextalk_vnext_deployer.Store.Frame.{
  is_lock, SameDocuments, written-opens, read_claim-same, read_connector_owner-same,
}
use dirextalk_vnext_deployer.Store.Writes.{Touched}
use dirextalk_vnext_deployer.Store.Transitions.{
  check_if_completed, check_released, check_all_released, check_completion,
  verify_connector_completion,
}

module _ (x : Codec) (laws : CodecLaws x) where
  verify_record-seal : (t : OperationRecord) → verify_record x (seal x t) ≡ ok tt
  unfolding verify_record seal
  verify_record-seal t = rw (ne_self (seal x t).integrity_digest) refl

  pub valid_record-seal :
      (t : OperationRecord) → valid_record x.parsers (seal x t) ≡ valid_record x.parsers t
  unfolding valid_record valid_identity seal
  valid_record-seal t = refl

  seal-keeps_id : (t : OperationRecord) → ((seal x t).operation_id != t.operation_id) ≡ false
  unfolding seal
  seal-keeps_id t = ne_self t.operation_id

  checked_record-seal :
      (t : OperationRecord)
      → IsValid x.parsers t
      → checked_record x t.operation_id (some (seal x t)) ≡ ok (seal x t)
  unfolding checked_record
  checked_record-seal t v = rw (valid_record-seal t, v, verify_record-seal t, seal-keeps_id t) refl

  pub read-written :
      (t : OperationRecord) (w v : World x.Document)
      → IsValid x.parsers t
      → uuid t.operation_id "operation_id" ≡ ok tt
      → v.euid ≡ w.euid
      → lookup (operation_file t.operation_id) v.files
        ≡ some (written x w.euid (x.push_newline (x.record_to_vec (seal x t))))
      → ltb max_bytes (x.document_len (x.push_newline (x.record_to_vec (seal x t)))) ≡ false
      → read x t.operation_id v ≡ ok (seal x t)
  unfolding read
  read-written t w v valid id e l fits =
      rw
        (
          id,
          written-opens x (operation_file t.operation_id) _ w v e l fits,
          laws.record_round_trip (seal x t),
        )
        (checked_record-seal t valid)

module _ (x : Codec) where
  pub read-untouched :
      (id : Str) (w v : World x.Document)
      → v.euid ≡ w.euid
      → lookup (operation_file id) v.files ≡ lookup (operation_file id) w.files
      → read x id v ≡ read x id w
  unfolding read read_secure
  read-untouched id w v e l = rw (e, l)

  check_released-same :
      (r : OperationRecord) (c : BoundConnector) (w v : World x.Document)
      → SameDocuments w v
      → check_released x r c v ≡ check_released x r c w
  unfolding check_released
  check_released-same r c w v s = simp (
    read_connector_owner-same x c.instance_id w v s,
    λ (i : Str) (id : Str). read_claim-same x i id w v s,
  )

  check_all_released-same :
      (r : OperationRecord) (connectors : List BoundConnector) (w v : World x.Document)
      → SameDocuments w v
      → check_all_released x r connectors v ≡ check_all_released x r connectors w
  unfolding check_all_released
  check_all_released-same r [] w v s = refl
  check_all_released-same r (c ∷ connectors) w v s =
      rw (check_released-same r c w v s, check_all_released-same r connectors w v s)

  check_completion-same :
      (r : OperationRecord) (o : Option (List BoundConnector)) (w v : World x.Document)
      → SameDocuments w v
      → check_completion x r o v ≡ check_completion x r o w
  unfolding check_completion
  check_completion-same r none w v s = refl
  check_completion-same r (some connectors) w v s = check_all_released-same r connectors w v s

  pub check_if_completed-same :
      (r : OperationRecord) (w v : World x.Document)
      → SameDocuments w v
      → check_if_completed x r v ≡ check_if_completed x r w
  unfolding check_if_completed verify_connector_completion
  check_if_completed-same r w v s =
      rw (check_completion-same r (host_connectors r.binding.workload) w v s)

-- Every document but the record of `id` is what it was.
pub record OthersKept (x : Codec) (id : Str) (w v : World x.Document) : Type 0 where
  pub euid_kept : v.euid ≡ w.euid
  pub files_kept :
      (m : StateName)
      → operation_file id ≢ m
      → is_lock m ≡ false
      → lookup m v.files ≡ lookup m w.files

pub SameDocuments-OthersKept :
    (x : Codec) (id : Str) {w v : World x.Document} → SameDocuments w v → OthersKept x id w v
SameDocuments-OthersKept x id s = record {
  euid_kept = s.same_euid;
  files_kept = λ m h l. s.same_files m l;
}

pub OthersKept-extends :
    (x : Codec) (id : Str) {u v w : World x.Document}
    → SameDocuments u v
    → OthersKept x id v w
    → OthersKept x id u w
OthersKept-extends x id s k = record {
  euid_kept = k.euid_kept ∙ s.same_euid;
  files_kept = λ m h l. k.files_kept m h l ∙ s.same_files m l;
}

pub Touched-OthersKept :
    (x : Codec) (id : Str) {bytes : x.Document} {w v : World x.Document}
    → Touched x (operation_file id) bytes w v
    → OthersKept x id w v
Touched-OthersKept x id t = record { euid_kept = t.euid_kept; files_kept = t.others_kept }
