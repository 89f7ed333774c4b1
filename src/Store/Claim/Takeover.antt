-- ===== src/Store/Claim/Takeover.antt =====
-- What src/deployment.rs `validate_owner_transition` requires.
use mathlib.Core.Path.{subst}
use dirextalk_vnext_deployer.Prelude.{
  Str, str_eq, option_str_eq, ◌≡◌, refl, sym, ap, ◌∙◌, Option, none, some, inl, inr, ◌⊎◌, ◌!=◌,
  ◌==◌, ◌||◌, is_some, Bool, true, false, ne-eq-false, or-eq-false, Bool-cases, if◌then◌else◌,
}
use dirextalk_vnext_deployer.Errors.{
  Result, ok, err, operation_conflict, reject_if, reject_if-eq-ok, ReleaseError, Checked, >>-eq-ok,
  >>=-eq-ok,
}
use dirextalk_vnext_deployer.Errors
use dirextalk_vnext_deployer.Contract.{host_eq}
use dirextalk_vnext_deployer.Operation.{
  OperationRecord, OperationPhase, completed, rollback_converged, expired_unclaimed,
}
use dirextalk_vnext_deployer.Store.World.{Codec, World, TargetOwnership, ownership_eq}
use dirextalk_vnext_deployer.Store.Documents.{
  seal, ownership_from_record, operation_identity_digest, ownership_fence,
}
use dirextalk_vnext_deployer.Store.Files.{read, read_owner, absent_ok}
use dirextalk_vnext_deployer.Store.Frame.{SameDocuments, Framed, read-same, read_owner-same}
use dirextalk_vnext_deployer.Store.Claim.{
  validate_owner_transition, owner_transition, succeed_owner, check_ended,
}
use dirextalk_vnext_deployer.Store.Claim.Outcome.{owner_of}

-- The phases in which an operation lets a successor take its target.
pub is_ended : OperationPhase → Bool
is_ended completed = true
is_ended rollback_converged = true
is_ended expired_unclaimed = true
is_ended _ = false

-- `r` names the projection's operation as its predecessor, for the same target and host, and that
-- operation is read and has ended.
pub record Succeeds (x : Codec) (r : OperationRecord) (w : World x.Document) (o : TargetOwnership)
    : Type 0 where
  pub predecessor : OperationRecord
  pub predecessor_read : read x o.current_operation_id w ≡ ok predecessor
  pub predecessor_named : r.predecessor_operation_id ≡ some o.current_operation_id
  pub same_target : o.target ≡ r.target
  pub same_host : o.host ≡ r.binding.host
  pub is_owner : operation_identity_digest x predecessor ≡ o.operation_identity_digest
  pub ended : is_ended predecessor.phase ≡ true

pub Allowed : (x : Codec) → OperationRecord → World x.Document → Option TargetOwnership → Type 0
Allowed x r w none = r.predecessor_operation_id ≡ none
Allowed x r w (some o) = (o ≡ ownership_from_record x (seal x r)) ⊎ Succeeds x r w o

-- A claim of `r` only succeeds on a free target, on its own projection, or after an operation that
-- has ended.
unfoldable pub TakesOver :
    (x : Codec)
    → OperationRecord
    → World x.Document
    → Result OperationRecord × World x.Document
    → Type 0
TakesOver x r w (ok s, v) =
    (fence : Str) × (current : Option TargetOwnership) × (ownership_fence x r.target r.binding.host
      ≡ ok fence)
    × (absent_ok (read_owner x fence w) ≡ ok current)
    × Allowed x r w current
TakesOver x r w (err e, v) = Unit

check_ended-is_ended :
    (x : Codec) (phase : OperationPhase) (p r : OperationRecord) (w : World x.Document)
    → check_ended x phase p r w ≡ ok tt
    → is_ended phase ≡ true
unfolding check_ended is_ended
check_ended-is_ended x completed p r w h = refl
check_ended-is_ended x rollback_converged p r w h = refl
check_ended-is_ended x expired_unclaimed p r w h = refl
check_ended-is_ended x _ p r w h = cc

is_some-none : {A : Type 0} (o : Option A) → is_some o ≡ false → o ≡ none
is_some-none none h = refl
is_some-none (some a) h = cc

module _ (x : Codec) (r : OperationRecord) where
  succeed_owner-Succeeds :
      (o : TargetOwnership) (w : World x.Document)
      → succeed_owner x o (seal x r) w ≡ ok tt
      → Succeeds x r w o
  unfolding succeed_owner seal
  succeed_owner-Succeeds o w h =
      let (fits, h1) =
        >>-eq-ok
          (reject_if
            (o.target != r.target
              || o.host != r.binding.host
              || r.predecessor_operation_id != some o.current_operation_id)
            operation_conflict)
          _ h in
      let check : OperationRecord → Checked = λ p.
        Errors.◌>>◌
          (reject_if (operation_identity_digest x p != o.operation_identity_digest)
            operation_conflict)
          (check_ended x p.phase p (seal x r) w) in
      let (p, reads, h2) = >>=-eq-ok (read x o.current_operation_id w) check h1 in
      let (identity, ended) =
        >>-eq-ok
          (reject_if (operation_identity_digest x p != o.operation_identity_digest)
            operation_conflict)
          (check_ended x p.phase p (seal x r) w) h2 in
      let (first, named) = or-eq-false _ _ (reject_if-eq-ok _ operation_conflict fits) in
      let (target, host) = or-eq-false _ _ first in
      record {
        predecessor = p;
        predecessor_read = reads;
        predecessor_named = ne-eq-false _ _ named;
        same_target = ne-eq-false _ _ target;
        same_host = ne-eq-false _ _ host;
        is_owner = ne-eq-false _ _ (reject_if-eq-ok _ operation_conflict identity);
        ended = check_ended-is_ended x p.phase p (seal x r) w ended;
      }

  owner_transition-Allowed :
      (current : Option TargetOwnership) (w : World x.Document)
      → owner_transition x (seal x r) (owner_of x r) current w ≡ ok tt
      → Allowed x r w current
  unfolding owner_transition Allowed seal
  owner_transition-Allowed none w h = is_some-none _ (reject_if-eq-ok _ operation_conflict h)
  owner_transition-Allowed (some o) w h =
      let branches : Bool → Checked = λ b.
        if b
        then reject_if (o != owner_of x r) operation_conflict
        else succeed_owner x o (seal x r) w in
      elim (Bool-cases (o.current_operation_id == r.operation_id)) [
        | inl own ↦ inl (
            ne-eq-false o (owner_of x r)
              (reject_if-eq-ok _ operation_conflict (subst (λ b. branches b ≡ ok tt) own h)))
        | inr other ↦ inr (succeed_owner-Succeeds o w (subst (λ b. branches b ≡ ok tt) other h))
      ]

  pub validate_owner_transition-Allowed :
      (fence : Str) (w : World x.Document)
      → validate_owner_transition x fence (seal x r) (owner_of x r) w ≡ ok tt
      → (current : Option TargetOwnership) × (absent_ok (read_owner x fence w) ≡ ok current)
        × Allowed x r w current
  unfolding validate_owner_transition
  validate_owner_transition-Allowed fence w h =
      let (current, reads, h1) =
        >>=-eq-ok (absent_ok (read_owner x fence w))
          (λ c. owner_transition x (seal x r) (owner_of x r) c w) h in
      (current, reads, owner_transition-Allowed current w h1)

  pub Allowed-same :
      (current : Option TargetOwnership) (u v : World x.Document)
      → SameDocuments u v
      → Allowed x r v current
      → Allowed x r u current
  unfolding Allowed
  Allowed-same none u v same h = h
  Allowed-same (some o) u v same h = elim h [
    | inl own ↦ inl own
    | inr s ↦ inr record {
      predecessor = s.predecessor;
      predecessor_read = sym (read-same x o.current_operation_id u v same) ∙ s.predecessor_read;
      predecessor_named = s.predecessor_named;
      same_target = s.same_target;
      same_host = s.same_host;
      is_owner = s.is_owner;
      ended = s.ended;
    }
  ]

  TakesOver-extends :
      {u v : World x.Document} (p : Result OperationRecord × World x.Document)
      → SameDocuments u v
      → TakesOver x r v p
      → TakesOver x r u p
  unfolding TakesOver
  TakesOver-extends {u} {v} (ok s, w) same (fence, current, is_fence, reads, allowed) = (
    fence,
    current,
    is_fence,
    ap absent_ok (sym (read_owner-same x fence u v same)) ∙ reads,
    Allowed-same current u v same allowed,
  )
  TakesOver-extends (err e, w) same h = tt

  pub TakesOver-Framed : Framed x (TakesOver x r)
  unfolding TakesOver
  TakesOver-Framed = record {
    extends = λ {u} {v} {p} s h. TakesOver-extends p s h;
    fails = λ e s. tt;
  }
