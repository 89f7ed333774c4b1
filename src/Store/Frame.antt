-- ===== src/Store/Frame.antt =====
-- What the store's steps leave alone: a document is every file but a lock file.
use mathlib.Core.Path.{subst}
use dirextalk_vnext_deployer.Prelude.{
  ℕ_discrete, Bool, true, false, List, [], ◌∷◌, Option, none, some, Str, ◌≡◌, ◌≢◌, refl, sym, ap,
  ◌∙◌, ◌==◌, eq_iff, eq-eq-false, eq_self, ltb, inl, inr, Bool-cases, ne_self,
}
use dirextalk_vnext_deployer.Contract.Syntax.{token}
use dirextalk_vnext_deployer.Errors.{operation_locked, Result, ok, err, reject_if, ReleaseError}
use dirextalk_vnext_deployer.Store.Names.{
  StateName, name_eq, lock_file, operation_file, owner_file, claim_file, connector_owner_file,
}
use dirextalk_vnext_deployer.Store.World.{
  Codec, M, ◌>>=◌, ◌>>◌, continue, lift, World, File, RootState, absent, not_directory, directory,
}
use dirextalk_vnext_deployer.Store.Files.{
  lookup, insert, ensure_root, check_root, lock, open_lock, read_secure, open_validated,
  validate_open_state_file, read, read_owner, read_claim, read_connector_owner, written, max_bytes,
  is_held,
}

pub lookup-insert_self :
    {D : Type 0} (n : StateName) (f : File D) (files : List (StateName × File D))
    → lookup n (insert n f files) ≡ some f
lookup-insert_self n f [] = rw (eq_self n)
lookup-insert_self n f ((m, g) ∷ files) = elim (Bool-cases (m == n)) [
  | inl same ↦ rw same (rw (eq_self n))
  | inr other ↦ rw other (rw other (lookup-insert_self n f files))
]

pub lookup-insert_ne :
    {D : Type 0} (n m : StateName) (f : File D) (files : List (StateName × File D))
    → n ≢ m
    → lookup m (insert n f files) ≡ lookup m files
lookup-insert_ne n m f [] h = rw (eq-eq-false n m h)
lookup-insert_ne n m f ((k, g) ∷ files) h = elim (Bool-cases (k == n)) [
  | inl same ↦
      let is_n = (eq_iff k n).0 same in
      let differs : k ≢ m = λ e. h (sym is_n ∙ e) in
      rw (same, eq-eq-false n m h, eq-eq-false k m differs)
  | inr other ↦ rw (other, lookup-insert_ne n m f files h)
]

-- Inversion of a successful step and the next.
pub continue-ok :
    {D A B : Type 0} (r : Result A × World D) (f : A → M D B) {b : B} {w' : World D}
    → continue r f ≡ (ok b, w')
    → (a : A) × (v : World D) × (r ≡ (ok a, v)) × (f a v ≡ (ok b, w'))
continue-ok (ok a, v) f h = (a, v, refl, h)
continue-ok (err e, v) f h = cc

pub lift-ok :
    {D A : Type 0} (r : Result A) (w : World D) {a : A} {v : World D}
    → lift r w ≡ (ok a, v)
    → (r ≡ ok a) × (v ≡ w)
lift-ok r w h = (ap (λ p. p.0) h, sym (ap (λ p. p.1) h))

abbrev pub is_lock : StateName → Bool
is_lock (lock_file _) = true
is_lock _ = false

pub record SameDocuments {D : Type 0} (w v : World D) : Type 0 where
  pub same_euid : v.euid ≡ w.euid
  pub same_outcomes : v.outcomes ≡ w.outcomes
  pub same_files : (n : StateName) → is_lock n ≡ false → lookup n v.files ≡ lookup n w.files

pub SameDocuments-refl : {D : Type 0} (w : World D) → SameDocuments w w
SameDocuments-refl w = record { same_euid = refl; same_outcomes = refl; same_files = λ n h. refl }

pub SameDocuments-sym : {D : Type 0} {w v : World D} → SameDocuments w v → SameDocuments v w
SameDocuments-sym a = record {
  same_euid = sym a.same_euid;
  same_outcomes = sym a.same_outcomes;
  same_files = λ n h. sym (a.same_files n h);
}

pub SameDocuments-trans :
    {D : Type 0} {u v w : World D} → SameDocuments u v → SameDocuments v w → SameDocuments u w
SameDocuments-trans a b = record {
  same_euid = b.same_euid ∙ a.same_euid;
  same_outcomes = b.same_outcomes ∙ a.same_outcomes;
  same_files = λ n h. b.same_files n h ∙ a.same_files n h;
}

check_root-SameDocuments :
    {D : Type 0} (s : RootState) (w : World D) → SameDocuments w (check_root s w).1
unfolding check_root
check_root-SameDocuments absent w = record {
  same_euid = refl;
  same_outcomes = refl;
  same_files = λ n h. refl;
}
check_root-SameDocuments not_directory w = SameDocuments-refl w
check_root-SameDocuments (directory mode uid) w = SameDocuments-refl w

pub ensure_root-SameDocuments : {D : Type 0} (w : World D) → SameDocuments w (ensure_root w).1
unfolding ensure_root
ensure_root-SameDocuments w = check_root-SameDocuments w.root w

module _ (x : Codec) where
  insert_lock-SameDocuments :
      (id : Str) (f : File x.Document) (w : World x.Document)
      → SameDocuments w (record w { files = insert (lock_file id) f w.files })
  insert_lock-SameDocuments id f w = record {
    same_euid = refl;
    same_outcomes = refl;
    same_files = λ n h. lookup-insert_ne (lock_file id) n f w.files (λ e. cc (ap is_lock e));
  }

  open_lock-SameDocuments :
      (id : Str) (o : Option (File x.Document)) (w : World x.Document)
      → SameDocuments w (open_lock x (lock_file id) o w).1
  unfolding open_lock
  open_lock-SameDocuments id none w = insert_lock-SameDocuments id _ w
  open_lock-SameDocuments id (some f) w = SameDocuments-refl w

  -- A step that keeps the documents, whatever its end.
  pub continue-SameDocuments :
      {A B : Type 0} (w : World x.Document) (r : Result A × World x.Document)
      (f : A → M x.Document B)
      → SameDocuments w r.1
      → ((a : A) (v : World x.Document) → SameDocuments w v → SameDocuments w (f a v).1)
      → SameDocuments w (continue r f).1
  continue-SameDocuments w (ok a, v) f s k = k a v s
  continue-SameDocuments w (err e, v) f s k = s

  -- The same for a step and the next.
  pub bind-SameDocuments :
      {A B : Type 0} (w : World x.Document) (m : M x.Document A) (f : A → M x.Document B)
      → ((v : World x.Document) → SameDocuments v (m v).1)
      → ((a : A) (v : World x.Document) → SameDocuments v (f a v).1)
      → SameDocuments w ((m >>= f) w).1
  bind-SameDocuments w m f s k =
      continue-SameDocuments w (m w) f (s w) λ a v t. SameDocuments-trans t (k a v)

  abbrev enter : Str → M x.Document (Unit {0})
  enter id = λ w. open_lock x (lock_file id) (lookup (lock_file id) w.files) w

  abbrev test : Str → M x.Document (Unit {0})
  test id = λ w. (reject_if (is_held x (lock_file id) w.held) operation_locked, w)

  pub lock-SameDocuments : (id : Str) (w : World x.Document) → SameDocuments w (lock x id w).1
  unfolding lock
  lock-SameDocuments id w =
      bind-SameDocuments w (lift (token id "lock id")) (λ _. ensure_root >> (enter id >> test id))
        SameDocuments-refl
        λ _ v.
          bind-SameDocuments v ensure_root (λ _. enter id >> test id) ensure_root-SameDocuments
            λ _ u.
              bind-SameDocuments u (enter id) (λ _. test id)
                (λ t. open_lock-SameDocuments id (lookup (lock_file id) t.files) t)
                λ _ t. SameDocuments-refl t

  -- A judgement on how a computation ends which a step that keeps the documents may precede.
  pub record Framed {B : Type 0} (q : World x.Document → Result B × World x.Document → Type 0)
      : Type 0 where
    pub extends :
        {u v : World x.Document} {p : Result B × World x.Document}
        → SameDocuments u v
        → q v p
        → q u p
    pub fails : {u v : World x.Document} (e : ReleaseError) → SameDocuments u v → q u (err e, v)

  pub bind-Framed :
      {A B : Type 0} {q : World x.Document → Result B × World x.Document → Type 0}
      → Framed q
      → (m : M x.Document A) (f : A → M x.Document B) (u : World x.Document)
      → ((v : World x.Document) → SameDocuments v (m v).1)
      → ((a : A) (v : World x.Document) → m u ≡ (ok a, v) → SameDocuments u v → q v (f a v))
      → q u ((m >>= f) u)
  bind-Framed {A} {B} {q} framed m f u quiet k = from (m u) refl
    where
      from : (r : Result A × World x.Document) → m u ≡ r → q u (continue r f)
      from (ok a, v) e =
          let s : SameDocuments u v = subst (λ r. SameDocuments u r.1) e (quiet u) in
          framed.extends s (k a v e s)
      from (err d, v) e = framed.fails d (subst (λ r. SameDocuments u r.1) e (quiet u))

  -- A read sees the same of worlds with the same documents.
  pub read_secure-same :
      (n : StateName) (w v : World x.Document)
      → SameDocuments w v
      → is_lock n ≡ false
      → read_secure x n v ≡ read_secure x n w
  unfolding read_secure
  read_secure-same n w v s d = rw (s.same_euid, s.same_files n d)

  pub read-same :
      (id : Str) (w v : World x.Document) → SameDocuments w v → read x id v ≡ read x id w
  unfolding read
  read-same id w v s = rw (read_secure-same (operation_file id) w v s refl)

  pub read_owner-same :
      (fence : Str) (w v : World x.Document)
      → SameDocuments w v
      → read_owner x fence v ≡ read_owner x fence w
  unfolding read_owner
  read_owner-same fence w v s = rw (read_secure-same (owner_file fence) w v s refl)

  pub read_claim-same :
      (i id : Str) (w v : World x.Document)
      → SameDocuments w v
      → read_claim x i id v ≡ read_claim x i id w
  unfolding read_claim
  read_claim-same i id w v s = rw (read_secure-same (claim_file i id) w v s refl)

  pub read_connector_owner-same :
      (i : Str) (w v : World x.Document)
      → SameDocuments w v
      → read_connector_owner x i v ≡ read_connector_owner x i w
  unfolding read_connector_owner
  read_connector_owner-same i w v s = rw (read_secure-same (connector_owner_file i) w v s refl)

  -- The entry that a replacement makes is read back.
  pub written-opens :
      (n : StateName) (bytes : x.Document) (w v : World x.Document)
      → v.euid ≡ w.euid
      → lookup n v.files ≡ some (written x w.euid bytes)
      → ltb max_bytes (x.document_len bytes) ≡ false
      → read_secure x n v ≡ ok bytes
  unfolding read_secure open_validated validate_open_state_file ℕ_discrete
  written-opens n bytes w v e l fits = rw (e, l, fits, ne_self w.euid) refl
