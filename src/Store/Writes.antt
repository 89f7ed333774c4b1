-- ===== src/Store/Writes.antt =====
-- How src/deployment.rs `write_path` ends: the entry is replaced as a whole or stays.
use mathlib.Core.Path.{subst}
use dirextalk_vnext_deployer.Prelude.{
  false, List, [], ◌∷◌, some, ◌≡◌, ◌≢◌, refl, ap, ◌∙◌, inl, inr, ◌⊎◌, ltb, leb, ◌||◌, or-eq-false,
}
use dirextalk_vnext_deployer.Errors.{
  Result, ok, err, reject_if, >>-eq-ok, reject_if-eq-ok, contract,
}
use dirextalk_vnext_deployer.Store.Names.{StateName}
use dirextalk_vnext_deployer.Store.World.{
  Codec, ◌>>◌, lift, World, WriteOutcome, replaced, failed_before_rename, failed_after_rename,
}
use dirextalk_vnext_deployer.Store.Files.{
  lookup, insert, ensure_root, write_path, replace, replace_from, serialize_bounded, check_replaced,
  written, max_bytes,
}
use dirextalk_vnext_deployer.Store.Frame.{
  lookup-insert_self, lookup-insert_ne, is_lock, Framed, bind-Framed, SameDocuments,
  SameDocuments-refl, ensure_root-SameDocuments,
}

-- The entry `n` holds what it held, or the new bytes; other documents are as they were.
pub record Touched (x : Codec) (n : StateName) (bytes : x.Document) (w v : World x.Document)
    : Type 0 where
  pub euid_kept : v.euid ≡ w.euid
  pub old_or_new :
      (lookup n v.files ≡ lookup n w.files)
      ⊎ ((lookup n v.files ≡ some (written x w.euid bytes))
          × (ltb max_bytes (x.document_len bytes) ≡ false))
  pub others_kept :
      (m : StateName) → n ≢ m → is_lock m ≡ false → lookup m v.files ≡ lookup m w.files

pub record Written (x : Codec) (n : StateName) (bytes : x.Document) (w v : World x.Document)
    : Type 0 where
  pub touched : Touched x n bytes w v
  pub is_new : lookup n v.files ≡ some (written x w.euid bytes)

module _ (x : Codec) (n : StateName) (bytes : x.Document) where
  SameDocuments-Touched :
      {w v : World x.Document} → is_lock n ≡ false → SameDocuments w v → Touched x n bytes w v
  SameDocuments-Touched d s = record {
    euid_kept = s.same_euid;
    old_or_new = inl (s.same_files n d);
    others_kept = λ m h l. s.same_files m l;
  }

  SameDocuments-Touched-trans :
      {u v w : World x.Document}
      → is_lock n ≡ false
      → SameDocuments u v
      → Touched x n bytes v w
      → Touched x n bytes u w
  SameDocuments-Touched-trans d s t = record {
    euid_kept = t.euid_kept ∙ s.same_euid;
    old_or_new = elim t.old_or_new [
      | inl same ↦ inl (same ∙ s.same_files n d)
      | inr (new, fits) ↦ inr (new ∙ ap (λ e. some (written x e bytes)) s.same_euid, fits)
    ];
    others_kept = λ m h l. t.others_kept m h l ∙ s.same_files m l;
  }

module _ (x : Codec) (n : StateName) (bytes : x.Document)
    (fits : ltb max_bytes (x.document_len bytes) ≡ false) where
  inserted :
      (later : List WriteOutcome) (w : World x.Document)
      → Written x n bytes w
          (record w { files = insert n (written x w.euid bytes) w.files; outcomes = later })
  inserted later w = record {
    touched = record {
      euid_kept = refl;
      old_or_new = inr (lookup-insert_self n (written x w.euid bytes) w.files, fits);
      others_kept = λ m h l. lookup-insert_ne n m (written x w.euid bytes) w.files h;
    };
    is_new = lookup-insert_self n (written x w.euid bytes) w.files;
  }

  untouched :
      (later : List WriteOutcome) (w : World x.Document)
      → Touched x n bytes w (record w { outcomes = later })
  untouched later w = record {
    euid_kept = refl;
    old_or_new = inl refl;
    others_kept = λ m h l. refl;
  }

  replace_from-Touched :
      (o : List WriteOutcome) (w : World x.Document)
      → Touched x n bytes w (replace_from x o n bytes w).1
  unfolding replace_from
  replace_from-Touched [] w = (inserted w.outcomes w).touched
  replace_from-Touched (replaced ∷ later) w = (inserted later w).touched
  replace_from-Touched (failed_before_rename ∷ later) w = untouched later w
  replace_from-Touched (failed_after_rename ∷ later) w = (inserted later w).touched

  replace_from-ok :
      (o : List WriteOutcome) (w : World x.Document) {u : Unit {0}} {v : World x.Document}
      → replace_from x o n bytes w ≡ (ok u, v)
      → Written x n bytes w v
  unfolding replace_from
  replace_from-ok [] w h = subst (Written x n bytes w) (ap (λ p. p.1) h) (inserted w.outcomes w)
  replace_from-ok (replaced ∷ later) w h =
      subst (Written x n bytes w) (ap (λ p. p.1) h) (inserted later w)
  replace_from-ok (failed_before_rename ∷ later) w h = cc (ap (λ p. p.0) h)
  replace_from-ok (failed_after_rename ∷ later) w h = cc (ap (λ p. p.0) h)

-- How a replacement ends: with the new bytes, or with an error.
unfoldable pub Wrote :
    (x : Codec) (n : StateName) (bytes : x.Document)
    → World x.Document
    → Result (Unit {0}) × World x.Document
    → Type 0
Wrote x n bytes w (ok _, v) = Written x n bytes w v × (ltb max_bytes (x.document_len bytes) ≡ false)
Wrote x n bytes w (err _, v) = Touched x n bytes w v

module _ (x : Codec) (n : StateName) (bytes : x.Document) (d : is_lock n ≡ false) where
  SameDocuments-Written :
      {u v w : World x.Document} → SameDocuments u v → Written x n bytes v w → Written x n bytes u w
  SameDocuments-Written s t = record {
    touched = SameDocuments-Touched-trans x n bytes d s t.touched;
    is_new = t.is_new ∙ ap (λ e. some (written x e bytes)) s.same_euid;
  }

  Wrote-extends :
      {u v : World x.Document} (p : Result (Unit {0}) × World x.Document)
      → SameDocuments u v
      → Wrote x n bytes v p
      → Wrote x n bytes u p
  unfolding Wrote
  Wrote-extends (ok _, w) s t = (SameDocuments-Written s t.0, t.1)
  Wrote-extends (err _, w) s t = SameDocuments-Touched-trans x n bytes d s t

  Wrote-Framed : Framed x (Wrote x n bytes)
  unfolding Wrote
  Wrote-Framed = record {
    extends = λ {u} {v} {p} s t. Wrote-extends p s t;
    fails = λ e s. SameDocuments-Touched x n bytes d s;
  }

  replace-Wrote :
      (w : World x.Document)
      → ltb max_bytes (x.document_len bytes) ≡ false
      → Wrote x n bytes w (replace x n bytes w)
  unfolding replace Wrote
  replace-Wrote w fits = from (replace_from x w.outcomes n bytes w) refl
    where
      from :
          (p : Result (Unit {0}) × World x.Document)
          → replace_from x w.outcomes n bytes w ≡ p
          → Wrote x n bytes w p
      from (ok _, v) e = (replace_from-ok x n bytes fits w.outcomes w e, fits)
      from (err _, v) e =
          subst (λ p. Touched x n bytes w p.1) e (replace_from-Touched x n bytes fits w.outcomes w)

serialize_bounded-ok :
    (x : Codec) (body : x.Document) {bytes : x.Document}
    → serialize_bounded x body ≡ ok bytes
    → (x.push_newline body ≡ bytes) × (ltb max_bytes (x.document_len (x.push_newline body)) ≡ false)
unfolding serialize_bounded
serialize_bounded-ok x body {bytes} h =
    let test =
      leb (x.document_len (x.push_newline body)) 1
      || ltb max_bytes (x.document_len (x.push_newline body)) in
    let parts =
      >>-eq-ok (reject_if test (contract "durable state serialization is empty or oversized"))
        (ok (x.push_newline body)) h in
    (cc parts.1, (or-eq-false _ _ (reject_if-eq-ok test _ parts.0)).1)

-- For an entry that is not a lock: after a success of `write_path` the new bytes are there, and
-- they fit the bound; after an error the entry is what it was, or the new bytes; no other document
-- changes.
pub write_path-Wrote :
    (x : Codec) (n : StateName) (body : x.Document) (w : World x.Document)
    → is_lock n ≡ false
    → Wrote x n (x.push_newline body) w (write_path x n body w)
unfolding write_path
write_path-Wrote x n body w d =
    let framed = Wrote-Framed x n (x.push_newline body) d in
    bind-Framed x framed (lift (serialize_bounded x body))
      (λ bytes. ensure_root >> (check_replaced x n >> replace x n bytes)) w SameDocuments-refl
      λ bytes v made _.
        let (is_body, fits) = serialize_bounded-ok x body (ap (λ p. p.0) made) in
        subst
          (λ b.
            Wrote x n (x.push_newline body) v
              ((ensure_root >> (check_replaced x n >> replace x n b)) v))
          is_body
          (bind-Framed x framed ensure_root
            (λ _. check_replaced x n >> replace x n (x.push_newline body)) v
            ensure_root-SameDocuments
            λ _ v1 _ _.
              bind-Framed x framed (check_replaced x n) (λ _. replace x n (x.push_newline body)) v1
                SameDocuments-refl λ _ v2 _ _. replace-Wrote x n (x.push_newline body) d v2 fits)
