-- ===== src/Alpha/Store/Create.antt =====
-- src/alpha_deployment.rs: `AlphaStateStore::create`, which writes a record once.
use dirextalk_vnext_deployer.Prelude.{
  Bool, true, false, ◌||◌, not, List, [], ◌∷◌, Option, none, some, Str, str_eq, ◌≡◌, refl, sym, ap,
  ◌∙◌, ◌==◌, eq_iff, ◌!=◌, eq_self, ne_of_eq, ne-eq-false, Bool-cases, inl, inr, nat_beq,
  nat_beq_iff, arith, if◌then◌else◌,
}
use mathlib.Core.Path.{subst}
use dirextalk_vnext_deployer.Errors.{
  Result, ok, err, Checked, reject_if, contract, operation_conflict, state_unsafe, io, other,
  reject_if-eq-ok, >>=-eq-ok, >>-eq-ok,
}
use dirextalk_vnext_deployer.Alpha.{
  lifecycle_eq, alpha_planned, AlphaLifecycleRecord, alpha_record_eq, Crates,
}
use dirextalk_vnext_deployer.Alpha.Syntax.{uuid_v7}
use dirextalk_vnext_deployer.Alpha.Lifecycle.{verify_alpha}
use dirextalk_vnext_deployer.Alpha.Store.{
  AlphaName, alpha_name_eq, alpha_file, Entry, regular, link, special, AlphaRoot, no_root,
  root_link, root_file, root_directory, AlphaWorld, AlphaM, continue, exists, serialized, CallEnd,
  call_done, call_failed, call_torn, pop_end, check_alpha_root, ensure_alpha_root, load_canonical,
  checked_alpha, file_name, alpha_read, write_end, write_if_new, write_new, keep_or_write,
  alpha_create,
}
use dirextalk_vnext_deployer.Alpha.Store.Framed.{write_new-Wrote}
use dirextalk_vnext_deployer.Alpha.Store.Advance.{Readable, alpha_read-serialized}

-- Inversion of a successful sequence of store calls.
continue-eq-ok :
    {A B : Type 0} (out : Result A × AlphaWorld) (f : A → AlphaM B) {b : B} {v : AlphaWorld}
    → continue out f ≡ (ok b, v)
    → (a : A) × (u : AlphaWorld) × (out ≡ (ok a, u)) × (f a u ≡ (ok b, v))
continue-eq-ok (ok a, u) f h = (a, u, refl, h)
continue-eq-ok (err e, u) f h = cc

-- A root that passed passes again, and the entries stay.
record RootReady (w v : AlphaWorld) : Type 0 where
  owned : v.root ≡ root_directory v.euid
  same_entries : v.entries ≡ w.entries

own_directory :
    (w : AlphaWorld) → w.root ≡ root_directory w.euid → check_alpha_root w.root w ≡ (ok tt, w)
unfolding check_alpha_root
own_directory w e = rw (e, (nat_beq_iff w.euid w.euid).1 refl) refl

check_alpha_root-RootReady :
    (root : AlphaRoot) (w v : AlphaWorld)
    → w.root ≡ root
    → check_alpha_root root w ≡ (ok tt, v)
    → RootReady w v
unfolding check_alpha_root
check_alpha_root-RootReady no_root w v e h =
    let made : record w { root = root_directory w.euid } ≡ v = ap (λ p. p.1) h in
    subst (λ u. RootReady w u) made (record { owned = refl; same_entries = refl })
check_alpha_root-RootReady root_file w v e h = cc
check_alpha_root-RootReady root_link w v e h = cc
check_alpha_root-RootReady (root_directory uid) w v e h =
    let same : w ≡ v = ap (λ p. p.1) h in
    let may_change : Checked =
      reject_if (not (nat_beq uid w.euid || nat_beq w.euid 0)) (io other []) in
    let (_, own) =
      >>-eq-ok may_change (reject_if (not (nat_beq uid w.euid)) (state_unsafe []))
        (ap (λ p. p.0) h) in
    let is_own : not (nat_beq uid w.euid) ≡ false = reject_if-eq-ok _ _ own in
    let uid_is : uid ≡ w.euid = ground (arith, nat_beq_iff uid w.euid) in
    subst (λ u. RootReady w u) same
      (record { owned = e ∙ ap root_directory uid_is; same_entries = refl })

module _ (x : Crates) where
  -- What a successful `create` passed, up to the choice between keeping and writing.
  record Passed (r t : AlphaLifecycleRecord) (w v : AlphaWorld) : Type 0 where
    ready : AlphaWorld
    root_ready : RootReady w ready
    verified : verify_alpha x r ≡ ok tt
    fresh : r.state ≡ alpha_planned
    named : uuid_v7 x r.operation_fence.operation_id "operation_id" ≡ ok tt
    finished :
        keep_or_write x r r.operation_fence.operation_id
          (exists (ready.entries (alpha_file r.operation_fence.operation_id)))
          ready
        ≡ (ok t, v)

  alpha_create-Passed :
      (r t : AlphaLifecycleRecord) (w v : AlphaWorld)
      → alpha_create x r w ≡ (ok t, v)
      → Passed r t w v
  unfolding alpha_create ensure_alpha_root
  alpha_create-Passed r t w v h =
      let (_, u1, verified, h1) = continue-eq-ok (verify_alpha x r, w) _ h in
      let same1 : w ≡ u1 = ap (λ p. p.1) verified in
      let fresh =
        reject_if (r.state != alpha_planned) (contract "new Alpha state must be Planned") in
      let (_, u2, is_fresh, h2) = continue-eq-ok (fresh, u1) _ h1 in
      let same2 : u1 ≡ u2 = ap (λ p. p.1) is_fresh in
      let (_, u3, root, h3) = continue-eq-ok (check_alpha_root u2.root u2) _ h2 in
      let (_, u4, named, h4) =
        continue-eq-ok (uuid_v7 x r.operation_fence.operation_id "operation_id", u3) _ h3 in
      let same4 : u3 ≡ u4 = ap (λ p. p.1) named in
      let back : u2 ≡ w = sym same2 ∙ sym same1 in
      let ready : RootReady u2 u3 = check_alpha_root-RootReady u2.root u2 u3 refl root in
      record {
        ready = u4;
        root_ready = subst (λ u. RootReady w u) same4 (subst (λ u. RootReady u u3) back ready);
        verified = ap (λ p. p.0) verified;
        fresh = ne-eq-false r.state alpha_planned (reject_if-eq-ok _ _ (ap (λ p. p.0) is_fresh));
        named = ap (λ p. p.0) named;
        finished = h4;
      }

  -- A write leaves the root and the process as they were.
  abbrev SameRoot : AlphaWorld → AlphaWorld → Type 0
  SameRoot w v = (v.root ≡ w.root) × (v.euid ≡ w.euid)

  pop_end-SameRoot : (w : AlphaWorld) → SameRoot w (pop_end w).1
  pop_end-SameRoot w = of_ends w.ends
    where
      of_ends : (ends : List CallEnd) → SameRoot w (pop_end (record w { ends = ends })).1
      of_ends [] = (refl, refl)
      of_ends (end ∷ later) = (refl, refl)

  write_end-SameRoot :
      (n : AlphaName) (content : Str) (end : CallEnd) (w : AlphaWorld)
      → SameRoot w (write_end x n content end w).1
  unfolding write_end
  write_end-SameRoot n content call_done w = (refl, refl)
  write_end-SameRoot n content call_failed w = (refl, refl)
  write_end-SameRoot n content (call_torn part) w = (refl, refl)

  write_new-SameRoot :
      (n : AlphaName) (r : AlphaLifecycleRecord) (w : AlphaWorld) → SameRoot w (write_new x n r w).1
  unfolding write_new write_if_new
  write_new-SameRoot n r w = at (w.entries n)
    where
      at : (e : Option Entry) → SameRoot w (write_if_new x n (serialized x r) e w).1
      at none =
          let (a, b) = write_end-SameRoot n (serialized x r) (pop_end w).0 (pop_end w).1 in
          let (c, d) = pop_end-SameRoot w in (a ∙ c, b ∙ d)
      at (some e) = (refl, refl)

  -- What `create` has made or found.
  record Created (r t : AlphaLifecycleRecord) (u v : AlphaWorld) : Type 0 where
    same_record : t ≡ r
    read_back : alpha_read x r.operation_fence.operation_id v ≡ ok r
    same_root : SameRoot u v

  keep_or_write-Created :
      (r t : AlphaLifecycleRecord) (there : Bool) (u v : AlphaWorld)
      → Readable x r
      → verify_alpha x r ≡ ok tt
      → uuid_v7 x r.operation_fence.operation_id "operation_id" ≡ ok tt
      → keep_or_write x r r.operation_fence.operation_id there u ≡ (ok t, v)
      → Created r t u v
  unfolding keep_or_write
  keep_or_write-Created r t true u v readable verified named h =
      let id = r.operation_fence.operation_id in
      let same : u ≡ v = ap (λ p. p.1) h in
      let found = ap (λ p. p.0) h in
      let (e, read, kept) =
        >>=-eq-ok (alpha_read x id u)
          (λ existing. if existing == r then ok existing else err operation_conflict) found in
      elim (Bool-cases (e == r)) [
        | inl is_same ↦
            let is : e ≡ r = (eq_iff e r).0 is_same in
            let out : ok e ≡ ok t = rw is_same at kept in
            let e_is_t : e ≡ t = cc in
            subst (λ z. Created r t u z) same
              (record {
                same_record = sym e_is_t ∙ is;
                read_back = read ∙ ap (λ z. ok z) is;
                same_root = (refl, refl);
              })
        | inr differs ↦ cc (rw differs at kept)
      ]
  keep_or_write-Created r t false u v readable verified named h =
      let id = r.operation_fence.operation_id in
      let out = write_new x (alpha_file id) r u in
      let (_, u1, written, h1) = continue-eq-ok out _ h in
      let at_v : out.1 ≡ v = ap (λ p. p.1) written ∙ ap (λ p. p.1) h1 in
      let is : ok r ≡ ok t = ap (λ p. p.0) h1 in
      elim (write_new-Wrote x (alpha_file id) r u) [
        | inl (e, failed) ↦ cc
        | inr (_, there) ↦
            subst (λ z. Created r t u z) at_v
              (record {
                same_record = cc is;
                read_back = alpha_read-serialized x id r out.1 readable named verified refl there;
                same_root = write_new-SameRoot (alpha_file id) r u;
              })
      ]

  created_again :
      (r : AlphaLifecycleRecord) (v : AlphaWorld)
      → v.root ≡ root_directory v.euid
      → verify_alpha x r ≡ ok tt
      → r.state ≡ alpha_planned
      → uuid_v7 x r.operation_fence.operation_id "operation_id" ≡ ok tt
      → alpha_read x r.operation_fence.operation_id v ≡ ok r
      → exists (v.entries (alpha_file r.operation_fence.operation_id)) ≡ true
      → alpha_create x r v ≡ (ok r, v)
  unfolding alpha_create ensure_alpha_root keep_or_write
  created_again r v owned verified fresh named read there =
      rw (verified, ne_of_eq fresh, own_directory v owned, named, there)
        (rw read (rw (eq_self r) refl))

  -- A file that is read is there.
  read-exists :
      (id : Str) (r : AlphaLifecycleRecord) (w : AlphaWorld)
      → alpha_read x id w ≡ ok r
      → exists (w.entries (alpha_file id)) ≡ true
  unfolding alpha_read load_canonical
  read-exists id r w h =
      let (_, h1) = >>-eq-ok (uuid_v7 x id "operation_id") _ h in
      let (t, loaded, _) =
        >>=-eq-ok (load_canonical x (file_name (alpha_file id)) (w.entries (alpha_file id)))
          (λ t. checked_alpha x id t) h1 in
      loads (w.entries (alpha_file id)) t loaded
    where
      loads :
          (e : Option Entry) (t : AlphaLifecycleRecord)
          → load_canonical x (file_name (alpha_file id)) e ≡ ok t
          → exists e ≡ true
      loads none t h = cc
      loads (some (regular content)) t h = refl
      loads (some (link there)) t h = cc
      loads (some special) t h = cc

  -- A record that was created, and whose JSON is read back, is the one given and is read as it; and
  -- creating it again changes nothing and returns it.
  pub alpha_create-alpha_create :
      (r t : AlphaLifecycleRecord) (w v : AlphaWorld)
      → Readable x r
      → alpha_create x r w ≡ (ok t, v)
      → (t ≡ r)
        × (alpha_read x r.operation_fence.operation_id v ≡ ok r)
        × (alpha_create x r v ≡ (ok r, v))
  alpha_create-alpha_create r t w v readable h =
      let id = r.operation_fence.operation_id in
      let p = alpha_create-Passed r t w v h in
      let u = p.ready in
      let c =
        keep_or_write-Created r t (exists (u.entries (alpha_file id))) u v readable p.verified
          p.named p.finished in
      let owned : v.root ≡ root_directory v.euid =
        c.same_root.0 ∙ p.root_ready.owned ∙ ap root_directory (sym c.same_root.1) in
      (
        c.same_record,
        c.read_back,
        created_again r v owned p.verified p.fresh p.named c.read_back
            (read-exists id r v c.read_back),
      )
