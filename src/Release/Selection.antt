-- ===== src/Release/Selection.antt =====
-- src/plan.rs `select_targets`: what is selected.
use mathlib.Core.List.{append_assoc, append-nil}
use dirextalk_vnext_deployer.Prelude.{
  false, List, [], ◌∷◌, ◌++◌, Option, none, some, Str, str_eq, any, find-test, ◌≡◌, refl, sym, ap,
  ◌∙◌, ◌==◌, eq_iff, eq-eq-false, or-eq-false,
}
use dirextalk_vnext_deployer.Errors.{
  Checked, ok, reject_if, manifest, >>-eq-ok, >>=-eq-ok, reject_if-eq-ok,
}
use dirextalk_vnext_deployer.Release.{ReleaseTarget, ReleaseManifest}
use dirextalk_vnext_deployer.Release.Targets.{
  target_ids, find_release, is_chosen, add_target, select_from, select_targets,
}

-- No text occurs twice.
abbrev pub Distinct : List Str → Type 0
Distinct [] = Unit {0}
Distinct (s ∷ texts) = (any (λ t. t == s) texts ≡ false) × Distinct texts

target_ids-append : (a b : List ReleaseTarget) → target_ids (a ++ b) ≡ target_ids a ++ target_ids b
target_ids-append [] b = refl
target_ids-append (t ∷ a) b = ap (λ l. t.id ∷ l) (target_ids-append a b)

any-last :
    (s id : Str) (texts : List Str)
    → any (λ t. t == s) texts ≡ false
    → (id == s) ≡ false
    → any (λ t. t == s) (texts ++ (id ∷ [])) ≡ false
any-last s id [] h k = rw k refl
any-last s id (t ∷ texts) h k =
    let (a, b) = or-eq-false (t == s) (any (λ u. u == s) texts) h in rw a (any-last s id texts b k)

eq-flip : (a b : Str) → (a == b) ≡ false → (b == a) ≡ false
eq-flip a b h = eq-eq-false b a (λ (e : b ≡ a). cc (h, (eq_iff a b).1 (sym e)))

Distinct-last :
    (id : Str) (chosen : List ReleaseTarget)
    → Distinct (target_ids chosen)
    → is_chosen id chosen ≡ false
    → Distinct (target_ids chosen ++ (id ∷ []))
Distinct-last id [] d h = (refl, tt)
Distinct-last id (t ∷ chosen) d h =
    let (a, b) = or-eq-false (t.id == id) (is_chosen id chosen) h in
    (any-last t.id id (target_ids chosen) d.0 (eq-flip t.id id a), Distinct-last id chosen d.1 b)

-- What one round adds.
record Added (id : Str) (targets chosen longer : List ReleaseTarget) : Type 0 where
  target : ReleaseTarget
  found : find_release id targets ≡ some target
  named : target.id ≡ id
  is_new : is_chosen target.id chosen ≡ false
  extended : longer ≡ chosen ++ (target ∷ [])

add_target-Added :
    (id : Str) (targets chosen longer : List ReleaseTarget) (o : Option ReleaseTarget)
    → find_release id targets ≡ o
    → add_target chosen o ≡ ok longer
    → Added id targets chosen longer
unfolding add_target
add_target-Added id targets chosen longer none f h = cc
add_target-Added id targets chosen longer (some t) f h =
    let fresh : Checked =
      reject_if (is_chosen t.id chosen) (manifest "duplicate selected target") in
    let (is_fresh, h1) = >>-eq-ok fresh _ h in
    record {
      target = t;
      found = f;
      named = (eq_iff t.id id).0 (find-test (λ (u : ReleaseTarget). u.id == id) targets t f);
      is_new = reject_if-eq-ok _ _ is_fresh;
      extended = cc;
    }

-- Each of the targets is the one that the manifest has under its identifier.
abbrev pub FromManifest : List ReleaseTarget → List ReleaseTarget → Type 0
FromManifest targets [] = Unit {0}
FromManifest targets (t ∷ chosen) =
    (find_release t.id targets ≡ some t) × FromManifest targets chosen

FromManifest-last :
    (targets chosen : List ReleaseTarget) (t : ReleaseTarget)
    → FromManifest targets chosen
    → find_release t.id targets ≡ some t
    → FromManifest targets (chosen ++ (t ∷ []))
FromManifest-last targets [] t c f = (f, tt)
FromManifest-last targets (u ∷ chosen) t c f = (c.0, FromManifest-last targets chosen t c.1 f)

-- The targets that are chosen for a list of identifiers.
pub record Selected (targets : List ReleaseTarget) (ids : List Str) (out : List ReleaseTarget)
    : Type 0 where
  pub in_order : target_ids out ≡ ids
  pub distinct : Distinct ids
  pub from_manifest : FromManifest targets out

select_from-Selected :
    (targets chosen out : List ReleaseTarget) (before selected : List Str)
    → Selected targets before chosen
    → select_from targets chosen selected ≡ ok out
    → Selected targets (before ++ selected) out
unfolding select_from
select_from-Selected targets chosen out before [] s h =
    let is : chosen ≡ out = cc in
    record {
      in_order = ap target_ids (sym is) ∙ s.in_order ∙ sym (append-nil before);
      distinct = rw (append-nil before) s.distinct;
      from_manifest = rw (sym is) s.from_manifest;
    }
select_from-Selected targets chosen out before (id ∷ selected) s h =
    let (longer, added, rest) =
      >>=-eq-ok (add_target chosen (find_release id targets)) (λ l. select_from targets l selected)
        h in
    let a = add_target-Added id targets chosen longer (find_release id targets) refl added in
    let is_new : is_chosen id chosen ≡ false =
      ap (λ z. is_chosen z chosen) (sym a.named) ∙ a.is_new in
    let found : find_release a.target.id targets ≡ some a.target =
      ap (λ z. find_release z targets) a.named ∙ a.found in
    let last : Distinct (target_ids chosen ++ (id ∷ [])) =
      Distinct-last id chosen (rw s.in_order s.distinct) is_new in
    let next : Selected targets (before ++ (id ∷ [])) longer = record {
      in_order =
          ap target_ids a.extended
          ∙ target_ids-append chosen (a.target ∷ [])
          ∙ ap (λ l. l ++ (a.target.id ∷ [])) s.in_order
          ∙ ap (λ z. before ++ (z ∷ [])) a.named;
      distinct = rw (sym s.in_order) last;
      from_manifest =
          rw a.extended (FromManifest-last targets chosen a.target s.from_manifest found);
    } in
    rw (sym (append_assoc before (id ∷ []) selected))
      (select_from-Selected targets longer out (before ++ (id ∷ [])) selected next rest)

-- A selection that is not empty and succeeds names each target once, and gives the manifest's targets
-- of these names, in the order of the selection.
pub select_targets-Selected :
    (m : ReleaseManifest) (id : Str) (selected : List Str) (out : List ReleaseTarget)
    → select_targets m (id ∷ selected) ≡ ok out
    → Selected m.targets (id ∷ selected) out
unfolding select_targets
select_targets-Selected m id selected out h =
    select_from-Selected m.targets [] out [] (id ∷ selected)
      (record { in_order = refl; distinct = tt; from_manifest = tt }) h
