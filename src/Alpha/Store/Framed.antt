-- ===== src/Alpha/Store/Framed.antt =====
-- src/alpha_deployment.rs: what the calls of `replace` leave of the record files, however they end.
use dirextalk_vnext_deployer.Prelude.{
  false, List, [], ◌∷◌, Option, none, some, Str, str_eq, ◌≡◌, refl, ap, ◌∙◌, ◌==◌, eq_self, ◌⊎◌,
  inl, inr,
}
use mathlib.Core.Path.{subst}
use dirextalk_vnext_deployer.Errors.{Result, ok, err, ReleaseError}
use dirextalk_vnext_deployer.Alpha.{AlphaLifecycleRecord, Crates}
use dirextalk_vnext_deployer.Alpha.Store.{
  AlphaName, AlphaName-discrete, alpha_name_eq, alpha_file, alpha_temp, Entry, regular, CallEnd,
  call_done, call_failed, call_torn, AlphaWorld, put, pop_end, serialized, write_end, write_if_new,
  write_new, remove_end, remove_stale, rename_end, rename, renamed,
}

-- Every record file has the same entry in both directories.
abbrev pub FilesSame : AlphaWorld → AlphaWorld → Type 0
FilesSame w v = (id : Str) → v.entries (alpha_file id) ≡ w.entries (alpha_file id)

pub FilesSame-trans : (u v w : AlphaWorld) → FilesSame u v → FilesSame v w → FilesSame u w
FilesSame-trans u v w a b id = b id ∙ a id

pub put_self :
    (n : AlphaName) (e : Option Entry) (entries : AlphaName → Option Entry) → put n e entries n ≡ e
put_self n e entries = rw (eq_self n) refl

-- An end is taken without a change of the entries.
pop_end-entries : (w : AlphaWorld) → (pop_end w).1.entries ≡ w.entries
pop_end-entries w = of_ends w.ends
  where
    of_ends : (ends : List CallEnd) → (pop_end (record w { ends = ends })).1.entries ≡ w.entries
    of_ends [] = refl
    of_ends (end ∷ later) = refl

module _ (x : Crates) where
  remove_end-FilesSame :
      (id : Str) (end : CallEnd) (w : AlphaWorld)
      → FilesSame w (remove_end x (alpha_temp id) end w).1
  unfolding remove_end AlphaName-discrete
  remove_end-FilesSame id call_done w j = refl
  remove_end-FilesSame id call_failed w j = refl
  remove_end-FilesSame id (call_torn part) w j = refl

  pub remove_stale-FilesSame :
      (id : Str) (e : Option Entry) (w : AlphaWorld)
      → FilesSame w (remove_stale x (alpha_temp id) e w).1
  unfolding remove_stale
  remove_stale-FilesSame id none w j = refl
  remove_stale-FilesSame id (some e) w j =
      remove_end-FilesSame id (pop_end w).0 (pop_end w).1 j
      ∙ ap (λ entries. entries (alpha_file j)) (pop_end-entries w)

  abbrev pub Failed : {A : Type 0} → Result A × AlphaWorld → Type 0
  Failed out = (e : ReleaseError) × (out.0 ≡ err e)

  abbrev pub Wrote : AlphaName → Str → Result (Unit {0}) × AlphaWorld → Type 0
  Wrote n content out = (out.0 ≡ ok tt) × (out.1.entries n ≡ some (regular content))

  write_end-FilesSame :
      (id content : Str) (end : CallEnd) (w : AlphaWorld)
      → FilesSame w (write_end x (alpha_temp id) content end w).1
  unfolding write_end AlphaName-discrete
  write_end-FilesSame id content call_done w j = refl
  write_end-FilesSame id content call_failed w j = refl
  write_end-FilesSame id content (call_torn part) w j = refl

  write_end-Wrote :
      (n : AlphaName) (content : Str) (end : CallEnd) (w : AlphaWorld)
      → Failed (write_end x n content end w) ⊎ Wrote n content (write_end x n content end w)
  unfolding write_end
  write_end-Wrote n content call_done w = inr (refl, put_self n (some (regular content)) w.entries)
  write_end-Wrote n content call_failed w = inl (_, refl)
  write_end-Wrote n content (call_torn part) w = inl (_, refl)

  pub write_new-FilesSame :
      (id : Str) (r : AlphaLifecycleRecord) (w : AlphaWorld)
      → FilesSame w (write_new x (alpha_temp id) r w).1
  unfolding write_new write_if_new
  write_new-FilesSame id r w j = at (w.entries (alpha_temp id))
    where
      at :
          (e : Option Entry)
          → (write_if_new x (alpha_temp id) (serialized x r) e w).1.entries (alpha_file j)
            ≡ w.entries (alpha_file j)
      at none =
          write_end-FilesSame id (serialized x r) (pop_end w).0 (pop_end w).1 j
          ∙ ap (λ entries. entries (alpha_file j)) (pop_end-entries w)
      at (some e) = refl

  -- A new file is written whole, or the call fails.
  pub write_new-Wrote :
      (n : AlphaName) (r : AlphaLifecycleRecord) (w : AlphaWorld)
      → Failed (write_new x n r w) ⊎ Wrote n (serialized x r) (write_new x n r w)
  unfolding write_new write_if_new
  write_new-Wrote n r w = at (w.entries n)
    where
      at :
          (e : Option Entry)
          → Failed (write_if_new x n (serialized x r) e w)
            ⊎ Wrote n (serialized x r) (write_if_new x n (serialized x r) e w)
      at none = write_end-Wrote n (serialized x r) (pop_end w).0 (pop_end w).1
      at (some e) = inl (_, refl)

  -- A rename leaves the old entry and fails, or puts the new file in its place; the other record
  -- files stay.
  pub record Renamed (id : Str) (before : AlphaName → Option Entry)
      (out : Result (Unit {0}) × AlphaWorld) : Type 0 where
    pub here :
        (Failed out × (out.1.entries (alpha_file id) ≡ before (alpha_file id)))
        ⊎ (out.1.entries (alpha_file id) ≡ before (alpha_temp id))
    pub elsewhere :
        (j : Str)
        → (alpha_file j == alpha_file id) ≡ false
        → out.1.entries (alpha_file j) ≡ before (alpha_file j)

  temp_apart : (j id : Str) → (alpha_file j == alpha_temp id) ≡ false
  unfolding AlphaName-discrete
  temp_apart j id = refl

  renamed-here :
      (id : Str) (w : AlphaWorld)
      → (renamed x (alpha_temp id) (alpha_file id) w).entries (alpha_file id)
        ≡ w.entries (alpha_temp id)
  renamed-here id w = rw (temp_apart id id, eq_self (alpha_file id)) refl

  renamed-elsewhere :
      (id j : Str) (w : AlphaWorld)
      → (alpha_file j == alpha_file id) ≡ false
      → (renamed x (alpha_temp id) (alpha_file id) w).entries (alpha_file j)
        ≡ w.entries (alpha_file j)
  renamed-elsewhere id j w h = rw (temp_apart j id, h) refl

  rename_end-Renamed :
      (id : Str) (end : CallEnd) (w : AlphaWorld)
      → Renamed id w.entries (rename_end x (alpha_temp id) (alpha_file id) end w)
  unfolding rename_end
  rename_end-Renamed id call_done w = record {
    here = inr (renamed-here id w);
    elsewhere = λ j h. renamed-elsewhere id j w h;
  }
  rename_end-Renamed id call_failed w = record {
    here = inl ((_, refl), refl);
    elsewhere = λ j h. refl;
  }
  rename_end-Renamed id (call_torn part) w = record {
    here = inr (renamed-here id w);
    elsewhere = λ j h. renamed-elsewhere id j w h;
  }

  pub rename-Renamed :
      (id : Str) (w : AlphaWorld)
      → Renamed id w.entries (rename x (alpha_temp id) (alpha_file id) w)
  unfolding rename
  rename-Renamed id w =
      subst
        (λ before.
          Renamed id before
            (rename_end x (alpha_temp id) (alpha_file id) (pop_end w).0 (pop_end w).1))
        (pop_end-entries w) (rename_end-Renamed id (pop_end w).0 (pop_end w).1)
