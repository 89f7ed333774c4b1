-- ===== src/Store/Transitions/Current.antt =====
-- What src/deployment.rs `lock_current` and `verify_current_owner` establish.
use mathlib.Core.Path.{subst}
use dirextalk_vnext_deployer.Prelude.{Str, bytes, ◌++◌, ◌≡◌, sym, ap, ◌∙◌}
use dirextalk_vnext_deployer.Errors.{Result, ok, err}
use dirextalk_vnext_deployer.Operation.{OperationRecord}
use dirextalk_vnext_deployer.Store.World.{Codec, M, ◌>>=◌, ◌>>◌, lift, look, World}
use dirextalk_vnext_deployer.Store.Documents.{ownership_fence}
use dirextalk_vnext_deployer.Store.Files.{read, lock}
use dirextalk_vnext_deployer.Store.Frame.{
  SameDocuments, SameDocuments-refl, SameDocuments-trans, Framed, bind-Framed, lock-SameDocuments,
  read-same, read_owner-same,
}
use dirextalk_vnext_deployer.Store.Transitions.{lock_current, check_owner}

module _ (x : Codec) where
  -- The directory holds `r` under `id`, and the projection of its target names it.
  pub record IsCurrent (id : Str) (w : World x.Document) (r : OperationRecord) : Type 0 where
    pub reads : read x id w ≡ ok r
    pub fence : Str
    pub is_fence : ownership_fence x r.target r.binding.host ≡ ok fence
    pub owned : check_owner x fence r w ≡ ok tt

  pub check_owner-same :
      (fence : Str) (r : OperationRecord) (w v : World x.Document)
      → SameDocuments w v
      → check_owner x fence r v ≡ check_owner x fence r w
  unfolding check_owner
  check_owner-same fence r w v s = rw (read_owner-same x fence w v s)

  pub IsCurrent-before :
      {id : Str} {u v : World x.Document} {r : OperationRecord}
      → SameDocuments u v
      → IsCurrent id v r
      → IsCurrent id u r
  IsCurrent-before {id} {u} {v} {r} s c = record {
    reads = sym (read-same x id u v s) ∙ c.reads;
    fence = c.fence;
    is_fence = c.is_fence;
    owned = sym (check_owner-same c.fence r u v s) ∙ c.owned;
  }

  pub Locked : Str → World x.Document → Result OperationRecord × World x.Document → Type 0
  Locked id w (ok r, v) = IsCurrent id w r × SameDocuments w v
  Locked id w (err e, v) = SameDocuments w v

  Locked-extends :
      (id : Str) {u v : World x.Document} (p : Result OperationRecord × World x.Document)
      → SameDocuments u v
      → Locked id v p
      → Locked id u p
  unfolding Locked
  Locked-extends id (ok r, w) s (c, t) = (IsCurrent-before s c, SameDocuments-trans s t)
  Locked-extends id (err e, w) s t = SameDocuments-trans s t

  Locked-Framed : (id : Str) → Framed x (Locked id)
  unfolding Locked
  Locked-Framed id = record {
    extends = λ {u} {v} {p} s t. Locked-extends id p s t;
    fails = λ e s. s;
  }

  abbrev reread : Str → Str → M x.Document OperationRecord
  reread id fence = look (read x id) >>= λ c. look (check_owner x fence c) >> lift (ok c)

  -- The second read gives what the first gave, since the lock's steps keep the documents.
  reread-Locked :
      (id fence : Str) (i : OperationRecord) (w : World x.Document)
      → read x id w ≡ ok i
      → ownership_fence x i.target i.binding.host ≡ ok fence
      → Locked id w (reread id fence w)
  unfolding Locked
  reread-Locked id fence i w first fenced =
      bind-Framed x (Locked-Framed id) (look (read x id))
        (λ c. look (check_owner x fence c) >> lift (ok c)) w SameDocuments-refl
        λ c v again s.
          let second : read x id w ≡ ok c = ap (λ p. p.0) again in
          let same : i ≡ c = cc (sym first ∙ second) in
          bind-Framed x (Locked-Framed id) (look (check_owner x fence c)) (λ _. lift (ok c)) v
            SameDocuments-refl
            λ _ u checked t. (
              record {
                reads = read-same x id w u (SameDocuments-trans s t) ∙ second;
                fence = fence;
                is_fence =
                    subst (λ r. ownership_fence x r.target r.binding.host ≡ ok fence) same fenced;
                owned = check_owner-same fence c v u t ∙ ap (λ p. p.0) checked;
              },
              SameDocuments-refl u,
            )

  abbrev after_lock : Str → Str → M x.Document OperationRecord
  after_lock id fence = lock x (bytes "target-" ++ fence) >> reread id fence

  pub lock_current-Locked : (id : Str) (w : World x.Document) → Locked id w (lock_current x id w)
  unfolding lock_current
  lock_current-Locked id w =
      bind-Framed x (Locked-Framed id) (look (read x id))
        (λ i. lift (ownership_fence x i.target i.binding.host) >>= after_lock id) w
        SameDocuments-refl
        λ i v first s.
          bind-Framed x (Locked-Framed id) (lift (ownership_fence x i.target i.binding.host))
            (after_lock id) v SameDocuments-refl
            λ fence u fenced t.
              bind-Framed x (Locked-Framed id) (lock x (bytes "target-" ++ fence))
                (λ _. reread id fence) u (lock-SameDocuments x (bytes "target-" ++ fence))
                λ _ o _ l.
                  reread-Locked id fence i o
                    (read-same x id w o (SameDocuments-trans s (SameDocuments-trans t l))
                      ∙ ap (λ p. p.0) first)
                    (ap (λ p. p.0) fenced)

  Locked-quiet :
      (id : Str) {w : World x.Document} (p : Result OperationRecord × World x.Document)
      → Locked id w p
      → SameDocuments w p.1
  unfolding Locked
  Locked-quiet id (ok r, v) h = h.1
  Locked-quiet id (err e, v) h = h

  pub lock_current-SameDocuments :
      (id : Str) (w : World x.Document) → SameDocuments w (lock_current x id w).1
  lock_current-SameDocuments id w = Locked-quiet id (lock_current x id w) (lock_current-Locked id w)

  pub lock_current-IsCurrent :
      (id : Str) (w : World x.Document) {r : OperationRecord} {v : World x.Document}
      → lock_current x id w ≡ (ok r, v)
      → IsCurrent id w r
  unfolding Locked
  lock_current-IsCurrent id w e = (subst (Locked id w) e (lock_current-Locked id w)).0
