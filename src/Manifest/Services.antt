-- ===== src/Manifest/Services.antt =====
-- The canonical order that src/deployment.rs `binding_from_manifest` gives a node's services.
use dirextalk_vnext_deployer.Prelude.{
  Bool, true, false, ◌||◌, List, [], ◌∷◌, ◌≡◌, ◌≢◌, refl, sym, ap, ◌∙◌, any, ◌==◌, eq_iff,
  eq-eq-false, Bool-cases, inl, inr, arith, sort_by, insert_by, or-eq-false,
}
use dirextalk_vnext_deployer.Contract.{
  NodeService, service_eq, rank, node, agent_control, realtime_gateway, opaque_push_broker,
}
use dirextalk_vnext_deployer.Operation.Validity.{has_duplicate, is_unordered}
use dirextalk_vnext_deployer.Manifest.{by_rank}

pub rank-eq : (a b : NodeService) → rank a ≡ rank b → a ≡ b
rank-eq node node h = refl
rank-eq agent_control agent_control h = refl
rank-eq realtime_gateway realtime_gateway h = refl
rank-eq opaque_push_broker opaque_push_broker h = refl
rank-eq a b h = ground arith

abbrev occurs : NodeService → List NodeService → Bool
occurs a services = any (λ t. t == a) services

occurs-insert_by :
    (a b : NodeService) (services : List NodeService)
    → occurs a (insert_by by_rank b services) ≡ (b == a || occurs a services)
occurs-insert_by a b [] = refl
occurs-insert_by a b (c ∷ services) = elim (Bool-cases (by_rank b c)) [
  | inl first ↦ rw first
  | inr later ↦ rw (later, occurs-insert_by a b services) (ground arith)
]

occurs-sort_by :
    (a : NodeService) (services : List NodeService)
    → occurs a (sort_by by_rank services) ≡ occurs a services
occurs-sort_by a [] = refl
occurs-sort_by a (b ∷ services) =
    occurs-insert_by a b (sort_by by_rank services)
    ∙ ap (λ o. b == a || o) (occurs-sort_by a services)

by_rank-strict : (b c : NodeService) → (c == b) ≡ false → by_rank b c ≡ true → by_rank c b ≡ false
by_rank-strict b c h k =
    let apart : rank b ≢ rank c =
      λ (e : rank b ≡ rank c). cc (sym h ∙ (eq_iff c b).1 (sym (rank-eq b c e))) in
    ground arith

-- Inserting a service that does not occur keeps the strict order.
insert_by-ordered :
    (b : NodeService) (services : List NodeService)
    → occurs b services ≡ false
    → is_unordered services ≡ false
    → is_unordered (insert_by by_rank b services) ≡ false
insert_by-ordered b [] h o = refl
insert_by-ordered b (c ∷ []) h o =
    let (differs, _) = or-eq-false (c == b) false h in
    elim (Bool-cases (by_rank b c)) [
      | inl first ↦ rw (first, by_rank-strict b c differs first) refl
      | inr later ↦ rw (later, later) refl
    ]
insert_by-ordered b (c ∷ d ∷ services) h o =
    let (differs, h1) = or-eq-false (c == b) (occurs b (d ∷ services)) h in
    let (o0, o1) = or-eq-false (by_rank d c) (is_unordered (d ∷ services)) o in
    let ih = insert_by-ordered b (d ∷ services) h1 o1 in
    elim (Bool-cases (by_rank b c)) [
      | inl first ↦ rw (first, by_rank-strict b c differs first, o0, o1) refl
      | inr later ↦ rw later (elim (Bool-cases (by_rank b d)) [
        | inl front ↦ rw (front, later) (rw front at ih)
        | inr behind ↦ rw (behind, o0) (rw behind at ih)
      ])
    ]

-- Inserting a service that does not occur makes no duplicate.
insert_by-distinct :
    (b : NodeService) (services : List NodeService)
    → occurs b services ≡ false
    → has_duplicate services ≡ false
    → has_duplicate (insert_by by_rank b services) ≡ false
insert_by-distinct b [] h o = refl
insert_by-distinct b (c ∷ services) h o =
    let (differs, h1) = or-eq-false (c == b) (occurs b services) h in
    let (o0, o1) = or-eq-false (occurs c services) (has_duplicate services) o in
    let apart : b ≢ c = λ (e : b ≡ c). cc (sym differs ∙ (eq_iff c b).1 (sym e)) in
    elim (Bool-cases (by_rank b c)) [
      | inl first ↦ rw (first, differs, h1, o0, o1) refl
      | inr later ↦
          rw
            (
              later,
              occurs-insert_by c b services,
              eq-eq-false b c apart,
              o0,
              insert_by-distinct b services h1 o1,
            )
            refl
    ]

-- Sorting services without a duplicate gives the strict order of ranks that `valid_record` asks
-- for, without a duplicate, and keeps which services there are.
pub sort_by-canonical :
    (services : List NodeService)
    → has_duplicate services ≡ false
    → (is_unordered (sort_by by_rank services) ≡ false)
      × (has_duplicate (sort_by by_rank services) ≡ false)
      × ((a : NodeService) → occurs a (sort_by by_rank services) ≡ occurs a services)
sort_by-canonical services h =
    (ordered services h, distinct services h, λ a. occurs-sort_by a services)
  where
    ordered :
        (s : List NodeService) → has_duplicate s ≡ false → is_unordered (sort_by by_rank s) ≡ false
    ordered [] h = refl
    ordered (b ∷ s) h =
        let (fresh, rest) = or-eq-false (occurs b s) (has_duplicate s) h in
        insert_by-ordered b (sort_by by_rank s) (occurs-sort_by b s ∙ fresh) (ordered s rest)

    distinct :
        (s : List NodeService) → has_duplicate s ≡ false → has_duplicate (sort_by by_rank s) ≡ false
    distinct [] h = refl
    distinct (b ∷ s) h =
        let (fresh, rest) = or-eq-false (occurs b s) (has_duplicate s) h in
        insert_by-distinct b (sort_by by_rank s) (occurs-sort_by b s ∙ fresh) (distinct s rest)
