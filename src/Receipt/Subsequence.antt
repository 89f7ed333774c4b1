-- ===== src/Receipt/Subsequence.antt =====
-- src/deployment.rs `canonical_service_subsequence`, against the relation that it decides.
use dirextalk_vnext_deployer.Prelude.{
  true, List, [], ◌∷◌, ◌≡◌, refl, ◌↔◌, ◌==◌, eq_iff, Bool-cases, inl, inr,
}
use dirextalk_vnext_deployer.Receipt.{
  ReceiptService, receipt_service_eq, ServiceReceiptEvidence, canonical_service_subsequence,
  evidenced,
}

-- `xs` is `ys` with some elements left out.
pub data Subsequence : List ReceiptService → List ReceiptService → Type 0 where
  nothing_kept : {ys : List ReceiptService} → Subsequence [] ys
  kept :
      {x : ReceiptService} {xs ys : List ReceiptService}
      → Subsequence xs ys
      → Subsequence (x ∷ xs) (x ∷ ys)
  left_out :
      {y : ReceiptService} {xs ys : List ReceiptService}
      → Subsequence xs ys
      → Subsequence xs (y ∷ ys)

abbrev Accepts : List ReceiptService → List ServiceReceiptEvidence → Type 0
Accepts planned_services evidence = canonical_service_subsequence planned_services evidence ≡ true

abbrev DropsFirst : List ReceiptService → Type 0
DropsFirst ys =
    (e : ServiceReceiptEvidence) (es : List ServiceReceiptEvidence)
    → Accepts ys (e ∷ es)
    → Accepts ys es

Accepts-more :
    (y : ReceiptService) (ys : List ReceiptService)
    → DropsFirst ys
    → (es : List ServiceReceiptEvidence) → Accepts ys es
    → Accepts (y ∷ ys) es
Accepts-more y ys drops [] h = refl
Accepts-more y ys drops (e ∷ es) h = elim (Bool-cases (y == e.service)) [
  | inl t ↦ rw t (drops e es h)
  | inr f ↦ rw f h
]

Accepts-DropsFirst : (ys : List ReceiptService) → DropsFirst ys
Accepts-DropsFirst [] e es h = cc
Accepts-DropsFirst (y ∷ ys) e es h =
    let drops : DropsFirst ys = λ f fs. Accepts-DropsFirst ys f fs in
    elim (Bool-cases (y == e.service)) [
      | inl t ↦ Accepts-more y ys drops es (rw t at h)
      | inr f ↦ Accepts-more y ys drops es (drops e es (rw f at h))
    ]

accepted-Subsequence :
    (ys : List ReceiptService) (es : List ServiceReceiptEvidence)
    → Accepts ys es
    → Subsequence (evidenced es) ys
accepted-Subsequence ys [] h = nothing_kept
accepted-Subsequence [] (e ∷ es) h = cc
accepted-Subsequence (y ∷ ys) (e ∷ es) h = elim (Bool-cases (y == e.service)) [
  | inl t ↦
      let same : y ≡ e.service = (eq_iff y e.service).0 t in
      rw same (kept (accepted-Subsequence ys es (rw t at h)))
  | inr f ↦ left_out (accepted-Subsequence ys (e ∷ es) (rw f at h))
]

Subsequence-accepted :
    {xs ys : List ReceiptService} (es : List ServiceReceiptEvidence)
    → Subsequence xs ys
    → evidenced es ≡ xs
    → Accepts ys es
Subsequence-accepted [] s h = refl
Subsequence-accepted (e ∷ es) nothing_kept h = cc
Subsequence-accepted (e ∷ es) (kept {x} {xs} {ys} s) h =
    let head : e.service ≡ x = cc in
    let tail : evidenced es ≡ xs = cc in
    rw ((eq_iff x e.service).1 (cc)) (Subsequence-accepted es s tail)
Subsequence-accepted (e ∷ es) (left_out {y} {xs} {ys} s) h =
    Accepts-more y ys (Accepts-DropsFirst ys) (e ∷ es) (Subsequence-accepted (e ∷ es) s h)

-- The greedy scan over one iterator accepts exactly the evidence whose services are a subsequence
-- of the planned ones, in their order.
pub canonical_service_subsequence-Subsequence :
    (planned_services : List ReceiptService) (evidence : List ServiceReceiptEvidence)
    → (canonical_service_subsequence planned_services evidence ≡ true)
      ↔ Subsequence (evidenced evidence) planned_services
canonical_service_subsequence-Subsequence planned_services evidence =
    (accepted-Subsequence planned_services evidence, λ s. Subsequence-accepted evidence s refl)
