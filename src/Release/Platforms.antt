-- ===== src/Release/Platforms.antt =====
-- src/manifest.rs `validate_target`: the names of a target's platform, and its npm key.
use dirextalk_vnext_deployer.Prelude.{
  ℕ, Bool, true, false, ◌||◌, not, [], ◌∷◌, ◌++◌, Option, none, some, Str, str_eq, bytes, ◌≡◌, sym,
  ap, ◌∙◌, ◌==◌, ◌⊎◌, inl, inr, ne-eq-false, Bool-cases, any, starts_with, arith,
  is_ascii_uppercase,
}
use dirextalk_vnext_deployer.Errors.{Checked, ok, reject_if, manifest, >>-eq-ok, reject_if-eq-ok}
use dirextalk_vnext_deployer.Release.{
  ReleaseTarget, node_platform_of, node_arch_of, rust_architecture_of, rust_os_matches,
  check_node_platform, check_node_arch, check_platforms, validate_target, validate_toolchain,
}
use dirextalk_vnext_deployer.Release.Names.{validate_token}
use dirextalk_vnext_deployer.Release.Targets.{npm_key}

-- The Go, Node and Rust names of a target's platform agree.
pub record Consistent (t : ReleaseTarget) : Type 0 where
  pub same_platform : node_platform_of t.goos ≡ some t.node_platform
  pub same_arch : node_arch_of t.goarch ≡ some t.node_arch
  pub rust_arch : starts_with t.rust_target (rust_architecture_of t.goarch) ≡ true
  pub rust_os : rust_os_matches t.goos t.rust_target ≡ true

check_node_platform-some :
    (o : Option Str) (platform : Str) → check_node_platform o platform ≡ ok tt → o ≡ some platform
unfolding check_node_platform
check_node_platform-some none platform h = cc
check_node_platform-some (some expected) platform h =
    ap (λ s. some s) (sym (ne-eq-false platform expected (reject_if-eq-ok _ _ h)))

check_node_arch-some :
    (o : Option Str) (arch : Str) → check_node_arch o arch ≡ ok tt → o ≡ some arch
unfolding check_node_arch
check_node_arch-some none arch h = cc
check_node_arch-some (some expected) arch h =
    ap (λ s. some s) (sym (ne-eq-false arch expected (reject_if-eq-ok _ _ h)))

both_true : (a b : Bool) → (not a || not b) ≡ false → (a ≡ true) × (b ≡ true)
both_true a b h = ground arith

check_platforms-Consistent : (t : ReleaseTarget) → check_platforms t ≡ ok tt → Consistent t
unfolding check_platforms
check_platforms-Consistent t h =
    let (a, h1) = >>-eq-ok (check_node_platform (node_platform_of t.goos) t.node_platform) _ h in
    let (b, h2) = >>-eq-ok (check_node_arch (node_arch_of t.goarch) t.node_arch) _ h1 in
    let (c, d) = both_true _ _ (reject_if-eq-ok _ _ h2) in
    record {
      same_platform = check_node_platform-some (node_platform_of t.goos) t.node_platform a;
      same_arch = check_node_arch-some (node_arch_of t.goarch) t.node_arch b;
      rust_arch = c;
      rust_os = d;
    }

pub validate_target-Consistent : (t : ReleaseTarget) → validate_target t ≡ ok tt → Consistent t
unfolding validate_target
validate_target-Consistent t h =
    let (_, h1) = >>-eq-ok (validate_token t.id "target.id") _ h in
    let (_, h2) = >>-eq-ok (validate_token t.rust_target "target.rust_target") _ h1 in
    let (_, h3) = >>-eq-ok (validate_token t.goos "target.goos") _ h2 in
    let (_, h4) = >>-eq-ok (validate_token t.goarch "target.goarch") _ h3 in
    let (_, h5) = >>-eq-ok (validate_token t.node_platform "target.node_platform") _ h4 in
    let (_, h6) = >>-eq-ok (validate_token t.node_arch "target.node_arch") _ h5 in
    let (_, h7) = >>-eq-ok (validate_toolchain t.rust_toolchain) _ h6 in
    let lower : Checked =
      reject_if (any is_ascii_uppercase t.id) (manifest "target.id must be lowercase") in
    check_platforms-Consistent t (>>-eq-ok lower _ h7).1

-- The three names of an operating system that Node has.
platform_cases :
    (goos platform : Str)
    → node_platform_of goos ≡ some platform
    → (platform ≡ bytes "win32") ⊎ (platform ≡ bytes "linux") ⊎ (platform ≡ bytes "darwin")
platform_cases goos platform h = elim (Bool-cases (goos == bytes "windows")) [
  | inl windows ↦ inl (cc (rw windows at h))
  | inr other ↦ elim (Bool-cases (goos == bytes "linux")) [
    | inl linux ↦ inr (inl (cc (rw (other, linux) at h)))
    | inr neither ↦ elim (Bool-cases (goos == bytes "darwin")) [
      | inl darwin ↦ inr (inr (cc (rw (other, neither, darwin) at h)))
      | inr unknown ↦ cc (rw (other, neither, unknown) at h)
    ]
  ]
]

abbrev keyed : Str → Str → Str
keyed platform arch = platform ++ (bytes "-" ++ arch)

abbrev first_byte : Str → ℕ
first_byte [] = 0
first_byte (b ∷ s) = b

keyed-as : (p q p' q' a b : Str) → p ≡ p' → q ≡ q' → keyed p a ≡ keyed q b → keyed p' a ≡ keyed q' b
keyed-as p q p' q' a b e f h = ap (λ z. keyed z a) (sym e) ∙ h ∙ ap (λ z. keyed z b) f

abbrev IsNodePlatform : Str → Type 0
IsNodePlatform p = (p ≡ bytes "win32") ⊎ (p ≡ bytes "linux") ⊎ (p ≡ bytes "darwin")

keyed-injective :
    (p q a b : Str)
    → IsNodePlatform p
    → IsNodePlatform q
    → keyed p a ≡ keyed q b
    → (p ≡ q) × (a ≡ b)
keyed-injective p q a b (inl e) (inl f) h =
    let k = keyed-as p q (bytes "win32") (bytes "win32") a b e f h in (e ∙ sym f, cc k)
keyed-injective p q a b (inl e) (inr (inl f)) h =
    let k = keyed-as p q (bytes "win32") (bytes "linux") a b e f h in
    absurd (omega (arith, ap first_byte k))
keyed-injective p q a b (inl e) (inr (inr f)) h =
    let k = keyed-as p q (bytes "win32") (bytes "darwin") a b e f h in
    absurd (omega (arith, ap first_byte k))
keyed-injective p q a b (inr (inl e)) (inl f) h =
    let k = keyed-as p q (bytes "linux") (bytes "win32") a b e f h in
    absurd (omega (arith, ap first_byte k))
keyed-injective p q a b (inr (inl e)) (inr (inl f)) h =
    let k = keyed-as p q (bytes "linux") (bytes "linux") a b e f h in (e ∙ sym f, cc k)
keyed-injective p q a b (inr (inl e)) (inr (inr f)) h =
    let k = keyed-as p q (bytes "linux") (bytes "darwin") a b e f h in
    absurd (omega (arith, ap first_byte k))
keyed-injective p q a b (inr (inr e)) (inl f) h =
    let k = keyed-as p q (bytes "darwin") (bytes "win32") a b e f h in
    absurd (omega (arith, ap first_byte k))
keyed-injective p q a b (inr (inr e)) (inr (inl f)) h =
    let k = keyed-as p q (bytes "darwin") (bytes "linux") a b e f h in
    absurd (omega (arith, ap first_byte k))
keyed-injective p q a b (inr (inr e)) (inr (inr f)) h =
    let k = keyed-as p q (bytes "darwin") (bytes "darwin") a b e f h in (e ∙ sym f, cc k)

-- Two consistent targets with one npm key have one Node platform.
pub npm_key-platform :
    (t u : ReleaseTarget)
    → Consistent t
    → Consistent u
    → npm_key t ≡ npm_key u
    → (t.node_platform ≡ u.node_platform) × (t.node_arch ≡ u.node_arch)
npm_key-platform t u c d h =
    keyed-injective t.node_platform u.node_platform t.node_arch u.node_arch
      (platform_cases t.goos t.node_platform c.same_platform)
      (platform_cases u.goos u.node_platform d.same_platform) h
