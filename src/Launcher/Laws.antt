-- ===== src/Launcher/Laws.antt =====
-- Which launchers a consumer accepts.
use localx_llama.Launcher.{LauncherError, LauncherVersion, assert_compatible, undeclared}
use localx_llama.Prelude.{
  Result, err, ltb→le, ◌≤◌, Bool, true, false, ◌≡◌, ◌↔◌, ◌⊎◌, inl, inr, refl, List, [], ◌∷◌, arith,
  ltb, ok, Bool-cases, if◌then◌else◌,
}
use localx_llama.Text.{Text, contains_text}

-- No name is asked for, or the name is among those supported.
abbrev pub Declared : List Text → Text → Type 0
Declared supported name = (name ≡ []) ⊎ (contains_text supported name ≡ true)

undeclared_iff :
    (supported : List Text) (name : Text)
    → (undeclared supported name ≡ false) ↔ Declared supported name
unfolding undeclared
undeclared_iff supported [] = (λ h. inl refl, λ h. refl)
undeclared_iff supported (c ∷ name) = elim (Bool-cases (contains_text supported (c ∷ name))) [
  | inl known ↦ (λ h. inr known, λ h. rw known refl)
  | inr unknown ↦ (
    λ h. absurd (cc (rw unknown at h)),
    λ h. elim h [ inl e ↦ absurd cc | inr known ↦ rw known refl ],
  )
]

refused_if :
    (b : Bool) (e : LauncherError) (r : Result LauncherError (Unit {0}))
    → ((if b then err e else r) ≡ ok tt) ↔ ((b ≡ false) × (r ≡ ok tt))
refused_if true e r = (λ h. absurd cc, λ h. absurd cc)
refused_if false e r = (λ h. (refl, h), λ h. h.1)

-- A launcher is accepted exactly if both its versions are at least 1, and the target and the
-- runtime that are asked for are declared; an empty name asks for nothing.
pub assert_compatible_iff :
    (version : LauncherVersion) (target runtime : Text)
    → (assert_compatible version target runtime ≡ ok tt) ↔ (
        (1 ≤ version.api_version)
        × (1 ≤ version.launcher_export_version)
        × Declared version.supported_targets target
        × Declared version.supported_runtimes runtime)
unfolding assert_compatible
assert_compatible_iff version target runtime = (
  λ h.
      let (a, h₁) = (refused_if (ltb version.api_version 1) _ _).0 h in
      let (b, h₂) = (refused_if (ltb version.launcher_export_version 1) _ _).0 h₁ in
      let (c, h₃) = (refused_if (undeclared version.supported_targets target) _ _).0 h₂ in
      let (d, _) = (refused_if (undeclared version.supported_runtimes runtime) _ _).0 h₃ in
      (
        ltb→le version.api_version 1 a,
        ltb→le version.launcher_export_version 1 b,
        (undeclared_iff version.supported_targets target).0 c,
        (undeclared_iff version.supported_runtimes runtime).0 d,
      ),
  λ (a, b, c, d).
      let a' : ltb version.api_version 1 ≡ false = ground arith in
      let b' : ltb version.launcher_export_version 1 ≡ false = ground arith in
      rw
        (
          a',
          b',
          (undeclared_iff version.supported_targets target).1 c,
          (undeclared_iff version.supported_runtimes runtime).1 d,
        )
        refl,
)
