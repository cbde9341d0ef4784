-- ===== src/Args/Kv/Laws.antt =====
-- Which KV cache types a mode takes.
use localx_llama.Prelude.{
  inl, inr, Bool, false, not, arith, if◌then◌else◌, Result, err, ◌≡◌, refl, ◌↔◌, ◌⊎◌, true, ok,
}
use localx_llama.Text.{join, Text, contains_text, lower}
use localx_llama.Error.{CoreError, kv_type_needs_fork, unknown_kv_type}
use localx_llama.Model.{separator, Mode, turboquant}
use localx_llama.Args.Kv.{
  mainline_kv_types, mode_supports_turbo_kv, turbo_kv_types, validate_kv_type,
}

supported-turboquant : (mode : Mode) → mode_supports_turbo_kv mode ≡ true → mode ≡ turboquant
unfolding mode_supports_turbo_kv
supported-turboquant turboquant h = refl
supported-turboquant _ h = cc

two_tests :
    (m t s : Bool) (a b : CoreError)
    → (◌≡◌ {A = Result CoreError (Unit {0})}
        (if m then ok tt else if t then (if not s then err a else ok tt) else err b)
        (ok tt))
      ↔ ((m ≡ true) ⊎ ((t ≡ true) × (s ≡ true)))
two_tests true t s a b = (λ h. inl refl, λ h. refl)
two_tests false true true a b = (λ h. inr (refl, refl), λ h. refl)
two_tests false true false a b = (λ h. cc, λ h. ground arith)
two_tests false false s a b = (λ h. cc, λ h. ground arith)

-- A cache type is accepted exactly if its lower-case name is a mainline type, or a turbo type in
-- turboquant mode.
pub validate_kv_type_iff :
    (ty : Text) (mode : Mode)
    → (validate_kv_type ty mode ≡ ok tt) ↔ (
        (contains_text mainline_kv_types (lower ty) ≡ true)
        ⊎ ((contains_text turbo_kv_types (lower ty) ≡ true) × (mode ≡ turboquant)))
unfolding validate_kv_type
validate_kv_type_iff ty mode =
    let (to, from) =
      two_tests (contains_text mainline_kv_types (lower ty))
        (contains_text turbo_kv_types (lower ty)) (mode_supports_turbo_kv mode)
        (kv_type_needs_fork (lower ty) (join separator mainline_kv_types))
        (unknown_kv_type (lower ty) (join separator mainline_kv_types)
          (join separator turbo_kv_types)) in
    (
      λ h. elim (to h) [ inl m ↦ inl m | inr (t, s) ↦ inr (t, supported-turboquant mode s) ],
      λ h. elim h [
        | inl m ↦ from (inl m)
        | inr (t, e) ↦ from (inr (t, rw e (unfold mode_supports_turbo_kv in refl)))
      ],
    )
