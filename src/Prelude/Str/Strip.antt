-- ===== src/Prelude/Str/Strip.antt =====
-- `strip` leaves a stripped text as it is.
use Prim.Native.Nat.{suc, ◌≤◌}
use mathlib.Core.List.{[], ◌∷◌, ◌++◌, reverse, reverse-reverse, reverse-append}
use mathlib.Core.Path.{◌≡◌, refl, sym, ap, ◌∙◌, subst}
use mathlib.Core.Logic.{inl, inr}
use native.Mathlib.Omega.{arith}
use t_llm.Prelude.Tests.{Bool-cases}
use t_llm.Prelude.Lists.{length}
use t_llm.Prelude.Str.{Str, is_space, lstrip_space, strip}

length-lstrip_space : (s : Str) → length (lstrip_space s) ≤ length s
unfolding lstrip_space
length-lstrip_space [] = omega arith
length-lstrip_space (c ∷ s) = ground (arith, length-lstrip_space s)

lstrip_space_idem : (s : Str) → lstrip_space (lstrip_space s) ≡ lstrip_space s
unfolding lstrip_space
lstrip_space_idem [] = refl
lstrip_space_idem (c ∷ s) = ground (arith, lstrip_space_idem s)

lstrip_space-suffix : (s : Str) → (w : Str) × (s ≡ w ++ lstrip_space s)
unfolding lstrip_space
lstrip_space-suffix [] = ([], refl)
lstrip_space-suffix (c ∷ s) = elim (Bool-cases (is_space c)) [
  | inl space ↦ let rest = lstrip_space-suffix s in (c ∷ rest.0, rw space (ap (◌∷◌ c) rest.1))
  | inr solid ↦ ([], rw solid refl)
]

-- The front of a text that starts with no space starts with none.
lstrip_space-front : (a b : Str) → lstrip_space (a ++ b) ≡ a ++ b → lstrip_space a ≡ a
unfolding lstrip_space
lstrip_space-front [] b h = refl
lstrip_space-front (c ∷ a) b h = elim (Bool-cases (is_space c)) [
  | inl space ↦
      let same : lstrip_space (a ++ b) ≡ c ∷ (a ++ b) = ground (arith, space, h) in
      let shorter : length (lstrip_space (a ++ b)) ≡ suc (length (a ++ b)) = ap length same in
      absurd (omega (arith, shorter, length-lstrip_space (a ++ b)))
  | inr solid ↦ ground (arith, solid)
]

pub strip-strip : (s : Str) → strip (strip s) ≡ strip s
unfolding strip
strip-strip s =
    let front = lstrip_space s in
    let back = lstrip_space (reverse front) in
    let cut = lstrip_space-suffix (reverse front) in
    let parts : front ≡ reverse back ++ reverse cut.0 =
      sym (reverse-reverse front) ∙ ap reverse cut.1 ∙ reverse-append cut.0 back in
    let kept : lstrip_space (reverse back) ≡ reverse back =
      lstrip_space-front (reverse back) (reverse cut.0)
        (subst (λ t. lstrip_space t ≡ t) parts (lstrip_space_idem s)) in
    rw (kept, reverse-reverse back, lstrip_space_idem (reverse front)) refl
