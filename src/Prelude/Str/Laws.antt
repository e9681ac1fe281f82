-- ===== src/Prelude/Str/Laws.antt =====
-- Laws of the text functions on texts whose characters all pass a test.
use mathlib.Core.List.{reverse, reverse-cons, reverse-reverse}
use t_llm.Prelude.Lists.{all}
use Prim.Native.Nat.{ℕ}
use mathlib.Core.Path.{◌≡◌, refl}
use mathlib.Core.Bool.{Bool, true, not}
use mathlib.Core.List.{[], ◌∷◌, ◌++◌}
use native.Mathlib.Omega.{arith}
use t_llm.Prelude.Str.{Str, Every, is_space, is_digit, lstrip_space, strip}

pub Every-append : (p : ℕ → Bool) (s t : Str) → Every p s → Every p t → Every p (s ++ t)
Every-append p [] t h k = k
Every-append p (c ∷ s) t h k = (h.0, Every-append p s t h.1 k)

pub Every-reverse : (p : ℕ → Bool) (s : Str) → Every p s → Every p (reverse s)
Every-reverse p [] h = tt
Every-reverse p (c ∷ s) h =
    rw reverse-cons (Every-append p (reverse s) (c ∷ []) (Every-reverse p s h.1) (h.0, tt))

pub Every-map :
    {p q : ℕ → Bool} (s : Str) → ((c : ℕ) → p c ≡ true → q c ≡ true) → Every p s → Every q s
Every-map [] f h = tt
Every-map (c ∷ s) f h = (f c h.0, Every-map s f h.1)

pub all_of_Every : (p : ℕ → Bool) (s : Str) → Every p s → all p s ≡ true
all_of_Every p [] h = refl
all_of_Every p (c ∷ s) h = ground (arith, all_of_Every p s)

abbrev pub is_solid : ℕ → Bool
is_solid c = not (is_space c)

lstrip_space_solid : (s : Str) → Every is_solid s → lstrip_space s ≡ s
unfolding lstrip_space
lstrip_space_solid [] h = refl
lstrip_space_solid (c ∷ s) h = ground arith

-- A text with no whitespace is its own strip.
pub strip_solid : (s : Str) → Every is_solid s → strip s ≡ s
unfolding strip
strip_solid s h =
    rw (lstrip_space_solid s h)
      (rw (lstrip_space_solid (reverse s) (Every-reverse is_solid s h)) (reverse-reverse s))

pub digit-is_solid : (c : ℕ) → is_digit c ≡ true → is_solid c ≡ true
digit-is_solid c h = ground arith
