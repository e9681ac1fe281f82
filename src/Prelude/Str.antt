-- ===== src/Prelude/Str.antt =====
-- Python's `str` as the list of its code points, which are taken to be ASCII.
pub mod Laws
pub mod Strip
use Prim.Native.Nat.{ℕ, suc, ◌+◌, ◌-◌, ◌*◌, ◌≤◌}
use Prim.Native.Char.{code}
use Prim.Native.String.{String}
use mathlib.Core.Bool.{Bool, true, false, ◌&&◌, ◌||◌}
use mathlib.Core.Option.{Option, none, some}
use mathlib.Core.List.{List, [], ◌∷◌, ◌++◌, reverse}
use mathlib.Core.Path.{◌≡◌, refl}
use native.Mathlib.Omega.{arith}
use mathlib.Core.Logic.{inl, inr}
use t_llm.Prelude.Tests.{leb, eqb, Option-cases, if◌then◌else◌}
use t_llm.Prelude.Lists.{all, length}
use t_llm.Prelude.Outcome.{Result, ok, err, value_error}
use t_llm.Prelude.Int.{ℤ, pos, neg}

abbrev pub Str : Type 0
Str = List ℕ

abbrev pub codes : String → Str
codes String.[] = []
codes (String.◌∷◌ c s) = code c ∷ codes s

-- `str.isspace` of one character
abbrev pub is_space : ℕ → Bool
is_space c = (leb 9 c && leb c 13) || (leb 28 c && leb c 32)

-- `str.isdigit` of one character
abbrev pub is_digit : ℕ → Bool
is_digit c = leb b'0' c && leb c b'9'

-- `s.isdigit()`: false on the empty text
unfoldable pub isdigit : Str → Bool
isdigit [] = false
isdigit (c ∷ s) = is_digit c && all is_digit s

unfoldable pub lstrip_space : Str → Str
lstrip_space [] = []
lstrip_space (c ∷ s) = if is_space c then lstrip_space s else c ∷ s

-- `s.strip()`
unfoldable pub strip : Str → Str
unfolding lstrip_space
strip s = reverse (lstrip_space (reverse (lstrip_space s)))

-- `s.lstrip(c)` for one character
unfoldable pub lstrip : ℕ → Str → Str
lstrip c [] = []
lstrip c (d ∷ s) = if eqb d c then lstrip c s else d ∷ s

-- The texts before and after the first `c`, as `find` and slicing give them.
unfoldable pub break_at : ℕ → Str → Option (Str × Str)
break_at c [] = none
break_at c (d ∷ s) =
    let rest = break_at c s in
    if eqb d c then some ([], s) else elim rest [ none ↦ none | some (a, b) ↦ some (d ∷ a, b) ]

-- `s.startswith(prefix)`
unfoldable pub starts_with : Str → Str → Bool
starts_with [] s = true
starts_with (p ∷ ps) [] = false
starts_with (p ∷ ps) (c ∷ s) = eqb p c && starts_with ps s

abbrev pub digits_value : ℕ → Str → ℕ
digits_value n [] = n
digits_value n (c ∷ s) = digits_value (n * 10 + (c - b'0')) s

-- `int(s)` of a text of dashes and digits.
unfoldable pub int_of : Str → Result ℤ
unfolding isdigit
int_of [] = err value_error
int_of (c ∷ s) =
    if eqb c b'-'
    then (if isdigit s then ok (neg (pos (digits_value 0 s))) else err value_error)
    else (if isdigit (c ∷ s) then ok (pos (digits_value 0 (c ∷ s))) else err value_error)

-- `s.split(c)` for one character: at least one part
abbrev extend_head : ℕ → List Str → List Str
extend_head c [] = []
extend_head c (p ∷ ps) = (c ∷ p) ∷ ps

unfoldable pub split : ℕ → Str → List Str
split sep [] = [] ∷ []
split sep (c ∷ s) = let parts = split sep s in if eqb c sep then [] ∷ parts else extend_head c parts

-- `sep.join(parts)` for one character
unfoldable pub join : ℕ → List Str → Str
join sep [] = []
join sep (p ∷ []) = p
join sep (p ∷ q ∷ ps) = p ++ (sep ∷ join sep (q ∷ ps))

-- Every character passes the test.
abbrev pub Every : (ℕ → Bool) → Str → Type 0
Every p [] = Unit
Every p (c ∷ s) = (p c ≡ true) × Every p s
