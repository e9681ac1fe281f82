-- ===== src/Prelude/Int.antt =====
-- Signed integers over the native numbers, under the library's names.
use Prim.Native.Nat.{ℕ, suc, ◌+◌, ◌-◌, ◌≤◌}
use mathlib.Core.Path.{ap}
use mathlib.Core.Logic.{dite}
use mathlib.Core.Bool.{Bool}
use native.Mathlib.Decide.{ℕ_discrete}
use t_llm.Prelude.Tests.{ltb, leb, if◌then◌else◌}
use t_llm.Prelude.Equality.{Eq}

-- `negsuc n` is -(n + 1).
pub data ℤ : Type 0 where
  pos : ℕ → ℤ
  negsuc : ℕ → ℤ

abbrev pub pos_part : ℤ → ℕ
pos_part (pos n) = n
pos_part (negsuc n) = 0

abbrev pub neg_part : ℤ → ℕ
neg_part (pos n) = 0
neg_part (negsuc n) = suc n

abbrev pub sub_ℕ : ℕ → ℕ → ℤ
sub_ℕ a b = if leb b a then pos (a - b) else negsuc (b - a - 1)

abbrev pub neg : ℤ → ℤ
neg a = sub_ℕ (neg_part a) (pos_part a)

infixl 65 ◌+ℤ◌
infix 50 ◌≤ℤ◌
abbrev pub ◌+ℤ◌ : ℤ → ℤ → ℤ
a +ℤ b = sub_ℕ (pos_part a + pos_part b) (neg_part a + neg_part b)

abbrev pub ◌≤ℤ◌ : ℤ → ℤ → Type 0
a ≤ℤ b = pos_part a + neg_part b ≤ pos_part b + neg_part a

abbrev pub ltb_ℤ : ℤ → ℤ → Bool
ltb_ℤ a b = ltb (pos_part a + neg_part b) (pos_part b + neg_part a)

abbrev pub is_negative : ℤ → Bool
is_negative a = ltb 0 (neg_part a)

-- `max(0, a)`
abbrev pub clamp_zero : ℤ → ℕ
clamp_zero = pos_part

int_dec : Discrete ℤ
int_dec (pos a) (pos b) = dite (ℕ_discrete a b) (λ p. yes (ap pos p)) (λ n. no (λ p. n (cc)))
int_dec (pos a) (negsuc b) = no (λ p. cc)
int_dec (negsuc a) (pos b) = no (λ p. cc)
int_dec (negsuc a) (negsuc b) =
    dite (ℕ_discrete a b) (λ p. yes (ap negsuc p)) (λ n. no (λ p. n (cc)))

instance unfoldable pub int_eq : Eq ℤ
unfolding int_dec ℕ_discrete
int_eq = record { dec = int_dec }
