-- ===== src/Prelude/Torch/Laws.antt =====
-- Facts about `gather?`, the contents of a selection of rows.
use Prim.Native.Nat.{ℕ, zero, suc, ◌+◌, ◌≤◌, ◌<◌}
use mathlib.Core.Path.{◌≡◌, refl, ap, ◌∙◌}
use mathlib.Core.Logic.{inl, inr}
use mathlib.Core.List.{List, [], ◌∷◌, map}
use mathlib.Core.Option.{some}
use native.Mathlib.Omega.{arith}
use t_llm.Prelude.Tests.{Option-cases}
use t_llm.Prelude.Int.{ℤ, pos}
use t_llm.Prelude.Lists.{All, length, take, drop, get_elem?, range_from}
use t_llm.Prelude.Torch.{gather?, cons?}

module _ {ℓ} {A : Type ℓ} where
  pub get_elem?_of_lt : (xs : List A) (i : ℕ) → i < length xs → (x : A) × (get_elem? xs i ≡ some x)
  get_elem?_of_lt [] i h = elim h [ ]
  get_elem?_of_lt (x ∷ xs) zero h = (x, refl)
  get_elem?_of_lt (x ∷ xs) (suc i) h = get_elem?_of_lt xs i (omega arith)

  -- Places that all exist can be gathered.
  pub gather?_total :
      (xs : List A) (is : List ℕ)
      → All (λ i. i < length xs) is
      → (ys : List A) × (gather? xs (map pos is) ≡ some ys)
  gather?_total xs [] h = ([], refl)
  gather?_total xs (i ∷ is) h =
      let (y, e) = get_elem?_of_lt xs i h.0 in
      let (ys, f) = gather?_total xs is h.1 in (y ∷ ys, rw (e, f))

  pub length-gather? :
      (xs : List A) (is : List ℤ) (ys : List A) → gather? xs is ≡ some ys → length ys ≡ length is
  length-gather? xs [] ys h = ground arith
  length-gather? xs (i ∷ is) ys h = elim (Option-cases (gather? xs is)) [
    | inl e ↦ ground arith
    | inr (zs, e) ↦ ground (arith, length-gather? xs is zs e)
  ]

  gather?-suc :
      (x : A) (xs : List A) (s n : ℕ)
      → gather? (x ∷ xs) (map pos (range_from (suc s) n)) ≡ gather? xs (map pos (range_from s n))
  gather?-suc x xs s zero = refl
  gather?-suc x xs s (suc n) = ap (cons? (get_elem? xs s)) (gather?-suc x xs (suc s) n)

  -- A run of consecutive places is a slice.
  pub gather?-range_from :
      (xs : List A) (s n : ℕ)
      → s + n ≤ length xs
      → gather? xs (map pos (range_from s n)) ≡ some (take n (drop s xs))
  gather?-range_from xs s zero h = refl
  gather?-range_from [] s (suc n) h = absurd (omega arith)
  gather?-range_from (x ∷ xs) zero (suc n) h =
      ap (cons? (some x)) (gather?-suc x xs 0 n ∙ gather?-range_from xs 0 n (omega arith))
  gather?-range_from (x ∷ xs) (suc s) (suc n) h =
      gather?-suc x xs s (suc n) ∙ gather?-range_from xs s (suc n) (omega arith)

pub range_from-bound : (s n m : ℕ) → All (λ i. i < m) (range_from s (suc n)) → s + suc n ≤ m
range_from-bound s zero m h = omega arith
range_from-bound s (suc n) m h = omega (arith, range_from-bound (suc s) n m h.1)
