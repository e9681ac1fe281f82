-- ===== src/Prelude/Torch.antt =====
-- What the program relies on of PyTorch's tensor indexing. The contents of a tensor are the list of
-- its rows (its elements, in one dimension); a slice `t[:n]` is `take n`.
pub mod Laws
use Prim.Native.Nat.{ℕ, ◌+◌, ◌≤◌}
use mathlib.Core.Path.{◌≡◌}
use mathlib.Core.List.{List, [], ◌∷◌}
use mathlib.Core.Option.{Option, none, some}
use mathlib.Core.Bool.{true}
use t_llm.Prelude.Equality.{contains}
use t_llm.Prelude.Int.{ℤ, pos, negsuc, ◌≤ℤ◌, int_eq}
use t_llm.Prelude.Lists.{All, length, take, drop, get_elem?}

-- The row at a place; a negative place is none.
abbrev pub row_at {ℓ} : {A : Type ℓ} → List A → ℤ → Option A
row_at xs (pos n) = get_elem? xs n
row_at xs (negsuc n) = none

abbrev pub cons? {ℓ} : {A : Type ℓ} → Option A → Option (List A) → Option (List A)
cons? none ys = none
cons? (some y) none = none
cons? (some y) (some ys) = some (y ∷ ys)

-- The rows at the given places, if every place exists.
abbrev pub gather? {ℓ} : {A : Type ℓ} → List A → List ℤ → Option (List A)
gather? xs [] = some []
gather? xs (i ∷ is) = cons? (row_at xs i) (gather? xs is)

-- `torch.narrow` and `torch.index_select` along dimension 0, as their documentation states them.
pub record Indexing (A : Type 0) : Type 0 where
  pub narrow : List A → ℕ → ℕ → List A
  pub index_select : List A → List ℤ → List A
  pub narrow_lem :
      (xs : List A) (start n : ℕ)
      → start + n ≤ length xs
      → narrow xs start n ≡ take n (drop start xs)
  pub index_select_lem :
      (xs : List A) (is : List ℤ) (ys : List A) → gather? xs is ≡ some ys → index_select xs is ≡ ys

-- `torch.min` and `torch.max` of a tensor with at least one element.
pub record Extremes : Type 0 where
  pub min_of : List ℤ → ℤ
  pub max_of : List ℤ → ℤ
  pub min_lower : (x : ℤ) (xs : List ℤ) → All (λ y. min_of (x ∷ xs) ≤ℤ y) (x ∷ xs)
  pub max_upper : (x : ℤ) (xs : List ℤ) → All (λ y. y ≤ℤ max_of (x ∷ xs)) (x ∷ xs)
  pub min_in : (x : ℤ) (xs : List ℤ) → contains (x ∷ xs) (min_of (x ∷ xs)) ≡ true
  pub max_in : (x : ℤ) (xs : List ℤ) → contains (x ∷ xs) (max_of (x ∷ xs)) ≡ true

-- The values that the program writes into a mask, and the product of a row with one of them.
pub data MaskValue : Type 0 where
  zeroed filled : MaskValue

pub record Masking (Row : Type 0) : Type 0 where
  pub mul : Row → MaskValue → Row
  pub mul-filled : (r : Row) → mul r filled ≡ r
