-- ===== src/Runtime/Compaction/Rows.antt =====
-- Which rows the compaction keeps, and what it reads at them.
use t_llm.Prelude.{
  ℕ, zero, suc, ◌+◌, ◌≤◌, ◌<◌, ◌≡◌, refl, ap, ◌∙◌, inl, inr, ◌||◌, some, List, [], ◌∷◌, arith,
  Bool-cases, length, take, drop, get_elem?, range_from, contains, All, All-map, ok, list_eq,
  nat_eq,
}
use t_llm.Prelude.Torch.Laws.{get_elem?_of_lt}
use t_llm.Prelude.Int.{ℤ, is_negative, int_eq}
use t_llm.Runtime.RowBatch.{items}
use t_llm.Runtime.Compaction.{kept_rows}

-- A row from `lo` on and below `hi`
abbrev pub IsWithin : (lo hi row : ℕ) → Type 0
IsWithin lo hi row = (lo ≤ row) × (row < hi)

pub kept_rows-IsWithin :
    (row hi : ℕ) (seen prompts : List ℤ)
    → row + length prompts ≤ hi
    → All (IsWithin row hi) (kept_rows row seen prompts)
unfolding kept_rows
kept_rows-IsWithin row hi seen [] h = tt
kept_rows-IsWithin row hi seen (p ∷ ps) h = elim (Bool-cases (is_negative p || contains seen p)) [
  | inl skip ↦
      rw (skip, kept_rows)
        (All-map (kept_rows (suc row) seen ps) (λ r w. (omega arith, w.1))
          (kept_rows-IsWithin (suc row) hi seen ps (omega arith)))
  | inr keep ↦
      rw (keep, kept_rows)
        (
          (omega arith, omega arith),
          All-map (kept_rows (suc row) (p ∷ seen) ps) (λ r w. (omega arith, w.1))
              (kept_rows-IsWithin (suc row) hi (p ∷ seen) ps (omega arith)),
        )
]

module _ {ℓ} {A : Type ℓ} where
  pub items_total :
      (xs : List A) (lo : ℕ) (rows : List ℕ)
      → All (IsWithin lo (length xs)) rows
      → (ys : List A) × (items xs rows ≡ ok ys) × (length ys ≡ length rows)
  unfolding items
  items_total xs lo [] h = ([], refl, refl)
  items_total xs lo (row ∷ rows) h =
      let (x, e) = get_elem?_of_lt xs row h.0.1 in
      let (ys, es, counted) = items_total xs lo rows h.1 in (x ∷ ys, ground arith, omega arith)

  get_elem?-take : (xs : List A) (n i : ℕ) → i < n → get_elem? (take n xs) i ≡ get_elem? xs i
  get_elem?-take xs zero i h = absurd (omega arith)
  get_elem?-take [] (suc n) i h = refl
  get_elem?-take (x ∷ xs) (suc n) zero h = refl
  get_elem?-take (x ∷ xs) (suc n) (suc i) h = get_elem?-take xs n i (omega arith)

  -- Rows below `n` are read from the first `n` elements.
  pub items-take :
      (xs : List A) (n lo : ℕ) (rows : List ℕ)
      → All (IsWithin lo n) rows
      → items (take n xs) rows ≡ items xs rows
  unfolding items
  items-take xs n lo [] h = refl
  items-take xs n lo (row ∷ rows) h =
      ground (arith, get_elem?-take xs n row h.0.1, items-take xs n lo rows h.1)

  pub drop-next :
      (xs : List A) (i : ℕ)
      → i < length xs
      → (x : A) × (get_elem? xs i ≡ some x) × (drop i xs ≡ x ∷ drop (suc i) xs)
  drop-next [] i h = absurd (omega arith)
  drop-next (x ∷ xs) zero h = (x, refl, refl)
  drop-next (x ∷ xs) (suc i) h = drop-next xs i (omega arith)

  pub items-range_from :
      (xs : List A) (s n : ℕ)
      → s + n ≤ length xs
      → items xs (range_from s n) ≡ ok (take n (drop s xs))
  unfolding items
  items-range_from xs s zero h = refl
  items-range_from xs s (suc n) h =
      let (x, e, d) = drop-next xs s (omega arith) in
      ground (arith, items-range_from xs (suc s) n (omega arith))

get_elem?-range_from : (s n i : ℕ) → i < n → get_elem? (range_from s n) i ≡ some (s + i)
get_elem?-range_from s zero i h = absurd (omega arith)
get_elem?-range_from s (suc n) zero h = ap some (omega arith)
get_elem?-range_from s (suc n) (suc i) h =
    get_elem?-range_from (suc s) n i (omega arith) ∙ ap some (omega arith)

-- The rows of a whole batch are their own numbers.
pub items-own_rows :
    (n lo : ℕ) (rows : List ℕ) → All (IsWithin lo n) rows → items (range_from 0 n) rows ≡ ok rows
unfolding items
items-own_rows n lo [] h = refl
items-own_rows n lo (row ∷ rows) h =
    ground (arith, get_elem?-range_from 0 n row h.0.1, items-own_rows n lo rows h.1)
