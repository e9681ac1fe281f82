-- ===== src/Runtime/RowView.antt =====
-- `_regular_row_view` of tllm/runtime/ports/residual_bundle_dispatch.py, and the choice between a
-- slice, a strided view and a copy in `_entry_for_flow_read`. Row numbers are positions of rows, so
-- they are not negative.
pub mod Rows
use t_llm.Prelude.{
  ℕ, zero, suc, ◌+◌, ◌-◌, ◌*◌, ◌<◌, ◌≤◌, ◌≡◌, Bool, true, false, not, ◌&&◌, Option, none, some,
  List, [], ◌∷◌, if◌then◌else◌, leb, eqb, length, range_from, get_elem?, All, Result, ok, ◌==◌,
  list_eq, nat_eq,
}

-- Tensors of two dimensions with PyTorch's view operations: `at_offset t n` is the element of the
-- storage of `t` at offset `n`, and `element t i j` the element of `t` in row `i` and column `j`.
pub record Strided (A : Type 0) : Type 1 where
  pub Tensor : Type 0
  pub rows : Tensor → ℕ
  pub columns : Tensor → ℕ
  pub row_stride : Tensor → ℕ
  pub column_stride : Tensor → ℕ
  pub storage_offset : Tensor → ℕ
  pub at_offset : Tensor → ℕ → A
  pub element : Tensor → ℕ → ℕ → A
  -- `t[start:stop]`
  pub slice : Tensor → ℕ → ℕ → Tensor
  -- `t.index_select(0, ids)`, which raises on a row that is not there
  pub index_select : Tensor → List ℕ → Result Tensor
  -- `t.as_strided((n, c), (r, s), offset)`
  pub as_strided : Tensor → (n c r s offset : ℕ) → Tensor
  pub element-at_offset :
      (t : Tensor) (i j : ℕ)
      → element t i j ≡ at_offset t (storage_offset t + i * row_stride t + j * column_stride t)
  pub element-as_strided :
      (t : Tensor) (n c r s offset i j : ℕ)
      → i < n
      → j < c
      → element (as_strided t n c r s offset) i j ≡ at_offset t (offset + i * r + j * s)
  pub element-slice :
      (t : Tensor) (start stop i j : ℕ)
      → stop ≤ rows t
      → start + i < stop
      → element (slice t start stop) i j ≡ element t (start + i) j
  pub index_select_lem :
      (t : Tensor) (ids : List ℕ)
      → All (λ r. r < rows t) ids
      → (copy : Tensor) × (index_select t ids ≡ ok copy)
        × (rows copy ≡ length ids)
        × (columns copy ≡ columns t)
        × ((i j row : ℕ) → get_elem? ids i ≡ some row → element copy i j ≡ element t row j)
  pub rows-slice :
      (t : Tensor) (start n : ℕ) → start + n ≤ rows t → rows (slice t start (start + n)) ≡ n
  pub columns-slice : (t : Tensor) (start stop : ℕ) → columns (slice t start stop) ≡ columns t
  pub rows-as_strided : (t : Tensor) (n c r s offset : ℕ) → rows (as_strided t n c r s offset) ≡ n
  pub columns-as_strided :
      (t : Tensor) (n c r s offset : ℕ) → columns (as_strided t n c r s offset) ≡ c

-- The test of the loop over `zip(row_ids, row_ids[1:])`; `int(right) - int(left) != step` for a
-- `step` that is positive.
unfoldable pub all_steps : ℕ → List ℕ → Bool
all_steps step [] = true
all_steps step (left ∷ []) = true
all_steps step (left ∷ right ∷ rest) =
    let later = all_steps step (right ∷ rest) in eqb right (left + step) && later

unfoldable pub last_of : ℕ → List ℕ → ℕ
last_of row [] = row
last_of row (next ∷ rest) = last_of next rest

module _ {A : Type 0} (strided : Strided A) where
  open strided use {
    Tensor, rows, columns, row_stride, column_stride, storage_offset, slice, index_select,
    as_strided,
  }

  unfoldable pub regular_row_view : Tensor → List ℕ → Option Tensor
  unfolding all_steps last_of
  regular_row_view hidden [] = some (slice hidden 0 0)
  regular_row_view hidden (start ∷ []) =
      if leb (rows hidden) start then none else some (slice hidden start (start + 1))
  regular_row_view hidden (start ∷ next ∷ rest) =
      let row_ids = start ∷ next ∷ rest in
      let step = next - start in
      if leb next start
      then none
      else if leb (rows hidden) (last_of next rest)
      then none
      else if not (all_steps step row_ids)
      then none
      else some (
          as_strided hidden (length row_ids) (columns hidden) (row_stride hidden * step)
            (column_stride hidden) (storage_offset hidden + start * row_stride hidden))

  -- The last branches of `_entry_for_flow_read`, for given `row_ids`.
  unfoldable pub selected_rows : Tensor → List ℕ → Result Tensor
  selected_rows hidden [] = ok (slice hidden 0 0)
  selected_rows hidden (first ∷ rest) =
      let row_ids = first ∷ rest in
      if row_ids == range_from 0 (length row_ids)
      then ok (slice hidden 0 (length row_ids))
      else elim (regular_row_view hidden row_ids) [
        | some view ↦ ok view
        | none ↦ index_select hidden row_ids
      ]
