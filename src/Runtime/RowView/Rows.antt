-- ===== src/Runtime/RowView/Rows.antt =====
-- Each way of selecting rows gives the elements of the rows that were asked for.
use native.Mathlib.Nat.{add-mul, suc-mul, mul_assoc, mul_comm}
use t_llm.Prelude.{
  ℕ, zero, suc, ◌+◌, ◌-◌, ◌*◌, ◌<◌, ◌≡◌, sym, ap, subst, ◌∙◌, inl, inr, Bool, true, false, not,
  none, some, List, [], ◌∷◌, arith, if◌then◌else◌, Bool-cases, Option-cases, leb, length, ◌≤◌, ok,
  refl, length-range_from, range_from, get_elem?, All, ◌==◌, eq_of_==, list_eq, nat_eq,
}
use mathlib.Core.Option.{some-injective}
use t_llm.Prelude.Torch.Laws.{range_from-bound}
use t_llm.Runtime.RowView.{Strided, all_steps, last_of, regular_row_view, selected_rows}

all_steps-get :
    (step start : ℕ) (rest : List ℕ) (i row : ℕ)
    → all_steps step (start ∷ rest) ≡ true
    → get_elem? (start ∷ rest) i ≡ some row
    → row ≡ start + i * step
unfolding all_steps
all_steps-get step start rest zero row h e = ground arith
all_steps-get step start [] (suc i) row h e = cc
all_steps-get step start (next ∷ rest) (suc i) row h e =
    let here : next ≡ start + step = ground arith in
    let later = all_steps-get step next rest i row (ground arith) e in omega (arith, suc-mul i step)

last_of-bound :
    (step row : ℕ) (rest : List ℕ) (hi : ℕ)
    → all_steps step (row ∷ rest) ≡ true
    → last_of row rest < hi
    → All (λ r. r < hi) (row ∷ rest)
unfolding all_steps last_of
last_of-bound step row [] hi h k = (k, tt)
last_of-bound step row (next ∷ rest) hi h k =
    let later = last_of-bound step next rest hi (ground arith) k in
    let here : next ≡ row + step = ground arith in (omega (arith, later.0), later)

get-All :
    (P : ℕ → Type 0) (ids : List ℕ) (i row : ℕ) → All P ids → get_elem? ids i ≡ some row → P row
get-All P [] i row h e = absurd (cc)
get-All P (x ∷ ids) zero row h e = subst P (some-injective x row e) h.0
get-All P (x ∷ ids) (suc i) row h e = get-All P ids i row h.1 e

pub get-length : (ids : List ℕ) (i row : ℕ) → get_elem? ids i ≡ some row → i < length ids
get-length [] i row e = absurd (cc)
get-length (x ∷ ids) zero row e = omega arith
get-length (x ∷ ids) (suc i) row e = omega (arith, get-length ids i row e)

get-range_from : (s n i row : ℕ) → get_elem? (range_from s n) i ≡ some row → row ≡ s + i
get-range_from s zero i row e = absurd (cc)
get-range_from s (suc n) zero row e = ground arith
get-range_from s (suc n) (suc i) row e = omega (arith, get-range_from (suc s) n i row e)

strided_offset :
    (o start i step rs rest : ℕ)
    → o + start * rs + i * (rs * step) + rest ≡ o + (start + i * step) * rs + rest
strided_offset o start i step rs rest = omega (
  arith,
  add-mul start (i * step) rs,
  mul_assoc i step rs,
  ap (λ (n : ℕ). i * n) (mul_comm step rs),
)

module _ {A : Type 0} (strided : Strided A) where
  open strided use {
    Tensor, rows, columns, row_stride, column_stride, storage_offset, at_offset, element, slice,
    as_strided, index_select,
  }

  -- The elements of the tensor are those of the rows of `hidden` at the given places, in order.
  abbrev HasElements : Tensor → List ℕ → Tensor → Type 0
  HasElements hidden ids view =
      (i j row : ℕ)
      → get_elem? ids i ≡ some row
      → j < columns hidden
      → element view i j ≡ element hidden row j

  -- The tensor has the rows of `hidden` at the given places, in order, and no others.
  pub record HasRows (hidden : Tensor) (ids : List ℕ) (view : Tensor) : Type 0 where
    pub count : rows view ≡ length ids
    pub width : columns view ≡ columns hidden
    pub elements : HasElements hidden ids view

  as_strided-HasElements :
      (hidden : Tensor) (start step : ℕ) (rest : List ℕ)
      → all_steps step (start ∷ rest) ≡ true
      → HasElements hidden (start ∷ rest) (
          as_strided hidden
            (length (start ∷ rest))
            (columns hidden)
            (row_stride hidden * step)
            (column_stride hidden)
            (storage_offset hidden + start * row_stride hidden))
  as_strided-HasElements hidden start step rest h i j row e k =
      let same = all_steps-get step start rest i row h e in
      strided.element-as_strided hidden (length (start ∷ rest)) (columns hidden)
        (row_stride hidden * step) (column_stride hidden)
        (storage_offset hidden + start * row_stride hidden) i j (get-length (start ∷ rest) i row e)
        k
      ∙ ap (at_offset hidden) (
          strided_offset (storage_offset hidden) start i step (row_stride hidden)
            (j * column_stride hidden))
      ∙ ap
          (λ (r : ℕ).
            at_offset hidden
              (storage_offset hidden + r * row_stride hidden + j * column_stride hidden))
          (sym same)
      ∙ sym (strided.element-at_offset hidden row j)

  as_strided-HasRows :
      (hidden : Tensor) (start step : ℕ) (rest : List ℕ)
      → all_steps step (start ∷ rest) ≡ true
      → HasRows hidden (start ∷ rest) (
          as_strided hidden
            (length (start ∷ rest))
            (columns hidden)
            (row_stride hidden * step)
            (column_stride hidden)
            (storage_offset hidden + start * row_stride hidden))
  as_strided-HasRows hidden start step rest h = record {
    count = strided.rows-as_strided hidden _ _ _ _ _;
    width = strided.columns-as_strided hidden _ _ _ _ _;
    elements = as_strided-HasElements hidden start step rest h;
  }

  -- A slice has the rows of the run.
  slice-HasRows :
      (hidden : Tensor) (start n : ℕ)
      → start + n ≤ rows hidden
      → HasRows hidden (range_from start n) (slice hidden start (start + n))
  slice-HasRows hidden start n fits = record {
    count = strided.rows-slice hidden start n fits ∙ sym (length-range_from start n);
    width = strided.columns-slice hidden start (start + n);
    elements = λ i j row e k.
        let place = get-range_from start n i row e in
        let below : i < n =
          subst (λ (m : ℕ). i < m) (length-range_from start n)
            (get-length (range_from start n) i row e) in
        strided.element-slice hidden start (start + n) i j fits (omega arith)
        ∙ ap (λ (r : ℕ). element hidden r j) (sym place);
  }

  -- Where the regular row view is made, all given rows exist in the tensor, and the view has
  -- exactly these rows: as many as were given, as wide as the tensor, with the elements of the
  -- given rows in order.
  pub regular_row_view-HasRows :
      (hidden view : Tensor) (ids : List ℕ)
      → regular_row_view strided hidden ids ≡ some view
      → All (λ r. r < rows hidden) ids × HasRows hidden ids view
  unfolding regular_row_view
  regular_row_view-HasRows hidden view [] h = (
    tt,
    subst (HasRows hidden []) (some-injective _ view h) (slice-HasRows hidden 0 0 (omega arith)),
  )
  regular_row_view-HasRows hidden view (start ∷ []) h =
      elim (Bool-cases (leb (rows hidden) start)) [
        | inl out ↦ absurd (ground arith)
        | inr within ↦
            let made : slice hidden start (start + 1) ≡ view = ground arith in
            (
              (ground arith, tt),
              subst (HasRows hidden (start ∷ [])) made
                  (slice-HasRows hidden start 1 (ground arith)),
            )
      ]
  regular_row_view-HasRows hidden view (start ∷ next ∷ rest) h =
      let (rising, within, steps, made) =
        passed (leb next start) (leb (rows hidden) (last_of next rest))
          (all_steps (next - start) (start ∷ next ∷ rest)) _ view h in
      (
        last_of-bound (next - start) start (next ∷ rest) (rows hidden) steps (ground arith),
        subst (HasRows hidden (start ∷ next ∷ rest)) made
            (as_strided-HasRows hidden start (next - start) (next ∷ rest) steps),
      )
    where
      passed :
          (a b c : Bool) (t u : Tensor)
          → (if a then none else if b then none else if not c then none else some t) ≡ some u
          → (a ≡ false) × (b ≡ false) × (c ≡ true) × (t ≡ u)
      passed a b c t u e = (ground arith, ground arith, ground arith, ground arith)

  -- If all given rows exist in a tensor of two dimensions, selecting them, by a slice, a strided
  -- view or a copy, succeeds with a tensor of exactly these rows: as many as were given, as wide
  -- as the tensor, with the elements of the given rows in order.
  pub selected_rows-HasRows :
      (hidden : Tensor) (ids : List ℕ)
      → All (λ r. r < rows hidden) ids
      → (view : Tensor) × (selected_rows strided hidden ids ≡ ok view) × HasRows hidden ids view
  unfolding selected_rows
  selected_rows-HasRows hidden [] within =
      (slice hidden 0 0, refl, slice-HasRows hidden 0 0 (omega arith))
  selected_rows-HasRows hidden (first ∷ rest) within =
      let ids = first ∷ rest in
      elim (Bool-cases (ids == range_from 0 (length ids))) [
        | inl run ↦
            let same = eq_of_== ids (range_from 0 (length ids)) run in
            let bound =
              range_from-bound 0 (length rest) (rows hidden)
                (subst (All (λ r. r < rows hidden)) same within) in
            (
              slice hidden 0 (length ids),
              rw (run, selected_rows) refl,
              subst (λ (l : List ℕ). HasRows hidden l (slice hidden 0 (length ids))) (sym same)
                  (subst (λ (n : ℕ). HasRows hidden (range_from 0 (length ids)) (slice hidden 0 n))
                    (omega arith) (slice-HasRows hidden 0 (length ids) bound)),
            )
        | inr other ↦ elim (Option-cases (regular_row_view strided hidden ids)) [
          | inl irregular ↦
              let copied = strided.index_select_lem hidden ids within in
              let copy : Tensor = copied.0 in
              (
                copy,
                rw (other, selected_rows) (rw (irregular, selected_rows) copied.1),
                record {
                  count = copied.2;
                  width = copied.3;
                  elements = λ i j row e k. copied.4 i j row e;
                },
              )
          | inr regular ↦
              let view : Tensor = regular.0 in
              (
                view,
                rw (other, selected_rows) (rw (regular.1, selected_rows) refl),
                (regular_row_view-HasRows hidden view ids regular.1).1,
              )
        ]
      ]
