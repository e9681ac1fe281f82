-- ===== src/Tests/RowView.antt =====
-- Tensors as functions on the offsets of a storage.
use native.Mathlib.Nat.{
  add-mul, mod-eq_of_lt, add-mul-mod_self_right, add-mul-div_right, div-eq_of_lt,
}
use t_llm.Prelude.{
  ℕ, ◌+◌, ◌-◌, ◌*◌, ◌/◌, ◌%◌, ◌<◌, ◌≡◌, refl, ap, ◌∙◌, Option, none, some, List, [], ◌∷◌, arith,
  length, get_elem?, All, true, all, ltb, if◌then◌else◌, ok, err, index_error, list_eq, nat_eq,
}
use t_llm.Runtime.RowView.{Strided, regular_row_view, selected_rows, all_steps, last_of}
use t_llm.Runtime.RowView.Rows.{
  HasRows, get-length, regular_row_view-HasRows, selected_rows-HasRows,
}

pub record Stored : Type 0 where
  pub rows : ℕ
  pub columns : ℕ
  pub row_stride : ℕ
  pub column_stride : ℕ
  pub offset : ℕ
  pub storage : ℕ → ℕ

abbrev stored_element : Stored → ℕ → ℕ → ℕ
stored_element t i j = t.storage (t.offset + i * t.row_stride + j * t.column_stride)

abbrev stored_slice : Stored → ℕ → ℕ → Stored
stored_slice t start stop = record t {
  rows = stop - start;
  offset = t.offset + start * t.row_stride;
}

abbrev chosen : Stored → Option ℕ → ℕ → ℕ
chosen t none j = 0
chosen t (some row) j = stored_element t row j

-- The copy is stored by columns.
abbrev stored_select : Stored → List ℕ → Stored
stored_select t ids =
    let k = length ids in
    record {
      rows = k;
      columns = t.columns;
      row_stride = 1;
      column_stride = k;
      offset = 0;
      storage = λ n. chosen t (get_elem? ids (n % k)) (n / k);
    }

pub slice_lem :
    (t : Stored) (start stop i j : ℕ)
    → stored_element (stored_slice t start stop) i j ≡ stored_element t (start + i) j
slice_lem t start stop i j = ap t.storage (omega (arith, add-mul start i t.row_stride))

pub select_lem :
    (t : Stored) (ids : List ℕ) (i j row : ℕ)
    → get_elem? ids i ≡ some row
    → stored_element (stored_select t ids) i j ≡ stored_element t row j
select_lem t ids i j row e =
    let k = length ids in
    let bound = get-length ids i row e in
    let place : (0 + i * 1 + j * k) % k ≡ i =
      ap (λ (n : ℕ). n % k) (omega arith) ∙ add-mul-mod_self_right i j k ∙ mod-eq_of_lt bound in
    let column : (0 + i * 1 + j * k) / k ≡ j =
      ap (λ (n : ℕ). n / k) (omega arith)
      ∙ add-mul-div_right i j (omega arith)
      ∙ ap (λ (n : ℕ). n + j) (div-eq_of_lt bound)
      ∙ omega arith in
    rw place (rw column (rw e refl))

pub all_below : (n : ℕ) (ids : List ℕ) → All (λ r. r < n) ids → all (λ r. ltb r n) ids ≡ true
all_below n [] h = refl
all_below n (x ∷ ids) h = ground (arith, all_below n ids h.1)

abbrev pub stored_tensors : Strided ℕ
stored_tensors = record {
  Tensor = Stored;
  rows = λ t. t.rows;
  columns = λ t. t.columns;
  row_stride = λ t. t.row_stride;
  column_stride = λ t. t.column_stride;
  storage_offset = λ t. t.offset;
  at_offset = λ t n. t.storage n;
  element = stored_element;
  slice = stored_slice;
  index_select =
      λ t ids. if all (λ r. ltb r t.rows) ids then ok (stored_select t ids) else err index_error;
  as_strided = λ t n c r s offset. record t {
    rows = n;
    columns = c;
    row_stride = r;
    column_stride = s;
    offset = offset;
  };
  element-at_offset = λ t i j. refl;
  element-as_strided = λ t n c r s offset i j h k. refl;
  element-slice = λ t start stop i j h k. slice_lem t start stop i j;
  index_select_lem = λ t ids h. (
    stored_select t ids,
    rw (all_below t.rows ids h) refl,
    refl,
    refl,
    λ i j row e. select_lem t ids i j row e,
  );
  rows-slice = λ t start n h. omega arith;
  columns-slice = λ t start stop. refl;
  rows-as_strided = λ t n c r s offset. refl;
  columns-as_strided = λ t n c r s offset. refl;
}

-- Five rows of two columns.
abbrev hidden : Stored
hidden = record {
  rows = 5;
  columns = 2;
  row_stride = 2;
  column_stride = 1;
  offset = 3;
  storage = λ n. n * 10;
}

abbrev every_other : Stored
every_other = record {
  rows = 2;
  columns = 2;
  row_stride = 4;
  column_stride = 1;
  offset = 5;
  storage = λ n. n * 10;
}

view_lem : regular_row_view stored_tensors hidden (1 ∷ 3 ∷ []) ≡ some every_other
unfolding regular_row_view all_steps last_of
view_lem = refl

regular_row_view-HasRows_example :
    All (λ r. r < 5) (1 ∷ 3 ∷ []) × HasRows stored_tensors hidden (1 ∷ 3 ∷ []) every_other
regular_row_view-HasRows_example =
    regular_row_view-HasRows stored_tensors hidden every_other (1 ∷ 3 ∷ []) view_lem

selected_rows-HasRows_example :
    (view : Stored) × (selected_rows stored_tensors hidden (0 ∷ 1 ∷ 4 ∷ []) ≡ ok view)
    × HasRows stored_tensors hidden (0 ∷ 1 ∷ 4 ∷ []) view
selected_rows-HasRows_example =
    selected_rows-HasRows stored_tensors hidden (0 ∷ 1 ∷ 4 ∷ [])
      (omega arith, (omega arith, (omega arith, tt)))
