-- ===== src/Runtime/Compaction/Equivalence.antt =====
-- The compaction that reads the runtime directly against the one of the full view of its rows.
use t_llm.Prelude.{
  ℕ, zero, suc, ◌+◌, ◌≤◌, ◌≡◌, refl, sym, ap, ◌∙◌, inl, inr, true, not, ◌||◌, List, [], ◌∷◌, arith,
  Bool-cases, ltb, eqb, length, length-take, take-length, length-range_from, take, drop, range_from,
  contains, All, Result, ok, err, ◌>>=◌, runtime_error, metadata_inconsistent, list_eq, nat_eq,
}
use t_llm.Prelude.Int.{ℤ, is_negative, int_eq}
use t_llm.Prelude.Str.{codes}
use t_llm.Runtime.RowBatch.{
  RowBatchMeta, make_batch, DecodeRuntime, active_request_prompt_sample_metadata, items,
  decode_phase,
}
use t_llm.Runtime.Compaction.{
  request_meta_view, kept_rows, compact_first_per_prompt, Kept, kept_from_runtime,
  compact_first_per_prompt_from_runtime,
}
use t_llm.Runtime.Compaction.Rows.{
  IsWithin, kept_rows-IsWithin, items_total, items-take, drop-next, items-range_from,
  items-own_rows,
}

-- Whether the runtime's metadata covers the first `n` rows.
pub record IsCovered (runtime : DecodeRuntime) (n : ℕ) : Type 0 where
  pub requests : n ≤ length runtime.decode_request_ids
  pub prompts : n ≤ length runtime.decode_prompt_idxs
  pub samples : n ≤ length runtime.decode_sample_idxs

-- What the loop keeps, from the numbers of the kept rows.
abbrev kept_at : DecodeRuntime → List ℕ → Result Kept
kept_at runtime rows = do
  request_ids ← items runtime.decode_request_ids rows
  prompt_idxs ← items runtime.decode_prompt_idxs rows
  sample_idxs ← items runtime.decode_sample_idxs rows
  ok (record {
    keep = rows;
    compact_request_ids = request_ids;
    compact_prompt_idxs = prompt_idxs;
    compact_sample_idxs = sample_idxs;
  })

-- The rows that a loop from `row` on keeps are rows of a list that is long enough.
kept_rows-IsWithin_of_take :
    (row left hi : ℕ) (seen prompts : List ℤ)
    → row + left ≤ hi
    → All (IsWithin row hi) (kept_rows row seen (take left prompts))
kept_rows-IsWithin_of_take row left hi seen prompts h =
    kept_rows-IsWithin row hi seen (take left prompts) (omega (arith, length-take left prompts))

kept_from_runtime_lem :
    (runtime : DecodeRuntime) (left row : ℕ) (seen : List ℤ)
    → IsCovered runtime (row + left)
    → kept_from_runtime runtime left row seen
      ≡ kept_at runtime (kept_rows row seen (take left (drop row runtime.decode_prompt_idxs)))
unfolding kept_from_runtime kept_rows items
kept_from_runtime_lem runtime zero row seen c = refl
kept_from_runtime_lem runtime (suc left) row seen c =
    let (p, e, d) = drop-next runtime.decode_prompt_idxs row (omega arith) in
    let next : IsCovered runtime (suc row + left) = record {
      requests = omega arith;
      prompts = omega arith;
      samples = omega arith;
    } in
    elim (Bool-cases (is_negative p || contains seen p)) [
      | inl skip ↦ ground (arith, kept_from_runtime_lem runtime left (suc row) seen next)
      | inr keep ↦
          let later = drop (suc row) runtime.decode_prompt_idxs in
          let rows = kept_rows (suc row) (p ∷ seen) (take left later) in
          let (request_id, f, _) = drop-next runtime.decode_request_ids row (omega arith) in
          let (sample_idx, g, _) = drop-next runtime.decode_sample_idxs row (omega arith) in
          let (is, ei, _) = items_total runtime.decode_request_ids (suc row) rows (
            kept_rows-IsWithin_of_take (suc row) left (length runtime.decode_request_ids) (p ∷ seen)
              later (omega arith)) in
          let (ps, ep, _) = items_total runtime.decode_prompt_idxs (suc row) rows (
            kept_rows-IsWithin_of_take (suc row) left (length runtime.decode_prompt_idxs) (p ∷ seen)
              later (omega arith)) in
          let (ss, es, _) = items_total runtime.decode_sample_idxs (suc row) rows (
            kept_rows-IsWithin_of_take (suc row) left (length runtime.decode_sample_idxs) (p ∷ seen)
              later (omega arith)) in
          ground (arith, kept_from_runtime_lem runtime left (suc row) (p ∷ seen) next)
    ]

-- The view of covered rows holds the first `active` entries of each list.
abbrev view_of : DecodeRuntime → ℕ → RowBatchMeta
view_of runtime active = record {
  request_ids = take active runtime.decode_request_ids;
  prompt_idxs = take active runtime.decode_prompt_idxs;
  sample_idxs = take active runtime.decode_sample_idxs;
  phase = decode_phase;
  engine_step_id = runtime.event_step_id;
  row_compaction = codes "none";
  row_ids = range_from 0 active;
}

items-whole :
    {A : Type 0} (xs : List A) (n : ℕ)
    → n ≤ length xs
    → items (take n xs) (range_from 0 n) ≡ ok (take n xs)
items-whole xs n h =
    let counted : length (take n xs) ≡ n = omega (arith, length-take n xs) in
    items-range_from (take n xs) 0 n (omega arith)
    ∙ ap ok (ap (λ (m : ℕ). take m (take n xs)) (sym counted) ∙ take-length (take n xs))

request_meta_view_lem :
    (runtime : DecodeRuntime) (active : ℕ)
    → IsCovered runtime active
    → request_meta_view runtime active ≡ ok (view_of runtime active)
unfolding request_meta_view active_request_prompt_sample_metadata make_batch
request_meta_view_lem runtime active c = ground (
  arith,
  length-take active runtime.decode_request_ids,
  length-take active runtime.decode_prompt_idxs,
  length-take active runtime.decode_sample_idxs,
  length-range_from 0 active,
  items-whole runtime.decode_request_ids active c.requests,
  items-whole runtime.decode_prompt_idxs active c.prompts,
  items-whole runtime.decode_sample_idxs active c.samples,
)

compact_view_lem :
    (runtime : DecodeRuntime) (active : ℕ)
    → IsCovered runtime active
    → compact_first_per_prompt (view_of runtime active)
      ≡ compact_first_per_prompt_from_runtime runtime active
unfolding compact_first_per_prompt compact_first_per_prompt_from_runtime make_batch
compact_view_lem runtime active c =
    let prompts = take active runtime.decode_prompt_idxs in
    let rows = kept_rows 0 [] prompts in
    let within : (hi : ℕ) → active ≤ hi → All (IsWithin 0 hi) rows =
      λ hi h. kept_rows-IsWithin_of_take 0 active hi [] runtime.decode_prompt_idxs (omega arith) in
    let (is, ei, ni) =
      items_total runtime.decode_request_ids 0 rows
        (within (length runtime.decode_request_ids) c.requests) in
    let (ps, ep, np) =
      items_total runtime.decode_prompt_idxs 0 rows
        (within (length runtime.decode_prompt_idxs) c.prompts) in
    let (ss, es, ns) =
      items_total runtime.decode_sample_idxs 0 rows
        (within (length runtime.decode_sample_idxs) c.samples) in
    ground (
      arith,
      kept_from_runtime_lem runtime active 0 []
          (record { requests = omega arith; prompts = omega arith; samples = omega arith }),
      items-take runtime.decode_request_ids active 0 rows (within active (omega arith)),
      items-take runtime.decode_prompt_idxs active 0 rows (within active (omega arith)),
      items-take runtime.decode_sample_idxs active 0 rows (within active (omega arith)),
      items-own_rows active 0 rows (within active (omega arith)),
    )

short_take :
    {A : Type 0} (xs : List A) (n : ℕ) → eqb (length (take n xs)) n ≡ not (ltb (length xs) n)
short_take xs n = ground (arith, length-take n xs)

uncovered_view :
    (runtime : DecodeRuntime) (active : ℕ)
    → (ltb (length runtime.decode_request_ids) active
        || ltb (length runtime.decode_prompt_idxs) active
        || ltb (length runtime.decode_sample_idxs) active)
      ≡ true
    → request_meta_view runtime active ≡ err (runtime_error metadata_inconsistent)
unfolding request_meta_view active_request_prompt_sample_metadata
uncovered_view runtime active h = ground (
  arith,
  short_take runtime.decode_request_ids active,
  short_take runtime.decode_prompt_idxs active,
  short_take runtime.decode_sample_idxs active,
)

-- Compacting the runtime's decode rows directly gives the same batch, the same row numbers and
-- the same error as compacting the view of all active rows.
pub compact_first_per_prompt_from_runtime-eq :
    (runtime : DecodeRuntime) (active : ℕ)
    → compact_first_per_prompt_from_runtime runtime active
      ≡ (request_meta_view runtime active >>= compact_first_per_prompt)
unfolding compact_first_per_prompt_from_runtime
compact_first_per_prompt_from_runtime-eq runtime active =
    elim (Bool-cases (
      ltb (length runtime.decode_request_ids) active
      || ltb (length runtime.decode_prompt_idxs) active
      || ltb (length runtime.decode_sample_idxs) active)) [
        | inl short ↦ rw (uncovered_view runtime active short) (ground arith)
        | inr long ↦
            let c : IsCovered runtime active = record {
              requests = ground arith;
              prompts = ground arith;
              samples = ground arith;
            } in
            rw (request_meta_view_lem runtime active c) (sym (compact_view_lem runtime active c))
      ]
