-- ===== src/Runtime/Compaction/First.antt =====
-- The compaction keeps the first row of each prompt.
use t_llm.Prelude.{
  ℕ, zero, suc, ◌+◌, ◌<◌, ◌≡◌, refl, sym, ap, ◌∙◌, Bool, true, false, not, ◌&&◌, ◌||◌, none, some,
  List, [], ◌∷◌, arith, if◌then◌else◌, is_empty, length, take, drop, get_elem?, contains, ◌==◌,
  Result, ok, err, ◌>>=◌, ok-injective, list_eq, nat_eq,
}
use t_llm.Prelude.Int.{ℤ, is_negative, int_eq}
use t_llm.Prelude.Str.{Str}
use t_llm.Runtime.RowBatch.{RowBatchMeta, make_batch, items}
use t_llm.Runtime.Compaction.{kept_rows, first_per_prompt, compact_first_per_prompt}
use t_llm.Runtime.Compaction.Rows.{drop-next}

-- Row `j` has a prompt that no row before it has.
abbrev pub is_first : List ℤ → ℕ → Bool
is_first prompts j = elim (get_elem? prompts j) [
  | none ↦ false
  | some p ↦ not (is_negative p) && not (contains (take j prompts) p)
]

abbrev is_first_after : List ℤ → List ℤ → ℕ → Bool
is_first_after seen prompts j = elim (get_elem? prompts j) [
  | none ↦ false
  | some p ↦ not (is_negative p) && not (contains (take j prompts) p) && not (contains seen p)
]

nothing_seen : (prompts : List ℤ) (j : ℕ) → is_first_after [] prompts j ≡ is_first prompts j
nothing_seen prompts j = ground arith

kept_rows-below :
    (row k : ℕ) (seen prompts : List ℤ) → k < row → contains (kept_rows row seen prompts) k ≡ false
unfolding kept_rows
kept_rows-below row k seen [] h = refl
kept_rows-below row k seen (p ∷ ps) h =
    ground (arith, kept_rows-below (suc row) k seen ps, kept_rows-below (suc row) k (p ∷ seen) ps)

contains-kept_rows :
    (row j k : ℕ) (seen prompts : List ℤ)
    → k ≡ row + j
    → contains (kept_rows row seen prompts) k ≡ is_first_after seen prompts j
unfolding kept_rows
contains-kept_rows row j k seen [] e = refl
contains-kept_rows row zero k seen (p ∷ ps) e = ground (
  arith,
  kept_rows-below (suc row) k seen ps (omega arith),
  kept_rows-below (suc row) k (p ∷ seen) ps (omega arith),
)
contains-kept_rows row (suc j) k seen (p ∷ ps) e = ground (
  arith,
  contains-kept_rows (suc row) j k seen ps (omega arith),
  contains-kept_rows (suc row) j k (p ∷ seen) ps (omega arith),
)

abbrev pub count : List ℤ → ℤ → ℕ
count [] p = 0
count (x ∷ xs) p = let rest = count xs p in if x == p then suc rest else rest

-- The prompts at the kept rows.
firsts : List ℤ → List ℤ → List ℤ
firsts seen [] = []
firsts seen (p ∷ ps) = elim (is_negative p || contains seen p) [
  | true ↦ firsts seen ps
  | false ↦ p ∷ firsts (p ∷ seen) ps
]

items-kept_rows :
    (prompts : List ℤ) (row : ℕ) (seen ps : List ℤ)
    → drop row prompts ≡ ps
    → items prompts (kept_rows row seen ps) ≡ ok (firsts seen ps)
unfolding items kept_rows firsts
items-kept_rows prompts row seen [] e = refl
items-kept_rows prompts row seen (p ∷ ps) e =
    let (x, at_row, rest) = drop-next prompts row (row_of_drop prompts row p ps e) in
    let here : x ≡ p = ground arith in
    let behind : drop (suc row) prompts ≡ ps = ground arith in
    ground (
      arith,
      items-kept_rows prompts (suc row) seen ps behind,
      items-kept_rows prompts (suc row) (p ∷ seen) ps behind,
    )
  where
    row_of_drop : (xs : List ℤ) (n : ℕ) (y : ℤ) (ys : List ℤ) → drop n xs ≡ y ∷ ys → n < length xs
    row_of_drop [] zero y ys h = cc
    row_of_drop [] (suc n) y ys h = cc
    row_of_drop (x ∷ xs) zero y ys h = omega arith
    row_of_drop (x ∷ xs) (suc n) y ys h = omega (arith, row_of_drop xs n y ys h)

count-firsts :
    (seen ps : List ℤ) (p : ℤ)
    → count (firsts seen ps) p
      ≡ (if is_negative p || contains seen p then 0 else if contains ps p then 1 else 0)
unfolding firsts
count-firsts seen [] p = ground arith
count-firsts seen (x ∷ ps) p = ground (arith, count-firsts seen ps p, count-firsts (x ∷ seen) ps p)

-- One row for each prompt of the view: its first, with the metadata of that row.
pub record IsCompacted (view batch : RowBatchMeta) (rows : List ℕ) : Type 0 where
  pub kept : (j : ℕ) → contains rows j ≡ is_first view.prompt_idxs j
  pub once :
      (p : ℤ)
      → count batch.prompt_idxs p
        ≡ (if is_negative p then 0 else if contains view.prompt_idxs p then 1 else 0)
  pub requests : items view.request_ids rows ≡ ok batch.request_ids
  pub prompts : items view.prompt_idxs rows ≡ ok batch.prompt_idxs
  pub samples : items view.sample_idxs rows ≡ ok batch.sample_idxs
  pub same_step : batch.engine_step_id ≡ view.engine_step_id

abbrev finished :
    Result (List Str)
    → Result (List ℤ)
    → Result (List ℤ)
    → Result (List ℕ)
    → RowBatchMeta
    → List ℕ
    → Result (RowBatchMeta × List ℕ)
finished requests prompts samples ids view kept = do
  request_ids ← requests
  prompt_idxs ← prompts
  sample_idxs ← samples
  row_ids ← ids
  batch ← make_batch (record {
    request_ids = request_ids;
    prompt_idxs = prompt_idxs;
    sample_idxs = sample_idxs;
    phase = view.phase;
    engine_step_id = view.engine_step_id;
    row_compaction = first_per_prompt;
    row_ids = row_ids;
  })
  ok (batch, kept)

-- The batch holds what was read, and the rows are those that were kept.
finished-ok :
    (requests : Result (List Str)) (prompts samples : Result (List ℤ)) (ids : Result (List ℕ))
    (view batch : RowBatchMeta) (kept rows : List ℕ)
    → finished requests prompts samples ids view kept ≡ ok (batch, rows)
    → (kept ≡ rows)
      × (requests ≡ ok batch.request_ids)
      × (prompts ≡ ok batch.prompt_idxs)
      × (samples ≡ ok batch.sample_idxs)
      × (batch.engine_step_id ≡ view.engine_step_id)
unfolding make_batch
finished-ok (err e) prompts samples ids view batch kept rows h = absurd (cc)
finished-ok (ok r) (err e) samples ids view batch kept rows h = absurd (cc)
finished-ok (ok r) (ok p) (err e) ids view batch kept rows h = absurd (cc)
finished-ok (ok r) (ok p) (ok s) (err e) view batch kept rows h = absurd (cc)
finished-ok (ok r) (ok p) (ok s) (ok i) view batch kept rows h =
    (ground arith, ground arith, ground arith, ground arith, ground arith)

-- A compaction that succeeds keeps exactly the rows whose prompt is not negative and stands in no
-- row before them; each prompt of the view that is not negative is then in the batch once and no
-- other prompt is, and the batch has the request id, the prompt and the sample index of each kept
-- row and the step of the view.
pub compact_first_per_prompt-IsCompacted :
    (view batch : RowBatchMeta) (rows : List ℕ)
    → compact_first_per_prompt view ≡ ok (batch, rows)
    → IsCompacted view batch rows
unfolding compact_first_per_prompt
compact_first_per_prompt-IsCompacted view batch rows h =
    let kept = kept_rows 0 [] view.prompt_idxs in
    let ids : Result (List ℕ) =
      if is_empty view.row_ids then ok kept else items view.row_ids kept in
    let (same, requests, prompts, samples, step) =
      finished-ok (items view.request_ids kept) (items view.prompt_idxs kept)
        (items view.sample_idxs kept) ids view batch kept rows h in
    let found =
      ok-injective batch.prompt_idxs (firsts [] view.prompt_idxs)
        (sym prompts ∙ items-kept_rows view.prompt_idxs 0 [] view.prompt_idxs refl) in
    record {
      kept = λ j.
          ap (λ (l : List ℕ). contains l j) (sym same)
          ∙ contains-kept_rows 0 j j [] view.prompt_idxs (omega arith)
          ∙ nothing_seen view.prompt_idxs j;
      once = λ p.
          ap (λ (l : List ℤ). count l p) found ∙ count-firsts [] view.prompt_idxs p ∙ ground arith;
      requests = ap (items view.request_ids) (sym same) ∙ requests;
      prompts = ap (items view.prompt_idxs) (sym same) ∙ prompts;
      samples = ap (items view.sample_idxs) (sym same) ∙ samples;
      same_step = step;
    }
