-- ===== src/Producer/Decode/Rows.antt =====
-- What `compute_decode_localization` returns: which rows, and for which requests.
use t_llm.Prelude.{
  ℕ, suc, ◌+◌, ◌≤◌, ◌<◌, ◌≡◌, refl, sym, ap, subst, ◌∙◌, inl, inr, Bool, true, false, not, ◌&&◌,
  ◌||◌, some, List, [], ◌∷◌, map, arith, if◌then◌else◌, ltb, leb, Bool-cases, length, range_from,
  get_elem?, All, All-map, All-map₂, All-take, eq_of_==, list_eq, nat_eq, ok, err, bind_of_ok,
  runtime_error, logits_out_of_range,
}
use mathlib.Core.List.{map-map}
use t_llm.Prelude.Int.{ℤ, pos, ◌≤ℤ◌, pos_part, is_negative}
use t_llm.Prelude.Str.{Str}
use t_llm.Prelude.Torch.{Indexing, Extremes, gather?}
use t_llm.Prelude.Torch.Laws.{gather?_total, gather?-range_from, range_from-bound, get_elem?_of_lt}
use t_llm.Common.State.{LogitsIndices}
use t_llm.Common.Snapshot.{item}
use t_llm.Producer.Decode.{
  decode_positions_from, cap_rows, is_contiguous, first_of, DecodeLocalization, select_rows,
  out_of_range, resolve_positions, localize,
}

-- A position with a row and with a request id.
abbrev pub IsPlace : (numel reqs i : ℕ) → Type 0
IsPlace numel reqs i = (i < numel) × (i < reqs)

pub positions-IsPlace :
    (i numel reqs : ℕ) (flags : List Bool)
    → All (IsPlace numel reqs) (decode_positions_from i numel reqs flags)
unfolding decode_positions_from
positions-IsPlace i numel reqs [] = tt
positions-IsPlace i numel reqs (f ∷ flags) = elim (Bool-cases (f && (ltb i numel && ltb i reqs))) [
  | inl chosen ↦
      rw (chosen, decode_positions_from)
        ((ground arith, ground arith), positions-IsPlace (suc i) numel reqs flags)
  | inr skipped ↦ rw (skipped, decode_positions_from) (positions-IsPlace (suc i) numel reqs flags)
]

pub cap_rows-All :
    (P : ℕ → Type 0) (max_rows : ℕ) (is : List ℕ) → All P is → All P (cap_rows max_rows is)
cap_rows-All P max_rows is h = elim (Bool-cases (ltb 0 max_rows)) [
  | inl capped ↦ rw capped (All-take P max_rows is h)
  | inr free ↦ rw free h
]

contiguous-gather :
    (indexing : Indexing ℤ) (logits : List ℤ) (is : List ℕ)
    → All (λ i. i < length logits) is
    → is_contiguous is ≡ true
    → gather? logits (map pos is) ≡ some (indexing.narrow logits (first_of is) (length is))
unfolding is_contiguous
contiguous-gather indexing logits [] h run = rw (indexing.narrow_lem logits 0 0 (omega arith))
contiguous-gather indexing logits (i ∷ is) h run =
    let e = eq_of_== (i ∷ is) (range_from i (length (i ∷ is))) run in
    let bound : i + length (i ∷ is) ≤ length logits =
      range_from-bound i (length is) (length logits) (subst (All (λ j. j < length logits)) e h) in
    subst
      (λ (l : List ℕ).
        gather? logits (map pos l) ≡ some (indexing.narrow logits i (length (i ∷ is))))
      (sym e)
      (gather?-range_from logits i (length (i ∷ is)) bound
        ∙ ap some (sym (indexing.narrow_lem logits i (length (i ∷ is)) bound)))

-- What a successful localization says of its rows and requests.
pub record IsLocalized (resolve : Str → ℤ × ℤ) (req_ids : List Str) (logits : List ℤ)
    (found : DecodeLocalization) : Type 0 where
  -- the rows are the logits rows at the positions
  pub rows : gather? logits (map pos found.decode_positions) ≡ some found.row_idx
  -- the indices are those of the requests at the positions
  pub requests : List Str
  pub gathered : gather? req_ids (map pos found.decode_positions) ≡ some requests
  pub prompts : found.prompt_idxs ≡ map (λ r. (resolve r).0) requests
  pub samples : found.sample_idxs ≡ map (λ r. (resolve r).1) requests

-- Each row number is that of a token of the step.
abbrev pub IsTokenRow : ℕ → ℤ → Type 0
IsTokenRow num_actual_tokens row = (is_negative row ≡ false) × (pos_part row < num_actual_tokens)

module _ (indexing : Indexing ℤ) (extremes : Extremes) where
  -- Both ways of selecting rows, the view of a run and the copy, give the rows at the positions.
  select_rows-gather :
      (logits : List ℤ) (is : List ℕ)
      → All (λ i. i < length logits) is
      → gather? logits (map pos is) ≡ some (select_rows indexing extremes logits is)
  unfolding select_rows
  select_rows-gather logits is h = elim (Bool-cases (is_contiguous is)) [
    | inl run ↦ rw (run, select_rows) (contiguous-gather indexing logits is h run)
    | inr scattered ↦
        let (ys, e) = gather?_total logits is h in
        rw (scattered, select_rows) (rw (indexing.index_select_lem logits (map pos is) ys e) e)
  ]

  pub All-IsTokenRow :
      (num_actual_tokens : ℕ) (xs : List ℤ)
      → out_of_range indexing extremes num_actual_tokens xs ≡ false
      → All (IsTokenRow num_actual_tokens) xs
  unfolding out_of_range
  All-IsTokenRow num_actual_tokens [] h = tt
  All-IsTokenRow num_actual_tokens (x ∷ xs) h =
      let low = extremes.min_of (x ∷ xs) in
      let high = extremes.max_of (x ∷ xs) in
      All-map₂ (x ∷ xs) (λ y above below. between low high y above below h)
        (extremes.min_lower x xs) (extremes.max_upper x xs)
    where
      between :
          (low high y : ℤ)
          → low ≤ℤ y
          → y ≤ℤ high
          → (is_negative low || (not (is_negative high) && leb num_actual_tokens (pos_part high)))
            ≡ false
          → IsTokenRow num_actual_tokens y
      between low high y above below e = ground arith

  module _ (resolve : Str → ℤ × ℤ) where
    item_of_some :
        (req_ids : List Str) (i : ℕ) (r : Str)
        → get_elem? req_ids i ≡ some r
        → item req_ids i ≡ ok r
    item_of_some req_ids i r e = ground arith

    resolve_positions_total :
        (req_ids : List Str) (is : List ℕ)
        → All (λ i. i < length req_ids) is
        → (requests : List Str) × (gather? req_ids (map pos is) ≡ some requests)
          × (resolve_positions indexing extremes resolve req_ids is ≡ ok (map resolve requests))
    unfolding resolve_positions
    resolve_positions_total req_ids [] h = ([], refl, refl)
    resolve_positions_total req_ids (i ∷ is) h =
        let (r, e) = get_elem?_of_lt req_ids i h.0 in
        let (rs, g, f) = resolve_positions_total req_ids is h.1 in
        (
          r ∷ rs,
          rw (e, g),
          bind_of_ok (item req_ids i) _ r (item_of_some req_ids i r e)
              ∙ bind_of_ok _ _ (map resolve rs) f,
        )

    localize_value :
        (req_ids : List Str) (logits : LogitsIndices) (num_actual_tokens : ℕ) (is : List ℕ)
        (pairs : List (ℤ × ℤ))
        → resolve_positions indexing extremes resolve req_ids is ≡ ok pairs
        → localize indexing extremes resolve req_ids logits num_actual_tokens is ≡ (
            if not logits.on_cuda
              && out_of_range indexing extremes num_actual_tokens
                  (select_rows indexing extremes logits.values is)
            then err (runtime_error logits_out_of_range)
            else ok (record {
              row_idx = select_rows indexing extremes logits.values is;
              prompt_idxs = map (λ p. p.0) pairs;
              sample_idxs = map (λ p. p.1) pairs;
              decode_positions = is;
            }))
    unfolding localize
    localize_value req_ids logits num_actual_tokens is pairs e = ground arith

    -- The rows are chosen and resolved; only the diagnostic on the CPU can fail.
    pub localize_total :
        (req_ids : List Str) (logits : LogitsIndices) (num_actual_tokens : ℕ) (is : List ℕ)
        → All (IsPlace (length logits.values) (length req_ids)) is
        → (found : DecodeLocalization) × IsLocalized resolve req_ids logits.values found
          × (found.decode_positions ≡ is)
          × (localize indexing extremes resolve req_ids logits num_actual_tokens is ≡ (
              if not logits.on_cuda
                && out_of_range indexing extremes num_actual_tokens found.row_idx
              then err (runtime_error logits_out_of_range)
              else ok found))
    localize_total req_ids logits num_actual_tokens is places =
        let (requests, gathered, resolved) =
          resolve_positions_total req_ids is (All-map is (λ i p. p.1) places) in
        let row_idx = select_rows indexing extremes logits.values is in
        let found : DecodeLocalization = record {
          row_idx = row_idx;
          prompt_idxs = map (λ p. p.0) (map resolve requests);
          sample_idxs = map (λ p. p.1) (map resolve requests);
          decode_positions = is;
        } in
        (
          found,
          record {
            rows = select_rows-gather logits.values is (All-map is (λ i p. p.0) places);
            requests = requests;
            gathered = gathered;
            prompts = map-map _ _ requests;
            samples = map-map _ _ requests;
          },
          refl,
          localize_value req_ids logits num_actual_tokens is _ resolved,
        )
