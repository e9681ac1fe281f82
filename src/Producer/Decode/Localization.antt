-- ===== src/Producer/Decode/Localization.antt =====
-- What `compute_decode_localization` promises of its result, and when it raises.
use t_llm.Prelude.{
  ℕ, ◌≡◌, ◌≢◌, refl, sym, ap, subst, ◌∙◌, inl, inr, Bool, true, false, not, ◌&&◌, ◌||◌, some, List,
  [], ◌∷◌, map, arith, if◌then◌else◌, leb, eqb, is_empty, Bool-cases, length, All, length-map,
  contains, ◌==◌, eq_of_==, list_eq, nat_eq, ok, err, Exception, ok-injective, runtime_error,
  logits_out_of_range,
}
use t_llm.Prelude.Int.{ℤ, pos, pos_part, is_negative, int_eq}
use t_llm.Prelude.Str.{Str}
use t_llm.Prelude.Torch.{Indexing, Extremes, gather?}
use t_llm.Prelude.Torch.Laws.{length-gather?}
use t_llm.Common.State.{LogitsIndices}
use t_llm.Producer.Decode.{
  decode_positions_from, cap_rows, DecodeLocalization, no_rows, out_of_range,
  compute_decode_localization,
}
use t_llm.Producer.Decode.Chosen.{due_positions, positions-eq-due_positions}
use t_llm.Producer.Decode.Rows.{
  IsPlace, positions-IsPlace, cap_rows-All, IsLocalized, IsTokenRow, All-IsTokenRow, localize_total,
}

All-member : (P : ℤ → Type 0) (xs : List ℤ) (y : ℤ) → All P xs → contains xs y ≡ true → P y
All-member P [] y h m = absurd (cc)
All-member P (x ∷ xs) y h m = elim (Bool-cases (y == x)) [
  | inl here ↦ subst P (sym (eq_of_== y x here)) h.0
  | inr there ↦ All-member P xs y h.1 (ground arith)
]

rows-ne-zero :
    (logits : List ℤ) (is : List ℕ) (f : DecodeLocalization)
    → is_empty is ≡ false
    → f.decode_positions ≡ is
    → gather? logits (map pos f.decode_positions) ≡ some f.row_idx
    → length f.row_idx ≢ 0
rows-ne-zero logits [] f h e g = cc
rows-ne-zero logits (i ∷ is) f h e g = omega (
  arith,
  length-gather? logits (map pos f.decode_positions) f.row_idx g,
  length-map pos f.decode_positions,
  ap (λ (l : List ℕ). length l) e,
)

pub passed_test :
    (b : Bool) (e : Exception) (f found : DecodeLocalization)
    → (if b then err e else ok f) ≡ ok found
    → (b ≡ false) × (f ≡ found)
passed_test b e f found h = (ground arith, ground arith)

failed_test :
    (b : Bool) (reason e : Exception) (f : DecodeLocalization)
    → (if b then err reason else ok f) ≡ err e
    → (b ≡ true) × (e ≡ reason)
failed_test b reason e f h = (ground arith, ground arith)

module _ (indexing : Indexing ℤ) (extremes : Extremes) where
  -- The extremes are themselves rows, so the diagnostic fires only on a row outside the step.
  outside_of_test :
      (num_actual_tokens : ℕ) (x : ℤ) (xs : List ℤ)
      → out_of_range indexing extremes num_actual_tokens (x ∷ xs) ≡ true
      → ¬ All (IsTokenRow num_actual_tokens) (x ∷ xs)
  unfolding out_of_range
  outside_of_test num_actual_tokens x xs h all_rows =
      let low =
        All-member (IsTokenRow num_actual_tokens) (x ∷ xs) (extremes.min_of (x ∷ xs)) all_rows
          (extremes.min_in x xs) in
      let high =
        All-member (IsTokenRow num_actual_tokens) (x ∷ xs) (extremes.max_of (x ∷ xs)) all_rows
          (extremes.max_in x xs) in
      clash (extremes.min_of (x ∷ xs)) (extremes.max_of (x ∷ xs)) low high h
    where
      clash :
          (low high : ℤ)
          → IsTokenRow num_actual_tokens low
          → IsTokenRow num_actual_tokens high
          → (is_negative low || (not (is_negative high) && leb num_actual_tokens (pos_part high)))
            ≡ true
          → ⊥
      clash low high l r e = ground arith

  module _ (resolve : Str → ℤ × ℤ) where
    -- The localization of the positions that the flags and the cap choose has rows outside the step.
    pub record IsRejected (req_ids : List Str) (flags : List Bool) (logits : LogitsIndices)
        (num_actual_tokens max_rows : ℕ) (e : Exception) : Type 0 where
      pub reason : e ≡ runtime_error logits_out_of_range
      pub on_cpu : logits.on_cuda ≡ false
      pub found : DecodeLocalization
      pub chosen :
          found.decode_positions
          ≡ due_positions (length logits.values) (length req_ids) flags max_rows
      pub localized : IsLocalized resolve req_ids logits.values found
      pub outside : ¬ All (IsTokenRow num_actual_tokens) found.row_idx

    abbrev pub positions_of : List Str → List Bool → LogitsIndices → ℕ → List ℕ
    positions_of req_ids flags logits max_rows =
        cap_rows max_rows (decode_positions_from 0 (length logits.values) (length req_ids) flags)

    pub positions_of-IsPlace :
        (req_ids : List Str) (flags : List Bool) (logits : LogitsIndices) (max_rows : ℕ)
        → All
            (IsPlace (length logits.values) (length req_ids))
            (positions_of req_ids flags logits max_rows)
    positions_of-IsPlace req_ids flags logits max_rows =
        cap_rows-All _ max_rows _
          (positions-IsPlace 0 (length logits.values) (length req_ids) flags)

    no_rows-IsLocalized :
        (req_ids : List Str) (logits : List ℤ) → IsLocalized resolve req_ids logits no_rows
    no_rows-IsLocalized req_ids logits = record {
      rows = refl;
      requests = [];
      gathered = refl;
      prompts = refl;
      samples = refl;
    }

    -- Where the localization of a step with logits rows succeeds, the chosen rows are the logits
    -- rows at the chosen positions, whether they were selected as a view of a run or by index,
    -- the prompt and sample indices are those that the requests at these positions resolve to,
    -- and off CUDA every chosen row number is that of a token of the step.
    pub compute_decode_localization-IsLocalized :
        (req_ids : List Str) (flags : List Bool) (logits : LogitsIndices)
        (num_actual_tokens max_rows : ℕ) (found : DecodeLocalization)
        → compute_decode_localization indexing extremes resolve req_ids flags
            (some logits)
            num_actual_tokens
            max_rows
          ≡ ok found
        → IsLocalized resolve req_ids logits.values found
          × (logits.on_cuda ≡ false → All (IsTokenRow num_actual_tokens) found.row_idx)
    unfolding compute_decode_localization
    compute_decode_localization-IsLocalized req_ids flags logits num_actual_tokens max_rows found
          h =
        elim (Bool-cases (
          eqb num_actual_tokens 0
          || is_empty logits.values
          || is_empty (positions_of req_ids flags logits max_rows))) [
            | inl early ↦
                let e = ok-injective no_rows found (rw (early, compute_decode_localization) at h) in
                subst
                  (λ f.
                    IsLocalized resolve req_ids logits.values f
                    × (logits.on_cuda ≡ false → All (IsTokenRow num_actual_tokens) f.row_idx))
                  e (no_rows-IsLocalized req_ids logits.values, λ _. tt)
            | inr late ↦
                let (f, localized, places, value) =
                  localize_total indexing extremes resolve req_ids logits num_actual_tokens
                    (positions_of req_ids flags logits max_rows)
                    (positions_of-IsPlace req_ids flags logits max_rows) in
                let (clear, same) =
                  passed_test _ _ f found
                    (sym value ∙ (rw (late, compute_decode_localization) at h)) in
                subst
                  (λ g.
                    IsLocalized resolve req_ids logits.values g
                    × (logits.on_cuda ≡ false → All (IsTokenRow num_actual_tokens) g.row_idx))
                  same
                  (
                    localized,
                    λ cpu.
                        All-IsTokenRow indexing extremes num_actual_tokens f.row_idx (ground arith),
                  )
          ]

    outside_of_rows :
        (num_actual_tokens : ℕ) (xs : List ℤ)
        → length xs ≢ 0
        → out_of_range indexing extremes num_actual_tokens xs ≡ true
        → ¬ All (IsTokenRow num_actual_tokens) xs
    outside_of_rows num_actual_tokens [] ne h = absurd (ne refl)
    outside_of_rows num_actual_tokens (x ∷ xs) ne h = outside_of_test num_actual_tokens x xs h

    -- The localization of a step with logits rows raises for one reason only: off CUDA, and when
    -- the logits rows at the positions to localize are not all rows of tokens of the step. These
    -- positions are those of the requests that decode, have a logits row and have a request id,
    -- in order, and under a positive row cap the first of them.
    pub compute_decode_localization-IsRejected :
        (req_ids : List Str) (flags : List Bool) (logits : LogitsIndices)
        (num_actual_tokens max_rows : ℕ) (e : Exception)
        → compute_decode_localization indexing extremes resolve req_ids flags
            (some logits)
            num_actual_tokens
            max_rows
          ≡ err e
        → IsRejected req_ids flags logits num_actual_tokens max_rows e
    unfolding compute_decode_localization
    compute_decode_localization-IsRejected req_ids flags logits num_actual_tokens max_rows e h =
        let is = positions_of req_ids flags logits max_rows in
        elim (Bool-cases (eqb num_actual_tokens 0 || is_empty logits.values || is_empty is)) [
          | inl early ↦ absurd (ground arith)
          | inr late ↦
              let (f, localized, places, value) =
                localize_total indexing extremes resolve req_ids logits num_actual_tokens is
                  (positions_of-IsPlace req_ids flags logits max_rows) in
              let (fired, same) =
                failed_test _ _ e f (sym value ∙ (rw (late, compute_decode_localization) at h)) in
              let late_rows : is_empty is ≡ false = ground arith in
              record {
                reason = same;
                on_cpu = ground arith;
                found = f;
                chosen =
                    places
                    ∙ positions-eq-due_positions (length logits.values) (length req_ids) flags
                        max_rows;
                localized = localized;
                outside =
                    outside_of_rows num_actual_tokens f.row_idx
                      (rows-ne-zero logits.values is f late_rows places localized.rows)
                      (ground arith);
              }
        ]
