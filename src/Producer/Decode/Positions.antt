-- ===== src/Producer/Decode/Positions.antt =====
-- Which requests `compute_decode_localization` localizes.
use t_llm.Prelude.{
  ℕ, zero, suc, ◌+◌, ◌<◌, ◌≡◌, ◌≢◌, refl, sym, ap, ◌∙◌, inl, inr, Bool, true, false, ◌&&◌, ◌||◌,
  some, List, [], ◌∷◌, arith, ltb, eqb, is_empty, Bool-cases, length, All, contains, list_eq,
  nat_eq, ok, ok-injective,
}
use t_llm.Prelude.Int.{ℤ, int_eq}
use t_llm.Prelude.Str.{Str}
use t_llm.Prelude.Torch.{Indexing, Extremes}
use t_llm.Common.State.{LogitsIndices}
use t_llm.Producer.Decode.{
  decode_positions_from, DecodeLocalization, no_rows, compute_decode_localization,
}
use t_llm.Producer.Decode.Chosen.{flag_at}
use t_llm.Producer.Decode.Rows.{IsPlace, localize_total}
use t_llm.Producer.Decode.Localization.{passed_test, positions_of, positions_of-IsPlace}

contains_below :
    (numel reqs i k : ℕ) (flags : List Bool)
    → k < i
    → contains (decode_positions_from i numel reqs flags) k ≡ false
unfolding decode_positions_from
contains_below numel reqs i k [] h = refl
contains_below numel reqs i k (f ∷ flags) h =
    let later = contains_below numel reqs (suc i) k flags (omega arith) in ground arith

contains_offset :
    (numel reqs i j k : ℕ) (flags : List Bool)
    → k ≡ i + j
    → contains (decode_positions_from i numel reqs flags) k
      ≡ (flag_at flags j && (ltb k numel && ltb k reqs))
unfolding decode_positions_from
contains_offset numel reqs i j k [] e = refl
contains_offset numel reqs i zero k (f ∷ flags) e =
    let later = contains_below numel reqs (suc i) k flags (omega arith) in ground arith
contains_offset numel reqs i (suc j) k (f ∷ flags) e =
    let later = contains_offset numel reqs (suc i) j k flags (omega arith) in ground arith

no_positions :
    (logits : List ℤ) (reqs : ℕ) (is : List ℕ)
    → All (IsPlace (length logits) reqs) is
    → (is_empty logits || is_empty is) ≡ true
    → [] ≡ is
no_positions logits reqs [] h e = refl
no_positions [] reqs (i ∷ is) h e = absurd (omega arith)
no_positions (x ∷ logits) reqs (i ∷ is) h e = cc

positions_lem :
    (indexing : Indexing ℤ) (extremes : Extremes) (resolve : Str → ℤ × ℤ) (req_ids : List Str)
    (flags : List Bool) (logits : LogitsIndices) (n max_rows : ℕ) (found : DecodeLocalization)
    → compute_decode_localization indexing extremes resolve req_ids flags (some logits) n max_rows
      ≡ ok found
    → n ≢ 0
    → found.decode_positions ≡ positions_of indexing extremes resolve req_ids flags logits max_rows
unfolding compute_decode_localization
positions_lem indexing extremes resolve req_ids flags logits n max_rows found h ne =
    let is = positions_of indexing extremes resolve req_ids flags logits max_rows in
    let placed = positions_of-IsPlace indexing extremes resolve req_ids flags logits max_rows in
    elim (Bool-cases (eqb n 0 || is_empty logits.values || is_empty is)) [
      | inl early ↦
          let e = ok-injective no_rows found (rw (early, compute_decode_localization) at h) in
          ap (λ (f : DecodeLocalization). f.decode_positions) (sym e)
          ∙ no_positions logits.values (length req_ids) is placed (ground arith)
      | inr late ↦
          let (f, localized, places, value) =
            localize_total indexing extremes resolve req_ids logits n is placed in
          let (clear, same) =
            passed_test _ _ f found (sym value ∙ (rw (late, compute_decode_localization) at h)) in
          ap (λ (f : DecodeLocalization). f.decode_positions) (sym same) ∙ places
    ]

-- Where the localization of a step with tokens succeeds under no row cap, a position is among the
-- localized ones exactly if its request decodes, has a logits row and has a request id.
pub contains-decode_positions :
    (indexing : Indexing ℤ) (extremes : Extremes) (resolve : Str → ℤ × ℤ) (req_ids : List Str)
    (flags : List Bool) (logits : LogitsIndices) (n k : ℕ) (found : DecodeLocalization)
    → compute_decode_localization indexing extremes resolve req_ids flags (some logits) n 0
      ≡ ok found
    → n ≢ 0
    → contains found.decode_positions k
      ≡ (flag_at flags k && (ltb k (length logits.values) && ltb k (length req_ids)))
contains-decode_positions indexing extremes resolve req_ids flags logits n k found h ne =
    rw (positions_lem indexing extremes resolve req_ids flags logits n 0 found h ne)
      (contains_offset (length logits.values) (length req_ids) 0 k k flags (omega arith))
