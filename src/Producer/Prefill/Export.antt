-- ===== src/Producer/Prefill/Export.antt =====
-- The prefill rows from the layer's output to the captured rows.
use t_llm.Prelude.{
  ℕ, ◌<◌, ◌≡◌, refl, ◌∙◌, true, false, none, some, List, [], ◌∷◌, ◌++◌, map, arith, is_empty,
  length, length-map, ok,
}
use t_llm.Prelude.Int.{ℤ, pos, is_negative}
use t_llm.Prelude.Torch.{Indexing, gather?}
use t_llm.Prelude.Torch.Laws.{length-gather?}
use t_llm.Common.State.{RuntimeState}
use t_llm.Producer.DecodeStep.{rows_at, export_rows}
use t_llm.Producer.DecodeStep.Export.{rows_of, rows_at-export_rows}
use t_llm.Producer.Prefill.{
  stash_prefill_hidden_from_layer_output, export_selected, export_prefill_capture,
}

module _ {Row : Type 0} where
  -- A plan of at least one row, as `prepare_prefill_localization` leaves it.
  pub record IsPlanned (state : RuntimeState Row) : Type 0 where
    pub enabled : state.config.enable_prefill_producer ≡ true
    pub some_rows : 0 < state.step.prefill_count
    pub rows : length state.step.prefill_row_indices ≡ state.step.prefill_count
    pub prompts : length state.step.prefill_prompt_idxs ≡ state.step.prefill_count

  stashed : (state : RuntimeState Row) → List Row → RuntimeState Row
  stashed state selected = record state { prefill_hidden_rows = some selected }

  layer_out_rows :
      (layer_out selected : List Row) (is : List ℕ)
      → gather? layer_out (map pos is) ≡ some selected
      → 0 < length is
      → (is_empty layer_out ≡ false) × (is_empty is ≡ false)
  layer_out_rows layer_out selected [] e h = absurd (omega arith)
  layer_out_rows [] selected (i ∷ is) e h = absurd (cc)
  layer_out_rows (r ∷ layer_out) selected (i ∷ is) e h = (refl, refl)

  length-selected :
      (layer_out selected : List Row) (is : List ℕ)
      → gather? layer_out (map pos is) ≡ some selected
      → length selected ≡ length is
  length-selected layer_out selected is e =
      length-gather? layer_out (map pos is) selected e ∙ length-map pos is

  stash_lem :
      (indexing : Indexing Row) (state : RuntimeState Row) (layer_out selected : List Row)
      → IsPlanned state
      → gather? layer_out (map pos state.step.prefill_row_indices) ≡ some selected
      → stash_prefill_hidden_from_layer_output indexing layer_out state
        ≡ (ok tt, stashed state selected)
  unfolding stash_prefill_hidden_from_layer_output stashed
  stash_lem indexing state layer_out selected p e =
      let (out, planned) =
        layer_out_rows layer_out selected state.step.prefill_row_indices e (omega arith) in
      ground (
        arith,
        length-selected layer_out selected state.step.prefill_row_indices e,
        indexing.index_select_lem layer_out (map pos state.step.prefill_row_indices) selected e,
      )

  export_lem :
      (state : RuntimeState Row) (selected : List Row)
      → IsPlanned state
      → state.capture_active ≡ true
      → length selected ≡ state.step.prefill_count
      → export_prefill_capture (stashed state selected) ≡ (
        ok tt,
        record state {
          captured_prefill =
              export_rows state.step.prefill_count state.step.prefill_prompt_idxs selected
                state.captured_prefill;
          prefill_hidden_rows = none;
        },
      )
  unfolding export_prefill_capture stashed export_selected
  export_lem state selected p active counted = ground arith

  -- While capturing a planned step of at least one row whose rows all exist in the layer's
  -- output, stashing the output and exporting it succeeds: a prompt that is not negative gets its
  -- rows of the output, in order, behind those captured before, and the stashed tensor is
  -- dropped.
  pub rows_at-export_prefill_capture :
      (indexing : Indexing Row) (state : RuntimeState Row) (layer_out selected : List Row)
      (prompt : ℤ)
      → IsPlanned state
      → state.capture_active ≡ true
      → gather? layer_out (map pos state.step.prefill_row_indices) ≡ some selected
      → is_negative prompt ≡ false
      → let after =
          export_prefill_capture
            (stash_prefill_hidden_from_layer_output indexing layer_out state).1 in
        (after.0 ≡ ok tt)
        × (after.1.prefill_hidden_rows ≡ none)
        × (rows_at after.1.captured_prefill prompt
            ≡ rows_at state.captured_prefill prompt
              ++ rows_of state.step.prefill_count prompt state.step.prefill_prompt_idxs selected)
  rows_at-export_prefill_capture indexing state layer_out selected prompt p active e valid =
      rw (stash_lem indexing state layer_out selected p e) (
        rw
          (export_lem state selected p active
            (length-selected layer_out selected state.step.prefill_row_indices e ∙ p.rows))
          (
            refl,
            refl,
            ground (
              arith,
              rows_at-export_rows state.step.prefill_count state.step.prefill_prompt_idxs selected
                  state.captured_prefill prompt,
            ),
          ))
