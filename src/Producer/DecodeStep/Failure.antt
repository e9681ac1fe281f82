-- ===== src/Producer/DecodeStep/Failure.antt =====
-- What `prepare_decode_localization` leaves behind when it raises.
use t_llm.Prelude.{
  ℕ, ◌<◌, ◌≡◌, refl, sym, ap, subst, ◌∙◌, length-replicate, ◌⊎◌, inl, inr, some, [], arith, length,
  ok, err, Exception, Result-cases, runtime_error, rows_exceed_scratch,
}
use t_llm.Prelude.Int.{ℤ, pos}
use t_llm.Prelude.Str.{Str}
use t_llm.Prelude.Torch.{Indexing, Extremes}
use t_llm.Common.Objects.{PythonObjects}
use t_llm.Common.State.{DecodeBuffers, RuntimeState}
use t_llm.Common.CaptureLayer.{find_capture_layer}
use t_llm.Producer.Decode.{DecodeLocalization}
use t_llm.Producer.DecodeStep.{
  clear_buffers, cleared, store_localization, localization, prepare_decode_localization,
}

module _ {Row : Type 0} (objects : PythonObjects) (indexing : Indexing ℤ)
    (extremes : Extremes) where
  cleared-length :
      (buffers : DecodeBuffers Row) (k : ℕ)
      → length (clear_buffers buffers).decode_row_idx < k
      → length buffers.decode_row_idx < k
  unfolding clear_buffers
  cleared-length buffers k h =
      omega (arith, length-replicate (length buffers.decode_row_idx) (pos 0))

  -- Why a preparation raised: the localization did, or it has more rows than the buffers.
  abbrev pub Reason : RuntimeState Row → DecodeBuffers Row → Exception → Type 0
  Reason state buffers e =
      (localization objects indexing extremes state ≡ err e)
      ⊎ ((found : DecodeLocalization) × (localization objects indexing extremes state ≡ ok found)
          × (length buffers.decode_row_idx < length found.row_idx)
          × (e ≡ runtime_error rows_exceed_scratch))

  store-error :
      (found : DecodeLocalization) (buffers : DecodeBuffers Row) (state after : RuntimeState Row)
      (e : Exception)
      → store_localization found buffers state ≡ (err e, after)
      → (length buffers.decode_row_idx < length found.row_idx)
        × (e ≡ runtime_error rows_exceed_scratch)
        × (after ≡ state)
  unfolding store_localization
  store-error found buffers state after e h = (ground arith, ground arith, ground arith)

  abbrev pub IsCleared : DecodeBuffers Row → RuntimeState Row → Type 0
  IsCleared buffers after =
      (after.step.decode_count ≡ 0)
      × (after.step.decode_prompt_idxs ≡ [])
      × (after.step.decode_sample_idxs ≡ [])
      × (after.buffers ≡ some (clear_buffers buffers))

  cleared-IsCleared :
      (buffers : DecodeBuffers Row) (state after : RuntimeState Row)
      → cleared buffers state ≡ after
      → IsCleared buffers after
  unfolding cleared
  cleared-IsCleared buffers state after h = subst (IsCleared buffers) h (refl, refl, refl, refl)

  -- With the layer found and its buffers bound, a preparation that raises does so because the
  -- localization raised or because it has more rows than the buffers; the step then counts no
  -- decode row and has no decode indices, and both buffers are cleared.
  pub prepare_decode_localization-error :
      (model : objects.Obj) (state after : RuntimeState Row) (layer : objects.Obj × Str)
      (buffers : DecodeBuffers Row) (e : Exception)
      → find_capture_layer objects state.config model ≡ ok layer
      → state.buffers ≡ some buffers
      → prepare_decode_localization objects indexing extremes model state ≡ (err e, after)
      → Reason state buffers e × IsCleared buffers after
  unfolding prepare_decode_localization
  prepare_decode_localization-error model state after layer buffers e at_layer bound h =
      elim (Result-cases (localization objects indexing extremes state)) [
        | inl (found, localized) ↦
            let stored : store_localization found (clear_buffers buffers) (cleared buffers state)
                ≡ (err e, after) =
              ground arith in
            let (more, why, same) =
              store-error found (clear_buffers buffers) (cleared buffers state) after e stored in
            (
              inr (found, localized, cleared-length buffers (length found.row_idx) more, why),
              cleared-IsCleared buffers state after (sym same),
            )
        | inr (why, failed) ↦
            let same : why ≡ e = ground arith in
            (inl (failed ∙ ap err same), cleared-IsCleared buffers state after (ground arith))
      ]
