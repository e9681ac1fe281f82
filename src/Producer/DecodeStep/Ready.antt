-- ===== src/Producer/DecodeStep/Ready.antt =====
-- The buffers that `prepare_decode_localization` leaves, and what the gather in the captured layer
-- then puts into the hidden rows.
use t_llm.Prelude.{
  ℕ, zero, suc, ◌-◌, ◌≤◌, ◌<◌, ◌≡◌, refl, sym, ap, subst, ◌∙◌, inl, inr, some, List, [], ◌∷◌, ◌++◌,
  arith, Option-cases, length, take, replicate, length-replicate, get_elem?, ok,
}
use mathlib.Core.Path.{ap₂}
use t_llm.Prelude.Int.{ℤ, pos, negsuc}
use t_llm.Prelude.Str.{Str}
use t_llm.Prelude.Torch.{Indexing, Extremes, Masking, MaskValue, zeroed, filled, gather?}
use t_llm.Prelude.Torch.Laws.{length-gather?}
use t_llm.Common.Objects.{PythonObjects}
use t_llm.Common.State.{DecodeBuffers, RuntimeState}
use t_llm.Common.CaptureLayer.{find_capture_layer}
use t_llm.Producer.Decode.{DecodeLocalization}
use t_llm.Producer.DecodeStep.{
  overwrite, clear_buffers, cleared, store_localization, localization, prepare_decode_localization,
  mask_rows, gather_decode_hidden_from_scratch,
}

module _ {ℓ} {A : Type ℓ} where
  overwrite-replicate :
      (xs : List A) (n : ℕ) (a : A)
      → length xs ≤ n
      → overwrite xs (replicate n a) ≡ xs ++ replicate (n - length xs) a
  unfolding overwrite
  overwrite-replicate [] n a h = ap (λ (m : ℕ). replicate m a) (omega arith)
  overwrite-replicate (x ∷ xs) zero a h = absurd (omega arith)
  overwrite-replicate (x ∷ xs) (suc n) a h =
      ap (◌∷◌ x) (
        overwrite-replicate xs n a (omega arith)
        ∙ ap (λ (m : ℕ). xs ++ replicate m a) (omega arith))

  gather?-append :
      (xs : List A) (is js : List ℤ) (ys zs : List A)
      → gather? xs is ≡ some ys
      → gather? xs js ≡ some zs
      → gather? xs (is ++ js) ≡ some (ys ++ zs)
  gather?-append xs [] js ys zs h k = ground arith
  gather?-append xs (i ∷ is) js ys zs h k = elim (Option-cases (gather? xs is)) [
    | inl e ↦ ground arith
    | inr (us, e) ↦ ground (arith, gather?-append xs is js us zs e k)
  ]

  gather?-replicate :
      (xs : List A) (n : ℕ) (x : A)
      → get_elem? xs 0 ≡ some x
      → gather? xs (replicate n (pos 0)) ≡ some (replicate n x)
  gather?-replicate xs zero x h = refl
  gather?-replicate xs (suc n) x h = rw (h, gather?-replicate xs n x h)

  nonempty_of_gather :
      (xs ys : List A) (is : List ℤ)
      → gather? xs is ≡ some ys
      → 0 < length is
      → (x : A) × (get_elem? xs 0 ≡ some x)
  nonempty_of_gather (x ∷ xs) ys is h k = (x, refl)
  nonempty_of_gather [] ys [] h k = absurd (omega arith)
  nonempty_of_gather [] ys (pos i ∷ is) h k = cc
  nonempty_of_gather [] ys (negsuc i ∷ is) h k = cc

-- The buffers after a localization: the rows and their marks at the front, cleared values behind.
abbrev pub loaded : {Row : Type 0} → DecodeLocalization → DecodeBuffers Row → DecodeBuffers Row
loaded found buffers =
    let k = length found.row_idx in
    let spare = length buffers.decode_row_idx - k in
    record buffers {
      decode_row_idx = found.row_idx ++ replicate spare (pos 0);
      decode_valid_mask = replicate k filled ++ replicate spare zeroed;
    }

-- The mask has one mark for each row of the index buffer, as `ensure_decode_buffers` makes them.
abbrev pub HasShape : {Row : Type 0} → DecodeBuffers Row → Type 0
HasShape buffers = length buffers.decode_valid_mask ≡ length buffers.decode_row_idx

module _ {Row : Type 0} where
  store_localization_lem :
      (found : DecodeLocalization) (buffers : DecodeBuffers Row) (state : RuntimeState Row)
      → HasShape buffers
      → 0 < length found.row_idx
      → length found.row_idx ≤ length buffers.decode_row_idx
      → store_localization found (clear_buffers buffers) state ≡ (
        ok tt,
        record state {
          buffers = some (loaded found buffers);
          step = record state.step {
            decode_count = length found.row_idx;
            decode_prompt_idxs = found.prompt_idxs;
            decode_sample_idxs = found.sample_idxs;
          };
        },
      )
  unfolding store_localization clear_buffers
  store_localization_lem found buffers state shape some_rows fits =
      let n = length buffers.decode_row_idx in
      let k = length found.row_idx in
      ground (
        arith,
        length-replicate n (pos 0),
        length-replicate k filled,
        overwrite-replicate found.row_idx n (pos 0) fits,
        overwrite-replicate (replicate k filled) n zeroed
            (omega (arith, length-replicate k filled)),
      )

  module _ (masking : Masking Row) where
    mask_rows-filled :
        (rows rest : List Row) (marks : List MaskValue)
        → take
            (length rows)
            (mask_rows masking (rows ++ rest) (replicate (length rows) filled ++ marks))
          ≡ rows
    unfolding mask_rows
    mask_rows-filled [] rest marks = refl
    mask_rows-filled (r ∷ rows) rest marks =
        ap₂ ◌∷◌ (masking.mul-filled r) (mask_rows-filled rows rest marks)

    -- After the gather the first rows are the rows of the scratch buffer at the localized places.
    gather-loaded :
        (indexing : Indexing Row) (found : DecodeLocalization) (buffers : DecodeBuffers Row)
        (scratch rows : List Row)
        → 0 < length found.row_idx
        → gather? scratch found.row_idx ≡ some rows
        → take
            (length rows)
            (gather_decode_hidden_from_scratch masking indexing
              (loaded found buffers)
              scratch).decode_hidden_rows_buffer
          ≡ rows
    unfolding gather_decode_hidden_from_scratch
    gather-loaded indexing found buffers scratch rows some_rows e =
        let k = length found.row_idx in
        let spare = length buffers.decode_row_idx - k in
        let (x, first) = nonempty_of_gather scratch rows found.row_idx e some_rows in
        let all_rows =
          indexing.index_select_lem scratch (found.row_idx ++ replicate spare (pos 0))
            (rows ++ replicate spare x)
            (gather?-append scratch found.row_idx (replicate spare (pos 0)) rows (replicate spare x)
              e (gather?-replicate scratch spare x first)) in
        let same : k ≡ length rows = sym (length-gather? scratch found.row_idx rows e) in
        rw all_rows (
          subst
            (λ (n : ℕ).
              take (length rows) (
                mask_rows masking (rows ++ replicate spare x)
                  (replicate n filled ++ replicate spare zeroed))
              ≡ rows)
            (sym same) (mask_rows-filled rows (replicate spare x) (replicate spare zeroed)))

    module _ (objects : PythonObjects) (indexing : Indexing ℤ) (extremes : Extremes) where
      prepare_decode_localization_lem :
          (model : objects.Obj) (state : RuntimeState Row) (layer : objects.Obj × Str)
          (buffers : DecodeBuffers Row) (found : DecodeLocalization)
          → find_capture_layer objects state.config model ≡ ok layer
          → state.buffers ≡ some buffers
          → localization objects indexing extremes state ≡ ok found
          → prepare_decode_localization objects indexing extremes model state
            ≡ store_localization found (clear_buffers buffers) (cleared buffers state)
      unfolding prepare_decode_localization
      prepare_decode_localization_lem model state layer buffers found at_layer bound localized =
          ground arith

      -- With the capture layer found and its buffers made, a localization of at least one row and
      -- of no more rows than the buffers have is stored: the step counts its rows and has its
      -- indices, and the gather from a scratch buffer in which these rows exist then puts exactly
      -- them, in order, in front of the hidden rows.
      pub prepare_decode_localization-gathers :
          (row_indexing : Indexing Row) (model : objects.Obj) (state : RuntimeState Row)
          (layer : objects.Obj × Str) (buffers : DecodeBuffers Row) (found : DecodeLocalization)
          (scratch rows : List Row)
          → find_capture_layer objects state.config model ≡ ok layer
          → state.buffers ≡ some buffers
          → HasShape buffers
          → localization objects indexing extremes state ≡ ok found
          → 0 < length found.row_idx
          → length found.row_idx ≤ length buffers.decode_row_idx
          → gather? scratch found.row_idx ≡ some rows
          → (after : RuntimeState Row) × (now : DecodeBuffers Row) × (prepare_decode_localization
                objects indexing extremes model state
              ≡ (ok tt, after))
            × (after.buffers ≡ some now)
            × (after.step.decode_count ≡ length rows)
            × (after.step.decode_prompt_idxs ≡ found.prompt_idxs)
            × (after.step.decode_sample_idxs ≡ found.sample_idxs)
            × (take after.step.decode_count
                  (gather_decode_hidden_from_scratch masking row_indexing now
                    scratch).decode_hidden_rows_buffer
                ≡ rows)
      prepare_decode_localization-gathers row_indexing model state layer buffers found scratch rows
            at_layer bound shape localized some_rows fits e =
          let counted = length-gather? scratch found.row_idx rows e in
          (
            record (cleared buffers state) {
              buffers = some (loaded found buffers);
              step = record (cleared buffers state).step {
                decode_count = length found.row_idx;
                decode_prompt_idxs = found.prompt_idxs;
                decode_sample_idxs = found.sample_idxs;
              };
            },
            loaded found buffers,
            prepare_decode_localization_lem model state layer buffers found at_layer bound localized
                ∙ store_localization_lem found buffers (cleared buffers state) shape some_rows fits,
            refl,
            sym counted,
            refl,
            refl,
            subst
                (λ (n : ℕ).
                  take n
                    (gather_decode_hidden_from_scratch masking row_indexing (loaded found buffers)
                      scratch).decode_hidden_rows_buffer
                  ≡ rows)
                counted (gather-loaded row_indexing found buffers scratch rows some_rows e),
          )
