-- ===== src/Producer/DecodeStep/Export.antt =====
-- What the export loops of the decode and the prefill producer add to the captured rows.
use t_llm.Prelude.{
  ℕ, zero, suc, ◌≤◌, ◌≡◌, refl, ◌∙◌, true, false, some, List, [], ◌∷◌, ◌++◌, append_assoc,
  append-nil, arith, if◌then◌else◌, length, ◌==◌, ok,
}
use t_llm.Prelude.Int.{ℤ, is_negative, int_eq}
use t_llm.Prelude.Dict.{Dict, lookup-insert}
use t_llm.Common.State.{DecodeBuffers, RuntimeState}
use t_llm.Producer.DecodeStep.{rows_at, append_row, export_rows, export_decode_capture}

module _ {Row : Type 0} where
  -- The first `count` rows that belong to the prompt, in order.
  abbrev pub rows_of : ℕ → ℤ → List ℤ → List Row → List Row
  rows_of (suc count) prompt (p ∷ prompt_idxs) (row ∷ rows) =
      let rest = rows_of count prompt prompt_idxs rows in if p == prompt then row ∷ rest else rest
  rows_of _ prompt _ _ = []

  rows_at-append_row :
      (p prompt : ℤ) (row : Row) (captured : Dict ℤ (List Row))
      → rows_at (append_row p row captured) prompt
        ≡ (if p == prompt then rows_at captured prompt ++ (row ∷ []) else rows_at captured prompt)
  unfolding append_row
  rows_at-append_row p prompt row captured =
      ground (arith, lookup-insert prompt p (rows_at captured p ++ (row ∷ [])) captured)

  unchanged :
      (captured : Dict ℤ (List Row)) (prompt : ℤ)
      → rows_at captured prompt
        ≡ (if is_negative prompt then rows_at captured prompt else rows_at captured prompt ++ [])
  unchanged captured prompt = ground (arith, append-nil (rows_at captured prompt))

  -- The loop appends to each prompt the rows that belong to it, in order, and changes nothing else;
  -- what is stored under a negative index, which is no prompt, stays as it is.
  pub rows_at-export_rows :
      (count : ℕ) (prompt_idxs : List ℤ) (rows : List Row) (captured : Dict ℤ (List Row))
      (prompt : ℤ)
      → rows_at (export_rows count prompt_idxs rows captured) prompt ≡ (
          if is_negative prompt
          then rows_at captured prompt
          else rows_at captured prompt ++ rows_of count prompt prompt_idxs rows)
  unfolding export_rows
  rows_at-export_rows (suc count) (p ∷ ps) (row ∷ rows) captured prompt =
      let next = if is_negative p then captured else append_row p row captured in
      rows_at-export_rows count ps rows next prompt
      ∙ ground (
        arith,
        rows_at-append_row p prompt row captured,
        append_assoc (rows_at captured prompt) (row ∷ []) (rows_of count prompt ps rows),
      )
  rows_at-export_rows zero ps rows captured prompt = unchanged captured prompt
  rows_at-export_rows (suc count) [] rows captured prompt = unchanged captured prompt
  rows_at-export_rows (suc count) (p ∷ ps) [] captured prompt = unchanged captured prompt

  -- Whether the step's metadata and buffer cover its count of decode rows.
  pub record IsExportable (state : RuntimeState Row) (buffers : DecodeBuffers Row) : Type 0 where
    pub bound : state.buffers ≡ some buffers
    pub prompts : state.step.decode_count ≤ length state.step.decode_prompt_idxs
    pub samples : state.step.decode_count ≤ length state.step.decode_sample_idxs
    pub rows : state.step.decode_count ≤ length buffers.decode_hidden_rows_buffer

  export_decode_capture_lem :
      (state : RuntimeState Row) (buffers : DecodeBuffers Row)
      → state.capture_active ≡ true
      → state.decode_hidden_rows ≡ true
      → IsExportable state buffers
      → export_decode_capture state ≡ (
        ok tt,
        record state {
          captured_decode =
              export_rows state.step.decode_count state.step.decode_prompt_idxs
                buffers.decode_hidden_rows_buffer state.captured_decode;
        },
      )
  unfolding export_decode_capture
  export_decode_capture_lem state buffers active bound covered = ground arith

  -- While capturing, with the buffer bound and metadata and a buffer that cover the count of
  -- decode rows, the export succeeds, and a prompt that is not negative gets its rows of the
  -- buffer, in order, behind those captured before.
  pub rows_at-export_decode_capture :
      (state : RuntimeState Row) (buffers : DecodeBuffers Row) (prompt : ℤ)
      → state.capture_active ≡ true
      → state.decode_hidden_rows ≡ true
      → IsExportable state buffers
      → is_negative prompt ≡ false
      → ((export_decode_capture state).0 ≡ ok tt)
        × (rows_at (export_decode_capture state).1.captured_decode prompt
            ≡ rows_at state.captured_decode prompt
              ++ rows_of state.step.decode_count prompt state.step.decode_prompt_idxs
                  buffers.decode_hidden_rows_buffer)
  rows_at-export_decode_capture state buffers prompt active bound covered valid =
      rw (export_decode_capture_lem state buffers active bound covered) (
        refl,
        ground (
          arith,
          rows_at-export_rows state.step.decode_count state.step.decode_prompt_idxs
              buffers.decode_hidden_rows_buffer state.captured_decode prompt,
        ),
      )
