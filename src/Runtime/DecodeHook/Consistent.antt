-- ===== src/Runtime/DecodeHook/Consistent.antt =====
-- What the runtime says of the decode rows of a step agrees with itself.
use t_llm.Prelude.{
  ℕ, suc, ◌≡◌, refl, sym, ap, ◌∙◌, subst, Bool, true, false, Option, none, some, List, [], ◌∷◌, map,
  ltb, eqb, is_empty, length, take, length-take, take-length, length-map, Result, ok, ◌>>=◌,
  >>=-eq-ok, ok-injective, Result-cases, Option-cases, Bool-cases, inl, inr, arith,
}
use t_llm.Prelude.Int.{ℤ, pos}
use t_llm.Prelude.Str.{Str}
use t_llm.Prelude.Torch.{Indexing, Extremes}
use t_llm.Prelude.Torch.Laws.{length-gather?}
use t_llm.Common.State.{LogitsIndices}
use t_llm.Common.Snapshot.{item, present, decode_flags}
use t_llm.Producer.Decode.{DecodeLocalization, compute_decode_localization}
use t_llm.Producer.Decode.Rows.{IsLocalized}
use t_llm.Producer.Decode.Localization.{compute_decode_localization-IsLocalized}
use t_llm.Runtime.RowBatch.{items}
use t_llm.Runtime.Compaction.{kept_rows}
use t_llm.Runtime.DecodeHook.{
  Scratch, HookRuntime, PreparedStep, clear_rows, Striding, store_rows, compact_rows, store_found,
  localize_step, prepare_with_scratch, prepare_decode_rows,
}

items-length :
    {A : Type 0} (xs : List A) (rows : List ℕ) (found : List A)
    → items xs rows ≡ ok found
    → length found ≡ length rows
unfolding items
items-length xs [] found h = ap length (sym (ok-injective [] found h))
items-length xs (row ∷ rows) found h =
    let head =
      >>=-eq-ok (item xs row) (λ x. items xs rows >>= λ rest. ok (x ∷ rest)) {last = found} h in
    let tail = >>=-eq-ok (items xs rows) (λ rest. ok (head.0 ∷ rest)) {last = found} head.2 in
    ap length (sym (ok-injective (head.0 ∷ tail.0) found tail.2))
    ∙ ap suc (items-length xs rows tail.0 tail.1)

abbrev pub is_some : {A : Type 0} → Option A → Bool
is_some none = false
is_some (some a) = true

-- The metadata has an item for each decode row. With a buffer for compact rows, the compact rows are
-- the first row of each prompt that is not negative.
pub record IsConsistent (runtime : HookRuntime) : Type 0 where
  pub requests : length runtime.decode.decode_request_ids ≡ runtime.decode_count
  pub prompts : length runtime.decode.decode_prompt_idxs ≡ runtime.decode_count
  pub samples : length runtime.decode.decode_sample_idxs ≡ runtime.decode_count
  pub compact_count :
      is_some runtime.decode_compact_row_idx ≡ true
      → runtime.decode_compact_count ≡ length runtime.decode_compact_row_ids
  pub compact_rows :
      is_some runtime.decode_compact_row_idx ≡ true
      → runtime.decode_compact_row_ids ≡ kept_rows 0 [] runtime.decode.decode_prompt_idxs

clear_rows-IsConsistent : (runtime : HookRuntime) → IsConsistent (clear_rows runtime)
unfolding clear_rows kept_rows
clear_rows-IsConsistent runtime = record {
  requests = refl;
  prompts = refl;
  samples = refl;
  compact_count = λ buffer. refl;
  compact_rows = λ buffer. refl;
}

-- The four lists of a localization have the same length.
abbrev Aligned : DecodeLocalization → Type 0
Aligned found =
    (length found.decode_positions ≡ length found.row_idx)
    × (length found.prompt_idxs ≡ length found.row_idx)
    × (length found.sample_idxs ≡ length found.row_idx)

Aligned-localized :
    (resolve : Str → ℤ × ℤ) (req_ids : List Str) (logits : List ℤ) (found : DecodeLocalization)
    → IsLocalized resolve req_ids logits found
    → Aligned found
Aligned-localized resolve req_ids logits found h =
    let rows =
      length-gather? logits (map pos found.decode_positions) found.row_idx h.rows
      ∙ length-map pos found.decode_positions in
    let asked =
      length-gather? req_ids (map pos found.decode_positions) h.requests h.gathered
      ∙ length-map pos found.decode_positions in
    (
      sym rows,
      ap length h.prompts ∙ length-map (λ r. (resolve r).0) h.requests ∙ asked ∙ sym rows,
      ap length h.samples ∙ length-map (λ r. (resolve r).1) h.requests ∙ asked ∙ sym rows,
    )

module _ (striding : Striding) (indexing : Indexing ℤ) where
  compact_rows-IsConsistent :
      (found : DecodeLocalization) (buffer : Option (List ℤ)) (runtime : HookRuntime)
      → buffer ≡ runtime.decode_compact_row_idx
      → length runtime.decode.decode_request_ids ≡ runtime.decode_count
      → length runtime.decode.decode_prompt_idxs ≡ runtime.decode_count
      → length runtime.decode.decode_sample_idxs ≡ runtime.decode_count
      → take (length found.row_idx) found.prompt_idxs ≡ runtime.decode.decode_prompt_idxs
      → (compact_rows striding indexing found buffer runtime).0 ≡ ok tt
      → IsConsistent (compact_rows striding indexing found buffer runtime).1
  unfolding compact_rows
  compact_rows-IsConsistent found none runtime same requests prompts samples taken run = record {
    requests = requests;
    prompts = prompts;
    samples = samples;
    compact_count = λ there. absurd (ground (arith, same, there));
    compact_rows = λ there. absurd (ground (arith, same, there));
  }
  compact_rows-IsConsistent found (some buffer) runtime same requests prompts samples taken run =
      let positions = kept_rows 0 [] (take (length found.row_idx) found.prompt_idxs) in
      elim (Bool-cases (ltb (length buffer) (length positions))) [
        | inl over ↦ absurd (ground (arith, over, run))
        | inr fits ↦ rw fits (record {
          requests = requests;
          prompts = prompts;
          samples = samples;
          compact_count = λ there. refl;
          compact_rows = λ there. ap (kept_rows 0 []) taken;
        })
      ]

  store_found-IsConsistent :
      (needs_device_metadata : Bool) (req_ids : List Str) (found : DecodeLocalization)
      (scratch : Scratch) (runtime : HookRuntime)
      → Aligned found
      → (store_found striding indexing needs_device_metadata req_ids found scratch runtime).0
        ≡ ok tt
      → IsConsistent
          (store_found striding indexing needs_device_metadata req_ids found scratch runtime).1
  unfolding store_found store_rows
  store_found-IsConsistent needs_device_metadata req_ids found scratch runtime aligned run =
      elim (Bool-cases (is_empty found.row_idx)) [
        | inl nothing ↦ rw nothing (clear_rows-IsConsistent runtime)
        | inr rows ↦
            elim (Bool-cases (ltb (length scratch.decode_row_idx) (length found.row_idx))) [
              | inl over ↦ absurd (ground (arith, rows, over, run))
              | inr fits ↦
                  elim (Result-cases
                    (items req_ids (take (length found.row_idx) found.decode_positions))) [
                      | inr raised ↦ absurd (ground (arith, rows, fits, raised.1, run))
                      | inl ids ↦
                          let request_ids : List Str = ids.0 in
                          let stored =
                            store_rows needs_device_metadata found request_ids scratch runtime in
                          let taken : take (length found.row_idx) found.prompt_idxs
                              ≡ found.prompt_idxs =
                            ap (λ n. take n found.prompt_idxs) (sym aligned.1)
                            ∙ take-length found.prompt_idxs in
                          let counted : length request_ids ≡ length found.row_idx = omega (
                            arith,
                            items-length req_ids
                                (take (length found.row_idx) found.decode_positions) request_ids
                                ids.1,
                            length-take (length found.row_idx) found.decode_positions,
                            aligned.0,
                          ) in
                          rw (rows, fits, ids.1)
                            (compact_rows-IsConsistent found runtime.decode_compact_row_idx stored
                              refl counted aligned.1 aligned.2 taken
                              (ground (arith, rows, fits, ids.1, run)))
                    ]
            ]
      ]

  module _ (extremes : Extremes) (resolve_prompt_sample_fn : Str → ℤ × ℤ) where
    localize_step-Aligned :
        (step : PreparedStep) (logits : LogitsIndices) (found : List Str × DecodeLocalization)
        → localize_step striding indexing extremes resolve_prompt_sample_fn step logits ≡ ok found
        → Aligned found.1
    unfolding localize_step
    localize_step-Aligned step logits found h =
        let req_ids = present (take step.input_batch.num_reqs step.input_batch.req_ids) in
        let flagged =
          >>=-eq-ok (decode_flags step.input_batch req_ids)
            (λ flags.
              compute_decode_localization indexing extremes resolve_prompt_sample_fn req_ids flags
                (some logits) step.num_actual_tokens 0
              >>= λ localized. ok (req_ids, localized))
            {last = found} h in
        let localized =
          >>=-eq-ok
            (compute_decode_localization indexing extremes resolve_prompt_sample_fn req_ids
              flagged.0 (some logits) step.num_actual_tokens 0)
            (λ localized. ok (req_ids, localized)) {last = found} flagged.2 in
        let same = ok-injective (req_ids, localized.0) found localized.2 in
        subst (λ pair. Aligned pair.1) same
          (Aligned-localized resolve_prompt_sample_fn req_ids logits.values localized.0
            (compute_decode_localization-IsLocalized indexing extremes resolve_prompt_sample_fn
              req_ids flagged.0 logits step.num_actual_tokens 0 localized.0 localized.1).0)

    prepare_with_scratch-IsConsistent :
        (needs_device_metadata : Bool) (step : PreparedStep) (logits : LogitsIndices)
        (scratch : Option Scratch) (runtime : HookRuntime)
        → (prepare_with_scratch striding indexing extremes resolve_prompt_sample_fn
            needs_device_metadata step logits scratch runtime).0
          ≡ ok tt
        → IsConsistent
            (prepare_with_scratch striding indexing extremes resolve_prompt_sample_fn
              needs_device_metadata step logits scratch runtime).1
    unfolding prepare_with_scratch
    prepare_with_scratch-IsConsistent needs_device_metadata step logits none runtime run =
        absurd (cc)
    prepare_with_scratch-IsConsistent needs_device_metadata step logits (some scratch) runtime run =
        elim (Bool-cases (eqb step.num_actual_tokens 0)) [
          | inl idle ↦ rw idle (clear_rows-IsConsistent runtime)
          | inr busy ↦
              elim (Result-cases
                (localize_step striding indexing extremes resolve_prompt_sample_fn step logits)) [
                  | inr raised ↦ absurd (ground (arith, busy, raised.1, run))
                  | inl found ↦
                      rw (busy, found.1)
                        (store_found-IsConsistent needs_device_metadata found.0.0 found.0.1 scratch
                          runtime (localize_step-Aligned step logits found.0 found.1)
                          (ground (arith, busy, found.1, run)))
                ]
        ]

    -- A preparation of a step with logits rows that succeeds leaves a request id, a prompt index
    -- and a sample index for each counted decode row; with a buffer for compact rows, the compact
    -- rows are counted and are the first rows of the prompts that are not negative.
    pub prepare_decode_rows-IsConsistent :
        (needs_device_metadata : Bool) (step : PreparedStep) (runtime : HookRuntime)
        → is_some step.logits_indices ≡ true
        → (prepare_decode_rows striding indexing extremes resolve_prompt_sample_fn
            needs_device_metadata step runtime).0
          ≡ ok tt
        → IsConsistent
            (prepare_decode_rows striding indexing extremes resolve_prompt_sample_fn
              needs_device_metadata step runtime).1
    unfolding prepare_decode_rows
    prepare_decode_rows-IsConsistent needs_device_metadata step runtime given run =
        elim (Option-cases step.logits_indices) [
          | inl missing ↦ absurd (ground (arith, missing, given))
          | inr logits ↦
              let prepared : Option LogitsIndices → Result (Unit {0}) × HookRuntime =
                λ given_logits. elim given_logits [
                  | none ↦ (ok tt, runtime)
                  | some found ↦
                      prepare_with_scratch striding indexing extremes resolve_prompt_sample_fn
                        needs_device_metadata step found runtime.scratch runtime
                ] in
              subst (λ given_logits. IsConsistent (prepared given_logits).1) (sym logits.1)
                (prepare_with_scratch-IsConsistent needs_device_metadata step logits.0
                  runtime.scratch runtime
                  (subst (λ given_logits. (prepared given_logits).0 ≡ ok tt) logits.1 run))
        ]
