-- ===== src/Common/State/Configure.antt =====
-- `RuntimeState.configure`: the capture layer is named by an index or by a path, never by both.
use t_llm.Prelude.{
  ◌≡◌, ◌≢◌, refl, ap, ◌∙◌, ◌⊎◌, inl, inr, Bool, true, false, not, Option, none, some, [], ◌∷◌,
  arith, is_empty, Bool-cases, ok, err, runtime_error, empty_layer_path,
}
use mathlib.Core.Option.{some-injective}
use t_llm.Prelude.Int.{ℤ, clamp_zero}
use t_llm.Prelude.Str.{Str, strip}
use t_llm.Common.State.{
  RuntimeConfig, RuntimeState, is_none_index, configure, reset_localization_outputs,
}
use t_llm.Common.State.Outputs.{NoOutputs, reset_localization_outputs-NoOutputs}

-- Exactly one of the index and the path names the layer.
abbrev not_empty : Str → Bool
not_empty s = not (is_empty s)

abbrev pub IsConfigured : RuntimeConfig → Type 0
IsConfigured c = is_none_index c.capture_layer_index ≡ not_empty c.capture_layer_path

nil_of_is_empty : (s : Str) → is_empty s ≡ true → s ≡ []
nil_of_is_empty [] h = refl
nil_of_is_empty (c ∷ s) h = cc

not_nil_of_is_empty : (s : Str) → is_empty s ≡ false → s ≢ []
not_nil_of_is_empty [] h = cc
not_nil_of_is_empty (c ∷ s) h = λ e. cc

module _ {Row : Type 0} where
  -- Configuring, also where it raises, keeps the layer named by an index or by a path and never
  -- by both or neither.
  pub configure-IsConfigured :
      (rows : ℤ) (prefill : Bool) (path : Option Str) (index : Option ℤ) (state : RuntimeState Row)
      → IsConfigured state.config
      → IsConfigured (configure rows prefill path index state).1.config
  unfolding configure
  configure-IsConfigured rows prefill path (some i) state h = refl
  configure-IsConfigured rows prefill (some p) none state h = ground arith
  configure-IsConfigured rows prefill none none state h = ground arith

  -- What a successful call leaves: the row count is clamped at zero, capture is off, the outputs of
  -- the last step are gone, and the layer is the one asked for, where one was.
  pub record Configured (rows : ℤ) (prefill : Bool) (path : Option Str) (index : Option ℤ)
      (before after : RuntimeState Row) : Type 0 where
    pub scratch : after.config.graph_scratch_rows ≡ clamp_zero rows
    pub producer : after.config.enable_prefill_producer ≡ prefill
    pub capture : after.capture_active ≡ false
    pub outputs : NoOutputs after.step
    pub requests :
        (after.step.req_ids ≡ before.step.req_ids)
        × (after.step.is_decode_req ≡ before.step.is_decode_req)
    pub by_index : (i : ℤ) → index ≡ some i → after.config.capture_layer_index ≡ some i
    pub by_path :
        (p : Str)
        → index ≡ none
        → path ≡ some p
        → (after.config.capture_layer_path ≡ strip p) × (strip p ≢ [])

  -- Configuring fails exactly on a blank path given without an index, and then keeps the layer
  -- path and the step; otherwise it succeeds, clamps the row count at zero, turns capture off,
  -- empties all outputs of the last step (both counts and all six lists), keeps the step's
  -- requests and their flags, and names the layer that was asked for, by the index or by the
  -- stripped path.
  pub configure_outcome :
      (rows : ℤ) (prefill : Bool) (path : Option Str) (index : Option ℤ) (state : RuntimeState Row)
      → ((index ≡ none)
          × (p : Str) × (path ≡ some p)
          × (strip p ≡ [])
          × ((configure rows prefill path index state).0 ≡ err (runtime_error empty_layer_path))
          × ((configure rows prefill path index state).1.config.capture_layer_path
              ≡ state.config.capture_layer_path)
          × ((configure rows prefill path index state).1.step ≡ state.step))
        ⊎ (((configure rows prefill path index state).0 ≡ ok tt)
            × Configured rows prefill path index state (configure rows prefill path index state).1)
  unfolding configure reset_localization_outputs
  configure_outcome rows prefill path (some i) state = inr (
    refl,
    record {
      scratch = refl;
      producer = refl;
      capture = refl;
      outputs = reset_localization_outputs-NoOutputs state.step;
      requests = (refl, refl);
      by_index = λ j e. e;
      by_path = λ p e. absurd (cc);
    },
  )
  configure_outcome rows prefill (some p) none state = elim (Bool-cases (is_empty (strip p))) [
    | inl blank ↦
        inl
          (refl, p, refl, nil_of_is_empty (strip p) blank, ground arith, ground arith, ground arith)
    | inr text ↦ inr (
      ground arith,
      record {
        scratch = ground arith;
        producer = ground arith;
        capture = ground arith;
        outputs = rw text (reset_localization_outputs-NoOutputs state.step);
        requests = (ground arith, ground arith);
        by_index = λ j e. absurd (cc);
        by_path = λ q i e. (
          ground arith,
          λ b. not_nil_of_is_empty (strip p) text (ap strip (some-injective p q e) ∙ b),
        );
      },
    )
  ]
  configure_outcome rows prefill none none state = inr (
    refl,
    record {
      scratch = ground arith;
      producer = ground arith;
      capture = refl;
      outputs = reset_localization_outputs-NoOutputs state.step;
      requests = (refl, refl);
      by_index = λ j e. absurd (cc);
      by_path = λ q i e. absurd (cc);
    },
  )
