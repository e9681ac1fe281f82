-- ===== src/Tests/Prefill.antt =====
-- A step of three requests that schedules prompt tokens for two of them.
use t_llm.Prelude.{ℕ, ◌≡◌, refl, none, some, List, [], ◌∷◌, arith, list_eq, nat_eq, ok}
use t_llm.Prelude.Int.{pos, int_eq}
use t_llm.Prelude.Dict.{lookup}
use t_llm.Prelude.Str.{codes, break_at, isdigit}
use t_llm.Common.State.{RuntimeState, resolve_child, resolve_prompt_sample_for_req_id}
use t_llm.Producer.DecodeStep.{rows_at}
use t_llm.Producer.Prefill.{
  prepare_prefill_localization, export_prefill_capture, stash_prefill_hidden_from_layer_output,
}
use t_llm.Producer.Prefill.Plan.{PlannedRow, plan_of, prepare_prefill_localization-plans}
use t_llm.Producer.Prefill.Bounds.{IsRising, prepare_prefill_localization-IsRising}
use t_llm.Producer.Prefill.Export.{rows_at-export_prefill_capture}
use t_llm.Tests.Tensors.{list_indexing}
use t_llm.Tests.Requests.{empty_step, first_layer}

-- The first request decodes; the second has two prompt tokens left, the third one of its three
-- scheduled tokens.
abbrev scheduled : List ℕ
scheduled = 1 ∷ 2 ∷ 3 ∷ []

abbrev in_step : RuntimeState ℕ
in_step = record first_layer {
  step = record empty_step {
    req_ids = codes "a" ∷ codes "b_1" ∷ codes "4_a" ∷ [];
    req_id_to_index = (codes "a", 0) ∷ (codes "b_1", 1) ∷ (codes "4_a", 2) ∷ [];
    num_prompt_tokens = 3 ∷ 7 ∷ 5 ∷ [];
    num_computed_tokens = 3 ∷ 5 ∷ 4 ∷ [];
    num_scheduled_tokens_np = some scheduled;
  };
}

abbrev planned : List PlannedRow
planned =
    record { row = 1; prompt = pos 7; sample = pos 0; offset = 5 }
    ∷ record { row = 2; prompt = pos 7; sample = pos 0; offset = 6 }
    ∷ record { row = 3; prompt = pos 0; sample = pos 4; offset = 4 }
    ∷ []

plan_lem : plan_of in_step scheduled ≡ ok planned
unfolding resolve_prompt_sample_for_req_id resolve_child lookup break_at isdigit list_eq nat_eq
plan_lem = refl

prepare_prefill_localization-plans_example :
    (after : RuntimeState ℕ) × (prepare_prefill_localization in_step ≡ (ok tt, after))
    × (after.step.prefill_count ≡ 3)
    × (after.step.prefill_row_indices ≡ 1 ∷ 2 ∷ 3 ∷ [])
    × (after.step.prefill_prompt_idxs ≡ pos 7 ∷ pos 7 ∷ pos 0 ∷ [])
    × (after.step.prefill_sample_idxs ≡ pos 0 ∷ pos 0 ∷ pos 4 ∷ [])
    × (after.step.prefill_token_offsets ≡ 5 ∷ 6 ∷ 4 ∷ [])
prepare_prefill_localization-plans_example =
    prepare_prefill_localization-plans in_step scheduled planned refl refl plan_lem

prepare_prefill_localization-IsRising_example :
    IsRising 0 6 (prepare_prefill_localization in_step).1.step.prefill_row_indices
prepare_prefill_localization-IsRising_example =
    prepare_prefill_localization-IsRising in_step scheduled planned refl refl plan_lem

abbrev with_plan : RuntimeState ℕ
with_plan = record first_layer {
  step = record empty_step {
    prefill_count = 3;
    prefill_row_indices = 1 ∷ 2 ∷ 3 ∷ [];
    prefill_prompt_idxs = pos 7 ∷ pos 7 ∷ pos 0 ∷ [];
  };
  captured_prefill = (pos 7, 60 ∷ []) ∷ [];
}

rows_at-export_prefill_capture_example :
    let after =
      export_prefill_capture
        (stash_prefill_hidden_from_layer_output list_indexing
          (10 ∷ 11 ∷ 12 ∷ 13 ∷ [])
          with_plan).1 in
    (after.0 ≡ ok tt)
    × (after.1.prefill_hidden_rows ≡ none)
    × (rows_at after.1.captured_prefill (pos 7) ≡ 60 ∷ 11 ∷ 12 ∷ [])
unfolding lookup int_eq nat_eq
rows_at-export_prefill_capture_example =
    rows_at-export_prefill_capture list_indexing with_plan (10 ∷ 11 ∷ 12 ∷ 13 ∷ [])
      (11 ∷ 12 ∷ 13 ∷ []) (pos 7)
      (record { enabled = refl; some_rows = omega arith; rows = refl; prompts = refl }) refl refl
      refl
