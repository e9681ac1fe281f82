-- ===== src/Producer/Prefill.antt =====
-- tllm/producer/prefill.py: the prefill rows of a step, and their export.
pub mod Plan
pub mod Bounds
pub mod Export
use t_llm.Prelude.{
  ℕ, zero, suc, ◌+◌, ◌-◌, min, Bool, true, false, not, ◌||◌, Option, none, some, List, [], ◌∷◌,
  ◌++◌, map, if◌then◌else◌, ltb, eqb, is_empty, length, take, replicate, range_from, Result, ok,
  err, ◌>>=◌, runtime_error, prompt_mismatch, buffer_mismatch, stash_mismatch, list_eq, nat_eq,
}
use t_llm.Prelude.Int.{ℤ, pos}
use t_llm.Prelude.Dict.{lookup}
use t_llm.Prelude.Str.{Str}
use t_llm.Prelude.Torch.{Indexing}
use t_llm.Common.State.{StepState, RuntimeState, resolve_prompt_sample_for_req_id}
use t_llm.Common.Snapshot.{item}
use t_llm.Producer.DecodeStep.{export_rows}

pub clear_prefill : StepState → StepState
clear_prefill step = record step {
  prefill_count = 0;
  prefill_row_indices = [];
  prefill_prompt_idxs = [];
  prefill_sample_idxs = [];
  prefill_token_offsets = [];
}

-- The inner loop: `prefill_len` rows of one request, appended to the step's four lists.
pub append_rows : (row_base computed prefill_len : ℕ) → ℤ × ℤ → StepState → StepState
append_rows row_base computed zero resolved step = step
append_rows row_base computed (suc n) resolved step =
    append_rows (suc row_base) (suc computed) n resolved (record step {
      prefill_row_indices = step.prefill_row_indices ++ (row_base ∷ []);
      prefill_prompt_idxs = step.prefill_prompt_idxs ++ (resolved.0 ∷ []);
      prefill_sample_idxs = step.prefill_sample_idxs ++ (resolved.1 ∷ []);
      prefill_token_offsets = step.prefill_token_offsets ++ (computed ∷ []);
    })

module _ (resolve : Str → ℤ × ℤ) where
  -- One request of the outer loop that is scheduled, at `row_base`. `max(0, min(scheduled,
  -- prompt_len - computed))` is the truncated difference.
  pub plan_request : (row_base scheduled : ℕ) → Str → Option ℕ → StepState → Result StepState
  plan_request row_base scheduled req_id none step = ok step
  plan_request row_base scheduled req_id (some req_idx) step = do
    prompt_len ← item step.num_prompt_tokens req_idx
    computed ← item step.num_computed_tokens req_idx
    ok (append_rows row_base computed (min scheduled (prompt_len - computed)) (resolve req_id) step)

  -- `continue` for a request with nothing scheduled
  pub plan_scheduled : (row_base scheduled : ℕ) → Str → StepState → Result StepState
  plan_scheduled row_base zero req_id step = ok step
  plan_scheduled row_base (suc s) req_id step =
      plan_request row_base (suc s) req_id (lookup req_id step.req_id_to_index) step

  -- The outer loop; it breaks where the array of scheduled tokens ends. What was appended before an
  -- error comes back with it.
  pub plan_requests : (row_base : ℕ) → List Str → List ℕ → StepState → Result (Unit {0}) × StepState
  plan_requests row_base (req_id ∷ req_ids) (scheduled ∷ tokens) step =
      elim (plan_scheduled row_base scheduled req_id step) [
        | err e ↦ (err e, step)
        | ok next ↦ plan_requests (row_base + scheduled) req_ids tokens next
      ]
  plan_requests row_base _ _ step = (ok tt, step)

-- `step.prefill_count = len(step.prefill_row_indices)`, which an error does not reach
pub count_planned : Result (Unit {0}) × StepState → Result (Unit {0}) × StepState
count_planned (err e, step) = (err e, step)
count_planned (ok u, step) = (ok u, record step { prefill_count = length step.prefill_row_indices })

pub plan_prefill : (Str → ℤ × ℤ) → Option (List ℕ) → StepState → Result (Unit {0}) × StepState
plan_prefill resolve none step = (ok tt, step)
plan_prefill resolve (some tokens) step =
    count_planned (plan_requests resolve 0 step.req_ids tokens step)

module _ {Row : Type 0} where
  pub prepare_prefill_localization : RuntimeState Row → Result (Unit {0}) × RuntimeState Row
  prepare_prefill_localization state =
      let step = clear_prefill state.step in
      let planned =
        plan_prefill (resolve_prompt_sample_for_req_id state.reqid_to_promptidx)
          step.num_scheduled_tokens_np step in
      if not state.config.enable_prefill_producer
      then (ok tt, record state { prefill_hidden_rows = none; step = step })
      else (planned.0, record state { prefill_hidden_rows = none; step = planned.1 })

  pub stash_prefill_hidden_from_layer_output :
      Indexing Row → List Row → RuntimeState Row → Result (Unit {0}) × RuntimeState Row
  stash_prefill_hidden_from_layer_output indexing layer_out state =
      let cleared = record state { prefill_hidden_rows = none } in
      let selected = indexing.index_select layer_out (map pos state.step.prefill_row_indices) in
      if not state.config.enable_prefill_producer
        || eqb state.step.prefill_count 0
        || is_empty layer_out
        || is_empty state.step.prefill_row_indices
      then (ok tt, cleared)
      else if not (eqb (length selected) state.step.prefill_count)
      then (err (runtime_error stash_mismatch), cleared)
      else (ok tt, record state { prefill_hidden_rows = some selected })

  pub export_selected : Option (List Row) → RuntimeState Row → Result (Unit {0}) × RuntimeState Row
  export_selected none state = (ok tt, state)
  export_selected (some selected) state =
      let k = state.step.prefill_count in
      if eqb k 0
      then (ok tt, state)
      else if ltb (length state.step.prefill_prompt_idxs) k
      then (err (runtime_error prompt_mismatch), state)
      else if ltb (length selected) k
      then (err (runtime_error buffer_mismatch), state)
      else (
        ok tt,
        record state {
          captured_prefill =
              export_rows k state.step.prefill_prompt_idxs selected state.captured_prefill;
          prefill_hidden_rows = none;
        },
      )

  pub export_prefill_capture : RuntimeState Row → Result (Unit {0}) × RuntimeState Row
  export_prefill_capture state =
      if not state.capture_active || not state.config.enable_prefill_producer
      then (ok tt, state)
      else export_selected state.prefill_hidden_rows state
