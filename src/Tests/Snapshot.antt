-- ===== src/Tests/Snapshot.antt =====
-- A batch with an empty slot, a request that decodes, one that does not, and one it does not know.
use t_llm.Prelude.{◌≡◌, refl, true, false, none, some, [], ◌∷◌, list_eq, nat_eq, ok}
use t_llm.Prelude.Dict.{lookup}
use t_llm.Prelude.Str.{codes}
use t_llm.Common.State.{StepState, reset_localization_outputs}
use t_llm.Common.Snapshot.{InputBatch, present, is_decode, decode_flags, snapshot_step_common}
use t_llm.Common.Snapshot.Flags.{IsSnapshot, snapshot_step_common-IsSnapshot}
use t_llm.Tests.Requests.{empty_step}

abbrev batch : InputBatch
batch = record {
  req_ids =
      some (codes "a") ∷ none ∷ some (codes "b") ∷ some (codes "x") ∷ some (codes "late") ∷ [];
  num_reqs = 4;
  req_id_to_index = (codes "a", 0) ∷ (codes "b", 2) ∷ [];
  num_prompt_tokens = 5 ∷ 0 ∷ 8 ∷ [];
  num_computed_tokens_cpu = 6 ∷ 0 ∷ 7 ∷ [];
}

abbrev before : StepState
before = record empty_step { decode_count = 3; prefill_row_indices = 1 ∷ [] }

abbrev after : StepState
after = record empty_step {
  req_ids = codes "a" ∷ codes "b" ∷ codes "x" ∷ [];
  req_id_to_index = (codes "a", 0) ∷ (codes "b", 2) ∷ [];
  is_decode_req = true ∷ false ∷ false ∷ [];
  num_actual_tokens = 4;
  num_prompt_tokens = 5 ∷ 0 ∷ 8 ∷ [];
  num_computed_tokens = 6 ∷ 0 ∷ 7 ∷ [];
}

taken : snapshot_step_common batch none 4 none before ≡ ok after
unfolding snapshot_step_common decode_flags is_decode present reset_localization_outputs lookup
    list_eq nat_eq
taken = refl

snapshot_step_common-IsSnapshot_example : IsSnapshot batch after
snapshot_step_common-IsSnapshot_example =
    snapshot_step_common-IsSnapshot batch none 4 none before after taken
