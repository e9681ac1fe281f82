-- ===== src/Tests/DecodeHook.antt =====
-- A step of three requests, of which two decode for the same prompt.
use t_llm.Prelude.{
  ℕ, ◌≡◌, refl, true, false, none, some, List, [], ◌∷◌, drop, list_eq, nat_eq, Result, ok,
}
use t_llm.Prelude.Int.{ℤ, pos, int_eq}
use t_llm.Prelude.Str.{Str, codes}
use t_llm.Prelude.Dict.{lookup}
use t_llm.Prelude.Torch.{zeroed}
use t_llm.Common.Snapshot.{present, is_decode, decode_flags}
use t_llm.Producer.Decode.{
  decode_positions_from, is_contiguous, select_rows, out_of_range, resolve_positions, localize,
  compute_decode_localization,
}
use t_llm.Producer.DecodeStep.{overwrite}
use t_llm.Runtime.RowBatch.{items}
use t_llm.Runtime.RowView.{all_steps, last_of}
use t_llm.Runtime.Compaction.{kept_rows}
use t_llm.Runtime.DecodeHook.{
  HookRuntime, PreparedStep, Striding, store_scratch, store_rows, regular_position_view,
  compact_values, compact_rows, store_found, localize_step, prepare_with_scratch,
  prepare_decode_rows,
}
use t_llm.Runtime.DecodeHook.Consistent.{IsConsistent, prepare_decode_rows-IsConsistent}
use t_llm.Tests.Tensors.{list_indexing, list_extremes}

abbrev strided : List ℤ → ℕ → ℕ → ℕ → List ℤ
strided xs start step n = drop start xs

abbrev striding : Striding
striding = record { as_strided = strided }

abbrev resolve : Str → ℤ × ℤ
resolve req_id = (pos 4, pos 0)

abbrev step : PreparedStep
step = record {
  logits_indices = some (record { values = pos 2 ∷ pos 7 ∷ pos 8 ∷ []; on_cuda = false });
  num_actual_tokens = 9;
  input_batch = record {
    req_ids = some (codes "a") ∷ some (codes "b") ∷ some (codes "c") ∷ [];
    num_reqs = 3;
    req_id_to_index = (codes "a", 0) ∷ (codes "b", 1) ∷ (codes "c", 2) ∷ [];
    num_prompt_tokens = 5 ∷ 3 ∷ 3 ∷ [];
    num_computed_tokens_cpu = 0 ∷ 3 ∷ 4 ∷ [];
  };
}

abbrev runtime : HookRuntime
runtime = record {
  scratch = some (record {
    decode_row_idx = pos 0 ∷ pos 0 ∷ pos 0 ∷ [];
    decode_valid_mask = zeroed ∷ zeroed ∷ zeroed ∷ [];
    decode_prompt_idx_buf = pos 0 ∷ pos 0 ∷ pos 0 ∷ [];
    decode_sample_idx_buf = pos 0 ∷ pos 0 ∷ pos 0 ∷ [];
  });
  decode = record {
    decode_request_ids = [];
    decode_prompt_idxs = [];
    decode_sample_idxs = [];
    event_step_id = 1;
  };
  decode_count = 0;
  decode_prompt_idx_tensor = none;
  decode_sample_idx_tensor = none;
  decode_compact_row_idx = some (pos 0 ∷ pos 0 ∷ []);
  decode_compact_count = 0;
  decode_compact_row_ids = [];
}

prepared : Result (Unit {0}) × HookRuntime
prepared = prepare_decode_rows striding list_indexing list_extremes resolve true step runtime

prepared_lem : prepared.0 ≡ ok tt
unfolding prepared prepare_decode_rows prepare_with_scratch localize_step store_found store_rows
    store_scratch compact_rows compact_values regular_position_view all_steps last_of kept_rows
    items overwrite decode_flags is_decode present compute_decode_localization localize
    decode_positions_from select_rows is_contiguous out_of_range resolve_positions lookup list_eq
    nat_eq int_eq
prepared_lem = refl

-- The rows 7 and 8 are those of one prompt, so the first of them is the one compact row.
compact_lem :
    (prepared.1.decode_compact_row_ids ≡ 0 ∷ [])
    × (prepared.1.decode.decode_request_ids ≡ codes "b" ∷ codes "c" ∷ [])
unfolding prepared prepare_decode_rows prepare_with_scratch localize_step store_found store_rows
    store_scratch compact_rows compact_values regular_position_view all_steps last_of kept_rows
    items overwrite decode_flags is_decode present compute_decode_localization localize
    decode_positions_from select_rows is_contiguous out_of_range resolve_positions lookup list_eq
    nat_eq int_eq
compact_lem = (refl, refl)

prepare_decode_rows-IsConsistent_example : IsConsistent prepared.1
unfolding prepared
prepare_decode_rows-IsConsistent_example =
    prepare_decode_rows-IsConsistent striding list_indexing list_extremes resolve true step runtime
      refl prepared_lem
