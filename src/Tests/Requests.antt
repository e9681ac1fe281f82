-- ===== src/Tests/Requests.antt =====
-- Request ids and configurations, on concrete values.
use t_llm.Prelude.{
  ℕ, ◌≡◌, refl, ◌⊎◌, true, false, Option, none, some, [], ◌∷◌, list_eq, nat_eq, Result, ok, err,
  runtime_error, empty_layer_path,
}
use t_llm.Prelude.Int.{ℤ, pos, negsuc}
use t_llm.Prelude.Dict.{Dict, lookup}
use t_llm.Prelude.Str.{Str, codes, strip}
use t_llm.Common.State.{StepState, RuntimeState, resolve_prompt_sample_for_req_id, configure}
use t_llm.Common.State.Requests.{child_id, Origin, resolve-child_id, resolve-Origin}
use t_llm.Common.State.Configure.{
  IsConfigured, Configured, configure-IsConfigured, configure_outcome,
}

abbrev pub two_requests : Dict Str ℤ
two_requests = (codes "a", pos 0) ∷ (codes "b_1", pos 7) ∷ []

resolve-child_id_example :
    resolve_prompt_sample_for_req_id two_requests (child_id (codes "12") (codes "b_1"))
    ≡ (pos 7, pos 12)
unfolding lookup list_eq nat_eq
resolve-child_id_example =
    resolve-child_id two_requests (codes "12") (codes "b_1") (pos 7) (λ e. cc) (refl, (refl, tt))
      refl refl

resolve-Origin_example :
    Origin two_requests (codes "b_1") (resolve_prompt_sample_for_req_id two_requests (codes "b_1"))
resolve-Origin_example = resolve-Origin two_requests (codes "b_1")

abbrev pub empty_step : StepState
empty_step = record {
  req_ids = [];
  req_id_to_index = [];
  is_decode_req = [];
  logits_indices = none;
  num_actual_tokens = 0;
  num_prompt_tokens = [];
  num_computed_tokens = [];
  num_scheduled_tokens_np = none;
  decode_count = 0;
  decode_prompt_idxs = [];
  decode_sample_idxs = [];
  prefill_count = 0;
  prefill_row_indices = [];
  prefill_prompt_idxs = [];
  prefill_sample_idxs = [];
  prefill_token_offsets = [];
}

-- A state that captures the first layer, by its index.
abbrev pub first_layer : RuntimeState ℕ
first_layer = record {
  config = record {
    graph_scratch_rows = 4;
    enable_decode_producer = true;
    enable_prefill_producer = true;
    capture_layer_path = [];
    capture_layer_index = some (pos 0);
  };
  step = empty_step;
  capture_active = true;
  reqid_to_promptidx = two_requests;
  captured_decode = [];
  captured_prefill = [];
  decode_hidden_rows = false;
  prefill_hidden_rows = none;
  buffers = none;
}

configure-IsConfigured_example :
    IsConfigured (configure (negsuc 1) true (some (codes " model.x ")) none first_layer).1.config
configure-IsConfigured_example =
    configure-IsConfigured (negsuc 1) true (some (codes " model.x ")) none first_layer refl

abbrev blank : Result (Unit {0}) × RuntimeState ℕ
blank = configure (pos 2) false (some (codes "  ")) none first_layer

configure_outcome_example :
    ((◌≡◌ {A = Option ℤ} none none)
      × (p : Str) × (◌≡◌ {A = Option Str} (some (codes "  ")) (some p))
      × (strip p ≡ [])
      × (blank.0 ≡ err (runtime_error empty_layer_path))
      × (blank.1.config.capture_layer_path ≡ first_layer.config.capture_layer_path)
      × (blank.1.step ≡ first_layer.step))
    ⊎ ((blank.0 ≡ ok tt) × Configured (pos 2) false (some (codes "  ")) none first_layer blank.1)
configure_outcome_example = configure_outcome (pos 2) false (some (codes "  ")) none first_layer
