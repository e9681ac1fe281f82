-- ===== src/Runtime/Precompute.antt =====
-- `SamplerPrecomputeState` and `ResidualRuntimeState.reset_step` of tllm/runtime/residual_runtime.py,
-- `maybe_prepare_sampler_decode_step` and `maybe_schedule_sampler_precompute` of
-- tllm/runtime/vllm_patch/sampler_patch.py, and `maybe_launch_post_logits_decode_work` of
-- tllm/runtime/vllm_patch/port_runtime_hooks.py. CUDA streams and events are left out. What the
-- sampler provider is asked for is a call in a log; a tensor is the list of its rows.
pub mod Once
use t_llm.Prelude.{
  ℕ, zero, suc, ◌+◌, Bool, true, false, not, ◌&&◌, ◌||◌, Option, none, some, List, [], ◌∷◌, ◌++◌,
  map, if◌then◌else◌, ltb, leb, eqb, is_empty, length, take, replicate, ◌==◌, list_eq, nat_eq,
}
use t_llm.Prelude.Int.{ℤ, pos, negsuc, is_negative, int_eq}
use t_llm.Prelude.Str.{Str, strip}
use t_llm.Prelude.Torch.{Indexing}

pub record PrecomputeCache (Row : Type 0) : Type 0 where
  pub step_id : ℤ
  pub row_ids : List ℕ
  pub pred_hidden : List Row
  pub dense_logits : Option (List Row)
  pub all_rows : Bool

pub record PrecomputeBuffers (Row : Type 0) : Type 0 where
  pub pred_hidden : List Row
  pub valid_mask : List Bool
  pub all_row_ids : List ℕ
  pub dense_logits : Option (List Row)

pub record SamplerPrecompute (Row : Type 0) : Type 0 where
  pub buffers : Option (PrecomputeBuffers Row)
  pub cache : Option (PrecomputeCache Row)
  pub source_enabled : Bool
  pub source_capture_step_id : ℤ
  pub port_enabled : Bool
  pub port_capture_step_id : ℤ
  pub port_publish_step_id : ℤ
  pub port_consume_step_id : ℤ
  pub precomputed_step_id : ℤ
  pub all_rows : Bool
  pub port_publish_attempt_count : ℕ
  pub port_publish_hit_count : ℕ

abbrev pub no_step : ℤ
no_step = negsuc 0

-- The numbers of the rows that a mask marks, from `row` on: `nonzero`
unfoldable pub marked_rows : ℕ → List Bool → List ℕ
marked_rows row [] = []
marked_rows row (mark ∷ mask) =
    let rest = marked_rows (suc row) mask in if mark then row ∷ rest else rest

module _ {Row : Type 0} where
  unfoldable pub reset_precompute_step : SamplerPrecompute Row → SamplerPrecompute Row
  reset_precompute_step precompute = record precompute {
    source_enabled = false;
    source_capture_step_id = no_step;
    port_capture_step_id = no_step;
    port_publish_step_id = no_step;
    port_consume_step_id = no_step;
    precomputed_step_id = no_step;
    cache = none;
    all_rows = false;
  }

  -- `valid_mask.zero_()`
  abbrev pub clear_mask : Option (PrecomputeBuffers Row) → Option (PrecomputeBuffers Row)
  clear_mask none = none
  clear_mask (some buffers) =
      some (record buffers { valid_mask = replicate (length buffers.valid_mask) false })

  unfoldable pub reset_decode_step : ℤ → SamplerPrecompute Row → SamplerPrecompute Row
  reset_decode_step step_id precompute = record precompute {
    source_enabled = false;
    source_capture_step_id = no_step;
    port_capture_step_id = no_step;
    port_publish_step_id = no_step;
    port_consume_step_id = no_step;
    precomputed_step_id = step_id;
    cache = none;
    all_rows = false;
    buffers = clear_mask precompute.buffers;
  }

  unfoldable pub cache_for_step : ℤ → SamplerPrecompute Row → Option (PrecomputeCache Row)
  cache_for_step step_id precompute = elim precompute.cache [
    | none ↦ none
    | some cache ↦ if not (cache.step_id == step_id) then none else some cache
  ]

  unfoldable pub store_cache : PrecomputeCache Row → SamplerPrecompute Row → SamplerPrecompute Row
  store_cache cache precompute = record precompute {
    precomputed_step_id = cache.step_id;
    cache = some cache;
    all_rows = cache.all_rows;
  }

pub record LaunchRuntime (Row : Type 0) : Type 0 where
  pub sampler_precompute : SamplerPrecompute Row
  pub event_step_id : ℤ
  pub decode_post_logits_launched_step_id : ℤ
  pub decode_count : ℕ
  pub source_resolved_path : Str

-- What the provider is asked for
pub data ProviderCall : Type 0 where
  prepare_decode_step schedule_precompute : ProviderCall

module _ {Row : Type 0} where
  -- With an active provider, its method is called; `provider_active` is that there is one and
  -- that it is active.
  unfoldable pub maybe_prepare_sampler_decode_step :
      (provider_active : Bool) → LaunchRuntime Row → List ProviderCall × LaunchRuntime Row
  unfolding reset_decode_step
  maybe_prepare_sampler_decode_step false runtime = (
    [],
    record runtime {
      sampler_precompute =
          record (reset_decode_step runtime.event_step_id runtime.sampler_precompute) {
            port_enabled = false;
          };
    },
  )
  maybe_prepare_sampler_decode_step true runtime = (
    prepare_decode_step ∷ [],
    record runtime {
      sampler_precompute = record runtime.sampler_precompute { port_enabled = true };
    },
  )

  unfoldable pub maybe_schedule_sampler_precompute :
      (provider_active : Bool) → Str → LaunchRuntime Row → List ProviderCall
  unfolding strip
  maybe_schedule_sampler_precompute provider_active layer_path runtime =
      if not (strip layer_path == strip runtime.source_resolved_path)
      then []
      else if not provider_active
      then []
      else schedule_precompute ∷ []

  -- The attempt is counted.
  abbrev pub attempted : LaunchRuntime Row → LaunchRuntime Row
  attempted runtime = record runtime {
    sampler_precompute = record runtime.sampler_precompute {
      port_publish_attempt_count = runtime.sampler_precompute.port_publish_attempt_count + 1;
    };
  }

  -- The publication for the source layer, if it is resolved
  unfoldable pub publish :
      (provider_active : Bool) → LaunchRuntime Row → List ProviderCall × LaunchRuntime Row
  unfolding maybe_schedule_sampler_precompute strip
  publish provider_active runtime =
      let source_path = strip runtime.source_resolved_path in
      if is_empty source_path then ([], runtime) else (
        maybe_schedule_sampler_precompute provider_active source_path runtime,
        record runtime {
          sampler_precompute = record runtime.sampler_precompute {
            port_publish_step_id = runtime.event_step_id;
            port_publish_hit_count = runtime.sampler_precompute.port_publish_hit_count + 1;
          };
        },
      )

  unfoldable pub maybe_launch_post_logits_decode_work :
      (provider_active : Bool) → LaunchRuntime Row → List ProviderCall × LaunchRuntime Row
  unfolding publish
  maybe_launch_post_logits_decode_work provider_active runtime =
      if is_negative runtime.event_step_id || not runtime.sampler_precompute.port_enabled
      then ([], runtime)
      else if runtime.decode_post_logits_launched_step_id == runtime.event_step_id
          || eqb runtime.decode_count 0
      then ([], attempted runtime)
      else (
        (publish provider_active (attempted runtime)).0,
        record ((publish provider_active (attempted runtime)).1) {
          decode_post_logits_launched_step_id = runtime.event_step_id;
        },
      )

  -- The launches of a step, one for each time that logits are computed
  unfoldable pub launches :
      ℕ → (provider_active : Bool) → LaunchRuntime Row → List ProviderCall × LaunchRuntime Row
  unfolding maybe_launch_post_logits_decode_work
  launches zero provider_active runtime = ([], runtime)
  launches (suc n) provider_active runtime =
      let first = maybe_launch_post_logits_decode_work provider_active runtime in
      let rest = launches n provider_active first.1 in (first.0 ++ rest.0, rest.1)

module _ {Row : Type 0} (indexing : Indexing Row) where
  open indexing use {index_select}

  -- Logits that cover the rows
  abbrev pub covering : ℕ → Option (List Row) → Option (List Row)
  covering count none = none
  covering count (some logits) =
      if leb count (length logits) then some (take count logits) else none

  -- The rows that are marked, where there is one
  unfoldable pub marked_cache : ℤ → ℕ → PrecomputeBuffers Row → Option (PrecomputeCache Row)
  unfolding marked_rows
  marked_cache step_id count buffers =
      let row_ids = marked_rows 0 (take count buffers.valid_mask) in
      if is_empty row_ids
      then none
      else some (record {
        step_id = step_id;
        row_ids = row_ids;
        pred_hidden = index_select (take count buffers.pred_hidden) (map pos row_ids);
        dense_logits = elim (covering count buffers.dense_logits) [
          | none ↦ none
          | some logits ↦ some (index_select logits (map pos row_ids))
        ];
        all_rows = false;
      })

  unfoldable pub captured_rows_for_step :
      ℤ → ℕ → SamplerPrecompute Row → Option (PrecomputeCache Row)
  unfolding marked_cache
  captured_rows_for_step step_id count precompute = elim precompute.buffers [
    | none ↦ none
    | some buffers ↦
        if eqb count 0
          || not (precompute.source_capture_step_id == step_id)
          || ltb (length buffers.pred_hidden) count
          || ltb (length buffers.valid_mask) count
        then none
        else if precompute.all_rows
        then some (record {
          step_id = step_id;
          row_ids = take count buffers.all_row_ids;
          pred_hidden = take count buffers.pred_hidden;
          dense_logits = covering count buffers.dense_logits;
          all_rows = true;
        })
        else marked_cache step_id count buffers
  ]
