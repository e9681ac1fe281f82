-- ===== src/Runtime/Events.antt =====
-- tllm/runtime/consumer_compat.py and the dispatch of tllm/runtime/vllm_patch/common_hooks.py: the
-- events of the runtime are calls of the consumers that subscribed to them. The context that the
-- calls are given is left out.
use t_llm.Prelude.{
  ℕ, Bool, true, false, not, Option, none, some, List, [], ◌∷◌, ◌++◌, map, filter, if◌then◌else◌,
  length, is_empty, ◌+◌, Result, ok, err, ◌>>=◌, ◌==◌, list_eq, nat_eq,
}
use t_llm.Prelude.Str.{Str, codes}
use t_llm.Runtime.Ports.{
  FlowWindow, background, same_step, next_step, out_of_band, ConsumerSubscription,
}
use t_llm.Runtime.DispatchPlan.{DispatchTarget, DispatchPlan, select}

pub data EventCall (Consumer Batch : Type 0) : Type 0 where
  consume : Consumer → Batch → EventCall Consumer Batch
  on_tick : Consumer → Str → EventCall Consumer Batch
  on_step_end : Consumer → EventCall Consumer Batch

-- Which methods a consumer has; a consumer without `subscriptions` has none.
pub record Methods (Consumer : Type 0) : Type 0 where
  pub has_consume : Consumer → Bool
  pub has_tick : Consumer → Bool
  pub has_step_end : Consumer → Bool
  pub subscriptions : Consumer → Option (List ConsumerSubscription)

unfoldable pub consumer_subscriptions :
    {Consumer : Type 0} → Methods Consumer → Consumer → List ConsumerSubscription
consumer_subscriptions methods consumer = elim (methods.subscriptions consumer) [
  | none ↦ []
  | some subs ↦ subs
]

abbrev pub same_window : FlowWindow → FlowWindow → Bool
same_window background background = true
same_window same_step same_step = true
same_window next_step next_step = true
same_window out_of_band out_of_band = true
same_window a b = false

abbrev pub capture_flag : Bool → Option Bool → Bool
capture_flag uses_cudagraph none = not uses_cudagraph
capture_flag uses_cudagraph (some enabled) = enabled

module _ {Consumer Batch : Type 0} where
  -- One dispatch after another, unless it raised
  abbrev pub followed_by :
      List (EventCall Consumer Batch) × Result ℕ
      → List (EventCall Consumer Batch) × Result ℕ
      → List (EventCall Consumer Batch) × Result ℕ
  followed_by (calls, err raised) later = (calls, err raised)
  followed_by (calls, ok dispatched) later =
      (calls ++ later.0, (later.1 >>= λ more. ok (dispatched + more)))

module _ {Consumer Batch : Type 0} (methods : Methods Consumer) where
  -- `on_step_end` of consumer_compat
  unfoldable pub step_end_calls : Consumer → List (EventCall Consumer Batch)
  step_end_calls consumer = if methods.has_step_end consumer then on_step_end consumer ∷ [] else []

  abbrev pub consume_calls : Consumer → Option Batch → List (EventCall Consumer Batch)
  consume_calls consumer none = []
  consume_calls consumer (some batch) =
      if methods.has_consume consumer then consume consumer batch ∷ [] else []

  abbrev pub tick_calls : Consumer → Str → List (EventCall Consumer Batch)
  tick_calls consumer event_name =
      if methods.has_tick consumer then on_tick consumer event_name ∷ [] else []

  unfoldable pub dispatch_consumer_event :
      Consumer → Option Batch → Str → List (EventCall Consumer Batch)
  unfolding step_end_calls
  dispatch_consumer_event consumer payload event_name =
      consume_calls consumer payload
      ++ (tick_calls consumer event_name
          ++ (if event_name == codes "execute_model.post" then step_end_calls consumer else []))

  unfoldable pub dispatch_targets :
      List (DispatchTarget Consumer) → Option Batch → Str → List (EventCall Consumer Batch)
  unfolding dispatch_consumer_event
  dispatch_targets [] payload event_name = []
  dispatch_targets (target ∷ targets) payload event_name =
      dispatch_consumer_event target.consumer payload event_name
      ++ dispatch_targets targets payload event_name

  -- The calls, and the number of targets. Without a word on capturing, it is enabled unless the
  -- runner uses CUDA graphs. `batch` is the batch, or what the factory of it returns or raises, which
  -- is asked only where there is a target.
  unfoldable pub dispatch_runtime_event :
      (uses_cudagraph : Bool)
      → Option (DispatchPlan Consumer)
      → (event_name : Str) → (phase layer_path : Option Str) → (capture_enabled : Option Bool)
      → (batch : Result (Option Batch)) → List (EventCall Consumer Batch) × Result ℕ
  unfolding select dispatch_targets
  dispatch_runtime_event uses_cudagraph none event_name phase layer_path capture_enabled batch =
      ([], ok 0)
  dispatch_runtime_event uses_cudagraph (some plan) event_name phase layer_path capture_enabled
        batch =
      let targets =
        select plan event_name phase layer_path (capture_flag uses_cudagraph capture_enabled) in
      if is_empty targets then ([], ok 0) else elim batch [
        | err raised ↦ ([], err raised)
        | ok payload ↦ (dispatch_targets targets payload event_name, ok (length targets))
      ]

-- The consumers that `dispatch_port_bundle` hands the bundle to, and their number
unfoldable pub dispatch_port_bundle :
    {Consumer : Type 0} → Option (DispatchPlan Consumer) → FlowWindow → List Consumer × ℕ
dispatch_port_bundle none window = ([], 0)
dispatch_port_bundle (some plan) window =
    let targets = filter (λ target. same_window target.flow.window window) plan.flow_targets in
    (map (λ target. target.consumer) targets, length targets)
