-- ===== src/Tests/Dispatch.antt =====
-- Three consumers, numbered: one with two flows, two with subscriptions.
use t_llm.Prelude.{
  ℕ, zero, suc, ◌≡◌, ◌≢◌, refl, true, none, some, List, [], ◌∷◌, filter, All, list_eq, nat_eq,
  arith,
}
use t_llm.Prelude.Int.{ℤ, pos}
use t_llm.Prelude.Str.{Str, codes}
use t_llm.Runtime.Ports.{
  background, bundle, borrowed, step_scope_key, residual_stream, request_meta, RowSelection,
  first_per_prompt, ConsumerFlow, CapturePolicy, required, prefer, never, ConsumerSubscription,
}
use t_llm.Runtime.DispatchPlan.{
  DispatchPlan, passes, add_subscriptions, add_consumer, select, build_from, build,
  max_residual_compact_rows,
}
use t_llm.Runtime.DispatchPlan.Select.{subscribed, all_flows, select-build}
use t_llm.Runtime.DispatchPlan.Caps.{IsCapped, max_residual_compact_rows-IsCapped}

abbrev residual_flow : ℤ → RowSelection → ConsumerFlow
residual_flow cap mode = record {
  reads =
      record { kind = residual_stream; locator = none; role = [] }
      ∷ record { kind = request_meta; locator = none; role = [] }
      ∷ [];
  window = background;
  bundle_key = step_scope_key;
  dispatch_every_n_steps = pos 1;
  max_bundle_rows = cap;
  delivery = bundle;
  ownership = borrowed;
  row_compaction = mode;
}

abbrev flows : ℕ → List ConsumerFlow
flows zero = residual_flow (pos 4) first_per_prompt ∷ residual_flow (pos 9) first_per_prompt ∷ []
flows (suc n) = []

abbrev on_layer : Str → CapturePolicy → ConsumerSubscription
on_layer event policy = record {
  consumer_id = codes "c";
  event_name = event;
  phase_filter = some (codes "decode");
  layer_filter = none;
  capture_policy = policy;
}

abbrev subscriptions : ℕ → List ConsumerSubscription
subscriptions zero = on_layer (codes "layer") prefer ∷ []
subscriptions (suc n) = on_layer (codes "layer") required ∷ on_layer (codes "step") never ∷ []

abbrev consumers : List ℕ
consumers = 0 ∷ 1 ∷ 2 ∷ []

abbrev plan : DispatchPlan ℕ
plan = build flows subscriptions consumers

select-build_example :
    (select plan (codes "layer") none none true
      ≡ filter
          (λ target. passes none none true target.subscription)
          (subscribed flows subscriptions (codes "layer") consumers))
    × (plan.flow_targets ≡ all_flows flows subscriptions consumers)
select-build_example = select-build flows subscriptions consumers (codes "layer") none none true

cap_lem : max_residual_compact_rows plan first_per_prompt ≡ 9
unfolding max_residual_compact_rows build build_from add_consumer add_subscriptions
cap_lem = refl

cap-ne-zero : max_residual_compact_rows plan first_per_prompt ≢ 0
cap-ne-zero h = ground (arith, cap_lem)

max_residual_compact_rows-IsCapped_example :
    All
      (IsCapped first_per_prompt (max_residual_compact_rows plan first_per_prompt))
      plan.flow_targets
max_residual_compact_rows-IsCapped_example =
    max_residual_compact_rows-IsCapped plan first_per_prompt cap-ne-zero
