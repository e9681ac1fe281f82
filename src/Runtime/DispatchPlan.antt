-- ===== src/Runtime/DispatchPlan.antt =====
-- tllm/runtime/dispatch_plan.py: which consumers get what. `flows` and `subscriptions` are what a
-- consumer's methods of these names return.
pub mod Select
pub mod Caps
pub mod Requirements
use t_llm.Prelude.{
  ℕ, Bool, true, false, not, ◌&&◌, ◌||◌, max, Option, none, some, List, [], ◌∷◌, ◌++◌, map, filter,
  any, is_empty, if◌then◌else◌, ltb, ◌==◌, list_eq, nat_eq,
}
use t_llm.Prelude.Int.{ℤ, pos_part}
use t_llm.Prelude.Dict.{Dict, lookup, insert}
use t_llm.Prelude.Str.{Str}
use t_llm.Runtime.Ports.{
  PortKind, residual_stream, RowSelection, all, first_per_prompt, PortRead, ConsumerFlow,
  CapturePolicy, required, prefer, never, ConsumerSubscription,
}

pub record DispatchTarget (Consumer : Type 0) : Type 0 where
  pub consumer : Consumer
  pub subscription : ConsumerSubscription

pub record FlowDispatchTarget (Consumer : Type 0) : Type 0 where
  pub consumer : Consumer
  pub flow : ConsumerFlow

pub record DispatchPlan (Consumer : Type 0) : Type 0 where
  pub by_event : Dict Str (List (DispatchTarget Consumer))
  pub flow_targets : List (FlowDispatchTarget Consumer)

-- `sub.phase_filter is not None and phase is not None and sub.phase_filter != phase`, and the same
-- for layers
abbrev pub excludes : Option Str → Option Str → Bool
excludes none asked = false
excludes (some wanted) none = false
excludes (some wanted) (some asked) = not (wanted == asked)

abbrev pub policy_excludes : CapturePolicy → Bool → Bool
policy_excludes required capture_enabled = not capture_enabled
policy_excludes never capture_enabled = capture_enabled
policy_excludes prefer capture_enabled = false

-- The guards of the loop of `select`
abbrev pub passes : Option Str → Option Str → Bool → ConsumerSubscription → Bool
passes phase layer_path capture_enabled sub = not (
    excludes sub.phase_filter phase
    || excludes sub.layer_filter layer_path
    || policy_excludes sub.capture_policy capture_enabled)

abbrev pub is_residual : PortKind → Bool
is_residual residual_stream = true
is_residual kind = false

abbrev pub reads_residual : ConsumerFlow → Bool
reads_residual flow = any (λ read. is_residual read.kind) flow.reads

abbrev pub same_mode : RowSelection → RowSelection → Bool
same_mode all all = true
same_mode first_per_prompt first_per_prompt = true
same_mode a b = false

abbrev pub largest : List ℕ → ℕ
largest [] = 0
largest (rows ∷ caps) = max rows (largest caps)

module _ {Consumer : Type 0} where
  -- `by_event.get(event_name, [])`
  abbrev pub targets_at :
      Dict Str (List (DispatchTarget Consumer)) → Str → List (DispatchTarget Consumer)
  targets_at by_event event = elim (lookup event by_event) [ none ↦ [] | some targets ↦ targets ]

  abbrev pub target_of : Consumer → ConsumerSubscription → DispatchTarget Consumer
  target_of consumer sub = record { consumer = consumer; subscription = sub }

  -- `by_event.setdefault(sub.event_name, []).append(...)`, for each subscription
  unfoldable pub add_subscriptions :
      Consumer
      → List ConsumerSubscription
      → Dict Str (List (DispatchTarget Consumer))
      → Dict Str (List (DispatchTarget Consumer))
  add_subscriptions consumer [] by_event = by_event
  add_subscriptions consumer (sub ∷ subs) by_event = add_subscriptions consumer subs (
      insert sub.event_name (targets_at by_event sub.event_name ++ (target_of consumer sub ∷ []))
        by_event)

  abbrev pub flow_targets_of : Consumer → List ConsumerFlow → List (FlowDispatchTarget Consumer)
  flow_targets_of consumer = map (λ flow. record { consumer = consumer; flow = flow })

  -- A consumer with flows is not asked for its subscriptions.
  unfoldable pub add_consumer :
      Consumer
      → List ConsumerFlow
      → List ConsumerSubscription
      → DispatchPlan Consumer
      → DispatchPlan Consumer
  unfolding add_subscriptions
  add_consumer consumer [] subs plan = record plan {
    by_event = add_subscriptions consumer subs plan.by_event;
  }
  add_consumer consumer (flow ∷ flows) subs plan = record plan {
    flow_targets = plan.flow_targets ++ flow_targets_of consumer (flow ∷ flows);
  }

  -- The body of the loop of `select`, on the targets of the event
  unfoldable pub select :
      DispatchPlan Consumer → Str → Option Str → Option Str → Bool → List (DispatchTarget Consumer)
  select plan event phase layer_path capture_enabled =
      filter (λ target. passes phase layer_path capture_enabled target.subscription)
        (targets_at plan.by_event event)

  module _ (flows : Consumer → List ConsumerFlow)
      (subscriptions : Consumer → List ConsumerSubscription) where
    unfoldable pub build_from : List Consumer → DispatchPlan Consumer → DispatchPlan Consumer
    unfolding add_consumer
    build_from [] plan = plan
    build_from (consumer ∷ rest) plan =
        build_from rest (add_consumer consumer (flows consumer) (subscriptions consumer) plan)

    unfoldable pub build : List Consumer → DispatchPlan Consumer
    unfolding build_from
    build consumers = build_from consumers (record { by_event = []; flow_targets = [] })

  -- The targets that the loop of `max_residual_compact_rows` does not skip
  abbrev pub compacts : RowSelection → FlowDispatchTarget Consumer → Bool
  compacts mode target = reads_residual target.flow && same_mode target.flow.row_compaction mode

  -- `int(max_bundle_rows or 0)`, zero where it is not positive
  abbrev pub cap_of : FlowDispatchTarget Consumer → ℕ
  cap_of target = pos_part target.flow.max_bundle_rows

  unfoldable pub max_residual_compact_rows : DispatchPlan Consumer → RowSelection → ℕ
  max_residual_compact_rows plan mode =
      let compacting = filter (compacts mode) plan.flow_targets in
      let caps = map cap_of compacting in
      let uncapped = any (λ rows. not (ltb 0 rows)) caps in
      if is_empty compacting
      then 0
      else if uncapped || is_empty (filter (λ rows. ltb 0 rows) caps)
      then 0
      else max 1 (largest (filter (λ rows. ltb 0 rows) caps))
