-- ===== src/Runtime/Consumers.antt =====
-- tllm/runtime/consumer_registry.py, tllm/runtime/active_targets.py, and the functions of
-- tllm/runtime/residual_runtime.py that register consumers. The methods `flows` and `subscriptions`
-- of a consumer return the same whenever they are asked.
pub mod Refreshed
use t_llm.Prelude.{
  Bool, true, false, Option, none, some, List, [], ◌∷◌, ◌++◌, if◌then◌else◌, is_empty,
}
use t_llm.Runtime.Ports.{ConsumerFlow, ConsumerSubscription}
use t_llm.Runtime.DispatchPlan.{DispatchPlan, build}
use t_llm.Runtime.DispatchPlan.Requirements.{is_empty_plan, has_active_targets}

-- The registry is made when it is first asked for.
pub record ConsumerRuntime (Consumer : Type 0) : Type 0 where
  pub consumer_registry : Option (List Consumer)
  pub consumer : Option Consumer
  pub dispatch_plan : Option (DispatchPlan Consumer)

abbrev pub initial : {Consumer : Type 0} → ConsumerRuntime Consumer
initial = record { consumer_registry = none; consumer = none; dispatch_plan = none }

module _ {Consumer : Type 0} where
  -- `_ensure_dispatch_registry`, the consumers of the registry
  abbrev pub registered : Option (List Consumer) → List Consumer
  registered none = []
  registered (some consumers) = consumers

  abbrev pub one_consumer : Option Consumer → List Consumer
  one_consumer none = []
  one_consumer (some consumer) = consumer ∷ []

  -- The consumers of which a plan is built
  abbrev pub consumers_of : ConsumerRuntime Consumer → List Consumer
  consumers_of runtime = registered runtime.consumer_registry ++ one_consumer runtime.consumer

  unfoldable pub runtime_has_active_targets : ConsumerRuntime Consumer → Bool
  unfolding has_active_targets
  runtime_has_active_targets runtime = elim runtime.dispatch_plan [
    | none ↦ false
    | some plan ↦ has_active_targets plan
  ]

module _ {Consumer : Type 0} (flows : Consumer → List ConsumerFlow)
    (subscriptions : Consumer → List ConsumerSubscription) where
  unfoldable pub plan_of : List Consumer → Option (DispatchPlan Consumer)
  unfolding is_empty_plan build
  plan_of consumers =
      if is_empty consumers
      then none
      else if is_empty_plan (build flows subscriptions consumers)
      then none
      else some (build flows subscriptions consumers)

  unfoldable pub refresh_dispatch_plan : ConsumerRuntime Consumer → ConsumerRuntime Consumer
  unfolding plan_of
  refresh_dispatch_plan runtime = record runtime {
    consumer_registry = some (registered runtime.consumer_registry);
    dispatch_plan = plan_of (consumers_of runtime);
  }

  unfoldable pub register_dispatch_consumer :
      Consumer → ConsumerRuntime Consumer → ConsumerRuntime Consumer
  unfolding refresh_dispatch_plan
  register_dispatch_consumer consumer runtime = refresh_dispatch_plan (record runtime {
    consumer_registry = some (registered runtime.consumer_registry ++ (consumer ∷ []));
  })

  unfoldable pub replace_dispatch_consumers :
      List Consumer → ConsumerRuntime Consumer → ConsumerRuntime Consumer
  unfolding refresh_dispatch_plan
  replace_dispatch_consumers consumers runtime =
      refresh_dispatch_plan (record runtime { consumer_registry = some consumers })

  unfoldable pub clear_dispatch_consumers : ConsumerRuntime Consumer → ConsumerRuntime Consumer
  unfolding refresh_dispatch_plan
  clear_dispatch_consumers runtime =
      refresh_dispatch_plan (record runtime { consumer_registry = some [] })

  unfoldable pub set_runtime_consumer :
      Option Consumer → ConsumerRuntime Consumer → ConsumerRuntime Consumer
  unfolding refresh_dispatch_plan
  set_runtime_consumer consumer runtime =
      refresh_dispatch_plan (record runtime { consumer = consumer })

  -- The states that calls of these functions lead to
  pub data Reached : ConsumerRuntime Consumer → Type 0 where
    at_start : Reached initial
    registers :
        (consumer : Consumer) (runtime : ConsumerRuntime Consumer)
        → Reached runtime
        → Reached (register_dispatch_consumer consumer runtime)
    replaces :
        (consumers : List Consumer) (runtime : ConsumerRuntime Consumer)
        → Reached runtime
        → Reached (replace_dispatch_consumers consumers runtime)
    clears :
        (runtime : ConsumerRuntime Consumer)
        → Reached runtime
        → Reached (clear_dispatch_consumers runtime)
    sets :
        (consumer : Option Consumer) (runtime : ConsumerRuntime Consumer)
        → Reached runtime
        → Reached (set_runtime_consumer consumer runtime)
