-- ===== src/Runtime/Consumers/Refreshed.antt =====
-- The dispatch plan is up to date, and is there only if it has targets.
use t_llm.Prelude.{
  Bool, false, not, ◌&&◌, ◌≡◌, refl, none, some, List, [], ◌∷◌, ◌++◌, all, any, if◌then◌else◌,
  is_empty, list_eq, nat_eq, arith,
}
use t_llm.Prelude.Str.{Str}
use t_llm.Prelude.Dict.{Dict, values, insert}
use t_llm.Runtime.Ports.{ConsumerFlow, ConsumerSubscription}
use t_llm.Runtime.DispatchPlan.{
  DispatchTarget, DispatchPlan, targets_at, target_of, add_subscriptions, flow_targets_of,
  add_consumer, build_from, build,
}
use t_llm.Runtime.DispatchPlan.Requirements.{is_empty_plan, has_active_targets}
use t_llm.Runtime.Consumers.{
  ConsumerRuntime, registered, consumers_of, runtime_has_active_targets, plan_of,
  refresh_dispatch_plan, register_dispatch_consumer, replace_dispatch_consumers,
  clear_dispatch_consumers, set_runtime_consumer, Reached, at_start, registers, replaces, clears,
  sets,
}

append-some : {A : Type 0} (xs ys : List A) → is_empty (xs ++ ys) ≡ (is_empty xs && is_empty ys)
append-some [] ys = refl
append-some (x ∷ xs) ys = refl

module _ {Consumer : Type 0} where
  abbrev all_empty : Dict Str (List (DispatchTarget Consumer)) → Bool
  all_empty by_event = all (λ targets. is_empty targets) (values by_event)

  insert-some :
      (event : Str) (targets : List (DispatchTarget Consumer)) (target : DispatchTarget Consumer)
      (by_event : Dict Str (List (DispatchTarget Consumer)))
      → all_empty (insert event (targets ++ (target ∷ [])) by_event) ≡ false
  unfolding insert
  insert-some event [] target [] = refl
  insert-some event (t ∷ targets) target [] = refl
  insert-some event [] target ((other, found) ∷ by_event) =
      ground (arith, insert-some event [] target by_event)
  insert-some event (t ∷ targets) target ((other, found) ∷ by_event) =
      ground (arith, insert-some event (t ∷ targets) target by_event)

  add_subscriptions-empty :
      (consumer : Consumer) (subs : List ConsumerSubscription)
      (by_event : Dict Str (List (DispatchTarget Consumer)))
      → all_empty (add_subscriptions consumer subs by_event) ≡ (all_empty by_event && is_empty subs)
  unfolding add_subscriptions
  add_subscriptions-empty consumer [] by_event = ground arith
  add_subscriptions-empty consumer (sub ∷ subs) by_event = ground (
    arith,
    add_subscriptions-empty consumer subs (
        insert sub.event_name (targets_at by_event sub.event_name ++ (target_of consumer sub ∷ []))
          by_event),
    insert-some sub.event_name (targets_at by_event sub.event_name) (target_of consumer sub)
        by_event,
  )

module _ {Consumer : Type 0} (flows : Consumer → List ConsumerFlow)
    (subscriptions : Consumer → List ConsumerSubscription) where
  -- The consumer has a flow or a subscription.
  abbrev pub has_targets : Consumer → Bool
  has_targets consumer = not (is_empty (flows consumer) && is_empty (subscriptions consumer))

  add_consumer-empty :
      (consumer : Consumer) (its_flows : List ConsumerFlow) (subs : List ConsumerSubscription)
      (plan : DispatchPlan Consumer)
      → is_empty_plan (add_consumer consumer its_flows subs plan)
        ≡ (is_empty_plan plan && (is_empty its_flows && is_empty subs))
  unfolding add_consumer is_empty_plan
  add_consumer-empty consumer [] subs plan =
      ground (arith, add_subscriptions-empty consumer subs plan.by_event)
  add_consumer-empty consumer (flow ∷ its_flows) subs plan =
      ground (arith, append-some plan.flow_targets (flow_targets_of consumer (flow ∷ its_flows)))

  build_from-empty :
      (consumers : List Consumer) (plan : DispatchPlan Consumer)
      → is_empty_plan (build_from flows subscriptions consumers plan)
        ≡ (is_empty_plan plan && not (any has_targets consumers))
  unfolding build_from
  build_from-empty [] plan = ground arith
  build_from-empty (consumer ∷ consumers) plan = ground (
    arith,
    build_from-empty consumers
        (add_consumer consumer (flows consumer) (subscriptions consumer) plan),
    add_consumer-empty consumer (flows consumer) (subscriptions consumer) plan,
  )

  build-empty :
      (consumers : List Consumer)
      → is_empty_plan (build flows subscriptions consumers) ≡ not (any has_targets consumers)
  unfolding build is_empty_plan
  build-empty consumers = build_from-empty consumers (record { by_event = []; flow_targets = [] })

  -- The plan is that of the consumers of the runtime.
  abbrev pub IsRefreshed : ConsumerRuntime Consumer → Type 0
  IsRefreshed runtime = runtime.dispatch_plan ≡ (
      if any has_targets (consumers_of runtime)
      then some (build flows subscriptions (consumers_of runtime))
      else none)

  plan_of-IsRefreshed :
      (consumers : List Consumer)
      → plan_of flows subscriptions consumers
        ≡ (if any has_targets consumers then some (build flows subscriptions consumers) else none)
  unfolding plan_of
  plan_of-IsRefreshed [] = refl
  plan_of-IsRefreshed (consumer ∷ consumers) = ground (arith, build-empty (consumer ∷ consumers))

  refresh-IsRefreshed :
      (runtime : ConsumerRuntime Consumer)
      → IsRefreshed (refresh_dispatch_plan flows subscriptions runtime)
  unfolding refresh_dispatch_plan
  refresh-IsRefreshed runtime = plan_of-IsRefreshed (consumers_of runtime)

  Reached-IsRefreshed :
      (runtime : ConsumerRuntime Consumer)
      → Reached flows subscriptions runtime
      → IsRefreshed runtime
  unfolding register_dispatch_consumer replace_dispatch_consumers clear_dispatch_consumers
      set_runtime_consumer
  Reached-IsRefreshed _ at_start = refl
  Reached-IsRefreshed _ (registers consumer runtime h) = refresh-IsRefreshed (record runtime {
    consumer_registry = some (registered runtime.consumer_registry ++ (consumer ∷ []));
  })
  Reached-IsRefreshed _ (replaces consumers runtime h) =
      refresh-IsRefreshed (record runtime { consumer_registry = some consumers })
  Reached-IsRefreshed _ (clears runtime h) =
      refresh-IsRefreshed (record runtime { consumer_registry = some [] })
  Reached-IsRefreshed _ (sets consumer runtime h) =
      refresh-IsRefreshed (record runtime { consumer = consumer })

  -- In every state that calls of the registration functions lead to, the dispatch plan is the
  -- plan of the registered consumers and the runtime's own if one of them has a flow or a
  -- subscription, and else there is none; the runtime has active targets exactly if one of them
  -- has.
  pub Reached-active :
      (runtime : ConsumerRuntime Consumer)
      → Reached flows subscriptions runtime
      → IsRefreshed runtime
        × (runtime_has_active_targets runtime ≡ any has_targets (consumers_of runtime))
  unfolding runtime_has_active_targets has_active_targets
  Reached-active runtime h =
      let refreshed = Reached-IsRefreshed runtime h in
      (refreshed, ground (arith, refreshed, build-empty (consumers_of runtime)))
