-- ===== src/Runtime/DispatchPlan/Select.antt =====
-- What `build` and `select` give: the matching subscriptions in the order of the consumers.
use t_llm.Prelude.{
  ◌≡◌, refl, sym, ap, ◌∙◌, Bool, Option, List, [], ◌∷◌, ◌++◌, append_assoc, append-nil, filter,
  is_empty, arith, if◌then◌else◌, ◌==◌, list_eq, nat_eq,
}
use t_llm.Prelude.Dict.{Dict, lookup, lookup-insert}
use t_llm.Prelude.Str.{Str}
use t_llm.Runtime.Ports.{ConsumerFlow, ConsumerSubscription}
use t_llm.Runtime.DispatchPlan.{
  DispatchTarget, FlowDispatchTarget, DispatchPlan, passes, targets_at, target_of,
  add_subscriptions, flow_targets_of, add_consumer, select, build_from, build,
}

module _ {Consumer : Type 0} where
  -- A consumer's subscriptions to the event.
  abbrev pub subscribed_of :
      Str → Consumer → List ConsumerSubscription → List (DispatchTarget Consumer)
  subscribed_of event consumer [] = []
  subscribed_of event consumer (sub ∷ subs) =
      let rest = subscribed_of event consumer subs in
      if sub.event_name == event then target_of consumer sub ∷ rest else rest

  targets_at-add_subscriptions :
      (consumer : Consumer) (subs : List ConsumerSubscription)
      (by_event : Dict Str (List (DispatchTarget Consumer))) (event : Str)
      → targets_at (add_subscriptions consumer subs by_event) event
        ≡ targets_at by_event event ++ subscribed_of event consumer subs
  unfolding add_subscriptions
  targets_at-add_subscriptions consumer [] by_event event = sym (append-nil _)
  targets_at-add_subscriptions consumer (sub ∷ subs) by_event event =
      let here = targets_at by_event sub.event_name ++ (target_of consumer sub ∷ []) in
      targets_at-add_subscriptions consumer subs _ event
      ∙ ground (
        arith,
        lookup-insert event sub.event_name here by_event,
        append_assoc (targets_at by_event event) (target_of consumer sub ∷ [])
            (subscribed_of event consumer subs),
      )

  module _ (flows : Consumer → List ConsumerFlow)
      (subscriptions : Consumer → List ConsumerSubscription) where
    -- The subscriptions to the event of the consumers that have no flows, in order.
    abbrev pub subscribed : Str → List Consumer → List (DispatchTarget Consumer)
    subscribed event [] = []
    subscribed event (consumer ∷ rest) =
        (if is_empty (flows consumer)
          then subscribed_of event consumer (subscriptions consumer)
          else [])
        ++ subscribed event rest

    abbrev pub all_flows : List Consumer → List (FlowDispatchTarget Consumer)
    all_flows [] = []
    all_flows (consumer ∷ rest) = flow_targets_of consumer (flows consumer) ++ all_flows rest

    add_consumer_lem :
        (consumer : Consumer) (fs : List ConsumerFlow) (subs : List ConsumerSubscription)
        (plan : DispatchPlan Consumer) (event : Str)
        → (targets_at (add_consumer consumer fs subs plan).by_event event
            ≡ targets_at plan.by_event event
              ++ (if is_empty fs then subscribed_of event consumer subs else []))
          × ((add_consumer consumer fs subs plan).flow_targets
              ≡ plan.flow_targets ++ flow_targets_of consumer fs)
    unfolding add_consumer
    add_consumer_lem consumer [] subs plan event =
        (targets_at-add_subscriptions consumer subs plan.by_event event, sym (append-nil _))
    add_consumer_lem consumer (f ∷ fs) subs plan event = (sym (append-nil _), refl)

    build_from_lem :
        (consumers : List Consumer) (plan : DispatchPlan Consumer) (event : Str)
        → (targets_at (build_from flows subscriptions consumers plan).by_event event
            ≡ targets_at plan.by_event event ++ subscribed event consumers)
          × ((build_from flows subscriptions consumers plan).flow_targets
              ≡ plan.flow_targets ++ all_flows consumers)
    unfolding build_from
    build_from_lem [] plan event = (sym (append-nil _), sym (append-nil _))
    build_from_lem (consumer ∷ rest) plan event =
        let (events, targets) =
          add_consumer_lem consumer (flows consumer) (subscriptions consumer) plan event in
        let (later_events, later_targets) =
          build_from_lem rest (add_consumer consumer (flows consumer) (subscriptions consumer) plan)
            event in
        (
          later_events
              ∙ ap (λ (l : List (DispatchTarget Consumer)). l ++ subscribed event rest) events
              ∙ append_assoc (targets_at plan.by_event event)
                  (if is_empty (flows consumer)
                    then subscribed_of event consumer (subscriptions consumer)
                    else [])
                  (subscribed event rest),
          later_targets
              ∙ ap (λ (l : List (FlowDispatchTarget Consumer)). l ++ all_flows rest) targets
              ∙ append_assoc plan.flow_targets (flow_targets_of consumer (flows consumer))
                  (all_flows rest),
        )

    -- Selecting from the plan built for some consumers gives the subscriptions to the event that
    -- pass the filters, of the consumers without flows, in the order of the consumers and of each
    -- consumer's subscriptions; the flow targets of the plan are all flows of all consumers in
    -- order.
    pub select-build :
        (consumers : List Consumer) (event : Str) (phase layer_path : Option Str)
        (capture_enabled : Bool)
        → (select (build flows subscriptions consumers) event phase layer_path capture_enabled
            ≡ filter
                (λ target. passes phase layer_path capture_enabled target.subscription)
                (subscribed event consumers))
          × ((build flows subscriptions consumers).flow_targets ≡ all_flows consumers)
    unfolding select build lookup
    select-build consumers event phase layer_path capture_enabled =
        let (events, targets) =
          build_from_lem consumers (record { by_event = []; flow_targets = [] }) event in
        (
          ap
              (filter (λ (target : DispatchTarget Consumer).
                passes phase layer_path capture_enabled target.subscription))
              events,
          targets,
        )
