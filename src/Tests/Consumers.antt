-- ===== src/Tests/Consumers.antt =====
-- Consumers that are numbers: only 0 has a flow and only 1 a subscription.
use t_llm.Prelude.{ℕ, zero, suc, ◌≡◌, none, some, List, [], ◌∷◌, any}
use t_llm.Prelude.Int.{pos}
use t_llm.Prelude.Str.{codes}
use t_llm.Runtime.Ports.{
  background, bundle, borrowed, all, ConsumerFlow, prefer, ConsumerSubscription,
}
use t_llm.Runtime.Consumers.{
  ConsumerRuntime, initial, consumers_of, runtime_has_active_targets, register_dispatch_consumer,
  set_runtime_consumer, at_start, registers, sets,
}
use t_llm.Runtime.Consumers.Refreshed.{has_targets, IsRefreshed, Reached-active}

abbrev flows : ℕ → List ConsumerFlow
flows zero =
    record {
      reads = [];
      window = background;
      bundle_key = [];
      dispatch_every_n_steps = pos 1;
      max_bundle_rows = pos 0;
      delivery = bundle;
      ownership = borrowed;
      row_compaction = all;
    }
    ∷ []
flows (suc n) = []

abbrev subscriptions : ℕ → List ConsumerSubscription
subscriptions (suc zero) =
    record {
      consumer_id = codes "c";
      event_name = codes "execute_model.post";
      phase_filter = none;
      layer_filter = none;
      capture_policy = prefer;
    }
    ∷ []
subscriptions zero = []
subscriptions (suc (suc n)) = []

abbrev runtime : ConsumerRuntime ℕ
runtime =
    set_runtime_consumer flows subscriptions (some 2)
      (register_dispatch_consumer flows subscriptions 1 initial)

Reached-active_example :
    IsRefreshed flows subscriptions runtime
    × (runtime_has_active_targets runtime
        ≡ any (has_targets flows subscriptions) (consumers_of runtime))
Reached-active_example = Reached-active flows subscriptions runtime (
    sets (some 2) (register_dispatch_consumer flows subscriptions 1 initial)
      (registers 1 initial at_start))
