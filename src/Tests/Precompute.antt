-- ===== src/Tests/Precompute.antt =====
-- The logits of a step with two decode rows are computed three times.
use t_llm.Prelude.{ℕ, ◌+◌, ◌≡◌, refl, true, none, [], ◌∷◌, ◌&&◌, if◌then◌else◌, list_eq, nat_eq}
use t_llm.Prelude.Int.{pos, int_eq}
use t_llm.Prelude.Str.{codes, strip, lstrip_space}
use t_llm.Runtime.Precompute.{
  no_step, LaunchRuntime, schedule_precompute, publish, maybe_schedule_sampler_precompute,
  maybe_launch_post_logits_decode_work, launches,
}
use t_llm.Runtime.Precompute.Once.{is_due, hits_of, launches-once}

abbrev runtime : LaunchRuntime ℕ
runtime = record {
  sampler_precompute = record {
    buffers = none;
    cache = none;
    source_enabled = true;
    source_capture_step_id = no_step;
    port_enabled = true;
    port_capture_step_id = no_step;
    port_publish_step_id = no_step;
    port_consume_step_id = no_step;
    precomputed_step_id = no_step;
    all_rows = true;
    port_publish_attempt_count = 0;
    port_publish_hit_count = 0;
  };
  event_step_id = pos 8;
  decode_post_logits_launched_step_id = pos 7;
  decode_count = 2;
  source_resolved_path = codes "model.layers[0]";
}

launches-once_example :
    ((launches 3 true runtime).0
      ≡ (if is_due runtime && true then schedule_precompute ∷ [] else []))
    × (hits_of (launches 3 true runtime).1 ≡ hits_of runtime + (if is_due runtime then 1 else 0))
launches-once_example = launches-once true 2 runtime

scheduled : (launches 3 true runtime).0 ≡ schedule_precompute ∷ []
unfolding launches maybe_launch_post_logits_decode_work publish maybe_schedule_sampler_precompute
    strip lstrip_space list_eq nat_eq int_eq
scheduled = refl
