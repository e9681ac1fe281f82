-- ===== src/Runtime/Precompute/Once.antt =====
-- However often the logits of a step are computed, the precompute is scheduled once.
use t_llm.Prelude.{
  ℕ, zero, suc, ◌+◌, ◌≡◌, refl, ◌∙◌, Bool, true, not, ◌||◌, ◌&&◌, [], ◌∷◌, append-nil,
  if◌then◌else◌, eqb, is_empty, ◌==◌, list_eq, nat_eq, arith,
}
use t_llm.Prelude.Int.{is_negative, int_eq}
use t_llm.Prelude.Str.{strip}
use t_llm.Prelude.Str.Strip.{strip-strip}
use t_llm.Runtime.Precompute.{
  LaunchRuntime, schedule_precompute, publish, maybe_schedule_sampler_precompute,
  maybe_launch_post_logits_decode_work, launches,
}

module _ {Row : Type 0} where
  -- The step has decode rows, the port is open, the source is resolved and nothing is launched yet.
  abbrev pub is_due : LaunchRuntime Row → Bool
  is_due runtime =
      not (is_negative runtime.event_step_id)
      && runtime.sampler_precompute.port_enabled
      && not (runtime.decode_post_logits_launched_step_id == runtime.event_step_id)
      && not (eqb runtime.decode_count 0)
      && not (is_empty (strip runtime.source_resolved_path))

  abbrev pub hits_of : LaunchRuntime Row → ℕ
  hits_of runtime = runtime.sampler_precompute.port_publish_hit_count

module _ {Row : Type 0} (provider_active : Bool) where
  -- A launch would call nothing and publish nothing.
  IsSettled : LaunchRuntime Row → Type 0
  IsSettled runtime =
      (is_negative runtime.event_step_id
        || not runtime.sampler_precompute.port_enabled
        || runtime.decode_post_logits_launched_step_id == runtime.event_step_id
        || eqb runtime.decode_count 0)
      ≡ true

  launch-IsSettled :
      (runtime : LaunchRuntime Row)
      → IsSettled (maybe_launch_post_logits_decode_work provider_active runtime).1
  unfolding maybe_launch_post_logits_decode_work publish IsSettled
  launch-IsSettled runtime = ground arith

  launch-settled :
      (runtime : LaunchRuntime Row)
      → IsSettled runtime
      → ((maybe_launch_post_logits_decode_work provider_active runtime).0 ≡ [])
        × ((maybe_launch_post_logits_decode_work provider_active
              runtime).1.sampler_precompute.port_publish_hit_count
            ≡ runtime.sampler_precompute.port_publish_hit_count)
  unfolding maybe_launch_post_logits_decode_work IsSettled
  launch-settled runtime h = (ground arith, ground arith)

  launches-settled :
      (n : ℕ) (runtime : LaunchRuntime Row)
      → IsSettled runtime
      → ((launches n provider_active runtime).0 ≡ [])
        × ((launches n provider_active runtime).1.sampler_precompute.port_publish_hit_count
            ≡ runtime.sampler_precompute.port_publish_hit_count)
  unfolding launches
  launches-settled zero runtime h = (refl, refl)
  launches-settled (suc n) runtime h =
      let next = (maybe_launch_post_logits_decode_work provider_active runtime).1 in
      let first = launch-settled runtime h in
      let rest = launches-settled n next (launch-IsSettled runtime) in
      (rw first.0 rest.0, rest.1 ∙ first.1)

  launch-first :
      (runtime : LaunchRuntime Row)
      → ((maybe_launch_post_logits_decode_work provider_active runtime).0
          ≡ (if is_due runtime && provider_active then schedule_precompute ∷ [] else []))
        × (hits_of (maybe_launch_post_logits_decode_work provider_active runtime).1
            ≡ hits_of runtime + (if is_due runtime then 1 else 0))
  unfolding maybe_launch_post_logits_decode_work publish maybe_schedule_sampler_precompute
  launch-first runtime =
      let again = strip-strip runtime.source_resolved_path in (ground (arith, again), ground arith)

  -- However often the work behind the logits is launched in a step, at least once, the provider
  -- is asked to schedule the precompute once if the step is not negative, the port is enabled,
  -- nothing is launched for the step yet, there are decode rows, the source is resolved and the
  -- provider is active, and else not at all; a publication is counted once under the same
  -- conditions but the last.
  pub launches-once :
      (n : ℕ) (runtime : LaunchRuntime Row)
      → ((launches (suc n) provider_active runtime).0
          ≡ (if is_due runtime && provider_active then schedule_precompute ∷ [] else []))
        × (hits_of (launches (suc n) provider_active runtime).1
            ≡ hits_of runtime + (if is_due runtime then 1 else 0))
  unfolding launches
  launches-once n runtime =
      let next = (maybe_launch_post_logits_decode_work provider_active runtime).1 in
      let first = launch-first runtime in
      let rest = launches-settled n next (launch-IsSettled runtime) in
      (rw rest.0 (append-nil _ ∙ first.0), rest.1 ∙ first.1)
