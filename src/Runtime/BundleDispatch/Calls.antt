-- ===== src/Runtime/BundleDispatch/Calls.antt =====
-- Which consumers a dispatch calls, also where it raises.
use t_llm.Prelude.{
  ℕ, suc, ◌+◌, true, false, ◌≡◌, refl, sym, subst, ◌⊎◌, inl, inr, some, List, [], ◌∷◌, filter,
  length, All, All-append, All-map, if◌then◌else◌, is_empty, Result, ok, err, >>=-eq-ok,
  ok-injective, Result-cases, Option-cases, Bool-cases, arith,
}
use t_llm.Runtime.RowView.{Strided}
use t_llm.Runtime.DispatchPlan.{FlowDispatchTarget, DispatchPlan}
use t_llm.Runtime.ResidualBindings.{tap_paths}
use t_llm.Runtime.Assembler.{PortFrame, PortBundle, Assembler, start, push, finalize_pending}
use t_llm.Runtime.BundleEntries.{Payload, PortDispatchRuntime}
use t_llm.Runtime.StepBundle.{build_step_scope_port_bundle}
use t_llm.Runtime.BundleDispatch.{
  Call, consume_bundle, step_end, is_background, flow_due_for_step, Logged, consume_all, feedback,
  due_targets, is_tensor, step_frames, dispatch_direct, push_frames, finish_target, and_then,
  dispatch_frames, dispatch_rest, dispatch_decode_port_bundles,
}

module _ {Consumer Entry : Type 0} where
  -- The call is made for the target: a consumer of a background flow is not told of a step's end.
  abbrev pub CallFor : FlowDispatchTarget Consumer → Call Consumer Entry → Type 0
  CallFor target (consume_bundle consumer built) = consumer ≡ target.consumer
  CallFor target (step_end consumer) =
      (consumer ≡ target.consumer) × (is_background target.flow.window ≡ false)

  abbrev pub IsCalled : List (FlowDispatchTarget Consumer) → Call Consumer Entry → Type 0
  IsCalled [] call = ⊥
  IsCalled (target ∷ targets) call = CallFor target call ⊎ IsCalled targets call

  -- For a target of the plan whose flow is due
  abbrev pub IsDue : List (FlowDispatchTarget Consumer) → ℕ → Call Consumer Entry → Type 0
  IsDue [] step_id call = ⊥
  IsDue (target ∷ targets) step_id call =
      ((flow_due_for_step target.flow step_id ≡ true) × CallFor target call)
      ⊎ IsDue targets step_id call

  IsDue-IsCalled :
      (targets : List (FlowDispatchTarget Consumer)) (step_id : ℕ) (call : Call Consumer Entry)
      → IsCalled (filter (λ target. flow_due_for_step target.flow step_id) targets) call
      → IsDue targets step_id call
  IsDue-IsCalled [] step_id call h = h
  IsDue-IsCalled (target ∷ targets) step_id call h =
      elim (Bool-cases (flow_due_for_step target.flow step_id)) [
        | inl due ↦
            let rest = filter (λ other. flow_due_for_step other.flow step_id) targets in
            let kept : IsCalled (target ∷ rest) call =
              subst (λ due. IsCalled (if due then target ∷ rest else rest) call) due h in
            elim kept [
              | inl here ↦ inl (due, here)
              | inr later ↦ inr (IsDue-IsCalled targets step_id call later)
            ]
        | inr skipped ↦
            let rest = filter (λ other. flow_due_for_step other.flow step_id) targets in
            inr (
              IsDue-IsCalled targets step_id call
                (subst (λ due. IsCalled (if due then target ∷ rest else rest) call) skipped h))
      ]

  consume_all-CallFor :
      (target : FlowDispatchTarget Consumer) (bundles : List (PortBundle Entry))
      → All (CallFor target) (consume_all target.consumer bundles)
  consume_all-CallFor target [] = tt
  consume_all-CallFor target (built ∷ bundles) = (refl, consume_all-CallFor target bundles)

feedback-CallFor :
    {Consumer : Type 0} (Entry : Type 0) (target : FlowDispatchTarget Consumer)
    → All (CallFor {Entry = Entry} target) (feedback target)
feedback-CallFor Entry target = elim (Bool-cases (is_background target.flow.window)) [
  | inl silent ↦ rw (silent, All) tt
  | inr told ↦ rw (told, All) ((refl, told), tt)
]

module _ {Consumer A : Type 0} (strided : Strided A)
    (stack : List (Payload (strided.Tensor)) → Result (Payload (strided.Tensor))) where
  open strided use {Tensor}

  All-and_then :
      {B C : Type 0} (P : Call Consumer (Payload Tensor) → Type 0)
      (first : Logged Consumer (Payload Tensor) B) (next : B → Logged Consumer (Payload Tensor) C)
      → All P first.0
      → ((value : B) → first.1 ≡ ok value → All P (next value).0)
      → All P (and_then strided stack first next).0
  All-and_then P (calls, err raised) next h k = h
  All-and_then P (calls, ok value) next h k = All-append P calls (next value).0 h (k value refl)

  push_frames-CallFor :
      (target : FlowDispatchTarget Consumer) (frames : List (PortFrame (Payload Tensor)))
      (assembler : Assembler (Payload Tensor)) (dispatched : ℕ)
      → All (CallFor target) (push_frames strided stack target frames assembler dispatched).0
  unfolding push_frames
  push_frames-CallFor target [] assembler dispatched = tt
  push_frames-CallFor target (frame ∷ frames) assembler dispatched =
      elim (Result-cases (push is_tensor stack target.flow frame assembler)) [
        | inl pushed ↦
            let next : Assembler (Payload Tensor) × List (PortBundle (Payload Tensor)) = pushed.0 in
            rw (pushed.1, All)
              (All-append (CallFor target) (consume_all target.consumer next.1)
                (push_frames strided stack target frames next.0 (dispatched + length next.1)).0
                (consume_all-CallFor target next.1)
                (push_frames-CallFor target frames next.0 (dispatched + length next.1)))
        | inr raised ↦ rw (raised.1, All) tt
      ]

  finish_target-CallFor :
      (target : FlowDispatchTarget Consumer) (assembler : Assembler (Payload Tensor))
      (dispatched : ℕ)
      → All (CallFor target) (finish_target strided stack target assembler dispatched).0
  unfolding finish_target
  finish_target-CallFor target assembler dispatched =
      elim (Result-cases (finalize_pending is_tensor stack target.flow assembler)) [
        | inl run ↦
            let handed : List (PortBundle (Payload Tensor)) = run.0.1 in
            rw (run.1, All)
              (All-append (CallFor target) (consume_all target.consumer handed) (feedback target)
                (consume_all-CallFor target handed) (feedback-CallFor (Payload Tensor) target))
        | inr raised ↦ rw (raised.1, All) tt
      ]

  dispatch_frames-IsCalled :
      (frames : List (PortFrame (Payload Tensor))) (targets : List (FlowDispatchTarget Consumer))
      (dispatched : ℕ)
      → All (IsCalled targets) (dispatch_frames strided stack frames targets dispatched).0
  unfolding dispatch_frames
  dispatch_frames-IsCalled frames [] dispatched = tt
  dispatch_frames-IsCalled frames (target ∷ targets) dispatched =
      let pushing = push_frames strided stack target frames start dispatched in
      let finish : Assembler (Payload Tensor) × ℕ → Logged Consumer (Payload Tensor) ℕ =
        λ pushed. finish_target strided stack target pushed.0 pushed.1 in
      All-and_then (IsCalled (target ∷ targets)) (and_then strided stack pushing finish)
        (dispatch_frames strided stack frames targets)
        (All-map _ (λ call here. inl here)
          (All-and_then (CallFor target) pushing finish
            (push_frames-CallFor target frames start dispatched)
            (λ pushed reached. finish_target-CallFor target pushed.0 pushed.1)))
        (λ handed reached.
          All-map _ (λ call later. inr later) (dispatch_frames-IsCalled frames targets handed))

  -- The targets that are left for the frames are targets of the dispatch.
  dispatch_direct-IsCalled :
      (runtime : PortDispatchRuntime Tensor) (targets : List (FlowDispatchTarget Consumer))
      → All (IsCalled targets) (dispatch_direct strided stack runtime targets).0
        × ((last : ℕ × List (FlowDispatchTarget Consumer))
            → (dispatch_direct strided stack runtime targets).1 ≡ ok last
            → (call : Call Consumer (Payload Tensor)) → IsCalled last.1 call
            → IsCalled targets call)
  unfolding dispatch_direct
  dispatch_direct-IsCalled runtime [] = (
    tt,
    λ last h call called.
        subst (λ found. IsCalled found.1 call) (sym (ok-injective (0, []) last h)) called,
  )
  dispatch_direct-IsCalled runtime (target ∷ targets) =
      let rest = dispatch_direct strided stack runtime targets in
      let before = dispatch_direct-IsCalled runtime targets in
      let calls_later = All-map rest.0 (λ call later. inr later) before.0 in
      elim (Result-cases (build_step_scope_port_bundle strided runtime target.flow)) [
        | inr raised ↦ (rw (raised.1, All) tt, λ last h. absurd (ground (arith, raised.1, h)))
        | inl built ↦ elim (Option-cases built.0) [
          | inl nothing ↦ (
            rw (built.1, nothing, All) calls_later,
            λ last h call called.
                let found =
                  >>=-eq-ok rest.1 (λ found. ok (found.0, target ∷ found.1)) {last = last}
                    (ground (arith, built.1, nothing, h)) in
                let found_targets : List (FlowDispatchTarget Consumer) = found.0.1 in
                let same = ok-injective (found.0.0, target ∷ found_targets) last found.2 in
                let here : IsCalled (target ∷ found_targets) call =
                  subst (λ other. IsCalled other.1 call) (sym same) called in
                elim here [
                  | inl direct ↦ inl direct
                  | inr later ↦ inr (before.1 found.0 found.1 call later)
                ],
          )
          | inr something ↦ (
            rw (built.1, something.1, All)
                (
                  inl refl,
                  All-append (IsCalled (target ∷ targets)) (feedback target) rest.0
                      (All-map (feedback target) (λ call here. inl here)
                        (feedback-CallFor (Payload Tensor) target))
                      calls_later,
                ),
            λ last h call called.
                let found =
                  >>=-eq-ok rest.1 (λ found. ok (suc found.0, found.1)) {last = last}
                    (ground (arith, built.1, something.1, h)) in
                let found_targets : List (FlowDispatchTarget Consumer) = found.0.1 in
                let same = ok-injective (suc found.0.0, found_targets) last found.2 in
                inr (
                  before.1 found.0 found.1 call
                    (subst (λ other. IsCalled other.1 call) (sym same) called)),
          )
        ]
      ]

  dispatch_rest-IsCalled :
      (runtime : PortDispatchRuntime Tensor) (found : ℕ × List (FlowDispatchTarget Consumer))
      → All (IsCalled found.1) (dispatch_rest strided stack runtime found).0
  unfolding dispatch_rest
  dispatch_rest-IsCalled runtime found = elim (Bool-cases (is_empty found.1)) [
    | inl done ↦ rw (done, All) tt
    | inr targets ↦
        elim (Result-cases (step_frames strided runtime (tap_paths runtime.residual_bindings))) [
          | inr raised ↦ rw (targets, raised.1, All) tt
          | inl frames ↦ elim (Bool-cases (is_empty frames.0)) [
            | inl none_left ↦ rw (targets, frames.1, none_left, All) tt
            | inr some_left ↦
                rw (targets, frames.1, some_left)
                  (dispatch_frames-IsCalled frames.0 found.1 found.0)
          ]
        ]
  ]

  -- Every call of a dispatch, also of one that raises, is made for the consumer of a target of
  -- the plan whose flow is due in the step, and the end of a step is told only for a flow that
  -- does not run in the background.
  pub dispatch_decode_port_bundles-IsDue :
      (runtime : PortDispatchRuntime Tensor) (plan : DispatchPlan Consumer)
      → All
          (IsDue plan.flow_targets runtime.decode.event_step_id)
          (dispatch_decode_port_bundles strided stack runtime (some plan)).0
  unfolding dispatch_decode_port_bundles
  dispatch_decode_port_bundles-IsDue runtime plan =
      let step_id = runtime.decode.event_step_id in
      let targets = due_targets plan step_id in
      let direct = dispatch_direct strided stack runtime targets in
      let called = dispatch_direct-IsCalled runtime targets in
      All-map _ (IsDue-IsCalled plan.flow_targets step_id) (
        All-and_then (IsCalled targets) direct (dispatch_rest strided stack runtime) called.0
          (λ found reached.
            All-map _ (called.1 found reached) (dispatch_rest-IsCalled runtime found)))
