-- ===== src/Runtime/BundleDispatch/Counts.antt =====
-- How many bundles a dispatch hands out.
use t_llm.Prelude.{
  ℕ, suc, ◌+◌, ◌≡◌, refl, ap, inl, inr, Option, none, some, List, [], ◌∷◌, ◌++◌, length, is_empty,
  Result, ok, err, >>=-eq-ok, Result-cases, Option-cases, Bool-cases, arith,
}
use t_llm.Runtime.RowView.{Strided}
use t_llm.Runtime.DispatchPlan.{FlowDispatchTarget, DispatchPlan}
use t_llm.Runtime.ResidualBindings.{tap_paths}
use t_llm.Runtime.Assembler.{PortFrame, PortBundle, Assembler, start, push, finalize_pending}
use t_llm.Runtime.BundleEntries.{Payload, PortDispatchRuntime}
use t_llm.Runtime.StepBundle.{build_step_scope_port_bundle}
use t_llm.Runtime.BundleDispatch.{
  Call, consume_bundle, step_end, is_background, Logged, consume_all, feedback, due_targets,
  is_tensor, step_frames, dispatch_direct, push_frames, finish_target, and_then, dispatch_frames,
  dispatch_rest, dispatch_decode_port_bundles,
}

-- The calls that hand out a bundle
unfoldable pub consumed : {Consumer Entry : Type 0} → List (Call Consumer Entry) → ℕ
consumed [] = 0
consumed (consume_bundle consumer built ∷ calls) = suc (consumed calls)
consumed (step_end consumer ∷ calls) = consumed calls

module _ {Consumer Entry : Type 0} where
  consumed-append :
      (calls later : List (Call Consumer Entry))
      → consumed (calls ++ later) ≡ consumed calls + consumed later
  unfolding consumed
  consumed-append [] later = omega arith
  consumed-append (consume_bundle consumer built ∷ calls) later =
      omega (arith, consumed-append calls later)
  consumed-append (step_end consumer ∷ calls) later = consumed-append calls later

  consumed-consume_all :
      (consumer : Consumer) (bundles : List (PortBundle Entry))
      → consumed (consume_all consumer bundles) ≡ length bundles
  unfolding consumed
  consumed-consume_all consumer [] = refl
  consumed-consume_all consumer (built ∷ bundles) = ap suc (consumed-consume_all consumer bundles)

consumed-feedback :
    {Consumer : Type 0} (Entry : Type 0) (target : FlowDispatchTarget Consumer)
    → consumed {Entry = Entry} (feedback target) ≡ 0
unfolding consumed
consumed-feedback Entry target = elim (Bool-cases (is_background target.flow.window)) [
  | inl silent ↦ ground (arith, silent)
  | inr told ↦ ground (arith, told)
]

module _ {Consumer A : Type 0} (strided : Strided A)
    (stack : List (Payload (strided.Tensor)) → Result (Payload (strided.Tensor))) where
  open strided use {Tensor}

  -- What is behind a part of the dispatch is reached with the value of the part.
  and_then-ok :
      {B C : Type 0} (first : Logged Consumer (Payload Tensor) B)
      (next : B → Logged Consumer (Payload Tensor) C) (last : C)
      → (and_then strided stack first next).1 ≡ ok last
      → (value : B) × (first.1 ≡ ok value)
        × ((next value).1 ≡ ok last)
        × ((and_then strided stack first next).0 ≡ first.0 ++ (next value).0)
  and_then-ok (calls, err raised) next last h = absurd (cc)
  and_then-ok (calls, ok value) next last h = (value, refl, h, refl)

  push_frames-count :
      (target : FlowDispatchTarget Consumer) (frames : List (PortFrame (Payload Tensor)))
      (assembler : Assembler (Payload Tensor)) (dispatched : ℕ)
      (last : Assembler (Payload Tensor) × ℕ)
      → (push_frames strided stack target frames assembler dispatched).1 ≡ ok last
      → last.1
        ≡ dispatched + consumed (push_frames strided stack target frames assembler dispatched).0
  unfolding push_frames consumed
  push_frames-count target [] assembler dispatched last h = ground (arith, h)
  push_frames-count target (frame ∷ frames) assembler dispatched last h =
      elim (Result-cases (push is_tensor stack target.flow frame assembler)) [
        | inl pushed ↦
            let next : Assembler (Payload Tensor) × List (PortBundle (Payload Tensor)) = pushed.0 in
            let rest =
              push_frames-count target frames next.0 (dispatched + length next.1) last
                (ground (arith, pushed.1, h)) in
            ground (
              arith,
              pushed.1,
              rest,
              consumed-append (consume_all target.consumer next.1)
                  (push_frames strided stack target frames next.0 (dispatched + length next.1)).0,
              consumed-consume_all target.consumer next.1,
            )
        | inr raised ↦ absurd (ground (arith, raised.1, h))
      ]

  finish_target-count :
      (target : FlowDispatchTarget Consumer) (assembler : Assembler (Payload Tensor))
      (dispatched last : ℕ)
      → (finish_target strided stack target assembler dispatched).1 ≡ ok last
      → last ≡ dispatched + consumed (finish_target strided stack target assembler dispatched).0
  unfolding finish_target
  finish_target-count target assembler dispatched last h =
      elim (Result-cases (finalize_pending is_tensor stack target.flow assembler)) [
        | inl run ↦
            let handed : List (PortBundle (Payload Tensor)) = run.0.1 in
            ground (
              arith,
              run.1,
              h,
              consumed-append (consume_all target.consumer handed) (feedback target),
              consumed-consume_all target.consumer handed,
              consumed-feedback (Payload Tensor) target,
            )
        | inr raised ↦ absurd (ground (arith, raised.1, h))
      ]

  dispatch_frames-count :
      (frames : List (PortFrame (Payload Tensor))) (targets : List (FlowDispatchTarget Consumer))
      (dispatched last : ℕ)
      → (dispatch_frames strided stack frames targets dispatched).1 ≡ ok last
      → last ≡ dispatched + consumed (dispatch_frames strided stack frames targets dispatched).0
  unfolding dispatch_frames consumed
  dispatch_frames-count frames [] dispatched last h = ground (arith, h)
  dispatch_frames-count frames (target ∷ targets) dispatched last h =
      let pushing = push_frames strided stack target frames start dispatched in
      let finish : Assembler (Payload Tensor) × ℕ → Logged Consumer (Payload Tensor) ℕ =
        λ pushed. finish_target strided stack target pushed.0 pushed.1 in
      let one_target = and_then strided stack pushing finish in
      let outer = and_then-ok one_target (dispatch_frames strided stack frames targets) last h in
      let inner = and_then-ok pushing finish outer.0 outer.1 in
      let pushed : Assembler (Payload Tensor) × ℕ = inner.0 in
      omega (
        arith,
        ap consumed outer.3,
        ap consumed inner.3,
        consumed-append one_target.0 (dispatch_frames strided stack frames targets outer.0).0,
        consumed-append pushing.0 (finish pushed).0,
        push_frames-count target frames start dispatched pushed inner.1,
        finish_target-count target pushed.0 pushed.1 outer.0 inner.2,
        dispatch_frames-count frames targets outer.0 last outer.2,
      )

  dispatch_direct-count :
      (runtime : PortDispatchRuntime Tensor) (targets : List (FlowDispatchTarget Consumer))
      (last : ℕ × List (FlowDispatchTarget Consumer))
      → (dispatch_direct strided stack runtime targets).1 ≡ ok last
      → last.0 ≡ consumed (dispatch_direct strided stack runtime targets).0
  unfolding dispatch_direct consumed
  dispatch_direct-count runtime [] last h = ground (arith, h)
  dispatch_direct-count runtime (target ∷ targets) last h =
      let rest = dispatch_direct strided stack runtime targets in
      elim (Result-cases (build_step_scope_port_bundle strided runtime target.flow)) [
        | inr raised ↦ absurd (ground (arith, raised.1, h))
        | inl built ↦ elim (Option-cases built.0) [
          | inl nothing ↦
              let found =
                >>=-eq-ok rest.1 (λ found. ok (found.0, target ∷ found.1)) {last = last}
                  (ground (arith, built.1, nothing, h)) in
              ground (
                arith,
                built.1,
                nothing,
                found.2,
                dispatch_direct-count runtime targets found.0 found.1,
              )
          | inr something ↦
              let found =
                >>=-eq-ok rest.1 (λ found. ok (suc found.0, found.1)) {last = last}
                  (ground (arith, built.1, something.1, h)) in
              ground (
                arith,
                built.1,
                something.1,
                found.2,
                consumed-append (consume_bundle target.consumer something.0 ∷ feedback target)
                    rest.0,
                consumed-feedback (Payload Tensor) target,
                dispatch_direct-count runtime targets found.0 found.1,
              )
        ]
      ]

  dispatch_rest-count :
      (runtime : PortDispatchRuntime Tensor) (found : ℕ × List (FlowDispatchTarget Consumer))
      (last : ℕ)
      → (dispatch_rest strided stack runtime found).1 ≡ ok last
      → last ≡ found.0 + consumed (dispatch_rest strided stack runtime found).0
  unfolding dispatch_rest consumed
  dispatch_rest-count runtime found last h = elim (Bool-cases (is_empty found.1)) [
    | inl done ↦ ground (arith, done, h)
    | inr targets ↦
        elim (Result-cases (step_frames strided runtime (tap_paths runtime.residual_bindings))) [
          | inr raised ↦ absurd (ground (arith, targets, raised.1, h))
          | inl frames ↦ elim (Bool-cases (is_empty frames.0)) [
            | inl none_left ↦ ground (arith, targets, frames.1, none_left, h)
            | inr some_left ↦ ground (
              arith,
              targets,
              frames.1,
              some_left,
              h,
              dispatch_frames-count frames.0 found.1 found.0 last,
            )
          ]
        ]
  ]

  -- A dispatch that returns a number has handed out that many bundles.
  pub dispatch_decode_port_bundles-count :
      (runtime : PortDispatchRuntime Tensor) (plan : Option (DispatchPlan Consumer))
      (dispatched : ℕ)
      → (dispatch_decode_port_bundles strided stack runtime plan).1 ≡ ok dispatched
      → dispatched ≡ consumed (dispatch_decode_port_bundles strided stack runtime plan).0
  unfolding dispatch_decode_port_bundles consumed
  dispatch_decode_port_bundles-count runtime none dispatched h = ground (arith, h)
  dispatch_decode_port_bundles-count runtime (some plan) dispatched h =
      let direct =
        dispatch_direct strided stack runtime (due_targets plan runtime.decode.event_step_id) in
      let outer = and_then-ok direct (dispatch_rest strided stack runtime) dispatched h in
      omega (
        arith,
        ap consumed outer.3,
        consumed-append direct.0 (dispatch_rest strided stack runtime outer.0).0,
        dispatch_direct-count runtime (due_targets plan runtime.decode.event_step_id) outer.0
            outer.1,
        dispatch_rest-count runtime outer.0 dispatched outer.2,
      )
