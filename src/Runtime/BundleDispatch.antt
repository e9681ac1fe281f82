-- ===== src/Runtime/BundleDispatch.antt =====
-- `dispatch_decode_port_bundles` of tllm/runtime/ports/residual_bundle_dispatch.py: the bundles of a
-- step are handed to the consumers of the flows that are due. A consumer's methods are calls in a
-- log. An exception comes back beside the calls that were made before it. The runtime context and
-- the timing of the calls are left out.

pub mod Calls
pub mod Counts
use t_llm.Prelude.{
  ℕ, suc, ◌+◌, ◌%◌, max, Bool, true, false, not, Option, none, some, List, [], ◌∷◌, ◌++◌, map,
  filter, if◌then◌else◌, eqb, is_empty, length, ◌==◌, list_eq, nat_eq, Result, ok, err, ◌>>=◌,
  Exception,
}
use t_llm.Prelude.Int.{ℤ, pos_part}
use t_llm.Prelude.Str.{Str, strip}
use t_llm.Runtime.Ports.{FlowWindow, background, same_step, next_step, out_of_band, ConsumerFlow}
use t_llm.Runtime.RowView.{Strided}
use t_llm.Runtime.DispatchPlan.{FlowDispatchTarget, DispatchPlan}
use t_llm.Runtime.ResidualBindings.{tap_paths}
use t_llm.Runtime.Assembler.{PortFrame, PortBundle, Assembler, start, push, finalize_pending}
use t_llm.Runtime.BundleEntries.{
  Payload, hidden, hidden_row, legacy_rows, legacy_row, row_batch, lease, PortDispatchRuntime,
  build_decode_port_frames,
}
use t_llm.Runtime.StepBundle.{build_step_scope_port_bundle}

pub data Call (Consumer Entry : Type 0) : Type 0 where
  consume_bundle : Consumer → PortBundle Entry → Call Consumer Entry
  step_end : Consumer → Call Consumer Entry

-- `_flow_due_for_step`; a stride that is not positive counts as one.
unfoldable pub flow_due_for_step : ConsumerFlow → ℕ → Bool
flow_due_for_step flow step_id = eqb (step_id % max 1 (pos_part flow.dispatch_every_n_steps)) 0

abbrev pub is_background : FlowWindow → Bool
is_background background = true
is_background window = false

-- The calls that were made, and what was returned or raised.
abbrev pub Logged : Type 0 → Type 0 → Type 0 → Type 0
Logged Consumer Entry A = List (Call Consumer Entry) × Result A

module _ {Consumer Entry : Type 0} where
  abbrev pub after_calls :
      {A : Type 0} → List (Call Consumer Entry) → Logged Consumer Entry A → Logged Consumer Entry A
  after_calls calls logged = (calls ++ logged.0, logged.1)

  abbrev pub consume_all : Consumer → List (PortBundle Entry) → List (Call Consumer Entry)
  consume_all consumer bundles = map (λ bundle. consume_bundle consumer bundle) bundles

  -- `call_consumer_step_end`, unless the flow runs in the background
  abbrev pub feedback : FlowDispatchTarget Consumer → List (Call Consumer Entry)
  feedback target = if is_background target.flow.window then [] else step_end target.consumer ∷ []

abbrev pub due_targets :
    {Consumer : Type 0} → DispatchPlan Consumer → ℕ → List (FlowDispatchTarget Consumer)
due_targets plan step_id =
    filter (λ target. flow_due_for_step target.flow step_id) plan.flow_targets

-- `isinstance(item, torch.Tensor)`
abbrev pub is_tensor : {Tensor : Type 0} → Payload Tensor → Bool
is_tensor (hidden tensor) = true
is_tensor (hidden_row tensor row) = true
is_tensor payload = false

-- The frames of the layers that are tapped, in order
unfoldable pub step_frames :
    {A : Type 0} (strided : Strided A)
    → PortDispatchRuntime (strided.Tensor)
    → List Str
    → Result (List (PortFrame (Payload (strided.Tensor))))
unfolding build_decode_port_frames strip
step_frames strided runtime [] = ok []
step_frames strided runtime (layer_path ∷ layer_paths) =
    let layer_key = strip layer_path in
    if is_empty layer_key then step_frames strided runtime layer_paths else (do
      frames ← build_decode_port_frames strided runtime layer_key
      rest ← step_frames strided runtime layer_paths
      ok (frames ++ rest))

module _ {Consumer A : Type 0} (strided : Strided A)
    (stack : List (Payload (strided.Tensor)) → Result (Payload (strided.Tensor))) where
  open strided use {Tensor}

  -- The first loop: bundles of whole steps. It returns how many it handed out, and the targets that
  -- had none.
  unfoldable pub dispatch_direct :
      PortDispatchRuntime Tensor
      → List (FlowDispatchTarget Consumer)
      → Logged Consumer (Payload Tensor) (ℕ × List (FlowDispatchTarget Consumer))
  unfolding build_step_scope_port_bundle
  dispatch_direct runtime [] = ([], ok (0, []))
  dispatch_direct runtime (target ∷ targets) =
      let rest = dispatch_direct runtime targets in
      elim (build_step_scope_port_bundle strided runtime target.flow) [
        | err raised ↦ ([], err raised)
        | ok none ↦ (rest.0, (do found ← rest.1; ok (found.0, target ∷ found.1)))
        | ok (some built) ↦
            after_calls (consume_bundle target.consumer built ∷ feedback target)
              (rest.0, (do found ← rest.1; ok (suc found.0, found.1)))
      ]

  -- The loop over the frames, which hands out what the assembler completes
  unfoldable pub push_frames :
      FlowDispatchTarget Consumer
      → List (PortFrame (Payload Tensor))
      → Assembler (Payload Tensor)
      → ℕ
      → Logged Consumer (Payload Tensor) (Assembler (Payload Tensor) × ℕ)
  unfolding push
  push_frames target [] assembler dispatched = ([], ok (assembler, dispatched))
  push_frames target (frame ∷ frames) assembler dispatched =
      elim (push is_tensor stack target.flow frame assembler) [
        | err raised ↦ ([], err raised)
        | ok next ↦
            after_calls (consume_all target.consumer next.1)
              (push_frames target frames next.0 (dispatched + length next.1))
      ]

  -- The body of the second loop, behind its frames
  unfoldable pub finish_target :
      FlowDispatchTarget Consumer
      → Assembler (Payload Tensor)
      → ℕ
      → Logged Consumer (Payload Tensor) ℕ
  unfolding finalize_pending
  finish_target target assembler dispatched =
      elim (finalize_pending is_tensor stack target.flow assembler) [
        | err raised ↦ ([], err raised)
        | ok last ↦
            (consume_all target.consumer last.1 ++ feedback target, ok (dispatched + length last.1))
      ]

  abbrev pub and_then :
      {B C : Type 0}
      → Logged Consumer (Payload Tensor) B
      → (B → Logged Consumer (Payload Tensor) C)
      → Logged Consumer (Payload Tensor) C
  and_then (calls, err raised) next = (calls, err raised)
  and_then (calls, ok value) next = after_calls calls (next value)

  unfoldable pub dispatch_frames :
      List (PortFrame (Payload Tensor))
      → List (FlowDispatchTarget Consumer)
      → ℕ
      → Logged Consumer (Payload Tensor) ℕ
  unfolding push_frames finish_target
  dispatch_frames frames [] dispatched = ([], ok dispatched)
  dispatch_frames frames (target ∷ targets) dispatched =
      and_then
        (and_then (push_frames target frames start dispatched)
          (λ pushed. finish_target target pushed.0 pushed.1))
        (dispatch_frames frames targets)

  -- The part behind the first loop
  unfoldable pub dispatch_rest :
      PortDispatchRuntime Tensor
      → ℕ × List (FlowDispatchTarget Consumer)
      → Logged Consumer (Payload Tensor) ℕ
  unfolding step_frames dispatch_frames
  dispatch_rest runtime found =
      if is_empty found.1
      then ([], ok found.0)
      else elim (step_frames strided runtime (tap_paths runtime.residual_bindings)) [
        | err raised ↦ ([], err raised)
        | ok frames ↦
            if is_empty frames then ([], ok found.0) else dispatch_frames frames found.1 found.0
      ]

  unfoldable pub dispatch_decode_port_bundles :
      PortDispatchRuntime Tensor
      → Option (DispatchPlan Consumer)
      → Logged Consumer (Payload Tensor) ℕ
  unfolding dispatch_direct dispatch_rest flow_due_for_step
  dispatch_decode_port_bundles runtime none = ([], ok 0)
  dispatch_decode_port_bundles runtime (some plan) =
      and_then (dispatch_direct runtime (due_targets plan runtime.decode.event_step_id))
        (dispatch_rest runtime)
