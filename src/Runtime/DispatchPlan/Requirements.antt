-- ===== src/Runtime/DispatchPlan/Requirements.antt =====
-- The methods of tllm/runtime/dispatch_plan.py that say what a plan needs of the runtime.
use t_llm.Prelude.{
  Bool, true, false, not, ◌&&◌, none, some, List, [], ◌∷◌, ◌++◌, any, all, if◌then◌else◌, is_empty,
  contains, Result, ok, err, ◌>>=◌, attribute_error,
}
use t_llm.Prelude.Dict.{values}
use t_llm.Runtime.Ports.{
  RowSelection, first_per_prompt, ResidualLocator, residual_locator_eq, Locator, residual_locator,
  PortRead,
}
use t_llm.Runtime.DispatchPlan.{
  FlowDispatchTarget, DispatchPlan, is_residual, reads_residual, same_mode, compacts,
}

-- `getattr(read.locator, ...)` for the layer, the site and the phase, which only the locators of the
-- residual stream all have
abbrev pub residual_fields : Locator → Result ResidualLocator
residual_fields (residual_locator locator) = ok locator
residual_fields locator = err attribute_error

-- `required.add(...)`
abbrev pub add_locator : ResidualLocator → List ResidualLocator → List ResidualLocator
add_locator locator required =
    if contains required locator then required else required ++ (locator ∷ [])

-- A read without a locator, or of another port, needs no layer.
unfoldable pub add_required : PortRead → List ResidualLocator → Result (List ResidualLocator)
add_required read required = elim read.locator [
  | none ↦ ok required
  | some locator ↦
      if not (is_residual read.kind)
      then ok required
      else (do found ← residual_fields locator; ok (add_locator found required))
]

unfoldable pub add_reads : List PortRead → List ResidualLocator → Result (List ResidualLocator)
unfolding add_required
add_reads [] required = ok required
add_reads (read ∷ reads) required = do next ← add_required read required; add_reads reads next

module _ {Consumer : Type 0} where
  unfoldable pub is_empty_plan : DispatchPlan Consumer → Bool
  is_empty_plan plan =
      is_empty plan.flow_targets && all (λ targets. is_empty targets) (values plan.by_event)

  unfoldable pub has_active_targets : DispatchPlan Consumer → Bool
  unfolding is_empty_plan
  has_active_targets plan = not (is_empty_plan plan)

  unfoldable pub requires_device_decode_metadata : DispatchPlan Consumer → Bool
  requires_device_decode_metadata plan =
      any (λ targets. not (is_empty targets)) (values plan.by_event)

  -- The loop of `requires_full_residual_capture`
  unfoldable pub full_capture_from : Bool → List (FlowDispatchTarget Consumer) → Bool
  full_capture_from saw_residual_flow [] = not saw_residual_flow
  full_capture_from saw_residual_flow (target ∷ targets) =
      let skipped = full_capture_from saw_residual_flow targets in
      let counted = full_capture_from true targets in
      if not (reads_residual target.flow)
      then skipped
      else if not (same_mode target.flow.row_compaction first_per_prompt)
      then true
      else counted

  unfoldable pub requires_full_residual_capture : DispatchPlan Consumer → Bool
  unfolding requires_device_decode_metadata full_capture_from
  requires_full_residual_capture plan =
      if requires_device_decode_metadata plan
      then true
      else full_capture_from false plan.flow_targets

  unfoldable pub required_from :
      List (FlowDispatchTarget Consumer) → List ResidualLocator → Result (List ResidualLocator)
  unfolding add_reads
  required_from [] required = ok required
  required_from (target ∷ targets) required = do
    next ← add_reads target.flow.reads required
    required_from targets next

  unfoldable pub required_residual_layers : DispatchPlan Consumer → Result (List ResidualLocator)
  unfolding required_from
  required_residual_layers plan = required_from plan.flow_targets []

  unfoldable pub has_residual_row_compaction : DispatchPlan Consumer → RowSelection → Bool
  has_residual_row_compaction plan mode = any (compacts mode) plan.flow_targets
