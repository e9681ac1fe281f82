-- ===== src/Runtime/DispatchPlan/Caps.antt =====
-- The row cap of a plan is enough for each of its compacting flows.
use t_llm.Prelude.{
  ℕ, ◌≤◌, ◌<◌, ◌≡◌, ◌≢◌, inl, inr, true, false, not, List, [], ◌∷◌, map, filter, any, All, ltb,
  Bool-cases, arith,
}
use t_llm.Runtime.Ports.{RowSelection}
use t_llm.Runtime.DispatchPlan.{
  FlowDispatchTarget, DispatchPlan, compacts, cap_of, largest, max_residual_compact_rows,
}

module _ {Consumer : Type 0} where
  -- A flow that compacts in the mode is capped, and below the bound.
  abbrev pub IsCapped : RowSelection → ℕ → FlowDispatchTarget Consumer → Type 0
  IsCapped mode bound target =
      compacts mode target ≡ true → (0 < cap_of target) × (cap_of target ≤ bound)

  caps_of : RowSelection → List (FlowDispatchTarget Consumer) → List ℕ
  caps_of mode targets = map cap_of (filter (compacts mode) targets)

  IsCapped-largest :
      (mode : RowSelection) (bound : ℕ) (targets : List (FlowDispatchTarget Consumer))
      → any (λ rows. not (ltb 0 rows)) (caps_of mode targets) ≡ false
      → largest (filter (λ rows. ltb 0 rows) (caps_of mode targets)) ≤ bound
      → All (IsCapped mode bound) targets
  unfolding caps_of
  IsCapped-largest mode bound [] h k = tt
  IsCapped-largest mode bound (t ∷ ts) h k = elim (Bool-cases (compacts mode t)) [
    | inl chosen ↦ (
      λ _. (ground arith, ground arith),
      IsCapped-largest mode bound ts (ground arith) (ground arith),
    )
    | inr skipped ↦ (λ c. absurd (cc), IsCapped-largest mode bound ts (ground arith) (ground arith))
  ]

  -- Where the row cap of a plan for a mode of compaction is not zero, every flow of the plan that
  -- reads the residual stream in the mode has a positive cap, and none is above the row cap.
  pub max_residual_compact_rows-IsCapped :
      (plan : DispatchPlan Consumer) (mode : RowSelection)
      → max_residual_compact_rows plan mode ≢ 0
      → All (IsCapped mode (max_residual_compact_rows plan mode)) plan.flow_targets
  unfolding max_residual_compact_rows caps_of
  max_residual_compact_rows-IsCapped plan mode h =
      IsCapped-largest mode _ plan.flow_targets (ground arith) (ground arith)
