-- ===== src/Runtime/StepBundle.antt =====
-- `build_step_scope_port_bundle` of tllm/runtime/ports/residual_bundle_dispatch.py, and
-- `DeviceTensorLease` of tllm/contracts/gpu_stage.py: one bundle of all rows of a step.
pub mod Complete
use t_llm.Prelude.{
  ℕ, zero, suc, Bool, true, false, not, ◌&&◌, ◌||◌, Option, none, some, List, [], ◌∷◌, length, any,
  if◌then◌else◌, ltb, eqb, is_empty, ◌==◌, list_eq, nat_eq, Result, ok, err, ◌>>=◌, ◌>>◌, raise_if,
  value_error, runtime_error, row_cap_exceeded, missing_entry, unsupported_lease,
}
use t_llm.Prelude.Int.{ℤ, pos, ltb_ℤ}
use t_llm.Prelude.Str.{Str, codes}
use t_llm.Prelude.Dict.{Dict, insert, values}
use t_llm.Runtime.Ports.{
  PortKind, residual_stream, request_meta, RowSelection, all, first_per_prompt, PortRead,
  FlowDelivery, bundle, device_lease, BufferOwnership, is_runtime_lease, ConsumerFlow,
  step_scope_key,
}
use t_llm.Runtime.RowBatch.{RowBatchMeta, decode_phase}
use t_llm.Runtime.Compaction.{request_meta_view, compact_first_per_prompt_from_runtime}
use t_llm.Runtime.RowView.{Strided}
use t_llm.Runtime.Assembler.{BundleKey, Entry, one, PortBundle}
use t_llm.Runtime.BundleEntries.{
  LegacyRow, DeviceTensorLease, Payload, hidden, hidden_row, legacy_rows, legacy_row, row_batch,
  lease, PortDispatchRuntime, request_meta_payload_from_view, entry_for_flow_read,
}

-- The rows of a step that a flow is given: their metadata, their numbers where they were selected,
-- and how many they are; none where the selection keeps no row.
unfoldable pub rows_of_step :
    {Tensor : Type 0}
    → PortDispatchRuntime Tensor
    → RowSelection
    → Result (Option (RowBatchMeta × Option (List ℕ) × ℕ))
rows_of_step runtime all = do
  view ← request_meta_view runtime.decode runtime.decode_count
  ok (some (view, none, runtime.decode_count))
rows_of_step runtime first_per_prompt = do
  compacted ← compact_first_per_prompt_from_runtime runtime.decode runtime.decode_count
  ok (
      if is_empty compacted.1
      then none
      else some (compacted.0, some compacted.1, length compacted.1))

-- The guard of the row cap
abbrev pub exceeds_cap : ℤ → ℕ → Bool
exceeds_cap row_cap active = ltb_ℤ (pos 0) row_cap && ltb_ℤ row_cap (pos active)

-- `request_ids[0] if request_ids else ""`
abbrev pub first_text : List Str → Str
first_text [] = []
first_text (text ∷ texts) = text

abbrev pub first_index : List ℤ → ℤ
first_index [] = pos 0
first_index (index ∷ indices) = index

module _ {A : Type 0} (strided : Strided A) where
  open strided use {Tensor, rows}

  -- `DeviceTensorLease(...)` with its `__post_init__`
  unfoldable pub make_lease :
      BufferOwnership → Dict Str Tensor → ℕ → Result (DeviceTensorLease Tensor)
  make_lease ownership entries active_rows = do
    raise_if (not (is_runtime_lease ownership)) value_error
    raise_if (any (λ tensor. ltb (rows tensor) active_rows) (values entries)) value_error
    ok (record { entries = entries; active_rows = active_rows })

  -- What the loop of a leased bundle does with the entry of a read: metadata is an entry of the
  -- bundle, a tensor is one of the lease.
  unfoldable pub lease_entry :
      PortKind
      → Str
      → Payload Tensor
      → RowBatchMeta
      → Dict Str (Entry (Payload Tensor)) × Dict Str Tensor
      → Result (Dict Str (Entry (Payload Tensor)) × Dict Str Tensor)
  lease_entry request_meta name payload view entries =
      ok (insert name (one (row_batch view)) entries.0, entries.1)
  lease_entry residual_stream name (hidden tensor) view entries =
      ok (entries.0, insert name tensor entries.1)
  lease_entry kind name payload view entries = err (runtime_error unsupported_lease)

  unfoldable pub lease_entries :
      PortDispatchRuntime Tensor
      → RowBatchMeta
      → ℕ
      → Option (List ℕ)
      → List PortRead
      → Dict Str (Entry (Payload Tensor)) × Dict Str Tensor
      → Result (Dict Str (Entry (Payload Tensor)) × Dict Str Tensor)
  unfolding lease_entry entry_for_flow_read
  lease_entries runtime view active row_ids [] entries = ok entries
  lease_entries runtime view active row_ids (read ∷ reads) entries =
      entry_for_flow_read strided runtime read [] active row_ids >>= λ found. elim found [
        | none ↦ err (runtime_error missing_entry)
        | some entry ↦ (do
          next ← lease_entry read.kind entry.0 entry.1 view entries
          lease_entries runtime view active row_ids reads next)
      ]

  unfoldable pub bundle_entries :
      PortDispatchRuntime Tensor
      → List LegacyRow
      → ℕ
      → Option (List ℕ)
      → List PortRead
      → Dict Str (Entry (Payload Tensor))
      → Result (Dict Str (Entry (Payload Tensor)))
  unfolding entry_for_flow_read
  bundle_entries runtime payload active row_ids [] entries = ok entries
  bundle_entries runtime payload active row_ids (read ∷ reads) entries =
      entry_for_flow_read strided runtime read payload active row_ids >>= λ found. elim found [
        | none ↦ err (runtime_error missing_entry)
        | some entry ↦
            bundle_entries runtime payload active row_ids reads
              (insert entry.0 (one entry.1) entries)
      ]

  -- The entries of a bundle, by the flow's delivery
  unfoldable pub deliver :
      PortDispatchRuntime Tensor
      → ConsumerFlow
      → FlowDelivery
      → RowBatchMeta
      → ℕ
      → Option (List ℕ)
      → Result (Dict Str (Entry (Payload Tensor)))
  unfolding lease_entries make_lease bundle_entries
  deliver runtime flow device_lease view active row_ids = do
    entries ← lease_entries runtime view active row_ids flow.reads ([], [])
    device ← make_lease flow.ownership entries.1 active
    ok (insert (codes "device_lease") (one (lease device)) entries.0)
  deliver runtime flow bundle view active row_ids =
      bundle_entries runtime (request_meta_payload_from_view view) active row_ids flow.reads []

  abbrev pub step_key : PortDispatchRuntime Tensor → RowBatchMeta → BundleKey
  step_key runtime view = record {
    engine_step_id = runtime.decode.event_step_id;
    phase = decode_phase;
    request_id = first_text view.request_ids;
    sample_idx = first_index view.sample_idxs;
  }

  -- The part behind the selection of the rows
  unfoldable pub bundle_of_rows :
      PortDispatchRuntime Tensor
      → ConsumerFlow
      → RowBatchMeta × Option (List ℕ) × ℕ
      → Result (PortBundle (Payload Tensor))
  unfolding deliver
  bundle_of_rows runtime flow selected = do
    raise_if (exceeds_cap flow.max_bundle_rows selected.2) (runtime_error row_cap_exceeded)
    entries ← deliver runtime flow flow.delivery selected.0 selected.2 selected.1
    ok (record { key = step_key runtime selected.0; entries = entries })

  unfoldable pub build_selected :
      PortDispatchRuntime Tensor
      → ConsumerFlow
      → Option (RowBatchMeta × Option (List ℕ) × ℕ)
      → Result (Option (PortBundle (Payload Tensor)))
  unfolding bundle_of_rows
  build_selected runtime flow none = ok none
  build_selected runtime flow (some selected) = do
    built ← bundle_of_rows runtime flow selected
    ok (some built)

  unfoldable pub build_step_scope_port_bundle :
      PortDispatchRuntime Tensor → ConsumerFlow → Result (Option (PortBundle (Payload Tensor)))
  unfolding rows_of_step build_selected
  build_step_scope_port_bundle runtime flow =
      if not (flow.bundle_key == step_scope_key) || eqb runtime.decode_count 0 then ok none else (do
        selected ← rows_of_step runtime flow.row_compaction
        build_selected runtime flow selected)
