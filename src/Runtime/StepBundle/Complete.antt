-- ===== src/Runtime/StepBundle/Complete.antt =====
-- What a bundle of a whole step contains.
use t_llm.Prelude.{
  ℕ, ◌≤◌, true, false, not, ◌||◌, ◌≡◌, refl, sym, ap, ◌∙◌, subst, inl, inr, Option, some, List, [],
  ◌∷◌, any, All, ltb, eqb, ◌==◌, eq_of_==, contains, list_eq, nat_eq, ok, ◌>>=◌, >>=-eq-ok,
  ok-injective, Option-cases, Bool-cases, arith,
}
use t_llm.Prelude.Int.{pos, ◌≤ℤ◌, ltb_ℤ}
use t_llm.Prelude.Str.{Str, codes}
use t_llm.Prelude.Dict.{Dict, keys, values, lookup, insert, lookup-insert_self}
use t_llm.Prelude.Dict.Laws.{keys-insert, contains-append_one}
use t_llm.Runtime.Ports.{
  PortRead, entry_name, bundle, device_lease, BufferOwnership, is_runtime_lease, ConsumerFlow,
  step_scope_key,
}
use t_llm.Runtime.RowBatch.{RowBatchMeta, decode_phase}
use t_llm.Runtime.RowView.{Strided}
use t_llm.Runtime.Assembler.{Entry, one, PortBundle}
use t_llm.Runtime.BundleEntries.{
  LegacyRow, DeviceTensorLease, Payload, lease, PortDispatchRuntime, request_meta_payload_from_view,
  entry_of_kind, named, entry_for_flow_read,
}
use t_llm.Runtime.StepBundle.{
  rows_of_step, exceeds_cap, make_lease, lease_entries, bundle_entries, deliver, step_key,
  bundle_of_rows, build_selected, build_step_scope_port_bundle,
}

contains-insert :
    {V : Type 0} (k j : Str) (v : V) (d : Dict Str V)
    → contains (keys (insert k v d)) j ≡ (contains (keys d) j || j == k)
contains-insert k j v d =
    ground (arith, keys-insert k v d, contains-append_one (keys d) j k, eq_of_== j k)

module _ {A : Type 0} (strided : Strided A) where
  open strided use {Tensor, rows}

  abbrev pub HasEntry : Dict Str (Entry (Payload Tensor)) → PortRead → Type 0
  HasEntry entries read = contains (keys entries) (entry_name read) ≡ true

  -- The bundle has a lease, of no more rows than each of its tensors has, and within the flow's cap.
  abbrev pub IsLeased : ConsumerFlow → Dict Str (Entry (Payload Tensor)) → Type 0
  IsLeased flow entries =
      (device : DeviceTensorLease Tensor) × (lookup (codes "device_lease") entries
        ≡ some (one (lease device)))
      × All (λ tensor. device.active_rows ≤ rows tensor) (values device.entries)
      × (ltb_ℤ (pos 0) flow.max_bundle_rows ≡ true → pos device.active_rows ≤ℤ flow.max_bundle_rows)

  entry_name-read :
      (runtime : PortDispatchRuntime Tensor) (read : PortRead) (payload : List LegacyRow)
      (active : ℕ) (row_ids : Option (List ℕ)) (entry : Str × Payload Tensor)
      → entry_for_flow_read strided runtime read payload active row_ids ≡ ok (some entry)
      → entry.0 ≡ entry_name read
  unfolding entry_for_flow_read
  entry_name-read runtime read payload active row_ids entry h =
      let found =
        >>=-eq-ok (entry_of_kind strided runtime read.kind read payload active row_ids)
          (λ found. ok (named strided read found)) {last = some entry} h in
      elim (Option-cases found.0) [
        | inl missing ↦ absurd (ground (arith, missing, found.2))
        | inr present ↦ ground (arith, present.1, found.2)
      ]

  bundle_entries-HasEntry :
      (runtime : PortDispatchRuntime Tensor) (payload : List LegacyRow) (active : ℕ)
      (row_ids : Option (List ℕ)) (reads : List PortRead)
      (before entries : Dict Str (Entry (Payload Tensor)))
      → bundle_entries strided runtime payload active row_ids reads before ≡ ok entries
      → All (HasEntry entries) reads
        × ((name : Str) → contains (keys before) name ≡ true → contains (keys entries) name ≡ true)
  unfolding bundle_entries
  bundle_entries-HasEntry runtime payload active row_ids [] before entries h =
      (tt, λ name inside. ground (arith, h, inside))
  bundle_entries-HasEntry runtime payload active row_ids (read ∷ reads) before entries h =
      let looked =
        >>=-eq-ok (entry_for_flow_read strided runtime read payload active row_ids) _
          {last = entries} h in
      elim (Option-cases looked.0) [
        | inl missing ↦ absurd (ground (arith, missing, looked.2))
        | inr found ↦
            let entry : Str × Payload Tensor = found.0 in
            let rest =
              bundle_entries-HasEntry runtime payload active row_ids reads
                (insert entry.0 (one entry.1) before) entries (ground (arith, found.1, looked.2)) in
            let name =
              entry_name-read runtime read payload active row_ids entry
                (looked.1 ∙ ap ok found.1) in
            (
              (
                rest.1 (entry_name read) (
                    ground (
                      arith,
                      contains-insert entry.0 (entry_name read) (one entry.1) before,
                      name,
                    )),
                rest.0,
              ),
              λ other inside.
                  rest.1 other
                    (ground (arith, contains-insert entry.0 other (one entry.1) before, inside)),
            )
      ]

  enough_rows :
      (active : ℕ) (tensors : List Tensor)
      → any (λ tensor. ltb (rows tensor) active) tensors ≡ false
      → All (λ tensor. active ≤ rows tensor) tensors
  enough_rows active [] h = tt
  enough_rows active (tensor ∷ tensors) h =
      (ground arith, enough_rows active tensors (ground arith))

  make_lease-ok :
      (ownership : BufferOwnership) (entries : Dict Str Tensor) (active : ℕ)
      (device : DeviceTensorLease Tensor)
      → make_lease strided ownership entries active ≡ ok device
      → (device.active_rows ≡ active) × All (λ tensor. active ≤ rows tensor) (values device.entries)
  unfolding make_lease
  make_lease-ok ownership entries active device h = elim (Bool-cases (is_runtime_lease ownership)) [
    | inr borrows ↦ absurd (ground (arith, borrows, h))
    | inl leases ↦ elim (Bool-cases (any (λ tensor. ltb (rows tensor) active) (values entries))) [
      | inl short ↦ absurd (ground (arith, leases, short, h))
      | inr enough ↦
          let same : record { entries = entries; active_rows = active } ≡ device =
            ground (arith, leases, enough, h) in
          (
            ground (arith, same),
            subst (λ other. All (λ tensor. active ≤ rows tensor) (values other.entries)) same
                (enough_rows active (values entries) enough),
          )
    ]
  ]

  deliver-IsLeased :
      (runtime : PortDispatchRuntime Tensor) (flow : ConsumerFlow) (view : RowBatchMeta)
      (active : ℕ) (row_ids : Option (List ℕ)) (entries : Dict Str (Entry (Payload Tensor)))
      → exceeds_cap flow.max_bundle_rows active ≡ false
      → deliver strided runtime flow device_lease view active row_ids ≡ ok entries
      → IsLeased flow entries
  unfolding deliver
  deliver-IsLeased runtime flow view active row_ids entries within h =
      let read =
        >>=-eq-ok (lease_entries strided runtime view active row_ids flow.reads ([], []))
          (λ found. make_lease strided flow.ownership found.1 active >>= λ device.
            ok (insert (codes "device_lease") (one (lease device)) found.0))
          {last = entries} h in
      let found : Dict Str (Entry (Payload Tensor)) × Dict Str Tensor = read.0 in
      let made =
        >>=-eq-ok (make_lease strided flow.ownership found.1 active)
          (λ device. ok (insert (codes "device_lease") (one (lease device)) found.0))
          {last = entries} read.2 in
      let device : DeviceTensorLease Tensor = made.0 in
      let leased = make_lease-ok flow.ownership found.1 active device made.1 in
      let same =
        ok-injective (insert (codes "device_lease") (one (lease device)) found.0) entries made.2 in
      (
        device,
        subst (λ all_entries. lookup (codes "device_lease") all_entries ≡ some (one (lease device)))
            same (lookup-insert_self (codes "device_lease") (one (lease device)) found.0),
        subst (λ n. All (λ tensor. n ≤ rows tensor) (values device.entries)) (sym leased.0)
            leased.1,
        λ capped. ground (arith, leased.0, within, capped),
      )

  -- What holds of the bundle of a step
  abbrev pub IsComplete :
      PortDispatchRuntime Tensor → ConsumerFlow → PortBundle (Payload Tensor) → Type 0
  IsComplete runtime flow built =
      (built.key.engine_step_id ≡ runtime.decode.event_step_id)
      × (built.key.phase ≡ decode_phase)
      × (flow.delivery ≡ bundle → All (HasEntry built.entries) flow.reads)
      × (flow.delivery ≡ device_lease → IsLeased flow built.entries)

  bundle_of_rows-IsComplete :
      (runtime : PortDispatchRuntime Tensor) (flow : ConsumerFlow)
      (selected : RowBatchMeta × Option (List ℕ) × ℕ) (built : PortBundle (Payload Tensor))
      → bundle_of_rows strided runtime flow selected ≡ ok built
      → IsComplete runtime flow built
  unfolding bundle_of_rows deliver
  bundle_of_rows-IsComplete runtime flow selected built h =
      elim (Bool-cases (exceeds_cap flow.max_bundle_rows selected.2)) [
        | inl over ↦ absurd (ground (arith, over, h))
        | inr within ↦
            let delivered =
              >>=-eq-ok
                (deliver strided runtime flow flow.delivery selected.0 selected.2 selected.1)
                (λ entries.
                  ok (record { key = step_key strided runtime selected.0; entries = entries }))
                {last = built} (ground (arith, within, h)) in
            let entries : Dict Str (Entry (Payload Tensor)) = delivered.0 in
            let same : record { key = step_key strided runtime selected.0; entries = entries }
                ≡ built =
              ok-injective _ built delivered.2 in
            subst (IsComplete runtime flow) same (
              refl,
              refl,
              λ plain.
                  (bundle_entries-HasEntry runtime (request_meta_payload_from_view selected.0)
                    selected.2 selected.1 flow.reads [] entries
                    (subst
                      (λ d.
                        deliver strided runtime flow d selected.0 selected.2 selected.1
                        ≡ ok entries)
                      plain delivered.1)).0,
              λ leased.
                  deliver-IsLeased runtime flow selected.0 selected.2 selected.1 entries within (
                    subst
                      (λ d.
                        deliver strided runtime flow d selected.0 selected.2 selected.1
                        ≡ ok entries)
                      leased delivered.1),
            )
      ]

  -- A bundle that is built of a whole step is one for a flow keyed by step and phase, and has the
  -- key of the step. By plain delivery it has an entry for every read of the flow. By a device
  -- lease it has a lease of no more rows than each of its tensors has, and of no more rows than a
  -- positive row cap of the flow.
  pub build_step_scope_port_bundle-IsComplete :
      (runtime : PortDispatchRuntime Tensor) (flow : ConsumerFlow)
      (built : PortBundle (Payload Tensor))
      → build_step_scope_port_bundle strided runtime flow ≡ ok (some built)
      → (flow.bundle_key ≡ step_scope_key) × IsComplete runtime flow built
  unfolding build_step_scope_port_bundle build_selected
  build_step_scope_port_bundle-IsComplete runtime flow built h =
      elim (Bool-cases (not (flow.bundle_key == step_scope_key) || eqb runtime.decode_count 0)) [
        | inl unbound ↦ absurd (ground (arith, unbound, h))
        | inr step_scope ↦
            let found =
              >>=-eq-ok (rows_of_step runtime flow.row_compaction)
                (build_selected strided runtime flow) {last = some built}
                (ground (arith, step_scope, h)) in
            (
              eq_of_== flow.bundle_key step_scope_key (ground arith),
              elim (Option-cases found.0) [
                | inl nothing ↦ absurd (ground (arith, nothing, found.2))
                | inr selected ↦
                    let made =
                      >>=-eq-ok (bundle_of_rows strided runtime flow selected.0)
                        (λ one_bundle. ok (some one_bundle)) {last = some built}
                        (ground (arith, selected.1, found.2)) in
                    bundle_of_rows-IsComplete runtime flow selected.0 built
                      (ground (arith, made.1, made.2))
              ],
            )
      ]
