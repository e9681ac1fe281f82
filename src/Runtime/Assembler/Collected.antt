-- ===== src/Runtime/Assembler/Collected.antt =====
-- What an assembler that aggregates has gathered from the frames that were pushed.
use t_llm.Prelude.{
  Bool, true, false, ◌&&◌, ◌≡◌, refl, sym, ap, ◌∙◌, subst, inl, inr, Option, none, some, List, [],
  ◌∷◌, ◌++◌, append_assoc, append-nil, if◌then◌else◌, ◌==◌, eq_of_==, list_eq, nat_eq, Result, ok,
  err, Result-cases, Option-cases, ok-injective, arith,
}
use t_llm.Prelude.Str.{Str}
use t_llm.Prelude.Dict.{Dict, lookup, insert, lookup-insert}
use t_llm.Runtime.Ports.{ConsumerFlow}
use t_llm.Runtime.Assembler.{
  BundleKey, GroupKey, group_key_eq, PortFrame, Entry, one, many, PortBundle, Binding,
  build_bindings, project_group_key, is_aggregating, match_binding, Assembler, start, merge_entry,
  entries_at, set_default, emit, push_bound, push, push_all,
}
use t_llm.Runtime.Assembler.Fields.{HasFields, project_group_key-returns}
use t_llm.Runtime.Assembler.Invariant.{IsAssembling, start-IsAssembling, push-IsAssembling}

-- Whether the frame of the key goes to the group
abbrev pub in_group : ConsumerFlow → GroupKey → BundleKey → Bool
in_group flow group key = elim (project_group_key flow key) [
  | ok other ↦ other == group
  | err raised ↦ false
]

module _ {Payload : Type 0} where
  -- The payload of a frame, where it goes to the group under the name
  abbrev pub collect_one : ConsumerFlow → GroupKey → Str → PortFrame Payload → List Payload
  collect_one flow group name frame = elim (match_binding (build_bindings flow) frame) [
    | none ↦ []
    | some binding ↦
        if binding.name == name && in_group flow group frame.key then frame.payload ∷ [] else []
  ]

  abbrev pub collected : ConsumerFlow → GroupKey → Str → List (PortFrame Payload) → List Payload
  collected flow group name [] = []
  collected flow group name (frame ∷ frames) =
      collect_one flow group name frame ++ collected flow group name frames

  abbrev payloads_of : Option (Entry Payload) → List Payload
  payloads_of none = []
  payloads_of (some (one payload)) = payload ∷ []
  payloads_of (some (many payloads)) = payloads

  -- The payloads that the group has under the name
  abbrev pub payloads_at : GroupKey → Str → Assembler Payload → List Payload
  payloads_at group name assembler = payloads_of (lookup name (entries_at group assembler.pending))

  merge_entry-payloads :
      (existing : Option (Entry Payload)) (payload : Payload) (merged : Entry Payload)
      → merge_entry true existing payload ≡ ok merged
      → payloads_of (some merged) ≡ payloads_of existing ++ (payload ∷ [])
  unfolding merge_entry
  merge_entry-payloads none payload merged h = ground arith
  merge_entry-payloads (some (one other)) payload merged h = absurd (cc)
  merge_entry-payloads (some (many payloads)) payload merged h = ground arith

  entries_at-insert :
      (group other : GroupKey) (entries : Dict Str (Entry Payload))
      (pending : Dict GroupKey (Dict Str (Entry Payload)))
      → entries_at other (insert group entries pending)
        ≡ (if group == other then entries else entries_at other pending)
  entries_at-insert group other entries pending =
      ground (arith, lookup-insert other group entries pending)

module _ {Payload : Type 0} (is_tensor : Payload → Bool)
    (stack : List Payload → Result Payload) where
  emit-aggregating :
      (flow : ConsumerFlow) (group : GroupKey) (entries : Dict Str (Entry Payload))
      (stored : Assembler Payload)
      → is_aggregating flow ≡ true
      → emit is_tensor stack flow group entries stored ≡ ok (stored, [])
  unfolding emit
  emit-aggregating flow group entries stored h = ground arith

  -- While it aggregates, a push adds the payload of its frame and makes no bundle.
  AddsPayload :
      ConsumerFlow
      → PortFrame Payload
      → Assembler Payload
      → Assembler Payload × List (PortBundle Payload)
      → Type 0
  AddsPayload flow frame assembler next =
      (next.1 ≡ [])
      × ((group : GroupKey) (name : Str)
          → payloads_at group name next.0
            ≡ payloads_at group name assembler ++ collect_one flow group name frame)

  push_bound-adds :
      (flow : ConsumerFlow) (binding : Binding) (frame : PortFrame Payload)
      (assembler : Assembler Payload) (group : GroupKey) (merged : Entry Payload)
      → is_aggregating flow ≡ true
      → match_binding (build_bindings flow) frame ≡ some binding
      → project_group_key flow frame.key ≡ ok group
      → merge_entry true (lookup binding.name (entries_at group assembler.pending)) frame.payload
        ≡ ok merged
      → (push_bound is_tensor stack flow binding frame assembler
          ≡ ok (
            record {
              pending =
                  insert group
                    (insert binding.name merged (entries_at group assembler.pending))
                    assembler.pending;
              pending_keys = set_default group frame.key assembler.pending_keys;
            },
            [],
          ))
        × ((other : GroupKey) (name : Str)
            → payloads_of (
                lookup name (
                  entries_at other (
                    insert group
                      (insert binding.name merged (entries_at group assembler.pending))
                      assembler.pending)))
              ≡ payloads_at other name assembler ++ collect_one flow other name frame)
  unfolding push_bound
  push_bound-adds flow binding frame assembler group merged aggregating bound projects merges =
      let before = entries_at group assembler.pending in
      let grown = merge_entry-payloads (lookup binding.name before) frame.payload merged merges in
      (
        ground
            (arith, emit-aggregating flow group (insert binding.name merged before) _ aggregating),
        λ other name.
            let pending = assembler.pending in
            ground (
              arith,
              lookup-insert other group (insert binding.name merged before) pending,
              lookup-insert name binding.name merged before,
              eq_of_== group other,
              eq_of_== binding.name name,
              grown,
              bound,
              projects,
              append-nil (payloads_at other name assembler),
            ),
      )

  AddsPayload-eq :
      (flow : ConsumerFlow) (frame : PortFrame Payload) (assembler : Assembler Payload)
      (found next : Assembler Payload × List (PortBundle Payload))
      → AddsPayload flow frame assembler found
      → ok found ≡ ok next
      → AddsPayload flow frame assembler next
  AddsPayload-eq flow frame assembler found next h same =
      subst (AddsPayload flow frame assembler) (ok-injective found next same) h

  push_bound-AddsPayload :
      (flow : ConsumerFlow) (binding : Binding) (frame : PortFrame Payload)
      (assembler : Assembler Payload) (group : GroupKey)
      (next : Assembler Payload × List (PortBundle Payload))
      → is_aggregating flow ≡ true
      → match_binding (build_bindings flow) frame ≡ some binding
      → project_group_key flow frame.key ≡ ok group
      → push_bound is_tensor stack flow binding frame assembler ≡ ok next
      → AddsPayload flow frame assembler next
  unfolding push_bound AddsPayload
  push_bound-AddsPayload flow binding frame assembler group next aggregating bound projects pushed =
      elim (Result-cases (
        merge_entry true (lookup binding.name (entries_at group assembler.pending))
          frame.payload)) [
            | inl merges ↦
                let adds =
                  push_bound-adds flow binding frame assembler group merges.0 aggregating bound
                    projects merges.1 in
                AddsPayload-eq flow frame assembler _ next (refl, adds.1) (sym adds.0 ∙ pushed)
            | inr raises ↦ absurd (ground (arith, projects, aggregating, raises.1, pushed))
          ]

  push-AddsPayload :
      (flow : ConsumerFlow) (frame : PortFrame Payload) (assembler : Assembler Payload)
      (group : GroupKey) (next : Assembler Payload × List (PortBundle Payload))
      → is_aggregating flow ≡ true
      → project_group_key flow frame.key ≡ ok group
      → push is_tensor stack flow frame assembler ≡ ok next
      → AddsPayload flow frame assembler next
  unfolding push AddsPayload
  push-AddsPayload flow frame assembler group next aggregating projects pushed =
      elim (Option-cases (match_binding (build_bindings flow) frame)) [
        | inl unbound ↦
            AddsPayload-eq flow frame assembler (assembler, []) next
              (
                refl,
                λ other name.
                    ground (arith, unbound, append-nil (payloads_at other name assembler)),
              )
              (ground (arith, unbound, pushed))
        | inr bound ↦
            push_bound-AddsPayload flow bound.0 frame assembler group next aggregating bound.1
              projects (ground (arith, bound.1, pushed))
      ]

  -- What is gathered from frames that are pushed one by one
  collects :
      (flow : ConsumerFlow) (frames : List (PortFrame Payload)) (assembler : Assembler Payload)
      → HasFields flow
      → is_aggregating flow ≡ true
      → IsAssembling flow assembler
      → (last : Assembler Payload × List (PortBundle Payload)) × (push_all is_tensor stack flow
            frames assembler
          ≡ ok last)
        × IsAssembling flow last.0
        × (last.1 ≡ [])
        × ((group : GroupKey) (name : Str)
            → payloads_at group name last.0
              ≡ payloads_at group name assembler ++ collected flow group name frames)
  unfolding push_all AddsPayload
  collects flow [] assembler fields aggregating h = (
    (assembler, []),
    refl,
    h,
    refl,
    λ group name. sym (append-nil (payloads_at group name assembler)),
  )
  collects flow (frame ∷ frames) assembler fields aggregating h =
      let key_group = project_group_key-returns flow frame.key fields in
      let pushed =
        push-IsAssembling is_tensor stack flow frame assembler key_group.0 key_group.1 h in
      let adds =
        push-AddsPayload flow frame assembler key_group.0 pushed.0 aggregating key_group.1
          pushed.1 in
      let rest = collects flow frames pushed.0.0 fields aggregating pushed.2 in
      (
        (rest.0.0, pushed.0.1 ++ rest.0.1),
        rw (pushed.1, rest.1) refl,
        rest.2,
        rw (adds.0, rest.3) refl,
        λ group name.
            rest.4 group name
            ∙ ap (λ payloads. payloads ++ collected flow group name frames) (adds.1 group name)
            ∙ append_assoc (payloads_at group name assembler) (collect_one flow group name frame)
                (collected flow group name frames),
      )

  -- For a flow whose bundle key is not empty and names fields of a key, pushing any frames to a
  -- new assembler succeeds and hands out no bundle, and for every group and every name it has
  -- gathered, in order, the payloads of the frames that go to the group and whose binding has the
  -- name.
  pub push_all-collected :
      (flow : ConsumerFlow) (frames : List (PortFrame Payload))
      → HasFields flow
      → is_aggregating flow ≡ true
      → (last : Assembler Payload × List (PortBundle Payload)) × (push_all is_tensor stack flow
            frames start
          ≡ ok last)
        × (last.1 ≡ [])
        × ((group : GroupKey) (name : Str)
            → payloads_at group name last.0 ≡ collected flow group name frames)
  unfolding lookup
  push_all-collected flow frames fields aggregating =
      let all_of = collects flow frames start fields aggregating (start-IsAssembling flow) in
      (all_of.0, all_of.1, all_of.3, all_of.4)
