-- ===== src/Runtime/Assembler/Invariant.antt =====
-- What holds of an assembler between two calls, and that `push` keeps it and does not raise.
use t_llm.Prelude.{
  ◌<◌, Bool, true, false, ◌≡◌, refl, ap, subst, inl, inr, Option, none, some, List, [], ◌∷◌, ◌++◌,
  length, All, ltb, contains, list_eq, nat_eq, Result, ok, Bool-cases, Option-cases, ltb→lt, arith,
}
use t_llm.Prelude.Str.{Str}
use t_llm.Prelude.Dict.{Dict, keys, lookup, insert, erase, lookup-insert_self}
use t_llm.Prelude.Dict.Laws.{
  remove, NoDup, NoDup-remove, NoDup-append_one, lookup-contains, contains-lookup, keys-insert,
  keys-erase, All-insert, All-erase, All-lookup, All-erase-insert,
}
use t_llm.Runtime.Ports.{ConsumerFlow}
use t_llm.Runtime.Assembler.{
  BundleKey, GroupKey, group_key_eq, PortFrame, Entry, one, many, PortBundle, Binding,
  build_bindings, project_group_key, is_aggregating, match_binding, Assembler, start, merge_entry,
  entries_at, set_default, finalize_entry, finalize_entries, build_bundle, emit, push_bound, push,
}
use t_llm.Runtime.Assembler.Keys.{normalize_key-eq}
use t_llm.Runtime.Assembler.Groups.{
  keys-set_default, All-set_default, KeepsKeys, IsStored, same-KeepsKeys, IsStored-KeepsKeys,
}

module _ {Payload : Type 0} where
  -- While it aggregates, an assembler keeps lists of payloads.
  abbrev pub IsMerged : Bool → Entry Payload → Type 0
  IsMerged aggregating entry = aggregating ≡ true → (ps : List Payload) × (entry ≡ many ps)

  abbrev pub IsPending : ConsumerFlow → GroupKey × Dict Str (Entry Payload) → Type 0
  IsPending flow group =
      All (λ entry. IsMerged (is_aggregating flow) entry.1) group.1
      × (is_aggregating flow ≡ false → length group.1 < length (build_bindings flow))

  -- Each pending group has a key, which is a key of the group. Without
  -- aggregation, no group that is complete is pending.
  pub record IsAssembling (flow : ConsumerFlow) (assembler : Assembler Payload) : Type 0 where
    pub same_groups : keys assembler.pending ≡ keys assembler.pending_keys
    pub distinct : NoDup (keys assembler.pending)
    pub merged : All (IsPending flow) assembler.pending
    pub keyed : All (λ item. project_group_key flow item.1 ≡ ok item.0) assembler.pending_keys

  pub start-IsAssembling : (flow : ConsumerFlow) → IsAssembling flow start
  start-IsAssembling flow = record { same_groups = refl; distinct = tt; merged = tt; keyed = tt }

  NoDup-keys-insert :
      (group : GroupKey) (entries : Dict Str (Entry Payload))
      (d : Dict GroupKey (Dict Str (Entry Payload)))
      → NoDup (keys d)
      → NoDup (keys (insert group entries d))
  NoDup-keys-insert group entries d h = elim (Bool-cases (contains (keys d) group)) [
    | inl known ↦ rw (keys-insert group entries d, known) h
    | inr new ↦ rw (keys-insert group entries d, new) (NoDup-append_one (keys d) group new h)
  ]

  -- The entry of a frame is merged into an entry that the group has, or makes one.
  merge_entry-IsMerged :
      (aggregating : Bool) (existing : Option (Entry Payload)) (payload : Payload)
      → ((entry : Entry Payload) → existing ≡ some entry → IsMerged aggregating entry)
      → (merged : Entry Payload) × (merge_entry aggregating existing payload ≡ ok merged)
        × IsMerged aggregating merged
  unfolding merge_entry
  merge_entry-IsMerged false existing payload h = (one payload, refl, λ a. absurd (cc))
  merge_entry-IsMerged true none payload h = (many (payload ∷ []), refl, λ a. (payload ∷ [], refl))
  merge_entry-IsMerged true (some (many ps)) payload h =
      (many (ps ++ (payload ∷ [])), refl, λ a. (ps ++ (payload ∷ []), refl))
  merge_entry-IsMerged true (some (one p)) payload h = let bad = h (one p) refl refl in absurd (cc)

  entries_at-IsMerged :
      (flow : ConsumerFlow) (group : GroupKey) (assembler : Assembler Payload)
      → IsAssembling flow assembler
      → All (λ entry. IsMerged (is_aggregating flow) entry.1) (entries_at group assembler.pending)
  entries_at-IsMerged flow group assembler h =
      elim (Option-cases (lookup group assembler.pending)) [
        | inl missing ↦ rw (missing, All) tt
        | inr found ↦
            rw (found.1, All)
              (All-lookup (IsPending flow) group found.0 assembler.pending h.merged found.1).0
      ]

module _ {Payload : Type 0} (is_tensor : Payload → Bool)
    (stack : List Payload → Result Payload) where
  finalize_entries-plain :
      (entries : Dict Str (Entry Payload))
      → finalize_entries is_tensor stack false entries ≡ ok entries
  unfolding finalize_entries finalize_entry
  finalize_entries-plain [] = refl
  finalize_entries-plain ((name, entry) ∷ entries) = rw (finalize_entries-plain entries) refl

  -- Without aggregation, the bundle of a pending group can be built.
  build_bundle-returns :
      (flow : ConsumerFlow) (pending_keys : Dict GroupKey BundleKey) (group : GroupKey)
      (entries : Dict Str (Entry Payload))
      → is_aggregating flow ≡ false
      → contains (keys pending_keys) group ≡ true
      → All (λ item. project_group_key flow item.1 ≡ ok item.0) pending_keys
      → (bundle : PortBundle Payload) × (build_bundle is_tensor stack flow pending_keys group
            entries
          ≡ ok bundle)
  unfolding build_bundle
  build_bundle-returns flow pending_keys group entries plain known keyed =
      let found = lookup-contains group pending_keys known in
      let key : BundleKey = found.0 in
      let projects =
        All-lookup (λ item. project_group_key flow item.1 ≡ ok item.0) group key pending_keys keyed
          found.1 in
      (
        record { key = key; entries = entries },
        ground (
          arith,
          found.1,
          finalize_entries-plain entries,
          normalize_key-eq flow key group projects,
        ),
      )

  -- `push` goes on from the state in which the entry is stored.
  emit-IsAssembling :
      (flow : ConsumerFlow) (group : GroupKey) (entries : Dict Str (Entry Payload))
      (stored : Assembler Payload)
      → keys stored.pending ≡ keys stored.pending_keys
      → NoDup (keys stored.pending)
      → contains (keys stored.pending) group ≡ true
      → All (λ item. project_group_key flow item.1 ≡ ok item.0) stored.pending_keys
      → All (λ entry. IsMerged (is_aggregating flow) entry.1) entries
      → (IsPending flow (group, entries) → All (IsPending flow) stored.pending)
      → All (IsPending flow) (erase group stored.pending)
      → (next : Assembler Payload × List (PortBundle Payload)) × (emit is_tensor stack flow group
            entries stored
          ≡ ok next)
        × IsAssembling flow next.0
        × IsStored flow group stored.pending_keys next.0.pending_keys
  unfolding emit
  emit-IsAssembling flow group entries stored same distinct known keyed merged kept left =
      elim (Bool-cases (ltb (length entries) (length (build_bindings flow)))) [
        | inl open_group ↦ (
          (stored, []),
          rw open_group refl,
          record {
            same_groups = same;
            distinct = distinct;
            merged = kept (merged, λ plain. ltb→lt _ _ open_group);
            keyed = keyed;
          },
          inl refl,
        )
        | inr full ↦ elim (Bool-cases (is_aggregating flow)) [
          | inl aggregating ↦ (
            (stored, []),
            rw (full, aggregating) refl,
            record {
              same_groups = same;
              distinct = distinct;
              merged = kept (merged, λ plain. absurd (cc));
              keyed = keyed;
            },
            inl refl,
          )
          | inr plain ↦
              let built =
                build_bundle-returns flow stored.pending_keys group entries plain
                  (subst (λ groups. contains groups group ≡ true) same known) keyed in
              (
                (
                  record {
                    pending = erase group stored.pending;
                    pending_keys = erase group stored.pending_keys;
                  },
                  built.0 ∷ [],
                ),
                rw (full, built.1, plain) refl,
                record {
                  same_groups =
                      rw (keys-erase group stored.pending, keys-erase group stored.pending_keys)
                        (ap (remove group) same);
                  distinct =
                      rw (keys-erase group stored.pending)
                        (NoDup-remove (keys stored.pending) group distinct);
                  merged = left;
                  keyed =
                      All-erase (λ item. project_group_key flow item.1 ≡ ok item.0) group
                        stored.pending_keys keyed;
                },
                inr (plain, refl),
              )
        ]
      ]

  push_bound-returns :
      (flow : ConsumerFlow) (binding : Binding) (frame : PortFrame Payload)
      (assembler : Assembler Payload) (group : GroupKey)
      → project_group_key flow frame.key ≡ ok group
      → IsAssembling flow assembler
      → (next : Assembler Payload × List (PortBundle Payload)) × (push_bound is_tensor stack flow
            binding frame assembler
          ≡ ok next)
        × IsAssembling flow next.0
        × KeepsKeys flow group frame.key assembler.pending_keys next.0.pending_keys
  unfolding push_bound
  push_bound-returns flow binding frame assembler group projects h =
      let before = entries_at group assembler.pending in
      let before_merged = entries_at-IsMerged flow group assembler h in
      let merged =
        merge_entry-IsMerged (is_aggregating flow) (lookup binding.name before) frame.payload
          (λ entry found.
            All-lookup (λ item. IsMerged (is_aggregating flow) item.1) binding.name entry before
              before_merged found) in
      let entries : Dict Str (Entry Payload) = insert binding.name merged.0 before in
      let stored : Assembler Payload = record {
        pending = insert group entries assembler.pending;
        pending_keys = set_default group frame.key assembler.pending_keys;
      } in
      let same : keys stored.pending ≡ keys stored.pending_keys =
        rw
          (
            keys-insert group entries assembler.pending,
            keys-set_default group frame.key assembler.pending_keys,
            h.same_groups,
          )
          refl in
      let distinct = NoDup-keys-insert group entries assembler.pending h.distinct in
      let emitted =
        emit-IsAssembling flow group entries stored same distinct
          (contains-lookup group stored.pending entries
            (lookup-insert_self group entries assembler.pending))
          (All-set_default (λ item. project_group_key flow item.1 ≡ ok item.0) group frame.key
            assembler.pending_keys h.keyed projects)
          (All-insert (λ item. IsMerged (is_aggregating flow) item.1) binding.name merged.0 before
            before_merged merged.2)
          (λ p. All-insert (IsPending flow) group entries assembler.pending h.merged p)
          (All-erase-insert (IsPending flow) group entries assembler.pending h.merged) in
      (
        emitted.0,
        rw (projects, merged.1) emitted.1,
        emitted.2,
        IsStored-KeepsKeys flow group frame.key assembler.pending_keys emitted.0.0.pending_keys
            (subst NoDup same distinct) emitted.3,
      )

  -- Pushing a frame with a key that has the fields of the flow's bundle key to a well-formed
  -- assembler succeeds and leaves it well formed: each pending group has a key, which is a key of
  -- the group; while aggregating its entries are lists, and otherwise it has fewer entries than
  -- the flow has reads. A group that had a key keeps this very key, unless it is the frame's
  -- group, which may be closed where the flow does not aggregate; no other group than the frame's
  -- is opened, and that one under the frame's key.
  pub push-IsAssembling :
      (flow : ConsumerFlow) (frame : PortFrame Payload) (assembler : Assembler Payload)
      (group : GroupKey)
      → project_group_key flow frame.key ≡ ok group
      → IsAssembling flow assembler
      → (next : Assembler Payload × List (PortBundle Payload)) × (push is_tensor stack flow frame
            assembler
          ≡ ok next)
        × IsAssembling flow next.0
        × KeepsKeys flow group frame.key assembler.pending_keys next.0.pending_keys
  unfolding push
  push-IsAssembling flow frame assembler group projects h =
      elim (Option-cases (match_binding (build_bindings flow) frame)) [
        | inl unbound ↦ (
          (assembler, []),
          ground (arith, unbound),
          h,
          same-KeepsKeys flow group frame.key assembler.pending_keys,
        )
        | inr bound ↦
            let next = push_bound-returns flow bound.0 frame assembler group projects h in
            (next.0, ground (arith, bound.1, next.1), next.2, next.3)
      ]
