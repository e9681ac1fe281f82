-- ===== src/Runtime/Assembler/Finalize.antt =====
-- What `finalize_pending` hands out and what it leaves.
use t_llm.Prelude.{
  all, is_empty, ◌&&◌, Option-cases, Bool, true, false, not, ◌≡◌, refl, sym, ap, ◌∙◌, subst, inl,
  inr, Option, some, List, [], ◌∷◌, ◌++◌, append_assoc, map, filter, All, contains, list_eq, nat_eq,
  Result, ok, ◌>>=◌, >>=-eq-ok, Bool-cases, arith,
}
use t_llm.Prelude.Str.{Str}
use t_llm.Prelude.Dict.{Dict, keys, lookup, erase}
use t_llm.Prelude.Dict.Laws.{NoDup, lookup-contains, keys-erase, All-lookup, All-erase}
use t_llm.Prelude.Dict.Order.{
  keys-append, lookup-erase_ne, erase-append, NoDup-middle, NoDup-drop_middle, known-remove,
  known_self,
}
use t_llm.Runtime.Ports.{ConsumerFlow}
use t_llm.Runtime.Assembler.{
  BundleKey, GroupKey, group_key_eq, Entry, one, many, finalize_entry, PortBundle,
  project_group_key, Assembler, finalize_entries, is_aggregating, build_bundle, finalize_groups,
  finalize_pending,
}
use t_llm.Runtime.Assembler.Keys.{normalize_key-eq}
use t_llm.Runtime.Assembler.Names.{is_open, is_complete, finalize_groups-names}
use t_llm.Runtime.Assembler.Invariant.{IsMerged, IsPending, IsAssembling}

module _ {Payload : Type 0} where
  abbrev pub keys_of :
      Dict GroupKey BundleKey → List (GroupKey × Dict Str (Entry Payload)) → List (Option BundleKey)
  keys_of pending_keys = map (λ group. lookup group.0 pending_keys)

  keys_of-erase :
      (flow : ConsumerFlow) (pending_keys : Dict GroupKey BundleKey) (group : GroupKey)
      (groups : Dict GroupKey (Dict Str (Entry Payload)))
      → contains (keys groups) group ≡ false
      → keys_of (erase group pending_keys) (filter (is_complete flow) groups)
        ≡ keys_of pending_keys (filter (is_complete flow) groups)
  keys_of-erase flow pending_keys group [] h = refl
  keys_of-erase flow pending_keys group ((other, entries) ∷ groups) h = ground (
    arith,
    keys_of-erase flow pending_keys group groups,
    lookup-erase_ne other group pending_keys,
  )

module _ {Payload : Type 0} (is_tensor : Payload → Bool)
    (stack : List Payload → Result Payload) where
  -- A bundle has the key of its group.
  build_bundle-key :
      (flow : ConsumerFlow) (pending_keys : Dict GroupKey BundleKey) (group : GroupKey)
      (entries : Dict Str (Entry Payload)) (bundle : PortBundle Payload)
      → All (λ item. project_group_key flow item.1 ≡ ok item.0) pending_keys
      → build_bundle is_tensor stack flow pending_keys group entries ≡ ok bundle
      → some bundle.key ≡ lookup group pending_keys
  unfolding build_bundle
  build_bundle-key flow pending_keys group entries bundle keyed built =
      elim (Option-cases (lookup group pending_keys)) [
        | inl missing ↦ absurd (ground (arith, missing, built))
        | inr found ↦
            let key : BundleKey = found.0 in
            let normal = normalize_key-eq flow key group (
              All-lookup (λ item. project_group_key flow item.1 ≡ ok item.0) group key pending_keys
                keyed found.1) in
            let finalized =
              >>=-eq-ok (finalize_entries is_tensor stack (is_aggregating flow) entries)
                (λ finalized. ok (record { key = key; entries = finalized })) {last = bundle}
                (ground (arith, found.1, normal, built)) in
            ground (arith, found.1, finalized.2)
      ]

  finalize_groups_lem :
      (flow : ConsumerFlow) (done groups : Dict GroupKey (Dict Str (Entry Payload)))
      (assembler : Assembler Payload) (last : Assembler Payload × List (PortBundle Payload))
      → assembler.pending ≡ done ++ groups
      → NoDup (keys (done ++ groups))
      → All (λ item. project_group_key flow item.1 ≡ ok item.0) assembler.pending_keys
      → finalize_groups is_tensor stack flow groups assembler ≡ ok last
      → (last.0.pending ≡ done ++ filter (is_open flow) groups)
        × (map (λ bundle. some bundle.key) last.1
            ≡ keys_of assembler.pending_keys (filter (is_complete flow) groups))
  unfolding finalize_groups
  finalize_groups_lem flow done [] assembler last pending distinct keyed run =
      (ground (arith, pending, run), ground (arith, run))
  finalize_groups_lem flow done ((group, entries) ∷ groups) assembler last pending distinct keyed
        run =
      elim (Bool-cases (is_open flow (group, entries))) [
        | inl opened ↦
            let shift = append_assoc done ((group, entries) ∷ []) groups in
            let rest =
              finalize_groups_lem flow (done ++ ((group, entries) ∷ [])) groups assembler last
                (pending ∙ sym shift)
                (subst (λ all_groups. NoDup (keys all_groups)) (sym shift) distinct) keyed
                (ground (arith, opened, run)) in
            (
              rw opened (
                  rest.0
                  ∙ append_assoc done ((group, entries) ∷ []) (filter (is_open flow) groups)),
              rw opened rest.1,
            )
        | inr complete ↦
            let erased : Assembler Payload = record {
              pending = erase group assembler.pending;
              pending_keys = erase group assembler.pending_keys;
            } in
            let built =
              >>=-eq-ok (build_bundle is_tensor stack flow assembler.pending_keys group entries)
                (λ bundle. finalize_groups is_tensor stack flow groups erased >>= λ rest.
                  ok (rest.0, bundle ∷ rest.1))
                {last = last} (ground (arith, complete, run)) in
            let bundle : PortBundle Payload = built.0 in
            let tail =
              >>=-eq-ok (finalize_groups is_tensor stack flow groups erased)
                (λ rest. ok (rest.0, bundle ∷ rest.1)) {last = last} built.2 in
            let named = subst NoDup (keys-append done ((group, entries) ∷ groups)) distinct in
            let absent = NoDup-middle (keys done) (keys groups) group named in
            let rest =
              finalize_groups_lem flow done groups erased tail.0
                (ap (erase group) pending ∙ erase-append done groups group entries absent.0)
                (subst NoDup (sym (keys-append done groups))
                  (NoDup-drop_middle (keys done) (keys groups) group named))
                (All-erase (λ item. project_group_key flow item.1 ≡ ok item.0) group
                  assembler.pending_keys keyed)
                tail.1 in
            let key =
              build_bundle-key flow assembler.pending_keys group entries bundle keyed built.1 in
            let others = keys_of-erase flow assembler.pending_keys group groups absent.1 in
            (
              ground (arith, complete, rest.0, tail.2),
              ground (arith, complete, rest.1, tail.2, key, others),
            )
      ]

  -- Where the payloads are tensors, at least one, they can be stacked.
  abbrev pub Stacks : Entry Payload → Type 0
  Stacks (one payload) = Unit
  Stacks (many payloads) =
      (not (is_empty payloads) && all is_tensor payloads) ≡ true
      → (payload : Payload) × (stack payloads ≡ ok payload)

  -- The entries of the group, where it is complete, can be stacked.
  abbrev pub AreStackable : ConsumerFlow → GroupKey × Dict Str (Entry Payload) → Type 0
  AreStackable flow group = is_complete flow group ≡ true → All (λ entry. Stacks entry.1) group.1

  finalize_entries-returns :
      (aggregating : Bool) (entries : Dict Str (Entry Payload))
      → All (λ entry. Stacks entry.1) entries
      → All (λ entry. IsMerged aggregating entry.1) entries
      → (finalized : Dict Str (Entry Payload)) × (finalize_entries is_tensor stack aggregating
            entries
          ≡ ok finalized)
  unfolding finalize_entries finalize_entry
  finalize_entries-returns aggregating [] stacks h = ([], refl)
  finalize_entries-returns false ((name, entry) ∷ entries) stacks h =
      let rest = finalize_entries-returns false entries stacks.1 h.1 in
      ((name, entry) ∷ rest.0, rw rest.1 refl)
  finalize_entries-returns true ((name, one payload) ∷ entries) stacks h =
      let listed = h.0 refl in absurd (cc)
  finalize_entries-returns true ((name, many payloads) ∷ entries) stacks h =
      let rest = finalize_entries-returns true entries stacks.1 h.1 in
      elim (Bool-cases (not (is_empty payloads) && all is_tensor payloads)) [
        | inl tensors ↦
            let stacked = stacks.0 tensors in
            ((name, one stacked.0) ∷ rest.0, rw (tensors, stacked.1, rest.1) refl)
        | inr plain ↦ ((name, many payloads) ∷ rest.0, rw (plain, rest.1) refl)
      ]

  build_bundle_stacked :
      (flow : ConsumerFlow) (pending_keys : Dict GroupKey BundleKey) (group : GroupKey)
      (entries : Dict Str (Entry Payload))
      → All (λ entry. Stacks entry.1) entries
      → All (λ entry. IsMerged (is_aggregating flow) entry.1) entries
      → contains (keys pending_keys) group ≡ true
      → All (λ item. project_group_key flow item.1 ≡ ok item.0) pending_keys
      → (bundle : PortBundle Payload) × (build_bundle is_tensor stack flow pending_keys group
            entries
          ≡ ok bundle)
  unfolding build_bundle
  build_bundle_stacked flow pending_keys group entries stacks merged known keyed =
      let found = lookup-contains group pending_keys known in
      let key : BundleKey = found.0 in
      let projects =
        All-lookup (λ item. project_group_key flow item.1 ≡ ok item.0) group key pending_keys keyed
          found.1 in
      let finalized = finalize_entries-returns (is_aggregating flow) entries stacks merged in
      (
        record { key = key; entries = finalized.0 },
        ground (arith, found.1, finalized.1, normalize_key-eq flow key group projects),
      )

  finalize_groups-returns :
      (flow : ConsumerFlow) (groups : Dict GroupKey (Dict Str (Entry Payload)))
      (assembler : Assembler Payload)
      → All (AreStackable flow) groups
      → All (IsPending flow) groups
      → NoDup (keys groups)
      → All (λ group. contains (keys assembler.pending_keys) group ≡ true) (keys groups)
      → All (λ item. project_group_key flow item.1 ≡ ok item.0) assembler.pending_keys
      → (last : Assembler Payload × List (PortBundle Payload)) × (finalize_groups is_tensor stack
            flow groups assembler
          ≡ ok last)
  unfolding finalize_groups
  finalize_groups-returns flow [] assembler stacks pending distinct known keyed =
      ((assembler, []), refl)
  finalize_groups-returns flow ((group, entries) ∷ groups) assembler stacks pending distinct known
        keyed =
      elim (Bool-cases (is_open flow (group, entries))) [
        | inl opened ↦
            let rest =
              finalize_groups-returns flow groups assembler stacks.1 pending.1 distinct.1 known.1
                keyed in
            (rest.0, rw opened rest.1)
        | inr complete ↦
            let complete_group : is_complete flow (group, entries) ≡ true = ground arith in
            let built =
              build_bundle_stacked flow assembler.pending_keys group entries
                (stacks.0 complete_group) pending.0.0 known.0 keyed in
            let rest =
              finalize_groups-returns flow groups
                (record {
                  pending = erase group assembler.pending;
                  pending_keys = erase group assembler.pending_keys;
                })
                stacks.1 pending.1 distinct.1
                (rw (keys-erase group assembler.pending_keys) (
                  known-remove (keys assembler.pending_keys) (keys groups) group distinct.0
                    known.1))
                (All-erase (λ item. project_group_key flow item.1 ≡ ok item.0) group
                  assembler.pending_keys keyed) in
            ((rest.0.0, built.0 ∷ rest.0.1), rw (complete, built.1, rest.1) refl)
      ]

  -- Where the lists of tensors that the complete groups hold can be stacked, finalizing an
  -- assembler that is well formed succeeds: the groups that have fewer entries than the flow has
  -- reads stay pending in order, and one bundle for each other group is handed out in order, with
  -- the key that the assembler keeps for the group and with entries under the names that the
  -- group has.
  pub finalize_pending-eq :
      (flow : ConsumerFlow) (assembler : Assembler Payload)
      → All (AreStackable flow) assembler.pending
      → IsAssembling flow assembler
      → (last : Assembler Payload × List (PortBundle Payload)) × (finalize_pending is_tensor stack
            flow assembler
          ≡ ok last)
        × (last.0.pending ≡ filter (is_open flow) assembler.pending)
        × (map (λ bundle. some bundle.key) last.1
            ≡ keys_of assembler.pending_keys (filter (is_complete flow) assembler.pending))
        × (map (λ bundle. keys bundle.entries) last.1
            ≡ map (λ group. keys group.1) (filter (is_complete flow) assembler.pending))
  unfolding finalize_pending
  finalize_pending-eq flow assembler stacks h =
      let last =
        finalize_groups-returns flow assembler.pending assembler stacks h.merged h.distinct
          (subst (λ groups. All (λ group. contains groups group ≡ true) (keys assembler.pending))
            h.same_groups (known_self (keys assembler.pending)))
          h.keyed in
      let left =
        finalize_groups_lem flow [] assembler.pending assembler last.0 refl h.distinct h.keyed
          last.1 in
      (
        last.0,
        last.1,
        left.0,
        left.1,
        finalize_groups-names is_tensor stack flow assembler.pending assembler last.0 last.1,
      )
