-- ===== src/Runtime/Assembler/Names.antt =====
-- Which groups are complete, and that their bundles have entries under the same names.
use t_llm.Prelude.{
  Bool, not, ◌≡◌, inl, inr, List, [], ◌∷◌, map, filter, length, ltb, list_eq, nat_eq, Result, ok,
  ◌>>=◌, >>=-eq-ok, Bool-cases, arith,
}
use t_llm.Prelude.Str.{Str}
use t_llm.Prelude.Dict.{Dict, keys, erase}
use t_llm.Runtime.Ports.{ConsumerFlow}
use t_llm.Runtime.Assembler.{
  BundleKey, GroupKey, group_key_eq, Entry, finalize_entry, PortBundle, build_bindings, Assembler,
  finalize_entries, is_aggregating, build_bundle, finalize_groups, key_at, normalize_key,
}

module _ {Payload : Type 0} where
  abbrev pub is_open : ConsumerFlow → GroupKey × Dict Str (Entry Payload) → Bool
  is_open flow group = ltb (length group.1) (length (build_bindings flow))

  abbrev pub is_complete : ConsumerFlow → GroupKey × Dict Str (Entry Payload) → Bool
  is_complete flow group = not (is_open flow group)

module _ {Payload : Type 0} (is_tensor : Payload → Bool)
    (stack : List Payload → Result Payload) where
  names-finalize_entries :
      (aggregating : Bool) (entries finalized : Dict Str (Entry Payload))
      → finalize_entries is_tensor stack aggregating entries ≡ ok finalized
      → keys finalized ≡ keys entries
  unfolding finalize_entries
  names-finalize_entries aggregating [] finalized h = ground (arith, h)
  names-finalize_entries aggregating ((name, entry) ∷ entries) finalized h =
      let first =
        >>=-eq-ok (finalize_entry is_tensor stack aggregating entry) _ {last = finalized} h in
      let rest =
        >>=-eq-ok (finalize_entries is_tensor stack aggregating entries)
          (λ others. ok ((name, first.0) ∷ others)) {last = finalized} first.2 in
      ground (arith, rest.2, names-finalize_entries aggregating entries rest.0 rest.1)

  names-build_bundle :
      (flow : ConsumerFlow) (pending_keys : Dict GroupKey BundleKey) (group : GroupKey)
      (entries : Dict Str (Entry Payload)) (bundle : PortBundle Payload)
      → build_bundle is_tensor stack flow pending_keys group entries ≡ ok bundle
      → keys bundle.entries ≡ keys entries
  unfolding build_bundle
  names-build_bundle flow pending_keys group entries bundle built =
      let key = >>=-eq-ok (key_at group pending_keys) _ {last = bundle} built in
      let finalized =
        >>=-eq-ok (finalize_entries is_tensor stack (is_aggregating flow) entries) _ {last = bundle}
          key.2 in
      let normal =
        >>=-eq-ok (normalize_key flow key.0)
          (λ normalized. ok (record { key = normalized; entries = finalized.0 })) {last = bundle}
          finalized.2 in
      ground (
        arith,
        normal.2,
        names-finalize_entries (is_aggregating flow) entries finalized.0 finalized.1,
      )

  pub finalize_groups-names :
      (flow : ConsumerFlow) (groups : Dict GroupKey (Dict Str (Entry Payload)))
      (assembler : Assembler Payload) (last : Assembler Payload × List (PortBundle Payload))
      → finalize_groups is_tensor stack flow groups assembler ≡ ok last
      → map (λ bundle. keys bundle.entries) last.1
        ≡ map (λ group. keys group.1) (filter (is_complete flow) groups)
  unfolding finalize_groups
  finalize_groups-names flow [] assembler last run = ground (arith, run)
  finalize_groups-names flow ((group, entries) ∷ groups) assembler last run =
      elim (Bool-cases (is_open flow (group, entries))) [
        | inl opened ↦
            rw opened
              (finalize_groups-names flow groups assembler last (ground (arith, opened, run)))
        | inr complete ↦
            let erased : Assembler Payload = record {
              pending = erase group assembler.pending;
              pending_keys = erase group assembler.pending_keys;
            } in
            let built =
              >>=-eq-ok (build_bundle is_tensor stack flow assembler.pending_keys group entries)
                (λ bundle. finalize_groups is_tensor stack flow groups erased >>= λ rest.
                  ok (rest.0, bundle ∷ rest.1))
                {last = last} (ground (arith, complete, run)) in
            let bundle : PortBundle Payload = built.0 in
            let tail =
              >>=-eq-ok (finalize_groups is_tensor stack flow groups erased)
                (λ rest. ok (rest.0, bundle ∷ rest.1)) {last = last} built.2 in
            ground (
              arith,
              complete,
              tail.2,
              names-build_bundle flow assembler.pending_keys group entries bundle built.1,
              finalize_groups-names flow groups erased tail.0 tail.1,
            )
      ]
