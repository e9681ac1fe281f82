-- ===== src/Tests/Assembler.antt =====
-- Frames of two rows at two layers. Payloads are numbers, of which those from 10 on are tensors.
use t_llm.Prelude.{
  ℕ, ◌≡◌, refl, Bool, some, List, [], ◌∷◌, map, filter, list_eq, nat_eq, option_eq, leb, length,
  Result, ok, err, value_error, ◌==◌, if◌then◌else◌,
}
use t_llm.Prelude.Int.{pos, int_eq}
use t_llm.Prelude.Str.{Str, codes, strip, lstrip_space}
use t_llm.Prelude.Dict.{keys, lookup, insert, erase}
use t_llm.Runtime.Ports.{
  residual_stream, request_meta, Locator, residual_locator, request_meta_locator, entry_name,
  background, bundle, borrowed, all, ConsumerFlow, step_scope_key, port_kind_eq, locator_eq,
  residual_locator_eq,
}
use t_llm.Runtime.Assembler.{
  BundleKey, GroupKey, group_key_eq, projected, number, text, PortFrame, one, many, PortBundle,
  Assembler, start, build_bindings, field_of, fields_of, project_group_key, match_binding,
  merge_entry, set_default, assign_all, number_at, index_at, text_at, key_of_fields, normalize_key,
  finalize_entry, finalize_entries, build_bundle, emit, push_bound, push, finalize_groups,
  finalize_pending, push_all,
}
use t_llm.Runtime.Assembler.Keys.{normalize_key-eq}
use t_llm.Runtime.Assembler.Groups.{KeepsKeys}
use t_llm.Runtime.Assembler.Invariant.{IsAssembling, push-IsAssembling}
use t_llm.Runtime.Assembler.Collected.{push_all-collected, payloads_at, collected}
use t_llm.Runtime.Assembler.Finalize.{finalize_pending-eq, keys_of}
use t_llm.Runtime.Assembler.Names.{is_open, is_complete}

abbrev source : Locator
source =
    residual_locator (record { layer = pos 0; site = codes "block_output"; phase = codes "decode" })

abbrev flow_by : List Str → ConsumerFlow
flow_by bundle_key = record {
  reads =
      record { kind = residual_stream; locator = some source; role = codes " source " }
      ∷ record { kind = request_meta; locator = some request_meta_locator; role = [] }
      ∷ [];
  window = background;
  bundle_key = bundle_key;
  dispatch_every_n_steps = pos 1;
  max_bundle_rows = pos 0;
  delivery = bundle;
  ownership = borrowed;
  row_compaction = all;
}

abbrev by_step : ConsumerFlow
by_step = flow_by step_scope_key

abbrev by_row : ConsumerFlow
by_row = flow_by []

abbrev row_key : Str → BundleKey
row_key request_id = record {
  engine_step_id = 7;
  phase = codes "decode";
  request_id = request_id;
  sample_idx = pos 0;
}

abbrev hidden : Str → ℕ → PortFrame ℕ
hidden request_id payload = record {
  key = row_key request_id;
  kind = residual_stream;
  locator = some source;
  payload = payload;
}

abbrev meta : Str → ℕ → PortFrame ℕ
meta request_id payload = record {
  key = row_key request_id;
  kind = request_meta;
  locator = some request_meta_locator;
  payload = payload;
}

abbrev frames : List (PortFrame ℕ)
frames =
    hidden (codes "a") 10 ∷ meta (codes "a") 1 ∷ hidden (codes "b") 11 ∷ meta (codes "b") 2 ∷ []

abbrev is_tensor : ℕ → Bool
is_tensor payload = leb 10 payload

abbrev stack : List ℕ → Result ℕ
stack [] = err value_error
stack (first ∷ rest) =
    if length (filter is_tensor (first ∷ rest)) == length (first ∷ rest)
    then ok (length (first ∷ rest))
    else err value_error

abbrev step_group : GroupKey
step_group = projected (number 7 ∷ text (codes "decode") ∷ [])

group_lem : project_group_key by_step (row_key (codes "a")) ≡ ok step_group
unfolding project_group_key fields_of field_of list_eq nat_eq
group_lem = refl

other_group_lem : project_group_key by_step (row_key (codes "b")) ≡ ok step_group
unfolding project_group_key fields_of field_of list_eq nat_eq
other_group_lem = refl

normalize_key-eq_example : normalize_key by_step (row_key (codes "a")) ≡ ok (row_key (codes "a"))
normalize_key-eq_example = normalize_key-eq by_step (row_key (codes "a")) step_group group_lem

push_all-collected_example :
    (last : Assembler ℕ × List (PortBundle ℕ)) × (push_all is_tensor stack by_step frames start
      ≡ ok last)
    × (last.1 ≡ [])
    × ((group : GroupKey) (name : Str)
        → payloads_at group name last.0 ≡ collected by_step group name frames)
unfolding list_eq nat_eq
push_all-collected_example =
    push_all-collected is_tensor stack by_step frames (refl, (refl, tt)) refl

gathered : collected by_step step_group (codes "source") frames ≡ 10 ∷ 11 ∷ []
unfolding match_binding build_bindings entry_name strip lstrip_space project_group_key fields_of
    field_of list_eq nat_eq group_key_eq port_kind_eq locator_eq residual_locator_eq int_eq
    option_eq
gathered = refl

-- A step in which every row has its two frames
abbrev after : Assembler ℕ
after = record {
  pending =
      (
        step_group,
        (codes "source", many (10 ∷ 11 ∷ [])) ∷ (codes "request_meta", many (1 ∷ 2 ∷ [])) ∷ [],
      )
      ∷ [];
  pending_keys = (step_group, row_key (codes "a")) ∷ [];
}

after_lem : push_all is_tensor stack by_step frames start ≡ ok (after, [])
unfolding push_all push push_bound emit merge_entry set_default match_binding build_bindings
    entry_name strip lstrip_space project_group_key fields_of field_of lookup insert list_eq nat_eq
    group_key_eq port_kind_eq locator_eq residual_locator_eq int_eq option_eq
after_lem = refl

after-IsAssembling : IsAssembling by_step after
unfolding project_group_key fields_of field_of list_eq nat_eq
after-IsAssembling = record {
  same_groups = refl;
  distinct = (refl, tt);
  merged = (((λ a. (10 ∷ 11 ∷ [], refl), (λ a. (1 ∷ 2 ∷ [], refl), tt)), λ plain. absurd (cc)), tt);
  keyed = (refl, tt);
}

push-IsAssembling_example :
    (next : Assembler ℕ × List (PortBundle ℕ)) × (push is_tensor stack by_step
        (hidden (codes "b") 11)
        after
      ≡ ok next)
    × IsAssembling by_step next.0
    × KeepsKeys by_step step_group (row_key (codes "b")) after.pending_keys next.0.pending_keys
push-IsAssembling_example =
    push-IsAssembling is_tensor stack by_step (hidden (codes "b") 11) after step_group
      other_group_lem after-IsAssembling

finalize_pending-eq_example :
    (last : Assembler ℕ × List (PortBundle ℕ)) × (finalize_pending is_tensor stack by_step after
      ≡ ok last)
    × (last.0.pending ≡ filter (is_open by_step) after.pending)
    × (map (λ bundle. some bundle.key) last.1
        ≡ keys_of after.pending_keys (filter (is_complete by_step) after.pending))
    × (map (λ bundle. keys bundle.entries) last.1
        ≡ map (λ group. keys group.1) (filter (is_complete by_step) after.pending))
unfolding nat_eq
finalize_pending-eq_example =
    finalize_pending-eq is_tensor stack by_step after
      ((λ complete. ((λ tensors. (2, refl)), ((λ tensors. absurd (cc)), tt))), tt)
      after-IsAssembling

-- Tensors are stacked, metadata stays a list.
finalized :
    finalize_pending is_tensor stack by_step after
    ≡ ok (
      start,
      record {
        key = row_key (codes "a");
        entries = (codes "source", one 2) ∷ (codes "request_meta", many (1 ∷ 2 ∷ [])) ∷ [];
      }
          ∷ [],
    )
unfolding finalize_pending finalize_groups build_bundle finalize_entries finalize_entry
    normalize_key key_of_fields assign_all number_at index_at text_at build_bindings fields_of
    field_of lookup insert erase list_eq nat_eq group_key_eq int_eq
finalized = refl

-- A bundle of a row is handed out with the last of its frames.
by_row_lem :
    push_all is_tensor stack by_row frames start
    ≡ ok (
      start,
      record {
        key = row_key (codes "a");
        entries = (codes "source", one 10) ∷ (codes "request_meta", one 1) ∷ [];
      }
          ∷ record {
            key = row_key (codes "b");
            entries = (codes "source", one 11) ∷ (codes "request_meta", one 2) ∷ [];
          }
          ∷ [],
    )
unfolding push_all push push_bound emit merge_entry set_default match_binding build_bindings
    entry_name strip lstrip_space project_group_key build_bundle finalize_entries finalize_entry
    normalize_key lookup insert erase list_eq nat_eq group_key_eq port_kind_eq locator_eq
    residual_locator_eq int_eq option_eq
by_row_lem = refl
