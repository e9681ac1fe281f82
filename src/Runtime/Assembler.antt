-- ===== src/Runtime/Assembler.antt =====
-- tllm/runtime/ports/assembler.py, with tllm/runtime/ports/frame.py and
-- tllm/contracts/port_bundle.py: port frames are assembled into bundles.
pub mod Keys
pub mod Groups
pub mod Invariant
pub mod Fields
pub mod Collected
pub mod Names
pub mod Finalize
use native.Mathlib.Decide.{ℕ_discrete}
use t_llm.Prelude.{
  ℕ, Bool, true, false, not, ◌&&◌, Option, none, some, List, [], ◌∷◌, ◌++◌, map, length,
  if◌then◌else◌, is_empty, ltb, ◌==◌, Eq, list_eq, nat_eq, option_eq, Result, ok, err, ◌>>=◌,
  attribute_error, key_error, assertion_error, value_error, all,
}
use t_llm.Prelude.Int.{ℤ, int_eq}
use t_llm.Prelude.Str.{Str, codes}
use t_llm.Prelude.Dict.{Dict, lookup, insert, erase}
use t_llm.Runtime.Ports.{
  PortKind, port_kind_eq, Locator, locator_eq, PortRead, ConsumerFlow, entry_name,
}

pub record BundleKey : Type 0 where
  pub engine_step_id : ℕ
  pub phase : Str
  pub request_id : Str
  pub sample_idx : ℤ

-- What `getattr` reads of a key
pub data FieldValue : Type 0 where
  number : ℕ → FieldValue
  index : ℤ → FieldValue
  text : Str → FieldValue

-- What the pending bundles are grouped by: the whole key, or some fields of it.
pub data GroupKey : Type 0 where
  whole : BundleKey → GroupKey
  projected : List FieldValue → GroupKey

text_dec : Discrete Str
unfolding list_eq nat_eq
text_dec = (list_eq ⦃e = nat_eq⦄).dec

index_dec : Discrete ℤ
unfolding int_eq
index_dec = int_eq.dec

group_key_dec : Discrete GroupKey
group_key_dec = hlevel (ℕ_discrete, index_dec, text_dec)

instance unfoldable pub group_key_eq : Eq GroupKey
unfolding group_key_dec index_dec text_dec list_eq nat_eq int_eq
group_key_eq = record { dec = group_key_dec }

pub record PortFrame (Payload : Type 0) : Type 0 where
  pub key : BundleKey
  pub kind : PortKind
  pub locator : Option Locator
  pub payload : Payload

-- An entry of a bundle: a payload, or the list of the payloads of its group.
pub data Entry (Payload : Type 0) : Type 0 where
  one : Payload → Entry Payload
  many : List Payload → Entry Payload

pub record PortBundle (Payload : Type 0) : Type 0 where
  pub key : BundleKey
  pub entries : Dict Str (Entry Payload)

pub record Binding : Type 0 where
  pub name : Str
  pub spec : PortRead

-- `_build_bindings`
unfoldable pub build_bindings : ConsumerFlow → List Binding
unfolding entry_name
build_bindings flow = map (λ read. record { name = entry_name read; spec = read }) flow.reads

-- `getattr(key, field_name)`
unfoldable pub field_of : BundleKey → Str → Result FieldValue
field_of key field_name =
    if field_name == codes "engine_step_id"
    then ok (number key.engine_step_id)
    else if field_name == codes "phase"
    then ok (text key.phase)
    else if field_name == codes "request_id"
    then ok (text key.request_id)
    else if field_name == codes "sample_idx"
    then ok (index key.sample_idx)
    else err attribute_error

unfoldable pub fields_of : BundleKey → List Str → Result (List FieldValue)
unfolding field_of
fields_of key [] = ok []
fields_of key (name ∷ names) = do
  value ← field_of key name
  rest ← fields_of key names
  ok (value ∷ rest)

unfoldable pub project_group_key : ConsumerFlow → BundleKey → Result GroupKey
unfolding fields_of
project_group_key flow key =
    if is_empty flow.bundle_key
    then ok (whole key)
    else (do values ← fields_of key flow.bundle_key; ok (projected values))

abbrev pub is_aggregating : ConsumerFlow → Bool
is_aggregating flow = not (is_empty flow.bundle_key)

-- `spec.kind != frame.kind` and `spec.locator != frame.locator`
abbrev pub reads_frame : {Payload : Type 0} → PortFrame Payload → PortRead → Bool
reads_frame frame spec = spec.kind == frame.kind && spec.locator == frame.locator

unfoldable pub match_binding :
    {Payload : Type 0} → List Binding → PortFrame Payload → Option Binding
match_binding [] frame = none
match_binding (binding ∷ bindings) frame =
    let rest = match_binding bindings frame in
    if reads_frame frame binding.spec then some binding else rest

-- `_pending` and `_pending_keys`
pub record Assembler (Payload : Type 0) : Type 0 where
  pub pending : Dict GroupKey (Dict Str (Entry Payload))
  pub pending_keys : Dict GroupKey BundleKey

abbrev pub start : {Payload : Type 0} → Assembler Payload
start = record { pending = []; pending_keys = [] }

unfoldable pub merge_entry :
    {Payload : Type 0} → Bool → Option (Entry Payload) → Payload → Result (Entry Payload)
merge_entry false existing payload = ok (one payload)
merge_entry true none payload = ok (many (payload ∷ []))
merge_entry true (some (many payloads)) payload = ok (many (payloads ++ (payload ∷ [])))
merge_entry true (some (one other)) payload = err assertion_error

-- `pending.setdefault(group_key, {})`, before it is stored
abbrev pub entries_at :
    {Payload : Type 0}
    → GroupKey
    → Dict GroupKey (Dict Str (Entry Payload))
    → Dict Str (Entry Payload)
entries_at group pending = elim (lookup group pending) [ none ↦ [] | some entries ↦ entries ]

-- `pending_keys.setdefault(group_key, key)`
unfoldable pub set_default :
    GroupKey → BundleKey → Dict GroupKey BundleKey → Dict GroupKey BundleKey
set_default group key pending_keys = elim (lookup group pending_keys) [
  | none ↦ insert group key pending_keys
  | some old ↦ pending_keys
]

-- `normalized`, a dict of the fields of a key
abbrev pub normalized_of : BundleKey → Dict Str FieldValue
normalized_of key =
    (codes "engine_step_id", number key.engine_step_id)
    ∷ (codes "phase", text key.phase)
    ∷ (codes "request_id", text key.request_id)
    ∷ (codes "sample_idx", index key.sample_idx)
    ∷ []

-- `for field_name, field_value in zip(...): normalized[field_name] = field_value`
unfoldable pub assign_all : List Str → List FieldValue → Dict Str FieldValue → Dict Str FieldValue
assign_all [] values fields = fields
assign_all (name ∷ names) [] fields = fields
assign_all (name ∷ names) (value ∷ values) fields =
    assign_all names values (insert name value fields)

-- `normalized[name]` under `int` or `str`, where the field has a value of that type
unfoldable pub number_at : Str → Dict Str FieldValue → Result ℕ
number_at name fields = elim (lookup name fields) [
  | some (number n) ↦ ok n
  | some other ↦ err value_error
  | none ↦ err key_error
]

unfoldable pub index_at : Str → Dict Str FieldValue → Result ℤ
index_at name fields = elim (lookup name fields) [
  | some (index i) ↦ ok i
  | some other ↦ err value_error
  | none ↦ err key_error
]

unfoldable pub text_at : Str → Dict Str FieldValue → Result Str
text_at name fields = elim (lookup name fields) [
  | some (text t) ↦ ok t
  | some other ↦ err value_error
  | none ↦ err key_error
]

unfoldable pub key_of_fields : Dict Str FieldValue → Result BundleKey
unfolding number_at index_at text_at
key_of_fields fields = do
  engine_step_id ← number_at (codes "engine_step_id") fields
  phase ← text_at (codes "phase") fields
  request_id ← text_at (codes "request_id") fields
  sample_idx ← index_at (codes "sample_idx") fields
  ok (record {
    engine_step_id = engine_step_id;
    phase = phase;
    request_id = request_id;
    sample_idx = sample_idx;
  })

unfoldable pub normalize_key : ConsumerFlow → BundleKey → Result BundleKey
unfolding fields_of key_of_fields assign_all
normalize_key flow key =
    if is_aggregating flow
    then (do
      projected_values ← fields_of key flow.bundle_key
      key_of_fields (assign_all flow.bundle_key projected_values (normalized_of key)))
    else ok key

abbrev pub key_at : GroupKey → Dict GroupKey BundleKey → Result BundleKey
key_at group pending_keys = elim (lookup group pending_keys) [
  | none ↦ err key_error
  | some key ↦ ok key
]

-- `isinstance(item, torch.Tensor)` and `torch.stack(value, dim=0)`
module _ {Payload : Type 0} (is_tensor : Payload → Bool)
    (stack : List Payload → Result Payload) where
  unfoldable pub finalize_entry : Bool → Entry Payload → Result (Entry Payload)
  finalize_entry false entry = ok entry
  finalize_entry true (one payload) = err assertion_error
  finalize_entry true (many payloads) =
      if not (is_empty payloads) && all is_tensor payloads
      then (do stacked ← stack payloads; ok (one stacked))
      else ok (many payloads)

  unfoldable pub finalize_entries :
      Bool → Dict Str (Entry Payload) → Result (Dict Str (Entry Payload))
  unfolding finalize_entry
  finalize_entries aggregating [] = ok []
  finalize_entries aggregating ((name, entry) ∷ entries) = do
    finalized ← finalize_entry aggregating entry
    rest ← finalize_entries aggregating entries
    ok ((name, finalized) ∷ rest)

  unfoldable pub build_bundle :
      ConsumerFlow
      → Dict GroupKey BundleKey
      → GroupKey
      → Dict Str (Entry Payload)
      → Result (PortBundle Payload)
  unfolding finalize_entries normalize_key
  build_bundle flow pending_keys group entries = do
    key ← key_at group pending_keys
    finalized ← finalize_entries (is_aggregating flow) entries
    normalized ← normalize_key flow key
    ok (record { key = normalized; entries = finalized })

  -- What `push` does once the frame's entry is stored
  unfoldable pub emit :
      ConsumerFlow
      → GroupKey
      → Dict Str (Entry Payload)
      → Assembler Payload
      → Result (Assembler Payload × List (PortBundle Payload))
  unfolding build_bundle build_bindings
  emit flow group entries assembler =
      if ltb (length entries) (length (build_bindings flow))
      then ok (assembler, [])
      else if is_aggregating flow
      then ok (assembler, [])
      else (do
        bundle ← build_bundle flow assembler.pending_keys group entries
        ok (
          record {
            pending = erase group assembler.pending;
            pending_keys = erase group assembler.pending_keys;
          },
          bundle ∷ [],
        ))

  -- What `push` does with a frame of a binding
  unfoldable pub push_bound :
      ConsumerFlow
      → Binding
      → PortFrame Payload
      → Assembler Payload
      → Result (Assembler Payload × List (PortBundle Payload))
  unfolding emit project_group_key merge_entry set_default
  push_bound flow binding frame assembler = do
    group ← project_group_key flow frame.key
    entry ←
        merge_entry (is_aggregating flow) (lookup binding.name (entries_at group assembler.pending))
          frame.payload
    emit flow group (insert binding.name entry (entries_at group assembler.pending)) (record {
      pending =
          insert group (insert binding.name entry (entries_at group assembler.pending))
            assembler.pending;
      pending_keys = set_default group frame.key assembler.pending_keys;
    })

  unfoldable pub push :
      ConsumerFlow
      → PortFrame Payload
      → Assembler Payload
      → Result (Assembler Payload × List (PortBundle Payload))
  unfolding push_bound match_binding build_bindings
  push flow frame assembler = elim (match_binding (build_bindings flow) frame) [
    | none ↦ ok (assembler, [])
    | some binding ↦ push_bound flow binding frame assembler
  ]

  -- The loop of `finalize_pending`, over the groups pending when it starts
  unfoldable pub finalize_groups :
      ConsumerFlow
      → Dict GroupKey (Dict Str (Entry Payload))
      → Assembler Payload
      → Result (Assembler Payload × List (PortBundle Payload))
  unfolding build_bundle build_bindings
  finalize_groups flow [] assembler = ok (assembler, [])
  finalize_groups flow ((group, entries) ∷ groups) assembler =
      if ltb (length entries) (length (build_bindings flow))
      then finalize_groups flow groups assembler
      else (do
        bundle ← build_bundle flow assembler.pending_keys group entries
        rest ← finalize_groups flow groups (record {
          pending = erase group assembler.pending;
          pending_keys = erase group assembler.pending_keys;
        })
        ok (rest.0, bundle ∷ rest.1))

  unfoldable pub finalize_pending :
      ConsumerFlow → Assembler Payload → Result (Assembler Payload × List (PortBundle Payload))
  unfolding finalize_groups
  finalize_pending flow assembler = finalize_groups flow assembler.pending assembler

  -- The loop over the frames of a step that `dispatch_decode_port_bundles` pushes, with the
  -- bundles in the order in which they are made.
  unfoldable pub push_all :
      ConsumerFlow
      → List (PortFrame Payload)
      → Assembler Payload
      → Result (Assembler Payload × List (PortBundle Payload))
  unfolding push
  push_all flow [] assembler = ok (assembler, [])
  push_all flow (frame ∷ frames) assembler = do
    first ← push flow frame assembler
    rest ← push_all flow frames first.0
    ok (rest.0, first.1 ++ rest.1)

abbrev pub pending_bundle_count : {Payload : Type 0} → Assembler Payload → ℕ
pending_bundle_count assembler = length assembler.pending
