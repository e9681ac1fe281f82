-- ===== src/Runtime/Assembler/Fields.antt =====
-- A key has every field that is named by a bundle key, so that frames can be grouped.
use t_llm.Prelude.{
  true, ◌≡◌, refl, inl, inr, List, [], ◌∷◌, All, is_empty, ◌==◌, contains, list_eq, nat_eq, ok,
  Bool-cases, arith,
}
use t_llm.Prelude.Str.{Str, codes}
use t_llm.Runtime.Ports.{ConsumerFlow}
use t_llm.Runtime.Assembler.{
  BundleKey, FieldValue, number, index, text, GroupKey, group_key_eq, whole, projected, field_of,
  fields_of, project_group_key,
}

abbrev pub field_names : List Str
field_names = codes "engine_step_id" ∷ codes "phase" ∷ codes "request_id" ∷ codes "sample_idx" ∷ []

-- The flow's bundle key names fields of a key.
abbrev pub HasFields : ConsumerFlow → Type 0
HasFields flow = All (λ name. contains field_names name ≡ true) flow.bundle_key

field_of-returns :
    (key : BundleKey) (name : Str)
    → contains field_names name ≡ true
    → (value : FieldValue) × (field_of key name ≡ ok value)
unfolding field_of
field_of-returns key name h = elim (Bool-cases (name == codes "engine_step_id")) [
  | inl a ↦ (number key.engine_step_id, ground arith)
  | inr a ↦ elim (Bool-cases (name == codes "phase")) [
    | inl b ↦ (text key.phase, ground arith)
    | inr b ↦ elim (Bool-cases (name == codes "request_id")) [
      | inl c ↦ (text key.request_id, ground arith)
      | inr c ↦ (index key.sample_idx, ground arith)
    ]
  ]
]

fields_of-returns :
    (key : BundleKey) (names : List Str)
    → All (λ name. contains field_names name ≡ true) names
    → (values : List FieldValue) × (fields_of key names ≡ ok values)
unfolding fields_of
fields_of-returns key [] h = ([], refl)
fields_of-returns key (name ∷ names) h =
    let first = field_of-returns key name h.0 in
    let rest = fields_of-returns key names h.1 in (first.0 ∷ rest.0, rw (first.1, rest.1) refl)

pub project_group_key-returns :
    (flow : ConsumerFlow) (key : BundleKey)
    → HasFields flow
    → (group : GroupKey) × (project_group_key flow key ≡ ok group)
unfolding project_group_key
project_group_key-returns flow key h = elim (Bool-cases (is_empty flow.bundle_key)) [
  | inl plain ↦ (whole key, ground arith)
  | inr some_fields ↦
      let values = fields_of-returns key flow.bundle_key h in
      (projected values.0, ground (arith, values.1))
]
