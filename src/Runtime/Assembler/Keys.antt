-- ===== src/Runtime/Assembler/Keys.antt =====
-- `_build_bundle`: what normalizing the key of a bundle does to it.
use t_llm.Prelude.{
  Bool, true, false, ◌≡◌, refl, inl, inr, none, some, List, [], ◌∷◌, if◌then◌else◌, is_empty, ◌==◌,
  eq_of_==, list_eq, nat_eq, ok, err, >>=-eq-ok, Bool-cases, attribute_error, arith,
}
use t_llm.Prelude.Str.{Str, codes}
use t_llm.Prelude.Dict.{Dict, lookup, insert, lookup-insert}
use t_llm.Runtime.Ports.{ConsumerFlow}
use t_llm.Runtime.Assembler.{
  BundleKey, FieldValue, number, index, text, GroupKey, projected, field_of, fields_of,
  project_group_key, normalized_of, assign_all, number_at, index_at, text_at, key_of_fields,
  normalize_key,
}

-- Every field of the key stands in the dict.
abbrev Agrees : BundleKey → Dict Str FieldValue → Type 0
Agrees key fields =
    (name : Str) (value : FieldValue)
    → field_of key name ≡ ok value
    → lookup name fields ≡ some value

==-comm : (a b : Str) → (a == b) ≡ (b == a)
==-comm a b = ground (arith, eq_of_== a b, eq_of_== b a)

-- The two chains of tests choose alike.
same_choice :
    (a b c d : Bool) (w x y z value : FieldValue)
    → (if a
        then ok w
        else if b
        then ok x
        else if c
        then ok y
        else if d
        then ok z
        else err attribute_error)
      ≡ ok value
    → (if a then some w else if b then some x else if c then some y else if d then some z else none)
      ≡ some value
same_choice true b c d w x y z value h = ground arith
same_choice false true c d w x y z value h = ground arith
same_choice false false true d w x y z value h = ground arith
same_choice false false false true w x y z value h = ground arith
same_choice false false false false w x y z value h = absurd (cc)

Agrees-normalized_of : (key : BundleKey) → Agrees key (normalized_of key)
unfolding field_of lookup
Agrees-normalized_of key name value h =
    rw
      (
        ==-comm (codes "engine_step_id") name,
        ==-comm (codes "phase") name,
        ==-comm (codes "request_id") name,
        ==-comm (codes "sample_idx") name,
      )
      (same_choice (name == codes "engine_step_id") (name == codes "phase")
        (name == codes "request_id") (name == codes "sample_idx") (number key.engine_step_id)
        (text key.phase) (text key.request_id) (index key.sample_idx) value h)

Agrees-insert :
    (key : BundleKey) (name : Str) (value : FieldValue) (fields : Dict Str FieldValue)
    → field_of key name ≡ ok value
    → Agrees key fields
    → Agrees key (insert name value fields)
Agrees-insert key name value fields here agrees other wanted there =
    ground
      (arith, lookup-insert other name value fields, eq_of_== name other, agrees other wanted there)

Agrees-assign_all :
    (key : BundleKey) (names : List Str) (values : List FieldValue) (fields : Dict Str FieldValue)
    → fields_of key names ≡ ok values
    → Agrees key fields
    → Agrees key (assign_all names values fields)
unfolding fields_of assign_all
Agrees-assign_all key [] values fields read agrees = agrees
Agrees-assign_all key (name ∷ names) [] fields read agrees = agrees
Agrees-assign_all key (name ∷ names) (value ∷ values) fields read agrees =
    Agrees-assign_all key names values (insert name value fields) (ground arith)
      (Agrees-insert key name value fields (ground arith) agrees)

key_of_fields_lem :
    (key : BundleKey) (fields : Dict Str FieldValue)
    → Agrees key fields
    → key_of_fields fields ≡ ok key
unfolding key_of_fields number_at index_at text_at field_of list_eq nat_eq
key_of_fields_lem key fields agrees = ground (
  arith,
  agrees (codes "engine_step_id") (number key.engine_step_id) refl,
  agrees (codes "phase") (text key.phase) refl,
  agrees (codes "request_id") (text key.request_id) refl,
  agrees (codes "sample_idx") (index key.sample_idx) refl,
)

-- A key that has the fields of the flow's bundle key is not changed by the normalisation of a
-- bundle's key.
pub normalize_key-eq :
    (flow : ConsumerFlow) (key : BundleKey) (group : GroupKey)
    → project_group_key flow key ≡ ok group
    → normalize_key flow key ≡ ok key
unfolding normalize_key project_group_key
normalize_key-eq flow key group h = elim (Bool-cases (is_empty flow.bundle_key)) [
  | inl plain ↦ ground arith
  | inr some_fields ↦
      let read =
        >>=-eq-ok (fields_of key flow.bundle_key) (λ values. ok (projected values)) {last = group}
          (ground arith) in
      ground (
        arith,
        read.1,
        key_of_fields_lem key (assign_all flow.bundle_key read.0 (normalized_of key)) (
            Agrees-assign_all key flow.bundle_key read.0 (normalized_of key) read.1
              (Agrees-normalized_of key)),
      )
]
