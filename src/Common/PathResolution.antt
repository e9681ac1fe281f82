-- ===== src/Common/PathResolution.antt =====
-- tllm/common/path_resolution.py: paths to model layers, such as `model.layers[3]`.
pub mod RoundTrip
pub mod Container
pub mod Candidates
use t_llm.Prelude.{
  ℕ, zero, suc, ◌+◌, ◌≤◌, ◌<◌, ◌≡◌, Bool, true, false, not, ◌&&◌, ◌||◌, Option, none, some, List,
  [], ◌∷◌, ◌++◌, arith, if◌then◌else◌, refl, ltb, eqb, is_empty, length, drop, contains, ◌==◌, inl,
  inr, Option-cases, Result, ok, err, ◌>>=◌, ◌>>◌, raise_if, runtime_error, value_error,
  empty_component, missing_attribute, near_rest, missing_bracket, invalid_index, empty_path,
  attribute_not_found, cannot_index, no_layer_container, list_eq, nat_eq,
}
use native.Mathlib.Nat.{le_refl}
use t_llm.Common.Objects.{PythonObjects}
use t_llm.Prelude.Int.{ℤ}
use t_llm.Prelude.Str.{
  Str, codes, strip, lstrip, isdigit, int_of, split, join, break_at, starts_with,
}

-- `rest[1:close].strip()`, its check and its conversion
unfoldable pub parse_index : Str → Result ℤ
parse_index idx_text =
    if is_empty idx_text || not (isdigit (lstrip b'-' idx_text))
    then err (runtime_error invalid_index)
    else int_of idx_text

-- Where the loop `while rest` stands: before a bracket, or behind one, with the text since then.
pub data Mode : Type 0 where
  outside : Mode
  inside : Str → Mode

-- The loop, one character at a time: `find("]")` and the two slices are the walk through `inside`.
unfoldable pub indices_of : Mode → Str → Result (List ℤ)
indices_of outside [] = ok []
indices_of outside (c ∷ rest) = elim (eqb c b'[') [
  | true ↦ indices_of (inside []) rest
  | false ↦ err (runtime_error near_rest)
]
indices_of (inside text) [] = err (runtime_error missing_bracket)
indices_of (inside text) (c ∷ rest) = elim (eqb c b']') [
  | true ↦ do idx ← parse_index (strip text); indices ← indices_of outside rest; ok (idx ∷ indices)
  | false ↦ indices_of (inside (text ++ (c ∷ []))) rest
]

-- The text before the first bracket.
unfoldable pub attribute_of : Str → Str
attribute_of component = elim (break_at b'[' component) [ none ↦ component | some p ↦ p.0 ]

unfoldable pub parse_component : Str → Result (Str × List ℤ)
unfolding indices_of attribute_of
parse_component component =
    let attr = attribute_of component in
    let rest = drop (length attr) component in
    if is_empty component
    then err (runtime_error empty_component)
    else if is_empty attr
    then err (runtime_error missing_attribute)
    else do indices ← indices_of outside rest; ok (attr, indices)

module _ (objects : PythonObjects) where
  open objects use {Obj, getattr, getitem, is_none, len}

  -- The loop over the indices of one component.
  unfoldable pub index_all : Obj → List ℤ → Result Obj
  index_all obj [] = ok obj
  index_all obj (idx ∷ rest) = elim (getitem obj idx) [
    | none ↦ err (runtime_error cannot_index)
    | some item ↦ index_all item rest
  ]

  unfoldable pub resolve_component : Obj → Str → Result Obj
  resolve_component obj component = do
    parsed ← parse_component component
    elim (getattr obj parsed.0) [
      | none ↦ err (runtime_error attribute_not_found)
      | some attribute ↦ index_all attribute parsed.1
    ]

  unfoldable pub walk : Obj → List Str → Result Obj
  unfolding resolve_component index_all
  walk obj [] = ok obj
  walk obj (component ∷ rest) = resolve_component obj component >>= λ next. walk next rest

  unfoldable pub resolve_object_by_path : Obj → Str → Result Obj
  unfolding walk
  resolve_object_by_path root path =
      let stripped = strip path in
      if is_empty stripped then err (runtime_error empty_path) else walk root (split b'.' stripped)

  -- `getattr(obj, name, None)`, if it is not None
  abbrev attr_value : Obj → Str → Option Obj
  attr_value obj name = elim (getattr obj name) [
    | none ↦ none
    | some o ↦ if is_none o then none else some o
  ]

  -- `getattr(obj, "layers", None)`, if it is not None and not empty
  abbrev layers_of : Obj → Option Obj
  layers_of obj = elim (attr_value obj (codes "layers")) [
    | none ↦ none
    | some o ↦ if ltb 0 (len o) then some o else none
  ]

  abbrev decoder_layers_of : Obj → Option Obj
  decoder_layers_of obj = elim (attr_value obj (codes "decoder")) [
    | none ↦ none
    | some decoder ↦ layers_of decoder
  ]

  -- `for _ in range(8)`, by the number of rounds left
  unfoldable pub layers_loop : ℕ → Obj → List Str → Result (Obj × Str)
  layers_loop zero cur prefix_parts = err (runtime_error no_layer_container)
  layers_loop (suc rounds) cur prefix_parts = elim (layers_of cur) [
    | some layers ↦ ok (layers, join b'.' (prefix_parts ++ (codes "layers" ∷ [])))
    | none ↦ elim (decoder_layers_of cur) [
      | some layers ↦
          ok (layers, join b'.' (prefix_parts ++ (codes "decoder" ∷ codes "layers" ∷ [])))
      | none ↦ elim (attr_value cur (codes "model")) [
        | none ↦ err (runtime_error no_layer_container)
        | some nxt ↦ layers_loop rounds nxt (prefix_parts ++ (codes "model" ∷ []))
      ]
    ]
  ]

  unfoldable pub resolve_layers_container : Obj → Result (Obj × Str)
  unfolding layers_loop
  resolve_layers_container model = layers_loop 8 model []

abbrev model_dot : Str
model_dot = codes "model."

-- `if cur and cur not in candidates: candidates.append(cur)`
abbrev add_candidate : Str → List Str → List Str
add_candidate cur candidates =
    if not (is_empty cur) && not (contains candidates cur)
    then candidates ++ (cur ∷ [])
    else candidates

-- The `while` loop; `fuel` bounds its rounds, each of which drops six characters of `cur`.
unfoldable pub candidates_from : ℕ → Str → List Str → List Str
candidates_from zero cur candidates = candidates
candidates_from (suc fuel) cur candidates = elim (starts_with model_dot cur) [
  | false ↦ candidates
  | true ↦ let next = drop 6 cur in candidates_from fuel next (add_candidate next candidates)
]

unfoldable pub candidate_capture_paths : Str → List Str
unfolding candidates_from
candidate_capture_paths path =
    let stripped = strip path in
    if is_empty stripped then [] else candidates_from (length stripped) stripped (stripped ∷ [])
