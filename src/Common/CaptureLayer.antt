-- ===== src/Common/CaptureLayer.antt =====
-- `find_capture_layer` of tllm/common/state.py: the module whose output is captured.
pub mod Path
use t_llm.Prelude.{
  ℕ, zero, suc, ◌+◌, ◌/◌, ◌%◌, ◌||◌, Option, none, some, List, [], ◌∷◌, ◌++◌, if◌then◌else◌, ltb,
  leb, is_empty, Result, ok, err, ◌>>=◌, runtime_error, index_error, index_out_of_range,
  path_invalid, not_a_module,
}
use t_llm.Prelude.Int.{ℤ, pos, ◌+ℤ◌, is_negative, pos_part}
use t_llm.Prelude.Str.{Str}
use t_llm.Common.Objects.{PythonObjects}
use t_llm.Common.PathResolution.{
  candidate_capture_paths, resolve_object_by_path, resolve_layers_container,
}
use t_llm.Common.State.{RuntimeConfig, default_path}

-- `str(n)`; the fuel is one more than the digits that remain.
unfoldable pub decimal_from : ℕ → ℕ → Str
decimal_from zero n = []
decimal_from (suc fuel) n =
    let front = decimal_from fuel (n / 10) in
    if ltb n 10 then (b'0' + n) ∷ [] else front ++ ((b'0' + n % 10) ∷ [])

unfoldable pub decimal : ℕ → Str
unfolding decimal_from
decimal n = decimal_from (suc n) n

module _ (objects : PythonObjects) where
  open objects use {Obj, getitem, is_none, is_module, len}

  -- `isinstance(layer, torch.nn.Module)`
  unfoldable pub checked_layer : Obj → Str → Result (Obj × Str)
  checked_layer layer resolved_path =
      if is_module layer then ok (layer, resolved_path) else err (runtime_error not_a_module)

  -- The branch on `cfg.capture_layer_index`
  unfoldable pub layer_by_index : ℤ → Obj → Str → Result (Obj × Str)
  unfolding checked_layer
  layer_by_index index layers layers_prefix =
      let idx = if is_negative index then index +ℤ pos (len layers) else index in
      if is_negative idx || leb (len layers) (pos_part idx)
      then err (runtime_error index_out_of_range)
      else elim (getitem layers idx) [
        | none ↦ err index_error
        | some layer ↦
            checked_layer layer (layers_prefix ++ (b'[' ∷ (decimal (pos_part idx) ++ (b']' ∷ []))))
      ]

  -- The loop over the candidates: only a `RuntimeError` moves on to the next one.
  unfoldable pub first_candidate : Obj → List Str → Result (Option (Obj × Str))
  first_candidate model [] = ok none
  first_candidate model (candidate ∷ rest) = elim (resolve_object_by_path objects model candidate) [
    | ok obj ↦ ok (some (obj, candidate))
    | err (runtime_error e) ↦ first_candidate model rest
    | err e ↦ err e
  ]

  unfoldable pub layer_by_path : Obj → Str → Result (Obj × Str)
  unfolding first_candidate checked_layer
  layer_by_path model path = do
    tried ← first_candidate model (candidate_capture_paths path)
    elim tried [
      | none ↦ err (runtime_error path_invalid)
      | some found ↦
          if is_none found.0
          then err (runtime_error path_invalid)
          else checked_layer found.0 found.1
    ]

  unfoldable pub find_capture_layer : RuntimeConfig → Obj → Result (Obj × Str)
  unfolding layer_by_index layer_by_path
  find_capture_layer cfg model = elim cfg.capture_layer_index [
    | some index ↦ do
      container ← resolve_layers_container objects model
      layer_by_index index container.0 container.1
    | none ↦
        layer_by_path model
          (if is_empty cfg.capture_layer_path then default_path else cfg.capture_layer_path)
  ]
