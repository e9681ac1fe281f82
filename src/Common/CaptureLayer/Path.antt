-- ===== src/Common/CaptureLayer/Path.antt =====
-- `find_capture_layer` by a path: the resolved path is a candidate and leads to the layer.
use t_llm.Prelude.{
  ◌≡◌, sym, ap, ◌∙◌, subst, inl, inr, true, Option, none, some, List, [], ◌∷◌, arith, if◌then◌else◌,
  is_empty, list_eq, nat_eq, Result, ok, err, Result-cases, runtime_error, Reason, value_error,
  index_error, key_error, attribute_error, assertion_error, path_invalid,
}
use t_llm.Prelude.Str.{Str}
use t_llm.Common.Objects.{PythonObjects}
use t_llm.Common.PathResolution.{candidate_capture_paths, resolve_object_by_path}
use t_llm.Common.State.{RuntimeConfig, default_path}
use t_llm.Common.CaptureLayer.{checked_layer, first_candidate, layer_by_path, find_capture_layer}

module _ (objects : PythonObjects) where
  open objects use {Obj, is_none, is_module}

  -- The candidates in front of the found one fail with a `RuntimeError`.
  pub data FoundFirst (model : Obj) (layer : Obj) (path : Str) : List Str → Type 0 where
    here :
        {rest : List Str}
        → resolve_object_by_path objects model path ≡ ok layer
        → FoundFirst model layer path (path ∷ rest)
    there :
        {candidate : Str} {rest : List Str} (reason : Reason)
        → resolve_object_by_path objects model candidate ≡ err (runtime_error reason)
        → FoundFirst model layer path rest
        → FoundFirst model layer path (candidate ∷ rest)

  found_here :
      (model obj layer : Obj) (candidate path : Str) (rest : List Str)
      → resolve_object_by_path objects model candidate ≡ ok obj
      → ◌≡◌ {A = Result (Option (Obj × Str))} (ok (some (obj, candidate))) (ok (some (layer, path)))
      → FoundFirst model layer path (candidate ∷ rest)
  found_here model obj layer candidate path rest e h =
      let same_layer : obj ≡ layer = ground arith in
      let same_path : candidate ≡ path = ground arith in
      subst (λ (p : Str). FoundFirst model layer path (p ∷ rest)) (sym same_path)
        (FoundFirst.here
          (ap (resolve_object_by_path objects model) (sym same_path) ∙ e ∙ ap ok same_layer))

  first_candidate-FoundFirst :
      (model layer : Obj) (path : Str) (candidates : List Str)
      → first_candidate objects model candidates ≡ ok (some (layer, path))
      → FoundFirst model layer path candidates
  unfolding first_candidate
  first_candidate-FoundFirst model layer path [] h = absurd (cc)
  first_candidate-FoundFirst model layer path (c ∷ cs) h =
      elim (Result-cases (resolve_object_by_path objects model c)) [
        | inl (obj, e) ↦ found_here model obj layer c path cs e (rw (e, first_candidate) at h)
        | inr (runtime_error reason, e) ↦
            FoundFirst.there reason e
              (first_candidate-FoundFirst model layer path cs (rw (e, first_candidate) at h))
        | inr (value_error, e) ↦ absurd (ground arith)
        | inr (index_error, e) ↦ absurd (ground arith)
        | inr (key_error, e) ↦ absurd (ground arith)
        | inr (attribute_error, e) ↦ absurd (ground arith)
        | inr (assertion_error, e) ↦ absurd (ground arith)
      ]

  checked_found :
      (found : Obj × Str) (layer : Obj) (path : Str)
      → (if is_none found.0
          then err (runtime_error path_invalid)
          else checked_layer objects found.0 found.1)
        ≡ ok (layer, path)
      → (found ≡ (layer, path)) × (is_module layer ≡ true)
  unfolding checked_layer
  checked_found found layer path h = (ground arith, ground arith)

  layer_by_path-FoundFirst :
      (model layer : Obj) (configured path : Str)
      → layer_by_path objects model configured ≡ ok (layer, path)
      → FoundFirst model layer path (candidate_capture_paths configured) × (is_module layer ≡ true)
  unfolding layer_by_path
  layer_by_path-FoundFirst model layer configured path h =
      let candidates = candidate_capture_paths configured in
      elim (Result-cases (first_candidate objects model candidates)) [
        | inr (e, failed) ↦ absurd (ground arith)
        | inl (none, failed) ↦ absurd (ground arith)
        | inl (some found, e) ↦
            let (same, module_layer) =
              checked_found found layer path (rw (e, layer_by_path) at h) in
            (
              first_candidate-FoundFirst model layer path candidates
                  (e ∙ ap (λ (f : Obj × Str). ok (some f)) same),
              module_layer,
            )
      ]

  -- The path in the configuration, or the default where it is empty.
  abbrev pub path_of : RuntimeConfig → Str
  path_of cfg = if is_empty cfg.capture_layer_path then default_path else cfg.capture_layer_path

  -- A capture layer found without an index is a module and is the object at the resolved path;
  -- the resolved path is a candidate of the configured path, and every candidate in front of it
  -- fails to resolve with a RuntimeError.
  pub find_capture_layer-FoundFirst :
      (cfg : RuntimeConfig) (model layer : Obj) (path : Str)
      → cfg.capture_layer_index ≡ none
      → find_capture_layer objects cfg model ≡ ok (layer, path)
      → FoundFirst model layer path (candidate_capture_paths (path_of cfg))
        × (is_module layer ≡ true)
  unfolding find_capture_layer
  find_capture_layer-FoundFirst cfg model layer path by_path h =
      layer_by_path-FoundFirst model layer (path_of cfg) path (rw by_path at h)
