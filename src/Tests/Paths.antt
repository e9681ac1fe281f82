-- ===== src/Tests/Paths.antt =====
-- Paths to layers on concrete texts and on a small model.
use t_llm.Prelude.{
  ◌↔◌, ◌≡◌, refl, true, false, List, [], ◌∷◌, ◌++◌, map, contains, list_eq, nat_eq, ok, err,
  value_error,
}
use t_llm.Prelude.Int.{pos, negsuc}
use t_llm.Prelude.Str.{codes, break_at, strip, lstrip, isdigit, int_of, starts_with, join}
use t_llm.Common.PathResolution.{
  parse_component, parse_index, indices_of, attribute_of, layers_loop, candidates_from,
  resolve_object_by_path, candidate_capture_paths, resolve_layers_container,
}
use t_llm.Common.PathResolution.RoundTrip.{
  IndexText, render, value_of, dashed, parse_component-render, parse_component-dashed,
}
use t_llm.Common.PathResolution.Candidates.{contains-candidate_capture_paths_iff, IsFallback}
use t_llm.Common.PathResolution.Container.{resolve_layers_container_sound}
use t_llm.Tests.Models.{small_model}

parse_spaced :
    parse_component (codes "layers[3][ -12 ]") ≡ ok (codes "layers", pos 3 ∷ negsuc 11 ∷ [])
unfolding parse_component indices_of attribute_of break_at strip lstrip isdigit parse_index int_of
parse_spaced = refl

candidates_twice :
    candidate_capture_paths (codes " model.model.x")
    ≡ codes "model.model.x" ∷ codes "model.x" ∷ codes "x" ∷ []
unfolding candidate_capture_paths candidates_from strip starts_with list_eq nat_eq
candidates_twice = refl

abbrev written : List IndexText
written =
    record { negative = false; first = b'3'; more = [] }
    ∷ record { negative = true; first = b'1'; more = b'2' ∷ [] }
    ∷ []

parse_component-render_example :
    parse_component (codes "layers" ++ render written) ≡ ok (codes "layers", map value_of written)
parse_component-render_example =
    parse_component-render (codes "layers") written (λ e. cc)
      (refl, (refl, (refl, (refl, (refl, (refl, tt)))))) ((refl, tt), ((refl, (refl, tt)), tt))

parse_component-dashed_example :
    parse_component (codes "layers" ++ (b'[' ∷ (dashed 0 (b'1' ∷ []) ++ (b']' ∷ codes "[0]"))))
    ≡ err value_error
parse_component-dashed_example =
    parse_component-dashed (codes "layers") 0 b'1' [] (codes "[0]") (λ e. cc)
      (refl, (refl, (refl, (refl, (refl, (refl, tt)))))) refl tt

contains-candidate_capture_paths_iff_example :
    (contains (candidate_capture_paths (codes " model.model.x ")) (codes "x") ≡ true)
    ↔ IsFallback (strip (codes " model.model.x ")) (codes "x")
contains-candidate_capture_paths_iff_example =
    contains-candidate_capture_paths_iff (codes " model.model.x ") (codes "x") (λ e. cc)

container_path : resolve_layers_container small_model 0 ≡ ok (2, codes "model.layers")
unfolding resolve_layers_container layers_loop join list_eq nat_eq
container_path = refl

resolve_layers_container_sound_example :
    resolve_object_by_path small_model 0 (codes "model.layers") ≡ ok 2
resolve_layers_container_sound_example =
    resolve_layers_container_sound small_model 0 2 (codes "model.layers") container_path
