-- ===== src/Tests/Capture.antt =====
-- The capture layer of the small model, by a path with one `model.` too many.
use t_llm.Prelude.{◌≡◌, refl, true, none, list_eq, nat_eq, ok}
use t_llm.Prelude.Str.{codes, strip, lstrip, isdigit, int_of, split, break_at, starts_with}
use t_llm.Common.PathResolution.{
  parse_component, parse_index, indices_of, attribute_of, index_all, resolve_component, walk,
  resolve_object_by_path, candidates_from, candidate_capture_paths,
}
use t_llm.Common.State.{RuntimeConfig}
use t_llm.Common.CaptureLayer.{checked_layer, first_candidate, layer_by_path, find_capture_layer}
use t_llm.Common.CaptureLayer.Path.{FoundFirst, path_of, find_capture_layer-FoundFirst}
use t_llm.Tests.Models.{small_model}

abbrev by_path : RuntimeConfig
by_path = record {
  graph_scratch_rows = 4;
  enable_decode_producer = true;
  enable_prefill_producer = true;
  capture_layer_path = codes "model.model.layers[1]";
  capture_layer_index = none;
}

found : find_capture_layer small_model by_path 0 ≡ ok (4, codes "model.layers[1]")
unfolding find_capture_layer layer_by_path first_candidate checked_layer candidate_capture_paths
    candidates_from resolve_object_by_path walk resolve_component index_all parse_component
    parse_index indices_of attribute_of strip lstrip isdigit int_of split break_at starts_with
    list_eq nat_eq
found = refl

find_capture_layer-FoundFirst_example :
    FoundFirst small_model 0 4
      (codes "model.layers[1]")
      (candidate_capture_paths (path_of small_model by_path))
    × (small_model.is_module 4 ≡ true)
find_capture_layer-FoundFirst_example =
    find_capture_layer-FoundFirst small_model by_path 0 4 (codes "model.layers[1]") refl found
