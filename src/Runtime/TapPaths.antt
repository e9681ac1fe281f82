-- ===== src/Runtime/TapPaths.antt =====
-- `build_tap_path_list` of tllm/runtime/vllm_patch/port_runtime_hooks.py: the layers that are tapped.
use t_llm.Prelude.{
  Option, none, some, List, [], ◌∷◌, ◌++◌, if◌then◌else◌, is_empty, contains, list_eq, nat_eq,
  Result, ok, ◌>>=◌,
}
use t_llm.Prelude.Str.{Str}
use t_llm.Prelude.Dict.{Dict}
use t_llm.Runtime.Ports.{ResidualLocator}
use t_llm.Runtime.DispatchPlan.{DispatchPlan}
use t_llm.Runtime.DispatchPlan.Requirements.{required_residual_layers}
use t_llm.Runtime.ResidualBindings.{raw_paths_from_runtime, build_raw_tap_paths}

pub record PortRuntimeConfig : Type 0 where
  pub source_layer_path : Str
  pub target_layer_path : Str
  pub tap_layer_paths : List Str

abbrev pub add_new : Str → List Str → List Str
add_new path paths = if contains paths path then paths else paths ++ (path ∷ [])

unfoldable pub add_all : List Str → List Str → List Str
add_all [] paths = paths
add_all (path ∷ rest) paths = add_all rest (add_new path paths)

unfoldable pub fallback_paths : PortRuntimeConfig → List Str
unfolding add_all
fallback_paths config =
    add_new config.target_layer_path
      (add_new config.source_layer_path (add_all config.tap_layer_paths []))

unfoldable pub required_by :
    {Consumer : Type 0} → Option (DispatchPlan Consumer) → Result (List ResidualLocator)
unfolding required_residual_layers
required_by none = ok []
required_by (some plan) = required_residual_layers plan

unfoldable pub build_tap_path_list :
    {Consumer : Type 0}
    → PortRuntimeConfig
    → Dict ResidualLocator Str
    → Option (DispatchPlan Consumer)
    → Result (List Str)
unfolding required_by raw_paths_from_runtime build_raw_tap_paths fallback_paths
build_tap_path_list config residual_raw_paths plan = do
  required ← required_by plan
  paths ←
      build_raw_tap_paths
        (raw_paths_from_runtime residual_raw_paths
          (some (config.source_layer_path, config.target_layer_path)))
        required
  ok (if is_empty paths then fallback_paths config else paths)
