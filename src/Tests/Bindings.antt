-- ===== src/Tests/Bindings.antt =====
-- A source and a target layer, bound by default and to the same path.
use t_llm.Prelude.{◌≡◌, refl, true, false, some, List, [], ◌∷◌, map, All, list_eq, nat_eq, ok}
use t_llm.Prelude.Int.{int_eq}
use t_llm.Prelude.Str.{Str, codes, strip, lstrip_space}
use t_llm.Prelude.Dict.{Dict, lookup, insert, values}
use t_llm.Prelude.Dict.Laws.{NoDup}
use t_llm.Runtime.Ports.{ResidualLocator, residual_locator_eq}
use t_llm.Runtime.ResidualBindings.{
  ResidualPathBinding, default_source_locator, default_target_locator,
  default_raw_paths_from_config, supported_logical_locators, path_at, raw_path_for_locator,
  collect_raw_paths, build_raw_tap_paths, resolved_path_of, bind_locators, build_resolved_bindings,
  tap_paths, resolved_path_for_locator,
}
use t_llm.Runtime.ResidualBindings.Resolved.{
  resolve_all, first_only, build_resolved_bindings-resolves,
}
use t_llm.Runtime.ResidualBindings.RawPaths.{IsTapped, build_raw_tap_paths-IsTapped}

abbrev raw_paths : Dict ResidualLocator Str
raw_paths =
    (default_source_locator, codes " layers[0]") ∷ (default_target_locator, codes "layers[-1]") ∷ []

abbrev resolve_alias : Dict Str Str
resolve_alias =
    (codes "layers[0]", codes "model.layers[0]")
    ∷ (codes "layers[-1]", codes "model.layers[-1]")
    ∷ []

abbrev resolved : List Str
resolved = codes "model.layers[0]" ∷ codes "model.layers[-1]" ∷ []

resolved_lem : resolve_all raw_paths resolve_alias (supported_logical_locators []) ≡ ok resolved
unfolding resolve_all supported_logical_locators resolved_path_of raw_path_for_locator path_at strip
    lstrip_space lookup residual_locator_eq list_eq nat_eq int_eq
resolved_lem = refl

resolved-NoDup : NoDup resolved
unfolding list_eq nat_eq
resolved-NoDup = (refl, (refl, tt))

build_resolved_bindings-resolves_example :
    (bindings : Dict Str ResidualPathBinding) × (build_resolved_bindings raw_paths resolve_alias []
      ≡ ok bindings)
    × (tap_paths bindings ≡ resolved)
    × (map (resolved_path_for_locator bindings) (supported_logical_locators []) ≡ map some resolved)
    × (map (λ binding. binding.include_request_meta) (values bindings)
        ≡ first_only true (supported_logical_locators []))
build_resolved_bindings-resolves_example =
    build_resolved_bindings-resolves raw_paths resolve_alias [] resolved tt resolved_lem
      resolved-NoDup

abbrev tapped : List Str
tapped = codes "layers[0]" ∷ codes "layers[-1]" ∷ []

tapped_lem : build_raw_tap_paths raw_paths [] ≡ ok tapped
unfolding build_raw_tap_paths collect_raw_paths supported_logical_locators raw_path_for_locator
    path_at strip lstrip_space lookup residual_locator_eq list_eq nat_eq int_eq
tapped_lem = refl

build_raw_tap_paths-IsTapped_example :
    NoDup tapped × All (IsTapped raw_paths tapped) (supported_logical_locators [])
build_raw_tap_paths-IsTapped_example = build_raw_tap_paths-IsTapped raw_paths [] tapped tapped_lem

-- When both layers have one path, only the target is bound, without the metadata of the requests.
shared_path :
    build_resolved_bindings
      (default_raw_paths_from_config (codes "layers[0]", codes "layers[0]"))
      resolve_alias
      []
    ≡ ok (
        (
          codes "model.layers[0]",
          record {
            locator = default_target_locator;
            resolved_path = codes "model.layers[0]";
            include_request_meta = false;
          },
        )
        ∷ [])
unfolding build_resolved_bindings bind_locators supported_logical_locators resolved_path_of
    raw_path_for_locator path_at strip lstrip_space default_raw_paths_from_config lookup insert
    residual_locator_eq list_eq nat_eq int_eq
shared_path = refl
