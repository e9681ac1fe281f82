-- ===== src/Runtime/ResidualBindings.antt =====
-- tllm/runtime/ports/residual_bindings.py: locators of the residual stream are bound to the paths of
-- layers. A set of required (layer, site, phase) is a list without repetition.
pub mod Resolved
pub mod RawPaths
use t_llm.Prelude.{
  ℕ, zero, suc, ◌+◌, Bool, true, false, not, ◌&&◌, ◌||◌, Option, none, some, List, [], ◌∷◌, ◌++◌,
  map, filter, if◌then◌else◌, is_empty, ltb, eqb, ◌==◌, contains, Eq, list_eq, nat_eq, Result, ok,
  err, ◌>>=◌, runtime_error, unsupported_locator, path_not_resolved,
}
use t_llm.Prelude.Int.{ℤ, pos, negsuc, int_eq, ltb_ℤ}
use t_llm.Prelude.Str.{Str, codes, strip}
use t_llm.Prelude.Dict.{Dict, lookup, insert, values}
use t_llm.Runtime.Ports.{ResidualLocator, residual_locator_eq}

pub record ResidualPathBinding : Type 0 where
  pub locator : ResidualLocator
  pub resolved_path : Str
  pub include_request_meta : Bool

-- `<` on `str`
unfoldable pub less_text : Str → Str → Bool
less_text [] [] = false
less_text [] (d ∷ t) = true
less_text (c ∷ s) [] = false
less_text (c ∷ s) (d ∷ t) = ltb c d || (eqb c d && less_text s t)

-- `<` on the tuples that are the keys of the sort
unfoldable pub less : ResidualLocator → ResidualLocator → Bool
unfolding less_text
less a b =
    ltb_ℤ a.layer b.layer
    || (a.layer == b.layer
        && (less_text a.site b.site || (a.site == b.site && less_text a.phase b.phase)))

unfoldable pub insert_sorted : ResidualLocator → List ResidualLocator → List ResidualLocator
unfolding less
insert_sorted a [] = a ∷ []
insert_sorted a (b ∷ bs) =
    let rest = insert_sorted a bs in if less a b then a ∷ b ∷ bs else b ∷ rest

-- `sorted`
unfoldable pub sorted : List ResidualLocator → List ResidualLocator
unfolding insert_sorted
sorted [] = []
sorted (a ∷ items) = insert_sorted a (sorted items)

abbrev pub block_output_decode : ℤ → ResidualLocator
block_output_decode layer = record {
  layer = layer;
  site = codes "block_output";
  phase = codes "decode";
}

abbrev pub default_source_locator : ResidualLocator
default_source_locator = block_output_decode (pos 0)

abbrev pub default_target_locator : ResidualLocator
default_target_locator = block_output_decode (negsuc 0)

abbrev pub is_supported : ResidualLocator → Bool
is_supported locator = locator.site == codes "block_output" && locator.phase == codes "decode"

unfoldable pub supported_logical_locators : List ResidualLocator → List ResidualLocator
unfolding sorted
supported_logical_locators required =
    if is_empty required
    then default_source_locator ∷ default_target_locator ∷ []
    else map (λ item. block_output_decode item.layer) (filter is_supported (sorted required))

-- The paths of the source and the target layer of a configuration
unfoldable pub default_raw_paths_from_config : Str × Str → Dict ResidualLocator Str
default_raw_paths_from_config cfg =
    (default_source_locator, cfg.0) ∷ (default_target_locator, cfg.1) ∷ []

-- Items with a blank path are dropped.
unfoldable pub raw_paths_from_runtime :
    Dict ResidualLocator Str → Option (Str × Str) → Dict ResidualLocator Str
unfolding default_raw_paths_from_config
raw_paths_from_runtime raw_paths cfg =
    if not (is_empty raw_paths)
    then filter (λ item. not (is_empty (strip item.1))) raw_paths
    else elim cfg [ none ↦ [] | some paths ↦ default_raw_paths_from_config paths ]

-- `str(d.get(k, "")).strip()`
unfoldable pub path_at {ℓ} : {K : Type ℓ} ⦃e : Eq K⦄ → K → Dict K Str → Str
unfolding strip
path_at k d = elim (lookup k d) [ none ↦ [] | some path ↦ strip path ]

unfoldable pub raw_path_for_locator : Dict ResidualLocator Str → ResidualLocator → Result Str
unfolding path_at
raw_path_for_locator raw_paths locator =
    let raw_path = path_at locator raw_paths in
    if not (is_empty raw_path) then ok raw_path else err (runtime_error unsupported_locator)

unfoldable pub collect_raw_paths :
    Dict ResidualLocator Str → List ResidualLocator → List Str → Result (List Str)
unfolding raw_path_for_locator
collect_raw_paths raw_paths [] paths = ok paths
collect_raw_paths raw_paths (locator ∷ locators) paths = do
  raw_path ← raw_path_for_locator raw_paths locator
  collect_raw_paths raw_paths locators (
      if not (is_empty raw_path) && not (contains paths raw_path)
      then paths ++ (raw_path ∷ [])
      else paths)

unfoldable pub build_raw_tap_paths :
    Dict ResidualLocator Str → List ResidualLocator → Result (List Str)
unfolding collect_raw_paths supported_logical_locators
build_raw_tap_paths raw_paths required =
    collect_raw_paths raw_paths (supported_logical_locators required) []

abbrev pub found_path : Str → Result Str
found_path path = if is_empty path then err (runtime_error path_not_resolved) else ok path

-- The paths of the loop of `build_resolved_bindings`
unfoldable pub resolved_path_of :
    Dict ResidualLocator Str → Dict Str Str → ResidualLocator → Result Str
unfolding raw_path_for_locator path_at
resolved_path_of raw_paths resolve_alias locator = do
  raw_path ← raw_path_for_locator raw_paths locator
  found_path (path_at raw_path resolve_alias)

-- `first` is `index == 0`.
unfoldable pub bind_locators :
    Dict ResidualLocator Str
    → Dict Str Str
    → Bool
    → List ResidualLocator
    → Dict Str ResidualPathBinding
    → Result (Dict Str ResidualPathBinding)
unfolding resolved_path_of
bind_locators raw_paths resolve_alias first [] bindings = ok bindings
bind_locators raw_paths resolve_alias first (locator ∷ locators) bindings = do
  resolved_path ← resolved_path_of raw_paths resolve_alias locator
  bind_locators raw_paths resolve_alias false locators (
      insert resolved_path
        (record { locator = locator; resolved_path = resolved_path; include_request_meta = first })
        bindings)

unfoldable pub build_resolved_bindings :
    Dict ResidualLocator Str
    → Dict Str Str
    → List ResidualLocator
    → Result (Dict Str ResidualPathBinding)
unfolding bind_locators supported_logical_locators
build_resolved_bindings raw_paths resolve_alias required =
    bind_locators raw_paths resolve_alias true (supported_logical_locators required) []

abbrev pub tap_paths : Dict Str ResidualPathBinding → List Str
tap_paths bindings = map (λ binding. binding.resolved_path) (values bindings)

unfoldable pub resolved_path_for_locator :
    Dict Str ResidualPathBinding → ResidualLocator → Option Str
resolved_path_for_locator [] locator = none
resolved_path_for_locator ((path, binding) ∷ bindings) locator =
    let rest = resolved_path_for_locator bindings locator in
    if binding.locator == locator then some binding.resolved_path else rest

-- `resolved_path_for_locator(...) or ""`
abbrev pub path_or_blank : Option Str → Str
path_or_blank none = []
path_or_blank (some path) = path

-- The paths of the source and the target, of the bindings, or else the runtime's own
unfoldable pub default_resolved_paths : Dict Str ResidualPathBinding → Str × Str → Str × Str
unfolding resolved_path_for_locator
default_resolved_paths bindings own =
    if not (is_empty bindings)
    then (
      path_or_blank (resolved_path_for_locator bindings default_source_locator),
      path_or_blank (resolved_path_for_locator bindings default_target_locator),
    )
    else own
