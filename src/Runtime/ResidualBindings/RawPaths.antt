-- ===== src/Runtime/ResidualBindings/RawPaths.antt =====
-- The paths at which the residual stream is tapped.
use t_llm.Prelude.{
  true, false, not, ◌&&◌, ◌≡◌, sym, subst, List, [], ◌∷◌, ◌++◌, if◌then◌else◌, is_empty, All,
  contains, list_eq, nat_eq, ok, >>=-eq-ok, inl, inr, Bool-cases, ok-injective, arith,
}
use t_llm.Prelude.Str.{Str}
use t_llm.Prelude.Dict.{Dict}
use t_llm.Prelude.Dict.Laws.{NoDup, NoDup-append_one, contains-append_one}
use t_llm.Runtime.Ports.{ResidualLocator, residual_locator_eq}
use t_llm.Runtime.ResidualBindings.{
  path_at, supported_logical_locators, raw_path_for_locator, collect_raw_paths, build_raw_tap_paths,
}

abbrev pub IsTapped : Dict ResidualLocator Str → List Str → ResidualLocator → Type 0
IsTapped raw_paths paths locator = contains paths (path_at locator raw_paths) ≡ true

raw_path_for_locator-ok :
    (raw_paths : Dict ResidualLocator Str) (locator : ResidualLocator) (path : Str)
    → raw_path_for_locator raw_paths locator ≡ ok path
    → (is_empty path ≡ false) × (path_at locator raw_paths ≡ path)
unfolding raw_path_for_locator
raw_path_for_locator-ok raw_paths locator path h = (ground arith, ground arith)

add_path : Str → List Str → List Str
add_path path paths =
    if not (is_empty path) && not (contains paths path) then paths ++ (path ∷ []) else paths

NoDup-add_path : (path : Str) (paths : List Str) → NoDup paths → NoDup (add_path path paths)
unfolding add_path
NoDup-add_path path paths h = elim (Bool-cases (not (is_empty path) && not (contains paths path))) [
  | inl new ↦ rw new (NoDup-append_one paths path (ground arith) h)
  | inr known ↦ rw known h
]

contains-add_path :
    (path other : Str) (paths : List Str)
    → contains paths other ≡ true
    → contains (add_path path paths) other ≡ true
unfolding add_path
contains-add_path path other paths h = ground (arith, contains-append_one paths other path)

contains-add_path_self :
    (path : Str) (paths : List Str)
    → is_empty path ≡ false
    → contains (add_path path paths) path ≡ true
unfolding add_path
contains-add_path_self path paths h = ground (arith, contains-append_one paths path path)

collects :
    (raw_paths : Dict ResidualLocator Str) (locators : List ResidualLocator)
    (before paths : List Str)
    → NoDup before
    → collect_raw_paths raw_paths locators before ≡ ok paths
    → NoDup paths
      × All (IsTapped raw_paths paths) locators
      × ((other : Str) → contains before other ≡ true → contains paths other ≡ true)
unfolding collect_raw_paths add_path
collects raw_paths [] before paths distinct run =
    let same = ok-injective before paths run in
    (
      subst NoDup same distinct,
      tt,
      λ other h. subst (λ all_paths. contains all_paths other ≡ true) same h,
    )
collects raw_paths (locator ∷ locators) before paths distinct run =
    let head =
      >>=-eq-ok (raw_path_for_locator raw_paths locator)
        (λ path. collect_raw_paths raw_paths locators (add_path path before)) {last = paths} run in
    let path : Str = head.0 in
    let found = raw_path_for_locator-ok raw_paths locator path head.1 in
    let rest =
      collects raw_paths locators (add_path path before) paths (NoDup-add_path path before distinct)
        head.2 in
    (
      rest.0,
      (
        subst (λ tapped. contains paths tapped ≡ true) (sym found.1)
            (rest.2 path (contains-add_path_self path before found.0)),
        rest.1,
      ),
      λ other h. rest.2 other (contains-add_path path other before h),
    )

-- Where the raw tap paths are built, no path stands in them twice, and the stripped path of every
-- supported locator stands in them.
pub build_raw_tap_paths-IsTapped :
    (raw_paths : Dict ResidualLocator Str) (required : List ResidualLocator) (paths : List Str)
    → build_raw_tap_paths raw_paths required ≡ ok paths
    → NoDup paths × All (IsTapped raw_paths paths) (supported_logical_locators required)
unfolding build_raw_tap_paths
build_raw_tap_paths-IsTapped raw_paths required paths run =
    let all_of = collects raw_paths (supported_logical_locators required) [] paths tt run in
    (all_of.0, all_of.1)
