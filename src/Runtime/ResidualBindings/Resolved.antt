-- ===== src/Runtime/ResidualBindings/Resolved.antt =====
-- Which paths the bound locators resolve to.
use t_llm.Prelude.{
  suc, length, Bool, true, false, ◌||◌, ◌≡◌, refl, sym, ap, ◌∙◌, subst, some, List, [], ◌∷◌, ◌++◌,
  append_assoc, append-nil, map, filter, ◌==◌, eq_of_==, contains, list_eq, nat_eq, Result, ok,
  ◌>>=◌, >>=-eq-ok, inl, inr, Bool-cases, ok-injective, arith,
}
use t_llm.Prelude.Str.{Str, codes}
use t_llm.Prelude.Dict.{Dict, keys, values, insert}
use t_llm.Prelude.Dict.Laws.{NoDup}
use t_llm.Prelude.Dict.Order.{keys-append, NoDup-middle}
use t_llm.Runtime.Ports.{ResidualLocator, residual_locator_eq}
use t_llm.Prelude.Int.{int_eq}
use t_llm.Runtime.ResidualBindings.{
  ResidualPathBinding, less, insert_sorted, sorted, block_output_decode, is_supported,
  supported_logical_locators, resolved_path_of, bind_locators, build_resolved_bindings, tap_paths,
  resolved_path_for_locator,
}

insert-new :
    (k : Str) (v : ResidualPathBinding) (d : Dict Str ResidualPathBinding)
    → contains (keys d) k ≡ false
    → insert k v d ≡ d ++ ((k, v) ∷ [])
unfolding insert
insert-new k v [] h = refl
insert-new k v ((j, w) ∷ d) h = ground (arith, insert-new k v d, eq_of_== j k, eq_of_== k j)

-- The path of each locator, in order
unfoldable pub resolve_all :
    Dict ResidualLocator Str → Dict Str Str → List ResidualLocator → Result (List Str)
unfolding resolved_path_of
resolve_all raw_paths resolve_alias [] = ok []
resolve_all raw_paths resolve_alias (locator ∷ locators) = do
  path ← resolved_path_of raw_paths resolve_alias locator
  paths ← resolve_all raw_paths resolve_alias locators
  ok (path ∷ paths)

bindings_of : Bool → List ResidualLocator → List Str → Dict Str ResidualPathBinding
bindings_of first [] paths = []
bindings_of first (locator ∷ locators) [] = []
bindings_of first (locator ∷ locators) (path ∷ paths) =
    (path, record { locator = locator; resolved_path = path; include_request_meta = first })
    ∷ bindings_of false locators paths

bind_locators-eq :
    (raw_paths : Dict ResidualLocator Str) (resolve_alias : Dict Str Str) (first : Bool)
    (locators : List ResidualLocator) (bindings : Dict Str ResidualPathBinding) (paths : List Str)
    → resolve_all raw_paths resolve_alias locators ≡ ok paths
    → NoDup (keys bindings ++ paths)
    → bind_locators raw_paths resolve_alias first locators bindings
      ≡ ok (bindings ++ bindings_of first locators paths)
unfolding resolve_all bind_locators bindings_of
bind_locators-eq raw_paths resolve_alias first [] bindings paths resolved distinct =
    ground (arith, append-nil bindings)
bind_locators-eq raw_paths resolve_alias first (locator ∷ locators) bindings paths resolved
      distinct =
    let head =
      >>=-eq-ok (resolved_path_of raw_paths resolve_alias locator)
        (λ path. resolve_all raw_paths resolve_alias locators >>= λ rest. ok (path ∷ rest))
        {last = paths} resolved in
    let path : Str = head.0 in
    let tail =
      >>=-eq-ok (resolve_all raw_paths resolve_alias locators) (λ rest. ok (path ∷ rest))
        {last = paths} head.2 in
    let rest : List Str = tail.0 in
    let split : path ∷ rest ≡ paths = ok-injective (path ∷ rest) paths tail.2 in
    let known : NoDup (keys bindings ++ (path ∷ rest)) =
      subst (λ all_paths. NoDup (keys bindings ++ all_paths)) (sym split) distinct in
    let binding : ResidualPathBinding = record {
      locator = locator;
      resolved_path = path;
      include_request_meta = first;
    } in
    let grown = bindings ++ ((path, binding) ∷ []) in
    let go = bind_locators-eq raw_paths resolve_alias false locators grown rest tail.1 (
      subst NoDup
        (sym (
          ap (λ names. names ++ rest) (keys-append bindings ((path, binding) ∷ []))
          ∙ append_assoc (keys bindings) (path ∷ []) rest))
        known) in
    rw
      (
        head.1,
        sym split,
        insert-new path binding bindings (NoDup-middle (keys bindings) rest path known).0,
        go,
      )
      (ap ok (append_assoc bindings ((path, binding) ∷ []) (bindings_of false locators rest)))

resolve_all-length :
    (raw_paths : Dict ResidualLocator Str) (resolve_alias : Dict Str Str)
    (locators : List ResidualLocator) (paths : List Str)
    → resolve_all raw_paths resolve_alias locators ≡ ok paths
    → length paths ≡ length locators
unfolding resolve_all
resolve_all-length raw_paths resolve_alias [] paths h = ap length (sym (ok-injective [] paths h))
resolve_all-length raw_paths resolve_alias (locator ∷ locators) paths h =
    let head =
      >>=-eq-ok (resolved_path_of raw_paths resolve_alias locator)
        (λ path. resolve_all raw_paths resolve_alias locators >>= λ rest. ok (path ∷ rest))
        {last = paths} h in
    let tail =
      >>=-eq-ok (resolve_all raw_paths resolve_alias locators) (λ rest. ok (head.0 ∷ rest))
        {last = paths} head.2 in
    ap length (sym (ok-injective (head.0 ∷ tail.0) paths tail.2))
    ∙ ap suc (resolve_all-length raw_paths resolve_alias locators tail.0 tail.1)

tap_paths-bindings_of :
    (first : Bool) (locators : List ResidualLocator) (paths : List Str)
    → length paths ≡ length locators
    → tap_paths (bindings_of first locators paths) ≡ paths
unfolding bindings_of
tap_paths-bindings_of first [] [] h = refl
tap_paths-bindings_of first [] (path ∷ paths) h = absurd (omega arith)
tap_paths-bindings_of first (locator ∷ locators) [] h = absurd (omega arith)
tap_paths-bindings_of first (locator ∷ locators) (path ∷ paths) h =
    ap (◌∷◌ path) (tap_paths-bindings_of false locators paths (omega arith))

-- Whether the metadata of the requests comes with a locator: with the first
abbrev pub first_only : Bool → List ResidualLocator → List Bool
first_only first [] = []
first_only first (locator ∷ locators) = first ∷ first_only false locators

include-bindings_of :
    (first : Bool) (locators : List ResidualLocator) (paths : List Str)
    → length paths ≡ length locators
    → map (λ binding. binding.include_request_meta) (values (bindings_of first locators paths))
      ≡ first_only first locators
unfolding bindings_of
include-bindings_of first [] paths h = refl
include-bindings_of first (locator ∷ locators) [] h = absurd (omega arith)
include-bindings_of first (locator ∷ locators) (path ∷ paths) h =
    ap (◌∷◌ first) (include-bindings_of false locators paths (omega arith))

-- An entry for another locator is passed over.
resolved-cons :
    (locators : List ResidualLocator) (path : Str) (binding : ResidualPathBinding)
    (bindings : Dict Str ResidualPathBinding)
    → contains locators binding.locator ≡ false
    → map (resolved_path_for_locator ((path, binding) ∷ bindings)) locators
      ≡ map (resolved_path_for_locator bindings) locators
unfolding resolved_path_for_locator
resolved-cons [] path binding bindings h = refl
resolved-cons (locator ∷ locators) path binding bindings h = ground (
  arith,
  resolved-cons locators path binding bindings,
  eq_of_== binding.locator locator,
  eq_of_== locator binding.locator,
)

resolved-bindings_of :
    (first : Bool) (locators : List ResidualLocator) (paths : List Str)
    → length paths ≡ length locators
    → NoDup locators
    → map (resolved_path_for_locator (bindings_of first locators paths)) locators ≡ map some paths
unfolding bindings_of resolved_path_for_locator
resolved-bindings_of first [] [] h distinct = refl
resolved-bindings_of first [] (path ∷ paths) h distinct = absurd (omega arith)
resolved-bindings_of first (locator ∷ locators) [] h distinct = absurd (omega arith)
resolved-bindings_of first (locator ∷ locators) (path ∷ paths) h distinct =
    let binding : ResidualPathBinding = record {
      locator = locator;
      resolved_path = path;
      include_request_meta = first;
    } in
    let self : (locator == locator) ≡ true = ground arith in
    rw
      (
        self,
        resolved-cons locators path binding (bindings_of false locators paths) distinct.0,
        resolved-bindings_of false locators paths (omega arith) distinct.1,
      )
      refl

-- The supported locators of a set are distinct.
contains-insert_sorted :
    (a b : ResidualLocator) (items : List ResidualLocator)
    → contains (insert_sorted a items) b ≡ (b == a || contains items b)
unfolding insert_sorted
contains-insert_sorted a b [] = refl
contains-insert_sorted a b (c ∷ items) = ground (arith, contains-insert_sorted a b items)

NoDup-insert_sorted :
    (a : ResidualLocator) (items : List ResidualLocator)
    → contains items a ≡ false
    → NoDup items
    → NoDup (insert_sorted a items)
unfolding insert_sorted
NoDup-insert_sorted a [] h distinct = (refl, tt)
NoDup-insert_sorted a (b ∷ items) h distinct = elim (Bool-cases (less a b)) [
  | inl before ↦ rw before (h, distinct)
  | inr behind ↦ rw behind (
    ground (arith, contains-insert_sorted a b items, distinct.0, eq_of_== b a, eq_of_== a b),
    NoDup-insert_sorted a items (ground arith) distinct.1,
  )
]

contains-sorted :
    (items : List ResidualLocator) (b : ResidualLocator)
    → contains (sorted items) b ≡ contains items b
unfolding sorted
contains-sorted [] b = refl
contains-sorted (a ∷ items) b =
    ground (arith, contains-insert_sorted a b (sorted items), contains-sorted items b)

NoDup-sorted : (items : List ResidualLocator) → NoDup items → NoDup (sorted items)
unfolding sorted
NoDup-sorted [] h = tt
NoDup-sorted (a ∷ items) h =
    NoDup-insert_sorted a (sorted items) (contains-sorted items a ∙ h.0) (NoDup-sorted items h.1)

abbrev bound_locators : List ResidualLocator → List ResidualLocator
bound_locators items = map (λ item. block_output_decode item.layer) (filter is_supported items)

block_output_decode-eq :
    (a : ResidualLocator) → is_supported a ≡ true → block_output_decode a.layer ≡ a
block_output_decode-eq a h =
    let site = eq_of_== a.site (codes "block_output") (ground arith) in
    let phase = eq_of_== a.phase (codes "decode") (ground arith) in
    λ i. record { layer = a.layer; site = sym site i; phase = sym phase i }

contains-bound :
    (items : List ResidualLocator) (b : ResidualLocator)
    → contains items b ≡ false
    → contains (bound_locators items) b ≡ false
contains-bound [] b h = refl
contains-bound (a ∷ items) b h = elim (Bool-cases (is_supported a)) [
  | inl supported ↦
      rw (supported, block_output_decode-eq a supported) (ground (arith, contains-bound items b, h))
  | inr other ↦ rw other (contains-bound items b (ground arith))
]

NoDup-bound : (items : List ResidualLocator) → NoDup items → NoDup (bound_locators items)
NoDup-bound [] h = tt
NoDup-bound (a ∷ items) h = elim (Bool-cases (is_supported a)) [
  | inl supported ↦
      rw (supported, block_output_decode-eq a supported)
        (contains-bound items a h.0, NoDup-bound items h.1)
  | inr other ↦ rw other (NoDup-bound items h.1)
]

NoDup-supported :
    (required : List ResidualLocator) → NoDup required → NoDup (supported_logical_locators required)
unfolding supported_logical_locators residual_locator_eq list_eq nat_eq int_eq
NoDup-supported [] h = (refl, (refl, tt))
NoDup-supported (a ∷ required) h =
    NoDup-bound (sorted (a ∷ required)) (NoDup-sorted (a ∷ required) h)

-- Where the supported locators of a set resolve, each to another path, the bindings are built:
-- their tap paths are these paths in order, each of the locators resolves to its path, and the
-- metadata of the requests comes with the first binding only.
pub build_resolved_bindings-resolves :
    (raw_paths : Dict ResidualLocator Str) (resolve_alias : Dict Str Str)
    (required : List ResidualLocator) (paths : List Str)
    → NoDup required
    → resolve_all raw_paths resolve_alias (supported_logical_locators required) ≡ ok paths
    → NoDup paths
    → (bindings : Dict Str ResidualPathBinding) × (build_resolved_bindings raw_paths resolve_alias
          required
        ≡ ok bindings)
      × (tap_paths bindings ≡ paths)
      × (map (resolved_path_for_locator bindings) (supported_logical_locators required)
          ≡ map some paths)
      × (map (λ binding. binding.include_request_meta) (values bindings)
          ≡ first_only true (supported_logical_locators required))
unfolding build_resolved_bindings
build_resolved_bindings-resolves raw_paths resolve_alias required paths distinct resolved once =
    let locators = supported_logical_locators required in
    let same = resolve_all-length raw_paths resolve_alias locators paths resolved in
    (
      bindings_of true locators paths,
      bind_locators-eq raw_paths resolve_alias true locators [] paths resolved once,
      tap_paths-bindings_of true locators paths same,
      resolved-bindings_of true locators paths same (NoDup-supported required distinct),
      include-bindings_of true locators paths same,
    )
