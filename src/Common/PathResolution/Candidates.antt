-- ===== src/Common/PathResolution/Candidates.antt =====
-- `candidate_capture_paths`: the fallbacks are what is left behind leading `model.` prefixes.
use t_llm.Prelude.{
  ◌↔◌, sym, subst, eq_of_==, ℕ, zero, suc, ◌≤◌, ◌≡◌, ◌≢◌, refl, ap, ◌∙◌, true, false, not, ◌&&◌,
  ◌||◌, List, [], ◌∷◌, ◌++◌, arith, inl, inr, Bool-cases, length, drop, is_empty, contains, All,
  All-append, ◌==◌, list_eq, nat_eq,
}
use t_llm.Prelude.Str.{Str, starts_with, strip}
use t_llm.Common.PathResolution.{model_dot, add_candidate, candidates_from, candidate_capture_paths}

-- `c` behind `k` times the text `model.`
abbrev pub prefixed : ℕ → Str → Str
prefixed zero c = c
prefixed (suc k) c = model_dot ++ prefixed k c

-- Some number of prefixes leads from the candidate back to the path.
abbrev pub IsFallback : Str → Str → Type 0
IsFallback path c = (k : ℕ) × (path ≡ prefixed k c)

starts_with-append : (p s : Str) → starts_with p (p ++ s) ≡ true
unfolding starts_with
starts_with-append [] s = refl
starts_with-append (c ∷ p) s = ground (arith, starts_with-append p s)

starts_with-drop : (p s : Str) → starts_with p s ≡ true → s ≡ p ++ drop (length p) s
unfolding starts_with
starts_with-drop [] s h = refl
starts_with-drop (c ∷ p) [] h = cc
starts_with-drop (c ∷ p) (d ∷ s) h = ground (arith, starts_with-drop p s)

prefixed-suc : (k : ℕ) (c : Str) → prefixed k (model_dot ++ c) ≡ prefixed (suc k) c
prefixed-suc zero c = refl
prefixed-suc (suc k) c = ap (λ (s : Str). model_dot ++ s) (prefixed-suc k c)

add_candidate-All :
    (P : Str → Type 0) (cur : Str) (candidates : List Str)
    → P cur
    → All P candidates
    → All P (add_candidate cur candidates)
add_candidate-All P cur candidates p h =
    elim (Bool-cases (not (is_empty cur) && not (contains candidates cur))) [
      | inl new ↦ rw new (All-append P candidates (cur ∷ []) h (p, tt))
      | inr old ↦ rw old h
    ]

contains-snoc :
    (xs : List Str) (x c : Str) → contains (xs ++ (x ∷ [])) c ≡ (c == x || contains xs c)
contains-snoc [] x c = refl
contains-snoc (y ∷ xs) x c = ground (arith, contains-snoc xs x c)

contains-add_candidate :
    (cur c : Str) (candidates : List Str)
    → contains candidates c ≡ true
    → contains (add_candidate cur candidates) c ≡ true
contains-add_candidate cur c candidates h = ground (arith, contains-snoc candidates cur c)

contains-add_candidate_self :
    (cur : Str) (candidates : List Str)
    → cur ≢ []
    → contains (add_candidate cur candidates) cur ≡ true
contains-add_candidate_self cur candidates h = ground (arith, contains-snoc candidates cur cur)

candidates_from-IsFallback :
    (path : Str) (fuel k : ℕ) (cur : Str) (candidates : List Str)
    → path ≡ prefixed k cur
    → All (IsFallback path) candidates
    → All (IsFallback path) (candidates_from fuel cur candidates)
unfolding candidates_from
candidates_from-IsFallback path zero k cur candidates e h = h
candidates_from-IsFallback path (suc fuel) k cur candidates e h =
    elim (Bool-cases (starts_with model_dot cur)) [
      | inr done ↦ rw (done, candidates_from) h
      | inl more ↦
          let next : path ≡ prefixed (suc k) (drop 6 cur) =
            e
            ∙ ap (prefixed k) (starts_with-drop model_dot cur more)
            ∙ prefixed-suc k (drop 6 cur) in
          rw (more, candidates_from)
            (candidates_from-IsFallback path fuel (suc k) (drop 6 cur)
              (add_candidate (drop 6 cur) candidates) next
              (add_candidate-All (IsFallback path) (drop 6 cur) candidates (suc k, next) h))
    ]

-- Every candidate path is a fallback.
candidate_capture_paths-IsFallback :
    (path : Str) → All (IsFallback (strip path)) (candidate_capture_paths path)
unfolding candidate_capture_paths
candidate_capture_paths-IsFallback path = elim (Bool-cases (is_empty (strip path))) [
  | inl blank ↦ rw blank tt
  | inr text ↦ rw text (
      candidates_from-IsFallback (strip path) (length (strip path)) 0 (strip path) (strip path ∷ [])
        refl ((0, refl), tt))
]

contains-candidates_from :
    (fuel : ℕ) (cur c : Str) (candidates : List Str)
    → contains candidates c ≡ true
    → contains (candidates_from fuel cur candidates) c ≡ true
unfolding candidates_from
contains-candidates_from zero cur c candidates h = h
contains-candidates_from (suc fuel) cur c candidates h =
    elim (Bool-cases (starts_with model_dot cur)) [
      | inr done ↦ rw (done, candidates_from) h
      | inl more ↦
          rw (more, candidates_from)
            (contains-candidates_from fuel (drop 6 cur) c (add_candidate (drop 6 cur) candidates)
              (contains-add_candidate (drop 6 cur) c candidates h))
    ]

candidates_from_complete :
    (fuel k : ℕ) (c : Str) (candidates : List Str)
    → c ≢ []
    → suc k ≤ fuel
    → contains (candidates_from fuel (prefixed (suc k) c) candidates) c ≡ true
unfolding candidates_from starts_with
candidates_from_complete zero k c candidates ne h = absurd (omega arith)
candidates_from_complete (suc fuel) zero c candidates ne h =
    contains-candidates_from fuel c c (add_candidate c candidates)
      (contains-add_candidate_self c candidates ne)
candidates_from_complete (suc fuel) (suc k) c candidates ne h =
    candidates_from_complete fuel k c (add_candidate (prefixed (suc k) c) candidates) ne
      (omega arith)

length-prefixed : (k : ℕ) (c : Str) → k ≤ length (prefixed k c)
length-prefixed zero c = omega arith
length-prefixed (suc k) c = omega (arith, length-prefixed k c)

prefixed-ne-nil : (k : ℕ) (c : Str) → c ≢ [] → is_empty (prefixed k c) ≡ false
prefixed-ne-nil zero [] ne = absurd (ne refl)
prefixed-ne-nil zero (x ∷ c) ne = refl
prefixed-ne-nil (suc k) c ne = refl

-- Every fallback that is not empty is a candidate path.
contains-candidate_capture_paths :
    (path c : Str) (k : ℕ)
    → c ≢ []
    → strip path ≡ prefixed k c
    → contains (candidate_capture_paths path) c ≡ true
unfolding candidate_capture_paths
contains-candidate_capture_paths path c zero ne e =
    rw e (
      rw (prefixed-ne-nil 0 c ne) (contains-candidates_from (length c) c c (c ∷ []) (ground arith)))
contains-candidate_capture_paths path c (suc k) ne e = rw e (
    candidates_from_complete (length (prefixed (suc k) c)) k c (prefixed (suc k) c ∷ []) ne
      (length-prefixed (suc k) c))

All-contains : (P : Str → Type 0) (xs : List Str) (c : Str) → All P xs → contains xs c ≡ true → P c
All-contains P [] c h inside = absurd (cc)
All-contains P (x ∷ xs) c h inside = elim (Bool-cases (c == x)) [
  | inl here ↦ subst P (sym (eq_of_== c x here)) h.0
  | inr there ↦ All-contains P xs c h.1 (ground arith)
]

-- A non-empty text is a candidate path exactly if it is what is left of the stripped path behind
-- some number of leading `model.` prefixes, none included.
pub contains-candidate_capture_paths_iff :
    (path c : Str)
    → c ≢ []
    → (contains (candidate_capture_paths path) c ≡ true) ↔ IsFallback (strip path) c
contains-candidate_capture_paths_iff path c ne = (
  All-contains (IsFallback (strip path)) (candidate_capture_paths path) c
      (candidate_capture_paths-IsFallback path),
  λ fallback. contains-candidate_capture_paths path c fallback.0 ne fallback.1,
)
