-- ===== src/Prelude/Dict/Laws.antt =====
-- Laws of `dict`: which keys it has after a change, and properties of all its items.
use mathlib.Core.Path.{◌≡◌, refl, sym, subst}
use mathlib.Core.Logic.{inl, inr}
use mathlib.Core.Bool.{true, false, ◌||◌}
use mathlib.Core.Option.{some}
use mathlib.Core.List.{List, [], ◌∷◌, ◌++◌}
use native.Mathlib.Omega.{arith}
use t_llm.Prelude.Tests.{if◌then◌else◌, Bool-cases}
use t_llm.Prelude.Equality.{Eq, ◌==◌, contains, eq_of_==}
use t_llm.Prelude.Lists.{All}
use t_llm.Prelude.Dict.{Dict, keys, lookup, insert, erase}

module _ {ℓ} {A : Type ℓ} ⦃e : Eq A⦄ where
  unfoldable pub remove : A → List A → List A
  remove a [] = []
  remove a (x ∷ xs) = let rest = remove a xs in if x == a then xs else x ∷ rest

  abbrev pub NoDup : List A → Type 0
  NoDup [] = Unit
  NoDup (x ∷ xs) = (contains xs x ≡ false) × NoDup xs

  pub contains-append_one :
      (xs : List A) (x y : A) → contains (xs ++ (y ∷ [])) x ≡ (contains xs x || x == y)
  contains-append_one [] x y = ground arith
  contains-append_one (z ∷ xs) x y = ground (arith, contains-append_one xs x y)

  pub contains-remove :
      (xs : List A) (x y : A) → contains xs y ≡ false → contains (remove x xs) y ≡ false
  unfolding remove
  contains-remove [] x y h = refl
  contains-remove (z ∷ xs) x y h = ground (arith, contains-remove xs x y)

  pub NoDup-remove : (xs : List A) (x : A) → NoDup xs → NoDup (remove x xs)
  unfolding remove
  NoDup-remove [] x h = tt
  NoDup-remove (z ∷ xs) x h = elim (Bool-cases (z == x)) [
    | inl same ↦ rw same h.1
    | inr other ↦ rw other (contains-remove xs x z h.0, NoDup-remove xs x h.1)
  ]

  pub NoDup-append_one :
      (xs : List A) (x : A) → contains xs x ≡ false → NoDup xs → NoDup (xs ++ (x ∷ []))
  NoDup-append_one [] x h nodup = (refl, tt)
  NoDup-append_one (z ∷ xs) x h nodup =
      (ground (arith, contains-append_one xs z x), NoDup-append_one xs x (ground arith) nodup.1)

module _ {ℓ κ} {K : Type ℓ} {V : Type κ} ⦃e : Eq K⦄ where
  pub lookup-contains :
      (k : K) (d : Dict K V) → contains (keys d) k ≡ true → (v : V) × (lookup k d ≡ some v)
  unfolding lookup
  lookup-contains k [] h = absurd (cc)
  lookup-contains k ((j, w) ∷ d) h = elim (Bool-cases (j == k)) [
    | inl same ↦ (w, ground arith)
    | inr other ↦
        let rest = lookup-contains k d (ground (arith, eq_of_== k j)) in
        (rest.0, ground (arith, rest.1))
  ]

  pub contains-lookup :
      (k : K) (d : Dict K V) (v : V) → lookup k d ≡ some v → contains (keys d) k ≡ true
  unfolding lookup
  contains-lookup k [] v h = absurd (cc)
  contains-lookup k ((j, w) ∷ d) v h = ground (arith, contains-lookup k d v, eq_of_== j k)

  pub keys-insert :
      (k : K) (v : V) (d : Dict K V)
      → keys (insert k v d) ≡ (if contains (keys d) k then keys d else keys d ++ (k ∷ []))
  unfolding insert
  keys-insert k v [] = refl
  keys-insert k v ((j, w) ∷ d) = ground (arith, keys-insert k v d, eq_of_== j k, eq_of_== k j)

  pub keys-erase : (k : K) (d : Dict K V) → keys (erase k d) ≡ remove k (keys d)
  unfolding erase remove
  keys-erase k [] = refl
  keys-erase k ((j, w) ∷ d) = ground (arith, keys-erase k d)

  pub All-insert {μ} :
      (P : K × V → Type μ) (k : K) (v : V) (d : Dict K V)
      → All P d
      → P (k, v)
      → All P (insert k v d)
  unfolding insert
  All-insert P k v [] h p = (p, tt)
  All-insert P k v ((j, w) ∷ d) h p = elim (Bool-cases (j == k)) [
    | inl same ↦ rw same (subst (λ x. P (x, v)) (sym (eq_of_== j k same)) p, h.1)
    | inr other ↦ rw other (h.0, All-insert P k v d h.1 p)
  ]

  pub All-erase {μ} : (P : K × V → Type μ) (k : K) (d : Dict K V) → All P d → All P (erase k d)
  unfolding erase
  All-erase P k [] h = tt
  All-erase P k ((j, w) ∷ d) h = elim (Bool-cases (j == k)) [
    | inl same ↦ rw same h.1
    | inr other ↦ rw other (h.0, All-erase P k d h.1)
  ]

  pub All-lookup {μ} :
      (P : K × V → Type μ) (k : K) (v : V) (d : Dict K V) → All P d → lookup k d ≡ some v → P (k, v)
  unfolding lookup
  All-lookup P k v [] h found = absurd (cc)
  All-lookup P k v ((j, w) ∷ d) h found = elim (Bool-cases (j == k)) [
    | inl same ↦
        let value : w ≡ v = ground (arith, found) in
        subst (λ x. P (x, v)) (eq_of_== j k same) (subst (λ x. P (j, x)) value h.0)
    | inr other ↦ All-lookup P k v d h.1 (ground (arith, found))
  ]

  pub All-erase-insert {μ} :
      (P : K × V → Type μ) (k : K) (v : V) (d : Dict K V) → All P d → All P (erase k (insert k v d))
  unfolding insert erase
  All-erase-insert P k v [] h = let self : (k == k) ≡ true = ground arith in rw (self, All) tt
  All-erase-insert P k v ((j, w) ∷ d) h = elim (Bool-cases (j == k)) [
    | inl same ↦ rw (same, same) h.1
    | inr other ↦ rw (other, other) (h.0, All-erase-insert P k v d h.1)
  ]
