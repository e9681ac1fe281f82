-- ===== src/Prelude/Dict/Order.antt =====
-- Laws of `dict` and of lists without repetition: items that stand behind others.
use mathlib.Core.Path.{◌≡◌, refl, ap}
use mathlib.Core.Bool.{true, false, ◌||◌}
use mathlib.Core.Option.{none}
use mathlib.Core.List.{List, [], ◌∷◌, ◌++◌}
use native.Mathlib.Omega.{arith}
use t_llm.Prelude.Equality.{Eq, ◌==◌, contains, eq_of_==}
use t_llm.Prelude.Lists.{All, All-map}
use t_llm.Prelude.Dict.{Dict, keys, lookup, erase}
use t_llm.Prelude.Dict.Laws.{remove, NoDup}

module _ {ℓ κ} {K : Type ℓ} {V : Type κ} ⦃e : Eq K⦄ where
  pub keys-append : (c d : Dict K V) → keys (c ++ d) ≡ keys c ++ keys d
  keys-append [] d = refl
  keys-append ((k, v) ∷ c) d = ap (◌∷◌ k) (keys-append c d)

  pub lookup-erase_ne :
      (j k : K) (d : Dict K V) → (k == j) ≡ false → lookup j (erase k d) ≡ lookup j d
  unfolding lookup erase
  lookup-erase_ne j k [] h = refl
  lookup-erase_ne j k ((i, w) ∷ d) h = ground (arith, lookup-erase_ne j k d h, eq_of_== i k)

  lookup_of_missing : (k : K) (d : Dict K V) → contains (keys d) k ≡ false → lookup k d ≡ none
  unfolding lookup
  lookup_of_missing k [] h = refl
  lookup_of_missing k ((j, w) ∷ d) h = ground (arith, lookup_of_missing k d, eq_of_== j k)

  pub lookup-erase_self : (k : K) (d : Dict K V) → NoDup (keys d) → lookup k (erase k d) ≡ none
  unfolding lookup erase
  lookup-erase_self k [] h = refl
  lookup-erase_self k ((j, w) ∷ d) h =
      ground (arith, lookup_of_missing k d, lookup-erase_self k d h.1, eq_of_== j k, h.0)

  -- An item behind others is erased, if none of them has its key.
  pub erase-append :
      (c d : Dict K V) (k : K) (v : V)
      → contains (keys c) k ≡ false
      → erase k (c ++ ((k, v) ∷ d)) ≡ c ++ d
  unfolding erase
  erase-append [] d k v h = ground arith
  erase-append ((j, w) ∷ c) d k v h =
      ground (arith, erase-append c d k v, eq_of_== j k, eq_of_== k j)

module _ {ℓ} {A : Type ℓ} ⦃e : Eq A⦄ where
  pub contains-append :
      (xs ys : List A) (x : A) → contains (xs ++ ys) x ≡ (contains xs x || contains ys x)
  contains-append [] ys x = refl
  contains-append (z ∷ xs) ys x = ground (arith, contains-append xs ys x)

  pub NoDup-middle :
      (xs ys : List A) (y : A)
      → NoDup (xs ++ (y ∷ ys))
      → (contains xs y ≡ false) × (contains ys y ≡ false)
  NoDup-middle [] ys y h = (refl, h.0)
  NoDup-middle (x ∷ xs) ys y h =
      let inner = NoDup-middle xs ys y h.1 in
      (
        ground (arith, inner.0, contains-append xs (y ∷ ys) x, h.0, eq_of_== y x, eq_of_== x y),
        inner.1,
      )

  pub NoDup-drop_middle : (xs ys : List A) (y : A) → NoDup (xs ++ (y ∷ ys)) → NoDup (xs ++ ys)
  NoDup-drop_middle [] ys y h = h.1
  NoDup-drop_middle (x ∷ xs) ys y h = (
    ground (arith, contains-append xs (y ∷ ys) x, contains-append xs ys x, h.0),
    NoDup-drop_middle xs ys y h.1,
  )

module _ {ℓ} {A : Type ℓ} ⦃e : Eq A⦄ where
  pub contains-remove_ne :
      (xs : List A) (x y : A)
      → (x == y) ≡ false
      → contains xs y ≡ true
      → contains (remove x xs) y ≡ true
  unfolding remove
  contains-remove_ne [] x y h k = absurd (cc)
  contains-remove_ne (z ∷ xs) x y h k =
      ground (arith, contains-remove_ne xs x y h, eq_of_== z x, eq_of_== y z, eq_of_== x y)

  pub known-remove :
      (xs ys : List A) (x : A)
      → contains ys x ≡ false
      → All (λ y. contains xs y ≡ true) ys
      → All (λ y. contains (remove x xs) y ≡ true) ys
  known-remove xs [] x h k = tt
  known-remove xs (y ∷ ys) x h k =
      (contains-remove_ne xs x y (ground arith) k.0, known-remove xs ys x (ground arith) k.1)

  pub known_self : (xs : List A) → All (λ x. contains xs x ≡ true) xs
  known_self [] = tt
  known_self (x ∷ xs) =
      (ground arith, All-map xs (λ y inside. ground (arith, inside)) (known_self xs))
