-- ===== src/Tests/Tensors.antt =====
-- Tensors as lists: the assumptions on PyTorch's indexing can be met.
use t_llm.Prelude.{
  ℕ, ◌≡◌, refl, true, Option, none, some, List, [], ◌∷◌, arith, if◌then◌else◌, take, drop, All,
  All-map, contains,
}
use t_llm.Prelude.Int.{ℤ, pos, ◌≤ℤ◌, ltb_ℤ, int_eq}
use t_llm.Prelude.Torch.{Indexing, Extremes, Masking, zeroed, filled, gather?}

abbrev pub found_rows : {A : Type 0} → Option (List A) → List A
found_rows none = []
found_rows (some ys) = ys

pub select_lem :
    {A : Type 0} (xs : List A) (is : List ℤ) (ys : List A)
    → gather? xs is ≡ some ys
    → found_rows (gather? xs is) ≡ ys
select_lem xs is ys h = rw h

abbrev pub list_indexing : {A : Type 0} → Indexing A
list_indexing {A} = record {
  narrow = λ xs start n. take n (drop start xs);
  index_select = λ xs is. found_rows (gather? xs is);
  narrow_lem = λ xs start n h. refl;
  index_select_lem = select_lem;
}

abbrev pub least : List ℤ → ℤ
least [] = pos 0
least (x ∷ []) = x
least (x ∷ y ∷ xs) = let rest = least (y ∷ xs) in if ltb_ℤ x rest then x else rest

abbrev pub greatest : List ℤ → ℤ
greatest [] = pos 0
greatest (x ∷ []) = x
greatest (x ∷ y ∷ xs) = let rest = greatest (y ∷ xs) in if ltb_ℤ rest x then x else rest

pub least_lower : (x : ℤ) (xs : List ℤ) → All (λ y. least (x ∷ xs) ≤ℤ y) (x ∷ xs)
least_lower x [] = (omega arith, tt)
least_lower x (y ∷ xs) =
    (ground arith, All-map (y ∷ xs) (λ z h. below x (least (y ∷ xs)) z h) (least_lower y xs))
  where
    below : (a m z : ℤ) → m ≤ℤ z → (if ltb_ℤ a m then a else m) ≤ℤ z
    below a m z h = ground arith

pub greatest_upper : (x : ℤ) (xs : List ℤ) → All (λ y. y ≤ℤ greatest (x ∷ xs)) (x ∷ xs)
greatest_upper x [] = (omega arith, tt)
greatest_upper x (y ∷ xs) =
    (ground arith, All-map (y ∷ xs) (λ z h. above x (greatest (y ∷ xs)) z h) (greatest_upper y xs))
  where
    above : (a m z : ℤ) → z ≤ℤ m → z ≤ℤ (if ltb_ℤ m a then a else m)
    above a m z h = ground arith

pub least_in : (x : ℤ) (xs : List ℤ) → contains (x ∷ xs) (least (x ∷ xs)) ≡ true
least_in x [] = ground arith
least_in x (y ∷ xs) = ground (arith, least_in y xs)

pub greatest_in : (x : ℤ) (xs : List ℤ) → contains (x ∷ xs) (greatest (x ∷ xs)) ≡ true
greatest_in x [] = ground arith
greatest_in x (y ∷ xs) = ground (arith, greatest_in y xs)

abbrev pub list_extremes : Extremes
list_extremes = record {
  min_of = least;
  max_of = greatest;
  min_lower = least_lower;
  max_upper = greatest_upper;
  min_in = least_in;
  max_in = greatest_in;
}

-- Rows that are numbers, times 0 or 1.
abbrev pub number_masking : Masking ℕ
number_masking = record { mul = λ r m. elim m [ zeroed ↦ 0 | filled ↦ r ]; mul-filled = λ r. refl }
