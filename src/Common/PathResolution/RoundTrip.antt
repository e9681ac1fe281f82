-- ===== src/Common/PathResolution/RoundTrip.antt =====
-- `parse_component` against the way a component is written: an attribute, then integers in brackets.
use t_llm.Prelude.{
  ℕ, zero, suc, ◌≡◌, ◌≢◌, refl, ◌∙◌, Bool, true, not, none, some, List, [], ◌∷◌, ◌++◌, map,
  append_assoc, append-nil, arith, if◌then◌else◌, inl, inr, Bool-cases, eqb, drop-length-append,
  list_eq, nat_eq, ok, err, ◌>>=◌, value_error, replicate,
}
use t_llm.Prelude.Int.{ℤ, pos, neg}
use t_llm.Prelude.Str.{Str, Every, is_digit, isdigit, strip, lstrip, int_of, digits_value, break_at}
use t_llm.Prelude.Str.Laws.{
  is_solid, Every-append, Every-map, all_of_Every, strip_solid, digit-is_solid,
}
use t_llm.Common.PathResolution.{
  outside, inside, indices_of, parse_index, attribute_of, parse_component,
}

-- An integer as the program's users write it: perhaps a dash, then at least one digit.
pub record IndexText : Type 0 where
  pub negative : Bool
  pub first : ℕ
  pub more : Str

abbrev pub IsIndex : IndexText → Type 0
IsIndex x = (is_digit x.first ≡ true) × Every is_digit x.more

abbrev pub text_of : IndexText → Str
text_of x = if x.negative then b'-' ∷ x.first ∷ x.more else x.first ∷ x.more

abbrev pub value_of : IndexText → ℤ
value_of x =
    if x.negative
    then neg (pos (digits_value 0 (x.first ∷ x.more)))
    else pos (digits_value 0 (x.first ∷ x.more))

abbrev pub AllIndices : List IndexText → Type 0
AllIndices [] = Unit
AllIndices (x ∷ xs) = IsIndex x × AllIndices xs

abbrev pub render : List IndexText → Str
render [] = []
render (x ∷ xs) = b'[' ∷ (text_of x ++ (b']' ∷ render xs))

abbrev is_inner : ℕ → Bool
is_inner c = not (eqb c b']')

abbrev pub is_plain : ℕ → Bool
is_plain c = not (eqb c b'[')

-- Inside a bracket the text up to the next `]` is collected.
indices_of-inside :
    (text t rest : Str)
    → Every is_inner t
    → indices_of (inside text) (t ++ (b']' ∷ rest)) ≡ (
        parse_index (strip (text ++ t)) >>= λ idx.
        indices_of outside rest >>= λ indices. ok (idx ∷ indices))
unfolding indices_of
indices_of-inside text [] rest h = rw append-nil refl
indices_of-inside text (c ∷ t) rest h =
    ground (arith, indices_of-inside (text ++ (c ∷ [])) t rest, append_assoc text (c ∷ []) t)

digit-is_inner : (c : ℕ) → is_digit c ≡ true → is_inner c ≡ true
digit-is_inner c h = ground arith

text-is_inner : (x : IndexText) → IsIndex x → Every is_inner (text_of x)
text-is_inner x h = elim (Bool-cases x.negative) [
  | inl dash ↦ rw dash (refl, (digit-is_inner x.first h.0, Every-map x.more digit-is_inner h.1))
  | inr bare ↦ rw bare (digit-is_inner x.first h.0, Every-map x.more digit-is_inner h.1)
]

text-is_solid : (x : IndexText) → IsIndex x → Every is_solid (text_of x)
text-is_solid x h = elim (Bool-cases x.negative) [
  | inl dash ↦ rw dash (refl, (digit-is_solid x.first h.0, Every-map x.more digit-is_solid h.1))
  | inr bare ↦ rw bare (digit-is_solid x.first h.0, Every-map x.more digit-is_solid h.1)
]

parse_index-text : (x : IndexText) → IsIndex x → parse_index (text_of x) ≡ ok (value_of x)
unfolding parse_index int_of lstrip isdigit
parse_index-text x h = ground (arith, all_of_Every is_digit x.more)

indices_of-render :
    (xs : List IndexText) → AllIndices xs → indices_of outside (render xs) ≡ ok (map value_of xs)
unfolding indices_of
indices_of-render [] h = refl
indices_of-render (x ∷ xs) h =
    indices_of-inside [] (text_of x) (render xs) (text-is_inner x h.0)
    ∙ rw (strip_solid (text_of x) (text-is_solid x h.0))
        (rw (parse_index-text x h.0) (rw (indices_of-render xs h.1) refl))

break_at_plain : (attr : Str) → Every is_plain attr → break_at b'[' attr ≡ none
unfolding break_at
break_at_plain [] h = refl
break_at_plain (c ∷ attr) h = ground (arith, break_at_plain attr)

break_at_bracket :
    (attr rest : Str)
    → Every is_plain attr
    → break_at b'[' (attr ++ (b'[' ∷ rest)) ≡ some (attr, rest)
unfolding break_at
break_at_bracket [] rest h = refl
break_at_bracket (c ∷ attr) rest h = ground (arith, break_at_bracket attr rest)

attribute_of_bracket :
    (attr rest : Str) → Every is_plain attr → attribute_of (attr ++ (b'[' ∷ rest)) ≡ attr
unfolding attribute_of
attribute_of_bracket attr rest h = rw (break_at_bracket attr rest h, attribute_of)

attribute_of-render :
    (attr : Str) (xs : List IndexText)
    → Every is_plain attr
    → attribute_of (attr ++ render xs) ≡ attr
unfolding attribute_of
attribute_of-render attr [] h = rw append-nil (rw (break_at_plain attr h, attribute_of))
attribute_of-render attr (x ∷ xs) h = attribute_of_bracket attr _ h

-- Behind a written attribute the loop alone decides.
parse_component-append :
    (attr rest : Str)
    → attr ≢ []
    → attribute_of (attr ++ rest) ≡ attr
    → parse_component (attr ++ rest) ≡ (indices_of outside rest >>= λ indices. ok (attr, indices))
unfolding parse_component
parse_component-append [] rest h e = absurd (h refl)
parse_component-append (c ∷ attr) rest h e = rw e (rw (drop-length-append (c ∷ attr) rest))

-- A non-empty attribute name with no opening bracket, followed by any number of bracketed
-- integers, each perhaps a dash and at least one digit, parses to the name and the values of the
-- integers in order.
pub parse_component-render :
    (attr : Str) (xs : List IndexText)
    → attr ≢ []
    → Every is_plain attr
    → AllIndices xs
    → parse_component (attr ++ render xs) ≡ ok (attr, map value_of xs)
parse_component-render attr xs h p v =
    parse_component-append attr (render xs) h (attribute_of-render attr xs p)
    ∙ rw (indices_of-render xs v)

-- Two or more dashes and then digits.
abbrev pub dashed : ℕ → Str → Str
dashed n digits = b'-' ∷ b'-' ∷ (replicate n b'-' ++ digits)

lstrip-dashes :
    (n : ℕ) (c : ℕ) (s : Str)
    → is_digit c ≡ true
    → lstrip b'-' (replicate n b'-' ++ (c ∷ s)) ≡ c ∷ s
unfolding lstrip
lstrip-dashes zero c s h = ground arith
lstrip-dashes (suc n) c s h = lstrip-dashes n c s h

parse_index-dashed :
    (n c : ℕ) (s : Str)
    → is_digit c ≡ true
    → Every is_digit s
    → parse_index (dashed n (c ∷ s)) ≡ err value_error
unfolding parse_index int_of isdigit lstrip
parse_index-dashed n c s h k =
    rw (lstrip-dashes n c s h) (ground (arith, all_of_Every is_digit s k))

Every-replicate : (p : ℕ → Bool) (n c : ℕ) → p c ≡ true → Every p (replicate n c)
Every-replicate p zero c h = tt
Every-replicate p (suc n) c h = (h, Every-replicate p n c h)

dashed-Every :
    (p : ℕ → Bool) (n c : ℕ) (s : Str)
    → ((d : ℕ) → is_digit d ≡ true → p d ≡ true)
    → p b'-' ≡ true
    → is_digit c ≡ true
    → Every is_digit s
    → Every p (dashed n (c ∷ s))
dashed-Every p n c s f d h k = (
  d,
  (
    d,
    Every-append p (replicate n b'-') (c ∷ s) (Every-replicate p n b'-' d) (f c h, Every-map s f k),
  ),
)

-- Behind a non-empty attribute name with no opening bracket, an index of two or more dashes and
-- at least one digit ends in the ValueError of `int`, whatever follows it.
pub parse_component-dashed :
    (attr : Str) (n c : ℕ) (s rest : Str)
    → attr ≢ []
    → Every is_plain attr
    → is_digit c ≡ true
    → Every is_digit s
    → parse_component (attr ++ (b'[' ∷ (dashed n (c ∷ s) ++ (b']' ∷ rest)))) ≡ err value_error
unfolding indices_of
parse_component-dashed attr n c s rest h p d k =
    parse_component-append attr _ h (attribute_of_bracket attr _ p)
    ∙ rw
        (indices_of-inside [] (dashed n (c ∷ s)) rest
          (dashed-Every is_inner n c s digit-is_inner refl d k))
        (rw (strip_solid (dashed n (c ∷ s)) (dashed-Every is_solid n c s digit-is_solid refl d k))
          (rw (parse_index-dashed n c s d k)))
