-- ===== src/Prelude/Outcome.antt =====
-- The outcome of Python code that may raise, and of code that also mutates a state: what was
-- written before a raise stays written, so the state comes back beside the exception.
use mathlib.Core.Path.{◌≡◌, refl, ap}
use mathlib.Core.Logic.{◌⊎◌, inl, inr}
use mathlib.Core.Bool.{Bool, true, false}

-- What a `RuntimeError` of the program complains of, one constructor for each `raise` statement.
-- The texts of the messages are left out.
pub data Reason : Type 0 where
  empty_component missing_attribute near_rest missing_bracket invalid_index : Reason
  empty_path attribute_not_found cannot_index no_layer_container : Reason
  empty_layer_path index_out_of_range path_invalid not_a_module : Reason
  logits_out_of_range rows_exceed_scratch : Reason
  prompt_mismatch sample_mismatch buffer_mismatch stash_mismatch : Reason
  metadata_inconsistent row_cap_exceeded missing_entry unsupported_lease : Reason
  unsupported_locator path_not_resolved : Reason
  scratch_missing scratch_exceeded compact_scratch_exceeded : Reason

pub data Exception : Type 0 where
  runtime_error : Reason → Exception
  value_error index_error key_error attribute_error assertion_error : Exception

pub data Result {ℓ} (A : Type ℓ) : Type ℓ where
  ok : (value : A) → Result A
  err : (raised : Exception) → Result A

abbrev pub is_ok {ℓ} : {A : Type ℓ} → Result A → Bool
is_ok (ok a) = true
is_ok (err e) = false

-- Python goes on behind a statement unless the statement raised.
infixl 5 ◌>>=◌
abbrev pub ◌>>=◌ {ι κ} :
    {Value : Type ι} {Next : Type κ} → Result Value → (Value → Result Next) → Result Next
err raised >>= next = err raised
ok value >>= next = next value

infixl 5 ◌>>◌
abbrev pub ◌>>◌ {κ} : {Next : Type κ} → Result (Unit {0}) → Result Next → Result Next
first >> second = first >>= λ done. second

-- `if bad: raise e`
abbrev pub raise_if : Bool → Exception → Result (Unit {0})
raise_if true e = err e
raise_if false e = ok tt

-- What is behind a statement is reached with the statement's value.
pub >>=-eq-ok {ι κ} :
    {Value : Type ι} {Next : Type κ} (first : Result Value) (next : Value → Result Next)
    {last : Next}
    → (first >>= next) ≡ ok last
    → (value : Value) × (first ≡ ok value) × (next value ≡ ok last)
>>=-eq-ok (err raised) next reached = cc
>>=-eq-ok (ok value) next reached = (value, refl, reached)

pub ok-injective {ℓ} : {A : Type ℓ} (a b : A) → ok a ≡ ok b → a ≡ b
ok-injective a b h = cc

pub bind_of_ok {ι κ} :
    {Value : Type ι} {Next : Type κ} (first : Result Value) (next : Value → Result Next)
    (value : Value)
    → first ≡ ok value
    → (first >>= next) ≡ next value
bind_of_ok (err raised) next value same = cc
bind_of_ok (ok other) next value same = ap next (ok-injective other value same)

pub Result-cases {ℓ} :
    {A : Type ℓ} (m : Result A) → ((a : A) × (m ≡ ok a)) ⊎ ((e : Exception) × (m ≡ err e))
Result-cases (ok a) = inl (a, refl)
Result-cases (err e) = inr (e, refl)
