-- ===== src/Producer/Prefill/Bounds.antt =====
-- The prefill rows of a step lie among its scheduled rows, each at most once.
use t_llm.Prelude.{
  ℕ, zero, suc, ◌+◌, ◌-◌, ◌≤◌, ◌≡◌, min, subst, true, Option, none, some, List, [], ◌∷◌, ◌++◌, map,
  arith, ok, ok-injective, >>=-eq-ok, list_eq, nat_eq,
}
use mathlib.Core.List.{map-append}
use t_llm.Prelude.Int.{ℤ}
use t_llm.Prelude.Str.{Str}
use t_llm.Common.State.{StepState, RuntimeState, resolve_prompt_sample_for_req_id}
use t_llm.Common.Snapshot.{item}
use t_llm.Producer.Prefill.{prepare_prefill_localization}
use t_llm.Producer.Prefill.Plan.{
  PlannedRow, request_rows, rows_of_index, rows_of_request, planned_rows, plan_of,
  prepare_prefill_localization-plans,
}

-- The numbers rise strictly, from `lo` on and below `hi`.
abbrev pub IsRising : (lo hi : ℕ) → List ℕ → Type 0
IsRising lo hi [] = lo ≤ hi
IsRising lo hi (x ∷ xs) = (lo ≤ x) × IsRising (suc x) hi xs

abbrev pub total : List ℕ → ℕ
total [] = 0
total (t ∷ ts) = t + total ts

IsRising-lower : (lo lo' hi : ℕ) (xs : List ℕ) → lo ≤ lo' → IsRising lo' hi xs → IsRising lo hi xs
IsRising-lower lo lo' hi [] h k = omega arith
IsRising-lower lo lo' hi (x ∷ xs) h k = (omega arith, k.1)

IsRising-append :
    (lo mid hi : ℕ) (xs ys : List ℕ)
    → IsRising lo mid xs
    → IsRising mid hi ys
    → IsRising lo hi (xs ++ ys)
IsRising-append lo mid hi [] ys h k = IsRising-lower lo mid hi ys h k
IsRising-append lo mid hi (x ∷ xs) ys h k = (h.0, IsRising-append (suc x) mid hi xs ys h.1 k)

abbrev rows : List PlannedRow → List ℕ
rows = map (λ x. x.row)

request_rows-IsRising :
    (row_base computed n hi : ℕ) (resolved : ℤ × ℤ)
    → row_base + n ≤ hi
    → IsRising row_base hi (rows (request_rows row_base computed n resolved))
request_rows-IsRising row_base computed zero hi resolved h = omega arith
request_rows-IsRising row_base computed (suc n) hi resolved h =
    (omega arith, request_rows-IsRising (suc row_base) (suc computed) n hi resolved (omega arith))

module _ (resolve : Str → ℤ × ℤ) where
  rows_of_index-IsRising :
      (row_base scheduled : ℕ) (req_id : Str) (step : StepState) (o : Option ℕ)
      (xs : List PlannedRow)
      → rows_of_index resolve row_base scheduled req_id step o ≡ ok xs
      → IsRising row_base (row_base + scheduled) (rows xs)
  rows_of_index-IsRising row_base scheduled req_id step none xs h =
      subst (λ (l : List PlannedRow). IsRising row_base (row_base + scheduled) (rows l))
        (ok-injective [] xs h) (omega arith)
  rows_of_index-IsRising row_base scheduled req_id step (some i) xs h =
      let (prompt_len, p, rest) = >>=-eq-ok (item step.num_prompt_tokens i) _ h in
      let (computed, q, e) = >>=-eq-ok (item step.num_computed_tokens i) _ rest in
      subst (λ (l : List PlannedRow). IsRising row_base (row_base + scheduled) (rows l))
        (ok-injective _ xs e)
        (request_rows-IsRising row_base computed (min scheduled (prompt_len - computed))
          (row_base + scheduled) (resolve req_id) (omega arith))

  rows_of_request-IsRising :
      (row_base scheduled : ℕ) (req_id : Str) (step : StepState) (xs : List PlannedRow)
      → rows_of_request resolve row_base scheduled req_id step ≡ ok xs
      → IsRising row_base (row_base + scheduled) (rows xs)
  rows_of_request-IsRising row_base zero req_id step xs h =
      subst (λ (l : List PlannedRow). IsRising row_base (row_base + 0) (rows l))
        (ok-injective [] xs h) (omega arith)
  rows_of_request-IsRising row_base (suc n) req_id step xs h =
      rows_of_index-IsRising row_base (suc n) req_id step _ xs h

  planned_rows-IsRising :
      (row_base : ℕ) (req_ids : List Str) (tokens : List ℕ) (step : StepState)
      (xs : List PlannedRow)
      → planned_rows resolve row_base req_ids tokens step ≡ ok xs
      → IsRising row_base (row_base + total tokens) (rows xs)
  planned_rows-IsRising row_base [] tokens step xs h =
      subst (λ (l : List PlannedRow). IsRising row_base (row_base + total tokens) (rows l))
        (ok-injective [] xs h) (omega arith)
  planned_rows-IsRising row_base (r ∷ rs) [] step xs h =
      subst (λ (l : List PlannedRow). IsRising row_base (row_base + 0) (rows l))
        (ok-injective [] xs h) (omega arith)
  planned_rows-IsRising row_base (r ∷ rs) (t ∷ ts) step xs h =
      let (here, eh, rest) = >>=-eq-ok (rows_of_request resolve row_base t r step) _ h in
      let (later, el, both) = >>=-eq-ok (planned_rows resolve (row_base + t) rs ts step) _ rest in
      let behind = planned_rows-IsRising (row_base + t) rs ts step later el in
      let regroup : row_base + t + total ts ≡ row_base + total (t ∷ ts) = omega arith in
      subst (λ (l : List PlannedRow). IsRising row_base (row_base + total (t ∷ ts)) (rows l))
        (ok-injective (here ++ later) xs both)
        (rw map-append (
          IsRising-append row_base (row_base + t) (row_base + total (t ∷ ts)) (rows here)
            (rows later) (rows_of_request-IsRising row_base t r step here eh)
            (subst (λ (n : ℕ). IsRising (row_base + t) n (rows later)) regroup behind)))

-- With the prefill producer enabled, and where the rows of the step's scheduled tokens can be
-- listed without an error, the prefill rows that the preparation stores rise strictly and lie
-- below the number of scheduled tokens.
pub prepare_prefill_localization-IsRising :
    {Row : Type 0} (state : RuntimeState Row) (tokens : List ℕ) (xs : List PlannedRow)
    → state.config.enable_prefill_producer ≡ true
    → state.step.num_scheduled_tokens_np ≡ some tokens
    → plan_of state tokens ≡ ok xs
    → IsRising 0 (total tokens) (prepare_prefill_localization state).1.step.prefill_row_indices
prepare_prefill_localization-IsRising {Row} state tokens xs enabled scheduled h =
    let (after, done, count, indices, prompts, samples, offsets) =
      prepare_prefill_localization-plans state tokens xs enabled scheduled h in
    let rising =
      planned_rows-IsRising (resolve_prompt_sample_for_req_id state.reqid_to_promptidx) 0
        state.step.req_ids tokens state.step xs h in
    rw done (rw indices (subst (λ (n : ℕ). IsRising 0 n (rows xs)) (omega arith) rising))
