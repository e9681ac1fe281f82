-- ===== src/Producer/Prefill/Plan.antt =====
-- The plan of the prefill rows against a description without a state: the rows of each request in
-- request order, as one list.
use mathlib.Core.List.{map-append}
use t_llm.Prelude.{
  ℕ, zero, suc, ◌+◌, ◌-◌, ◌≡◌, min, refl, ap, ◌∙◌, inl, inr, true, Option, none, some, List, [],
  ◌∷◌, ◌++◌, map, append_assoc, append-nil, length, length-map, Result, ok, Result-cases,
  ok-injective, ◌>>=◌, >>=-eq-ok, bind_of_ok, list_eq, nat_eq,
}
use t_llm.Prelude.Int.{ℤ}
use t_llm.Prelude.Dict.{lookup}
use t_llm.Prelude.Str.{Str}
use t_llm.Common.State.{StepState, RuntimeState, resolve_prompt_sample_for_req_id}
use t_llm.Common.Snapshot.{item}
use t_llm.Producer.Prefill.{
  clear_prefill, append_rows, plan_request, plan_scheduled, plan_requests, count_planned,
  plan_prefill, prepare_prefill_localization,
}

-- One row of the plan.
pub record PlannedRow : Type 0 where
  pub row : ℕ
  pub prompt : ℤ
  pub sample : ℤ
  pub offset : ℕ

-- `n` consecutive rows and token offsets of one request.
abbrev pub request_rows : (row_base computed n : ℕ) → ℤ × ℤ → List PlannedRow
request_rows row_base computed zero resolved = []
request_rows row_base computed (suc n) resolved =
    record { row = row_base; prompt = resolved.0; sample = resolved.1; offset = computed }
    ∷ request_rows (suc row_base) (suc computed) n resolved

abbrev pub append_planned : List PlannedRow → StepState → StepState
append_planned xs step = record step {
  prefill_row_indices = step.prefill_row_indices ++ map (λ x. x.row) xs;
  prefill_prompt_idxs = step.prefill_prompt_idxs ++ map (λ x. x.prompt) xs;
  prefill_sample_idxs = step.prefill_sample_idxs ++ map (λ x. x.sample) xs;
  prefill_token_offsets = step.prefill_token_offsets ++ map (λ x. x.offset) xs;
}

append_planned-append :
    (xs ys : List PlannedRow) (step : StepState)
    → append_planned ys (append_planned xs step) ≡ append_planned (xs ++ ys) step
append_planned-append xs ys step = simp (map-append, append_assoc)

append_planned-nil : (step : StepState) → step ≡ append_planned [] step
append_planned-nil step = simp (append-nil)

append_rows-eq-append_planned :
    (row_base computed n : ℕ) (resolved : ℤ × ℤ) (step : StepState)
    → append_rows row_base computed n resolved step
      ≡ append_planned (request_rows row_base computed n resolved) step
unfolding append_rows
append_rows-eq-append_planned row_base computed zero resolved step = append_planned-nil step
append_rows-eq-append_planned row_base computed (suc n) resolved step =
    append_rows-eq-append_planned (suc row_base) (suc computed) n resolved _
    ∙ append_planned-append (request_rows row_base computed 1 resolved)
        (request_rows (suc row_base) (suc computed) n resolved) step

-- The token arrays and the index of requests, which the plan reads and does not change.
module _ (resolve : Str → ℤ × ℤ) where
  -- The rows of one request: those of its scheduled tokens that are still prompt tokens.
  abbrev pub rows_of_index :
      (row_base scheduled : ℕ) → Str → StepState → Option ℕ → Result (List PlannedRow)
  rows_of_index row_base scheduled req_id step none = ok []
  rows_of_index row_base scheduled req_id step (some req_idx) = do
    prompt_len ← item step.num_prompt_tokens req_idx
    computed ← item step.num_computed_tokens req_idx
    ok (request_rows row_base computed (min scheduled (prompt_len - computed)) (resolve req_id))

  abbrev pub rows_of_request : (row_base scheduled : ℕ) → Str → StepState → Result (List PlannedRow)
  rows_of_request row_base zero req_id step = ok []
  rows_of_request row_base (suc n) req_id step =
      rows_of_index row_base (suc n) req_id step (lookup req_id step.req_id_to_index)

  abbrev pub planned_rows :
      (row_base : ℕ) → List Str → List ℕ → StepState → Result (List PlannedRow)
  planned_rows row_base (req_id ∷ req_ids) (scheduled ∷ tokens) step = do
    here ← rows_of_request row_base scheduled req_id step
    later ← planned_rows (row_base + scheduled) req_ids tokens step
    ok (here ++ later)
  planned_rows row_base _ _ step = ok []

  -- The plan reads none of the prefill outputs.
  planned_rows-outputs :
      (row_base : ℕ) (req_ids : List Str) (tokens : List ℕ) (step : StepState) (count : ℕ)
      (rows : List ℕ) (prompts samples : List ℤ) (offsets : List ℕ)
      → planned_rows row_base req_ids tokens (record step {
        prefill_count = count;
        prefill_row_indices = rows;
        prefill_prompt_idxs = prompts;
        prefill_sample_idxs = samples;
        prefill_token_offsets = offsets;
      })
        ≡ planned_rows row_base req_ids tokens step
  planned_rows-outputs row_base [] tokens step c a p q o = refl
  planned_rows-outputs row_base (r ∷ rs) [] step c a p q o = refl
  planned_rows-outputs row_base (r ∷ rs) (zero ∷ ts) step c a p q o =
      rw (planned_rows-outputs (row_base + 0) rs ts step c a p q o)
  planned_rows-outputs row_base (r ∷ rs) (suc t ∷ ts) step c a p q o =
      rw (planned_rows-outputs (row_base + suc t) rs ts step c a p q o)

  plan_index :
      (row_base scheduled : ℕ) (req_id : Str) (o : Option ℕ) (step : StepState)
      → plan_request resolve row_base scheduled req_id o step
        ≡ (rows_of_index row_base scheduled req_id step o >>= λ xs. ok (append_planned xs step))
  unfolding plan_request
  plan_index row_base scheduled req_id none step = ap ok (append_planned-nil step)
  plan_index row_base scheduled req_id (some i) step =
      elim (Result-cases (item step.num_prompt_tokens i)) [
        | inr (e, p) ↦ rw p refl
        | inl (prompt_len, p) ↦ elim (Result-cases (item step.num_computed_tokens i)) [
          | inr (e, q) ↦ rw p (rw q refl)
          | inl (computed, q) ↦ rw p (
              rw q (
                ap ok (
                  append_rows-eq-append_planned row_base computed
                    (min scheduled (prompt_len - computed)) (resolve req_id) step)))
        ]
      ]

  plan_scheduled_lem :
      (row_base scheduled : ℕ) (req_id : Str) (step : StepState)
      → plan_scheduled resolve row_base scheduled req_id step
        ≡ (rows_of_request row_base scheduled req_id step >>= λ xs. ok (append_planned xs step))
  unfolding plan_scheduled
  plan_scheduled_lem row_base zero req_id step = ap ok (append_planned-nil step)
  plan_scheduled_lem row_base (suc n) req_id step = plan_index row_base (suc n) req_id _ step

  no_more :
      (step : StepState) (xs : List PlannedRow)
      → ok [] ≡ ok xs
      → ◌≡◌ {A = Result (Unit {0}) × StepState} (ok tt, step) (ok tt, append_planned xs step)
  no_more step xs h =
      ap (λ (s : StepState). let r : Result (Unit {0}) × StepState = (ok tt, s) in r)
        (append_planned-nil step
          ∙ ap (λ (l : List PlannedRow). append_planned l step) (ok-injective [] xs h))

  -- The loop succeeds exactly where the description does, and has then appended its rows.
  plan_requests-ok :
      (row_base : ℕ) (req_ids : List Str) (tokens : List ℕ) (step : StepState)
      (xs : List PlannedRow)
      → planned_rows row_base req_ids tokens step ≡ ok xs
      → plan_requests resolve row_base req_ids tokens step ≡ (ok tt, append_planned xs step)
  unfolding plan_requests
  plan_requests-ok row_base [] tokens step xs h = no_more step xs h
  plan_requests-ok row_base (r ∷ rs) [] step xs h = no_more step xs h
  plan_requests-ok row_base (r ∷ rs) (t ∷ ts) step xs h =
      let (here, eh, rest) = >>=-eq-ok (rows_of_request row_base t r step) _ h in
      let (later, el, both) = >>=-eq-ok (planned_rows (row_base + t) rs ts step) _ rest in
      let next : plan_scheduled resolve row_base t r step ≡ ok (append_planned here step) =
        plan_scheduled_lem row_base t r step
        ∙ bind_of_ok (rows_of_request row_base t r step) _ here eh in
      rw (next, plan_requests)
        (plan_requests-ok (row_base + t) rs ts (append_planned here step) later
            (planned_rows-outputs (row_base + t) rs ts step _ _ _ _ _ ∙ el)
          ∙ ap
              (λ (s : StepState). let result : Result (Unit {0}) × StepState = (ok tt, s) in result)
              (append_planned-append here later step
                ∙ ap (λ (l : List PlannedRow). append_planned l step)
                    (ok-injective (here ++ later) xs both)))

-- The state's requests, scheduled tokens and registry, as the preparation hands them to the plan.
abbrev pub plan_of : {Row : Type 0} → RuntimeState Row → List ℕ → Result (List PlannedRow)
plan_of state tokens =
    planned_rows (resolve_prompt_sample_for_req_id state.reqid_to_promptidx) 0 state.step.req_ids
      tokens state.step

-- With the prefill producer enabled, where the rows of the step's scheduled tokens (for each
-- request in order, those of its scheduled tokens that are still prompt tokens, with consecutive
-- token offsets) can be listed without an error, the preparation succeeds and the four lists that
-- it stores are the fields of these rows in order, and the count is their number.
pub prepare_prefill_localization-plans :
    {Row : Type 0} (state : RuntimeState Row) (tokens : List ℕ) (xs : List PlannedRow)
    → state.config.enable_prefill_producer ≡ true
    → state.step.num_scheduled_tokens_np ≡ some tokens
    → plan_of state tokens ≡ ok xs
    → (after : RuntimeState Row) × (prepare_prefill_localization state ≡ (ok tt, after))
      × (after.step.prefill_count ≡ length xs)
      × (after.step.prefill_row_indices ≡ map (λ x. x.row) xs)
      × (after.step.prefill_prompt_idxs ≡ map (λ x. x.prompt) xs)
      × (after.step.prefill_sample_idxs ≡ map (λ x. x.sample) xs)
      × (after.step.prefill_token_offsets ≡ map (λ x. x.offset) xs)
unfolding prepare_prefill_localization plan_prefill count_planned clear_prefill
prepare_prefill_localization-plans {Row} state tokens xs enabled scheduled h =
    let resolve = resolve_prompt_sample_for_req_id state.reqid_to_promptidx in
    let step = clear_prefill state.step in
    let planned =
      plan_requests-ok resolve 0 state.step.req_ids tokens step xs
        (planned_rows-outputs resolve 0 state.step.req_ids tokens state.step 0 [] [] [] [] ∙ h) in
    let stored : plan_prefill resolve step.num_scheduled_tokens_np step
        ≡ count_planned (ok tt, append_planned xs step) =
      ap (λ (o : Option (List ℕ)). plan_prefill resolve o step) scheduled
      ∙ ap count_planned planned in
    let settle = λ (r : Result (Unit {0}) × StepState).
      let pair : Result (Unit {0}) × RuntimeState Row =
        (r.0, record state { prefill_hidden_rows = none; step = r.1 }) in
      pair in
    (
      record state {
        prefill_hidden_rows = none;
        step = record (append_planned xs step) {
          prefill_count = length (map (λ (x : PlannedRow). x.row) xs);
        };
      },
      simp enabled (ap settle stored),
      length-map _ xs,
      refl,
      refl,
      refl,
      refl,
    )
