-- ===== src/Common/Snapshot/Flags.antt =====
-- The snapshot of a step: one flag for each request, and no outputs of an earlier step.
use t_llm.Prelude.{
  ℕ, ◌≡◌, refl, sym, ap, subst, ◌∙◌, Bool, false, Option, none, some, List, [], ◌∷◌, leb, take,
  get_elem?, arith, inl, inr, Option-cases, ok, >>=-eq-ok, ok-injective, list_eq, nat_eq,
}
use t_llm.Prelude.Dict.{lookup}
use t_llm.Prelude.Str.{Str}
use t_llm.Common.State.{LogitsIndices, StepState, reset_localization_outputs}
use t_llm.Common.State.Outputs.{NoOutputs, reset_localization_outputs-NoOutputs}
use t_llm.Common.Snapshot.{InputBatch, present, item, is_decode, decode_flags, snapshot_step_common}

module _ (batch : InputBatch) where
  -- A request decodes if the batch knows it and has computed its whole prompt.
  pub data HasFlag (req_id : Str) (flag : Bool) : Type 0 where
    unknown : lookup req_id batch.req_id_to_index ≡ none → flag ≡ false → HasFlag req_id flag
    known :
        (req_idx computed prompt : ℕ)
        → lookup req_id batch.req_id_to_index ≡ some req_idx
        → get_elem? batch.num_computed_tokens_cpu req_idx ≡ some computed
        → get_elem? batch.num_prompt_tokens req_idx ≡ some prompt
        → flag ≡ leb prompt computed
        → HasFlag req_id flag

  abbrev pub HaveFlags : List Str → List Bool → Type 0
  HaveFlags [] [] = Unit
  HaveFlags (r ∷ rs) (f ∷ fs) = HasFlag r f × HaveFlags rs fs
  HaveFlags _ _ = ⊥

  item-ok : (xs : List ℕ) (i x : ℕ) → item xs i ≡ ok x → get_elem? xs i ≡ some x
  item-ok xs i x h = elim (Option-cases (get_elem? xs i)) [
    | inl absent ↦ absurd (ground arith)
    | inr (y, e) ↦ e ∙ ap some (ok-injective y x (rw (e, item) at h))
  ]

  is_decode-HasFlag :
      (req_id : Str) (flag : Bool)
      → is_decode batch (lookup req_id batch.req_id_to_index) ≡ ok flag
      → HasFlag req_id flag
  unfolding is_decode
  is_decode-HasFlag req_id flag h = elim (Option-cases (lookup req_id batch.req_id_to_index)) [
    | inl absent ↦
        HasFlag.unknown absent (sym (ok-injective false flag (rw (absent, is_decode) at h)))
    | inr (i, found) ↦
        let (computed, c, rest) =
          >>=-eq-ok (item batch.num_computed_tokens_cpu i) _ (rw (found, is_decode) at h) in
        let (prompt, p, e) = >>=-eq-ok (item batch.num_prompt_tokens i) _ rest in
        HasFlag.known i computed prompt found (item-ok batch.num_computed_tokens_cpu i computed c)
          (item-ok batch.num_prompt_tokens i prompt p)
          (sym (ok-injective (leb prompt computed) flag e))
  ]

  decode_flags-HaveFlags :
      (req_ids : List Str) (flags : List Bool)
      → decode_flags batch req_ids ≡ ok flags
      → HaveFlags req_ids flags
  unfolding decode_flags
  decode_flags-HaveFlags [] flags h = subst (HaveFlags []) (ok-injective [] flags h) tt
  decode_flags-HaveFlags (r ∷ rs) flags h =
      let (f, e, rest) = >>=-eq-ok (is_decode batch (lookup r batch.req_id_to_index)) _ h in
      let (fs, es, both) = >>=-eq-ok (decode_flags batch rs) _ rest in
      subst (HaveFlags (r ∷ rs)) (ok-injective (f ∷ fs) flags both)
        (is_decode-HasFlag r f e, decode_flags-HaveFlags rs fs es)

  pub record IsSnapshot (after : StepState) : Type 0 where
    pub requests : after.req_ids ≡ present (take batch.num_reqs batch.req_ids)
    pub flags : HaveFlags after.req_ids after.is_decode_req
    pub no_outputs : NoOutputs after

  -- A snapshot that succeeds has the requests in the batch's first `num_reqs` slots, empty ones
  -- left out, for each of them whether it decodes (whether the batch knows it and has computed at
  -- least its prompt), and none of the outputs of an earlier step: both counts are zero and all
  -- six lists of the localizations are empty.
  pub snapshot_step_common-IsSnapshot :
      (logits : Option LogitsIndices) (tokens : ℕ) (scheduled : Option (List ℕ))
      (step after : StepState)
      → snapshot_step_common batch logits tokens scheduled step ≡ ok after
      → IsSnapshot after
  unfolding snapshot_step_common reset_localization_outputs
  snapshot_step_common-IsSnapshot logits tokens scheduled step after h =
      let (flags, e, made) =
        >>=-eq-ok (decode_flags batch (present (take batch.num_reqs batch.req_ids))) _ h in
      let filled : StepState = record step {
        req_ids = present (take batch.num_reqs batch.req_ids);
        req_id_to_index = batch.req_id_to_index;
        is_decode_req = flags;
        logits_indices = logits;
        num_actual_tokens = tokens;
        num_prompt_tokens = batch.num_prompt_tokens;
        num_computed_tokens = batch.num_computed_tokens_cpu;
        num_scheduled_tokens_np = scheduled;
      } in
      subst IsSnapshot (ok-injective _ after made) (record {
        requests = refl;
        flags = decode_flags-HaveFlags _ flags e;
        no_outputs = reset_localization_outputs-NoOutputs filled;
      })
