-- ===== src/Common/State/Requests.antt =====
-- `resolve_prompt_sample_for_req_id`: request ids of prompts, and of the samples of a prompt.
use t_llm.Prelude.{
  ◌≡◌, ◌≢◌, refl, inl, inr, true, none, some, [], ◌∷◌, ◌++◌, arith, Option-cases, Bool-cases,
  list_eq, nat_eq,
}
use t_llm.Prelude.Int.{ℤ, pos}
use t_llm.Prelude.Dict.{Dict, lookup}
use t_llm.Prelude.Str.{Str, Every, is_digit, isdigit, break_at, digits_value}
use t_llm.Prelude.Str.Laws.{all_of_Every}
use t_llm.Common.State.{unresolved, resolve_child, resolve_prompt_sample_for_req_id}

-- vLLM's id of a sample: `f"{sample_idx}_{parent_req_id}"`, from the digits of the index.
abbrev pub child_id : Str → Str → Str
child_id digits parent = digits ++ (b'_' ∷ parent)

break_at-child_id :
    (digits parent : Str)
    → Every is_digit digits
    → break_at b'_' (child_id digits parent) ≡ some (digits, parent)
unfolding break_at
break_at-child_id [] parent h = refl
break_at-child_id (d ∷ digits) parent h = ground (arith, break_at-child_id digits parent)

isdigit_of_Every : (digits : Str) → digits ≢ [] → Every is_digit digits → isdigit digits ≡ true
unfolding isdigit
isdigit_of_Every [] ne h = absurd (ne refl)
isdigit_of_Every (d ∷ digits) ne h = ground (arith, all_of_Every is_digit digits)

-- The id `digits_parent` of a sample of a registered request, with at least one digit, resolves
-- to the request's prompt and the value of the digits, unless the id is itself registered.
pub resolve-child_id :
    (registry : Dict Str ℤ) (digits parent : Str) (prompt_idx : ℤ)
    → digits ≢ []
    → Every is_digit digits
    → lookup parent registry ≡ some prompt_idx
    → lookup (child_id digits parent) registry ≡ none
    → resolve_prompt_sample_for_req_id registry (child_id digits parent)
      ≡ (prompt_idx, pos (digits_value 0 digits))
unfolding resolve_prompt_sample_for_req_id resolve_child
resolve-child_id registry digits parent prompt_idx ne h found absent =
    ground (arith, break_at-child_id digits parent h, isdigit_of_Every digits ne h)

-- Where a resolution comes from: nowhere, a registered id, or the id of a registered id's sample.
pub data Origin (registry : Dict Str ℤ) (req_id : Str) (result : ℤ × ℤ) : Type 0 where
  nowhere : result ≡ unresolved → Origin registry req_id result
  itself :
      (prompt_idx : ℤ)
      → lookup req_id registry ≡ some prompt_idx
      → result ≡ (prompt_idx, pos 0)
      → Origin registry req_id result
  sample :
      (digits parent : Str) (prompt_idx : ℤ)
      → lookup req_id registry ≡ none
      → break_at b'_' req_id ≡ some (digits, parent)
      → isdigit digits ≡ true
      → lookup parent registry ≡ some prompt_idx
      → result ≡ (prompt_idx, pos (digits_value 0 digits))
      → Origin registry req_id result

-- Every request id resolves to nothing, to the prompt under which it is registered with sample 0,
-- or to the prompt of the registered id behind its first underscore with the number in front of
-- it, when the id itself is not registered.
pub resolve-Origin :
    (registry : Dict Str ℤ) (req_id : Str)
    → Origin registry req_id (resolve_prompt_sample_for_req_id registry req_id)
unfolding resolve_prompt_sample_for_req_id resolve_child
resolve-Origin registry req_id = elim (Option-cases (lookup req_id registry)) [
  | inr (p, found) ↦ Origin.itself p found (ground arith)
  | inl absent ↦ elim (Option-cases (break_at b'_' req_id)) [
    | inl whole ↦ Origin.nowhere (ground arith)
    | inr (parts, cut) ↦ elim (Bool-cases (isdigit parts.0)) [
      | inr other ↦ Origin.nowhere (ground arith)
      | inl digits ↦ elim (Option-cases (lookup parts.1 registry)) [
        | inl orphan ↦ Origin.nowhere (ground arith)
        | inr (p, found) ↦ Origin.sample parts.0 parts.1 p absent cut digits found (ground arith)
      ]
    ]
  ]
]
