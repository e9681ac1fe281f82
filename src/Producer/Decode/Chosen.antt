-- ===== src/Producer/Decode/Chosen.antt =====
-- The positions that a step localizes, as a selection from all positions.
use t_llm.Prelude.{
  ℕ, zero, suc, ◌+◌, ◌≡◌, refl, ap, ◌∙◌, Bool, false, ◌&&◌, List, [], ◌∷◌, arith, ltb, filter,
  range_from, take, length,
}
use t_llm.Producer.Decode.{decode_positions_from, cap_rows}

abbrev pub flag_at : List Bool → ℕ → Bool
flag_at [] i = false
flag_at (f ∷ flags) zero = f
flag_at (f ∷ flags) (suc i) = flag_at flags i

-- The request at the position decodes, and has a logits row and a request id.
abbrev pub is_due : (numel reqs : ℕ) → List Bool → ℕ → Bool
is_due numel reqs flags i = flag_at flags i && (ltb i numel && ltb i reqs)

-- The first rows of a list, under a cap of zero all of them.
abbrev first_rows : ℕ → List ℕ → List ℕ
first_rows zero positions = positions
first_rows (suc n) positions = take (suc n) positions

-- The positions of a step, in order and under the cap.
abbrev pub due_positions : (numel reqs : ℕ) → List Bool → (max_rows : ℕ) → List ℕ
due_positions numel reqs flags max_rows =
    first_rows max_rows (filter (is_due numel reqs flags) (range_from 0 (length flags)))

decode_positions_from-eq :
    (numel reqs i : ℕ) (whole flags : List Bool)
    → ((j : ℕ) → flag_at flags j ≡ flag_at whole (i + j))
    → decode_positions_from i numel reqs flags
      ≡ filter (is_due numel reqs whole) (range_from i (length flags))
unfolding decode_positions_from
decode_positions_from-eq numel reqs i whole [] same = refl
decode_positions_from-eq numel reqs i whole (flag ∷ flags) same =
    let here : flag ≡ flag_at whole i = same 0 ∙ ap (flag_at whole) (omega arith) in
    let later =
      decode_positions_from-eq numel reqs (suc i) whole flags
        (λ j. same (suc j) ∙ ap (flag_at whole) (omega arith)) in
    ground (arith, here, later)

pub positions-eq-due_positions :
    (numel reqs : ℕ) (flags : List Bool) (max_rows : ℕ)
    → cap_rows max_rows (decode_positions_from 0 numel reqs flags)
      ≡ due_positions numel reqs flags max_rows
positions-eq-due_positions numel reqs flags zero =
    decode_positions_from-eq numel reqs 0 flags flags (λ j. ap (flag_at flags) (omega arith))
positions-eq-due_positions numel reqs flags (suc n) =
    let every =
      decode_positions_from-eq numel reqs 0 flags flags (λ j. ap (flag_at flags) (omega arith)) in
    ground (arith, every)
