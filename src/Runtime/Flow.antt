-- ===== src/Runtime/Flow.antt =====
-- `ConsumerFlow.__post_init__` of tllm/ports/base.py: the texts of a flow become members of their
-- enumerations, and some of them ask for a bundle key of the whole step. The fields that the
-- validation does not touch are left out.
pub mod Validity
use t_llm.Prelude.{
  ℕ, Bool, true, false, not, ◌&&◌, List, [], ◌∷◌, if◌then◌else◌, ◌==◌, list_eq, nat_eq, Result, ok,
  err, ◌>>=◌, ◌>>◌, raise_if, value_error,
}
use t_llm.Prelude.Str.{Str, codes}
use t_llm.Runtime.Ports.{
  RowSelection, all, first_per_prompt, FlowWindow, background, same_step, next_step, out_of_band,
  FlowDelivery, bundle, device_lease, BufferOwnership, borrowed, runtime_lease, step_scope_key,
  is_runtime_lease,
}

pub record FlowText : Type 0 where
  pub window : Str
  pub delivery : Str
  pub ownership : Str
  pub row_compaction : Str
  pub bundle_key : List Str

pub record Flow : Type 0 where
  pub window : FlowWindow
  pub delivery : FlowDelivery
  pub ownership : BufferOwnership
  pub row_compaction : RowSelection
  pub bundle_key : List Str

unfoldable pub parse_window : Str → Result FlowWindow
parse_window text =
    if text == codes "background"
    then ok background
    else if text == codes "same_step"
    then ok same_step
    else if text == codes "next_step"
    then ok next_step
    else if text == codes "out_of_band"
    then ok out_of_band
    else err value_error

unfoldable pub parse_delivery : Str → Result FlowDelivery
parse_delivery text =
    if text == codes "bundle"
    then ok bundle
    else if text == codes "device_lease"
    then ok device_lease
    else err value_error

unfoldable pub parse_ownership : Str → Result BufferOwnership
parse_ownership text =
    if text == codes "borrowed"
    then ok borrowed
    else if text == codes "runtime_lease"
    then ok runtime_lease
    else err value_error

unfoldable pub parse_row_compaction : Str → Result RowSelection
parse_row_compaction text =
    if text == codes "none"
    then ok all
    else if text == codes "first_per_prompt"
    then ok first_per_prompt
    else err value_error

-- The two checks at the end
unfoldable pub check_lease : FlowDelivery → BufferOwnership → List Str → Result (Unit {0})
check_lease bundle ownership bundle_key = ok tt
check_lease device_lease ownership bundle_key =
    if not (is_runtime_lease ownership)
    then err value_error
    else if not (bundle_key == step_scope_key)
    then err value_error
    else ok tt

unfoldable pub check_compaction : RowSelection → List Str → Result (Unit {0})
check_compaction all bundle_key = ok tt
check_compaction first_per_prompt bundle_key =
    if not (bundle_key == step_scope_key) then err value_error else ok tt

unfoldable pub make_flow : FlowText → Result Flow
make_flow text = do
  window ← parse_window text.window
  delivery ← parse_delivery text.delivery
  ownership ← parse_ownership text.ownership
  row_compaction ← parse_row_compaction text.row_compaction
  check_lease delivery ownership text.bundle_key
  check_compaction row_compaction text.bundle_key
  ok (record {
    window = window;
    delivery = delivery;
    ownership = ownership;
    row_compaction = row_compaction;
    bundle_key = text.bundle_key;
  })
