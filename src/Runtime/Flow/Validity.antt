-- ===== src/Runtime/Flow/Validity.antt =====
-- A flow is made exactly from the text of a valid flow.
use t_llm.Prelude.{
  ◌≡◌, refl, subst, List, eq_of_==, list_eq, nat_eq, arith, ok, >>=-eq-ok, ok-injective,
}
use t_llm.Prelude.Str.{Str, codes}
use t_llm.Runtime.Ports.{
  RowSelection, all, first_per_prompt, FlowWindow, background, same_step, next_step, out_of_band,
  FlowDelivery, bundle, device_lease, BufferOwnership, borrowed, runtime_lease, step_scope_key,
}
use t_llm.Runtime.Flow.{
  FlowText, Flow, parse_window, parse_delivery, parse_ownership, parse_row_compaction, check_lease,
  check_compaction, make_flow,
}

-- A device lease is a lease of the runtime, and it and a compaction are of a whole step.
pub record IsValid (flow : Flow) : Type 0 where
  pub owned : flow.delivery ≡ device_lease → flow.ownership ≡ runtime_lease
  pub lease_key : flow.delivery ≡ device_lease → flow.bundle_key ≡ step_scope_key
  pub compaction_key : flow.row_compaction ≡ first_per_prompt → flow.bundle_key ≡ step_scope_key

check_lease-ok :
    (delivery : FlowDelivery) (ownership : BufferOwnership) (key : List Str) (u : Unit {0})
    → check_lease delivery ownership key ≡ ok u
    → delivery ≡ device_lease
    → (ownership ≡ runtime_lease) × (key ≡ step_scope_key)
unfolding check_lease
check_lease-ok bundle ownership key u h e = absurd (cc)
check_lease-ok device_lease borrowed key u h e = absurd (cc)
check_lease-ok device_lease runtime_lease key u h e =
    (refl, eq_of_== key step_scope_key (ground arith))

check_compaction-ok :
    (selection : RowSelection) (key : List Str) (u : Unit {0})
    → check_compaction selection key ≡ ok u
    → selection ≡ first_per_prompt
    → key ≡ step_scope_key
unfolding check_compaction
check_compaction-ok all key u h e = absurd (cc)
check_compaction-ok first_per_prompt key u h e = eq_of_== key step_scope_key (ground arith)

-- Every flow that is made has, if its delivery is a device lease, the ownership of a runtime
-- lease, and, if its delivery is a device lease or its rows are compacted, the key of a whole
-- step.
pub make_flow-IsValid : (text : FlowText) (flow : Flow) → make_flow text ≡ ok flow → IsValid flow
unfolding make_flow
make_flow-IsValid text flow h =
    let (window, _, h₁) = >>=-eq-ok (parse_window text.window) _ h in
    let (delivery, _, h₂) = >>=-eq-ok (parse_delivery text.delivery) _ h₁ in
    let (ownership, _, h₃) = >>=-eq-ok (parse_ownership text.ownership) _ h₂ in
    let (selection, _, h₄) = >>=-eq-ok (parse_row_compaction text.row_compaction) _ h₃ in
    let (u, lease, h₅) = >>=-eq-ok (check_lease delivery ownership text.bundle_key) _ h₄ in
    let (v, compaction, h₆) = >>=-eq-ok (check_compaction selection text.bundle_key) _ h₅ in
    subst IsValid (ok-injective _ flow h₆) (record {
      owned = λ e. (check_lease-ok delivery ownership text.bundle_key u lease e).0;
      lease_key = λ e. (check_lease-ok delivery ownership text.bundle_key u lease e).1;
      compaction_key = check_compaction-ok selection text.bundle_key v compaction;
    })

abbrev pub window_text : FlowWindow → Str
window_text background = codes "background"
window_text same_step = codes "same_step"
window_text next_step = codes "next_step"
window_text out_of_band = codes "out_of_band"

abbrev pub delivery_text : FlowDelivery → Str
delivery_text bundle = codes "bundle"
delivery_text device_lease = codes "device_lease"

abbrev pub ownership_text : BufferOwnership → Str
ownership_text borrowed = codes "borrowed"
ownership_text runtime_lease = codes "runtime_lease"

abbrev pub row_compaction_text : RowSelection → Str
row_compaction_text all = codes "none"
row_compaction_text first_per_prompt = codes "first_per_prompt"

abbrev pub text_of_flow : Flow → FlowText
text_of_flow flow = record {
  window = window_text flow.window;
  delivery = delivery_text flow.delivery;
  ownership = ownership_text flow.ownership;
  row_compaction = row_compaction_text flow.row_compaction;
  bundle_key = flow.bundle_key;
}

parse_window-window_text : (w : FlowWindow) → parse_window (window_text w) ≡ ok w
unfolding parse_window list_eq nat_eq
parse_window-window_text background = refl
parse_window-window_text same_step = refl
parse_window-window_text next_step = refl
parse_window-window_text out_of_band = refl

parse_delivery-delivery_text : (d : FlowDelivery) → parse_delivery (delivery_text d) ≡ ok d
unfolding parse_delivery list_eq nat_eq
parse_delivery-delivery_text bundle = refl
parse_delivery-delivery_text device_lease = refl

parse_ownership-ownership_text : (o : BufferOwnership) → parse_ownership (ownership_text o) ≡ ok o
unfolding parse_ownership list_eq nat_eq
parse_ownership-ownership_text borrowed = refl
parse_ownership-ownership_text runtime_lease = refl

parse_row_compaction-row_compaction_text :
    (s : RowSelection) → parse_row_compaction (row_compaction_text s) ≡ ok s
unfolding parse_row_compaction list_eq nat_eq
parse_row_compaction-row_compaction_text all = refl
parse_row_compaction-row_compaction_text first_per_prompt = refl

check_lease_lem :
    (delivery : FlowDelivery) (ownership : BufferOwnership) (key : List Str)
    → (delivery ≡ device_lease → ownership ≡ runtime_lease)
    → (delivery ≡ device_lease → key ≡ step_scope_key)
    → check_lease delivery ownership key ≡ ok tt
unfolding check_lease list_eq nat_eq
check_lease_lem bundle ownership key owned at_key = refl
check_lease_lem device_lease ownership key owned at_key = rw (owned refl) (rw (at_key refl) refl)

check_compaction_lem :
    (selection : RowSelection) (key : List Str)
    → (selection ≡ first_per_prompt → key ≡ step_scope_key)
    → check_compaction selection key ≡ ok tt
unfolding check_compaction list_eq nat_eq
check_compaction_lem all key at_key = refl
check_compaction_lem first_per_prompt key at_key = rw (at_key refl) refl

-- A flow in which a device lease has the ownership of a runtime lease, and a device lease and a
-- compaction have the key of a whole step, is made from its own texts.
pub make_flow-text_of_flow : (flow : Flow) → IsValid flow → make_flow (text_of_flow flow) ≡ ok flow
unfolding make_flow
make_flow-text_of_flow flow valid = simp (
  parse_window-window_text flow.window,
  parse_delivery-delivery_text flow.delivery,
  parse_ownership-ownership_text flow.ownership,
  parse_row_compaction-row_compaction_text flow.row_compaction,
  check_lease_lem flow.delivery flow.ownership flow.bundle_key valid.owned valid.lease_key,
  check_compaction_lem flow.row_compaction flow.bundle_key valid.compaction_key,
)
