-- ===== src/Tests/Flow.antt =====
-- A device lease of the first row of each prompt.
use t_llm.Prelude.{◌≡◌, refl, list_eq, nat_eq, ok}
use t_llm.Runtime.Ports.{first_per_prompt, background, device_lease, runtime_lease, step_scope_key}
use t_llm.Runtime.Flow.{
  Flow, parse_window, parse_delivery, parse_ownership, parse_row_compaction, check_lease,
  check_compaction, make_flow,
}
use t_llm.Runtime.Flow.Validity.{IsValid, text_of_flow, make_flow-IsValid, make_flow-text_of_flow}

abbrev lease : Flow
lease = record {
  window = background;
  delivery = device_lease;
  ownership = runtime_lease;
  row_compaction = first_per_prompt;
  bundle_key = step_scope_key;
}

made : make_flow (text_of_flow lease) ≡ ok lease
unfolding make_flow parse_window parse_delivery parse_ownership parse_row_compaction check_lease
    check_compaction list_eq nat_eq
made = refl

make_flow-IsValid_example : IsValid lease
make_flow-IsValid_example = make_flow-IsValid (text_of_flow lease) lease made

make_flow-text_of_flow_example : make_flow (text_of_flow lease) ≡ ok lease
make_flow-text_of_flow_example =
    make_flow-text_of_flow lease
      (record { owned = λ e. refl; lease_key = λ e. refl; compaction_key = λ e. refl })
