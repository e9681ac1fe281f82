-- ===== src/Runtime/Ports/Declarations.antt =====
-- The modules of tllm/ports that declare a port each: the checks of its locator's `__post_init__`,
-- and the reads and writes of it that a flow names.
use t_llm.Prelude.{
  not, Option, some, List, [], ◌∷◌, is_empty, ◌==◌, contains, list_eq, nat_eq, Result, ok, ◌>>=◌,
  ◌>>◌, raise_if, value_error,
}
use t_llm.Prelude.Int.{ℤ}
use t_llm.Prelude.Str.{Str, codes, strip}
use t_llm.Runtime.Ports.{
  PortKind, residual_stream, kv_cache, logits, sampler, token_target, request_meta, cpu_export,
  Locator, residual_locator, kv_locator, logits_locator, sampler_locator, token_target_locator,
  request_meta_locator, cpu_export_locator, PortRead, PortWrite,
}

abbrev pub supported_phases : List Str
supported_phases = codes "prefill" ∷ codes "decode" ∷ []

abbrev pub supported_sites : List Str
supported_sites =
    codes "block_input"
    ∷ codes "attn_input"
    ∷ codes "attn_output"
    ∷ codes "mlp_input"
    ∷ codes "block_output"
    ∷ []

abbrev pub current : Str
current = codes "current"

-- Each `make_` is a constructor's call, with its `__post_init__`.
unfoldable pub make_residual_locator : ℤ → Str → Str → Result Locator
make_residual_locator layer site phase = do
  raise_if (not (contains supported_sites site)) value_error
  raise_if (not (contains supported_phases phase)) value_error
  ok (residual_locator (record { layer = layer; site = site; phase = phase }))

unfoldable pub make_kv_locator : ℤ → Str → Str → Result Locator
make_kv_locator layer phase step_scope = do
  raise_if (not (phase == codes "decode")) value_error
  raise_if (not (contains (current ∷ codes "next" ∷ []) step_scope)) value_error
  ok (kv_locator layer phase step_scope)

unfoldable pub make_logits_locator : Str → Result Locator
make_logits_locator step_scope = do
  raise_if (not (step_scope == current)) value_error
  ok (logits_locator step_scope)

unfoldable pub make_sampler_locator : Str → Result Locator
make_sampler_locator step_scope = do
  raise_if (not (step_scope == current)) value_error
  ok (sampler_locator step_scope)

unfoldable pub make_token_target_locator : Str → Result Locator
make_token_target_locator step_scope = do
  raise_if (not (step_scope == current)) value_error
  ok (token_target_locator step_scope)

unfoldable pub make_cpu_export_locator : Str → Str → Option Str → Result Locator
unfolding strip
make_cpu_export_locator channel format schema = do
  raise_if (is_empty (strip channel)) value_error
  raise_if (is_empty (strip format)) value_error
  ok (cpu_export_locator channel format schema)

abbrev pub read_of : PortKind → Str → Locator → PortRead
read_of kind role locator = record { kind = kind; locator = some locator; role = role }

abbrev pub write_of : PortKind → Str → Locator → PortWrite
write_of kind mode locator = record { kind = kind; locator = some locator; mode = mode }

-- `ResidualStream.read`, and so on
unfoldable pub read_residual : ℤ → Str → Str → Str → Result PortRead
unfolding make_residual_locator
read_residual layer site phase role = do
  locator ← make_residual_locator layer site phase
  ok (read_of residual_stream role locator)

unfoldable pub read_kv : ℤ → Str → Str → Result PortRead
unfolding make_kv_locator
read_kv layer phase step_scope = do
  locator ← make_kv_locator layer phase step_scope
  ok (read_of kv_cache [] locator)

unfoldable pub read_logits : Str → Result PortRead
unfolding make_logits_locator
read_logits step_scope = do locator ← make_logits_locator step_scope; ok (read_of logits [] locator)

unfoldable pub read_sampler : Str → Result PortRead
unfolding make_sampler_locator
read_sampler step_scope = do
  locator ← make_sampler_locator step_scope
  ok (read_of sampler [] locator)

unfoldable pub read_token_target : Str → Result PortRead
unfolding make_token_target_locator
read_token_target step_scope = do
  locator ← make_token_target_locator step_scope
  ok (read_of token_target [] locator)

unfoldable pub read_request_meta : PortRead
read_request_meta = read_of request_meta [] request_meta_locator

unfoldable pub write_residual : ℤ → Str → Str → Str → Result PortWrite
unfolding make_residual_locator
write_residual layer site phase mode = do
  locator ← make_residual_locator layer site phase
  ok (write_of residual_stream mode locator)

unfoldable pub write_kv : ℤ → Str → Str → Result PortWrite
unfolding make_kv_locator
write_kv layer phase step_scope = do
  locator ← make_kv_locator layer phase step_scope
  ok (write_of kv_cache [] locator)

unfoldable pub write_cpu_export : Str → Str → Option Str → Result PortWrite
unfolding make_cpu_export_locator
write_cpu_export channel format schema = do
  locator ← make_cpu_export_locator channel format schema
  ok (write_of cpu_export [] locator)
