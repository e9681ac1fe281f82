-- ===== src/Runtime/Ports.antt =====
-- tllm/ports/base.py, the modules of tllm/ports that name the ports, and
-- tllm/contracts/subscription.py: what a consumer asks for.
pub mod Declarations
use native.Mathlib.Decide.{ℕ_discrete}
use t_llm.Prelude.{
  true, false, Bool, not, ◌&&◌, ◌||◌, Option, none, some, List, [], ◌∷◌, if◌then◌else◌, is_empty,
  ◌==◌, contains, Eq, list_eq, nat_eq, option_eq, Result, ok, err, value_error,
}
use t_llm.Prelude.Int.{ℤ, int_eq}
use t_llm.Prelude.Str.{Str, codes, strip}

pub data PortKind : Type 0 where
  residual_stream kv_cache logits sampler token_target request_meta cpu_export : PortKind

pub data RowSelection : Type 0 where
  all first_per_prompt : RowSelection

pub record ResidualLocator : Type 0 where
  pub layer : ℤ
  pub site : Str
  pub phase : Str

-- The subclasses of `Locator`
pub data Locator : Type 0 where
  residual_locator : ResidualLocator → Locator
  kv_locator : (layer : ℤ) (phase step_scope : Str) → Locator
  logits_locator sampler_locator token_target_locator : (step_scope : Str) → Locator
  request_meta_locator : Locator
  cpu_export_locator : (channel format : Str) (schema : Option Str) → Locator

port_kind_dec : Discrete PortKind
port_kind_dec = hlevel

instance unfoldable pub port_kind_eq : Eq PortKind
unfolding port_kind_dec
port_kind_eq = record { dec = port_kind_dec }

text_dec : Discrete Str
unfolding list_eq nat_eq
text_dec = (list_eq ⦃e = nat_eq⦄).dec

int_dec : Discrete ℤ
unfolding int_eq
int_dec = int_eq.dec

residual_locator_dec : Discrete ResidualLocator
residual_locator_dec = hlevel (int_dec, text_dec)

instance unfoldable pub residual_locator_eq : Eq ResidualLocator
unfolding residual_locator_dec int_dec text_dec list_eq nat_eq int_eq
residual_locator_eq = record { dec = residual_locator_dec }

locator_dec : Discrete Locator
locator_dec = hlevel (residual_locator_dec, int_dec, text_dec)

instance unfoldable pub locator_eq : Eq Locator
unfolding locator_dec residual_locator_dec int_dec text_dec list_eq nat_eq int_eq
locator_eq = record { dec = locator_dec }

pub record PortRead : Type 0 where
  pub kind : PortKind
  pub locator : Option Locator
  pub role : Str

pub record PortWrite : Type 0 where
  pub kind : PortKind
  pub locator : Option Locator
  pub mode : Str

pub data FlowWindow : Type 0 where
  background same_step next_step out_of_band : FlowWindow

pub data FlowDelivery : Type 0 where
  bundle device_lease : FlowDelivery

pub data BufferOwnership : Type 0 where
  borrowed runtime_lease : BufferOwnership

-- The fields that the runtime reads. `writes` is left out.
pub record ConsumerFlow : Type 0 where
  pub reads : List PortRead
  pub window : FlowWindow
  pub bundle_key : List Str
  pub dispatch_every_n_steps : ℤ
  pub max_bundle_rows : ℤ
  pub delivery : FlowDelivery
  pub ownership : BufferOwnership
  pub row_compaction : RowSelection

abbrev pub step_scope_key : List Str
step_scope_key = codes "engine_step_id" ∷ codes "phase" ∷ []

abbrev pub is_runtime_lease : BufferOwnership → Bool
is_runtime_lease runtime_lease = true
is_runtime_lease borrowed = false

-- `PortKind.value`
abbrev pub kind_value : PortKind → Str
kind_value residual_stream = codes "residual_stream"
kind_value kv_cache = codes "kv_cache"
kind_value logits = codes "logits"
kind_value sampler = codes "sampler"
kind_value token_target = codes "token_target"
kind_value request_meta = codes "request_meta"
kind_value cpu_export = codes "cpu_export"

-- `str(read.role).strip() or str(read.kind.value)`
unfoldable pub entry_name : PortRead → Str
unfolding strip
entry_name read = let role = strip read.role in if is_empty role then kind_value read.kind else role

pub data CapturePolicy : Type 0 where
  required prefer never : CapturePolicy

pub record ConsumerSubscription : Type 0 where
  pub consumer_id : Str
  pub event_name : Str
  pub phase_filter : Option Str
  pub layer_filter : Option Str
  pub capture_policy : CapturePolicy
