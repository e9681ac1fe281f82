-- ===== src/Runtime/Providers.antt =====
-- tllm/runtime/ports/provider_registry.py: one provider for each kind of port.
use t_llm.Prelude.{Bool, none, some, contains, Result, ok, err, key_error}
use t_llm.Prelude.Dict.{Dict, keys, lookup, insert}
use t_llm.Runtime.Ports.{PortKind, port_kind_eq}

abbrev pub ProviderRegistry : Type 0 → Type 0
ProviderRegistry Provider = Dict PortKind Provider

module _ {Provider : Type 0} where
  unfoldable pub register :
      PortKind → Provider → ProviderRegistry Provider → ProviderRegistry Provider
  register kind provider registry = insert kind provider registry

  unfoldable pub get : PortKind → ProviderRegistry Provider → Result Provider
  get kind registry = elim (lookup kind registry) [
    | none ↦ err key_error
    | some provider ↦ ok provider
  ]

  unfoldable pub has : PortKind → ProviderRegistry Provider → Bool
  has kind registry = contains (keys registry) kind
