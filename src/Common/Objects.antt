-- ===== src/Common/Objects.antt =====
-- What Python's attribute and item access do on a model and its layers, which the program is given.
use t_llm.Prelude.{ℕ, Bool, Option}
use t_llm.Prelude.Int.{ℤ}
use t_llm.Prelude.Str.{Str}

pub record PythonObjects : Type 1 where
  pub Obj : Type 0
  -- `getattr(obj, name)`, where it has the attribute
  pub getattr : Obj → Str → Option Obj
  -- `obj[idx]`, where it does not raise
  pub getitem : Obj → ℤ → Option Obj
  -- `obj is None`
  pub is_none : Obj → Bool
  -- `isinstance(obj, torch.nn.Module)`
  pub is_module : Obj → Bool
  -- `len(obj)` of a layer container
  pub len : Obj → ℕ
