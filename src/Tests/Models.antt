-- ===== src/Tests/Models.antt =====
-- A small model: its root has a `model`, which has two `layers`.
use t_llm.Prelude.{
  ℕ, suc, ◌+◌, false, Option, none, some, if◌then◌else◌, leb, eqb, ◌&&◌, ◌==◌, list_eq, nat_eq,
}
use t_llm.Prelude.Int.{ℤ, pos, negsuc}
use t_llm.Prelude.Str.{Str, codes}
use t_llm.Common.Objects.{PythonObjects}

abbrev attribute : ℕ → Str → Option ℕ
attribute obj name =
    if eqb obj 0 && name == codes "model"
    then some 1
    else if eqb obj 1 && name == codes "layers"
    then some 2
    else none

abbrev entry : ℕ → ℤ → Option ℕ
entry obj (negsuc n) = none
entry obj (pos n) = if eqb obj 2 && leb (suc n) 2 then some (3 + n) else none

abbrev pub small_model : PythonObjects
small_model = record {
  Obj = ℕ;
  getattr = attribute;
  getitem = entry;
  is_none = λ o. false;
  is_module = λ o. leb 3 o;
  len = λ o. if eqb o 2 then 2 else 0;
}
