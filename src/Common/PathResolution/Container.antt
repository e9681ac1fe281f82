-- ===== src/Common/PathResolution/Container.antt =====
-- `resolve_layers_container` against `resolve_object_by_path`: the prefix that the first returns is
-- a path by which the second finds the same container.
use t_llm.Prelude.{
  ℕ, zero, suc, ◌≡◌, ◌≢◌, refl, ◌∙◌, Bool, false, not, ◌&&◌, some, List, [], ◌∷◌, ◌++◌,
  append_assoc, arith, inl, inr, Option-cases, is_empty, eqb, All, All-append, Result, ok, err,
  ◌>>=◌,
}
use t_llm.Prelude.Str.{Str, Every, codes, break_at, split, join}
use t_llm.Prelude.Str.Laws.{is_solid, Every-append, strip_solid}
use t_llm.Common.Objects.{PythonObjects}
use t_llm.Common.PathResolution.{
  parse_component, attribute_of, indices_of, resolve_component, index_all, walk,
  resolve_object_by_path, attr_value, layers_of, decoder_layers_of, layers_loop,
  resolve_layers_container,
}

abbrev is_part : ℕ → Bool
is_part c = is_solid c && not (eqb c b'.')

-- A component with no dot and no whitespace.
abbrev IsPart : Str → Type 0
IsPart p = (p ≢ []) × Every is_part p

split-part : (p : Str) → Every is_part p → split b'.' p ≡ p ∷ []
unfolding split
split-part [] h = refl
split-part (c ∷ p) h = rw (split-part p h.1) (ground arith)

split-part_append :
    (p rest : Str) → Every is_part p → split b'.' (p ++ (b'.' ∷ rest)) ≡ p ∷ split b'.' rest
unfolding split
split-part_append [] rest h = refl
split-part_append (c ∷ p) rest h = rw (split-part_append p rest h.1) (ground arith)

split-join :
    (p : Str) (ps : List Str) → All IsPart (p ∷ ps) → split b'.' (join b'.' (p ∷ ps)) ≡ p ∷ ps
unfolding join
split-join p [] h = split-part p h.0.1
split-join p (q ∷ ps) h = split-part_append p (join b'.' (q ∷ ps)) h.0.1 ∙ rw (split-join q ps h.1)

part-is_solid : (p : Str) → Every is_part p → Every is_solid p
part-is_solid [] h = tt
part-is_solid (c ∷ p) h = (ground arith, part-is_solid p h.1)

join-is_solid : (ps : List Str) → All IsPart ps → Every is_solid (join b'.' ps)
unfolding join
join-is_solid [] h = tt
join-is_solid (p ∷ []) h = part-is_solid p h.0.1
join-is_solid (p ∷ q ∷ ps) h =
    Every-append is_solid p (b'.' ∷ join b'.' (q ∷ ps)) (part-is_solid p h.0.1)
      (refl, join-is_solid (q ∷ ps) h.1)

join-ne-nil : (p : Str) (ps : List Str) → p ≢ [] → is_empty (join b'.' (p ∷ ps)) ≡ false
unfolding join
join-ne-nil [] ps h = absurd (h refl)
join-ne-nil (c ∷ p) [] h = refl
join-ne-nil (c ∷ p) (q ∷ ps) h = refl

module _ (objects : PythonObjects) where
  open objects use {Obj, getattr}

  -- A path of components resolves them one after the other.
  resolve-join :
      (root : Obj) (p : Str) (ps : List Str)
      → All IsPart (p ∷ ps)
      → resolve_object_by_path objects root (join b'.' (p ∷ ps)) ≡ walk objects root (p ∷ ps)
  unfolding resolve_object_by_path
  resolve-join root p ps h =
      rw (strip_solid (join b'.' (p ∷ ps)) (join-is_solid (p ∷ ps) h))
        (rw (join-ne-nil p ps h.0.0) (rw (split-join p ps h)))

  then_walk :
      (r : Result Obj) (ps qs : List Str)
      → ((o : Obj) → walk objects o (ps ++ qs) ≡ (walk objects o ps >>= λ n. walk objects n qs))
      → (r >>= λ o. walk objects o (ps ++ qs))
        ≡ ((r >>= λ o. walk objects o ps) >>= λ n. walk objects n qs)
  then_walk (ok o) ps qs h = h o
  then_walk (err e) ps qs h = refl

  -- A longer path goes on from where the shorter one leads.
  walk-append :
      (root : Obj) (ps qs : List Str)
      → walk objects root (ps ++ qs) ≡ (walk objects root ps >>= λ o. walk objects o qs)
  unfolding walk
  walk-append root [] qs = refl
  walk-append root (p ∷ ps) qs =
      then_walk (resolve_component objects root p) ps qs (λ o. walk-append o ps qs)

  getattr_of_attr_value :
      (obj o : Obj) (name : Str) → attr_value objects obj name ≡ some o → getattr obj name ≡ some o
  getattr_of_attr_value obj o name h = ground arith

  walk-attr_value :
      (obj o : Obj) (name : Str)
      → parse_component name ≡ ok (name, [])
      → attr_value objects obj name ≡ some o
      → walk objects obj (name ∷ []) ≡ ok o
  unfolding walk index_all
  walk-attr_value obj o name p h = rw p (rw (getattr_of_attr_value obj o name h))

  walk-next :
      (root cur o : Obj) (ps : List Str) (name : Str)
      → walk objects root ps ≡ ok cur
      → parse_component name ≡ ok (name, [])
      → attr_value objects cur name ≡ some o
      → walk objects root (ps ++ (name ∷ [])) ≡ ok o
  walk-next root cur o ps name w p h =
      walk-append root ps (name ∷ []) ∙ rw w (walk-attr_value cur o name p h)

-- The three attribute names of the search are components that parse to themselves.
abbrev IsName : Str → Type 0
IsName name = IsPart name × (parse_component name ≡ ok (name, []))

layers-IsName : IsName (codes "layers")
unfolding parse_component attribute_of indices_of break_at
layers-IsName = ((ground arith, ground arith), refl)

decoder-IsName : IsName (codes "decoder")
unfolding parse_component attribute_of indices_of break_at
decoder-IsName = ((ground arith, ground arith), refl)

model-IsName : IsName (codes "model")
unfolding parse_component attribute_of indices_of break_at
model-IsName = ((ground arith, ground arith), refl)

module _ (objects : PythonObjects) where
  open objects use {Obj}

  -- What the walk to a container, or to the next model, is known to be.
  record Reaches (root cur : Obj) (ps : List Str) : Type 0 where
    walked : walk objects root ps ≡ ok cur
    parts : All IsPart ps

  Reaches-next :
      (root cur o : Obj) (ps : List Str) (name : Str)
      → IsName name
      → attr_value objects cur name ≡ some o
      → Reaches root cur ps
      → Reaches root o (ps ++ (name ∷ []))
  Reaches-next root cur o ps name good h r = record {
    walked = walk-next objects root cur o ps name r.walked good.1 h;
    parts = All-append IsPart ps (name ∷ []) r.parts (good.0, tt);
  }

  Reaches-resolves :
      (root o : Obj) (ps : List Str) (name : Str)
      → Reaches root o (ps ++ (name ∷ []))
      → resolve_object_by_path objects root (join b'.' (ps ++ (name ∷ []))) ≡ ok o
  Reaches-resolves root o [] name r = resolve-join objects root name [] r.parts ∙ r.walked
  Reaches-resolves root o (p ∷ ps) name r =
      resolve-join objects root p (ps ++ (name ∷ [])) r.parts ∙ r.walked

  layers-attr :
      (obj o : Obj)
      → layers_of objects obj ≡ some o
      → attr_value objects obj (codes "layers") ≡ some o
  layers-attr obj o h = ground arith

  decoder-attr :
      (obj o : Obj)
      → decoder_layers_of objects obj ≡ some o
      → (d : Obj) × (attr_value objects obj (codes "decoder") ≡ some d)
        × (layers_of objects d ≡ some o)
  decoder-attr obj o h = elim (Option-cases (attr_value objects obj (codes "decoder"))) [
    | inl absent ↦ absurd (ground arith)
    | inr (d, found) ↦ (d, found, ground arith)
  ]

  transfer :
      (root : Obj) {o found : Obj} {p path : Str}
      → ◌≡◌ {A = Result (Obj × Str)} (ok (o, p)) (ok (found, path))
      → resolve_object_by_path objects root p ≡ ok o
      → resolve_object_by_path objects root path ≡ ok found
  transfer root h e = cc

  layers_loop_sound :
      (rounds : ℕ) (root cur : Obj) (ps : List Str) (found : Obj) (path : Str)
      → Reaches root cur ps
      → layers_loop objects rounds cur ps ≡ ok (found, path)
      → resolve_object_by_path objects root path ≡ ok found
  unfolding layers_loop
  layers_loop_sound zero root cur ps found path r h = cc
  layers_loop_sound (suc rounds) root cur ps found path r h =
      elim (Option-cases (layers_of objects cur)) [
        | inr (o, direct) ↦ transfer root (rw (direct, layers_loop) at h) (
            Reaches-resolves root o ps _
              (Reaches-next root cur o ps _ layers-IsName (layers-attr cur o direct) r))
        | inl no_layers ↦ elim (Option-cases (decoder_layers_of objects cur)) [
          | inr (o, nested) ↦
              let (d, decoder, layers) = decoder-attr cur o nested in
              transfer root (rw (nested, layers_loop) at (rw (no_layers, layers_loop) at h)) (
                rw (← append_assoc ps (codes "decoder" ∷ []) (codes "layers" ∷ [])) (
                  Reaches-resolves root o (ps ++ (codes "decoder" ∷ [])) _ (
                    Reaches-next root d o _ _ layers-IsName (layers-attr d o layers)
                      (Reaches-next root cur d ps _ decoder-IsName decoder r))))
          | inl no_decoder ↦ elim (Option-cases (attr_value objects cur (codes "model"))) [
            | inl last ↦ ground arith
            | inr (nxt, more) ↦
                layers_loop_sound rounds root nxt (ps ++ (codes "model" ∷ [])) found path
                  (Reaches-next root cur nxt ps _ model-IsName more r)
                  (rw (more, layers_loop) at
                    (rw (no_decoder, layers_loop) at (rw (no_layers, layers_loop) at h)))
          ]
        ]
      ]

  -- Where the search for the layer container succeeds, the path that it returns resolves, from
  -- the same model, to the container that it returns.
  pub resolve_layers_container_sound :
      (model found : Obj) (path : Str)
      → resolve_layers_container objects model ≡ ok (found, path)
      → resolve_object_by_path objects model path ≡ ok found
  unfolding resolve_layers_container walk
  resolve_layers_container_sound model found path h =
      layers_loop_sound 8 model model [] found path (record { walked = refl; parts = tt }) h
