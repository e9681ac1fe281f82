-- ===== src/Runtime/Assembler/Groups.antt =====
-- The keys under which the groups of an assembler were opened, and what a frame does to them.
use t_llm.Prelude.{
  ◌≡◌, sym, ◌∙◌, subst, ◌⊎◌, inl, inr, Bool, true, false, Option, none, some, [], ◌∷◌, ◌++◌, All,
  if◌then◌else◌, contains, ◌==◌, eq_of_==, Bool-cases, Option-cases, arith, list_eq, nat_eq,
}
use t_llm.Prelude.Dict.{Dict, keys, lookup, erase, lookup-insert}
use t_llm.Prelude.Dict.Laws.{NoDup, lookup-contains, contains-lookup, keys-insert, All-insert}
use t_llm.Prelude.Dict.Order.{lookup-erase_ne, lookup-erase_self}
use t_llm.Runtime.Ports.{ConsumerFlow}
use t_llm.Runtime.Assembler.{BundleKey, GroupKey, group_key_eq, is_aggregating, set_default}

pub keys-set_default :
    (group : GroupKey) (key : BundleKey) (d : Dict GroupKey BundleKey)
    → keys (set_default group key d)
      ≡ (if contains (keys d) group then keys d else keys d ++ (group ∷ []))
unfolding set_default
keys-set_default group key d = elim (Option-cases (lookup group d)) [
  | inl missing ↦ ground (arith, missing, keys-insert group key d, lookup-contains group d)
  | inr found ↦ ground (arith, found.1, contains-lookup group d found.0)
]

pub All-set_default :
    (P : GroupKey × BundleKey → Type 0) (group : GroupKey) (key : BundleKey)
    (d : Dict GroupKey BundleKey)
    → All P d
    → P (group, key)
    → All P (set_default group key d)
unfolding set_default
All-set_default P group key d h p = elim (Option-cases (lookup group d)) [
  | inl missing ↦ rw (missing, All) (All-insert P group key d h p)
  | inr found ↦ rw (found.1, All) h
]

-- What is found, or else the default where it is the one of the key
abbrev default_of : Option BundleKey → Bool → BundleKey → Option BundleKey
default_of (some old) here key = some old
default_of none true key = some key
default_of none false key = none

lookup-set_default :
    (other group : GroupKey) (key : BundleKey) (d : Dict GroupKey BundleKey)
    → lookup other (set_default group key d) ≡ default_of (lookup other d) (group == other) key
unfolding set_default
lookup-set_default other group key d = elim (Option-cases (lookup group d)) [
  | inl missing ↦ ground (arith, missing, lookup-insert other group key d, eq_of_== group other)
  | inr found ↦ ground (arith, found.1, eq_of_== group other)
]

-- What a frame of the key, which goes to the group, may do to the keys of the groups: no group
-- loses or changes its key, but that of the frame may be closed where the flow does not aggregate;
-- only the frame's group is opened, under the frame's key.
pub record KeepsKeys (flow : ConsumerFlow) (group : GroupKey) (key : BundleKey)
    (before after : Dict GroupKey BundleKey) : Type 0 where
  pub kept :
      (other : GroupKey) (old : BundleKey)
      → lookup other before ≡ some old
      → (lookup other after ≡ some old)
        ⊎ ((other ≡ group) × (is_aggregating flow ≡ false) × (lookup other after ≡ none))
  pub opened :
      (other : GroupKey) (new : BundleKey)
      → lookup other before ≡ none
      → lookup other after ≡ some new
      → (other ≡ group) × (new ≡ key)

-- The keys once the frame is stored, and once its group is closed or not.
abbrev pub IsStored : ConsumerFlow → GroupKey → (stored after : Dict GroupKey BundleKey) → Type 0
IsStored flow group stored after =
    (after ≡ stored) ⊎ ((is_aggregating flow ≡ false) × (after ≡ erase group stored))

pub same-KeepsKeys :
    (flow : ConsumerFlow) (group : GroupKey) (key : BundleKey) (before : Dict GroupKey BundleKey)
    → KeepsKeys flow group key before before
same-KeepsKeys flow group key before = record {
  kept = λ other old found. inl found;
  opened = λ other new missing found. absurd (cc);
}

set_default-KeepsKeys :
    (flow : ConsumerFlow) (group : GroupKey) (key : BundleKey) (before : Dict GroupKey BundleKey)
    → KeepsKeys flow group key before (set_default group key before)
set_default-KeepsKeys flow group key before = record {
  kept = λ other old found. inl (ground (arith, lookup-set_default other group key before, found));
  opened = λ other new missing found. (
    ground (arith, lookup-set_default other group key before, eq_of_== group other),
    ground (arith, lookup-set_default other group key before),
  );
}

-- A closed group has no key, and the others keep theirs.
erase-KeepsKeys :
    (flow : ConsumerFlow) (group : GroupKey) (key : BundleKey)
    (before stored : Dict GroupKey BundleKey)
    → is_aggregating flow ≡ false
    → NoDup (keys stored)
    → KeepsKeys flow group key before stored
    → KeepsKeys flow group key before (erase group stored)
erase-KeepsKeys flow group key before stored plain distinct h = record {
  kept = λ other old found. elim (Bool-cases (group == other)) [
    | inl here ↦
        let same = eq_of_== group other here in
        inr (
          sym same,
          plain,
          subst (λ g. lookup g (erase group stored) ≡ none) same
              (lookup-erase_self group stored distinct),
        )
    | inr elsewhere ↦ elim (h.kept other old found) [
      | inl still ↦ inl (lookup-erase_ne other group stored elsewhere ∙ still)
      | inr closed ↦
          inr (closed.0, closed.1, lookup-erase_ne other group stored elsewhere ∙ closed.2)
    ]
  ];
  opened = λ other new missing found. elim (Bool-cases (group == other)) [
    | inl here ↦
        let same = eq_of_== group other here in
        absurd (ground (arith, same, lookup-erase_self group stored distinct, found))
    | inr elsewhere ↦
        h.opened other new missing (sym (lookup-erase_ne other group stored elsewhere) ∙ found)
  ];
}

pub IsStored-KeepsKeys :
    (flow : ConsumerFlow) (group : GroupKey) (key : BundleKey)
    (before after : Dict GroupKey BundleKey)
    → NoDup (keys (set_default group key before))
    → IsStored flow group (set_default group key before) after
    → KeepsKeys flow group key before after
IsStored-KeepsKeys flow group key before after distinct (inl same) =
    subst (KeepsKeys flow group key before) (sym same) (set_default-KeepsKeys flow group key before)
IsStored-KeepsKeys flow group key before after distinct (inr closed) =
    subst (KeepsKeys flow group key before) (sym closed.1) (
      erase-KeepsKeys flow group key before (set_default group key before) closed.0 distinct
        (set_default-KeepsKeys flow group key before))
