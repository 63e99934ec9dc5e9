-- ===== src/Runtime/Labels/First.antt =====
-- Which of the labels of an issue decides the runtime (RuntimeFromLabels of internal/runtime/agent.go).
use mathlib.Core.List.{Memᴰ}
use rascal.Prelude.{
  ◌≡◌, ◌≢◌, refl, sym, ap, ◌∙◌, subst, inl, inr, ◌⊎◌, true, false, List, [], ◌∷◌, map, arith,
}
use rascal.Prelude.Table.{select_where}
use rascal.Prelude.Order.{
  sort_by, InOrder, sort-InOrder, mem-sort, mem_of_sort, mem-select, mem_of_select,
}
use rascal.Text.{Text, trim_space}
use rascal.Text.Compare.{text_lt, lt_asym, not_lt_chain}
use rascal.Runtime.Labels.{
  Label, bare, runs, unknown, parse_label_strict, is_runtime_label, or_next, first_runtime,
  runtime_from_labels,
}

-- Of the labels that name a runtime, well or badly, `l` is one, and none comes before it.
abbrev pub Decides : List Text → Text → Type 0
Decides names l =
    Memᴰ l (map trim_space names)
    × (is_runtime_label l ≡ true)
    × (parse_label_strict l ≢ bare)
    × ((k : Text)
        → Memᴰ k (map trim_space names)
        → is_runtime_label k ≡ true
        → text_lt k l ≡ true
        → parse_label_strict k ≡ bare)

abbrev Leads : List Text → Text → Type 0
Leads ls l =
    Memᴰ l ls
    × (parse_label_strict l ≢ bare)
    × (first_runtime ls ≡ parse_label_strict l)
    × ((k : Text) → Memᴰ k ls → text_lt k l ≡ true → parse_label_strict k ≡ bare)

Label-cases : (x : Label) → (x ≡ bare) ⊎ (x ≢ bare)
Label-cases bare = inl refl
Label-cases (runs r) = inr (λ h. cc)
Label-cases unknown = inr (λ h. cc)

or_next_stops : (x rest : Label) → x ≢ bare → or_next x rest ≡ x
or_next_stops bare rest h = absurd (h refl)
or_next_stops (runs r) rest h = refl
or_next_stops unknown rest h = refl

-- A label that is bare may stand in front.
with_bare :
    {l k : Text} {ls : List Text}
    → parse_label_strict l ≡ bare
    → (Memᴰ k ls → parse_label_strict k ≡ bare)
    → Memᴰ k (l ∷ ls)
    → parse_label_strict k ≡ bare
with_bare h n (Memᴰ.head e) = ap parse_label_strict e ∙ h
with_bare h n (Memᴰ.tail m) = n m

none_before :
    {l k : Text} {ls : List Text}
    → ((y : Text) → Memᴰ y ls → text_lt y l ≡ false)
    → Memᴰ k (l ∷ ls)
    → text_lt k l ≡ true
    → ⊥
none_before {l} {k} first (Memᴰ.head e) h =
    let back : text_lt l k ≡ false = lt_asym k l h in
    let same : text_lt k l ≡ text_lt l k = subst (λ x. text_lt x l ≡ text_lt l x) (sym e) refl in
    absurd (ground (arith, same))
none_before {l} {k} first (Memᴰ.tail m) h = absurd (ground (arith, first k m))

first_runtime-Leads :
    (ls : List Text)
    → InOrder text_lt ls
    → ((first_runtime ls ≡ bare) × ((k : Text) → Memᴰ k ls → parse_label_strict k ≡ bare))
      ⊎ ((l : Text) × Leads ls l)
unfolding first_runtime
first_runtime-Leads [] o = inl (refl, λ k m. elim m [ ])
first_runtime-Leads (l ∷ ls) (first, o) = elim (Label-cases (parse_label_strict l)) [
  | inr h ↦ inr (
    l,
    (
      Memᴰ.head refl,
      h,
      or_next_stops (parse_label_strict l) (first_runtime ls) h,
      λ k m t. absurd (none_before first m t),
    ),
  )
  | inl h ↦ elim (first_runtime-Leads ls o) [
    | inl (e, n) ↦ inl (rw h e, λ k m. with_bare h (n k) m)
    | inr (r, (m, g, e, n)) ↦
        inr (r, (Memᴰ.tail m, g, rw h e, λ k q t. with_bare h (λ z. n k z t) q))
  ]
]

-- RuntimeFromLabels gives the runtime, or the error, of the label that decides: the first, in the
-- order of strings, of those that name a runtime. When no label names one it gives no runtime.
pub runtime_from_labels-Decides :
    (names : List Text)
    → ((runtime_from_labels names ≡ bare)
        × ((k : Text)
            → Memᴰ k (map trim_space names)
            → is_runtime_label k ≡ true
            → parse_label_strict k ≡ bare))
      ⊎ ((l : Text) × Decides names l × (runtime_from_labels names ≡ parse_label_strict l))
unfolding runtime_from_labels
runtime_from_labels-Decides names =
    elim (first_runtime-Leads sorted (sort-InOrder text_lt lt_asym not_lt_chain chosen)) [
      | inl (e, n) ↦ inl (e, λ k m t. n k (inside k m t))
      | inr (l, (m, g, e, n)) ↦
          let (o, t) = mem_of_select is_runtime_label l trimmed (mem_of_sort text_lt l chosen m) in
          inr (l, (o, t, g, λ k p q b. n k (inside k p q) b), e)
    ]
  where
    trimmed : List Text
    trimmed = map trim_space names

    chosen : List Text
    chosen = select_where is_runtime_label trimmed

    sorted : List Text
    sorted = sort_by text_lt chosen

    inside : (k : Text) → Memᴰ k trimmed → is_runtime_label k ≡ true → Memᴰ k sorted
    inside k m t = mem-sort text_lt k chosen (mem-select is_runtime_label k trimmed m t)
