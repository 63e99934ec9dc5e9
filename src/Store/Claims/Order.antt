-- ===== src/Store/Claims/Order.antt =====
-- The first row in the order of creation, as ORDER BY created_at, seq LIMIT 1 selects it.
use mathlib.Core.List.{Memᴰ}
use rascal.Prelude.{
  ◌≡◌, refl, ap, sym, ◌∙◌, ◌⊎◌, inl, inr, Bool, true, false, Option, none, some, List, [], ◌∷◌,
  arith, Bool-cases,
}
use rascal.Prelude.Table.{exists_where}
use rascal.Prelude.Table.Laws.{exists_of_mem}
use rascal.Store.Schema.{RunRow}
use rascal.Store.Claims.{before, earlier, first_in_order}

-- The row is the first, by creation and then by number, of the rows that pass the test.
abbrev pub IsFirst : (RunRow → Bool) → List RunRow → RunRow → Type 0
IsFirst p rows r =
    Memᴰ r rows × (p r ≡ true) × ((o : RunRow) → Memᴰ o rows → p o ≡ true → before o r ≡ false)

before_chain : (a b c : RunRow) → before a b ≡ false → before b c ≡ false → before a c ≡ false
before_chain a b c h k = ground arith

before_flip : (a b : RunRow) → before a b ≡ true → before b a ≡ false
before_flip a b h = ground arith

before_irrefl : (a : RunRow) → before a a ≡ false
before_irrefl a = ground arith

-- `r` is not later than any row that passes the test.
abbrev Leads : (RunRow → Bool) → List RunRow → RunRow → Type 0
Leads p rows r = (o : RunRow) → Memᴰ o rows → p o ≡ true → before o r ≡ false

Leads-cons :
    (p : RunRow → Bool) (x r : RunRow) (rows : List RunRow)
    → (p x ≡ true → before x r ≡ false)
    → Leads p rows r
    → Leads p (x ∷ rows) r
Leads-cons p x r rows hx h o (Memᴰ.head e) t = ap (λ y. before y r) e ∙ hx (sym (ap p e) ∙ t)
Leads-cons p x r rows hx h o (Memᴰ.tail m) t = h o m t

Leads-none :
    (p : RunRow → Bool) (rows : List RunRow) (r : RunRow)
    → exists_where p rows ≡ false
    → Leads p rows r
Leads-none p rows r e o m t = let found = exists_of_mem p m t in absurd (ground arith)

abbrev pub First : (RunRow → Bool) → List RunRow → Option RunRow → Type 0
First p rows result =
    ((exists_where p rows ≡ false) × (result ≡ none))
    ⊎ ((r : RunRow) × IsFirst p rows r × (result ≡ some r))

First-skip :
    (p : RunRow → Bool) (x : RunRow) (rows : List RunRow) (o : Option RunRow)
    → p x ≡ false
    → First p rows o
    → First p (x ∷ rows) o
unfolding exists_where
First-skip p x rows o e (inl (h, q)) = inl (rw (e, h), q)
First-skip p x rows o e (inr (r, (m, t, l), q)) =
    inr (r, (Memᴰ.tail m, t, Leads-cons p x r rows (λ h. absurd (ground arith)) l), q)

First-take :
    (p : RunRow → Bool) (x : RunRow) (rows : List RunRow) (o : Option RunRow)
    → p x ≡ true
    → First p rows o
    → First p (x ∷ rows) (some (earlier x o))
First-take p x rows o e (inl (h, q)) = inr (
  x,
  (Memᴰ.head refl, e, Leads-cons p x x rows (λ _. before_irrefl x) (Leads-none p rows x h)),
  rw q,
)
First-take p x rows o e (inr (r, (m, t, l), q)) = elim (Bool-cases (before r x)) [
  | inl b ↦
      inr (r, (Memᴰ.tail m, t, Leads-cons p x r rows (λ _. before_flip r x b) l), ground arith)
  | inr b ↦ inr (
    x,
    (
      Memᴰ.head refl,
      e,
      Leads-cons p x x rows (λ _. before_irrefl x) (λ y n k. before_chain y r x (l y n k) b),
    ),
    ground arith,
  )
]

First-nil : (p : RunRow → Bool) → First p [] none
unfolding exists_where
First-nil p = inl (refl, refl)

pub first_in_order-First :
    (p : RunRow → Bool) (rows : List RunRow) → First p rows (first_in_order p rows)
unfolding first_in_order
first_in_order-First p [] = First-nil p
first_in_order-First p (x ∷ rows) = elim (Bool-cases (p x)) [
  | inl e ↦ rw e (First-take p x rows (first_in_order p rows) e (first_in_order-First p rows))
  | inr e ↦ rw e (First-skip p x rows (first_in_order p rows) e (first_in_order-First p rows))
]
