-- ===== src/Prelude/Order.antt =====
-- Sorting, as ORDER BY and package slices do it over keys that differ, and its laws.
use mathlib.Core.Path.{◌≡◌, sym, ap, ◌∙◌}
use mathlib.Core.Logic.{inl, inr}
use mathlib.Core.Bool.{Bool, true, false}
use mathlib.Core.List.{List, [], ◌∷◌, Memᴰ}
use rascal.Prelude.Tests.{if◌then◌else◌, Bool-cases}
use rascal.Prelude.Table.{select_where}

module _ {ℓ} {A : Type ℓ} where
  unfoldable pub insert_by : (A → A → Bool) → A → List A → List A
  insert_by less x [] = x ∷ []
  insert_by less x (y ∷ ys) =
      let rest = insert_by less x ys in if less y x then y ∷ rest else x ∷ y ∷ ys

  unfoldable pub sort_by : (A → A → Bool) → List A → List A
  unfolding insert_by
  sort_by less [] = []
  sort_by less (x ∷ xs) = insert_by less x (sort_by less xs)

  -- No row is less than an earlier one.
  abbrev pub InOrder : (A → A → Bool) → List A → Type ℓ
  InOrder less [] = Unit
  InOrder less (x ∷ xs) = ((y : A) → Memᴰ y xs → less y x ≡ false) × InOrder less xs

  under :
      {x y z : A} {ys rest : List A}
      → Memᴰ y (x ∷ z ∷ ys)
      → (Memᴰ y (x ∷ ys) → Memᴰ y rest)
      → Memᴰ y (z ∷ rest)
  under (Memᴰ.head e) k = Memᴰ.tail (k (Memᴰ.head e))
  under (Memᴰ.tail (Memᴰ.head e)) k = Memᴰ.head e
  under (Memᴰ.tail (Memᴰ.tail m)) k = Memᴰ.tail (k (Memᴰ.tail m))

  wider : {x y z : A} {ys : List A} → Memᴰ y (x ∷ ys) → Memᴰ y (x ∷ z ∷ ys)
  wider (Memᴰ.head e) = Memᴰ.head e
  wider (Memᴰ.tail n) = Memᴰ.tail (Memᴰ.tail n)

  over :
      {x y z : A} {ys rest : List A}
      → Memᴰ y (z ∷ rest)
      → (Memᴰ y rest → Memᴰ y (x ∷ ys))
      → Memᴰ y (x ∷ z ∷ ys)
  over (Memᴰ.head e) k = Memᴰ.tail (Memᴰ.head e)
  over (Memᴰ.tail m) k = wider (k m)

  mem-insert :
      (less : A → A → Bool) (x y : A) (ys : List A) → Memᴰ y (x ∷ ys) → Memᴰ y (insert_by less x ys)
  unfolding insert_by
  mem-insert less x y [] m = m
  mem-insert less x y (z ∷ ys) m = elim (Bool-cases (less z x)) [
    | inr e ↦ rw e m
    | inl e ↦ rw e (under m (mem-insert less x y ys))
  ]

  mem_of_insert :
      (less : A → A → Bool) (x y : A) (ys : List A) → Memᴰ y (insert_by less x ys) → Memᴰ y (x ∷ ys)
  unfolding insert_by
  mem_of_insert less x y [] m = m
  mem_of_insert less x y (z ∷ ys) m = elim (Bool-cases (less z x)) [
    | inr e ↦ rw e at m
    | inl e ↦ over (rw e at m) (mem_of_insert less x y ys)
  ]

  -- Sorting loses no row and adds none.
  pub mem-sort : (less : A → A → Bool) (y : A) (xs : List A) → Memᴰ y xs → Memᴰ y (sort_by less xs)
  unfolding sort_by
  mem-sort less y [] m = elim m [ ]
  mem-sort less y (x ∷ xs) (Memᴰ.head e) = mem-insert less x y (sort_by less xs) (Memᴰ.head e)
  mem-sort less y (x ∷ xs) (Memᴰ.tail m) =
      mem-insert less x y (sort_by less xs) (Memᴰ.tail (mem-sort less y xs m))

  pub mem_of_sort :
      (less : A → A → Bool) (y : A) (xs : List A) → Memᴰ y (sort_by less xs) → Memᴰ y xs
  unfolding sort_by
  mem_of_sort less y [] m = m
  mem_of_sort less y (x ∷ xs) m =
      later (mem_of_insert less x y (sort_by less xs) m) (mem_of_sort less y xs)
    where
      later :
          Memᴰ y (x ∷ sort_by less xs) → (Memᴰ y (sort_by less xs) → Memᴰ y xs) → Memᴰ y (x ∷ xs)
      later (Memᴰ.head e) k = Memᴰ.head e
      later (Memᴰ.tail n) k = Memᴰ.tail (k n)

  pub mem-select :
      (p : A → Bool) (y : A) (xs : List A) → Memᴰ y xs → p y ≡ true → Memᴰ y (select_where p xs)
  unfolding select_where
  mem-select p y [] m t = elim m [ ]
  mem-select p y (x ∷ xs) (Memᴰ.head e) t = rw (sym (ap p e) ∙ t) (Memᴰ.head e)
  mem-select p y (x ∷ xs) (Memᴰ.tail m) t = elim (Bool-cases (p x)) [
    | inl k ↦ rw k (Memᴰ.tail (mem-select p y xs m t))
    | inr k ↦ rw k (mem-select p y xs m t)
  ]

  pub mem_of_select :
      (p : A → Bool) (y : A) (xs : List A) → Memᴰ y (select_where p xs) → Memᴰ y xs × (p y ≡ true)
  unfolding select_where
  mem_of_select p y [] m = elim m [ ]
  mem_of_select p y (x ∷ xs) m = elim (Bool-cases (p x)) [
    | inl k ↦ found k (rw k at m) (mem_of_select p y xs)
    | inr k ↦ let (n, t) = mem_of_select p y xs (rw k at m) in (Memᴰ.tail n, t)
  ]
    where
      found :
          p x ≡ true
          → Memᴰ y (x ∷ select_where p xs)
          → (Memᴰ y (select_where p xs) → Memᴰ y xs × (p y ≡ true))
          → Memᴰ y (x ∷ xs) × (p y ≡ true)
      found k (Memᴰ.head e) rest = (Memᴰ.head e, ap p e ∙ k)
      found k (Memᴰ.tail n) rest = let (o, t) = rest n in (Memᴰ.tail o, t)

  pub select-InOrder :
      (less : A → A → Bool) (p : A → Bool) (xs : List A)
      → InOrder less xs
      → InOrder less (select_where p xs)
  unfolding select_where
  select-InOrder less p [] o = tt
  select-InOrder less p (x ∷ xs) (first, o) = elim (Bool-cases (p x)) [
    | inl k ↦ rw k ((λ y m. first y (mem_of_select p y xs m).0), select-InOrder less p xs o)
    | inr k ↦ rw k (select-InOrder less p xs o)
  ]

  module _ (less : A → A → Bool) (asym : (x y : A) → less x y ≡ true → less y x ≡ false)
      (chain : (x y z : A) → less x y ≡ false → less y z ≡ false → less x z ≡ false) where
    insert-InOrder : (x : A) (ys : List A) → InOrder less ys → InOrder less (insert_by less x ys)
    unfolding insert_by
    insert-InOrder x [] o = ((λ y m. elim m [ ]), tt)
    insert-InOrder x (z ∷ ys) (first, o) = elim (Bool-cases (less z x)) [
      | inl e ↦ rw e ((λ y m. above e y (mem_of_insert less x y ys m)), insert-InOrder x ys o)
      | inr e ↦ rw e ((λ y m. below e y m), (first, o))
    ]
      where
        above : less z x ≡ true → (y : A) → Memᴰ y (x ∷ ys) → less y z ≡ false
        above e y (Memᴰ.head q) = ap (λ v. less v z) q ∙ asym z x e
        above e y (Memᴰ.tail m) = first y m

        below : less z x ≡ false → (y : A) → Memᴰ y (z ∷ ys) → less y x ≡ false
        below e y (Memᴰ.head q) = ap (λ v. less v x) q ∙ e
        below e y (Memᴰ.tail m) = chain y z x (first y m) e

    pub sort-InOrder : (xs : List A) → InOrder less (sort_by less xs)
    unfolding sort_by
    sort-InOrder [] = tt
    sort-InOrder (x ∷ xs) = insert-InOrder x (sort_by less xs) (sort-InOrder xs)
