-- ===== src/Prelude/Table/Laws.antt =====
-- Laws of the table operations.
use Prim.Native.Nat.{suc}
use mathlib.Core.Path.{◌≡◌, refl, ap, ◌∙◌}
use mathlib.Core.Bool.{Bool, true, false, ◌&&◌}
use mathlib.Core.Logic.{inl, inr}
use mathlib.Core.Option.{Option, none, some}
use mathlib.Core.List.{List, [], ◌∷◌, Memᴰ}
use native.Mathlib.Omega.{arith}
use rascal.Prelude.Tests.{if◌then◌else◌, Bool-cases}
use rascal.Prelude.Table.{length, select_one, exists_where, count_where, update_where, delete_where}

module _ {ℓ} {A : Type ℓ} where
  pub exists_of_mem :
      (p : A → Bool) {x : A} {xs : List A} → Memᴰ x xs → p x ≡ true → exists_where p xs ≡ true
  unfolding exists_where
  exists_of_mem p (Memᴰ.head e) h = ground (arith, ap p e)
  exists_of_mem p (Memᴰ.tail m) h = ground (arith, exists_of_mem p m h)

  pub mem_of_exists :
      (p : A → Bool) (xs : List A) → exists_where p xs ≡ true → (x : A) × Memᴰ x xs × (p x ≡ true)
  unfolding exists_where
  mem_of_exists p [] h = cc
  mem_of_exists p (x ∷ xs) h = elim (Bool-cases (p x)) [
    | inl e ↦ (x, Memᴰ.head refl, e)
    | inr e ↦ later (mem_of_exists p xs (ground arith))
  ]
    where
      later : (y : A) × Memᴰ y xs × (p y ≡ true) → (y : A) × Memᴰ y (x ∷ xs) × (p y ≡ true)
      later (y, m, e) = (y, Memᴰ.tail m, e)

  pub select_one-mem :
      (p : A → Bool) (xs : List A) (x : A) → select_one p xs ≡ some x → Memᴰ x xs × (p x ≡ true)
  unfolding select_one
  select_one-mem p [] x h = absurd (ground arith)
  select_one-mem p (y ∷ xs) x h = elim (Bool-cases (p y)) [
    | inl e ↦ let same : x ≡ y = ground arith in (Memᴰ.head same, ap p same ∙ e)
    | inr e ↦ let (m, t) = select_one-mem p xs x (ground arith) in (Memᴰ.tail m, t)
  ]

  pub update-none :
      (p : A → Bool) (f : A → A) (xs : List A)
      → exists_where p xs ≡ false
      → update_where p f xs ≡ xs
  unfolding update_where exists_where
  update-none p f [] h = refl
  update-none p f (x ∷ xs) h = ground (arith, update-none p f xs)

  pub count-none : (p : A → Bool) (xs : List A) → exists_where p xs ≡ false → count_where p xs ≡ 0
  unfolding count_where exists_where
  count-none p [] h = refl
  count-none p (x ∷ xs) h = ground (arith, count-none p xs)

  pub exists-and :
      (p q : A → Bool) (xs : List A)
      → exists_where p xs ≡ false
      → exists_where (λ x. p x && q x) xs ≡ false
  unfolding exists_where
  exists-and p q [] h = refl
  exists-and p q (x ∷ xs) h = ground (arith, exists-and p q xs)

  -- An update that keeps the test keeps whether a row passes it.
  pub exists-update :
      (p q : A → Bool) (f : A → A) (xs : List A)
      → ((x : A) → q (f x) ≡ q x)
      → exists_where q (update_where p f xs) ≡ exists_where q xs
  unfolding exists_where update_where
  exists-update p q f [] h = refl
  exists-update p q f (x ∷ xs) h = elim (Bool-cases (p x)) [
    | inl e ↦ rw (e, h x, exists-update p q f xs h)
    | inr e ↦ rw (e, exists-update p q f xs h)
  ]

  abbrev pub option_map {κ} : {B : Type κ} → (A → B) → Option A → Option B
  option_map f none = none
  option_map f (some a) = some (f a)

  -- An update that keeps the test is seen in the row that the test finds.
  pub select-update :
      (p q : A → Bool) (f : A → A) (xs : List A)
      → ((x : A) → q (f x) ≡ q x)
      → select_one q (update_where p f xs)
        ≡ option_map (λ x. if p x then f x else x) (select_one q xs)
  unfolding select_one update_where
  select-update p q f [] h = refl
  select-update p q f (x ∷ xs) h = elim (Bool-cases (p x)) [
    | inl e ↦ elim (Bool-cases (q x)) [
      | inl t ↦ rw (e, h x, t, option_map, e)
      | inr t ↦ rw (e, h x, t) (select-update p q f xs h)
    ]
    | inr e ↦ elim (Bool-cases (q x)) [
      | inl t ↦ rw (e, t, option_map, e)
      | inr t ↦ rw (e, t) (select-update p q f xs h)
    ]
  ]

  -- A delete that spares the row that the test finds leaves it to be found.
  pub select-delete :
      (p q : A → Bool) (xs : List A) (x : A)
      → select_one q xs ≡ some x
      → p x ≡ false
      → select_one q (delete_where p xs) ≡ some x
  unfolding select_one delete_where
  select-delete p q [] x h k = h
  select-delete p q (y ∷ xs) x h k = elim (Bool-cases (q y)) [
    | inl t ↦
        let same : y ≡ x = ground arith in
        let spared : p y ≡ false = ap p same ∙ k in rw (spared, t, same)
    | inr t ↦ elim (Bool-cases (p y)) [
      | inl e ↦ rw e (select-delete p q xs x (ground arith) k)
      | inr e ↦ rw (e, t) (select-delete p q xs x (ground arith) k)
    ]
  ]

  -- A delete of all rows that pass the test leaves none.
  pub select-delete_none :
      (p q : A → Bool) (xs : List A)
      → ((x : A) → q x ≡ true → p x ≡ true)
      → select_one q (delete_where p xs) ≡ none
  unfolding select_one delete_where
  select-delete_none p q [] h = refl
  select-delete_none p q (y ∷ xs) h = elim (Bool-cases (q y)) [
    | inl t ↦ rw (h y t) (select-delete_none p q xs h)
    | inr t ↦ elim (Bool-cases (p y)) [
      | inl e ↦ rw e (select-delete_none p q xs h)
      | inr e ↦ rw (e, t) (select-delete_none p q xs h)
    ]
  ]

  -- A row exists exactly when one is found.
  pub exists-select :
      (q : A → Bool) (xs : List A)
      → exists_where q xs ≡ elim (select_one q xs) [ none ↦ false | some _ ↦ true ]
  unfolding select_one exists_where
  exists-select q [] = refl
  exists-select q (x ∷ xs) = elim (Bool-cases (q x)) [
    | inl t ↦ rw t
    | inr t ↦ rw t (exists-select q xs)
  ]

  pub length-update :
      (p : A → Bool) (f : A → A) (xs : List A) → length (update_where p f xs) ≡ length xs
  unfolding update_where
  length-update p f [] = refl
  length-update p f (x ∷ xs) = ap suc (length-update p f xs)
