-- ===== src/Credentials/Select/Best.antt =====
-- What each strategy of internal/credentials/strategies picks: a least candidate of the right kind,
-- and among equals the one with the first identifier.
use mathlib.Core.List.{Memᴰ}
use rascal.Prelude.{
  ◌≡◌, refl, sym, subst, ◌∙◌, ◌⊎◌, inl, inr, Bool, true, false, none, some, List, [], ◌∷◌,
  if◌then◌else◌, Bool-cases,
}
use rascal.Prelude.Table.{select_where}
use rascal.Prelude.Order.{
  InOrder, sort-InOrder, mem-sort, mem_of_sort, mem-select, mem_of_select, select-InOrder,
}
use rascal.Text.{Text}
use rascal.Text.Compare.{text_lt, lt_asym, not_lt_chain}
use rascal.Credentials.Select.{CredentialState, id_lt, by_id, min_loop, min_by}

-- `r` is one of the candidates that pass the test. None of those is less, and of those that are not
-- more than `r` none has an earlier identifier.
pub record Best (less : CredentialState → CredentialState → Bool) (p : CredentialState → Bool)
    (cs : List CredentialState) (r : CredentialState) : Type 0 where
  pub candidate : Memᴰ r cs
  pub passes : p r ≡ true
  pub least : (c : CredentialState) → Memᴰ c cs → p c ≡ true → less c r ≡ false
  pub first :
      (c : CredentialState) → Memᴰ c cs → p c ≡ true → less r c ≡ false → text_lt c.id r.id ≡ false

not_lt_self : (s : Text) → text_lt s s ≡ false
not_lt_self s = elim (Bool-cases (text_lt s s)) [ inl e ↦ lt_asym s s e | inr e ↦ e ]

by_id-InOrder : (cs : List CredentialState) → InOrder id_lt (by_id cs)
by_id-InOrder cs =
    sort-InOrder id_lt (λ x y. lt_asym x.id y.id) (λ x y z. not_lt_chain x.id y.id z.id) cs

abbrev pub NoneOf : (CredentialState → Bool) → List CredentialState → Type 0
NoneOf p cs = (c : CredentialState) → Memᴰ c cs → p c ≡ false

module _ (less : CredentialState → CredentialState → Bool)
    (asym : (x y : CredentialState) → less x y ≡ true → less y x ≡ false)
    (chain : (x y z : CredentialState)
      → less x y ≡ false
      → less y z ≡ false
      → less x z ≡ false) where
  abbrev Wins : CredentialState → List CredentialState → Type 0
  Wins r cs =
      (c : CredentialState)
      → Memᴰ c cs
      → (less c r ≡ false) × (less r c ≡ false → text_lt c.id r.id ≡ false)

  irrefl : (x : CredentialState) → less x x ≡ false
  irrefl x = elim (Bool-cases (less x x)) [ inl e ↦ asym x x e | inr e ↦ e ]

  abbrev Won : CredentialState → CredentialState → Type 0
  Won r c = (less c r ≡ false) × (less r c ≡ false → text_lt c.id r.id ≡ false)

  -- The beaten one loses to the winner too.
  beaten : (r best x : CredentialState) → less x best ≡ true → Won r x → Won r best
  beaten r best x h w = elim (Bool-cases (less r best)) [
    | inr e ↦ absurd (not_both (sym h ∙ chain x r best w.0 e))
    | inl e ↦ (asym r best e, λ k. absurd (not_both (sym e ∙ k)))
  ]
    where
      not_both : true ≡ false → ⊥
      not_both q = cc

  -- So does one that comes later and is not less.
  later :
      (r best x : CredentialState)
      → less x best ≡ false
      → id_lt x best ≡ false
      → Won r best
      → Won r x
  later r best x h o w =
      (chain x best r h w.0, λ k. not_lt_chain x.id best.id r.id o (w.1 (chain r x best k h)))

  min_loop-mem :
      (best : CredentialState) (xs : List CredentialState)
      → Memᴰ (min_loop less best xs) (best ∷ xs)
  unfolding min_loop
  min_loop-mem best [] = Memᴰ.head refl
  min_loop-mem best (x ∷ xs) = elim (Bool-cases (less x best)) [
    | inl e ↦ rw e (Memᴰ.tail (min_loop-mem x xs))
    | inr e ↦ rw e (skip (min_loop-mem best xs))
  ]
    where
      skip : {r : CredentialState} → Memᴰ r (best ∷ xs) → Memᴰ r (best ∷ x ∷ xs)
      skip (Memᴰ.head q) = Memᴰ.head q
      skip (Memᴰ.tail m) = Memᴰ.tail (Memᴰ.tail m)

  min_loop-Wins :
      (best : CredentialState) (xs : List CredentialState)
      → InOrder id_lt (best ∷ xs)
      → Wins (min_loop less best xs) (best ∷ xs)
  unfolding min_loop
  min_loop-Wins best [] o c (Memᴰ.head q) =
      subst (Won best) (sym q) (irrefl best, λ _. not_lt_self best.id)
  min_loop-Wins best [] o c (Memᴰ.tail m) = elim m [ ]
  min_loop-Wins best (x ∷ xs) (first, o) c m = elim (Bool-cases (less x best)) [
    | inl e ↦
        subst (λ b. Won (min_loop less (if b then x else best) xs) c) (sym e)
          (over_best e (min_loop-Wins x xs o) m)
    | inr e ↦
        subst (λ b. Won (min_loop less (if b then x else best) xs) c) (sym e)
          (over_next e (min_loop-Wins best xs ((λ y n. first y (Memᴰ.tail n)), o.1)) m)
  ]
    where
      over_best :
          {r : CredentialState}
          → less x best ≡ true
          → Wins r (x ∷ xs)
          → Memᴰ c (best ∷ x ∷ xs)
          → Won r c
      over_best {r = r} e w (Memᴰ.head q) =
          subst (Won r) (sym q) (beaten r best x e (w x (Memᴰ.head refl)))
      over_best e w (Memᴰ.tail n) = w c n

      over_next :
          {r : CredentialState}
          → less x best ≡ false
          → Wins r (best ∷ xs)
          → Memᴰ c (best ∷ x ∷ xs)
          → Won r c
      over_next e w (Memᴰ.head q) = w c (Memᴰ.head q)
      over_next {r = r} e w (Memᴰ.tail (Memᴰ.head q)) =
          subst (Won r) (sym q)
            (later r best x e (first x (Memᴰ.head refl)) (w best (Memᴰ.head refl)))
      over_next e w (Memᴰ.tail (Memᴰ.tail n)) = w c (Memᴰ.tail n)

  -- `minBy` over the filtered candidates in the order of their identifiers.
  pub min_by-Best :
      (p : CredentialState → Bool) (cs : List CredentialState)
      → ((min_by less (select_where p (by_id cs)) ≡ none) × NoneOf p cs)
        ⊎ ((r : CredentialState) × (min_by less (select_where p (by_id cs)) ≡ some r)
            × Best less p cs r)
  unfolding min_by
  min_by-Best p cs =
      from_rows (select_where p (by_id cs))
        (λ c m k. mem-select p c (by_id cs) (mem-sort id_lt c cs m) k)
        (λ c m. let (n, k) = mem_of_select p c (by_id cs) m in (mem_of_sort id_lt c cs n, k))
        (select-InOrder id_lt p (by_id cs) (by_id-InOrder cs))
    where
      from_rows :
          (rows : List CredentialState)
          → ((c : CredentialState) → Memᴰ c cs → p c ≡ true → Memᴰ c rows)
          → ((c : CredentialState) → Memᴰ c rows → Memᴰ c cs × (p c ≡ true))
          → InOrder id_lt rows
          → ((min_by less rows ≡ none) × NoneOf p cs)
            ⊎ ((r : CredentialState) × (min_by less rows ≡ some r) × Best less p cs r)
      from_rows [] into out o =
          inl (refl, λ c m. elim (Bool-cases (p c)) [ inl k ↦ elim (into c m k) [ ] | inr k ↦ k ])
      from_rows (x ∷ xs) into out o =
          let (m, k) = out (min_loop less x xs) (min_loop-mem x xs) in
          let wins = min_loop-Wins x xs o in
          inr (
            min_loop less x xs,
            refl,
            record {
              candidate = m;
              passes = k;
              least = λ c n t. (wins c (into c n t)).0;
              first = λ c n t. (wins c (into c n t)).1;
            },
          )
