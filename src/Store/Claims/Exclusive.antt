-- ===== src/Store/Claims/Exclusive.antt =====
-- At most one running run for each task, kept by the claiming statements.
use mathlib.Core.List.{Memᴰ}
use rascal.Prelude.{
  ℕ, ◌+◌, ◌≤◌, ◌≡◌, refl, ap, sym, ◌∙◌, inl, inr, Bool, true, false, not, ◌&&◌, List, [], ◌∷◌,
  arith, Bool-cases, if◌then◌else◌, subst,
}
use rascal.Prelude.Table.{exists_where, count_where, update_where}
use rascal.Prelude.Table.Laws.{
  exists_of_mem, mem_of_exists, update-none, count-none, exists-and, exists-update,
}
use rascal.Text.{Text, text_eq}
use rascal.Text.Laws.{text_eq→eq, text_eq_refl}
use rascal.Store.Schema.{RunRow}
use rascal.Store.Sql.{has_id, is_queued, is_running}
use rascal.Store.Claims.{free_beside, claimable, set_running, claim_row}

-- A running run of the task.
abbrev pub busy : Text → RunRow → Bool
busy t row = text_eq row.run.task_id t && is_running row.run.status

-- For each task the table has at most one running run.
abbrev pub IsExclusive : List RunRow → Type 0
IsExclusive rows = (t : Text) → count_where (busy t) rows ≤ 1

-- The identifiers of the rows differ (the UNIQUE constraint on `runs.id`).
abbrev pub UniqueIds : List RunRow → Type 0
UniqueIds [] = Unit {0}
UniqueIds (r ∷ rs) = (exists_where (has_id r.run.id) rs ≡ false) × UniqueIds rs

no_twin :
    (id : Text) (rows : List RunRow) (a : RunRow)
    → exists_where (has_id id) rows ≡ false
    → Memᴰ a rows
    → ¬ (a.run.id ≡ id)
no_twin id rows a h m e =
    let hit : has_id id a ≡ true = rw (← e) (text_eq_refl a.run.id) in
    let found : exists_where (has_id id) rows ≡ true = exists_of_mem (has_id id) m hit in cc

pub UniqueIds-mem :
    (rows : List RunRow) (a b : RunRow)
    → UniqueIds rows
    → Memᴰ a rows
    → Memᴰ b rows
    → a.run.id ≡ b.run.id
    → a ≡ b
UniqueIds-mem [] a b u m n e = elim m [ ]
UniqueIds-mem (r ∷ rows) a b u (Memᴰ.head p) (Memᴰ.head q) e = p ∙ sym q
UniqueIds-mem (r ∷ rows) a b u (Memᴰ.head p) (Memᴰ.tail n) e =
    absurd (no_twin r.run.id rows b u.0 n (sym e ∙ ap (λ (x : RunRow). x.run.id) p))
UniqueIds-mem (r ∷ rows) a b u (Memᴰ.tail m) (Memᴰ.head q) e =
    absurd (no_twin r.run.id rows a u.0 m (e ∙ ap (λ (x : RunRow). x.run.id) q))
UniqueIds-mem (r ∷ rows) a b u (Memᴰ.tail m) (Memᴰ.tail n) e = UniqueIds-mem rows a b u.1 m n e

-- An update that leaves the identifiers alone keeps them unique.
pub UniqueIds-update :
    (p : RunRow → Bool) (f : RunRow → RunRow) (rows : List RunRow)
    → ((r : RunRow) → (f r).run.id ≡ r.run.id)
    → UniqueIds rows
    → UniqueIds (update_where p f rows)
unfolding update_where
UniqueIds-update p f [] h u = tt
UniqueIds-update p f (r ∷ rows) h u = elim (Bool-cases (p r)) [
  | inl e ↦ rw (e, h r) (fresh, UniqueIds-update p f rows h u.1)
  | inr e ↦ rw e (fresh, UniqueIds-update p f rows h u.1)
]
  where
    fresh : exists_where (has_id r.run.id) (update_where p f rows) ≡ false
    fresh = exists-update p (has_id r.run.id) f rows (λ x. ap (λ i. text_eq i r.run.id) (h x)) ∙ u.0

module _ (g : RunRow → Bool) (id : Text) (now : ℕ) where
  abbrev picked : RunRow → Bool
  picked row = has_id id row && (is_queued row.run.status && g row)

  claim_count :
      (t : Text) (rows : List RunRow)
      → UniqueIds rows
      → count_where (busy t) (update_where picked (set_running now) rows)
        ≤ count_where (busy t) rows
          + (if exists_where (λ row. picked row && text_eq row.run.task_id t) rows then 1 else 0)
  unfolding count_where update_where exists_where
  claim_count t [] u = omega arith
  claim_count t (r ∷ rows) u = elim (Bool-cases (picked r)) [
    | inl e ↦ rw (e, update-none picked (set_running now) rows (alone e)) (ground arith)
    | inr e ↦ rw e (ground (arith, claim_count t rows u.1))
  ]
    where
      named : picked r ≡ true → r.run.id ≡ id
      named e = text_eq→eq r.run.id id (ground arith)

      alone : picked r ≡ true → exists_where picked rows ≡ false
      alone e =
          exists-and (has_id id) (λ row. is_queued row.run.status && g row) rows
            (subst (λ i. exists_where (has_id i) rows ≡ false) (named e) u.0)

same_task : (a b t : Text) → text_eq a t ≡ true → text_eq b t ≡ true → text_eq a b ≡ true
same_task a b t p q = rw (text_eq→eq a t p, text_eq→eq b t q) (text_eq_refl t)

-- Beside a row that may be claimed no other row of its task runs, and the row itself does not.
claimable_not_busy :
    (id t : Text) (rows : List RunRow) (r o : RunRow)
    → UniqueIds rows
    → Memᴰ r rows
    → Memᴰ o rows
    → claimable id rows r ≡ true
    → text_eq r.run.task_id t ≡ true
    → busy t o ≡ true
    → ⊥
claimable_not_busy id t rows r o u m n c k b = elim (Bool-cases (text_eq o.run.id r.run.id)) [
  | inl same ↦
      let e : o ≡ r = UniqueIds-mem rows o r u n m (text_eq→eq o.run.id r.run.id same) in
      let s : o.run.status ≡ r.run.status = ap (λ (x : RunRow). x.run.status) e in ground arith
  | inr apart ↦
      let near = same_task o.run.task_id r.run.task_id t (ground arith) k in
      let found = exists_of_mem (beside r) n (ground arith) in ground arith
]
  where
    beside : RunRow → RunRow → Bool
    beside row x =
        text_eq x.run.task_id row.run.task_id
        && is_running x.run.status
        && not (text_eq x.run.id row.run.id)

-- So the task of a row that may be claimed has no running run at all.
idle_task :
    (id t : Text) (rows : List RunRow)
    → UniqueIds rows
    → exists_where (λ row. claimable id rows row && text_eq row.run.task_id t) rows ≡ true
    → exists_where (busy t) rows ≡ false
idle_task id t rows u h = elim (Bool-cases (exists_where (busy t) rows)) [
  | inr e ↦ e
  | inl e ↦
      let (r, m, p) =
        mem_of_exists (λ row. claimable id rows row && text_eq row.run.task_id t) rows h in
      let (o, n, b) = mem_of_exists (busy t) rows e in
      absurd (claimable_not_busy id t rows r o u m n (ground arith) (ground arith) b)
]

-- The claiming UPDATE keeps at most one running run for each task.
pub claim_row-IsExclusive :
    (id : Text) (now : ℕ) (rows : List RunRow)
    → UniqueIds rows
    → IsExclusive rows
    → IsExclusive (claim_row id now rows)
unfolding claim_row
claim_row-IsExclusive id now rows u x t = elim (Bool-cases hit) [
  | inl e ↦ omega (arith, subst Bounded e bound, count-none (busy t) rows (idle_task id t rows u e))
  | inr e ↦ omega (arith, subst Bounded e bound, x t)
]
  where
    hit : Bool
    hit = exists_where (λ row. claimable id rows row && text_eq row.run.task_id t) rows

    Bounded : Bool → Type 0
    Bounded b =
        count_where (busy t) (update_where (claimable id rows) (set_running now) rows)
        ≤ count_where (busy t) rows + (if b then 1 else 0)

    bound : Bounded hit
    bound = claim_count (free_beside rows) id now t rows u

pub claim_row-UniqueIds :
    (id : Text) (now : ℕ) (rows : List RunRow) → UniqueIds rows → UniqueIds (claim_row id now rows)
unfolding claim_row
claim_row-UniqueIds id now rows u =
    UniqueIds-update (claimable id rows) (set_running now) rows (λ r. refl) u
