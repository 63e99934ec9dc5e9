-- ===== src/Store/Comments/Once.antt =====
-- A completion comment is claimed by one caller at a time, and not again once posted.
use rascal.Prelude.{
  ℕ, ◌≤◌, ◌≡◌, refl, ap, sym, ◌∙◌, inl, inr, subst, Bool, true, false, Option, none, some, List, [],
  ◌∷◌, arith, Bool-cases, Option-cases,
}
use rascal.Prelude.Table.{select_one, exists_where, update_where}
use rascal.Prelude.Table.Laws.{exists-select, exists-and, update-none}
use rascal.Text.{Text, is_empty, trim_space}
use rascal.Text.Laws.{text_eq→eq}
use rascal.Store.Schema.{Run, RunRow, Db}
use rascal.Store.Tx.{ok}
use rascal.Store.Sql.{has_id}
use rascal.Store.Claims.Exclusive.{UniqueIds}
use rascal.Store.Comments.{
  state_open, comment_open, set_posting, set_posted, returning, claim_run_completion_comment,
  mark_run_completion_comment_posted,
}

none_open :
    (id : Text) (stale : ℕ) (rows : List RunRow)
    → exists_where (has_id id) rows ≡ false
    → exists_where (comment_open id stale) rows ≡ false
none_open id stale rows h =
    exists-and (has_id id)
      (λ row.
        state_open stale row.run.completion_comment_state row.run.completion_comment_claimed_at)
      rows h

held_row :
    (id : Text) (stale now : ℕ) (by : Text) (row : RunRow)
    → stale ≤ now
    → comment_open id stale (set_posting now by row) ≡ false
held_row id stale now by row h = ground arith

posting_held :
    (id : Text) (stale stale' now : ℕ) (by : Text) (rows : List RunRow)
    → UniqueIds rows
    → exists_where (comment_open id stale) rows ≡ true
    → stale' ≤ now
    → exists_where
        (comment_open id stale')
        (update_where (comment_open id stale) (set_posting now by) rows)
      ≡ false
unfolding exists_where update_where
posting_held id stale stale' now by [] u h k = refl
posting_held id stale stale' now by (x ∷ rows) (a, u) h k = elim (Bool-cases (has_id id x)) [
  | inl e ↦
      let alone : exists_where (has_id id) rows ≡ false =
        subst (λ i. exists_where (has_id i) rows ≡ false) (text_eq→eq x.run.id id e) a in
      let closed = none_open id stale rows alone in
      let closed' = none_open id stale' rows alone in
      let kept = update-none (comment_open id stale) (set_posting now by) rows closed in
      let opened : comment_open id stale x ≡ true = ground arith in
      rw (opened, held_row id stale' now by x k, kept) closed'
  | inr e ↦ ground (arith, posting_held id stale stale' now by rows u (ground arith) k)
]

posted_closed :
    (id : Text) (stale now posted_at : ℕ) (rows : List RunRow)
    → exists_where
        (comment_open id stale)
        (update_where (has_id id) (set_posted now posted_at) rows)
      ≡ false
unfolding exists_where update_where
posted_closed id stale now posted_at [] = refl
posted_closed id stale now posted_at (x ∷ rows) = elim (Bool-cases (has_id id x)) [
  | inl e ↦ ground (arith, posted_closed id stale now posted_at rows)
  | inr e ↦ ground (arith, posted_closed id stale now posted_at rows)
]

none_selected :
    (set : RunRow → RunRow) (p : RunRow → Bool) (rows : List RunRow)
    → exists_where p rows ≡ false
    → returning set (select_one p rows) ≡ none
none_selected set p rows h = elim (Option-cases (select_one p rows)) [
  | inl e ↦ rw e
  | inr (r, e) ↦
      let found : exists_where p rows ≡ true = exists-select p rows ∙ rw e in absurd (ground arith)
]

some_selected :
    (set : RunRow → RunRow) (p : RunRow → Bool) (rows : List RunRow) (r : Run)
    → returning set (select_one p rows) ≡ some r
    → exists_where p rows ≡ true
some_selected set p rows r h = elim (Option-cases (select_one p rows)) [
  | inl e ↦ absurd (ground arith)
  | inr (row, e) ↦ exists-select p rows ∙ rw e
]

ok_injective : {a b : Option Run} → ok a ≡ ok b → a ≡ b
ok_injective h = cc

-- With unique identifiers: when a call has claimed the comment of a run, a call that follows does not
-- claim it, by whomever, as long as it takes for stale only claims from before the first call's time.
pub comment_exclusive :
    (now : ℕ) (run_id by : Text) (stale : ℕ) (db : Db) (r : Run)
    → UniqueIds db.runs
    → (claim_run_completion_comment now run_id by stale db).1 ≡ ok (some r)
    → (now' : ℕ) (by' : Text) (stale' : ℕ) → stale' ≤ now
    → (claim_run_completion_comment now' run_id by' stale'
        (claim_run_completion_comment now run_id by stale db).0).1
      ≡ ok none
unfolding claim_run_completion_comment
comment_exclusive now run_id by stale db r u h now' by' stale' k =
    elim (Bool-cases (is_empty (trim_space run_id))) [
      | inl e ↦ absurd (ground arith)
      | inr e ↦
          let id = trim_space run_id in
          let won =
            some_selected (set_posting now (trim_space by)) (comment_open id stale) db.runs r
              (ok_injective (sym (rw e) ∙ h)) in
          rw e (
            ap ok (
              none_selected (set_posting now' (trim_space by')) (comment_open id stale')
                (update_where (comment_open id stale) (set_posting now (trim_space by)) db.runs)
                (posting_held id stale stale' now (trim_space by) db.runs u won k)))
    ]

-- After a comment is marked as posted, a call does not claim it, at any time and for any limit.
pub posted_stays :
    (now : ℕ) (run_id : Text) (posted_at : ℕ) (db : Db)
    → (mark_run_completion_comment_posted now run_id posted_at db).1 ≡ ok tt
    → (now' : ℕ) (by : Text) (stale : ℕ)
    → (claim_run_completion_comment now' run_id by stale
        (mark_run_completion_comment_posted now run_id posted_at db).0).1
      ≡ ok none
unfolding claim_run_completion_comment mark_run_completion_comment_posted
posted_stays now run_id posted_at db h now' by stale =
    elim (Bool-cases (is_empty (trim_space run_id))) [
      | inl e ↦ absurd (ground arith)
      | inr e ↦ elim (Bool-cases (exists_where (has_id (trim_space run_id)) db.runs)) [
        | inr k ↦ absurd (ground arith)
        | inl k ↦
            rw (e, k)
              (ap ok (
                none_selected (set_posting now' (trim_space by))
                  (comment_open (trim_space run_id) stale)
                  (update_where (has_id (trim_space run_id)) (set_posted now posted_at) db.runs)
                  (posted_closed (trim_space run_id) stale now posted_at db.runs)))
      ]
    ]
