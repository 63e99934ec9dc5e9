-- ===== src/Store/Pauses/Deadline.antt =====
-- A pause holds until its deadline and is never shortened (internal/state/store.go).
use rascal.Prelude.{
  ℕ, ◌<◌, ◌≤◌, ◌≡◌, refl, ap, sym, ◌∙◌, ◌⊎◌, inl, inr, subst, true, false, Option, none, some, List,
  arith, Bool-cases, Option-cases, if◌then◌else◌, ltb,
}
use rascal.Prelude.Table.{select_one, exists_where}
use rascal.Prelude.Table.Laws.{option_map, select-update, exists-select, select_one-mem}
use rascal.Text.{Text, is_empty, text_eq, trim_space}
use rascal.Text.Laws.{text_eq→eq, text_eq_refl, text_eq_comm}
use rascal.Store.Schema.{SchedulerPause, Db}
use rascal.Store.Tx.{Result, ok}
use rascal.Store.Pauses.{
  pause_is, raise_pause, put_pause, new_pause, pause_scheduler, active_at, active_scheduler_pause,
}

abbrev merged : SchedulerPause → Option SchedulerPause → SchedulerPause
merged new none = new
merged new (some p) = raise_pause new p

-- Writing a pause raises that of its scope.
select-put_own :
    (new : SchedulerPause) (rows : List SchedulerPause)
    → select_one (pause_is new.scope) (put_pause new rows)
      ≡ some (merged new (select_one (pause_is new.scope) rows))
unfolding put_pause select_one
select-put_own new rows = elim (Option-cases (select_one (pause_is new.scope) rows)) [
  | inl e ↦
      let gone : exists_where (pause_is new.scope) rows ≡ false =
        exists-select (pause_is new.scope) rows ∙ rw e in
      rw (gone, e, text_eq_refl new.scope)
  | inr (p, e) ↦
      let there : exists_where (pause_is new.scope) rows ≡ true =
        exists-select (pause_is new.scope) rows ∙ rw e in
      rw there (
        select-update (pause_is new.scope) (pause_is new.scope) (raise_pause new) rows (λ _. refl)
        ∙ rw (e, (select_one-mem (pause_is new.scope) rows p e).1))
]

-- And no other.
select-put_else :
    (new : SchedulerPause) (scope : Text) (rows : List SchedulerPause)
    → text_eq new.scope scope ≡ false
    → select_one (pause_is scope) (put_pause new rows) ≡ select_one (pause_is scope) rows
unfolding put_pause select_one
select-put_else new scope rows h = elim (Bool-cases (exists_where (pause_is new.scope) rows)) [
  | inr e ↦ rw (e, h)
  | inl e ↦ rw e (
      select-update (pause_is new.scope) (pause_is scope) (raise_pause new) rows (λ _. refl)
      ∙ found (Option-cases (select_one (pause_is scope) rows)))
]
  where
    found :
        (select_one (pause_is scope) rows ≡ none)
          ⊎ ((p : SchedulerPause) × (select_one (pause_is scope) rows ≡ some p))
        → option_map
            (λ p. if pause_is new.scope p then raise_pause new p else p)
            (select_one (pause_is scope) rows)
          ≡ select_one (pause_is scope) rows
    found (inl e) = rw e
    found (inr (p, e)) =
        let named = text_eq→eq p.scope scope (select_one-mem (pause_is scope) rows p e).1 in
        let miss : text_eq p.scope new.scope ≡ false = rw named (text_eq_comm new.scope scope h) in
        rw (e, miss)

active_after :
    (scope : Text) (t : ℕ) (p : SchedulerPause) (o : Option SchedulerPause) (u : ℕ) (why : Text)
    → active_at t o ≡ some (u, why)
    → (u' : ℕ) × (why' : Text) × (active_at t (some (merged p o)) ≡ some (u', why')) × (u ≤ u')
active_after scope t p none u why h = absurd (ground arith)
active_after scope t p (some q) u why h = elim (Bool-cases (ltb p.paused_until q.paused_until)) [
  | inl e ↦ (q.paused_until, trim_space q.reason, ground arith, ground arith)
  | inr e ↦ (p.paused_until, trim_space p.reason, ground arith, ground arith)
]

merged_until :
    (p : SchedulerPause) (o : Option SchedulerPause) → p.paused_until ≤ (merged p o).paused_until
merged_until p none = omega arith
merged_until p (some q) = ground arith

module _ (now : ℕ) (scope reason : Text) (until : ℕ) (db : Db) where
  -- A pause that is set returns the deadline of the scope, not before the one asked for, and at any
  -- earlier time the scope is paused until then.
  pub pause_holds :
      is_empty (trim_space scope) ≡ false
      → (u : ℕ) × ((pause_scheduler now scope reason (some until) db).1 ≡ ok u)
        × (until ≤ u)
        × ((clock t : ℕ)
            → t < u
            → (why : Text) × (active_scheduler_pause clock scope
                  (some t)
                  (pause_scheduler now scope reason (some until) db).0
                ≡ ok (some (u, why))))
  unfolding pause_scheduler active_scheduler_pause
  pause_holds h =
      let own = new_pause now (trim_space scope) (trim_space reason) until in
      let old = select_one (pause_is (trim_space scope)) db.scheduler_pauses in
      let own_row = select-put_own own db.scheduler_pauses in
      (
        (merged own old).paused_until,
        rw (h, own_row),
        merged_until own old,
        λ clock t k. (
          trim_space (merged own old).reason,
          rw (h, own_row) (ap ok (active_before t (merged own old) k)),
        ),
      )
    where
      active_before :
          (t : ℕ) (p : SchedulerPause)
          → t < p.paused_until
          → active_at t (some p) ≡ some (p.paused_until, trim_space p.reason)
      active_before t p k = ground arith

  -- No pause is shortened by a call of PauseScheduler, whether it is of the same scope or not.
  pub pause_never_shortened :
      (other_scope : Text) (clock t u : ℕ) (why : Text)
      → active_scheduler_pause clock other_scope (some t) db ≡ ok (some (u, why))
      → (u' : ℕ) × (why' : Text) × (active_scheduler_pause clock other_scope
            (some t)
            (pause_scheduler now scope reason (some until) db).0
          ≡ ok (some (u', why')))
        × (u ≤ u')
  unfolding pause_scheduler active_scheduler_pause
  pause_never_shortened other_scope clock t u why h =
      elim (Bool-cases (is_empty (trim_space scope))) [
        | inl e ↦ (u, why, rw e h, omega arith)
        | inr e ↦ elim (Bool-cases (is_empty (trim_space other_scope))) [
          | inl k ↦ absurd (ground arith)
          | inr k ↦ elim (Bool-cases (text_eq (trim_space scope) (trim_space other_scope))) [
            | inl same ↦
                let own = new_pause now (trim_space scope) (trim_space reason) until in
                let row = select_one (pause_is (trim_space other_scope)) db.scheduler_pauses in
                let (u', why', after, le) =
                  active_after other_scope t own row u why (ground arith) in
                (u', why', rw (e, k) (ap (ok_at t) (select_own same) ∙ ap ok after), le)
            | inr apart ↦
                let own = new_pause now (trim_space scope) (trim_space reason) until in
                (
                  u,
                  why,
                  rw (e, k, select-put_else own (trim_space other_scope) db.scheduler_pauses apart)
                      (sym (rw k) ∙ h),
                  omega arith,
                )
          ]
        ]
      ]
    where
      ok_at : ℕ → Option SchedulerPause → Result (Option (ℕ × Text))
      ok_at at o = ok (active_at at o)

      select_own :
          text_eq (trim_space scope) (trim_space other_scope) ≡ true
          → select_one (pause_is (trim_space other_scope)) (
              put_pause
                (new_pause now (trim_space scope) (trim_space reason) until)
                db.scheduler_pauses)
            ≡ some (
                merged
                  (new_pause now (trim_space scope) (trim_space reason) until)
                  (select_one (pause_is (trim_space other_scope)) db.scheduler_pauses))
      select_own same =
          subst
            (λ s.
              select_one (pause_is s) (
                put_pause (new_pause now (trim_space scope) (trim_space reason) until)
                  db.scheduler_pauses)
              ≡ some (
                  merged (new_pause now (trim_space scope) (trim_space reason) until)
                    (select_one (pause_is s) db.scheduler_pauses)))
            (text_eq→eq (trim_space scope) (trim_space other_scope) same)
            (select-put_own (new_pause now (trim_space scope) (trim_space reason) until)
              db.scheduler_pauses)
