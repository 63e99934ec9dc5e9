-- ===== src/Store/Leases/Ownership.antt =====
-- Who holds the lease of a run, after the lease operations of internal/state/store.go.
use rascal.Prelude.{
  ℕ, ◌+◌, ◌≡◌, refl, ap, sym, ◌∙◌, inl, inr, Bool, true, false, ◌||◌, some, List, arith, Bool-cases,
  Option-cases, if◌then◌else◌,
}
use rascal.Prelude.Table.{select_one, exists_where}
use rascal.Prelude.Table.Laws.{
  option_map, select-update, select-delete, exists-select, select_one-mem,
}
use rascal.Text.{Text, is_empty, text_eq, trim_space}
use rascal.Text.Laws.{text_eq→eq, text_eq_refl, text_eq_comm}
use rascal.Store.Schema.{RunLease, Db}
use rascal.Store.Leases.{
  or_90_seconds, lease_of, owned_lease, put_lease, upsert_run_lease, renew_run_lease,
  delete_run_lease_for_owner, get_run_lease,
}

abbrev over : RunLease → RunLease → RunLease
over l o = record o {
  owner_id = l.owner_id;
  heartbeat_at = l.heartbeat_at;
  lease_expires_at = l.lease_expires_at;
}

over_found :
    (l : RunLease) (rows : List RunLease) (run_id : Text) (o : RunLease)
    → text_eq o.run_id run_id ≡ true
    → (if lease_of l.run_id o then over l o else o) ≡ (if text_eq l.run_id run_id then l else o)
over_found l rows run_id o h = elim (Bool-cases (text_eq l.run_id run_id)) [
  | inl e ↦
      let named : o.run_id ≡ l.run_id =
        text_eq→eq o.run_id run_id h ∙ sym (text_eq→eq l.run_id run_id e) in
      let hit : text_eq o.run_id l.run_id ≡ true = rw named (text_eq_refl l.run_id) in
      rw (e, hit) (λ i. record l { run_id = named i })
  | inr e ↦
      let named : o.run_id ≡ run_id = text_eq→eq o.run_id run_id h in
      let miss : text_eq o.run_id l.run_id ≡ false = rw named (text_eq_comm l.run_id run_id e) in
      rw (e, miss)
]

put_over :
    (l : RunLease) (rows : List RunLease) (run_id : Text)
    → exists_where (lease_of l.run_id) rows ≡ true
    → option_map
        (λ o. if lease_of l.run_id o then over l o else o)
        (select_one (lease_of run_id) rows)
      ≡ (if text_eq l.run_id run_id then some l else select_one (lease_of run_id) rows)
put_over l rows run_id h = elim (Option-cases (select_one (lease_of run_id) rows)) [
  | inr (o, e) ↦
      let hit = (select_one-mem (lease_of run_id) rows o e).1 in
      rw e (ap some (over_found l rows run_id o hit) ∙ if_some (text_eq l.run_id run_id) l o)
  | inl e ↦ elim (Bool-cases (text_eq l.run_id run_id)) [
    | inr k ↦ rw (e, k)
    | inl k ↦
        let named = text_eq→eq l.run_id run_id k in
        let gone : exists_where (lease_of l.run_id) rows ≡ false =
          rw named (exists-select (lease_of run_id) rows ∙ rw e) in
        absurd (ground arith)
  ]
]
  where
    if_some :
        (b : Bool) (x y : RunLease) → some (if b then x else y) ≡ (if b then some x else some y)
    if_some true x y = refl
    if_some false x y = refl

-- Writing a lease replaces that of its run and no other.
select-put_lease :
    (l : RunLease) (rows : List RunLease) (run_id : Text)
    → select_one (lease_of run_id) (put_lease l rows)
      ≡ (if text_eq l.run_id run_id then some l else select_one (lease_of run_id) rows)
unfolding put_lease select_one
select-put_lease l rows run_id = elim (Bool-cases (exists_where (lease_of l.run_id) rows)) [
  | inl e ↦ rw e (
      select-update (lease_of l.run_id) (lease_of run_id) (over l) rows (λ _. refl)
      ∙ put_over l rows run_id e)
  | inr e ↦ rw e
]

-- After UpsertRunLease with an identifier and an owner, the run's lease is the new one, held for
-- the TTL or for 90 seconds, and the lease of every other run is what it was.
pub get-upsert_run_lease :
    (now : ℕ) (run_id owner_id other : Text) (ttl : ℕ) (db : Db)
    → is_empty (trim_space run_id) ≡ false
    → is_empty (trim_space owner_id) ≡ false
    → get_run_lease other (upsert_run_lease now run_id owner_id ttl db).0 ≡ (
        if text_eq (trim_space run_id) (trim_space other)
        then some (record {
          run_id = trim_space run_id;
          owner_id = trim_space owner_id;
          heartbeat_at = now;
          lease_expires_at = now + or_90_seconds ttl;
        })
        else get_run_lease other db)
unfolding get_run_lease upsert_run_lease
get-upsert_run_lease now run_id owner_id other ttl db h k =
    rw (h, k)
      (select-put_lease
        (record {
          run_id = trim_space run_id;
          owner_id = trim_space owner_id;
          heartbeat_at = now;
          lease_expires_at = now + or_90_seconds ttl;
        })
        db.run_leases (trim_space other))

-- RenewRunLease by any owner leaves every lease with its owner, and a lease of another owner as it
-- is.
pub renew_keeps_owner :
    (now : ℕ) (run_id owner_id other : Text) (ttl : ℕ) (db : Db) (l : RunLease)
    → get_run_lease other db ≡ some l
    → (l' : RunLease) × (get_run_lease other (renew_run_lease now run_id owner_id ttl db).0
        ≡ some l')
      × (l'.owner_id ≡ l.owner_id)
      × (text_eq l.owner_id (trim_space owner_id) ≡ false → l' ≡ l)
unfolding get_run_lease renew_run_lease
renew_keeps_owner now run_id owner_id other ttl db l h = elim (Bool-cases blank) [
  | inl e ↦ rw e (l, h, refl, λ _. refl)
  | inr e ↦ rw e (
    renewed l,
    select-update mine (lease_of (trim_space other)) fresh db.run_leases (λ _. refl) ∙ rw h,
    owner (mine l),
    λ k. same k,
  )
]
  where
    blank : Bool
    blank = is_empty (trim_space run_id) || is_empty (trim_space owner_id)

    mine : RunLease → Bool
    mine = owned_lease (trim_space run_id) (trim_space owner_id)

    fresh : RunLease → RunLease
    fresh x = record x { heartbeat_at = now; lease_expires_at = now + or_90_seconds ttl }

    renewed : RunLease → RunLease
    renewed x = if mine x then fresh x else x

    owner : (b : Bool) → (if b then fresh l else l).owner_id ≡ l.owner_id
    owner true = refl
    owner false = refl

    same : text_eq l.owner_id (trim_space owner_id) ≡ false → renewed l ≡ l
    same k = ground arith

-- DeleteRunLeaseForOwner leaves the lease that another owner holds.
pub delete_for_owner :
    (run_id owner_id : Text) (db : Db) (l : RunLease)
    → get_run_lease run_id db ≡ some l
    → text_eq l.owner_id (trim_space owner_id) ≡ false
    → get_run_lease run_id (delete_run_lease_for_owner run_id owner_id db) ≡ some l
unfolding get_run_lease delete_run_lease_for_owner
delete_for_owner run_id owner_id db l h k =
    elim (Bool-cases (is_empty (trim_space run_id) || is_empty (trim_space owner_id))) [
      | inl e ↦ rw e h
      | inr e ↦ rw e (
          select-delete (owned_lease (trim_space run_id) (trim_space owner_id))
            (lease_of (trim_space run_id)) db.run_leases l h (ground arith))
    ]
