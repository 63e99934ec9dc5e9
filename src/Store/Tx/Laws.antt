-- ===== src/Store/Tx/Laws.antt =====
-- Laws of transactions: what fails leaves the database, what succeeds has run its body.
use rascal.Prelude.{◌≡◌, refl, ◌⊎◌, inl, inr, arith}
use rascal.Store.Schema.{Db, Error}
use rascal.Store.Tx.{
  Result, ok, err, Tx, Faults, commit, ◌>>=◌, ◌>>◌, reach, give, committed, settle, in_transaction,
}

pub Result-cases :
    {A : Type 0} (x : Result A) → ((a : A) × (x ≡ ok a)) ⊎ ((e : Error) × (x ≡ err e))
Result-cases (ok a) = inl (a, refl)
Result-cases (err e) = inr (e, refl)

settle-err :
    {A : Type 0} (db : Db) (x : Result (A × Db)) (e : Error)
    → (settle db x).1 ≡ err e
    → (settle db x).0 ≡ db
settle-err db (ok (a, db')) e h = cc
settle-err db (err _) e h = refl

-- A transaction that fails, at any statement, leaves the database as it was.
pub in_transaction-err :
    {A : Type 0} (faults : Faults) (body : Tx A) (db : Db) (e : Error)
    → (in_transaction faults body db).1 ≡ err e
    → (in_transaction faults body db).0 ≡ db
in_transaction-err faults body db e h = settle-err db (committed faults body db) e h

settle-ok :
    {A : Type 0} (db db' : Db) (x : Result (A × Db)) (a : A)
    → settle db x ≡ (db', ok a)
    → x ≡ ok (a, db')
settle-ok db db' (ok (b, d)) a h = ground arith
settle-ok db db' (err _) a h = absurd (ground arith)

finish :
    {A : Type 0} (faults : Faults) (x : Result (A × Db)) (a : A) (db' : Db)
    → ((λ (_ : Db). x) >>= (λ b. reach faults commit >> give b)) db' ≡ ok (a, db')
    → x ≡ ok (a, db')
finish faults (ok (b, d)) a db' h = ground arith
finish faults (err e) a db' h = absurd (ground arith)

-- A transaction that succeeds has committed what its body made.
pub in_transaction-ok :
    {A : Type 0} (faults : Faults) (body : Tx A) (db db' : Db) (a : A)
    → in_transaction faults body db ≡ (db', ok a)
    → body db ≡ ok (a, db')
in_transaction-ok faults body db db' a h =
    let c = settle-ok db db' (committed faults body db) a h in
    finish faults (body db) a db' (ground arith)
