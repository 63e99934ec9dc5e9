-- ===== src/Store/Deliveries/Trimming.antt =====
-- At most `max_deliveries` deliveries are kept (internal/state/store.go).
use Prim.Native.Nat.{zero, suc}
use rascal.Prelude.{
  ℕ, ◌-◌, ◌≤◌, ◌≡◌, refl, inl, inr, Bool, List, [], ◌∷◌, arith, Bool-cases, if◌then◌else◌, leb,
}
use rascal.Prelude.Table.{length}
use rascal.Text.{Text, is_empty, trim_space}
use rascal.Store.Schema.{Delivery, Db}
use rascal.Store.Deliveries.{
  max_deliveries, older, remove_oldest, delete_oldest, trim_deliveries_if_needed,
  claim_delivery_row, or_rascald, claim_delivery,
}

pick : Bool → Delivery → List Delivery → Delivery × List Delivery → Delivery × List Delivery
pick b d xs (least, rest) = if b then (d, xs) else (least, d ∷ rest)

length-remove_oldest :
    (d : Delivery) (rows : List Delivery) → length (remove_oldest d rows).1 ≡ length rows
unfolding remove_oldest
length-remove_oldest d [] = refl
length-remove_oldest d (x ∷ rows) = elim (Bool-cases (older d (remove_oldest x rows).0)) [
  | inl e ↦ rw e
  | inr e ↦ rw e (omega (arith, length-remove_oldest x rows))
]

length-delete_oldest :
    (n : ℕ) (rows : List Delivery) → length (delete_oldest n rows) ≡ length rows - n
unfolding delete_oldest
length-delete_oldest zero rows = omega arith
length-delete_oldest (suc n) [] = omega arith
length-delete_oldest (suc n) (d ∷ rows) =
    omega (arith, length-delete_oldest n (remove_oldest d rows).1, length-remove_oldest d rows)

trim_bound : (rows : List Delivery) → length (trim_deliveries_if_needed rows) ≤ max_deliveries
unfolding trim_deliveries_if_needed
trim_bound rows = elim (Bool-cases (leb (length rows) max_deliveries)) [
  | inl e ↦ rw e (ground arith)
  | inr e ↦ rw e (ground (arith, length-delete_oldest (length rows - max_deliveries) rows))
]

-- ClaimDelivery leaves at most 1000 deliveries when it found at most that many.
pub claim_delivery-bound :
    (now : ℕ) (token id claimed_by : Text) (db : Db)
    → length db.deliveries ≤ max_deliveries
    → length (claim_delivery now token id claimed_by db).0.deliveries ≤ max_deliveries
unfolding claim_delivery
claim_delivery-bound now token id claimed_by db h = elim (Bool-cases (is_empty (trim_space id))) [
  | inl e ↦ rw e h
  | inr e ↦ rw e (
      trim_bound (
        claim_delivery_row now (trim_space id) token (or_rascald (trim_space claimed_by))
          db.deliveries))
]

-- While there are fewer than 1000 deliveries a trim removes none.
pub trim_small :
    (rows : List Delivery) → length rows ≤ max_deliveries → trim_deliveries_if_needed rows ≡ rows
unfolding trim_deliveries_if_needed
trim_small rows h = ground arith
