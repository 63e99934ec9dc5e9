-- ===== src/Store/Deliveries/Claiming.antt =====
-- Who holds the claim on a delivery (internal/state/store.go).
use rascal.Prelude.{
  ℕ, ◌+◌, ◌≤◌, ◌<◌, ◌≡◌, refl, ap, sym, ◌∙◌, inl, inr, Bool, true, false, Option, none, some, List,
  arith, Bool-cases, Option-cases,
}
use rascal.Prelude.Table.{length, select_one, exists_where, update_where}
use rascal.Prelude.Table.Laws.{
  select-update, exists-select, select_one-mem, length-update, exists_of_mem,
}
use rascal.Text.{Text, is_empty, text_eq, trim_space}
use rascal.Text.Laws.{text_eq_refl}
use rascal.Enums.{processing}
use rascal.Store.Schema.{Delivery, Db, Error, required}
use rascal.Store.Tx.{ok, err}
use rascal.Store.Deliveries.{
  max_deliveries, claim_ttl, delivery_is, fresh_claim, take_over, claim_delivery_row, returned,
  or_rascald, claim_delivery, claimed_with, set_processed, complete_delivery_claim, delivery_seen,
}
use rascal.Store.Deliveries.Trimming.{trim_small}

abbrev delivery_key : Text → Text → Bool
delivery_key id x = text_eq x id

-- The row that a claim leaves for its delivery.
abbrev claim_of : ℕ → Text → Text → Text → Option Delivery → Delivery
claim_of now id token by none = fresh_claim now id token by
claim_of now id token by (some d) = take_over now token by d

take_over-id : (now : ℕ) (token by : Text) (d : Delivery) → (take_over now token by d).id ≡ d.id
take_over-id now token by d = ground arith

select-claim :
    (now : ℕ) (id token by : Text) (rows : List Delivery)
    → select_one (delivery_is id) (claim_delivery_row now id token by rows)
      ≡ some (claim_of now id token by (select_one (delivery_is id) rows))
unfolding claim_delivery_row select_one
select-claim now id token by rows = elim (Option-cases (select_one (delivery_is id) rows)) [
  | inl e ↦
      let gone : exists_where (delivery_is id) rows ≡ false =
        exists-select (delivery_is id) rows ∙ rw e in
      rw (gone, e, text_eq_refl id)
  | inr (d, e) ↦
      let there : exists_where (delivery_is id) rows ≡ true =
        exists-select (delivery_is id) rows ∙ rw e in
      rw there (
        select-update (delivery_is id) (delivery_is id) (take_over now token by) rows
          (λ x. ap (delivery_key id) (take_over-id now token by x))
        ∙ rw (e, (select_one-mem (delivery_is id) rows d e).1))
]

length-claim :
    (now : ℕ) (id token by : Text) (rows : List Delivery)
    → length (claim_delivery_row now id token by rows) ≤ length rows + 1
unfolding claim_delivery_row
length-claim now id token by rows =
    ground (arith, length-update (delivery_is id) (take_over now token by) rows)

-- What a call that holds the claim leaves: its token, at a time not before the call's.
claim_of_won :
    (now : ℕ) (id token by : Text) (o : Option Delivery)
    → ((d : Delivery) → o ≡ some d → text_eq d.claim_token token ≡ false)
    → returned token (some (claim_of now id token by o)) ≡ true
    → ((claim_of now id token by o).status ≡ processing)
      × ((claim_of now id token by o).claim_token ≡ token)
      × ((claim_of now id token by o).claimed_at ≡ now)
claim_of_won now id token by none fresh h = (refl, refl, refl)
claim_of_won now id token by (some d) fresh h = ground (arith, fresh d refl)

held :
    (now : ℕ) (id token by : Text) (d : Delivery) (at : ℕ) (first : Text)
    → d.status ≡ processing
    → d.claim_token ≡ first
    → d.claimed_at ≡ at
    → text_eq first token ≡ false
    → now ≤ at + claim_ttl
    → returned token (some (claim_of now id token by (some d))) ≡ false
held now id token by d at first s t a k h = ground arith

-- What a call of ClaimDelivery with an identifier returns.
claim_delivery-returned :
    (now : ℕ) (token id by : Text) (db : Db)
    → is_empty (trim_space id) ≡ false
    → (claim_delivery now token id by db).1
      ≡ ok (
          returned token (
            some (
              claim_of now
                (trim_space id)
                token
                (or_rascald (trim_space by))
                (select_one (delivery_is (trim_space id)) db.deliveries))))
unfolding claim_delivery
claim_delivery-returned now token id by db h = rw h (
    ap (λ o. ok (returned token o))
      (select-claim now (trim_space id) token (or_rascald (trim_space by)) db.deliveries))

claim_delivery-empty :
    (now : ℕ) (token id by : Text) (db : Db)
    → is_empty (trim_space id) ≡ true
    → (claim_delivery now token id by db).1 ≡ err required
unfolding claim_delivery
claim_delivery-empty now token id by db h = rw h

err_not_ok : {e : Error} {b : Bool} → err e ≡ ok b → ⊥
err_not_ok h = cc

ok_injective : {a b : Bool} → ok a ≡ ok b → a ≡ b
ok_injective h = cc

module _ (now : ℕ) (token id by : Text) (db : Db)
    (room : length db.deliveries < max_deliveries) where
  -- The row of the delivery after a claim, while nothing is trimmed.
  select_after :
      is_empty (trim_space id) ≡ false
      → select_one (delivery_is (trim_space id)) (claim_delivery now token id by db).0.deliveries
        ≡ some (
            claim_of now
              (trim_space id)
              token
              (or_rascald (trim_space by))
              (select_one (delivery_is (trim_space id)) db.deliveries))
  unfolding claim_delivery
  select_after h =
      rw
        (
          h,
          trim_small
              (claim_delivery_row now (trim_space id) token (or_rascald (trim_space by))
                db.deliveries)
              (omega (
                arith,
                length-claim now (trim_space id) token (or_rascald (trim_space by)) db.deliveries,
              )),
        )
        (select-claim now (trim_space id) token (or_rascald (trim_space by)) db.deliveries)

  -- While there is room for one more delivery: when a call with a token that no row has yet holds
  -- the claim, a call with another token within ten minutes does not.
  pub claim_exclusive :
      (now' : ℕ) (token' by' : Text)
      → exists_where (λ d. text_eq d.claim_token token) db.deliveries ≡ false
      → text_eq token token' ≡ false
      → now' ≤ now + claim_ttl
      → (claim_delivery now token id by db).1 ≡ ok true
      → (claim_delivery now' token' id by' (claim_delivery now token id by db).0).1 ≡ ok false
  claim_exclusive now' token' by' fresh apart soon won =
      elim (Bool-cases (is_empty (trim_space id))) [ inl e ↦ absurd (refused e) | inr e ↦ second e ]
    where
      old : Option Delivery
      old = select_one (delivery_is (trim_space id)) db.deliveries

      unseen : (d : Delivery) → old ≡ some d → text_eq d.claim_token token ≡ false
      unseen d e = elim (Bool-cases (text_eq d.claim_token token)) [
        | inr k ↦ k
        | inl k ↦
            let m = (select_one-mem (delivery_is (trim_space id)) db.deliveries d e).0 in
            let found = exists_of_mem (λ x. text_eq x.claim_token token) m k in
            absurd (ground arith)
      ]

      refused : is_empty (trim_space id) ≡ true → ⊥
      refused e = err_not_ok (sym (claim_delivery-empty now token id by db e) ∙ won)

      second :
          is_empty (trim_space id) ≡ false
          → (claim_delivery now' token' id by' (claim_delivery now token id by db).0).1 ≡ ok false
      second e =
          let first =
            claim_of_won now (trim_space id) token (or_rascald (trim_space by)) old unseen
              (ok_injective (sym (claim_delivery-returned now token id by db e) ∙ won)) in
          claim_delivery-returned now' token' id by' (claim_delivery now token id by db).0 e
          ∙ rw (select_after e) (
              ap ok (
                held now' (trim_space id) token' (or_rascald (trim_space by'))
                  (claim_of now (trim_space id) token (or_rascald (trim_space by)) old) now token
                  first.0 first.1 first.2 apart soon))

module _ (now : ℕ) (id token : Text) (db : Db) (d : Delivery) (h : is_empty (trim_space id) ≡ false)
    (k : is_empty (trim_space token) ≡ false)
    (e : select_one (delivery_is (trim_space id)) db.deliveries ≡ some d)
    (t : text_eq d.claim_token (trim_space token) ≡ true) where
  abbrev after : Db
  after = record db {
    deliveries =
        update_where (claimed_with (trim_space id) (trim_space token)) (set_processed now)
          db.deliveries;
  }

  complete-eq : complete_delivery_claim now id token db ≡ (after, ok tt)
  unfolding complete_delivery_claim
  complete-eq =
      let found = select_one-mem (delivery_is (trim_space id)) db.deliveries d e in
      let there : exists_where (claimed_with (trim_space id) (trim_space token)) db.deliveries
          ≡ true =
        exists_of_mem (claimed_with (trim_space id) (trim_space token)) found.0 (ground arith) in
      rw (h, k, there)

  select-after :
      select_one (delivery_is (trim_space id)) after.deliveries ≡ some (set_processed now d)
  select-after =
      let found = select_one-mem (delivery_is (trim_space id)) db.deliveries d e in
      select-update (claimed_with (trim_space id) (trim_space token)) (delivery_is (trim_space id))
        (set_processed now) db.deliveries (λ _. refl)
      ∙ rw (e, found.1, t)

  seen-after : delivery_seen id after ≡ true
  unfolding delivery_seen
  seen-after = rw h (exists-select (delivery_is (trim_space id)) after.deliveries ∙ rw select-after)

  -- When the row of a delivery is claimed with the token, completing the claim succeeds, and after
  -- it the delivery is seen and no call at any time claims it.
  pub complete_final :
      (now' : ℕ) (token' by : Text)
      → ((complete_delivery_claim now id token db).1 ≡ ok tt)
        × (delivery_seen id (complete_delivery_claim now id token db).0 ≡ true)
        × ((claim_delivery now' token' id by (complete_delivery_claim now id token db).0).1
            ≡ ok false)
  complete_final now' token' by =
      rw complete-eq
        (refl, seen-after, claim_delivery-returned now' token' id by after h ∙ rw select-after)

-- A claim that is more than ten minutes old and not completed goes to the next call.
pub stale_claim_taken :
    (now : ℕ) (token id by : Text) (db : Db) (d : Delivery)
    → is_empty (trim_space id) ≡ false
    → select_one (delivery_is (trim_space id)) db.deliveries ≡ some d
    → d.status ≡ processing
    → d.claimed_at + claim_ttl < now
    → (claim_delivery now token id by db).1 ≡ ok true
stale_claim_taken now token id by db d h e s late =
    claim_delivery-returned now token id by db h ∙ rw e (ground (arith, text_eq_refl token))
