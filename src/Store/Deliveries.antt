-- ===== src/Store/Deliveries.antt =====
-- Webhook deliveries: DeliverySeen, ClaimDelivery, CompleteDeliveryClaim, ReleaseDeliveryClaim,
-- RecordDelivery and the trimming of old ones (internal/state/store.go, with the statements of
-- internal/state/sqlitegen/queries.sql.go). A claim's token is random; it is an argument here.
pub mod Claiming
pub mod Trimming
use rascal.Prelude.{
  ℕ, suc, zero, ◌+◌, ◌-◌, ◌*◌, Bool, true, false, not, ◌&&◌, ◌||◌, Option, none, some, List, [],
  ◌∷◌, ltb, leb, ◌==◌, if◌then◌else◌,
}
use rascal.Prelude.Table.{
  length, select_one, exists_where, count_where, update_where, delete_where, take,
}
use rascal.Text.{Text, codes, is_empty, text_eq, trim_space}
use rascal.Enums.{DeliveryStatus, processing, processed}
use rascal.Store.Schema.{Delivery, Db, Error, required, inactive_claim}
use rascal.Store.Tx.{Result, ok, err}

abbrev pub max_deliveries : ℕ
max_deliveries = 1000

-- Ten minutes, after which a claim may be taken over.
abbrev pub claim_ttl : ℕ
claim_ttl = 600000000000

abbrev pub delivery_is : Text → Delivery → Bool
delivery_is id d = text_eq d.id id

unfoldable pub delivery_seen : Text → Db → Bool
delivery_seen id db =
    if is_empty (trim_space id)
    then false
    else exists_where (delivery_is (trim_space id)) db.deliveries

-- The row is processed, or its claim is not older than the limit: it keeps its claim.
abbrev pub holds_claim : ℕ → ℕ → DeliveryStatus → Bool
holds_claim now claimed_at processed = true
holds_claim now claimed_at processing = leb now (claimed_at + claim_ttl)

abbrev pub holds : ℕ → Delivery → Bool
holds now d = holds_claim now d.claimed_at d.status

-- INSERT INTO deliveries ... ON CONFLICT(id) DO UPDATE.
abbrev pub fresh_claim : ℕ → Text → Text → Text → Delivery
fresh_claim now id token claimed_by = record {
  id = id;
  status = processing;
  claim_token = token;
  claimed_by = claimed_by;
  claimed_at = now;
  processed_at = none;
  seen_at = now;
  last_error = [];
}

abbrev pub take_over : ℕ → Text → Text → Delivery → Delivery
take_over now token claimed_by d = if holds now d then d else record d {
  status = processing;
  claim_token = token;
  claimed_by = claimed_by;
  claimed_at = now;
  last_error = [];
}

unfoldable pub claim_delivery_row : ℕ → Text → Text → Text → List Delivery → List Delivery
claim_delivery_row now id token claimed_by rows =
    if exists_where (delivery_is id) rows
    then update_where (delivery_is id) (take_over now token claimed_by) rows
    else fresh_claim now id token claimed_by ∷ rows

-- The row with the least `seen_at`, and the rows without it.
abbrev older : Delivery → Delivery → Bool
older a b = leb a.seen_at b.seen_at

unfoldable pub remove_oldest : Delivery → List Delivery → Delivery × List Delivery
remove_oldest d [] = (d, [])
remove_oldest d (x ∷ xs) =
    let (least, rest) = remove_oldest x xs in
    if older d least then (d, x ∷ xs) else (least, d ∷ rest)

-- DELETE ... ORDER BY seen_at ASC LIMIT n.
unfoldable pub delete_oldest : ℕ → List Delivery → List Delivery
unfolding remove_oldest
delete_oldest zero rows = rows
delete_oldest (suc n) [] = []
delete_oldest (suc n) (d ∷ rows) = delete_oldest n (remove_oldest d rows).1

unfoldable pub trim_deliveries_if_needed : List Delivery → List Delivery
trim_deliveries_if_needed rows =
    if leb (length rows) max_deliveries
    then rows
    else delete_oldest (length rows - max_deliveries) rows

abbrev pub won_by : Text → Text → DeliveryStatus → Bool
won_by token claim_token processing = text_eq claim_token token
won_by token claim_token processed = false

abbrev pub returned : Text → Option Delivery → Bool
returned token none = false
returned token (some d) = won_by token d.claim_token d.status

abbrev pub or_rascald : Text → Text
or_rascald s = if is_empty s then codes "rascald" else s

-- Whether the call holds the claim; RETURNING gives the row before the trimming.
unfoldable pub claim_delivery : ℕ → Text → Text → Text → Db → Db × Result Bool
claim_delivery now token id claimed_by db =
    if is_empty (trim_space id)
    then (db, err required)
    else (let rows =
          claim_delivery_row now (trim_space id) token (or_rascald (trim_space claimed_by))
            db.deliveries in
        (
          record db { deliveries = trim_deliveries_if_needed rows },
          ok (returned token (select_one (delivery_is (trim_space id)) rows)),
        ))

abbrev pub claimed_with : Text → Text → Delivery → Bool
claimed_with id token d = text_eq d.id id && text_eq d.claim_token token

abbrev pub set_processed : ℕ → Delivery → Delivery
set_processed now d = record d {
  status = processed;
  claim_token = [];
  claimed_by = [];
  claimed_at = 0;
  processed_at = some now;
  seen_at = now;
  last_error = [];
}

unfoldable pub complete_delivery_claim : ℕ → Text → Text → Db → Db × Result (Unit {0})
complete_delivery_claim now id token db =
    if is_empty (trim_space id) || is_empty (trim_space token)
    then (db, err required)
    else if exists_where (claimed_with (trim_space id) (trim_space token)) db.deliveries
    then (
      record db {
        deliveries =
            update_where (claimed_with (trim_space id) (trim_space token)) (set_processed now)
              db.deliveries;
      },
      ok tt,
    )
    else (db, err inactive_claim)

unfoldable pub release_delivery_claim : Text → Text → Db → Db
release_delivery_claim id token db =
    if is_empty (trim_space id) || is_empty (trim_space token) then db else record db {
      deliveries = delete_where (claimed_with (trim_space id) (trim_space token)) db.deliveries;
    }

-- INSERT OR REPLACE, then the trimming.
unfoldable pub record_delivery : ℕ → Text → Db → Db
record_delivery now id db = if is_empty (trim_space id) then db else record db {
  deliveries = trim_deliveries_if_needed (
      record {
        id = trim_space id;
        status = processed;
        claim_token = [];
        claimed_by = [];
        claimed_at = 0;
        processed_at = some now;
        seen_at = now;
        last_error = [];
      }
      ∷ delete_where (delivery_is (trim_space id)) db.deliveries);
}
