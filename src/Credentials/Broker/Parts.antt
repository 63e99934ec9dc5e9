-- ===== src/Credentials/Broker/Parts.antt =====
-- The records of internal/credentials/broker.go and internal/credentials/models.go, and NewBroker.
use rascal.Prelude.{ℕ, Bool, ◌*◌, ◌==◌, Option, List, if◌then◌else◌}
use rascal.Text.{Text}
use rascal.Credentials.Names.{Name}
use rascal.Credentials.Select.{AcquireRequest, CredentialState}
use rascal.Credentials.Vault.{Error as VaultError}

pub data Error : Type 0 where
  required no_credential_available lease_lost decrypt_failed no_random : Error
  -- A lease that the call has made could not be released, after this or another error.
  release_failed : Error
  store_failed : VaultError → Error

pub data Result {ℓ} (A : Type ℓ) : Type ℓ where
  ok : A → Result A
  err : Error → Result A

pub record Lease : Type 0 where
  pub id : Text
  pub credential_id : Text
  pub run_id : Text
  pub user_id : Text
  pub strategy : Name
  pub acquired_at : ℕ
  pub expires_at : ℕ
  pub auth_blob : List ℕ

-- The fields of the broker; `select` is the strategy's method.
pub record Broker : Type 0 where
  pub strategy : Name
  pub select : AcquireRequest → List CredentialState → Option CredentialState
  pub decrypt : List ℕ → Option (List ℕ)
  pub lease_ttl : ℕ
  pub usage_window : ℕ
  pub cooldown_on_crypto_error : ℕ

-- The calls of the store in an attempt.
pub data StoreCall : Type 0 where
  list create get release set_status set_run : StoreCall

-- What an attempt reads from the clock, the random identifier of its lease (with whether there is
-- none), and the calls that the database refuses.
pub record Attempt : Type 0 where
  pub no_random : Bool
  pub fails : StoreCall → Bool
  pub lease_id : Text
  pub acquired_at : ℕ
  pub released_at : ℕ
  pub failed_at : ℕ
  pub updated_at : ℕ

abbrev pub five_minutes : ℕ
five_minutes = 300 * 1000000000

abbrev pub hour : ℕ
hour = 3600 * 1000000000

abbrev or_ninety_seconds : ℕ → ℕ
or_ninety_seconds ttl = if ttl == 0 then 90 * 1000000000 else ttl

-- `NewBroker`. A ttl that is not positive comes as 0.
unfoldable pub new_broker :
    Name
    → (AcquireRequest → List CredentialState → Option CredentialState)
    → (List ℕ → Option (List ℕ))
    → ℕ
    → Broker
new_broker strategy select decrypt lease_ttl = record {
  strategy = strategy;
  select = select;
  decrypt = decrypt;
  lease_ttl = or_ninety_seconds lease_ttl;
  usage_window = hour;
  cooldown_on_crypto_error = five_minutes;
}
