-- ===== src/Credentials/Vault/Tables.antt =====
-- The rows of credentials, leases and usage (internal/state/credentials.go), and the conditions that
-- the statements put on them. Authentication blobs are byte lists. The owner of a credential is one of
-- the users, which the database checks.
use rascal.Prelude.{ℕ, Bool, true, false, ◌&&◌, Option, none, some, List, ltb, leb}
use rascal.Text.{Text, text_eq}
use rascal.Credentials.Names.{Name, CredentialScope, personal, shared, CredentialStatus, active}

pub data Error : Type 0 where
  required invalid_scope invalid_status already_exists not_found database : Error

pub data Result {ℓ} (A : Type ℓ) : Type ℓ where
  ok : A → Result A
  err : Error → Result A

-- The columns hold what the store writes, which is a named scope and a named status. NULL for the
-- owner is the empty text.
pub record Credential : Type 0 where
  pub id : Text
  pub owner_user_id : Text
  pub scope : CredentialScope
  pub provider : Text
  pub encrypted_auth_blob : List ℕ
  pub weight : ℕ
  pub status : CredentialStatus
  pub cooldown_until : Option ℕ
  pub last_error : Text
  pub created_at : ℕ
  pub updated_at : ℕ

pub record CredentialLease : Type 0 where
  pub id : Text
  pub credential_id : Text
  pub run_id : Text
  pub user_id : Text
  pub strategy : Name
  pub acquired_at : ℕ
  pub expires_at : ℕ
  pub released_at : Option ℕ

pub record CredentialUsage : Type 0 where
  pub credential_id : Text
  pub window_start : ℕ
  pub tokens : ℕ
  pub runs : ℕ

pub record Vault : Type 0 where
  pub credentials : List Credential
  pub leases : List CredentialLease
  pub usage : List CredentialUsage

abbrev pub credential_is : Text → Credential → Bool
credential_is id c = text_eq c.id id

abbrev pub lease_is : Text → CredentialLease → Bool
lease_is id l = text_eq l.id id

abbrev pub is_active : CredentialStatus → Bool
is_active active = true
is_active _ = false

abbrev pub shared_scope : CredentialScope → Bool
shared_scope shared = true
shared_scope personal = false

-- `IS NULL`.
abbrev pub is_null : Option ℕ → Bool
is_null none = true
is_null (some _) = false

-- `cooldown_until IS NULL OR cooldown_until <= now`.
abbrev pub cooled : ℕ → Option ℕ → Bool
cooled now none = true
cooled now (some t) = leb t now

-- A lease that is neither released nor expired.
abbrev pub live : ℕ → CredentialLease → Bool
live now l = is_null l.released_at && ltb now l.expires_at
