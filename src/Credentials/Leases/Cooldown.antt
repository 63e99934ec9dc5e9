-- ===== src/Credentials/Leases/Cooldown.antt =====
-- What the status 'cooldown' does to the leasing of a credential (internal/state/credentials.go).
use rascal.Prelude.{ℕ, ◌≡◌, refl, true, false, Option, some, List, [], ◌∷◌, arith}
use rascal.Prelude.Table.{exists_where, update_where}
use rascal.Text.{Text, trim_space}
use rascal.Credentials.Names.{parse_credential_status, cooldown}
use rascal.Credentials.Vault.{
  ok, Credential, Vault, credential_is, set_status, set_credential_status,
}
use rascal.Credentials.Leases.{CreateCredentialLeaseInput, leasable, try_create_credential_lease}

cooldown_row :
    (now later : ℕ) (id user_id : Text) (until : Option ℕ) (why : Text) (rows : List Credential)
    → exists_where
        (leasable later id user_id)
        (update_where (credential_is id) (set_status now cooldown until why) rows)
      ≡ false
unfolding exists_where update_where
cooldown_row now later id user_id until why [] = refl
cooldown_row now later id user_id until why (c ∷ rows) =
    ground (arith, cooldown_row now later id user_id until why rows)

-- A credential that is put to cooldown, by any text that reads as this status, is leased to nobody at any time, also after the time until
-- which it was to cool down.
pub cooldown_never_leased :
    (now : ℕ) (raw : Text) (until : Option ℕ) (why : Text) (i : CreateCredentialLeaseInput)
    (v : Vault)
    → parse_credential_status raw ≡ some cooldown
    → ¬ (
        (try_create_credential_lease i
          (set_credential_status now i.credential_id raw until why v).0).1
        ≡ ok true)
unfolding try_create_credential_lease set_credential_status
cooldown_never_leased now raw until why i v p h = ground (
  arith,
  cooldown_row now i.now (trim_space i.credential_id) (trim_space i.user_id) until why
      v.credentials,
)
