-- ===== src/Credentials/Vault.antt =====
-- The tables of credentials of internal/state/credentials.go with their statements in
-- internal/state/sqlitegen/queries.sql.go.
mod Tables
pub use Tables.*
use rascal.Prelude.{
  ℕ, ◌+◌, Bool, true, false, not, ◌&&◌, ◌||◌, Option, none, some, List, [], ◌∷◌, map, ltb, leb,
  ◌==◌, if◌then◌else◌,
}
use rascal.Prelude.Table.{select_one, select_where, exists_where, count_where, update_where}
use rascal.Prelude.Order.{sort_by}
use rascal.Text.{Text, codes, is_empty, text_eq, trim_space}
use rascal.Text.Compare.{text_lt}
use rascal.Credentials.Names
use rascal.Credentials.Names.{
  Name, normalize_name, CredentialScope, personal, shared, CredentialStatus,
  parse_credential_status, active, disabled, cooldown,
}
use rascal.Credentials.Select.{CredentialState}

-- `CreateCredential` and `UpdateCredential`.
pub record CredentialInput : Type 0 where
  pub id : Text
  pub owner_user_id : Text
  pub scope : Text
  pub provider : Text
  pub encrypted_auth_blob : List ℕ
  pub weight : ℕ
  pub status : Text
  pub cooldown_until : Option ℕ
  pub last_error : Text

abbrev or_one : ℕ → ℕ
or_one n = if n == 0 then 1 else n

-- The columns that both statements write.
abbrev pub written :
    CredentialInput → CredentialScope → CredentialStatus → ℕ → Credential → Credential
written i scope status now c = record c {
  owner_user_id = trim_space i.owner_user_id;
  scope = scope;
  provider = trim_space i.provider;
  encrypted_auth_blob = i.encrypted_auth_blob;
  weight = or_one i.weight;
  status = status;
  cooldown_until = i.cooldown_until;
  last_error = i.last_error;
  updated_at = now;
}

abbrev pub new_credential : CredentialInput → CredentialScope → CredentialStatus → ℕ → Credential
new_credential i scope status now = record {
  id = trim_space i.id;
  owner_user_id = trim_space i.owner_user_id;
  scope = scope;
  provider = trim_space i.provider;
  encrypted_auth_blob = i.encrypted_auth_blob;
  weight = or_one i.weight;
  status = status;
  cooldown_until = i.cooldown_until;
  last_error = i.last_error;
  created_at = now;
  updated_at = now;
}

-- The checks of the input that both methods make, with the scope and the status that are read.
abbrev pub checked : CredentialInput → Result (CredentialScope × CredentialStatus)
checked i =
    if is_empty (trim_space i.id)
    then err required
    else elim (Names.parse_credential_scope i.scope) [
      | none ↦ err invalid_scope
      | some scope ↦ elim (Names.parse_credential_status i.status) [
        | none ↦ err invalid_status
        | some status ↦ ok (scope, status)
      ]
    ]

unfoldable pub get_credential : Text → Vault → Option Credential
get_credential id v = select_one (credential_is (trim_space id)) v.credentials

abbrev pub found_or : Error → Option Credential → Result Credential
found_or e none = err e
found_or e (some c) = ok c

abbrev pub insert_credential :
    CredentialInput → CredentialScope → CredentialStatus → ℕ → Vault → Vault × Result Credential
insert_credential i scope status now v =
    if exists_where (credential_is (trim_space i.id)) v.credentials
    then (v, err already_exists)
    else (
      record v { credentials = new_credential i scope status now ∷ v.credentials },
      ok (new_credential i scope status now),
    )

unfoldable pub create_credential : ℕ → CredentialInput → Vault → Vault × Result Credential
create_credential now i v = elim (checked i) [
  | err e ↦ (v, err e)
  | ok (scope, status) ↦ insert_credential i scope status now v
]

abbrev pub put_credential :
    CredentialInput → CredentialScope → CredentialStatus → ℕ → Vault → Vault × Result Credential
put_credential i scope status now v =
    let rows =
      update_where (credential_is (trim_space i.id)) (written i scope status now) v.credentials in
    if exists_where (credential_is (trim_space i.id)) v.credentials
    then (
      record v { credentials = rows },
      found_or not_found (select_one (credential_is (trim_space i.id)) rows),
    )
    else (v, err not_found)

unfoldable pub update_credential : ℕ → CredentialInput → Vault → Vault × Result Credential
update_credential now i v = elim (checked i) [
  | err e ↦ (v, err e)
  | ok (scope, status) ↦ put_credential i scope status now v
]

abbrev pub set_status : ℕ → CredentialStatus → Option ℕ → Text → Credential → Credential
set_status now status until last_error c = record c {
  status = status;
  cooldown_until = until;
  last_error = trim_space last_error;
  updated_at = now;
}

abbrev pub with_status :
    ℕ → Text → Option CredentialStatus → Option ℕ → Text → Vault → Vault × Result (Unit {0})
with_status now id none until last_error v = (v, err invalid_status)
with_status now id (some status) until last_error v = (
  record v {
    credentials =
        update_where (credential_is id) (set_status now status until last_error) v.credentials;
  },
  ok tt,
)

-- The status is the text that the caller passes.
unfoldable pub set_credential_status :
    ℕ → Text → Text → Option ℕ → Text → Vault → Vault × Result (Unit {0})
set_credential_status now id raw until last_error v =
    if is_empty (trim_space id)
    then (v, ok tt)
    else with_status now (trim_space id) (parse_credential_status raw) until last_error v

abbrev pub sum_of : (CredentialUsage → ℕ) → List CredentialUsage → ℕ
sum_of f [] = 0
sum_of f (u ∷ us) = f u + sum_of f us

abbrev pub in_window : Text → ℕ → CredentialUsage → Bool
in_window id window_start u = text_eq u.credential_id id && leb window_start u.window_start

abbrev pub codex_or_empty : Text → Text → Bool
codex_or_empty provider p = text_eq p provider || (text_eq provider (codes "codex") && is_empty p)

-- The WHERE clause. An absent requester is NULL, which equals no owner.
unfoldable pub is_candidate : ℕ → Text → Text → Credential → Bool
is_candidate now requester provider c =
    (is_active c.status && cooled now c.cooldown_until)
    && ((shared_scope c.scope
          || (not (is_empty (trim_space requester))
              && text_eq c.owner_user_id (trim_space requester)))
        && codex_or_empty provider c.provider)

abbrev pub candidate_state : ℕ → ℕ → Vault → Credential → CredentialState
candidate_state now window_start v c = record {
  id = c.id;
  owner_user_id = c.owner_user_id;
  scope = c.scope;
  weight = c.weight;
  status = c.status;
  cooldown_until = c.cooldown_until;
  active_leases = count_where (λ l. text_eq l.credential_id c.id && live now l) v.leases;
  usage_tokens = sum_of (λ u. u.tokens) (select_where (in_window c.id window_start) v.usage);
  usage_runs = sum_of (λ u. u.runs) (select_where (in_window c.id window_start) v.usage);
  last_error = c.last_error;
  created_at = c.created_at;
  updated_at = c.updated_at;
}

-- ORDER BY created_at ASC, id ASC.
abbrev pub created_before : Credential → Credential → Bool
created_before a b =
    ltb a.created_at b.created_at || (a.created_at == b.created_at && text_lt a.id b.id)

abbrev pub or_codex : Text → Text
or_codex provider = if is_empty (trim_space provider) then codes "codex" else provider

unfoldable pub list_credential_candidates : Text → Text → ℕ → ℕ → Vault → List CredentialState
list_credential_candidates requester provider now window_start v =
    map (candidate_state now window_start v) (
      sort_by created_before
        (select_where (is_candidate now requester (or_codex provider)) v.credentials))
