-- ===== src/Store/Users.antt =====
-- Users and API keys: UpsertUser, GetUserByID, GetUserByExternalLogin, UpsertAPIKey and
-- ResolveAPIPrincipalByKeyHash of internal/state/credentials.go.
pub mod Keys
use rascal.Prelude.{
  ℕ, Bool, true, false, not, ◌&&◌, ◌||◌, Option, none, some, List, [], ◌∷◌, if◌then◌else◌,
}
use rascal.Prelude.Table.{select_one, exists_where, update_where}
use rascal.Text.{Text, codes, is_empty, text_eq, trim_space, normal, switch}
use rascal.Store.Schema.{Error, required, already_exists, not_found}
use rascal.Store.Tx.{Result, ok, err}

pub data UserRole : Type 0 where
  user admin : UserRole

unfoldable pub normalize_user_role : Text → UserRole
unfolding switch
normalize_user_role role = switch (normal role) ((codes "admin", admin) ∷ []) user

pub record User : Type 0 where
  pub id : Text
  pub external_login : Text
  pub role : UserRole
  pub created_at : ℕ
  pub updated_at : ℕ

pub record ApiKey : Type 0 where
  pub id : Text
  pub user_id : Text
  pub key_hash : Text
  pub label : Text
  pub created_at : ℕ
  pub last_used_at : ℕ
  pub disabled_at : Option ℕ

pub record Accounts : Type 0 where
  pub users : List User
  pub api_keys : List ApiKey

pub record ApiPrincipal : Type 0 where
  pub api_key_id : Text
  pub user_id : Text
  pub external_login : Text
  pub role : UserRole

abbrev pub user_is : Text → User → Bool
user_is id u = text_eq u.id id

abbrev login_is : Text → User → Bool
login_is login u = text_eq u.external_login login

abbrev pub hash_is : Text → ApiKey → Bool
hash_is hash k = text_eq k.key_hash hash

-- The unique column `external_login`.
abbrev login_taken : Text → Text → User → Bool
login_taken id login u = login_is login u && not (user_is id u)

-- ON CONFLICT(id) DO UPDATE.
unfoldable pub put_user : User → List User → List User
put_user u rows =
    if exists_where (user_is u.id) rows
    then update_where (user_is u.id) (λ old. record u { created_at = old.created_at }) rows
    else u ∷ rows

abbrev loaded : Text → Option User → Result User
loaded id none = err (not_found id)
loaded id (some u) = ok u

abbrev put_and_load : User → Accounts → Accounts × Result User
put_and_load u a =
    if exists_where (login_taken u.id u.external_login) a.users
    then (a, err (already_exists u.external_login))
    else (
      record a { users = put_user u a.users },
      loaded u.id (select_one (user_is u.id) (put_user u a.users)),
    )

unfoldable pub upsert_user : ℕ → Text → Text → Text → Accounts → Accounts × Result User
unfolding normalize_user_role
upsert_user now id external_login role a =
    if is_empty (trim_space id) || is_empty (trim_space external_login)
    then (a, err required)
    else put_and_load
        (record {
          id = trim_space id;
          external_login = trim_space external_login;
          role = normalize_user_role role;
          created_at = now;
          updated_at = now;
        })
        a

unfoldable pub get_user_by_id : Text → Accounts → Option User
get_user_by_id id a = select_one (user_is (trim_space id)) a.users

unfoldable pub get_user_by_external_login : Text → Accounts → Option User
get_user_by_external_login login a = select_one (login_is (trim_space login)) a.users

pub record UpsertApiKeyInput : Type 0 where
  pub id : Text
  pub user_id : Text
  pub key_hash : Text
  pub label : Text

abbrev pub new_key : ℕ → UpsertApiKeyInput → ApiKey
new_key now i = record {
  id = trim_space i.id;
  user_id = trim_space i.user_id;
  key_hash = trim_space i.key_hash;
  label = trim_space i.label;
  created_at = now;
  last_used_at = now;
  disabled_at = none;
}

abbrev pub renewed_key : ApiKey → ApiKey → ApiKey
renewed_key k old = record old { user_id = k.user_id; label = k.label; disabled_at = k.disabled_at }

-- The primary key.
abbrev key_taken : ApiKey → ApiKey → Bool
key_taken k other = text_eq other.id k.id && not (text_eq other.key_hash k.key_hash)

-- ON CONFLICT(key_hash) DO UPDATE.
unfoldable pub put_key : ApiKey → List ApiKey → List ApiKey
put_key k rows =
    if exists_where (hash_is k.key_hash) rows
    then update_where (hash_is k.key_hash) (renewed_key k) rows
    else k ∷ rows

abbrev insert_key : ApiKey → Accounts → Accounts × Result (Unit {0})
insert_key k a =
    if exists_where (key_taken k) a.api_keys
    then (a, err (already_exists k.id))
    else if exists_where (user_is k.user_id) a.users
    then (record a { api_keys = put_key k a.api_keys }, ok tt)
    else (a, err (not_found k.user_id))

-- The foreign key on the user is checked.
unfoldable pub upsert_api_key : ℕ → UpsertApiKeyInput → Accounts → Accounts × Result (Unit {0})
upsert_api_key now i a =
    if is_empty (trim_space i.id)
      || (is_empty (trim_space i.user_id) || is_empty (trim_space i.key_hash))
    then (a, err required)
    else insert_key (new_key now i) a

abbrev enabled : Option ℕ → Bool
enabled none = true
enabled (some _) = false

abbrev pub usable : Text → ApiKey → Bool
usable hash k = hash_is hash k && enabled k.disabled_at

abbrev pub principal : ApiKey → User → ApiPrincipal
principal k u = record {
  api_key_id = k.id;
  user_id = k.user_id;
  external_login = u.external_login;
  role = u.role;
}

abbrev pub joined : ApiKey → Option User → Option ApiPrincipal
joined k none = none
joined k (some u) = some (principal k u)

abbrev pub of_key : List User → Option ApiKey → Option ApiPrincipal
of_key users none = none
of_key users (some k) = joined k (select_one (user_is k.user_id) users)

unfoldable pub get_api_key_principal : Text → Accounts → Option ApiPrincipal
get_api_key_principal hash a = of_key a.users (select_one (usable hash) a.api_keys)

abbrev touch : ℕ → Text → List ApiKey → List ApiKey
touch now id keys = update_where (λ k. text_eq k.id id) (λ k. record k { last_used_at = now }) keys

abbrev touched : ℕ → Option ApiPrincipal → Accounts → Accounts × Option ApiPrincipal
touched now none a = (a, none)
touched now (some p) a = (record a { api_keys = touch now p.api_key_id a.api_keys }, some p)

unfoldable pub resolve_api_principal_by_key_hash :
    ℕ → Text → Accounts → Accounts × Option ApiPrincipal
unfolding get_api_key_principal
resolve_api_principal_by_key_hash now key_hash a =
    if is_empty (trim_space key_hash)
    then (a, none)
    else touched now (get_api_key_principal (trim_space key_hash) a) a
