-- ===== src/Tests/Credentials.antt =====
-- The strategies, the leases and the broker on a small vault.
use rascal.Prelude.{
  ℕ, ◌+◌, ◌/◌, ◌≡◌, refl, Bool, true, false, none, some, [], ◌∷◌, List, ltb, arith, ◌⊎◌,
  if◌then◌else◌,
}
use rascal.Prelude.Table.{select_one, select_where, exists_where, update_where, count_where}
use rascal.Prelude.Order.{insert_by, sort_by}
use rascal.Text.{to_lower, switch}
use rascal.Text.{codes, text_eq, trim_space, Text}
use rascal.Text.Compare.{text_lt}
use rascal.Credentials.Names.{parse_credential_status}
use rascal.Credentials.Names.{Name, personal, shared, active, cooldown, normalize_name}
use rascal.Credentials.Select.{
  AcquireRequest, CredentialState, Floats, own_then_shared, reserve_plus_pool, priority_burst,
  min_by, min_loop, is_own, is_shared, fewer_leases,
}
use rascal.Credentials.Select.Best.{Best, NoneOf}
use rascal.Credentials.Select.Strategies.{
  own_then_shared-Best, reserve_plus_pool-Best, even, is_reserved,
}
use rascal.Credentials.Vault.{
  Credential, Vault, ok, get_credential, list_credential_candidates, set_credential_status,
  is_candidate,
}
use rascal.Credentials.Leases.{
  CreateCredentialLeaseInput, try_create_credential_lease, release_credential_lease,
  reclaim_expired_credential_leases,
}
use rascal.Credentials.Leases.Single.{IsSingle, Call, Calls, Calls-IsSingle}
use rascal.Credentials.Leases.Cooldown.{cooldown_never_leased}
use rascal.Credentials.Broker.{
  Broker, Attempt, State, Error, Result, Lease, new_broker, acquire, acquire_loop,
  set_run_credential_id, hour, no_credential_available, decrypt_failed,
}
use rascal.Credentials.Broker as B
use rascal.Credentials.Broker.Acquired.{acquire-Granted, Granted}
use rascal.Credentials.Broker.Failed.{acquire-NoNewLease, NoNewLeaseBut}
use rascal.Tests.Data.{sample}

abbrev state : Text → Text → Bool → ℕ → CredentialState
state id owner is_pool leases = record {
  id = id;
  owner_user_id = owner;
  scope = elim is_pool [ true ↦ shared | false ↦ personal ];
  weight = 1;
  status = active;
  cooldown_until = none;
  active_leases = leases;
  usage_tokens = 0;
  usage_runs = leases;
  last_error = [];
  created_at = 1;
  updated_at = 1;
}

abbrev four : List CredentialState
four =
    state (codes "c") (codes "u") false 2
    ∷ state (codes "b") (codes "u") false 1
    ∷ state (codes "d") [] true 0
    ∷ state (codes "a") [] true 0
    ∷ []

abbrev request : AcquireRequest
request = record { run_id = codes " r1"; user_id = codes "u"; provider = [] }

four_own : own_then_shared request four ≡ some (state (codes "b") (codes "u") false 1)
unfolding own_then_shared min_by min_loop sort_by insert_by select_where text_eq text_lt
four_own = refl

four_pool : reserve_plus_pool request four ≡ some (state (codes "a") [] true 0)
unfolding reserve_plus_pool select_one min_by min_loop sort_by insert_by select_where text_eq
    text_lt
four_pool = refl

own_then_shared-Best_example :
    ((r : CredentialState) × (own_then_shared request four ≡ some r)
      × Best fewer_leases (is_own request) four r)
    ⊎ (NoneOf (is_own request) four
        × (((r : CredentialState) × (own_then_shared request four ≡ some r)
              × Best fewer_leases is_shared four r)
            ⊎ ((own_then_shared request four ≡ none) × NoneOf is_shared four)))
own_then_shared-Best_example = own_then_shared-Best request four

reserve_plus_pool-Best_example :
    ((r : CredentialState) × (reserve_plus_pool request four ≡ some r)
      × Best even (is_reserved request) four r)
    ⊎ (NoneOf (is_reserved request) four
        × (((r : CredentialState) × (reserve_plus_pool request four ≡ some r)
              × Best fewer_leases is_shared four r)
            ⊎ (NoneOf is_shared four
                × (((r : CredentialState) × (reserve_plus_pool request four ≡ some r)
                      × Best even (is_own request) four r)
                    ⊎ ((reserve_plus_pool request four ≡ none) × NoneOf (is_own request) four)))))
reserve_plus_pool-Best_example = reserve_plus_pool-Best request four

ltb-asym : (x y : ℕ) → ltb x y ≡ true → ltb y x ≡ false
ltb-asym x y h = ground arith

ltb-chain : (x y z : ℕ) → ltb x y ≡ false → ltb y z ≡ false → ltb x z ≡ false
ltb-chain x y z h k = ground arith

abbrev naturals : Floats
naturals = record {
  Float = ℕ;
  of_int = λ n. n;
  max = λ a b. if ltb a b then b else a;
  div = λ a b. a / b;
  add = λ a b. a + b;
  lt = ltb;
  asym = ltb-asym;
  chain = ltb-chain;
}

abbrev pool_key : Credential
pool_key = record {
  id = codes "k";
  owner_user_id = [];
  scope = shared;
  provider = codes "codex";
  encrypted_auth_blob = 7 ∷ [];
  weight = 1;
  status = active;
  cooldown_until = none;
  last_error = [];
  created_at = 1;
  updated_at = 1;
}

abbrev vault : Vault
vault = record { credentials = pool_key ∷ []; leases = []; usage = [] }

abbrev lease_1 : CreateCredentialLeaseInput
lease_1 = record {
  id = codes "lease_1";
  credential_id = codes "k";
  run_id = codes "r1";
  user_id = codes "u";
  strategy = Name.priority_burst;
  acquired_at = 10;
  expires_at = 20;
  now = 10;
}

abbrev vault_1 : Vault
vault_1 = (try_create_credential_lease lease_1 vault).0

vault-IsSingle : IsSingle 5 vault
unfolding count_where
vault-IsSingle run_id = omega arith

vault-Calls : Calls 5 vault 20 (reclaim_expired_credential_leases 20 vault_1).0
vault-Calls =
    Calls.next (Calls.next Calls.here (omega arith) (Call.create lease_1 refl refl)) (omega arith)
      (Call.reclaim refl)

Calls-IsSingle_example : IsSingle 20 (reclaim_expired_credential_leases 20 vault_1).0
Calls-IsSingle_example = Calls-IsSingle vault-IsSingle vault-Calls

cooldown_text : parse_credential_status (codes "cooldown") ≡ some cooldown
unfolding parse_credential_status switch text_eq trim_space to_lower
cooldown_text = refl

cooldown_never_leased_example : ¬ (
    (try_create_credential_lease lease_1
      (set_credential_status 9 (codes "k") (codes "cooldown") (some 9) [] vault).0).1
    ≡ ok true)
cooldown_never_leased_example =
    cooldown_never_leased 9 (codes "cooldown") (some 9) [] lease_1 vault cooldown_text

-- A cipher that opens nothing, and one that opens everything.
abbrev closed_broker : Broker
closed_broker = new_broker Name.priority_burst (λ _ cs. priority_burst cs) (λ _. none) 15

abbrev open_broker : Broker
open_broker = new_broker Name.priority_burst (λ _ cs. priority_burst cs) (λ blob. some blob) 15

abbrev attempts : ℕ → Attempt
attempts n = record {
  no_random = false;
  fails = λ _. false;
  lease_id = codes "lease_1";
  acquired_at = 12;
  released_at = 13;
  failed_at = 14;
  updated_at = 13;
}

abbrev before : State
before = record { vault = vault; db = sample }

abbrev granted : Lease
granted = record {
  id = codes "lease_1";
  credential_id = codes "k";
  run_id = codes "r1";
  user_id = codes "u";
  strategy = Name.priority_burst;
  acquired_at = 12;
  expires_at = 27;
  auth_blob = 7 ∷ [];
}

acquired : (acquire open_broker 11 false attempts request before).1 ≡ B.ok granted
unfolding acquire acquire_loop new_broker set_run_credential_id reclaim_expired_credential_leases
    list_credential_candidates is_candidate try_create_credential_lease get_credential
    priority_burst min_by min_loop sort_by insert_by select_one select_where exists_where
    update_where count_where normalize_name text_eq text_lt trim_space
acquired = refl

acquire-Granted_example :
    (codes "r1" ≡ trim_space (codes " r1"))
    × (codes "u" ≡ trim_space (codes "u"))
    × Granted open_broker granted (acquire open_broker 11 false attempts request before).0.vault
acquire-Granted_example =
    acquire-Granted open_broker 11 false attempts request before granted acquired

failed : (acquire closed_broker 11 false attempts request before).1 ≡ B.err decrypt_failed
unfolding acquire acquire_loop new_broker set_credential_status parse_credential_status to_lower
    reclaim_expired_credential_leases list_credential_candidates is_candidate
    try_create_credential_lease release_credential_lease get_credential priority_burst min_by
    min_loop sort_by insert_by select_one select_where exists_where update_where count_where
    normalize_name text_eq text_lt trim_space
failed = refl

acquire-NoNewLease_example :
    NoNewLeaseBut
      (trim_space (codes " r1"))
      decrypt_failed
      vault
      (acquire closed_broker 11 false attempts request before).0.vault
acquire-NoNewLease_example =
    acquire-NoNewLease closed_broker 11 false attempts request before decrypt_failed failed
