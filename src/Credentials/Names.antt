-- ===== src/Credentials/Names.antt =====
-- internal/credentialstrategy, and the scopes and statuses of internal/state/credentials.go.
use rascal.Prelude.{Bool, true, false, Option, none, some, List, [], ◌∷◌}
use rascal.Text.{Text, codes, normal, switch}

pub data Name : Type 0 where
  requester_own_then_shared shared_least_active_leases shared_weighted_usage : Name
  priority_burst hybrid_reserve_plus_pool : Name
  unknown : Text → Name

-- `Name.String`.
unfoldable pub string : Name → Text
string requester_own_then_shared = codes "requester_own_then_shared"
string shared_least_active_leases = codes "shared_least_active_leases"
string shared_weighted_usage = codes "shared_weighted_usage"
string priority_burst = codes "priority_burst"
string hybrid_reserve_plus_pool = codes "hybrid_reserve_plus_pool"
string (unknown s) = s

unfoldable pub normalize_name : Text → Name
unfolding switch
normalize_name raw = switch (normal raw) cases (unknown (normal raw))
  where
    cases : List (Text × Name)
    cases =
        ([], requester_own_then_shared)
        ∷ (codes "requester_own_then_shared", requester_own_then_shared)
        ∷ (codes "shared_least_active_leases", shared_least_active_leases)
        ∷ (codes "shared_weighted_usage", shared_weighted_usage)
        ∷ (codes "priority_burst", priority_burst)
        ∷ (codes "hybrid_reserve_plus_pool", hybrid_reserve_plus_pool)
        ∷ []

abbrev is_listed : Name → Bool
is_listed (unknown _) = false
is_listed _ = true

unfoldable pub is_valid : Name → Bool
unfolding normalize_name string
is_valid n = is_listed (normalize_name (string n))

abbrev only_valid : Name → Bool → Option Name
only_valid n true = some n
only_valid n false = none

unfoldable pub parse_name : Text → Option Name
unfolding is_valid
parse_name raw = only_valid (normalize_name raw) (is_valid (normalize_name raw))

pub data CredentialScope : Type 0 where
  personal shared : CredentialScope

unfoldable pub normalize_credential_scope : Text → CredentialScope
unfolding switch
normalize_credential_scope s = switch (normal s) ((codes "shared", shared) ∷ []) personal

unfoldable pub parse_credential_scope : Text → Option CredentialScope
unfolding switch
parse_credential_scope s = switch (normal s) cases none
  where
    cases : List (Text × Option CredentialScope)
    cases =
        ([], some personal) ∷ (codes "personal", some personal) ∷ (codes "shared", some shared) ∷ []

pub data CredentialStatus : Type 0 where
  active disabled cooldown : CredentialStatus

unfoldable pub normalize_credential_status : Text → CredentialStatus
unfolding switch
normalize_credential_status s =
    switch (normal s) ((codes "disabled", disabled) ∷ (codes "cooldown", cooldown) ∷ []) active

unfoldable pub parse_credential_status : Text → Option CredentialStatus
unfolding switch
parse_credential_status s = switch (normal s) cases none
  where
    cases : List (Text × Option CredentialStatus)
    cases =
        ([], some active)
        ∷ (codes "active", some active)
        ∷ (codes "disabled", some disabled)
        ∷ (codes "cooldown", some cooldown)
        ∷ []
