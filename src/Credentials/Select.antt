-- ===== src/Credentials/Select.antt =====
-- internal/credentials/strategies: how a strategy picks one of the candidates. The scores of
-- shared_weighted_usage are float64 values, which come as a parameter with their operations.
pub mod Best
pub mod Strategies
use rascal.Prelude.{
  ℕ, ◌≡◌, Bool, true, false, not, ◌&&◌, ◌||◌, Option, none, some, List, [], ◌∷◌, ltb, ◌==◌,
  if◌then◌else◌,
}
use rascal.Prelude.Table.{select_one, select_where}
use rascal.Prelude.Order.{sort_by}
use rascal.Text.{Text, text_eq}
use rascal.Text.Compare.{text_lt}
use rascal.Credentials.Names
use rascal.Credentials.Names.{Name, CredentialScope, personal, shared, CredentialStatus, parse_name}

pub record AcquireRequest : Type 0 where
  pub run_id : Text
  pub user_id : Text
  pub provider : Text

pub record CredentialState : Type 0 where
  pub id : Text
  pub owner_user_id : Text
  pub scope : CredentialScope
  pub weight : ℕ
  pub status : CredentialStatus
  pub cooldown_until : Option ℕ
  pub active_leases : ℕ
  pub usage_tokens : ℕ
  pub usage_runs : ℕ
  pub last_error : Text
  pub created_at : ℕ
  pub updated_at : ℕ

abbrev pub id_lt : CredentialState → CredentialState → Bool
id_lt a b = text_lt a.id b.id

-- `cloneAndSort` by the identifiers.
abbrev pub by_id : List CredentialState → List CredentialState
by_id = sort_by id_lt

-- The loop of `minBy` after the first value.
unfoldable pub min_loop :
    (CredentialState → CredentialState → Bool)
    → CredentialState
    → List CredentialState
    → CredentialState
min_loop less best [] = best
min_loop less best (x ∷ xs) = min_loop less (if less x best then x else best) xs

unfoldable pub min_by :
    (CredentialState → CredentialState → Bool) → List CredentialState → Option CredentialState
unfolding min_loop
min_by less [] = none
min_by less (x ∷ xs) = some (min_loop less x xs)

abbrev pub is_shared : CredentialState → Bool
is_shared c = elim c.scope [ shared ↦ true | personal ↦ false ]

abbrev pub is_own : AcquireRequest → CredentialState → Bool
is_own req c = not (is_shared c) && text_eq c.owner_user_id req.user_id

abbrev pub fewer_leases : CredentialState → CredentialState → Bool
fewer_leases a b = ltb a.active_leases b.active_leases

-- `none` is ErrNoCredentialMatch.
unfoldable pub own_then_shared : AcquireRequest → List CredentialState → Option CredentialState
unfolding min_by
own_then_shared req cs = elim (min_by fewer_leases (select_where (is_own req) (by_id cs))) [
  | some best ↦ some best
  | none ↦ min_by fewer_leases (select_where is_shared (by_id cs))
]

unfoldable pub least_active_leases : List CredentialState → Option CredentialState
unfolding min_by
least_active_leases cs = min_by fewer_leases (select_where is_shared (by_id cs))

abbrev pub less_burst : CredentialState → CredentialState → Bool
less_burst a b =
    ltb a.active_leases b.active_leases
    || (a.active_leases == b.active_leases && (is_shared a && not (is_shared b)))

unfoldable pub priority_burst : List CredentialState → Option CredentialState
unfolding min_by
priority_burst cs = min_by less_burst (by_id cs)

abbrev pub idle : CredentialState → Bool
idle c = c.active_leases == 0

abbrev pub head : List CredentialState → Option CredentialState
head [] = none
head (x ∷ _) = some x

unfoldable pub reserve_plus_pool : AcquireRequest → List CredentialState → Option CredentialState
unfolding min_by
reserve_plus_pool req cs = elim (select_one idle (select_where (is_own req) (by_id cs))) [
  | some available ↦ some available
  | none ↦ elim (min_by fewer_leases (select_where is_shared (by_id cs))) [
    | some best ↦ some best
    | none ↦ head (select_where (is_own req) (by_id cs))
  ]
]

-- What the code uses of float64. Without NaN, `<` is a strict weak order.
pub record Floats : Type 1 where
  pub Float : Type 0
  pub of_int : ℕ → Float
  pub max : Float → Float → Float
  pub div : Float → Float → Float
  pub add : Float → Float → Float
  pub lt : Float → Float → Bool
  pub asym : (x y : Float) → lt x y ≡ true → lt y x ≡ false
  pub chain : (x y z : Float) → lt x y ≡ false → lt y z ≡ false → lt x z ≡ false

module _ (F : Floats) where
  open F use {Float, of_int, max, div, add, lt}

  abbrev pub weighted_usage_score : CredentialState → Float
  weighted_usage_score c =
      let weight = max (of_int c.weight) (of_int 1) in
      add (div (of_int c.active_leases) weight) (
        add (div (div (of_int c.usage_tokens) weight) (of_int 1000000))
          (div (of_int c.usage_runs) weight))

  abbrev pub less_used : CredentialState → CredentialState → Bool
  less_used a b = lt (weighted_usage_score a) (weighted_usage_score b)

  unfoldable pub weighted_usage : List CredentialState → Option CredentialState
  unfolding min_by
  weighted_usage cs = min_by less_used (select_where is_shared (by_id cs))

  abbrev pub select_with : Name → AcquireRequest → List CredentialState → Option CredentialState
  select_with Name.requester_own_then_shared req cs = own_then_shared req cs
  select_with Name.shared_least_active_leases req cs = least_active_leases cs
  select_with Name.shared_weighted_usage req cs = weighted_usage cs
  select_with Name.priority_burst req cs = priority_burst cs
  select_with Name.hybrid_reserve_plus_pool req cs = reserve_plus_pool req cs
  select_with (Name.unknown _) req cs = none

  -- `ByName`: the strategy, which is the function `Select`; `none` for an unknown name.
  unfoldable pub by_name :
      Name → Option (AcquireRequest → List CredentialState → Option CredentialState)
  unfolding parse_name
  by_name name = elim (parse_name (Names.string name)) [
    | none ↦ none
    | some n ↦ some (select_with n)
  ]
