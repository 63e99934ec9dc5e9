-- ===== src/Credentials/Select/Strategies.antt =====
-- The strategies of internal/credentials/strategies, each against what it promises.
use rascal.Prelude.{
  ◌≡◌, refl, ap, subst, ◌∙◌, ◌⊎◌, inl, inr, Bool, true, false, ◌&&◌, none, some, List, [], ◌∷◌,
  arith, Bool-cases,
}
use rascal.Prelude.Table.{select_one, select_where}
use rascal.Credentials.Select.{
  AcquireRequest, CredentialState, by_id, min_loop, min_by, is_shared, is_own, fewer_leases,
  less_burst, idle, head, own_then_shared, least_active_leases, priority_burst, reserve_plus_pool,
  Floats, less_used, weighted_usage, weighted_usage_score,
}
use rascal.Credentials.Select.Best.{Best, NoneOf, min_by-Best}

fewer-asym : (x y : CredentialState) → fewer_leases x y ≡ true → fewer_leases y x ≡ false
fewer-asym x y h = ground arith

fewer-chain :
    (x y z : CredentialState)
    → fewer_leases x y ≡ false
    → fewer_leases y z ≡ false
    → fewer_leases x z ≡ false
fewer-chain x y z h k = ground arith

burst-asym : (x y : CredentialState) → less_burst x y ≡ true → less_burst y x ≡ false
burst-asym x y h = ground arith

burst-chain :
    (x y z : CredentialState)
    → less_burst x y ≡ false
    → less_burst y z ≡ false
    → less_burst x z ≡ false
burst-chain x y z h k = ground arith

-- RequesterOwnThenShared picks the best of the requester's own candidates by active leases. When
-- there is none it picks the best of the shared ones, and when there is none of these either it
-- matches nothing.
pub own_then_shared-Best :
    (req : AcquireRequest) (cs : List CredentialState)
    → ((r : CredentialState) × (own_then_shared req cs ≡ some r)
        × Best fewer_leases (is_own req) cs r)
      ⊎ (NoneOf (is_own req) cs
          × (((r : CredentialState) × (own_then_shared req cs ≡ some r)
                × Best fewer_leases is_shared cs r)
              ⊎ ((own_then_shared req cs ≡ none) × NoneOf is_shared cs)))
unfolding own_then_shared
own_then_shared-Best req cs =
    elim (min_by-Best fewer_leases fewer-asym fewer-chain (is_own req) cs) [
      | inr (r, e, b) ↦ inl (r, rw (e, own_then_shared), b)
      | inl (e, n) ↦ inr (
        n,
        elim (min_by-Best fewer_leases fewer-asym fewer-chain is_shared cs) [
          | inr (r, f, b) ↦ inl (r, rw (e, own_then_shared) f, b)
          | inl (f, k) ↦ inr (rw (e, own_then_shared) f, k)
        ],
      )
    ]

-- SharedLeastActiveLeases picks the best of the shared candidates by active leases, and matches
-- nothing when there is none.
pub least_active_leases-Best :
    (cs : List CredentialState)
    → ((least_active_leases cs ≡ none) × NoneOf is_shared cs)
      ⊎ ((r : CredentialState) × (least_active_leases cs ≡ some r)
          × Best fewer_leases is_shared cs r)
unfolding least_active_leases
least_active_leases-Best cs = min_by-Best fewer_leases fewer-asym fewer-chain is_shared cs

select_all : (cs : List CredentialState) → select_where (λ _. true) cs ≡ cs
unfolding select_where
select_all [] = refl
select_all (x ∷ xs) = ap (λ ys. x ∷ ys) (select_all xs)

-- PriorityBurst picks the best of all candidates by active leases, a shared one before a personal one
-- with as many, and matches nothing when there is no candidate.
pub priority_burst-Best :
    (cs : List CredentialState)
    → ((priority_burst cs ≡ none) × NoneOf (λ _. true) cs)
      ⊎ ((r : CredentialState) × (priority_burst cs ≡ some r) × Best less_burst (λ _. true) cs r)
unfolding priority_burst
priority_burst-Best cs =
    subst
      (λ rows.
        ((min_by less_burst rows ≡ none) × NoneOf (λ _. true) cs)
        ⊎ ((r : CredentialState) × (min_by less_burst rows ≡ some r)
            × Best less_burst (λ _. true) cs r))
      (select_all (by_id cs)) (min_by-Best less_burst burst-asym burst-chain (λ _. true) cs)

-- By no measure but the identifier.
abbrev pub even : CredentialState → CredentialState → Bool
even _ _ = false

min_loop-even : (x : CredentialState) (xs : List CredentialState) → min_loop even x xs ≡ x
unfolding min_loop
min_loop-even x [] = refl
min_loop-even x (y ∷ ys) = min_loop-even x ys

min_by-even : (cs : List CredentialState) → min_by even cs ≡ head cs
unfolding min_by
min_by-even [] = refl
min_by-even (x ∷ xs) = ap some (min_loop-even x xs)

select-select :
    (p q : CredentialState → Bool) (cs : List CredentialState)
    → select_one q (select_where p cs) ≡ head (select_where (λ c. p c && q c) cs)
unfolding select_one select_where
select-select p q [] = refl
select-select p q (x ∷ xs) = elim (Bool-cases (p x)) [
  | inr k ↦ rw k (select-select p q xs)
  | inl k ↦ elim (Bool-cases (q x)) [ inl t ↦ rw (k, t) | inr t ↦ rw (k, t) (select-select p q xs) ]
]

-- The first candidate, by its identifier, that passes the test.
first-Best :
    (p : CredentialState → Bool) (cs : List CredentialState)
    → ((head (select_where p (by_id cs)) ≡ none) × NoneOf p cs)
      ⊎ ((r : CredentialState) × (head (select_where p (by_id cs)) ≡ some r) × Best even p cs r)
first-Best p cs =
    subst
      (λ o. ((o ≡ none) × NoneOf p cs) ⊎ ((r : CredentialState) × (o ≡ some r) × Best even p cs r))
      (min_by-even (select_where p (by_id cs)))
      (min_by-Best even (λ _ _ _. refl) (λ _ _ _ _ _. refl) p cs)

abbrev pub is_reserved : AcquireRequest → CredentialState → Bool
is_reserved req c = is_own req c && idle c

-- HybridReservePlusPool picks the first idle candidate of the requester's own. When there is none
-- it picks the best shared one by active leases, then the first of the requester's own, and matches
-- nothing when there is none of these either.
pub reserve_plus_pool-Best :
    (req : AcquireRequest) (cs : List CredentialState)
    → ((r : CredentialState) × (reserve_plus_pool req cs ≡ some r)
        × Best even (is_reserved req) cs r)
      ⊎ (NoneOf (is_reserved req) cs
          × (((r : CredentialState) × (reserve_plus_pool req cs ≡ some r)
                × Best fewer_leases is_shared cs r)
              ⊎ (NoneOf is_shared cs
                  × (((r : CredentialState) × (reserve_plus_pool req cs ≡ some r)
                        × Best even (is_own req) cs r)
                      ⊎ ((reserve_plus_pool req cs ≡ none) × NoneOf (is_own req) cs)))))
unfolding reserve_plus_pool
reserve_plus_pool-Best req cs = elim (first-Best (is_reserved req) cs) [
  | inr (r, e, b) ↦ inl (r, rw (reserved ∙ e, reserve_plus_pool), b)
  | inl (e, n) ↦ inr (
    n,
    elim (min_by-Best fewer_leases fewer-asym fewer-chain is_shared cs) [
      | inr (r, f, b) ↦ inl (r, rw (reserved ∙ e, f, reserve_plus_pool), b)
      | inl (f, k) ↦ inr (
        k,
        elim (first-Best (is_own req) cs) [
          | inr (r, g, b) ↦ inl (r, rw (reserved ∙ e, f, reserve_plus_pool) g, b)
          | inl (g, l) ↦ inr (rw (reserved ∙ e, f, reserve_plus_pool) g, l)
        ],
      )
    ],
  )
]
  where
    reserved :
        select_one idle (select_where (is_own req) (by_id cs))
        ≡ head (select_where (is_reserved req) (by_id cs))
    reserved = select-select (is_own req) idle (by_id cs)

-- SharedWeightedUsage picks the best of the shared candidates by the score, for any floating point
-- numbers whose order is strict and weak.
pub weighted_usage-Best :
    (F : Floats) (cs : List CredentialState)
    → ((weighted_usage F cs ≡ none) × NoneOf is_shared cs)
      ⊎ ((r : CredentialState) × (weighted_usage F cs ≡ some r) × Best (less_used F) is_shared cs r)
unfolding weighted_usage
weighted_usage-Best F cs =
    min_by-Best (less_used F) (λ x y. F.asym (weighted_usage_score F x) (weighted_usage_score F y))
      (λ x y z.
        F.chain (weighted_usage_score F x) (weighted_usage_score F y) (weighted_usage_score F z))
      is_shared cs
