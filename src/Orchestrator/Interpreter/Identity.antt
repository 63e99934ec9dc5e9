-- ===== src/Orchestrator/Interpreter/Identity.antt =====
-- The task identifiers that internal/orchestrator makes of a repository and an issue, and the runs
-- that failed checks ask for.
use mathlib.Core.List.{Memᴰ, append_assoc}
use rascal.Prelude.{
  ℕ, ◌≡◌, refl, sym, ap, ◌∙◌, inl, inr, ◌⊎◌, true, false, ◌||◌, List, [], ◌∷◌, ◌++◌, Bool-cases,
  arith, ◌==◌,
}
use rascal.Text.{Text, is_empty, trim_space}
use rascal.Text.Decimal.{decimal, decimal_injective, decimal-IsDecimal, separated}
use rascal.Enums.{normalize_repo}
use rascal.Github.Events.{CheckPullRequest}
use rascal.Orchestrator.Interpreter.Actions.{WebhookAction, repo_issue_task_id, is_rascal_branch}
use rascal.Orchestrator.Interpreter.Checks.{build_check_failure_actions}

empty_false : {c : ℕ} {s : Text} → (c ∷ s) ≡ [] → ⊥
empty_false h = cc

id_parts :
    (repo : Text) (n : ℕ)
    → is_empty (repo_issue_task_id repo n) ≡ false
    → repo_issue_task_id repo n ≡ normalize_repo repo ++ 35 ∷ decimal n
unfolding repo_issue_task_id
id_parts repo n h = elim (Bool-cases (is_empty (normalize_repo repo) || n == 0)) [
  | inl e ↦ absurd (ground (arith, e))
  | inr e ↦ rw e (append_assoc (normalize_repo repo) (35 ∷ []) (decimal n))
]

-- A task identifier that is not empty belongs to one issue of one repository, up to the case of the
-- repository's name and the space around it.
pub repo_issue_task_id_injective :
    (repo repo' : Text) (n n' : ℕ)
    → is_empty (repo_issue_task_id repo n) ≡ false
    → repo_issue_task_id repo n ≡ repo_issue_task_id repo' n'
    → (normalize_repo repo ≡ normalize_repo repo') × (n ≡ n')
repo_issue_task_id_injective repo repo' n n' h q =
    let left = id_parts repo n h in
    let right = id_parts repo' n' (sym (ap is_empty q) ∙ h) in
    let (same, digits) =
      separated 35 (normalize_repo repo) (normalize_repo repo') (decimal n) (decimal n')
        (omega arith) (decimal-IsDecimal n) (decimal-IsDecimal n') (sym left ∙ q ∙ right) in
    (same, decimal_injective n n' digits)

-- The pull request or the branch of rascal that a run on a failed check is for.
abbrev pub About : List CheckPullRequest → WebhookAction → Type 0
About prs a =
    ((pr : CheckPullRequest) × (rest : List CheckPullRequest) × (prs ≡ pr ∷ rest)
      × (a.pr_number ≡ pr.number))
    ⊎ ((prs ≡ []) × (a.pr_number ≡ 0) × (is_rascal_branch a.head_branch ≡ true))

only : {x a : WebhookAction} → Memᴰ a (x ∷ []) → a ≡ x
only (Memᴰ.head e) = e
only (Memᴰ.tail m) = elim m [ ]

-- A failed check asks for a run in a named repository, for the first pull request of the check or,
-- when the check has none, for a branch of rascal.
pub check_failure-About :
    (repo : Text) (prs : List CheckPullRequest) (head_branch head_sha name context : Text)
    (a : WebhookAction)
    → Memᴰ a (build_check_failure_actions repo prs head_branch head_sha name context)
    → (a.repo ≡ normalize_repo repo) × (is_empty a.repo ≡ false) × About prs a
unfolding build_check_failure_actions
check_failure-About repo (pr ∷ rest) head_branch head_sha name context a m =
    elim (Bool-cases (is_empty (normalize_repo repo))) [
      | inl e ↦ elim (rw e at m) [ ]
      | inr e ↦
          let same = only (rw e at m) in
          (
            ap (λ (x : WebhookAction). x.repo) same,
            ap (λ (x : WebhookAction). is_empty x.repo) same ∙ e,
            inl (pr, rest, refl, ap (λ (x : WebhookAction). x.pr_number) same),
          )
    ]
check_failure-About repo [] head_branch head_sha name context a m =
    elim (Bool-cases (is_empty (normalize_repo repo))) [
      | inl e ↦ elim (rw e at m) [ ]
      | inr e ↦ elim (Bool-cases (is_rascal_branch (trim_space head_branch))) [
        | inr f ↦ elim (rw (e, f) at m) [ ]
        | inl f ↦
            let same = only (rw (e, f) at m) in
            (
              ap (λ (x : WebhookAction). x.repo) same,
              ap (λ (x : WebhookAction). is_empty x.repo) same ∙ e,
              inr (
                refl,
                ap (λ (x : WebhookAction). x.pr_number) same,
                ap (λ (x : WebhookAction). is_rascal_branch x.head_branch) same ∙ f,
              ),
            )
      ]
    ]
