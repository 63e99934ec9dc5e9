-- ===== src/Status/Lifecycle.antt =====
-- The life of a run as the table of transitions in internal/state/types.go allows it.
use rascal.Prelude.{
  ◌≡◌, refl, subst, true, ◌↔◌, inl, inr, none, some, List, [], ◌∷◌, arith, Option-cases, ◌≢◌,
}
use rascal.Status.{
  RunStatus, queued, running, review, succeeded, failed, canceled, other, run_status_text,
  run_status_transitions, parse_run_status, validate_run_status_transition,
}
use rascal.Status.Parsing.{IsNamed}

-- A queued run starts or is given up, a running one is put back or ends, and a run in review is
-- merged or closed. A run may also be written again with the status that it has.
pub data Step : RunStatus → RunStatus → Type 0 where
  stay : (s : RunStatus) → IsNamed s → Step s s
  start : Step queued running
  give_up : Step queued failed
  drop : Step queued canceled
  requeue : Step running queued
  ask_review : Step running review
  succeed : Step running succeeded
  fail : Step running failed
  cancel : Step running canceled
  merge : Step review succeeded
  close : Step review canceled

ruleset steps =
    (stay, start, give_up, drop, requeue, ask_review, succeed, fail, cancel, merge, close)

table-Step : (s t : RunStatus) → run_status_transitions s t ≡ true → Step s t
unfolding run_status_transitions
table-Step s t h = grind (arith, steps)

Step-table : {s t : RunStatus} → Step s t → run_status_transitions s t ≡ true
unfolding run_status_transitions
Step-table (stay queued _) = refl
Step-table (stay running _) = refl
Step-table (stay review _) = refl
Step-table (stay succeeded _) = refl
Step-table (stay failed _) = refl
Step-table (stay canceled _) = refl
Step-table (stay (other _) h) = absurd h
Step-table start = refl
Step-table give_up = refl
Step-table drop = refl
Step-table requeue = refl
Step-table ask_review = refl
Step-table succeed = refl
Step-table fail = refl
Step-table cancel = refl
Step-table merge = refl
Step-table close = refl

-- What the validation accepts, with both statuses read.
abbrev pub Accepts : RunStatus → RunStatus → Type 0
Accepts from to =
    (f : RunStatus) × (t : RunStatus) × (parse_run_status (run_status_text from) ≡ some f)
    × (parse_run_status (run_status_text to) ≡ some t)
    × Step f t

Accepts-of_none :
    (from to : RunStatus) → validate_run_status_transition from to ≡ none → Accepts from to
unfolding validate_run_status_transition
Accepts-of_none from to h = elim (Option-cases (parse_run_status (run_status_text from))) [
  | inl e ↦ absurd (ground arith)
  | inr (f, e) ↦ elim (Option-cases (parse_run_status (run_status_text to))) [
    | inl e' ↦ absurd (ground arith)
    | inr (t, e') ↦ (f, t, e, e', table-Step f t (ground arith))
  ]
]

none_of_Accepts :
    (from to : RunStatus) → Accepts from to → validate_run_status_transition from to ≡ none
unfolding validate_run_status_transition
none_of_Accepts from to (f, t, e, e', st) = ground (arith, Step-table st)

-- The validation of a status change passes exactly when both texts are read as statuses and the
-- change from the one to the other is a step of the life of a run.
pub validate-Accepts :
    (from to : RunStatus) → (validate_run_status_transition from to ≡ none) ↔ Accepts from to
validate-Accepts from to = (Accepts-of_none from to, none_of_Accepts from to)

-- A chain of status changes, each accepted by the validation.
abbrev pub Follows : RunStatus → List RunStatus → Type 0
Follows s [] = Unit {0}
Follows s (t ∷ ts) = (validate_run_status_transition s t ≡ none) × Follows t ts

abbrev pub All {ℓ} : {A : Type ℓ} → (A → Type 0) → List A → Type 0
All P [] = Unit {0}
All P (x ∷ xs) = P x × All P xs

-- Succeeded, failed and canceled.
abbrev pub IsTerminal : RunStatus → Type 0
IsTerminal succeeded = Unit {0}
IsTerminal failed = Unit {0}
IsTerminal canceled = Unit {0}
IsTerminal _ = ⊥

terminal_stays : {s t : RunStatus} → Step s t → IsTerminal s → t ≡ s
terminal_stays (stay s _) h = refl
terminal_stays start h = absurd h
terminal_stays give_up h = absurd h
terminal_stays drop h = absurd h
terminal_stays requeue h = absurd h
terminal_stays ask_review h = absurd h
terminal_stays succeed h = absurd h
terminal_stays fail h = absurd h
terminal_stays cancel h = absurd h
terminal_stays merge h = absurd h
terminal_stays close h = absurd h

abbrev pub Reads : RunStatus → RunStatus → Type 0
Reads s t = parse_run_status (run_status_text t) ≡ some s

-- One accepted change, with the status that the first text is read as.
pub accepted-Step :
    (s t f : RunStatus)
    → validate_run_status_transition s t ≡ none
    → Reads f s
    → (g : RunStatus) × Reads g t × Step f g
accepted-Step s t f h r = from_accepts (Accepts-of_none s t h)
  where
    from_accepts : Accepts s t → (g : RunStatus) × Reads g t × Step f g
    from_accepts (f', g, e, e', st) =
        let same : f' ≡ f = cc in (g, e', subst (λ x. Step x g) same st)

-- Once a run is succeeded, failed or canceled, every chain of accepted changes leaves it so.
pub terminal-Follows :
    (f : RunStatus)
    → IsTerminal f
    → (s : RunStatus) (ts : List RunStatus) → Reads f s
    → Follows s ts
    → All (Reads f) ts
terminal-Follows f h s [] r c = tt
terminal-Follows f h s (t ∷ ts) r c =
    let (g, e, st) = accepted-Step s t f c.0 r in
    let e' : Reads f t = subst (λ x. Reads x t) (terminal_stays st h) e in
    (e', terminal-Follows f h t ts e' c.1)

-- Queued, failed or canceled: what a run can be that was never started.
abbrev pub IsIdle : RunStatus → Type 0
IsIdle queued = Unit {0}
IsIdle failed = Unit {0}
IsIdle canceled = Unit {0}
IsIdle _ = ⊥

IsIdle-stays : {s t : RunStatus} → Step s t → IsIdle s → t ≢ running → IsIdle t
IsIdle-stays (stay s _) h n = h
IsIdle-stays start h n = absurd (n refl)
IsIdle-stays give_up h n = tt
IsIdle-stays drop h n = tt
IsIdle-stays requeue h n = tt
IsIdle-stays ask_review h n = absurd h
IsIdle-stays succeed h n = absurd h
IsIdle-stays fail h n = tt
IsIdle-stays cancel h n = tt
IsIdle-stays merge h n = absurd h
IsIdle-stays close h n = tt

-- A run that is never set to running goes through queued, failed and canceled only: it reaches
-- neither review nor success.
pub IsIdle-Follows :
    (f : RunStatus)
    → IsIdle f
    → (s : RunStatus) (ts : List RunStatus) → Reads f s
    → Follows s ts
    → All (λ t. ¬ Reads running t) ts
    → All (λ t. (g : RunStatus) × Reads g t × IsIdle g) ts
IsIdle-Follows f h s [] r c n = tt
IsIdle-Follows f h s (t ∷ ts) r c n =
    let (g, e, st) = accepted-Step s t f c.0 r in
    let i : IsIdle g = IsIdle-stays st h (λ x. n.0 (subst (λ y. Reads y t) x e)) in
    ((g, e, i), IsIdle-Follows g i t ts e c.1 n.1)
