-- ===== src/Enums.antt =====
-- The remaining string types of internal/state/types.go and internal/state/store.go. A row holds
-- what the store wrote, which is one of the named constants, so no further texts are kept.
use rascal.Prelude.{Option, none, some, List, [], ◌∷◌}
use rascal.Text.{Text, codes, normal, switch, trim_space, to_lower}

-- `NormalizeRepo`.
unfoldable pub normalize_repo : Text → Text
normalize_repo repo = to_lower (trim_space repo)

pub data PrStatus : Type 0 where
  pr_none pr_open pr_merged pr_closed_unmerged : PrStatus

pub data TaskStatus : Type 0 where
  task_open task_completed : TaskStatus

pub data CompletionCommentState : Type 0 where
  pending posting posted failed : CompletionCommentState

pub data RunNotificationKind : Type 0 where
  start completion failure : RunNotificationKind

pub data RunExecutionBackend : Type 0 where
  docker noop : RunExecutionBackend

pub data RunExecutionStatus : Type 0 where
  created running stopping exited : RunExecutionStatus

pub data DeliveryStatus : Type 0 where
  processing processed : DeliveryStatus

-- No trimming and no change of case here, unlike the other string types.
unfoldable pub normalize_pr_status : Text → PrStatus
unfolding switch
normalize_pr_status s = switch s cases pr_none
  where
    cases : List (Text × PrStatus)
    cases =
        (codes "open", pr_open)
        ∷ (codes "merged", pr_merged)
        ∷ (codes "closed_unmerged", pr_closed_unmerged)
        ∷ []

unfoldable pub parse_task_status : Text → Option TaskStatus
unfolding switch
parse_task_status raw = switch (normal raw) cases none
  where
    cases : List (Text × Option TaskStatus)
    cases =
        ([], some task_open)
        ∷ (codes "open", some task_open)
        ∷ (codes "completed", some task_completed)
        ∷ []

unfoldable pub normalize_task_status : Text → TaskStatus
unfolding switch
normalize_task_status raw = switch (normal raw) ((codes "completed", task_completed) ∷ []) task_open

unfoldable pub parse_run_execution_status : Text → Option RunExecutionStatus
unfolding switch
parse_run_execution_status raw = switch (normal raw) cases none
  where
    cases : List (Text × Option RunExecutionStatus)
    cases =
        ([], some created)
        ∷ (codes "created", some created)
        ∷ (codes "running", some running)
        ∷ (codes "stopping", some stopping)
        ∷ (codes "exited", some exited)
        ∷ []

unfoldable pub parse_delivery_status : Text → Option DeliveryStatus
unfolding switch
parse_delivery_status raw = switch (normal raw) cases none
  where
    cases : List (Text × Option DeliveryStatus)
    cases =
        ([], some processing)
        ∷ (codes "processing", some processing)
        ∷ (codes "processed", some processed)
        ∷ []
