-- ===== src/Store/Schema.antt =====
-- The rows of internal/state/sql/schema.sql as the structs of internal/state/types.go, and the
-- database as its tables. Times are UnixNano values after 1970; a time that may be absent (a nil
-- pointer, NULL, the zero time) is an `Option`. Numbers of issues and pull requests are not
-- negative. `runs` is listed newest first, in the order `seq DESC`.
use rascal.Prelude.{ℕ, Bool, Option, List}
use rascal.Text.{Text}
use rascal.Status.{RunStatus, RunStatusReason, TransitionError}
use rascal.Trigger.{Name}
use rascal.Runtime.{Runtime}
use rascal.Enums.{PrStatus, TaskStatus, CompletionCommentState, DeliveryStatus}

pub record Run : Type 0 where
  pub id : Text
  pub task_id : Text
  pub repo : Text
  pub instruction : Text
  pub agent_runtime : Runtime
  pub base_branch : Text
  pub head_branch : Text
  pub trigger : Name
  pub debug : Bool
  pub status : RunStatus
  pub run_dir : Text
  pub issue_number : ℕ
  pub pr_number : ℕ
  pub pr_url : Text
  pub pr_status : PrStatus
  pub head_sha : Text
  pub context : Text
  pub error : Text
  pub status_reason : RunStatusReason
  pub created_at : ℕ
  pub updated_at : ℕ
  pub started_at : Option ℕ
  pub completed_at : Option ℕ
  pub completion_comment_state : CompletionCommentState
  pub completion_comment_claimed_by : Text
  pub completion_comment_claimed_at : Option ℕ
  pub completion_comment_posted_at : Option ℕ
  pub completion_comment_error : Text

-- A row of `runs`: the columns of the struct, and two that only the database has.
pub record RunRow : Type 0 where
  pub seq : ℕ
  pub credential_id : Text
  pub run : Run

pub record Task : Type 0 where
  pub id : Text
  pub repo : Text
  pub agent_runtime : Runtime
  pub issue_number : ℕ
  pub pr_number : ℕ
  pub pr_draft : Bool
  pub status : TaskStatus
  pub last_run_id : Text
  pub created_at : ℕ
  pub updated_at : ℕ

pub record RunLease : Type 0 where
  pub run_id : Text
  pub owner_id : Text
  pub heartbeat_at : ℕ
  pub lease_expires_at : ℕ

pub record RunCancelRequest : Type 0 where
  pub run_id : Text
  pub reason : Text
  pub source : Text
  pub requested_at : ℕ

pub record SchedulerPause : Type 0 where
  pub scope : Text
  pub reason : Text
  pub paused_until : ℕ
  pub created_at : ℕ
  pub updated_at : ℕ

pub record Delivery : Type 0 where
  pub id : Text
  pub status : DeliveryStatus
  pub claim_token : Text
  pub claimed_by : Text
  pub claimed_at : ℕ
  pub processed_at : Option ℕ
  pub seen_at : ℕ
  pub last_error : Text

pub record RunResponseTarget : Type 0 where
  pub run_id : Text
  pub repo : Text
  pub issue_number : ℕ
  pub requested_by : Text
  pub trigger : Name
  pub review_thread_id : ℕ

pub record Db : Type 0 where
  pub tasks : List Task
  pub runs : List RunRow
  pub next_seq : ℕ
  pub run_leases : List RunLease
  pub run_cancels : List RunCancelRequest
  pub scheduler_pauses : List SchedulerPause
  pub deliveries : List Delivery
  pub run_response_targets : List RunResponseTarget

-- What the store's methods fail with.
pub data Error : Type 0 where
  required : Error
  invalid_trigger : Error
  already_exists : Text → Error
  not_found : Text → Error
  invalid_status : Text → Error
  refused : TransitionError → Error
  callback : Text → Error
  lease_lost : Error
  inactive_claim : Error
  database : Error
