-- ===== src/Github/Events.antt =====
-- internal/github/events.go. Numbers are not negative; the anonymous structs of base and head are
-- fields of their parents.
use rascal.Prelude.{ℕ, Bool, Option, List}
use rascal.Text.{Text}

pub record Repository : Type 0 where
  pub full_name : Text

pub record User : Type 0 where
  pub login : Text

pub record Label : Type 0 where
  pub name : Text

pub record PullRequestRef : Type 0 where
  pub url : Text

pub record Issue : Type 0 where
  pub number : ℕ
  pub title : Text
  pub body : Text
  pub state : Text
  pub labels : List Label
  pub pull_request : Option PullRequestRef

pub record Comment : Type 0 where
  pub id : ℕ
  pub body : Text
  pub user : User

pub record PullRequest : Type 0 where
  pub number : ℕ
  pub merged : Bool
  pub state : Text
  pub draft : Bool
  pub base_ref : Text
  pub head_ref : Text
  pub head_sha : Text

pub record Review : Type 0 where
  pub id : ℕ
  pub body : Text
  pub state : Text
  pub user : User

pub record ReviewComment : Type 0 where
  pub id : ℕ
  pub body : Text
  pub path : Text
  pub line : Option ℕ
  pub start_line : Option ℕ
  pub user : User

pub record IssuesEvent : Type 0 where
  pub action : Text
  pub label : Label
  pub issue : Issue
  pub repository : Repository
  pub sender : User

pub record IssueCommentBodyChange : Type 0 where
  pub from : Text

-- `changes` is the body of the changes.
pub record IssueCommentEvent : Type 0 where
  pub action : Text
  pub issue : Issue
  pub comment : Comment
  pub changes : Option IssueCommentBodyChange
  pub repository : Repository
  pub sender : User

pub record PullRequestReviewEvent : Type 0 where
  pub action : Text
  pub review : Review
  pub pull_request : PullRequest
  pub repository : Repository
  pub sender : User

pub record PullRequestReviewCommentEvent : Type 0 where
  pub action : Text
  pub comment : ReviewComment
  pub changes : Option IssueCommentBodyChange
  pub pull_request : PullRequest
  pub repository : Repository
  pub sender : User

pub record ReviewThread : Type 0 where
  pub id : ℕ
  pub path : Text
  pub line : Option ℕ
  pub start_line : Option ℕ
  pub comments : List ReviewComment

pub record PullRequestReviewThreadEvent : Type 0 where
  pub action : Text
  pub thread : ReviewThread
  pub pull_request : PullRequest
  pub repository : Repository
  pub sender : User

pub record PullRequestEvent : Type 0 where
  pub action : Text
  pub pull_request : PullRequest
  pub repository : Repository
  pub sender : User

pub record CheckPullRequest : Type 0 where
  pub number : ℕ
  pub base_ref : Text
  pub head_ref : Text

pub record CheckOutput : Type 0 where
  pub title : Text
  pub summary : Text
  pub text : Text

-- `suite_head_branch` and `suite_head_sha` are the fields of the check suite.
pub record CheckRun : Type 0 where
  pub name : Text
  pub status : Text
  pub conclusion : Text
  pub head_sha : Text
  pub html_url : Text
  pub details_url : Text
  pub output : CheckOutput
  pub suite_head_branch : Text
  pub suite_head_sha : Text
  pub pull_requests : List CheckPullRequest

pub record CheckSuite : Type 0 where
  pub status : Text
  pub conclusion : Text
  pub head_branch : Text
  pub head_sha : Text
  pub pull_requests : List CheckPullRequest

pub record CheckRunEvent : Type 0 where
  pub action : Text
  pub check_run : CheckRun
  pub repository : Repository
  pub sender : User

pub record CheckSuiteEvent : Type 0 where
  pub action : Text
  pub check_suite : CheckSuite
  pub repository : Repository
  pub sender : User
