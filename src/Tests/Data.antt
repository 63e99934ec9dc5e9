-- ===== src/Tests/Data.antt =====
-- A small database: two tasks, three runs and no running one.
use rascal.Prelude.{ℕ, false, none, [], ◌∷◌}
use rascal.Text.{Text, codes}
use rascal.Trigger
use rascal.Runtime.{goose_codex}
use rascal.Enums.{pr_none, task_open, processing}
use rascal.Store.Schema.{RunRow, Task, RunLease, Delivery, Db}
use rascal.Store.Runs.{CreateRunInput, new_run}

abbrev pub input : Text → Text → CreateRunInput
input id task_id = record {
  id = id;
  task_id = task_id;
  repo = codes "o/r";
  instruction = codes "fix";
  agent_runtime = goose_codex;
  base_branch = codes "main";
  head_branch = [];
  trigger = Trigger.cli;
  debug = none;
  run_dir = [];
  issue_number = 0;
  pr_number = 0;
  pr_status = pr_none;
  head_sha = [];
  context = [];
}

abbrev pub row : ℕ → Text → Text → ℕ → RunRow
row seq id task_id now = record {
  seq = seq;
  credential_id = [];
  run = new_run (input id task_id) now;
}

abbrev pub task : Text → Task
task id = record {
  id = id;
  repo = codes "o/r";
  agent_runtime = goose_codex;
  issue_number = 0;
  pr_number = 0;
  pr_draft = false;
  status = task_open;
  last_run_id = [];
  created_at = 1;
  updated_at = 1;
}

abbrev pub lease : RunLease
lease = record {
  run_id = codes "r1";
  owner_id = codes "blue";
  heartbeat_at = 5;
  lease_expires_at = 95;
}

abbrev pub delivery : Delivery
delivery = record {
  id = codes "d1";
  status = processing;
  claim_token = codes "claim_1";
  claimed_by = codes "blue";
  claimed_at = 7;
  processed_at = none;
  seen_at = 7;
  last_error = [];
}

abbrev pub sample : Db
sample = record {
  tasks = task (codes "t1") ∷ task (codes "t2") ∷ [];
  runs =
      row 2 (codes "r3") (codes "t2") 30
      ∷ row 1 (codes "r2") (codes "t1") 20
      ∷ row 0 (codes "r1") (codes "t1") 10
      ∷ [];
  next_seq = 3;
  run_leases = lease ∷ [];
  run_cancels = [];
  scheduler_pauses = [];
  deliveries = delivery ∷ [];
  run_response_targets = [];
}
