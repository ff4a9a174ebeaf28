-- ===== src/Jobs/Model.antt =====
-- The rows that internal/jobs/store.go reads and writes (internal/models/task.go and the tables of
-- the jobs migration). Identifiers and times are numbers; results and errors are texts.
use firebin_api.Base.{ℕ, String, List, Option}

-- The CHECK constraint on `status`.
pub data Status : Type 0 where
  queued running retrying completed failed cancelling cancelled : Status

pub record Task : Type 0 where
  pub id : ℕ
  pub kind : String
  pub status : Status
  pub progress_done : ℕ
  pub progress_total : ℕ
  pub result : Option String
  pub error : String
  pub attempt : ℕ
  pub max_attempts : ℕ
  pub river_job_id : Option ℕ
  pub created_at : ℕ
  pub updated_at : ℕ
  pub started_at : Option ℕ
  pub finished_at : Option ℕ

-- The messages that the harness and the reconciler write, and those of a worker body.
pub data Message : Type 0 where
  started completed_line cancelled_line reconciled : Message
  attempt_failed : ℕ → String → Message
  failed_line : String → Message
  said : String → Message

pub record JobLog : Type 0 where
  pub id : ℕ
  pub task_id : ℕ
  pub ts : ℕ
  pub level : String
  pub message : Message

-- What the event bus is told: that a task changed, or the list of tasks.
pub data Topic : Type 0 where
  of_task : ℕ → Topic
  of_tasks : Topic

-- The tables, the next log cursor and what was published. Newest rows come first.
pub record Jobs : Type 0 where
  pub tasks : List Task
  pub logs : List JobLog
  pub next_log : ℕ
  pub published : List Topic
