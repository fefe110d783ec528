-- ===== src/Jobs/Table.antt =====
-- The `jobs` table (backend/migrations/001_init.sql, 003, 005) and the conditions of the
-- statements on it. Times are milliseconds, and `none` is NULL.
pub mod Rows
use switchpilot.Prelude.{
  ℕ, ◌+◌, String, Bool, true, false, not, ◌&&◌, ◌||◌, List, [], ◌∷◌, map, Option, none, some, leb,
  ltb, ◌==◌, if◌then◌else◌, is_some,
}

pub data Status : Type 0 where
  pending running done failed cancelled : Status

pub record Job : Type 0 where
  pub id : ℕ
  pub device_ids : List ℕ
  pub cron : Option String
  pub status : Status
  pub attempts : ℕ
  pub max_attempts : ℕ
  pub created_at : ℕ
  pub run_after : Option ℕ
  pub next_run_at : Option ℕ
  pub started_at : Option ℕ
  pub finished_at : Option ℕ
  pub heartbeat_at : Option ℕ
  pub locked_by : Option String
  pub last_error : String
  pub stage : String

abbrev pub Table : Type 0
Table = List Job

abbrev pub is_pending : Status → Bool
is_pending pending = true
is_pending _ = false

abbrev pub is_running : Status → Bool
is_running running = true
is_running _ = false

abbrev pub is_failed : Status → Bool
is_failed failed = true
is_failed _ = false

-- `status IN ('done','failed','cancelled')`
abbrev pub is_finished : Status → Bool
is_finished done = true
is_finished failed = true
is_finished cancelled = true
is_finished _ = false

-- `t <= now()`, which is not true of NULL.
abbrev pub due : Option ℕ → ℕ → Bool
due none now = false
due (some t) now = leb t now

-- A text is truthy when it is there and not empty.
abbrev pub truthy : Option String → Bool
truthy none = false
truthy (some String.[]) = false
truthy (some (String.◌∷◌ c s)) = true

-- `UPDATE … SET f WHERE p`
unfoldable pub update_where : (Job → Bool) → (Job → Job) → Table → Table
update_where p f [] = []
update_where p f (job ∷ table) = (if p job then f job else job) ∷ update_where p f table

-- The `WHERE` of the claim.
unfoldable pub runnable : ℕ → Job → Bool
runnable now job =
    is_pending job.status
    && (not (is_some job.run_after) || due job.run_after now)
    && (not (is_some job.cron) || due job.next_run_at now)

-- `ORDER BY run_after NULLS FIRST, created_at`: whether the first row comes no later.
abbrev pub in_order : Option ℕ → Option ℕ → ℕ → ℕ → Bool
in_order none none c d = leb c d
in_order none (some b) c d = true
in_order (some a) none c d = false
in_order (some a) (some b) c d = ltb a b || (a == b && leb c d)

unfoldable pub precedes : Job → Job → Bool
precedes j k = in_order j.run_after k.run_after j.created_at k.created_at

-- `heartbeat_at < now() - STALE_MS`
abbrev pub stale_ms : ℕ
stale_ms = 120000

abbrev pub beat_before : Option ℕ → ℕ → Bool
beat_before none now = false
beat_before (some h) now = ltb (h + stale_ms) now

unfoldable pub is_stale : ℕ → Job → Bool
is_stale now job = is_running job.status && beat_before job.heartbeat_at now
