-- ===== src/Jobs/Service.antt =====
-- The operations of the job engine (backend/src/services/jobService.ts). Each statement is one
-- atomic step; the clock is an argument, and what a job does on a device is a parameter.
use switchpilot.Prelude.{
  ℕ, ◌+◌, ◌*◌, ◌^◌, String, Bool, true, false, not, ◌&&◌, ◌||◌, ◌++◌, List, [], ◌∷◌, Option, none,
  some, leb, ltb, ◌==◌, if◌then◌else◌, str_eq, keep,
}
use switchpilot.Jobs.Table.{
  Job, Table, pending, running, done, failed, cancelled, is_pending, is_failed, is_finished, truthy,
  update_where, runnable, precedes, is_stale,
}

unfoldable pub backoff_ms : ℕ → ℕ
backoff_ms attempt = let ms = 2 ^ attempt * 1000 in if leb 300000 ms then 300000 else ms

pub data JobOutcome : Type 0 where
  reschedule : ℕ → JobOutcome
  finished : JobOutcome
  retry_at : ℕ → JobOutcome
  give_up : JobOutcome

pub record NewJob : Type 0 where
  pub device_ids : List ℕ
  pub schedule_at : Option ℕ
  pub cron : Option String
  pub max_attempts : Option ℕ

abbrev pub or_else : Option ℕ → ℕ → ℕ
or_else none d = d
or_else (some a) d = a

-- What a device reports: its output, or the message of the error.
pub data DeviceResult : Type 0 where
  output : String → DeviceResult
  error : String → DeviceResult

-- The least row of a query by its order, if it has any. Of two equals the earlier row is taken.
abbrev pub least : Job → Option Job → Option Job
least j none = some j
least j (some k) = if precedes j k then some j else some k

unfoldable pub first_row : (Job → Bool) → Table → Option Job
first_row p [] = none
first_row p (job ∷ table) = let rest = first_row p table in if p job then least job rest else rest

abbrev pub has_id : ℕ → Job → Bool
has_id id job = job.id == id

abbrev pub locked_by_is : String → Option String → Bool
locked_by_is worker none = false
locked_by_is worker (some w) = str_eq w worker

unfoldable pub any_row : (Job → Bool) → Table → Bool
any_row p [] = false
any_row p (job ∷ table) = p job || any_row p table

-- What the claim writes into the row.
abbrev pub claimed : ℕ → String → Job → Job
claimed now worker job = record job {
  status = running;
  attempts = job.attempts + 1;
  started_at = some now;
  heartbeat_at = some now;
  locked_by = some worker;
}

abbrev pub claim_row : ℕ → String → Table → Option Job → Option Job × Table
claim_row now worker table none = (none, table)
claim_row now worker table (some job) =
    (some (claimed now worker job), update_where (has_id job.id) (claimed now worker) table)

-- claimNextJob. `locked` are the rows that other transactions hold, which SKIP LOCKED passes over.
unfoldable pub claim_next_job : ℕ → String → (ℕ → Bool) → Table → Option Job × Table
claim_next_job now worker locked table =
    claim_row now worker table (first_row (λ job. runnable now job && not (locked job.id)) table)

-- The heartbeat of a run.
unfoldable pub heartbeat : ℕ → String → ℕ → Table → Table
heartbeat now worker id =
    update_where (λ job. has_id id job && locked_by_is worker job.locked_by)
      (λ job. record job { heartbeat_at = some now })

-- The loop of `runClaimedJob` over the devices: the rows of job_results, whether all went well,
-- and the last error. `slice` is the cut of the output to 20000 characters.
pub record Tally : Type 0 where
  pub results : List (ℕ × Bool × String)
  pub all_ok : Bool
  pub last_error : String

abbrev pub tally : (String → String) → ℕ → DeviceResult → Tally → Tally
tally slice device (output text) t = record t {
  results = t.results ++ (device, true, slice text) ∷ [];
}
tally slice device (error message) t = record {
  results = t.results ++ (device, false, message) ∷ [];
  all_ok = false;
  last_error = message;
}

unfoldable pub run_devices_from : (String → String) → (ℕ → DeviceResult) → List ℕ → Tally → Tally
run_devices_from slice exec [] t = t
run_devices_from slice exec (device ∷ devices) t =
    run_devices_from slice exec devices (tally slice device (exec device) t)

unfoldable pub run_devices : (String → String) → (ℕ → DeviceResult) → List ℕ → Tally
unfolding run_devices_from
run_devices slice exec devices =
    run_devices_from slice exec devices (record { results = []; all_ok = true; last_error = "" })

-- `next_cron expr now` is the next date of the cron expression, from the cron-parser package.
module _ (next_cron : String → ℕ → ℕ) where
  abbrev next_run : Option String → ℕ → Option ℕ
  next_run none now = none
  next_run (some expr) now = if truthy (some expr) then some (next_cron expr now) else none

  -- createJob, with the column defaults of the table.
  unfoldable pub create_job : ℕ → ℕ → NewJob → Table → Table
  create_job now id new table =
      record {
        id = id;
        device_ids = new.device_ids;
        cron = new.cron;
        status = pending;
        attempts = 0;
        max_attempts = or_else new.max_attempts 1;
        created_at = now;
        run_after = some (or_else new.schedule_at now);
        next_run_at = next_run new.cron now;
        started_at = none;
        finished_at = none;
        heartbeat_at = none;
        locked_by = none;
        last_error = "";
        stage = "";
      }
      ∷ table

  -- decideJobOutcome
  unfoldable pub decide_job_outcome : Job → Bool → ℕ → JobOutcome
  decide_job_outcome job all_ok now = elim (next_run job.cron now) [
    | some at ↦ reschedule at
    | none ↦
        if all_ok
        then finished
        else if ltb job.attempts job.max_attempts
        then retry_at (now + backoff_ms job.attempts)
        else give_up
  ]

  -- What finishJob writes for each outcome.
  abbrev pub finish_row : ℕ → Bool → String → JobOutcome → Job → Job
  finish_row now all_ok message (reschedule at) row = record row {
    status = pending;
    started_at = none;
    finished_at = none;
    locked_by = none;
    heartbeat_at = none;
    next_run_at = some at;
    run_after = some at;
    last_error = if all_ok then "" else message;
    stage = "";
  }
  finish_row now all_ok message finished row = record row {
    status = done;
    finished_at = some now;
    locked_by = none;
    heartbeat_at = none;
    last_error = "";
    stage = "";
  }
  finish_row now all_ok message (retry_at t) row = record row {
    status = pending;
    started_at = none;
    finished_at = none;
    locked_by = none;
    heartbeat_at = none;
    run_after = some t;
    last_error = message;
    stage = "";
  }
  finish_row now all_ok message give_up row = record row {
    status = failed;
    finished_at = some now;
    locked_by = none;
    heartbeat_at = none;
    last_error = message;
    stage = "";
  }

  -- finishJob. `job` is the row as the worker claimed it; the update goes by its id alone.
  unfoldable pub finish_job : ℕ → Job → Bool → String → Table → Table
  finish_job now job all_ok message =
      update_where (has_id job.id)
        (finish_row now all_ok message (decide_job_outcome job all_ok now))

abbrev pub reaped : ℕ → Job → Job
reaped now job = record job {
  status = if ltb job.attempts job.max_attempts then pending else failed;
  started_at = none;
  finished_at = if ltb job.attempts job.max_attempts then none else some now;
  locked_by = none;
  heartbeat_at = none;
  run_after = some now;
  last_error = "worker died mid-run (heartbeat timeout)";
}

unfoldable pub reap_stale_jobs : ℕ → Table → Table
reap_stale_jobs now = update_where (is_stale now) (reaped now)

abbrev pub retried : ℕ → Job → Job
retried now job = record job {
  status = pending;
  started_at = none;
  finished_at = none;
  locked_by = none;
  heartbeat_at = none;
  run_after = some now;
  max_attempts =
      if leb (job.attempts + 1) job.max_attempts then job.max_attempts else job.attempts + 1;
}

-- retryJob, with what it answers.
unfoldable pub retry_job : ℕ → ℕ → Table → Bool × Table
retry_job now id table = (
  any_row (λ job. has_id id job && is_failed job.status) table,
  update_where (λ job. has_id id job && is_failed job.status) (retried now) table,
)

-- The cancel and clear routes.
unfoldable pub cancel_job : ℕ → Table → Table
cancel_job id =
    update_where (λ job. has_id id job && is_pending job.status)
      (λ job. record job { status = cancelled })

unfoldable pub clear_finished : Table → Table
clear_finished = keep (λ job. not (is_finished job.status))
