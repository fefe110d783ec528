-- ===== src/Jobs/Tests.antt =====
-- Runs of the job engine on small tables, and the theorems at inputs that meet their hypotheses.
use switchpilot.Prelude.{
  ℕ, ◌+◌, ◌≡◌, ◌≢◌, refl, String, Bool, false, [], ◌∷◌, map, Option, none, some, arith, ◌==◌,
  if◌then◌else◌,
}
use switchpilot.Jobs.Table.{Job, Table, pending, running, runnable, precedes, update_where}
use switchpilot.Jobs.Service.{
  claimed, finish_job, backoff_ms, DeviceResult, output, error, NewJob, create_job, claim_next_job,
  first_row, finish_job, reap_stale_jobs,
}
use switchpilot.Jobs.Claim.{IsClaim, claim_next_job-IsClaim, claim_twice}
use switchpilot.Jobs.Runs.{finish_job-of_given_up}
use switchpilot.Jobs.System.{System, started, create, claim, here, next}
use switchpilot.Jobs.System.Invariant.{Inv}
use switchpilot.Jobs.System.Once.{Reach-Inv}

abbrev every_minute : String → ℕ → ℕ
every_minute expr now = now + 60000

abbrev one_shot : NewJob
one_shot = record {
  device_ids = 1 ∷ 2 ∷ [];
  schedule_at = none;
  cron = none;
  max_attempts = some 3;
}

abbrev recurring : NewJob
recurring = record one_shot { cron = some "* * * * *"; max_attempts = none }

abbrev table : Table
table = create_job every_minute 2000 8 one_shot (create_job every_minute 1000 7 one_shot [])

abbrev nobody : ℕ → Bool
nobody id = false

-- The older of two due jobs is claimed, and the newer one by the next worker.
claims :
    map {B = ℕ × ℕ × Option String}
      (λ job. (job.id, job.attempts, job.locked_by))
      (claim_next_job 5000 "b" nobody (claim_next_job 5000 "a" nobody table).1).1
    ≡ (8, 1, some "b") ∷ (7, 1, some "a") ∷ []
unfolding claim_next_job first_row runnable precedes update_where create_job
claims = refl

claim_next_job-IsClaim_example :
    IsClaim 5000 "a" nobody table (claim_next_job 5000 "a" nobody table)
claim_next_job-IsClaim_example = claim_next_job-IsClaim 5000 "a" nobody table

abbrev row_seven : Job
row_seven = record {
  id = 7;
  device_ids = 1 ∷ [];
  cron = none;
  status = running;
  attempts = 1;
  max_attempts = 2;
  created_at = 1000;
  run_after = some 1000;
  next_run_at = none;
  started_at = some 5000;
  finished_at = none;
  heartbeat_at = some 5000;
  locked_by = some "a";
  last_error = "";
  stage = "";
}

abbrev row_eight : Job
row_eight = record row_seven {
  id = 8;
  status = pending;
  attempts = 0;
  locked_by = none;
  heartbeat_at = none;
}

abbrev two_pending : Table
two_pending = record row_eight { id = 7 } ∷ row_eight ∷ []

claim_twice_example : ◌≢◌ {A = ℕ} 7 8
claim_twice_example =
    claim_twice 5000 5000 "a" "b" nobody nobody two_pending
      {j = record row_eight {
        id = 7;
        status = running;
        attempts = 1;
        started_at = some 5000;
        heartbeat_at = some 5000;
        locked_by = some "a";
      }}
      {k = record row_eight {
        status = running;
        attempts = 1;
        started_at = some 5000;
        heartbeat_at = some 5000;
        locked_by = some "b";
      }}
      (unfold claim_next_job first_row runnable precedes in refl)
      (unfold claim_next_job first_row runnable precedes update_where in refl)

-- A recurring job in the first run of its life, with the default of one attempt.
abbrev nightly : Job
nightly = record row_seven { cron = some "0 2 * * *"; max_attempts = 1; next_run_at = some 1000 }

abbrev flaky : ℕ → DeviceResult
flaky device = if device == 2 then error "refused" else output "ok"

abbrev queued : Job
queued = record row_seven {
  status = pending;
  attempts = 0;
  max_attempts = 3;
  run_after = none;
  started_at = none;
  heartbeat_at = none;
  locked_by = none;
}

finish_job-of_given_up_example :
    let mine = claimed 1000 "a" queued in
    let given_up = reap_stale_jobs 200000 (claim_next_job 1000 "a" nobody (queued ∷ [])).1 in
    let second = claim_next_job 200001 "b" nobody given_up in
    let finished = finish_job every_minute 210000 mine false "timeout" second.1 in
    let third = claim_next_job 300000 "c" nobody finished in
    ((claim_next_job 1000 "a" nobody (queued ∷ [])).0 ≡ some mine)
    × ((theirs : Job) × (second ≡ (some theirs, theirs ∷ []))
        × (theirs.id ≡ 7)
        × (theirs.status ≡ running)
        × (theirs.locked_by ≡ some "b"))
    × ((again : Job) × (third ≡ (some again, again ∷ []))
        × (again.id ≡ 7)
        × (again.status ≡ running)
        × (again.locked_by ≡ some "c"))
finish_job-of_given_up_example =
    finish_job-of_given_up every_minute 1000 200000 200001 210000 300000 "a" "b" "c" "timeout"
      queued (unfold runnable in refl) refl (omega arith) (omega arith) (omega arith)
      (unfold backoff_ms in omega arith)

abbrev boot : System
boot = record { table = []; runs = [] }

abbrev fresh_system : System
fresh_system = record { table = create_job every_minute 1000 7 one_shot []; runs = [] }

abbrev claimed_once : System
claimed_once = started (claim_next_job 5000 "a" nobody fresh_system.table) []

Reach-Inv_example : Inv claimed_once
Reach-Inv_example =
    Reach-Inv every_minute {s = boot} {t = claimed_once}
      (record { within = tt; ids = tt; matching = tt; single = tt })
      (next (next here (create boot 1000 7 one_shot tt tt (omega arith)))
        (claim fresh_system 5000 "a" nobody))
