-- ===== src/Jobs/Reaper.antt =====
-- What the reaper does with jobs whose worker went silent.
use switchpilot.Prelude.{ℕ, ◌≤◌, ◌≡◌, refl, true, false, arith}
use switchpilot.Jobs.Table.{Job, Table, failed, runnable, is_stale, truthy}
use switchpilot.Jobs.Table.Rows.{In, In-update_where}
use switchpilot.Jobs.Service.{reaped, reap_stale_jobs}

-- A recurring job that has used up its attempts, which a job with the default of one has from its
-- first run on, is marked as failed when its worker goes silent, and is never taken again.
pub reap_stale_jobs-ends_recurring :
    (now : ℕ) (table : Table) (row : Job)
    → In row table
    → is_stale now row ≡ true
    → truthy row.cron ≡ true
    → row.max_attempts ≤ row.attempts
    → (after : Job) × In after (reap_stale_jobs now table)
      × (after.id ≡ row.id)
      × (after.status ≡ failed)
      × ((later : ℕ) → runnable later after ≡ false)
unfolding reap_stale_jobs
reap_stale_jobs-ends_recurring now table row listed stale recurring used = (
  reaped now row,
  In-update_where (is_stale now) (reaped now) row table stale listed,
  refl,
  ground arith,
  λ later. unfold runnable in ground arith,
)
