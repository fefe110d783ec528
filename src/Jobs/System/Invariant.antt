-- ===== src/Jobs/System/Invariant.antt =====
-- The invariant of the job system, and the steps that only update rows.
use switchpilot.Prelude.{
  ℕ, ◌≤◌, ◌<◌, ◌≡◌, refl, String, Bool, true, false, not, List, [], ◌∷◌, ◌++◌, All, All-mono,
  All-both, All-keep, ==_iff, keep, arith,
}
use switchpilot.Jobs.Table.{
  Job, Table, pending, running, is_finished, update_where, is_stale, truthy,
}
use switchpilot.Jobs.Table.Rows.{update_where-All}
use switchpilot.Jobs.Service.{
  heartbeat, reaped, reap_stale_jobs, retried, retry_job, cancel_job, clear_finished, has_id,
}
use switchpilot.Jobs.System.Ids.{
  DistinctIds, All-split, DistinctIds-split, DistinctIds-update, DistinctIds-keep,
}
use switchpilot.Jobs.System.{System}

-- A one-shot job has had at most its attempts, and one is left while it is pending.
pub record IsWithin (row : Job) : Type 0 where
  pub counted : truthy row.cron ≡ false → row.attempts ≤ row.max_attempts
  pub left : truthy row.cron ≡ false → row.status ≡ pending → row.attempts < row.max_attempts

-- The row of a live run is as its worker claimed it, where that matters.
pub record Matches (run row : Job) : Type 0 where
  pub status : row.id ≡ run.id → row.status ≡ running
  pub attempts : row.id ≡ run.id → row.attempts ≡ run.attempts
  pub max_attempts : row.id ≡ run.id → row.max_attempts ≡ run.max_attempts
  pub cron : row.id ≡ run.id → row.cron ≡ run.cron

pub record Inv (s : System) : Type 0 where
  pub within : All IsWithin s.table
  pub ids : DistinctIds s.table
  pub matching : All (λ run. All (Matches run) s.table) s.runs
  pub single : DistinctIds s.runs

-- An update that keeps ids keeps them distinct, and what it does to the rows that it changes
-- decides the rest.
pub update-Inv :
    (p : Job → Bool) (f : Job → Job) (s : System)
    → ((row : Job) → (f row).id ≡ row.id)
    → ((row : Job) → IsWithin row → p row ≡ true → IsWithin (f row))
    → All (λ run. All (Matches run) (update_where p f s.table)) s.runs
    → Inv s
    → Inv (record s { table = update_where p f s.table })
update-Inv p f s same good matching inv = record {
  within = update_where-All IsWithin IsWithin p f good (λ row h skip. h) s.table inv.within;
  ids = DistinctIds-update p f s.table same inv.ids;
  matching = matching;
  single = inv.single;
}

-- The matching part, where each changed row matches again.
pub update-Matches :
    (p : Job → Bool) (f : Job → Job) (table : Table) (runs : List Job)
    → ((run row : Job) → Matches run row → p row ≡ true → Matches run (f row))
    → All (λ run. All (Matches run) table) runs
    → All (λ run. All (Matches run) (update_where p f table)) runs
update-Matches p f table runs again =
    All-mono (λ run. All (Matches run) table) (λ run. All (Matches run) (update_where p f table))
      (λ run. update_where-All (Matches run) (Matches run) p f (again run) (λ row h skip. h) table)
      runs

pub heartbeat-Inv :
    (now : ℕ) (worker : String) (id : ℕ) (s : System)
    → Inv s
    → Inv (record s { table = heartbeat now worker id s.table })
unfolding heartbeat
heartbeat-Inv now worker id s inv =
    update-Inv _ _ s (λ row. refl) (λ row h pass. record { counted = h.counted; left = h.left })
      (update-Matches _ _ s.table s.runs
        (λ run row h pass. record {
          status = h.status;
          attempts = h.attempts;
          max_attempts = h.max_attempts;
          cron = h.cron;
        })
        inv.matching)
      inv

pub retry-Inv :
    (now id : ℕ) (s : System) → Inv s → Inv (record s { table = (retry_job now id s.table).1 })
unfolding retry_job
retry-Inv now id s inv =
    update-Inv _ (retried now) s (λ row. refl)
      (λ row h pass. record { counted = λ once. ground arith; left = λ once waits. ground arith })
      (update-Matches _ (retried now) s.table s.runs
        (λ run row h pass. record {
          status = λ same. ground (arith, h.status same);
          attempts = h.attempts;
          max_attempts = λ same. ground (arith, h.status same);
          cron = h.cron;
        })
        inv.matching)
      inv

pub cancel-Inv : (id : ℕ) (s : System) → Inv s → Inv (record s { table = cancel_job id s.table })
unfolding cancel_job
cancel-Inv id s inv =
    update-Inv _ _ s (λ row. refl)
      (λ row h pass. record { counted = h.counted; left = λ once waits. cc })
      (update-Matches _ _ s.table s.runs
        (λ run row h pass. record {
          status = λ same. ground (arith, h.status same);
          attempts = h.attempts;
          max_attempts = h.max_attempts;
          cron = h.cron;
        })
        inv.matching)
      inv

pub reap-Inv :
    (now : ℕ) (s : System)
    → All (λ run. All (λ row. has_id run.id row ≡ true → is_stale now row ≡ false) s.table) s.runs
    → Inv s
    → Inv (record s { table = reap_stale_jobs now s.table })
unfolding reap_stale_jobs
reap-Inv now s alive inv =
    update-Inv (is_stale now) (reaped now) s (λ row. refl)
      (λ row h pass. record { counted = h.counted; left = λ once waits. ground arith })
      (kept s.runs alive inv.matching) inv
  where
    one :
        (run : Job) (rows : Table)
        → All (λ row. has_id run.id row ≡ true → is_stale now row ≡ false) rows
        → All (Matches run) rows
        → All (Matches run) (update_where (is_stale now) (reaped now) rows)
    one run rows live h =
        update_where-All
          (λ row. Matches run row × (has_id run.id row ≡ true → is_stale now row ≡ false))
          (Matches run) (is_stale now) (reaped now)
          (λ row both stale.
            let other : row.id ≡ run.id → ⊥ =
              λ same. cc (both.1 ((==_iff row.id run.id).1 same), stale) in
            record {
              status = λ same. absurd (other same);
              attempts = λ same. absurd (other same);
              max_attempts = λ same. absurd (other same);
              cron = λ same. absurd (other same);
            })
          (λ row both fresh. both.0) rows
          (All-both (Matches run) (λ row. has_id run.id row ≡ true → is_stale now row ≡ false) rows
            h live)

    kept :
        (runs : List Job)
        → All (λ run. All (λ row. has_id run.id row ≡ true → is_stale now row ≡ false) s.table) runs
        → All (λ run. All (Matches run) s.table) runs
        → All (λ run. All (Matches run) (update_where (is_stale now) (reaped now) s.table)) runs
    kept [] live h = tt
    kept (run ∷ runs) (live, lives) (h, hs) = (one run s.table live h, kept runs lives hs)

pub clear-Inv : (s : System) → Inv s → Inv (record s { table = clear_finished s.table })
unfolding clear_finished
clear-Inv s inv = record {
  within = All-keep IsWithin unfinished s.table inv.within;
  ids = DistinctIds-keep unfinished s.table inv.ids;
  matching =
      All-mono (λ run. All (Matches run) s.table)
        (λ run. All (Matches run) (keep unfinished s.table))
        (λ run. All-keep (Matches run) unfinished s.table) s.runs inv.matching;
  single = inv.single;
}
  where
    unfinished : Job → Bool
    unfinished job = not (is_finished job.status)

pub die-Inv :
    (s : System) (before : List Job) (job : Job) (after : List Job)
    → s.runs ≡ before ++ job ∷ after
    → Inv s
    → Inv (record s { runs = before ++ after })
die-Inv s before job after e inv = record {
  within = inv.within;
  ids = inv.ids;
  matching =
      (All-split (λ run. All (Matches run) s.table) before job after (rw e at inv.matching)).0;
  single = (DistinctIds-split before job after (rw e at inv.single)).0;
}
