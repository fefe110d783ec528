-- ===== src/Jobs/System.antt =====
-- Workers on several replicas over one jobs table, as interleaved steps. A run is the row that its
-- worker claimed; a worker may die at any time.
pub mod Ids
pub mod Invariant
pub mod Once
use switchpilot.Prelude.{
  ℕ, ◌<◌, ◌≡◌, String, Bool, true, false, List, [], ◌∷◌, ◌++◌, Option, none, some, All,
}
use switchpilot.Jobs.Table.{Job, Table, is_stale}
use switchpilot.Jobs.Service.{
  NewJob, or_else, create_job, claim_next_job, heartbeat, finish_job, reap_stale_jobs, retry_job,
  cancel_job, clear_finished, has_id,
}

pub record System : Type 0 where
  pub table : Table
  pub runs : List Job

abbrev pub started : Option Job × Table → List Job → System
started (none, table) runs = record { table = table; runs = runs }
started (some row, table) runs = record { table = table; runs = row ∷ runs }

module _ (next_cron : String → ℕ → ℕ) where
  -- One statement of one replica. `reap` supposes that every live run has sent its heartbeat in
  -- time: no row of a live run is stale. `create` supposes that a new UUID is new.
  pub data Step : System → System → Type 0 where
    create :
        (s : System) (now id : ℕ) (new : NewJob)
        → All (λ row. has_id id row ≡ false) s.table
        → All (λ run. has_id id run ≡ false) s.runs
        → 0 < or_else new.max_attempts 1
        → Step s (record s { table = create_job next_cron now id new s.table })
    claim :
        (s : System) (now : ℕ) (worker : String) (locked : ℕ → Bool)
        → Step s (started (claim_next_job now worker locked s.table) s.runs)
    beat :
        (s : System) (now : ℕ) (worker : String) (id : ℕ)
        → Step s (record s { table = heartbeat now worker id s.table })
    finish :
        (s : System) (now : ℕ) (before : List Job) (job : Job) (after : List Job) (all_ok : Bool)
        (message : String)
        → s.runs ≡ before ++ job ∷ after
        → Step s (record {
          table = finish_job next_cron now job all_ok message s.table;
          runs = before ++ after;
        })
    die :
        (s : System) (before : List Job) (job : Job) (after : List Job)
        → s.runs ≡ before ++ job ∷ after
        → Step s (record s { runs = before ++ after })
    reap :
        (s : System) (now : ℕ)
        → All
            (λ run. All (λ row. has_id run.id row ≡ true → is_stale now row ≡ false) s.table)
            s.runs
        → Step s (record s { table = reap_stale_jobs now s.table })
    retry : (s : System) (now id : ℕ) → Step s (record s { table = (retry_job now id s.table).1 })
    cancel : (s : System) (id : ℕ) → Step s (record s { table = cancel_job id s.table })
    clear : (s : System) → Step s (record s { table = clear_finished s.table })

  pub data Reach (s : System) : System → Type 0 where
    here : Reach s s
    next : {t u : System} → Reach s t → Step t u → Reach s u
