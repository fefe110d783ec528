-- ===== src/Jobs/System/Once.antt =====
-- Each job has at most one live run, and a one-shot job is never run more often than it may be.
use switchpilot.Prelude.{
  ℕ, ◌+◌, ◌<◌, ◌≡◌, ◌≢◌, refl, sym, ap, ◌∙◌, String, Bool, true, false, List, [], ◌∷◌, ◌++◌, Option,
  none, some, All, All-mono, All-both, ==_iff, arith,
}
use switchpilot.Jobs.Table.{Job, Table, pending, update_where, runnable, truthy}
use switchpilot.Jobs.Table.Rows.{In, All-In, update_where-All}
use switchpilot.Jobs.Service.{
  NewJob, JobOutcome, reschedule, finished, retry_at, give_up, or_else, create_job, claimed,
  claim_next_job, decide_job_outcome, finish_row, finish_job, has_id,
}
use switchpilot.Jobs.Claim.{takeable, IsClaim, claim_next_job-IsClaim}
use switchpilot.Jobs.System.Ids.{All-split, DistinctIds-split, DistinctIds-update, only_row}
use switchpilot.Jobs.System.Invariant.{
  IsWithin, Matches, Inv, heartbeat-Inv, retry-Inv, cancel-Inv, reap-Inv, clear-Inv, die-Inv,
}
use switchpilot.Jobs.System.{
  System, started, Step, create, claim, beat, finish, die, reap, retry, cancel, clear, Reach, here,
  next,
}

-- An update of the row with one id leaves the runs of other ids matching.
apart-Matches :
    (id : ℕ) (f : Job → Job)
    → ((row : Job) → (f row).id ≡ row.id)
    → (table : Table) (runs : List Job) → All (λ run. run.id ≢ id) runs
    → All (λ run. All (Matches run) table) runs
    → All (λ run. All (Matches run) (update_where (has_id id) f table)) runs
apart-Matches id f same table [] others h = tt
apart-Matches id f same table (run ∷ runs) (other, others) (h, hs) = (
  update_where-All (Matches run) (Matches run) (has_id id) f
      (λ row m hit.
        let never : (f row).id ≡ run.id → ⊥ =
          λ e. other (sym (sym (same row) ∙ e) ∙ (==_iff row.id id).0 hit) in
        record {
          status = λ e. absurd (never e);
          attempts = λ e. absurd (never e);
          max_attempts = λ e. absurd (never e);
          cron = λ e. absurd (never e);
        })
      (λ row m miss. m) table h,
  apart-Matches id f same table runs others hs,
)

takeable-pending :
    (now : ℕ) (locked : ℕ → Bool) (job : Job)
    → takeable now locked job ≡ true
    → job.status ≡ pending
unfolding runnable
takeable-pending now locked job h = ground arith

claim_row-Inv :
    (s : System) (now : ℕ) (worker : String) (job : Job)
    → In job s.table
    → job.status ≡ pending
    → Inv s
    → Inv (record {
      table = update_where (has_id job.id) (claimed now worker) s.table;
      runs = claimed now worker job ∷ s.runs;
    })
claim_row-Inv s now worker job listed waits inv =
    let only = only_row job s.table inv.ids listed in
    let others : All (λ run. run.id ≢ job.id) s.runs =
      All-mono (λ run. All (Matches run) s.table) (λ run. run.id ≢ job.id)
        (λ run m e.
          let busy = (All-In (Matches run) job s.table listed m).status (sym e) in cc (busy, waits))
        s.runs inv.matching in
    record {
      within =
          update_where-All (λ row. IsWithin row × (row.id ≡ job.id → row ≡ job)) IsWithin
            (has_id job.id) (claimed now worker)
            (λ row both hit.
              let e : row ≡ job = both.1 ((==_iff row.id job.id).0 hit) in
              let ready : row.status ≡ pending = rw e waits in
              record {
                counted = λ once. omega (arith, both.0.left once ready);
                left = λ once busy. cc;
              })
            (λ row both miss. both.0) s.table
            (All-both IsWithin (λ row. row.id ≡ job.id → row ≡ job) s.table inv.within only);
      ids = DistinctIds-update (has_id job.id) (claimed now worker) s.table (λ row. refl) inv.ids;
      matching = (
        update_where-All (λ row. row.id ≡ job.id → row ≡ job) (Matches (claimed now worker job))
            (has_id job.id) (claimed now worker)
            (λ row h hit.
              let e : row ≡ job = h ((==_iff row.id job.id).0 hit) in
              record {
                status = λ same. refl;
                attempts = λ same. ap (λ (r : Job). r.attempts + 1) e;
                max_attempts = λ same. ap (λ (r : Job). r.max_attempts) e;
                cron = λ same. ap (λ (r : Job). r.cron) e;
              })
            (λ row h miss.
              let never : row.id ≡ job.id → ⊥ = λ same. cc (miss, (==_iff row.id job.id).1 same) in
              record {
                status = λ same. absurd (never same);
                attempts = λ same. absurd (never same);
                max_attempts = λ same. absurd (never same);
                cron = λ same. absurd (never same);
              })
            s.table only,
        apart-Matches job.id (claimed now worker) (λ row. refl) s.table s.runs others inv.matching,
      );
      single = (others, inv.single);
    }

claim-Inv :
    (s : System) (now : ℕ) (worker : String) (locked : ℕ → Bool)
    → Inv s
    → Inv (started (claim_next_job now worker locked s.table) s.runs)
claim-Inv s now worker locked inv =
    answer (claim_next_job now worker locked s.table)
      (claim_next_job-IsClaim now worker locked s.table)
  where
    answer : (r : Option Job × Table) → IsClaim now worker locked s.table r → Inv (started r s.runs)
    answer (none, after) (empty, e) = rw e (record {
      within = inv.within;
      ids = inv.ids;
      matching = inv.matching;
      single = inv.single;
    })
    answer (some row, after) (job, listed, passes, _, same, e) =
        rw (e, same)
          (claim_row-Inv s now worker job listed (takeable-pending now locked job passes) inv)

module _ (next_cron : String → ℕ → ℕ) where
  create-Inv :
      (s : System) (now id : ℕ) (new : NewJob)
      → All (λ row. has_id id row ≡ false) s.table
      → All (λ run. has_id id run ≡ false) s.runs
      → 0 < or_else new.max_attempts 1
      → Inv s
      → Inv (record s { table = create_job next_cron now id new s.table })
  unfolding create_job
  create-Inv s now id new fresh unused pos inv = record {
    within = (record { counted = λ once. omega arith; left = λ once waits. pos }, inv.within);
    ids = (
      All-mono (λ row. has_id id row ≡ false) (λ row. row.id ≢ id)
          (λ row other same. cc (other, (==_iff row.id id).1 same)) s.table fresh,
      inv.ids,
    );
    matching = matched s.runs unused inv.matching;
    single = inv.single;
  }
    where
      matched :
          (runs : List Job)
          → All (λ run. has_id id run ≡ false) runs
          → All (λ run. All (Matches run) s.table) runs
          → All (λ run. All (Matches run) (create_job next_cron now id new s.table)) runs
      matched [] u h = tt
      matched (run ∷ runs) (u, us) (h, hs) =
          let other : id ≡ run.id → ⊥ = λ same. cc (u, (==_iff run.id id).1 (sym same)) in
          (
            (
              record {
                status = λ same. absurd (other same);
                attempts = λ same. absurd (other same);
                max_attempts = λ same. absurd (other same);
                cron = λ same. absurd (other same);
              },
              h,
            ),
            matched runs us hs,
          )

  -- Only a recurring job is rescheduled, and only a job with attempts left is retried.
  reschedule_recurring :
      (job : Job) (all_ok : Bool) (now : ℕ) {at : ℕ}
      → decide_job_outcome next_cron job all_ok now ≡ reschedule at
      → truthy job.cron ≡ true
  unfolding decide_job_outcome
  reschedule_recurring job all_ok now e = ground arith

  retry_left :
      (job : Job) (all_ok : Bool) (now : ℕ) {at : ℕ}
      → decide_job_outcome next_cron job all_ok now ≡ retry_at at
      → job.attempts < job.max_attempts
  unfolding decide_job_outcome
  retry_left job all_ok now e = ground arith

  finish_row-IsWithin :
      (job row : Job) (all_ok : Bool) (now : ℕ) (message : String) (outcome : JobOutcome)
      → decide_job_outcome next_cron job all_ok now ≡ outcome
      → Matches job row
      → row.id ≡ job.id
      → IsWithin row
      → IsWithin (finish_row next_cron now all_ok message outcome row)
  finish_row-IsWithin job row all_ok now message (reschedule at) e m same h =
      let recurring = rw (← m.cron same) at (reschedule_recurring job all_ok now e) in
      record { counted = λ once. cc; left = λ once waits. cc }
  finish_row-IsWithin job row all_ok now message finished e m same h = record {
    counted = h.counted;
    left = λ once waits. cc;
  }
  finish_row-IsWithin job row all_ok now message (retry_at t) e m same h = record {
    counted = h.counted;
    left = λ once waits.
        omega (arith, retry_left job all_ok now e, m.attempts same, m.max_attempts same);
  }
  finish_row-IsWithin job row all_ok now message give_up e m same h = record {
    counted = h.counted;
    left = λ once waits. cc;
  }

  finish_row-id :
      (now : ℕ) (all_ok : Bool) (message : String) (outcome : JobOutcome) (row : Job)
      → (finish_row next_cron now all_ok message outcome row).id ≡ row.id
  finish_row-id now all_ok message (reschedule at) row = refl
  finish_row-id now all_ok message finished row = refl
  finish_row-id now all_ok message (retry_at t) row = refl
  finish_row-id now all_ok message give_up row = refl

  finish-Inv :
      (s : System) (now : ℕ) (before : List Job) (job : Job) (after : List Job) (all_ok : Bool)
      (message : String)
      → s.runs ≡ before ++ job ∷ after
      → Inv s
      → Inv (record {
        table = finish_job next_cron now job all_ok message s.table;
        runs = before ++ after;
      })
  unfolding finish_job
  finish-Inv s now before job after all_ok message e inv =
      let f : Job → Job =
        finish_row next_cron now all_ok message (decide_job_outcome next_cron job all_ok now) in
      let (rest, this) =
        All-split (λ run. All (Matches run) s.table) before job after (rw e at inv.matching) in
      let (single, others) = DistinctIds-split before job after (rw e at inv.single) in
      record {
        within =
            update_where-All (λ row. IsWithin row × Matches job row) IsWithin (has_id job.id) f
              (λ row both hit.
                finish_row-IsWithin job row all_ok now message _ refl both.1
                  ((==_iff row.id job.id).0 hit) both.0)
              (λ row both miss. both.0) s.table
              (All-both IsWithin (Matches job) s.table inv.within this);
        ids =
            DistinctIds-update (has_id job.id) f s.table
              (finish_row-id now all_ok message (decide_job_outcome next_cron job all_ok now))
              inv.ids;
        matching =
            apart-Matches job.id f
              (finish_row-id now all_ok message (decide_job_outcome next_cron job all_ok now))
              s.table (before ++ after) others rest;
        single = single;
      }

  Step-Inv : {s t : System} → Step next_cron s t → Inv s → Inv t
  Step-Inv (create s now id new fresh unused pos) inv = create-Inv s now id new fresh unused pos inv
  Step-Inv (claim s now worker locked) inv = claim-Inv s now worker locked inv
  Step-Inv (beat s now worker id) inv = heartbeat-Inv now worker id s inv
  Step-Inv (finish s now before job after all_ok message e) inv =
      finish-Inv s now before job after all_ok message e inv
  Step-Inv (die s before job after e) inv = die-Inv s before job after e inv
  Step-Inv (reap s now alive) inv = reap-Inv now s alive inv
  Step-Inv (retry s now id) inv = retry-Inv now id s inv
  Step-Inv (cancel s id) inv = cancel-Inv id s inv
  Step-Inv (clear s) inv = clear-Inv s inv

  -- From a system whose rows and runs fit together, whatever the replicas do, as long as no live run
  -- is silent at a round of the reaper: every job has at most one live run, its row is running
  -- with the attempt of that run, and a one-shot job never has more attempts than it may have.
  pub Reach-Inv : {s t : System} → Inv s → Reach next_cron s t → Inv t
  Reach-Inv inv here = inv
  Reach-Inv inv (next r st) = Step-Inv st (Reach-Inv inv r)
