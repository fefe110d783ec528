-- ===== src/Jobs/Runs.antt =====
-- What a run records, a cron text that no claim takes, and a run that the reaper gave up on too early.
use switchpilot.Prelude.{
  ℕ, ◌+◌, ◌<◌, ◌≤◌, ◌≡◌, refl, ◌∙◌, sym, String, Bool, true, false, ◌&&◌, List, [], ◌∷◌, ◌++◌, map,
  none, some, inl, append_assoc, append-nil, ==_iff, arith,
}
use mathlib.Core.Bool.{and-true, and-false, and_assoc}
use switchpilot.Jobs.Table.{stale_ms, is_stale, update_where, Job, Table, running, runnable}
use switchpilot.Jobs.Table.Rows.{In}
use switchpilot.Jobs.Service.{
  claimed, claim_next_job, first_row, reaped, reap_stale_jobs, DeviceResult, output, error, Tally,
  tally, run_devices_from, run_devices, NewJob, create_job, finish_job, decide_job_outcome,
  finish_row, retry_at, backoff_ms,
}

module _ (slice : String → String) (exec : ℕ → DeviceResult) where
  -- The row of job_results of one device.
  abbrev result_row : ℕ → DeviceResult → ℕ × Bool × String
  result_row device (output text) = (device, true, slice text)
  result_row device (error message) = (device, false, message)

  abbrev is_output : DeviceResult → Bool
  is_output (output text) = true
  is_output (error message) = false

  abbrev every_output : List ℕ → Bool
  every_output [] = true
  every_output (device ∷ devices) = is_output (exec device) && every_output devices

  abbrev error_or : String → DeviceResult → String
  error_or e (output text) = e
  error_or e (error message) = message

  abbrev last_error_of : String → List ℕ → String
  last_error_of e [] = e
  last_error_of e (device ∷ devices) = last_error_of (error_or e (exec device)) devices

  tally_lem :
      (device : ℕ) (r : DeviceResult) (t : Tally)
      → tally slice device r t ≡ record {
        results = t.results ++ result_row device r ∷ [];
        all_ok = t.all_ok && is_output r;
        last_error = error_or t.last_error r;
      }
  tally_lem device (output text) t = λ i. record {
    results = t.results ++ (device, true, slice text) ∷ [];
    all_ok = sym (and-true t.all_ok) i;
    last_error = t.last_error;
  }
  tally_lem device (error message) t = λ i. record {
    results = t.results ++ (device, false, message) ∷ [];
    all_ok = sym (and-false t.all_ok) i;
    last_error = message;
  }

  -- The tally of the devices, after a tally of earlier ones.
  run_devices_from_lem :
      (devices : List ℕ) (t : Tally)
      → run_devices_from slice exec devices t ≡ record {
        results = t.results ++ map (λ d. result_row d (exec d)) devices;
        all_ok = t.all_ok && every_output devices;
        last_error = last_error_of t.last_error devices;
      }
  unfolding run_devices_from
  run_devices_from_lem [] t = λ i. record {
    results = sym (append-nil t.results) i;
    all_ok = sym (and-true t.all_ok) i;
    last_error = t.last_error;
  }
  run_devices_from_lem (device ∷ devices) t =
      run_devices_from_lem devices (tally slice device (exec device) t)
      ∙ rw (tally_lem device (exec device) t) (λ i. record {
        results =
            append_assoc t.results (result_row device (exec device) ∷ [])
              (map (λ d. result_row d (exec d)) devices) i;
        all_ok = and_assoc t.all_ok (is_output (exec device)) (every_output devices) i;
        last_error = last_error_of (error_or t.last_error (exec device)) devices;
      })

  -- A run tries every device in order, whatever happened on the earlier ones, and records one row
  -- for each. It counts as well only if every device gave its output, and its error is that of the
  -- last device that failed.
  pub run_devices_complete :
      (devices : List ℕ)
      → run_devices slice exec devices ≡ record {
        results = map (λ d. result_row d (exec d)) devices;
        all_ok = every_output devices;
        last_error = last_error_of "" devices;
      }
  unfolding run_devices
  run_devices_complete devices = run_devices_from_lem devices _

-- What the claim and the reaper do to a table of one row.
claim_only :
    (now : ℕ) (worker : String) (job : Job)
    → runnable now job ≡ true
    → claim_next_job now worker (λ id. false) (job ∷ [])
      ≡ (some (claimed now worker job), claimed now worker job ∷ [])
unfolding claim_next_job first_row update_where
claim_only now worker job ready = let same = (==_iff job.id job.id).1 refl in rw (ready, same) refl

reap_only :
    (now : ℕ) (job : Job)
    → is_stale now job ≡ true
    → reap_stale_jobs now (job ∷ []) ≡ reaped now job ∷ []
unfolding reap_stale_jobs update_where
reap_only now job silent = rw silent refl

module _ (next_cron : String → ℕ → ℕ) where
  -- A job whose cron text is empty is never runnable, at any time.
  pub create_job-empty_cron :
      (now id : ℕ) (new : NewJob) (table : Table)
      → new.cron ≡ some ""
      → (row : Job) × In row (create_job next_cron now id new table)
        × (row.id ≡ id)
        × ((later : ℕ) → runnable later row ≡ false)
  unfolding create_job
  create_job-empty_cron now id new table e =
      (_, inl refl, refl, λ later. unfold runnable in ground arith)

  finish_only :
      (now : ℕ) (job row : Job) (message : String)
      → row.id ≡ job.id
      → job.cron ≡ none
      → job.attempts < job.max_attempts
      → finish_job next_cron now job false message (row ∷ [])
        ≡ finish_row next_cron now false message (retry_at (now + backoff_ms job.attempts)) row ∷ []
  unfolding finish_job update_where
  finish_only now job row message same once left =
      let here_it_is = (==_iff row.id job.id).1 same in
      let retried : decide_job_outcome next_cron job false now
          ≡ retry_at (now + backoff_ms job.attempts) =
        unfold decide_job_outcome in ground arith in
      rw (here_it_is, retried) refl

  -- Of a table with one job, which is not recurring and has two attempts left, a worker claims it
  -- and then gives no heartbeat until the reaper comes; a second worker claims it, and runs it; and
  -- the first worker, which was alive after all, reports that it failed. From the end of the backoff
  -- on a third worker gets the same job, though the second has not ended: two of them run it at
  -- once.
  pub finish_job-of_given_up :
      (t0 t1 t2 t3 t4 : ℕ) (a b c message : String) (job : Job)
      → runnable t0 job ≡ true
      → job.cron ≡ none
      → job.attempts + 1 < job.max_attempts
      → t0 + stale_ms < t1
      → t1 ≤ t2
      → t3 + backoff_ms (job.attempts + 1) ≤ t4
      → let mine = claimed t0 a job in
        let given_up = reap_stale_jobs t1 (claim_next_job t0 a (λ id. false) (job ∷ [])).1 in
        let second = claim_next_job t2 b (λ id. false) given_up in
        let finished = finish_job next_cron t3 mine false message second.1 in
        let third = claim_next_job t4 c (λ id. false) finished in
        ((claim_next_job t0 a (λ id. false) (job ∷ [])).0 ≡ some mine)
        × ((theirs : Job) × (second ≡ (some theirs, theirs ∷ []))
            × (theirs.id ≡ job.id)
            × (theirs.status ≡ running)
            × (theirs.locked_by ≡ some b))
        × ((again : Job) × (third ≡ (some again, again ∷ []))
            × (again.id ≡ job.id)
            × (again.status ≡ running)
            × (again.locked_by ≡ some c))
  finish_job-of_given_up t0 t1 t2 t3 t4 a b c message job ready once left silent after due_then =
      let mine = claimed t0 a job in
      let waits = reaped t1 mine in
      let theirs = claimed t2 b waits in
      let back =
        finish_row next_cron t3 false message (retry_at (t3 + backoff_ms (job.attempts + 1)))
          theirs in
      let first = claim_only t0 a job ready in
      let reap : reap_stale_jobs t1 (mine ∷ []) ≡ waits ∷ [] =
        reap_only t1 mine (unfold is_stale in ground (arith, silent)) in
      let second = claim_only t2 b waits (unfold runnable in ground (arith, once, left, after)) in
      let finish = finish_only t3 mine theirs message refl once left in
      let third = claim_only t4 c back (unfold runnable in ground (arith, once, due_then)) in
      rw (first, reap, second, finish, third)
        (refl, (theirs, refl, refl, refl, refl), (claimed t4 c back, refl, refl, refl, refl))
