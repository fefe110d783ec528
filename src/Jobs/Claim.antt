-- ===== src/Jobs/Claim.antt =====
-- What a claim takes, and that no job is handed out twice.
use switchpilot.Prelude.{
  ℕ, ◌≡◌, ◌≢◌, ◌⊎◌, refl, sym, inl, inr, Bool, true, false, not, ◌&&◌, String, [], ◌∷◌, Option,
  none, some, All, All-mono, Bool-cases, ==_iff, arith,
}
use switchpilot.Jobs.Table.{Job, Table, update_where, runnable, precedes}
use switchpilot.Jobs.Service.{first_row, least, claimed, claim_row, claim_next_job, has_id}
use switchpilot.Jobs.Table.Rows.{In, All-In, update_where-All}

precedes_refl : (j : Job) → precedes j j ≡ true
unfolding precedes
precedes_refl j = ground arith

precedes_trans : (i j k : Job) → precedes i j ≡ true → precedes j k ≡ true → precedes i k ≡ true
unfolding precedes
precedes_trans i j k p q = ground arith

precedes_total : (j k : Job) → precedes j k ≡ false → precedes k j ≡ true
unfolding precedes
precedes_total j k p = ground arith

-- The row is of the table, passes the test, and precedes every row that does; or none passes.
abbrev FirstOf : (Job → Bool) → Table → Option Job → Type 0
FirstOf p table none = All (λ k. p k ≡ false) table
FirstOf p table (some j) =
    In j table × (p j ≡ true) × All (λ k. p k ≡ true → precedes j k ≡ true) table

least-FirstOf :
    (p : Job → Bool) (job : Job) (table : Table) (rest : Option Job)
    → p job ≡ true
    → FirstOf p table rest
    → FirstOf p (job ∷ table) (least job rest)
least-FirstOf p job table none pass empty = (
  inl refl,
  pass,
  (
    (λ t. precedes_refl job),
    All-mono (λ k. p k ≡ false) (λ k. p k ≡ true → precedes job k ≡ true) (λ k f t. cc) table empty,
  ),
)
least-FirstOf p job table (some k) pass (listed, passes, first) =
    elim (Bool-cases (precedes job k)) [
      | inl before ↦ rw before (
        inl refl,
        pass,
        (
          (λ t. precedes_refl job),
          All-mono (λ i. p i ≡ true → precedes k i ≡ true) (λ i. p i ≡ true → precedes job i ≡ true)
              (λ i h t. precedes_trans job k i before (h t)) table first,
        ),
      )
      | inr after ↦ rw after (inr listed, passes, ((λ t. precedes_total job k after), first))
    ]

first_row-FirstOf : (p : Job → Bool) (table : Table) → FirstOf p table (first_row p table)
unfolding first_row
first_row-FirstOf p [] = tt
first_row-FirstOf p (job ∷ table) = elim (Bool-cases (p job)) [
  | inl pass ↦ rw pass (least-FirstOf p job table _ pass (first_row-FirstOf p table))
  | inr skip ↦ rw skip (skipped (first_row p table) skip (first_row-FirstOf p table))
]
  where
    skipped :
        (rest : Option Job) → p job ≡ false → FirstOf p table rest → FirstOf p (job ∷ table) rest
    skipped none skip empty = (skip, empty)
    skipped (some j) skip (listed, passes, first) = (inr listed, passes, ((λ t. cc), first))

-- Whether a worker may take the row.
abbrev pub takeable : ℕ → (ℕ → Bool) → Job → Bool
takeable now locked job = runnable now job && not (locked job.id)

-- What a claim answers: either no row may be taken and the table stays, or it is the earliest of
-- those that may, marked as running for this worker with one more attempt, and the other rows stay.
abbrev pub IsClaim : ℕ → String → (ℕ → Bool) → Table → Option Job × Table → Type 0
IsClaim now worker locked table (none, after) =
    All (λ k. takeable now locked k ≡ false) table × (after ≡ table)
IsClaim now worker locked table (some row, after) =
    (job : Job) × In job table
    × (takeable now locked job ≡ true)
    × All (λ k. (takeable now locked k ≡ false) ⊎ (precedes job k ≡ true)) table
    × (row ≡ claimed now worker job)
    × (after ≡ update_where (has_id job.id) (claimed now worker) table)

-- A claim by any worker, with any rows held by others, is as `IsClaim` says.
pub claim_next_job-IsClaim :
    (now : ℕ) (worker : String) (locked : ℕ → Bool) (table : Table)
    → IsClaim now worker locked table (claim_next_job now worker locked table)
unfolding claim_next_job
claim_next_job-IsClaim now worker locked table =
    answer (first_row (takeable now locked) table) (first_row-FirstOf (takeable now locked) table)
  where
    either :
        (job k : Job)
        → (takeable now locked k ≡ true → precedes job k ≡ true)
        → (takeable now locked k ≡ false) ⊎ (precedes job k ≡ true)
    either job k h = elim (Bool-cases (takeable now locked k)) [
      | inl may ↦ inr (h may)
      | inr barred ↦ inl barred
    ]

    answer :
        (found : Option Job)
        → FirstOf (takeable now locked) table found
        → IsClaim now worker locked table (claim_row now worker table found)
    answer none empty = (empty, refl)
    answer (some job) (listed, passes, first) =
        (job, listed, passes, All-mono _ _ (either job) table first, refl, refl)

-- No row with this id may be taken.
abbrev IsTaken : ℕ → ℕ → Job → Type 0
IsTaken now id row = row.id ≡ id → runnable now row ≡ false

claim-IsTaken :
    (now later : ℕ) (worker : String) (id : ℕ) (table : Table)
    → All (IsTaken later id) (update_where (has_id id) (claimed now worker) table)
claim-IsTaken now later worker id table =
    update_where-All (λ row. Unit {0}) (IsTaken later id) (has_id id) (claimed now worker)
      (λ row h same. λ e. unfold runnable in refl)
      (λ row h other. λ e. cc (other, (==_iff row.id id).1 e)) table (anything table)
  where
    anything : (rows : Table) → All (λ row. Unit {0}) rows
    anything [] = tt
    anything (row ∷ rows) = (tt, anything rows)

-- Two claims in a row, by whatever workers at whatever times, never hand out the same job.
pub claim_twice :
    (now later : ℕ) (first_worker second_worker : String) (held held' : ℕ → Bool) (table : Table)
    {j k : Job}
    → (claim_next_job now first_worker held table).0 ≡ some j
    → (claim_next_job later second_worker held' (claim_next_job now first_worker held table).1).0
      ≡ some k
    → j.id ≢ k.id
claim_twice now later w w' held held' table {j} {k} p q =
    apart (claim_next_job now w held table) (claim_next_job-IsClaim now w held table) p q
  where
    second :
        (rows : Table) (id : ℕ)
        → All (IsTaken later id) rows
        → (answer : Option Job × Table) → IsClaim later w' held' rows answer
        → answer.0 ≡ some k
        → id ≢ k.id
    second rows id taken (none, after) h e = cc
    second rows id taken (some row, after) (job, listed, passes, _, same, _) e = λ same_id.
        let free : runnable later job ≡ false =
          All-In (IsTaken later id) job rows listed taken (ground (arith, same, e, same_id)) in
        cc (free, passes)

    apart :
        (answer : Option Job × Table)
        → IsClaim now w held table answer
        → answer.0 ≡ some j
        → (claim_next_job later w' held' answer.1).0 ≡ some k
        → j.id ≢ k.id
    apart (none, after) h e e' = cc
    apart (some row, after) (job, listed, passes, _, same, updated) e e' = rw (sym (id_of e same)) (
        second after job.id (rw updated (claim-IsTaken now later w job.id table)) _
          (claim_next_job-IsClaim later w' held' after) e')
      where
        id_of : some row ≡ some j → row ≡ claimed now w job → job.id ≡ j.id
        id_of e same = ground arith
