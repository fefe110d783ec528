-- ===== src/Jobs/System/Ids.antt =====
-- Rows with distinct ids, and lists that lose one of their rows.
use switchpilot.Prelude.{
  ℕ, ◌≡◌, ◌≢◌, inl, inr, refl, sym, ap, ◌∙◌, Bool, true, false, List, [], ◌∷◌, ◌++◌, All, All-mono,
  All-keep, Bool-cases, keep, if◌then◌else◌,
}
use switchpilot.Jobs.Table.{Job, Table, update_where}
use switchpilot.Jobs.Table.Rows.{In, All-In, update_where-All}

-- The ids of the rows differ from one another.
abbrev pub DistinctIds : List Job → Type 0
DistinctIds [] = Unit
DistinctIds (row ∷ rows) = All (λ later. later.id ≢ row.id) rows × DistinctIds rows

pub All-split :
    (P : Job → Type 0) (before : List Job) (job : Job) (after : List Job)
    → All P (before ++ job ∷ after)
    → All P (before ++ after) × P job
All-split P [] job after (h, hs) = (hs, h)
All-split P (row ∷ before) job after (h, hs) =
    let (rest, this) = All-split P before job after hs in ((h, rest), this)

pub DistinctIds-split :
    (before : List Job) (job : Job) (after : List Job)
    → DistinctIds (before ++ job ∷ after)
    → DistinctIds (before ++ after) × All (λ run. run.id ≢ job.id) (before ++ after)
DistinctIds-split [] job after (h, hs) = (hs, h)
DistinctIds-split (row ∷ before) job after (h, hs) =
    let (rest, others) = DistinctIds-split before job after hs in
    let (apart, this) = All-split (λ later. later.id ≢ row.id) before job after h in
    ((apart, rest), ((λ e. this (sym e)), others))

All-update_id :
    (id : ℕ) (p : Job → Bool) (f : Job → Job) (table : Table)
    → ((row : Job) → (f row).id ≡ row.id)
    → All (λ row. row.id ≢ id) table
    → All (λ row. row.id ≢ id) (update_where p f table)
All-update_id id p f table same =
    update_where-All (λ row. row.id ≢ id) (λ row. row.id ≢ id) p f
      (λ row h pass. λ e. h (sym (same row) ∙ e)) (λ row h skip. h) table

pub DistinctIds-update :
    (p : Job → Bool) (f : Job → Job) (table : Table)
    → ((row : Job) → (f row).id ≡ row.id)
    → DistinctIds table
    → DistinctIds (update_where p f table)
unfolding update_where
DistinctIds-update p f [] same h = tt
DistinctIds-update p f (row ∷ table) same (h, hs) = (
  rw (head_id (p row)) (All-update_id row.id p f table same h),
  DistinctIds-update p f table same hs,
)
  where
    head_id : (b : Bool) → (if b then f row else row).id ≡ row.id
    head_id true = same row
    head_id false = refl

-- Rows with the id of a listed row are that row.
pub only_row :
    (job : Job) (table : Table)
    → DistinctIds table
    → In job table
    → All (λ row. row.id ≡ job.id → row ≡ job) table
only_row job [] d i = tt
only_row job (row ∷ table) (h, hs) (inl e) = (
  (λ same. sym e),
  All-mono (λ later. later.id ≢ row.id) (λ later. later.id ≡ job.id → later ≡ job)
      (λ later other same. absurd (other (same ∙ ap (λ (r : Job). r.id) e))) table h,
)
only_row job (row ∷ table) (h, hs) (inr i) = (
  (λ same. absurd (All-In (λ later. later.id ≢ row.id) job table i h (sym same))),
  only_row job table hs i,
)

pub DistinctIds-keep :
    (p : Job → Bool) (rows : List Job) → DistinctIds rows → DistinctIds (keep p rows)
DistinctIds-keep p [] h = tt
DistinctIds-keep p (row ∷ rows) (h, hs) =
    let later = DistinctIds-keep p rows hs in
    elim (Bool-cases (p row)) [
      | inl kept ↦ rw kept (All-keep (λ other. other.id ≢ row.id) p rows h, later)
      | inr dropped ↦ rw dropped later
    ]
