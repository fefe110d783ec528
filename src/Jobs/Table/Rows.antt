-- ===== src/Jobs/Table/Rows.antt =====
-- Lemmas on rows and updates.
use switchpilot.Prelude.{
  ◌≡◌, ◌⊎◌, ap, inl, inr, Bool, true, false, [], ◌∷◌, All, Bool-cases, if◌then◌else◌,
}
use switchpilot.Jobs.Table.{Job, Table, update_where}

-- The row is one of the table's.
abbrev pub In : Job → Table → Type 0
In job [] = ⊥
In job (row ∷ table) = (job ≡ row) ⊎ In job table

pub All-In : (P : Job → Type 0) (job : Job) (table : Table) → In job table → All P table → P job
All-In P job [] i h = elim i [ ]
All-In P job (row ∷ table) (inl e) (h, hs) = rw e h
All-In P job (row ∷ table) (inr i) (h, hs) = All-In P job table i hs

-- A property of all rows after an update, from the rows that it changes and those that it keeps.
pub update_where-All :
    (P Q : Job → Type 0) (p : Job → Bool) (f : Job → Job)
    → ((row : Job) → P row → p row ≡ true → Q (f row))
    → ((row : Job) → P row → p row ≡ false → Q row)
    → (table : Table) → All P table
    → All Q (update_where p f table)
unfolding update_where
update_where-All P Q p f changed kept [] h = tt
update_where-All P Q p f changed kept (row ∷ table) (h, hs) =
    let later = update_where-All P Q p f changed kept table hs in
    elim (Bool-cases (p row)) [
      | inl yes_p ↦ rw yes_p (changed row h yes_p, later)
      | inr no_p ↦ rw no_p (kept row h no_p, later)
    ]

pub In-update_where :
    (p : Job → Bool) (f : Job → Job) (job : Job) (table : Table)
    → p job ≡ true
    → In job table
    → In (f job) (update_where p f table)
unfolding update_where
In-update_where p f job [] pass i = elim i [ ]
In-update_where p f job (row ∷ table) pass (inl e) = inl (changed (p row) (rw (← e) pass))
  where
    changed : (b : Bool) → b ≡ true → f job ≡ (if b then f row else row)
    changed true t = ap f e
    changed false t = cc
In-update_where p f job (row ∷ table) pass (inr i) = inr (In-update_where p f job table pass i)
