-- ===== src/Netflow/Collector/Chunks.antt =====
-- `flush` sends every row once, in statements of at most 500 rows.
use switchpilot.Prelude.{
  ℕ, zero, suc, ◌-◌, ◌≤◌, ◌<◌, ◌≡◌, refl, ap, ◌∙◌, List, [], ◌∷◌, ◌++◌, length, drop, All, arith,
}
use switchpilot.Netflow.Collector.{Agg, Collector, take_chunk, chunks, flush}

take_chunk-drop : (n : ℕ) (rows : List Agg) → take_chunk n rows ++ drop n rows ≡ rows
take_chunk-drop zero rows = refl
take_chunk-drop (suc n) [] = refl
take_chunk-drop (suc n) (row ∷ rows) = ap (λ r. row ∷ r) (take_chunk-drop n rows)

length-take_chunk : (n : ℕ) (rows : List Agg) → length (take_chunk n rows) ≤ n
length-take_chunk zero rows = omega arith
length-take_chunk (suc n) [] = omega arith
length-take_chunk (suc n) (row ∷ rows) = omega (arith, length-take_chunk n rows)

length-drop : (n : ℕ) (rows : List Agg) → length (drop n rows) ≤ length rows - n
length-drop zero rows = omega arith
length-drop (suc n) [] = omega arith
length-drop (suc n) (row ∷ rows) = omega (arith, length-drop n rows)

-- The rows of several statements, in order.
abbrev pub rows_of : List (List Agg) → List Agg
rows_of [] = []
rows_of (chunk ∷ rest) = chunk ++ rows_of rest

abbrev pub IsStatement : List Agg → Type 0
IsStatement chunk = (0 < length chunk) × (length chunk ≤ 500)

rows_of-chunks :
    (fuel : ℕ) (rows : List Agg) → length rows ≤ fuel → rows_of (chunks fuel rows) ≡ rows
unfolding chunks
rows_of-chunks zero [] h = refl
rows_of-chunks zero (row ∷ rows) h = absurd (omega arith)
rows_of-chunks (suc fuel) [] h = refl
rows_of-chunks (suc fuel) (row ∷ rows) h =
    ap (λ r. take_chunk 500 (row ∷ rows) ++ r)
      (rows_of-chunks fuel (drop 500 (row ∷ rows)) (omega (arith, length-drop 500 (row ∷ rows))))
    ∙ take_chunk-drop 500 (row ∷ rows)

chunks-IsStatement : (fuel : ℕ) (rows : List Agg) → All IsStatement (chunks fuel rows)
unfolding chunks
chunks-IsStatement zero rows = tt
chunks-IsStatement (suc fuel) [] = tt
chunks-IsStatement (suc fuel) (row ∷ rows) = (
  (omega arith, length-take_chunk 500 (row ∷ rows)),
  chunks-IsStatement fuel (drop 500 (row ∷ rows)),
)

-- The statements of a flush hold every bucket exactly once and in order, each of them holds 1 to
-- 500 rows, and no bucket is left while the templates stay.
pub flush_complete :
    (c : Collector)
    → (rows_of (flush c).0 ≡ c.buckets)
      × All IsStatement (flush c).0
      × ((flush c).1 ≡ record c { buckets = [] })
unfolding flush
flush_complete c = (
  rows_of-chunks (length c.buckets) c.buckets (omega arith),
  chunks-IsStatement (length c.buckets) c.buckets,
  refl,
)
