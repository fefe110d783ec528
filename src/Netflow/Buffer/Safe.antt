-- ===== src/Netflow/Buffer/Safe.antt =====
-- Reads within the buffer do not throw.
use switchpilot.Prelude.{
  ℕ, ◌+◌, ◌≤◌, ◌≡◌, true, is_some, length, get_elem?, get_elem?-some, get_elem?-none, none,
  Option-cases, inl, inr, arith,
}
use switchpilot.Netflow.Buffer.{Bytes, read_u16, read_u32}

pub read_u16_some :
    (buf : Bytes) (off : ℕ) → off + 2 ≤ length buf → is_some (read_u16 buf off) ≡ true
unfolding read_u16
read_u16_some buf off h =
    let (a, p) = get_elem?-some buf off (omega arith) in
    let (b, q) = get_elem?-some buf (off + 1) (omega arith) in rw (p, q)

pub read_u32_some :
    (buf : Bytes) (off : ℕ) → off + 4 ≤ length buf → is_some (read_u32 buf off) ≡ true
unfolding read_u32
read_u32_some buf off h =
    let (a, p) = get_elem?-some buf off (omega arith) in
    let (b, q) = get_elem?-some buf (off + 1) (omega arith) in
    let (c, r) = get_elem?-some buf (off + 2) (omega arith) in
    let (d, s) = get_elem?-some buf (off + 2 + 1) (omega arith) in rw (p, q, r, s)

-- Reads that pass the end throw.
pub read_u16-none : (buf : Bytes) (off : ℕ) → length buf ≤ off + 1 → read_u16 buf off ≡ none
unfolding read_u16
read_u16-none buf off h =
    let e : get_elem? buf (off + 1) ≡ none = get_elem?-none buf (off + 1) h in
    elim (Option-cases (get_elem? buf off)) [ inl p ↦ rw p | inr (a, p) ↦ rw (p, e) ]

pub read_u32-none : (buf : Bytes) (off : ℕ) → length buf ≤ off + 3 → read_u32 buf off ≡ none
unfolding read_u32
read_u32-none buf off h =
    let e : read_u16 buf (off + 2) ≡ none = read_u16-none buf (off + 2) (omega arith) in
    ground (arith, e)
