-- ===== src/Aruba/Bits.antt =====
-- The bitmap of the ports: a write sets or clears the bit of its port and no other.
use switchpilot.Prelude.{
  ℕ, zero, suc, ◌+◌, ◌-◌, ◌/◌, ◌%◌, ◌^◌, ◌≤◌, ◌<◌, ◌≡◌, inl, inr, refl, sym, ap, Bool, true, false,
  not, ◌&&◌, [], ◌∷◌, ltb, ltb→lt, ◌==◌, ==_iff, Bool-cases, length, All, arith, if◌then◌else◌,
}
use switchpilot.Aruba.{Buffer, resize, update_at, set_bit, larger, bitmap_set}

abbrev pub byte_at : Buffer → ℕ → ℕ
byte_at [] i = 0
byte_at (b ∷ buf) zero = b
byte_at (b ∷ buf) (suc i) = byte_at buf i

-- The bit of the byte, counted from the most significant one.
abbrev bit_of : ℕ → ℕ → Bool
bit_of b k = b / 2 ^ (7 - k) % 2 == 1

-- The port is in the bitmap: bit 0 of byte 0 is port 1, the most significant bit first.
abbrev pub is_member : Buffer → ℕ → Bool
is_member buf port = bit_of (byte_at buf ((port - 1) / 8)) ((port - 1) % 8)

abbrev pub IsBytes : Buffer → Type 0
IsBytes = All (λ b. b < 256)

byte_at-resize :
    (n : ℕ) (buf : Buffer) (i : ℕ) → length buf ≤ n → byte_at (resize n buf) i ≡ byte_at buf i
unfolding resize
byte_at-resize zero [] i h = refl
byte_at-resize zero (b ∷ buf) i h = absurd (omega arith)
byte_at-resize (suc n) [] zero h = refl
byte_at-resize (suc n) [] (suc i) h = byte_at-resize n [] i (omega arith)
byte_at-resize (suc n) (b ∷ buf) zero h = refl
byte_at-resize (suc n) (b ∷ buf) (suc i) h = byte_at-resize n buf i (omega arith)

length-resize : (n : ℕ) (buf : Buffer) → length (resize n buf) ≡ n
unfolding resize
length-resize zero buf = refl
length-resize (suc n) [] = ap suc (length-resize n [])
length-resize (suc n) (b ∷ buf) = ap suc (length-resize n buf)

byte_at-update_at :
    (i j : ℕ) (f : ℕ → ℕ) (buf : Buffer)
    → i < length buf
    → byte_at (update_at i f buf) j ≡ (if i == j then f (byte_at buf j) else byte_at buf j)
unfolding update_at
byte_at-update_at i j f [] h = absurd (omega arith)
byte_at-update_at zero zero f (b ∷ buf) h = refl
byte_at-update_at zero (suc j) f (b ∷ buf) h = ground arith
byte_at-update_at (suc i) zero f (b ∷ buf) h = ground arith
byte_at-update_at (suc i) (suc j) f (b ∷ buf) h =
    let rest = byte_at-update_at i j f buf (omega arith) in ground arith

-- Over a small range, every value by evaluation.
all_below : ℕ → (ℕ → Bool) → Bool
all_below zero p = true
all_below (suc n) p = p n && all_below n p

all_below-true : (n : ℕ) (p : ℕ → Bool) (x : ℕ) → all_below n p ≡ true → x < n → p x ≡ true
unfolding all_below
all_below-true zero p x h lt = absurd (omega arith)
all_below-true (suc n) p x h lt = ground (arith, all_below-true n p x)

both : (a b : Bool) → a && b ≡ true → (a ≡ true) × (b ≡ true)
both a b h = (ground arith, ground arith)

abbrev same : Bool → Bool → Bool
same true b = b
same false b = not b

same-≡ : (a b : Bool) → same a b ≡ true → a ≡ b
same-≡ true b h = sym h
same-≡ false b h = ground arith

-- What a write does to a bit of its byte; the result is a byte.
abbrev right_bit : Bool → ℕ → ℕ → ℕ → Bool
right_bit on k l b =
    same (bit_of (set_bit on (0x80 / 2 ^ k) b) l) (if k == l then on else bit_of b l)
    && ltb (set_bit on (0x80 / 2 ^ k) b) 256

abbrev right_byte : ℕ → ℕ → ℕ → Bool
right_byte k l b = right_bit true k l b && right_bit false k l b

right_table : all_below 8 (λ k. all_below 8 (λ l. all_below 256 (right_byte k l))) ≡ true
unfolding all_below
right_table = refl

right_byte-true : (k l b : ℕ) → k < 8 → l < 8 → b < 256 → right_byte k l b ≡ true
right_byte-true k l b hk hl hb =
    all_below-true 256 (right_byte k l) b
      (all_below-true 8 (λ m. all_below 256 (right_byte k m)) l
        (all_below-true 8 (λ n. all_below 8 (λ m. all_below 256 (right_byte n m))) k right_table hk)
        hl)
      hb

bit_of-set_bit :
    (on : Bool) (k l b : ℕ)
    → k < 8
    → l < 8
    → b < 256
    → (bit_of (set_bit on (0x80 / 2 ^ k) b) l ≡ (if k == l then on else bit_of b l))
      × (set_bit on (0x80 / 2 ^ k) b < 256)
bit_of-set_bit on k l b hk hl hb =
    let (on_bit, off_bit) = both _ _ (right_byte-true k l b hk hl hb) in
    let chosen : right_bit on k l b ≡ true = choose on on_bit off_bit in
    let (bit, byte) = both _ _ chosen in (same-≡ _ _ bit, ltb→lt _ 256 byte)
  where
    choose :
        (on : Bool)
        → right_bit true k l b ≡ true
        → right_bit false k l b ≡ true
        → right_bit on k l b ≡ true
    choose true h g = h
    choose false h g = g

same_byte :
    (p q : ℕ) → 1 ≤ p → 1 ≤ q → (p - 1) / 8 ≡ (q - 1) / 8 → ((p - 1) % 8 == (q - 1) % 8) ≡ (p == q)
same_byte p q h g e = ground arith

other_byte : (p q : ℕ) → ((p - 1) / 8 == (q - 1) / 8) ≡ false → (p == q) ≡ false
other_byte p q e = elim (Bool-cases (p == q)) [
  | inl equal ↦ let e' = (==_iff p q).0 equal in ground (arith, e')
  | inr apart ↦ apart
]

byte_at-IsBytes : (buf : Buffer) (i : ℕ) → IsBytes buf → byte_at buf i < 256
byte_at-IsBytes [] i h = omega arith
byte_at-IsBytes (b ∷ buf) zero (h, hs) = h
byte_at-IsBytes (b ∷ buf) (suc i) (h, hs) = byte_at-IsBytes buf i hs

-- After a write, the port is in the bitmap exactly if it was switched on, and every other port is
-- exactly if it was before, also when the buffer had to grow.
pub bitmap_set-is_member :
    (buf : Buffer) (port other : ℕ) (on : Bool)
    → 1 ≤ port
    → 1 ≤ other
    → IsBytes buf
    → is_member (bitmap_set buf port on) other ≡ (if port == other then on else is_member buf other)
unfolding bitmap_set
bitmap_set-is_member buf port other on p q bytes =
    let i = (port - 1) / 8 in
    let j = (other - 1) / 8 in
    let k = (port - 1) % 8 in
    let l = (other - 1) % 8 in
    let n = larger (length buf) (i + 1) in
    let f = set_bit on (0x80 / 2 ^ k) in
    let fits : i < length (resize n buf) = rw (length-resize n buf) (ground arith) in
    let whole : length buf ≤ n = ground arith in
    let written = byte_at-update_at i j f (resize n buf) fits in
    let kept = byte_at-resize n buf j whole in
    elim (Bool-cases (i == j)) [
      | inl here ↦
          rw (written, kept, here, sym (same_byte port other p q ((==_iff i j).0 here)))
            (bit_of-set_bit on k l (byte_at buf j) (omega arith) (omega arith)
              (byte_at-IsBytes buf j bytes)).0
      | inr there ↦ rw (written, kept, there, other_byte port other there) refl
    ]
