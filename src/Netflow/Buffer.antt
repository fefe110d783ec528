-- ===== src/Netflow/Buffer.antt =====
-- Reads of a datagram (backend/src/services/netflow/decode.ts, ip4 and uint, and Node's Buffer).
-- A buffer is the list of its bytes.
pub mod Safe
use switchpilot.Prelude.{ℕ, zero, suc, ◌+◌, ◌*◌, ◌<◌, List, Option, none, some, get_elem?}

abbrev pub Bytes : Type 0
Bytes = List ℕ

abbrev pub IsByte : ℕ → Type 0
IsByte b = b < 256

infixl 5 ◌>>=◌
abbrev ◌>>=◌ {ℓ κ} : {A : Type ℓ} {B : Type κ} → Option A → (A → Option B) → Option B
none >>= f = none
some a >>= f = f a

-- `buf[off]`: `none` stands for `undefined`.
unfoldable pub byte : Bytes → ℕ → Option ℕ
byte buf off = get_elem? buf off

-- `readUInt16BE` and `readUInt32BE`: `none` stands for the RangeError.
unfoldable pub read_u16 : Bytes → ℕ → Option ℕ
unfolding byte
read_u16 buf off = do some ((← byte buf off) * 256 + (← byte buf (off + 1)))

unfoldable pub read_u32 : Bytes → ℕ → Option ℕ
unfolding read_u16
read_u32 buf off = do some ((← read_u16 buf off) * 65536 + (← read_u16 buf (off + 2)))

-- The text of `ip4`: its four parts, each a number or the word "undefined" (`none`).
pub record Ip : Type 0 where
  pub a : Option ℕ
  pub b : Option ℕ
  pub c : Option ℕ
  pub d : Option ℕ

unfoldable pub ip4 : Bytes → ℕ → Ip
unfolding byte
ip4 buf off = record {
  a = byte buf off;
  b = byte buf (off + 1);
  c = byte buf (off + 2);
  d = byte buf (off + 3);
}

-- `v * 256 + b`: `none` stands for NaN.
abbrev pub shift_in : Option ℕ → Option ℕ → Option ℕ
shift_in v b = do some ((← v) * 256 + (← b))

-- The loop of `uint`, with the rounds left and `off + i`.
unfoldable pub uint_loop : ℕ → Bytes → ℕ → Option ℕ → Option ℕ
unfolding byte
uint_loop zero buf off v = v
uint_loop (suc n) buf off v = uint_loop n buf (off + 1) (shift_in v (byte buf off))

unfoldable pub uint : Bytes → ℕ → ℕ → Option ℕ
unfolding uint_loop
uint buf off len = uint_loop len buf off (some 0)
