-- ===== src/Aruba.antt =====
-- VLAN membership of ports on Aruba switches (backend/src/aruba/write.ts). A buffer is a list of
-- bytes; the switch is the table of its VLANs with their bitmaps.
pub mod Bits
pub mod Trunk
mod Tests
use Prim.Native.Nat.{bit_and, bit_or, bit_xor}
use switchpilot.Prelude.{
  ℕ, zero, suc, ◌+◌, ◌-◌, ◌/◌, ◌%◌, ◌^◌, Bool, true, false, not, ◌&&◌, ◌||◌, List, [], ◌∷◌, map,
  Option, none, some, ltb, ◌==◌, length, if◌then◌else◌,
}

abbrev pub Buffer : Type 0
Buffer = List ℕ

pub record PortBit : Type 0 where
  pub byte_idx : ℕ
  pub mask : ℕ

-- portBit, of a port from 1 on; `0x80 >> n` is the quotient by `2 ^ n`.
abbrev pub port_bit : ℕ → PortBit
port_bit bridge_port = record {
  byte_idx = (bridge_port - 1) / 8;
  mask = 0x80 / 2 ^ ((bridge_port - 1) % 8);
}

-- `Buffer.alloc(n)` with a copy of the buffer.
unfoldable pub resize : ℕ → Buffer → Buffer
resize zero buf = []
resize (suc n) [] = 0 ∷ resize n []
resize (suc n) (b ∷ buf) = b ∷ resize n buf

unfoldable pub update_at : ℕ → (ℕ → ℕ) → Buffer → Buffer
update_at i f [] = []
update_at zero f (b ∷ buf) = f b ∷ buf
update_at (suc i) f (b ∷ buf) = b ∷ update_at i f buf

-- `|= mask` and `&= ~mask` on a byte.
abbrev pub set_bit : Bool → ℕ → ℕ → ℕ
set_bit on mask b = if on then bit_or b mask else bit_and b (bit_xor mask 0xff)

-- `Math.max`
abbrev pub larger : ℕ → ℕ → ℕ
larger m n = if ltb m n then n else m

-- bitmapSet
unfoldable pub bitmap_set : Buffer → ℕ → Bool → Buffer
unfolding resize update_at
bitmap_set buf bridge_port on =
    let bit = port_bit bridge_port in
    update_at bit.byte_idx (set_bit on bit.mask)
      (resize (larger (length buf) (bit.byte_idx + 1)) buf)

-- What the switch answers for the two bitmaps of a VLAN, if it answers.
pub record Vlan : Type 0 where
  pub id : ℕ
  pub egress : Option Buffer
  pub untagged : Option Buffer

-- `toBuffer`, with 64 ports of zeros as the fallback.
unfoldable pub to_buffer : Option Buffer → Buffer
unfolding resize
to_buffer none = resize 8 []
to_buffer (some buf) = buf

-- setVlanBitmapPort: both bitmaps in one SET.
unfoldable pub set_vlan_bitmap_port : ℕ → Bool → Bool → Vlan → Vlan
unfolding to_buffer bitmap_set
set_vlan_bitmap_port bridge_port member tagged vlan = record vlan {
  egress = some (bitmap_set (to_buffer vlan.egress) bridge_port member);
  untagged = some (bitmap_set (to_buffer vlan.untagged) bridge_port (member && not tagged));
}

unfoldable pub includes_vlan : List ℕ → ℕ → Bool
includes_vlan [] id = false
includes_vlan (v ∷ allowed) id = v == id || includes_vlan allowed id

-- `allowed.length === 0 || allowed.includes(id)`
abbrev pub should_be_member : List ℕ → ℕ → Bool
should_be_member allowed id = length allowed == 0 || includes_vlan allowed id

-- The loop of arubaPortConfig over the VLANs of the switch, in trunk mode.
unfoldable pub set_trunk : List ℕ → ℕ → List Vlan → List Vlan
unfolding set_vlan_bitmap_port includes_vlan
set_trunk allowed bridge_port [] = []
set_trunk allowed bridge_port (vlan ∷ vlans) =
    set_vlan_bitmap_port bridge_port (should_be_member allowed vlan.id) true vlan
    ∷ set_trunk allowed bridge_port vlans
