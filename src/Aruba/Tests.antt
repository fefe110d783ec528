-- ===== src/Aruba/Tests.antt =====
-- Writes on small bitmaps, and the theorems at inputs that meet their hypotheses.
use switchpilot.Prelude.{◌≡◌, refl, true, false, [], ◌∷◌, some, get_elem?, arith}
use switchpilot.Aruba.{Vlan, bitmap_set, resize, update_at, set_trunk, to_buffer, should_be_member}
use switchpilot.Aruba.Bits.{is_member, bitmap_set-is_member}
use switchpilot.Aruba.Trunk.{IsWritten, set_trunk-IsWritten}

-- Port 9 is the first bit of the second byte.
grown : bitmap_set (0x80 ∷ []) 9 true ≡ 0x80 ∷ 0x80 ∷ []
unfolding bitmap_set resize update_at
grown = refl

bitmap_set-is_member_example :
    is_member (bitmap_set (0x81 ∷ []) 8 false) 1 ≡ is_member (0x81 ∷ []) 1
bitmap_set-is_member_example =
    bitmap_set-is_member (0x81 ∷ []) 8 1 false (omega arith) (omega arith) (omega arith, tt)

abbrev office : Vlan
office = record { id = 10; egress = some (0x80 ∷ []); untagged = some (0x80 ∷ []) }

set_trunk-IsWritten_example :
    (after : Vlan) × (get_elem? (set_trunk (20 ∷ []) 1 (office ∷ [])) 0 ≡ some after)
    × IsWritten (should_be_member (20 ∷ []) 10) false 1 2 office after
unfolding to_buffer
set_trunk-IsWritten_example =
    set_trunk-IsWritten (20 ∷ []) 1 2 0 (office ∷ []) office (omega arith) (omega arith)
      (omega arith) refl (omega arith, tt) (omega arith, tt)
