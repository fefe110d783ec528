-- ===== src/Aruba/Trunk.antt =====
-- What a trunk configuration leaves on the switch, VLAN by VLAN.
use mathlib.Core.Bool.{and-false}
use switchpilot.Prelude.{
  ℕ, zero, suc, ◌≤◌, ◌≡◌, ◌≢◌, refl, ◌∙◌, Bool, true, false, not, ◌&&◌, List, [], ◌∷◌, some,
  get_elem?, ◌==◌, ==_iff, arith,
}
use switchpilot.Aruba.{Vlan, to_buffer, set_vlan_bitmap_port, should_be_member, set_trunk}
use switchpilot.Aruba.Bits.{is_member, IsBytes, bitmap_set-is_member}

-- The port is in exactly the bitmaps that it should be in, and the other port where it was.
abbrev pub IsWritten : Bool → Bool → ℕ → ℕ → Vlan → Vlan → Type 0
IsWritten egress untagged port other vlan after =
    (after.id ≡ vlan.id)
    × (is_member (to_buffer after.egress) port ≡ egress)
    × (is_member (to_buffer after.untagged) port ≡ untagged)
    × (is_member (to_buffer after.egress) other ≡ is_member (to_buffer vlan.egress) other)
    × (is_member (to_buffer after.untagged) other ≡ is_member (to_buffer vlan.untagged) other)

set_vlan_bitmap_port-IsWritten :
    (port other : ℕ) (member tagged : Bool) (vlan : Vlan)
    → 1 ≤ port
    → 1 ≤ other
    → port ≢ other
    → IsBytes (to_buffer vlan.egress)
    → IsBytes (to_buffer vlan.untagged)
    → IsWritten member
        (member && not tagged)
        port
        other
        vlan
        (set_vlan_bitmap_port port member tagged vlan)
unfolding set_vlan_bitmap_port to_buffer
set_vlan_bitmap_port-IsWritten port other member tagged vlan p q apart egress untagged =
    let this : port == port ≡ true = ground arith in
    let that : port == other ≡ false = ground (arith, ==_iff port other, apart) in
    (
      refl,
      bitmap_set-is_member _ port port member p p egress ∙ rw this refl,
      bitmap_set-is_member _ port port (member && not tagged) p p untagged ∙ rw this refl,
      bitmap_set-is_member _ port other member p q egress ∙ rw that refl,
      bitmap_set-is_member _ port other (member && not tagged) p q untagged ∙ rw that refl,
    )

-- After a trunk configuration, each VLAN of the switch has the port as a tagged member exactly if
-- the list of allowed VLANs is empty or names it, never as an untagged one, and has every other
-- port as before.
pub set_trunk-IsWritten :
    (allowed : List ℕ) (port other i : ℕ) (vlans : List Vlan) (vlan : Vlan)
    → 1 ≤ port
    → 1 ≤ other
    → port ≢ other
    → get_elem? vlans i ≡ some vlan
    → IsBytes (to_buffer vlan.egress)
    → IsBytes (to_buffer vlan.untagged)
    → (after : Vlan) × (get_elem? (set_trunk allowed port vlans) i ≡ some after)
      × IsWritten (should_be_member allowed vlan.id) false port other vlan after
unfolding set_trunk
set_trunk-IsWritten allowed port other i [] vlan p q apart e egress untagged = cc
set_trunk-IsWritten allowed port other zero (v ∷ vlans) vlan p q apart e egress untagged =
    let same : v ≡ vlan = cc in
    let member = should_be_member allowed vlan.id in
    let set =
      set_vlan_bitmap_port-IsWritten port other member true vlan p q apart egress untagged in
    (
      set_vlan_bitmap_port port member true vlan,
      rw same refl,
      (set.0, set.1, set.2 ∙ and-false member, set.3, set.4),
    )
set_trunk-IsWritten allowed port other (suc i) (v ∷ vlans) vlan p q apart e egress untagged =
    set_trunk-IsWritten allowed port other i vlans vlan p q apart e egress untagged
