-- ===== src/Events/Trap/Versions.antt =====
-- That a trap of SNMPv1 and its counterpart of SNMPv2 are handled alike.
use switchpilot.Prelude.{
  ℕ, ◌≡◌, refl, ap, sym, ◌∙◌, inl, inr, String, false, List, [], ◌∷◌, ◌++◌, Option, none, some, All,
  Bool-cases, str_eq,
}
use switchpilot.Util.Text.{has_prefix}
use switchpilot.Alerts.{Window}
use switchpilot.Events.Trap.{
  Varbind, ParsedTrap, TrapState, snmp_trap_oid, ifindex_prefix, ifdescr_prefix, read_varbind,
  read_varbinds, generic_oid, with_generic, parse_trap, classify_trap, handle_decision, handle_trap,
}

-- A varbind that does not name the trap.
abbrev pub IsDetail : Varbind → Type 0
IsDetail vb = str_eq vb.oid snmp_trap_oid ≡ false

read_varbind-with_oid :
    (vb : Varbind) (t : ParsedTrap) (o : Option String)
    → IsDetail vb
    → read_varbind vb (record t { trap_oid = o }) ≡ record (read_varbind vb t) { trap_oid = o }
unfolding read_varbind
read_varbind-with_oid vb t o h = elim (Bool-cases (has_prefix ifindex_prefix vb.oid)) [
  | inl index ↦ rw (h, index) refl
  | inr other ↦ elim (Bool-cases (has_prefix ifdescr_prefix vb.oid)) [
    | inl descr ↦ rw (h, other, descr) refl
    | inr none_of ↦ rw (h, other, none_of) refl
  ]
]

-- Details commute with the name of the trap.
read_varbinds-with_oid :
    (vbs : List Varbind) (t : ParsedTrap) (o : Option String)
    → All IsDetail vbs
    → read_varbinds vbs (record t { trap_oid = o }) ≡ record (read_varbinds vbs t) { trap_oid = o }
unfolding read_varbinds
read_varbinds-with_oid [] t o h = refl
read_varbinds-with_oid (vb ∷ vbs) t o (h, hs) =
    ap (read_varbinds vbs) (read_varbind-with_oid vb t o h)
    ∙ read_varbinds-with_oid vbs (read_varbind vb t) o hs

read_varbinds-append :
    (xs ys : List Varbind) (t : ParsedTrap)
    → read_varbinds (xs ++ ys) t ≡ read_varbinds ys (read_varbinds xs t)
unfolding read_varbinds
read_varbinds-append [] ys t = refl
read_varbinds-append (x ∷ xs) ys t = read_varbinds-append xs ys (read_varbind x t)

abbrev blank : ParsedTrap
blank = record { trap_oid = none; if_index = none; if_descr = none }

parse_trap-versions :
    (g : ℕ) (before after : List Varbind)
    → All IsDetail before
    → All IsDetail after
    → parse_trap (record { generic = some g; varbinds = before ++ after })
      ≡ parse_trap (record {
        generic = none;
        varbinds = before ++ record { oid = snmp_trap_oid; value = generic_oid g } ∷ after;
      })
unfolding parse_trap read_varbinds read_varbind
parse_trap-versions g before after hb ha =
    let named : Varbind = record { oid = snmp_trap_oid; value = generic_oid g } in
    let first = read_varbinds before blank in
    let v2 : read_varbinds (before ++ named ∷ after) blank
        ≡ record (read_varbinds after first) { trap_oid = some (generic_oid g) } =
      read_varbinds-append before (named ∷ after) blank
      ∙ read_varbinds-with_oid after first (some (generic_oid g)) ha in
    let unnamed : read_varbinds (before ++ after) blank
        ≡ record (read_varbinds after first) { trap_oid = none } =
      read_varbinds-append before after blank
      ∙ ap (read_varbinds after) (read_varbinds-with_oid before blank none hb)
      ∙ read_varbinds-with_oid after first none ha in
    ap (with_generic (some g)) unnamed ∙ sym v2

-- A trap of SNMPv1 with a generic code has the effect on the alerts and the cache that the trap of
-- SNMPv2 has which names the well-known notification of that code, wherever among the other
-- varbinds its name stands.
pub handle_trap-versions :
    (windows : List Window) (lookup : String → Option String) (now : ℕ) (ip : String) (g : ℕ)
    (before after : List Varbind) (s : TrapState)
    → All IsDetail before
    → All IsDetail after
    → handle_trap windows lookup now ip (record { generic = some g; varbinds = before ++ after }) s
      ≡ handle_trap windows lookup now ip
          (record {
            generic = none;
            varbinds = before ++ record { oid = snmp_trap_oid; value = generic_oid g } ∷ after;
          })
          s
unfolding handle_trap
handle_trap-versions windows lookup now ip g before after s hb ha =
    ap (λ (t : ParsedTrap). handle_decision windows lookup now ip (classify_trap t) s)
      (parse_trap-versions g before after hb ha)
