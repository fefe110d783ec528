-- ===== src/Netflow/Records.antt =====
-- Data records by template (backend/src/services/netflow/decode.ts, readV9Record and the data loop
-- that decodeV9 and decodeIpfix share).
pub mod Safe
use switchpilot.Prelude.{
  ℕ, zero, suc, ◌+◌, List, [], ◌∷◌, none, some, length, leb, ltb, ◌==◌, if◌then◌else◌,
}
use switchpilot.Netflow.Action.{pure, out_of_fuel, ◌>>=◌}
use switchpilot.Netflow.Buffer.{Bytes, ip4, uint}
use switchpilot.Netflow.Flow.{Flow, Field, Template, M}

-- readV9Record: one round of its loop, at offset `o`.
unfoldable pub read_field : Bytes → ℕ → Field → Flow → Flow
read_field buf o field fl =
    if field.type == 8
    then record fl { src_ip = some (ip4 buf o) }
    else if field.type == 12
    then record fl { dst_ip = some (ip4 buf o) }
    else if field.type == 7
    then record fl { src_port = uint buf o field.len }
    else if field.type == 11
    then record fl { dst_port = uint buf o field.len }
    else if field.type == 4
    then record fl { protocol = uint buf o field.len }
    else if field.type == 1
    then record fl { bytes = uint buf o field.len }
    else if field.type == 2
    then record fl { packets = uint buf o field.len }
    else fl

read_fields : Bytes → ℕ → Template → Flow → Flow
read_fields buf o [] fl = fl
read_fields buf o (field ∷ tmpl) fl =
    read_fields buf (o + field.len) tmpl (read_field buf o field fl)

abbrev blank : Flow
blank = record {
  src_ip = none;
  dst_ip = none;
  src_port = some 0;
  dst_port = some 0;
  protocol = some 0;
  bytes = some 0;
  packets = some 0;
}

unfoldable pub read_v9_record : Bytes → ℕ → Template → Flow
unfolding read_fields read_field
read_v9_record buf start tmpl = read_fields buf start tmpl blank

unfoldable pub rec_len : Template → ℕ
rec_len [] = 0
rec_len (field ∷ tmpl) = field.len + rec_len tmpl

-- The data loop: `for (p = off + 4; p + recLen <= end; p += recLen)`.
data_loop : ℕ → Bytes → Template → ℕ → ℕ → M (List Flow)
data_loop zero buf tmpl end p = out_of_fuel
data_loop (suc fuel) buf tmpl end p =
    let round = (do
      rest ← data_loop fuel buf tmpl end (p + rec_len tmpl)
      pure (read_v9_record buf p tmpl ∷ rest)) in
    if leb (p + rec_len tmpl) end then round else pure []

unfoldable pub data_set : Bytes → Template → ℕ → ℕ → M (List Flow)
unfolding data_loop
data_set buf tmpl off end =
    if ltb 0 (rec_len tmpl) then data_loop (suc (length buf)) buf tmpl end (off + 4) else pure []
