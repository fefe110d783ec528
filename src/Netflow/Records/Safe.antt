-- ===== src/Netflow/Records/Safe.antt =====
-- A data set that lies within the datagram is read without a throw and in bounded rounds, and
-- every number of its flows is a number.
use switchpilot.Prelude.{
  ℕ, zero, suc, ◌+◌, ◌≤◌, ◌<◌, ◌≡◌, refl, true, [], ◌∷◌, some, length, is_some, All, get_elem?-some,
  leb→le, ltb→lt, arith,
}
use switchpilot.Netflow.Action.{Returns, Returns-pure, Returns-if, Returns-bind}
use switchpilot.Netflow.Buffer.{Bytes, byte, uint, uint_loop}
use switchpilot.Netflow.Flow.{Flow, Field, Template, TemplateCache}
use switchpilot.Netflow.Records.{
  read_field, read_fields, blank, read_v9_record, rec_len, data_loop, data_set,
}

-- No counter or port of the flow is NaN or `undefined`.
pub record IsNumeric (fl : Flow) : Type 0 where
  pub src_port : is_some fl.src_port ≡ true
  pub dst_port : is_some fl.dst_port ≡ true
  pub protocol : is_some fl.protocol ≡ true
  pub bytes : is_some fl.bytes ≡ true
  pub packets : is_some fl.packets ≡ true

uint_loop-some :
    (n : ℕ) (buf : Bytes) (off v : ℕ)
    → off + n ≤ length buf
    → is_some (uint_loop n buf off (some v)) ≡ true
unfolding uint_loop byte
uint_loop-some zero buf off v h = refl
uint_loop-some (suc n) buf off v h =
    let (b, e) = get_elem?-some buf off (omega arith) in
    rw e (uint_loop-some n buf (off + 1) _ (omega arith))

uint_some : (buf : Bytes) (off len : ℕ) → off + len ≤ length buf → is_some (uint buf off len) ≡ true
unfolding uint
uint_some buf off len h = uint_loop-some len buf off 0 h

read_field-IsNumeric :
    (buf : Bytes) (o : ℕ) (field : Field) (fl : Flow)
    → o + field.len ≤ length buf
    → IsNumeric fl
    → IsNumeric (read_field buf o field fl)
unfolding read_field
read_field-IsNumeric buf o field fl h v = ground (arith, uint_some buf o field.len h)

read_fields-IsNumeric :
    (buf : Bytes) (o : ℕ) (tmpl : Template) (fl : Flow)
    → o + rec_len tmpl ≤ length buf
    → IsNumeric fl
    → IsNumeric (read_fields buf o tmpl fl)
unfolding read_fields rec_len
read_fields-IsNumeric buf o [] fl h v = v
read_fields-IsNumeric buf o (field ∷ tmpl) fl h v =
    read_fields-IsNumeric buf (o + field.len) tmpl _ (omega arith)
      (read_field-IsNumeric buf o field fl (omega arith) v)

-- A record that lies within the datagram has numbers only.
pub read_v9_record-IsNumeric :
    (buf : Bytes) (start : ℕ) (tmpl : Template)
    → start + rec_len tmpl ≤ length buf
    → IsNumeric (read_v9_record buf start tmpl)
unfolding read_v9_record
read_v9_record-IsNumeric buf start tmpl h =
    read_fields-IsNumeric buf start tmpl blank h
      (record { src_port = refl; dst_port = refl; protocol = refl; bytes = refl; packets = refl })

module _ (I : TemplateCache → Type 0) (buf : Bytes) (tmpl : Template) (end : ℕ) where
  data_loop-Returns :
      (fuel p : ℕ)
      → 0 < rec_len tmpl
      → end ≤ length buf
      → p ≤ end
      → end < p + fuel
      → Returns I (All IsNumeric) (data_loop fuel buf tmpl end p)
  unfolding data_loop
  data_loop-Returns zero p pos fits start enough = absurd (omega arith)
  data_loop-Returns (suc fuel) p pos fits start enough =
      Returns-if _ _ _
        (λ more.
          let room : p + rec_len tmpl ≤ end = leb→le _ _ more in
          Returns-bind (All IsNumeric) _ _
            (data_loop-Returns fuel (p + rec_len tmpl) pos fits room (omega arith))
            (λ rest numeric.
              Returns-pure _ (read_v9_record-IsNumeric buf p tmpl (omega arith), numeric)))
        (λ stop. Returns-pure _ tt)

  pub data_set-Returns :
      (off : ℕ)
      → end ≤ length buf
      → off + 4 ≤ end
      → Returns I (All IsNumeric) (data_set buf tmpl off end)
  unfolding data_set
  data_set-Returns off fits start =
      Returns-if _ _ _
        (λ pos.
          data_loop-Returns (suc (length buf)) (off + 4) (ltb→lt _ _ pos) fits start (omega arith))
        (λ empty. Returns-pure _ tt)
