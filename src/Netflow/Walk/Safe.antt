-- ===== src/Netflow/Walk/Safe.antt =====
-- A v9 or IPFIX datagram that has its header is read without a throw and in bounded rounds. Every
-- number of its flows is a number, and the cache changes only under the keys of its exporter.
use switchpilot.Prelude.{
  ◌==◌, [], ◌∷◌, keep, inl, inr, Bool-cases, ℕ, zero, suc, ◌+◌, ◌≤◌, ◌<◌, ◌≡◌, true, false, String,
  Option, none, some, length, List, All, All-append, ◌||◌, ltb, leb, leb→le, arith,
}
use switchpilot.Netflow.Action.{Returns, Returns-pure, Returns-read, Returns-if, Returns-bind}
use switchpilot.Netflow.Buffer.{Bytes}
use switchpilot.Netflow.Buffer.Safe.{read_u16_some, read_u32_some}
use switchpilot.Netflow.Flow.{Flow, Key, Template, TemplateCache, get_template}
use switchpilot.Netflow.Records.Safe.{IsNumeric, data_set-Returns}
use switchpilot.Netflow.Templates.Safe.{
  Writable, template_set_v9-Returns, template_set_ipfix-Returns,
}
use switchpilot.Netflow.Walk.{
  SetReader, data_of, v9_set, fixed_data_of, ipfix_set, walk, has_ips, decode_v9, decode_ipfix,
}

-- What a decoded flow has: numbers only, and both addresses.
pub record IsComplete (fl : Flow) : Type 0 where
  pub numeric : IsNumeric fl
  pub addressed : has_ips fl ≡ true

-- The test of the outer loop holds the set within the datagram.
in_datagram : (len end size : ℕ) → (ltb len 4 || ltb size end) ≡ false → (4 ≤ len) × (end ≤ size)
in_datagram len end size h = ground arith

module _ (I : TemplateCache → Type 0) (buf : Bytes) where
  -- A set reader that returns on every set that lies within the datagram.
  abbrev IsSetReader : SetReader → Type 0
  IsSetReader read_set =
      (id off end : ℕ)
      → 4 ≤ off
      → off + 4 ≤ end
      → end ≤ length buf
      → Returns I (All IsNumeric) (read_set id off end)

  walk-Returns :
      (read_set : SetReader)
      → IsSetReader read_set
      → (fuel off : ℕ) → 4 ≤ off
      → off ≤ length buf
      → length buf < off + fuel
      → Returns I (All IsNumeric) (walk read_set fuel buf off)
  unfolding walk
  walk-Returns read_set reads zero off late low enough = absurd (omega arith)
  walk-Returns read_set reads (suc fuel) off late low enough =
      Returns-if _ _ _
        (λ more.
          let room : off + 4 ≤ length buf = leb→le _ _ more in
          Returns-bind (λ v. Unit {0}) _ _
            (Returns-read _ (read_u16_some buf off (omega arith)) (λ v _. tt))
            (λ id _.
              Returns-bind (λ v. Unit {0}) _ _
                (Returns-read _ (read_u16_some buf (off + 2) (omega arith)) (λ v _. tt))
                (λ len _.
                  Returns-if _ _ _ (λ stop. Returns-pure _ tt)
                    (λ go.
                      let inside : (4 ≤ len) × (off + len ≤ length buf) = in_datagram _ _ _ go in
                      Returns-bind (All IsNumeric) _ _
                        (reads id off (off + len) late (omega arith) inside.1)
                        (λ here numeric.
                          Returns-bind (All IsNumeric) _ _
                            (walk-Returns read_set reads fuel (off + len) (omega arith) inside.1
                              (omega arith))
                            (λ rest later.
                              Returns-pure _ (All-append IsNumeric here rest numeric later)))))))
        (λ stop. Returns-pure _ tt)

  get_template-Returns : (k : Key) → Returns I (λ v. Unit {0}) (get_template k)
  get_template-Returns k = record { at = λ m i. (tt, i) }

  data_of-Returns :
      (off end : ℕ) (tmpl : Option Template)
      → end ≤ length buf
      → off + 4 ≤ end
      → Returns I (All IsNumeric) (data_of buf off end tmpl)
  data_of-Returns off end none fits start = Returns-pure _ tt
  data_of-Returns off end (some tmpl) fits start = data_set-Returns I buf tmpl end off fits start

  fixed_data_of-Returns :
      (off end : ℕ) (tmpl : Option Template)
      → end ≤ length buf
      → off + 4 ≤ end
      → Returns I (All IsNumeric) (fixed_data_of buf off end tmpl)
  fixed_data_of-Returns off end none fits start = Returns-pure _ tt
  fixed_data_of-Returns off end (some tmpl) fits start =
      Returns-if _ _ _ (λ variable. Returns-pure _ tt)
        (λ fixed. data_set-Returns I buf tmpl end off fits start)

  module _ (exporter : String) (source : ℕ) (writable : Writable I exporter source) where
    v9_set-Returns : IsSetReader (v9_set buf exporter source)
    unfolding v9_set
    v9_set-Returns id off end late start fits =
        Returns-if (id == 0) _ _
          (λ is_template.
            Returns-bind (λ v. Unit {0}) _ _
              (template_set_v9-Returns I buf exporter source end writable fits (off + 4)
                (omega arith) (omega arith))
              (λ v _. Returns-pure _ tt))
          (λ other.
            Returns-if (id == 1) _ _ (λ options. Returns-pure _ tt)
              (λ is_data.
                Returns-bind (λ v. Unit {0}) _ _ (get_template-Returns _)
                  (λ tmpl _. data_of-Returns off end tmpl fits start)))

    ipfix_set-Returns : IsSetReader (ipfix_set buf exporter source)
    unfolding ipfix_set
    ipfix_set-Returns id off end late start fits =
        Returns-if (id == 2) _ _
          (λ is_template.
            Returns-bind (λ v. Unit {0}) _ _
              (template_set_ipfix-Returns I buf exporter source end writable fits (off + 4)
                (omega arith) (omega arith))
              (λ v _. Returns-pure _ tt))
          (λ other.
            Returns-if (leb 256 id) _ _
              (λ is_data.
                Returns-bind (λ v. Unit {0}) _ _ (get_template-Returns _)
                  (λ tmpl _. fixed_data_of-Returns off end tmpl fits start))
              (λ ignored. Returns-pure _ tt))

keep-IsComplete : (flows : List Flow) → All IsNumeric flows → All IsComplete (keep has_ips flows)
keep-IsComplete [] h = tt
keep-IsComplete (fl ∷ flows) (h, hs) =
    let later = keep-IsComplete flows hs in
    elim (Bool-cases (has_ips fl)) [
      | inl both ↦ rw both (record { numeric = h; addressed = both }, later)
      | inr not_both ↦ rw not_both later
    ]

module _ (I : TemplateCache → Type 0) (buf : Bytes) (exporter : String)
    (writable : (source : ℕ) → Writable I exporter source) where
  pub decode_v9-Returns : 20 ≤ length buf → Returns I (All IsComplete) (decode_v9 buf exporter)
  unfolding decode_v9
  decode_v9-Returns header =
      Returns-bind (λ v. Unit {0}) _ _
        (Returns-read _ (read_u32_some buf 16 (omega arith)) (λ v _. tt))
        (λ source _.
          Returns-bind (All IsNumeric) _ _
            (walk-Returns I buf (v9_set buf exporter source)
              (v9_set-Returns I buf exporter source (writable source)) (suc (length buf)) 20
              (omega arith) header (omega arith))
            (λ flows numeric. Returns-pure _ (keep-IsComplete flows numeric)))

  pub decode_ipfix-Returns :
      16 ≤ length buf → Returns I (All IsComplete) (decode_ipfix buf exporter)
  unfolding decode_ipfix
  decode_ipfix-Returns header =
      Returns-bind (λ v. Unit {0}) _ _
        (Returns-read _ (read_u32_some buf 12 (omega arith)) (λ v _. tt))
        (λ domain _.
          Returns-bind (All IsNumeric) _ _
            (walk-Returns I buf (ipfix_set buf exporter domain)
              (ipfix_set-Returns I buf exporter domain (writable domain)) (suc (length buf)) 16
              (omega arith) header (omega arith))
            (λ flows numeric. Returns-pure _ (keep-IsComplete flows numeric)))
