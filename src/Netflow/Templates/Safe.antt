-- ===== src/Netflow/Templates/Safe.antt =====
-- A template set that lies within the datagram is read without a throw and in bounded rounds, and
-- writes the cache only under the keys of its exporter.
use switchpilot.Prelude.{ℕ, zero, suc, ◌+◌, ◌≤◌, ◌<◌, String, length, leb→le, arith}
use switchpilot.Netflow.Action.{Returns, Returns-pure, Returns-read, Returns-if, Returns-bind}
use switchpilot.Netflow.Buffer.{Bytes}
use switchpilot.Netflow.Buffer.Safe.{read_u16_some}
use switchpilot.Netflow.Flow.{Template, TemplateCache, M, put}
use switchpilot.Netflow.Templates.{
  v9_fields, after_field, ipfix_fields, templates_loop, template_set_v9, template_set_ipfix,
}

-- The new offset is at least the old one and at most 4 past the end.
abbrev Lands : ℕ → ℕ → Template × ℕ → Type 0
Lands p end r = (p ≤ r.1) × (r.1 ≤ end + 4)

after_field_bounds : (raw p : ℕ) → (p + 4 ≤ after_field raw p) × (after_field raw p ≤ p + 8)
unfolding after_field
after_field_bounds raw p = ground arith

module _ (I : TemplateCache → Type 0) (buf : Bytes) (end : ℕ) (fits : end ≤ length buf) where
  v9_fields-Returns :
      (rounds p : ℕ) → p ≤ end + 4 → Returns I (Lands p end) (v9_fields rounds buf end p)
  unfolding v9_fields
  v9_fields-Returns zero p low = Returns-pure _ (omega arith, low)
  v9_fields-Returns (suc rounds) p low =
      Returns-if _ _ _
        (λ more.
          let room : p + 4 ≤ end = leb→le _ _ more in
          Returns-bind (λ v. Unit {0}) _ _
            (Returns-read _ (read_u16_some buf p (omega arith)) (λ v _. tt))
            (λ type _.
              Returns-bind (λ v. Unit {0}) _ _
                (Returns-read _ (read_u16_some buf (p + 2) (omega arith)) (λ v _. tt))
                (λ len _.
                  Returns-bind (Lands (p + 4) end) _ _
                    (v9_fields-Returns rounds (p + 4) (omega arith))
                    (λ r lands. Returns-pure _ (omega (arith, lands.0), lands.1)))))
        (λ stop. Returns-pure _ (omega arith, low))

  ipfix_fields-Returns :
      (rounds p : ℕ) → p ≤ end + 4 → Returns I (Lands p end) (ipfix_fields rounds buf end p)
  unfolding ipfix_fields
  ipfix_fields-Returns zero p low = Returns-pure _ (omega arith, low)
  ipfix_fields-Returns (suc rounds) p low =
      Returns-if _ _ _
        (λ more.
          let room : p + 4 ≤ end = leb→le _ _ more in
          Returns-bind (λ v. Unit {0}) _ _
            (Returns-read _ (read_u16_some buf p (omega arith)) (λ v _. tt))
            (λ raw _.
              Returns-bind (λ v. Unit {0}) _ _
                (Returns-read _ (read_u16_some buf (p + 2) (omega arith)) (λ v _. tt))
                (λ len _.
                  Returns-bind (Lands (after_field raw p) end) _ _
                    (ipfix_fields-Returns rounds (after_field raw p)
                      (omega (arith, after_field_bounds raw p)))
                    (λ r lands.
                      Returns-pure _ (omega (arith, lands.0, after_field_bounds raw p), lands.1)))))
        (λ stop. Returns-pure _ (omega arith, low))

-- Every template of one exporter and source may be written with `I` kept.
abbrev pub Writable : (TemplateCache → Type 0) → String → ℕ → Type 0
Writable I exporter source =
    (id : ℕ) (t : Template) (m : TemplateCache)
    → I m
    → I (put (record { exporter = exporter; source = source; template = id }) t m)

module _ (I : TemplateCache → Type 0) (buf : Bytes) (exporter : String) (source end : ℕ)
    (writable : Writable I exporter source) (fits : end ≤ length buf) where
  templates_loop-Returns :
      (read_template : ℕ → Bytes → ℕ → ℕ → M (Template × ℕ))
      → ((count q : ℕ) → q ≤ end + 4 → Returns I (Lands q end) (read_template count buf end q))
      → (fuel p : ℕ) → p ≤ end + 4
      → end + 4 < p + fuel
      → Returns I (λ done. Unit {0}) (templates_loop read_template fuel buf exporter source end p)
  unfolding templates_loop
  templates_loop-Returns read_template fields zero p low enough = absurd (omega arith)
  templates_loop-Returns read_template fields (suc fuel) p low enough =
      Returns-if _ _ _
        (λ more.
          let room : p + 4 ≤ end = leb→le _ _ more in
          Returns-bind (λ v. Unit {0}) _ _
            (Returns-read _ (read_u16_some buf p (omega arith)) (λ v _. tt))
            (λ id _.
              Returns-bind (λ v. Unit {0}) _ _
                (Returns-read _ (read_u16_some buf (p + 2) (omega arith)) (λ v _. tt))
                (λ count _.
                  Returns-bind (Lands (p + 4) end) _ _ (fields count (p + 4) (omega arith))
                    (λ r lands.
                      Returns-bind (λ v. Unit {0}) _ _
                        (record { at = λ m i. (tt, writable id r.0 m i) })
                        (λ v _.
                          templates_loop-Returns read_template fields fuel r.1 lands.1
                            (omega (arith, lands.0)))))))
        (λ stop. Returns-pure _ tt)

  pub template_set_v9-Returns :
      (p : ℕ)
      → 4 ≤ p
      → p ≤ end + 4
      → Returns I (λ done. Unit {0}) (template_set_v9 buf exporter source end p)
  unfolding template_set_v9
  template_set_v9-Returns p late low =
      templates_loop-Returns v9_fields (v9_fields-Returns I buf end fits) (suc (length buf)) p low
        (omega arith)

  pub template_set_ipfix-Returns :
      (p : ℕ)
      → 4 ≤ p
      → p ≤ end + 4
      → Returns I (λ done. Unit {0}) (template_set_ipfix buf exporter source end p)
  unfolding template_set_ipfix
  template_set_ipfix-Returns p late low =
      templates_loop-Returns ipfix_fields (ipfix_fields-Returns I buf end fits) (suc (length buf)) p
        low (omega arith)
