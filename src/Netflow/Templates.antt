-- ===== src/Netflow/Templates.antt =====
-- Template sets (backend/src/services/netflow/decode.ts, decodeV9 and decodeIpfix).
pub mod Safe
use switchpilot.Prelude.{ℕ, zero, suc, ◌+◌, ◌%◌, String, [], ◌∷◌, length, leb, if◌then◌else◌}
use switchpilot.Netflow.Action.{pure, lift, out_of_fuel, ◌>>=◌, ◌>>◌}
use switchpilot.Netflow.Buffer.{Bytes, read_u16}
use switchpilot.Netflow.Flow.{Template, M, set_template}

-- The loop over the fields of a template, with the rounds left; the result has the new `p`.
v9_fields : ℕ → Bytes → ℕ → ℕ → M (Template × ℕ)
v9_fields zero buf end p = pure ([], p)
v9_fields (suc rounds) buf end p =
    let round = (do
      type ← lift (read_u16 buf p)
      len ← lift (read_u16 buf (p + 2))
      (fields, q) ← v9_fields rounds buf end (p + 4)
      pure (record { type = type; len = len } ∷ fields, q)) in
    if leb (p + 4) end then round else pure ([], p)

-- An enterprise field has four more bytes, its PEN.
unfoldable pub after_field : ℕ → ℕ → ℕ
after_field raw p = if leb 32768 raw then p + 8 else p + 4

ipfix_fields : ℕ → Bytes → ℕ → ℕ → M (Template × ℕ)
ipfix_fields zero buf end p = pure ([], p)
ipfix_fields (suc rounds) buf end p =
    let round = (do
      raw ← lift (read_u16 buf p)
      len ← lift (read_u16 buf (p + 2))
      (fields, q) ← ipfix_fields rounds buf end (after_field raw p)
      pure (record { type = raw % 32768; len = len } ∷ fields, q)) in
    if leb (p + 4) end then round else pure ([], p)

-- The `while` over the templates of one set. `source` is the source id or the domain id, and
-- `read_template` the dialect's field loop.
templates_loop : (ℕ → Bytes → ℕ → ℕ → M (Template × ℕ)) → ℕ → Bytes → String → ℕ → ℕ → ℕ → M Unit
templates_loop read_template zero buf exporter source end p = out_of_fuel
templates_loop read_template (suc fuel) buf exporter source end p =
    let round = (do
      id ← lift (read_u16 buf p)
      count ← lift (read_u16 buf (p + 2))
      (fields, q) ← read_template count buf end (p + 4)
      set_template (record { exporter = exporter; source = source; template = id }) fields
      templates_loop read_template fuel buf exporter source end q) in
    if leb (p + 4) end then round else pure tt

unfoldable pub template_set_v9 : Bytes → String → ℕ → ℕ → ℕ → M Unit
unfolding templates_loop v9_fields
template_set_v9 buf exporter source end p =
    templates_loop v9_fields (suc (length buf)) buf exporter source end p

unfoldable pub template_set_ipfix : Bytes → String → ℕ → ℕ → ℕ → M Unit
unfolding templates_loop ipfix_fields
template_set_ipfix buf exporter source end p =
    templates_loop ipfix_fields (suc (length buf)) buf exporter source end p
