-- ===== src/Netflow/Walk.antt =====
-- The walk over the sets of a v9 or IPFIX datagram (backend/src/services/netflow/decode.ts,
-- decodeV9 and decodeIpfix).
pub mod Safe
use switchpilot.Prelude.{
  ℕ, zero, suc, ◌+◌, String, Bool, true, false, ◌&&◌, ◌||◌, List, [], ◌∷◌, ◌++◌, Option, none, some,
  length, keep, is_some, leb, ltb, ◌==◌, if◌then◌else◌,
}
use switchpilot.Netflow.Action.{pure, lift, out_of_fuel, ◌>>=◌, ◌>>◌}
use switchpilot.Netflow.Buffer.{Bytes, read_u16, read_u32}
use switchpilot.Netflow.Flow.{Flow, Field, Template, M, get_template}
use switchpilot.Netflow.Records.{data_set}
use switchpilot.Netflow.Templates.{template_set_v9, template_set_ipfix}

-- A set by its id, offset and end, with the flows that it adds.
abbrev SetReader : Type 0
SetReader = ℕ → ℕ → ℕ → M (List Flow)

abbrev data_of : Bytes → ℕ → ℕ → Option Template → M (List Flow)
data_of buf off end none = pure []
data_of buf off end (some tmpl) = data_set buf tmpl off end

v9_set : Bytes → String → ℕ → SetReader
v9_set buf exporter source id off end =
    let templates = (do template_set_v9 buf exporter source end (off + 4); pure []) in
    let flows = (do
      tmpl ← get_template (record { exporter = exporter; source = source; template = id })
      data_of buf off end tmpl) in
    if id == 0 then templates else if id == 1 then pure [] else flows

-- `tmpl.some(fld => fld.length === 0xffff)`
has_variable : Template → Bool
has_variable [] = false
has_variable (field ∷ tmpl) = field.len == 65535 || has_variable tmpl

abbrev fixed_data_of : Bytes → ℕ → ℕ → Option Template → M (List Flow)
fixed_data_of buf off end none = pure []
fixed_data_of buf off end (some tmpl) =
    if has_variable tmpl then pure [] else data_set buf tmpl off end

ipfix_set : Bytes → String → ℕ → SetReader
unfolding has_variable
ipfix_set buf exporter source id off end =
    let templates = (do template_set_ipfix buf exporter source end (off + 4); pure []) in
    let flows = (do
      tmpl ← get_template (record { exporter = exporter; source = source; template = id })
      fixed_data_of buf off end tmpl) in
    if id == 2 then templates else if leb 256 id then flows else pure []

-- The outer `while`: it stops at a length field below 4 or past the end of the datagram.
walk : SetReader → ℕ → Bytes → ℕ → M (List Flow)
walk read_set zero buf off = out_of_fuel
walk read_set (suc fuel) buf off =
    let round = (do
      id ← lift (read_u16 buf off)
      len ← lift (read_u16 buf (off + 2))
      let next = (do
        here ← read_set id off (off + len)
        rest ← walk read_set fuel buf (off + len)
        pure (here ++ rest))
      if ltb len 4 || ltb (length buf) (off + len) then pure [] else next) in
    if leb (off + 4) (length buf) then round else pure []

-- `flows.filter(fl => fl.srcIp && fl.dstIp)`
abbrev has_ips : Flow → Bool
has_ips fl = is_some fl.src_ip && is_some fl.dst_ip

unfoldable pub decode_v9 : Bytes → String → M (List Flow)
unfolding walk v9_set
decode_v9 buf exporter = do
  source ← lift (read_u32 buf 16)
  flows ← walk (v9_set buf exporter source) (suc (length buf)) buf 20
  pure (keep has_ips flows)

unfoldable pub decode_ipfix : Bytes → String → M (List Flow)
unfolding walk ipfix_set
decode_ipfix buf exporter = do
  domain ← lift (read_u32 buf 12)
  flows ← walk (ipfix_set buf exporter domain) (suc (length buf)) buf 16
  pure (keep has_ips flows)
