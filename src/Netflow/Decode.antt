-- ===== src/Netflow/Decode.antt =====
-- The entry point of the decoder (backend/src/services/netflow/decode.ts, decodeNetflow).
pub mod RoundTrip
pub mod Safe
use switchpilot.Prelude.{String, List, [], length, ltb, ◌==◌, if◌then◌else◌}
use switchpilot.Netflow.Action.{pure, lift, ◌>>=◌}
use switchpilot.Netflow.Buffer.{Bytes, read_u16}
use switchpilot.Netflow.Flow.{Flow, M}
use switchpilot.Netflow.V5.{decode_v5}
use switchpilot.Netflow.Walk.{decode_v9, decode_ipfix}

unfoldable pub decode_netflow : Bytes → String → M (List Flow)
decode_netflow buf exporter =
    let by_version = (do
      version ← lift (read_u16 buf 0)
      if version == 5
          then decode_v5 buf
          else if version == 9
          then decode_v9 buf exporter
          else if version == 10
          then decode_ipfix buf exporter
          else pure []) in
    if ltb (length buf) 4 then pure [] else by_version
