-- ===== src/Netflow/V5.antt =====
-- NetFlow v5 (backend/src/services/netflow/decode.ts, decodeV5).
pub mod RoundTrip
pub mod Safe
use switchpilot.Prelude.{ℕ, zero, suc, ◌+◌, List, [], ◌∷◌, some, length, ltb, if◌then◌else◌}
use switchpilot.Netflow.Action.{pure, lift, ◌>>=◌}
use switchpilot.Netflow.Buffer.{Bytes, byte, read_u16, read_u32, ip4}
use switchpilot.Netflow.Flow.{Flow, M}

-- decodeV5: `rounds` is `count - i`, and `o` is `HEADER + i * REC`.
v5_record : Bytes → ℕ → M Flow
v5_record buf o = do
  packets ← lift (read_u32 buf (o + 16))
  bytes ← lift (read_u32 buf (o + 20))
  src_port ← lift (read_u16 buf (o + 32))
  dst_port ← lift (read_u16 buf (o + 34))
  pure (record {
    src_ip = some (ip4 buf o);
    dst_ip = some (ip4 buf (o + 4));
    src_port = some src_port;
    dst_port = some dst_port;
    protocol = byte buf (o + 38);
    bytes = some bytes;
    packets = some packets;
  })

v5_loop : ℕ → Bytes → ℕ → M (List Flow)
v5_loop zero buf o = pure []
v5_loop (suc rounds) buf o =
    let round = (do
      flow ← v5_record buf o
      rest ← v5_loop rounds buf (o + 48)
      pure (flow ∷ rest)) in
    if ltb (length buf) (o + 48) then pure [] else round

unfoldable pub decode_v5 : Bytes → M (List Flow)
unfolding v5_loop v5_record
decode_v5 buf = do count ← lift (read_u16 buf 2); v5_loop count buf 24
