-- ===== src/Netflow/Decode/RoundTrip.antt =====
-- A v5 datagram decodes to the flows that its records mean.
use switchpilot.Prelude.{
  ℕ, ◌≡◌, String, List, [], ◌∷◌, ◌++◌, map, length, refl, some, false, ltb, le→ltb-false, arith,
}
use switchpilot.Netflow.Action.{done, ◌>>=◌}
use switchpilot.Netflow.Buffer.{Bytes, read_u16}
use switchpilot.Netflow.Flow.{TemplateCache}
use switchpilot.Netflow.V5.RoundTrip.{
  V5Record, u16_bytes, encode_records, flow_of, u16_value, decode_v5-encode,
}
use switchpilot.Netflow.Decode.{decode_netflow}

-- Version 5, the record count, twenty bytes of header that the decoder skips, the records, and
-- whatever follows them.
abbrev v5_header : ℕ → ℕ → Bytes
v5_header pad count =
    0
    ∷ 5
    ∷ (u16_bytes count
        ++ (pad ∷ pad ∷ pad ∷ pad ∷ pad ∷ pad ∷ pad ∷ pad ∷ pad ∷ pad ∷ pad ∷ pad ∷ pad ∷ pad ∷ pad
            ∷ pad ∷ pad ∷ pad ∷ pad ∷ pad ∷ []))

abbrev pub encode_v5 : ℕ → List V5Record → Bytes → Bytes
encode_v5 pad rs rest = v5_header pad (length rs) ++ encode_records rs rest

-- Decoding an exported v5 datagram gives the flows of its records, all of them and in their
-- order, whatever bytes follow, and leaves the cache alone.
pub decode_netflow-encode_v5 :
    (pad : ℕ) (rs : List V5Record) (rest : Bytes) (exporter : String) (m : TemplateCache)
    → decode_netflow (encode_v5 pad rs rest) exporter m ≡ (done (map flow_of rs), m)
unfolding decode_netflow ◌>>=◌
decode_netflow-encode_v5 pad rs rest exporter m =
    let version : read_u16 (encode_v5 pad rs rest) 0 ≡ some 5 = unfold read_u16 in refl in
    let count : read_u16 (encode_v5 pad rs rest) 2 ≡ some (length rs) =
      unfold read_u16 in u16_value (length rs) in
    let long : ltb (length (encode_v5 pad rs rest)) 4 ≡ false = le→ltb-false _ _ (omega arith) in
    ground (
      arith,
      long,
      version,
      count,
      decode_v5-encode (v5_header pad (length rs)) rs rest m refl count,
    )
