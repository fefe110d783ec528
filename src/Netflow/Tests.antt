-- ===== src/Netflow/Tests.antt =====
-- Runs of the NetFlow decoder and collector on small datagrams, and the theorems at inputs that
-- meet their hypotheses.
use switchpilot.Prelude.{
  subst, arith, All, ℕ, ◌≡◌, refl, String, List, [], ◌∷◌, map, Option, some, All, arith,
}
use switchpilot.Netflow.Action.{done, ◌>>=◌}
use switchpilot.Netflow.Buffer.{Bytes, read_u16, read_u32, byte, ip4, uint}
use switchpilot.Netflow.Flow.{Flow, get, put}
use switchpilot.Netflow.V5.{decode_v5}
use switchpilot.Netflow.Records.{data_set, rec_len, read_v9_record}
use switchpilot.Netflow.Templates.{template_set_v9}
use switchpilot.Netflow.Walk.{decode_v9}
use switchpilot.Netflow.V5.RoundTrip.{V5Record, flow_of}
use switchpilot.Netflow.Walk.Safe.{IsComplete}
use switchpilot.Netflow.Decode.{decode_netflow}
use switchpilot.Netflow.Decode.Safe.{HasHeader, KeepsOthers, decode_netflow_total}
use switchpilot.Netflow.Decode.RoundTrip.{encode_v5, decode_netflow-encode_v5}
use switchpilot.Netflow.Collector.{Collector, ingest, add_flows}
use switchpilot.Netflow.Collector.Totals.{Accounts, DoFit, AllExact, ingest-Accounts}

-- Template 256 of source 7 has the two addresses and a byte counter; one record follows.
abbrev v9_datagram : Bytes
v9_datagram =
    0 ∷ 9 ∷ 0 ∷ 2 ∷ 0 ∷ 0 ∷ 0 ∷ 0 ∷ 0 ∷ 0 ∷ 0 ∷ 0 ∷ 0 ∷ 0 ∷ 0 ∷ 0 ∷ 0 ∷ 0 ∷ 0 ∷ 7 ∷ 0 ∷ 0 ∷ 0 ∷ 20
    ∷ 1 ∷ 0 ∷ 0 ∷ 3 ∷ 0 ∷ 8 ∷ 0 ∷ 4 ∷ 0 ∷ 12 ∷ 0 ∷ 4 ∷ 0 ∷ 1 ∷ 0 ∷ 2 ∷ 1 ∷ 0 ∷ 0 ∷ 14 ∷ 10 ∷ 0 ∷ 0
    ∷ 1 ∷ 10 ∷ 0 ∷ 0 ∷ 2 ∷ 5 ∷ 220 ∷ []

abbrev flow_v9 : Flow
flow_v9 = record {
  src_ip = some (record { a = some 10; b = some 0; c = some 0; d = some 1 });
  dst_ip = some (record { a = some 10; b = some 0; c = some 0; d = some 2 });
  src_port = some 0;
  dst_port = some 0;
  protocol = some 0;
  bytes = some 1500;
  packets = some 0;
}

v9_run : (decode_netflow v9_datagram "192.0.2.1" []).0 ≡ done (flow_v9 ∷ [])
unfolding decode_netflow ◌>>=◌ read_u16 decode_v9 read_u32 template_set_v9 get put data_set rec_len
    read_v9_record ip4 uint
v9_run = refl

v9_datagram-HasHeader : HasHeader v9_datagram
v9_datagram-HasHeader = record { v9 = λ e. omega arith; ipfix = λ e. omega arith }

decode_netflow_total_example :
    (flows : List Flow) × ((decode_netflow v9_datagram "192.0.2.1" []).0 ≡ done flows)
    × All IsComplete flows
    × KeepsOthers "192.0.2.1" [] (decode_netflow v9_datagram "192.0.2.1" []).1
decode_netflow_total_example = decode_netflow_total v9_datagram "192.0.2.1" [] v9_datagram-HasHeader

abbrev short_datagram : Bytes
short_datagram = 0 ∷ 9 ∷ 0 ∷ 1 ∷ 0 ∷ []

abbrev v5_record_sample : V5Record
v5_record_sample = record {
  src = (10, 0, 0, 1);
  dst = (10, 0, 0, 2);
  packets = 3;
  bytes = 70000;
  src_port = 50000;
  dst_port = 443;
  protocol = 6;
  pad = 0;
}

abbrev v5_datagram : Bytes
v5_datagram = encode_v5 0 (v5_record_sample ∷ v5_record_sample ∷ []) (1 ∷ 2 ∷ [])

decode_netflow-encode_v5_example :
    decode_netflow v5_datagram "192.0.2.1" []
    ≡ (done (flow_of v5_record_sample ∷ flow_of v5_record_sample ∷ []), [])
decode_netflow-encode_v5_example =
    decode_netflow-encode_v5 0 (v5_record_sample ∷ v5_record_sample ∷ []) (1 ∷ 2 ∷ []) "192.0.2.1"
      []

abbrev empty : Collector
empty = record { templates = []; buckets = [] }

-- Two flows of one conversation add up in one bucket, under the port of https.
v5_ingest :
    map {B = String × ℕ × Option ℕ × Option ℕ}
      (λ agg. (agg.app, agg.key.minute, agg.bytes, agg.flows))
      (ingest 125000 v5_datagram "192.0.2.1" empty).buckets
    ≡ ("https", 120, some 140000, some 2) ∷ []
unfolding ingest add_flows decode_netflow decode_v5 ◌>>=◌ read_u16 read_u32 byte ip4
v5_ingest = refl

v9_datagram-DoFit :
    (flows : List Flow)
    → (decode_netflow v9_datagram "192.0.2.1" []).0 ≡ done flows
    → DoFit [] flows
v9_datagram-DoFit flows decoded =
    let run = v9_run in
    let same : flow_v9 ∷ [] ≡ flows = cc in
    subst (DoFit []) same
      ((1500, refl, omega arith), (0, refl, omega arith), (1, refl, omega arith))

ingest-Accounts_example :
    (flows : List Flow) × ((decode_netflow v9_datagram "192.0.2.1" []).0 ≡ done flows)
    × Accounts [] (ingest 125000 v9_datagram "192.0.2.1" empty).buckets flows
    × AllExact (ingest 125000 v9_datagram "192.0.2.1" empty).buckets
ingest-Accounts_example =
    ingest-Accounts 125000 v9_datagram "192.0.2.1" empty v9_datagram-HasHeader v9_datagram-DoFit

abbrev filled : Collector
filled = ingest 125000 v5_datagram "192.0.2.1" empty
