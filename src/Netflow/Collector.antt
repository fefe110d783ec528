-- ===== src/Netflow/Collector.antt =====
-- The collector (backend/src/services/netflow/collector.ts): datagrams are decoded and added up
-- per minute, exporter, addresses, protocol and service port, and flushed in chunks.
-- The clock is an argument, and the socket and the timer are not modelled.
pub mod Totals
pub mod Chunks
use switchpilot.Prelude.{
  ℕ, zero, suc, ◌+◌, ◌*◌, ◌/◌, String, Bool, true, false, not, ◌&&◌, ◌||◌, List, [], ◌∷◌, map,
  Option, none, some, ◌==◌, if◌then◌else◌, str_eq, is_some, drop, length,
}
use switchpilot.Netflow.Action.{Run, done, thrown, spent}
use switchpilot.Netflow.Buffer.{Bytes, Ip}
use switchpilot.Netflow.Flow.{Flow, TemplateCache}
use switchpilot.Netflow.Decode.{decode_netflow}
use switchpilot.Netflow.Apps.{app_for}

-- The parts of the text `minute|exporter|src|dst|protocol|port`. None of them contains a bar.
pub record AggKey : Type 0 where
  pub minute : ℕ
  pub exporter : String
  pub src : Option Ip
  pub dst : Option Ip
  pub protocol : Option ℕ
  pub port : Option ℕ

pub record Agg : Type 0 where
  pub key : AggKey
  pub app : String
  pub bytes : Option ℕ
  pub packets : Option ℕ
  pub flows : Option ℕ

abbrev pub number_eq : Option ℕ → Option ℕ → Bool
number_eq none none = true
number_eq (some a) (some b) = a == b
number_eq (some a) none = false
number_eq none (some b) = false

abbrev pub ip_eq : Ip → Ip → Bool
ip_eq x y = number_eq x.a y.a && number_eq x.b y.b && number_eq x.c y.c && number_eq x.d y.d

abbrev pub address_eq : Option Ip → Option Ip → Bool
address_eq none none = true
address_eq (some x) (some y) = ip_eq x y
address_eq (some x) none = false
address_eq none (some y) = false

unfoldable pub agg_key_eq : AggKey → AggKey → Bool
agg_key_eq j k =
    j.minute == k.minute
    && str_eq j.exporter k.exporter
    && address_eq j.src k.src
    && address_eq j.dst k.dst
    && number_eq j.protocol k.protocol
    && number_eq j.port k.port

-- JavaScript's `+`, with `none` for NaN.
abbrev pub add_number : Option ℕ → Option ℕ → Option ℕ
add_number none b = none
add_number (some a) none = none
add_number (some a) (some b) = some (a + b)

abbrev pub add_flow_to : Flow → Agg → Agg
add_flow_to fl agg = record agg {
  bytes = add_number agg.bytes fl.bytes;
  packets = add_number agg.packets fl.packets;
  flows = add_number agg.flows (some 1);
}

abbrev pub fresh : AggKey → String → Agg
fresh key app = record { key = key; app = app; bytes = some 0; packets = some 0; flows = some 0 }

-- `buckets.get`, the insertion of a fresh aggregate, and the three additions.
unfoldable pub bump : AggKey → String → Flow → List Agg → List Agg
unfolding agg_key_eq
bump key app fl [] = add_flow_to fl (fresh key app) ∷ []
bump key app fl (agg ∷ buckets) =
    if agg_key_eq agg.key key then add_flow_to fl agg ∷ buckets else agg ∷ bump key app fl buckets

abbrev pub minute_of : ℕ → ℕ
minute_of now = now / 60000 * 60

unfoldable pub key_of : ℕ → String → Flow → AggKey
unfolding app_for
key_of minute exporter fl = record {
  minute = minute;
  exporter = exporter;
  src = fl.src_ip;
  dst = fl.dst_ip;
  protocol = fl.protocol;
  port = (app_for fl.src_port fl.dst_port).1;
}

unfoldable pub add_flows : ℕ → String → List Flow → List Agg → List Agg
unfolding bump key_of
add_flows minute exporter [] buckets = buckets
add_flows minute exporter (fl ∷ flows) buckets = add_flows minute exporter flows (
    if not (is_some fl.src_ip) || not (is_some fl.dst_ip)
    then buckets
    else bump (key_of minute exporter fl) (app_for fl.src_port fl.dst_port).0 fl buckets)

pub record Collector : Type 0 where
  pub templates : TemplateCache
  pub buckets : List Agg

abbrev after_decode : ℕ → String → List Agg → Run (List Flow) × TemplateCache → Collector
after_decode now exporter buckets (done flows, templates) = record {
  templates = templates;
  buckets = add_flows (minute_of now) exporter flows buckets;
}
after_decode now exporter buckets (thrown, templates) = record {
  templates = templates;
  buckets = buckets;
}
after_decode now exporter buckets (spent, templates) = record {
  templates = templates;
  buckets = buckets;
}

-- `ingest` in the `try` of the message handler: a datagram that throws is ignored.
unfoldable pub ingest : ℕ → Bytes → String → Collector → Collector
ingest now buf exporter c =
    after_decode now exporter c.buckets (decode_netflow buf exporter c.templates)

abbrev pub take_chunk : ℕ → List Agg → List Agg
take_chunk zero rows = []
take_chunk (suc n) [] = []
take_chunk (suc n) (row ∷ rows) = row ∷ take_chunk n rows

-- The loop of `flush`, `for (i = 0; i < snapshot.length; i += CHUNK)`.
unfoldable pub chunks : ℕ → List Agg → List (List Agg)
chunks zero rows = []
chunks (suc fuel) [] = []
chunks (suc fuel) (row ∷ rows) = take_chunk 500 (row ∷ rows) ∷ chunks fuel (drop 500 (row ∷ rows))

-- The statements that `flush` sends, and the state that it leaves.
unfoldable pub flush : Collector → List (List Agg) × Collector
unfolding chunks
flush c = (chunks (length c.buckets) c.buckets, record c { buckets = [] })
