-- ===== src/Netflow/V5/RoundTrip.antt =====
-- Decoding what a v5 exporter sends. The encoder is written from the v5 record layout, and does
-- not mention the decoder.
use switchpilot.Prelude.{
  ℕ, ◌+◌, ◌*◌, ◌/◌, ◌%◌, ◌≡◌, refl, ap, ◌∙◌, List, [], ◌∷◌, ◌++◌, map, some, false, length,
  le→ltb-false, get_elem?-append, length-append, append_assoc, ltb, arith,
}
use native.Mathlib.Nat.{add_assoc}
use switchpilot.Netflow.Action.{done, ◌>>=◌}
use switchpilot.Netflow.Buffer.{Bytes, Ip, byte, read_u16, read_u32, ip4}
use switchpilot.Netflow.Flow.{Flow, TemplateCache}
use switchpilot.Netflow.V5.{v5_record, v5_loop, decode_v5}

abbrev pub u16_bytes : ℕ → Bytes
u16_bytes v = v / 256 ∷ v % 256 ∷ []

-- One exported record. `pad` stands for each byte that carries nothing the decoder reads.
pub record V5Record : Type 0 where
  pub src : ℕ × ℕ × ℕ × ℕ
  pub dst : ℕ × ℕ × ℕ × ℕ
  pub packets : ℕ
  pub bytes : ℕ
  pub src_port : ℕ
  pub dst_port : ℕ
  pub protocol : ℕ
  pub pad : ℕ

abbrev pub encode_record : V5Record → Bytes
encode_record r =
    r.src.0
    ∷ r.src.1
    ∷ r.src.2
    ∷ r.src.3
    ∷ r.dst.0
    ∷ r.dst.1
    ∷ r.dst.2
    ∷ r.dst.3
    ∷ r.pad
    ∷ r.pad
    ∷ r.pad
    ∷ r.pad
    ∷ r.pad
    ∷ r.pad
    ∷ r.pad
    ∷ r.pad
    ∷ r.packets / 16777216
    ∷ r.packets / 65536 % 256
    ∷ r.packets / 256 % 256
    ∷ r.packets % 256
    ∷ r.bytes / 16777216
    ∷ r.bytes / 65536 % 256
    ∷ r.bytes / 256 % 256
    ∷ r.bytes % 256
    ∷ r.pad
    ∷ r.pad
    ∷ r.pad
    ∷ r.pad
    ∷ r.pad
    ∷ r.pad
    ∷ r.pad
    ∷ r.pad
    ∷ r.src_port / 256
    ∷ r.src_port % 256
    ∷ r.dst_port / 256
    ∷ r.dst_port % 256
    ∷ r.pad
    ∷ r.pad
    ∷ r.protocol
    ∷ r.pad
    ∷ r.pad
    ∷ r.pad
    ∷ r.pad
    ∷ r.pad
    ∷ r.pad
    ∷ r.pad
    ∷ r.pad
    ∷ r.pad
    ∷ []

abbrev pub encode_records : List V5Record → Bytes → Bytes
encode_records [] rest = rest
encode_records (r ∷ rs) rest = encode_record r ++ encode_records rs rest

abbrev ip_of : ℕ × ℕ × ℕ × ℕ → Ip
ip_of q = record { a = some q.0; b = some q.1; c = some q.2; d = some q.3 }

-- The flow that a record means.
abbrev pub flow_of : V5Record → Flow
flow_of r = record {
  src_ip = some (ip_of r.src);
  dst_ip = some (ip_of r.dst);
  src_port = some r.src_port;
  dst_port = some r.dst_port;
  protocol = some r.protocol;
  bytes = some r.bytes;
  packets = some r.packets;
}

module _ (pre ys : Bytes) (i : ℕ) where
  byte-append : byte (pre ++ ys) (length pre + i) ≡ byte ys i
  unfolding byte
  byte-append = get_elem?-append pre ys i

  read_u16-append : read_u16 (pre ++ ys) (length pre + i) ≡ read_u16 ys i
  unfolding read_u16
  read_u16-append =
      rw (get_elem?-append pre ys i, add_assoc (length pre) i 1, get_elem?-append pre ys (i + 1))

read_u32-append : (pre ys : Bytes) (i : ℕ) → read_u32 (pre ++ ys) (length pre + i) ≡ read_u32 ys i
unfolding read_u32
read_u32-append pre ys i =
    rw (read_u16-append pre ys i, add_assoc (length pre) i 2, read_u16-append pre ys (i + 2))

ip4-append : (pre ys : Bytes) (i : ℕ) → ip4 (pre ++ ys) (length pre + i) ≡ ip4 ys i
unfolding ip4
ip4-append pre ys i = simp (
  byte-append pre ys,
  add_assoc (length pre) i 1,
  add_assoc (length pre) i 2,
  add_assoc (length pre) i 3,
)

pub u16_value : (v : ℕ) → some (v / 256 * 256 + v % 256) ≡ some v
u16_value v = ap some (omega arith)

u32_value :
    (v : ℕ)
    → some ((v / 16777216 * 256 + v / 65536 % 256) * 65536 + (v / 256 % 256 * 256 + v % 256))
      ≡ some v
u32_value v = ap some (omega arith)

-- Reads of an encoded record that stands behind other bytes.
module _ (pre rest : Bytes) (r : V5Record) where
  abbrev behind : Bytes
  behind = pre ++ (encode_record r ++ rest)

  packets_read : read_u32 behind (length pre + 16) ≡ some r.packets
  unfolding read_u32
  packets_read = read_u32-append pre (encode_record r ++ rest) 16 ∙ u32_value r.packets

  bytes_read : read_u32 behind (length pre + 20) ≡ some r.bytes
  unfolding read_u32
  bytes_read = read_u32-append pre (encode_record r ++ rest) 20 ∙ u32_value r.bytes

  src_port_read : read_u16 behind (length pre + 32) ≡ some r.src_port
  unfolding read_u16
  src_port_read = read_u16-append pre (encode_record r ++ rest) 32 ∙ u16_value r.src_port

  dst_port_read : read_u16 behind (length pre + 34) ≡ some r.dst_port
  unfolding read_u16
  dst_port_read = read_u16-append pre (encode_record r ++ rest) 34 ∙ u16_value r.dst_port

  protocol_read : byte behind (length pre + 38) ≡ some r.protocol
  unfolding byte
  protocol_read = byte-append pre (encode_record r ++ rest) 38

  dst_ip_read : ip4 behind (length pre + 4) ≡ ip_of r.dst
  unfolding ip4
  dst_ip_read = ip4-append pre (encode_record r ++ rest) 4

  src_ip_read : ip4 behind (length pre) ≡ ip_of r.src
  unfolding ip4
  src_ip_read =
      let e : length pre ≡ length pre + 0 = omega arith in
      ap (ip4 behind) e ∙ ip4-append pre (encode_record r ++ rest) 0

  v5_record-encode : (m : TemplateCache) → v5_record behind (length pre) m ≡ (done (flow_of r), m)
  unfolding v5_record ◌>>=◌
  v5_record-encode m = ground (
    arith, packets_read, bytes_read, src_port_read, dst_port_read, protocol_read, dst_ip_read,
    src_ip_read,
  )

v5_loop-encode :
    (rs : List V5Record) (pre rest : Bytes) (m : TemplateCache)
    → v5_loop (length rs) (pre ++ encode_records rs rest) (length pre) m
      ≡ (done (map flow_of rs), m)
unfolding v5_loop ◌>>=◌
v5_loop-encode [] pre rest m = refl
v5_loop-encode (r ∷ rs) pre rest m =
    let tail : Bytes = encode_records rs rest in
    let room : ltb (length (pre ++ (encode_record r ++ tail))) (length pre + 48) ≡ false =
      le→ltb-false _ _ (omega (arith, length-append {0} pre (encode_record r ++ tail))) in
    let shifted : length (pre ++ encode_record r) ≡ length pre + 48 =
      omega (arith, length-append {0} pre (encode_record r)) in
    let later = v5_loop-encode rs (pre ++ encode_record r) rest m in
    let later' : v5_loop (length rs) (pre ++ (encode_record r ++ tail)) (length pre + 48) m
        ≡ (done (map flow_of rs), m) =
      rw (← shifted, ← append_assoc pre (encode_record r) tail) later in
    ground (arith, room, v5_record-encode pre tail r m, later')

-- Behind a header of 24 bytes that holds their number, the records are all decoded.
pub decode_v5-encode :
    (pre : Bytes) (rs : List V5Record) (rest : Bytes) (m : TemplateCache)
    → length pre ≡ 24
    → read_u16 (pre ++ encode_records rs rest) 2 ≡ some (length rs)
    → decode_v5 (pre ++ encode_records rs rest) m ≡ (done (map flow_of rs), m)
unfolding decode_v5 ◌>>=◌
decode_v5-encode pre rs rest m size count =
    ground (arith, count, size, rw size at (v5_loop-encode rs pre rest m))
