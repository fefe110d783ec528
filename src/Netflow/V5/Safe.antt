-- ===== src/Netflow/V5/Safe.antt =====
-- A v5 datagram is read without a throw, and its flows have all their numbers and addresses.
use switchpilot.Prelude.{
  ℕ, zero, suc, ◌+◌, ◌≤◌, ◌≡◌, refl, true, length, is_some, All, get_elem?-some, ltb-false, arith,
}
use switchpilot.Netflow.Action.{Returns, Returns-pure, Returns-read, Returns-if, Returns-bind}
use switchpilot.Netflow.Buffer.{Bytes, byte}
use switchpilot.Netflow.Buffer.Safe.{read_u16_some, read_u32_some}
use switchpilot.Netflow.Flow.{TemplateCache}
use switchpilot.Netflow.V5.{v5_record, v5_loop, decode_v5}
use switchpilot.Netflow.Walk.Safe.{IsComplete}

module _ (I : TemplateCache → Type 0) (buf : Bytes) where
  byte_some : (off : ℕ) → off + 1 ≤ length buf → is_some (byte buf off) ≡ true
  unfolding byte
  byte_some off h = let (b, e) = get_elem?-some buf off (omega arith) in rw e

  v5_record-Returns : (o : ℕ) → o + 48 ≤ length buf → Returns I IsComplete (v5_record buf o)
  unfolding v5_record
  v5_record-Returns o room =
      Returns-bind (λ v. Unit {0}) _ _
        (Returns-read _ (read_u32_some buf (o + 16) (omega arith)) (λ v _. tt))
        (λ packets _.
          Returns-bind (λ v. Unit {0}) _ _
            (Returns-read _ (read_u32_some buf (o + 20) (omega arith)) (λ v _. tt))
            (λ bytes _.
              Returns-bind (λ v. Unit {0}) _ _
                (Returns-read _ (read_u16_some buf (o + 32) (omega arith)) (λ v _. tt))
                (λ src _.
                  Returns-bind (λ v. Unit {0}) _ _
                    (Returns-read _ (read_u16_some buf (o + 34) (omega arith)) (λ v _. tt))
                    (λ dst _. Returns-pure _ (record {
                      numeric = record {
                        src_port = refl;
                        dst_port = refl;
                        protocol = byte_some (o + 38) (omega arith);
                        bytes = refl;
                        packets = refl;
                      };
                      addressed = refl;
                    })))))

  v5_loop-Returns : (rounds o : ℕ) → Returns I (All IsComplete) (v5_loop rounds buf o)
  unfolding v5_loop
  v5_loop-Returns zero o = Returns-pure _ tt
  v5_loop-Returns (suc rounds) o =
      Returns-if _ _ _ (λ short. Returns-pure _ tt)
        (λ room.
          Returns-bind IsComplete _ _ (v5_record-Returns o (ltb-false _ _ room)) (λ flow complete.
            Returns-bind (All IsComplete) _ _ (v5_loop-Returns rounds (o + 48))
              (λ rest later. Returns-pure _ (complete, later))))

  pub decode_v5-Returns : 4 ≤ length buf → Returns I (All IsComplete) (decode_v5 buf)
  unfolding decode_v5
  decode_v5-Returns header =
      Returns-bind (λ v. Unit {0}) _ _
        (Returns-read _ (read_u16_some buf 2 (omega arith)) (λ v _. tt))
        (λ count _. v5_loop-Returns count 24)
