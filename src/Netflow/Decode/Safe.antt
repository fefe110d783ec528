-- ===== src/Netflow/Decode/Safe.antt =====
-- What `decode_netflow` promises for every datagram.
use switchpilot.Prelude.{
  ◌∙◌, ap, ◌⊎◌, inl, inr, ℕ, ◌≤◌, ◌<◌, ◌≡◌, ◌≢◌, refl, String, List, some, length, All, ltb-false,
  ◌==◌, ==_iff, arith,
}
use switchpilot.Netflow.Action.{
  Run, done, thrown, spent, Ends, Returns, Returns-pure, Returns-read, Returns-if, Returns-bind,
  ◌>>=◌,
}
use switchpilot.Netflow.Buffer.{Bytes, read_u16}
use switchpilot.Netflow.Buffer.Safe.{read_u16_some, read_u32-none}
use switchpilot.Netflow.Flow.{Flow, Key, TemplateCache, get}
use switchpilot.Netflow.Flow.Cache.{get-put, key_eq_iff}
use switchpilot.Netflow.Templates.Safe.{Writable}
use switchpilot.Netflow.V5.Safe.{decode_v5-Returns}
use switchpilot.Netflow.Walk.Safe.{IsComplete, decode_v9-Returns, decode_ipfix-Returns}
use switchpilot.Netflow.Walk.{decode_v9, decode_ipfix}
use switchpilot.Netflow.Decode.{decode_netflow}

-- The datagram is as long as the header of its version.
pub record HasHeader (buf : Bytes) : Type 0 where
  pub v9 : read_u16 buf 0 ≡ some 9 → 20 ≤ length buf
  pub ipfix : read_u16 buf 0 ≡ some 10 → 16 ≤ length buf

-- The templates of every other exporter are as in `m`.
abbrev pub KeepsOthers : String → TemplateCache → TemplateCache → Type 0
KeepsOthers exporter m m' = (k : Key) → k.exporter ≢ exporter → get k m' ≡ get k m

KeepsOthers-Writable :
    (exporter : String) (m : TemplateCache) (source : ℕ)
    → Writable (KeepsOthers exporter m) exporter source
KeepsOthers-Writable exporter m source id t n keeps k other = ground (
  arith,
  get-put k (record { exporter = exporter; source = source; template = id }) t n,
  keeps k other,
  key_eq_iff (record { exporter = exporter; source = source; template = id }) k,
)

decode_netflow-Returns :
    (I : TemplateCache → Type 0) (buf : Bytes) (exporter : String)
    → ((source : ℕ) → Writable I exporter source)
    → HasHeader buf
    → Returns I (All IsComplete) (decode_netflow buf exporter)
unfolding decode_netflow
decode_netflow-Returns I buf exporter writable header =
    Returns-if _ _ _ (λ short. Returns-pure _ tt)
      (λ long.
        let fits : 4 ≤ length buf = ltb-false _ _ long in
        Returns-bind (λ v. read_u16 buf 0 ≡ some v) _ _
          (Returns-read _ (read_u16_some buf 0 (omega arith)) (λ v e. e))
          (λ version e.
            Returns-if (version == 5) _ _ (λ five. decode_v5-Returns I buf fits)
              (λ not5.
                Returns-if (version == 9) _ _
                  (λ nine.
                    decode_v9-Returns I buf exporter writable
                      (header.v9 (e ∙ ap some ((==_iff _ _).0 nine))))
                  (λ not9.
                    Returns-if (version == 10) _ _
                      (λ ten.
                        decode_ipfix-Returns I buf exporter writable
                          (header.ipfix (e ∙ ap some ((==_iff _ _).0 ten))))
                      (λ other. Returns-pure _ tt)))))

-- The result of an action that ends well.
result_of :
    (I : TemplateCache → Type 0) (r : Run (List Flow)) (m : TemplateCache)
    → Ends I (All IsComplete) (r, m)
    → (flows : List Flow) × (r ≡ done flows) × All IsComplete flows × I m
result_of I (done flows) m (complete, i) = (flows, refl, complete, i)
result_of I thrown m h = absurd h
result_of I spent m h = absurd h

-- A datagram that has the header of its version is decoded without a throw and within the fuel of
-- the model, whatever else it holds. Every flow has both addresses, and none of its numbers is
-- NaN or `undefined`. The templates of all other exporters are what they were.
pub decode_netflow_total :
    (buf : Bytes) (exporter : String) (m : TemplateCache)
    → HasHeader buf
    → (flows : List Flow) × ((decode_netflow buf exporter m).0 ≡ done flows)
      × All IsComplete flows
      × KeepsOthers exporter m (decode_netflow buf exporter m).1
decode_netflow_total buf exporter m header = result_of (KeepsOthers exporter m) _ _ (
    (decode_netflow-Returns (KeepsOthers exporter m) buf exporter (KeepsOthers-Writable exporter m)
        header).at
      m (λ k other. refl))

-- A v9 datagram of 4 to 19 bytes, or an IPFIX datagram of 4 to 15, throws on its header and leaves
-- the cache as it was.
pub decode_netflow_short :
    (buf : Bytes) (exporter : String) (m : TemplateCache)
    → 4 ≤ length buf
    → ((read_u16 buf 0 ≡ some 9) × (length buf < 20))
      ⊎ ((read_u16 buf 0 ≡ some 10) × (length buf < 16))
    → decode_netflow buf exporter m ≡ (thrown, m)
unfolding decode_netflow decode_v9 decode_ipfix ◌>>=◌
decode_netflow_short buf exporter m fits (inl (nine, few)) =
    ground (arith, nine, read_u32-none buf 16 (omega arith))
decode_netflow_short buf exporter m fits (inr (ten, few)) =
    ground (arith, ten, read_u32-none buf 12 (omega arith))
