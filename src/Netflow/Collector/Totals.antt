-- ===== src/Netflow/Collector/Totals.antt =====
-- No traffic is lost or counted twice while flows are added up.
use native.Mathlib.Nat.{add_comm, add_assoc}
use switchpilot.Prelude.{
  ◌≤◌, ◌+◌, ℕ, ◌≡◌, refl, sym, ap, ◌∙◌, String, false, not, ◌||◌, is_some, List, [], ◌∷◌, Option,
  none, some, All, Bool-cases, inl, inr, arith,
}
use switchpilot.Netflow.Action.{Run, done, thrown, spent}
use switchpilot.Netflow.Buffer.{Bytes}
use switchpilot.Netflow.Flow.{Flow, TemplateCache}
use switchpilot.Netflow.Walk.Safe.{IsComplete}
use switchpilot.Netflow.Decode.{decode_netflow}
use switchpilot.Netflow.Decode.Safe.{HasHeader, decode_netflow_total}
use switchpilot.Netflow.Collector.{
  AggKey, Agg, Collector, add_number, add_flow_to, fresh, bump, minute_of, add_flows, agg_key_eq,
  ingest, after_decode,
}

add_number_comm : (a b : Option ℕ) → add_number a b ≡ add_number b a
add_number_comm none none = refl
add_number_comm none (some b) = refl
add_number_comm (some a) none = refl
add_number_comm (some a) (some b) = ap some (add_comm a b)

add_number_assoc :
    (a b c : Option ℕ) → add_number (add_number a b) c ≡ add_number a (add_number b c)
add_number_assoc none b c = refl
add_number_assoc (some a) none c = refl
add_number_assoc (some a) (some b) none = refl
add_number_assoc (some a) (some b) (some c) = ap some (add_assoc a b c)

add_number-zero : (a : Option ℕ) → add_number a (some 0) ≡ a
add_number-zero none = refl
add_number-zero (some a) = ap some (omega arith)

zero-add_number : (a : Option ℕ) → add_number (some 0) a ≡ a
zero-add_number none = refl
zero-add_number (some a) = ap some (omega arith)

swap_last : (a b c : Option ℕ) → add_number (add_number a b) c ≡ add_number (add_number a c) b
swap_last a b c =
    add_number_assoc a b c ∙ ap (add_number a) (add_number_comm b c) ∙ sym (add_number_assoc a c b)

-- The sum of one counter over the buckets, and of one number over the flows.
abbrev pub total : (Agg → Option ℕ) → List Agg → Option ℕ
total f [] = some 0
total f (agg ∷ buckets) = add_number (f agg) (total f buckets)

abbrev pub sum : (Flow → Option ℕ) → List Flow → Option ℕ
sum g [] = some 0
sum g (fl ∷ flows) = add_number (g fl) (sum g flows)

-- A counter `f` of the buckets to which each flow adds its `g`.
pub record Counts (f : Agg → Option ℕ) (g : Flow → Option ℕ) : Type 0 where
  pub starts : (key : AggKey) (app : String) → f (fresh key app) ≡ some 0
  pub grows : (fl : Flow) (agg : Agg) → f (add_flow_to fl agg) ≡ add_number (f agg) (g fl)

module _ (f : Agg → Option ℕ) (g : Flow → Option ℕ) (counts : Counts f g) where
  total-bump :
      (key : AggKey) (app : String) (fl : Flow) (buckets : List Agg)
      → total f (bump key app fl buckets) ≡ add_number (total f buckets) (g fl)
  unfolding bump
  total-bump key app fl [] =
      ap (λ x. add_number x (some 0))
        (counts.grows fl (fresh key app) ∙ ap (λ x. add_number x (g fl)) (counts.starts key app))
      ∙ add_number-zero _
  total-bump key app fl (agg ∷ buckets) = elim (Bool-cases (agg_key_eq agg.key key)) [
    | inl found ↦ rw (found, counts.grows fl agg) (swap_last (f agg) (g fl) (total f buckets))
    | inr other ↦ rw (other, total-bump key app fl buckets) (sym (add_number_assoc _ _ _))
  ]

  total-add_flows :
      (minute : ℕ) (exporter : String) (flows : List Flow) (buckets : List Agg)
      → All IsComplete flows
      → total f (add_flows minute exporter flows buckets)
        ≡ add_number (total f buckets) (sum g flows)
  unfolding add_flows
  total-add_flows minute exporter [] buckets complete = sym (add_number-zero _)
  total-add_flows minute exporter (fl ∷ flows) buckets (c, complete) =
      let kept : (not (is_some fl.src_ip) || not (is_some fl.dst_ip)) ≡ false =
        ground (arith, c.addressed) in
      rw kept (
        total-add_flows minute exporter flows _ complete
        ∙ ap (λ x. add_number x (sum g flows)) (total-bump _ _ fl buckets)
        ∙ add_number_assoc _ _ _)

abbrev one : Flow → Option ℕ
one fl = some 1

bytes-Counts : Counts (λ agg. agg.bytes) (λ fl. fl.bytes)
bytes-Counts = record { starts = λ key app. refl; grows = λ fl agg. refl }

packets-Counts : Counts (λ agg. agg.packets) (λ fl. fl.packets)
packets-Counts = record { starts = λ key app. refl; grows = λ fl agg. refl }

flows-Counts : Counts (λ agg. agg.flows) one
flows-Counts = record { starts = λ key app. refl; grows = λ fl agg. refl }

-- The buckets grew by exactly the traffic of the flows.
pub record Accounts (old new : List Agg) (decoded : List Flow) : Type 0 where
  pub bytes :
      total (λ agg. agg.bytes) new
      ≡ add_number (total (λ agg. agg.bytes) old) (sum (λ fl. fl.bytes) decoded)
  pub packets :
      total (λ agg. agg.packets) new
      ≡ add_number (total (λ agg. agg.packets) old) (sum (λ fl. fl.packets) decoded)
  pub flows :
      total (λ agg. agg.flows) new ≡ add_number (total (λ agg. agg.flows) old) (sum one decoded)

add_flows-Accounts :
    (minute : ℕ) (exporter : String) (flows : List Flow) (buckets : List Agg)
    → All IsComplete flows
    → Accounts buckets (add_flows minute exporter flows buckets) flows
add_flows-Accounts minute exporter flows buckets complete = record {
  bytes = total-add_flows _ _ bytes-Counts minute exporter flows buckets complete;
  packets = total-add_flows _ _ packets-Counts minute exporter flows buckets complete;
  flows = total-add_flows _ _ flows-Counts minute exporter flows buckets complete;
}

-- The largest number up to which every whole number is a double, so that sums within it are exact.
abbrev pub exact_limit : ℕ
exact_limit = 9007199254740992

abbrev pub IsWithin : ℕ → Option ℕ → Type 0
IsWithin limit x = (n : ℕ) × (x ≡ some n) × (n ≤ limit)

add_number-IsWithin :
    (limit : ℕ) (a b : Option ℕ)
    → IsWithin limit (add_number a b)
    → IsWithin limit a × IsWithin limit b
add_number-IsWithin limit none b (n, e, few) = absurd (cc)
add_number-IsWithin limit (some a) none (n, e, few) = absurd (cc)
add_number-IsWithin limit (some a) (some b) (n, e, few) =
    let sum_is : a + b ≡ n = cc in
    ((a, refl, omega (arith, sum_is, few)), (b, refl, omega (arith, sum_is, few)))

total-IsWithin :
    (limit : ℕ) (f : Agg → Option ℕ) (buckets : List Agg)
    → IsWithin limit (total f buckets)
    → All (λ agg. IsWithin limit (f agg)) buckets
total-IsWithin limit f [] h = tt
total-IsWithin limit f (agg ∷ buckets) h =
    let (here_it_is, rest) = add_number-IsWithin limit (f agg) (total f buckets) h in
    (here_it_is, total-IsWithin limit f buckets rest)

-- The totals over the buckets and what the flows bring stay together within the limit.
abbrev pub DoFit : List Agg → List Flow → Type 0
DoFit buckets flows =
    IsWithin exact_limit
      (add_number (total (λ agg. agg.bytes) buckets) (sum (λ fl. fl.bytes) flows))
    × IsWithin exact_limit
        (add_number (total (λ agg. agg.packets) buckets) (sum (λ fl. fl.packets) flows))
    × IsWithin exact_limit (add_number (total (λ agg. agg.flows) buckets) (sum one flows))

-- No counter of a bucket is NaN or beyond the limit.
abbrev pub AllExact : List Agg → Type 0
AllExact buckets =
    All (λ agg. IsWithin exact_limit agg.bytes) buckets
    × All (λ agg. IsWithin exact_limit agg.packets) buckets
    × All (λ agg. IsWithin exact_limit agg.flows) buckets

Accounts-AllExact :
    (old new : List Agg) (flows : List Flow)
    → Accounts old new flows
    → DoFit old flows
    → AllExact new
Accounts-AllExact old new flows done_so (some_bytes, some_packets, some_flows) = (
  total-IsWithin exact_limit (λ agg. agg.bytes) new (rw done_so.bytes some_bytes),
  total-IsWithin exact_limit (λ agg. agg.packets) new (rw done_so.packets some_packets),
  total-IsWithin exact_limit (λ agg. agg.flows) new (rw done_so.flows some_flows),
)

-- A datagram that has the header of its version decodes to some flows. As long as the totals over
-- all buckets and what the flows of the datagram bring stay together within 2^53, up to which the
-- program's numbers are exact, `ingest` adds exactly the bytes, packets and number of the flows to the
-- totals, and no counter of a bucket passes 2^53 or is NaN.
pub ingest-Accounts :
    (now : ℕ) (buf : Bytes) (exporter : String) (c : Collector)
    → HasHeader buf
    → ((flows : List Flow)
        → (decode_netflow buf exporter c.templates).0 ≡ done flows
        → DoFit c.buckets flows)
    → (flows : List Flow) × ((decode_netflow buf exporter c.templates).0 ≡ done flows)
      × Accounts c.buckets (ingest now buf exporter c).buckets flows
      × AllExact (ingest now buf exporter c).buckets
unfolding ingest
ingest-Accounts now buf exporter c header fits =
    let (flows, decoded, complete, _) = decode_netflow_total buf exporter c.templates header in
    let done_so = add_flows-Accounts (minute_of now) exporter flows c.buckets complete in
    (
      flows,
      decoded,
      rw (decoded, after_decode) done_so,
      rw (decoded, after_decode) (Accounts-AllExact c.buckets _ flows done_so (fits flows decoded)),
    )

-- The keys of the buckets differ from one another.
abbrev pub Distinct : List Agg → Type 0
Distinct [] = Unit
Distinct (agg ∷ buckets) =
    All (λ later. agg_key_eq agg.key later.key ≡ false) buckets × Distinct buckets

All-bump :
    (key k : AggKey) (app : String) (fl : Flow) (buckets : List Agg)
    → agg_key_eq k key ≡ false
    → All (λ later. agg_key_eq k later.key ≡ false) buckets
    → All (λ later. agg_key_eq k later.key ≡ false) (bump key app fl buckets)
unfolding bump
All-bump key k app fl [] new h = (new, tt)
All-bump key k app fl (agg ∷ buckets) new (h, hs) = elim (Bool-cases (agg_key_eq agg.key key)) [
  | inl found ↦ rw found (h, hs)
  | inr other ↦ rw other (h, All-bump key k app fl buckets new hs)
]

bump-Distinct :
    (key : AggKey) (app : String) (fl : Flow) (buckets : List Agg)
    → Distinct buckets
    → Distinct (bump key app fl buckets)
unfolding bump
bump-Distinct key app fl [] h = (tt, tt)
bump-Distinct key app fl (agg ∷ buckets) (h, hs) = elim (Bool-cases (agg_key_eq agg.key key)) [
  | inl found ↦ rw found (h, hs)
  | inr other ↦
      rw other (All-bump key agg.key app fl buckets other h, bump-Distinct key app fl buckets hs)
]

add_flows-Distinct :
    (minute : ℕ) (exporter : String) (flows : List Flow) (buckets : List Agg)
    → Distinct buckets
    → Distinct (add_flows minute exporter flows buckets)
unfolding add_flows
add_flows-Distinct minute exporter [] buckets h = h
add_flows-Distinct minute exporter (fl ∷ flows) buckets h =
    add_flows-Distinct minute exporter flows _
      (elim (Bool-cases (not (is_some fl.src_ip) || not (is_some fl.dst_ip))) [
        | inl skipped ↦ rw skipped h
        | inr kept ↦ rw kept (bump-Distinct _ _ fl buckets h)
      ])

-- Whatever datagram arrives, no two buckets have one key, so that no statement of `flush` meets
-- the same row of the table twice.
pub ingest-Distinct :
    (now : ℕ) (buf : Bytes) (exporter : String) (c : Collector)
    → Distinct c.buckets
    → Distinct (ingest now buf exporter c).buckets
unfolding ingest
ingest-Distinct now buf exporter c h = after (decode_netflow buf exporter c.templates)
  where
    after :
        (r : Run (List Flow) × TemplateCache)
        → Distinct (after_decode now exporter c.buckets r).buckets
    after (done flows, templates) = add_flows-Distinct (minute_of now) exporter flows c.buckets h
    after (thrown, templates) = h
    after (spent, templates) = h
