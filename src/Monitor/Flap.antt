-- ===== src/Monitor/Flap.antt =====
-- What the flap counter counts: the flaps back to the first pause of more than an hour.
use switchpilot.Prelude.{
  ℕ, suc, ◌+◌, ◌≤◌, ◌≡◌, refl, String, false, List, [], ◌∷◌, Option, none, some, ltb, Bool-cases,
  inl, inr, arith, if◌then◌else◌,
}
use switchpilot.Monitor.{
  PortFlapPrev, window_ms, expired, is_change, decide_port_flap, row_of, sweeps,
}

abbrev pub newest : List ℕ → Option ℕ
newest [] = none
newest (t ∷ times) = some t

-- The length of the last burst: flaps with at most an hour from each to the next.
abbrev pub burst : List ℕ → ℕ
burst [] = 0
burst (t ∷ times) = if expired (newest times) t then 1 else suc (burst times)

-- A burst that ended more than an hour ago counts nothing.
abbrev pub rolled : ℕ → List ℕ → ℕ
rolled now times = if expired (newest times) now then 0 else burst times

-- The times of the flaps of the sweeps after a status, the latest first, in front of earlier ones.
abbrev pub flap_times : String → List (String × ℕ) → List ℕ → List ℕ
flap_times before [] times = times
flap_times before ((status, now) ∷ rest) times =
    flap_times status rest (if is_change before status then now ∷ times else times)

abbrev pub Ordered : ℕ → List (String × ℕ) → Type 0
Ordered from [] = Unit {0}
Ordered from ((status, now) ∷ rest) = (from ≤ now) × Ordered now rest

abbrev pub last_time : ℕ → List (String × ℕ) → ℕ
last_time from [] = from
last_time from ((status, now) ∷ rest) = last_time now rest

abbrev pub last_status : String → List (String × ℕ) → String
last_status before [] = before
last_status before ((status, now) ∷ rest) = last_status status rest

-- The row of a port whose flaps so far were at these times.
abbrev pub counted : String → ℕ → List ℕ → PortFlapPrev
counted status now times = record {
  oper_status = status;
  flap_count_1h = rolled now times;
  last_flap_at = newest times;
}

expired_later :
    (times : List ℕ) (now later : ℕ)
    → now ≤ later
    → expired (newest times) later ≡ false
    → rolled now times ≡ burst times
expired_later [] now later h e = refl
expired_later (t ∷ times) now later h e = ground (arith, e)

just_now : (now : ℕ) → ltb (now + window_ms) now ≡ false
just_now now = ground arith

one_more : (n : ℕ) → n + 1 ≡ suc n
one_more n = omega arith

sweep_counted :
    (before status : String) (from now : ℕ) (times : List ℕ)
    → from ≤ now
    → row_of status (decide_port_flap (some (counted before from times)) status now)
      ≡ counted status now (if is_change before status then now ∷ times else times)
unfolding decide_port_flap
sweep_counted before status from now times h = elim (Bool-cases (is_change before status)) [
  | inl change ↦ elim (Bool-cases (expired (newest times) now)) [
    | inl old ↦ rw (change, old, just_now now) refl
    | inr young ↦
        rw
          (
            change,
            young,
            expired_later times from now h young,
            just_now now,
            one_more (burst times),
          )
          refl
  ]
  | inr same ↦ elim (Bool-cases (expired (newest times) now)) [
    | inl old ↦ rw (same, old) refl
    | inr young ↦ rw (same, young, expired_later times from now h young) refl
  ]
]

sweeps-counted :
    (rest : List (String × ℕ)) (before : String) (from : ℕ) (times : List ℕ)
    → Ordered from rest
    → sweeps rest (some (counted before from times))
      ≡ some
          (counted (last_status before rest) (last_time from rest) (flap_times before rest times))
unfolding sweeps
sweeps-counted [] before from times h = refl
sweeps-counted ((status, now) ∷ rest) before from times (h, ordered) =
    rw (sweep_counted before status from now times h) (
      sweeps-counted rest status now (if is_change before status then now ∷ times else times)
        ordered)

-- With a clock that does not go back, the row of a port that was first seen by the first of these
-- sweeps has the status of the last one, the time of the last flap, and as its counter the number
-- of flaps in the last burst, or 0 if that ended more than an hour before the last sweep.
pub sweeps-burst :
    (status : String) (now : ℕ) (rest : List (String × ℕ))
    → Ordered now rest
    → sweeps ((status, now) ∷ rest) none
      ≡ some (counted (last_status status rest) (last_time now rest) (flap_times status rest []))
unfolding sweeps decide_port_flap
sweeps-burst status now rest h = sweeps-counted rest status now [] h
