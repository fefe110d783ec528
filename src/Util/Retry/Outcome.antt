-- ===== src/Util/Retry/Outcome.antt =====
-- What the retries come to.
use switchpilot.Prelude.{
  ℕ, zero, suc, ◌+◌, ◌-◌, ◌*◌, ◌^◌, ◌≤◌, ◌≡◌, ◌⊎◌, inl, inr, refl, String, true, false, List, [],
  ◌∷◌, ltb, Bool-cases, arith,
}
use switchpilot.Util.Retry.{
  Reply, RetryOutcome, nothing_yet, outcome_of, is_final, attempts_from, fetch_with_retry,
}

-- The waits that come before the n-th request, the last one first: none before the first, the base
-- before the second, and each one twice the one before.
unfoldable pub waits_before : ℕ → ℕ → List ℕ
waits_before base zero = []
waits_before base (suc zero) = []
waits_before base (suc (suc n)) = base * 2 ^ n ∷ waits_before base (suc n)

module _ (cut : String → String) (base max : ℕ) (reply : ℕ → Reply) where
  -- The replies from one request on, before another.
  pub data Transient (from : ℕ) : ℕ → Type 0 where
    begins : Transient from from
    more :
        {n : ℕ}
        → Transient from n
        → is_final cut base max reply (reply n) ≡ false
        → Transient from (suc n)

  -- So many requests were made: all but the last got a transient failure; the last got a final
  -- reply or was the last one allowed; the outcome is that of the last; and the waits are those
  -- before the last.
  pub record IsOutcome (result : RetryOutcome × List ℕ) : Type 0 where
    pub n : ℕ
    pub bounds : (1 ≤ n) × (n ≤ max)
    pub earlier : Transient 1 n
    pub last : (is_final cut base max reply (reply n) ≡ true) ⊎ (n ≡ max)
    pub outcome : result.0 ≡ outcome_of cut base max reply n (reply n)
    pub waited : result.1 ≡ waits_before base n

  stops :
      (attempt : ℕ) (waits : List ℕ)
      → 1 ≤ attempt
      → attempt ≤ max
      → Transient 1 attempt
      → (is_final cut base max reply (reply attempt) ≡ true) ⊎ (attempt ≡ max)
      → waits ≡ waits_before base attempt
      → IsOutcome (outcome_of cut base max reply attempt (reply attempt), waits)
  stops attempt waits pos within earlier last waited = record {
    n = attempt;
    bounds = (pos, within);
    earlier = earlier;
    last = last;
    outcome = refl;
    waited = waited;
  }

  next : (n : ℕ) → n + 1 ≡ suc n
  next n = omega arith

  doubled :
      (attempt : ℕ) (waits : List ℕ)
      → 1 ≤ attempt
      → waits ≡ waits_before base attempt
      → (base * 2 ^ (attempt - 1) ∷ waits) ≡ waits_before base (attempt + 1)
  unfolding waits_before
  doubled zero waits pos waited = absurd (omega arith)
  doubled (suc n) waits pos waited =
      let e : suc n + 1 ≡ suc (suc n) = omega arith in
      let f : suc n - 1 ≡ n = omega arith in rw (e, f, waited) refl

  attempts_from-IsOutcome :
      (left attempt : ℕ) (last : RetryOutcome) (waits : List ℕ)
      → 1 ≤ attempt
      → attempt + left ≡ max
      → Transient 1 attempt
      → waits ≡ waits_before base attempt
      → IsOutcome (attempts_from cut base max reply (suc left) attempt last waits)
  unfolding attempts_from
  attempts_from-IsOutcome zero attempt last waits pos total earlier waited =
      let at_end : ltb attempt max ≡ false = ground arith in
      elim (Bool-cases (is_final cut base max reply (reply attempt))) [
        | inl final ↦ rw final (stops attempt waits pos (omega arith) earlier (inl final) waited)
        | inr transient ↦
            rw (transient, at_end)
              (stops attempt waits pos (omega arith) earlier (inr (omega arith)) waited)
      ]
  attempts_from-IsOutcome (suc left) attempt last waits pos total earlier waited =
      let goes_on : ltb attempt max ≡ true = ground arith in
      elim (Bool-cases (is_final cut base max reply (reply attempt))) [
        | inl final ↦ rw final (stops attempt waits pos (omega arith) earlier (inl final) waited)
        | inr transient ↦
            rw (transient, goes_on)
              (attempts_from-IsOutcome left (attempt + 1)
                (outcome_of cut base max reply attempt (reply attempt))
                (base * 2 ^ (attempt - 1) ∷ waits) (omega arith) (omega arith)
                (rw (next attempt) (more earlier transient)) (doubled attempt waits pos waited))
      ]

  -- If at least one request is allowed, at least one and at most so many are made: every request
  -- before the last met a transient failure, the last one got a final reply or was the last one
  -- allowed, the outcome is that of its reply, and the waits between the requests are exactly the
  -- base delay, twice the base delay, four times it and so on, one between any two requests.
  pub fetch_with_retry-IsOutcome : 1 ≤ max → IsOutcome (fetch_with_retry cut base max reply)
  unfolding fetch_with_retry waits_before
  fetch_with_retry-IsOutcome pos = begun max refl
    where
      begun : (m : ℕ) → m ≡ max → IsOutcome (attempts_from cut base max reply m 1 nothing_yet [])
      begun zero e = absurd (omega arith)
      begun (suc left) e =
          attempts_from-IsOutcome left 1 nothing_yet [] (omega arith) (omega arith) begins refl
