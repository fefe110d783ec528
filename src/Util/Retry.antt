-- ===== src/Util/Retry.antt =====
-- The HTTP request with retries (backend/src/util/httpRetry.ts). What the n-th request gets is a
-- parameter, and the waits between requests are an output.
pub mod Outcome
use switchpilot.Prelude.{
  ℕ, zero, suc, ◌+◌, ◌-◌, ◌*◌, ◌^◌, String, Bool, true, false, not, ◌&&◌, ◌||◌, List, [], ◌∷◌, leb,
  ltb, ◌==◌, if◌then◌else◌,
}

-- A response, with `res.ok` written out, or the message of an exception.
pub data Reply : Type 0 where
  response : ℕ → Reply
  thrown : String → Reply

-- isRetriableStatus
abbrev pub is_retriable_status : ℕ → Bool
is_retriable_status status = status == 429 || (leb 500 status && leb status 599)

abbrev pub is_ok : ℕ → Bool
is_ok status = leb 200 status && leb status 299

-- The text of the status: `String(res.status)`, or `error: ` before the message.
pub data RetryStatus : Type 0 where
  not_attempted : RetryStatus
  status_of : ℕ → RetryStatus
  error_of : String → RetryStatus

pub record RetryOutcome : Type 0 where
  pub ok : Bool
  pub status : RetryStatus
  pub attempts : ℕ

abbrev pub nothing_yet : RetryOutcome
nothing_yet = record { ok = false; status = not_attempted; attempts = 0 }

-- `cut` is `slice(0, 100)`.
module _ (cut : String → String) (base_delay_ms max_attempts : ℕ) (reply : ℕ → Reply) where
  abbrev pub outcome_of : ℕ → Reply → RetryOutcome
  outcome_of attempt (response status) = record {
    ok = is_ok status;
    status = status_of status;
    attempts = attempt;
  }
  outcome_of attempt (thrown message) = record {
    ok = false;
    status = error_of (cut message);
    attempts = attempt;
  }

  -- Whether the loop returns at once.
  abbrev pub is_final : Reply → Bool
  is_final (response status) = is_ok status || not (is_retriable_status status)
  is_final (thrown message) = false

  -- The `for` loop, with `left` rounds to go from `attempt` on, and the waits so far.
  unfoldable pub attempts_from : ℕ → ℕ → RetryOutcome → List ℕ → RetryOutcome × List ℕ
  attempts_from zero attempt last waits = (last, waits)
  attempts_from (suc left) attempt last waits =
      let now = outcome_of attempt (reply attempt) in
      let wait = base_delay_ms * 2 ^ (attempt - 1) in
      let later = attempts_from left (attempt + 1) now (wait ∷ waits) in
      let stop = attempts_from left (attempt + 1) now waits in
      if is_final (reply attempt)
      then (now, waits)
      else (if ltb attempt max_attempts then later else stop)

  -- fetchWithRetry; the waits come out the last one first.
  unfoldable pub fetch_with_retry : RetryOutcome × List ℕ
  unfolding attempts_from
  fetch_with_retry = attempts_from max_attempts 1 nothing_yet []
