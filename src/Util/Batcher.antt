-- ===== src/Util/Batcher.antt =====
-- The buffered batch writer (backend/src/util/batcher.ts), as a machine whose events are the calls
-- of `push` and `flushNow`, the ticks of the timer, and the settling of the flush in flight.
pub mod Order
use switchpilot.Prelude.{
  ℕ, zero, suc, ◌+◌, Bool, true, false, not, ◌&&◌, ◌||◌, List, [], ◌∷◌, ◌++◌, Option, none, some,
  leb, ltb, ◌==◌, length, if◌then◌else◌,
}

pub record Limits : Type 0 where
  pub max_batch : ℕ
  pub max_buffer : ℕ

-- `handed` are the batches given to `flush` so far, and `failures` what `onError` was told.
pub record Batcher {ℓ} (A : Type ℓ) : Type ℓ where
  pub buffer : List A
  pub flushing : Option (List A)
  pub handed : List (List A)
  pub failures : List ℕ

pub data Event {ℓ} (A : Type ℓ) : Type ℓ where
  pushed : A → Event A
  ticked : Event A
  settled : Bool → Event A

module _ {ℓ} {A : Type ℓ} where
  abbrev pub created : Batcher A
  created = record { buffer = []; flushing = none; handed = []; failures = [] }

  -- The part of `flushNow` up to the call of `flush`, by whether one is in flight and what waits.
  abbrev pub start_flush : Option (List A) → List A → Batcher A → Batcher A
  start_flush (some batch) waiting b = b
  start_flush none [] b = b
  start_flush none (x ∷ xs) b = record b {
    buffer = [];
    flushing = some (x ∷ xs);
    handed = b.handed ++ ((x ∷ xs) ∷ []);
  }

  unfoldable pub flush_now : Batcher A → Batcher A
  flush_now b = start_flush b.flushing b.buffer b

  -- The rest of it, when `flush` resolves or throws.
  abbrev pub end_flush : Bool → Option (List A) → Batcher A → Batcher A
  end_flush ok none b = b
  end_flush ok (some batch) b = record b {
    flushing = none;
    failures = if ok then b.failures else b.failures ++ (length batch ∷ []);
  }

  unfoldable pub settle : Bool → Batcher A → Batcher A
  settle ok b = end_flush ok b.flushing b

  unfoldable pub push : Limits → A → Batcher A → Batcher A
  unfolding flush_now
  push limits item b =
      let more = record b { buffer = b.buffer ++ (item ∷ []) } in
      if leb limits.max_buffer (length b.buffer)
      then b
      else (if leb limits.max_batch (length more.buffer) then flush_now more else more)

  unfoldable pub handle : Limits → Event A → Batcher A → Batcher A
  unfolding push settle
  handle limits (pushed item) b = push limits item b
  handle limits ticked b = flush_now b
  handle limits (settled ok) b = settle ok b

  unfoldable pub run : Limits → List (Event A) → Batcher A → Batcher A
  unfolding handle
  run limits [] b = b
  run limits (e ∷ events) b = run limits events (handle limits e b)
