-- ===== src/HostKey.antt =====
-- SSH host keys that are trusted on first use (backend/src/cisco/hostKey.ts, and pinHostKey of
-- backend/src/services/deviceComms.ts). Keys are lists of bytes, and their fingerprint, SHA-256 in
-- base64, is a parameter.
pub mod Pinned
mod Tests
use switchpilot.Prelude.{
  ℕ, String, Bool, true, false, List, [], ◌∷◌, ◌++◌, Option, none, some, if◌then◌else◌, str_eq,
}

abbrev pub Key : Type 0
Key = List ℕ

-- The hooks that a verifier fires.
pub data Hook : Type 0 where
  on_pin : String → Hook
  on_mismatch : String → String → Hook

pub record Verdict : Type 0 where
  pub accepted : Bool
  pub hooks : List Hook

-- `hooks.expectedFp ?? ''`
abbrev pub or_empty : Option String → String
or_empty none = ""
or_empty (some fp) = fp

module _ (host_key_fingerprint : Key → String) where
  -- makeHostVerifier
  unfoldable pub make_host_verifier : Option String → Key → Verdict
  make_host_verifier expected_fp key =
      let fp = host_key_fingerprint key in
      let expected = or_empty expected_fp in
      if str_eq expected ""
      then record { accepted = true; hooks = on_pin fp ∷ [] }
      else (if str_eq fp expected
          then record { accepted = true; hooks = [] }
          else record { accepted = false; hooks = on_mismatch fp expected ∷ [] })

  -- The device's row, and the pins that are on their way to the database.
  pub record Device : Type 0 where
    pub ssh_host_key_fp : Option String
    pub pending : List String

  abbrev pub pins_of : List Hook → List String
  pins_of [] = []
  pins_of (on_pin fp ∷ hooks) = fp ∷ pins_of hooks
  pins_of (on_mismatch presented expected ∷ hooks) = pins_of hooks

  -- The update of pinHostKey, with its `WHERE`.
  unfoldable pub pin_host_key : String → Option String → Option String
  pin_host_key fp stored = if str_eq (or_empty stored) "" then some fp else stored

  abbrev pub write_first : List String → Device → Device
  write_first [] d = d
  write_first (fp ∷ pending) d = record {
    ssh_host_key_fp = pin_host_key fp d.ssh_host_key_fp;
    pending = pending;
  }

  -- A handshake, with the fingerprint that its row had when it was read, and the write of a pin.
  pub data Event : Type 0 where
    handshake : Option String → Key → Event
    pin_written : Event

  abbrev pub event : Event → Device → Device
  event (handshake expected_fp key) d = record d {
    pending = d.pending ++ pins_of (make_host_verifier expected_fp key).hooks;
  }
  event pin_written d = write_first d.pending d

  unfoldable pub events : List Event → Device → Device
  unfolding make_host_verifier pin_host_key
  events [] d = d
  events (e ∷ es) d = events es (event e d)
