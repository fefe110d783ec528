-- ===== src/HostKey/Tests.antt =====
-- Two keys on first contact, and the theorem at a pinned device.
use switchpilot.Prelude.{zero, suc, ◌≡◌, ◌≢◌, ◌↔◌, refl, String, true, [], ◌∷◌, none, some}
use switchpilot.HostKey.{
  Key, make_host_verifier, pin_host_key, Device, handshake, pin_written, events,
}
use switchpilot.HostKey.Pinned.{events-pinned}

-- A fingerprint of the tests, by the first byte of the key.
abbrev first_byte : Key → String
first_byte [] = "none"
first_byte (zero ∷ key) = "zero"
first_byte (suc b ∷ key) = "more"

abbrev unpinned : Device first_byte
unpinned = record { ssh_host_key_fp = none; pending = [] }

abbrev pinned : Device first_byte
pinned = record { ssh_host_key_fp = some "zero"; pending = [] }

-- Two handshakes before the first pin is written both pass, and the first pin stays.
race :
    events first_byte
      (handshake none (0 ∷ []) ∷ handshake none (1 ∷ []) ∷ pin_written ∷ pin_written ∷ [])
      unpinned
    ≡ pinned
unfolding events make_host_verifier pin_host_key
race = refl

zero_some : ◌≢◌ {A = String} "zero" ""
zero_some = λ e. cc

events-pinned_example :
    ((make_host_verifier first_byte
        (events first_byte (handshake none (1 ∷ []) ∷ pin_written ∷ []) pinned).ssh_host_key_fp
        (1 ∷ [])).accepted
      ≡ true)
    ↔ (first_byte (1 ∷ []) ≡ "zero")
events-pinned_example =
    events-pinned first_byte "zero" (handshake none (1 ∷ []) ∷ pin_written ∷ []) pinned (1 ∷ [])
      zero_some refl
