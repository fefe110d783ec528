-- ===== src/HostKey/Pinned.antt =====
-- A pin stays, and decides every later handshake.
use switchpilot.Prelude.{
  ◌≡◌, ◌≢◌, ◌↔◌, inl, inr, refl, String, Bool, true, false, List, [], ◌∷◌, some, Bool-cases, arith,
  str_eq, str_eq_iff, if◌then◌else◌,
}
use switchpilot.HostKey.{
  Key, on_mismatch, Verdict, make_host_verifier, Device, pin_host_key, write_first, Event,
  handshake, pin_written, event, events,
}

module _ (host_key_fingerprint : Key → String) where
  write_first_stays :
      (pin : String) (pending : List String) (d : Device host_key_fingerprint)
      → pin ≢ ""
      → d.ssh_host_key_fp ≡ some pin
      → (write_first host_key_fingerprint pending d).ssh_host_key_fp ≡ some pin
  unfolding pin_host_key
  write_first_stays pin [] d some_pin e = e
  write_first_stays pin (fp ∷ pending) d some_pin e =
      let kept : str_eq pin "" ≡ false = ground (arith, str_eq_iff pin "", some_pin) in
      rw (e, kept) refl

  stays :
      (pin : String) (es : List (Event host_key_fingerprint)) (d : Device host_key_fingerprint)
      → pin ≢ ""
      → d.ssh_host_key_fp ≡ some pin
      → (events host_key_fingerprint es d).ssh_host_key_fp ≡ some pin
  unfolding events
  stays pin [] d some_pin e = e
  stays pin (handshake expected key ∷ es) d some_pin e =
      stays pin es (event host_key_fingerprint (handshake expected key) d) some_pin e
  stays pin (pin_written ∷ es) d some_pin e =
      stays pin es (event host_key_fingerprint pin_written d) some_pin
        (write_first_stays pin d.pending d some_pin e)

  -- Once a fingerprint is pinned, and whatever handshakes and late pins follow, also of rows read
  -- before, a handshake with the row as it is then accepts a key exactly if it has that fingerprint.
  pub events-pinned :
      (pin : String) (es : List (Event host_key_fingerprint)) (d : Device host_key_fingerprint)
      (key : Key)
      → pin ≢ ""
      → d.ssh_host_key_fp ≡ some pin
      → ((make_host_verifier host_key_fingerprint
            (events host_key_fingerprint es d).ssh_host_key_fp
            key).accepted
          ≡ true)
        ↔ (host_key_fingerprint key ≡ pin)
  unfolding make_host_verifier
  events-pinned pin es d key some_pin e =
      let kept : str_eq pin "" ≡ false = ground (arith, str_eq_iff pin "", some_pin) in
      let same = str_eq_iff (host_key_fingerprint key) pin in
      rw (stays pin es d some_pin e, kept) (decided same)
    where
      verdict : Bool → Verdict
      verdict hit =
          if hit
          then record { accepted = true; hooks = [] }
          else record { accepted = false; hooks = on_mismatch (host_key_fingerprint key) pin ∷ [] }

      decided :
          ((str_eq (host_key_fingerprint key) pin ≡ true) ↔ (host_key_fingerprint key ≡ pin))
          → ((verdict (str_eq (host_key_fingerprint key) pin)).accepted ≡ true)
            ↔ (host_key_fingerprint key ≡ pin)
      decided same = elim (Bool-cases (str_eq (host_key_fingerprint key) pin)) [
        | inl hit ↦ rw hit (λ h. same.0 hit, λ h. refl)
        | inr miss ↦
            rw miss (λ h. absurd (ground (arith, h)), λ h. absurd (ground (arith, same.1 h, miss)))
      ]
