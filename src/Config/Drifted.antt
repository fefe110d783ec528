-- ===== src/Config/Drifted.antt =====
-- What a drift check finds, writes and reports (checkDrift of backend/src/services/configService.ts).
use switchpilot.Prelude.{
  ℕ, ◌≡◌, ◌≢◌, ◌↔◌, inl, inr, refl, ap, String, Bool, true, false, ◌&&◌, ◌||◌, List, Option, none,
  some, Bool-cases, arith, str_eq, str_eq_iff,
}
use switchpilot.Util.Text.{is_empty}
use switchpilot.Alerts.{info, warning, Window, Alerts, in_maintenance_window, has_open, raise_alert}
use switchpilot.Alerts.Effects.{raise_alert-has_open, raise_alert-known}
use switchpilot.Config.{
  Device, Live, Baseline, Env, normalize_config, replayable_lines, can_replay, live_config_text,
  hash_of, remediate_drift, check_drift,
}

module _ (env : Env) where
  -- What a push of a drift check was: the lines of the baseline, as its flag allows and to a device
  -- that can replay them.
  abbrev pub IsAllowed : Device → Baseline → Option (List String) → Type 0
  IsAllowed device baseline none = Unit {0}
  IsAllowed device baseline (some pushed) =
      (pushed ≡ replayable_lines baseline.content)
      × (baseline.auto_remediate ≡ true)
      × (can_replay device.vendor ≡ true)

  remediate_drift_lem :
      (windows : List Window) (later : ℕ) (device : Device) (baseline : Baseline) (s : Alerts)
      → has_open (some device.id) "config_drift" s.alerts ≡ true
      → ((remediate_drift env windows later device baseline s).alerts ≡ s)
        × IsAllowed device baseline (remediate_drift env windows later device baseline s).pushed
  remediate_drift_lem windows later device baseline s known =
      elim (Bool-cases (baseline.auto_remediate && can_replay device.vendor)) [
        | inr held_back ↦ rw held_back (refl, tt)
        | inl allowed ↦
            let may : (baseline.auto_remediate ≡ true) × (can_replay device.vendor ≡ true) =
              ground (arith, allowed) in
            elim (Bool-cases (env.push device.id (replayable_lines baseline.content))) [
              | inl taken ↦
                  rw (allowed, taken)
                    (
                      raise_alert-known windows later device.id "config_drift"
                          "Baseline configuration automatically restored" info s known,
                      (refl, may.0, may.1),
                    )
              | inr refused ↦ rw (allowed, refused) (refl, (refl, may.0, may.1))
            ]
      ]

  -- A check outside of every window that finds a drift reports it once, as a warning: when it has
  -- restored the baseline, its second alert finds the first one open and is neither stored nor sent.
  -- What it pushed, if anything, are the lines of the baseline, to a device whose baseline allows it
  -- and that can replay them; and the two configurations differ in their normal forms.
  pub check_drift-reports_once :
      (windows : List Window) (now later : ℕ) (device : Device) (baseline : Baseline) (live : Live)
      (s : Alerts) (current : String)
      → in_maintenance_window windows now device.id ≡ false
      → live_config_text device live ≡ some current
      → (check_drift env windows now later device (some baseline) live s).answer ≡ some true
      → ((check_drift env windows now later device (some baseline) live s).alerts
          ≡ raise_alert windows now
              (some device.id)
              "config_drift"
              warning
              "Running configuration has drifted from the assigned baseline"
              s)
        × IsAllowed device baseline
            (check_drift env windows now later device (some baseline) live s).pushed
        × (normalize_config current ≢ normalize_config baseline.content)
  unfolding check_drift
  check_drift-reports_once windows now later device baseline live s current outside reads found =
      elim (Bool-cases same) [
        | inl alike ↦ absurd (let h = rw (reads, alike) at found in cc)
        | inr apart ↦
            rw (reads, apart)
              (let (once, allowed) = remediate_drift_lem windows later device baseline _ (
                  raise_alert-has_open windows now device.id "config_drift"
                    "Running configuration has drifted from the assigned baseline" warning s
                    outside) in
                (once, allowed, differs apart))
      ]
    where
      same : Bool
      same = is_empty current || str_eq (hash_of env current) (hash_of env baseline.content)

      differs : same ≡ false → normalize_config current ≢ normalize_config baseline.content
      differs apart e =
          let h : str_eq (hash_of env current) (hash_of env baseline.content) ≡ true =
            (str_eq_iff _ _).1 (ap env.sha256 e) in
          ground (arith, h, apart)

  -- A check that reads a configuration, and whose push the device takes, answers exactly whether
  -- that differs from the baseline in its normal form, if the hash has no collision.
  pub check_drift-detects :
      ((s t : String) → env.sha256 s ≡ env.sha256 t → s ≡ t)
      → (windows : List Window) (now later : ℕ) (device : Device) (baseline : Baseline)
        (live : Live) (s : Alerts) (current : String)
      → live_config_text device live ≡ some current
      → is_empty current ≡ false
      → env.push device.id (replayable_lines baseline.content) ≡ true
      → ((check_drift env windows now later device (some baseline) live s).answer ≡ some true)
        ↔ (normalize_config current ≢ normalize_config baseline.content)
  unfolding check_drift
  check_drift-detects inj windows now later device baseline live s current reads some_text taken =
      elim (Bool-cases (str_eq (hash_of env current) (hash_of env baseline.content))) [
        | inl same ↦
            let e = inj _ _ ((str_eq_iff _ _).0 same) in
            rw (reads, some_text, same) (λ h. absurd (cc), λ ne. absurd (ne e))
        | inr apart ↦
            rw (reads, some_text, apart)
              (
                λ h e.
                    absurd
                      (let h2 = (str_eq_iff _ _).1 (ap env.sha256 e) in ground (arith, h2, apart)),
                λ ne. elim (Bool-cases (baseline.auto_remediate && can_replay device.vendor)) [
                  | inl allowed ↦ rw (allowed, taken) refl
                  | inr held_back ↦ rw held_back refl
                ],
              )
      ]
