-- ===== src/Polling/Sync.antt =====
-- Whether the offline alert of a device is open exactly while it is offline
-- (pollStatus of backend/src/services/monitorService.ts).
use switchpilot.Prelude.{
  ℕ, ◌/◌, ◌≡◌, refl, ap, sym, subst, ◌∙◌, String, Bool, true, false, List, [], ◌∷◌, Option, none,
  some, All,
}
use switchpilot.Alerts.{critical, Window, Alerts, in_maintenance_window, has_open, raise_alert}
use switchpilot.Alerts.Effects.{raise_alert-has_open, resolve_alert-closes}
use switchpilot.Polling.{
  DeviceStatus, online, offline, unknown, downloaded, installing, FwUpdate, FwUpdateState, Polled,
  Answer, is_offline, is_reachable, with_uptime, get_fw_update, set_fw_update, installing_now,
  come_online, go_offline, settle_status, count_hour, poll_status, polls,
}

alerts-set_fw_update :
    (now : ℕ) (fw : Option FwUpdate) (p : Polled) → (installing_now now fw p).alerts ≡ p.alerts
unfolding set_fw_update
alerts-set_fw_update now none p = refl
alerts-set_fw_update now (some fw) p = by_state fw.state refl
  where
    by_state :
        (s : FwUpdateState) → fw.state ≡ s → (installing_now now (some fw) p).alerts ≡ p.alerts
    by_state downloaded e = simp e refl
    by_state installing e = simp e refl

status-set_fw_update :
    (now : ℕ) (fw : Option FwUpdate) (p : Polled) → (installing_now now fw p).status ≡ p.status
unfolding set_fw_update
status-set_fw_update now none p = refl
status-set_fw_update now (some fw) p = by_state fw.state refl
  where
    by_state :
        (s : FwUpdateState) → fw.state ≡ s → (installing_now now (some fw) p).status ≡ p.status
    by_state downloaded e = simp e refl
    by_state installing e = simp e refl

with_uptime-alerts : (u : Option ℕ) (p : Polled) → (with_uptime u p).alerts ≡ p.alerts
with_uptime-alerts none p = refl
with_uptime-alerts (some n) p = refl

with_uptime-status : (u : Option ℕ) (p : Polled) → (with_uptime u p).status ≡ p.status
with_uptime-status none p = refl
with_uptime-status (some n) p = refl

module _ (windows : List Window) (id message : String) where
  abbrev pub is_alerting : Polled → Bool
  is_alerting p = has_open (some id) "device_offline" p.alerts.alerts

  -- The alert is open exactly while the device is offline.
  abbrev pub InSync : Polled → Type 0
  InSync p = is_alerting p ≡ is_offline p.status

  go_offline-InSync :
      (now : ℕ) (p : Polled)
      → in_maintenance_window windows now id ≡ false
      → InSync (go_offline windows id message now p)
  unfolding go_offline
  go_offline-InSync now p outside =
      let flipped : Polled = record p { status = offline; published = now ∷ p.published } in
      let marked = installing_now now (get_fw_update now p) flipped in
      raise_alert-has_open windows now id "device_offline" message critical marked.alerts outside
      ∙ sym (ap is_offline (status-set_fw_update now (get_fw_update now p) flipped))

  settle_status-InSync :
      (now : ℕ) (up : Bool) (p : Polled)
      → in_maintenance_window windows now id ≡ false
      → InSync p
      → InSync (settle_status windows id message now up p)
  unfolding come_online
  settle_status-InSync now true p outside h = by_status p.status refl
    where
      by_status :
          (s : DeviceStatus) → p.status ≡ s → InSync (settle_status windows id message now true p)
      by_status online e = simp e (h ∙ ap is_offline e)
      by_status offline e = simp e (resolve_alert-closes now id "device_offline" p.alerts)
      by_status unknown e = simp e (resolve_alert-closes now id "device_offline" p.alerts)
  settle_status-InSync now false p outside h = by_status p.status refl
    where
      by_status :
          (s : DeviceStatus) → p.status ≡ s → InSync (settle_status windows id message now false p)
      by_status offline e = simp e (h ∙ ap is_offline e)
      by_status online e = simp e (go_offline-InSync now p outside)
      by_status unknown e = simp e (go_offline-InSync now p outside)

  -- What a poll changes before it looks at the status leaves the two alone.
  unfoldable read_so_far : Bool → Answer → Polled → Polled
  read_so_far up a p =
      let read = with_uptime a.snmp p in
      record read { hours = count_hour (a.now / 3600000) up read.hours }

  poll_status-InSync :
      (is_aruba : Bool) (a : Answer) (p : Polled)
      → in_maintenance_window windows a.now id ≡ false
      → InSync p
      → InSync (poll_status windows id message is_aruba a p)
  unfolding poll_status read_so_far
  poll_status-InSync is_aruba a p outside h =
      settle_status-InSync a.now (is_reachable is_aruba a)
        (read_so_far (is_reachable is_aruba a) a p) outside
        (ap (λ (x : Alerts). has_open (some id) "device_offline" x.alerts)
            (with_uptime-alerts a.snmp p)
          ∙ h
          ∙ ap is_offline (sym (with_uptime-status a.snmp p)))

  -- Through any polls outside of the maintenance windows, the offline alert of a device stays open
  -- exactly while its status is offline, once it was so, whatever the device answers.
  pub polls-InSync :
      (is_aruba : Bool) (answers : List Answer) (p : Polled)
      → All (λ a. in_maintenance_window windows a.now id ≡ false) answers
      → InSync p
      → InSync (polls windows id message is_aruba answers p)
  unfolding polls
  polls-InSync is_aruba [] p outside h = h
  polls-InSync is_aruba (a ∷ answers) p (one, outside) h =
      polls-InSync is_aruba answers (poll_status windows id message is_aruba a p) outside
        (poll_status-InSync is_aruba a p one h)

  -- A poll leaves the alerts alone and the device offline.
  abbrev LeavesDown : Polled → Polled → Type 0
  LeavesDown p q = (q.alerts ≡ p.alerts) × (q.status ≡ offline)

  settle_down :
      (now : ℕ) (p : Polled)
      → p.status ≡ offline
      → LeavesDown p (settle_status windows id message now false p)
  settle_down now p off = simp off (refl, refl)

  settle_gone :
      (now : ℕ) (p : Polled)
      → in_maintenance_window windows now id ≡ true
      → is_offline p.status ≡ false
      → LeavesDown p (settle_status windows id message now false p)
  unfolding go_offline raise_alert
  settle_gone now p inside was =
      let flipped : Polled = record p { status = offline; published = now ∷ p.published } in
      simp (was, inside)
        (
          alerts-set_fw_update now (get_fw_update now p) flipped,
          status-set_fw_update now (get_fw_update now p) flipped,
        )

  -- A poll of a device that does not answer, by what it does to the status.
  poll_down :
      (is_aruba : Bool) (a : Answer) (p : Polled)
      → is_reachable is_aruba a ≡ false
      → LeavesDown
          (read_so_far false a p)
          (settle_status windows id message a.now false (read_so_far false a p))
      → LeavesDown p (poll_status windows id message is_aruba a p)
  unfolding poll_status read_so_far
  poll_down is_aruba a p down (same, off) =
      subst (λ up. LeavesDown p (settle_status windows id message a.now up (read_so_far up a p)))
        (sym down) (same ∙ with_uptime-alerts a.snmp p, off)

  stays_down :
      (is_aruba : Bool) (a : Answer) (p : Polled)
      → is_reachable is_aruba a ≡ false
      → p.status ≡ offline
      → LeavesDown p (poll_status windows id message is_aruba a p)
  unfolding read_so_far
  stays_down is_aruba a p down off =
      poll_down is_aruba a p down
        (settle_down a.now (read_so_far false a p) (with_uptime-status a.snmp p ∙ off))

  gone_quietly :
      (is_aruba : Bool) (a : Answer) (p : Polled)
      → in_maintenance_window windows a.now id ≡ true
      → is_reachable is_aruba a ≡ false
      → is_offline p.status ≡ false
      → LeavesDown p (poll_status windows id message is_aruba a p)
  unfolding read_so_far
  gone_quietly is_aruba a p inside down was = poll_down is_aruba a p down (
      settle_gone a.now (read_so_far false a p) inside
        (ap is_offline (with_uptime-status a.snmp p) ∙ was))

  stay_down :
      (is_aruba : Bool) (answers : List Answer) (p : Polled)
      → All (λ a. is_reachable is_aruba a ≡ false) answers
      → p.status ≡ offline
      → ((polls windows id message is_aruba answers p).alerts ≡ p.alerts)
        × ((polls windows id message is_aruba answers p).status ≡ offline)
  unfolding polls
  stay_down is_aruba [] p down off = (refl, off)
  stay_down is_aruba (a ∷ answers) p (one, down) off =
      let (same, still) = stays_down is_aruba a p one off in
      let (later, end) =
        stay_down is_aruba answers (poll_status windows id message is_aruba a p) down still in
      (later ∙ same, end)

  -- A device that goes away inside a maintenance window and does not come back gets no offline alert,
  -- however long after the end of the window it is polled: the alert is raised at the change of the
  -- status alone, and that was suppressed.
  pub polls-silent :
      (is_aruba : Bool) (a : Answer) (answers : List Answer) (p : Polled)
      → in_maintenance_window windows a.now id ≡ true
      → is_reachable is_aruba a ≡ false
      → All (λ b. is_reachable is_aruba b ≡ false) answers
      → is_offline p.status ≡ false
      → ((polls windows id message is_aruba (a ∷ answers) p).alerts ≡ p.alerts)
        × ((polls windows id message is_aruba (a ∷ answers) p).status ≡ offline)
  unfolding polls
  polls-silent is_aruba a answers p inside down all_down was =
      let (same, off) = gone_quietly is_aruba a p inside down was in
      let (later, end) =
        stay_down is_aruba answers (poll_status windows id message is_aruba a p) all_down off in
      (later ∙ same, end)
