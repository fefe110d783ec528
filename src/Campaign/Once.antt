-- ===== src/Campaign/Once.antt =====
-- That no ring of a campaign is upgraded twice, whatever is asked in whatever order
-- (backend/src/routes/campaigns.ts).
use switchpilot.Prelude.{
  ℕ, ◌≡◌, refl, ap, sym, subst, inl, inr, String, true, List, [], ◌∷◌, Option, none, some,
  Bool-cases, Option-cases, arith,
}
use switchpilot.Campaign.{
  Campaign, CampaignStatus, Tables, Request, draft, running, paused, completed, aborted,
  find_campaign, next_ring, first_ring, ring_devices, start, start_found, start_first,
  advance_found, advance, advance_to, pause, paused_row, any_device, abort, set_device_ring,
}
use switchpilot.Campaign.Rings.{Distinct}
use switchpilot.Campaign.Progress.{
  any-updated, audited, IsCalm, Inv, Progress, is_active, upgraded_rings,
}
use switchpilot.Campaign.Enter.{start_ring-Inv, advance_to-Inv}

-- What can be asked of the tables.
pub data Ask : Type 0 where
  ask_start ask_advance ask_abort : Request → String → Ask
  ask_pause : String → Ask
  ask_device_ring : Request → ℕ → String → Ask

pausing : IsCalm paused_row
pausing = record {
  same_id = λ c. ground arith;
  same_rings = λ c. ground arith;
  same_current = λ c. ground arith;
  idle = λ c h. ground arith;
  undrafted = λ c h. ground arith;
}

aborting : IsCalm (λ c. record c { status = aborted })
aborting = record {
  same_id = λ c. refl;
  same_rings = λ c. refl;
  same_current = λ c. refl;
  idle = λ c h. refl;
  undrafted = λ c h. refl;
}

module _ (next_cron : String → ℕ → ℕ) where
  unfoldable pub ask : Ask → Tables → Tables
  ask (ask_start req id) t = (start next_cron req id t).1
  ask (ask_advance req id) t = (advance next_cron req id t).1
  ask (ask_abort req id) t = (abort req id t).1
  ask (ask_pause id) t = (pause id t).1
  ask (ask_device_ring req device ring) t = (set_device_ring req device ring t).1

  unfoldable pub asks : List Ask → Tables → Tables
  asks [] t = t
  asks (a ∷ rest) t = asks rest (ask a t)

  start-Inv :
      (id key : String) {rings : List String} (req : Request) (t : Tables)
      → Distinct rings
      → Inv id rings t
      → Inv id rings (start next_cron req key t).1
  unfolding start
  start-Inv id key {rings} req t d inv = elim (Option-cases (find_campaign key t.campaigns)) [
    | inl missing ↦ rw missing inv
    | inr (c, found) ↦ rw found (by_status c found c.status refl)
  ]
    where
      by_ring :
          (c : Campaign)
          → find_campaign key t.campaigns ≡ some c
          → c.status ≡ draft
          → (r : Option String) → first_ring c.rings ≡ r
          → Inv id rings (start_first next_cron req c r t).1
      by_ring c found e none first = inv
      by_ring c found e (some ring) first =
          start_ring-Inv next_cron id key req c ring (ring_devices ring t.devices) t d found e first
            inv

      by_status :
          (c : Campaign)
          → find_campaign key t.campaigns ≡ some c
          → (s : CampaignStatus) → c.status ≡ s
          → Inv id rings (start_found next_cron req (some c) t).1
      by_status c found draft e = rw e (by_ring c found e (first_ring c.rings) refl)
      by_status c found running e = rw e inv
      by_status c found paused e = rw e inv
      by_status c found completed e = rw e inv
      by_status c found aborted e = rw e inv

  advance-Inv :
      (id key : String) {rings : List String} (req : Request) (t : Tables)
      → Distinct rings
      → Inv id rings t
      → Inv id rings (advance next_cron req key t).1
  unfolding advance
  advance-Inv id key {rings} req t d inv = elim (Option-cases (find_campaign key t.campaigns)) [
    | inl missing ↦ rw missing inv
    | inr (c, found) ↦ rw found (by_status c found c.status refl)
  ]
    where
      to_next :
          (c : Campaign)
          → find_campaign key t.campaigns ≡ some c
          → is_active c.status ≡ true
          → Inv id rings (advance_to next_cron req c (next_ring c.current_ring c.rings) t).1
      to_next c found is_on =
          advance_to-Inv next_cron id key req c (next_ring c.current_ring c.rings) t d found is_on
            refl inv

      by_status :
          (c : Campaign)
          → find_campaign key t.campaigns ≡ some c
          → (s : CampaignStatus) → c.status ≡ s
          → Inv id rings (advance_found next_cron req (some c) t).1
      by_status c found running e = rw e (to_next c found (ap is_active e))
      by_status c found paused e = rw e (to_next c found (ap is_active e))
      by_status c found draft e = rw e inv
      by_status c found completed e = rw e inv
      by_status c found aborted e = rw e inv

  set_device_ring-Inv :
      (id : String) {rings : List String} (req : Request) (device : ℕ) (ring : String) (t : Tables)
      → Inv id rings t
      → Inv id rings (set_device_ring req device ring t).1
  unfolding set_device_ring
  set_device_ring-Inv id req device ring t inv = elim (Bool-cases (any_device device t.devices)) [
    | inl known ↦ rw known (record {
      row = inv.row;
      found = inv.found;
      of_rings = inv.of_rings;
      progress = inv.progress;
    })
    | inr unknown ↦ rw unknown inv
  ]

  ask-Inv :
      (id : String) {rings : List String} (a : Ask) (t : Tables)
      → Distinct rings
      → Inv id rings t
      → Inv id rings (ask a t)
  unfolding ask pause abort
  ask-Inv id (ask_start req key) t d inv = start-Inv id key req t d inv
  ask-Inv id (ask_advance req key) t d inv = advance-Inv id key req t d inv
  ask-Inv id (ask_abort req key) t d inv =
      audited id req "campaign.abort" key (any-updated id key _ aborting inv)
  ask-Inv id (ask_pause key) t d inv = any-updated id key paused_row pausing inv
  ask-Inv id (ask_device_ring req device ring) t d inv =
      set_device_ring-Inv id req device ring t inv

  asks-Inv :
      (id : String) {rings : List String} (all : List Ask) (t : Tables)
      → Distinct rings
      → Inv id rings t
      → Inv id rings (asks all t)
  unfolding asks
  asks-Inv id [] t d inv = inv
  asks-Inv id (a ∷ all) t d inv = asks-Inv id all (ask a t) d (ask-Inv id a t d inv)

  -- A campaign in draft, whose rings are distinct and for which no upgrade is queued, never queues
  -- two upgrades for one ring: not after any sequence of starts, advances, pauses and aborts of this
  -- and other campaigns and of changes of the rings of devices, each of them one step.
  pub asks-Distinct :
      (all : List Ask) (id : String) (t : Tables) (c : Campaign)
      → find_campaign id t.campaigns ≡ some c
      → c.status ≡ draft
      → Distinct c.rings
      → upgraded_rings id t.upgrades ≡ []
      → Distinct (upgraded_rings id (asks all t).upgrades)
  asks-Distinct all id t c found is_new d none_yet =
      let first : Inv id c.rings t = record {
        row = c;
        found = found;
        of_rings = refl;
        progress = inl (ap is_active is_new, none_yet);
      } in
      let last = asks-Inv id all t d first in
      once_of last.row.status last.row.current_ring _ last.progress
    where
      once_of :
          (s : CampaignStatus) (current : String) (queued : List String)
          → Progress s c.rings current queued
          → Distinct queued
      once_of s current queued (inl (off, e)) = subst Distinct (sym e) tt
      once_of s current queued (inr (on, moved)) = moved.once
