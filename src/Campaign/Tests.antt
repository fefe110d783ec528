-- ===== src/Campaign/Tests.antt =====
-- A campaign over two rings, and the theorems at inputs that meet their hypotheses.
use switchpilot.Prelude.{
  ℕ, ◌*◌, ◌≡◌, ◌≢◌, refl, String, true, false, List, [], ◌∷◌, none, some, get_elem?,
}
use switchpilot.Jobs.Service.{create_job}
use switchpilot.Campaign.{
  Campaign, Tables, Request, draft, find_campaign, update_campaign, next_ring, index_of,
  ring_devices, enter_ring, start, advance, completed_now, ring_started,
}
use switchpilot.Campaign.Rings.{Distinct, mem}
use switchpilot.Campaign.Walk.{AtRing, advances, advances-AtRing}
use switchpilot.Campaign.Progress.{upgraded_rings}
use switchpilot.Campaign.Once.{
  Ask, ask_start, ask_advance, ask_pause, ask_device_ring, asks, asks-Distinct,
}

abbrev no_cron : String → ℕ → ℕ
no_cron expr now = now

abbrev two_rings : Campaign
two_rings = record {
  id = "c1";
  name = "spring";
  image_id = "img";
  status = draft;
  rings = "pilot" ∷ "production" ∷ [];
  wait_days = 7;
  current_ring = "pilot";
  ring_started_at = none;
  created_by = "ann";
}

abbrev site : Tables
site = record {
  campaigns = two_rings ∷ [];
  results = [];
  devices =
      record { id = 1; ring = "pilot"; known = true }
      ∷ record { id = 2; ring = "production"; known = true }
      ∷ record { id = 3; ring = "production"; known = false }
      ∷ [];
  jobs = [];
  upgrades = [];
  audits = [];
}

abbrev request : ℕ → Request
request n = record { user = "ann"; now = 1000 * n; job_id = n }

-- The start and two advances end the campaign; the device that was never seen is left out.
whole_walk :
    ((start no_cron (request 1) "c1" site).0 ≡ ring_started "pilot" 1)
    × ((advance no_cron (request 2) "c1" (start no_cron (request 1) "c1" site).1).0
        ≡ ring_started "production" 1)
    × ((advance no_cron
          (request 3)
          "c1"
          (advance no_cron (request 2) "c1" (start no_cron (request 1) "c1" site).1).1).0
        ≡ completed_now)
unfolding start advance find_campaign update_campaign next_ring index_of ring_devices enter_ring
    create_job
whole_walk = (refl, refl, refl)

some_pilot : ring_devices "pilot" site.devices ≢ []
unfolding ring_devices
some_pilot = λ e. cc

advances-AtRing_example :
    (c2 : Campaign) × (find_campaign "c1"
        (advances no_cron "c1" (request 2 ∷ []) (start no_cron (request 1) "c1" site).1).campaigns
      ≡ some c2)
    × AtRing (get_elem? two_rings.rings 1) c2
unfolding find_campaign mem
advances-AtRing_example =
    advances-AtRing no_cron (request 1) (request 2 ∷ []) "c1" site two_rings "pilot" refl refl
      (refl, (refl, tt)) (refl, (refl, tt)) refl some_pilot

abbrev busy_day : List Ask
busy_day =
    ask_start (request 1) "c1"
    ∷ ask_start (request 2) "c1"
    ∷ ask_pause "c1"
    ∷ ask_device_ring (request 3) 1 "production"
    ∷ ask_advance (request 4) "c1"
    ∷ []

asks-Distinct_example : Distinct (upgraded_rings "c1" (asks no_cron busy_day site).upgrades)
unfolding find_campaign mem upgraded_rings
asks-Distinct_example =
    asks-Distinct no_cron busy_day "c1" site two_rings refl refl (refl, (refl, tt)) refl
