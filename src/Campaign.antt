-- ===== src/Campaign.antt =====
-- Staged firmware campaigns (backend/src/routes/campaigns.ts; the tables of
-- backend/migrations/004_lifecycle_rings_inventory.sql). A handler is one step on the tables, and
-- the jobs that it queues are those of the job engine; the payload of such a job stands in
-- `upgrades`, the latest first. An audit entry is the user, the action and the campaign; a device as
-- its target is left out.
pub mod Rings
pub mod Walk
mod Progress
mod Enter
pub mod Once
mod Tests
use switchpilot.Prelude.{
  ℕ, zero, suc, ◌+◌, ◌<◌, String, Bool, true, false, not, ◌&&◌, ◌||◌, List, [], ◌∷◌, ◌++◌, Option,
  none, some, map, length, get_elem?, keep, ◌==◌, if◌then◌else◌, str_eq,
}
use switchpilot.Jobs.Table.{Job, Table, truthy}
use switchpilot.Jobs.Service.{NewJob, create_job}

pub data CampaignStatus : Type 0 where
  draft running paused completed aborted : CampaignStatus

pub record Campaign : Type 0 where
  pub id : String
  pub name : String
  pub image_id : String
  pub status : CampaignStatus
  pub rings : List String
  pub wait_days : ℕ
  pub current_ring : String
  pub ring_started_at : Option ℕ
  pub created_by : String

-- A row of `firmware_campaign_results`, of which nothing but the insertion is in the code.
pub record RingResult : Type 0 where
  pub campaign_id : String
  pub ring : String
  pub device_id : ℕ

-- A row of `devices`; `known` is `status != 'unknown'`.
pub record Device : Type 0 where
  pub id : ℕ
  pub ring : String
  pub known : Bool

-- The payload of a `firmware_upgrade` job.
pub record Upgrade : Type 0 where
  pub job_id : ℕ
  pub image_id : String
  pub campaign_id : String
  pub ring : String

pub record Tables : Type 0 where
  pub campaigns : List Campaign
  pub results : List RingResult
  pub devices : List Device
  pub jobs : Table
  pub upgrades : List Upgrade
  pub audits : List (String × String × String)

pub data CampaignReply : Type 0 where
  not_found device_not_found completed_now accepted : CampaignReply
  already_in cannot_advance : CampaignStatus → CampaignReply
  no_devices : Option String → CampaignReply
  ring_started : String → ℕ → CampaignReply
  created : Campaign → CampaignReply

-- Who asks, the time, and the id that the database gives to a job of the request.
pub record Request : Type 0 where
  pub user : String
  pub now : ℕ
  pub job_id : ℕ

unfoldable pub find_campaign : String → List Campaign → Option Campaign
find_campaign id [] = none
find_campaign id (c ∷ cs) = if str_eq c.id id then some c else find_campaign id cs

unfoldable pub update_campaign : String → (Campaign → Campaign) → List Campaign → List Campaign
update_campaign id f [] = []
update_campaign id f (c ∷ cs) = (if str_eq c.id id then f c else c) ∷ update_campaign id f cs

-- `indexOf`, with `none` for -1.
unfoldable pub index_of : String → List String → Option ℕ
index_of ring [] = none
index_of ring (r ∷ rings) =
    let later = index_of ring rings in
    if str_eq r ring then some 0 else elim later [ none ↦ none | some i ↦ some (suc i) ]

abbrev pub after_index : Option ℕ → ℕ
after_index none = 0
after_index (some i) = suc i

unfoldable pub next_ring : String → List String → Option String
unfolding index_of
next_ring current rings = get_elem? rings (after_index (index_of current rings))

-- The devices of a ring that a campaign touches.
unfoldable pub ring_devices : String → List Device → List ℕ
ring_devices ring devices = map (λ d. d.id) (keep (λ d. str_eq d.ring ring && d.known) devices)

abbrev pub first_ring : List String → Option String
first_ring [] = none
first_ring (r ∷ rings) = some r

abbrev pub audit_row : Request → String → String → Tables → Tables
audit_row req action id t = record t { audits = (req.user, action, id) ∷ t.audits }

-- The rows of a ring. The table has no key but its own id, so that no row conflicts.
abbrev pub seed_rows : String → String → List ℕ → Tables → Tables
seed_rows id ring devices t = record t {
  results = t.results ++ map (λ d. record { campaign_id = id; ring = ring; device_id = d }) devices;
}

abbrev pub entered : ℕ → String → Campaign → Campaign
entered now ring c = record c { status = running; current_ring = ring; ring_started_at = some now }

-- The first route. The default of `rings[0]` is the one of the column.
abbrev pub ring_or_pilot : Option String → String
ring_or_pilot none = "pilot"
ring_or_pilot (some r) = r

abbrev pub new_campaign : Request → String → String → String → List String → ℕ → Campaign
new_campaign req id name image_id rings wait_days = record {
  id = id;
  name = name;
  image_id = image_id;
  status = draft;
  rings = rings;
  wait_days = wait_days;
  current_ring = ring_or_pilot (first_ring rings);
  ring_started_at = none;
  created_by = req.user;
}

unfoldable pub create_campaign :
    Request → String → String → String → List String → ℕ → Tables → CampaignReply × Tables
create_campaign req id name image_id rings wait_days t =
    let c = new_campaign req id name image_id rings wait_days in
    (created c, audit_row req "campaign.create" id (record t { campaigns = c ∷ t.campaigns }))

abbrev pub paused_row : Campaign → Campaign
paused_row c = elim c.status [ running ↦ record c { status = paused } | other ↦ c ]

unfoldable pub pause : String → Tables → CampaignReply × Tables
unfolding update_campaign
pause id t = (accepted, record t { campaigns = update_campaign id paused_row t.campaigns })

unfoldable pub abort : Request → String → Tables → CampaignReply × Tables
unfolding update_campaign
abort req id t = (
  accepted,
  audit_row req "campaign.abort" id (record t {
    campaigns = update_campaign id (λ c. record c { status = aborted }) t.campaigns;
  }),
)

abbrev pub any_device : ℕ → List Device → Bool
any_device id [] = false
any_device id (d ∷ ds) = d.id == id || any_device id ds

-- The route for the ring of a device; the schema allows three rings.
unfoldable pub set_device_ring : Request → ℕ → String → Tables → CampaignReply × Tables
set_device_ring req id ring t =
    if any_device id t.devices
    then (
      accepted,
      audit_row req "device.ring.set" "" (record t {
        devices = map (λ d. if d.id == id then record d { ring = ring } else d) t.devices;
      }),
    )
    else (device_not_found, t)

-- `next_cron` is the parameter of the job engine.
module _ (next_cron : String → ℕ → ℕ) where
  -- The call of createJob; `deviceIds` and nothing else is set.
  abbrev pub queue_upgrade : Request → Campaign → String → List ℕ → Tables → Tables
  queue_upgrade req c ring devices t = record t {
    jobs =
        create_job next_cron req.now req.job_id
          (record { device_ids = devices; schedule_at = none; cron = none; max_attempts = none })
          t.jobs;
    upgrades =
        record { job_id = req.job_id; image_id = c.image_id; campaign_id = c.id; ring = ring }
        ∷ t.upgrades;
  }

  abbrev pub queue_if_any : Request → Campaign → String → List ℕ → Tables → Tables
  queue_if_any req c ring [] t = t
  queue_if_any req c ring (d ∷ devices) t = queue_upgrade req c ring (d ∷ devices) t

  -- What both handlers do to enter a ring.
  unfoldable pub enter_ring : Request → Campaign → String → List ℕ → Tables → Tables
  unfolding update_campaign create_job
  enter_ring req c ring devices t =
      let moved : Tables = record t {
        campaigns = update_campaign c.id (entered req.now ring) t.campaigns;
      } in
      queue_if_any req c ring devices (seed_rows c.id ring devices moved)

  abbrev pub start_ring : Request → Campaign → String → List ℕ → Tables → CampaignReply × Tables
  start_ring req c ring [] t = (no_devices (some ring), t)
  start_ring req c ring (d ∷ devices) t = (
    ring_started ring (length (d ∷ devices)),
    audit_row req "campaign.start" c.id (enter_ring req c ring (d ∷ devices) t),
  )

  abbrev pub start_first : Request → Campaign → Option String → Tables → CampaignReply × Tables
  start_first req c none t = (no_devices none, t)
  start_first req c (some ring) t = start_ring req c ring (ring_devices ring t.devices) t

  abbrev pub start_found : Request → Option Campaign → Tables → CampaignReply × Tables
  start_found req none t = (not_found, t)
  start_found req (some c) t = elim c.status [
    | draft ↦ start_first req c (first_ring c.rings) t
    | other ↦ (already_in other, t)
  ]

  unfoldable pub start : Request → String → Tables → CampaignReply × Tables
  unfolding find_campaign enter_ring ring_devices
  start req id t = start_found req (find_campaign id t.campaigns) t

  abbrev pub complete : Campaign → Tables → CampaignReply × Tables
  complete c t = (
    completed_now,
    record t {
      campaigns = update_campaign c.id (λ d. record d { status = completed }) t.campaigns;
    },
  )

  -- An empty text is no ring, as an index out of range is.
  abbrev pub advance_to : Request → Campaign → Option String → Tables → CampaignReply × Tables
  advance_to req c none t = complete c t
  advance_to req c (some ring) t =
      if truthy (some ring)
      then (
        ring_started ring (length (ring_devices ring t.devices)),
        audit_row req "campaign.advance" c.id
            (enter_ring req c ring (ring_devices ring t.devices) t),
      )
      else complete c t

  abbrev pub advance_found : Request → Option Campaign → Tables → CampaignReply × Tables
  advance_found req none t = (not_found, t)
  advance_found req (some c) t = elim c.status [
    | running ↦ advance_to req c (next_ring c.current_ring c.rings) t
    | paused ↦ advance_to req c (next_ring c.current_ring c.rings) t
    | other ↦ (cannot_advance other, t)
  ]

  unfoldable pub advance : Request → String → Tables → CampaignReply × Tables
  unfolding find_campaign next_ring enter_ring ring_devices update_campaign
  advance req id t = advance_found req (find_campaign id t.campaigns) t
