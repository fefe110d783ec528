-- ===== src/Campaign/Progress.antt =====
-- How far a campaign has come through its rings, and the updates of rows that keep it so
-- (backend/src/routes/campaigns.ts).
use switchpilot.Prelude.{
  ◌≡◌, refl, sym, subst, ◌∙◌, inl, inr, ◌⊎◌, String, Bool, true, false, List, [], ◌∷◌, ◌++◌, some,
  All, All-mono, Bool-cases, arith, str_eq, str_eq_iff, if◌then◌else◌,
}
use switchpilot.Campaign.{
  Campaign, CampaignStatus, Tables, Request, Upgrade, draft, running, paused, completed,
  find_campaign, update_campaign, audit_row,
}
use switchpilot.Campaign.Rings.{mem, Distinct, find_campaign-update_campaign, find_campaign-other}

-- The rings for which a campaign has queued an upgrade, the latest first.
unfoldable pub upgraded_rings : String → List Upgrade → List String
upgraded_rings id [] = []
upgraded_rings id (u ∷ upgrades) =
    let rest = upgraded_rings id upgrades in if str_eq u.campaign_id id then u.ring ∷ rest else rest

abbrev pub is_active : CampaignStatus → Bool
is_active running = true
is_active paused = true
is_active _ = false

abbrev pub is_draft : CampaignStatus → Bool
is_draft draft = true
is_draft _ = false

-- The rings behind the current one have had no upgrade, and no ring two of them.
pub record Moved (rings : List String) (current : String) (queued : List String) : Type 0 where
  pub before : List String
  pub rest : List String
  pub split : rings ≡ before ++ current ∷ rest
  pub untouched : All (λ r. mem r rest ≡ false) queued
  pub once : Distinct queued

abbrev pub Progress : CampaignStatus → List String → String → List String → Type 0
Progress status rings current queued =
    ((is_active status ≡ false) × (queued ≡ []))
    ⊎ ((is_draft status ≡ false) × Moved rings current queued)

-- An update that starts nothing and makes no draft.
pub record IsCalm (f : Campaign → Campaign) : Type 0 where
  pub same_id : (c : Campaign) → (f c).id ≡ c.id
  pub same_rings : (c : Campaign) → (f c).rings ≡ c.rings
  pub same_current : (c : Campaign) → (f c).current_ring ≡ c.current_ring
  pub idle : (c : Campaign) → is_active c.status ≡ false → is_active (f c).status ≡ false
  pub undrafted : (c : Campaign) → is_draft c.status ≡ false → is_draft (f c).status ≡ false

pub record Inv (id : String) (rings : List String) (t : Tables) : Type 0 where
  pub row : Campaign
  pub found : find_campaign id t.campaigns ≡ some row
  pub of_rings : row.rings ≡ rings
  pub progress : Progress row.status rings row.current_ring (upgraded_rings id t.upgrades)

-- Of the rings queued, none is one of the rings `n ∷ rest`, so `n` may be queued.
pub absent-mem :
    (n : String) (rest queued : List String)
    → All (λ r. mem r (n ∷ rest) ≡ false) queued
    → mem n queued ≡ false
unfolding mem
absent-mem n rest [] h = refl
absent-mem n rest (q ∷ queued) (h, hs) = elim (Bool-cases (str_eq q n)) [
  | inl same ↦
      let e : q ≡ n = (str_eq_iff q n).0 same in
      let e2 : str_eq n q ≡ true = (str_eq_iff n q).1 (sym e) in absurd (ground (arith, h, e2))
  | inr other ↦ rw (other, absent-mem n rest queued hs) refl
]

pub absent-rest :
    (n : String) (rest queued : List String)
    → All (λ r. mem r (n ∷ rest) ≡ false) queued
    → All (λ r. mem r rest ≡ false) queued
unfolding mem
absent-rest n rest queued =
    All-mono (λ r. mem r (n ∷ rest) ≡ false) (λ r. mem r rest ≡ false)
      (λ (r : String) (h : mem r (n ∷ rest) ≡ false). ground arith) queued

-- The row of the campaign after an update of it.
pub own-updated :
    (id : String) (f : Campaign → Campaign) {rings : List String} {t : Tables}
    → IsCalm f
    → Inv id rings t
    → Inv id rings (record t { campaigns = update_campaign id f t.campaigns })
own-updated id f {rings} {t} calm inv = record {
  row = f inv.row;
  found = find_campaign-update_campaign id f t.campaigns calm.same_id inv.found;
  of_rings = calm.same_rings inv.row ∙ inv.of_rings;
  progress = elim inv.progress [
    | inl (off, none_yet) ↦ inl (calm.idle inv.row off, none_yet)
    | inr (on, moved) ↦ inr (
      calm.undrafted inv.row on,
      subst (λ cur. Moved rings cur (upgraded_rings id t.upgrades))
          (sym (calm.same_current inv.row)) moved,
    )
  ];
}

pub other-updated :
    (id other : String) (f : Campaign → Campaign) {rings : List String} {t : Tables}
    → ((c : Campaign) → (f c).id ≡ c.id)
    → str_eq other id ≡ false
    → Inv id rings t
    → Inv id rings (record t { campaigns = update_campaign other f t.campaigns })
other-updated id other f {rings} {t} keeps ne inv = record {
  row = inv.row;
  found = find_campaign-other id other f t.campaigns keeps ne ∙ inv.found;
  of_rings = inv.of_rings;
  progress = inv.progress;
}

-- An update of whichever campaign.
pub any-updated :
    (id key : String) (f : Campaign → Campaign) {rings : List String} {t : Tables}
    → IsCalm f
    → Inv id rings t
    → Inv id rings (record t { campaigns = update_campaign key f t.campaigns })
any-updated id key f {rings} {t} calm inv = elim (Bool-cases (str_eq key id)) [
  | inl mine ↦
      subst (λ k. Inv id rings (record t { campaigns = update_campaign k f t.campaigns }))
        (sym ((str_eq_iff key id).0 mine)) (own-updated id f calm inv)
  | inr theirs ↦ other-updated id key f calm.same_id theirs inv
]

pub audited :
    (id : String) (req : Request) (action key : String) {rings : List String} {t : Tables}
    → Inv id rings t
    → Inv id rings (audit_row req action key t)
audited id req action key inv = record {
  row = inv.row;
  found = inv.found;
  of_rings = inv.of_rings;
  progress = inv.progress;
}

pub completing : IsCalm (λ c. record c { status = completed })
completing = record {
  same_id = λ c. refl;
  same_rings = λ c. refl;
  same_current = λ c. refl;
  idle = λ c h. refl;
  undrafted = λ c h. refl;
}
