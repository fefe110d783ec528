-- ===== src/Campaign/Enter.antt =====
-- What entering a ring does to the progress of a campaign (backend/src/routes/campaigns.ts).
use switchpilot.Prelude.{
  ℕ, ◌≡◌, refl, ap, sym, subst, ◌∙◌, inl, inr, ◌⊎◌, String, true, false, List, [], ◌∷◌, ◌++◌,
  Option, none, some, append_assoc, All, Bool-cases, str_eq, str_eq_iff,
}
use switchpilot.Jobs.Table.{truthy}
use switchpilot.Campaign.{
  Campaign, Tables, Request, draft, completed, find_campaign, next_ring, first_ring, ring_devices,
  entered, enter_ring, start_ring, advance_to,
}
use switchpilot.Campaign.Rings.{
  mem, Distinct, Distinct-rest, next_ring-middle, find_campaign-other, find_campaign-id,
}
use switchpilot.Campaign.Walk.{find_campaign-updated, campaigns-enter_ring, first_ring-some}
use switchpilot.Campaign.Progress.{
  any-updated, audited, completing, Inv, Moved, Progress, is_active, is_draft, absent-mem,
  absent-rest, upgraded_rings,
}

module _ (next_cron : String → ℕ → ℕ) where
  upgraded_rings-other :
      (id : String) (req : Request) (c : Campaign) (ring : String) (devices : List ℕ) (t : Tables)
      → str_eq c.id id ≡ false
      → upgraded_rings id (enter_ring next_cron req c ring devices t).upgrades
        ≡ upgraded_rings id t.upgrades
  unfolding enter_ring upgraded_rings
  upgraded_rings-other id req c ring [] t ne = refl
  upgraded_rings-other id req c ring (d ∷ devices) t ne = rw ne refl

  upgraded_rings-own :
      (id : String) (req : Request) (c : Campaign) (ring : String) (devices : List ℕ) (t : Tables)
      → str_eq c.id id ≡ true
      → (upgraded_rings id (enter_ring next_cron req c ring devices t).upgrades
          ≡ upgraded_rings id t.upgrades)
        ⊎ (upgraded_rings id (enter_ring next_cron req c ring devices t).upgrades
            ≡ ring ∷ upgraded_rings id t.upgrades)
  unfolding enter_ring upgraded_rings
  upgraded_rings-own id req c ring [] t mine = inl refl
  upgraded_rings-own id req c ring (d ∷ devices) t mine = inr (rw mine refl)

  enter_ring-other :
      (id : String) {rings : List String} (req : Request) (c : Campaign) (ring : String)
      (devices : List ℕ) (t : Tables)
      → str_eq c.id id ≡ false
      → Inv id rings t
      → Inv id rings (enter_ring next_cron req c ring devices t)
  enter_ring-other id {rings} req c ring devices t ne inv = record {
    row = inv.row;
    found =
        ap (find_campaign id) (campaigns-enter_ring next_cron req c ring devices t)
        ∙ find_campaign-other id c.id (entered req.now ring) t.campaigns (λ d. refl) ne
        ∙ inv.found;
    of_rings = inv.of_rings;
    progress =
        subst (Progress inv.row.status rings inv.row.current_ring)
          (sym (upgraded_rings-other id req c ring devices t ne)) inv.progress;
  }

  -- The campaign enters a ring that no upgrade was queued for, nor for those behind it.
  enter_ring-own :
      (id : String) (before rest : List String) {rings : List String} (req : Request) (c : Campaign)
      (ring : String) (devices : List ℕ) (t : Tables)
      → find_campaign id t.campaigns ≡ some c
      → c.rings ≡ rings
      → rings ≡ before ++ ring ∷ rest
      → Distinct rings
      → All (λ r. mem r (ring ∷ rest) ≡ false) (upgraded_rings id t.upgrades)
      → Distinct (upgraded_rings id t.upgrades)
      → Inv id rings (enter_ring next_cron req c ring devices t)
  enter_ring-own id before rest {rings} req c ring devices t found of_rings split d absent once =
      record {
        row = entered req.now ring c;
        found =
            ap (find_campaign id) (campaigns-enter_ring next_cron req c ring devices t)
            ∙ find_campaign-updated id (entered req.now ring) t.campaigns (λ e. refl) found;
        of_rings = of_rings;
        progress = inr (
          refl,
          moved
              (upgraded_rings-own id req c ring devices t (find_campaign-id id t.campaigns found)),
        );
      }
    where
      after : List String
      after = upgraded_rings id (enter_ring next_cron req c ring devices t).upgrades

      moved_to :
          (queued : List String)
          → All (λ r. mem r rest ≡ false) queued
          → Distinct queued
          → after ≡ queued
          → Moved rings ring after
      moved_to queued none_behind single e = record {
        before = before;
        rest = rest;
        split = split;
        untouched = subst (All (λ r. mem r rest ≡ false)) (sym e) none_behind;
        once = subst Distinct (sym e) single;
      }

      moved :
          (after ≡ upgraded_rings id t.upgrades) ⊎ (after ≡ ring ∷ upgraded_rings id t.upgrades)
          → Moved rings ring after
      moved (inl same) =
          moved_to (upgraded_rings id t.upgrades)
            (absent-rest ring rest (upgraded_rings id t.upgrades) absent) once same
      moved (inr more) =
          moved_to (ring ∷ upgraded_rings id t.upgrades)
            (
              (Distinct-rest before ring rest (subst Distinct split d)).0,
              absent-rest ring rest (upgraded_rings id t.upgrades) absent,
            )
            (absent-mem ring rest (upgraded_rings id t.upgrades) absent, once) more

  -- A request that enters a ring of whichever campaign: of this one, the ring must be the next.
  enter_ring-Inv :
      (id key : String) {rings : List String} (req : Request) (c : Campaign) (ring : String)
      (devices : List ℕ) (t : Tables)
      → find_campaign key t.campaigns ≡ some c
      → ((inv : Inv id rings t)
          → inv.row ≡ c
          → Inv id rings (enter_ring next_cron req c ring devices t))
      → Inv id rings t
      → Inv id rings (enter_ring next_cron req c ring devices t)
  enter_ring-Inv id key {rings} req c ring devices t found own inv =
      elim (Bool-cases (str_eq c.id id)) [
        | inr theirs ↦ enter_ring-other id req c ring devices t theirs inv
        | inl mine ↦
            let key_is : c.id ≡ key =
              (str_eq_iff c.id key).0 (find_campaign-id key t.campaigns found) in
            let e : key ≡ id = sym key_is ∙ (str_eq_iff c.id id).0 mine in
            own inv (
              some_inj
                (sym inv.found ∙ ap (λ (s : String). find_campaign s t.campaigns) (sym e) ∙ found))
      ]
    where
      some_inj : {a b : Campaign} → some a ≡ some b → a ≡ b
      some_inj e = cc

  pub start_ring-Inv :
      (id key : String) {rings : List String} (req : Request) (c : Campaign) (ring : String)
      (devices : List ℕ) (t : Tables)
      → Distinct rings
      → find_campaign key t.campaigns ≡ some c
      → c.status ≡ draft
      → first_ring c.rings ≡ some ring
      → Inv id rings t
      → Inv id rings (start_ring next_cron req c ring devices t).1
  start_ring-Inv id key req c ring [] t d found is_new first inv = inv
  start_ring-Inv id key {rings} req c ring (n ∷ devices) t d found is_new first inv =
      audited id req "campaign.start" c.id
        (enter_ring-Inv id key req c ring (n ∷ devices) t found own inv)
    where
      fresh :
          (queued : List String) (rest : List String)
          → queued ≡ []
          → All (λ r. mem r (ring ∷ rest) ≡ false) queued × Distinct queued
      fresh [] rest e = (tt, tt)
      fresh (q ∷ queued) rest e = absurd (cc)

      own :
          (i : Inv id rings t)
          → i.row ≡ c
          → Inv id rings (enter_ring next_cron req c ring (n ∷ devices) t)
      own i same = elim i.progress [
        | inr (on, moved) ↦ absurd (
            let e : i.row.status ≡ draft = ap (λ (x : Campaign). x.status) same ∙ is_new in
            let two : is_draft draft ≡ false = ap is_draft (sym e) ∙ on in cc)
        | inl (off, none_yet) ↦
            let of_rings : c.rings ≡ rings =
              ap (λ (x : Campaign). x.rings) (sym same) ∙ i.of_rings in
            let (rest, split) = first_ring-some c.rings first in
            let (absent, once) = fresh (upgraded_rings id t.upgrades) rest none_yet in
            enter_ring-own id [] rest req c ring (n ∷ devices) t (i.found ∙ ap (λ x. some x) same)
              of_rings (sym of_rings ∙ split) d absent once
      ]

  pub advance_to-Inv :
      (id key : String) {rings : List String} (req : Request) (c : Campaign) (next : Option String)
      (t : Tables)
      → Distinct rings
      → find_campaign key t.campaigns ≡ some c
      → is_active c.status ≡ true
      → next_ring c.current_ring c.rings ≡ next
      → Inv id rings t
      → Inv id rings (advance_to next_cron req c next t).1
  advance_to-Inv id key req c none t d found is_on next inv =
      any-updated id c.id (λ e. record e { status = completed }) completing inv
  advance_to-Inv id key {rings} req c (some ring) t d found is_on next inv =
      elim (Bool-cases (truthy (some ring))) [
        | inr empty ↦
            rw empty (any-updated id c.id (λ e. record e { status = completed }) completing inv)
        | inl named ↦ rw named (
            audited id req "campaign.advance" c.id
              (enter_ring-Inv id key req c ring (ring_devices ring t.devices) t found own inv))
      ]
    where
      own :
          (i : Inv id rings t)
          → i.row ≡ c
          → Inv id rings (enter_ring next_cron req c ring (ring_devices ring t.devices) t)
      own i same = elim i.progress [
        | inl (off, none_yet) ↦ absurd (
            let two : is_active c.status ≡ false =
              ap (λ (x : Campaign). is_active x.status) (sym same) ∙ off in
            cc)
        | inr (on, moved) ↦
            let of_rings : c.rings ≡ rings =
              ap (λ (x : Campaign). x.rings) (sym same) ∙ i.of_rings in
            let split : rings ≡ moved.before ++ c.current_ring ∷ moved.rest =
              moved.split
              ∙ ap (λ (x : Campaign). moved.before ++ x.current_ring ∷ moved.rest) same in
            let here : first_ring moved.rest ≡ some ring =
              sym (next_ring-middle moved.before c.current_ring moved.rest (subst Distinct split d))
              ∙ ap (next_ring c.current_ring) (sym split ∙ sym of_rings)
              ∙ next in
            let (rest, behind) = first_ring-some moved.rest here in
            enter_ring-own id (moved.before ++ c.current_ring ∷ []) rest req c ring
              (ring_devices ring t.devices) t (i.found ∙ ap (λ x. some x) same) of_rings
              (split
                ∙ ap (λ (l : List String). moved.before ++ c.current_ring ∷ l) behind
                ∙ sym (append_assoc moved.before (c.current_ring ∷ []) (ring ∷ rest)))
              d
              (subst (λ l. All (λ r. mem r l ≡ false) (upgraded_rings id t.upgrades)) behind
                moved.untouched)
              moved.once
      ]
