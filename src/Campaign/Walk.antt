-- ===== src/Campaign/Walk.antt =====
-- The walk of a campaign through its rings, one advance after the other
-- (backend/src/routes/campaigns.ts).
use switchpilot.Prelude.{
  ℕ, ◌≡◌, ◌≢◌, refl, ap, sym, subst, ◌∙◌, String, true, List, [], ◌∷◌, ◌++◌, Option, none, some,
  append_assoc, length, get_elem?, All, str_eq_iff,
}
use switchpilot.Jobs.Table.{truthy}
use switchpilot.Campaign.{
  Campaign, Tables, Request, draft, running, completed, find_campaign, update_campaign, next_ring,
  first_ring, ring_devices, entered, enter_ring, start_ring, start, advance,
}
use switchpilot.Campaign.Rings.{
  Distinct, next_ring-middle, find_campaign-update_campaign, find_campaign-id,
}

-- Where a campaign stands: at a ring, or behind the last one.
abbrev pub AtRing : Option String → Campaign → Type 0
AtRing none c = c.status ≡ completed
AtRing (some ring) c = (c.status ≡ running) × (c.current_ring ≡ ring)

abbrev pub IsNamed : String → Type 0
IsNamed ring = truthy (some ring) ≡ true

pub find_campaign-updated :
    (id : String) (f : Campaign → Campaign) (cs : List Campaign) {c : Campaign}
    → ((d : Campaign) → (f d).id ≡ d.id)
    → find_campaign id cs ≡ some c
    → find_campaign id (update_campaign c.id f cs) ≡ some (f c)
find_campaign-updated id f cs {c} keeps e =
    ap (λ (s : String). find_campaign id (update_campaign s f cs))
      ((str_eq_iff c.id id).0 (find_campaign-id id cs e))
    ∙ find_campaign-update_campaign id f cs keeps e

pub first_ring-some :
    (rings : List String) {ring : String}
    → first_ring rings ≡ some ring
    → (rest : List String) × (rings ≡ ring ∷ rest)
first_ring-some [] e = absurd (cc)
first_ring-some (r ∷ rings) e = (rings, cc)

module _ (next_cron : String → ℕ → ℕ) where
  pub campaigns-enter_ring :
      (req : Request) (c : Campaign) (ring : String) (devices : List ℕ) (t : Tables)
      → (enter_ring next_cron req c ring devices t).campaigns
        ≡ update_campaign c.id (entered req.now ring) t.campaigns
  unfolding enter_ring
  campaigns-enter_ring req c ring [] t = refl
  campaigns-enter_ring req c ring (d ∷ devices) t = refl

  -- One advance for each request.
  unfoldable pub advances : String → List Request → Tables → Tables
  advances id [] t = t
  advances id (req ∷ reqs) t = advances id reqs (advance next_cron req id t).1

  -- An advance to a ring.
  advance-some :
      (req : Request) (id : String) (t : Tables) {c : Campaign} {ring : String}
      → find_campaign id t.campaigns ≡ some c
      → c.status ≡ running
      → next_ring c.current_ring c.rings ≡ some ring
      → IsNamed ring
      → find_campaign id (advance next_cron req id t).1.campaigns ≡ some (entered req.now ring c)
  unfolding advance
  advance-some req id t {c} {ring} found is_on next named =
      simp (found, is_on, next, named)
        (ap (find_campaign id) (campaigns-enter_ring req c ring (ring_devices ring t.devices) t)
          ∙ find_campaign-updated id (entered req.now ring) t.campaigns (λ d. refl) found)

  -- An advance past the last ring.
  advance-none :
      (req : Request) (id : String) (t : Tables) {c : Campaign}
      → find_campaign id t.campaigns ≡ some c
      → c.status ≡ running
      → next_ring c.current_ring c.rings ≡ none
      → find_campaign id (advance next_cron req id t).1.campaigns
        ≡ some (record c { status = completed })
  unfolding advance
  advance-none req id t {c} found is_on next =
      simp (found, is_on, next)
        (find_campaign-updated id (λ d. record d { status = completed }) t.campaigns (λ d. refl)
          found)

  advances-completed :
      (id : String) (reqs : List Request) (t : Tables) {c : Campaign}
      → find_campaign id t.campaigns ≡ some c
      → c.status ≡ completed
      → find_campaign id (advances id reqs t).campaigns ≡ some c
  unfolding advances advance
  advances-completed id [] t found over = found
  advances-completed id (req ∷ reqs) t found over =
      advances-completed id reqs (advance next_cron req id t).1 (simp (found, over) refl) over

  -- From a ring on, the rings follow in their order.
  from_ring :
      (id : String) (reqs : List Request) (t : Tables) (before rest : List String) {c : Campaign}
      → find_campaign id t.campaigns ≡ some c
      → c.status ≡ running
      → c.rings ≡ before ++ c.current_ring ∷ rest
      → Distinct c.rings
      → All IsNamed rest
      → (c2 : Campaign) × (find_campaign id (advances id reqs t).campaigns ≡ some c2)
        × AtRing (get_elem? (c.current_ring ∷ rest) (length reqs)) c2
  unfolding advances
  from_ring id [] t before rest {c} found is_on split d named = (c, found, (is_on, refl))
  from_ring id (req ∷ reqs) t before [] {c} found is_on split d named =
      let last : next_ring c.current_ring c.rings ≡ none =
        simp split (next_ring-middle before c.current_ring [] (subst Distinct split d)) in
      let over = record c { status = completed } in
      (
        over,
        advances-completed id reqs (advance next_cron req id t).1
            (advance-none req id t found is_on last) refl,
        refl,
      )
  from_ring id (req ∷ reqs) t before (n ∷ rest) {c} found is_on split d (name, named) =
      let next : next_ring c.current_ring c.rings ≡ some n =
        simp split (next_ring-middle before c.current_ring (n ∷ rest) (subst Distinct split d)) in
      from_ring id reqs (advance next_cron req id t).1 (before ++ c.current_ring ∷ []) rest
        (advance-some req id t found is_on next name) refl
        (split ∙ sym (append_assoc before (c.current_ring ∷ []) (n ∷ rest))) d named

  start-some :
      (req : Request) (id : String) (t : Tables) {c : Campaign} {ring : String}
      → find_campaign id t.campaigns ≡ some c
      → c.status ≡ draft
      → first_ring c.rings ≡ some ring
      → ring_devices ring t.devices ≢ []
      → find_campaign id (start next_cron req id t).1.campaigns ≡ some (entered req.now ring c)
  unfolding start
  start-some req id t {c} {ring} found is_draft first some_device =
      simp (found, is_draft, first) (by_devices (ring_devices ring t.devices) some_device)
    where
      by_devices :
          (ids : List ℕ)
          → ids ≢ []
          → find_campaign id (start_ring next_cron req c ring ids t).1.campaigns
            ≡ some (entered req.now ring c)
      by_devices [] some_id = absurd (some_id refl)
      by_devices (d ∷ ids) some_id =
          ap (find_campaign id) (campaigns-enter_ring req c ring (d ∷ ids) t)
          ∙ find_campaign-updated id (entered req.now ring) t.campaigns (λ e. refl) found

  -- A draft whose rings are named and distinct and whose first ring has a device walks the rings in
  -- their order: after the start and any number n of advances it is running at ring number n, and
  -- completed once there are no more rings. Nothing else touches its row meanwhile.
  pub advances-AtRing :
      (req : Request) (reqs : List Request) (id : String) (t : Tables) (c : Campaign)
      (ring : String)
      → find_campaign id t.campaigns ≡ some c
      → c.status ≡ draft
      → Distinct c.rings
      → All IsNamed c.rings
      → first_ring c.rings ≡ some ring
      → ring_devices ring t.devices ≢ []
      → (c2 : Campaign) × (find_campaign id
            (advances id reqs (start next_cron req id t).1).campaigns
          ≡ some c2)
        × AtRing (get_elem? c.rings (length reqs)) c2
  advances-AtRing req reqs id t c ring found is_draft d named first some_device =
      let (rest, split) = first_ring-some c.rings first in
      let at_ring =
        from_ring id reqs (start next_cron req id t).1 [] rest
          (start-some req id t found is_draft first some_device) refl split d
          (subst (All IsNamed) split named).1 in
      subst
        (λ rings.
          (c2 : Campaign) × (find_campaign id
              (advances id reqs (start next_cron req id t).1).campaigns
            ≡ some c2)
          × AtRing (get_elem? rings (length reqs)) c2)
        (sym split) at_ring
