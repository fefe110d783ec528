-- ===== src/Campaign/Rings.antt =====
-- The order of the rings: what `indexOf` finds in a list without repetitions, and the row of a
-- campaign under an update (backend/src/routes/campaigns.ts).
use switchpilot.Prelude.{
  suc, ◌+◌, ◌≡◌, refl, ap, sym, ◌∙◌, inl, inr, String, Bool, true, false, ◌||◌, List, [], ◌∷◌, ◌++◌,
  some, Bool-cases, length, get_elem?, get_elem?-append, arith, str_eq, str_eq_iff, str_eq_refl,
}
use switchpilot.Campaign.{Campaign, find_campaign, update_campaign, index_of, next_ring, first_ring}

unfoldable pub mem : String → List String → Bool
mem ring [] = false
mem ring (r ∷ rings) = str_eq r ring || mem ring rings

abbrev pub Distinct : List String → Type 0
Distinct [] = Unit
Distinct (r ∷ rings) = (mem r rings ≡ false) × Distinct rings

pub mem-append-middle :
    (before : List String) (r : String) (rest : List String) → mem r (before ++ r ∷ rest) ≡ true
unfolding mem
mem-append-middle [] r rest = rw (str_eq_refl r) refl
mem-append-middle (b ∷ before) r rest = ground (arith, mem-append-middle before r rest)

pub Distinct-fresh :
    (before : List String) (r : String) (rest : List String)
    → Distinct (before ++ r ∷ rest)
    → mem r before ≡ false
unfolding mem
Distinct-fresh [] r rest d = refl
Distinct-fresh (b ∷ before) r rest (fresh, d) = elim (Bool-cases (str_eq b r)) [
  | inl same ↦
      let e : b ≡ r = (str_eq_iff b r).0 same in
      absurd (let h = mem-append-middle before r rest in ground (arith, h, fresh, e))
  | inr other ↦ rw (other, Distinct-fresh before r rest d) refl
]

pub Distinct-rest :
    (before : List String) (r : String) (rest : List String)
    → Distinct (before ++ r ∷ rest)
    → Distinct (r ∷ rest)
Distinct-rest [] r rest d = d
Distinct-rest (b ∷ before) r rest (fresh, d) = Distinct-rest before r rest d

pub index_of-middle :
    (before : List String) (r : String) (rest : List String)
    → mem r before ≡ false
    → index_of r (before ++ r ∷ rest) ≡ some (length before)
unfolding index_of mem
index_of-middle [] r rest h = rw (str_eq_refl r) refl
index_of-middle (b ∷ before) r rest h =
    let other : str_eq b r ≡ false = ground arith in
    let fresh : mem r before ≡ false = ground arith in
    rw (other, index_of-middle before r rest fresh) refl

-- In a list without repetitions the next ring is the one behind the current ring.
pub next_ring-middle :
    (before : List String) (r : String) (rest : List String)
    → Distinct (before ++ r ∷ rest)
    → next_ring r (before ++ r ∷ rest) ≡ first_ring rest
unfolding next_ring
next_ring-middle before r rest d =
    rw (index_of-middle before r rest (Distinct-fresh before r rest d)) (
      let e : suc (length before) ≡ length before + 1 = omega arith in
      rw (e, get_elem?-append before (r ∷ rest) 1) (head rest))
  where
    head : (l : List String) → get_elem? l 0 ≡ first_ring l
    head [] = refl
    head (x ∷ l) = refl

pub find_campaign-update_campaign :
    (id : String) (f : Campaign → Campaign) (cs : List Campaign) {c : Campaign}
    → ((d : Campaign) → (f d).id ≡ d.id)
    → find_campaign id cs ≡ some c
    → find_campaign id (update_campaign id f cs) ≡ some (f c)
unfolding find_campaign update_campaign
find_campaign-update_campaign id f [] keeps e = cc
find_campaign-update_campaign id f (d ∷ cs) {c} keeps e = elim (Bool-cases (str_eq d.id id)) [
  | inl mine ↦ hit mine (rw mine at e)
  | inr other ↦ rw (other, other) (find_campaign-update_campaign id f cs keeps (rw other at e))
]
  where
    hit :
        str_eq d.id id ≡ true
        → some d ≡ some c
        → find_campaign id (update_campaign id f (d ∷ cs)) ≡ some (f c)
    hit mine e =
        let same : d ≡ c = cc in
        let still : str_eq (f d).id id ≡ true = ap (λ (s : String). str_eq s id) (keeps d) ∙ mine in
        simp (mine, still) (ap (λ (x : Campaign). some (f x)) same)

pub find_campaign-other :
    (id other : String) (f : Campaign → Campaign) (cs : List Campaign)
    → ((d : Campaign) → (f d).id ≡ d.id)
    → str_eq other id ≡ false
    → find_campaign id (update_campaign other f cs) ≡ find_campaign id cs
unfolding find_campaign update_campaign
find_campaign-other id other f [] keeps ne = refl
find_campaign-other id other f (d ∷ cs) keeps ne = elim (Bool-cases (str_eq d.id other)) [
  | inl theirs ↦
      let e : d.id ≡ other = (str_eq_iff d.id other).0 theirs in
      let miss : str_eq d.id id ≡ false = ap (λ (s : String). str_eq s id) e ∙ ne in
      rw (theirs, keeps d, miss) (find_campaign-other id other f cs keeps ne)
  | inr skip ↦ rw (skip, find_campaign-other id other f cs keeps ne) refl
]

pub find_campaign-id :
    (id : String) (cs : List Campaign) {c : Campaign}
    → find_campaign id cs ≡ some c
    → str_eq c.id id ≡ true
unfolding find_campaign
find_campaign-id id [] e = absurd (cc)
find_campaign-id id (d ∷ cs) {c} e = elim (Bool-cases (str_eq d.id id)) [
  | inl mine ↦ hit mine (rw mine at e)
  | inr other ↦ find_campaign-id id cs (rw other at e)
]
  where
    hit : str_eq d.id id ≡ true → some d ≡ some c → str_eq c.id id ≡ true
    hit mine e = let same : d ≡ c = cc in rw (sym same) mine
