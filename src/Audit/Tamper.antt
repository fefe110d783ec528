-- ===== src/Audit/Tamper.antt =====
-- What the verification of the audit log can tell: the contents before a row that stays, up to the
-- separator of the hashed text.
use Prim.Native.String.{◌++◌ as str_append}
use text.Mathlib.TextLemmas.{append_assoc as text_assoc}
use switchpilot.Prelude.{
  ℕ, ◌≡◌, inl, inr, refl, sym, ◌∙◌, String, Bool, true, false, [], ◌∷◌, ◌++◌, keep, length,
  Bool-cases,
}
use switchpilot.Audit.{Row, Log, join_bar, canonical, is_hashed, verify_rows, verify_audit_chain}
use switchpilot.Audit.Chain.{Linked, verify_rows-Linked}

module _ (sha256 : String → String) where
  -- A row with the next one: the row's hash is that of its contents, and the next row names it.
  pinned :
      (first : Bool) (expected : String) (before after : Log) (r next : Row)
      → is_hashed r ≡ true
      → is_hashed next ≡ true
      → Linked sha256 first expected (keep is_hashed (before ++ (r ∷ next ∷ after)))
      → (sha256 (canonical r.prev_hash r) ≡ next.prev_hash)
  pinned first expected [] after r next h g linked =
      chained r next (keep is_hashed after) (rw (h, g) at linked)
    where
      chained :
          (r next : Row) (rows : Log)
          → Linked sha256 first expected (r ∷ next ∷ rows)
          → sha256 (canonical r.prev_hash r) ≡ next.prev_hash
      chained r next rows (near, same, links) = elim links.0 [
        | inl begins ↦ cc
        | inr named ↦ same ∙ sym named
      ]
  pinned first expected (b ∷ before) after r next h g linked = elim (Bool-cases (is_hashed b)) [
    | inl hashed ↦ pinned false b.entry_hash before after r next h g (rw hashed at linked).2
    | inr legacy ↦ pinned first expected before after r next h g (rw legacy at linked)
  ]

  -- If two logs verify and hold the same hashed row, and the hash has no collision, then the hashed
  -- rows just before that row, whether they are the same or not, have the same text under the hash.
  pub verify_audit_chain-pins :
      (before before' after after' : Log) (r r' next : Row)
      → ((a b : String) → sha256 a ≡ sha256 b → a ≡ b)
      → is_hashed r ≡ true
      → is_hashed r' ≡ true
      → is_hashed next ≡ true
      → (verify_audit_chain sha256 (before ++ (r ∷ next ∷ after))).valid ≡ true
      → (verify_audit_chain sha256 (before' ++ (r' ∷ next ∷ after'))).valid ≡ true
      → canonical r.prev_hash r ≡ canonical r'.prev_hash r'
  unfolding verify_audit_chain
  verify_audit_chain-pins before before' after after' r r' next no_collision h h' g v v' =
      no_collision _ _ (
        pinned true "" before after r next h g (verify_rows-Linked sha256 true "" _ _ _ v)
        ∙ sym (
            pinned true "" before' after' r' next h' g
              (verify_rows-Linked sha256 true "" _ _ _ v')))

  -- One row with the end of its action moved to the front of its target: both have the same text
  -- under the hash.
  abbrev pub moved : String → String → String → Row → Row
  moved head end rest r = record r { action = head; target = str_append end (str_append "|" rest) }

  abbrev pub unmoved : String → String → String → Row → Row
  unmoved head end rest r = record r {
    action = str_append head (str_append "|" end);
    target = rest;
  }

  canonical-moved :
      (prev head end rest : String) (r : Row)
      → canonical prev (unmoved head end rest r) ≡ canonical prev (moved head end rest r)
  unfolding canonical join_bar
  canonical-moved prev head end rest r = simp text_assoc

  verify_rows-moved :
      (head end rest : String) (first : Bool) (expected : String) (total legacy : ℕ) (r : Row)
      (before after : Log)
      → verify_rows sha256 first expected total legacy
          (keep is_hashed (before ++ (unmoved head end rest r ∷ after)))
        ≡ verify_rows sha256 first expected total legacy
            (keep is_hashed (before ++ (moved head end rest r ∷ after)))
  unfolding verify_rows
  verify_rows-moved head end rest first expected total legacy r [] after =
      elim (Bool-cases (is_hashed r)) [
        | inl hashed ↦ rw (hashed, canonical-moved r.prev_hash head end rest r) refl
        | inr old ↦ rw old refl
      ]
  verify_rows-moved head end rest first expected total legacy r (b ∷ before) after =
      elim (Bool-cases (is_hashed b)) [
        | inl hashed ↦
            rw
              (
                hashed,
                verify_rows-moved head end rest false b.entry_hash total legacy r before after,
              )
              refl
        | inr old ↦
            rw old (verify_rows-moved head end rest first expected total legacy r before after)
      ]

  length-moved :
      (head end rest : String) (r : Row) (before after : Log)
      → (length (before ++ (unmoved head end rest r ∷ after))
          ≡ length (before ++ (moved head end rest r ∷ after)))
        × (length (keep is_hashed (before ++ (unmoved head end rest r ∷ after)))
            ≡ length (keep is_hashed (before ++ (moved head end rest r ∷ after))))
  length-moved head end rest r [] after = elim (Bool-cases (is_hashed r)) [
    | inl hashed ↦ rw hashed (refl, refl)
    | inr old ↦ rw old (refl, refl)
  ]
  length-moved head end rest r (b ∷ before) after =
      let (all, kept) = length-moved head end rest r before after in
      elim (Bool-cases (is_hashed b)) [
        | inl hashed ↦ rw (hashed, all, kept) (refl, refl)
        | inr old ↦ rw (old, all, kept) (refl, refl)
      ]

  -- Whatever the hash, the end of an action that follows a `|` can be moved to the front of the
  -- target of the same row, anywhere in a log, and the verification answers the same.
  pub verify_audit_chain-moved :
      (head end rest : String) (r : Row) (before after : Log)
      → verify_audit_chain sha256 (before ++ (unmoved head end rest r ∷ after))
        ≡ verify_audit_chain sha256 (before ++ (moved head end rest r ∷ after))
  unfolding verify_audit_chain
  verify_audit_chain-moved head end rest r before after =
      let (all, kept) = length-moved head end rest r before after in
      rw (all, kept) (verify_rows-moved head end rest true "" _ _ r before after)
