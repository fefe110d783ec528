-- ===== src/Audit/Chain.antt =====
-- Why the verification of the audit log accepts every log that `audit` writes.
use switchpilot.Prelude.{
  ℕ, suc, ◌+◌, ◌-◌, ◌≡◌, ◌≢◌, ◌⊎◌, inl, inr, refl, sym, String, Bool, true, false, not, ◌&&◌, List,
  [], ◌∷◌, ◌++◌, keep, length, length-append, arith, str_eq, str_eq_iff, All, Bool-cases,
}
use switchpilot.Audit.{
  Row, Log, canonical, last_hash_after, last_hash, is_hashed, intact, sealed, audit, verify_rows,
  verify_audit_chain,
}

module _ (sha256 : String → String) where
  -- Rows that link to each other, and whose hashes are those of their contents.
  abbrev pub Linked : Bool → String → Log → Type 0
  Linked first expected [] = Unit {0}
  Linked first expected (r ∷ rows) =
      ((first ≡ true) ⊎ (r.prev_hash ≡ expected))
      × (sha256 (canonical r.prev_hash r) ≡ r.entry_hash)
      × Linked false r.entry_hash rows

  pub verify_rows-Linked :
      (first : Bool) (expected : String) (total legacy : ℕ) (rows : Log)
      → (verify_rows sha256 first expected total legacy rows).valid ≡ true
      → Linked first expected rows
  unfolding verify_rows
  verify_rows-Linked first expected total legacy [] h = tt
  verify_rows-Linked first expected total legacy (r ∷ rows) h =
      elim (Bool-cases (not first && not (str_eq r.prev_hash expected))) [
        | inl apart ↦ absurd (ground (arith, rw apart at h))
        | inr near ↦ elim (Bool-cases (str_eq (sha256 (canonical r.prev_hash r)) r.entry_hash)) [
          | inl same ↦ (
            ground (arith, str_eq_iff r.prev_hash expected),
            (str_eq_iff (sha256 (canonical r.prev_hash r)) r.entry_hash).0 same,
            verify_rows-Linked false r.entry_hash total legacy rows (rw (near, same) at h),
          )
          | inr other ↦ absurd (ground (arith, rw (near, other) at h))
        ]
      ]

  Linked-verify_rows :
      (first : Bool) (expected : String) (total legacy : ℕ) (rows : Log)
      → Linked first expected rows
      → verify_rows sha256 first expected total legacy rows ≡ intact total legacy
  unfolding verify_rows
  Linked-verify_rows first expected total legacy [] h = refl
  Linked-verify_rows first expected total legacy (r ∷ rows) (near, same, rest) =
      let linked : not first && not (str_eq r.prev_hash expected) ≡ false =
        ground (arith, str_eq_iff r.prev_hash expected) in
      rw (linked, (str_eq_iff (sha256 (canonical r.prev_hash r)) r.entry_hash).1 same)
        (Linked-verify_rows false r.entry_hash total legacy rows rest)

  Linked-append :
      (first : Bool) (expected : String) (rows : Log) (new : Row)
      → Linked first expected rows
      → Linked first expected (rows ++ (sealed sha256 (last_hash_after expected rows) new ∷ []))
  unfolding canonical
  Linked-append first expected [] new h = (inr refl, refl, tt)
  Linked-append first expected (r ∷ rows) new (near, same, rest) =
      (near, same, Linked-append false r.entry_hash rows new rest)

  last_hash_after-append :
      (hash : String) (rows : Log) (new : Row)
      → last_hash_after hash (rows ++ (new ∷ [])) ≡ new.entry_hash
  last_hash_after-append hash [] new = refl
  last_hash_after-append hash (r ∷ rows) new = last_hash_after-append r.entry_hash rows new

  keep-hashed :
      (rows : Log) (new : Row)
      → is_hashed new ≡ true
      → keep is_hashed (rows ++ (new ∷ [])) ≡ keep is_hashed rows ++ (new ∷ [])
  keep-hashed [] new h = rw h refl
  keep-hashed (r ∷ rows) new h = elim (Bool-cases (is_hashed r)) [
    | inl hashed ↦ rw (hashed, keep-hashed rows new h) refl
    | inr legacy ↦ rw (legacy, keep-hashed rows new h) refl
  ]

  -- A log of so many legacy rows and so many rows that link from the first of them to its end.
  record IsChained (legacy hashed : ℕ) (log : Log) : Type 0 where
    linked : Linked true "" (keep is_hashed log)
    ends : last_hash log ≡ last_hash_after "" (keep is_hashed log)
    count : length (keep is_hashed log) ≡ hashed
    total : length log ≡ legacy + hashed

  audit-IsChained :
      (legacy hashed : ℕ) (log : Log) (new : Row)
      → ((text : String) → sha256 text ≢ "")
      → IsChained legacy hashed log
      → IsChained legacy (suc hashed) (audit sha256 true new log)
  unfolding audit
  audit-IsChained legacy hashed log new some_hash h =
      let row = sealed sha256 (last_hash log) new in
      let kept : keep is_hashed (log ++ (row ∷ [])) ≡ keep is_hashed log ++ (row ∷ []) =
        keep-hashed log row (
          ground
            (arith, str_eq_iff row.entry_hash "", some_hash (canonical (last_hash log) new))) in
      let more = length-append log (row ∷ []) in
      let more_kept = length-append (keep is_hashed log) (row ∷ []) in
      record {
        linked = rw (kept, h.ends) (Linked-append true "" (keep is_hashed log) new h.linked);
        ends =
            rw
              (
                kept,
                last_hash_after-append "" log row,
                last_hash_after-append "" (keep is_hashed log) row,
              )
              refl;
        count = rw kept (omega (arith, more_kept, h.count));
        total = omega (arith, more, h.total);
      }

  legacy-IsChained : (log : Log) → All (λ r. r.entry_hash ≡ "") log → IsChained (length log) 0 log
  legacy-IsChained log h = record {
    linked = rw (none_kept log h) tt;
    ends = rw (none_kept log h) (no_hash log h);
    count = rw (none_kept log h) refl;
    total = omega arith;
  }
    where
      none_kept : (rows : Log) → All (λ r. r.entry_hash ≡ "") rows → keep is_hashed rows ≡ []
      none_kept [] g = refl
      none_kept (r ∷ rows) (e, g) = rw (e, none_kept rows g) refl

      no_hash : (rows : Log) → All (λ r. r.entry_hash ≡ "") rows → last_hash_after "" rows ≡ ""
      no_hash [] g = refl
      no_hash (r ∷ rows) (e, g) = rw e (no_hash rows g)

  -- The log of the new entries, one `audit` after the other.
  abbrev pub audit_all : List Row → Log → Log
  audit_all [] log = log
  audit_all (new ∷ news) log = audit_all news (audit sha256 true new log)

  audit_all-verifies :
      (legacy hashed : ℕ) (news : List Row) (log : Log)
      → ((text : String) → sha256 text ≢ "")
      → IsChained legacy hashed log
      → verify_audit_chain sha256 (audit_all news log) ≡ intact (length news + hashed) legacy
  unfolding verify_audit_chain
  audit_all-verifies legacy hashed [] log some_hash h =
      let skipped : length log - length (keep is_hashed log) ≡ legacy =
        omega (arith, h.total, h.count) in
      let no_new : 0 + hashed ≡ hashed = omega arith in
      rw (no_new, skipped, h.count)
        (Linked-verify_rows true "" hashed legacy (keep is_hashed log) h.linked)
  audit_all-verifies legacy hashed (new ∷ news) log some_hash h =
      let e : length news + suc hashed ≡ suc (length news) + hashed = omega arith in
      rw (sym e) (
        audit_all-verifies legacy (suc hashed) news (audit sha256 true new log) some_hash
          (audit-IsChained legacy hashed log new some_hash h))

  -- As long as no digest is the empty text, a log of rows without a hash followed by any entries
  -- that `audit` wrote verifies, with exactly those entries checked and exactly those rows skipped.
  pub verify_audit_chain-audit_all :
      (legacy news : List Row)
      → ((text : String) → sha256 text ≢ "")
      → All (λ r. r.entry_hash ≡ "") legacy
      → verify_audit_chain sha256 (audit_all news legacy) ≡ intact (length news) (length legacy)
  verify_audit_chain-audit_all legacy news some_hash h =
      let e : length news + 0 ≡ length news = omega arith in
      rw (sym e)
        (audit_all-verifies (length legacy) 0 news legacy some_hash (legacy-IsChained legacy h))
