-- ===== src/Audit/Tests.antt =====
-- A log of three entries, and the theorems at it.
use switchpilot.Prelude.{◌≡◌, ◌≢◌, refl, String, [], ◌∷◌}
use switchpilot.Audit.{
  Row, join_bar, canonical, intact, broken_at, sealed, verify_rows, verify_audit_chain,
  not_matching,
}
use switchpilot.Audit.Chain.{audit_all, verify_audit_chain-audit_all}
use switchpilot.Audit.Tamper.{moved, unmoved, verify_audit_chain-pins, verify_audit_chain-moved}

-- A digest of the tests, which no two texts share and which is never empty.
abbrev marked : String → String
marked text = String.◌∷◌ "#" text

marked_some : (text : String) → marked text ≢ ""
marked_some text = λ e. cc

marked_injective : (a b : String) → marked a ≡ marked b → a ≡ b
marked_injective a b e = cc

abbrev login : Row
login = record {
  id = "1";
  username = "ann";
  action = "login";
  target = "";
  detail_text = "{}";
  ip = "10.0.0.1";
  created_at = "2026-01-01T00:00:00.000Z";
  prev_hash = "";
  entry_hash = "";
}

abbrev reload : Row
reload = record login { id = "2"; action = "device.reload"; target = "sw1" }

abbrev old : Row
old = record login { id = "0" }

verify_audit_chain-audit_all_example :
    verify_audit_chain marked (audit_all marked (login ∷ reload ∷ []) (old ∷ [])) ≡ intact 2 1
verify_audit_chain-audit_all_example =
    verify_audit_chain-audit_all marked (old ∷ []) (login ∷ reload ∷ []) marked_some (refl, tt)

abbrev login_row : Row
login_row = sealed marked "" login

abbrev reload_row : Row
reload_row = sealed marked login_row.entry_hash reload

-- An entry changed behind its hash is found, by its id.
changed :
    verify_audit_chain marked (record login_row { username = "bob" } ∷ reload_row ∷ [])
    ≡ broken_at 2 0 "1" (not_matching "1")
unfolding verify_audit_chain verify_rows canonical join_bar
changed = refl

-- One entry and its forgery, under one hash.
abbrev genuine : Row
genuine = sealed marked "" (unmoved marked "a" "b" "c" login)

abbrev forged : Row
forged = moved marked "a" "b" "c" genuine

abbrev later : Row
later = sealed marked genuine.entry_hash reload

verify_audit_chain-pins_example :
    canonical "" (unmoved marked "a" "b" "c" login) ≡ canonical "" (moved marked "a" "b" "c" login)
unfolding verify_audit_chain verify_rows canonical join_bar
verify_audit_chain-pins_example =
    verify_audit_chain-pins marked [] [] [] [] genuine forged later marked_injective refl refl refl
      refl refl

verify_audit_chain-moved_example :
    verify_audit_chain marked (unmoved marked "a" "b" "c" login ∷ reload_row ∷ [])
    ≡ verify_audit_chain marked (moved marked "a" "b" "c" login ∷ reload_row ∷ [])
verify_audit_chain-moved_example =
    verify_audit_chain-moved marked "a" "b" "c" login [] (reload_row ∷ [])
