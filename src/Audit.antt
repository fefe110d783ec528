-- ===== src/Audit.antt =====
-- The hash-chained audit log (backend/src/audit.ts). SHA-256 is a parameter; the log is the rows
-- of `audit_log` in the order of their ids, which are texts as the driver returns them.
pub mod Chain
pub mod Tamper
mod Tests
use Prim.Native.String
use switchpilot.Prelude.{
  ℕ, zero, suc, ◌+◌, ◌-◌, String, Bool, true, false, not, ◌&&◌, List, [], ◌∷◌, ◌++◌, Option, none,
  some, keep, length, if◌then◌else◌, str_eq,
}

pub record Row : Type 0 where
  pub id : String
  pub username : String
  pub action : String
  pub target : String
  pub detail_text : String
  pub ip : String
  pub created_at : String
  pub prev_hash : String
  pub entry_hash : String

abbrev pub Log : Type 0
Log = List Row

-- `parts.join('|')`
unfoldable pub join_bar : List String → String
join_bar [] = ""
join_bar (part ∷ []) = part
join_bar (part ∷ next ∷ parts) = String.◌++◌ part (String.◌++◌ "|" (join_bar (next ∷ parts)))

unfoldable pub canonical : String → Row → String
unfolding join_bar
canonical prev r =
    join_bar
      (prev ∷ r.id ∷ r.username ∷ r.action ∷ r.target ∷ r.detail_text ∷ r.ip ∷ r.created_at ∷ [])

-- `ORDER BY id DESC LIMIT 1`, and `?? ''` where there is no row.
abbrev pub last_hash_after : String → Log → String
last_hash_after hash [] = hash
last_hash_after hash (r ∷ log) = last_hash_after r.entry_hash log

abbrev pub last_hash : Log → String
last_hash log = last_hash_after "" log

pub record AuditVerifyResult : Type 0 where
  pub valid : Bool
  pub checked : ℕ
  pub legacy_skipped : ℕ
  pub broken_at_id : Option String
  pub reason : String

abbrev pub is_hashed : Row → Bool
is_hashed r = not (str_eq r.entry_hash "")

abbrev pub not_linked : String → String
not_linked id = String.◌++◌ "entry #" (
    String.◌++◌ id
      " does not link to the previous entry (chain broken — a row may have been deleted or reordered)")

abbrev pub not_matching : String → String
not_matching id =
    String.◌++◌ "entry #"
      (String.◌++◌ id " content hash does not match (it was modified after being written)")

abbrev pub intact : ℕ → ℕ → AuditVerifyResult
intact total legacy = record {
  valid = true;
  checked = total;
  legacy_skipped = legacy;
  broken_at_id = none;
  reason = "chain intact";
}

abbrev pub broken_at : ℕ → ℕ → String → String → AuditVerifyResult
broken_at total legacy id reason = record {
  valid = false;
  checked = total;
  legacy_skipped = legacy;
  broken_at_id = some id;
  reason = reason;
}

module _ (sha256 : String → String) where
  -- The row that the insert and the update of `audit` leave: the fields of `new`, linked and sealed.
  abbrev pub sealed : String → Row → Row
  sealed prev new = record new { prev_hash = prev; entry_hash = sha256 (canonical prev new) }

  -- audit: the row is appended, or a failed statement rolls all of it back.
  unfoldable pub audit : Bool → Row → Log → Log
  unfolding canonical
  audit committed new log = if committed then log ++ (sealed (last_hash log) new ∷ []) else log

  -- The loop over the hashed rows; `total` and `legacy` are what the result reports.
  unfoldable pub verify_rows : Bool → String → ℕ → ℕ → Log → AuditVerifyResult
  unfolding canonical
  verify_rows first expected total legacy [] = intact total legacy
  verify_rows first expected total legacy (r ∷ rows) =
      let rest = verify_rows false r.entry_hash total legacy rows in
      if not first && not (str_eq r.prev_hash expected)
      then broken_at total legacy r.id (not_linked r.id)
      else (if not (str_eq (sha256 (canonical r.prev_hash r)) r.entry_hash)
          then broken_at total legacy r.id (not_matching r.id)
          else rest)

  -- verifyAuditChain
  unfoldable pub verify_audit_chain : Log → AuditVerifyResult
  unfolding verify_rows
  verify_audit_chain all =
      let rows = keep is_hashed all in
      verify_rows true "" (length rows) (length all - length rows) rows
