-- ===== src/Config/Stored.antt =====
-- What the backups of a device come to (backupDevice of backend/src/services/configService.ts).
use switchpilot.Prelude.{
  ◌≡◌, refl, ap, sym, subst, ◌∙◌, inl, inr, String, true, false, List, [], ◌∷◌, Option, none, some,
  All, Bool-cases, Option-cases, arith, str_eq, str_eq_iff, str_eq_refl, if◌then◌else◌,
}
use switchpilot.Util.Text.{trim, unlines}
use switchpilot.Util.Text.Lines.{IsLine}
use switchpilot.Config.{
  Device, Live, Backup, backed, BackupRequest, Read, read, read_skipped, read_failed, Env, hash_of,
  is_same_hash, latest_id, latest_backup, new_backup, store_backup, normalize_config, read_config,
  backup_device,
}
use switchpilot.Config.Normal.{significant, normalize_config-significant}

-- The configuration that the backups hold of each device: the normal form of the latest one.
abbrev pub form_of : Option Backup → Option String
form_of none = none
form_of (some b) = some (normalize_config b.content)

unfoldable pub held : List Backup → String → Option String
held backups id = form_of (latest_backup id backups)

held-cons :
    (b : Backup) (backups : List Backup) (id : String)
    → held (b ∷ backups) id
      ≡ (if str_eq b.device_id id then some (normalize_config b.content) else held backups id)
unfolding held latest_backup
held-cons b backups id = elim (Bool-cases (str_eq b.device_id id)) [
  | inl mine ↦ rw mine refl
  | inr other ↦ rw other refl
]

-- What a backup of this content makes of the configuration that is held.
abbrev pub written : Read → Option String → Option String
written read_skipped before = before
written read_failed before = before
written (read content) before = some (normalize_config content)

module _ (env : Env) where
  abbrev pub IsSealed : Backup → Type 0
  IsSealed b = b.sha256 ≡ hash_of env b.content

  latest_backup-IsSealed :
      (id : String) (backups : List Backup) {b : Backup}
      → All IsSealed backups
      → latest_backup id backups ≡ some b
      → IsSealed b
  unfolding latest_backup
  latest_backup-IsSealed id [] h e = absurd (cc)
  latest_backup-IsSealed id (c ∷ backups) {b} (h, hs) e =
      elim (Bool-cases (str_eq c.device_id id)) [
        | inl mine ↦ hit (rw mine at e)
        | inr other ↦ latest_backup-IsSealed id backups hs (rw other at e)
      ]
    where
      hit : some c ≡ some b → IsSealed b
      hit same = let e : c ≡ b = cc in subst IsSealed e h

  -- A latest backup with the hash of the content holds its normal form.
  held-same_hash :
      ((s t : String) → env.sha256 s ≡ env.sha256 t → s ≡ t)
      → (id content : String) (backups : List Backup) → All IsSealed backups
      → is_same_hash env (hash_of env content) (latest_backup id backups) ≡ true
      → held backups id ≡ some (normalize_config content)
  unfolding held
  held-same_hash inj id content backups sealed same =
      elim (Option-cases (latest_backup id backups)) [
        | inl missing ↦ absurd (let h = rw missing at same in cc)
        | inr (b, found) ↦
            let equal : b.sha256 ≡ hash_of env content =
              (str_eq_iff b.sha256 (hash_of env content)).0 (rw found at same) in
            let seal = latest_backup-IsSealed id backups sealed found in
            simp found (
              ap (λ (t : String). some t)
                (inj (normalize_config b.content) (normalize_config content) (sym seal ∙ equal)))
      ]

  store_backup-refines :
      ((s t : String) → env.sha256 s ≡ env.sha256 t → s ≡ t)
      → (req : BackupRequest) (device : Device) (r : Read) (backups : List Backup) (id : String)
      → All IsSealed backups
      → (held (store_backup env req device r backups).1 id
          ≡ (if str_eq device.id id then written r (held backups id) else held backups id))
        × All IsSealed (store_backup env req device r backups).1
  unfolding held
  store_backup-refines inj req device read_skipped backups id sealed = (ground arith, sealed)
  store_backup-refines inj req device read_failed backups id sealed = (ground arith, sealed)
  store_backup-refines inj req device (read content) backups id sealed =
      elim (Bool-cases (is_same_hash env (hash_of env content) (latest_backup device.id backups))) [
        | inl same ↦ rw same (
          elim (Bool-cases (str_eq device.id id)) [
            | inl mine ↦ rw mine (
                ap (held backups) (sym ((str_eq_iff device.id id).0 mine))
                ∙ held-same_hash inj device.id content backups sealed same)
            | inr other ↦ rw other refl
          ],
          sealed,
        )
        | inr new ↦
            rw new (held-cons (new_backup env req device content) backups id, (refl, sealed))
      ]

  -- A backup is, as seen from outside, one write of the configuration that is held of its device:
  -- the normal form of what was read, or nothing when nothing was read, whether a row is added or
  -- not. It leaves the other devices alone and keeps the hash of every row the one of its content.
  -- This is so if the hash has no collision and every row has the hash of its content before.
  pub backup_device-refines :
      ((s t : String) → env.sha256 s ≡ env.sha256 t → s ≡ t)
      → (req : BackupRequest) (device : Device) (live : Live) (backups : List Backup) (id : String)
      → All IsSealed backups
      → (held (backup_device env req device live backups).1 id ≡ (
          if str_eq device.id id
          then written (read_config device live) (held backups id)
          else held backups id))
        × All IsSealed (backup_device env req device live backups).1
  unfolding backup_device
  backup_device-refines inj req device live backups id sealed =
      store_backup-refines inj req device (read_config device live) backups id sealed

  latest_backup-again :
      (req : BackupRequest) (device : Device) (content : String) (backups : List Backup)
      → is_same_hash env
          (hash_of env content)
          (latest_backup device.id (store_backup env req device (read content) backups).1)
        ≡ true
  unfolding latest_backup
  latest_backup-again req device content backups =
      elim (Bool-cases (is_same_hash env (hash_of env content) (latest_backup device.id backups))) [
        | inl same ↦ rw (same, same) refl
        | inr new ↦ rw (new, str_eq_refl device.id) (str_eq_refl (hash_of env content))
      ]

  -- A backup right after another that read the same significant lines, whatever volatile lines
  -- stand among them and whatever blanks end them, adds no row and answers the latest one, by
  -- whomever and for whatever reason it is taken.
  pub backup_device-unchanged :
      (req again : BackupRequest) (device : Device) (live later : Live) (backups : List Backup)
      (l m : String) (ls ms : List String)
      → read_config device live ≡ read (unlines (l ∷ ls))
      → read_config device later ≡ read (unlines (m ∷ ms))
      → IsLine l
      → All IsLine ls
      → IsLine m
      → All IsLine ms
      → significant (l ∷ ls) ≡ significant (m ∷ ms)
      → let stored = (backup_device env req device live backups).1 in
        backup_device env again device later stored
        ≡ (backed (latest_id env (latest_backup device.id stored)) false, stored)
  unfolding backup_device
  backup_device-unchanged req again device live later backups l m ls ms e f hl hls hm hms same =
      let stored = (store_backup env req device (read (unlines (l ∷ ls))) backups).1 in
      let hashes : hash_of env (unlines (l ∷ ls)) ≡ hash_of env (unlines (m ∷ ms)) = ap env.sha256 (
        normalize_config-significant l ls hl hls
        ∙ ap (λ (x : List String). trim (unlines x)) same
        ∙ sym (normalize_config-significant m ms hm hms)) in
      let known : is_same_hash env (hash_of env (unlines (m ∷ ms))) (latest_backup device.id stored)
          ≡ true =
        subst (λ h. is_same_hash env h (latest_backup device.id stored) ≡ true) hashes
          (latest_backup-again req device (unlines (l ∷ ls)) backups) in
      rw (e, f) (simp known refl)
