-- ===== src/Executor/Config/Update/Restore.antt =====
-- The `except` clause of the update.
use kylin_guard_agent.Base.{
  String, Bool, true, false, some, [], ◌∷◌, ◌==◌, string_eq, is_some, ◌≡◌, ◌∙◌, refl, ap, sym,
  arith, eq→≡, eq_of_≡, ◌⊎◌, inl, inr,
}
use kylin_guard_agent.Base.Dict.{Dict, lookup}
use kylin_guard_agent.Base.Exec.{pure, ◌>>=◌}
use kylin_guard_agent.Base.Triple.{After, Triple, weaken, given, either, returns, bind}
use kylin_guard_agent.Guardrails.Crypto.{IsCollisionFree}
use kylin_guard_agent.Guardrails.Policy.PathGuard.{FilePath, path_eq}
use kylin_guard_agent.Executor.Files.{Disk, is_file}
use kylin_guard_agent.Executor.Files.Rules.{
  Contents, Known, copy_file-Known, replace_file-Known, unlink_missing_ok-Known,
}
use kylin_guard_agent.Executor.Config.{
  ConfigTarget, Host, ConfigValidator, file_sha256, same_hash_if, backup_is_intact, restore_if,
  restore_config,
}
use kylin_guard_agent.Executor.Config.Update.{
  HasUuids, path, backup, temporary, restore, sha256, path-temporary, path-restore, backup-path,
  backup-temporary, backup-restore, hash_fact, hash_any,
}
use kylin_guard_agent.Executor.Config.Update.Replace.{Started}

module _ (host : Host) (validator : ConfigValidator) (targets : Dict String ConfigTarget)
    (backup_root : FilePath) (target : ConfigTarget) (uuids : HasUuids host) (calm : Bool)
    (original content : String) (digest : IsCollisionFree host.platform.crypto.sha256) where
  abbrev p : FilePath
  p = path host validator targets backup_root target uuids

  abbrev b : FilePath
  b = backup host validator targets backup_root target uuids

  abbrev c : FilePath
  c = temporary host validator targets backup_root target uuids

  abbrev r : FilePath
  r = restore host validator targets backup_root target uuids

  abbrev hash : String
  hash = sha256 host validator targets backup_root target uuids original

  -- the target is as it was, or a later operation on the disk has failed as well
  abbrev pub Restored : Disk → Type 0
  Restored t =
      (lookup p t.files ≡ some original) ⊎ ((lookup p t.files ≡ some content) × (calm ≡ false))

  -- where the target is still as it was
  abbrev Unchanged : Disk → Type 0
  Unchanged = Known calm ((p, original) ∷ [])

  abbrev Changed : Disk → Type 0
  Changed = Known calm ((p, content) ∷ (b, original) ∷ [])

  from_Unchanged : (t : Disk) → Unchanged t → Restored t
  from_Unchanged t h = inl h.contents.0

  put_back :
      (now : String)
      → ((t : Disk)
          → Known calm ((b, original) ∷ []) t × Contents ((p, now) ∷ []) t.files × (calm ≡ false)
          → Restored t)
      → Triple
          (Known calm ((b, original) ∷ (p, now) ∷ []))
          (restore_if host validator targets backup_root true target)
          (λ _. Restored)
          Restored
  put_back now late =
      let b_r = backup-restore host validator targets backup_root target uuids in
      let p_r = path-restore host validator targets backup_root target uuids in
      let b_p = backup-path host validator targets backup_root target uuids in
      bind
        (weaken (λ s h. h) (λ a t h. h)
          (λ t h. late t (
            record { contents = (h.0.contents.0, tt); calm_disk = h.0.calm_disk },
            h.0.contents.1,
            h.1,
          ))
          (copy_file-Known calm b r original ((p, now) ∷ []) b_r (b_r, (p_r, tt))))
        (λ _.
          weaken
            (λ s h. (
              record { contents = (h.contents.0, (h.contents.1.0, tt)); calm_disk = h.calm_disk },
              h.contents.1.1,
            ))
            (λ a t h. inl h.contents.0) (λ t h. late t h)
            (replace_file-Known calm r p original ((b, original) ∷ []) ((p, now) ∷ []) (b_r, tt)
              (b_p, tt)))

  -- A backup with the digest of the original is the original.
  hashed_any :
      Triple Unchanged
        (file_sha256 host validator targets backup_root b
          >>= (λ saved_hash. pure (saved_hash == hash)))
        (λ intact t. Unchanged t × (intact ≡ true → lookup b t.files ≡ some original))
        Unchanged
  hashed_any =
      bind (hash_any host validator targets backup_root target uuids calm b ((p, original) ∷ []))
        (λ saved.
          weaken
            (λ s h. (
              h.0,
              λ e.
                  let (text, found, hashed) = h.1 in
                  rw (digest text original (sym hashed ∙ eq→≡ _ _ e)) at found,
            ))
            (λ a t h. h) (λ t h. h)
            (returns (saved == hash)
              (λ intact t. Unchanged t × (intact ≡ true → lookup b t.files ≡ some original))
              Unchanged))

  if_Unchanged :
      (present : Bool) (s : Disk)
      → Unchanged s
      → After
          (λ intact t. Unchanged t × (intact ≡ true → lookup b t.files ≡ some original))
          Unchanged
          (same_hash_if host validator targets backup_root present b hash s)
  if_Unchanged true s h = hashed_any.holds s h
  if_Unchanged false s h = (h, λ impossible. ground arith)

  intact-Unchanged :
      Triple Unchanged
        (backup_is_intact host validator targets backup_root b hash)
        (λ intact t. Unchanged t × (intact ≡ true → lookup b t.files ≡ some original))
        Unchanged
  unfolding backup_is_intact
  intact-Unchanged = record { holds = λ s h. if_Unchanged (is_file b s) s h }

  hashed_known :
      Triple Changed
        (file_sha256 host validator targets backup_root b
          >>= (λ saved_hash. pure (saved_hash == hash)))
        (λ intact t. Changed t × (intact ≡ true))
        (λ t. Changed t × (calm ≡ false))
  hashed_known =
      bind {R = λ saved t. Changed t × (saved ≡ hash)}
        (weaken
          (λ s h. (
            record { contents = (h.contents.1.0, (h.contents.0, tt)); calm_disk = h.calm_disk },
            tt,
          ))
          (λ a t h. (
            record {
              contents = (h.0.contents.1.0, (h.0.contents.0, tt));
              calm_disk = h.0.calm_disk;
            },
            h.2,
          ))
          (λ t h. (
            record {
              contents = (h.0.contents.1.0, (h.0.contents.0, tt));
              calm_disk = h.0.calm_disk;
            },
            h.2,
          ))
          (hash_fact host validator targets backup_root target uuids calm (λ _. Unit) b original
            ((p, content) ∷ [])))
        (λ saved.
          weaken (λ s h. (h.0, eq_of_≡ saved hash h.1)) (λ a t h. h) (λ t h. h)
            (returns (saved == hash) (λ intact t. Changed t × (intact ≡ true))
              (λ t. Changed t × (calm ≡ false))))

  if_Changed :
      (present : Bool) (s : Disk)
      → present ≡ true
      → Changed s
      → After
          (λ intact t. Changed t × (intact ≡ true))
          (λ t. Changed t × (calm ≡ false))
          (same_hash_if host validator targets backup_root present b hash s)
  if_Changed true s e h = hashed_known.holds s h
  if_Changed false s e h = ground arith

  intact-Changed :
      Triple Changed
        (backup_is_intact host validator targets backup_root b hash)
        (λ intact t. Changed t × (intact ≡ true))
        (λ t. Changed t × (calm ≡ false))
  unfolding backup_is_intact is_file
  intact-Changed = record {
    holds = λ s h. if_Changed (is_file b s) s (ap is_some h.contents.1.0) h;
  }

  restore-Unchanged :
      (intact : Bool)
      → Triple
          (λ s. Unchanged s × (intact ≡ true → lookup b s.files ≡ some original))
          (restore_if host validator targets backup_root intact target)
          (λ _. Restored)
          Restored
  restore-Unchanged false =
      weaken (λ s h. from_Unchanged s h.0) (λ _ t h. h) (λ t h. h)
        (returns tt (λ _. Restored) Restored)
  restore-Unchanged true =
      weaken (λ s h. record { contents = (h.1 refl, h.0.contents); calm_disk = h.0.calm_disk })
        (λ _ t h. h) (λ t h. h) (put_back original (λ t h. inl h.1.0))

  restore-Changed :
      (intact : Bool)
      → Triple
          (λ s. Changed s × (intact ≡ true))
          (restore_if host validator targets backup_root intact target)
          (λ _. Restored)
          Restored
  restore-Changed false = given (λ impossible. ground arith)
  restore-Changed true =
      weaken
        (λ s h. record {
          contents = (h.0.contents.1.0, (h.0.contents.0, tt));
          calm_disk = h.0.calm_disk;
        })
        (λ _ t h. h) (λ t h. h) (put_back content (λ t h. inr (h.1.0, h.2)))

  pub restore_config-Restored :
      Triple
        (Started host validator targets backup_root target uuids calm original content)
        (restore_config host validator targets backup_root target hash)
        (λ _. Restored)
        Restored
  unfolding restore_config
  restore_config-Restored =
      let p_c = path-temporary host validator targets backup_root target uuids in
      let b_c = backup-temporary host validator targets backup_root target uuids in
      either
        (bind
          (weaken (λ s h. h) (λ a t h. h) (λ t h. from_Unchanged t h.0)
            (unlink_missing_ok-Known calm c ((p, original) ∷ []) (p_c, tt)))
          (λ _.
            bind (weaken (λ s h. h) (λ a t h. h) from_Unchanged intact-Unchanged)
              restore-Unchanged))
        (bind
          (weaken (λ s h. h) (λ a t h. h) (λ t h. inr (h.0.contents.0, h.1))
            (unlink_missing_ok-Known calm c ((p, content) ∷ (b, original) ∷ []) (p_c, (b_c, tt))))
          (λ _.
            bind (weaken (λ s h. h) (λ a t h. h) (λ t h. inr (h.0.contents.0, h.1)) intact-Changed)
              restore-Changed))
