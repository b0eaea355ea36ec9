-- ===== src/Executor/Config/Update/Replace.antt =====
-- The `try` block of the update.
use kylin_guard_agent.Base.{String, Bool, true, [], ◌∷◌, string_eq, ◌≡◌, ◌⊎◌, inl, inr}
use kylin_guard_agent.Base.Dict.{Dict}
use kylin_guard_agent.Base.Exec.{value_error, ok, Exec, raise_if, ◌>>◌}
use kylin_guard_agent.Base.Triple.{Triple, weaken, bind, check}
use kylin_guard_agent.Guardrails.Policy.PathGuard.{FilePath, path_eq}
use kylin_guard_agent.Executor.Files.{Disk}
use kylin_guard_agent.Executor.Files.Rules.{
  Known, write_new-Known, copy_file-Known, replace_file-Known,
}
use kylin_guard_agent.Executor.Config.{ConfigTarget, Host, ConfigValidator, replace_config}
use kylin_guard_agent.Executor.Config.Update.{
  HasUuids, path, backup, temporary, sha256, path-backup, path-temporary, backup-path,
  backup-temporary, hash_fact, validate_asks, required,
}

module _ (host : Host) (validator : ConfigValidator) (targets : Dict String ConfigTarget)
    (backup_root : FilePath) (target : ConfigTarget) (uuids : HasUuids host) (calm : Bool)
    (original content : String) where
  abbrev p : FilePath
  p = path host validator targets backup_root target uuids

  abbrev b : FilePath
  b = backup host validator targets backup_root target uuids

  abbrev c : FilePath
  c = temporary host validator targets backup_root target uuids

  -- the target is as it was, or it is replaced and the backup is good
  abbrev pub Started : Disk → Type 0
  Started s = Known calm ((p, original) ∷ []) s ⊎ Known calm ((p, content) ∷ (b, original) ∷ []) s

  abbrev Saved : Disk → Type 0
  Saved = Known calm ((b, original) ∷ (p, original) ∷ [])

  abbrev Written : Disk → Type 0
  Written = Known calm ((c, content) ∷ (b, original) ∷ (p, original) ∷ [])

  from_Saved : (s : Disk) → Saved s → Started s
  from_Saved s h = inl record { contents = h.contents.1; calm_disk = h.calm_disk }

  from_Written : (s : Disk) → Written s → Started s
  from_Written s h = inl record { contents = h.contents.1.1; calm_disk = h.calm_disk }

  -- a check that must succeed before the rest
  then_check :
      (P : Disk → Type 0) (answer : Bool) (code : String) (rest : Exec Disk Unit)
      (Q : Disk → Type 0)
      → ((s : Disk) → P s → Started s)
      → Triple P rest (λ _. Q) Started
      → Triple P (raise_if answer (value_error code) >> rest) (λ _. Q) Started
  then_check P answer code rest Q started later =
      bind (weaken (λ s h. h) (λ _ t h. h.0) started (check P answer (value_error code)))
        (λ _. later)

  abbrev Replaced : Disk → Type 0
  Replaced t =
      Known calm ((p, content) ∷ (b, original) ∷ []) t × (validator target p t.files ≡ ok true)

  pub replace_config-Replaced :
      Triple
        (Known calm ((p, original) ∷ []))
        (replace_config host validator targets backup_root target content
          (sha256 host validator targets backup_root target uuids original))
        (λ _. Replaced)
        Started
  unfolding replace_config
  replace_config-Replaced =
      let p_b = path-backup host validator targets backup_root target uuids in
      let b_p = backup-path host validator targets backup_root target uuids in
      let p_c = path-temporary host validator targets backup_root target uuids in
      let b_c = backup-temporary host validator targets backup_root target uuids in
      bind
        (weaken (λ s h. h) (λ a t h. h) (λ t h. inl h.0)
          (copy_file-Known calm p b original [] p_b (p_b, tt)))
        (λ _.
          bind
            (weaken (λ s h. (h, tt)) (λ hash t h. h.0) (λ t h. from_Saved t h.0)
              (hash_fact host validator targets backup_root target uuids calm (λ _. Unit) b original
                ((p, original) ∷ [])))
            (λ saved. then_check Saved _ _ _ Replaced from_Saved (
              bind
                (weaken (λ s h. h) (λ a t h. h) from_Saved
                  (write_new-Known calm c content ((b, original) ∷ (p, original) ∷ [])
                    (b_c, (p_c, tt))))
                (λ _.
                  bind
                    (weaken (λ s h. h) (λ a t h. h.0) from_Written
                      (validate_asks host validator targets backup_root target uuids calm c
                        Written))
                    (λ valid. then_check Written _ _ _ Replaced from_Written (
                      bind
                        (weaken
                          (λ s h. (
                            record {
                              contents = (h.contents.0, (h.contents.1.0, tt));
                              calm_disk = h.calm_disk;
                            },
                            h.contents.1.1,
                          ))
                          (λ a t h. h)
                          (λ t h. inl record { contents = h.1; calm_disk = h.0.calm_disk })
                          (replace_file-Known calm c p content ((b, original) ∷ [])
                            ((p, original) ∷ []) (b_c, tt) (b_p, tt)))
                        (λ _.
                          weaken (λ s h. h) (λ a t h. h) (λ t h. inr h)
                            (required host validator targets backup_root target uuids calm p
                              (Known calm ((p, content) ∷ (b, original) ∷ []))
                              "POSTCONDITION_FAILED"))))))))
