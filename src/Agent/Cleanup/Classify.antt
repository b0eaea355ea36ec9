-- ===== src/Agent/Cleanup/Classify.antt =====
-- `CleanupCandidateClassifier`: the reasons against a file, and the candidate where there is none.
use kylin_guard_agent.Base.{
  ℕ, ◌+◌, ◌*◌, String, ◌<>◌, Bool, true, false, Option, none, some, List, [], ◌∷◌, ◌++◌, ◌==◌,
  string_eq, any, contains, not, ◌&&◌, if◌then◌else◌, ltb, has_substring, ends_with, prefix,
}
use kylin_guard_agent.Base.Exec.{Result, ok, err}
use kylin_guard_agent.Json.{int, pos, str}
use kylin_guard_agent.Json.Print.{canonical_arguments}
use kylin_guard_agent.Guardrails.Policy.PathGuard.{FilePath, PathGuard, parents, validate}
use kylin_guard_agent.Guardrails.Policy.PathGuard.Names.{name_of, parent_of}
use kylin_guard_agent.Agent.Cleanup.{
  FileUseState, not_open, is_open, unknown, CleanupPolicy, CleanupCandidate, CleanupObservedFile,
  CleanupDecision, Metadata, Inspection,
}

abbrev pub disposable_suffixes : List String
disposable_suffixes =
    ".tmp" ∷ ".cache" ∷ ".msi" ∷ ".iso" ∷ ".zip" ∷ ".tar" ∷ ".tgz" ∷ ".tar.gz" ∷ ".7z" ∷ ".rar"
    ∷ ".rpm" ∷ ".deb" ∷ ".apk" ∷ ".dmg" ∷ ".pkg" ∷ ".exe" ∷ []

abbrev pub is_state : FileUseState → FileUseState → Bool
is_state not_open not_open = true
is_state is_open is_open = true
is_state unknown unknown = true
is_state _ _ = false

-- `if b: reasons.append(reason)`
abbrev pub reason_if : Bool → String → List String
reason_if true reason = reason ∷ []
reason_if false reason = []

abbrev pub seconds_per_day : ℕ
seconds_per_day = 86400

abbrev pub microseconds : ℕ
microseconds = 1000000

module _ (policy : CleanupPolicy) (inspection : Inspection) where
  open inspection use {fs, stat, now, show_path, message, lower, sha256}

  abbrev pub path_guard : PathGuard
  path_guard = record {
    allowed_roots = policy.allowed_roots;
    protected_paths = policy.protected_paths;
  }

  unfoldable pub suffix_allowed : FilePath → Bool
  suffix_allowed target =
      any (λ suffix. ends_with suffix (lower (name_of target))) policy.allowed_suffixes

  unfoldable pub is_low_risk_disposable : FilePath → Bool
  is_low_risk_disposable target =
      any (λ suffix. ends_with suffix (lower (name_of target))) disposable_suffixes
      && any (λ parent. contains policy.low_risk_dir_names (lower (name_of parent)))
          (parent_of target ∷ parents target)

  -- `age_seconds < minimum_age_days * 86400`, with the modification's time on the other side
  unfoldable pub is_recent : Metadata → Bool
  is_recent metadata =
      ltb now (metadata.modified + policy.minimum_age_days * seconds_per_day * microseconds)

  unfoldable pub reasons_against : FilePath → Metadata → FileUseState → List String
  reasons_against target metadata use_state =
      let low_risk_disposable = is_low_risk_disposable target in
      reason_if (not metadata.is_regular) "NOT_REGULAR_FILE"
      ++ (reason_if (not (suffix_allowed target)) "FILE_TYPE_NOT_ALLOWED"
          ++ (reason_if
                (any (λ term. has_substring term (lower (name_of target)))
                  policy.forbidden_name_terms)
                "CRITICAL_OR_DATABASE_LOG"
              ++ (reason_if (ltb metadata.size policy.minimum_size_bytes) "BELOW_SIZE_THRESHOLD"
                  ++ (reason_if (not low_risk_disposable && is_recent metadata)
                        "RETENTION_PERIOD_NOT_MET"
                      ++ (if is_state use_state is_open
                          then "FILE_IS_OPEN" ∷ []
                          else reason_if (is_state use_state unknown && not low_risk_disposable)
                              "OPEN_FILE_STATE_UNKNOWN")))))

  unfoldable pub snapshot_hash : FilePath → Metadata → String
  snapshot_hash target metadata = sha256 (
      canonical_arguments (
        ("path", str (show_path target))
        ∷ ("size", int (pos metadata.size))
        ∷ ("mtime_ns", int (pos metadata.mtime_ns))
        ∷ ("inode", int (pos metadata.inode))
        ∷ ("device", int (pos metadata.device))
        ∷ []))

  unfoldable pub observe : FilePath → Metadata → CleanupObservedFile
  observe target metadata = record {
    path = show_path target;
    size_bytes = pos metadata.size;
    modified_at = metadata.modified;
    classification =
        if is_low_risk_disposable target
        then "DISPOSABLE_DOWNLOAD_OR_CACHE_CANDIDATE"
        else "OBSERVED_LARGE_FILE";
  }

  unfoldable pub new_candidate : FilePath → Metadata → CleanupCandidate
  new_candidate target metadata = record {
    candidate_id = "cleanup-" <> prefix 24 (snapshot_hash target metadata);
    path = show_path target;
    size_bytes = metadata.size;
    modified_at = metadata.modified;
    inode = metadata.inode;
    device = metadata.device;
    snapshot_hash = snapshot_hash target metadata;
    classification =
        if is_low_risk_disposable target
        then "DISPOSABLE_DOWNLOAD_OR_CACHE_CANDIDATE"
        else "SAFE_LOG_OR_CACHE_CANDIDATE";
    risk_level = "L3";
    requires_approval = true;
  }

  abbrev pub rejection : String → CleanupDecision
  rejection reason = record {
    eligible = false;
    reason_codes = reason ∷ [];
    candidate = none;
    observed_file = none;
  }

  -- `if reasons:`
  abbrev pub decide : FilePath → Metadata → List String → CleanupDecision
  decide target metadata [] = record {
    eligible = true;
    reason_codes = "SAFE_CANDIDATE" ∷ [];
    candidate = some (new_candidate target metadata);
    observed_file = some (observe target metadata);
  }
  decide target metadata (reason ∷ reasons) = record {
    eligible = false;
    reason_codes = reason ∷ reasons;
    candidate = none;
    observed_file = some (observe target metadata);
  }

  abbrev pub classify_stat : FileUseState → FilePath → Option Metadata → CleanupDecision
  classify_stat use_state target none = rejection "STAT_FAILED"
  classify_stat use_state target (some metadata) =
      decide target metadata (reasons_against target metadata use_state)

  -- `validate` raises only what the `except` clause names.
  abbrev pub classify_target : FileUseState → Result FilePath → CleanupDecision
  classify_target use_state (err e) = rejection (message e)
  classify_target use_state (ok target) = classify_stat use_state target (stat target)

  unfoldable pub classify : String → FileUseState → CleanupDecision
  classify raw_path use_state = classify_target use_state (validate path_guard fs raw_path true)

  abbrev pub has_hash : String → Option CleanupCandidate → Bool
  has_hash hash none = false
  has_hash hash (some candidate) = candidate.snapshot_hash == hash

  unfoldable pub revalidate : CleanupCandidate → FileUseState → Bool
  revalidate candidate use_state =
      let decision = classify candidate.path use_state in
      decision.eligible && has_hash candidate.snapshot_hash decision.candidate
