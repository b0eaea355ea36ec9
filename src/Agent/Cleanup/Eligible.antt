-- ===== src/Agent/Cleanup/Eligible.antt =====
-- The classifier against an independent description of a file that may be cleaned up.
use kylin_guard_agent.Base.{
  not-false, ℕ, ◌+◌, ◌*◌, ◌≤◌, String, Bool, true, false, Option, none, some, List, [], ◌∷◌, ◌++◌,
  string_eq, any, not, ◌&&◌, if◌then◌else◌, ltb, has_substring, arith, ◌≡◌, ◌↔◌, refl, ◌⊎◌, inl,
  inr, &&-eq-true, eq→≡,
}
use kylin_guard_agent.Base.Exec.{Result, ok, err}
use kylin_guard_agent.Guardrails.Policy.PathGuard.{FilePath, validate}
use kylin_guard_agent.Guardrails.Policy.PathGuard.Names.{name_of}
use kylin_guard_agent.Agent.Cleanup.{
  FileUseState, not_open, is_open, unknown, CleanupPolicy, CleanupCandidate, Metadata, Inspection,
}
use kylin_guard_agent.Agent.Cleanup.Classify.{
  is_state, reason_if, seconds_per_day, microseconds, path_guard, suffix_allowed,
  is_low_risk_disposable, is_recent, reasons_against, snapshot_hash, new_candidate, decide,
  classify_stat, classify_target, classify, revalidate,
}

append-nil : (xs ys : List String) → xs ++ ys ≡ [] → (xs ≡ []) × (ys ≡ [])
append-nil [] ys h = (refl, h)
append-nil (x ∷ xs) ys h = ground arith

reason_if-nil : (b : Bool) (reason : String) → reason_if b reason ≡ [] → b ≡ false
reason_if-nil true reason h = ground arith
reason_if-nil false reason h = refl

ltb-false : (a b : ℕ) → ltb a b ≡ false ↔ b ≤ a
ltb-false a b = (λ h. ground arith, λ h. ground arith)

old_or_low_risk :
    (low_risk : Bool) (now bound : ℕ)
    → (not low_risk && ltb now bound) ≡ false ↔ (low_risk ≡ true) ⊎ (bound ≤ now)
old_or_low_risk low_risk now bound = (λ h. ground arith, λ h. ground arith)

module _ (policy : CleanupPolicy) (inspection : Inspection) where
  open inspection use {fs, stat, now, lower}

  -- A regular file in scope, of an allowed type and a harmless name, large enough, and either of a
  -- disposable kind or old enough and known not to be open.
  pub record IsFit (target : FilePath) (metadata : Metadata) (use_state : FileUseState)
      : Type 0 where
    pub regular : metadata.is_regular ≡ true
    pub suffix : suffix_allowed policy inspection target ≡ true
    pub name :
        any (λ term. has_substring term (lower (name_of target))) policy.forbidden_name_terms
        ≡ false
    pub size : policy.minimum_size_bytes ≤ metadata.size
    pub age :
        (is_low_risk_disposable policy inspection target ≡ true)
        ⊎ (metadata.modified + policy.minimum_age_days * seconds_per_day * microseconds ≤ now)
    pub usage :
        (use_state ≡ not_open)
        ⊎ ((use_state ≡ unknown) × (is_low_risk_disposable policy inspection target ≡ true))

  pub record IsSafe (raw_path : String) (use_state : FileUseState) : Type 0 where
    pub target : FilePath
    pub metadata : Metadata
    pub in_scope : validate (path_guard policy inspection) fs raw_path true ≡ ok target
    pub read : stat target ≡ some metadata
    pub fit : IsFit target metadata use_state

  abbrev bound : Metadata → ℕ
  bound metadata = metadata.modified + policy.minimum_age_days * seconds_per_day * microseconds

  usage-IsFit :
      (use_state : FileUseState) (low_risk : Bool)
      → (if is_state use_state is_open
          then "FILE_IS_OPEN" ∷ []
          else reason_if (is_state use_state unknown && not low_risk) "OPEN_FILE_STATE_UNKNOWN")
        ≡ []
      → (use_state ≡ not_open) ⊎ ((use_state ≡ unknown) × (low_risk ≡ true))
  usage-IsFit not_open low_risk h = inl refl
  usage-IsFit is_open low_risk h = ground arith
  usage-IsFit unknown true h = inr (refl, refl)
  usage-IsFit unknown false h = ground arith

  reasons_against-IsFit :
      (target : FilePath) (metadata : Metadata) (use_state : FileUseState)
      → reasons_against policy inspection target metadata use_state ≡ []
      → IsFit target metadata use_state
  unfolding reasons_against is_recent
  reasons_against-IsFit target metadata use_state h =
      let (regular, a) = append-nil _ _ h in
      let (suffix, b) = append-nil _ _ a in
      let (name, c) = append-nil _ _ b in
      let (size, d) = append-nil _ _ c in
      let (age, usage) = append-nil _ _ d in
      record {
        regular = not-false _ (reason_if-nil _ _ regular);
        suffix = not-false _ (reason_if-nil _ _ suffix);
        name = reason_if-nil _ _ name;
        size = (ltb-false metadata.size policy.minimum_size_bytes).0 (reason_if-nil _ _ size);
        age = (old_or_low_risk _ now (bound metadata)).0 (reason_if-nil _ _ age);
        usage = usage-IsFit use_state _ usage;
      }

  fit-usage :
      (use_state : FileUseState) (low_risk : Bool)
      → (use_state ≡ not_open) ⊎ ((use_state ≡ unknown) × (low_risk ≡ true))
      → (if is_state use_state is_open
          then "FILE_IS_OPEN" ∷ []
          else reason_if (is_state use_state unknown && not low_risk) "OPEN_FILE_STATE_UNKNOWN")
        ≡ []
  fit-usage use_state low_risk h = ground arith

  fit-reasons :
      (target : FilePath) (metadata : Metadata) (use_state : FileUseState)
      → IsFit target metadata use_state
      → reasons_against policy inspection target metadata use_state ≡ []
  unfolding reasons_against is_recent
  fit-reasons target metadata use_state h =
      let large = (ltb-false metadata.size policy.minimum_size_bytes).1 h.size in
      let old =
        (old_or_low_risk (is_low_risk_disposable policy inspection target) now (bound metadata)).1
          h.age in
      rw (h.regular, h.suffix, h.name, large, old) (fit-usage use_state _ h.usage)

  decide-eligible :
      (target : FilePath) (metadata : Metadata) (reasons : List String)
      → (decide policy inspection target metadata reasons).eligible ≡ true
      → reasons ≡ []
  decide-eligible target metadata [] h = refl
  decide-eligible target metadata (reason ∷ reasons) h = ground arith

  classify_stat-IsSafe :
      (raw_path : String) (use_state : FileUseState) (target : FilePath) (found : Option Metadata)
      → validate (path_guard policy inspection) fs raw_path true ≡ ok target
      → stat target ≡ found
      → (classify_stat policy inspection use_state target found).eligible ≡ true
      → IsSafe raw_path use_state
  classify_stat-IsSafe raw_path use_state target none v f h = ground arith
  classify_stat-IsSafe raw_path use_state target (some metadata) v f h = record {
    target = target;
    metadata = metadata;
    in_scope = v;
    read = f;
    fit = reasons_against-IsFit target metadata use_state (decide-eligible target metadata _ h);
  }

  classify_target-IsSafe :
      (raw_path : String) (use_state : FileUseState) (validated : Result FilePath)
      → validate (path_guard policy inspection) fs raw_path true ≡ validated
      → (classify_target policy inspection use_state validated).eligible ≡ true
      → IsSafe raw_path use_state
  classify_target-IsSafe raw_path use_state (err e) v h = ground arith
  classify_target-IsSafe raw_path use_state (ok target) v h =
      classify_stat-IsSafe raw_path use_state target (stat target) v refl h

  safe-classify :
      (raw_path : String) (use_state : FileUseState) (safe : IsSafe raw_path use_state)
      → classify policy inspection raw_path use_state
        ≡ decide policy inspection safe.target safe.metadata []
  unfolding classify
  safe-classify raw_path use_state safe =
      rw (safe.in_scope, safe.read, fit-reasons safe.target safe.metadata use_state safe.fit) refl

  -- A path is eligible for cleanup exactly if it resolves to a readable regular file in the scope
  -- of the policy, with an allowed type, a name without a forbidden term and the minimum size,
  -- that is disposable or past its retention, and that is known not to be open, or whose state is
  -- unknown while it is disposable.
  pub classify_eligible :
      (raw_path : String) (use_state : FileUseState)
      → ((classify policy inspection raw_path use_state).eligible ≡ true)
        ↔ IsSafe raw_path use_state
  unfolding classify
  classify_eligible raw_path use_state = (
    classify_target-IsSafe raw_path use_state
        (validate (path_guard policy inspection) fs raw_path true) refl,
    λ safe. rw (safe-classify raw_path use_state safe) refl,
  )

  -- what a candidate that is valid again has: its file is fit now, and its snapshot has the hash
  pub record IsCurrent (candidate : CleanupCandidate) (use_state : FileUseState) : Type 0 where
    pub safe : IsSafe candidate.path use_state
    pub same_hash :
        snapshot_hash policy inspection safe.target safe.metadata ≡ candidate.snapshot_hash

  pub revalidate-IsCurrent :
      (candidate : CleanupCandidate) (use_state : FileUseState)
      → revalidate policy inspection candidate use_state ≡ true
      → IsCurrent candidate use_state
  unfolding revalidate new_candidate
  revalidate-IsCurrent candidate use_state h =
      let (eligible, hash) = &&-eq-true _ _ h in
      let safe = (classify_eligible candidate.path use_state).0 eligible in
      record {
        safe = safe;
        same_hash = eq→≡ _ _ (rw (safe-classify candidate.path use_state safe) at hash);
      }
