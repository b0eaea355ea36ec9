-- ===== src/Executor/Files/Rules.antt =====
-- Rules for the operations on files: which contents are known after a return and after a raise.
use kylin_guard_agent.Base.{
  String, Bool, true, false, Option, none, some, List, [], ◌∷◌, ◌==◌, is_some, All, ◌≡◌, refl,
  arith, Bool-cases, ◌⊎◌, inl, inr,
}
use kylin_guard_agent.Base.Dict.{
  Dict, lookup, insert, erase, lookup-insert, lookup-insert_self, lookup-erase,
}
use kylin_guard_agent.Base.Triple.{After, Triple, after_weaken}
use kylin_guard_agent.Guardrails.Policy.PathGuard.{FilePath, path_eq}
use kylin_guard_agent.Executor.Files.{
  Outcome, succeeds, fails, Disk, next, rest, with_files, left_over, after_write, after_read,
  after_replace, after_unlink, found, read_file, write_new, write_file, copy_file, replace_file,
  unlink, unlink_missing_ok,
}

abbrev pub Facts : Type 0
Facts = List (FilePath × String)

-- no fact is about the path
abbrev pub Fresh : FilePath → Facts → Type 0
Fresh path = All (λ (fact : FilePath × String). (fact.0 == path) ≡ false)

abbrev pub Contents : Facts → Dict FilePath String → Type 0
Contents facts files = All (λ (fact : FilePath × String). lookup fact.0 files ≡ some fact.1) facts

insert-Contents :
    (path : FilePath) (text : String) (facts : Facts) (files : Dict FilePath String)
    → Fresh path facts
    → Contents facts files
    → Contents facts (insert path text files)
insert-Contents path text [] files fresh h = tt
insert-Contents path text ((other, t) ∷ facts) files (differs, fresh) (held, h) = (
  ground (arith, lookup-insert other path text files),
  insert-Contents path text facts files fresh h,
)

erase-Contents :
    (path : FilePath) (facts : Facts) (files : Dict FilePath String)
    → Fresh path facts
    → Contents facts files
    → Contents facts (erase path files)
erase-Contents path [] files fresh h = tt
erase-Contents path ((other, t) ∷ facts) files (differs, fresh) (held, h) =
    (ground (arith, lookup-erase other path files), erase-Contents path facts files fresh h)

left_over-Contents :
    (left : Option String) (path : FilePath) (facts : Facts) (files : Dict FilePath String)
    → Fresh path facts
    → Contents facts files
    → Contents facts (left_over left path files)
left_over-Contents none path facts files fresh h = h
left_over-Contents (some text) path facts files fresh h =
    insert-Contents path text facts files fresh h

-- A calm disk is one on which no operation fails.
module _ (calm : Bool) where
  abbrev pub IsCalm : List Outcome → Type 0
  IsCalm outcomes = calm ≡ true → outcomes ≡ []

  pub record Known (facts : Facts) (disk : Disk) : Type 0 where
    pub contents : Contents facts disk.files
    pub calm_disk : IsCalm disk.outcomes

  rest-IsCalm : (outcomes : List Outcome) → IsCalm outcomes → IsCalm (rest outcomes)
  rest-IsCalm [] h = h
  rest-IsCalm (outcome ∷ later) h = λ e. ground (arith, h e)

  fails-not_calm :
      (outcomes : List Outcome) (left : Option String)
      → next outcomes ≡ fails left
      → IsCalm outcomes
      → calm ≡ false
  fails-not_calm [] left e h = ground arith
  fails-not_calm (outcome ∷ later) left e h = elim (Bool-cases calm) [
    | inl c ↦ ground (arith, h c)
    | inr c ↦ c
  ]

  -- the facts once more, after an operation that leaves the files as they are
  keep : (facts : Facts) (disk : Disk) → Known facts disk → Known facts (with_files disk disk.files)
  keep facts disk h = record {
    contents = h.contents;
    calm_disk = rest-IsCalm disk.outcomes h.calm_disk;
  }

  written :
      (path : FilePath) (text : String) (facts : Facts) (disk : Disk) (outcome : Outcome)
      → next disk.outcomes ≡ outcome
      → Fresh path facts
      → Known facts disk
      → After
          (λ _. Known ((path, text) ∷ facts))
          (λ t. Known facts t × (calm ≡ false))
          (after_write outcome path text disk)
  written path text facts disk succeeds e fresh h = record {
    contents = (
      lookup-insert_self path text disk.files,
      insert-Contents path text facts disk.files fresh h.contents,
    );
    calm_disk = rest-IsCalm disk.outcomes h.calm_disk;
  }
  written path text facts disk (fails left) e fresh h = (
    record {
      contents = left_over-Contents left path facts disk.files fresh h.contents;
      calm_disk = rest-IsCalm disk.outcomes h.calm_disk;
    },
    fails-not_calm disk.outcomes left e h.calm_disk,
  )

  pub write_file-Known :
      (path : FilePath) (text : String) (facts : Facts)
      → Fresh path facts
      → Triple
          (Known facts)
          (write_file path text)
          (λ _. Known ((path, text) ∷ facts))
          (λ t. Known facts t × (calm ≡ false))
  unfolding write_file
  write_file-Known path text facts fresh = record {
    holds = λ s h. written path text facts s _ refl fresh h;
  }

  pub write_new-Known :
      (path : FilePath) (text : String) (facts : Facts)
      → Fresh path facts
      → Triple (Known facts) (write_new path text) (λ _. Known ((path, text) ∷ facts)) (Known facts)
  unfolding write_new
  write_new-Known path text facts fresh = record {
    holds = λ s h. elim (Bool-cases (is_some (lookup path s.files))) [
      | inl e ↦ rw e (keep facts s h)
      | inr e ↦ rw e (
          after_weaken {A = Unit {0}} (λ _. Known ((path, text) ∷ facts))
            (λ _. Known ((path, text) ∷ facts)) (λ t. Known facts t × (calm ≡ false)) (Known facts)
            (after_write (next s.outcomes) path text s) (λ _ t k. k) (λ t k. k.0)
            (written path text facts s _ refl fresh h))
    ];
  }

  pub copy_file-Known :
      (source target : FilePath) (text : String) (facts : Facts)
      → (source == target) ≡ false
      → Fresh target ((source, text) ∷ facts)
      → Triple
          (Known ((source, text) ∷ facts))
          (copy_file source target)
          (λ _. Known ((target, text) ∷ (source, text) ∷ facts))
          (λ t. Known ((source, text) ∷ facts) t × (calm ≡ false))
  unfolding copy_file
  copy_file-Known source target text facts differs fresh = record {
    holds = λ s h.
        rw (differs, h.contents.0) (written target text ((source, text) ∷ facts) s _ refl fresh h);
  }

  found_any :
      (path : FilePath) (facts : Facts) (disk : Disk) (contents : Option String)
      → lookup path disk.files ≡ contents
      → Known facts disk
      → After
          (λ text t. Known facts t × (lookup path t.files ≡ some text))
          (Known facts)
          (found contents, with_files disk disk.files)
  found_any path facts disk none c h = keep facts disk h
  found_any path facts disk (some text) c h = (keep facts disk h, c)

  read_any :
      (path : FilePath) (facts : Facts) (disk : Disk) (outcome : Outcome)
      → Known facts disk
      → After
          (λ text t. Known facts t × (lookup path t.files ≡ some text))
          (Known facts)
          (after_read outcome path disk)
  read_any path facts disk succeeds h = found_any path facts disk (lookup path disk.files) refl h
  read_any path facts disk (fails left) h = keep facts disk h

  -- what is read of a file that may or may not be there
  pub read_file-Known :
      (path : FilePath) (facts : Facts)
      → Triple
          (Known facts)
          (read_file path)
          (λ text t. Known facts t × (lookup path t.files ≡ some text))
          (Known facts)
  unfolding read_file
  read_file-Known path facts = record { holds = λ s h. read_any path facts s _ h }

  read_fact :
      (Frame : Dict FilePath String → Type 0) (path : FilePath) (text : String) (facts : Facts)
      (disk : Disk) (outcome : Outcome)
      → next disk.outcomes ≡ outcome
      → Known ((path, text) ∷ facts) disk
      → Frame disk.files
      → After
          (λ read t. Known ((path, text) ∷ facts) t × Frame t.files × (read ≡ text))
          (λ t. Known ((path, text) ∷ facts) t × Frame t.files × (calm ≡ false))
          (after_read outcome path disk)
  read_fact Frame path text facts disk succeeds e h frame =
      rw h.contents.0 (keep ((path, text) ∷ facts) disk h, frame, refl)
  read_fact Frame path text facts disk (fails left) e h frame =
      (keep ((path, text) ∷ facts) disk h, frame, fails-not_calm disk.outcomes left e h.calm_disk)

  -- what is read of a file whose contents are known, and what else is known of the files
  pub read_file-Known_fact :
      (Frame : Dict FilePath String → Type 0) (path : FilePath) (text : String) (facts : Facts)
      → Triple
          (λ s. Known ((path, text) ∷ facts) s × Frame s.files)
          (read_file path)
          (λ read t. Known ((path, text) ∷ facts) t × Frame t.files × (read ≡ text))
          (λ t. Known ((path, text) ∷ facts) t × Frame t.files × (calm ≡ false))
  unfolding read_file
  read_file-Known_fact Frame path text facts = record {
    holds = λ s h. read_fact Frame path text facts s _ refl h.0 h.1;
  }

  moved :
      (source target : FilePath) (text : String) (facts : Facts) (disk : Disk) (outcome : Outcome)
      → next disk.outcomes ≡ outcome
      → Fresh source facts
      → Fresh target facts
      → (replaced : Facts) → Contents replaced disk.files
      → Known ((source, text) ∷ facts) disk
      → After
          (λ _. Known ((target, text) ∷ facts))
          (λ t. Known facts t × Contents replaced t.files × (calm ≡ false))
          (after_replace (lookup source disk.files) outcome source target disk)
  moved source target text facts disk succeeds e gone fresh replaced old h =
      rw h.contents.0 record {
        contents = (
          lookup-insert_self target text (erase source disk.files),
          insert-Contents target text facts (erase source disk.files) fresh
              (erase-Contents source facts disk.files gone h.contents.1),
        );
        calm_disk = rest-IsCalm disk.outcomes h.calm_disk;
      }
  moved source target text facts disk (fails left) e gone fresh replaced old h = rw h.contents.0 (
    record { contents = h.contents.1; calm_disk = rest-IsCalm disk.outcomes h.calm_disk },
    old,
    fails-not_calm disk.outcomes left e h.calm_disk,
  )

  -- The target's old contents are known once more where the replacement fails.
  pub replace_file-Known :
      (source target : FilePath) (text : String) (facts replaced : Facts)
      → Fresh source facts
      → Fresh target facts
      → Triple
          (λ s. Known ((source, text) ∷ facts) s × Contents replaced s.files)
          (replace_file source target)
          (λ _. Known ((target, text) ∷ facts))
          (λ t. Known facts t × Contents replaced t.files × (calm ≡ false))
  unfolding replace_file
  replace_file-Known source target text facts replaced gone fresh = record {
    holds = λ s h. moved source target text facts s _ refl gone fresh replaced h.1 h.0;
  }

  removed :
      (path : FilePath) (facts : Facts) (disk : Disk) (present : Bool) (outcome : Outcome)
      → next disk.outcomes ≡ outcome
      → Fresh path facts
      → Known facts disk
      → After
          (λ _. Known facts)
          (λ t. Known facts t × ((present ≡ false) ⊎ (calm ≡ false)))
          (after_unlink present outcome path disk)
  removed path facts disk true succeeds e fresh h = record {
    contents = erase-Contents path facts disk.files fresh h.contents;
    calm_disk = rest-IsCalm disk.outcomes h.calm_disk;
  }
  removed path facts disk true (fails left) e fresh h =
      (keep facts disk h, inr (fails-not_calm disk.outcomes left e h.calm_disk))
  removed path facts disk false outcome e fresh h = (keep facts disk h, inl refl)

  pub unlink_missing_ok-Known :
      (path : FilePath) (facts : Facts)
      → Fresh path facts
      → Triple
          (Known facts)
          (unlink_missing_ok path)
          (λ _. Known facts)
          (λ t. Known facts t × (calm ≡ false))
  unfolding unlink_missing_ok
  unlink_missing_ok-Known path facts fresh = record {
    holds = λ s h.
        after_weaken {A = Unit {0}} (λ _. Known facts) (λ _. Known facts)
          (λ t. Known facts t × ((true ≡ false) ⊎ (calm ≡ false)))
          (λ t. Known facts t × (calm ≡ false)) (after_unlink true (next s.outcomes) path s)
          (λ _ t k. k) (λ t k. (k.0, ground (arith, k.1)))
          (removed path facts s true _ refl fresh h);
  }

  unlinked :
      (path : FilePath) (text : String) (facts : Facts) (disk : Disk) (present : Bool)
      (outcome : Outcome)
      → Fresh path facts
      → Known ((path, text) ∷ facts) disk
      → After
          (λ _. Known facts)
          (Known ((path, text) ∷ facts))
          (after_unlink present outcome path disk)
  unlinked path text facts disk true succeeds fresh h = record {
    contents = erase-Contents path facts disk.files fresh h.contents.1;
    calm_disk = rest-IsCalm disk.outcomes h.calm_disk;
  }
  unlinked path text facts disk true (fails left) fresh h = keep ((path, text) ∷ facts) disk h
  unlinked path text facts disk false outcome fresh h = keep ((path, text) ∷ facts) disk h

  -- A file that is not removed keeps its contents.
  pub unlink-Known :
      (path : FilePath) (text : String) (facts : Facts)
      → Fresh path facts
      → Triple
          (Known ((path, text) ∷ facts))
          (unlink path)
          (λ _. Known facts)
          (Known ((path, text) ∷ facts))
  unfolding unlink
  unlink-Known path text facts fresh = record {
    holds = λ s h. unlinked path text facts s _ _ fresh h;
  }
