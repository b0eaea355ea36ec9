-- ===== src/Executor/Files/Frame.antt =====
-- Which files an operation leaves alone: all but the one that it names.
use kylin_guard_agent.Base.{String, Bool, true, false, Option, none, some, ◌==◌, ◌≡◌, arith}
use kylin_guard_agent.Base.Dict.{Dict, lookup, insert, lookup-insert, lookup-erase}
use kylin_guard_agent.Base.Triple.{After, Triple}
use kylin_guard_agent.Guardrails.Policy.PathGuard.{FilePath, path_eq}
use kylin_guard_agent.Executor.Files.{
  Outcome, succeeds, fails, Disk, with_files, left_over, after_write, found, after_read,
  after_unlink, after_mode, read_file, write_file, set_mode, unlink,
}

module _ (path : FilePath) (contents : Option String) where
  abbrev pub Keeps : Disk → Type 0
  Keeps disk = lookup path disk.files ≡ contents

  inserted :
      (other : FilePath) (text : String) (files : Dict FilePath String)
      → (path == other) ≡ false
      → lookup path files ≡ contents
      → lookup path (insert other text files) ≡ contents
  inserted other text files differs h = ground (arith, lookup-insert path other text files)

  left :
      (text : Option String) (other : FilePath) (files : Dict FilePath String)
      → (path == other) ≡ false
      → lookup path files ≡ contents
      → lookup path (left_over text other files) ≡ contents
  left none other files differs h = h
  left (some text) other files differs h = inserted other text files differs h

  after_found :
      (read : Option String) (s : Disk)
      → Keeps s
      → After (λ _. Keeps) Keeps (found read, with_files s s.files)
  after_found none s h = h
  after_found (some text) s h = h

  read-Keeps :
      (outcome : Outcome) (other : FilePath) (s : Disk)
      → Keeps s
      → After (λ _. Keeps) Keeps (after_read outcome other s)
  read-Keeps succeeds other s h = after_found (lookup other s.files) s h
  read-Keeps (fails _) other s h = h

  pub read_file-Keeps : (other : FilePath) → Triple Keeps (read_file other) (λ _. Keeps) Keeps
  unfolding read_file
  read_file-Keeps other = record { holds = λ s h. read-Keeps _ other s h }

  write-Keeps :
      (outcome : Outcome) (other : FilePath) (text : String) (s : Disk)
      → (path == other) ≡ false
      → Keeps s
      → After (λ _. Keeps) Keeps (after_write outcome other text s)
  write-Keeps succeeds other text s differs h = inserted other text s.files differs h
  write-Keeps (fails part) other text s differs h = left part other s.files differs h

  pub write_file-Keeps :
      (other : FilePath) (text : String)
      → (path == other) ≡ false
      → Triple Keeps (write_file other text) (λ _. Keeps) Keeps
  unfolding write_file
  write_file-Keeps other text differs = record {
    holds = λ s h. write-Keeps _ other text s differs h;
  }

  mode-Keeps :
      (outcome : Outcome) (s : Disk) → Keeps s → After (λ _. Keeps) Keeps (after_mode outcome s)
  mode-Keeps succeeds s h = h
  mode-Keeps (fails _) s h = h

  pub set_mode-Keeps : (other : FilePath) → Triple Keeps (set_mode other) (λ _. Keeps) Keeps
  unfolding set_mode
  set_mode-Keeps other = record { holds = λ s h. mode-Keeps _ s h }

  unlink-Keeps_after :
      (present : Bool) (outcome : Outcome) (other : FilePath) (s : Disk)
      → (path == other) ≡ false
      → Keeps s
      → After (λ _. Keeps) Keeps (after_unlink present outcome other s)
  unlink-Keeps_after true succeeds other s differs h =
      ground (arith, lookup-erase path other s.files)
  unlink-Keeps_after true (fails _) other s differs h = h
  unlink-Keeps_after false outcome other s differs h = h

  pub unlink-Keeps :
      (other : FilePath) → (path == other) ≡ false → Triple Keeps (unlink other) (λ _. Keeps) Keeps
  unfolding unlink
  unlink-Keeps other differs = record { holds = λ s h. unlink-Keeps_after _ _ other s differs h }
