-- ===== src/Executor/Files.antt =====
-- The regular files that the executors read and write: contents by path. Each operation uses up
-- one outcome of a list, so that any of them may fail with an OSError, and a write may leave a part of
-- its text behind; when the list is used up, all succeed. A file's contents are the text it encodes.
pub mod Rules
pub mod Frame
use kylin_guard_agent.Base.{
  String, Bool, true, false, Option, none, some, List, [], ◌∷◌, ◌==◌, is_some, if◌then◌else◌,
}
use kylin_guard_agent.Base.Dict.{Dict, lookup, insert, erase}
use kylin_guard_agent.Base.Exec.{Error, os_error, Result, ok, err, Exec}
use kylin_guard_agent.Guardrails.Policy.PathGuard.{FilePath, path_eq}

-- A write that fails leaves its file as it was, or with the text given.
pub data Outcome : Type 0 where
  succeeds : Outcome
  fails : Option String → Outcome

pub record Disk : Type 0 where
  pub files : Dict FilePath String
  pub outcomes : List Outcome

abbrev pub next : List Outcome → Outcome
next [] = succeeds
next (outcome ∷ later) = outcome

abbrev pub rest : List Outcome → List Outcome
rest [] = []
rest (outcome ∷ later) = later

abbrev pub with_files : Disk → Dict FilePath String → Disk
with_files disk files = record disk { files = files; outcomes = rest disk.outcomes }

-- what is left of a file whose write failed
abbrev pub left_over : Option String → FilePath → Dict FilePath String → Dict FilePath String
left_over none path files = files
left_over (some text) path files = insert path text files

abbrev pub found : Option String → Result String
found none = err os_error
found (some text) = ok text

abbrev after_read : Outcome → FilePath → Disk → Result String × Disk
after_read succeeds path disk = (found (lookup path disk.files), with_files disk disk.files)
after_read (fails _) path disk = (err os_error, with_files disk disk.files)

unfoldable pub read_file : FilePath → Exec Disk String
read_file path disk = after_read (next disk.outcomes) path disk

abbrev pub after_write : Outcome → FilePath → String → Disk → Result {0} Unit × Disk
after_write succeeds path text disk = (ok tt, with_files disk (insert path text disk.files))
after_write (fails left) path text disk =
    (err os_error, with_files disk (left_over left path disk.files))

-- `os.open(path, O_WRONLY | O_CREAT | O_EXCL)`, `path.open("xb")`, with all that is written to it
unfoldable pub write_new : FilePath → String → Exec Disk Unit
write_new path text disk =
    if is_some (lookup path disk.files)
    then (err os_error, with_files disk disk.files)
    else after_write (next disk.outcomes) path text disk

-- `path.open("wb")`, with all that is written to it
unfoldable pub write_file : FilePath → String → Exec Disk Unit
write_file path text disk = after_write (next disk.outcomes) path text disk

abbrev after_source : Option String → FilePath → Disk → Result {0} Unit × Disk
after_source none target disk = (err os_error, with_files disk disk.files)
after_source (some text) target disk = after_write (next disk.outcomes) target text disk

-- `shutil.copy2`, which refuses to copy a file onto itself
unfoldable pub copy_file : FilePath → FilePath → Exec Disk Unit
copy_file source target disk =
    if source == target
    then (err os_error, with_files disk disk.files)
    else after_source (lookup source disk.files) target disk

abbrev after_replace : Option String → Outcome → FilePath → FilePath → Disk → Result {0} Unit × Disk
after_replace (some text) succeeds source target disk =
    (ok tt, with_files disk (insert target text (erase source disk.files)))
after_replace _ _ source target disk = (err os_error, with_files disk disk.files)

-- `source.replace(target)`
unfoldable pub replace_file : FilePath → FilePath → Exec Disk Unit
replace_file source target disk =
    after_replace (lookup source disk.files) (next disk.outcomes) source target disk

abbrev after_unlink : Bool → Outcome → FilePath → Disk → Result {0} Unit × Disk
after_unlink true succeeds path disk = (ok tt, with_files disk (erase path disk.files))
after_unlink _ _ path disk = (err os_error, with_files disk disk.files)

-- `path.unlink()` and `path.unlink(missing_ok=True)`
unfoldable pub unlink : FilePath → Exec Disk Unit
unlink path disk = after_unlink (is_some (lookup path disk.files)) (next disk.outcomes) path disk

unfoldable pub unlink_missing_ok : FilePath → Exec Disk Unit
unlink_missing_ok path disk = after_unlink true (next disk.outcomes) path disk

abbrev after_mode : Outcome → Disk → Result {0} Unit × Disk
after_mode succeeds disk = (ok tt, with_files disk disk.files)
after_mode (fails _) disk = (err os_error, with_files disk disk.files)

-- `os.chmod(path, _)`, which leaves the contents
unfoldable pub set_mode : FilePath → Exec Disk Unit
set_mode path disk = after_mode (next disk.outcomes) disk

-- `path.is_file()` and `path.exists()`, which raise nothing
unfoldable pub is_file : FilePath → Disk → Bool
is_file path disk = is_some (lookup path disk.files)
