-- ===== src/Guardrails/Policy/PathGuard.antt =====
-- `PathGuard`: the roots under which a path may lie, and those under which it may not.
-- A resolved path is the list of its components, the last one first, so that its parent is the
-- tail. The file system's answers are parameters.
pub mod Scope
pub mod Names
use kylin_guard_agent.Base.{
  ℕ, String, Bool, true, false, Option, none, some, List, [], ◌∷◌, ◌≡◌, ◌≢◌, refl, ◌==◌, Eq,
  string_eq, contains, any, All, has_substring, if◌then◌else◌, not, ◌&&◌, ◌||◌, arith, codes,
  nat_eq,
}
use kylin_guard_agent.Base.Exec.{Error, value_error, os_error, Result, ok, err}

abbrev pub FilePath : Type 0
FilePath = List String

unfoldable pub path_discrete : Discrete FilePath
path_discrete = hlevel (string_eq.dec)

instance abbrev pub path_eq : Eq FilePath
path_eq = record { dec = path_discrete }

-- What the guard asks the file system: `Path(raw)` made absolute, `is_symlink`, and
-- `Path(raw).resolve(strict=…)`, which may raise.
pub record FileSystem : Type 0 where
  pub absolute : String → FilePath
  pub is_symlink : FilePath → Bool
  pub resolve : Bool → String → Result FilePath

pub record PathGuard : Type 0 where
  pub allowed_roots : List FilePath
  pub protected_paths : List FilePath

-- `path.parents`
unfoldable pub parents : FilePath → List FilePath
parents [] = []
parents (name ∷ parent) = parent ∷ parents parent

-- the `while` loop, which stops at the root
unfoldable pub on_symlink : FileSystem → FilePath → Bool
on_symlink fs [] = false
on_symlink fs (name ∷ parent) = fs.is_symlink (name ∷ parent) || on_symlink fs parent

module _ (guard : PathGuard) where
  unfoldable pub is_protected : FilePath → Bool
  is_protected target =
      contains guard.protected_paths target
      || any (λ path. contains (parents target) path) guard.protected_paths

  unfoldable pub is_allowed : FilePath → Bool
  is_allowed target =
      any (λ root. target == root || contains (parents target) root) guard.allowed_roots

  check_target : Result FilePath → Result FilePath
  check_target (err e) = err e
  check_target (ok target) =
      if is_protected target
      then err (value_error "PROTECTED_PATH")
      else if not (is_allowed target)
      then err (value_error "PATH_REJECTED")
      else ok target

  unfoldable pub validate : FileSystem → String → Bool → Result FilePath
  unfolding check_target
  validate fs raw_path must_exist =
      if contains (codes raw_path) 0
      then err (value_error "PATH_REJECTED")
      else if on_symlink fs (fs.absolute raw_path)
      then err (value_error "SYMLINK_REJECTED")
      else check_target (fs.resolve must_exist raw_path)
