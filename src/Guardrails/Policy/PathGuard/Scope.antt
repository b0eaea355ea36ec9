-- ===== src/Guardrails/Policy/PathGuard/Scope.antt =====
-- Where a path that `validate` returns lies (backend/app/guardrails/policy.py).
use kylin_guard_agent.Base.{
  String, Bool, true, false, List, [], ◌∷◌, ◌++◌, ◌≡◌, ◌≢◌, refl, ◌==◌, string_eq, nat_eq, contains,
  any, ◌||◌, arith, inl, inr, ap, sym, ◌∙◌, Bool-cases, eq→≡, eq_self, eq_of_≡,
}
use mathlib.Core.Path.{subst}
use kylin_guard_agent.Base.Exec.{ok}
use kylin_guard_agent.Guardrails.Policy.PathGuard.{
  FilePath, path_eq, FileSystem, PathGuard, parents, on_symlink, is_protected, is_allowed, validate,
}

-- `root` is `path` or one of its ancestors.
abbrev pub Under : FilePath → FilePath → Type 0
Under root path = (below : FilePath) × (path ≡ below ++ root)

Under-self : (path : FilePath) → Under path path
Under-self path = ([], refl)

parents-Under : (path root : FilePath) → contains (parents path) root ≡ true → Under root path
unfolding parents contains
parents-Under [] root h = cc
parents-Under (name ∷ parent) root h = elim (Bool-cases (root == parent)) [
  | inl same ↦ (name ∷ [], ap (λ p. name ∷ p) (sym (eq→≡ root parent same)))
  | inr other ↦
      let (below, e) = parents-Under parent root (ground arith) in
      (name ∷ below, ap (λ p. name ∷ p) e)
]

true≢false' : true ≡ false → ⊥
true≢false' h = cc

or_right : (a b : Bool) → (a || b) ≡ true → a ≡ false → b ≡ true
or_right a b h n = ground arith

or_intro_right : (a b : Bool) → b ≡ true → (a || b) ≡ true
or_intro_right a b h = ground arith

pick : (a b b' c : Bool) → (b ≡ true → b' ≡ true) → (b || c) ≡ true → (a || (b' || c)) ≡ true
pick true b b' c f h = refl
pick false true b' c f h = rw (f refl)
pick false false true c f h = refl
pick false false false c f h = h

Under-parents :
    (below root : FilePath)
    → (below ++ root == root || contains (parents (below ++ root)) root) ≡ true
unfolding parents contains
Under-parents [] root = ground (arith, eq_self root)
Under-parents (name ∷ below) root =
    pick (name ∷ (below ++ root) == root) (below ++ root == root) (root == below ++ root) _
      (λ e. eq_of_≡ root (below ++ root) (sym (eq→≡ (below ++ root) root e)))
      (Under-parents below root)

contains-any :
    (p : FilePath → Bool) (paths : List FilePath) (path : FilePath)
    → contains paths path ≡ true
    → p path ≡ true
    → any p paths ≡ true
unfolding contains any
contains-any p [] path h q = cc
contains-any p (x ∷ paths) path h q = ground (arith, contains-any p paths path)

any-contains :
    (p : FilePath → Bool) (paths : List FilePath)
    → any p paths ≡ true
    → (path : FilePath) × (contains paths path ≡ true) × (p path ≡ true)
unfolding contains any
any-contains p [] h = cc
any-contains p (x ∷ paths) h = elim (Bool-cases (p x)) [
  | inl holds ↦ (x, ground (arith, eq_self x), holds)
  | inr fails ↦
      let (path, member, holds) = any-contains p paths (ground arith) in (path, ground arith, holds)
]

-- The links on the way to the path: none of its ancestors, and not itself.
on_symlink-Under :
    (fs : FileSystem) (above : FilePath) (below : FilePath)
    → above ≢ []
    → on_symlink fs (below ++ above) ≡ false
    → fs.is_symlink above ≡ false
unfolding on_symlink
on_symlink-Under fs [] below some_name h = absurd (some_name refl)
on_symlink-Under fs (name ∷ parent) [] some_name h = ground arith
on_symlink-Under fs (name ∷ parent) (n ∷ below) some_name h =
    on_symlink-Under fs (name ∷ parent) below some_name (ground arith)

module _ (guard : PathGuard) where
  is_allowed-Under :
      (target : FilePath)
      → is_allowed guard target ≡ true
      → (root : FilePath) × (contains guard.allowed_roots root ≡ true) × Under root target
  unfolding is_allowed
  is_allowed-Under target h =
      let (root, member, holds) = any-contains _ guard.allowed_roots h in
      elim (Bool-cases (target == root)) [
        | inl same ↦ (root, member, ([], eq→≡ target root same))
        | inr other ↦ (root, member, parents-Under target root (ground arith))
      ]

  is_protected-Under :
      (path below : FilePath)
      → contains guard.protected_paths path ≡ true
      → is_protected guard (below ++ path) ≡ true
  unfolding is_protected
  is_protected-Under path below member = elim (Bool-cases (below ++ path == path)) [
    | inl same ↦ rw (
        subst (λ p. contains guard.protected_paths p ≡ true) (sym (eq→≡ (below ++ path) path same))
          member)
    | inr other ↦ or_intro_right (contains guard.protected_paths (below ++ path)) _ (
        contains-any (λ p. contains (parents (below ++ path)) p) guard.protected_paths path member
          (or_right (below ++ path == path) _ (Under-parents below path) other))
  ]

  -- What `validate` returns is what the path resolves to; it lies under an allowed root and under
  -- no protected path, and neither the absolute path nor a directory above it other than the root
  -- is a symbolic link.
  pub validate-in_scope :
      (fs : FileSystem) (raw_path : String) (must_exist : Bool) (target : FilePath)
      → validate guard fs raw_path must_exist ≡ ok target
      → (fs.resolve must_exist raw_path ≡ ok target)
        × ((root : FilePath) × (contains guard.allowed_roots root ≡ true) × Under root target)
        × ((path : FilePath) → contains guard.protected_paths path ≡ true → ¬ Under path target)
        × ((above : FilePath)
            → above ≢ []
            → Under above (fs.absolute raw_path)
            → fs.is_symlink above ≡ false)
  unfolding validate
  validate-in_scope fs raw_path must_exist target h =
      let unlinked : on_symlink fs (fs.absolute raw_path) ≡ false = ground arith in
      let unprotected : is_protected guard target ≡ false = ground arith in
      (
        ground arith,
        is_allowed-Under target (ground arith),
        λ path member (below, e). true≢false' (
            sym (is_protected-Under path below member)
            ∙ (ap (is_protected guard) (sym e) ∙ unprotected)),
        λ above some_name (below, e).
            on_symlink-Under fs above below some_name (ap (on_symlink fs) (sym e) ∙ unlinked),
      )
