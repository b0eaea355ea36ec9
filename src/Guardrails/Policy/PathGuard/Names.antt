-- ===== src/Guardrails/Policy/PathGuard/Names.antt =====
-- pathlib's `name`, `parent` and `with_name` on resolved paths.
use kylin_guard_agent.Base.{
  ℕ, String, false, [], ◌∷◌, ◌==◌, ◌≡◌, ◌≢◌, refl, ap, inl, inr, Bool-cases, eq→≡, length, codes,
}
use kylin_guard_agent.Guardrails.Policy.PathGuard.{FilePath, path_eq}

-- the root has no name and is its own parent
abbrev pub name_of : FilePath → String
name_of [] = ""
name_of (name ∷ parent) = name

abbrev pub parent_of : FilePath → FilePath
parent_of [] = []
parent_of (name ∷ parent) = parent

abbrev pub with_name : FilePath → String → FilePath
with_name [] name = name ∷ []
with_name (_ ∷ parent) name = name ∷ parent

-- the number of characters of a name, by which fresh names are told apart
abbrev pub chars : FilePath → ℕ
chars path = length (codes (name_of path))

pub name_of-with_name : (path : FilePath) (name : String) → name_of (with_name path name) ≡ name
name_of-with_name [] name = refl
name_of-with_name (_ ∷ parent) name = refl

pub differs : (p q : FilePath) → chars p ≢ chars q → (p == q) ≡ false
differs p q h = elim (Bool-cases (p == q)) [
  | inl e ↦ absurd (h (ap chars (eq→≡ p q e)))
  | inr e ↦ e
]
