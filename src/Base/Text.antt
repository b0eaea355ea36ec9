-- ===== src/Base/Text.antt =====
-- Texts. `String` is a list of characters by its own `[]` and `∷`.
use Prim.Native.Nat.{ℕ, zero, suc, ◌+◌}
use Prim.Native.Char.{Char, code}
use Prim.Native.String.{String}
use Prim.Native.String.{◌++◌ as ◌<>◌}
use mathlib.Core.Path.{◌≡◌}
use mathlib.Core.Option.{Option, none, some}
use native.Mathlib.Omega.{arith}
use kylin_guard_agent.Base.Lists.{length}
use kylin_guard_agent.Base.Tests.{if◌then◌else◌}
use kylin_guard_agent.Base.Equality.{◌==◌, nat_eq, string_eq}
use mathlib.Core.Bool.{Bool, true, false, ◌||◌}
use mathlib.Core.List.{List, [], ◌∷◌}
use text.Mathlib.Text.{starts_with}
use text.Mathlib.TextLemmas.{cons-append, nil-append}

-- the code points of a text
abbrev pub codes : String → List ℕ
codes String.[] = []
codes (String.◌∷◌ c s) = code c ∷ codes s

-- `part in text`
unfoldable pub has_substring : String → String → Bool
has_substring part String.[] = starts_with String.[] part
has_substring part (String.◌∷◌ c s) = starts_with (String.◌∷◌ c s) part || has_substring part s

-- `text[:n]`
abbrev pub prefix : ℕ → String → String
prefix zero s = String.[]
prefix (suc n) String.[] = String.[]
prefix (suc n) (String.◌∷◌ c s) = String.◌∷◌ c (prefix n s)

-- `not text`
abbrev pub is_empty : String → Bool
is_empty String.[] = true
is_empty (String.◌∷◌ c s) = false

-- `text.endswith(part)`
unfoldable pub ends_with : String → String → Bool
ends_with part String.[] = is_empty part
ends_with part (String.◌∷◌ c s) = part == String.◌∷◌ c s || ends_with part s

-- `text.removeprefix(start)`, with `none` where `text.startswith(start)` is false
unfoldable pub after_prefix : String → String → Option String
after_prefix String.[] s = some s
after_prefix (String.◌∷◌ c start) String.[] = none
after_prefix (String.◌∷◌ c start) (String.◌∷◌ d s) =
    let rest = after_prefix start s in if code c == code d then rest else none

-- `text.rsplit(sep, 1)`, with `none` where the separator does not occur
unfoldable pub rsplit : ℕ → String → Option (String × String)
rsplit sep String.[] = none
rsplit sep (String.◌∷◌ c s) = elim (rsplit sep s) [
  | some (before, after) ↦ some (String.◌∷◌ c before, after)
  | none ↦ if code c == sep then some (String.[], s) else none
]

-- The last separator is the one that stands before a text without separators.
pub rsplit-append :
    (sep : ℕ) (c : Char) (before after : String)
    → code c ≡ sep
    → rsplit sep after ≡ none
    → rsplit sep (before <> String.◌∷◌ c after) ≡ some (before, after)
unfolding rsplit
rsplit-append sep c String.[] after h n = rw nil-append (ground arith)
rsplit-append sep c (String.◌∷◌ d before) after h n =
    rw cons-append (ground (arith, rsplit-append sep c before after h n))

pub length-codes_append :
    (s t : String) → length (codes (s <> t)) ≡ length (codes s) + length (codes t)
length-codes_append String.[] t = rw nil-append (omega arith)
length-codes_append (String.◌∷◌ c s) t = rw cons-append (omega (arith, length-codes_append s t))
