-- ===== src/Base/Exec.antt =====
-- Code that mutates state and may raise. What was written before a raise stays written, so the
-- state comes back beside the error too.
use Prim.Native.Nat.{ℕ}
use Prim.Native.String.{String}
use mathlib.Core.Path.{◌≡◌, refl}
use mathlib.Core.Bool.{Bool, true, false}
use native.Mathlib.Omega.{arith}

-- `ErrorCode` of backend/app/core/errors.py
pub data ErrorCode : Type 0 where
  validation_error auth_required auth_invalid rbac_denied not_found : ErrorCode
  invalid_state_transition internal_error : ErrorCode

-- `ValueError(code)` and its subclasses; `AppError(code, _, status)`; `OSError` and `sqlite3.Error`;
-- `TypeError`; `subprocess.TimeoutExpired`; SQLAlchemy's `IntegrityError`
pub data Error : Type 0 where
  value_error : String → Error
  app_error : ErrorCode → ℕ → Error
  os_error type_error timeout_expired integrity_error : Error

pub data Result {ℓ} (A : Type ℓ) : Type ℓ where
  ok : A → Result A
  err : Error → Result A

abbrev pub Exec {ℓ} : Type ℓ → Type ℓ → Type ℓ
Exec S A = S → Result A × S

module _ {ℓ} {S A : Type ℓ} where
  abbrev pub pure : A → Exec S A
  pure a s = (ok a, s)

  abbrev pub raise : Error → Exec S A
  raise e s = (err e, s)

  abbrev pub lift : Result A → Exec S A
  lift r s = (r, s)

  abbrev pub gets : (S → A) → Exec S A
  gets f s = (ok (f s), s)

module _ {ℓ} {S : Type ℓ} where
  abbrev pub modify : (S → S) → Exec S Unit
  modify f s = (ok tt, f s)

  -- `if b: raise e`
  abbrev pub raise_if : Bool → Error → Exec S Unit
  raise_if true e s = (err e, s)
  raise_if false e s = (ok tt, s)

module _ {ℓ} {S A B : Type ℓ} where
  abbrev pub continue : Result A → (A → Exec S B) → Exec S B
  continue (ok a) f s = f a s
  continue (err e) f s = (err e, s)

  infixl 5 ◌>>=◌ ◌>>◌
  abbrev pub ◌>>=◌ : Exec S A → (A → Exec S B) → Exec S B
  ◌>>=◌ m f before = let reached = m before in continue reached.0 f reached.1

  abbrev pub ◌>>◌ : Exec S A → Exec S B → Exec S B
  first >> second = first >>= λ ignored. second

-- What is known of a chain that returned: its first part returned `value` and left `middle`.
pub record Passed {ℓ} {S A B : Type ℓ} (m : Exec S A) (f : A → Exec S B) (s : S) (b : B) (t : S)
    : Type ℓ where
  pub value : A
  pub middle : S
  pub first : m s ≡ (ok value, middle)
  pub later : f value middle ≡ (ok b, t)

module _ {ℓ} {S A B : Type ℓ} (m : Exec S A) (f : A → Exec S B) where
  continue-Passed :
      (r : Result A × S) (s t : S) (b : B)
      → m s ≡ r
      → continue r.0 f r.1 ≡ (ok b, t)
      → Passed m f s b t
  continue-Passed (ok a, s') s t b e h = record { value = a; middle = s'; first = e; later = h }
  continue-Passed (err x, s') s t b e h = ground arith

  pub passed : (s t : S) (b : B) → (m >>= f) s ≡ (ok b, t) → Passed m f s b t
  passed s t b h = continue-Passed (m s) s t b refl h
