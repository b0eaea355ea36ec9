-- ===== src/Base/Triple.antt =====
-- Triples for code that may raise: what holds of the state after a return, and after a raise.
use mathlib.Core.Path.{◌≡◌, refl}
use mathlib.Core.Logic.{◌⊎◌, inl, inr}
use mathlib.Core.Bool.{Bool, true, false}
use kylin_guard_agent.Base.Exec.{
  Error, Result, ok, err, Exec, continue, pure, lift, gets, raise_if, ◌>>=◌,
}

module _ {ℓ} {S A : Type ℓ} where
  abbrev pub After : (A → S → Type ℓ) → (S → Type ℓ) → Result A × S → Type ℓ
  After Q E (ok a, t) = Q a t
  After Q E (err e, t) = E t

  pub record Triple (P : S → Type ℓ) (m : Exec S A) (Q : A → S → Type ℓ) (E : S → Type ℓ)
      : Type ℓ where
    pub holds : (s : S) → P s → After Q E (m s)

  pub after_weaken :
      (Q Q' : A → S → Type ℓ) (E E' : S → Type ℓ) (r : Result A × S)
      → ((a : A) (t : S) → Q a t → Q' a t)
      → ((t : S) → E t → E' t)
      → After Q E r
      → After Q' E' r
  after_weaken Q Q' E E' (ok a, t) q e h = q a t h
  after_weaken Q Q' E E' (err x, t) q e h = e t h

  pub weaken :
      {P P' : S → Type ℓ} {Q Q' : A → S → Type ℓ} {E E' : S → Type ℓ} {m : Exec S A}
      → ((s : S) → P' s → P s)
      → ((a : A) (t : S) → Q a t → Q' a t)
      → ((t : S) → E t → E' t)
      → Triple P m Q E
      → Triple P' m Q' E'
  weaken {m} p q e h = record {
    holds = λ s before. after_weaken _ _ _ _ (m s) q e (h.holds s (p s before));
  }

  pub given :
      {P : S → Type ℓ} {X : Type ℓ} {Q : A → S → Type ℓ} {E : S → Type ℓ} {m : Exec S A}
      → (X → Triple P m Q E)
      → Triple (λ s. P s × X) m Q E
  given h = record { holds = λ s before. (h before.1).holds s before.0 }

  pub either :
      {P P' : S → Type ℓ} {Q : A → S → Type ℓ} {E : S → Type ℓ} {m : Exec S A}
      → Triple P m Q E
      → Triple P' m Q E
      → Triple (λ s. P s ⊎ P' s) m Q E
  either h h' = record {
    holds = λ s before. elim before [ inl b ↦ h.holds s b | inr b ↦ h'.holds s b ];
  }

  pub asks : (f : S → A) (P : S → Type ℓ) → Triple P (gets f) (λ a t. P t × (f t ≡ a)) P
  asks f P = record { holds = λ s h. (h, refl) }

  after_answer :
      (f : S → Result A) (P : S → Type ℓ) (s : S) (r : Result A)
      → f s ≡ r
      → P s
      → After (λ a t. P t × (f t ≡ ok a)) P (r, s)
  after_answer f P s (ok a) e h = (h, e)
  after_answer f P s (err x) e h = h

  pub answers :
      (f : S → Result A) (P : S → Type ℓ) → Triple P (λ s. (f s, s)) (λ a t. P t × (f t ≡ ok a)) P
  answers f P = record { holds = λ s h. after_answer f P s (f s) refl h }

  pub lifts : (r : Result A) (P : S → Type ℓ) → Triple P (lift r) (λ a t. P t × (r ≡ ok a)) P
  lifts r P = answers (λ _. r) P

  pub returns : (a : A) (Q : A → S → Type ℓ) (E : S → Type ℓ) → Triple (Q a) (pure a) Q E
  returns a Q E = record { holds = λ s h. h }

module _ {ℓ} {S A : Type ℓ} where
  -- `try: m`, `except Exception: handler; raise`
  abbrev reraise : Error → Result {ℓ} Unit × S → Result A × S
  reraise e (ok _, t) = (err e, t)
  reraise e (err x, t) = (err x, t)

  abbrev caught : Result A × S → Exec S Unit → Result A × S
  caught (ok a, t) handler = (ok a, t)
  caught (err e, t) handler = reraise e (handler t)

  unfoldable pub on_error : Exec S A → Exec S Unit → Exec S A
  on_error m handler s = caught (m s) handler

  after_reraise :
      (Q : A → S → Type ℓ) (F : S → Type ℓ) (e : Error) (r : Result {ℓ} Unit × S)
      → After (λ _ t. F t) F r
      → After Q F (reraise e r)
  after_reraise Q F e (ok _, t) h = h
  after_reraise Q F e (err x, t) h = h

  after_error :
      (Q : A → S → Type ℓ) (E F : S → Type ℓ) (r : Result A × S) (handler : Exec S Unit)
      → After Q E r
      → Triple E handler (λ _ t. F t) F
      → After Q F (caught r handler)
  after_error Q E F (ok a, t) handler h handled = h
  after_error Q E F (err e, t) handler h handled =
      after_reraise Q F e (handler t) (handled.holds t h)

  pub catch :
      {P : S → Type ℓ} {Q : A → S → Type ℓ} {E F : S → Type ℓ} {m : Exec S A}
      {handler : Exec S Unit}
      → Triple P m Q E
      → Triple E handler (λ _ t. F t) F
      → Triple P (on_error m handler) Q F
  unfolding on_error
  catch {Q} {E} {F} {m} {handler} h handled = record {
    holds = λ s before. after_error Q E F (m s) handler (h.holds s before) handled;
  }

module _ {ℓ} {S A B : Type ℓ} where
  after_continue :
      (R : A → S → Type ℓ) (Q : B → S → Type ℓ) (E : S → Type ℓ) (f : A → Exec S B)
      (r : Result A × S)
      → After R E r
      → ((a : A) → Triple (R a) (f a) Q E)
      → After Q E (continue r.0 f r.1)
  after_continue R Q E f (ok a, t) h later = (later a).holds t h
  after_continue R Q E f (err e, t) h later = h

  pub bind :
      {P : S → Type ℓ} {R : A → S → Type ℓ} {Q : B → S → Type ℓ} {E : S → Type ℓ} {m : Exec S A}
      {f : A → Exec S B}
      → Triple P m R E
      → ((a : A) → Triple (R a) (f a) Q E)
      → Triple P (m >>= f) Q E
  bind {R} {Q} {E} {m} {f} first later = record {
    holds = λ s before. after_continue R Q E f (m s) (first.holds s before) later;
  }

module _ {ℓ} {S : Type ℓ} where
  pub check :
      (P : S → Type ℓ) (b : Bool) (e : Error) → Triple P (raise_if b e) (λ _ t. P t × (b ≡ false)) P
  check P true e = record { holds = λ s h. h }
  check P false e = record { holds = λ s h. (h, refl) }
