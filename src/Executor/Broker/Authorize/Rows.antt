-- ===== src/Executor/Broker/Authorize/Rows.antt =====
-- The one row that `consume_rows` changes (`_authorize_and_consume` of backend/app/executor/broker.py).
use kylin_guard_agent.Base.{
  ◌≤◌, String, Bool, true, ◌≡◌, refl, some, List, [], ◌∷◌, ◌++◌, ◌&&◌, ◌==◌, string_eq, option_eq,
  arith, find, Bool-cases, inl, inr, ap, eq_self,
}
use mathlib.Core.Path.{subst}
use mathlib.Core.Option.{some-injective}
use kylin_guard_agent.Base.Dict.{Dict}
use kylin_guard_agent.Models.{Approval}
use kylin_guard_agent.Executor.Broker.Authorize.{matches, consume_rows}

-- Where a value stands in a list.
pub record Among {ℓ} {A : Type ℓ} (x : A) (xs : List A) : Type ℓ where
  pub front : List A
  pub back : List A
  pub placed : xs ≡ front ++ (x ∷ back)

pub find-Among : {A : Type 0} (p : A → Bool) (xs : List A) (x : A) → find p xs ≡ some x → Among x xs
unfolding find
find-Among p [] x h = ground arith
find-Among p (y ∷ ys) x h = elim (Bool-cases (p y)) [
  | inl e ↦ record { front = []; back = ys; placed = ground arith }
  | inr e ↦
      let rest = find-Among p ys x (ground arith) in
      record { front = y ∷ rest.front; back = rest.back; placed = ap (λ zs. y ∷ zs) rest.placed }
]

-- The rows are as before, but for the status of one of them.
pub record IsConsumed (id : String) (row : Approval) (before after : Dict String Approval)
    : Type 0 where
  pub front : Dict String Approval
  pub back : Dict String Approval
  pub placed : before ≡ front ++ ((id, row) ∷ back)
  pub replaced : after ≡ front ++ ((id, record row { status = "CONSUMED" }) ∷ back)

consume_rows-none :
    (id token_hash : String) (rows : Dict String Approval)
    → (consume_rows id token_hash rows).1 ≡ 0
    → (consume_rows id token_hash rows).0 ≡ rows
unfolding consume_rows
consume_rows-none id h [] e = refl
consume_rows-none id h ((key, row) ∷ rows) e =
    elim (Bool-cases (key == id && row.status == "APPROVED" && row.token_hash == some h)) [
      | inl f ↦ ground arith
      | inr f ↦ rw f (ap (λ rs. (key, row) ∷ rs) (consume_rows-none id h rows (ground arith)))
    ]

module _ (token_hash u t tool arguments_hash : String) where
  -- a row that the `SELECT` finds is one that the `UPDATE` takes
  matches-updated :
      (id : String) (row : Approval)
      → matches token_hash u t tool arguments_hash row ≡ true
      → (id == id && row.status == "APPROVED" && row.token_hash == some token_hash) ≡ true
  unfolding matches
  matches-updated id row m = rw (eq_self id) (ground arith)

  first-found :
      (id key : String) (row r : Approval) (rows : Dict String Approval)
      → matches token_hash u t tool arguments_hash r ≡ true
      → find (λ (_, r). matches token_hash u t tool arguments_hash r) ((key, r) ∷ rows)
        ≡ some (id, row)
      → ◌≡◌ {A = String × Approval} (key, r) (id, row)
  unfolding find
  first-found id key row r rows m h = some-injective _ _ (rw m at h)

  first-counted :
      (key : String) (r : Approval) (rows : Dict String Approval)
      → matches token_hash u t tool arguments_hash r ≡ true
      → 1 ≤ (consume_rows key token_hash ((key, r) ∷ rows)).1
  unfolding consume_rows
  first-counted key r rows m = rw (matches-updated key r m) (omega arith)

  first-IsConsumed :
      (key : String) (r : Approval) (rows : Dict String Approval)
      → matches token_hash u t tool arguments_hash r ≡ true
      → (consume_rows key token_hash ((key, r) ∷ rows)).1 ≡ 1
      → IsConsumed key r ((key, r) ∷ rows) (consume_rows key token_hash ((key, r) ∷ rows)).0
  unfolding consume_rows
  first-IsConsumed key r rows m one =
      let updated = matches-updated key r m in
      let none_left : (consume_rows key token_hash rows).1 ≡ 0 = omega (arith, rw updated at one) in
      record {
        front = [];
        back = rows;
        placed = refl;
        replaced = rw updated (
            ap (λ rs. (key, record r { status = "CONSUMED" }) ∷ rs)
              (consume_rows-none key token_hash rows none_left));
      }

  found-counted :
      (id : String) (row : Approval) (rows : Dict String Approval)
      → find (λ (_, r). matches token_hash u t tool arguments_hash r) rows ≡ some (id, row)
      → 1 ≤ (consume_rows id token_hash rows).1
  unfolding find consume_rows
  found-counted id row [] h = ground arith
  found-counted id row ((key, r) ∷ rows) h =
      elim (Bool-cases (matches token_hash u t tool arguments_hash r)) [
        | inl m ↦
            subst (λ (x : String × Approval). 1 ≤ (consume_rows x.0 token_hash ((key, r) ∷ rows)).1)
              (first-found id key row r rows m h) (first-counted key r rows m)
        | inr m ↦
            let more = found-counted id row rows (rw m at h) in
            elim (Bool-cases
              (key == id && r.status == "APPROVED" && r.token_hash == some token_hash)) [
                | inl f ↦ rw f (omega arith)
                | inr f ↦ rw f more
              ]
      ]

  pub consume_rows-IsConsumed :
      (id : String) (row : Approval) (rows : Dict String Approval)
      → find (λ (_, r). matches token_hash u t tool arguments_hash r) rows ≡ some (id, row)
      → (consume_rows id token_hash rows).1 ≡ 1
      → IsConsumed id row rows (consume_rows id token_hash rows).0
  unfolding find consume_rows
  consume_rows-IsConsumed id row [] h one = ground arith
  consume_rows-IsConsumed id row ((key, r) ∷ rows) h one =
      elim (Bool-cases (matches token_hash u t tool arguments_hash r)) [
        | inl m ↦
            subst
              (λ (x : String × Approval).
                (consume_rows x.0 token_hash ((key, r) ∷ rows)).1 ≡ 1
                → IsConsumed x.0 x.1 ((key, r) ∷ rows)
                    (consume_rows x.0 token_hash ((key, r) ∷ rows)).0)
              (first-found id key row r rows m h) (first-IsConsumed key r rows m) one
        | inr m ↦
            let found = rw m at h in
            elim (Bool-cases
              (key == id && r.status == "APPROVED" && r.token_hash == some token_hash)) [
                | inl f ↦ absurd (omega (arith, found-counted id row rows found, rw f at one))
                | inr f ↦
                    let rest = consume_rows-IsConsumed id row rows found (rw f at one) in
                    record {
                      front = (key, r) ∷ rest.front;
                      back = rest.back;
                      placed = ap (λ rs. (key, r) ∷ rs) rest.placed;
                      replaced = rw f (ap (λ rs. (key, r) ∷ rs) rest.replaced);
                    }
              ]
      ]
