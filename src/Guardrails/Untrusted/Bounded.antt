-- ===== src/Guardrails/Untrusted/Bounded.antt =====
-- How deep and how wide sanitized data can be (backend/app/guardrails/untrusted.py).
use kylin_guard_agent.Base.{
  ℕ, ◌+◌, ◌≤◌, String, Bool, true, false, [], ◌∷◌, if◌then◌else◌, leb, ltb, string_eq, ◌==◌, arith,
  Bool-cases, inl, inr,
}
use kylin_guard_agent.Base.Dict.{insert}
use kylin_guard_agent.Json.{
  Value, null, bool, int, float, str, arr, obj, Items, nil, cons, Fields, end, field, Arguments,
  to_fields,
}
use kylin_guard_agent.Guardrails.Untrusted.{
  unless_deep, sanitize_untrusted, sanitize_items, sanitize_members,
}

abbrev pub count : Items → ℕ
count nil = 0
count (cons item items) = count items + 1

abbrev pub size : Fields → ℕ
size end = 0
size (field key item members) = size members + 1

-- A value inside `depth` others that nests no deeper than nine in all, where no list has more than
-- 200 items and no mapping more than 201 members.
mutual
  pub IsBounded : ℕ → Value → Type 0
  IsBounded depth (arr items) = (depth ≤ 8) × (count items ≤ 200) × AllBounded (depth + 1) items
  IsBounded depth (obj members) =
      (depth ≤ 8) × (size members ≤ 201) × AllFieldsBounded (depth + 1) members
  IsBounded depth _ = Unit

  pub AllBounded : ℕ → Items → Type 0
  AllBounded depth nil = Unit
  AllBounded depth (cons item items) = IsBounded depth item × AllBounded depth items

  pub AllFieldsBounded : ℕ → Fields → Type 0
  AllFieldsBounded depth end = Unit
  AllFieldsBounded depth (field key item members) =
      IsBounded depth item × AllFieldsBounded depth members

insert-AllFieldsBounded :
    (depth : ℕ) (key : String) (value : Value) (members : Arguments)
    → IsBounded depth value
    → AllFieldsBounded depth (to_fields members)
    → AllFieldsBounded depth (to_fields (insert key value members))
unfolding insert AllFieldsBounded
insert-AllFieldsBounded depth key value [] v h = (v, tt)
insert-AllFieldsBounded depth key value ((other, w) ∷ members) v (held, h) =
    elim (Bool-cases (key == other)) [
      | inl e ↦ rw e (v, h)
      | inr e ↦ rw e (held, insert-AllFieldsBounded depth key value members v h)
    ]

insert-size :
    (key : String) (value : Value) (members : Arguments)
    → size (to_fields (insert key value members)) ≤ size (to_fields members) + 1
unfolding insert
insert-size key value [] = omega arith
insert-size key value ((other, w) ∷ members) = elim (Bool-cases (key == other)) [
  | inl e ↦ rw e (omega arith)
  | inr e ↦ rw e (omega (arith, insert-size key value members))
]

module _ (sanitize_text : ℕ → String → String) (lower : String → String) where
  when_shallow :
      (depth : ℕ) (value : Value)
      → (depth ≤ 8 → IsBounded depth value)
      → IsBounded depth (unless_deep sanitize_text lower depth value)
  unfolding IsBounded
  when_shallow depth value h = elim (Bool-cases (ltb 8 depth)) [
    | inl e ↦ rw e tt
    | inr e ↦ rw e (h (ground arith))
  ]

  choose :
      (depth : ℕ) (secret : Bool) (text : String) (value : Value)
      → IsBounded depth value
      → IsBounded depth (if secret then str text else value)
  unfolding IsBounded
  choose depth true text value h = tt
  choose depth false text value h = h

  sanitize_items-count :
      (depth index : ℕ) (items : Items)
      → index ≤ 200
      → count (sanitize_items sanitize_text lower depth index items) + index ≤ 200
  unfolding sanitize_items
  sanitize_items-count depth index nil h = omega arith
  sanitize_items-count depth index (cons item items) h = elim (Bool-cases (leb 200 index)) [
    | inl e ↦ rw e (omega arith)
    | inr e ↦
        let below : index + 1 ≤ 200 = ground arith in
        rw e (omega (arith, sanitize_items-count depth (index + 1) items below))
  ]

  sanitize_members-size :
      (depth index : ℕ) (members : Fields) (result : Arguments)
      → index ≤ 200
      → size (to_fields result) ≤ index
      → size (to_fields (sanitize_members sanitize_text lower depth index members result)) ≤ 201
  unfolding sanitize_members
  sanitize_members-size depth index end result h s = omega arith
  sanitize_members-size depth index (field key item members) result h s =
      elim (Bool-cases (leb 200 index)) [
        | inl e ↦ rw e (omega (arith, insert-size "_truncated" (bool true) result))
        | inr e ↦
            let below : index + 1 ≤ 200 = ground arith in
            rw e (
              sanitize_members-size depth (index + 1) members _ below
                (omega (arith, insert-size _ _ result)))
      ]

  mutual
    unfolding IsBounded AllBounded AllFieldsBounded sanitize_untrusted sanitize_items
        sanitize_members

    sanitize_untrusted-IsBounded :
        (depth : ℕ) (value : Value)
        → IsBounded depth (sanitize_untrusted sanitize_text lower depth value)
    sanitize_untrusted-IsBounded depth null = when_shallow depth null (λ _. tt)
    sanitize_untrusted-IsBounded depth (bool b) = when_shallow depth (bool b) (λ _. tt)
    sanitize_untrusted-IsBounded depth (int n) = when_shallow depth (int n) (λ _. tt)
    sanitize_untrusted-IsBounded depth (float repr) = when_shallow depth (float repr) (λ _. tt)
    sanitize_untrusted-IsBounded depth (str text) =
        when_shallow depth (str (sanitize_text 32768 text)) (λ _. tt)
    sanitize_untrusted-IsBounded depth (arr items) = when_shallow depth _ (λ shallow. (
      shallow,
      omega (arith, sanitize_items-count depth 0 items (omega arith)),
      sanitize_items-AllBounded depth 0 items,
    ))
    sanitize_untrusted-IsBounded depth (obj members) = when_shallow depth _ (λ shallow. (
      shallow,
      sanitize_members-size depth 0 members [] (omega arith) (omega arith),
      sanitize_members-AllFieldsBounded depth 0 members [] tt,
    ))

    sanitize_items-AllBounded :
        (depth index : ℕ) (items : Items)
        → AllBounded (depth + 1) (sanitize_items sanitize_text lower depth index items)
    sanitize_items-AllBounded depth index nil = tt
    sanitize_items-AllBounded depth index (cons item items) = elim (Bool-cases (leb 200 index)) [
      | inl e ↦ rw e tt
      | inr e ↦ rw e (
        sanitize_untrusted-IsBounded (depth + 1) item,
        sanitize_items-AllBounded depth (index + 1) items,
      )
    ]

    sanitize_members-AllFieldsBounded :
        (depth index : ℕ) (members : Fields) (result : Arguments)
        → AllFieldsBounded (depth + 1) (to_fields result)
        → AllFieldsBounded
            (depth + 1)
            (to_fields (sanitize_members sanitize_text lower depth index members result))
    sanitize_members-AllFieldsBounded depth index end result h = h
    sanitize_members-AllFieldsBounded depth index (field key item members) result h =
        elim (Bool-cases (leb 200 index)) [
          | inl e ↦ rw e (insert-AllFieldsBounded (depth + 1) "_truncated" (bool true) result tt h)
          | inr e ↦ rw e (
              sanitize_members-AllFieldsBounded depth (index + 1) members _ (
                insert-AllFieldsBounded (depth + 1) _ _ result
                  (choose (depth + 1) _ _ _ (sanitize_untrusted-IsBounded (depth + 1) item)) h))
        ]

  -- Whatever the value, the value that `sanitize_untrusted` returns nests lists and mappings at
  -- most nine deep, and has no list of more than 200 items and no mapping of more than 201
  -- members.
  pub sanitize_untrusted_lem :
      (value : Value) → IsBounded 0 (sanitize_untrusted sanitize_text lower 0 value)
  sanitize_untrusted_lem value = sanitize_untrusted-IsBounded 0 value
