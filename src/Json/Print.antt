-- ===== src/Json/Print.antt =====
-- The printer of `json.dumps(value, ensure_ascii=False, sort_keys=True, separators=(",", ":"))`.
use Prim.Native.Nat.{Ordering}
use Prim.Native.Char.{Char, code}
use Prim.Native.String.{compare}
use kylin_guard_agent.Base.{
  ℕ, zero, suc, ◌/◌, ◌%◌, String, ◌<>◌, Bool, true, false, [], ◌∷◌, ltb, if◌then◌else◌, ◌==◌,
  nat_eq,
}
use kylin_guard_agent.Base.Dict.{Dict}
use kylin_guard_agent.Json.{
  ℤ, pos, negsuc, Value, null, bool, int, float, str, arr, obj, Items, nil, cons, Fields, end,
  field, Arguments, to_fields,
}

-- a digit below 16
digit : ℕ → String
digit n =
    if ltb n 1
    then "0"
    else if ltb n 2
    then "1"
    else if ltb n 3
    then "2"
    else if ltb n 4
    then "3"
    else if ltb n 5
    then "4"
    else if ltb n 6
    then "5"
    else if ltb n 7
    then "6"
    else if ltb n 8
    then "7"
    else if ltb n 9
    then "8"
    else if ltb n 10
    then "9"
    else if ltb n 11
    then "a"
    else if ltb n 12
    then "b"
    else if ltb n 13
    then "c"
    else if ltb n 14
    then "d"
    else if ltb n 15
    then "e"
    else "f"

-- The decimal digits of `n`, in front of `rest`. The fuel `n` is enough, as `n / 10 < n`.
decimal_digits : ℕ → ℕ → String → String
unfolding digit
decimal_digits zero n rest = digit n <> rest
decimal_digits (suc fuel) n rest =
    let more = decimal_digits fuel (n / 10) (digit (n % 10) <> rest) in
    if ltb n 10 then digit n <> rest else more

show_int : ℤ → String
unfolding decimal_digits
show_int (pos n) = decimal_digits n n ""
show_int (negsuc n) = "-" <> decimal_digits (suc n) (suc n) ""

-- the text of the one character with the code point given
backslash : String
backslash = "\\"

-- a character of a string literal: `"`, `\` and the control characters are escaped
escape : Char → String
unfolding digit backslash
escape c =
    if code c == 34
    then backslash <> "\""
    else if code c == 92
    then backslash <> backslash
    else if code c == 10
    then backslash <> "n"
    else if code c == 13
    then backslash <> "r"
    else if code c == 9
    then backslash <> "t"
    else if code c == 12
    then backslash <> "f"
    else if code c == 8
    then backslash <> "b"
    else if ltb (code c) 32
    then backslash <> ("u00" <> (digit (code c / 16) <> digit (code c % 16)))
    else String.◌∷◌ c String.[]

escape_all : String → String
unfolding escape
escape_all String.[] = ""
escape_all (String.◌∷◌ c s) = escape c <> escape_all s

quote : String → String
unfolding escape_all
quote s = "\"" <> (escape_all s <> "\"")

is_before : String → String → Bool
is_before j k = elim (compare j k) [ Ordering.lt ↦ true | _ ↦ false ]

-- Members of an object with their printed values, sorted by key.
insert_member : String → String → Dict String String → Dict String String
unfolding is_before
insert_member k v [] = (k, v) ∷ []
insert_member k v ((j, w) ∷ ms) =
    let rest = insert_member k v ms in
    if is_before j k then (j, w) ∷ rest else (k, v) ∷ ((j, w) ∷ ms)

print_members : Dict String String → String
unfolding quote
print_members [] = ""
print_members ((k, v) ∷ []) = quote k <> (":" <> v)
print_members ((k, v) ∷ (m ∷ ms)) = quote k <> (":" <> (v <> ("," <> print_members (m ∷ ms))))

mutual
  unfolding show_int quote insert_member print_members

  dumps : Value → String
  dumps null = "null"
  dumps (bool true) = "true"
  dumps (bool false) = "false"
  dumps (int n) = show_int n
  dumps (float repr) = repr
  dumps (str s) = quote s
  dumps (arr xs) = "[" <> (dumps_items xs <> "]")
  dumps (obj fs) = "{" <> (print_members (members fs) <> "}")

  dumps_items : Items → String
  dumps_items nil = ""
  dumps_items (cons x nil) = dumps x
  dumps_items (cons x (cons y ys)) = dumps x <> ("," <> dumps_items (cons y ys))

  members : Fields → Dict String String
  members end = []
  members (field k v fs) = insert_member k (dumps v) (members fs)

-- `canonical_arguments`
unfoldable pub canonical_arguments : Arguments → String
unfolding dumps
canonical_arguments args = dumps (obj (to_fields args))
