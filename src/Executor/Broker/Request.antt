-- ===== src/Executor/Broker/Request.antt =====
-- `_parse_request`: the schema of a request.
use kylin_guard_agent.Base.{
  String, Bool, true, false, Option, some, List, [], ◌∷◌, map, not, ◌&&◌, ◌||◌, ◌==◌, string_eq,
  nat_eq, option_eq, contains, any, all, if◌then◌else◌,
}
use kylin_guard_agent.Base.Dict.{lookup}
use kylin_guard_agent.Base.Exec.{value_error, type_error, Result, ok, err}
use kylin_guard_agent.Json.{
  pos, Value, bool, int, float, str, arr, obj, Fields, end, field, Arguments,
}

abbrev pub schema_invalid {ℓ} : {A : Type ℓ} → Result A
schema_invalid = err (value_error "BROKER_SCHEMA_INVALID")

unfoldable pub of_fields : Fields → Arguments
of_fields end = []
of_fields (field k v fs) = (k, v) ∷ of_fields fs

abbrev pub keys : Arguments → List String
keys = map (λ (k, _). k)

abbrev pub base_fields : List String
base_fields = "version" ∷ "action" ∷ "user_id" ∷ "task_id" ∷ "approval_token" ∷ []

abbrev pub allowed_fields : List String
allowed_fields =
    "version" ∷ "action" ∷ "user_id" ∷ "task_id" ∷ "approval_token" ∷ "service" ∷ "change_id"
    ∷ "candidate_id" ∷ []

-- `set(value) - allowed` is not empty
abbrev pub has_other : List String → Arguments → Bool
has_other allowed value = any (λ k. not (contains allowed k)) (keys value)

-- `value.get("version") == 1`; in Python `True` and `1.0` are equal to `1`
abbrev pub is_one : Option Value → Bool
is_one (some (int (pos n))) = n == 1
is_one (some (bool b)) = b
is_one (some (float repr)) = repr == "1.0"
is_one _ = false

-- `value == text`
abbrev pub is_text : Option Value → String → Bool
is_text (some (str s)) text = s == text
is_text _ text = false

-- A `list` or a `dict` has no hash, so `action in {…}` raises `TypeError`.
abbrev pub is_hashable : Option Value → Bool
is_hashable (some (arr xs)) = false
is_hashable (some (obj fs)) = false
is_hashable _ = true

-- the tests on the action, in the order of the source
check_action : Option Value → Arguments → Result Arguments
check_action action value =
    if (is_text action "service_restart" || is_text action "service_rollback")
      && not (is_text (lookup "service" value) "nginx")
    then schema_invalid
    else if is_text action "service_restart" && has_other ("service" ∷ base_fields) value
    then schema_invalid
    else if is_text action "service_rollback"
        && (has_other ("service" ∷ "change_id" ∷ base_fields) value
            || not (contains (keys value) "change_id"))
    then schema_invalid
    else if is_text action "safe_log_cleanup"
        && (has_other ("candidate_id" ∷ base_fields) value
            || not (contains (keys value) "candidate_id"))
    then schema_invalid
    else if is_text action "cleanup_rollback"
        && (has_other ("change_id" ∷ base_fields) value || not (contains (keys value) "change_id"))
    then schema_invalid
    else if not (
        is_text action "service_restart"
        || is_text action "service_rollback"
        || is_text action "safe_log_cleanup"
        || is_text action "cleanup_rollback")
    then schema_invalid
    else ok value

unfoldable pub check_fields : Arguments → Result Arguments
unfolding check_action
check_fields value =
    if not (all (contains (keys value)) base_fields) || has_other allowed_fields value
    then schema_invalid
    else if not (is_one (lookup "version" value))
    then schema_invalid
    else if not (is_hashable (lookup "action" value))
    then err type_error
    else check_action (lookup "action" value) value

-- The argument is the result of `json.loads(raw.decode("utf-8"))`, with the message of the
-- `ValueError` that it may raise.
unfoldable pub parse_request : Result Value → Result Arguments
unfolding check_fields of_fields
parse_request (err e) = err e
parse_request (ok (obj fs)) = check_fields (of_fields fs)
parse_request (ok _) = schema_invalid
