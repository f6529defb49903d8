-- ===== src/Intelligence/Answers.antt =====
-- apps/web/intelligence/validate.ts: the shapes of the answers to each method, and their check.
use terminus_web.Prelude.{
  ℕ, Bool, true, false, ◌&&◌, ◌||◌, List, [], ◌∷◌, Text, codes, includes, length, all, leb, ◌==◌,
  none, some,
}
use terminus_web.Json.{nat, Json, null, bool, num, str, arr, obj, Fields, elements, keys, get}
use terminus_web.Codec.Identifiers.{is_uuid_v4}
use terminus_web.Codec.Frames.{max_safe_sequence}

-- `Check`
abbrev pub Check : Type 0
Check = Json → Bool

abbrev pub Shape : Type 0
Shape = List (Text × Check)

-- `text`
abbrev pub is_string : Check
is_string (str t) = true
is_string _ = false

-- `integer`
abbrev pub is_integer : Check
is_integer (num (nat n)) = leb n max_safe_sequence
is_integer _ = false

-- `bool`
abbrev pub is_boolean : Check
is_boolean (bool b) = true
is_boolean _ = false

-- `literal` of texts, of `true` or `false`, and of `null`.
unfoldable pub one_of : List Text → Check
unfolding includes
one_of ts (str t) = includes ts t
one_of ts _ = false

abbrev pub only : Bool → Check
only true (bool b) = b
only false (bool true) = false
only false (bool false) = true
only _ _ = false

abbrev pub is_null : Check
is_null null = true
is_null _ = false

-- `array`
unfoldable pub array : Check → ℕ → Check
unfolding elements
array check max (arr vs) = leb (length (elements vs)) max && all check (elements vs)
array check max _ = false

-- `k in v && c(v[k])`. No key of a shape is inherited.
unfoldable pub check_field : Fields → Text × Check → Bool
unfolding get
check_field fs (k, check) = elim (get k fs) [ none ↦ false | some v ↦ check v ]

-- `object`
unfoldable pub object : Shape → Check
unfolding keys check_field
object shape (obj fs) = length (keys fs) == length shape && all (check_field fs) shape
object shape _ = false

-- `user`
abbrev pub user : Check
user =
    object ((codes "id", is_string) ∷ (codes "email", is_string) ∷ (codes "name", is_string) ∷ [])

abbrev pub privacy : Check
privacy = object (
    (codes "history", is_boolean)
    ∷ (codes "analytics", is_boolean)
    ∷ (codes "personalization", is_boolean)
    ∷ [])

-- `snapshot`
abbrev pub snapshot : Shape
snapshot =
    (codes "sessionId", is_string)
    ∷ (codes "identity", one_of (codes "guest" ∷ codes "authenticated" ∷ []))
    ∷ (codes "user", λ v. is_null v || user v)
    ∷ (codes "privacy", privacy)
    ∷ (codes "retentionDays", is_integer)
    ∷ (codes "admin", is_boolean)
    ∷ []

-- `event`
abbrev pub event : Check
event = object (
    (codes "id", is_string)
    ∷ (codes "command", is_string)
    ∷ (codes "category", is_string)
    ∷ (codes "purpose", is_string)
    ∷ (codes "createdAt", is_string)
    ∷ (codes "status", one_of (codes "submitted" ∷ []))
    ∷ (codes "exitCode", is_null)
    ∷ (codes "durationMs", is_null)
    ∷ [])

abbrev pub top_command : Check
top_command = object ((codes "command", is_string) ∷ (codes "count", is_integer) ∷ [])

-- `usage`. An array is of at most 10000 elements where nothing else is said.
abbrev pub usage : Shape
usage =
    (codes "sessions", is_integer)
    ∷ (codes "commands", is_integer)
    ∷ (codes "terminalTimeMs", is_integer)
    ∷ (codes "recommendationImpressions", is_integer)
    ∷ (codes "recommendationClicks", is_integer)
    ∷ (codes "inputTokens", is_integer)
    ∷ (codes "outputTokens", is_integer)
    ∷ (codes "totalTokens", is_integer)
    ∷ (codes "aiRequests", is_integer)
    ∷ (codes "tokenLimit", is_integer)
    ∷ (codes "remainingTokens", is_integer)
    ∷ (codes "topCommands", array top_command 10000)
    ∷ []

-- `recommendation`
abbrev pub recommendation : Check
recommendation = object (
    (codes "id", is_string)
    ∷ (codes "command", is_string)
    ∷ (codes "category", is_string)
    ∷ (codes "purpose", is_string)
    ∷ (codes "reason", is_string)
    ∷ (codes "risk", one_of (codes "read" ∷ codes "write" ∷ []))
    ∷ (codes "sourceUrl", is_string)
    ∷ [])

-- `keyof Rpc`
pub data Method : Type 0 where
  session_current privacy_update guest_delete : Method
  account_register account_login account_logout : Method
  command_record history_list history_delete analytics_delete data_export : Method
  recommendations_get recommendation_click terminal_record : Method
  usage_get billing_get admin_overview : Method

-- `isUuidV4` of any value.
abbrev pub is_cursor : Check
is_cursor (str t) = is_uuid_v4 t
is_cursor _ = false

abbrev pub recorded : Shape
recorded = (codes "recorded", is_boolean) ∷ []

abbrev pub deleted : Shape
deleted = (codes "deleted", only true) ∷ []

-- `checks`, all of which are made by `object`.
unfoldable pub shape_of : Method → Shape
unfolding one_of array object
shape_of command_record =
    (codes "recorded", is_boolean) ∷ (codes "event", λ v. is_null v || event v) ∷ []
shape_of history_list = (codes "items", array event 100) ∷ []
shape_of history_delete = deleted
shape_of analytics_delete = deleted
shape_of data_export =
    (codes "session", object snapshot)
    ∷ (codes "history", array event 50)
    ∷ (codes "usage", object usage)
    ∷ (codes "nextCursor", λ v. is_null v || is_cursor v)
    ∷ []
shape_of recommendations_get =
    (codes "items", array recommendation 6)
    ∷ (codes "mode", one_of (codes "catalog" ∷ codes "local-model" ∷ []))
    ∷ []
shape_of recommendation_click = recorded
shape_of terminal_record = recorded
shape_of usage_get = usage
shape_of billing_get =
    (codes "plan", one_of (codes "Personal prototype" ∷ []))
    ∷ (codes "commercialEnabled", only false)
    ∷ (codes "tokenLimit", is_integer)
    ∷ (codes "tokensUsed", is_integer)
    ∷ []
shape_of admin_overview =
    (codes "users", is_integer)
    ∷ (codes "sessions", is_integer)
    ∷ (codes "commands", is_integer)
    ∷ (codes "inputTokens", is_integer)
    ∷ (codes "outputTokens", is_integer)
    ∷ (codes "totalTokens", is_integer)
    ∷ (codes "activeConnections", is_integer)
    ∷ []
shape_of _ = snapshot

-- `validResult`
unfoldable pub valid_result : Method → Json → Bool
unfolding shape_of
valid_result method v = object (shape_of method) v
