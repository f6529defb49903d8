-- ===== src/Intelligence/Requests.antt =====
-- apps/web/intelligence/request.ts: the check of a request, and `validCommand` of client.ts. No key
-- that is asked for is inherited, and no property of a request is `undefined`.
use terminus_web.Prelude.{
  ℕ, Bool, true, false, not, ◌&&◌, ◌||◌, List, [], ◌∷◌, Option, none, some, Text, codes, text_eq,
  includes, is_space, length, all, any, leb, if◌then◌else◌,
}
use terminus_web.Json.{nat, Json, bool, num, str, obj, Fields, keys, get, has_own}
use terminus_web.Codec.Utf8.{utf8}
use terminus_web.Intelligence.Answers.{
  Method, session_current, privacy_update, guest_delete, account_register, account_login,
  account_logout, command_record, history_list, history_delete, analytics_delete, data_export,
  recommendations_get, recommendation_click, terminal_record, usage_get, billing_get,
  admin_overview, is_boolean, is_cursor, one_of,
}

-- The names of the methods, with those of `empty` first.
unfoldable pub method_of : Text → Option Method
unfolding text_eq
method_of t =
    if text_eq t (codes "session.current")
    then some session_current
    else if text_eq t (codes "history.delete")
    then some history_delete
    else if text_eq t (codes "analytics.delete")
    then some analytics_delete
    else if text_eq t (codes "guest.delete")
    then some guest_delete
    else if text_eq t (codes "usage.get")
    then some usage_get
    else if text_eq t (codes "account.logout")
    then some account_logout
    else if text_eq t (codes "billing.get")
    then some billing_get
    else if text_eq t (codes "admin.overview")
    then some admin_overview
    else if text_eq t (codes "data.export")
    then some data_export
    else if text_eq t (codes "privacy.update")
    then some privacy_update
    else if text_eq t (codes "command.record")
    then some command_record
    else if text_eq t (codes "history.list")
    then some history_list
    else if text_eq t (codes "recommendations.get")
    then some recommendations_get
    else if text_eq t (codes "recommendation.click")
    then some recommendation_click
    else if text_eq t (codes "terminal.record")
    then some terminal_record
    else if text_eq t (codes "account.login")
    then some account_login
    else if text_eq t (codes "account.register")
    then some account_register
    else none

-- `fields`
unfoldable pub fields : Fields → List Text → List Text → Bool
unfolding has_own includes keys
fields params required optional =
    all (has_own params) required
    && all (λ k. includes required k || includes optional k) (keys params)

-- A test of a property that has to be there, and one that holds of `undefined` too.
unfoldable pub field_is : Fields → Text → (Json → Bool) → Bool
unfolding get
field_is params k check = elim (get k params) [ none ↦ false | some v ↦ check v ]

unfoldable pub field_may_be : Fields → Text → (Json → Bool) → Bool
unfolding get
field_may_be params k check = elim (get k params) [ none ↦ true | some v ↦ check v ]

-- `text`
abbrev pub is_text : (max min : ℕ) → Json → Bool
is_text max min (str t) = leb min (length t) && leb (length t) max
is_text max min _ = false

abbrev pub is_control : ℕ → Bool
is_control c = leb c 0x1f || (leb 0x7f c && leb c 0x9f)

-- `validCommand`, which the check of "command.record" repeats.
unfoldable pub valid_command : Text → Bool
unfolding is_space utf8
valid_command t = not (all is_space t) && leb (length (utf8 t)) 4096 && not (any is_control t)

abbrev pub is_command : Json → Bool
is_command (str t) = not (all is_space t) && leb (length (utf8 t)) 4096 && not (any is_control t)
is_command _ = false

abbrev pub is_password : Json → Bool
is_password (str t) = leb 12 (length (utf8 t)) && leb (length (utf8 t)) 1024
is_password _ = false

abbrev pub is_limit : Json → Bool
is_limit (num (nat n)) = leb 1 n && leb n 100
is_limit _ = false

abbrev pub is_true : Json → Bool
is_true (bool b) = b
is_true _ = false

-- `object(value.params)` and the cases of the `switch`.
unfoldable pub valid_params : Method → Fields → Bool
unfolding fields field_is field_may_be one_of
valid_params data_export p =
    fields p [] (codes "cursor" ∷ []) && field_may_be p (codes "cursor") is_cursor
valid_params privacy_update p =
    fields p (codes "history" ∷ codes "analytics" ∷ codes "personalization" ∷ []) []
    && field_is p (codes "history") is_boolean
    && field_is p (codes "analytics") is_boolean
    && field_is p (codes "personalization") is_boolean
    && (not (field_is p (codes "personalization") is_true) || field_is p (codes "history") is_true)
valid_params command_record p =
    fields p (codes "eventId" ∷ codes "command" ∷ []) []
    && field_is p (codes "eventId") is_cursor
    && field_is p (codes "command") is_command
valid_params history_list p =
    fields p [] (codes "query" ∷ codes "category" ∷ codes "limit" ∷ [])
    && field_may_be p (codes "query") (is_text 256 0)
    && field_may_be p (codes "category") (is_text 64 0)
    && field_may_be p (codes "limit") is_limit
valid_params recommendations_get p =
    fields p [] (codes "query" ∷ []) && field_may_be p (codes "query") (is_text 256 0)
valid_params recommendation_click p =
    fields p (codes "id" ∷ []) [] && field_is p (codes "id") (is_text 128 1)
valid_params terminal_record p =
    fields p (codes "eventId" ∷ codes "state" ∷ []) []
    && field_is p (codes "eventId") is_cursor
    && field_is p (codes "state")
        (one_of (codes "connected" ∷ codes "disconnected" ∷ codes "reconnecting" ∷ []))
valid_params account_login p =
    fields p (codes "email" ∷ codes "password" ∷ []) []
    && field_is p (codes "email") (is_text 320 3)
    && field_is p (codes "password") is_password
valid_params account_register p =
    fields p (codes "email" ∷ codes "password" ∷ codes "name" ∷ []) []
    && field_is p (codes "email") (is_text 320 3)
    && field_is p (codes "password") is_password
    && field_is p (codes "name") (is_text 120 1)
valid_params _ p = fields p [] []

abbrev pub valid_call : Option Json → Option Json → Bool
valid_call (some (str t)) (some (obj p)) = elim (method_of t) [
  | none ↦ false
  | some m ↦ valid_params m p
]
valid_call _ _ = false

-- `validRequest`
unfoldable pub valid_request : Json → Bool
unfolding fields field_is get text_eq
valid_request (obj fs) =
    fields fs (codes "type" ∷ codes "id" ∷ codes "method" ∷ codes "params" ∷ []) []
    && field_is fs (codes "type") (one_of (codes "request" ∷ []))
    && field_is fs (codes "id") is_cursor
    && valid_call (get (codes "method") fs) (get (codes "params") fs)
valid_request _ = false
