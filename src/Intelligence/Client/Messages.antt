-- ===== src/Intelligence/Client/Messages.antt =====
-- apps/web/intelligence/client.ts: the frames of the service, as `socket.onmessage` reads them.
use terminus_web.Prelude.{
  ℕ, ◌+◌, Bool, true, false, ◌&&◌, ◌||◌, List, [], ◌∷◌, Option, none, some, Text, codes, text_eq,
  includes, length, all, leb, ltb, ◌==◌, if◌then◌else◌,
}
use terminus_web.Json.{Json, bool, str, obj, Fields, keys, get, has_own}
use terminus_web.Codec.Identifiers.{is_uuid_v4, matches, timestamp}
use terminus_web.Codec.Utf8.{utf8}

-- `ERRORS`
abbrev pub errors : List Text
errors =
    codes "INVALID_REQUEST"
    ∷ codes "UNAUTHORIZED"
    ∷ codes "FORBIDDEN"
    ∷ codes "NOT_FOUND"
    ∷ codes "UNAVAILABLE"
    ∷ codes "RATE_LIMITED"
    ∷ codes "CONSENT_REQUIRED"
    ∷ codes "CONFLICT"
    ∷ codes "QUOTA_EXCEEDED"
    ∷ []

-- `exact`. No key that is asked for is inherited.
unfoldable pub exact : Fields → List Text → Bool
unfolding keys has_own
exact frame names = length (keys frame) == length names && all (has_own frame) names

-- `value.key === text`
unfoldable pub says : Fields → Text → Text → Bool
unfolding get text_eq
says frame key t = elim (get key frame) [ some (str s) ↦ text_eq s t | _ ↦ false ]

-- A property that is a text which passes a test, and one that is a Boolean.
abbrev pub passing : (Text → Bool) → Option Json → Option Text
passing test (some (str t)) = if test t then some t else none
passing test _ = none

abbrev pub boolean : Option Json → Option Bool
boolean (some (bool b)) = some b
boolean _ = none

-- A challenge, with the value of its `expiresAt`.
pub record Challenge : Type 0 where
  pub connection : Text
  pub id : Text
  pub challenge : Text
  pub expiry : ℕ

-- An answer to the request `id`.
pub data Answer : Type 0 where
  accepted : (id : Text) (data' : Json) → Answer
  refused : (id error : Text) → Answer

-- The frame of a message, `none` where the handler throws first. `data` is `none` for what is no
-- string.
unfoldable pub read_frame :
    (Text → Option Json) → (right_protocol : Bool) → Option Text → Option Fields
unfolding utf8
read_frame parse false message = none
read_frame parse true none = none
read_frame parse true (some t) =
    if ltb 65536 (length (utf8 t))
    then none
    else elim (parse t) [ some (obj fs) ↦ some fs | _ ↦ none ]

-- `expiry` is `none` for NaN and for a time before 1970, which is past.
abbrev pub within : ℕ → Option ℕ → Option ℕ
within now none = none
within now (some expiry) = if leb expiry now || ltb (now + 10000) expiry then none else some expiry

abbrev pub challenge_of : Option Text → Option Text → Option Text → Option ℕ → Option Challenge
challenge_of (some c) (some i) (some n) (some e) =
    some (record { connection = c; id = i; challenge = n; expiry = e })
challenge_of _ _ _ _ = none

abbrev pub expiry_of : (Text → Option ℕ) → ℕ → Option Text → Option ℕ
expiry_of date_value now none = none
expiry_of date_value now (some t) = within now (date_value t)

unfoldable pub read_challenge : (Text → Option ℕ) → ℕ → Fields → Option Challenge
unfolding exact says get is_uuid_v4 matches
read_challenge date_value now frame =
    if exact frame (
        codes "type"
        ∷ codes "connectionId"
        ∷ codes "challengeId"
        ∷ codes "challenge"
        ∷ codes "expiresAt"
        ∷ [])
      && says frame (codes "type") (codes "challenge")
    then challenge_of (passing is_uuid_v4 (get (codes "connectionId") frame))
        (passing is_uuid_v4 (get (codes "challengeId") frame))
        (passing (λ t. true) (get (codes "challenge") frame))
        (expiry_of date_value now (passing (matches timestamp) (get (codes "expiresAt") frame)))
    else none

-- The frame `{ type: "ready" }`.
unfoldable pub is_ready : Fields → Bool
unfolding exact says
is_ready frame = exact frame (codes "type" ∷ []) && says frame (codes "type") (codes "ready")

abbrev pub answer_of : Option Text → Option Bool → Fields → Option Answer
answer_of (some id) (some true) frame =
    if exact frame (codes "type" ∷ codes "id" ∷ codes "ok" ∷ codes "data" ∷ [])
    then elim (get (codes "data") frame) [ none ↦ none | some v ↦ some (accepted id v) ]
    else none
answer_of (some id) (some false) frame =
    if exact frame (codes "type" ∷ codes "id" ∷ codes "ok" ∷ codes "error" ∷ [])
    then elim (passing (includes errors) (get (codes "error") frame)) [
      | none ↦ none
      | some e ↦ some (refused id e)
    ]
    else none
answer_of _ _ frame = none

unfoldable pub read_answer : Fields → Option Answer
unfolding says get exact includes is_uuid_v4
read_answer frame =
    if says frame (codes "type") (codes "result")
    then answer_of (passing is_uuid_v4 (get (codes "id") frame)) (boolean (get (codes "ok") frame))
        frame
    else none
