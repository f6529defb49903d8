-- ===== src/Codec/Values.antt =====
-- apps/web/protocol/codec.ts: the checks of single values (`assertDimensions` and the like) and the
-- texts that stand for message types, error codes and reasons. A checked value is
-- returned, so that the frame holds what was checked.
use terminus_web.Prelude.{
  ℕ, Bool, true, false, not, ◌&&◌, List, [], ◌∷◌, ◌++◌, Option, none, some, Text, codes, text_eq,
  includes, length, leb, if◌then◌else◌, ErrorCode, Result, ok, ◌>>=◌, ◌>>◌, violation, schema_error,
  require,
}
use terminus_web.Json.{
  nat, Items, Json, bool, num, str, arr, elements, get, is_record, has_exact_keys,
}
use terminus_web.Codec.Base64.{Bytes, decode_base64url}
use terminus_web.Codec.Identifiers.{between, is_uuid_v4, is_session_id, is_timestamp, is_version}
use terminus_web.Codec.Frames.{
  MessageType, Dimensions, HeartbeatKind, ping, pong, CloseReason, max_safe_sequence,
}

-- `typeof value === "string"` and a test of the text.
abbrev pub text_that : (Text → Bool) → Option Json → Result Text
text_that p (some (str t)) = if p t then ok t else schema_error
text_that p _ = schema_error

abbrev pub assert_uuid : Option Json → Result Text
assert_uuid = text_that is_uuid_v4

abbrev pub assert_session_id : Option Json → Result Text
assert_session_id = text_that is_session_id

abbrev pub assert_timestamp : Option Json → Result Text
assert_timestamp = text_that is_timestamp

-- `decodeBase64Url(value, expectedBytes)` of a value of unknown type, with the text kept.
abbrev pub assert_base64url : Option ℕ → Option Json → Result (Text × Bytes)
assert_base64url expected (some (str t)) = do bytes ← decode_base64url t expected; ok (t, bytes)
assert_base64url expected _ = schema_error

abbrev pub base64url_text : Option ℕ → Option Json → Result Text
base64url_text expected v = do (t, _) ← assert_base64url expected v; ok t

abbrev pub assert_offset : Option Json → Result ℕ
assert_offset (some (num (nat n))) = if leb n max_safe_sequence then ok n else schema_error
assert_offset _ = schema_error

-- An integer from 1 to 1000.
abbrev pub assert_dimension : Option Json → Result ℕ
assert_dimension (some (num (nat n))) = if between 1 1000 n then ok n else schema_error
assert_dimension _ = schema_error

unfoldable pub assert_dimensions : Option Json → Result Dimensions
unfolding is_record has_exact_keys
assert_dimensions v = do
  fs ← is_record v
  require (has_exact_keys fs (codes "columns" ∷ codes "rows" ∷ []) []) ErrorCode.schema_invalid 1002
  columns ← assert_dimension (get (codes "columns") fs)
  rows ← assert_dimension (get (codes "rows") fs)
  ok (record { columns = columns; rows = rows })

-- `payload.credentialId`, which may be missing.
abbrev pub assert_optional_uuid : Option Json → Result (Option Text)
assert_optional_uuid none = ok none
assert_optional_uuid (some v) = do t ← assert_uuid (some v); ok (some t)

-- The texts of an array that holds nothing but version texts.
unfoldable pub all_versions : List Json → Result (List Text)
unfolding is_version
all_versions [] = ok []
all_versions (v ∷ vs) = do t ← text_that is_version (some v); ts ← all_versions vs; ok (t ∷ ts)

-- `new Set(values).size === values.length`, of texts.
unfoldable pub are_distinct : List Text → Bool
unfolding includes
are_distinct [] = true
are_distinct (t ∷ ts) = not (includes ts t) && are_distinct ts

-- One to eight different version texts. Repeated values of other types are refused with the same
-- error by the check of the texts.
unfoldable pub assert_versions : Option Json → Result (List Text)
unfolding all_versions are_distinct elements is_version
assert_versions (some (arr vs)) = do
  require (between 1 8 (length (elements vs))) ErrorCode.schema_invalid 1002
  ts ← all_versions (elements vs)
  require (are_distinct ts) ErrorCode.schema_invalid 1002
  ok ts
assert_versions _ = schema_error

-- `value === literal`
abbrev pub is_text : Text → Option Json → Bool
is_text t (some (str s)) = text_eq s t
is_text t _ = false

abbrev pub is_true : Option Json → Bool
is_true (some (bool b)) = b
is_true _ = false

abbrev pub assert_boolean : Option Json → Result Bool
assert_boolean (some (bool b)) = ok b
assert_boolean _ = schema_error

-- The value that a table gives for a text: `Set.has`, `includes` and the casts behind them.
unfoldable pub from_table {ℓ} : {A : Type ℓ} → List (Text × A) → Text → Option A
unfolding text_eq
from_table [] t = none
from_table ((name, a) ∷ rows) t = if text_eq name t then some a else from_table rows t

abbrev pub read_table {ℓ} : {A : Type ℓ} → List (Text × A) → Option Json → Option A
read_table rows (some (str t)) = from_table rows t
read_table rows _ = none

abbrev pub or_else {ℓ} : {A : Type ℓ} → ErrorCode → ℕ → Option A → Result A
or_else c n none = violation c n
or_else c n (some a) = ok a

-- `MESSAGE_TYPES`
abbrev pub message_types : List (Text × MessageType)
message_types =
    (codes "hello", MessageType.hello)
    ∷ (codes "hello_ack", MessageType.hello_ack)
    ∷ (codes "pairing_request", MessageType.pairing_request)
    ∷ (codes "pairing_result", MessageType.pairing_result)
    ∷ (codes "auth_challenge", MessageType.auth_challenge)
    ∷ (codes "auth_response", MessageType.auth_response)
    ∷ (codes "auth_result", MessageType.auth_result)
    ∷ (codes "open_session", MessageType.open_session)
    ∷ (codes "session_opened", MessageType.session_opened)
    ∷ (codes "reopen_session", MessageType.reopen_session)
    ∷ (codes "session_reopened", MessageType.session_reopened)
    ∷ (codes "history_begin", MessageType.history_begin)
    ∷ (codes "history_chunk", MessageType.history_chunk)
    ∷ (codes "history_end", MessageType.history_end)
    ∷ (codes "terminal_input", MessageType.terminal_input)
    ∷ (codes "terminal_output", MessageType.terminal_output)
    ∷ (codes "resize", MessageType.resize)
    ∷ (codes "heartbeat", MessageType.heartbeat)
    ∷ (codes "detach", MessageType.detach)
    ∷ (codes "session_detached", MessageType.session_detached)
    ∷ (codes "close_session", MessageType.close_session)
    ∷ (codes "session_closed", MessageType.session_closed)
    ∷ (codes "error", MessageType.error)
    ∷ []

-- `ERROR_CODES`
abbrev pub error_codes : List (Text × ErrorCode)
error_codes =
    (codes "INVALID_JSON", ErrorCode.invalid_json)
    ∷ (codes "SCHEMA_INVALID", ErrorCode.schema_invalid)
    ∷ (codes "UNSUPPORTED_VERSION", ErrorCode.unsupported_version)
    ∷ (codes "UNKNOWN_TYPE", ErrorCode.unknown_type)
    ∷ (codes "FRAME_TOO_LARGE", ErrorCode.frame_too_large)
    ∷ (codes "PAYLOAD_TOO_LARGE", ErrorCode.payload_too_large)
    ∷ (codes "SEQUENCE_REPLAY", ErrorCode.sequence_replay)
    ∷ (codes "SEQUENCE_GAP", ErrorCode.sequence_gap)
    ∷ (codes "OUTPUT_OFFSET_INVALID", ErrorCode.output_offset_invalid)
    ∷ (codes "INVALID_STATE", ErrorCode.invalid_state)
    ∷ (codes "DIRECTION_VIOLATION", ErrorCode.direction_violation)
    ∷ (codes "ORIGIN_REJECTED", ErrorCode.origin_rejected)
    ∷ (codes "PAIRING_FAILED", ErrorCode.pairing_failed)
    ∷ (codes "AUTHENTICATION_FAILED", ErrorCode.authentication_failed)
    ∷ (codes "AUTHORIZATION_EXPIRED", ErrorCode.authorization_expired)
    ∷ (codes "SESSION_REOPEN_REJECTED", ErrorCode.session_reopen_rejected)
    ∷ (codes "HELLO_TIMEOUT", ErrorCode.hello_timeout)
    ∷ (codes "HEARTBEAT_TIMEOUT", ErrorCode.heartbeat_timeout)
    ∷ (codes "SESSION_OPEN_FAILED", ErrorCode.session_open_failed)
    ∷ (codes "BACKPRESSURE_LIMIT", ErrorCode.backpressure_limit)
    ∷ []

-- The reasons that `close_session` and `session_closed` allow.
abbrev pub close_reasons : List (Text × CloseReason)
close_reasons =
    (codes "user_request", CloseReason.user_request)
    ∷ (codes "new_session", CloseReason.new_session)
    ∷ []

abbrev pub closed_reasons : List (Text × CloseReason)
closed_reasons =
    close_reasons
    ++ ((codes "credential_expired", CloseReason.credential_expired)
        ∷ (codes "credential_revoked", CloseReason.credential_revoked)
        ∷ (codes "agent_shutdown", CloseReason.agent_shutdown)
        ∷ (codes "process_exit", CloseReason.process_exit)
        ∷ (codes "protocol_error", CloseReason.protocol_error)
        ∷ (codes "backpressure_limit", CloseReason.backpressure_limit)
        ∷ [])

abbrev pub heartbeat_kinds : List (Text × HeartbeatKind)
heartbeat_kinds = (codes "ping", ping) ∷ (codes "pong", pong) ∷ []

-- `String(value)` where it can be one of the reasons: a text, or an array of one such value. The
-- text of any other value holds a comma or a bracket, is a number, or is no reason at all.
unfoldable pub reason_text : Json → Option Text
reason_text (str t) = some t
reason_text (arr (Items.cons v Items.nil)) = reason_text v
reason_text _ = none

-- `[…].includes(String(payload.reason))`
abbrev pub closed_reason : Option Json → Option CloseReason
closed_reason none = none
closed_reason (some v) = elim (reason_text v) [ none ↦ none | some t ↦ from_table closed_reasons t ]
