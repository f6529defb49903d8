-- ===== src/Codec/Validate.antt =====
-- apps/web/protocol/codec.ts: `validateProtocolFrame` and `validatePayload`, with the checks in the
-- source's order.
use terminus_web.Prelude.{
  ℕ, List, [], ◌∷◌, Option, none, some, Text, codes, length, leb, ErrorCode, Result, ok, ◌>>=◌,
  ◌>>◌, require,
}
use terminus_web.Json.{Json, Fields, get, is_record, has_exact_keys}
use terminus_web.Codec.Frames.{
  MessageType, Payload, Frame, max_terminal_input_bytes, max_terminal_output_bytes,
  protocol_version,
}
use terminus_web.Codec.Values.{
  assert_uuid, assert_session_id, assert_timestamp, assert_base64url, base64url_text, assert_offset,
  assert_dimensions, assert_optional_uuid, assert_versions, is_text, is_true, assert_boolean,
  read_table, or_else, message_types, error_codes, close_reasons, closed_reason, heartbeat_kinds,
}

-- `requiredPayloadKeys`
unfoldable pub required_keys : MessageType → List Text
required_keys MessageType.hello = codes "clientInstanceId" ∷ codes "supportedVersions" ∷ []
required_keys MessageType.hello_ack = codes "selectedVersion" ∷ codes "agentId" ∷ []
required_keys MessageType.pairing_request = codes "pairingCode" ∷ []
required_keys MessageType.pairing_result =
    codes "credentialId" ∷ codes "credentialSecret" ∷ codes "credentialExpiresAt" ∷ []
required_keys MessageType.auth_challenge =
    codes "challengeId" ∷ codes "challenge" ∷ codes "expiresAt" ∷ []
required_keys MessageType.auth_response =
    codes "challengeId" ∷ codes "credentialId" ∷ codes "proof" ∷ []
required_keys MessageType.auth_result = codes "authenticated" ∷ codes "authorizationExpiresAt" ∷ []
required_keys MessageType.open_session = codes "shell" ∷ codes "dimensions" ∷ []
required_keys MessageType.session_opened = codes "sessionId" ∷ []
required_keys MessageType.reopen_session = codes "sessionId" ∷ codes "dimensions" ∷ []
required_keys MessageType.session_reopened = codes "sessionId" ∷ []
required_keys MessageType.history_begin =
    codes "sessionId" ∷ codes "startOffset" ∷ codes "endOffset" ∷ codes "truncated" ∷ []
required_keys MessageType.history_chunk = codes "sessionId" ∷ codes "offset" ∷ codes "data" ∷ []
required_keys MessageType.history_end = codes "sessionId" ∷ codes "endOffset" ∷ []
required_keys MessageType.terminal_input = codes "sessionId" ∷ codes "data" ∷ []
required_keys MessageType.terminal_output = codes "sessionId" ∷ codes "offset" ∷ codes "data" ∷ []
required_keys MessageType.resize = codes "sessionId" ∷ codes "dimensions" ∷ []
required_keys MessageType.heartbeat = codes "kind" ∷ codes "nonce" ∷ []
required_keys MessageType.detach = codes "sessionId" ∷ []
required_keys MessageType.session_detached = codes "sessionId" ∷ []
required_keys MessageType.close_session = codes "sessionId" ∷ codes "reason" ∷ []
required_keys MessageType.session_closed = codes "sessionId" ∷ codes "reason" ∷ []
required_keys MessageType.error = codes "code" ∷ codes "fatal" ∷ []

unfoldable pub optional_keys : MessageType → List Text
optional_keys MessageType.hello = codes "credentialId" ∷ []
optional_keys _ = []

-- The base64url text of terminal data of at most `most` bytes.
abbrev pub terminal_data : ℕ → Option Json → Result Text
terminal_data most v = do
  (t, bytes) ← assert_base64url none v
  require (leb (length bytes) most) ErrorCode.payload_too_large 1009
  ok t

-- The `switch` of `validatePayload`, over the object's properties.
unfoldable pub read_payload : MessageType → (Text → Option Json) → Result Payload
unfolding assert_dimensions assert_versions
read_payload MessageType.hello p = do
  client ← assert_uuid (p (codes "clientInstanceId"))
  credential ← assert_optional_uuid (p (codes "credentialId"))
  versions ← assert_versions (p (codes "supportedVersions"))
  ok (Payload.hello client credential versions)
read_payload MessageType.hello_ack p = do
  require (is_text protocol_version (p (codes "selectedVersion"))) ErrorCode.unsupported_version
      1002
  agent ← assert_uuid (p (codes "agentId"))
  ok (Payload.hello_ack agent)
read_payload MessageType.pairing_request p = do
  pairing ← base64url_text (some 16) (p (codes "pairingCode"))
  ok (Payload.pairing_request pairing)
read_payload MessageType.pairing_result p = do
  credential ← assert_uuid (p (codes "credentialId"))
  secret ← base64url_text (some 32) (p (codes "credentialSecret"))
  expiry ← assert_timestamp (p (codes "credentialExpiresAt"))
  ok (Payload.pairing_result credential secret expiry)
read_payload MessageType.auth_challenge p = do
  id ← assert_uuid (p (codes "challengeId"))
  challenge ← base64url_text (some 32) (p (codes "challenge"))
  expiry ← assert_timestamp (p (codes "expiresAt"))
  ok (Payload.auth_challenge id challenge expiry)
read_payload MessageType.auth_response p = do
  id ← assert_uuid (p (codes "challengeId"))
  credential ← assert_uuid (p (codes "credentialId"))
  proof ← base64url_text (some 32) (p (codes "proof"))
  ok (Payload.auth_response id credential proof)
read_payload MessageType.auth_result p = do
  require (is_true (p (codes "authenticated"))) ErrorCode.schema_invalid 1002
  expiry ← assert_timestamp (p (codes "authorizationExpiresAt"))
  ok (Payload.auth_result expiry)
read_payload MessageType.open_session p = do
  require (is_text (codes "powershell") (p (codes "shell"))) ErrorCode.schema_invalid 1002
  dimensions ← assert_dimensions (p (codes "dimensions"))
  ok (Payload.open_session dimensions)
read_payload MessageType.session_opened p = do
  session ← assert_session_id (p (codes "sessionId"))
  ok (Payload.session_opened session)
read_payload MessageType.session_reopened p = do
  session ← assert_session_id (p (codes "sessionId"))
  ok (Payload.session_reopened session)
read_payload MessageType.detach p = do
  session ← assert_session_id (p (codes "sessionId"))
  ok (Payload.detach session)
read_payload MessageType.session_detached p = do
  session ← assert_session_id (p (codes "sessionId"))
  ok (Payload.session_detached session)
read_payload MessageType.reopen_session p = do
  session ← assert_session_id (p (codes "sessionId"))
  dimensions ← assert_dimensions (p (codes "dimensions"))
  ok (Payload.reopen_session session dimensions)
read_payload MessageType.history_begin p = do
  session ← assert_session_id (p (codes "sessionId"))
  start ← assert_offset (p (codes "startOffset"))
  finish ← assert_offset (p (codes "endOffset"))
  truncated ← assert_boolean (p (codes "truncated"))
  ok (Payload.history_begin session start finish truncated)
read_payload MessageType.history_end p = do
  session ← assert_session_id (p (codes "sessionId"))
  finish ← assert_offset (p (codes "endOffset"))
  ok (Payload.history_end session finish)
read_payload MessageType.terminal_input p = do
  session ← assert_session_id (p (codes "sessionId"))
  encoded ← terminal_data max_terminal_input_bytes (p (codes "data"))
  ok (Payload.terminal_input session encoded)
read_payload MessageType.terminal_output p = do
  session ← assert_session_id (p (codes "sessionId"))
  offset ← assert_offset (p (codes "offset"))
  encoded ← terminal_data max_terminal_output_bytes (p (codes "data"))
  ok (Payload.terminal_output session offset encoded)
read_payload MessageType.history_chunk p = do
  session ← assert_session_id (p (codes "sessionId"))
  offset ← assert_offset (p (codes "offset"))
  encoded ← terminal_data max_terminal_output_bytes (p (codes "data"))
  ok (Payload.history_chunk session offset encoded)
read_payload MessageType.resize p = do
  session ← assert_session_id (p (codes "sessionId"))
  dimensions ← assert_dimensions (p (codes "dimensions"))
  ok (Payload.resize session dimensions)
read_payload MessageType.heartbeat p = do
  kind ← or_else ErrorCode.schema_invalid 1002 (read_table heartbeat_kinds (p (codes "kind")))
  nonce ← base64url_text (some 16) (p (codes "nonce"))
  ok (Payload.heartbeat kind nonce)
read_payload MessageType.close_session p = do
  session ← assert_session_id (p (codes "sessionId"))
  reason ← or_else ErrorCode.schema_invalid 1002 (read_table close_reasons (p (codes "reason")))
  ok (Payload.close_session session reason)
read_payload MessageType.session_closed p = do
  session ← assert_session_id (p (codes "sessionId"))
  reason ← or_else ErrorCode.schema_invalid 1002 (closed_reason (p (codes "reason")))
  ok (Payload.session_closed session reason)
read_payload MessageType.error p = do
  code ← or_else ErrorCode.schema_invalid 1002 (read_table error_codes (p (codes "code")))
  require (is_true (p (codes "fatal"))) ErrorCode.schema_invalid 1002
  ok (Payload.error code)

-- `validatePayload`
unfoldable pub validate_payload : MessageType → Fields → Result Payload
unfolding required_keys optional_keys read_payload has_exact_keys
validate_payload type fs = do
  require (has_exact_keys fs (required_keys type) (optional_keys type)) ErrorCode.schema_invalid
      1002
  read_payload type (λ k. get k fs)

-- The keys of a frame.
abbrev pub frame_keys : List Text
frame_keys =
    codes "version" ∷ codes "type" ∷ codes "connectionId" ∷ codes "sequence" ∷ codes "payload" ∷ []

-- `validateProtocolFrame`
unfoldable pub validate_frame : Json → Result Frame
unfolding is_record has_exact_keys validate_payload
validate_frame value = do
  fs ← is_record (some value)
  require (has_exact_keys fs frame_keys []) ErrorCode.schema_invalid 1002
  require (is_text protocol_version (get (codes "version") fs)) ErrorCode.unsupported_version 1002
  type ← or_else ErrorCode.unknown_type 1002 (read_table message_types (get (codes "type") fs))
  connection ← assert_uuid (get (codes "connectionId") fs)
  sequence ← assert_offset (get (codes "sequence") fs)
  properties ← is_record (get (codes "payload") fs)
  payload ← validate_payload type properties
  ok (record { connection_id = connection; sequence = sequence; payload = payload })
