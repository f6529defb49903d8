-- ===== src/Codec/Frames.antt =====
-- apps/web/protocol/types.ts and constants.ts: message types, payloads and frames. A payload holds
-- the fields that `validatePayload` has checked, under the source's names; those with one possible
-- value (`authenticated`, `shell`, `fatal`, `selectedVersion`) are left out.
use terminus_web.Prelude.{ℕ, Bool, List, Option, Text, codes, ErrorCode}

-- `PROTOCOL_MESSAGE_TYPES`
pub data MessageType : Type 0 where
  hello hello_ack pairing_request pairing_result : MessageType
  auth_challenge auth_response auth_result : MessageType
  open_session session_opened reopen_session session_reopened : MessageType
  history_begin history_chunk history_end : MessageType
  terminal_input terminal_output resize heartbeat : MessageType
  detach session_detached close_session session_closed error : MessageType

abbrev pub max_safe_sequence : ℕ
max_safe_sequence = 9007199254740991

abbrev pub max_frame_bytes : ℕ
max_frame_bytes = 65536

abbrev pub max_terminal_input_bytes : ℕ
max_terminal_input_bytes = 16384

abbrev pub max_terminal_output_bytes : ℕ
max_terminal_output_bytes = 32768

abbrev pub protocol_version : Text
protocol_version = codes "0.2"

pub record Dimensions : Type 0 where
  pub columns : ℕ
  pub rows : ℕ

pub data HeartbeatKind : Type 0 where
  ping pong : HeartbeatKind

-- The reasons of `close_session` are the first two.
pub data CloseReason : Type 0 where
  user_request new_session : CloseReason
  credential_expired credential_revoked agent_shutdown : CloseReason
  process_exit protocol_error backpressure_limit : CloseReason

pub data Payload : Type 0 where
  hello :
      (client_instance_id : Text) (credential_id : Option Text) (supported_versions : List Text)
      → Payload
  hello_ack : (agent_id : Text) → Payload
  pairing_request : (pairing_code : Text) → Payload
  pairing_result : (credential_id credential_secret credential_expires_at : Text) → Payload
  auth_challenge : (challenge_id challenge expires_at : Text) → Payload
  auth_response : (challenge_id credential_id proof : Text) → Payload
  auth_result : (authorization_expires_at : Text) → Payload
  open_session : (dimensions : Dimensions) → Payload
  session_opened : (session_id : Text) → Payload
  reopen_session : (session_id : Text) (dimensions : Dimensions) → Payload
  session_reopened : (session_id : Text) → Payload
  history_begin : (session_id : Text) (start_offset end_offset : ℕ) (truncated : Bool) → Payload
  history_chunk : (session_id : Text) (offset : ℕ) (encoded : Text) → Payload
  history_end : (session_id : Text) (end_offset : ℕ) → Payload
  terminal_input : (session_id encoded : Text) → Payload
  terminal_output : (session_id : Text) (offset : ℕ) (encoded : Text) → Payload
  resize : (session_id : Text) (dimensions : Dimensions) → Payload
  heartbeat : (kind : HeartbeatKind) (nonce : Text) → Payload
  detach : (session_id : Text) → Payload
  session_detached : (session_id : Text) → Payload
  close_session : (session_id : Text) (reason : CloseReason) → Payload
  session_closed : (session_id : Text) (reason : CloseReason) → Payload
  error : (code : ErrorCode) → Payload

-- `frame.type`
unfoldable pub type_of : Payload → MessageType
type_of (Payload.hello _ _ _) = MessageType.hello
type_of (Payload.hello_ack _) = MessageType.hello_ack
type_of (Payload.pairing_request _) = MessageType.pairing_request
type_of (Payload.pairing_result _ _ _) = MessageType.pairing_result
type_of (Payload.auth_challenge _ _ _) = MessageType.auth_challenge
type_of (Payload.auth_response _ _ _) = MessageType.auth_response
type_of (Payload.auth_result _) = MessageType.auth_result
type_of (Payload.open_session _) = MessageType.open_session
type_of (Payload.session_opened _) = MessageType.session_opened
type_of (Payload.reopen_session _ _) = MessageType.reopen_session
type_of (Payload.session_reopened _) = MessageType.session_reopened
type_of (Payload.history_begin _ _ _ _) = MessageType.history_begin
type_of (Payload.history_chunk _ _ _) = MessageType.history_chunk
type_of (Payload.history_end _ _) = MessageType.history_end
type_of (Payload.terminal_input _ _) = MessageType.terminal_input
type_of (Payload.terminal_output _ _ _) = MessageType.terminal_output
type_of (Payload.resize _ _) = MessageType.resize
type_of (Payload.heartbeat _ _) = MessageType.heartbeat
type_of (Payload.detach _) = MessageType.detach
type_of (Payload.session_detached _) = MessageType.session_detached
type_of (Payload.close_session _ _) = MessageType.close_session
type_of (Payload.session_closed _ _) = MessageType.session_closed
type_of (Payload.error _) = MessageType.error

-- `ProtocolFrame`, whose version is always `protocol_version`.
pub record Frame : Type 0 where
  pub connection_id : Text
  pub sequence : ℕ
  pub payload : Payload
