-- ===== src/Tests/Protocol.antt =====
-- The handshake, a session and a replay on concrete frames: contractMachine.ts and codec.ts.
use terminus_web.Prelude.{
  ℕ, ◌≡◌, refl, true, false, List, [], ◌∷◌, none, some, Text, codes, text_eq, includes, ok,
  ErrorCode, arith,
}
use terminus_web.Json.{
  nat, Json, bool, num, str, arr, obj, nil, cons, Fields, field, end, elements, keys, get, has_own,
  is_record, has_exact_keys,
}
use terminus_web.Codec.Base64.{
  Bytes, encode_base64url, decode_base64url, btoa, atob, sextet_char, char_sextet, char_groups,
  drop_pad, to_url, from_url, strip_pads, is_url_char, is_base64url, padding, is_empty, check_bytes,
}
use terminus_web.Codec.Identifiers.{
  matches, is_uuid_v4, is_session_id, number_at, is_leap, days_in_month, is_timestamp, is_version,
}
use terminus_web.Codec.Utf8.{utf8}
use terminus_web.Codec.Frames.{Payload, Frame, type_of}
use terminus_web.Codec.Values.{
  assert_dimensions, all_versions, are_distinct, assert_versions, from_table, reason_text,
}
use terminus_web.Codec.Validate.{
  required_keys, optional_keys, read_payload, validate_payload, validate_frame,
}
use terminus_web.Machine.State.{
  Direction, client_to_agent, agent_to_client, ConnectionState, SessionState, Machine, new, Context,
  no_context, Host,
}
use terminus_web.Machine.Transitions.{
  connection_transition, ready_transition, session_transition, find_transition,
}
use terminus_web.Machine.Auth.{
  auth_message, import_credential_key, compute_authentication_proof, is_expired, check_proof,
  check_context, validate_context,
}
use terminus_web.Machine.Apply.{
  bind_connection, check_version, check_sequence, session_of, check_session, begin_history,
  advance_history, end_history, advance_output, track_session, validate_session_data, next_sequence,
  take_transition, admit_frame, apply_frame, apply, evaluate_handshake,
}
use terminus_web.Machine.Runs.{Run, start, accept, refuse}

unfoldable pub computing : Unit {0}
unfolding text_eq includes elements keys get has_own is_record has_exact_keys encode_base64url
    decode_base64url btoa atob sextet_char char_sextet char_groups drop_pad to_url from_url
    strip_pads is_url_char is_base64url padding is_empty check_bytes matches is_uuid_v4
    is_session_id number_at is_leap days_in_month is_timestamp is_version utf8 type_of
    assert_dimensions all_versions are_distinct assert_versions from_table reason_text required_keys
    optional_keys read_payload validate_payload validate_frame connection_transition
    ready_transition session_transition find_transition auth_message import_credential_key
    compute_authentication_proof is_expired check_proof check_context validate_context
    bind_connection check_version check_sequence session_of check_session begin_history
    advance_history end_history advance_output track_session validate_session_data next_sequence
    take_transition admit_frame apply_frame apply evaluate_handshake
computing = tt

abbrev pub uuid : Text
uuid = codes "12345678-1234-4123-8123-123456789abc"

abbrev pub session : Text
session = codes "abcd-efgh-jkmn"

abbrev pub timestamp : Text
timestamp = codes "2024-02-29T12:00:00.000Z"

-- 32 bytes of 0.
abbrev pub secret : Text
secret = codes "AAAAAAAAAAAAAAAAAAAAAAAAAAAAAAAAAAAAAAAAAAA"

-- A host that signs with the key itself, and whose dates are all 7.
abbrev pub host : Host
host = record { Key = Bytes; import_key = λ b. b; sign = λ k b. k; date_value = λ t. some 7 }

abbrev pub frame_json : Text → ℕ → Fields → Json
frame_json type sequence payload = obj (
    field (codes "version") (str (codes "0.2")) (
      field (codes "type") (str type) (
        field (codes "connectionId") (str uuid) (
          field (codes "sequence") (num (nat sequence))
            (field (codes "payload") (obj payload) end)))))

abbrev pub frame : ℕ → Payload → Frame
frame sequence payload = record { connection_id = uuid; sequence = sequence; payload = payload }

abbrev pub hello_json : Json
hello_json = frame_json (codes "hello") 0 (
    field (codes "clientInstanceId") (str uuid)
      (field (codes "supportedVersions") (arr (cons (str (codes "0.2")) nil)) end))

abbrev pub hello : Frame
hello = frame 0 (Payload.hello uuid none (codes "0.2" ∷ []))

reads_hello : validate_frame hello_json ≡ ok hello
unfolding computing
reads_hello = refl

abbrev pub text_field : Text → Text → Fields → Fields
text_field k t fs = field k (str t) fs

abbrev pub greeting_json : Json
greeting_json =
    frame_json (codes "hello_ack") 0
      (text_field (codes "selectedVersion") (codes "0.2") (text_field (codes "agentId") uuid end))

abbrev pub greeting : Frame
greeting = frame 0 (Payload.hello_ack uuid)

abbrev pub challenge_json : Json
challenge_json = frame_json (codes "auth_challenge") 1 (
    text_field (codes "challengeId") uuid
      (text_field (codes "challenge") secret (text_field (codes "expiresAt") timestamp end)))

abbrev pub challenge : Frame
challenge = frame 1 (Payload.auth_challenge uuid secret timestamp)

abbrev pub response_json : Json
response_json = frame_json (codes "auth_response") 1 (
    text_field (codes "challengeId") uuid
      (text_field (codes "credentialId") uuid (text_field (codes "proof") secret end)))

abbrev pub response : Frame
response = frame 1 (Payload.auth_response uuid uuid secret)

abbrev pub result_json : Json
result_json = frame_json (codes "auth_result") 2 (
    field (codes "authenticated") (bool true)
      (text_field (codes "authorizationExpiresAt") timestamp end))

abbrev pub result : Frame
result = frame 2 (Payload.auth_result timestamp)

-- The proof of the response is compared.
abbrev pub proving_context : Context
proving_context = record no_context { credential_secret = some secret; challenge = some secret }

abbrev pub ready_machine : Machine
ready_machine = record new {
  connection_state = ConnectionState.ready;
  next_client = 2;
  next_agent = 3;
  connection_id = some uuid;
}

abbrev pub handshake : List (Direction × Frame)
handshake =
    (agent_to_client, result)
    ∷ (client_to_agent, response)
    ∷ (agent_to_client, challenge)
    ∷ (agent_to_client, greeting)
    ∷ (client_to_agent, hello)
    ∷ []

pub handshake-Run : Run host new handshake ready_machine
unfolding computing
handshake-Run =
    accept agent_to_client result_json no_context result
      (accept client_to_agent response_json proving_context response
        (accept agent_to_client challenge_json no_context challenge
          (accept agent_to_client greeting_json no_context greeting
            (accept client_to_agent hello_json no_context hello start refl) refl)
          refl)
        refl)
      refl

abbrev pub output_json : ℕ → ℕ → Json
output_json sequence offset = frame_json (codes "terminal_output") sequence (
    text_field (codes "sessionId") session
      (field (codes "offset") (num (nat offset)) (text_field (codes "data") (codes "aGk") end)))

abbrev pub output : ℕ → ℕ → Frame
output sequence offset = frame sequence (Payload.terminal_output session offset (codes "aGk"))

abbrev pub open_machine : Machine
open_machine = record ready_machine {
  session_state = SessionState.open_;
  next_agent = 4;
  next_output_offset = 10;
  output_offset_known = true;
  session_id = some session;
}

-- Two bytes of output; then the same frame again, which is refused.
pub output-Run :
    Run host open_machine
      ((agent_to_client, output 4 10) ∷ [])
      (record open_machine { next_agent = 5; next_output_offset = 12 })
unfolding computing
output-Run =
    refuse agent_to_client (output_json 4 10) no_context
      (record { code = ErrorCode.sequence_replay; close_code = 1008 })
      (accept agent_to_client (output_json 4 10) no_context (output 4 10) start refl) (omega arith)
      refl

abbrev pub replaying_machine : Machine
replaying_machine = record open_machine {
  session_state = SessionState.replaying;
  next_output_offset = 0;
  output_offset_known = false;
}

abbrev pub begin_json : Json
begin_json = frame_json (codes "history_begin") 4 (
    text_field (codes "sessionId") session (
      field (codes "startOffset") (num (nat 5))
        (field (codes "endOffset") (num (nat 7)) (field (codes "truncated") (bool true) end))))

abbrev pub begin_frame : Frame
begin_frame = frame 4 (Payload.history_begin session 5 7 true)

abbrev pub chunk_json : Json
chunk_json = frame_json (codes "history_chunk") 5 (
    text_field (codes "sessionId") session
      (field (codes "offset") (num (nat 5)) (text_field (codes "data") (codes "aGk") end)))

abbrev pub chunk : Frame
chunk = frame 5 (Payload.history_chunk session 5 (codes "aGk"))

abbrev pub end_json : Json
end_json =
    frame_json (codes "history_end") 6
      (text_field (codes "sessionId") session (field (codes "endOffset") (num (nat 7)) end))

abbrev pub end_frame : Frame
end_frame = frame 6 (Payload.history_end session 7)

-- The chunk of the replay that the first frame begins.
pub replay-Run :
    Run host
      (apply host agent_to_client begin_json no_context replaying_machine).0
      ((agent_to_client, chunk) ∷ [])
      (record replaying_machine {
        next_agent = 6;
        next_output_offset = 7;
        output_offset_known = true;
        history = some (record { begun = true; cursor = 7; end_offset = 7 });
      })
unfolding computing
replay-Run = accept agent_to_client chunk_json no_context chunk start refl
