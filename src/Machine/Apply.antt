-- ===== src/Machine/Apply.antt =====
-- apps/web/protocol/contractMachine.ts: `apply`, `validateSessionData`, `nextSequence` and
-- `evaluateHandshake`. A frame is answered by the new state and the frame or the violation: a call
-- that throws may leave the state changed.
use terminus_web.Prelude.{
  ℕ, ◌+◌, ◌-◌, Bool, true, false, not, ◌&&◌, ◌||◌, List, Option, none, some, Text, codes, text_eq,
  includes, length, ltb, leb, ◌==◌, if◌then◌else◌, ErrorCode, Result, ok, err, ◌>>=◌, ◌>>◌,
  violation, require,
}
use terminus_web.Json.{Json}
use terminus_web.Codec.Base64.{decode_base64url}
use terminus_web.Codec.Frames.{Payload, Frame, type_of, max_safe_sequence, protocol_version}
use terminus_web.Codec.Validate.{validate_frame}
use terminus_web.Machine.State.{Direction, History, Machine, Context, Host, expected, set_expected}
use terminus_web.Machine.Transitions.{Transition, find_transition}
use terminus_web.Machine.Auth.{validate_context}

-- The first frame fixes the connection; a later frame of another connection is refused.
unfoldable pub bind_connection : Frame → Machine → Option Text → Result Machine
bind_connection frame m none = ok (record m { connection_id = some frame.connection_id })
bind_connection frame m (some id) =
    if text_eq frame.connection_id id then ok m else violation ErrorCode.schema_invalid 1002

-- A `hello` must offer the protocol's version.
unfoldable pub check_version : Payload → Result (Unit {0})
check_version (Payload.hello client credential versions) =
    require (includes versions protocol_version) ErrorCode.unsupported_version 1002
check_version _ = ok tt

unfoldable pub check_sequence : ℕ → ℕ → Result (Unit {0})
check_sequence sequence wanted =
    if ltb sequence wanted
    then violation ErrorCode.sequence_replay 1008
    else if ltb wanted sequence
    then violation ErrorCode.sequence_gap 1008
    else ok tt

-- `frame.payload.sessionId`
unfoldable pub session_of : Payload → Option Text
session_of (Payload.session_opened id) = some id
session_of (Payload.reopen_session id _) = some id
session_of (Payload.session_reopened id) = some id
session_of (Payload.history_begin id _ _ _) = some id
session_of (Payload.history_chunk id _ _) = some id
session_of (Payload.history_end id _) = some id
session_of (Payload.terminal_input id _) = some id
session_of (Payload.terminal_output id _ _) = some id
session_of (Payload.resize id _) = some id
session_of (Payload.detach id) = some id
session_of (Payload.session_detached id) = some id
session_of (Payload.close_session id _) = some id
session_of (Payload.session_closed id _) = some id
session_of _ = none

-- Two session identifiers that are both known and differ.
abbrev pub differ : Option Text → Option Text → Bool
differ (some a) (some b) = not (text_eq b a)
differ _ _ = false

-- A frame of another session than the known one is refused, but for `reopen_session`.
unfoldable pub check_session : Option Text → Payload → Result (Unit {0})
unfolding session_of
check_session id (Payload.reopen_session _ _) = ok tt
check_session id p = require (not (differ id (session_of p))) ErrorCode.output_offset_invalid 1008

abbrev pub offset_error {ℓ} : {A : Type ℓ} → Result A
offset_error = violation ErrorCode.output_offset_invalid 1008

unfoldable pub begin_history : ℕ → ℕ → Bool → Machine → Result Machine
begin_history start finish truncated m =
    if ltb finish start
      || ltb 262144 (finish - start)
      || not truncated && not (start == 0)
      || m.output_offset_known && not (finish == m.next_output_offset)
    then offset_error
    else ok (record m {
      history = some (record { begun = true; cursor = start; end_offset = finish });
      next_output_offset = finish;
      output_offset_known = true;
    })

unfoldable pub advance_history : ℕ → ℕ → Machine → Option History → Result Machine
advance_history offset size m none = offset_error
advance_history offset size m (some h) =
    if not h.begun
      || not (offset == h.cursor)
      || ltb h.end_offset (offset + size)
      || ltb max_safe_sequence (offset + size)
    then offset_error
    else ok (record m { history = some (record h { cursor = h.cursor + size }) })

unfoldable pub end_history : ℕ → Machine → Option History → Result Machine
end_history finish m none = offset_error
end_history finish m (some h) =
    if not h.begun || not (h.cursor == h.end_offset) || not (finish == h.end_offset)
    then offset_error
    else ok (record m { next_output_offset = finish; history = none })

unfoldable pub advance_output : ℕ → ℕ → Machine → Result Machine
advance_output offset size m =
    if not (offset == m.next_output_offset) || ltb max_safe_sequence (offset + size)
    then offset_error
    else ok (record m { next_output_offset = m.next_output_offset + size })

-- The `switch` of `validateSessionData`; nothing is set before a throw.
unfoldable pub track_session : Payload → Machine → Result Machine
track_session (Payload.session_opened id) m =
    ok (record m { session_id = some id; next_output_offset = 0; output_offset_known = true })
track_session (Payload.session_reopened id) m = ok (record m { session_id = some id })
track_session (Payload.history_begin id start finish truncated) m =
    begin_history start finish truncated m
track_session (Payload.history_chunk id offset encoded) m = do
  bytes ← decode_base64url encoded none
  advance_history offset (length bytes) m m.history
track_session (Payload.history_end id finish) m = end_history finish m m.history
track_session (Payload.terminal_output id offset encoded) m = do
  bytes ← decode_base64url encoded none
  advance_output offset (length bytes) m
track_session _ m = ok m

-- `validateSessionData`
unfoldable pub validate_session_data : Payload → Machine → Result Machine
unfolding check_session track_session
validate_session_data p m = do check_session m.session_id p; track_session p m

-- `nextSequence`
unfoldable pub next_sequence : ℕ → Result ℕ
next_sequence current =
    if leb max_safe_sequence current
    then violation ErrorCode.sequence_gap 1008
    else ok (current + 1)

abbrev pub or_keep {ℓ} : {A : Type ℓ} → Option A → A → A
or_keep none a = a
or_keep (some b) a = b

unfoldable pub take_transition : Transition → Machine → Machine
take_transition t m = record m {
  connection_state = or_keep t.connection m.connection_state;
  session_state = or_keep t.session m.session_state;
}

-- A step whose throw leaves the machine `m`.
abbrev pub attempt :
    {A : Type 0} → Machine → Result A → (A → Machine × Result Frame) → Machine × Result Frame
attempt m (err v) k = (m, err v)
attempt m (ok a) k = k a

module _ (host : Host) where
  -- The checks that read the state and set nothing.
  unfoldable pub admit_frame : Direction → Frame → Context → Machine → Result Transition
  unfolding check_version check_sequence find_transition
  admit_frame d frame context m = do
    check_version frame.payload
    check_sequence frame.sequence (expected d m)
    validate_context host frame context
    find_transition m.connection_state m.session_state d (type_of frame.payload)

  -- `apply` behind the check of the frame's form.
  unfoldable pub apply_frame : Direction → Frame → Context → Machine → Machine × Result Frame
  unfolding bind_connection validate_session_data next_sequence take_transition
  apply_frame d frame context m = attempt m (bind_connection frame m m.connection_id) λ bound.
      attempt bound (admit_frame d frame context bound) λ t.
        attempt bound (validate_session_data frame.payload bound) λ tracked.
          attempt tracked (next_sequence (expected d bound))
            λ n. (take_transition t (set_expected d n tracked), ok frame)

  -- `apply`, for an input that is not raw text.
  unfoldable pub apply : Direction → Json → Context → Machine → Machine × Result Frame
  apply d input context m = attempt m (validate_frame input) λ frame. apply_frame d frame context m

-- The codes of `evaluateHandshake`, with the HTTP status.
pub data Handshake : Type 0 where
  accept origin_rejected unsupported_version : ℕ → Handshake

abbrev pub allowed_origin : List Text → Option Text → Bool
allowed_origin allowed none = false
allowed_origin allowed (some origin) = includes allowed origin

abbrev pub equals : Option Text → Text → Bool
equals none t = false
equals (some s) t = text_eq s t

-- `evaluateHandshake`; a part of the request that is no text is `none`.
unfoldable pub evaluate_handshake : Option Text → Option Text → Option Text → List Text → Handshake
evaluate_handshake scheme origin subprotocol allowed =
    if not (equals subprotocol (codes "terminus.v0_2"))
    then unsupported_version 426
    else if not (equals scheme (codes "wss")) || not (allowed_origin allowed origin)
    then origin_rejected 403
    else accept 101
