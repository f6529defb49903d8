-- ===== src/Adapter/Receive.antt =====
-- apps/web/terminal/protocolTerminalAdapter.ts: `receive` from one `await` to the next, each part a
-- function of the fields as they are when it begins. What a part asks for is an `Action`, and the part
-- behind the `await` begins with an event. A violation that is thrown is an action too, and the `catch`
-- of `onmessage` is `receive_failed`.
use terminus_web.Prelude.{
  Bool, true, false, not, ◌||◌, List, [], ◌∷◌, ◌++◌, Option, none, some, Text, text_eq, ErrorCode,
  Violation, Result, ok, err, if◌then◌else◌,
}
use terminus_web.Json.{Json}
use terminus_web.Codec.Frames.{Payload, Frame, ping, pong, CloseReason, new_session}
use terminus_web.Machine.State.{agent_to_client, Machine, no_context, Host}
use terminus_web.Machine.Texts.{apply_text}
use terminus_web.Recovery.{
  AdapterState, disconnected, pairing, authenticating, replaying, connected, detached, error,
}
use terminus_web.Recovery
use terminus_web.Adapter.State.{
  Socket, closing, opening, Operation, Adapter, Action, throws, queues, applies, handles,
  computes_proof, queues_save, sends, saves, connects, outputs, flushes_decoder, resets_decoder,
  remembers, session_ended, session_opened, session_reopened, history_begun, resolves_new_session,
  rejects_new_session, Step, browser_close_code, close_socket, reject_operation, is_current,
}
use terminus_web.Adapter.Connection.{release, is_error, Failure, handle_send_failure}

-- What the switch gives: a step, or a thrown violation with the fields as they are then.
pub data Handled : Type 0 where
  handled : Adapter → List Action → Handled
  throwing : Adapter → List Action → Violation → Handled

abbrev pub throw_code : Adapter → ErrorCode → Handled
throw_code a code = throwing a [] (record { code = code; close_code = 1008 })

abbrev pub is_session : Text → Option Text → Bool
is_session id none = false
is_session id (some t) = text_eq id t

-- `frame.payload.sessionId !== …`, and then the violation.
abbrev pub for_session : Text → Option Text → ErrorCode → Adapter → Handled → Handled
for_session id known code a next = if is_session id known then next else throw_code a code

-- `answerChallenge` up to its `await`.
abbrev pub answer_challenge : Option Text → Text → Text → Adapter → Handled
answer_challenge none id challenge a = throw_code a ErrorCode.authentication_failed
answer_challenge (some credential) id challenge a = handled a (computes_proof id challenge ∷ [])

-- `openOrReopen`
unfoldable pub open_or_reopen : Option Text → Adapter → Step
open_or_reopen (some id) a =
    (record a { state = Recovery.opening }, sends (Payload.reopen_session id a.viewport) ∷ [])
open_or_reopen none a =
    (record a { state = Recovery.opening }, sends (Payload.open_session a.viewport) ∷ [])

abbrev pub to_handled : Step → Handled
to_handled (a, actions) = handled a actions

-- `resolveNewSession`
abbrev pub resolve_operation : Option Operation → Option Operation
resolve_operation none = none
resolve_operation (some o) = elim o.phase [ opening ↦ none | closing ↦ some o ]

abbrev pub resolution : Option Operation → List Action
resolution none = []
resolution (some o) = elim o.phase [ opening ↦ resolves_new_session ∷ [] | closing ↦ [] ]

-- `rememberSession`, which needs a credential.
abbrev pub remember : Option Text → Text → Bool → List Action
remember none id ended = []
remember (some credential) id ended = remembers id ended ∷ []

abbrev pub is_new_session : CloseReason → Bool
is_new_session new_session = true
is_new_session _ = false

abbrev pub to_opening : Operation → Operation
to_opening o = record o { phase = opening }

-- `session_closed` while the operation is closing: the replacement is opened, or has failed.
abbrev pub close_for : Operation → Bool → Adapter → List Action → Handled
close_for o true a actions =
    handled
      (record a {
        session_id = none;
        requested_session_id = none;
        new_session_operation = some (to_opening o);
        state = disconnected;
      })
      (actions ++ (close_socket a.socket 1000 ++ (connects ∷ [])))
close_for o false a actions =
    handled
      (record a {
        error_code = some ErrorCode.session_open_failed;
        session_id = none;
        requested_session_id = none;
        new_session_operation = none;
        state = error;
      })
      (actions
        ++ (rejects_new_session ErrorCode.session_open_failed
            ∷ close_socket a.socket (browser_close_code 1008)))

abbrev pub close_plain : Adapter → List Action → Handled
close_plain a actions =
    handled (record a { session_id = none; requested_session_id = none; state = disconnected })
      (actions ++ close_socket a.socket 1000)

abbrev pub close_by : Option Operation → CloseReason → Adapter → List Action → Handled
close_by none reason a actions = close_plain a actions
close_by (some o) reason a actions = elim o.phase [
  | closing ↦ close_for o (is_new_session reason) a actions
  | opening ↦ close_plain a actions
]

-- An error of the agent. The two time-outs release the transport, so that the shell can be reopened.
abbrev pub agent_error : ErrorCode → Adapter → Handled
agent_error ErrorCode.heartbeat_timeout a = to_handled (release a)
agent_error ErrorCode.authorization_expired a = to_handled (release a)
agent_error code a =
    handled
      (record a {
        error_code = some code;
        heartbeat_timer = false;
        new_session_operation = none;
        state = error;
      })
      (reject_operation a.new_session_operation code
        ++ close_socket a.socket (browser_close_code 1008))

abbrev pub greeted : Option Text → AdapterState
greeted none = pairing
greeted (some credential) = authenticating

-- The `switch` of `receive`, up to the `await` of a case; `dated` tells that the end of the
-- authorization is a date.
unfoldable pub handle : Payload → (dated : Bool) → Adapter → Handled
unfolding text_eq open_or_reopen release browser_close_code
handle (Payload.hello_ack agent) dated a = handled (record a { state = greeted a.credential }) []
handle (Payload.pairing_result credential secret expiry) dated a =
    handled a (queues_save credential secret expiry ∷ [])
handle (Payload.auth_challenge id challenge expiry) dated a =
    answer_challenge a.credential id challenge a
handle (Payload.auth_result expiry) dated a =
    if dated
    then to_handled
        (open_or_reopen a.requested_session_id (record a { authorization_timer = true }))
    else throw_code (record a { authorization_timer = false }) ErrorCode.authorization_expired
handle (Payload.session_opened id) dated a =
    handled
      (record a {
        session_id = some id;
        requested_session_id = none;
        heartbeat_timer = true;
        state = connected;
        new_session_operation = resolve_operation a.new_session_operation;
      })
      (resets_decoder
        ∷ (remember a.credential id false
            ++ (session_opened id ∷ resolution a.new_session_operation)))
handle (Payload.session_reopened id) dated a =
    for_session id a.requested_session_id ErrorCode.session_reopen_rejected a (
      handled (record a { session_id = some id; state = replaying })
        (remember a.credential id false ++ (session_reopened id ∷ [])))
handle (Payload.history_begin id first last truncated) dated a =
    for_session id a.session_id ErrorCode.output_offset_invalid a
      (handled a (resets_decoder ∷ history_begun id truncated ∷ []))
handle (Payload.history_chunk id offset encoded) dated a =
    for_session id a.session_id ErrorCode.output_offset_invalid a (handled a (outputs encoded ∷ []))
handle (Payload.history_end id last) dated a =
    for_session id a.session_id ErrorCode.output_offset_invalid a
      (handled (record a { heartbeat_timer = true; state = connected }) [])
handle (Payload.terminal_output id offset encoded) dated a =
    for_session id a.session_id ErrorCode.output_offset_invalid a (handled a (outputs encoded ∷ []))
handle (Payload.heartbeat ping nonce) dated a =
    handled a (sends (Payload.heartbeat pong nonce) ∷ [])
handle (Payload.session_detached id) dated a =
    for_session id a.session_id ErrorCode.invalid_state a (
      handled (record a { heartbeat_timer = false; authorization_timer = false; state = detached })
        (close_socket a.socket 1000))
handle (Payload.session_closed id reason) dated a =
    close_by a.new_session_operation reason
      (record a { heartbeat_timer = false; authorization_timer = false })
      (flushes_decoder ∷ (remember a.credential id true ++ (session_ended id ∷ [])))
handle (Payload.error code) dated a = agent_error code a
handle _ dated a = handled a []

-- What a part does, with what it throws.
abbrev pub settle : Handled → Step
settle (handled a actions) = (a, actions)
settle (throwing a actions v) = (a, actions ++ (throws v ∷ []))

-- `this.socket !== socket || this.work !== work`, and then `return`.
abbrev pub while_owner : Socket → Adapter → Step → Step
while_owner s a next = if is_current a.socket a.work s then next else (a, [])

-- The two comparisons with `this.state === "error"`.
abbrev pub while_open : Socket → Adapter → Step → Step
while_open s a next =
    if not (is_current a.socket a.work s) || is_error a.state then (a, []) else next

-- `socket.onmessage`, which puts `receive` into the queue of what comes in.
unfoldable pub on_message : Socket → Option Text → Adapter → Step
on_message s message a = while_owner s a (a, queues message ∷ [])

abbrev pub start_receive : Option Text → Adapter → Step
start_receive none a =
    (a, throws (record { code = ErrorCode.schema_invalid; close_code = 1002 }) ∷ [])
start_receive (some raw) a = (a, applies raw ∷ [])

-- `receive` up to `withMachine`, for a text or for anything else.
unfoldable pub receive : Socket → Option Text → Adapter → Step
receive s message a = while_open s a (start_receive message a)

abbrev pub applied : Machine × Result Frame → Adapter → Step
applied (m, ok f) a = (record a { machine = m }, handles f ∷ [])
applied (m, err v) a = (record a { machine = m }, throws v ∷ [])

-- `receive` behind `withMachine`.
unfoldable pub take_frame : Socket → Payload → (dated : Bool) → Adapter → Step
unfolding handle
take_frame s p dated a = while_owner s a (settle (handle p dated a))

-- The operation on the credential store that saves the credential of a pairing.
unfoldable pub save_credential : Socket → (id secret expiry : Text) → Adapter → Step
save_credential s id secret expiry a = while_owner s a (a, saves id secret expiry ∷ [])

-- How `saveCredential` ends: it throws, nothing was saved, or the identifier of what was.
pub data Saved : Type 0 where
  save_failed not_saved : Saved
  saved : (credential : Text) → Saved

-- The case of `pairing_result` behind it. The `catch` does not ask for the owner.
unfoldable pub take_credential : Socket → Saved → Adapter → Step
take_credential s save_failed a =
    (a, throws (record { code = ErrorCode.authentication_failed; close_code = 1008 }) ∷ [])
take_credential s not_saved a = (a, [])
take_credential s (saved credential) a =
    while_owner s a (record a { credential = some credential; state = authenticating }, [])

-- `this.credential.credentialId`, a TypeError without a credential.
abbrev pub respond : Option Text → Text → Text → Adapter → Step
respond none id proof a =
    (a, throws (record { code = ErrorCode.schema_invalid; close_code = 1002 }) ∷ [])
respond (some credential) id proof a = (a, sends (Payload.auth_response id credential proof) ∷ [])

-- `answerChallenge` behind the proof, which may throw; `late` tells that the deadline has passed.
unfoldable pub take_proof : Socket → Text → Result Text → (late : Bool) → Adapter → Step
take_proof s id (err v) late a = (a, throws v ∷ [])
take_proof s id (ok proof) true a =
    while_owner s a
      (a, throws (record { code = ErrorCode.authentication_failed; close_code = 1008 }) ∷ [])
take_proof s id (ok proof) false a = while_owner s a (respond a.credential id proof a)

-- `answerChallenge` behind the response.
unfoldable pub response_taken : Socket → Adapter → Step
response_taken s a = while_owner s a (record a { state = authenticating }, [])

-- The `catch` of `onmessage`.
unfoldable pub receive_failure : Socket → (opened : Bool) → Failure → Adapter → Step
unfolding handle_send_failure
receive_failure s opened failure a = while_owner s a (handle_send_failure opened failure a)

module _ (host : Host) (parse_string : Text → Option Text) (parse : Text → Option Json) where
  -- The operation of `withMachine`; the frame or the violation is what `receive` awaits.
  unfoldable pub apply_message : Socket → Text → Adapter → Step
  unfolding apply_text
  apply_message s raw a =
      while_open s a
        (applied (apply_text host parse_string parse agent_to_client raw no_context a.machine) a)
