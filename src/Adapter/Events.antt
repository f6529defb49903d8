-- ===== src/Adapter/Events.antt =====
-- apps/web/terminal/protocolTerminalAdapter.ts: every call, callback and continuation of the adapter
-- as an event, and `step`, which takes one of them to its end.
use terminus_web.Prelude.{
  ℕ, Bool, true, false, not, ◌&&◌, ◌||◌, [], ◌∷◌, ◌++◌, Option, none, some, Text, ◌==◌, ErrorCode,
  Violation, Result, if◌then◌else◌,
}
use terminus_web.Json.{Json}
use terminus_web.Codec.Frames.{Dimensions, Payload, ping, protocol_version}
use terminus_web.Machine.State.{new, Host}
use terminus_web.Connect.Endpoint.{Url}
use terminus_web.Recovery.{connected, authenticating, error}
use terminus_web.Adapter.State.{
  Socket, Operation, Adapter, opens_socket, sends, throws, rejects_connect, Step, reject_operation,
  is_current,
}
use terminus_web.Adapter.Connection.{
  release, fail, is_error, Failure, handle_send_failure, handle_transport_close,
}
use terminus_web.Adapter.Methods.{
  connect, start_connect, pair, detach, disconnect, start_new_session, resize, send_input,
}
use terminus_web.Adapter.Receive.{
  Saved, on_message, receive, apply_message, take_frame, save_credential, take_credential,
  take_proof, response_taken, receive_failure,
}

-- What the credential store gives to `connect`: the active credential, if any, and the identifier of
-- the client; or the code of what it throws.
pub data Loaded : Type 0 where
  found : (credential : Option Text) → Loaded
  failed : Violation → Loaded

-- The events with what they read of the world. A continuation has the number of the work, or of the
-- operation, that it was started under; `opened` is that the current socket is open.
pub data Event : Type 0 where
  connect_called : (destination session : Option Text) → Event
  credential_loaded :
      (work : ℕ) (loaded : Loaded) (connection_id : Text) (socket : Option ℕ) → Event
  socket_opened : Socket → (right_protocol opened : Bool) (client_instance_id : Text) → Event
  socket_failed socket_closed connect_timed_out : Socket → Event
  message_received message_taken : Socket → Option Text → Event
  message_applied : Socket → (raw : Text) → Event
  frame_applied : Socket → Payload → (dated : Bool) → Event
  save_due : Socket → (credential_id secret expires_at : Text) → Event
  credential_saved : Socket → Saved → Event
  proof_computed : Socket → (challenge_id : Text) → Result Text → (late : Bool) → Event
  response_sent : Socket → Event
  receive_failed : Socket → (opened : Bool) → Failure → Event
  send_failed : (work : ℕ) (opened : Bool) → Failure → Event
  pair_called : Text → Event
  pairing_sent : (work : ℕ) → Event
  detach_called release_called new_session_called : Event
  disconnect_called : (opened : Bool) → Event
  close_failed : (work operation : ℕ) → Violation → Event
  reconnect_due : (work operation : ℕ) → Event
  reconnect_failed : (operation : ℕ) → Violation → Event
  resize_called : Dimensions → Event
  input_called : Text → Event
  heartbeat_due : (work : ℕ) (silent : Bool) (nonce : Text) → Event
  authorization_due : Event

-- `this.newSessionOperation === operation`
abbrev pub is_operation : Option Operation → ℕ → Bool
is_operation none id = false
is_operation (some o) id = o.id == id

abbrev pub transport_lost : Adapter → Step
transport_lost a = release (record a { transport_failure = true })

abbrev pub open_socket : Option ℕ → Adapter → Step
open_socket none a = transport_lost a
open_socket (some id) a = (
  record a { socket = some (record { id = id; work = a.work }); connect_timer = true },
  opens_socket ∷ [],
)

abbrev pub load_result : Loaded → Text → Option ℕ → Adapter → Step
load_result (failed v) connection_id socket a =
    (record a { error_code = some v.code; state = error }, throws v ∷ [])
load_result (found credential) connection_id socket a =
    open_socket socket
      (record a { credential = credential; connection_id = some connection_id; machine = new })

-- `connect` behind the load of the credential.
unfoldable pub continue_connect : ℕ → Loaded → Text → Option ℕ → Adapter → Step
unfolding release
continue_connect work loaded connection_id socket a =
    if a.loading && work == a.work
    then load_result loaded connection_id socket (record a { loading = false })
    else (a, [])

-- The `hello` with the credential's identifier, if there is one.
abbrev pub hello_of : Text → Adapter → Payload
hello_of client a = Payload.hello client a.credential (protocol_version ∷ [])

-- `socket.onopen`
unfoldable pub on_open : Socket → Bool → Bool → Text → Adapter → Step
unfolding fail
on_open s right_protocol opened client a =
    let b = record a { connect_timer = false } in
    let (failed_b, actions) =
      fail opened (record { code = ErrorCode.unsupported_version; close_code = 1002 }) b in
    if not (is_current a.socket a.work s)
    then (a, [])
    else if right_protocol
    then (b, sends (hello_of client a) ∷ [])
    else (failed_b, actions ++ (rejects_connect ∷ []))

-- `socket.onerror`
unfoldable pub on_error : Socket → Adapter → Step
unfolding release
on_error s a =
    if not (is_current a.socket a.work s) || is_error a.state then (a, []) else transport_lost a

-- `socket.onclose`
unfoldable pub on_close : Socket → Adapter → Step
unfolding handle_transport_close
on_close s a =
    let (b, actions) = handle_transport_close (record a { connect_timer = false }) in
    if is_current a.socket a.work s then (b, actions ++ (rejects_connect ∷ [])) else (a, [])

-- What follows an `await` only if the work is still the current one.
abbrev pub while_current : ℕ → Adapter → Step → Step
while_current work a next = if work == a.work then next else (a, [])

-- The `catch` of `newSession`: the close frame was not queued.
abbrev pub keep_session : ℕ → ℕ → Violation → Adapter → Step
keep_session work operation v a =
    if work == a.work && is_operation a.new_session_operation operation
    then (
      record a { new_session_operation = none; state = connected },
      reject_operation a.new_session_operation v.code,
    )
    else (a, [])

-- The interval of `startHeartbeat`.
abbrev pub beat : Bool → Text → Adapter → Step
beat true nonce a = release a
beat false nonce a = (a, sends (Payload.heartbeat ping nonce) ∷ [])

abbrev pub or_stay : Adapter → Option Step → Step
or_stay a none = (a, [])
or_stay a (some next) = next

abbrev pub when : Bool → Adapter → Step → Step
when true a next = next
when false a next = (a, [])

module _ (host : Host) (parse_string : Text → Option Text) (parse : Text → Option Json)
    (parse_url : Text → Option Url) (endpoint : Text) where
  unfoldable pub step : Event → Adapter → Step
  unfolding connect start_connect pair detach disconnect start_new_session resize send_input release
      handle_send_failure continue_connect on_open on_error on_close on_message receive
      apply_message take_frame save_credential take_credential take_proof response_taken
      receive_failure
  step (connect_called destination session) a = connect parse_url endpoint destination session a
  step (credential_loaded work loaded connection_id socket) a =
      continue_connect work loaded connection_id socket a
  step (socket_opened s right_protocol opened client) a = on_open s right_protocol opened client a
  step (socket_failed s) a = on_error s a
  step (socket_closed s) a = on_close s a
  step (connect_timed_out s) a =
      when (a.connect_timer && is_current a.socket a.work s) a (release a)
  step (message_received s message) a = on_message s message a
  step (message_taken s message) a = receive s message a
  step (message_applied s raw) a = apply_message host parse_string parse s raw a
  step (frame_applied s p dated) a = take_frame s p dated a
  step (save_due s id secret expiry) a = save_credential s id secret expiry a
  step (credential_saved s x) a = take_credential s x a
  step (proof_computed s id proof late) a = take_proof s id proof late a
  step (response_sent s) a = response_taken s a
  step (receive_failed s opened failure) a = receive_failure s opened failure a
  step (send_failed work opened failure) a =
      while_current work a (handle_send_failure opened failure a)
  step (pair_called pairing_code) a = pair pairing_code a
  step (pairing_sent work) a = while_current work a (record a { state = authenticating }, [])
  step detach_called a = detach a
  step release_called a = release a
  step new_session_called a = start_new_session a
  step (disconnect_called opened) a = disconnect opened a
  step (close_failed work operation v) a = keep_session work operation v a
  step (reconnect_due work operation) a =
      when (work == a.work && is_operation a.new_session_operation operation) a
        (start_connect none a)
  step (reconnect_failed operation v) a =
      when (is_operation a.new_session_operation operation) a
        (record a { new_session_operation = none }, reject_operation a.new_session_operation v.code)
  step (resize_called size) a = or_stay a (resize size a)
  step (input_called t) a = or_stay a (send_input t a)
  step (heartbeat_due work silent nonce) a =
      when (a.heartbeat_timer && work == a.work) a (beat silent nonce a)
  step authorization_due a = when a.authorization_timer a (release a)
