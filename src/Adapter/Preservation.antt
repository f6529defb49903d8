-- ===== src/Adapter/Preservation.antt =====
-- protocolTerminalAdapter.ts: every event keeps the invariant.
use terminus_web.Prelude.{
  ℕ, ltb, length, ◌≡◌, inl, inr, Bool, true, false, not, ◌&&◌, List, [], ◌∷◌, Option, none, some,
  Text, text_eq, ◌==◌, Bool-cases, arith, Violation,
}
use terminus_web.Json.{Json}
use terminus_web.Codec.Frames.{Dimensions, max_terminal_input_bytes}
use terminus_web.Codec.Utf8.{utf8}
use terminus_web.Recovery.{authenticating}
use terminus_web.Machine.State.{Host}
use terminus_web.Connect.Endpoint.{Url}
use terminus_web.Adapter.State.{Socket, Adapter, Step, is_current, reject_operation}
use terminus_web.Adapter.Connection.{release, is_error, handle_send_failure}
use terminus_web.Adapter.Methods.{
  start_connect, connect, is_endpoint, pair, attached, detach, disconnect, recover,
  start_new_session, resize, send_input, input_to,
}
use terminus_web.Adapter.Events.{
  Loaded, Event, connect_called, credential_loaded, socket_opened, socket_failed, socket_closed,
  connect_timed_out, message_received, message_taken, message_applied, frame_applied, save_due,
  credential_saved, proof_computed, response_sent, receive_failed, send_failed, pair_called,
  pairing_sent, detach_called, release_called, new_session_called, disconnect_called, close_failed,
  reconnect_due, reconnect_failed, resize_called, input_called, heartbeat_due, authorization_due,
  is_operation, continue_connect, on_open, on_error, on_close, while_current, keep_session, beat,
  or_stay, when, step,
}
use terminus_web.Adapter.Invariant.{IsValid, is_closing, release-IsValid}
use terminus_web.Adapter.Answers.{
  handle_send_failure-IsValid, on_message-IsValid, receive-IsValid, take_frame-IsValid,
  save_credential-IsValid, take_credential-IsValid, take_proof-IsValid, response_taken-IsValid,
  receive_failure-IsValid, apply_message-IsValid,
}

start_connect-IsValid :
    (session : Option Text) (a : Adapter) → IsValid a → IsValid (start_connect session a).0
unfolding start_connect
start_connect-IsValid session a v = ground arith

pair-IsValid : (t : Text) (a : Adapter) → IsValid a → IsValid (pair t a).0
unfolding pair
pair-IsValid t a v = ground arith

detach-IsValid : (a : Adapter) → IsValid a → IsValid (detach a).0
unfolding detach
detach-IsValid a v = ground arith

disconnect-IsValid : (opened : Bool) (a : Adapter) → IsValid a → IsValid (disconnect opened a).0
unfolding disconnect
disconnect-IsValid opened a v = ground arith

recover-IsValid : (a : Adapter) → is_error a.state ≡ true → IsValid a → IsValid (recover a).0
unfolding recover
recover-IsValid a e v = ground arith

start_new_session-IsValid : (a : Adapter) → IsValid a → IsValid (start_new_session a).0
unfolding start_new_session
start_new_session-IsValid a v = ground arith

resize-IsValid :
    (size : Dimensions) (a : Adapter) → IsValid a → IsValid (or_stay a (resize size a)).0
unfolding resize
resize-IsValid size a v = ground arith

input_to-IsValid :
    (o : Option Text) (bytes : List ℕ) (a : Adapter) → IsValid a → IsValid (input_to o bytes a).0
input_to-IsValid none bytes a v = v
input_to-IsValid (some id) [] a v = v
input_to-IsValid (some id) (b ∷ bytes) a v =
    elim (Bool-cases (ltb max_terminal_input_bytes (length (b ∷ bytes)))) [
      | inl e ↦ rw e v
      | inr e ↦ rw e v
    ]

without_paste-IsValid : (a : Adapter) → IsValid a → IsValid (record a { paste_operation = false })
without_paste-IsValid a v = ground arith

send_input-IsValid : (t : Text) (a : Adapter) → IsValid a → IsValid (or_stay a (send_input t a)).0
unfolding send_input
send_input-IsValid t a v = elim (Bool-cases (a.paste_operation && not (text_eq t (3 ∷ [])))) [
  | inl e ↦ rw e v
  | inr e ↦ rw e (
      input_to-IsValid (attached a.state a.session_id) (utf8 t)
        (record a { paste_operation = false }) (without_paste-IsValid a v))
]

continue_connect-IsValid :
    (work : ℕ) (loaded : Loaded) (connection_id : Text) (socket : Option ℕ) (a : Adapter)
    → IsValid a
    → IsValid (continue_connect work loaded connection_id socket a).0
unfolding continue_connect
continue_connect-IsValid work loaded connection_id socket a v = ground arith

on_open-IsValid :
    (s : Socket) (right_protocol opened : Bool) (client : Text) (a : Adapter)
    → IsValid a
    → IsValid (on_open s right_protocol opened client a).0
unfolding on_open
on_open-IsValid s right_protocol opened client a v = ground arith

on_error-IsValid : (s : Socket) (a : Adapter) → IsValid a → IsValid (on_error s a).0
unfolding on_error
on_error-IsValid s a v = ground arith

on_close-IsValid : (s : Socket) (a : Adapter) → IsValid a → IsValid (on_close s a).0
unfolding on_close
on_close-IsValid s a v = ground arith

-- The close frame of `newSession` fails while the session is still the attached one.
abbrev pub IsTimely : Event → Adapter → Type 0
IsTimely (close_failed work operation x) a = is_closing a.new_session_operation ≡ true
IsTimely _ a = Unit

when-IsValid :
    (b : Bool) (a : Adapter) (next : Step) → IsValid a → IsValid next.0 → IsValid (when b a next).0
when-IsValid true a next v w = w
when-IsValid false a next v w = v

while_current-IsValid :
    (work : ℕ) (a : Adapter) (next : Step)
    → IsValid a
    → IsValid next.0
    → IsValid (while_current work a next).0
while_current-IsValid work a next v w = elim (Bool-cases (work == a.work)) [
  | inl e ↦ rw e w
  | inr e ↦ rw e v
]

keep_session-IsValid :
    (work operation : ℕ) (x : Violation) (a : Adapter)
    → is_closing a.new_session_operation ≡ true
    → IsValid a
    → IsValid (keep_session work operation x a).0
keep_session-IsValid work operation x a t v = ground arith

pairing_sent-IsValid : (a : Adapter) → IsValid a → IsValid (record a { state = authenticating })
pairing_sent-IsValid a v = ground arith

reconnect_failed-IsValid :
    (a : Adapter) → IsValid a → IsValid (record a { new_session_operation = none })
reconnect_failed-IsValid a v = ground arith

beat-IsValid :
    (silent : Bool) (nonce : Text) (a : Adapter) → IsValid a → IsValid (beat silent nonce a).0
beat-IsValid true nonce a v = release-IsValid a v
beat-IsValid false nonce a v = v

module _ (host : Host) (parse_string : Text → Option Text) (parse : Text → Option Json)
    (parse_url : Text → Option Url) (endpoint : Text) where
  connect-IsValid :
      (destination session : Option Text) (a : Adapter)
      → IsValid a
      → IsValid (connect parse_url endpoint destination session a).0
  unfolding connect
  connect-IsValid none session a v = start_connect-IsValid session a v
  connect-IsValid (some destination) session a v =
      elim (Bool-cases (is_endpoint endpoint (parse_url destination))) [
        | inl e ↦ rw e (start_connect-IsValid session a v)
        | inr e ↦ rw e v
      ]

  -- Every event keeps the invariant: an error has its code, a session that is attached, left or
  -- replaced is known, an adapter that is disconnected, detached, in error or waiting for its
  -- credential has no heartbeat, and no socket belongs to a later connection. The parts of a message
  -- between its awaits are events of their own. The event may be stale, repeated or out of order, but
  -- a close frame that fails finds its operation still closing.
  pub step_adapter-IsValid :
      (e : Event) (a : Adapter)
      → IsTimely e a
      → IsValid a
      → IsValid (step host parse_string parse parse_url endpoint e a).0
  unfolding step
  step_adapter-IsValid (connect_called destination session) a t v =
      connect-IsValid destination session a v
  step_adapter-IsValid (credential_loaded work loaded connection_id socket) a t v =
      continue_connect-IsValid work loaded connection_id socket a v
  step_adapter-IsValid (socket_opened s right_protocol opened client) a t v =
      on_open-IsValid s right_protocol opened client a v
  step_adapter-IsValid (socket_failed s) a t v = on_error-IsValid s a v
  step_adapter-IsValid (socket_closed s) a t v = on_close-IsValid s a v
  step_adapter-IsValid (connect_timed_out s) a t v =
      when-IsValid (a.connect_timer && is_current a.socket a.work s) a (release a) v
        (release-IsValid a v)
  step_adapter-IsValid (message_received s message) a t v = on_message-IsValid s message a v
  step_adapter-IsValid (message_taken s message) a t v = receive-IsValid s message a v
  step_adapter-IsValid (message_applied s raw) a t v =
      apply_message-IsValid host parse_string parse s raw a v
  step_adapter-IsValid (frame_applied s p dated) a t v = take_frame-IsValid s p dated a v
  step_adapter-IsValid (save_due s id secret expiry) a t v =
      save_credential-IsValid s id secret expiry a v
  step_adapter-IsValid (credential_saved s x) a t v = take_credential-IsValid s x a v
  step_adapter-IsValid (proof_computed s id proof late) a t v =
      take_proof-IsValid s id proof late a v
  step_adapter-IsValid (response_sent s) a t v = response_taken-IsValid s a v
  step_adapter-IsValid (receive_failed s opened failure) a t v =
      receive_failure-IsValid s opened failure a v
  step_adapter-IsValid (send_failed work opened failure) a t v =
      while_current-IsValid work a (handle_send_failure opened failure a) v
        (handle_send_failure-IsValid opened failure a v)
  step_adapter-IsValid (pair_called t) a _ v = pair-IsValid t a v
  step_adapter-IsValid (pairing_sent work) a t v =
      while_current-IsValid work a (record a { state = authenticating }, []) v
        (pairing_sent-IsValid a v)
  step_adapter-IsValid detach_called a t v = detach-IsValid a v
  step_adapter-IsValid release_called a t v = release-IsValid a v
  step_adapter-IsValid new_session_called a t v = start_new_session-IsValid a v
  step_adapter-IsValid (disconnect_called opened) a t v = disconnect-IsValid opened a v
  step_adapter-IsValid (close_failed work operation x) a t v =
      keep_session-IsValid work operation x a t v
  step_adapter-IsValid (reconnect_due work operation) a t v =
      when-IsValid (work == a.work && is_operation a.new_session_operation operation) a
        (start_connect none a) v (start_connect-IsValid none a v)
  step_adapter-IsValid (reconnect_failed operation x) a t v =
      when-IsValid (is_operation a.new_session_operation operation) a
        (record a { new_session_operation = none }, reject_operation a.new_session_operation x.code)
        v (reconnect_failed-IsValid a v)
  step_adapter-IsValid (resize_called size) a t v = resize-IsValid size a v
  step_adapter-IsValid (input_called t) a _ v = send_input-IsValid t a v
  step_adapter-IsValid (heartbeat_due work silent nonce) a t v =
      when-IsValid (a.heartbeat_timer && work == a.work) a (beat silent nonce a) v
        (beat-IsValid silent nonce a v)
  step_adapter-IsValid authorization_due a t v =
      when-IsValid a.authorization_timer a (release a) v (release-IsValid a v)
