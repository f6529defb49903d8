-- ===== src/Adapter/Growth.antt =====
-- protocolTerminalAdapter.ts: the number of the work before and after each part of the adapter.
use terminus_web.Prelude.{
  ℕ, suc, ltb, length, ◌≤◌, ◌≡◌, inl, inr, Bool, true, false, not, ◌&&◌, ◌||◌, List, [], ◌∷◌,
  Option, none, some, Text, text_eq, ◌==◌, Bool-cases, arith, ErrorCode, Violation, Result, ok, err,
}
use terminus_web.Codec.Frames.{Dimensions, max_terminal_input_bytes}
use terminus_web.Codec.Utf8.{utf8}
use terminus_web.Adapter.State.{Socket, Adapter, Step, is_current}
use terminus_web.Adapter.Connection.{
  release, is_error, fail, Failure, handle_send_failure, handle_transport_close,
}
use terminus_web.Adapter.Methods.{
  start_connect, pair, attached, detach, disconnect, recover, start_new_session, resize, send_input,
  input_to,
}
use terminus_web.Adapter.Events.{
  Loaded, continue_connect, on_open, on_error, on_close, while_current, keep_session, beat, or_stay,
  when,
}
use terminus_web.Adapter.Receive.{
  Handled, handled, throwing, open_or_reopen, handle, settle, while_owner, while_open, applied,
  respond, receive, take_frame, Saved, save_failed, not_saved, saved, take_credential, take_proof,
}
use terminus_web.Adapter.Connection.{transport, violated}
use terminus_web.Codec.Frames.{Payload, Frame, ping, pong}
use terminus_web.Machine.State.{Machine}

-- The number of the current work has not gone down.
abbrev pub Grows : Adapter → Step → Type 0
Grows a (b, actions) = a.work ≤ b.work

pub release-Grows : (a : Adapter) → Grows a (release a)
unfolding release
release-Grows a = ground arith

pub fail-Grows : (opened : Bool) (x : Violation) (a : Adapter) → Grows a (fail opened x a)
unfolding fail
fail-Grows opened x a = ground arith

pub handle_send_failure-Grows :
    (opened : Bool) (failure : Failure) (a : Adapter)
    → Grows a (handle_send_failure opened failure a)
unfolding handle_send_failure
handle_send_failure-Grows opened transport a = release-Grows a
handle_send_failure-Grows opened (violated x) a = fail-Grows opened x a

abbrev pub GrowsHandled : Adapter → Handled → Type 0
GrowsHandled a (handled b actions) = a.work ≤ b.work
GrowsHandled a (throwing b actions v) = a.work ≤ b.work

pub handle-GrowsHandled :
    (p : Payload) (dated : Bool) (a : Adapter) → GrowsHandled a (handle p dated a)
unfolding handle open_or_reopen
handle-GrowsHandled (Payload.error ErrorCode.heartbeat_timeout) dated a = release-Grows a
handle-GrowsHandled (Payload.error ErrorCode.authorization_expired) dated a = release-Grows a
handle-GrowsHandled (Payload.error code) dated a = ground arith
handle-GrowsHandled (Payload.heartbeat ping nonce) dated a = ground arith
handle-GrowsHandled (Payload.heartbeat pong nonce) dated a = ground arith
handle-GrowsHandled p dated a = ground arith

pub settle-Grows : (a : Adapter) (h : Handled) → GrowsHandled a h → Grows a (settle h)
settle-Grows a (handled b actions) g = g
settle-Grows a (throwing b actions x) g = g

pub while_owner-Grows :
    (s : Socket) (a : Adapter) (next : Step) → Grows a next → Grows a (while_owner s a next)
while_owner-Grows s a next g = elim (Bool-cases (is_current a.socket a.work s)) [
  | inl e ↦ rw e g
  | inr e ↦ rw e (omega arith)
]

pub while_open-Grows :
    (s : Socket) (a : Adapter) (next : Step) → Grows a next → Grows a (while_open s a next)
while_open-Grows s a next g =
    elim (Bool-cases (not (is_current a.socket a.work s) || is_error a.state)) [
      | inl e ↦ rw e (omega arith)
      | inr e ↦ rw e g
    ]

pub receive-Grows :
    (s : Socket) (message : Option Text) (a : Adapter) → Grows a (receive s message a)
unfolding receive
receive-Grows s none a = while_open-Grows s a _ (omega arith)
receive-Grows s (some raw) a = while_open-Grows s a _ (omega arith)

pub applied-Grows : (answer : Machine × Result Frame) (a : Adapter) → Grows a (applied answer a)
applied-Grows (m, ok f) a = omega arith
applied-Grows (m, err x) a = omega arith

pub take_frame-Grows :
    (s : Socket) (p : Payload) (dated : Bool) (a : Adapter) → Grows a (take_frame s p dated a)
unfolding take_frame
take_frame-Grows s p dated a =
    while_owner-Grows s a _ (settle-Grows a (handle p dated a) (handle-GrowsHandled p dated a))

pub take_credential-Grows : (s : Socket) (x : Saved) (a : Adapter) → Grows a (take_credential s x a)
unfolding take_credential
take_credential-Grows s save_failed a = omega arith
take_credential-Grows s not_saved a = omega arith
take_credential-Grows s (saved credential) a = while_owner-Grows s a _ (omega arith)

pub respond-Grows :
    (o : Option Text) (id proof : Text) (a : Adapter) → Grows a (respond o id proof a)
respond-Grows none id proof a = omega arith
respond-Grows (some credential) id proof a = omega arith

pub take_proof-Grows :
    (s : Socket) (id : Text) (proof : Result Text) (late : Bool) (a : Adapter)
    → Grows a (take_proof s id proof late a)
unfolding take_proof
take_proof-Grows s id (err x) late a = omega arith
take_proof-Grows s id (ok proof) true a = while_owner-Grows s a _ (omega arith)
take_proof-Grows s id (ok proof) false a =
    while_owner-Grows s a _ (respond-Grows a.credential id proof a)

pub start_connect-Grows : (session : Option Text) (a : Adapter) → Grows a (start_connect session a)
unfolding start_connect
start_connect-Grows session a = ground arith

pub when-Grows : (b : Bool) (a : Adapter) (next : Step) → Grows a next → Grows a (when b a next)
when-Grows true a next g = g
when-Grows false a next g = omega arith

pub while_current-Grows :
    (work : ℕ) (a : Adapter) (next : Step) → Grows a next → Grows a (while_current work a next)
while_current-Grows work a next g = elim (Bool-cases (work == a.work)) [
  | inl e ↦ rw e g
  | inr e ↦ rw e (omega arith)
]

pub detach-Grows : (a : Adapter) → Grows a (detach a)
unfolding detach
detach-Grows a = ground arith

pub disconnect-Grows : (opened : Bool) (a : Adapter) → Grows a (disconnect opened a)
unfolding disconnect
disconnect-Grows opened a = ground arith

pub start_new_session-Grows : (a : Adapter) → Grows a (start_new_session a)
unfolding start_new_session recover start_connect
start_new_session-Grows a = ground arith

pub pair-Grows : (t : Text) (a : Adapter) → Grows a (pair t a)
unfolding pair
pair-Grows t a = ground arith

pub resize-Grows : (size : Dimensions) (a : Adapter) → Grows a (or_stay a (resize size a))
unfolding resize
resize-Grows size a = ground arith

pub input_to-Grows : (o : Option Text) (bytes : List ℕ) (a : Adapter) → Grows a (input_to o bytes a)
input_to-Grows none bytes a = omega arith
input_to-Grows (some id) [] a = omega arith
input_to-Grows (some id) (b ∷ bytes) a =
    elim (Bool-cases (ltb max_terminal_input_bytes (length (b ∷ bytes)))) [
      | inl e ↦ rw e (omega arith)
      | inr e ↦ rw e (omega arith)
    ]

pub send_input-Grows : (t : Text) (a : Adapter) → Grows a (or_stay a (send_input t a))
unfolding send_input
send_input-Grows t a = elim (Bool-cases (a.paste_operation && not (text_eq t (3 ∷ [])))) [
  | inl e ↦ rw e (omega arith)
  | inr e ↦ rw e (
      input_to-Grows (attached a.state a.session_id) (utf8 t)
        (record a { paste_operation = false }))
]

pub continue_connect-Grows :
    (work : ℕ) (loaded : Loaded) (connection_id : Text) (socket : Option ℕ) (a : Adapter)
    → Grows a (continue_connect work loaded connection_id socket a)
unfolding continue_connect
continue_connect-Grows work loaded connection_id socket a = ground arith

pub socket-Grows :
    (s : Socket) (right_protocol opened : Bool) (client : Text) (a : Adapter)
    → Grows a (on_open s right_protocol opened client a)
      × Grows a (on_error s a)
      × Grows a (on_close s a)
unfolding on_open on_error on_close handle_transport_close
socket-Grows s right_protocol opened client a = (ground arith, ground arith, ground arith)

pub keep_session-Grows :
    (work operation : ℕ) (x : Violation) (a : Adapter) → Grows a (keep_session work operation x a)
keep_session-Grows work operation x a = ground arith

pub beat-Grows : (silent : Bool) (nonce : Text) (a : Adapter) → Grows a (beat silent nonce a)
beat-Grows true nonce a = release-Grows a
beat-Grows false nonce a = omega arith

pub work-release : (a : Adapter) → (release a).0.work ≡ suc a.work
unfolding release
work-release a = ground arith
