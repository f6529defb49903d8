-- ===== src/Adapter/Answers.antt =====
-- protocolTerminalAdapter.ts: what `receive` does keeps the invariant, whatever arrives.
use terminus_web.Prelude.{
  ◌≡◌, inl, inr, Bool, true, false, not, ◌||◌, List, Option, none, some, Text, Bool-cases, arith,
  ErrorCode, Result, ok, err,
}
use terminus_web.Recovery.{authenticating}
use terminus_web.Json.{Json}
use terminus_web.Codec.Frames.{Payload, ping, Frame, CloseReason}
use terminus_web.Machine.State.{agent_to_client, Machine, no_context, Host}
use terminus_web.Machine.Texts.{apply_text}
use terminus_web.Adapter.State.{Socket, Adapter, Action, Step, is_current}
use terminus_web.Adapter.Connection.{is_error, Failure, transport, violated, handle_send_failure}
use terminus_web.Adapter.Receive.{
  Handled, handled, throwing, is_session, for_session, open_or_reopen, close_by, agent_error,
  handle, settle, while_owner, while_open, start_receive, applied, respond, on_message, receive,
  take_frame, save_credential, Saved, save_failed, not_saved, saved, take_credential, take_proof,
  response_taken, receive_failure, apply_message,
}
use terminus_web.Adapter.Invariant.{IsValid, release-IsValid, fail-IsValid}

-- The fields are valid behind a handler, also where it throws.
abbrev pub IsHandled : Handled → Type 0
IsHandled (handled a actions) = IsValid a
IsHandled (throwing a actions v) = IsValid a

for_session-IsHandled :
    (id : Text) (known : Option Text) (code : ErrorCode) (a : Adapter) (next : Handled)
    → IsValid a
    → (is_session id known ≡ true → IsHandled next)
    → IsHandled (for_session id known code a next)
for_session-IsHandled id known code a next v h = elim (Bool-cases (is_session id known)) [
  | inl e ↦ rw e (h e)
  | inr e ↦ rw e v
]

close_by-IsHandled :
    (reason : CloseReason) (a : Adapter) (actions : List Action)
    → IsValid a
    → IsHandled (
        close_by a.new_session_operation reason
          (record a { heartbeat_timer = false; authorization_timer = false })
          actions)
close_by-IsHandled reason a actions v = ground arith

agent_error-IsHandled :
    (code : ErrorCode) (a : Adapter) → IsValid a → IsHandled (agent_error code a)
agent_error-IsHandled ErrorCode.heartbeat_timeout a v = release-IsValid a v
agent_error-IsHandled ErrorCode.authorization_expired a v = release-IsValid a v
agent_error-IsHandled _ a v = ground arith

handle-IsHandled :
    (p : Payload) (dated : Bool) (a : Adapter)
    → a.loading ≡ false
    → IsValid a
    → IsHandled (handle p dated a)
unfolding handle open_or_reopen
handle-IsHandled (Payload.auth_challenge id challenge expiry) dated a l v = ground arith
handle-IsHandled (Payload.session_closed id reason) dated a l v = close_by-IsHandled reason a _ v
handle-IsHandled (Payload.error code) dated a l v = agent_error-IsHandled code a v
handle-IsHandled (Payload.hello_ack agent) dated a l v = ground arith
handle-IsHandled (Payload.pairing_result credential secret expiry) dated a l v = ground arith
handle-IsHandled (Payload.auth_result expiry) dated a l v = ground arith
handle-IsHandled (Payload.session_opened id) dated a l v = ground arith
handle-IsHandled (Payload.session_reopened id) dated a l v =
    for_session-IsHandled id a.requested_session_id ErrorCode.session_reopen_rejected a _ v
      λ e. ground arith
handle-IsHandled (Payload.history_begin id first last truncated) dated a l v =
    for_session-IsHandled id a.session_id ErrorCode.output_offset_invalid a _ v λ e. v
handle-IsHandled (Payload.history_chunk id offset encoded) dated a l v =
    for_session-IsHandled id a.session_id ErrorCode.output_offset_invalid a _ v λ e. v
handle-IsHandled (Payload.history_end id last) dated a l v =
    for_session-IsHandled id a.session_id ErrorCode.output_offset_invalid a _ v λ e. ground arith
handle-IsHandled (Payload.terminal_output id offset encoded) dated a l v =
    for_session-IsHandled id a.session_id ErrorCode.output_offset_invalid a _ v λ e. v
handle-IsHandled (Payload.heartbeat ping nonce) dated a l v = v
handle-IsHandled (Payload.session_detached id) dated a l v =
    for_session-IsHandled id a.session_id ErrorCode.invalid_state a _ v λ e. ground arith
handle-IsHandled _ dated a l v = v

pub handle_send_failure-IsValid :
    (opened : Bool) (failure : Failure) (a : Adapter)
    → IsValid a
    → IsValid (handle_send_failure opened failure a).0
unfolding handle_send_failure
handle_send_failure-IsValid opened transport a v = release-IsValid a v
handle_send_failure-IsValid opened (violated x) a v = fail-IsValid opened x a v

settle-IsValid : (h : Handled) → IsHandled h → IsValid (settle h).0
settle-IsValid (handled a actions) v = v
settle-IsValid (throwing a actions x) v = v

with_machine-IsValid : (m : Machine) (a : Adapter) → IsValid a → IsValid (record a { machine = m })
with_machine-IsValid m a v = record {
  explained = v.explained;
  has_session = v.has_session;
  replaced = v.replaced;
  silent = v.silent;
  silent_loading = v.silent_loading;
  socket_old = v.socket_old;
}

-- A current socket was made for the current work, so that its connection is not waiting any more.
loaded_of_current :
    (a : Adapter) (s : Socket) → IsValid a → is_current a.socket a.work s ≡ true → a.loading ≡ false
loaded_of_current a s v h = ground arith

-- A part that is begun only by the owner.
while_owner-IsValid :
    (s : Socket) (a : Adapter) (next : Step)
    → IsValid a
    → (a.loading ≡ false → IsValid next.0)
    → IsValid (while_owner s a next).0
while_owner-IsValid s a next v k = elim (Bool-cases (is_current a.socket a.work s)) [
  | inl e ↦ rw e (k (loaded_of_current a s v e))
  | inr e ↦ rw e v
]

while_open-IsValid :
    (s : Socket) (a : Adapter) (next : Step)
    → IsValid a
    → IsValid next.0
    → IsValid (while_open s a next).0
while_open-IsValid s a next v w =
    elim (Bool-cases (not (is_current a.socket a.work s) || is_error a.state)) [
      | inl e ↦ rw e v
      | inr e ↦ rw e w
    ]

start_receive-IsValid :
    (message : Option Text) (a : Adapter) → IsValid a → IsValid (start_receive message a).0
start_receive-IsValid none a v = v
start_receive-IsValid (some raw) a v = v

applied-IsValid :
    (answer : Machine × Result Frame) (a : Adapter) → IsValid a → IsValid (applied answer a).0
applied-IsValid (m, ok f) a v = with_machine-IsValid m a v
applied-IsValid (m, err x) a v = with_machine-IsValid m a v

authenticating-IsValid :
    (o : Option Text) (a : Adapter)
    → IsValid a
    → IsValid (record a { credential = o; state = authenticating })
authenticating-IsValid o a v = ground arith

respond-IsValid :
    (o : Option Text) (id proof : Text) (a : Adapter) → IsValid a → IsValid (respond o id proof a).0
respond-IsValid none id proof a v = v
respond-IsValid (some credential) id proof a v = v

pub on_message-IsValid :
    (s : Socket) (message : Option Text) (a : Adapter)
    → IsValid a
    → IsValid (on_message s message a).0
unfolding on_message
on_message-IsValid s message a v = while_owner-IsValid s a _ v λ l. v

pub receive-IsValid :
    (s : Socket) (message : Option Text) (a : Adapter) → IsValid a → IsValid (receive s message a).0
unfolding receive
receive-IsValid s message a v = while_open-IsValid s a _ v (start_receive-IsValid message a v)

pub take_frame-IsValid :
    (s : Socket) (p : Payload) (dated : Bool) (a : Adapter)
    → IsValid a
    → IsValid (take_frame s p dated a).0
unfolding take_frame
take_frame-IsValid s p dated a v =
    while_owner-IsValid s a _ v
      λ l. settle-IsValid (handle p dated a) (handle-IsHandled p dated a l v)

pub save_credential-IsValid :
    (s : Socket) (id secret expiry : Text) (a : Adapter)
    → IsValid a
    → IsValid (save_credential s id secret expiry a).0
unfolding save_credential
save_credential-IsValid s id secret expiry a v = while_owner-IsValid s a _ v λ l. v

pub take_credential-IsValid :
    (s : Socket) (x : Saved) (a : Adapter) → IsValid a → IsValid (take_credential s x a).0
unfolding take_credential
take_credential-IsValid s save_failed a v = v
take_credential-IsValid s not_saved a v = v
take_credential-IsValid s (saved credential) a v =
    while_owner-IsValid s a _ v λ l. authenticating-IsValid (some credential) a v

pub take_proof-IsValid :
    (s : Socket) (id : Text) (proof : Result Text) (late : Bool) (a : Adapter)
    → IsValid a
    → IsValid (take_proof s id proof late a).0
unfolding take_proof
take_proof-IsValid s id (err x) late a v = v
take_proof-IsValid s id (ok proof) true a v = while_owner-IsValid s a _ v λ l. v
take_proof-IsValid s id (ok proof) false a v =
    while_owner-IsValid s a _ v λ l. respond-IsValid a.credential id proof a v

pub response_taken-IsValid : (s : Socket) (a : Adapter) → IsValid a → IsValid (response_taken s a).0
unfolding response_taken
response_taken-IsValid s a v =
    while_owner-IsValid s a _ v λ l. authenticating-IsValid a.credential a v

pub receive_failure-IsValid :
    (s : Socket) (opened : Bool) (failure : Failure) (a : Adapter)
    → IsValid a
    → IsValid (receive_failure s opened failure a).0
unfolding receive_failure
receive_failure-IsValid s opened failure a v =
    while_owner-IsValid s a _ v λ l. handle_send_failure-IsValid opened failure a v

module _ (host : Host) (parse_string : Text → Option Text) (parse : Text → Option Json) where
  pub apply_message-IsValid :
      (s : Socket) (raw : Text) (a : Adapter)
      → IsValid a
      → IsValid (apply_message host parse_string parse s raw a).0
  unfolding apply_message
  apply_message-IsValid s raw a v = while_open-IsValid s a _ v (
      applied-IsValid (apply_text host parse_string parse agent_to_client raw no_context a.machine)
        a v)
