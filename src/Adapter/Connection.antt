-- ===== src/Adapter/Connection.antt =====
-- apps/web/terminal/protocolTerminalAdapter.ts: how a connection comes to its end: `release`,
-- `fail`, `handleSendFailure` and `handleTransportClose`.
use terminus_web.Prelude.{
  Bool, true, false, not, ◌&&◌, ◌||◌, List, [], ◌∷◌, ◌++◌, Option, none, some, is_some, Text,
  ErrorCode, Violation, if◌then◌else◌,
}
use terminus_web.Codec.Frames.{Payload}
use terminus_web.Machine.State.{ConnectionState}
use terminus_web.Recovery.{AdapterState, disconnected, detached, error}
use terminus_web.Adapter.State.{
  Adapter, Action, sends, rejects_connect, Step, browser_close_code, close_socket, reject_operation,
  renewed, Operation,
}

-- The end of `release`, by whether a new session is asked for and whether a session is known.
abbrev pub released : Option Operation → Bool → Adapter → Step
released (some o) known a = (
  record a {
    error_code = some ErrorCode.session_open_failed;
    new_session_operation = none;
    state = error;
  },
  reject_operation (some o) ErrorCode.session_open_failed,
)
released none true a = (record a { state = detached }, [])
released none false a =
    (record a { error_code = some ErrorCode.session_open_failed; state = error }, [])

-- `release`
unfoldable pub release : Adapter → Step
release a =
    let (b, actions) =
      released a.new_session_operation (is_some a.session_id || is_some a.requested_session_id)
        (record (renewed a) {
          connect_timer = false;
          heartbeat_timer = false;
          authorization_timer = false;
          socket = none;
          loading = false;
          transport_failure = true;
        }) in
    (b, rejects_connect ∷ (close_socket a.socket 1000 ++ actions))

abbrev pub is_error : AdapterState → Bool
is_error error = true
is_error _ = false

abbrev pub is_closed : ConnectionState → Bool
is_closed ConnectionState.closed = true
is_closed _ = false

-- The closing of the socket in `fail`, behind the error frame where that can be sent.
abbrev pub farewell : Bool → Adapter → Violation → List Action
farewell true a v =
    sends (Payload.error v.code) ∷ close_socket a.socket (browser_close_code v.close_code)
farewell false a v = close_socket a.socket (browser_close_code v.close_code)

-- `fail`; `opened` is `socket?.readyState === SOCKET_OPEN`.
unfoldable pub fail : Bool → Violation → Adapter → Step
unfolding browser_close_code
fail opened v a = if is_error a.state then (a, []) else (
  record a {
    error_code = some v.code;
    new_session_operation = none;
    heartbeat_timer = false;
    authorization_timer = false;
    state = error;
  },
  reject_operation a.new_session_operation v.code
      ++ farewell (opened && is_some a.socket && not (is_closed a.machine.connection_state)) a v,
)

-- What a call throws: a TerminalTransportError, or a violation after `asProtocolViolation`.
pub data Failure : Type 0 where
  transport : Failure
  violated : Violation → Failure

-- `handleSendFailure`
unfoldable pub handle_send_failure : Bool → Failure → Adapter → Step
unfolding release fail
handle_send_failure opened transport a = release a
handle_send_failure opened (violated v) a = fail opened v a

abbrev pub is_idle : AdapterState → Bool
is_idle disconnected = true
is_idle detached = true
is_idle error = true
is_idle _ = false

abbrev pub dropped : Option Operation → Option Text → Adapter → Step
dropped (some o) session a = (
  record a {
    error_code = some ErrorCode.session_open_failed;
    new_session_operation = none;
    state = error;
  },
  reject_operation (some o) ErrorCode.session_open_failed,
)
dropped none (some session) a = (record a { state = detached }, [])
dropped none none a =
    (record a { error_code = some ErrorCode.session_open_failed; state = error }, [])

-- `handleTransportClose`
unfoldable pub handle_transport_close : Adapter → Step
handle_transport_close a =
    let b = record a { heartbeat_timer = false; authorization_timer = false } in
    if is_idle a.state
    then (b, [])
    else dropped a.new_session_operation a.session_id (record b { transport_failure = true })
