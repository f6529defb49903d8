-- ===== src/Adapter/Methods.antt =====
-- apps/web/terminal/protocolTerminalAdapter.ts: the methods that the page calls, up to their first
-- `await`. What follows an `await` is an event of its own (Adapter/Events).
use terminus_web.Prelude.{
  suc, Bool, true, false, not, ◌&&◌, [], ◌∷◌, ◌++◌, Option, none, some, is_some, Text, text_eq,
  length, ltb, ErrorCode, if◌then◌else◌,
}
use terminus_web.Codec.Base64.{Bytes, encode_base64url}
use terminus_web.Codec.Identifiers.{is_session_id, between}
use terminus_web.Codec.Utf8.{utf8}
use terminus_web.Codec.Frames.{
  Dimensions, Payload, user_request, new_session, max_terminal_input_bytes,
}
use terminus_web.Connect.Endpoint.{Url}
use terminus_web.Recovery.{
  AdapterState, disconnected, connecting, reconnecting, pairing, connected, detaching, closing,
  error,
}
use terminus_web.Adapter.State.{
  Phase, opening, Operation, Adapter, loads_credential, sends, throws, Step, close_socket,
  reject_operation, renewed,
}
use terminus_web.Adapter.Connection.{is_error, is_idle}

abbrev pub refuse : ErrorCode → Adapter → Step
refuse code a = (a, throws (record { code = code; close_code = 1008 }) ∷ [])

abbrev pub or_keep : Option Text → Option Text → Option Text
or_keep none b = b
or_keep (some t) b = some t

abbrev pub is_valid_request : Option Text → Bool
is_valid_request none = true
is_valid_request (some id) = is_session_id id

abbrev pub start_state : Option Text → AdapterState
start_state none = connecting
start_state (some id) = reconnecting

-- `connect` behind the check of the destination.
unfoldable pub start_connect : Option Text → Adapter → Step
unfolding is_session_id
start_connect session a =
    let wanted = or_keep session (or_keep a.requested_session_id a.session_id) in
    let b = record (renewed a) {
      connect_timer = false;
      paste_operation = false;
      error_code = none;
      transport_failure = false;
      loading = false;
    } in
    if not (is_idle a.state)
    then (a, [])
    else if not (is_valid_request wanted)
    then refuse ErrorCode.session_reopen_rejected
        (record b { error_code = some ErrorCode.session_reopen_rejected; state = error })
    else (
      record b { requested_session_id = wanted; state = start_state wanted; loading = true },
      loads_credential ∷ [],
    )

abbrev pub is_endpoint : Text → Option Url → Bool
is_endpoint endpoint none = false
is_endpoint endpoint (some u) = text_eq u.href endpoint

-- `connect`, for the endpoint of the policy.
unfoldable pub connect : (Text → Option Url) → Text → Option Text → Option Text → Adapter → Step
unfolding start_connect text_eq
connect parse_url endpoint none session a = start_connect session a
connect parse_url endpoint (some destination) session a =
    if is_endpoint endpoint (parse_url destination)
    then start_connect session a
    else refuse ErrorCode.origin_rejected a

abbrev pub is_pairing : AdapterState → Bool
is_pairing pairing = true
is_pairing _ = false

-- `pair`
unfoldable pub pair : Text → Adapter → Step
pair pairing_code a =
    if is_pairing a.state
    then (a, sends (Payload.pairing_request pairing_code) ∷ [])
    else refuse ErrorCode.invalid_state a

-- The session of an adapter that is connected.
abbrev pub attached : AdapterState → Option Text → Option Text
attached connected session = session
attached _ session = none

abbrev pub detach_from : Option Text → Adapter → Step
detach_from none a = (a, [])
detach_from (some id) a = (record a { state = detaching }, sends (Payload.detach id) ∷ [])

-- `detach`
unfoldable pub detach : Adapter → Step
detach a = detach_from (attached a.state a.session_id) a

abbrev pub leave : Option Text → Adapter → Step
leave (some id) a =
    (record a { state = closing }, sends (Payload.close_session id user_request) ∷ [])
leave none a = (
  record (renewed a) {
    session_id = none;
    requested_session_id = none;
    new_session_operation = none;
    socket = none;
    loading = false;
    state = disconnected;
  },
  reject_operation a.new_session_operation ErrorCode.invalid_state ++ close_socket a.socket 1000,
)

abbrev pub when_open : Bool → Option Text → Option Text
when_open true session = session
when_open false session = none

-- `disconnect`
unfoldable pub disconnect : Bool → Adapter → Step
disconnect opened a =
    leave (when_open (opened && is_some a.socket) (attached a.state a.session_id))
      (record a { connect_timer = false; heartbeat_timer = false; authorization_timer = false })

abbrev pub is_rejected_reopen : Option ErrorCode → Bool
is_rejected_reopen (some ErrorCode.session_reopen_rejected) = true
is_rejected_reopen _ = false

abbrev pub operation : Phase → Adapter → Adapter
operation phase a = record a {
  new_session_operation = some (record { id = a.next_operation; phase = phase });
  next_operation = suc a.next_operation;
}

-- The explicit recovery from a rejected locator: a separate shell is opened. `connect` is called at
-- once.
unfoldable pub recover : Adapter → Step
unfolding start_connect
recover a =
    let (b, actions) = start_connect none (record (operation opening a) {
      session_id = none;
      requested_session_id = none;
      socket = none;
      state = disconnected;
    }) in
    (b, close_socket a.socket 1000 ++ actions)

abbrev pub replace : Option Text → Option Operation → Adapter → Step
replace (some id) none a = (
  record (operation Phase.closing a) { state = closing },
  sends (Payload.close_session id new_session) ∷ [],
)
replace _ _ a = refuse ErrorCode.invalid_state a

-- `newSession`
unfoldable pub start_new_session : Adapter → Step
unfolding recover
start_new_session a =
    if is_error a.state && is_rejected_reopen a.error_code && not (is_some a.new_session_operation)
    then recover a
    else replace (attached a.state a.session_id) a.new_session_operation a

abbrev pub resize_to : Option Text → Dimensions → Adapter → Step
resize_to none size a = (a, [])
resize_to (some id) size a = (a, sends (Payload.resize id size) ∷ [])

-- `resize`, of integers; anything else is the RangeError, as `none`.
unfoldable pub resize : Dimensions → Adapter → Option Step
resize size a =
    if between 1 1000 size.columns && between 1 1000 size.rows
    then some (resize_to (attached a.state a.session_id) size (record a { viewport = size }))
    else none

abbrev pub input_to : Option Text → Bytes → Adapter → Step
input_to none bytes a = refuse ErrorCode.invalid_state a
input_to (some id) [] a = (a, [])
input_to (some id) (b ∷ bytes) a =
    if ltb max_terminal_input_bytes (length (b ∷ bytes))
    then (a, throws (record { code = ErrorCode.payload_too_large; close_code = 1009 }) ∷ [])
    else (a, sends (Payload.terminal_input id (encode_base64url (b ∷ bytes))) ∷ [])

-- `sendInput`; the Error of a paste that is still being sent is `none`. Control-C ends the paste.
unfoldable pub send_input : Text → Adapter → Option Step
unfolding text_eq utf8 encode_base64url
send_input t a =
    if a.paste_operation && not (text_eq t (3 ∷ []))
    then none
    else some
        (input_to (attached a.state a.session_id) (utf8 t) (record a { paste_operation = false }))
