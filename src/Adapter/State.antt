-- ===== src/Adapter/State.antt =====
-- apps/web/terminal/protocolTerminalAdapter.ts: the fields of the adapter, and what it does to the
-- world.
use terminus_web.Prelude.{
  ℕ, suc, ◌+◌, Bool, false, ◌&&◌, List, [], ◌∷◌, Option, none, some, Text, ErrorCode, Violation,
  leb, ◌==◌, if◌then◌else◌,
}
use terminus_web.Codec.Frames.{Dimensions, Payload, Frame}
use terminus_web.Machine.State.{Machine, new}
use terminus_web.Recovery.{AdapterState, disconnected}

-- A socket with the `ConnectionWork` that it was made under. Objects are numbered.
pub record Socket : Type 0 where
  pub id : ℕ
  pub work : ℕ

-- `NewSessionOperation["phase"]`
pub data Phase : Type 0 where
  closing opening : Phase

-- `NewSessionOperation`, numbered.
pub record Operation : Type 0 where
  pub id : ℕ
  pub phase : Phase

-- `work` is the number of the current ConnectionWork; a new one is the next number. `loading` holds
-- while `connect` waits for the credential of that work.
pub record Adapter : Type 0 where
  pub state : AdapterState
  pub error_code : Option ErrorCode
  pub transport_failure : Bool
  pub viewport : Dimensions
  pub socket : Option Socket
  pub work : ℕ
  pub loading : Bool
  pub machine : Machine
  pub credential : Option Text
  pub connection_id : Option Text
  pub session_id : Option Text
  pub requested_session_id : Option Text
  pub new_session_operation : Option Operation
  pub next_operation : ℕ
  pub connect_timer : Bool
  pub heartbeat_timer : Bool
  pub authorization_timer : Bool
  pub paste_operation : Bool

-- The initial values of the fields.
abbrev pub new_adapter : Adapter
new_adapter = record {
  state = disconnected;
  error_code = none;
  transport_failure = false;
  viewport = record { columns = 80; rows = 24 };
  socket = none;
  work = 0;
  loading = false;
  machine = new;
  credential = none;
  connection_id = none;
  session_id = none;
  requested_session_id = none;
  new_session_operation = none;
  next_operation = 0;
  connect_timer = false;
  heartbeat_timer = false;
  authorization_timer = false;
  paste_operation = false;
}

-- What is done besides the change of the fields, in order. `throws` and `rejects` are the outcome of
-- the method's promise and of that of `connect`; `queues`, `applies`, `handles`, `computes_proof`,
-- `queues_save`, `saves` and `connects` begin what is awaited, and what follows is another event. So
-- is what follows `throws` in a part of `receive`.
pub data Action : Type 0 where
  loads_credential : Action
  opens_socket : Action
  sends : Payload → Action
  queues : (message : Option Text) → Action
  applies : (raw : Text) → Action
  handles : Frame → Action
  computes_proof : (challenge_id challenge : Text) → Action
  queues_save : (credential_id secret expires_at : Text) → Action
  saves : (credential_id secret expires_at : Text) → Action
  connects : Action
  closes : (socket code : ℕ) → Action
  outputs : (encoded : Text) → Action
  flushes_decoder resets_decoder : Action
  remembers : (session_id : Text) (ended : Bool) → Action
  session_ended session_opened session_reopened : Text → Action
  history_begun : Text → Bool → Action
  resolves_new_session : Action
  rejects_new_session : ErrorCode → Action
  rejects_connect : Action
  throws : Violation → Action

abbrev pub Step : Type 0
Step = Adapter × List Action

-- `browserCloseCode`
unfoldable pub browser_close_code : ℕ → ℕ
browser_close_code code =
    if code == 1000 then code else if leb 1000 code && leb code 1999 then code + 3000 else 4000

-- `socket?.close(code, …)`
abbrev pub close_socket : Option Socket → ℕ → List Action
close_socket none code = []
close_socket (some s) code = closes s.id code ∷ []

-- `this.rejectNewSession(violation)`: what is rejected, if there is an operation. The field is then
-- cleared.
abbrev pub reject_operation : Option Operation → ErrorCode → List Action
reject_operation none code = []
reject_operation (some o) code = rejects_new_session code ∷ []

-- `this.socket === socket && this.work === work`, for an event of the socket.
abbrev pub is_current : Option Socket → ℕ → Socket → Bool
is_current none work s = false
is_current (some t) work s = t.id == s.id && t.work == s.work && work == s.work

abbrev pub renewed : Adapter → Adapter
renewed a = record a { work = suc a.work }
