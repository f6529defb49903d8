-- ===== src/Machine/Transitions.antt =====
-- apps/web/protocol/contractMachine.ts: the two transition tables and `findTransition`.
use terminus_web.Prelude.{
  Bool, true, false, ◌||◌, Option, none, some, is_some, if◌then◌else◌, ErrorCode, Result, ok,
  violation,
}
use terminus_web.Codec.Frames.{MessageType}
use terminus_web.Machine.State.{
  Direction, client_to_agent, agent_to_client, ConnectionState, SessionState, opposite,
}

-- `Transition`: what a transition sets.
pub record Transition : Type 0 where
  pub connection : Option ConnectionState
  pub session : Option SessionState

abbrev pub to_connection : ConnectionState → Transition
to_connection c = record { connection = some c; session = none }

abbrev pub to_session : SessionState → Transition
to_session s = record { connection = none; session = some s }

-- `connectionTransitions`
unfoldable pub connection_transition : ConnectionState → Direction → MessageType → Option Transition
connection_transition ConnectionState.fresh client_to_agent MessageType.hello =
    some (to_connection ConnectionState.negotiating)
connection_transition ConnectionState.negotiating agent_to_client MessageType.hello_ack =
    some (to_connection ConnectionState.unauthenticated)
connection_transition ConnectionState.unauthenticated client_to_agent MessageType.pairing_request =
    some (to_connection ConnectionState.pairing)
connection_transition ConnectionState.pairing agent_to_client MessageType.pairing_result =
    some (to_connection ConnectionState.unauthenticated)
connection_transition ConnectionState.unauthenticated agent_to_client MessageType.auth_challenge =
    some (to_connection ConnectionState.challenged)
connection_transition ConnectionState.challenged client_to_agent MessageType.auth_response =
    some (to_connection ConnectionState.proving)
connection_transition ConnectionState.proving agent_to_client MessageType.auth_result =
    some (to_connection ConnectionState.ready)
connection_transition ConnectionState.ready client_to_agent MessageType.heartbeat =
    some (to_connection ConnectionState.ready)
connection_transition ConnectionState.ready agent_to_client MessageType.heartbeat =
    some (to_connection ConnectionState.ready)
connection_transition _ _ _ = none

-- The rows of `sessionTransitions`, all of which begin with `READY`.
unfoldable pub ready_transition : SessionState → Direction → MessageType → Option Transition
ready_transition SessionState.absent client_to_agent MessageType.open_session =
    some (to_session SessionState.opening)
ready_transition SessionState.opening agent_to_client MessageType.session_opened =
    some (to_session SessionState.open_)
ready_transition SessionState.absent client_to_agent MessageType.reopen_session =
    some (to_session SessionState.reopening)
ready_transition SessionState.reopening agent_to_client MessageType.session_reopened =
    some (to_session SessionState.replaying)
ready_transition SessionState.replaying agent_to_client MessageType.history_begin =
    some (to_session SessionState.replaying)
ready_transition SessionState.replaying agent_to_client MessageType.history_chunk =
    some (to_session SessionState.replaying)
ready_transition SessionState.replaying agent_to_client MessageType.history_end =
    some (to_session SessionState.open_)
ready_transition SessionState.open_ client_to_agent MessageType.terminal_input =
    some (to_session SessionState.open_)
ready_transition SessionState.open_ agent_to_client MessageType.terminal_output =
    some (to_session SessionState.open_)
ready_transition SessionState.open_ client_to_agent MessageType.resize =
    some (to_session SessionState.open_)
ready_transition SessionState.open_ client_to_agent MessageType.detach =
    some (to_session SessionState.detaching)
ready_transition SessionState.detaching agent_to_client MessageType.session_detached =
    some (to_session SessionState.detached)
ready_transition SessionState.open_ client_to_agent MessageType.close_session =
    some (to_session SessionState.closing)
ready_transition SessionState.closing agent_to_client MessageType.session_closed =
    some (to_session SessionState.closed)
ready_transition SessionState.open_ agent_to_client MessageType.session_closed =
    some (to_session SessionState.closed)
ready_transition _ _ _ = none

-- `sessionTransitions`
unfoldable pub session_transition :
    ConnectionState → SessionState → Direction → MessageType → Option Transition
unfolding ready_transition
session_transition ConnectionState.ready s d t = ready_transition s d t
session_transition _ s d t = none

-- The tables in their order: `connectionTransitions` first.
abbrev pub table_transition :
    ConnectionState → SessionState → Direction → MessageType → Option Transition
table_transition c s d t = elim (connection_transition c d t) [
  | none ↦ session_transition c s d t
  | some found ↦ some found
]

-- `type === "error" && this.snapshot.connectionState !== "CLOSED"`
abbrev pub is_error_transition : ConnectionState → MessageType → Bool
is_error_transition ConnectionState.closed t = false
is_error_transition _ MessageType.error = true
is_error_transition _ _ = false

-- What `findTransition` throws when the tables hold no row.
abbrev pub no_transition : Bool → Result Transition
no_transition true = violation ErrorCode.direction_violation 1008
no_transition false = violation ErrorCode.invalid_state 1008

unfoldable pub find_transition :
    ConnectionState → SessionState → Direction → MessageType → Result Transition
unfolding connection_transition session_transition
find_transition c s d t =
    if is_error_transition c t
    then ok (to_connection ConnectionState.closing)
    else elim (table_transition c s d t) [
      | some found ↦ ok found
      | none ↦ no_transition (
          is_some (connection_transition c (opposite d) t)
          || is_some (session_transition c s (opposite d) t))
    ]
