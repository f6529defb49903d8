-- ===== src/Machine/Graph.antt =====
-- The protocol's graph, as a relation that is independent of the tables: what may happen in which
-- states of connection and session, and the states that follow.
use terminus_web.Prelude.{
  ℕ, ◌≡◌, refl, ◌≢◌, Bool, true, false, Option, some, Option-cases, Bool-cases, inl, inr, Result,
  ok, subst,
}
use terminus_web.Codec.Frames.{MessageType, Frame, type_of}
use terminus_web.Machine.State.{
  Direction, client_to_agent, agent_to_client, ConnectionState, SessionState, Machine, Context,
  Host, set_expected,
}
use terminus_web.Machine.Transitions.{
  Transition, connection_transition, ready_transition, session_transition, is_error_transition,
  no_transition, find_transition,
}
use terminus_web.Machine.Apply.{or_keep, take_transition, apply_frame}
use terminus_web.Machine.Outcomes.{bound_to, Passed-of_eq-ok}
use terminus_web.Machine.Sequence.{track_session-Keeps}

pub data Edge
    : ConnectionState
      → SessionState
      → Direction
      → MessageType
      → ConnectionState
      → SessionState
      → Type 0 where
  fail :
      {c : ConnectionState} {s : SessionState} {d : Direction}
      → c ≢ ConnectionState.closed
      → Edge c s d MessageType.error ConnectionState.closing s
  say_hello :
      {s : SessionState}
      → Edge ConnectionState.fresh s client_to_agent MessageType.hello ConnectionState.negotiating s
  greet :
      {s : SessionState}
      → Edge ConnectionState.negotiating s agent_to_client MessageType.hello_ack
          ConnectionState.unauthenticated s
  ask_pairing :
      {s : SessionState}
      → Edge ConnectionState.unauthenticated s client_to_agent MessageType.pairing_request
          ConnectionState.pairing s
  pair :
      {s : SessionState}
      → Edge ConnectionState.pairing s agent_to_client MessageType.pairing_result
          ConnectionState.unauthenticated s
  challenge :
      {s : SessionState}
      → Edge ConnectionState.unauthenticated s agent_to_client MessageType.auth_challenge
          ConnectionState.challenged s
  respond :
      {s : SessionState}
      → Edge ConnectionState.challenged s client_to_agent MessageType.auth_response
          ConnectionState.proving s
  authenticate :
      {s : SessionState}
      → Edge ConnectionState.proving s agent_to_client MessageType.auth_result ConnectionState.ready
          s
  beat :
      {s : SessionState} {d : Direction}
      → Edge ConnectionState.ready s d MessageType.heartbeat ConnectionState.ready s
  ask_session :
      Edge ConnectionState.ready SessionState.absent client_to_agent MessageType.open_session
        ConnectionState.ready SessionState.opening
  give_session :
      Edge ConnectionState.ready SessionState.opening agent_to_client MessageType.session_opened
        ConnectionState.ready SessionState.open_
  ask_again :
      Edge ConnectionState.ready SessionState.absent client_to_agent MessageType.reopen_session
        ConnectionState.ready SessionState.reopening
  give_again :
      Edge ConnectionState.ready SessionState.reopening agent_to_client MessageType.session_reopened
        ConnectionState.ready SessionState.replaying
  begin_replay :
      Edge ConnectionState.ready SessionState.replaying agent_to_client MessageType.history_begin
        ConnectionState.ready SessionState.replaying
  replay :
      Edge ConnectionState.ready SessionState.replaying agent_to_client MessageType.history_chunk
        ConnectionState.ready SessionState.replaying
  end_replay :
      Edge ConnectionState.ready SessionState.replaying agent_to_client MessageType.history_end
        ConnectionState.ready SessionState.open_
  type_in :
      Edge ConnectionState.ready SessionState.open_ client_to_agent MessageType.terminal_input
        ConnectionState.ready SessionState.open_
  print_out :
      Edge ConnectionState.ready SessionState.open_ agent_to_client MessageType.terminal_output
        ConnectionState.ready SessionState.open_
  change_size :
      Edge ConnectionState.ready SessionState.open_ client_to_agent MessageType.resize
        ConnectionState.ready SessionState.open_
  ask_detach :
      Edge ConnectionState.ready SessionState.open_ client_to_agent MessageType.detach
        ConnectionState.ready SessionState.detaching
  confirm_detach :
      Edge ConnectionState.ready SessionState.detaching agent_to_client MessageType.session_detached
        ConnectionState.ready SessionState.detached
  ask_close :
      Edge ConnectionState.ready SessionState.open_ client_to_agent MessageType.close_session
        ConnectionState.ready SessionState.closing
  confirm_close :
      Edge ConnectionState.ready SessionState.closing agent_to_client MessageType.session_closed
        ConnectionState.ready SessionState.closed
  close_itself :
      Edge ConnectionState.ready SessionState.open_ agent_to_client MessageType.session_closed
        ConnectionState.ready SessionState.closed

-- The states behind a transition.
abbrev Leads : ConnectionState → SessionState → Direction → MessageType → Transition → Type 0
Leads c s d ty t = Edge c s d ty (or_keep t.connection c) (or_keep t.session s)

-- The same edge, for the transition that a table or a result is known to hold.
module _ {c : ConnectionState} {s : SessionState} {d : Direction} {ty : MessageType} where
  some-Leads :
      {t u : Transition}
      → ◌≡◌ {A = Option Transition} (some t) (some u)
      → Leads c s d ty t
      → Leads c s d ty u
  some-Leads {t} {u} e l = let same : t ≡ u = cc e in subst (Leads c s d ty) same l

  ok-Leads :
      {t u : Transition}
      → ◌≡◌ {A = Result Transition} (ok t) (ok u)
      → Leads c s d ty t
      → Leads c s d ty u
  ok-Leads {t} {u} e l = let same : t ≡ u = cc e in subst (Leads c s d ty) same l

no_transition-ne-ok : (b : Bool) {t : Transition} → no_transition b ≢ ok t
no_transition-ne-ok true = cc
no_transition-ne-ok false = cc

connection_transition-Leads :
    (c : ConnectionState) (s : SessionState) (d : Direction) (ty : MessageType) {t : Transition}
    → connection_transition c d ty ≡ some t
    → Leads c s d ty t
unfolding connection_transition
connection_transition-Leads ConnectionState.fresh s client_to_agent MessageType.hello h =
    some-Leads h say_hello
connection_transition-Leads ConnectionState.negotiating s agent_to_client MessageType.hello_ack h =
    some-Leads h greet
connection_transition-Leads ConnectionState.unauthenticated s client_to_agent
      MessageType.pairing_request h =
    some-Leads h ask_pairing
connection_transition-Leads ConnectionState.pairing s agent_to_client MessageType.pairing_result h =
    some-Leads h pair
connection_transition-Leads ConnectionState.unauthenticated s agent_to_client
      MessageType.auth_challenge h =
    some-Leads h challenge
connection_transition-Leads ConnectionState.challenged s client_to_agent MessageType.auth_response
      h =
    some-Leads h respond
connection_transition-Leads ConnectionState.proving s agent_to_client MessageType.auth_result h =
    some-Leads h authenticate
connection_transition-Leads ConnectionState.ready s client_to_agent MessageType.heartbeat h =
    some-Leads h beat
connection_transition-Leads ConnectionState.ready s agent_to_client MessageType.heartbeat h =
    some-Leads h beat
connection_transition-Leads _ s _ _ h = cc h

ready_transition-Leads :
    (s : SessionState) (d : Direction) (ty : MessageType) {t : Transition}
    → ready_transition s d ty ≡ some t
    → Leads ConnectionState.ready s d ty t
unfolding ready_transition
ready_transition-Leads SessionState.absent client_to_agent MessageType.open_session h =
    some-Leads h ask_session
ready_transition-Leads SessionState.opening agent_to_client MessageType.session_opened h =
    some-Leads h give_session
ready_transition-Leads SessionState.absent client_to_agent MessageType.reopen_session h =
    some-Leads h ask_again
ready_transition-Leads SessionState.reopening agent_to_client MessageType.session_reopened h =
    some-Leads h give_again
ready_transition-Leads SessionState.replaying agent_to_client MessageType.history_begin h =
    some-Leads h begin_replay
ready_transition-Leads SessionState.replaying agent_to_client MessageType.history_chunk h =
    some-Leads h replay
ready_transition-Leads SessionState.replaying agent_to_client MessageType.history_end h =
    some-Leads h end_replay
ready_transition-Leads SessionState.open_ client_to_agent MessageType.terminal_input h =
    some-Leads h type_in
ready_transition-Leads SessionState.open_ agent_to_client MessageType.terminal_output h =
    some-Leads h print_out
ready_transition-Leads SessionState.open_ client_to_agent MessageType.resize h =
    some-Leads h change_size
ready_transition-Leads SessionState.open_ client_to_agent MessageType.detach h =
    some-Leads h ask_detach
ready_transition-Leads SessionState.detaching agent_to_client MessageType.session_detached h =
    some-Leads h confirm_detach
ready_transition-Leads SessionState.open_ client_to_agent MessageType.close_session h =
    some-Leads h ask_close
ready_transition-Leads SessionState.closing agent_to_client MessageType.session_closed h =
    some-Leads h confirm_close
ready_transition-Leads SessionState.open_ agent_to_client MessageType.session_closed h =
    some-Leads h close_itself
ready_transition-Leads _ _ _ h = cc h

session_transition-Leads :
    (c : ConnectionState) (s : SessionState) (d : Direction) (ty : MessageType) {t : Transition}
    → session_transition c s d ty ≡ some t
    → Leads c s d ty t
unfolding session_transition
session_transition-Leads ConnectionState.ready s d ty h = ready_transition-Leads s d ty h
session_transition-Leads _ s d ty h = cc h

error-Leads :
    (c : ConnectionState) (s : SessionState) (d : Direction) (ty : MessageType)
    → is_error_transition c ty ≡ true
    → Edge c s d ty ConnectionState.closing s
error-Leads ConnectionState.closed s d ty h = cc h
error-Leads c s d MessageType.error h = fail (λ e. cc e)
error-Leads c s d ty h = cc h

find_transition-Leads :
    (c : ConnectionState) (s : SessionState) (d : Direction) (ty : MessageType) {t : Transition}
    → find_transition c s d ty ≡ ok t
    → Leads c s d ty t
unfolding find_transition
find_transition-Leads c s d ty h = elim (Bool-cases (is_error_transition c ty)) [
  | inl e ↦ ok-Leads (rw e at h) (error-Leads c s d ty e)
  | inr e ↦ elim (Option-cases (connection_transition c d ty)) [
    | inr (u, found) ↦ ok-Leads (rw (e, found) at h) (connection_transition-Leads c s d ty found)
    | inl missed ↦ elim (Option-cases (session_transition c s d ty)) [
      | inr (u, found) ↦
          ok-Leads (rw (e, missed, found) at h) (session_transition-Leads c s d ty found)
      | inl none_left ↦ absurd (no_transition-ne-ok _ (rw (e, missed, none_left) at h))
    ]
  ]
]

set_expected-connection_state :
    (d : Direction) (n : ℕ) (m : Machine)
    → (set_expected d n m).connection_state ≡ m.connection_state
set_expected-connection_state client_to_agent n m = refl
set_expected-connection_state agent_to_client n m = refl

set_expected-session_state :
    (d : Direction) (n : ℕ) (m : Machine) → (set_expected d n m).session_state ≡ m.session_state
set_expected-session_state client_to_agent n m = refl
set_expected-session_state agent_to_client n m = refl

-- Every accepted frame follows an edge of the protocol's graph, from the states before it to the
-- states behind it.
pub apply_frame-Edge :
    (host : Host) (d : Direction) (f : Frame) (context : Context) (m : Machine) {g : Frame}
    → (apply_frame host d f context m).1 ≡ ok g
    → let m' = (apply_frame host d f context m).0 in
      Edge m.connection_state m.session_state d
        (type_of f.payload)
        m'.connection_state
        m'.session_state
unfolding take_transition
apply_frame-Edge host d f context m h =
    let p = Passed-of_eq-ok host d f context m h in
    let k = track_session-Keeps f.payload (bound_to f m) p.tracks in
    rw
      (
        p.result, set_expected-connection_state, set_expected-session_state, k.connection_state,
        k.session_state,
      )
      (find_transition-Leads m.connection_state m.session_state d (type_of f.payload) p.found)
