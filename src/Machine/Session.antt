-- ===== src/Machine/Session.antt =====
-- contractMachine.ts: what the terminal's own frames need, and what follows a failure.
use terminus_web.Prelude.{
  ◌≡◌, refl, ◌∙◌, Bool, true, false, not, Option, none, some, is_some, Text, text_eq_iff, ErrorCode,
  ok, require, arith,
}
use terminus_web.Codec.Frames.{MessageType, Payload, Frame, type_of}
use terminus_web.Machine.State.{
  Direction, client_to_agent, agent_to_client, ConnectionState, SessionState, Machine, Context,
  Host,
}
use terminus_web.Machine.Transitions.{Transition, find_transition}
use terminus_web.Machine.Apply.{check_session, differ, apply_frame}
use terminus_web.Machine.Invariant.{IsValid}
use terminus_web.Machine.Outcomes.{Passed-of_eq-ok}

-- The session of a frame that works on an open session, and the direction in which it goes.
abbrev pub works_on : Payload → Option (Direction × Text)
works_on (Payload.terminal_input id encoded) = some (client_to_agent, id)
works_on (Payload.terminal_output id offset encoded) = some (agent_to_client, id)
works_on (Payload.resize id dimensions) = some (client_to_agent, id)
works_on (Payload.detach id) = some (client_to_agent, id)
works_on (Payload.close_session id reason) = some (client_to_agent, id)
works_on _ = none

works_on-states :
    (p : Payload) (d e : Direction) (m : Machine) (id : Text) (t : Transition)
    → works_on p ≡ some (e, id)
    → find_transition m.connection_state m.session_state d (type_of p) ≡ ok t
    → (d ≡ e)
      × (m.connection_state ≡ ConnectionState.ready)
      × (m.session_state ≡ SessionState.open_)
unfolding find_transition type_of
works_on-states (Payload.terminal_input x encoded) d e m id t w f = ground arith
works_on-states _ d e m id t w f = ground arith

same_session :
    (o : Option Text) (id : Text)
    → is_some o ≡ true
    → require (not (differ o (some id))) ErrorCode.output_offset_invalid 1008 ≡ ok tt
    → o ≡ some id
same_session none id k h = cc
same_session (some a) id k h = ground (arith, text_eq_iff id a)

works_on-session :
    (p : Payload) (e : Direction) (o : Option Text) (id : Text)
    → works_on p ≡ some (e, id)
    → is_some o ≡ true
    → check_session o p ≡ ok tt
    → o ≡ some id
unfolding check_session
works_on-session (Payload.terminal_input x encoded) e o id w k c = same_session o x k c ∙ cc
works_on-session (Payload.terminal_output x offset encoded) e o id w k c = same_session o x k c ∙ cc
works_on-session (Payload.resize x dimensions) e o id w k c = same_session o x k c ∙ cc
works_on-session (Payload.detach x) e o id w k c = same_session o x k c ∙ cc
works_on-session (Payload.close_session x reason) e o id w k c = same_session o x k c ∙ cc
works_on-session _ e o id w k c = cc

-- On a valid machine, terminal input, terminal output, a resize, a detach and a close are accepted
-- only in their own direction, on a ready connection with an open session, and only for the very
-- session that is open.
pub works_on_open_session :
    (host : Host) (d e : Direction) (f : Frame) (context : Context) (m : Machine) (id : Text)
    {g : Frame}
    → IsValid m
    → works_on f.payload ≡ some (e, id)
    → (apply_frame host d f context m).1 ≡ ok g
    → (d ≡ e)
      × (m.connection_state ≡ ConnectionState.ready)
      × (m.session_state ≡ SessionState.open_)
      × (m.session_id ≡ some id)
works_on_open_session host d e f context m id v w h =
    let p = Passed-of_eq-ok host d f context m h in
    let (way, ready, opened) = works_on-states f.payload d e m id p.transition w p.found in
    let named : is_some m.session_id ≡ true = v.session_named (rw opened refl) in
    (way, ready, opened, works_on-session f.payload e m.session_id id w named p.session_ok)

-- The connection is over: it failed, or was made closed.
abbrev pub is_over : ConnectionState → Bool
is_over ConnectionState.closing = true
is_over ConnectionState.closed = true
is_over _ = false

over_admits_errors :
    (c : ConnectionState) (s : SessionState) (d : Direction) (ty : MessageType) {t : Transition}
    → is_over c ≡ true
    → find_transition c s d ty ≡ ok t
    → (c ≡ ConnectionState.closing) × (ty ≡ MessageType.error)
unfolding find_transition
over_admits_errors ConnectionState.closing s d ty o h = ground arith
over_admits_errors _ s d ty o h = ground arith

-- Once a connection is closing or closed, no frame is accepted but a further error on a closing one.
pub over_is_final :
    (host : Host) (d : Direction) (f : Frame) (context : Context) (m : Machine) {g : Frame}
    → is_over m.connection_state ≡ true
    → (apply_frame host d f context m).1 ≡ ok g
    → (m.connection_state ≡ ConnectionState.closing) × (type_of f.payload ≡ MessageType.error)
over_is_final host d f context m o h =
    let p = Passed-of_eq-ok host d f context m h in
    over_admits_errors m.connection_state m.session_state d (type_of f.payload) o p.found
