-- ===== src/Machine/Invariant.antt =====
-- What holds of the machine between two frames.
use terminus_web.Prelude.{
  ℕ, ◌≤◌, ◌≡◌, ◌⊎◌, Bool, true, false, Option, none, some, is_some, ok, >>=-eq-ok, arith,
}
use terminus_web.Codec.Base64.{decode_base64url}
use terminus_web.Codec.Frames.{Payload, type_of, max_safe_sequence}
use terminus_web.Machine.State.{
  Direction, ConnectionState, SessionState, History, Machine, new, set_expected,
}
use terminus_web.Codec.WellFormed.{IsWellFormed}
use terminus_web.Machine.Transitions.{Transition, find_transition}
use terminus_web.Machine.Apply.{
  track_session, begin_history, advance_history, end_history, advance_output, take_transition,
}

-- A replay in progress lies within what is announced, and ends where the output goes on.
abbrev pub ValidHistory : Option History → ℕ → Type 0
ValidHistory none next = Unit
ValidHistory (some h) next = (h.begun ≡ true) × (h.cursor ≤ h.end_offset) × (h.end_offset ≡ next)

-- The session states in which the session has a name.
abbrev pub is_named : SessionState → Bool
is_named SessionState.absent = false
is_named SessionState.opening = false
is_named SessionState.reopening = false
is_named _ = true

abbrev pub is_absent : SessionState → Bool
is_absent SessionState.absent = true
is_absent _ = false

pub record IsValid (m : Machine) : Type 0 where
  pub client_bound : m.next_client ≤ max_safe_sequence
  pub agent_bound : m.next_agent ≤ max_safe_sequence
  pub output_bound : m.next_output_offset ≤ max_safe_sequence
  pub history_valid : ValidHistory m.history m.next_output_offset
  pub history_replaying : is_some m.history ≡ true → m.session_state ≡ SessionState.replaying
  pub session_named : is_named m.session_state ≡ true → is_some m.session_id ≡ true
  pub session_ready :
      is_absent m.session_state ≡ false
      → (m.connection_state ≡ ConnectionState.ready)
        ⊎ (m.connection_state ≡ ConnectionState.closing)

-- The offsets of a checked payload are safe integers.
abbrev pub InRange : Payload → Type 0
InRange (Payload.history_begin id start finish truncated) =
    (start ≤ max_safe_sequence) × (finish ≤ max_safe_sequence)
InRange (Payload.history_chunk id offset encoded) = offset ≤ max_safe_sequence
InRange (Payload.history_end id finish) = finish ≤ max_safe_sequence
InRange (Payload.terminal_output id offset encoded) = offset ≤ max_safe_sequence
InRange _ = Unit

-- The state in which a frame leaves the machine that is accepted.
pub commit-IsValid :
    (p : Payload) (d : Direction) (m tracked : Machine) (t : Transition) (n : ℕ)
    → IsValid m
    → InRange p
    → find_transition m.connection_state m.session_state d (type_of p) ≡ ok t
    → track_session p m ≡ ok tracked
    → n ≤ max_safe_sequence
    → IsValid (take_transition t (set_expected d n tracked))
unfolding find_transition type_of track_session take_transition begin_history advance_history
    end_history advance_output
commit-IsValid (Payload.history_chunk id offset encoded) d m tracked t n v r f e b =
    let (bytes, _, e') = >>=-eq-ok (decode_base64url encoded none) _ e in ground arith
commit-IsValid (Payload.terminal_output id offset encoded) d m tracked t n v r f e b =
    let (bytes, _, e') = >>=-eq-ok (decode_base64url encoded none) _ e in ground arith
commit-IsValid _ d m tracked t n v r f e b = ground arith

-- The state in which a frame leaves the machine whose counter is used up.
pub track-IsValid :
    (p : Payload) (d : Direction) (m tracked : Machine) (t : Transition)
    → IsValid m
    → InRange p
    → find_transition m.connection_state m.session_state d (type_of p) ≡ ok t
    → track_session p m ≡ ok tracked
    → IsValid tracked
unfolding find_transition type_of track_session begin_history advance_history end_history
    advance_output
track-IsValid (Payload.history_chunk id offset encoded) d m tracked t v r f e =
    let (bytes, _, e') = >>=-eq-ok (decode_base64url encoded none) _ e in ground arith
track-IsValid (Payload.terminal_output id offset encoded) d m tracked t v r f e =
    let (bytes, _, e') = >>=-eq-ok (decode_base64url encoded none) _ e in ground arith
track-IsValid _ d m tracked t v r f e = ground arith

pub InRange-of_IsWellFormed : (p : Payload) → IsWellFormed p → InRange p
InRange-of_IsWellFormed (Payload.history_begin id start finish truncated) h = (h.1, h.2)
InRange-of_IsWellFormed (Payload.history_chunk id offset encoded) h = h.1
InRange-of_IsWellFormed (Payload.history_end id finish) h = h.1
InRange-of_IsWellFormed (Payload.terminal_output id offset encoded) h = h.1
InRange-of_IsWellFormed _ h = tt

-- A machine made with no argument is valid.
pub new-IsValid : IsValid new
new-IsValid = ground arith
