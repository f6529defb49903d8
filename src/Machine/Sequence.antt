-- ===== src/Machine/Sequence.antt =====
-- contractMachine.ts: the order of frames. Each direction's counter admits one number, a throw moves
-- no counter, and a frame that was accepted is refused when it comes again.
use terminus_web.Prelude.{
  ◌+◌, ◌≤◌, ◌<◌, ◌≡◌, ◌∙◌, ◌≢◌, ◌⊎◌, inl, inr, none, some, text_eq_self, ltb, if◌then◌else◌,
  ErrorCode, Violation, ok, err, violation, >>=-eq-ok, arith,
}
use terminus_web.Codec.Base64.{decode_base64url}
use terminus_web.Codec.Frames.{Payload, Frame, max_safe_sequence}
use terminus_web.Machine.State.{
  Direction, client_to_agent, agent_to_client, Machine, Context, Host, expected, set_expected,
  opposite,
}
use terminus_web.Machine.Transitions.{Transition}
use terminus_web.Machine.Apply.{
  bind_connection, check_version, check_sequence, begin_history, advance_history, end_history,
  advance_output, track_session, take_transition, admit_frame, apply_frame,
}
use terminus_web.Machine.Outcomes.{
  bound_to, foreign, refused, exhausted, accepted, apply_frame-Outcome, Passed-of_eq-ok,
}

-- What `validateSessionData` leaves alone.
pub record Keeps (m tracked : Machine) : Type 0 where
  pub client : tracked.next_client ≡ m.next_client
  pub agent : tracked.next_agent ≡ m.next_agent
  pub connection : tracked.connection_id ≡ m.connection_id
  pub connection_state : tracked.connection_state ≡ m.connection_state
  pub session_state : tracked.session_state ≡ m.session_state

pub track_session-Keeps :
    (p : Payload) (m : Machine) {tracked : Machine}
    → track_session p m ≡ ok tracked
    → Keeps m tracked
unfolding track_session begin_history advance_history end_history advance_output
track_session-Keeps (Payload.history_chunk id offset encoded) m h =
    let (bytes, e, h') = >>=-eq-ok (decode_base64url encoded none) _ h in ground arith
track_session-Keeps (Payload.terminal_output id offset encoded) m h =
    let (bytes, e, h') = >>=-eq-ok (decode_base64url encoded none) _ h in ground arith
track_session-Keeps _ m h = ground arith

-- The counters and the connection behind an accepted frame.
abbrev pub Advances : Direction → Frame → Machine → Machine → Type 0
Advances d f m m' =
    (f.sequence ≡ expected d m)
    × (expected d m' ≡ expected d m + 1)
    × (expected d m' ≤ max_safe_sequence)
    × (expected (opposite d) m' ≡ expected (opposite d) m)
    × (m'.connection_id ≡ some f.connection_id)

commit-Advances :
    (d : Direction) (f : Frame) (m tracked : Machine) (t : Transition)
    → f.sequence ≡ expected d m
    → expected d m < max_safe_sequence
    → Keeps (bound_to f m) tracked
    → Advances d f m (take_transition t (set_expected d (expected d m + 1) tracked))
unfolding take_transition
commit-Advances client_to_agent f m tracked t e b k = ground arith
commit-Advances agent_to_client f m tracked t e b k = ground arith

module _ (host : Host) (d : Direction) (f : Frame) (context : Context) (m : Machine) where
  -- An accepted frame bears the number that its direction expects; it moves that counter by one,
  -- within the safe integers, leaves the other counter alone and has the machine's connection.
  pub apply_frame-Advances :
      {g : Frame}
      → (apply_frame host d f context m).1 ≡ ok g
      → Advances d f m (apply_frame host d f context m).0
  apply_frame-Advances h =
      let p = Passed-of_eq-ok host d f context m h in
      rw p.result (
        commit-Advances d f m p.tracked p.transition p.in_order p.room
          (track_session-Keeps f.payload (bound_to f m) p.tracks))

  -- A frame that is refused, other than for a used-up counter, changes nothing but an unknown
  -- connection, which it fixes.
  pub refused_keeps :
      {v : Violation}
      → expected d m < max_safe_sequence
      → (apply_frame host d f context m).1 ≡ err v
      → ((apply_frame host d f context m).0 ≡ m)
        ⊎ (m.connection_id ≡ none) × ((apply_frame host d f context m).0 ≡ bound_to f m)
  refused_keeps b h = elim (apply_frame-Outcome host d f context m) [
    | foreign e ↦ inl (rw e)
    | refused x (inl fresh) e ↦ inr (fresh, rw e)
    | refused x (inr known) e ↦ inl (rw e (ground arith))
    | exhausted t tracked found et full e ↦ absurd (omega arith)
    | accepted p ↦ cc (p.result, h)
  ]

-- A frame of the machine's connection that bears another number than the expected one is refused
-- as a replay if it is too low and as a gap if it is too high, and the machine stays as it was.
pub out_of_order :
    (host : Host) (d : Direction) (f : Frame) (context : Context) (m : Machine)
    → m.connection_id ≡ some f.connection_id
    → check_version f.payload ≡ ok tt
    → f.sequence ≢ expected d m
    → apply_frame host d f context m ≡ (
      m,
      violation
          (if ltb f.sequence (expected d m)
            then ErrorCode.sequence_replay
            else ErrorCode.sequence_gap)
          1008,
    )
unfolding apply_frame admit_frame bind_connection check_sequence
out_of_order host d f context m known version other =
    rw (known, text_eq_self, version) (ground arith)

-- A frame that was accepted is refused as a replay when it comes again at once, in any context, and
-- the machine stays as it was.
pub replay_refused :
    (host : Host) (d : Direction) (f : Frame) (context later : Context) (m : Machine) {g : Frame}
    → (apply_frame host d f context m).1 ≡ ok g
    → let m' = (apply_frame host d f context m).0 in
      apply_frame host d f later m' ≡ (m', violation ErrorCode.sequence_replay 1008)
replay_refused host d f context later m h =
    let (number, next, bound, other, known) = apply_frame-Advances host d f context m h in
    let p = Passed-of_eq-ok host d f context m h in
    let m' = (apply_frame host d f context m).0 in
    out_of_order host d f later m' known p.version (omega arith) ∙ ground arith
