-- ===== src/Machine/Output.antt =====
-- contractMachine.ts: `nextOutputOffset` counts the bytes of terminal output of an open session.
use terminus_web.Prelude.{
  ℕ, ◌+◌, ◌≡◌, refl, inl, inr, ◌∙◌, Bool, true, false, List, [], ◌∷◌, none, Text, Result, ok, err,
  >>=-eq-ok, arith, length,
}
use terminus_web.Json.{Json}
use terminus_web.Codec.Base64.{Bytes, decode_base64url}
use terminus_web.Codec.Frames.{Payload, Frame, type_of}
use terminus_web.Machine.State.{
  Direction, client_to_agent, agent_to_client, SessionState, Machine, Context, Host, expected,
  set_expected,
}
use terminus_web.Machine.Transitions.{Transition, find_transition}
use terminus_web.Machine.Apply.{
  begin_history, advance_history, end_history, advance_output, track_session, take_transition,
  or_keep, apply_frame, apply,
}
use terminus_web.Machine.Outcomes.{bound_to, Passed-of_eq-ok}
use terminus_web.Machine.Runs.{Run, start, accept, refuse, apply-eq-ok, apply-eq-err}

-- The number of bytes that a base64url text stands for.
abbrev pub size_of : Result Bytes → ℕ
size_of (ok bytes) = length bytes
size_of (err v) = 0

unfoldable pub decoded_size : Text → ℕ
decoded_size encoded = size_of (decode_base64url encoded none)

abbrev pub output_size : Payload → ℕ
output_size (Payload.terminal_output id offset encoded) = decoded_size encoded
output_size _ = 0

abbrev pub total_output : List (Direction × Frame) → ℕ
total_output [] = 0
total_output ((d, f) ∷ trace) = total_output trace + output_size f.payload

-- A session that has been opened, also when it is being left.
abbrev pub is_settled : SessionState → Bool
is_settled SessionState.open_ = true
is_settled SessionState.detaching = true
is_settled SessionState.detached = true
is_settled SessionState.closing = true
is_settled SessionState.closed = true
is_settled _ = false

track_session-output :
    (p : Payload) (d : Direction) (m tracked : Machine) (t : Transition)
    → is_settled m.session_state ≡ true
    → find_transition m.connection_state m.session_state d (type_of p) ≡ ok t
    → track_session p m ≡ ok tracked
    → (is_settled (or_keep t.session tracked.session_state) ≡ true)
      × (tracked.next_output_offset ≡ m.next_output_offset + output_size p)
unfolding find_transition type_of track_session begin_history advance_history end_history
    advance_output decoded_size
track_session-output (Payload.history_chunk id offset encoded) d m tracked t s f e =
    let (bytes, _, e') = >>=-eq-ok (decode_base64url encoded none) _ e in ground arith
track_session-output (Payload.terminal_output id offset encoded) d m tracked t s f e =
    let (bytes, decoded, e') = >>=-eq-ok (decode_base64url encoded none) _ e in ground arith
track_session-output _ d m tracked t s f e = ground arith

commit-output :
    (d : Direction) (n : ℕ) (t : Transition) (m : Machine)
    → let m' = take_transition t (set_expected d n m) in
      (m'.session_state ≡ or_keep t.session m.session_state)
      × (m'.next_output_offset ≡ m.next_output_offset)
unfolding take_transition
commit-output client_to_agent n t m = (refl, refl)
commit-output agent_to_client n t m = (refl, refl)

module _ (host : Host) where
  apply_frame-output :
      (d : Direction) (f : Frame) (context : Context) (m : Machine) {g : Frame}
      → is_settled m.session_state ≡ true
      → (apply_frame host d f context m).1 ≡ ok g
      → let m' = (apply_frame host d f context m).0 in
        (is_settled m'.session_state ≡ true)
        × (m'.next_output_offset ≡ m.next_output_offset + output_size f.payload)
  apply_frame-output d f context m s h =
      let p = Passed-of_eq-ok host d f context m h in
      let (settled, offset) =
        track_session-output f.payload d (bound_to f m) p.tracked p.transition s p.found p.tracks in
      let (state, kept) = commit-output d (expected d m + 1) p.transition p.tracked in
      rw p.result (rw state settled, kept ∙ offset)

  -- In every run from an open session the output offset grows by the bytes of the accepted
  -- terminal output, whatever else is sent and whatever is refused, and no frame reopens or
  -- rewinds it.
  pub Run-output :
      {m n : Machine} {trace : List (Direction × Frame)}
      → is_settled m.session_state ≡ true
      → Run host m trace n
      → (is_settled n.session_state ≡ true)
        × (n.next_output_offset ≡ m.next_output_offset + total_output trace)
  Run-output s start = (s, omega arith)
  Run-output s (accept {trace} {n} d input context f r e) =
      let (settled, offset) = Run-output s r in
      let (same, valid) = apply-eq-ok host d input context n e in
      let (settled', offset') = apply_frame-output d f context n settled (rw same at e) in
      rw same (settled', omega (arith, offset, offset'))
  Run-output s (refuse {trace} {n} d input context v r b e) =
      elim (apply-eq-err host d input context n b e) [
        | inl same ↦ rw same (Run-output s r)
        | inr (f, same) ↦ rw same (Run-output s r)
      ]

track_session-offset :
    (id : Text) (offset : ℕ) (encoded : Text) (m : Machine) {tracked : Machine}
    → track_session (Payload.terminal_output id offset encoded) m ≡ ok tracked
    → offset ≡ m.next_output_offset
unfolding track_session advance_output
track_session-offset id offset encoded m h =
    let (bytes, _, e) = >>=-eq-ok (decode_base64url encoded none) _ h in ground arith

-- After any run from an open session, terminal output is accepted only at the offset that counts
-- all the output accepted before: the stream has no gap, no overlap and no repetition.
pub output_is_contiguous :
    (host : Host) {m n : Machine} {trace : List (Direction × Frame)} (d : Direction) (input : Json)
    (context : Context) (f : Frame) (id : Text) (offset : ℕ) (encoded : Text)
    → is_settled m.session_state ≡ true
    → Run host m trace n
    → (apply host d input context n).1 ≡ ok f
    → f.payload ≡ Payload.terminal_output id offset encoded
    → offset ≡ m.next_output_offset + total_output trace
output_is_contiguous host {n} d input context f id offset encoded s r h e =
    let (same, valid) = apply-eq-ok host d input context n h in
    let p = Passed-of_eq-ok host d f context n (rw same at h) in
    track_session-offset id offset encoded (bound_to f n) (rw e at p.tracks)
    ∙ (Run-output host s r).1
