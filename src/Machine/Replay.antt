-- ===== src/Machine/Replay.antt =====
-- contractMachine.ts: the replay of a reopened session's history, from `history_begin` to
-- `history_end`.
use terminus_web.Prelude.{
  ℕ, ◌+◌, ◌≡◌, refl, inl, inr, ◌∙◌, Bool, true, false, List, [], ◌∷◌, none, some, Text, ok,
  >>=-eq-ok, arith,
}
use native.Mathlib.Nat.{add_assoc, add-zero}
use terminus_web.Json.{Json}
use terminus_web.Codec.Base64.{decode_base64url}
use terminus_web.Codec.Frames.{MessageType, Payload, Frame, type_of}
use terminus_web.Machine.State.{
  Direction, client_to_agent, agent_to_client, SessionState, Machine, Context, Host, expected,
  set_expected,
}
use terminus_web.Machine.Transitions.{Transition, find_transition}
use terminus_web.Machine.Apply.{
  begin_history, advance_history, end_history, advance_output, track_session, take_transition,
  or_keep, apply_frame, apply,
}
use terminus_web.Machine.Outcomes.{bound_to, Passed-of_eq-ok}
use terminus_web.Machine.Output.{decoded_size}
use terminus_web.Machine.Runs.{Run, start, accept, refuse, apply-eq-ok, apply-eq-err}

abbrev pub replay_size : Payload → ℕ
replay_size (Payload.history_chunk id offset encoded) = decoded_size encoded
replay_size _ = 0

abbrev pub total_replay : List (Direction × Frame) → ℕ
total_replay [] = 0
total_replay ((d, f) ∷ trace) = total_replay trace + replay_size f.payload

abbrev pub is_boundary : Payload → Bool
is_boundary (Payload.history_begin id first finish truncated) = true
is_boundary (Payload.history_end id finish) = true
is_boundary _ = false

-- No replay begins or ends.
abbrev pub IsWithin : List (Direction × Frame) → Type 0
IsWithin [] = Unit
IsWithin ((d, f) ∷ trace) = (is_boundary f.payload ≡ false) × IsWithin trace

-- A replay from `first` to `finish` of which `size` bytes have come.
abbrev pub IsReplaying : ℕ → ℕ → Machine → Type 0
IsReplaying cursor finish m =
    (m.session_state ≡ SessionState.replaying)
    × (m.history ≡ some (record { begun = true; cursor = cursor; end_offset = finish }))

track_session-replay :
    (p : Payload) (d : Direction) (m tracked : Machine) (t : Transition) (cursor finish : ℕ)
    → IsReplaying cursor finish m
    → is_boundary p ≡ false
    → find_transition m.connection_state m.session_state d (type_of p) ≡ ok t
    → track_session p m ≡ ok tracked
    → (or_keep t.session tracked.session_state ≡ SessionState.replaying)
      × (tracked.history
          ≡ some (record { begun = true; cursor = cursor + replay_size p; end_offset = finish }))
unfolding find_transition type_of track_session advance_history advance_output decoded_size
track_session-replay (Payload.history_chunk id offset encoded) d m tracked t cursor finish s b f e =
    let (bytes, decoded, e') = >>=-eq-ok (decode_base64url encoded none) _ e in ground arith
track_session-replay (Payload.terminal_output id offset encoded) d m tracked t cursor finish s b f
      e =
    let (bytes, decoded, e') = >>=-eq-ok (decode_base64url encoded none) _ e in ground arith
track_session-replay _ d m tracked t cursor finish s b f e = ground arith

commit-replay :
    (d : Direction) (n : ℕ) (t : Transition) (m : Machine)
    → let m' = take_transition t (set_expected d n m) in
      (m'.session_state ≡ or_keep t.session m.session_state)
      × (m'.history ≡ m.history)
      × (m'.next_output_offset ≡ m.next_output_offset)
unfolding take_transition
commit-replay client_to_agent n t m = (refl, refl, refl)
commit-replay agent_to_client n t m = (refl, refl, refl)

track_session-begin :
    (d : Direction) (m tracked : Machine) (t : Transition) (id : Text) (first finish : ℕ)
    (truncated : Bool)
    → find_transition m.connection_state m.session_state d MessageType.history_begin ≡ ok t
    → track_session (Payload.history_begin id first finish truncated) m ≡ ok tracked
    → (or_keep t.session tracked.session_state ≡ SessionState.replaying)
      × (tracked.history ≡ some (record { begun = true; cursor = first; end_offset = finish }))
unfolding find_transition track_session begin_history
track_session-begin d m tracked t id first finish truncated f e = ground arith

track_session-end :
    (d : Direction) (m tracked : Machine) (t : Transition) (id : Text) (last cursor finish : ℕ)
    → IsReplaying cursor finish m
    → find_transition m.connection_state m.session_state d MessageType.history_end ≡ ok t
    → track_session (Payload.history_end id last) m ≡ ok tracked
    → (cursor ≡ finish)
      × (last ≡ finish)
      × (or_keep t.session tracked.session_state ≡ SessionState.open_)
      × (tracked.next_output_offset ≡ finish)
unfolding find_transition track_session end_history
track_session-end d m tracked t id last cursor finish s f e = ground arith

-- What the end of a replay establishes.
abbrev pub IsComplete : ℕ → ℕ → ℕ → Machine → Type 0
IsComplete cursor finish last m =
    (cursor ≡ finish)
    × (last ≡ finish)
    × (m.session_state ≡ SessionState.open_)
    × (m.next_output_offset ≡ finish)

module _ (host : Host) where
  apply_frame-replay :
      (d : Direction) (f : Frame) (context : Context) (m : Machine) (cursor finish : ℕ) {g : Frame}
      → IsReplaying cursor finish m
      → is_boundary f.payload ≡ false
      → (apply_frame host d f context m).1 ≡ ok g
      → IsReplaying (cursor + replay_size f.payload) finish (apply_frame host d f context m).0
  apply_frame-replay d f context m cursor finish s b h =
      let p = Passed-of_eq-ok host d f context m h in
      let (replaying, history) =
        track_session-replay f.payload d (bound_to f m) p.tracked p.transition cursor finish s b
          p.found p.tracks in
      let (state, kept, _) = commit-replay d (expected d m + 1) p.transition p.tracked in
      rw p.result (state ∙ replaying, kept ∙ history)

  -- While a replay runs, its cursor counts the bytes of the accepted chunks.
  Run-IsReplaying :
      {m n : Machine} {trace : List (Direction × Frame)} (cursor finish : ℕ)
      → IsReplaying cursor finish m
      → IsWithin trace
      → Run host m trace n
      → IsReplaying (cursor + total_replay trace) finish n
  Run-IsReplaying {m} cursor finish s w start = rw add-zero s
  Run-IsReplaying cursor finish s w (accept {trace} {n} d input context f r e) =
      let (same, valid) = apply-eq-ok host d input context n e in
      let before = Run-IsReplaying cursor finish s w.1 r in
      let after =
        apply_frame-replay d f context n (cursor + total_replay trace) finish before w.0
          (rw same at e) in
      rw (same, ← add_assoc (cursor) (total_replay trace) (replay_size f.payload)) after
  Run-IsReplaying cursor finish s w (refuse {trace} {n} d input context v r b e) =
      elim (apply-eq-err host d input context n b e) [
        | inl same ↦ rw same (Run-IsReplaying cursor finish s w r)
        | inr (f, same) ↦ rw same (Run-IsReplaying cursor finish s w r)
      ]

  begin-IsReplaying :
      (d : Direction) (f : Frame) (context : Context) (m : Machine) (id : Text) (first finish : ℕ)
      (truncated : Bool) {g : Frame}
      → f.payload ≡ Payload.history_begin id first finish truncated
      → (apply_frame host d f context m).1 ≡ ok g
      → IsReplaying first finish (apply_frame host d f context m).0
  unfolding type_of
  begin-IsReplaying d f context m id first finish truncated e h =
      let p = Passed-of_eq-ok host d f context m h in
      let (replaying, history) =
        track_session-begin d (bound_to f m) p.tracked p.transition id first finish truncated
          (rw e at p.found) (rw e at p.tracks) in
      let (state, kept, _) = commit-replay d (expected d m + 1) p.transition p.tracked in
      rw p.result (state ∙ replaying, kept ∙ history)

  end-IsComplete :
      (d : Direction) (f : Frame) (context : Context) (m : Machine) (id : Text)
      (last cursor finish : ℕ) {g : Frame}
      → IsReplaying cursor finish m
      → f.payload ≡ Payload.history_end id last
      → (apply_frame host d f context m).1 ≡ ok g
      → IsComplete cursor finish last (apply_frame host d f context m).0
  unfolding type_of
  end-IsComplete d f context m id last cursor finish s e h =
      let p = Passed-of_eq-ok host d f context m h in
      let (full, ends, opened, offset) =
        track_session-end d (bound_to f m) p.tracked p.transition id last cursor finish s
          (rw e at p.found) (rw e at p.tracks) in
      let (state, _, kept) = commit-replay d (expected d m + 1) p.transition p.tracked in
      rw p.result (full, ends, state ∙ opened, kept ∙ offset)

-- A replay that is begun and ended, with any other calls between, has carried exactly the announced
-- bytes: the chunks add up to the length of the announced range, the end repeats the announced
-- offset, and the session is then open with its output going on at that offset.
pub replay-IsComplete :
    (host : Host) {n : Machine} {trace : List (Direction × Frame)} (m : Machine) (d e : Direction)
    (opening closing : Json) (context context' : Context) (f g : Frame) (id id' : Text)
    (first finish last : ℕ) (truncated : Bool)
    → (apply host d opening context m).1 ≡ ok f
    → f.payload ≡ Payload.history_begin id first finish truncated
    → Run host (apply host d opening context m).0 trace n
    → IsWithin trace
    → (apply host e closing context' n).1 ≡ ok g
    → g.payload ≡ Payload.history_end id' last
    → IsComplete (first + total_replay trace) finish last (apply host e closing context' n).0
replay-IsComplete host {n} {trace} m d e opening closing context context' f g id id' first finish
      last truncated h hf r w k kg =
    let (same, valid) = apply-eq-ok host d opening context m h in
    let (same', valid') = apply-eq-ok host e closing context' n k in
    let begun : IsReplaying first finish (apply host d opening context m).0 =
      rw same (begin-IsReplaying host d f context m id first finish truncated hf (rw same at h)) in
    rw same' (
      end-IsComplete host e g context' n id' last (first + total_replay trace) finish
        (Run-IsReplaying host first finish begun w r) kg (rw same' at k))
