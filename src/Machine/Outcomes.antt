-- ===== src/Machine/Outcomes.antt =====
-- contractMachine.ts: what `apply` does to the state when it accepts a frame and when it throws.
use terminus_web.Prelude.{
  ℕ, ◌+◌, ◌≤◌, ◌<◌, ◌≡◌, refl, ◌∙◌, ◌⊎◌, inl, inr, Option, none, some, Text, text_eq, text_eq_iff,
  ErrorCode, Violation, ok, err, violation, >>=-eq-ok, Bool-cases, Result-cases, leb, leb→le, arith,
}
use terminus_web.Codec.Frames.{Frame, type_of, max_safe_sequence}
use terminus_web.Machine.State.{
  Direction, client_to_agent, agent_to_client, Machine, Context, Host, expected, set_expected,
}
use terminus_web.Machine.Transitions.{Transition, find_transition}
use terminus_web.Machine.Auth.{validate_context}
use terminus_web.Machine.Apply.{
  bind_connection, check_version, check_sequence, validate_session_data, check_session,
  track_session, next_sequence, take_transition, admit_frame, apply_frame,
}

abbrev pub bound_to : Frame → Machine → Machine
bound_to f m = record m { connection_id = some f.connection_id }

-- The connection is fixed by the first frame, and a frame of another connection changes nothing.
bind_connection-cases :
    (f : Frame) (m : Machine) (o : Option Text)
    → m.connection_id ≡ o
    → (bind_connection f m o ≡ ok (bound_to f m)) × ((o ≡ none) ⊎ (o ≡ some f.connection_id))
      ⊎ (bind_connection f m o ≡ violation ErrorCode.schema_invalid 1002)
unfolding bind_connection
bind_connection-cases f m none same = inl (refl, inl refl)
bind_connection-cases f m (some id) same = elim (Bool-cases (text_eq f.connection_id id)) [
  | inl e ↦
      let same_id : f.connection_id ≡ id = (text_eq_iff f.connection_id id).0 e in
      inl (ground arith, inr (ground arith))
  | inr e ↦ inr (rw e)
]

expected-bound_to :
    (d : Direction) (f : Frame) (m : Machine) → expected d (bound_to f m) ≡ expected d m
expected-bound_to client_to_agent f m = refl
expected-bound_to agent_to_client f m = refl

check_sequence-eq-ok :
    (sequence wanted : ℕ) → check_sequence sequence wanted ≡ ok tt → sequence ≡ wanted
unfolding check_sequence
check_sequence-eq-ok sequence wanted h = ground arith

next_sequence-cases :
    (current : ℕ)
    → (next_sequence current ≡ ok (current + 1)) × (current < max_safe_sequence)
      ⊎ (next_sequence current ≡ violation ErrorCode.sequence_gap 1008)
        × (max_safe_sequence ≤ current)
unfolding next_sequence
next_sequence-cases current = elim (Bool-cases (leb max_safe_sequence current)) [
  | inl e ↦ inr (rw e, leb→le max_safe_sequence current e)
  | inr e ↦ inl (rw e, ground arith)
]

-- What an accepted frame has passed.
module _ (host : Host) where
  pub record Passed (d : Direction) (f : Frame) (context : Context) (m : Machine) : Type 0 where
    pub transition : Transition
    pub tracked : Machine
    pub bound : (m.connection_id ≡ none) ⊎ (m.connection_id ≡ some f.connection_id)
    pub version : check_version f.payload ≡ ok tt
    pub in_order : f.sequence ≡ expected d m
    pub context_ok : validate_context host f context ≡ ok tt
    pub found :
        find_transition m.connection_state m.session_state d (type_of f.payload) ≡ ok transition
    pub session_ok : check_session m.session_id f.payload ≡ ok tt
    pub tracks : track_session f.payload (bound_to f m) ≡ ok tracked
    pub room : expected d m < max_safe_sequence
    pub result :
        apply_frame host d f context m
        ≡ (take_transition transition (set_expected d (expected d m + 1) tracked), ok f)

  -- The checks of an admitted frame, one by one.
  admit_frame-eq-ok :
      (d : Direction) (f : Frame) (context : Context) (m : Machine) {t : Transition}
      → admit_frame host d f context m ≡ ok t
      → (check_version f.payload ≡ ok tt)
        × (f.sequence ≡ expected d m)
        × (validate_context host f context ≡ ok tt)
        × (find_transition m.connection_state m.session_state d (type_of f.payload) ≡ ok t)
  unfolding admit_frame
  admit_frame-eq-ok d f context m h =
      let (u1, e1, h1) = >>=-eq-ok (check_version f.payload) _ h in
      let (u2, e2, h2) = >>=-eq-ok (check_sequence f.sequence (expected d m)) _ h1 in
      let (u3, e3, h3) = >>=-eq-ok (validate_context host f context) _ h2 in
      (e1, check_sequence-eq-ok f.sequence (expected d m) e2, e3, h3)

  module _ (d : Direction) (f : Frame) (context : Context) (m : Machine) where
    -- The five ways out of `apply`.
    pub data Outcome : Type 0 where
      foreign :
          apply_frame host d f context m ≡ (m, violation ErrorCode.schema_invalid 1002) → Outcome
      refused :
          (v : Violation)
          → (m.connection_id ≡ none) ⊎ (m.connection_id ≡ some f.connection_id)
          → apply_frame host d f context m ≡ (bound_to f m, err v)
          → Outcome
      exhausted :
          (t : Transition) (tracked : Machine)
          → find_transition m.connection_state m.session_state d (type_of f.payload) ≡ ok t
          → track_session f.payload (bound_to f m) ≡ ok tracked
          → max_safe_sequence ≤ expected d m
          → apply_frame host d f context m ≡ (tracked, violation ErrorCode.sequence_gap 1008)
          → Outcome
      accepted : Passed d f context m → Outcome

    admitted-Outcome :
        {t : Transition} {tracked : Machine}
        → bind_connection f m m.connection_id ≡ ok (bound_to f m)
        → (m.connection_id ≡ none) ⊎ (m.connection_id ≡ some f.connection_id)
        → admit_frame host d f context (bound_to f m) ≡ ok t
        → validate_session_data f.payload (bound_to f m) ≡ ok tracked
        → Outcome
    unfolding apply_frame validate_session_data
    admitted-Outcome {t} {tracked} e known ea ev =
        let (u, es, et) = >>=-eq-ok (check_session m.session_id f.payload) _ ev in
        let same = expected-bound_to d f m in
        let (version, in_order, context_ok, found) =
          admit_frame-eq-ok d f context (bound_to f m) ea in
        elim (next_sequence-cases (expected d (bound_to f m))) [
          | inr (en, full) ↦ exhausted t tracked found et (rw (← same) full) (rw (e, ea, ev, en))
          | inl (en, room) ↦ accepted (record {
            transition = t;
            tracked = tracked;
            bound = known;
            version = version;
            in_order = in_order ∙ same;
            context_ok = context_ok;
            found = found;
            session_ok = es;
            tracks = et;
            room = rw (← same) room;
            result = rw (← same) (rw (e, ea, ev, en));
          })
        ]

    -- Every call of `apply` on a checked frame ends in one of these ways.
    pub apply_frame-Outcome : Outcome
    unfolding apply_frame
    apply_frame-Outcome = elim (bind_connection-cases f m m.connection_id refl) [
      | inr e ↦ foreign (rw e)
      | inl (e, known) ↦ elim (Result-cases (admit_frame host d f context (bound_to f m))) [
        | inr (v, ea) ↦ refused v known (rw (e, ea))
        | inl (t, ea) ↦ elim (Result-cases (validate_session_data f.payload (bound_to f m))) [
          | inr (v, ev) ↦ refused v known (rw (e, ea, ev))
          | inl (tracked, ev) ↦ admitted-Outcome e known ea ev
        ]
      ]
    ]

    -- A frame that is accepted has passed every check.
    pub Passed-of_eq-ok :
        {g : Frame} → (apply_frame host d f context m).1 ≡ ok g → Passed d f context m
    Passed-of_eq-ok h = elim apply_frame-Outcome [
      | foreign e ↦ absurd (cc e)
      | refused v known e ↦ cc e
      | exhausted t tracked found et full e ↦ cc e
      | accepted p ↦ p
    ]
