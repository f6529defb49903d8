-- ===== src/Adapter/Numbers.antt =====
-- protocolTerminalAdapter.ts: the numbers of the frames that `sendFrame` puts on the wire.
use terminus_web.Prelude.{
  ℕ, ◌+◌, ◌<◌, ◌≡◌, refl, sym, ap, subst, ◌∙◌, inl, inr, Bool, true, false, not, ◌&&◌, ◌||◌, List,
  [], ◌∷◌, Option, none, some, length, ltb, if◌then◌else◌, arith, Result, ok, err, Result-cases,
  Violation,
}
use terminus_web.Json.{Json}
use terminus_web.Codec.Frames.{Payload, Frame, max_safe_sequence, max_frame_bytes}
use terminus_web.Machine.State.{
  Direction, client_to_agent, agent_to_client, Machine, no_context, Host, expected,
}
use terminus_web.Machine.Apply.{apply}
use terminus_web.Machine.Sequence.{apply_frame-Advances}
use terminus_web.Machine.Runs.{apply-eq-ok, apply-eq-err}
use terminus_web.Adapter.Connection.{Failure}
use terminus_web.Adapter.Sending.{
  is_error_frame, max_outbound_bytes, Queued, Outbox, numbered, send_frame, delivered, deliver,
  turn_of, Flight, over, land, landing_of, finish, received, Event, sending, turn, landing,
  finishing, receiving, draining, closing, failing, leaving, step,
}

-- Numbered from 0 on, newest first.
abbrev pub IsConsecutive : List Frame → Type 0
IsConsecutive [] = Unit
IsConsecutive (f ∷ fs) = (f.sequence ≡ length fs) × IsConsecutive fs

-- Neither counter is used up.
abbrev pub HasRoom : Machine → Type 0
HasRoom m = (m.next_client < max_safe_sequence) × (m.next_agent < max_safe_sequence)

abbrev pub flying : Option Flight → ℕ
flying none = 0
flying (some f) = 1

-- A frame that is applied bears the next number, and so does the machine that can be put back.
abbrev pub IsNext : ℕ → Option Flight → Type 0
IsNext n none = Unit
IsNext n (some f) = (f.frame.sequence ≡ n) × (f.before.next_client ≡ n)

-- The counter is that of the wire, while the work is the adapter's: a frame that was applied and then
-- dropped with its work leaves it ahead.
pub record IsNumbered (o : Outbox) : Type 0 where
  pub counted : o.current ≡ true → o.machine.next_client ≡ length o.wire + flying o.flight
  pub aloft_next : o.current ≡ true → IsNext (length o.wire) o.flight
  pub consecutive : IsConsecutive o.wire

module _ (host : Host) where
  accepted-next :
      (input : Json) (m : Machine) {f : Frame}
      → (apply host client_to_agent input no_context m).1 ≡ ok f
      → (apply host client_to_agent input no_context m).0.next_client ≡ m.next_client + 1
  accepted-next input m {f} h =
      let (e, _) = apply-eq-ok host client_to_agent input no_context m h in
      let (_, n, _, _, _) =
        apply_frame-Advances host client_to_agent f no_context m (ap (λ r. r.1) (sym e) ∙ h) in
      ap (λ r. r.0.next_client) e ∙ n

  refused-next :
      (d : Direction) (input : Json) (m : Machine) {v : Violation}
      → expected d m < max_safe_sequence
      → (apply host d input no_context m).1 ≡ err v
      → (apply host d input no_context m).0.next_client ≡ m.next_client
  refused-next d input m b h = elim (apply-eq-err host d input no_context m b h) [
    | inl e ↦ ap (λ n. n.next_client) e
    | inr (f, e) ↦ ap (λ n. n.next_client) e
  ]

  received-next :
      (input : Json) (m : Machine)
      → HasRoom m
      → (apply host agent_to_client input no_context m).0.next_client ≡ m.next_client
  received-next input m (_, room) =
      elim (Result-cases (apply host agent_to_client input no_context m).1) [
        | inl (f, h) ↦
            let (e, _) = apply-eq-ok host agent_to_client input no_context m h in
            let (_, _, _, other, _) =
              apply_frame-Advances host agent_to_client f no_context m
                (ap (λ r. r.1) (sym e) ∙ h) in
            ap (λ r. r.0.next_client) e ∙ other
        | inr (v, h) ↦ refused-next agent_to_client input m room h
      ]

module _ (host : Host) (frame_value : Frame → Json) (size : Frame → ℕ) where
  -- The same machine, flight and wire.
  same-IsNumbered :
      (o p : Outbox)
      → p.current ≡ o.current
      → p.machine ≡ o.machine
      → p.flight ≡ o.flight
      → p.wire ≡ o.wire
      → IsNumbered o
      → IsNumbered p
  same-IsNumbered o p c m f w n = record {
    counted = rw (c, m, f, w) n.counted;
    aloft_next = rw (c, f, w) n.aloft_next;
    consecutive = rw w n.consecutive;
  }

  delivered-IsNumbered :
      (q : Queued) (o : Outbox) (r : Machine × Result Frame)
      → ((f : Frame) → r.1 ≡ ok f → r.0.next_client ≡ o.machine.next_client + 1)
      → ((v : Violation) → r.1 ≡ err v → r.0.next_client ≡ o.machine.next_client)
      → o.flight ≡ none
      → IsNumbered o
      → IsNumbered (
          delivered host frame_value size
            (numbered host frame_value size o.connection o.machine.next_client q.payload)
            q.reservation
            r
            o)
  delivered-IsNumbered q o (m, ok f) k l e n = record {
    counted = λ c. omega (arith, k f refl, n.counted c, ap flying e);
    aloft_next =
        λ c. (omega (arith, n.counted c, ap flying e), omega (arith, n.counted c, ap flying e));
    consecutive = n.consecutive;
  }
  delivered-IsNumbered q o (m, err v) k l e n = record {
    counted = λ c. l v refl ∙ n.counted c;
    aloft_next = n.aloft_next;
    consecutive = n.consecutive;
  }

  if-IsNumbered :
      (b : Bool) (x y : Outbox) → IsNumbered x → IsNumbered y → IsNumbered (if b then x else y)
  if-IsNumbered true x y n m = n
  if-IsNumbered false x y n m = m

  deliver-IsNumbered :
      (q : Queued) (o : Outbox)
      → HasRoom o.machine
      → o.flight ≡ none
      → IsNumbered o
      → IsNumbered (deliver host frame_value size q o)
  unfolding deliver
  deliver-IsNumbered q o (room, _) e n =
      let frame = numbered host frame_value size o.connection o.machine.next_client q.payload in
      let stays =
        same-IsNumbered o (over host frame_value size q.reservation o) refl refl refl refl n in
      if-IsNumbered (not o.current || o.in_error && not (is_error_frame q.payload) || not o.opened)
        _ _ stays
        (if-IsNumbered (ltb max_outbound_bytes (o.buffered + size frame)) _ _ stays (
          delivered-IsNumbered q o
            (apply host client_to_agent (frame_value frame) no_context o.machine)
            (λ f h. accepted-next host (frame_value frame) o.machine h)
            (λ v h. refused-next host client_to_agent (frame_value frame) o.machine room h) e n))

  turn_of-IsNumbered :
      (f : Option Flight) (qs : List Queued) (o : Outbox)
      → HasRoom o.machine
      → o.flight ≡ f
      → IsNumbered o
      → IsNumbered (turn_of host frame_value size f qs o)
  turn_of-IsNumbered (some f) qs o room e n = n
  turn_of-IsNumbered none [] o room e n = n
  turn_of-IsNumbered none (q ∷ qs) o room e n =
      deliver-IsNumbered q (record o { tail = qs }) room e
        (same-IsNumbered o (record o { tail = qs }) refl refl refl refl n)

  land-IsNumbered :
      (f : Flight) (current goes : Bool) (o : Outbox)
      → o.flight ≡ some f
      → o.current ≡ current
      → IsNumbered o
      → IsNumbered (land host frame_value size f current goes o)
  land-IsNumbered f false goes o e c n = record {
    counted = λ d. cc (c, d);
    aloft_next = λ d. tt;
    consecutive = n.consecutive;
  }
  land-IsNumbered f true true o e c n =
      let (number, _) : IsNext (length o.wire) (some f) =
        subst (IsNext (length o.wire)) e (n.aloft_next c) in
      record {
        counted = λ d. omega (arith, n.counted c, ap flying e);
        aloft_next = λ d. tt;
        consecutive = (number, n.consecutive);
      }
  land-IsNumbered f true false o e c n =
      let (_, before) : IsNext (length o.wire) (some f) =
        subst (IsNext (length o.wire)) e (n.aloft_next c) in
      record {
        counted = λ d. omega (arith, before);
        aloft_next = λ d. tt;
        consecutive = n.consecutive;
      }

  landing_of-IsNumbered :
      (f : Option Flight) (goes : Bool) (o : Outbox)
      → o.flight ≡ f
      → IsNumbered o
      → IsNumbered (landing_of host frame_value size f goes o)
  landing_of-IsNumbered none goes o e n = n
  landing_of-IsNumbered (some f) goes o e n = land-IsNumbered f o.current goes o e refl n

  finish-IsNumbered :
      (rs : List ℕ) (o : Outbox) → IsNumbered o → IsNumbered (finish host frame_value size rs o)
  finish-IsNumbered [] o n = n
  finish-IsNumbered (r ∷ rs) o n = same-IsNumbered o _ refl refl refl refl n

  received-IsNumbered :
      (f : Option Flight) (input : Json) (o : Outbox)
      → HasRoom o.machine
      → IsNumbered o
      → IsNumbered (received host frame_value size f input o)
  received-IsNumbered (some f) input o room n = n
  received-IsNumbered none input o room n =
      if-IsNumbered (not o.current || o.in_error) _ _ n (record {
        counted = λ c. received-next host input o.machine room ∙ n.counted c;
        aloft_next = n.aloft_next;
        consecutive = n.consecutive;
      })

  of_two :
      (b : Bool) (x y : Outbox × Option Failure)
      → IsNumbered x.0
      → IsNumbered y.0
      → IsNumbered (if b then x else y).0
  of_two true x y n m = n
  of_two false x y n m = m

  send_frame-IsNumbered :
      (payload : Payload) (o : Outbox)
      → IsNumbered o
      → IsNumbered (send_frame host frame_value size payload o).0
  unfolding send_frame
  send_frame-IsNumbered payload o n =
      let reservation =
        size (numbered host frame_value size o.connection max_safe_sequence payload) in
      of_two (not o.opened) _ _ n (
        of_two (ltb max_frame_bytes reservation) _ _ n (
          of_two (ltb max_outbound_bytes (o.buffered + o.outbound + reservation)) _ _ n
            (same-IsNumbered o _ refl refl refl refl n)))

  -- The frames on the wire are numbered from 0 on without a gap or a repetition, after every event:
  -- a frame that the machine refuses, or that the socket throws back, leaves its number to the next,
  -- and one that is dropped with its work is followed by none. The counters are taken not to be used
  -- up.
  pub step-IsNumbered :
      (e : Event) (o : Outbox)
      → HasRoom o.machine
      → IsNumbered o
      → IsNumbered (step host frame_value size e o)
  unfolding step
  step-IsNumbered (sending payload) o room n = send_frame-IsNumbered payload o n
  step-IsNumbered turn o room n = turn_of-IsNumbered o.flight o.tail o room refl n
  step-IsNumbered (landing goes) o room n = landing_of-IsNumbered o.flight goes o refl n
  step-IsNumbered finishing o room n = finish-IsNumbered o.ended o n
  step-IsNumbered (receiving input) o room n = received-IsNumbered o.flight input o room n
  step-IsNumbered (draining bytes) o room n = same-IsNumbered o _ refl refl refl refl n
  step-IsNumbered closing o room n = same-IsNumbered o _ refl refl refl refl n
  step-IsNumbered failing o room n = same-IsNumbered o _ refl refl refl refl n
  step-IsNumbered leaving o room n = record {
    counted = λ c. cc;
    aloft_next = λ c. cc;
    consecutive = n.consecutive;
  }
