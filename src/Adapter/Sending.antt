-- ===== src/Adapter/Sending.antt =====
-- protocolTerminalAdapter.ts: `sendFrame` and `withMachine` over one ConnectionWork, whose `tail` is
-- the list of the operations that wait for the machine. A connection keeps its identifier.
use terminus_web.Prelude.{
  ℕ, ◌+◌, ◌-◌, Bool, true, false, not, ◌&&◌, ◌||◌, List, [], ◌∷◌, ◌++◌, Option, none, some, Text,
  ltb, if◌then◌else◌, ErrorCode, Result, ok, err,
}
use terminus_web.Json.{Json}
use terminus_web.Codec.Frames.{Payload, Frame, max_safe_sequence, max_frame_bytes}
use terminus_web.Machine.State.{client_to_agent, agent_to_client, Machine, no_context, Host}
use terminus_web.Machine.Apply.{apply}
use terminus_web.Adapter.Connection.{Failure, transport, violated}

-- `MAX_OUTBOUND_BUFFERED_BYTES`
abbrev pub max_outbound_bytes : ℕ
max_outbound_bytes = 65536

-- A payload that waits, with its reservation.
pub record Queued : Type 0 where
  pub payload : Payload
  pub reservation : ℕ

-- A frame that the machine has applied and that is not sent yet, with `previousMachine`.
pub record Flight : Type 0 where
  pub frame : Frame
  pub before : Machine
  pub reservation : ℕ

-- The work with its socket: `current` while both are those of the adapter, `opened` while the socket
-- is open, `in_error` while the adapter's state is "error"; `tail` waits for the machine, which
-- `flight` has; `ended` are the reservations of the operations that are over and whose `finally` is
-- still to run; `wire` holds what was sent, newest first.
pub record Outbox : Type 0 where
  pub connection : Text
  pub current : Bool
  pub opened : Bool
  pub in_error : Bool
  pub buffered : ℕ
  pub outbound : ℕ
  pub tail : List Queued
  pub flight : Option Flight
  pub ended : List ℕ
  pub machine : Machine
  pub wire : List Frame

-- `new ProtocolContractMachine(previousMachine)`: the snapshot has its offset, which is then known.
abbrev pub restored : Machine → Machine
restored m = record m { output_offset_known = true }

abbrev pub is_error_frame : Payload → Bool
is_error_frame (Payload.error code) = true
is_error_frame _ = false

-- What happens to the work: a frame is handed to `sendFrame`; the next operation begins, and goes on
-- behind `machine.apply`, where `goes` tells that the socket takes the frame; the `finally` of one that
-- is over runs; a value of the agent is applied; the socket hands on bytes or closes; the adapter fails
-- or goes on to another work.
pub data Event : Type 0 where
  sending : Payload → Event
  turn : Event
  landing : (goes : Bool) → Event
  finishing : Event
  receiving : Json → Event
  draining : (bytes : ℕ) → Event
  closing failing leaving : Event

module _ (host : Host) (frame_value : Frame → Json) (size : Frame → ℕ) where
  -- The frame with a number: `size` is the length of its `JSON.stringify` in bytes.
  abbrev pub numbered : Text → ℕ → Payload → Frame
  numbered connection n payload = record {
    connection_id = connection;
    sequence = n;
    payload = payload;
  }

  -- `sendFrame` up to the queue, and what it throws. The reservation is that of the largest number.
  unfoldable pub send_frame : Payload → Outbox → Outbox × Option Failure
  send_frame payload o =
      let reservation = size (numbered o.connection max_safe_sequence payload) in
      if not o.opened
      then (o, some transport)
      else if ltb max_frame_bytes reservation
      then (o, some (violated (record { code = ErrorCode.frame_too_large; close_code = 1009 })))
      else if ltb max_outbound_bytes (o.buffered + o.outbound + reservation)
      then (o, some (violated (record { code = ErrorCode.backpressure_limit; close_code = 1008 })))
      else (
        record o {
          outbound = o.outbound + reservation;
          tail = o.tail ++ (record { payload = payload; reservation = reservation } ∷ []);
        },
        none,
      )

  abbrev pub over : ℕ → Outbox → Outbox
  over reservation o = record o { ended = o.ended ++ (reservation ∷ []) }

  -- What `machine.apply` gives: it throws, or the frame is to be sent.
  abbrev pub delivered : Frame → ℕ → Machine × Result Frame → Outbox → Outbox
  delivered frame reservation (m, err v) o = over reservation (record o { machine = m })
  delivered frame reservation (m, ok f) o = record o {
    machine = m;
    flight = some (record { frame = frame; before = o.machine; reservation = reservation });
  }

  -- The operation of a frame, up to the `await` of `machine.apply`.
  unfoldable pub deliver : Queued → Outbox → Outbox
  deliver q o =
      let frame = numbered o.connection o.machine.next_client q.payload in
      let next =
        delivered frame q.reservation
          (apply host client_to_agent (frame_value frame) no_context o.machine) o in
      if not o.current || o.in_error && not (is_error_frame q.payload) || not o.opened
      then over q.reservation o
      else if ltb max_outbound_bytes (o.buffered + size frame)
      then over q.reservation o
      else next

  -- The next operation of the tail, once the one before is over.
  abbrev pub turn_of : Option Flight → List Queued → Outbox → Outbox
  turn_of (some f) qs o = o
  turn_of none [] o = o
  turn_of none (q ∷ qs) o = deliver q (record o { tail = qs })

  -- The operation behind `machine.apply`: the frame is sent, or thrown back, if the work is still the
  -- adapter's.
  abbrev pub land : Flight → (current goes : Bool) → Outbox → Outbox
  land f false goes o = over f.reservation (record o { flight = none })
  land f true true o =
      over f.reservation
        (record o { flight = none; buffered = o.buffered + size f.frame; wire = f.frame ∷ o.wire })
  land f true false o = over f.reservation (record o { flight = none; machine = restored f.before })

  abbrev pub landing_of : Option Flight → (goes : Bool) → Outbox → Outbox
  landing_of none goes o = o
  landing_of (some f) goes o = land f o.current goes o

  -- The `finally` of `sendFrame`.
  abbrev pub finish : List ℕ → Outbox → Outbox
  finish [] o = o
  finish (r ∷ rs) o = record o { ended = rs; outbound = o.outbound - r }

  -- What comes in is applied by the work's owner, when no frame has the machine.
  abbrev pub received : Option Flight → Json → Outbox → Outbox
  received (some f) input o = o
  received none input o =
      if not o.current || o.in_error
      then o
      else record o { machine = (apply host agent_to_client input no_context o.machine).0 }

  unfoldable pub step : Event → Outbox → Outbox
  unfolding send_frame deliver
  step (sending payload) o = (send_frame payload o).0
  step turn o = turn_of o.flight o.tail o
  step (landing goes) o = landing_of o.flight goes o
  step finishing o = finish o.ended o
  step (receiving input) o = received o.flight input o
  step (draining bytes) o = record o { buffered = o.buffered - bytes }
  step closing o = record o { opened = false }
  step failing o = record o { in_error = true }
  step leaving o = record o { current = false }
