-- ===== src/Adapter/Reserved.antt =====
-- protocolTerminalAdapter.ts: the reservations of `sendFrame`.
use terminus_web.Prelude.{
  ℕ, ◌+◌, ◌-◌, ◌≤◌, Option, none, some, ◌≡◌, refl, ap, subst, inl, inr, Bool, true, false, not,
  ◌&&◌, ◌||◌, List, [], ◌∷◌, ◌++◌, Text, ltb, Bool-cases, if◌then◌else◌, arith, Result, ok, err,
  All,
}
use terminus_web.Json.{Json}
use terminus_web.Codec.Frames.{Payload, Frame, max_safe_sequence, max_frame_bytes}
use terminus_web.Machine.State.{client_to_agent, agent_to_client, Machine, no_context, Host}
use terminus_web.Machine.Apply.{apply}
use terminus_web.Machine.Invariant.{IsValid}
use terminus_web.Machine.Preservation.{apply-IsValid}
use terminus_web.Adapter.Sending.{
  is_error_frame, max_outbound_bytes, Queued, Outbox, numbered, send_frame, delivered, deliver,
  turn_of, Flight, restored, over, land, landing_of, finish, received, Event, sending, turn,
  landing, finishing, receiving, draining, closing, failing, leaving, step,
}

abbrev pub reserved : List Queued → ℕ
reserved [] = 0
reserved (q ∷ qs) = q.reservation + reserved qs

reserved-append : (xs ys : List Queued) → reserved (xs ++ ys) ≡ reserved xs + reserved ys
reserved-append [] ys = omega arith
reserved-append (x ∷ xs) ys = omega (arith, reserved-append xs ys)

abbrev pub total : List ℕ → ℕ
total [] = 0
total (r ∷ rs) = r + total rs

total-append : (xs ys : List ℕ) → total (xs ++ ys) ≡ total xs + total ys
total-append [] ys = omega arith
total-append (x ∷ xs) ys = omega (arith, total-append xs ys)

abbrev pub aloft : Option Flight → ℕ
aloft none = 0
aloft (some f) = f.reservation

-- The reservations of the frames that are not sent yet.
abbrev pub unsent : Outbox → ℕ
unsent o = reserved o.tail + aloft o.flight

module _ (host : Host) (frame_value : Frame → Json) (size : Frame → ℕ) where
  -- A text of JSON is no shorter for a larger number in it.
  abbrev pub IsMonotone : Type 0
  IsMonotone =
      (connection : Text) (n : ℕ) (payload : Payload)
      → n ≤ max_safe_sequence
      → size (numbered host frame_value size connection n payload)
        ≤ size (numbered host frame_value size connection max_safe_sequence payload)

  -- The reservation of a payload.
  abbrev pub full : Outbox → Payload → ℕ
  full o payload = size (numbered host frame_value size o.connection max_safe_sequence payload)

  abbrev pub IsReserved : Text → Queued → Type 0
  IsReserved connection q =
      q.reservation ≡ size (numbered host frame_value size connection max_safe_sequence q.payload)

  -- A frame that is applied fits into its reservation, and its machine can be put back.
  abbrev pub IsAloft : Option Flight → Type 0
  IsAloft none = Unit
  IsAloft (some f) = IsValid f.before × (size f.frame ≤ f.reservation)

  pub record IsAccounted (o : Outbox) : Type 0 where
    pub machine : IsValid o.machine
    pub aloft_fits : IsAloft o.flight
    pub accounted : o.outbound ≡ unsent o + total o.ended
    pub bounded : o.buffered + unsent o ≤ max_outbound_bytes
    pub sized : All (IsReserved o.connection) o.tail

  All-append :
      (c : Text) (qs : List Queued) (q : Queued)
      → All (IsReserved c) qs
      → IsReserved c q
      → All (IsReserved c) (qs ++ (q ∷ []))
  All-append c [] q a h = (h, tt)
  All-append c (x ∷ qs) q (b, a) h = (b, All-append c qs q a h)

  send_frame-IsAccounted :
      (payload : Payload) (o : Outbox)
      → IsAccounted o
      → IsAccounted (send_frame host frame_value size payload o).0
  unfolding send_frame
  send_frame-IsAccounted payload o v = elim (Bool-cases (not o.opened)) [
    | inl e ↦ rw e v
    | inr e ↦ elim (Bool-cases (ltb max_frame_bytes (full o payload))) [
      | inl f ↦ rw (e, f) v
      | inr f ↦
          elim (Bool-cases (ltb max_outbound_bytes (o.buffered + o.outbound + full o payload))) [
            | inl g ↦ rw (e, f, g) v
            | inr g ↦
                let q : Queued = record { payload = payload; reservation = full o payload } in
                let grown = reserved-append o.tail (q ∷ []) in
                rw (e, f, g)
                  record {
                    machine = v.machine;
                    aloft_fits = v.aloft_fits;
                    accounted = omega (arith, v.accounted, grown);
                    bounded = ground (arith, v.accounted, grown);
                    sized = All-append o.connection o.tail q v.sized refl;
                  }
          ]
    ]
  ]

  -- What is over without a frame in the socket.
  over-IsAccounted :
      (q : Queued) (qs : List Queued) (m : Machine) (o : Outbox)
      → o.tail ≡ q ∷ qs
      → o.flight ≡ none
      → IsValid m
      → IsAccounted o
      → IsAccounted (over host frame_value size q.reservation (record o { tail = qs; machine = m }))
  over-IsAccounted q qs m o e n w v = record {
    machine = w;
    aloft_fits = v.aloft_fits;
    accounted =
        omega (
          arith,
          v.accounted,
          ap reserved e,
          ap aloft n,
          total-append o.ended (q.reservation ∷ []),
        );
    bounded = omega (arith, v.bounded, ap reserved e, ap aloft n);
    sized = (subst (All (IsReserved o.connection)) e v.sized).1;
  }

  delivered-IsAccounted :
      (q : Queued) (qs : List Queued) (o : Outbox) (frame : Frame) (r : Machine × Result Frame)
      → size frame ≤ q.reservation
      → o.tail ≡ q ∷ qs
      → o.flight ≡ none
      → IsValid r.0
      → IsAccounted o
      → IsAccounted (delivered host frame_value size frame q.reservation r (record o { tail = qs }))
  delivered-IsAccounted q qs o frame (m, err x) l e n w v = over-IsAccounted q qs m o e n w v
  delivered-IsAccounted q qs o frame (m, ok f) l e n w v = record {
    machine = w;
    aloft_fits = (v.machine, l);
    accounted = omega (arith, v.accounted, ap reserved e, ap aloft n);
    bounded = omega (arith, v.bounded, ap reserved e, ap aloft n);
    sized = (subst (All (IsReserved o.connection)) e v.sized).1;
  }

  if-IsAccounted :
      (b : Bool) (x y : Outbox) → IsAccounted x → IsAccounted y → IsAccounted (if b then x else y)
  if-IsAccounted true x y v w = v
  if-IsAccounted false x y v w = w

  deliver-IsAccounted :
      IsMonotone
      → (q : Queued) (qs : List Queued) (o : Outbox) → o.tail ≡ q ∷ qs
      → o.flight ≡ none
      → IsAccounted o
      → IsAccounted (deliver host frame_value size q (record o { tail = qs }))
  unfolding deliver
  deliver-IsAccounted mono q qs o e n v =
      let frame = numbered host frame_value size o.connection o.machine.next_client q.payload in
      let stays = over-IsAccounted q qs o.machine o e n v.machine v in
      let own = (subst (All (IsReserved o.connection)) e v.sized).0 in
      if-IsAccounted (not o.current || o.in_error && not (is_error_frame q.payload) || not o.opened)
        _ _ stays
        (if-IsAccounted (ltb max_outbound_bytes (o.buffered + size frame)) _ _ stays (
          delivered-IsAccounted q qs o frame
            (apply host client_to_agent (frame_value frame) no_context o.machine)
            (omega (
              arith,
              own,
              mono o.connection o.machine.next_client q.payload v.machine.client_bound,
            ))
            e n
            (apply-IsValid host client_to_agent (frame_value frame) no_context o.machine v.machine)
            v))

  turn_of-IsAccounted :
      IsMonotone
      → (f : Option Flight) (qs : List Queued) (o : Outbox) → o.flight ≡ f
      → o.tail ≡ qs
      → IsAccounted o
      → IsAccounted (turn_of host frame_value size f qs o)
  turn_of-IsAccounted mono (some f) qs o n e v = v
  turn_of-IsAccounted mono none [] o n e v = v
  turn_of-IsAccounted mono none (q ∷ qs) o n e v = deliver-IsAccounted mono q qs o e n v

  restored-IsValid : (m : Machine) → IsValid m → IsValid (restored m)
  restored-IsValid m v = record {
    client_bound = v.client_bound;
    agent_bound = v.agent_bound;
    output_bound = v.output_bound;
    history_valid = v.history_valid;
    history_replaying = v.history_replaying;
    session_named = v.session_named;
    session_ready = v.session_ready;
  }

  -- The operation is over, with the machine that it leaves and the bytes that are buffered then.
  landed-IsAccounted :
      (f : Flight) (m : Machine) (bytes : ℕ) (wire : List Frame) (o : Outbox)
      → o.flight ≡ some f
      → IsValid m
      → bytes ≤ o.buffered + f.reservation
      → IsAccounted o
      → IsAccounted (
          over host frame_value size f.reservation
            (record o { flight = none; machine = m; buffered = bytes; wire = wire }))
  landed-IsAccounted f m bytes wire o e w l v = record {
    machine = w;
    aloft_fits = tt;
    accounted = omega (arith, v.accounted, ap aloft e, total-append o.ended (f.reservation ∷ []));
    bounded = omega (arith, v.bounded, ap aloft e, l);
    sized = v.sized;
  }

  land-IsAccounted :
      (f : Flight) (current goes : Bool) (o : Outbox)
      → o.flight ≡ some f
      → IsAccounted o
      → IsAccounted (land host frame_value size f current goes o)
  land-IsAccounted f false goes o e v =
      landed-IsAccounted f o.machine o.buffered o.wire o e v.machine (omega arith) v
  land-IsAccounted f true true o e v =
      let (_, fits) : IsAloft (some f) = subst IsAloft e v.aloft_fits in
      landed-IsAccounted f o.machine (o.buffered + size f.frame) (f.frame ∷ o.wire) o e v.machine
        (omega (arith, fits)) v
  land-IsAccounted f true false o e v =
      let (before, _) : IsAloft (some f) = subst IsAloft e v.aloft_fits in
      landed-IsAccounted f (restored f.before) o.buffered o.wire o e
        (restored-IsValid f.before before) (omega arith) v

  landing_of-IsAccounted :
      (f : Option Flight) (goes : Bool) (o : Outbox)
      → o.flight ≡ f
      → IsAccounted o
      → IsAccounted (landing_of host frame_value size f goes o)
  landing_of-IsAccounted none goes o e v = v
  landing_of-IsAccounted (some f) goes o e v = land-IsAccounted f o.current goes o e v

  finish-IsAccounted :
      (rs : List ℕ) (o : Outbox)
      → o.ended ≡ rs
      → IsAccounted o
      → IsAccounted (finish host frame_value size rs o)
  finish-IsAccounted [] o e v = v
  finish-IsAccounted (r ∷ rs) o e v = record {
    machine = v.machine;
    aloft_fits = v.aloft_fits;
    accounted = omega (arith, v.accounted, ap total e);
    bounded = v.bounded;
    sized = v.sized;
  }

  received-IsAccounted :
      (f : Option Flight) (input : Json) (o : Outbox)
      → IsAccounted o
      → IsAccounted (received host frame_value size f input o)
  received-IsAccounted (some f) input o v = v
  received-IsAccounted none input o v = if-IsAccounted (not o.current || o.in_error) _ _ v (record {
    machine = apply-IsValid host agent_to_client input no_context o.machine v.machine;
    aloft_fits = v.aloft_fits;
    accounted = v.accounted;
    bounded = v.bounded;
    sized = v.sized;
  })

  -- What ends the work, or empties its buffer, leaves the account.
  kept-IsAccounted :
      (current opened in_error : Bool) (bytes : ℕ) (o : Outbox)
      → bytes ≤ o.buffered
      → IsAccounted o
      → IsAccounted
          (record o { current = current; opened = opened; in_error = in_error; buffered = bytes })
  kept-IsAccounted current opened in_error bytes o l v = record {
    machine = v.machine;
    aloft_fits = v.aloft_fits;
    accounted = v.accounted;
    bounded = omega (arith, v.bounded, l);
    sized = v.sized;
  }

  -- Every event keeps the account of the queue: the bytes that are reserved are those of the frames
  -- that wait, of the frame that the machine has and of the operations whose `finally` has not run;
  -- and what the socket has buffered is, together with the reservations of the frames that are not
  -- sent yet, never more than the limit, whether a frame is sent, skipped, refused by the machine,
  -- dropped with its work or thrown back by the socket. The text of a frame is taken to be no shorter
  -- with a larger number.
  pub step-IsAccounted :
      IsMonotone
      → (e : Event) (o : Outbox) → IsAccounted o
      → IsAccounted (step host frame_value size e o)
  unfolding step
  step-IsAccounted mono (sending payload) o v = send_frame-IsAccounted payload o v
  step-IsAccounted mono turn o v = turn_of-IsAccounted mono o.flight o.tail o refl refl v
  step-IsAccounted mono (landing goes) o v = landing_of-IsAccounted o.flight goes o refl v
  step-IsAccounted mono finishing o v = finish-IsAccounted o.ended o refl v
  step-IsAccounted mono (receiving input) o v = received-IsAccounted o.flight input o v
  step-IsAccounted mono (draining bytes) o v =
      kept-IsAccounted o.current o.opened o.in_error (o.buffered - bytes) o (omega arith) v
  step-IsAccounted mono closing o v =
      kept-IsAccounted o.current false o.in_error o.buffered o (omega arith) v
  step-IsAccounted mono failing o v =
      kept-IsAccounted o.current o.opened true o.buffered o (omega arith) v
  step-IsAccounted mono leaving o v =
      kept-IsAccounted false o.opened o.in_error o.buffered o (omega arith) v
