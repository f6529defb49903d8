-- ===== src/Tests/Outboxes.antt =====
-- The queue of protocolTerminalAdapter.ts on a concrete frame.
use terminus_web.Prelude.{none, ℕ, ◌≡◌, refl, true, false, [], ◌∷◌, ltb, if◌then◌else◌, arith}
use terminus_web.Json.{Json}
use terminus_web.Codec.Frames.{Frame}
use terminus_web.Machine.State.{new}
use terminus_web.Machine.Invariant.{new-IsValid}
use terminus_web.Adapter.Sending.{Outbox, turn, landing, step}
use terminus_web.Adapter.Reserved.{IsMonotone, IsAccounted, step-IsAccounted}
use terminus_web.Adapter.Numbers.{IsNumbered, step-IsNumbered}
use terminus_web.Tests.Protocol.{computing, uuid, host, hello_json, hello}

abbrev frame_value : Frame → Json
frame_value f = hello_json

abbrev size : Frame → ℕ
size f = if ltb f.sequence 10 then 100 else 115

size-IsMonotone : IsMonotone host frame_value size
size-IsMonotone connection n payload l = ground arith

-- A hello that waits.
abbrev waiting : Outbox
waiting = record {
  connection = uuid;
  current = true;
  opened = true;
  in_error = false;
  buffered = 0;
  outbound = 115;
  tail = record { payload = hello.payload; reservation = 115 } ∷ [];
  flight = none;
  ended = [];
  machine = new;
  wire = [];
}

-- It is applied, and then sent or thrown back.
abbrev outbox : Outbox
outbox = step host frame_value size turn waiting

sends_hello :
    let after = step host frame_value size (landing true) outbox in
    (after.wire ≡ hello ∷ []) × (after.buffered ≡ 100) × (after.outbound ≡ 115)
unfolding computing step
sends_hello = (refl, refl, refl)

throws_back :
    let after = step host frame_value size (landing false) outbox in
    (after.machine.next_client ≡ 0) × (after.machine.output_offset_known ≡ true)
unfolding computing step
throws_back = (refl, refl)

waiting-IsAccounted : IsAccounted host frame_value size waiting
waiting-IsAccounted = record {
  machine = new-IsValid;
  aloft_fits = tt;
  accounted = refl;
  bounded = omega arith;
  sized = (refl, tt);
}

step-IsAccounted_example : IsAccounted host frame_value size outbox
step-IsAccounted_example =
    step-IsAccounted host frame_value size size-IsMonotone turn waiting waiting-IsAccounted

outbox-IsNumbered : IsNumbered outbox
unfolding computing step
outbox-IsNumbered = record { counted = λ c. refl; aloft_next = λ c. (refl, refl); consecutive = tt }

step-IsNumbered_example : IsNumbered (step host frame_value size (landing true) outbox)
unfolding computing step
step-IsNumbered_example =
    step-IsNumbered host frame_value size (landing true) outbox (omega arith, omega arith)
      outbox-IsNumbered
