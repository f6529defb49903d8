-- ===== src/Machine/Preservation.antt =====
-- contractMachine.ts: every call of `apply` keeps the invariant, whether it accepts or throws.
use terminus_web.Prelude.{◌+◌, Result-cases, inl, inr, arith}
use terminus_web.Json.{Json}
use terminus_web.Codec.Frames.{Frame}
use terminus_web.Codec.Validate.{validate_frame}
use terminus_web.Codec.WellFormed.{validate_frame-IsWellFormed}
use terminus_web.Machine.State.{Direction, Machine, Context, Host, expected}
use terminus_web.Machine.Apply.{apply_frame, apply}
use terminus_web.Machine.Invariant.{
  IsValid, InRange, commit-IsValid, track-IsValid, InRange-of_IsWellFormed,
}
use terminus_web.Machine.Outcomes.{
  bound_to, foreign, refused, exhausted, accepted, apply_frame-Outcome,
}

bound_to-IsValid : (f : Frame) {m : Machine} → IsValid m → IsValid (bound_to f m)
bound_to-IsValid f v = ground arith

module _ (host : Host) where
  pub apply_frame-IsValid :
      (d : Direction) (f : Frame) (context : Context) (m : Machine)
      → InRange f.payload
      → IsValid m
      → IsValid (apply_frame host d f context m).0
  apply_frame-IsValid d f context m r v = elim (apply_frame-Outcome host d f context m) [
    | foreign e ↦ rw e v
    | refused x known e ↦ rw e (bound_to-IsValid f v)
    | exhausted t tracked found et full e ↦
        rw e (track-IsValid f.payload d (bound_to f m) tracked t (bound_to-IsValid f v) r found et)
    | accepted p ↦ rw p.result (
        commit-IsValid f.payload d (bound_to f m) p.tracked p.transition (expected d m + 1)
          (bound_to-IsValid f v) r p.found p.tracks (omega (arith, p.room)))
  ]

  -- Whatever value arrives, in either direction and with any context, `apply` keeps the invariant:
  -- counters and output offset stay safe integers, a replay in progress lies within what was
  -- announced and is tracked only in the replaying state, a session that is attached has a name, and
  -- a session exists only on a connection that is ready or closing. This holds on every throw too.
  pub apply-IsValid :
      (d : Direction) (input : Json) (context : Context) (m : Machine)
      → IsValid m
      → IsValid (apply host d input context m).0
  unfolding apply
  apply-IsValid d input context m v = elim (Result-cases (validate_frame input)) [
    | inr (x, e) ↦ rw e v
    | inl (f, e) ↦ rw e (
        apply_frame-IsValid d f context m
          (InRange-of_IsWellFormed f.payload (validate_frame-IsWellFormed input f e).2) v)
  ]
