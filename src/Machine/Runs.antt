-- ===== src/Machine/Runs.antt =====
-- Runs of the machine: any calls of `apply`, with the accepted frames, newest first.
use terminus_web.Prelude.{
  ◌<◌, ◌≡◌, ap, ◌∙◌, ◌⊎◌, inl, inr, List, [], ◌∷◌, Violation, ok, err, Result-cases,
}
use terminus_web.Json.{Json}
use terminus_web.Codec.Frames.{Frame, max_safe_sequence}
use terminus_web.Codec.Validate.{validate_frame}
use terminus_web.Machine.State.{Direction, Machine, Context, Host, expected}
use terminus_web.Machine.Apply.{apply_frame, apply}
use terminus_web.Machine.Invariant.{IsValid}
use terminus_web.Machine.Outcomes.{bound_to, Passed-of_eq-ok}
use terminus_web.Machine.Preservation.{apply-IsValid}
use terminus_web.Machine.Sequence.{refused_keeps}

-- A call that throws is part of a run too, unless it is for a used-up counter.
pub data Run (host : Host) (m : Machine) : List (Direction × Frame) → Machine → Type 0 where
  start : Run host m [] m
  accept :
      {trace : List (Direction × Frame)} {n : Machine} (d : Direction) (input : Json)
      (context : Context) (f : Frame)
      → Run host m trace n
      → (apply host d input context n).1 ≡ ok f
      → Run host m ((d, f) ∷ trace) (apply host d input context n).0
  refuse :
      {trace : List (Direction × Frame)} {n : Machine} (d : Direction) (input : Json)
      (context : Context) (v : Violation)
      → Run host m trace n
      → expected d n < max_safe_sequence
      → (apply host d input context n).1 ≡ err v
      → Run host m trace (apply host d input context n).0

module _ (host : Host) where
  -- An accepted input is a frame that `apply_frame` accepts.
  pub apply-eq-ok :
      (d : Direction) (input : Json) (context : Context) (m : Machine) {f : Frame}
      → (apply host d input context m).1 ≡ ok f
      → (apply host d input context m ≡ apply_frame host d f context m)
        × (validate_frame input ≡ ok f)
  unfolding apply
  apply-eq-ok d input context m {f} h = elim (Result-cases (validate_frame input)) [
    | inr (v, e) ↦ cc (rw e at h)
    | inl (g, e) ↦
        let h' : (apply_frame host d g context m).1 ≡ ok f = rw e at h in
        let p = Passed-of_eq-ok host d g context m h' in
        let same : g ≡ f = cc (rw p.result at h') in
        (rw e (ap (λ x. apply_frame host d x context m) same), e ∙ ap ok same)
  ]

  -- An input that is refused changes no more than an unknown connection.
  pub apply-eq-err :
      (d : Direction) (input : Json) (context : Context) (m : Machine) {v : Violation}
      → expected d m < max_safe_sequence
      → (apply host d input context m).1 ≡ err v
      → ((apply host d input context m).0 ≡ m)
        ⊎ ((f : Frame) × ((apply host d input context m).0 ≡ bound_to f m))
  unfolding apply
  apply-eq-err d input context m {v} b h = elim (Result-cases (validate_frame input)) [
    | inr (x, e) ↦ inl (rw e)
    | inl (f, e) ↦
        let h' : (apply_frame host d f context m).1 ≡ err v = rw e at h in
        elim (refused_keeps host d f context m b h') [
          | inl same ↦ inl (rw e same)
          | inr (fresh, same) ↦ inr (f, rw e same)
        ]
  ]

  pub Run-IsValid :
      {m n : Machine} {trace : List (Direction × Frame)}
      → IsValid m
      → Run host m trace n
      → IsValid n
  Run-IsValid v start = v
  Run-IsValid v (accept {n} d input context f r e) =
      apply-IsValid host d input context n (Run-IsValid v r)
  Run-IsValid v (refuse {n} d input context x r b e) =
      apply-IsValid host d input context n (Run-IsValid v r)
