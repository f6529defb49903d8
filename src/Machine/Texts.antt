-- ===== src/Machine/Texts.antt =====
-- apps/web/protocol/contractMachine.ts: `apply` on raw text, by parseProtocolFrame of codec.ts.
use terminus_web.Prelude.{
  ErrorCode, leb, length, Bool, true, false, ◌≡◌, ◌≢◌, ◌⊎◌, inl, inr, refl, [], Option, none, some,
  Text, Violation, Result, err,
}
use terminus_web.Json.{Json}
use terminus_web.Codec.Utf8.{utf8}
use terminus_web.Codec.Frames.{Frame, max_frame_bytes}
use terminus_web.Codec.Validate.{validate_frame}
use terminus_web.Codec.Scan.{
  Scan, left, refused, out_of_fuel, skip_whitespace, scan_json, parse_frame,
}
use terminus_web.Codec.Scan.Terminates.{scan_json_ends}
use terminus_web.Codec.Scan.Distinct.{HasValue, scan_json-HasValue}
use terminus_web.Machine.State.{Direction, Machine, Context, Host}
use terminus_web.Machine.Apply.{attempt, apply_frame, apply}
use terminus_web.Machine.Invariant.{IsValid}
use terminus_web.Machine.Preservation.{apply-IsValid}

-- `new ProtocolViolation("FRAME_TOO_LARGE", 1009)`
abbrev pub too_large : Violation
too_large = record { code = ErrorCode.frame_too_large; close_code = 1009 }

-- What `invalidJson` throws.
abbrev pub no_json : Violation
no_json = record { code = ErrorCode.invalid_json; close_code = 1007 }

Bool-cases : (b : Bool) → (b ≡ true) ⊎ (b ≡ false)
Bool-cases true = inl refl
Bool-cases false = inr refl

Scan-cases : (s : Scan) → s ≢ out_of_fuel → ((r : Text) × (s ≡ left r)) ⊎ (s ≡ refused)
Scan-cases (left r) h = inl (r, refl)
Scan-cases refused h = inr refl
Scan-cases out_of_fuel h = absurd (h refl)

Option-cases : (o : Option Json) → ((v : Json) × (o ≡ some v)) ⊎ (o ≡ none)
Option-cases (some v) = inl (v, refl)
Option-cases none = inr refl

module _ (host : Host) (parse_string : Text → Option Text) (parse : Text → Option Json) where
  -- `apply` for an input that is raw text.
  unfoldable pub apply_text : Direction → Text → Context → Machine → Machine × Result Frame
  unfolding parse_frame
  apply_text d raw context m =
      attempt m (parse_frame parse_string parse raw) λ frame. apply_frame host d frame context m

  -- The text is small enough, is one value of the grammar in which all keys of an object are
  -- different, with white space behind it, and JSON.parse gives the value `input`.
  pub record Reads (raw : Text) (input : Json) : Type 0 where
    pub small : leb (length (utf8 raw)) max_frame_bytes ≡ true
    pub one_value : (rest : Text) × HasValue parse_string raw rest × (skip_whitespace rest ≡ [])
    pub parsed : parse raw ≡ some input

  read_text :
      (raw : Text)
      → leb (length (utf8 raw)) max_frame_bytes ≡ true
      → ((input : Json) × Reads raw input
          × (parse_frame parse_string parse raw ≡ validate_frame input))
        ⊎ ((scan_json parse_string raw ≡ refused) ⊎ (parse raw ≡ none))
          × (parse_frame parse_string parse raw ≡ err no_json)
  unfolding parse_frame
  read_text raw small =
      elim (Scan-cases (scan_json parse_string raw) (scan_json_ends parse_string raw)) [
        | inr e ↦ inr (inl e, rw (small, e) refl)
        | inl (r, e) ↦ elim (Option-cases (parse raw)) [
          | inr e' ↦ inr (inr e', rw (small, e, e') refl)
          | inl (v, e') ↦ inl (
            v,
            record {
              small = small;
              one_value = scan_json-HasValue parse_string raw e;
              parsed = e';
            },
            rw (small, e, e') refl,
          )
        ]
      ]

  parse_frame-large :
      (raw : Text)
      → leb (length (utf8 raw)) max_frame_bytes ≡ false
      → parse_frame parse_string parse raw ≡ err too_large
  unfolding parse_frame
  parse_frame-large raw e = rw e refl

  pub apply_text-cases :
      (d : Direction) (raw : Text) (context : Context) (m : Machine)
      → ((input : Json) × Reads raw input
          × (apply_text d raw context m ≡ apply host d input context m))
        ⊎ (leb (length (utf8 raw)) max_frame_bytes ≡ false)
          × (apply_text d raw context m ≡ (m, err too_large))
        ⊎ (leb (length (utf8 raw)) max_frame_bytes ≡ true)
          × ((scan_json parse_string raw ≡ refused) ⊎ (parse raw ≡ none))
          × (apply_text d raw context m ≡ (m, err no_json))
  unfolding apply_text apply
  apply_text-cases d raw context m = elim (Bool-cases (leb (length (utf8 raw)) max_frame_bytes)) [
    | inr e ↦ inr (inl (e, rw (parse_frame-large raw e) refl))
    | inl e ↦ elim (read_text raw e) [
      | inl (input, r, h) ↦ inl (input, r, rw h refl)
      | inr (why, h) ↦ inr (inr (e, why, rw h refl))
    ]
  ]

  pub apply_text-IsValid :
      (d : Direction) (raw : Text) (context : Context) (m : Machine)
      → IsValid m
      → IsValid (apply_text d raw context m).0
  apply_text-IsValid d raw context m v = elim (apply_text-cases d raw context m) [
    | inl (input, r, e) ↦ rw e (apply-IsValid host d input context m v)
    | inr (inl (large, e)) ↦ rw e v
    | inr (inr (small, why, e)) ↦ rw e v
  ]
