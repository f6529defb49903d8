-- ===== src/Prelude/Results.antt =====
-- apps/web/protocol/constants.ts and types.ts: the error codes, and `throw new ProtocolViolation`
-- as a value.
use Prim.Native.Nat.{ℕ}
use mathlib.Core.Path.{◌≡◌, refl, subst}
use mathlib.Core.Logic.{◌⊎◌, inl, inr}
use mathlib.Core.Bool.{Bool, true, false}

-- `PROTOCOL_ERROR_CODES`
pub data ErrorCode : Type 0 where
  invalid_json schema_invalid unsupported_version unknown_type : ErrorCode
  frame_too_large payload_too_large sequence_replay sequence_gap : ErrorCode
  output_offset_invalid invalid_state direction_violation origin_rejected : ErrorCode
  pairing_failed authentication_failed authorization_expired : ErrorCode
  session_reopen_rejected hello_timeout heartbeat_timeout : ErrorCode
  session_open_failed backpressure_limit : ErrorCode

pub record Violation : Type 0 where
  pub code : ErrorCode
  pub close_code : ℕ

-- What a call returns, or the violation that it throws.
pub data Result {u} (Value : Type u) : Type u where
  err : (thrown : Violation) → Result Value
  ok : (value : Value) → Result Value

abbrev pub violation {u} : {Value : Type u} → ErrorCode → ℕ → Result Value
violation c n = err (record { code = c; close_code = n })

-- `schemaInvalid()`
abbrev pub schema_error {u} : {Value : Type u} → Result Value
schema_error = violation schema_invalid 1002

-- The statements after a call: they are skipped by a throw.
infixl 5 ◌>>=◌
abbrev pub ◌>>=◌ {u v} :
    {Value : Type u} {Next : Type v} → Result Value → (Value → Result Next) → Result Next
err thrown >>= rest = err thrown
ok value >>= rest = rest value

-- `if (!test) throw …`
abbrev pub require : Bool → ErrorCode → ℕ → Result (Unit {0})
require true c n = ok tt
require false c n = violation c n

-- The same after a call of no value.
infixl 5 ◌>>◌
abbrev pub ◌>>◌ {v} : {Next : Type v} → Result (Unit {0}) → Result Next → Result Next
check >> rest = check >>= λ done. rest

pub >>=-eq-ok {u v} :
    {Value : Type u} {Next : Type v} (call : Result Value) (rest : Value → Result Next)
    {last : Next}
    → (call >>= rest) ≡ ok last
    → (value : Value) × (call ≡ ok value) × (rest value ≡ ok last)
>>=-eq-ok (err thrown) rest h = cc
>>=-eq-ok (ok value) rest h = (value, refl, h)

pub require-eq-ok :
    (b : Bool) (c : ErrorCode) (n : ℕ) {u : Unit {0}} → require b c n ≡ ok u → b ≡ true
require-eq-ok true c n h = refl
require-eq-ok false c n h = cc

pub Result-cases {ℓ} :
    {A : Type ℓ} (r : Result A) → ((a : A) × (r ≡ ok a)) ⊎ ((v : Violation) × (r ≡ err v))
Result-cases (ok a) = inl (a, refl)
Result-cases (err v) = inr (v, refl)

-- What holds of the value of a successful result.
pub data Ensures {ℓ κ} {A : Type ℓ} (P : A → Type κ) : Result A → Type (ℓ ⊔ κ) where
  holds : {a : A} → P a → Ensures P (ok a)
  fails : {v : Violation} → Ensures P (err v)

pub >>=-Ensures {ℓ κ λ'} :
    {A : Type ℓ} {B : Type κ} {P : B → Type λ'} (m : Result A) (f : A → Result B)
    → ((a : A) → m ≡ ok a → Ensures P (f a))
    → Ensures P (m >>= f)
>>=-Ensures (ok a) f k = k a refl
>>=-Ensures (err v) f k = fails

pub Ensures-elim {ℓ κ} :
    {A : Type ℓ} (P : A → Type κ) {r : Result A} {a : A} → Ensures P r → r ≡ ok a → P a
Ensures-elim P (holds p) e = subst P (cc e) p
Ensures-elim P fails e = cc e
