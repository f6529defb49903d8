-- ===== src/Codec/Scan/Lengths.antt =====
-- codec.ts: the scanner for duplicate keys and how much its readers leave.
use terminus_web.Prelude.{
  ℕ, ◌≤◌, ◌<◌, ◌≡◌, inl, inr, true, ◌||◌, [], ◌∷◌, Option, none, some, Text, codes, length, ltb,
  ◌==◌, Bool-cases, arith,
}
use terminus_web.Codec.Scan.{
  Scan, left, refused, out_of_fuel, skip_whitespace, starts, tail, prepend, scan_string,
  skip_digits, digits, or_skip, fraction, exponent, whole, skip_sign, skip_minus, behind_whole,
  number, after, first_of, literal, left_of, scan_scalar,
}

-- The scan kept within its fuel and left less than `n` units.
abbrev pub Shorter : ℕ → Scan → Type 0
Shorter n (left rest) = length rest < n
Shorter n refused = Unit
Shorter n out_of_fuel = ⊥

pub length-skip_whitespace : (t : Text) → length (skip_whitespace t) ≤ length t
unfolding skip_whitespace
length-skip_whitespace [] = omega arith
length-skip_whitespace (c ∷ cs) = ground (arith, length-skip_whitespace cs)

length-skip_digits : (t : Text) → length (skip_digits t) ≤ length t
unfolding skip_digits
length-skip_digits [] = omega arith
length-skip_digits (c ∷ cs) = ground (arith, length-skip_digits cs)

pub length-tail : (t : Text) → length (tail t) ≤ length t
length-tail [] = omega arith
length-tail (c ∷ cs) = omega arith

pub length-tail-starts : (p : ℕ) (t : Text) → starts p t ≡ true → length (tail t) < length t
length-tail-starts p [] h = cc
length-tail-starts p (c ∷ cs) h = omega arith

-- What follows a reader that reads something.
abbrev Less : ℕ → Option Text → Type 0
Less n none = Unit
Less n (some rest) = length rest < n

digits-Less : (t : Text) → Less (length t) (digits t)
unfolding skip_digits
digits-Less [] = tt
digits-Less (c ∷ cs) = ground (arith, length-skip_digits cs)

length-or_skip :
    (o : Option Text) (t : Text) (n : ℕ) → Less n o → length t ≤ n → length (or_skip o t) ≤ n
length-or_skip none t n h k = k
length-or_skip (some rest) t n h k = omega arith

length-skip_sign : (t : Text) → length (skip_sign t) ≤ length t
length-skip_sign t = ground (arith, length-tail t)

Less-mono : (o : Option Text) (n m : ℕ) → Less n o → n ≤ m → Less m o
Less-mono none n m h k = tt
Less-mono (some rest) n m h k = omega arith

length-fraction : (t : Text) → length (fraction t) ≤ length t
unfolding fraction
length-fraction t = elim (Bool-cases (starts b'.' t)) [
  | inr e ↦ rw e (omega arith)
  | inl e ↦ rw e (
      length-or_skip (digits (tail t)) t (length t)
        (Less-mono (digits (tail t)) _ _ (digits-Less (tail t)) (length-tail t)) (omega arith))
]

length-exponent : (t : Text) → length (exponent t) ≤ length t
unfolding exponent
length-exponent t = elim (Bool-cases (starts b'e' t || starts b'E' t)) [
  | inr e ↦ rw e (omega arith)
  | inl e ↦ rw e (
      length-or_skip (digits (skip_sign (tail t))) t (length t)
        (Less-mono (digits (skip_sign (tail t))) _ _ (digits-Less (skip_sign (tail t)))
          (omega (arith, length-tail t, length-skip_sign (tail t))))
        (omega arith))
]

whole-Less : (t : Text) → Less (length t) (whole t)
whole-Less t = elim (Bool-cases (starts b'0' t)) [
  | inl e ↦ rw e (length-tail-starts b'0' t e)
  | inr e ↦ rw e (digits-Less t)
]

behind_whole-Less : (o : Option Text) (n : ℕ) → Less n o → Less n (behind_whole o)
behind_whole-Less none n h = tt
behind_whole-Less (some rest) n h =
    omega (arith, h, length-exponent (fraction rest), length-fraction rest)

length-skip_minus : (t : Text) → length (skip_minus t) ≤ length t
length-skip_minus t = ground (arith, length-tail t)

number-Less : (t : Text) → Less (length t) (number t)
unfolding number
number-Less t =
    behind_whole-Less (whole (skip_minus t)) (length t)
      (Less-mono (whole (skip_minus t)) _ _ (whole-Less (skip_minus t)) (length-skip_minus t))

after-Less : (p : ℕ) (ps t : Text) → Less (length t) (after (p ∷ ps) t)
unfolding after
after-Less p ps [] = tt
after-Less p [] (c ∷ cs) = ground arith
after-Less p (q ∷ ps) (c ∷ cs) = elim (Bool-cases (c == p)) [
  | inl e ↦ rw e (Less-mono (after (q ∷ ps) cs) _ _ (after-Less q ps cs) (omega arith))
  | inr e ↦ rw e tt
]

first_of-Less : (n : ℕ) (o q : Option Text) → Less n o → Less n q → Less n (first_of o q)
first_of-Less n none q h k = k
first_of-Less n (some t) q h k = h

left_of-Shorter : (n : ℕ) (o : Option Text) → Less n o → Shorter n (left_of o)
left_of-Shorter n none h = tt
left_of-Shorter n (some t) h = h

pub scan_scalar-Shorter : (t : Text) → Shorter (length t) (scan_scalar t)
unfolding literal
scan_scalar-Shorter t = left_of-Shorter (length t) _ (
    first_of-Less (length t) (literal t) (number t)
      (first_of-Less (length t) _ _ (after-Less b't' (codes "rue") t) (
        first_of-Less (length t) _ _ (after-Less b'f' (codes "alse") t)
          (after-Less b'n' (codes "ull") t)))
      (number-Less t))

-- What follows a string.
abbrev pub LessBehind : ℕ → Option (Text × Text) → Type 0
LessBehind n none = Unit
LessBehind n (some (slice, rest)) = length rest < n

prepend-LessBehind :
    (c n m : ℕ) (o : Option (Text × Text)) → LessBehind n o → n ≤ m → LessBehind m (prepend c o)
prepend-LessBehind c n m none h k = tt
prepend-LessBehind c n m (some (slice, rest)) h k = omega arith

pub scan_string-LessBehind : (t : Text) → LessBehind (length t) (scan_string t)
unfolding scan_string
scan_string-LessBehind [] = tt
scan_string-LessBehind (c ∷ []) = ground arith
scan_string-LessBehind (c ∷ d ∷ cs) =
    let escaped =
      prepend-LessBehind c (length cs) (length (c ∷ d ∷ cs)) (prepend d (scan_string cs))
        (prepend-LessBehind d (length cs) (length cs) (scan_string cs) (scan_string-LessBehind cs)
          (omega arith))
        (omega arith) in
    let more =
      prepend-LessBehind c (length (d ∷ cs)) (length (c ∷ d ∷ cs)) (scan_string (d ∷ cs))
        (scan_string-LessBehind (d ∷ cs)) (omega arith) in
    elim (Bool-cases (c == 0x5c)) [
      | inl e ↦ rw e escaped
      | inr e ↦ elim (Bool-cases (c == b'"')) [
        | inl e' ↦ rw (e, e') (omega arith)
        | inr e' ↦ elim (Bool-cases (ltb c 0x20)) [
          | inl e'' ↦ rw (e, e', e'') tt
          | inr e'' ↦ rw (e, e', e'') more
        ]
      ]
    ]
