-- ===== src/Codec/Utf8/Whole.antt =====
-- Bytes that are made of whole UTF-8 characters, as those of the platform's `TextEncoder` are.
use terminus_web.Prelude.{
  ℕ, ◌+◌, ◌-◌, ◌*◌, ◌/◌, ◌%◌, ◌≤◌, ◌≡◌, refl, ap, subst, inl, inr, Bool, true, false, ◌&&◌, [], ◌∷◌,
  ◌++◌, Text, ltb, leb, all, length, Bool-cases, arith,
}
use terminus_web.Codec.Base64.{Bytes}
use terminus_web.Codec.Utf8.{is_high, is_low, utf8_unit, utf8_point, utf8}

append_nil : (xs : Bytes) → xs ++ [] ≡ xs
append_nil [] = refl
append_nil (x ∷ xs) = ap (λ ys. x ∷ ys) (append_nil xs)

-- `(byte & 0xc0) === 0x80`
abbrev pub is_continuation : ℕ → Bool
is_continuation b = leb 0x80 b && ltb b 0xc0

-- Characters of a byte that is no continuation and of at most three that are.
pub data IsWhole : Bytes → Type 0 where
  empty : IsWhole []
  character :
      (b : ℕ) (cs : Bytes) {rest : Bytes}
      → is_continuation b ≡ false
      → all is_continuation cs ≡ true
      → length cs ≤ 3
      → IsWhole rest
      → IsWhole (b ∷ (cs ++ rest))

utf8_unit-IsWhole : (c : ℕ) (rest : Bytes) → IsWhole rest → IsWhole (utf8_unit c ++ rest)
unfolding utf8_unit
utf8_unit-IsWhole c rest w = elim (Bool-cases (ltb c 0x80)) [
  | inl e ↦ rw e (character c [] (ground arith) refl (omega arith) w)
  | inr e ↦ elim (Bool-cases (ltb c 0x800)) [
    | inl f ↦
        rw (e, f)
          (character (0xc0 + c / 64) ((0x80 + c % 64) ∷ []) (ground arith) (ground arith)
            (omega arith) w)
    | inr f ↦ elim (Bool-cases (leb 0xd800 c && leb c 0xdfff)) [
      | inl g ↦ rw (e, f, g) (character 0xef (0xbf ∷ 0xbd ∷ []) refl refl (omega arith) w)
      | inr g ↦
          rw (e, f, g)
            (character (0xe0 + c / 4096) ((0x80 + c / 64 % 64) ∷ (0x80 + c % 64) ∷ [])
              (ground arith) (ground arith) (omega arith) w)
    ]
  ]
]

utf8_point-IsWhole : (p : ℕ) (rest : Bytes) → IsWhole rest → IsWhole (utf8_point p ++ rest)
unfolding utf8_point
utf8_point-IsWhole p rest w =
    character (0xf0 + p / 262144)
      ((0x80 + p / 4096 % 64) ∷ (0x80 + p / 64 % 64) ∷ (0x80 + p % 64) ∷ []) (ground arith)
      (ground arith) (omega arith) w

pub utf8-IsWhole : (t : Text) → IsWhole (utf8 t)
unfolding utf8
utf8-IsWhole [] = empty
utf8-IsWhole (c ∷ []) = subst IsWhole (append_nil (utf8_unit c)) (utf8_unit-IsWhole c [] empty)
utf8-IsWhole (c ∷ d ∷ rest) = elim (Bool-cases (is_high c && is_low d)) [
  | inl e ↦ rw e (
      utf8_point-IsWhole (0x10000 + (c - 0xd800) * 1024 + (d - 0xdc00)) (utf8 rest)
        (utf8-IsWhole rest))
  | inr e ↦ rw e (utf8_unit-IsWhole c (utf8 (d ∷ rest)) (utf8-IsWhole (d ∷ rest)))
]
