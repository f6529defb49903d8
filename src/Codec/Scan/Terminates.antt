-- ===== src/Codec/Scan/Terminates.antt =====
-- codec.ts: the scanner for duplicate keys comes to an end within its fuel.
use terminus_web.Prelude.{
  ℕ, zero, suc, ◌+◌, ◌*◌, ◌≤◌, ◌<◌, ◌≡◌, ◌≢◌, inl, inr, true, List, [], ◌∷◌, Option, none, some,
  Text, includes, length, if◌then◌else◌, Bool-cases, arith,
}
use terminus_web.Codec.Scan.{
  Scan, left, refused, out_of_fuel, proceed, skip_whitespace, starts, tail, expect, scan_string,
  parsed_slice, scan_key, skip_string, with_key, key_with, scan_value, scan_members, scan_elements,
  at_end, scan_json,
}
use terminus_web.Codec.Scan.Lengths.{
  Shorter, LessBehind, length-skip_whitespace, length-tail, length-tail-starts, scan_scalar-Shorter,
  scan_string-LessBehind,
}

Shorter-mono : (s : Scan) (n m : ℕ) → Shorter n s → n ≤ m → Shorter m s
Shorter-mono (left rest) n m h k = omega arith
Shorter-mono refused n m h k = tt
Shorter-mono out_of_fuel n m h k = absurd h

LessBehind-mono : (o : Option (Text × Text)) (n m : ℕ) → LessBehind n o → n ≤ m → LessBehind m o
LessBehind-mono none n m h k = tt
LessBehind-mono (some (slice, rest)) n m h k = omega arith

skip_string-Shorter :
    (n : ℕ) (o : Option (Text × Text)) → LessBehind n o → Shorter n (skip_string o)
skip_string-Shorter n none h = tt
skip_string-Shorter n (some (key, rest)) h = h

expect-Shorter : (p : ℕ) (t : Text) → Shorter (length t) (expect p t)
expect-Shorter p t = elim (Bool-cases (starts p t)) [
  | inl e ↦ rw e (length-tail-starts p t e)
  | inr e ↦ rw e tt
]

proceed-Shorter :
    (n k : ℕ) (s : Scan) (next : Text → Scan)
    → Shorter k s
    → ((rest : Text) → length rest < k → Shorter n (next rest))
    → Shorter n (proceed s next)
proceed-Shorter n k (left rest) next h f = f rest h
proceed-Shorter n k refused next h f = tt
proceed-Shorter n k out_of_fuel next h f = absurd h

with_key-Shorter :
    (n k : ℕ) (keys : List Text) (o : Option (Text × Text)) (next : Text → Text → Scan)
    → LessBehind k o
    → ((key rest : Text) → length rest < k → Shorter n (next key rest))
    → Shorter n (with_key keys o next)
with_key-Shorter n k keys none next h f = tt
with_key-Shorter n k keys (some (key, rest)) next h f = elim (Bool-cases (includes keys key)) [
  | inl e ↦ rw e tt
  | inr e ↦ rw e (f key rest h)
]

-- The end of a round: the closing character, or a comma and more.
closed-Shorter :
    (n p : ℕ) (u : Text) (more : Scan)
    → length u < n
    → (starts b',' u ≡ true → Shorter n more)
    → Shorter n (if starts p u then left (tail u) else if starts b',' u then more else refused)
closed-Shorter n p u more h f = elim (Bool-cases (starts p u)) [
  | inl e ↦ rw e (omega (arith, length-tail u))
  | inr e ↦ elim (Bool-cases (starts b',' u)) [
    | inl e' ↦ rw (e, e') (f e')
    | inr e' ↦ rw (e, e') tt
  ]
]

key_with-LessBehind :
    (n : ℕ) (rest : Text) (o : Option Text) → length rest < n → LessBehind n (key_with rest o)
key_with-LessBehind n rest none h = tt
key_with-LessBehind n rest (some key) h = h

module _ (parse_string : Text → Option Text) where
  parsed_slice-LessBehind :
      (n : ℕ) (o : Option (Text × Text))
      → LessBehind n o
      → LessBehind n (parsed_slice parse_string o)
  parsed_slice-LessBehind n none h = tt
  parsed_slice-LessBehind n (some (slice, rest)) h =
      key_with-LessBehind n rest (parse_string (b'"' ∷ slice)) h

  scan_key-LessBehind : (t : Text) → LessBehind (length t) (scan_key parse_string t)
  unfolding scan_key
  scan_key-LessBehind t = elim (Bool-cases (starts b'"' t)) [
    | inr e ↦ rw e tt
    | inl e ↦ rw e (
        parsed_slice-LessBehind (length t) (scan_string (tail t)) (
          LessBehind-mono (scan_string (tail t)) _ _ (scan_string-LessBehind (tail t))
            (length-tail t)))
  ]

  -- The fuel that a call gets is enough, and what it reads is not nothing.
  mutual
    unfolding scan_value

    scan_value-Shorter :
        (fuel : ℕ) (t : Text)
        → 2 * length t < fuel
        → Shorter (length t) (scan_value parse_string fuel t)
    scan_value-Shorter zero t h = absurd (omega arith)
    scan_value-Shorter (suc fuel) t h =
        let u = skip_whitespace t in
        let inner = skip_whitespace (tail u) in
        let skipped = length-skip_whitespace t in
        let skipped' = length-skip_whitespace (tail u) in
        elim (Bool-cases (starts b'{' u)) [
          | inl e ↦
              let some_read = length-tail-starts b'{' u e in
              elim (Bool-cases (starts b'}' inner)) [
                | inl e' ↦ rw (e, e') (omega (arith, length-tail inner))
                | inr e' ↦
                    rw (e, e')
                      (Shorter-mono _ (length inner) (length t)
                        (scan_members-Shorter fuel [] inner (omega arith)) (omega arith))
              ]
          | inr e ↦ elim (Bool-cases (starts b'[' u)) [
            | inl e' ↦
                let some_read = length-tail-starts b'[' u e' in
                elim (Bool-cases (starts b']' inner)) [
                  | inl e'' ↦ rw (e, e', e'') (omega (arith, length-tail inner))
                  | inr e'' ↦
                      rw (e, e', e'')
                        (Shorter-mono _ (length inner) (length t)
                          (scan_elements-Shorter fuel inner (omega arith)) (omega arith))
                ]
            | inr e' ↦ elim (Bool-cases (starts b'"' u)) [
              | inl e'' ↦
                  rw (e, e', e'')
                    (skip_string-Shorter (length t) (scan_key parse_string u)
                      (LessBehind-mono _ _ _ (scan_key-LessBehind u) (omega arith)))
              | inr e'' ↦
                  rw (e, e', e'')
                    (Shorter-mono _ (length u) (length t) (scan_scalar-Shorter u) (omega arith))
            ]
          ]
        ]

    scan_members-Shorter :
        (fuel : ℕ) (keys : List Text) (t : Text)
        → 2 * length t + 1 < fuel
        → Shorter (length t) (scan_members parse_string fuel keys t)
    scan_members-Shorter zero keys t h = absurd (omega arith)
    scan_members-Shorter (suc fuel) keys t h =
        with_key-Shorter (length t) (length t) keys (scan_key parse_string t) _
          (scan_key-LessBehind t)
          λ key rest r.
            proceed-Shorter (length t) (length t) (expect b':' (skip_whitespace rest)) _
              (Shorter-mono _ (length (skip_whitespace rest)) _
                (expect-Shorter b':' (skip_whitespace rest))
                (omega (arith, length-skip_whitespace rest)))
              λ behind r'.
                proceed-Shorter (length t) (length t) (scan_value parse_string fuel behind) _
                  (Shorter-mono _ (length behind) _ (scan_value-Shorter fuel behind (omega arith))
                    (omega arith))
                  λ next r''.
                    let u = skip_whitespace next in
                    let skipped = length-skip_whitespace next in
                    let inner = skip_whitespace (tail u) in
                    closed-Shorter (length t) b'}' u
                      (scan_members parse_string fuel (key ∷ keys) inner) (omega arith)
                      λ e.
                        let some_read = length-tail-starts b',' u e in
                        let skipped' = length-skip_whitespace (tail u) in
                        Shorter-mono _ (length inner) _
                          (scan_members-Shorter fuel (key ∷ keys) inner (omega arith)) (omega arith)

    scan_elements-Shorter :
        (fuel : ℕ) (t : Text)
        → 2 * length t + 1 < fuel
        → Shorter (length t) (scan_elements parse_string fuel t)
    scan_elements-Shorter zero t h = absurd (omega arith)
    scan_elements-Shorter (suc fuel) t h =
        proceed-Shorter (length t) (length t) (scan_value parse_string fuel t) _
          (scan_value-Shorter fuel t (omega arith))
          λ next r.
            let u = skip_whitespace next in
            let skipped = length-skip_whitespace next in
            closed-Shorter (length t) b']' u (scan_elements parse_string fuel (tail u))
              (omega arith)
              λ e.
                let some_read = length-tail-starts b',' u e in
                Shorter-mono _ (length (tail u)) _
                  (scan_elements-Shorter fuel (tail u) (omega arith)) (omega arith)

  end_ends : (u : Text) → at_end u ≢ out_of_fuel
  end_ends [] e = cc
  end_ends (c ∷ cs) e = cc

  at_end-ends :
      (n : ℕ) (s : Scan)
      → Shorter n s
      → proceed s (λ rest. at_end (skip_whitespace rest)) ≢ out_of_fuel
  at_end-ends n (left rest) h e = end_ends (skip_whitespace rest) e
  at_end-ends n refused h e = cc
  at_end-ends n out_of_fuel h e = h

  -- The scanner comes to an end on every text, of whatever depth: it never runs out of its fuel.
  pub scan_json_ends : (raw : Text) → scan_json parse_string raw ≢ out_of_fuel
  unfolding scan_json
  scan_json_ends raw =
      at_end-ends (length raw) (scan_value parse_string (2 * length raw + 1) raw)
        (scan_value-Shorter (2 * length raw + 1) raw (omega arith))
