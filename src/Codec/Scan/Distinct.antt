-- ===== src/Codec/Scan/Distinct.antt =====
-- codec.ts: a text that the scanner accepts is that of a value in which no object repeats a key.
use terminus_web.Prelude.{
  ℕ, zero, suc, ◌+◌, ◌*◌, ◌≡◌, refl, sym, ap, ◌∙◌, ◌⊎◌, inl, inr, Bool, true, false, not, List, [],
  ◌∷◌, Option, none, some, Text, text_eq, text_eq_iff, text_eq_self, includes, length, all, ==_iff,
  and-eq-true, if◌then◌else◌, Bool-cases,
}
use terminus_web.Codec.Values.{are_distinct}
use terminus_web.Codec.Scan.{
  Scan, left, refused, out_of_fuel, proceed, skip_whitespace, starts, tail, expect, scan_scalar,
  scan_key, skip_string, with_key, scan_value, scan_members, scan_elements, at_end, scan_json,
}

-- The character that a text starts with.
starts-eq : (p : ℕ) (t : Text) → starts p t ≡ true → t ≡ p ∷ tail t
starts-eq p [] h = cc
starts-eq p (c ∷ cs) h = ap (λ x. x ∷ cs) ((==_iff c p).0 h)

module _ (parse_string : Text → Option Text) where
  -- The grammar of the texts that are accepted: what is read of the first text leaves the second.
  -- Members are indexed by their keys, which are all different in an object.
  mutual
    pub data HasValue : Text → Text → Type 0 where
      an_object :
          {t u r : Text} (keys : List Text)
          → skip_whitespace t ≡ b'{' ∷ u
          → HasMembers keys (skip_whitespace u) r
          → are_distinct keys ≡ true
          → HasValue t r
      empty_object :
          {t u r : Text}
          → skip_whitespace t ≡ b'{' ∷ u
          → skip_whitespace u ≡ b'}' ∷ r
          → HasValue t r
      an_array :
          {t u r : Text}
          → skip_whitespace t ≡ b'[' ∷ u
          → HasElements (skip_whitespace u) r
          → HasValue t r
      empty_array :
          {t u r : Text}
          → skip_whitespace t ≡ b'[' ∷ u
          → skip_whitespace u ≡ b']' ∷ r
          → HasValue t r
      a_string :
          {t r : Text} (s : Text)
          → scan_key parse_string (skip_whitespace t) ≡ some (s, r)
          → HasValue t r
      a_scalar : {t r : Text} → scan_scalar (skip_whitespace t) ≡ left r → HasValue t r

    pub data HasMembers : List Text → Text → Text → Type 0 where
      last_member :
          {t a b c r : Text} (key : Text)
          → scan_key parse_string t ≡ some (key, a)
          → skip_whitespace a ≡ b':' ∷ b
          → HasValue b c
          → skip_whitespace c ≡ b'}' ∷ r
          → HasMembers (key ∷ []) t r
      next_member :
          {t a b c d r : Text} (key : Text) (keys : List Text)
          → scan_key parse_string t ≡ some (key, a)
          → skip_whitespace a ≡ b':' ∷ b
          → HasValue b c
          → skip_whitespace c ≡ b',' ∷ d
          → HasMembers keys (skip_whitespace d) r
          → HasMembers (key ∷ keys) t r

    pub data HasElements : Text → Text → Type 0 where
      last_element : {t c r : Text} → HasValue t c → skip_whitespace c ≡ b']' ∷ r → HasElements t r
      next_element :
          {t c d r : Text}
          → HasValue t c
          → skip_whitespace c ≡ b',' ∷ d
          → HasElements d r
          → HasElements t r

  -- Keys that are different from each other and from those seen before.
  abbrev fresh : List Text → Text → Bool
  fresh seen k = not (includes seen k)

  not_included :
      (key : Text) (seen ks : List Text)
      → all (fresh (key ∷ seen)) ks ≡ true
      → (includes ks key ≡ false) × (all (fresh seen) ks ≡ true)
  unfolding includes
  not_included key seen [] h = (refl, refl)
  not_included key seen (k ∷ ks) h =
      let (here, rest) = and-eq-true (fresh (key ∷ seen) k) (all (fresh (key ∷ seen)) ks) h in
      let (out, more) = not_included key seen ks rest in
      elim (Bool-cases (text_eq k key)) [
        | inl e ↦
            let same : key ≡ k = sym ((text_eq_iff k key).0 e) in
            cc (rw (same, text_eq_self k) at here)
        | inr e ↦ elim (Bool-cases (text_eq key k)) [
          | inl e' ↦ cc (rw e' at here)
          | inr e' ↦ (rw e out, rw (more, (rw e' at here)))
        ]
      ]

  abbrev Members : List Text → Text → Text → Type 0
  Members seen t r =
      (ks : List Text) × HasMembers ks t r × (are_distinct ks ≡ true) × (all (fresh seen) ks ≡ true)

  proceed-eq-left :
      (s : Scan) (next : Text → Scan) {r : Text}
      → proceed s next ≡ left r
      → (rest : Text) × (s ≡ left rest) × (next rest ≡ left r)
  proceed-eq-left (left rest) next h = (rest, refl, h)
  proceed-eq-left refused next h = cc
  proceed-eq-left out_of_fuel next h = cc

  with_key-eq-left :
      (seen : List Text) (o : Option (Text × Text)) (next : Text → Text → Scan) {r : Text}
      → with_key seen o next ≡ left r
      → (key : Text) × (rest : Text) × (o ≡ some (key, rest))
        × (fresh seen key ≡ true)
        × (next key rest ≡ left r)
  with_key-eq-left seen none next h = cc
  with_key-eq-left seen (some (key, rest)) next h = elim (Bool-cases (includes seen key)) [
    | inl e ↦ cc (rw e at h)
    | inr e ↦ (key, rest, refl, rw e, rw e at h)
  ]

  expect-eq-left : (p : ℕ) (t : Text) {r : Text} → expect p t ≡ left r → t ≡ p ∷ r
  expect-eq-left p t h = elim (Bool-cases (starts p t)) [
    | inr e ↦ cc (rw e at h)
    | inl e ↦ starts-eq p t e ∙ ap (λ x. p ∷ x) (cc (rw e at h))
  ]

  -- The end of a round.
  closed-eq-left :
      (p : ℕ) (u : Text) (more : Scan) {r : Text}
      → (if starts p u then left (tail u) else if starts b',' u then more else refused) ≡ left r
      → (u ≡ p ∷ r) ⊎ (u ≡ b',' ∷ tail u) × (more ≡ left r)
  closed-eq-left p u more h = elim (Bool-cases (starts p u)) [
    | inl e ↦ inl (starts-eq p u e ∙ ap (λ x. p ∷ x) (cc (rw e at h)))
    | inr e ↦ elim (Bool-cases (starts b',' u)) [
      | inl e' ↦ inr (starts-eq b',' u e', rw (e, e') at h)
      | inr e' ↦ cc (rw (e, e') at h)
    ]
  ]

  skip_string-eq-left :
      (o : Option (Text × Text)) {r : Text}
      → skip_string o ≡ left r
      → (s : Text) × (o ≡ some (s, r))
  skip_string-eq-left none h = cc
  skip_string-eq-left (some (s, rest)) h = (s, cc)

  -- The two alternatives of a bracket that may be closed at once.
  bracket :
      (p : ℕ) (u : Text) (more : Scan) {r : Text}
      → (if starts p u then left (tail u) else more) ≡ left r
      → (u ≡ p ∷ r) ⊎ (more ≡ left r)
  bracket p u more h = elim (Bool-cases (starts p u)) [
    | inl e ↦ inl (starts-eq p u e ∙ ap (λ x. p ∷ x) (cc (rw e at h)))
    | inr e ↦ inr (rw e at h)
  ]

  mutual
    unfolding scan_value are_distinct

    scan_value-HasValue :
        (fuel : ℕ) (t : Text) {r : Text} → scan_value parse_string fuel t ≡ left r → HasValue t r
    scan_value-HasValue zero t h = cc
    scan_value-HasValue (suc fuel) t h =
        let u = skip_whitespace t in
        let inner = skip_whitespace (tail u) in
        elim (Bool-cases (starts b'{' u)) [
          | inl e ↦
              elim (bracket b'}' inner (scan_members parse_string fuel [] inner) (rw e at h)) [
                | inl closed ↦ empty_object (starts-eq b'{' u e) closed
                | inr more ↦
                    let (keys, members, distinct, _) = scan_members-Members fuel [] inner more in
                    an_object keys (starts-eq b'{' u e) members distinct
              ]
          | inr e ↦ elim (Bool-cases (starts b'[' u)) [
            | inl e' ↦
                elim (bracket b']' inner (scan_elements parse_string fuel inner)
                  (rw (e, e') at h)) [
                    | inl closed ↦ empty_array (starts-eq b'[' u e') closed
                    | inr more ↦
                        an_array (starts-eq b'[' u e') (scan_elements-HasElements fuel inner more)
                  ]
            | inr e' ↦ elim (Bool-cases (starts b'"' u)) [
              | inl e'' ↦
                  let (s, found) =
                    skip_string-eq-left (scan_key parse_string u) (rw (e, e', e'') at h) in
                  a_string s found
              | inr e'' ↦ a_scalar (rw (e, e', e'') at h)
            ]
          ]
        ]

    scan_members-Members :
        (fuel : ℕ) (seen : List Text) (t : Text) {r : Text}
        → scan_members parse_string fuel seen t ≡ left r
        → Members seen t r
    scan_members-Members zero seen t h = cc
    scan_members-Members (suc fuel) seen t h =
        let (key, a, found, new, h1) = with_key-eq-left seen (scan_key parse_string t) _ h in
        let (b, colon, h2) = proceed-eq-left (expect b':' (skip_whitespace a)) _ h1 in
        let (c, value, h3) = proceed-eq-left (scan_value parse_string fuel b) _ h2 in
        let u = skip_whitespace c in
        let inner = skip_whitespace (tail u) in
        let has = scan_value-HasValue fuel b value in
        let behind = expect-eq-left b':' (skip_whitespace a) colon in
        elim (closed-eq-left b'}' u (scan_members parse_string fuel (key ∷ seen) inner) h3) [
          | inl closed ↦ (key ∷ [], last_member key found behind has closed, refl, rw new)
          | inr (comma, more) ↦
              let (ks, members, distinct, others) =
                scan_members-Members fuel (key ∷ seen) inner more in
              let (out, rest) = not_included key seen ks others in
              (
                key ∷ ks,
                next_member key ks found behind has comma members,
                rw (out, distinct),
                rw (new, rest),
              )
        ]

    scan_elements-HasElements :
        (fuel : ℕ) (t : Text) {r : Text}
        → scan_elements parse_string fuel t ≡ left r
        → HasElements t r
    scan_elements-HasElements zero t h = cc
    scan_elements-HasElements (suc fuel) t h =
        let (c, value, h1) = proceed-eq-left (scan_value parse_string fuel t) _ h in
        let u = skip_whitespace c in
        let has = scan_value-HasValue fuel t value in
        elim (closed-eq-left b']' u (scan_elements parse_string fuel (tail u)) h1) [
          | inl closed ↦ last_element has closed
          | inr (comma, more) ↦
              next_element has comma (scan_elements-HasElements fuel (tail u) more)
        ]

  at_end-eq-left : (u : Text) {r : Text} → at_end u ≡ left r → u ≡ []
  at_end-eq-left [] h = refl
  at_end-eq-left (c ∷ cs) h = cc

  -- An accepted text is that of one value of the grammar, in which all keys of an object are
  -- different, with nothing but white space behind it.
  pub scan_json-HasValue :
      (raw : Text) {r : Text}
      → scan_json parse_string raw ≡ left r
      → (rest : Text) × HasValue raw rest × (skip_whitespace rest ≡ [])
  unfolding scan_json
  scan_json-HasValue raw h =
      let (rest, value, h') =
        proceed-eq-left (scan_value parse_string (2 * length raw + 1) raw) _ h in
      (
        rest,
        scan_value-HasValue (2 * length raw + 1) raw value,
        at_end-eq-left (skip_whitespace rest) h',
      )
