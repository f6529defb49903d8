-- ===== src/Sessions/Fragment.antt =====
-- apps/web/protocol/sessionFragment.ts: a session identifier in the fragment of the page's address.
use terminus_web.Prelude.{
  ℕ, ◌≡◌, refl, ◌↔◌, inl, inr, Bool, true, false, not, ◌&&◌, ◌||◌, List, [], ◌∷◌, ◌++◌, Option,
  none, some, Bool-cases, Text, codes, text_eq, all, ◌==◌, if◌then◌else◌, and-eq-true, arith,
}
use terminus_web.Codec.Identifiers.{matches, is_session_char, is_dash, is_session_id, session_id}

pub data SessionFragment : Type 0 where
  root : SessionFragment
  session : Text → SessionFragment
  invalid : SessionFragment

-- `[^/]`
abbrev pub not_slash : ℕ → Bool
not_slash c = not (c == b'/')

-- What follows a prefix.
unfoldable pub strip_prefix : Text → Text → Option Text
strip_prefix [] t = some t
strip_prefix (p ∷ ps) [] = none
strip_prefix (p ∷ ps) (c ∷ cs) = if p == c then strip_prefix ps cs else none

abbrev pub prefix : Text
prefix = codes "#/s/"

-- `[^/]+` up to the end.
abbrev pub is_segment : Text → Bool
is_segment [] = false
is_segment (c ∷ cs) = all not_slash (c ∷ cs)

-- The group of `/^#\/s\/([^/]+)$/u`, tested as a session identifier.
abbrev pub matched_session : Option Text → SessionFragment
matched_session none = invalid
matched_session (some id) = if is_segment id && is_session_id id then session id else invalid

unfoldable pub parse_session_fragment : Text → SessionFragment
unfolding strip_prefix text_eq is_session_id
parse_session_fragment hash =
    if text_eq hash [] || text_eq hash (codes "#")
    then root
    else matched_session (strip_prefix prefix hash)

-- `none` is the `TypeError`.
unfoldable pub session_fragment : Text → Option Text
unfolding is_session_id
session_fragment id = if is_session_id id then some (prefix ++ id) else none

strip_prefix-append : (p t : Text) → strip_prefix p (p ++ t) ≡ some t
unfolding strip_prefix
strip_prefix-append [] t = refl
strip_prefix-append (c ∷ p) t = ground (arith, strip_prefix-append p t)

eq-append_of_strip_prefix : (p t r : Text) → strip_prefix p t ≡ some r → t ≡ p ++ r
unfolding strip_prefix
eq-append_of_strip_prefix [] t r h = cc
eq-append_of_strip_prefix (c ∷ p) [] r h = cc
eq-append_of_strip_prefix (c ∷ p) (d ∷ t) r h = ground (arith, eq-append_of_strip_prefix p t r)

-- Classes that hold no slash match texts that hold none.
abbrev AvoidSlash : List (ℕ → Bool) → Type 0
AvoidSlash [] = Unit
AvoidSlash (p ∷ ps) = ((c : ℕ) → p c ≡ true → not_slash c ≡ true) × AvoidSlash ps

matches-not_slash :
    (ps : List (ℕ → Bool)) (t : Text) → AvoidSlash ps → matches ps t ≡ true → all not_slash t ≡ true
unfolding matches
matches-not_slash [] [] a h = refl
matches-not_slash [] (c ∷ cs) a h = cc
matches-not_slash (p ∷ ps) [] a h = cc
matches-not_slash (p ∷ ps) (c ∷ cs) (a, later_avoid) h =
    let (here, later) = and-eq-true (p c) (matches ps cs) h in
    rw (a c here) (matches-not_slash ps cs later_avoid later)

session_char-not_slash : (c : ℕ) → is_session_char c ≡ true → not_slash c ≡ true
session_char-not_slash c h = ground arith

dash-not_slash : (c : ℕ) → is_dash c ≡ true → not_slash c ≡ true
dash-not_slash c h = ground arith

session_id-AvoidSlash : AvoidSlash session_id
session_id-AvoidSlash = assumption (session_char-not_slash, dash-not_slash, tt)

session_id-is_segment : (t : Text) → is_session_id t ≡ true → is_segment t ≡ true
unfolding is_session_id matches
session_id-is_segment [] h = cc h
session_id-is_segment (c ∷ cs) h = matches-not_slash session_id (c ∷ cs) session_id-AvoidSlash h

parse_lem :
    (hash : Text)
    → parse_session_fragment hash ≡ (
        if text_eq hash [] || text_eq hash (codes "#")
        then root
        else matched_session (strip_prefix prefix hash))
unfolding parse_session_fragment
parse_lem hash = refl

session_fragment_lem :
    (id : Text) → session_fragment id ≡ (if is_session_id id then some (prefix ++ id) else none)
unfolding session_fragment
session_fragment_lem id = refl

matched-eq-session :
    (o : Option Text) (id : Text)
    → matched_session o ≡ session id
    → (o ≡ some id) × (is_session_id id ≡ true)
matched-eq-session none id h = cc
matched-eq-session (some t) id h = ground arith

session_fragment_parses :
    (id : Text) → is_session_id id ≡ true → parse_session_fragment (prefix ++ id) ≡ session id
unfolding text_eq
session_fragment_parses id valid =
    rw (
      parse_lem (prefix ++ id),
      strip_prefix-append prefix id,
      session_id-is_segment id valid,
      valid,
    )

-- Reading a fragment gives a session exactly if the fragment is the one that is written for that
-- session.
pub parse-eq-session_iff :
    (hash id : Text)
    → (parse_session_fragment hash ≡ session id) ↔ (session_fragment id ≡ some hash)
parse-eq-session_iff hash id = (
  λ h. elim (Bool-cases (text_eq hash [] || text_eq hash (codes "#"))) [
    | inl e ↦ cc (rw (parse_lem hash, e) at h)
    | inr e ↦
        let (found, valid) =
          matched-eq-session (strip_prefix prefix hash) id (rw (parse_lem hash, e) at h) in
        rw (eq-append_of_strip_prefix prefix hash id found) (unfold session_fragment in (rw valid))
  ],
  λ h. elim (Bool-cases (is_session_id id)) [
    | inl valid ↦
        let same : prefix ++ id ≡ hash = ground (arith, session_fragment_lem id) in
        rw (← same) (session_fragment_parses id valid)
    | inr e ↦ ground (arith, session_fragment_lem id)
  ],
)
