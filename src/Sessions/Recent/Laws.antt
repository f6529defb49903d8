-- ===== src/Sessions/Recent/Laws.antt =====
-- recentSessions.ts: what is written is read back, and what an update leaves.
use terminus_web.Prelude.{
  ℕ, suc, ◌≤◌, ◌≡◌, refl, ap, ◌∙◌, ◌≢◌, inl, inr, Bool, true, false, not, List, [], ◌∷◌, Option,
  none, some, Option-cases, Bool-cases, Text, codes, text_eq, text_eq_self, text_eq_iff, length,
  take, filter, length-take_le, All, All-take, leb, ltb, if◌then◌else◌, map, arith,
}
use terminus_web.Json.{Number, nat, Items, Json, obj, arr, elements, get, has_exact_keys}
use terminus_web.Codec.Identifiers.{is_uuid_v4, is_session_id}
use terminus_web.Codec.Frames.{max_safe_sequence}
use terminus_web.Sessions.Recent.{
  Entry, RecentSession, Stored, parsed, limit, checked_entry, read_entry, read_entries, read, is_of,
  shown, list, entry_json, entries_json, is_same, add_new, update, entry_keys,
}

-- What every stored entry satisfies.
pub record IsEntry (e : Entry) : Type 0 where
  pub short : length e.scope ≤ 2048
  pub credential : is_uuid_v4 e.credential_id ≡ true
  pub session : is_session_id e.session_id ≡ true
  pub safe : e.last_used_at ≤ max_safe_sequence

read_entry-entry_json : (e : Entry) → IsEntry e → read_entry (entry_json e) ≡ some e
unfolding read_entry
read_entry-entry_json e h = rw (h.credential, h.session) (ground arith)

read_entries-json :
    (es : List Entry) → All IsEntry es → read_entries (elements (entries_json es)) ≡ es
unfolding read_entries elements entries_json
read_entries-json [] h = refl
read_entries-json (e ∷ es) (h, hs) = rw (read_entry-entry_json e h, read_entries-json es hs)

length-entries_json : (es : List Entry) → length (elements (entries_json es)) ≡ length es
unfolding elements entries_json
length-entries_json [] = refl
length-entries_json (e ∷ es) = ap suc (length-entries_json es)

read_lem :
    (vs : Items)
    → read (parsed (arr vs))
      ≡ (if ltb limit (length (elements vs)) then [] else read_entries (elements vs))
unfolding read
read_lem vs = refl

read-written :
    (es : List Entry)
    → All IsEntry es
    → length es ≤ limit
    → read (parsed (arr (entries_json es))) ≡ es
read-written es h b =
    read_lem (entries_json es) ∙ rw (length-entries_json es, read_entries-json es h) (ground arith)

checked_entry-IsEntry :
    (a b c d : Option Json) {e : Entry} → checked_entry a b c d ≡ some e → IsEntry e
checked_entry-IsEntry a b c d h = ground arith

read_entry-IsEntry : (v : Json) {e : Entry} → read_entry v ≡ some e → IsEntry e
unfolding read_entry
read_entry-IsEntry (obj fs) {e} h = elim (Bool-cases (has_exact_keys fs entry_keys [])) [
  | inl exact ↦
      checked_entry-IsEntry (get (codes "scope") fs) (get (codes "credentialId") fs)
        (get (codes "sessionId") fs) (get (codes "lastUsedAt") fs) (rw exact at h)
  | inr wrong ↦ cc (rw wrong at h)
]
read_entry-IsEntry _ h = cc

read_entries-IsEntry : (vs : List Json) → All IsEntry (read_entries vs)
unfolding read_entries
read_entries-IsEntry [] = tt
read_entries-IsEntry (v ∷ vs) = elim (Option-cases (read_entry v)) [
  | inl e ↦ rw e (read_entries-IsEntry vs)
  | inr (a, e) ↦ rw e (read_entry-IsEntry v e, read_entries-IsEntry vs)
]

pub read-IsEntry : (stored : Stored) → All IsEntry (read stored)
unfolding read
read-IsEntry (parsed (arr vs)) = elim (Bool-cases (ltb limit (length (elements vs)))) [
  | inl e ↦ rw e tt
  | inr e ↦ rw e (read_entries-IsEntry (elements vs))
]
read-IsEntry _ = tt

All-filter :
    {A : Type 0} (P : A → Type 0) (q : A → Bool) (xs : List A) → All P xs → All P (filter q xs)
All-filter P q [] h = tt
All-filter P q (x ∷ xs) (p, h) = elim (Bool-cases (q x)) [
  | inl e ↦ rw e (p, All-filter P q xs h)
  | inr e ↦ rw e (All-filter P q xs h)
]

-- What passes a filter satisfies its test.
All-filter_test : {A : Type 0} (q : A → Bool) (xs : List A) → All (λ x. q x ≡ true) (filter q xs)
All-filter_test q [] = tt
All-filter_test q (x ∷ xs) = elim (Bool-cases (q x)) [
  | inl e ↦ rw e (e, All-filter_test q xs)
  | inr e ↦ rw e (All-filter_test q xs)
]

list_lem :
    (scope credential : Text) (stored : Stored)
    → list scope credential stored ≡ map shown (filter (is_of scope credential) (read stored))
unfolding list
list_lem scope credential stored = refl

update_lem :
    (scope credential session : Text) (now : Option Number) (stored : Stored)
    → is_uuid_v4 credential ≡ true
    → is_session_id session ≡ true
    → length scope ≤ 2048
    → update true scope credential session now stored
      ≡ parsed (
          arr (
            entries_json (
              take limit (
                add_new scope credential session now
                  (filter (λ e. not (is_same scope credential session e)) (read stored))))))
unfolding update
update_lem scope credential session now stored c s b = rw (c, s) (ground arith)

module _ (scope credential session : Text) where
  -- The arguments that `update` does not refuse.
  pub record AreValid : Type 0 where
    pub short : length scope ≤ 2048
    pub is_credential : is_uuid_v4 credential ≡ true
    pub is_session : is_session_id session ≡ true

  abbrev pub others : Stored → List Entry
  others stored = filter (λ e. not (is_same scope credential session e)) (read stored)

  add_new-IsEntry :
      (now : Option Number) (es : List Entry)
      → AreValid
      → All IsEntry es
      → All IsEntry (add_new scope credential session now es)
  add_new-IsEntry (some (nat n)) es v h = elim (Bool-cases (leb n max_safe_sequence)) [
    | inl e ↦ rw e (ground arith)
    | inr e ↦ rw e h
  ]
  add_new-IsEntry _ es v h = h

  -- After an update with valid arguments in a storage that can be written, the stored list is the
  -- new entry, if there is one, before the entries that are not of this very session, cut off at
  -- twenty.
  pub read-update :
      (now : Option Number) (stored : Stored)
      → AreValid
      → read (update true scope credential session now stored)
        ≡ take limit (add_new scope credential session now (others stored))
  read-update now stored v =
      let es = add_new scope credential session now (others stored) in
      let valid = add_new-IsEntry now (others stored) v (
        All-filter IsEntry (λ e. not (is_same scope credential session e)) (read stored)
          (read-IsEntry stored)) in
      rw (update_lem scope credential session now stored v.is_credential v.is_session v.short)
        (read-written (take limit es) (All-take IsEntry limit es valid) (length-take_le limit es))

  -- Of entries that are not of this very session, none of the credential's in the scope has it.
  no_session :
      (es : List Entry)
      → All (λ e. not (is_same scope credential session e) ≡ true) es
      → All (λ r. r.session_id ≢ session) (map shown (filter (is_of scope credential) es))
  no_session [] h = tt
  no_session (e ∷ es) (h, hs) = elim (Bool-cases (is_of scope credential e)) [
    | inl here ↦
        let other : text_eq e.session_id session ≡ false = ground arith in
        rw here ((λ same. cc (other, (text_eq_iff e.session_id session).1 same)), no_session es hs)
    | inr away ↦ rw away (no_session es hs)
  ]

  -- After an update with a valid time the session is listed first, with that time, and only once.
  pub update_lists_first :
      (n : ℕ) (stored : Stored)
      → AreValid
      → n ≤ max_safe_sequence
      → (rest : List RecentSession) × (list scope credential
            (update true scope credential session (some (nat n)) stored)
          ≡ record { session_id = session; last_used_at = n } ∷ rest)
        × All (λ r. r.session_id ≢ session) rest
  update_lists_first n stored v b =
      let kept = take 19 (others stored) in
      let safe : leb n max_safe_sequence ≡ true = ground arith in
      (
        map shown (filter (is_of scope credential) kept),
        list_lem scope credential (update true scope credential session (some (nat n)) stored)
            ∙ rw (
              read-update (some (nat n)) stored v,
              safe,
              text_eq_self scope,
              text_eq_self credential,
            ),
        no_session kept (
            All-take (λ e. not (is_same scope credential session e) ≡ true) 19 (others stored)
              (All-filter_test (λ e. not (is_same scope credential session e)) (read stored))),
      )

  -- After an update with no time the session is not listed.
  pub update_forgets :
      (stored : Stored)
      → AreValid
      → All
          (λ r. r.session_id ≢ session)
          (list scope credential (update true scope credential session none stored))
  update_forgets stored v =
      rw
        (
          list_lem scope credential (update true scope credential session none stored),
          read-update none stored v,
        )
        (no_session (take limit (others stored)) (
          All-take (λ e. not (is_same scope credential session e) ≡ true) limit (others stored)
            (All-filter_test (λ e. not (is_same scope credential session e)) (read stored))))
