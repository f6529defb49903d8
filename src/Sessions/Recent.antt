-- ===== src/Sessions/Recent.antt =====
-- apps/web/protocol/recentSessions.ts: the recently used sessions, kept as one JSON text in the
-- page's storage. The stored text is the value that `JSON.parse` makes of it, and a list that is
-- written is read back as that value.
pub mod Laws
use terminus_web.Prelude.{
  ℕ, suc, Bool, true, false, not, ◌&&◌, ◌||◌, List, [], ◌∷◌, Option, none, some, Text, codes,
  text_eq, length, take, filter, leb, ltb, ◌==◌, if◌then◌else◌, map,
}
use terminus_web.Json.{
  Number, nat, other, Items, Json, null, bool, num, str, arr, obj, Fields, field, end, nil, cons,
  elements, get, has_exact_keys,
}
use terminus_web.Codec.Identifiers.{is_uuid_v4, is_session_id}
use terminus_web.Codec.Frames.{max_safe_sequence}

-- `Record`
pub record Entry : Type 0 where
  pub scope : Text
  pub credential_id : Text
  pub session_id : Text
  pub last_used_at : ℕ

-- `RecentSession`
pub record RecentSession : Type 0 where
  pub session_id : Text
  pub last_used_at : ℕ

-- What `getItem` gives: nothing, a text that is no JSON (or a storage that throws), or a value.
pub data Stored : Type 0 where
  missing unreadable : Stored
  parsed : Json → Stored

-- `LIMIT`
abbrev pub limit : ℕ
limit = 20

abbrev pub entry_keys : List Text
entry_keys = codes "credentialId" ∷ codes "lastUsedAt" ∷ codes "scope" ∷ codes "sessionId" ∷ []

-- The tests of the four fields, with the entry that they make.
abbrev pub checked_entry : Option Json → Option Json → Option Json → Option Json → Option Entry
checked_entry (some (str scope)) (some (str credential)) (some (str session)) (some (num (nat n))) =
    if leb (length scope) 2048
      && is_uuid_v4 credential
      && is_session_id session
      && leb n max_safe_sequence
    then some (record {
      scope = scope;
      credential_id = credential;
      session_id = session;
      last_used_at = n;
    })
    else none
checked_entry _ _ _ _ = none

-- The filter of `read`. The source compares the sorted keys as one text; with all four fields
-- present that is the same as having no other key.
unfoldable pub read_entry : Json → Option Entry
unfolding has_exact_keys get
read_entry (obj fs) =
    if has_exact_keys fs entry_keys []
    then checked_entry (get (codes "scope") fs) (get (codes "credentialId") fs)
        (get (codes "sessionId") fs) (get (codes "lastUsedAt") fs)
    else none
read_entry _ = none

abbrev pub keep_some : Option Entry → List Entry → List Entry
keep_some none es = es
keep_some (some e) es = e ∷ es

unfoldable pub read_entries : List Json → List Entry
read_entries [] = []
read_entries (v ∷ vs) = keep_some (read_entry v) (read_entries vs)

-- `read`
unfoldable pub read : Stored → List Entry
unfolding elements read_entries
read (parsed (arr vs)) = if ltb limit (length (elements vs)) then [] else read_entries (elements vs)
read _ = []

abbrev pub is_of : Text → Text → Entry → Bool
is_of scope credential e = text_eq e.scope scope && text_eq e.credential_id credential

abbrev pub shown : Entry → RecentSession
shown e = record { session_id = e.session_id; last_used_at = e.last_used_at }

-- `list`
unfoldable pub list : Text → Text → Stored → List RecentSession
unfolding read
list scope credential stored = map shown (filter (is_of scope credential) (read stored))

-- `JSON.stringify` of an entry and of a list of entries, as the value that is read back.
abbrev pub entry_json : Entry → Json
entry_json e = obj (
    field (codes "scope") (str e.scope) (
      field (codes "credentialId") (str e.credential_id) (
        field (codes "sessionId") (str e.session_id)
          (field (codes "lastUsedAt") (num (nat e.last_used_at)) end))))

unfoldable pub entries_json : List Entry → Items
entries_json [] = nil
entries_json (e ∷ es) = cons (entry_json e) (entries_json es)

abbrev pub is_same : Text → Text → Text → Entry → Bool
is_same scope credential session e = is_of scope credential e && text_eq e.session_id session

-- `records.unshift`, where `now` is a safe integer that is not negative.
abbrev pub add_new : Text → Text → Text → Option Number → List Entry → List Entry
add_new scope credential session (some (nat n)) es =
    if leb n max_safe_sequence
    then record {
      scope = scope;
      credential_id = credential;
      session_id = session;
      last_used_at = n;
    }
      ∷ es
    else es
add_new scope credential session _ es = es

-- `update`; `writable` is false where `setItem` throws.
unfoldable pub update : Bool → Text → Text → Text → Option Number → Stored → Stored
unfolding read entries_json
update writable scope credential session now stored =
    if not (is_uuid_v4 credential) || not (is_session_id session) || ltb 2048 (length scope)
    then stored
    else if writable
    then parsed (
        arr (
          entries_json (
            take limit (
              add_new scope credential session now
                (filter (λ e. not (is_same scope credential session e)) (read stored))))))
    else stored
