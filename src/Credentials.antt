-- ===== src/Credentials.antt =====
-- apps/web/protocol/credentialStore.ts: the store of the page's credential in IndexedDB and its
-- double in memory. A call of IndexedDB that fails is not modelled; each method runs to its end.
pub mod Agreement
use terminus_web.Prelude.{
  ℕ, ◌-◌, Bool, true, false, not, ◌&&◌, ◌||◌, List, [], ◌∷◌, Option, none, some, Text, codes,
  includes, leb, ltb, if◌then◌else◌, Result, ok, err,
}
use terminus_web.Codec.Base64.{Bytes, decode_base64url}
use terminus_web.Codec.Identifiers.{is_uuid_v4}

-- The platform: `crypto.subtle.importKey` with its flag for extractable keys and its usages, the
-- properties `extractable` and `usages` of a key, `none` where it has no such property, and the
-- value of a Date, `none` for NaN. Times are counted in milliseconds from the earliest date.
pub record Platform : Type 1 where
  pub Key : Type 0
  pub import_key : Bytes → Bool → List Text → Key
  pub extractable : Key → Option Bool
  pub usages : Key → Option (List Text)
  pub date_value : Text → Option ℕ

-- `MAX_CREDENTIAL_LIFETIME_MS`
abbrev pub max_credential_lifetime : ℕ
max_credential_lifetime = 2592000000

-- `StoredCredential`
pub record StoredCredential (Key : Type 0) : Type 0 where
  pub credential_id : Text
  pub key : Key
  pub expires_at : Text

-- The active records of the two object stores, and the two fields of the store in memory.
pub record Store (Key : Type 0) : Type 0 where
  pub credential : Option (StoredCredential Key)
  pub client_instance_id : Option Text

-- What a call gives: nothing, a text, a credential or none, or one of the three errors.
pub data Answer (Key : Type 0) : Type 0 where
  done : Answer Key
  client : Text → Answer Key
  loaded : Option (StoredCredential Key) → Answer Key
  saved : StoredCredential Key → Answer Key
  invalid_metadata invalid_secret : Answer Key

-- A call, with the time at which it is made and the identifier that `randomUUID` gives, in lower
-- case.
pub data Call : Type 0 where
  clear_credential : Call
  get_client_instance_id : (fresh : Text) → Call
  load_credential : (now : ℕ) → Call
  save_credential : (credential_id secret expires_at : Text) (now : ℕ) → Call

module _ (platform : Platform) where
  open platform use {Key, import_key, extractable, usages, date_value}

  abbrev pub new_store : Store Key
  new_store = record { credential = none; client_instance_id = none }

  abbrev pub signs : Option (List Text) → Bool
  signs none = false
  signs (some us) = includes us (codes "sign")

  abbrev pub is_false : Option Bool → Bool
  is_false (some false) = true
  is_false _ = false

  -- `isNonExtractableSigningKey`
  unfoldable pub is_signing_key : Key → Bool
  unfolding includes
  is_signing_key k = is_false (extractable k) && signs (usages k)

  -- The checks of the dates in `saveCredential`.
  abbrev pub is_lifetime : Option ℕ → ℕ → Bool
  is_lifetime none now = false
  is_lifetime (some expiry) now = ltb now expiry && leb (expiry - now) max_credential_lifetime

  -- `importCredentialKey`
  abbrev pub import_secret : Result Bytes → Option Key
  import_secret (ok bytes) = some (import_key bytes false (codes "sign" ∷ []))
  import_secret (err v) = none

  abbrev pub keep : Text → Text → Option Key → Store Key → Store Key × Answer Key
  keep credential expires none store = (store, invalid_secret)
  keep credential expires (some key) store =
      let c : StoredCredential Key = record {
        credential_id = credential;
        key = key;
        expires_at = expires;
      } in
      (record store { credential = some c }, saved c)

  -- `saveCredential` of either store.
  unfoldable pub save : Text → Text → Text → ℕ → Store Key → Store Key × Answer Key
  save credential secret expires now store =
      if not (is_uuid_v4 credential) || not (is_lifetime (date_value expires) now)
      then (store, invalid_metadata)
      else keep credential expires (import_secret (decode_base64url secret (some 32))) store

  -- A date that lies behind `now`.
  abbrev pub is_after : Option ℕ → ℕ → Bool
  is_after none now = false
  is_after (some expiry) now = ltb now expiry

  -- A record that `IndexedDbCredentialStore.loadCredential` does not delete.
  unfoldable pub is_usable : StoredCredential Key → ℕ → Bool
  unfolding is_signing_key
  is_usable c now =
      is_uuid_v4 c.credential_id && is_signing_key c.key && is_after (date_value c.expires_at) now

  abbrev pub load_record : Option (StoredCredential Key) → ℕ → Store Key → Store Key × Answer Key
  load_record none now store = (store, loaded none)
  load_record (some c) now store =
      if is_usable c now
      then (store, loaded (some c))
      else (record store { credential = none }, loaded none)

  abbrev pub use_client : Option Text → Text → Store Key → Store Key × Answer Key
  use_client none fresh store = (record store { client_instance_id = some fresh }, client fresh)
  use_client (some id) fresh store =
      if is_uuid_v4 id
      then (store, client id)
      else (record store { client_instance_id = some fresh }, client fresh)

  -- The methods of `IndexedDbCredentialStore`.
  unfoldable pub indexed_call : Call → Store Key → Store Key × Answer Key
  unfolding save is_usable
  indexed_call clear_credential store = (record store { credential = none }, done)
  indexed_call (get_client_instance_id fresh) store =
      use_client store.client_instance_id fresh store
  indexed_call (load_credential now) store = load_record store.credential now store
  indexed_call (save_credential credential secret expires now) store =
      save credential secret expires now store

  -- `new Date(expiresAt).valueOf() <= now`, false for NaN.
  abbrev pub is_over : Option ℕ → ℕ → Bool
  is_over none now = false
  is_over (some expiry) now = leb expiry now

  abbrev pub load_field : Option (StoredCredential Key) → ℕ → Store Key → Store Key × Answer Key
  load_field none now store = (store, loaded none)
  load_field (some c) now store =
      if is_over (date_value c.expires_at) now
      then (record store { credential = none }, loaded none)
      else (store, loaded (some c))

  abbrev pub use_field : Option Text → Text → Store Key → Store Key × Answer Key
  use_field none fresh store = (record store { client_instance_id = some fresh }, client fresh)
  use_field (some id) fresh store = (store, client id)

  -- The methods of `MemoryCredentialStore`.
  unfoldable pub memory_call : Call → Store Key → Store Key × Answer Key
  unfolding save
  memory_call clear_credential store = (record store { credential = none }, done)
  memory_call (get_client_instance_id fresh) store = use_field store.client_instance_id fresh store
  memory_call (load_credential now) store = load_field store.credential now store
  memory_call (save_credential credential secret expires now) store =
      save credential secret expires now store

  -- Calls in turn, with what each gives.
  unfoldable pub indexed_run : List Call → Store Key → Store Key × List (Answer Key)
  unfolding indexed_call
  indexed_run [] store = (store, [])
  indexed_run (c ∷ cs) store =
      let (store', answer) = indexed_call c store in
      let (last, answers) = indexed_run cs store' in (last, answer ∷ answers)

  unfoldable pub memory_run : List Call → Store Key → Store Key × List (Answer Key)
  unfolding memory_call
  memory_run [] store = (store, [])
  memory_run (c ∷ cs) store =
      let (store', answer) = memory_call c store in
      let (last, answers) = memory_run cs store' in (last, answer ∷ answers)
