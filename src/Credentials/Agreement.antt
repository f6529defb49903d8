-- ===== src/Credentials/Agreement.antt =====
-- credentialStore.ts: the two stores answer alike, and what a store gives out.
use terminus_web.Prelude.{
  ℕ, ◌≡◌, refl, inl, inr, true, false, not, List, [], ◌∷◌, Option, none, some, Text, codes,
  if◌then◌else◌, Result, ok, err, Bool-cases, arith,
}
use terminus_web.Codec.Base64.{Bytes, decode_base64url}
use terminus_web.Codec.Identifiers.{is_uuid_v4}
use terminus_web.Credentials.{
  Platform, StoredCredential, Store, loaded, saved, Call, clear_credential, get_client_instance_id,
  load_credential, save_credential, is_signing_key, is_lifetime, import_secret, keep, save,
  is_after, is_usable, load_record, use_client, indexed_call, is_over, load_field, use_field,
  memory_call, indexed_run, memory_run,
}

module _ (platform : Platform) where
  open platform use {Key, import_key, extractable, usages, date_value}

  -- A key has the properties that it is imported with.
  abbrev pub KeepsImport : Type 0
  KeepsImport =
      (bytes : Bytes) → is_signing_key platform (import_key bytes false (codes "sign" ∷ [])) ≡ true

  abbrev pub IsDated : Option ℕ → Type 0
  IsDated none = ⊥
  IsDated (some expiry) = Unit

  abbrev pub IsKept : Option (StoredCredential Key) → Type 0
  IsKept none = Unit
  IsKept (some c) =
      (is_uuid_v4 c.credential_id ≡ true)
      × (is_signing_key platform c.key ≡ true)
      × IsDated (date_value c.expires_at)

  abbrev pub IsNamed : Option Text → Type 0
  IsNamed none = Unit
  IsNamed (some id) = is_uuid_v4 id ≡ true

  -- What a store holds that only its own methods have written.
  abbrev pub IsOwn : Store Key → Type 0
  IsOwn store = IsKept store.credential × IsNamed store.client_instance_id

  -- `randomUUID` gives identifiers of version 4.
  abbrev pub IsFresh : Call → Type 0
  IsFresh (get_client_instance_id fresh) = is_uuid_v4 fresh ≡ true
  IsFresh _ = Unit

  abbrev pub AreFresh : List Call → Type 0
  AreFresh [] = Unit
  AreFresh (c ∷ cs) = IsFresh c × AreFresh cs

  dated : (o : Option ℕ) (now : ℕ) → is_lifetime platform o now ≡ true → IsDated o
  dated none now h = cc
  dated (some expiry) now h = tt

  keep-IsOwn :
      (credential expires : Text) (r : Result Bytes) (store : Store Key)
      → KeepsImport
      → is_uuid_v4 credential ≡ true
      → IsDated (date_value expires)
      → IsOwn store
      → IsOwn (keep platform credential expires (import_secret platform r) store).0
  keep-IsOwn credential expires (err v) store keeps u d own = own
  keep-IsOwn credential expires (ok bytes) store keeps u d (kept, named) =
      ((u, keeps bytes, d), named)

  save-IsOwn :
      (credential secret expires : Text) (now : ℕ) (store : Store Key)
      → KeepsImport
      → IsOwn store
      → IsOwn (save platform credential secret expires now store).0
  unfolding save
  save-IsOwn credential secret expires now store keeps own =
      elim (Bool-cases (is_uuid_v4 credential)) [
        | inr e ↦ rw e own
        | inl e ↦ elim (Bool-cases (is_lifetime platform (date_value expires) now)) [
          | inr e' ↦ rw (e, e') own
          | inl e' ↦
              rw (e, e')
                (keep-IsOwn credential expires (decode_base64url secret (some 32)) store keeps e
                  (dated (date_value expires) now e') own)
        ]
      ]

  use_field-IsOwn :
      (o : Option Text) (fresh : Text) (store : Store Key)
      → is_uuid_v4 fresh ≡ true
      → IsOwn store
      → IsOwn (use_field platform o fresh store).0
  use_field-IsOwn none fresh store f (kept, named) = (kept, f)
  use_field-IsOwn (some id) fresh store f own = own

  load_field-IsOwn :
      (o : Option (StoredCredential Key)) (now : ℕ) (store : Store Key)
      → IsOwn store
      → IsOwn (load_field platform o now store).0
  load_field-IsOwn none now store own = own
  load_field-IsOwn (some c) now store (kept, named) =
      elim (Bool-cases (is_over platform (date_value c.expires_at) now)) [
        | inl e ↦ rw e (tt, named)
        | inr e ↦ rw e (kept, named)
      ]

  memory_call-IsOwn :
      (c : Call) (store : Store Key)
      → KeepsImport
      → IsFresh c
      → IsOwn store
      → IsOwn (memory_call platform c store).0
  unfolding memory_call
  memory_call-IsOwn clear_credential store keeps fresh (kept, named) = (tt, named)
  memory_call-IsOwn (save_credential credential secret expires now) store keeps fresh own =
      save-IsOwn credential secret expires now store keeps own
  memory_call-IsOwn (get_client_instance_id f) store keeps fresh own =
      use_field-IsOwn store.client_instance_id f store fresh own
  memory_call-IsOwn (load_credential now) store keeps fresh own =
      load_field-IsOwn store.credential now store own

  use_agrees :
      (o : Option Text) (fresh : Text) (store : Store Key)
      → IsNamed o
      → use_client platform o fresh store ≡ use_field platform o fresh store
  use_agrees none fresh store h = refl
  use_agrees (some id) fresh store h = rw h

  after-over :
      (o : Option ℕ) (now : ℕ) → IsDated o → is_after platform o now ≡ not (is_over platform o now)
  after-over none now d = absurd d
  after-over (some expiry) now d = ground arith

  load_agrees :
      (o : Option (StoredCredential Key)) (now : ℕ) (store : Store Key)
      → IsKept o
      → load_record platform o now store ≡ load_field platform o now store
  unfolding is_usable
  load_agrees none now store h = refl
  load_agrees (some c) now store (u, k, d) =
      rw (u, k, after-over (date_value c.expires_at) now d)
        (elim (Bool-cases (is_over platform (date_value c.expires_at) now)) [
          | inl e ↦ rw e
          | inr e ↦ rw e
        ])

  calls_agree :
      (c : Call) (store : Store Key)
      → IsOwn store
      → indexed_call platform c store ≡ memory_call platform c store
  unfolding indexed_call memory_call
  calls_agree clear_credential store own = refl
  calls_agree (save_credential credential secret expires now) store own = refl
  calls_agree (get_client_instance_id f) store (kept, named) =
      use_agrees store.client_instance_id f store named
  calls_agree (load_credential now) store (kept, named) =
      load_agrees store.credential now store kept

  -- The store in memory is a faithful double: from any state that the store's own methods have
  -- written, any calls get the same answers of it as of the store in IndexedDB, and leave the same
  -- state, where imported keys keep their properties and fresh identifiers are of version 4.
  pub runs_agree :
      (cs : List Call) (store : Store Key)
      → KeepsImport
      → AreFresh cs
      → IsOwn store
      → indexed_run platform cs store ≡ memory_run platform cs store
  unfolding indexed_run memory_run
  runs_agree [] store keeps fresh own = refl
  runs_agree (c ∷ cs) store keeps (f, fs) own =
      let next = memory_call-IsOwn c store keeps f own in
      rw (calls_agree c store own, runs_agree cs (memory_call platform c store).0 keeps fs next)

  load_saved :
      (credential expires : Text) (r : Result Bytes) (later : ℕ) (store : Store Key)
      {c : StoredCredential Key}
      → KeepsImport
      → is_uuid_v4 credential ≡ true
      → let kept = keep platform credential expires (import_secret platform r) store in
        kept.1 ≡ saved c
        → (load_record platform kept.0.credential later kept.0).1
          ≡ loaded (if is_after platform (date_value c.expires_at) later then some c else none)
  unfolding is_usable
  load_saved credential expires (err v) later store keeps u h = cc
  load_saved credential expires (ok bytes) later store {c} keeps u h =
      let made : StoredCredential Key = record {
        credential_id = credential;
        key = import_key bytes false (codes "sign" ∷ []);
        expires_at = expires;
      } in
      let same : made ≡ c = cc in
      rw (← same, u, keeps bytes)
        (elim (Bool-cases (is_after platform (date_value expires) later)) [
          | inl e ↦ rw e
          | inr e ↦ rw e
        ])

  -- A credential that was saved is loaded before its expiry, and none is loaded from then on, where
  -- imported keys keep their properties; nothing is saved that expires at once or after thirty days.
  pub save_load :
      (credential secret expires : Text) (now later : ℕ) (store : Store Key)
      {c : StoredCredential Key}
      → KeepsImport
      → let kept = indexed_call platform (save_credential credential secret expires now) store in
        kept.1 ≡ saved c
        → ((indexed_call platform (load_credential later) kept.0).1
            ≡ loaded (if is_after platform (date_value c.expires_at) later then some c else none))
          × (is_lifetime platform (date_value expires) now ≡ true)
  unfolding indexed_call save
  save_load credential secret expires now later store keeps h =
      elim (Bool-cases (is_uuid_v4 credential)) [
        | inr e ↦ cc (rw e at h)
        | inl e ↦ elim (Bool-cases (is_lifetime platform (date_value expires) now)) [
          | inr e' ↦ cc (rw (e, e') at h)
          | inl e' ↦ (
            rw (e, e')
                (load_saved credential expires (decode_base64url secret (some 32)) later store keeps
                  e (rw (e, e') at h)),
            e',
          )
        ]
      ]
