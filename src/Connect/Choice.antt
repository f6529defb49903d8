-- ===== src/Connect/Choice.antt =====
-- connectConfig.ts: which profiles are offered and which is selected, and what is stored.
use terminus_web.Prelude.{
  ◌≡◌, refl, sym, ap, ◌∙◌, ◌≢◌, ◌↔◌, ◌⊎◌, inl, inr, true, false, ◌&&◌, List, [], ◌∷◌, ◌++◌, Option,
  none, some, Bool-cases, Option-cases, Text, text_eq, any, All, if◌then◌else◌, arith,
}
use terminus_web.Json.{str, elements, get}
use terminus_web.Connect.Endpoint.{ConnectionMode, local, private, Url}
use terminus_web.Connect.Profiles.{
  Profile, ConnectState, mode_eq, ByMode, no_modes, set_mode, to_list, find, find_wanted, or_else,
  head?, select_initial_profile, is_connect_profile, set_all, saved_profiles, resolve_profiles,
  connection_mode, read_profile, read_profiles, state_of, read_persisted_connect_state, is_null,
  mode_text, profile_json, profiles_json, persist_connect_state,
}

module _ (parse_url : Text → Option Url) where
  -- The last valid profile of a mode, as a specification.
  abbrev pub last_valid : ConnectionMode → List Profile → Option Profile
  last_valid mode [] = none
  last_valid mode (p ∷ ps) =
      or_else (last_valid mode ps)
        (if is_connect_profile parse_url p && mode_eq p.mode mode then some p else none)

  set_all-local :
      (ps : List Profile) (m : ByMode)
      → (set_all parse_url ps m).local_profile ≡ or_else (last_valid local ps) m.local_profile
  unfolding set_all
  set_all-local [] m = refl
  set_all-local (p ∷ ps) m =
      ground (arith, set_all-local ps m, set_all-local ps (set_mode p.mode p m))

  set_all-private :
      (ps : List Profile) (m : ByMode)
      → (set_all parse_url ps m).private_profile ≡ or_else (last_valid private ps) m.private_profile
  unfolding set_all
  set_all-private [] m = refl
  set_all-private (p ∷ ps) m =
      ground (arith, set_all-private ps m, set_all-private ps (set_mode p.mode p m))

  set_all-append :
      (ps qs : List Profile) (m : ByMode)
      → set_all parse_url (ps ++ qs) m ≡ set_all parse_url qs (set_all parse_url ps m)
  unfolding set_all
  set_all-append [] qs m = refl
  set_all-append (p ∷ ps) qs m =
      set_all-append ps qs (if is_connect_profile parse_url p then set_mode p.mode p m else m)

  -- The profile of a mode: the environment's last valid one, else the last valid saved one.
  abbrev pub chosen : ConnectionMode → List Profile → Option ConnectState → Option Profile
  chosen mode env saved =
      or_else (last_valid mode env) (last_valid mode (saved_profiles parse_url saved))

  -- At most one profile is offered for each mode, local before private, and it is valid: the last
  -- valid one of the environment, which is authoritative, else the last valid one that was saved.
  pub resolve-eq-chosen :
      (env : List Profile) (saved : Option ConnectState)
      → resolve_profiles parse_url env saved
        ≡ to_list (chosen local env saved) ++ to_list (chosen private env saved)
  unfolding resolve_profiles
  resolve-eq-chosen env saved =
      let old = saved_profiles parse_url saved in
      let first = set_all parse_url old no_modes in
      let second = set_all parse_url env first in
      let joined = set_all-append old env no_modes in
      ground (
        arith,
        joined,
        set_all-local env second,
        set_all-local env first,
        set_all-local old no_modes,
        set_all-private env second,
        set_all-private env first,
        set_all-private old no_modes,
      )

-- The profile is one of the list.
abbrev pub Offered : Profile → List Profile → Type 0
Offered p [] = ⊥
Offered p (q ∷ ps) = (q ≡ p) ⊎ Offered p ps

mode_eq_sound : (a b : ConnectionMode) → mode_eq a b ≡ true → a ≡ b
mode_eq_sound local local h = refl
mode_eq_sound private private h = refl
mode_eq_sound local private h = cc
mode_eq_sound private local h = cc

find-Offered :
    (mode : ConnectionMode) (ps : List Profile) {p : Profile}
    → find mode ps ≡ some p
    → Offered p ps × (p.mode ≡ mode)
unfolding find
find-Offered mode [] h = cc
find-Offered mode (q ∷ ps) {p} h = elim (Bool-cases (mode_eq q.mode mode)) [
  | inl e ↦
      let same : q ≡ p = cc (rw e at h) in
      (inl same, ap (λ r. r.mode) (sym same) ∙ mode_eq_sound q.mode mode e)
  | inr e ↦ let (there, same) = find-Offered mode ps (rw e at h) in (inr there, same)
]

find_wanted-Offered :
    (o : Option ConnectionMode) (ps : List Profile) {p : Profile}
    → find_wanted o ps ≡ some p
    → Offered p ps
find_wanted-Offered none ps h = cc
find_wanted-Offered (some mode) ps h = (find-Offered mode ps h).0

nothing_selected :
    (saved default : Option ConnectionMode) → select_initial_profile [] saved default ≡ none
unfolding select_initial_profile
nothing_selected none none = refl
nothing_selected none (some d) = refl
nothing_selected (some m) none = refl
nothing_selected (some m) (some d) = refl

none_selected :
    (ps : List Profile) (saved default : Option ConnectionMode)
    → select_initial_profile ps saved default ≡ none
    → ps ≡ []
unfolding select_initial_profile
none_selected [] saved default h = refl
none_selected (p ∷ ps) saved default h = ground arith

head-Offered : (ps : List Profile) {p : Profile} → head? ps ≡ some p → Offered p ps
head-Offered [] h = cc
head-Offered (q ∷ ps) h = inl (cc)

or_else-eq-some :
    (o q : Option Profile) {p : Profile} → or_else o q ≡ some p → (o ≡ some p) ⊎ (q ≡ some p)
or_else-eq-some none q h = inr h
or_else-eq-some (some a) q h = inl h

select_initial_profile_lem :
    (ps : List Profile) (saved default : Option ConnectionMode)
    → select_initial_profile ps saved default
      ≡ or_else (find_wanted saved ps) (or_else (find_wanted default ps) (head? ps))
unfolding select_initial_profile
select_initial_profile_lem ps saved default = refl

selected-Offered :
    (ps : List Profile) (saved default : Option ConnectionMode) {p : Profile}
    → select_initial_profile ps saved default ≡ some p
    → Offered p ps
selected-Offered ps saved default h =
    elim (or_else-eq-some _ _ (rw (select_initial_profile_lem ps saved default) at h)) [
      | inl e ↦ find_wanted-Offered saved ps e
      | inr e ↦ elim (or_else-eq-some _ _ e) [
        | inl e' ↦ find_wanted-Offered default ps e'
        | inr e' ↦ head-Offered ps e'
      ]
    ]

selected_mode :
    (ps : List Profile) (saved default : Option ConnectionMode) (mode : ConnectionMode)
    {p : Profile}
    → select_initial_profile ps saved default ≡ some p
    → saved ≡ some mode
    → find mode ps ≢ none
    → p.mode ≡ mode
selected_mode ps none default mode h e found = cc
selected_mode ps (some m) default mode {p} h e found = elim (Option-cases (find m ps)) [
  | inl missing ↦ let same : m ≡ mode = cc in absurd (found (rw (← same) missing))
  | inr (q, there) ↦
      let chosen_q : q ≡ p = cc (rw (select_initial_profile_lem ps (some m) default, there) at h) in
      let same : m ≡ mode = cc in
      ap (λ r. r.mode) (sym chosen_q) ∙ (find-Offered m ps there).1 ∙ same
]

-- Nothing is selected exactly if nothing is offered; what is selected is offered, and has the saved
-- mode if any profile has it.
pub select_lem :
    (ps : List Profile) (saved default : Option ConnectionMode)
    → ((select_initial_profile ps saved default ≡ none) ↔ (ps ≡ []))
      × ((p : Profile)
          → select_initial_profile ps saved default ≡ some p
          → Offered p ps
            × ((mode : ConnectionMode) → saved ≡ some mode → find mode ps ≢ none → p.mode ≡ mode))
select_lem ps saved default = (
  (none_selected ps saved default, λ e. rw e (nothing_selected saved default)),
  λ p h. (
    selected-Offered ps saved default h,
    λ mode e found. selected_mode ps saved default mode h e found,
  ),
)

module _ (parse_url : Text → Option Url) where
  abbrev pub IsStored : Profile → Type 0
  IsStored p = is_connect_profile parse_url p ≡ true

  connection_mode-text :
      (mode : ConnectionMode) → connection_mode (some (str (mode_text mode))) ≡ some mode
  unfolding connection_mode
  connection_mode-text local = refl
  connection_mode-text private = refl

  read_profile-json : (p : Profile) → IsStored p → read_profile parse_url (profile_json p) ≡ p ∷ []
  unfolding read_profile get text_eq
  read_profile-json p h = rw (connection_mode-text p.mode, h)

  read_profiles-json :
      (ps : List Profile)
      → All IsStored ps
      → (read_profiles parse_url (elements (profiles_json ps)) ≡ ps)
        × (any is_null (elements (profiles_json ps)) ≡ false)
  unfolding read_profiles elements profiles_json
  read_profiles-json [] h = (refl, refl)
  read_profiles-json (p ∷ ps) (h, hs) =
      let (same, full) = read_profiles-json ps hs in (rw (read_profile-json p h, same), full)

  state_of-full :
      (mode : ConnectionMode) (ps : List Profile)
      → ps ≢ []
      → state_of parse_url (some mode) ps ≡ some (record { selected_mode = mode; profiles = ps })
  state_of-full mode [] full = absurd (full refl)
  state_of-full mode (p ∷ ps) full = refl

  read_persisted_lem :
      (s : ConnectState)
      → read_persisted_connect_state parse_url (some (persist_connect_state s)) ≡ (
          if any is_null (elements (profiles_json s.profiles))
          then none
          else state_of parse_url
              (connection_mode (some (str (mode_text s.selected_mode))))
              (read_profiles parse_url (elements (profiles_json s.profiles))))
  unfolding read_persisted_connect_state persist_connect_state get text_eq
  read_persisted_lem s = refl

  -- A state with at least one profile, all of them valid, is read back as it was stored.
  pub read-persist :
      (s : ConnectState)
      → All IsStored s.profiles
      → s.profiles ≢ []
      → read_persisted_connect_state parse_url (some (persist_connect_state s)) ≡ some s
  read-persist s h full =
      let (same, no_null) = read_profiles-json s.profiles h in
      rw (
        read_persisted_lem s,
        no_null,
        same,
        connection_mode-text s.selected_mode,
        state_of-full s.selected_mode s.profiles full,
      )
