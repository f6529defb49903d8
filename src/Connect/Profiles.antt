-- ===== src/Connect/Profiles.antt =====
-- apps/web/protocol/connectConfig.ts: the connection profiles of the build and of the page's storage.
use terminus_web.Prelude.{
  Bool, true, false, not, ◌&&◌, List, [], ◌∷◌, ◌++◌, Option, none, some, Text, codes, text_eq,
  is_space, all, any, if◌then◌else◌, Result, ok, err,
}
use terminus_web.Json.{Json, null, str, arr, obj, Items, nil, cons, field, end, elements, get}
use terminus_web.Connect.Endpoint.{ConnectionMode, local, private, Url, validate_wss_policy}

-- `ConnectProfile`
pub record Profile : Type 0 where
  pub mode : ConnectionMode
  pub endpoint : Text
  pub expected_web_origin : Text

-- `PersistedConnectState`
pub record ConnectState : Type 0 where
  pub selected_mode : ConnectionMode
  pub profiles : List Profile

-- The values of the four environment variables of the build.
pub record Environment : Type 0 where
  pub local_endpoint : Option Text
  pub local_origin : Option Text
  pub private_endpoint : Option Text
  pub private_origin : Option Text

-- A profile where both texts are there and not empty.
abbrev pub profile_of : ConnectionMode → Option Text → Option Text → List Profile
profile_of mode (some (c ∷ cs)) (some (d ∷ ds)) =
    record { mode = mode; endpoint = c ∷ cs; expected_web_origin = d ∷ ds } ∷ []
profile_of mode _ _ = []

unfoldable pub build_connect_profiles_from_env : Environment → List Profile
build_connect_profiles_from_env env =
    profile_of local env.local_endpoint env.local_origin
    ++ profile_of private env.private_endpoint env.private_origin

-- `isConnectionMode`, and `parseDefaultMode` for a text that may be missing.
unfoldable pub connection_mode : Option Json → Option ConnectionMode
unfolding text_eq
connection_mode (some (str t)) =
    if text_eq t (codes "local")
    then some local
    else if text_eq t (codes "private")
    then some private
    else none
connection_mode _ = none

unfoldable pub parse_default_mode : Option Text → Option ConnectionMode
unfolding connection_mode
parse_default_mode none = none
parse_default_mode (some t) = connection_mode (some (str t))

-- `text.trim() === ""`
unfoldable pub is_blank : Text → Bool
unfolding is_space
is_blank = all is_space

abbrev pub is_ok {ℓ} : {A : Type ℓ} → Result A → Bool
is_ok (ok a) = true
is_ok (err v) = false

abbrev pub mode_eq : ConnectionMode → ConnectionMode → Bool
mode_eq local local = true
mode_eq private private = true
mode_eq _ _ = false

-- The two entries of `profileByMode`.
pub record ByMode : Type 0 where
  pub local_profile : Option Profile
  pub private_profile : Option Profile

abbrev pub no_modes : ByMode
no_modes = record { local_profile = none; private_profile = none }

abbrev pub set_mode : ConnectionMode → Profile → ByMode → ByMode
set_mode local p m = record m { local_profile = some p }
set_mode private p m = record m { private_profile = some p }

abbrev pub to_list : Option Profile → List Profile
to_list none = []
to_list (some p) = p ∷ []

-- The first profile of the mode.
unfoldable pub find : ConnectionMode → List Profile → Option Profile
find mode [] = none
find mode (p ∷ ps) = if mode_eq p.mode mode then some p else find mode ps

abbrev pub find_wanted : Option ConnectionMode → List Profile → Option Profile
find_wanted none ps = none
find_wanted (some mode) ps = find mode ps

abbrev pub or_else : Option Profile → Option Profile → Option Profile
or_else none q = q
or_else (some p) q = some p

abbrev pub head? : List Profile → Option Profile
head? [] = none
head? (p ∷ ps) = some p

-- `selectInitialProfile`: the saved mode, else the default mode, else the first profile.
unfoldable pub select_initial_profile :
    List Profile → Option ConnectionMode → Option ConnectionMode → Option Profile
unfolding find
select_initial_profile ps saved default =
    or_else (find_wanted saved ps) (or_else (find_wanted default ps) (head? ps))

abbrev pub is_null : Json → Bool
is_null null = true
is_null _ = false

module _ (parse_url : Text → Option Url) where
  -- `isConnectProfile`, of a profile whose fields have their types.
  unfoldable pub is_connect_profile : Profile → Bool
  is_connect_profile p =
      not (is_blank p.endpoint)
      && not (is_blank p.expected_web_origin)
      && is_ok (
          validate_wss_policy parse_url
            (record {
              mode = some p.mode;
              endpoint = p.endpoint;
              expected_web_origin = p.expected_web_origin;
            })
            p.expected_web_origin)

  -- The loops of `resolveProfiles`.
  unfoldable pub set_all : List Profile → ByMode → ByMode
  set_all [] m = m
  set_all (p ∷ ps) m = set_all ps (if is_connect_profile p then set_mode p.mode p m else m)

  abbrev pub saved_profiles : Option ConnectState → List Profile
  saved_profiles none = []
  saved_profiles (some s) = s.profiles

  unfoldable pub resolve_profiles : List Profile → Option ConnectState → List Profile
  unfolding set_all
  resolve_profiles env saved =
      let m = set_all env (set_all (saved_profiles saved ++ env) no_modes) in
      to_list m.local_profile ++ to_list m.private_profile

  -- A stored profile whose fields have their types and that is valid.
  abbrev pub checked_profile : Option ConnectionMode → Option Json → Option Json → List Profile
  checked_profile (some mode) (some (str endpoint)) (some (str origin)) =
      let p : Profile = record { mode = mode; endpoint = endpoint; expected_web_origin = origin } in
      if is_connect_profile p then p ∷ [] else []
  checked_profile _ _ _ = []

  -- The filter and the map of `readPersistedConnectState`, for one element that is not null.
  unfoldable pub read_profile : Json → List Profile
  read_profile (obj fs) =
      checked_profile (connection_mode (get (codes "mode") fs)) (get (codes "endpoint") fs)
        (get (codes "expectedWebOrigin") fs)
  read_profile _ = []

  unfoldable pub read_profiles : List Json → List Profile
  read_profiles [] = []
  read_profiles (v ∷ vs) = read_profile v ++ read_profiles vs

  abbrev pub state_of : Option ConnectionMode → List Profile → Option ConnectState
  state_of (some mode) (p ∷ ps) = some (record { selected_mode = mode; profiles = p ∷ ps })
  state_of _ _ = none

  -- The fields of the stored object. Reading the mode of a null element throws, and the whole state
  -- is then taken for missing.
  abbrev pub read_fields : Option Json → Option Json → Option ConnectState
  read_fields mode (some (arr vs)) =
      if any is_null (elements vs)
      then none
      else state_of (connection_mode mode) (read_profiles (elements vs))
  read_fields mode _ = none

  -- `readPersistedConnectState`; `none` is a missing or unreadable item.
  unfoldable pub read_persisted_connect_state : Option Json → Option ConnectState
  unfolding read_profiles read_profile connection_mode elements get
  read_persisted_connect_state (some (obj fs)) =
      read_fields (get (codes "selectedMode") fs) (get (codes "profiles") fs)
  read_persisted_connect_state _ = none

-- `persistConnectState`: the value that `JSON.stringify` writes.
abbrev pub mode_text : ConnectionMode → Text
mode_text local = codes "local"
mode_text private = codes "private"

abbrev pub profile_json : Profile → Json
profile_json p = obj (
    field (codes "mode") (str (mode_text p.mode)) (
      field (codes "endpoint") (str p.endpoint)
        (field (codes "expectedWebOrigin") (str p.expected_web_origin) end)))

unfoldable pub profiles_json : List Profile → Items
profiles_json [] = nil
profiles_json (p ∷ ps) = cons (profile_json p) (profiles_json ps)

unfoldable pub persist_connect_state : ConnectState → Json
unfolding profiles_json
persist_connect_state s = obj (
    field (codes "selectedMode") (str (mode_text s.selected_mode))
      (field (codes "profiles") (arr (profiles_json s.profiles)) end))
