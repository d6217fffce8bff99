-- ===== src/Stores/Session.antt =====
-- frontend/dashboard/src/store/authStore.ts, with the interceptors of
-- frontend/dashboard/src/services/api.ts that read and reset it. `null` and `undefined` are `none`.
pub mod Steps
pub mod Laws
pub mod Refusals
use surakshanet.Base.{
  ℕ, zero, suc, ◌-◌, String, Bool, true, false, not, ◌&&◌, Option, none, some, List, [], ◌∷◌, ◌==◌,
  ltb, str_eq, if◌then◌else◌, is_some, ◌<>◌,
}
use text.Mathlib.Text.{find?}
use surakshanet.Base.Dict
use surakshanet.Base.Dict.{Dict}
use surakshanet.Stores.Types.{User}

-- Whether a string value counts as true: `null`, `undefined` and `''` do not.
abbrev pub truthy : Option String → Bool
truthy none = false
truthy (some text) = not (str_eq text "")

-- `window.localStorage`; `usable` is false without a window and where its methods throw.
pub record Storage : Type 0 where
  pub usable : Bool
  pub items : Dict String

-- The three methods of `safeStorage`.
unfoldable pub get_item : String → Storage → Option String
get_item key st = if st.usable then Dict.get st.items key else none

unfoldable pub set_item : String → String → Storage → Storage
set_item key value st = if st.usable then record st { items = Dict.put st.items key value } else st

unfoldable pub remove_item : String → Storage → Storage
remove_item key st = if st.usable then record st { items = Dict.remove st.items key } else st

pub record AuthState : Type 0 where
  pub user : Option User
  pub token : Option String
  pub is_authenticated : Bool

abbrev pub signed_out : AuthState
signed_out = record { user = none; token = none; is_authenticated = false }

-- The store, the storage, and the number of `getMe` requests that are under way.
pub record Session : Type 0 where
  pub auth : AuthState
  pub storage : Storage
  pub pending : ℕ

-- The answer of `/auth/login`.
pub record LoginData : Type 0 where
  pub token : Option String
  pub access_token : Option String
  pub user : Option User

-- `data.token || data.access_token`.
abbrev pub token_of : LoginData → Option String
token_of data' = if truthy data'.token then data'.token else data'.access_token

unfoldable pub store_token : Option String → Storage → Storage
store_token none st = st
store_token (some token) st = if str_eq token "" then st else set_item "token" token st

-- `login` after the request has succeeded, and after it has failed (it then throws again).
unfoldable pub login_succeeds : LoginData → Session → Session
login_succeeds data' s = record s {
  auth = record { user = data'.user; token = token_of data'; is_authenticated = true };
  storage = store_token (token_of data') s.storage;
}

unfoldable pub login_fails : Session → Session
login_fails s = record s { auth = signed_out; storage = remove_item "token" s.storage }

unfoldable pub logout : Session → Session
logout s = record s { auth = signed_out; storage = remove_item "token" s.storage }

unfoldable pub set_user : Option User → Session → Session
set_user user s = record s {
  auth = record (s.auth) { user = user; is_authenticated = is_some user };
}

-- `loadFromStorage`, up to the request that it starts.
-- `loadFromStorage`, which no code of the dashboard calls.
unfoldable pub load_from_storage : Session → Session
load_from_storage s =
    if truthy (get_item "token" s.storage)
    then record s {
      auth = record { user = none; token = get_item "token" s.storage; is_authenticated = true };
      pending = suc s.pending;
    }
    else s

-- What follows the answer of that request: `then` and `catch`.
unfoldable pub me_succeeds : Option User → Session → Session
me_succeeds none s = s
me_succeeds (some user) s = record s { auth = record (s.auth) { user = some user } }

unfoldable pub me_fails : Session → Session
me_fails s = record s { auth = signed_out; storage = remove_item "token" s.storage }

-- The request interceptor; `headers` is `config.headers`, which may be missing.
unfoldable pub on_request : AuthState → Option (Dict String) → Option (Dict String)
on_request auth none = none
on_request auth (some headers) = elim (auth.token) [
  | none ↦ some headers
  | some token ↦
      if str_eq token ""
      then some headers
      else some (Dict.put headers "Authorization" ("Bearer " <> token))
]

-- `error.config?.url?.includes('/auth/login')`.
unfoldable pub is_login_url : Option String → Bool
is_login_url none = false
is_login_url (some url) = is_some (find? url "/auth/login")

abbrev pub is_status : ℕ → Option ℕ → Bool
is_status code none = false
is_status code (some status) = status == code

-- The response interceptor on an error; it then rejects.
unfoldable pub on_error : Option ℕ → Option String → Session → Session
on_error status url s = if is_status 401 status && not (is_login_url url) then logout s else s
