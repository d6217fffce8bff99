-- ===== src/Stores/Session/Laws.antt =====
-- The session of frontend/dashboard/src/store/authStore.ts and the interceptors of
-- frontend/dashboard/src/services/api.ts.
use surakshanet.Base.{
  ℕ, ◌≡◌, ◌⊎◌, inl, inr, String, true, false, not, ◌&&◌, Option, none, some, List, [], ◌∷◌, arith,
  if◌then◌else◌, str_eq, is_some, or_else, Bool-cases, ◌<>◌, All,
}
use surakshanet.Base.Dict
use surakshanet.Base.Dict.{Dict}
use surakshanet.Stores.Types.{User}
use surakshanet.Stores.Session.{
  truthy, Storage, get_item, set_item, store_token, AuthState, signed_out, Session, LoginData,
  token_of, login_succeeds, login_fails, logout, load_from_storage, me_succeeds, me_fails,
  on_request, on_error, is_login_url, is_status,
}
use surakshanet.Stores.Session.Steps.{
  Event, logs_in, login_refused, logs_out, sets_user, loads, me_answers, me_refused, refused,
  reloads, step, run,
}

-- The token in memory is the stored one, is not empty, and goes with the flag.
pub record Inv (s : Session) : Type 0 where
  pub flag : s.auth.is_authenticated ≡ is_some s.auth.token
  pub sound : (s.auth.token ≡ none) ⊎ (truthy s.auth.token ≡ true)
  pub stored :
      (s.auth.token ≡ none)
      ⊎ ((s.storage.usable ≡ false) ⊎ (get_item "token" s.storage ≡ s.auth.token))

-- The events that the invariant is about: an answer to a login carries a token, as the server's
-- schema says, and `setUser`, which the dashboard never calls, is left out.
abbrev pub Regular : Event → Type 0
Regular (logs_in data') = truthy (token_of data') ≡ true
Regular (sets_user user) = ⊥
Regular _ = Unit

logout-Inv : (s : Session) → Inv (logout s)
unfolding logout
logout-Inv s = ground arith

on_error-Inv :
    (status : Option ℕ) (url : Option String) (s : Session) → Inv s → Inv (on_error status url s)
unfolding on_error
on_error-Inv status url s v = elim (Bool-cases (is_status 401 status && not (is_login_url url))) [
  | inl e ↦ rw e (logout-Inv s)
  | inr e ↦ rw e v
]

-- A token that is not empty is stored where the storage works.
store_token_lem :
    (token : Option String) (st : Storage)
    → truthy token ≡ true
    → ((store_token token st).usable ≡ st.usable)
      × (st.usable ≡ true → Dict.get (store_token token st).items "token" ≡ token)
      × (is_some token ≡ true)
unfolding store_token set_item
store_token_lem none st h = cc
store_token_lem (some token) st h = ground (arith, Dict.get-put_self st.items "token" token)

login_succeeds-Inv :
    (data' : LoginData) (s : Session)
    → truthy (token_of data') ≡ true
    → Inv (login_succeeds data' s)
unfolding login_succeeds
login_succeeds-Inv data' s h =
    let (u, st, is) = store_token_lem (token_of data') s.storage h in
    record { flag = ground arith; sound = inr h; stored = unfold get_item in ground arith }

load_from_storage-Inv : (s : Session) → Inv s → Inv (load_from_storage s)
unfolding load_from_storage get_item
load_from_storage-Inv s v = ground arith

step-Inv : (s : Session) (e : Event) → Regular e → Inv s → Inv (step s e)
unfolding step
step-Inv s (logs_in data') r v = login_succeeds-Inv data' s r
step-Inv s (login_refused status) r v = unfold login_fails in ground arith
step-Inv s logs_out r v = logout-Inv s
step-Inv s (sets_user user) r v = absurd r
step-Inv s loads r v = load_from_storage-Inv s v
step-Inv s (me_answers user) r v = unfold me_succeeds in ground arith
step-Inv s (me_refused status) r v = unfold me_fails in ground arith
step-Inv s (refused status url) r v = on_error-Inv status url s v
step-Inv s reloads r v = ground arith

run_from-Inv : (s : Session) (es : List Event) → All Regular es → Inv s → Inv (run s es)
unfolding run
run_from-Inv s [] r v = v
run_from-Inv s (e ∷ es) r v = run_from-Inv (step s e) es r.1 (step-Inv s e r.0 v)

-- A page that has just been loaded, over any storage.
abbrev pub fresh : Storage → Session
fresh st = record { auth = signed_out; storage = st; pending = 0 }

-- From a fresh page on, whatever happens while every login answer carries a token and `setUser` is
-- not called: the flag says whether there is a token in memory, that token is not empty, and it is
-- the one in the storage, where the storage works.
pub run_session-Inv : (st : Storage) (es : List Event) → All Regular es → Inv (run (fresh st) es)
run_session-Inv st es r = run_from-Inv (fresh st) es r (ground arith)

-- A request carries the bearer token exactly when there is one, and its other headers are left
-- alone.
on_request_lem :
    (auth : AuthState) (headers : Dict String) (key : String)
    → (is_some (on_request auth (some headers)) ≡ true)
      × (Dict.get (or_else (on_request auth (some headers)) Dict.empty) key ≡ (
          if truthy auth.token && str_eq "Authorization" key
          then some ("Bearer " <> or_else auth.token "")
          else Dict.get headers key))
unfolding on_request
on_request_lem auth headers key =
    ground (arith, Dict.get-put headers "Authorization" ("Bearer " <> or_else auth.token "") key)

-- A `getMe` answer that arrives after a logout puts the user back into the store, which is signed
-- out: the store then shows a user with no token.
pub late_answer :
    (s : Session) (user : User)
    → truthy (get_item "token" s.storage) ≡ true
    → let t = step (step (step s loads) logs_out) (me_answers (some user)) in
      (t.auth.user ≡ some user) × (t.auth.token ≡ none) × (t.auth.is_authenticated ≡ false)
unfolding step load_from_storage logout me_succeeds
late_answer s user h = ground arith
