-- ===== src/Requests/Tests.antt =====
-- Requests at concrete inputs.
use surakshanet.Base.{ℕ, ◌≡◌, refl, true, false, none, some, String}
use surakshanet.Stores.Session.{is_login_url}
use surakshanet.Requests.{Call, request_of, login, readings, update_status, refresh_token}

abbrev path_of : Call ℕ ℕ → String
path_of c = (request_of (λ n. "20") c).path

paths :
    (path_of (readings "J1" none) ≡ "/traffic/readings/J1?limit=20")
    × (path_of (update_status "u1" false) ≡ "/users/u1/status?is_active=false")
unfolding request_of
paths = (refl, refl)

-- Of the two, only the login is exempt from ending the session on a 401.
exempt :
    (is_login_url (some (path_of (login "a" "b"))) ≡ true)
    × (is_login_url (some (path_of refresh_token)) ≡ false)
unfolding request_of is_login_url
exempt = (refl, refl)
