-- ===== src/Shell/Tests.antt =====
-- The frame at concrete inputs.
use surakshanet.Base.{
  or_else, ◌≡◌, refl, String, true, false, none, some, List, [], ◌∷◌, is_some, str_eq,
  if◌then◌else◌,
}
use surakshanet.Base.Dict
use surakshanet.Stores.Session.{Session, signed_out}
use surakshanet.Shell.Routes.{Page, navigates, home, route, Visit, visit_lem}
use surakshanet.Shell.Links.{studio_link, is_tab_active, Header}
use surakshanet.Shell.Destinations.{Lands}
use surakshanet.Shell.Frame.{offered-Lands, frame, sidebar}
use surakshanet.Markup.{offered}
use surakshanet.Shell.Login
use surakshanet.Shell.Login.{
  submit_fires, request_answered, after_login, navigate, handle_demo_access, demo_fires, Event,
  accesses_demo, demo_timeout, submit_timeout, answered,
}
use surakshanet.Shell.Login.Settled.{last_verdict, login_settles}
use surakshanet.Shell.Common.{telemetry_style}

abbrev fresh : Session
fresh = record {
  auth = signed_out;
  storage = record { usable = true; items = Dict.empty };
  pending = 0;
}

abbrev demo : Login.Page
demo = demo_fires (handle_demo_access (Login.initial fresh))

demo_submits : demo.submits ≡ ("OP-ADMIN", "demo") ∷ []
unfolding demo_fires handle_demo_access Login.handle_submit
demo_submits = refl

studio_redirects : route studio_link ≡ navigates home
unfolding route
studio_redirects = refl

reports_like_analytics : is_tab_active "/app/analytics" "/app/analytics" ≡ true
unfolding is_tab_active
reports_like_analytics = refl

sensor_is_live : (telemetry_style (λ s. s) (some "sensor")).label ≡ "LIVE"
unfolding telemetry_style
sensor_is_live = refl

visit_lem_example : (page : Page) × Visit ("app" ∷ "junctions" ∷ "J1" ∷ "x" ∷ []) page
visit_lem_example = visit_lem ("app" ∷ "junctions" ∷ "J1" ∷ "x" ∷ [])

-- Demo access, whose login request fails.
abbrev refused_demo : List Login.Event
refused_demo = accesses_demo ∷ demo_timeout ∷ submit_timeout ∷ answered 0 none ∷ []

login_settles_example :
    let p = Login.run (Login.initial fresh) refused_demo in
    let v = last_verdict none (Login.initial fresh) refused_demo in
    (p.is_loading ≡ false)
    × (p.location ≡ (if is_some v then some home else none))
    × (p.session.auth.is_authenticated ≡ or_else v false)
unfolding Login.run Login.step demo_fires handle_demo_access Login.handle_submit submit_fires
    Login.login request_answered after_login navigate
login_settles_example = login_settles fresh refused_demo refl

abbrev split_path : String → List String
split_path path = if str_eq path "/app/analytics" then "app" ∷ "analytics" ∷ [] else "app" ∷ []

abbrev a_header : Header
a_header = record {
  emergency_open = false;
  user_menu_open = true;
  session = fresh;
  location = "app" ∷ [];
}

-- The link to the page of the alerts, with its badge.
offered-Lands_example : Lands ("app" ∷ "alerts" ∷ [])
unfolding offered frame sidebar
offered-Lands_example =
    offered-Lands (λ n. "5") (λ i. i.end) split_path "/app" "10:00:00" a_header 9
      ("app" ∷ "alerts" ∷ []) (record { app = refl; analytics = refl }) refl
