-- ===== src/Routing/Tests.antt =====
-- The routing page at concrete inputs.
use surakshanet.Base.{ℕ, ◌≡◌, refl, String, []}
use surakshanet.Routing.{Page, get_route, initial, calculate_request}

abbrev same : String → String
same s = s

abbrev page : Page ℕ
page = initial

no_choice : calculate_request {F = ℕ} (28, 77) (29, 78) [] page ≡ get_route 28 77 29 78
unfolding calculate_request initial
no_choice = refl
