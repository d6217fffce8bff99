-- ===== src/Command/PageTests.antt =====
-- The drawing of the city and the whole page of the command center at concrete inputs.
use surakshanet.Base.{ℕ, String, true, some, [], ◌≡◌, refl, any, length}
use surakshanet.Markup.{offered}
use surakshanet.Command.Incidents
use surakshanet.Command.Incidents.{all}
use surakshanet.Command.Camera
use surakshanet.Command.Canvas.{Draws, initial_vehicles}
use surakshanet.Command.Canvas.Drawing.{Look, draw_frame, steps, width, height}
use surakshanet.Command.Canvas.Painting.{Context, after, painted}
use surakshanet.Command.Canvas.Shapes.{frame_shapes}
use surakshanet.Command.Canvas.Frame.{Round, frame_lem}
use surakshanet.Command.Deck
use surakshanet.Command.Deck.{signal_control, set_active_tab}
use surakshanet.Command.Deck.View.{Screen, view, goes_to, tab_reachable}

abbrev look : Look
look = record { selected_id = "A-102"; hovered_id = some "B-007"; is_optimized = true }

-- What a drawing context starts with.
abbrev fresh : Context
fresh = record {
  fill = "#000000";
  stroke = "#000000";
  width = 10;
  cap = "butt";
  shadow = "rgba(0, 0, 0, 0)";
  blur = 0;
  font = "10px sans-serif";
  path = [];
  at_x = 0;
  at_y = 0;
}

abbrev draws : ℕ → Draws
draws i = record { place = 5; pace = 7 }

frame_lem_example :
    Round (after (draw_frame look (initial_vehicles true draws)) fresh)
    × (painted (draw_frame look (initial_vehicles true draws)) fresh
        ≡ frame_shapes "butt" look (initial_vehicles true draws))
frame_lem_example =
    frame_lem "butt" look (initial_vehicles true draws) fresh
      (record { still = refl; capped = refl })

grid_lines : (length (steps width 0 width) ≡ 27) × (length (steps height 0 height) ≡ 14)
grid_lines = (refl, refl)

abbrev ten : ℕ → String
ten n = "10"

abbrev screen : Screen
screen = record {
  page = Deck.initial;
  show_notifications = true;
  insight = record {
    id = 1;
    category = "CONGESTION SPIKE";
    text = "Traffic congestion";
    kind = "warning";
    timestamp = "Just now";
    impact = "Signal +12s recommended";
  };
  filter = all;
  incidents = Incidents.initial_incidents;
  feed = Camera.initial;
}

tab_reachable_example :
    (any (goes_to signal_control) (offered (view ten ten ten screen)) ≡ true)
    × ((set_active_tab signal_control screen.page).active_tab ≡ signal_control)
tab_reachable_example = tab_reachable ten ten ten signal_control screen
