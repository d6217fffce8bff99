-- ===== src/Command/Canvas/Frame.antt =====
-- A frame of frontend/dashboard/src/components/CommandCenter/CityTrafficCanvas.tsx paints the shapes that
-- it is to paint.
use surakshanet.Base.{ℕ, ◌≡◌, refl, String, Bool, none, List, [], ◌∷◌, ◌++◌, Bool-cases, inl, inr}
use surakshanet.Command.Intersections.{IntersectionData, initial_intersections}
use surakshanet.Command.Canvas.{Road, Vehicle, first_road, other_roads, roads}
use surakshanet.Command.Canvas.Drawing.{
  Cmd, stroke_style, line_width, px, width, height, background, steps, column, row, every, grid,
  draw_road, draw_vehicle, Look, is_selected, draw_node, draw_frame,
}
use surakshanet.Command.Canvas.Painting.{
  Context, Paint, rectangle, obey, paints, after, painted, after-append, painted-append,
}
use surakshanet.Command.Canvas.Shapes.{
  column_shape, row_shape, road_shapes, vehicle_shapes, node_shapes, shapes_of, frame_shapes,
}

-- A context that draws no shadow, and whose lines have a cap.
pub record Calm (cap : String) (c : Context) : Type 0 where
  pub still : c.blur ≡ 0
  pub capped : c.cap ≡ cap

-- Such a context with the pen of the grid.
record Thin (cap : String) (c : Context) : Type 0 where
  calm : Calm cap c
  color : c.stroke ≡ "rgba(230, 88, 77, 0.08)"
  line : c.width ≡ 10

-- From a context of one kind, some commands paint some shapes and leave one of another kind.
abbrev Draws : (Context → Type 0) → (Context → Type 0) → List Cmd → List Paint → Type 0
Draws P Q ds ps = (c : Context) → P c → Q (after ds c) × (painted ds c ≡ ps)

append-Draws :
    (P Q R : Context → Type 0) (ds es : List Cmd) (ps qs : List Paint)
    → Draws P Q ds ps
    → Draws Q R es qs
    → Draws P R (ds ++ es) (ps ++ qs)
append-Draws P Q R ds es ps qs d e c h =
    let (q, p) = d c h in
    let (r, p') = e (after ds c) q in
    rw (after-append ds es c, painted-append ds es c, p, p') (r, refl)

every-Draws :
    {A : Type 0} (P : Context → Type 0) (f : A → List Cmd) (g : A → List Paint) (xs : List A)
    → ((x : A) → Draws P P (f x) (g x))
    → Draws P P (every f xs) (shapes_of g xs)
unfolding after painted
every-Draws P f g [] d = λ c h. (h, refl)
every-Draws P f g (x ∷ xs) d =
    append-Draws P P P (f x) (every f xs) (g x) (shapes_of g xs) (d x) (every-Draws P f g xs d)

background-Draws :
    (cap : String)
    → Draws
        (Calm cap)
        (Calm cap)
        background
        (rectangle 0 0 (px width) (px height) "#FDF2EF" none ∷ [])
unfolding background after painted obey paints
background-Draws cap c h = (record { still = h.still; capped = h.capped }, rw h.still refl)

pen-Draws :
    (cap : String)
    → Draws (Calm cap) (Thin cap) (stroke_style "rgba(230, 88, 77, 0.08)" ∷ line_width 10 ∷ []) []
unfolding after painted obey paints
pen-Draws cap c h = (
  record { calm = record { still = h.still; capped = h.capped }; color = refl; line = refl },
  refl,
)

column-Draws : (cap : String) (x : ℕ) → Draws (Thin cap) (Thin cap) (column x) (column_shape cap x)
unfolding after painted obey paints
column-Draws cap x c h = (
  record {
    calm = record { still = h.calm.still; capped = h.calm.capped };
    color = h.color;
    line = h.line;
  },
  rw (h.calm.still, h.calm.capped, h.color, h.line) refl,
)

row-Draws : (cap : String) (y : ℕ) → Draws (Thin cap) (Thin cap) (row y) (row_shape cap y)
unfolding after painted obey paints
row-Draws cap y c h = (
  record {
    calm = record { still = h.calm.still; capped = h.calm.capped };
    color = h.color;
    line = h.line;
  },
  rw (h.calm.still, h.calm.capped, h.color, h.line) refl,
)

-- The roads leave round caps, whatever the caps were before.
abbrev pub Round : Context → Type 0
Round = Calm "round"

road-Draws :
    (cap : String) (road : Road) → Draws (Calm cap) Round (draw_road road) (road_shapes road)
unfolding draw_road after painted obey paints
road-Draws cap road c h = (record { still = refl; capped = refl }, refl)

vehicle-Draws : (veh : Vehicle) → Draws Round Round (draw_vehicle veh) (vehicle_shapes veh)
unfolding draw_vehicle after painted obey paints
vehicle-Draws veh c h = (record { still = refl; capped = h.capped }, refl)

node-Draws :
    (look : Look) (node : IntersectionData)
    → Draws Round Round (draw_node look node) (node_shapes look node)
unfolding draw_node after painted obey paints
node-Draws look node c h = (
  record { still = refl; capped = h.capped },
  elim (Bool-cases (is_selected look node)) [
    | inl yes' ↦ rw (yes', h.capped) refl
    | inr no' ↦ rw (no', h.capped) refl
  ],
)

abbrev pen : List Cmd
pen = stroke_style "rgba(230, 88, 77, 0.08)" ∷ line_width 10 ∷ []

lines-Draws :
    (cap : String) (columns rows : List ℕ)
    → Draws
        (Calm cap)
        (Calm cap)
        (pen ++ (every column columns ++ every row rows))
        (shapes_of (column_shape cap) columns ++ shapes_of (row_shape cap) rows)
lines-Draws cap columns rows c h =
    let lines =
      append-Draws (Thin cap) (Thin cap) (Thin cap) (every column columns) (every row rows)
        (shapes_of (column_shape cap) columns) (shapes_of (row_shape cap) rows)
        (every-Draws (Thin cap) column (column_shape cap) columns (column-Draws cap))
        (every-Draws (Thin cap) row (row_shape cap) rows (row-Draws cap)) in
    let all =
      append-Draws (Calm cap) (Thin cap) (Thin cap) pen (every column columns ++ every row rows) []
        (shapes_of (column_shape cap) columns ++ shapes_of (row_shape cap) rows) (pen-Draws cap)
        lines c h in
    (all.0.calm, all.1)

grid-Draws :
    (cap : String)
    → Draws (Calm cap) (Calm cap) grid (
        shapes_of (column_shape cap) (steps width 0 width)
        ++ shapes_of (row_shape cap) (steps height 0 height))
unfolding grid
grid-Draws cap = lines-Draws cap (steps width 0 width) (steps height 0 height)

roads_from-Draws :
    (cap : String) (road : Road) (rs : List Road)
    → Draws (Calm cap) Round (every draw_road (road ∷ rs)) (shapes_of road_shapes (road ∷ rs))
roads_from-Draws cap road rs =
    append-Draws (Calm cap) Round Round (draw_road road) (every draw_road rs) (road_shapes road)
      (shapes_of road_shapes rs) (road-Draws cap road)
      (every-Draws Round draw_road road_shapes rs (road-Draws "round"))

roads-Draws :
    (cap : String) (is_optimized : Bool)
    → Draws
        (Calm cap)
        Round
        (every draw_road (roads is_optimized))
        (shapes_of road_shapes (roads is_optimized))
roads-Draws cap is_optimized =
    roads_from-Draws cap (first_road is_optimized) (other_roads is_optimized)

-- In a context that draws no shadow, a frame paints exactly the shapes of `frame_shapes`, the caps of
-- the grid's lines being those that the context had; and it leaves a context that draws no shadow, with
-- round caps. So all frames after the first paint alike where the vehicles and the choices are alike.
pub frame_lem :
    (cap : String) (look : Look) (vehicles : List Vehicle) (c : Context)
    → Calm cap c
    → Round (after (draw_frame look vehicles) c)
      × (painted (draw_frame look vehicles) c ≡ frame_shapes cap look vehicles)
unfolding draw_frame frame_shapes
frame_lem cap look vehicles =
    let moving =
      append-Draws Round Round Round (every draw_vehicle vehicles)
        (every (draw_node look) initial_intersections) (shapes_of vehicle_shapes vehicles)
        (shapes_of (node_shapes look) initial_intersections)
        (every-Draws Round draw_vehicle vehicle_shapes vehicles vehicle-Draws)
        (every-Draws Round (draw_node look) (node_shapes look) initial_intersections
          (node-Draws look)) in
    let traffic =
      append-Draws (Calm cap) Round Round _ _ _ _ (roads-Draws cap look.is_optimized) moving in
    let lined = append-Draws (Calm cap) (Calm cap) Round _ _ _ _ (grid-Draws cap) traffic in
    append-Draws (Calm cap) (Calm cap) Round _ _ _ _ (background-Draws cap) lined
