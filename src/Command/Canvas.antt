-- ===== src/Command/Canvas.antt =====
-- frontend/dashboard/src/components/CommandCenter/CityTrafficCanvas.tsx: the vehicles of the animation,
-- the colours, and what the mouse points at. A progress is a numerator over `scale` and a position one
-- over `scale` pixels, so that the interpolation is exact; the pixels of the mouse are whole. What is drawn
-- is Drawing.
pub mod Motion
pub mod Drawing
pub mod Painting
pub mod Shapes
pub mod Frame
pub mod Pointing
use surakshanet.Base.{
  ℕ, zero, suc, ◌+◌, ◌-◌, ◌*◌, ◌%◌, String, Bool, true, false, not, ◌&&◌, Option, none, some, List,
  [], ◌∷◌, ltb, leb, ◌==◌, str_eq, if◌then◌else◌, or_else, length, get_elem?, map, find?,
}
use surakshanet.Realtime.Backoff.{resolution}
use surakshanet.Command.Intersections.{
  IntersectionData, Level, critical, moderate, smooth, initial_intersections,
}

pub record Point : Type 0 where
  pub x : ℕ
  pub y : ℕ

pub record Road : Type 0 where
  pub from : Point
  pub to : Point
  pub color : String
  pub label : String

abbrev road : ℕ → ℕ → ℕ → ℕ → String → String → Road
road x y x' y' color label = record {
  from = record { x = x; y = y };
  to = record { x = x'; y = y' };
  color = color;
  label = label;
}

abbrev pub first_road : Bool → Road
first_road is_optimized =
    road 50 220 350 220 (if is_optimized then "#22C55E" else "#EF4444") "Lane 01 (Heavy)"

abbrev pub other_roads : Bool → List Road
other_roads is_optimized =
    road 350 220 680 180 "#F59E0B" "Lane 02 (Moderate)"
    ∷ road 680 180 980 180 "#22C55E" "Lane 03 (Smooth)"
    ∷ road 350 220 480 420 (if is_optimized then "#22C55E" else "#F59E0B") "Connector"
    ∷ road 480 420 820 380 "#EF4444" "Highway West"
    ∷ road 180 360 350 220 "#22C55E" "Sector 4 Link"
    ∷ road 180 360 480 420 "#22C55E" "Tech Bypass"
    ∷ road 680 180 820 380 "#3B82F6" "Eastern Expressway"
    ∷ []

abbrev pub roads : Bool → List Road
roads is_optimized = first_road is_optimized ∷ other_roads is_optimized

-- `roads[index]`; the indices of the code lie within the list.
abbrev pub road_at : Bool → ℕ → Road
road_at is_optimized index =
    or_else (get_elem? (roads is_optimized) index) (first_road is_optimized)

abbrev pub scale : ℕ
scale = 1000 * resolution

-- `from + (to - from) * progress`, times `scale`.
abbrev pub along : ℕ → ℕ → ℕ → ℕ
along from to progress = from * (scale - progress) + to * progress

pub record Vehicle : Type 0 where
  pub x : ℕ
  pub y : ℕ
  pub target_x : ℕ
  pub target_y : ℕ
  pub speed : ℕ
  pub color : String
  pub progress : ℕ
  pub road_index : ℕ

abbrev pub is_heavy : Bool → ℕ → Bool
is_heavy is_optimized road_idx = road_idx == 0 && not is_optimized

-- The vehicle `i`, with the draws for its place and its speed.
unfoldable pub new_vehicle : Bool → ℕ → ℕ → ℕ → Vehicle
new_vehicle is_optimized place pace i =
    let road_idx = i % length (roads is_optimized) in
    let road = road_at is_optimized road_idx in
    record {
      x = along road.from.x road.to.x (1000 * place);
      y = along road.from.y road.to.y (1000 * place);
      target_x = road.to.x;
      target_y = road.to.y;
      speed = if is_heavy is_optimized road_idx then 2 * resolution else 4 * resolution + 5 * pace;
      color = if is_heavy is_optimized road_idx then "#EF4444" else "#00D9FF";
      progress = 1000 * place;
      road_index = road_idx;
    }

-- The draws of a vehicle.
pub record Draws : Type 0 where
  pub place : ℕ
  pub pace : ℕ

-- The `n` vehicles from `i` on; the code makes 48 from 0 on.
abbrev pub vehicles_from : Bool → (ℕ → Draws) → ℕ → ℕ → List Vehicle
vehicles_from is_optimized draws zero i = []
vehicles_from is_optimized draws (suc n) i =
    new_vehicle is_optimized (draws i).place (draws i).pace i
    ∷ vehicles_from is_optimized draws n (suc i)

unfoldable pub initial_vehicles : Bool → (ℕ → Draws) → List Vehicle
initial_vehicles is_optimized draws = vehicles_from is_optimized draws 48 0

-- What a frame does to a vehicle before it draws it.
abbrev pub moved : Vehicle → ℕ
moved veh = if leb scale (veh.progress + veh.speed) then 0 else veh.progress + veh.speed

unfoldable pub move : Bool → Vehicle → Vehicle
move is_optimized veh =
    let road = road_at is_optimized veh.road_index in
    record veh {
      progress = moved veh;
      x = along road.from.x road.to.x (moved veh);
      y = along road.from.y road.to.y (moved veh);
    }

unfoldable pub render : Bool → List Vehicle → List Vehicle
render is_optimized vehicles = map (move is_optimized) vehicles

unfoldable pub node_color : Bool → IntersectionData → String
node_color is_optimized node = elim node.level [
  | critical ↦ if is_optimized && str_eq node.id "A-102" then "#22C55E" else "#E5584D"
  | moderate ↦ "#F59E0B"
  | smooth ↦ "#22C55E"
]

-- Where the mouse is, in pixels from the left and the top of the canvas's rectangle on the screen, and
-- how large that is. The handlers stretch the whole rectangle to 1050 by 550.
pub record Mouse : Type 0 where
  pub left : ℕ
  pub top : ℕ
  pub width : ℕ
  pub height : ℕ

abbrev pub gap : ℕ → ℕ → ℕ
gap a b = (a - b) + (b - a)

-- How far the mouse, in the rectangle so stretched, is from a node along each axis, times the width and
-- the height of the rectangle.
abbrev pub across : Mouse → IntersectionData → ℕ
across m node = gap (node.x * m.width) (m.left * 1050)

abbrev pub down : Mouse → IntersectionData → ℕ
down m node = gap (node.y * m.height) (m.top * 550)

-- `Math.hypot(node.x - x, node.y - y) < 30`, with both sides squared, and times the width and the height.
unfoldable pub is_near : Mouse → IntersectionData → Bool
is_near m node =
    ltb
      (across m node * m.height * (across m node * m.height)
        + down m node * m.width * (down m node * m.width))
      (30 * m.width * m.height * (30 * m.width * m.height))

-- The intersection that `handleCanvasClick` selects.
unfoldable pub clicked : Mouse → Option IntersectionData
clicked m = find? (is_near m) initial_intersections

-- `hovered ? hovered.id : null`
abbrev pub id_of : Option IntersectionData → Option String
id_of none = none
id_of (some node) = some node.id

-- `handleMouseMove`: the id that is hovered.
unfoldable pub hovered_id : Mouse → Option String
hovered_id m = id_of (clicked m)
