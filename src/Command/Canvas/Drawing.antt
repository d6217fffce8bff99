-- ===== src/Command/Canvas/Drawing.antt =====
-- What a frame of frontend/dashboard/src/components/CommandCenter/CityTrafficCanvas.tsx draws: its calls
-- of the drawing context, in their order. A coordinate is in tenths of a pixel, times `scale`; a width
-- and a radius are in tenths of a pixel.
use surakshanet.Base.{
  ℕ, zero, suc, ◌+◌, ◌-◌, ◌*◌, ◌≤◌, ◌≡◌, refl, ap, arith, Bool-cases, inl, inr, String, Bool, false,
  ◌||◌, Option, none, some, List, [], ◌∷◌, ◌++◌, ltb, str_eq, if◌then◌else◌,
}
use surakshanet.Command.Intersections.{IntersectionData, initial_intersections}
use surakshanet.Command.Canvas.{Road, Vehicle, roads, scale, node_color}

-- The assignments to the context and the calls of it.
pub data Cmd : Type 0 where
  fill_style stroke_style line_cap shadow_color font : String → Cmd
  line_width shadow_blur : ℕ → Cmd
  begin_path stroke fill : Cmd
  move_to line_to : ℕ → ℕ → Cmd
  -- the centre and the radius of a full circle
  arc : ℕ → ℕ → ℕ → Cmd
  fill_rect : ℕ → ℕ → ℕ → ℕ → Cmd
  fill_text : String → ℕ → ℕ → Cmd

-- `n` pixels.
abbrev pub px : ℕ → ℕ
px n = n * 10 * scale

-- `n` tenths of a pixel.
abbrev pub tenths : ℕ → ℕ
tenths n = n * scale

abbrev pub width : ℕ
width = 1050

abbrev pub height : ℕ
height = 550

unfoldable pub background : List Cmd
background = fill_style "#FDF2EF" ∷ fill_rect 0 0 (px width) (px height) ∷ []

abbrev pub grid_size : ℕ
grid_size = 40

-- The values of `for (let x = at; x < end; x += gridSize)`.
abbrev pub steps : ℕ → ℕ → ℕ → List ℕ
steps zero at end = []
steps (suc fuel) at end =
    let rest = steps fuel (at + grid_size) end in if ltb at end then at ∷ rest else []

abbrev pub line : ℕ → ℕ → ℕ → ℕ → List Cmd
line x y x' y' = begin_path ∷ move_to x y ∷ line_to x' y' ∷ stroke ∷ []

abbrev pub column : ℕ → List Cmd
column x = line (px x) 0 (px x) (px height)

abbrev pub row : ℕ → List Cmd
row y = line 0 (px y) (px width) (px y)

-- The commands for every element of a list, one after the other.
abbrev pub every : {A : Type 0} → (A → List Cmd) → List A → List Cmd
every f [] = []
every f (x ∷ xs) = f x ++ every f xs

unfoldable pub grid : List Cmd
grid =
    stroke_style "rgba(230, 88, 77, 0.08)" ∷ line_width 10 ∷ every column (steps width 0 width)
    ++ every row (steps height 0 height)

unfoldable pub draw_road : Road → List Cmd
draw_road road =
    stroke_style "#FFFFFF"
      ∷ line_width 200
      ∷ line_cap "round"
      ∷ shadow_color "rgba(230, 88, 77, 0.08)"
      ∷ shadow_blur 10
      ∷ line (px road.from.x) (px road.from.y) (px road.to.x) (px road.to.y)
    ++ (shadow_blur 0
          ∷ stroke_style road.color
          ∷ line_width 40
          ∷ shadow_color road.color
          ∷ shadow_blur 6
          ∷ line (px road.from.x) (px road.from.y) (px road.to.x) (px road.to.y)
        ++ shadow_blur 0 ∷ [])

unfoldable pub draw_vehicle : Vehicle → List Cmd
draw_vehicle veh =
    fill_style "#0D0E11"
    ∷ shadow_color "rgba(0, 0, 0, 0.3)"
    ∷ shadow_blur 5
    ∷ begin_path
    ∷ arc (veh.x * 10) (veh.y * 10) 40
    ∷ fill
    ∷ fill_style "#FFFFFF"
    ∷ begin_path
    ∷ arc (veh.x * 10 - px 1) (veh.y * 10 - px 1) 12
    ∷ fill
    ∷ shadow_blur 0
    ∷ []

-- What the drawing of a node depends on.
pub record Look : Type 0 where
  pub selected_id : String
  pub hovered_id : Option String
  pub is_optimized : Bool

abbrev pub is_selected : Look → IntersectionData → Bool
is_selected look node = str_eq node.id look.selected_id

abbrev is_id : String → Option String → Bool
is_id id none = false
is_id id (some other) = str_eq id other

abbrev pub is_hovered : Look → IntersectionData → Bool
is_hovered look node = is_id node.id look.hovered_id

abbrev pub label_color : Look → IntersectionData → String
label_color look node =
    if is_selected look node || is_hovered look node then "#B9362C" else "#5A4E4D"

abbrev pub label_font : String
label_font = "700 11px \"Space Grotesk\", sans-serif"

unfoldable pub draw_node : Look → IntersectionData → List Cmd
draw_node look node =
    stroke_style (node_color look.is_optimized node)
    ∷ line_width (if is_selected look node then 30 else 15)
    ∷ shadow_color (node_color look.is_optimized node)
    ∷ shadow_blur (if is_selected look node then 16 else 8)
    ∷ begin_path
    ∷ arc (px node.x) (px node.y) (if is_selected look node then 180 else 130)
    ∷ stroke
    ∷ fill_style "#0D0E11"
    ∷ begin_path
    ∷ arc (px node.x) (px node.y) (if is_selected look node then 70 else 50)
    ∷ fill
    ∷ fill_style "#FFFFFF"
    ∷ begin_path
    ∷ arc (px node.x - tenths 15) (px node.y - tenths 15) 15
    ∷ fill
    ∷ shadow_blur 0
    ∷ font label_font
    ∷ fill_style (label_color look node)
    ∷ fill_text node.id (px node.x - px 14)
        (px node.y - px (if is_selected look node then 24 else 18))
    ∷ []

-- A frame, with the vehicles after it has moved them.
unfoldable pub draw_frame : Look → List Vehicle → List Cmd
draw_frame look vehicles =
    background
    ++ (grid
        ++ (every draw_road (roads look.is_optimized)
            ++ (every draw_vehicle vehicles ++ every (draw_node look) initial_intersections)))

-- A loop that has reached its end makes no more steps, so that fuel beyond the end changes nothing: the
-- fuel of the grid, one for each pixel, is enough.
steps_enough :
    (fuel at end : ℕ) → end ≤ at + fuel * grid_size → steps (suc fuel) at end ≡ steps fuel at end
steps_enough zero at end h = ground arith
steps_enough (suc fuel) at end h = elim (Bool-cases (ltb at end)) [
  | inl more ↦ rw more (ap (λ l. at ∷ l) (steps_enough fuel (at + grid_size) end (omega arith)))
  | inr done ↦ rw done refl
]
