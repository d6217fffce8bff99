-- ===== src/Command/Canvas/Shapes.antt =====
-- The shapes that a frame of frontend/dashboard/src/components/CommandCenter/CityTrafficCanvas.tsx is to
-- paint, one by one, with the shadow that each has.
use surakshanet.Base.{ℕ, ◌-◌, ◌*◌, String, Bool, none, some, List, [], ◌∷◌, ◌++◌, if◌then◌else◌}
use surakshanet.Command.Intersections.{IntersectionData, initial_intersections}
use surakshanet.Command.Canvas.{Road, Vehicle, roads, node_color}
use surakshanet.Command.Canvas.Drawing.{
  px, tenths, width, height, steps, Look, is_selected, label_color, label_font,
}
use surakshanet.Command.Canvas.Painting.{
  Piece, segment, circle, Shadow, Paint, stroked, filled, rectangle, lettered,
}

abbrev pub thin : String → ℕ → ℕ → ℕ → ℕ → Paint
thin cap x y x' y' = stroked (segment x y x' y' ∷ []) "rgba(230, 88, 77, 0.08)" 10 cap none

abbrev pub column_shape : String → ℕ → List Paint
column_shape cap x = thin cap (px x) 0 (px x) (px height) ∷ []

abbrev pub row_shape : String → ℕ → List Paint
row_shape cap y = thin cap 0 (px y) (px width) (px y) ∷ []

abbrev road_path : Road → List Piece
road_path road = segment (px road.from.x) (px road.from.y) (px road.to.x) (px road.to.y) ∷ []

abbrev pub road_shapes : Road → List Paint
road_shapes road =
    stroked (road_path road) "#FFFFFF" 200 "round" (some ("rgba(230, 88, 77, 0.08)", 10))
    ∷ stroked (road_path road) road.color 40 "round" (some (road.color, 6))
    ∷ []

abbrev pub vehicle_shapes : Vehicle → List Paint
vehicle_shapes veh =
    filled (circle (veh.x * 10) (veh.y * 10) 40 ∷ []) "#0D0E11" (some ("rgba(0, 0, 0, 0.3)", 5))
    ∷ filled (circle (veh.x * 10 - px 1) (veh.y * 10 - px 1) 12 ∷ []) "#FFFFFF"
        (some ("rgba(0, 0, 0, 0.3)", 5))
    ∷ []

-- The ring, the core, the dot and the label of a node that is selected or not.
abbrev node_shapes_for : Bool → Look → IntersectionData → List Paint
node_shapes_for selected look node =
    let color = node_color look.is_optimized node in
    let shadow : Shadow = some (color, if selected then 16 else 8) in
    stroked (circle (px node.x) (px node.y) (if selected then 180 else 130) ∷ []) color
      (if selected then 30 else 15) "round" shadow
    ∷ filled (circle (px node.x) (px node.y) (if selected then 70 else 50) ∷ []) "#0D0E11" shadow
    ∷ filled (circle (px node.x - tenths 15) (px node.y - tenths 15) 15 ∷ []) "#FFFFFF" shadow
    ∷ lettered node.id (px node.x - px 14) (px node.y - px (if selected then 24 else 18)) label_font
        (label_color look node) none
    ∷ []

abbrev pub node_shapes : Look → IntersectionData → List Paint
node_shapes look node = node_shapes_for (is_selected look node) look node

abbrev pub shapes_of : {A : Type 0} → (A → List Paint) → List A → List Paint
shapes_of f [] = []
shapes_of f (x ∷ xs) = f x ++ shapes_of f xs

-- A frame for a context whose lines have a cap: no shape but those of the roads, the vehicles and the
-- nodes has a shadow, and no label has one.
unfoldable pub frame_shapes : String → Look → List Vehicle → List Paint
frame_shapes cap look vehicles =
    (rectangle 0 0 (px width) (px height) "#FDF2EF" none ∷ [])
    ++ ((shapes_of (column_shape cap) (steps width 0 width)
          ++ shapes_of (row_shape cap) (steps height 0 height))
        ++ (shapes_of road_shapes (roads look.is_optimized)
            ++ (shapes_of vehicle_shapes vehicles
                ++ shapes_of (node_shapes look) initial_intersections)))
