-- ===== src/Command/Camera/View.antt =====
-- The markup of frontend/dashboard/src/components/CommandCenter/ComputerVisionFeed.tsx, with the text of a
-- number and of tenths.
use surakshanet.Base.{ℕ, String, ◌<>◌, false, List, [], ◌∷◌, ◌++◌, map, str_eq, if◌then◌else◌}
use surakshanet.Markup.{Mark, text, icon, tone, Item, button, marks}
use surakshanet.Command.Camera.{DetectionBox, CamFeed, cam_feeds, Feed}

pub data Click : Type 0 where
  sets_cam : String → Click

abbrev pub cam_button : String → CamFeed → Item Click
cam_button active_cam cam = button false (sets_cam cam.id) (
    tone (
      if str_eq active_cam cam.id
      then "bg-studio-coral text-white shadow-sm"
      else "bg-studio-bgLight text-studio-text/70 border border-studio-pink/40 hover:text-studio-coral")
    ∷ text cam.id
    ∷ [])

unfoldable pub header : Feed → List (Item Click)
header f =
    marks (
      text "AI ANALYSIS ACTIVE"
      ∷ text "|"
      ∷ text "YOLOv8s-Traffic-v2"
      ∷ icon "Camera"
      ∷ text "Computer Vision Telemetry Feed"
      ∷ [])
    ++ map (cam_button f.active_cam) cam_feeds

-- A box on the picture: where it is, its colour and its label.
pub record Drawn : Type 0 where
  pub top : ℕ
  pub left : ℕ
  pub width : ℕ
  pub height : ℕ
  pub border_color : String
  pub label : List Mark

unfoldable pub drawn : (ℕ → String) → DetectionBox → Drawn
drawn to_text b = record {
  top = b.top;
  left = b.left;
  width = b.width;
  height = b.height;
  border_color = b.color;
  label = text b.label ∷ text ("· " <> (to_text b.confidence <> "%")) ∷ [];
}

unfoldable pub overlays : (ℕ → String) → Feed → List Mark
overlays tenths f =
    text "LIVE"
    ∷ text f.active_cam
    ∷ text "•"
    ∷ text "4K UHD"
    ∷ text ("FPS: " <> tenths f.fps)
    ∷ text "LATENCY: 14ms"
    ∷ icon "Crosshair"
    ∷ icon "Cpu"
    ∷ text "CLASSIFICATION BREAKDOWN:"
    ∷ text "CARS: 18"
    ∷ text "BUSES: 3"
    ∷ text "BIKES: 12"
    ∷ text "PEDESTRIANS: 4"
    ∷ []

abbrev pub footer : List Mark
footer =
    icon "ShieldCheck"
    ∷ text "Edge Precision: 99.2% mAP@0.5"
    ∷ text "LOCATION: New Delhi Central Operations Matrix"
    ∷ []

-- All but the boxes, which are drawn over the picture.
unfoldable pub view : (ℕ → String) → Feed → List (Item Click)
view tenths f = header f ++ (marks (overlays tenths f) ++ marks footer)
