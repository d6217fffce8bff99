-- ===== src/Command/Camera.antt =====
-- frontend/dashboard/src/components/CommandCenter/ComputerVisionFeed.tsx. A place or a size is in
-- `percent`ths of a percent, so that the jitter of the boxes is exact; draws are numerators over
-- `resolution`.
pub mod View
use surakshanet.Base.{
  ℕ, suc, ◌+◌, ◌-◌, ◌*◌, ◌≤◌, ◌≡◌, refl, min, max, String, List, [], ◌∷◌, arith, All, length,
}
use surakshanet.Realtime.Backoff.{resolution, round}

abbrev pub percent : ℕ
percent = 10 * resolution

pub record DetectionBox : Type 0 where
  pub id : String
  pub label : String
  pub confidence : ℕ
  pub color : String
  pub top : ℕ
  pub left : ℕ
  pub width : ℕ
  pub height : ℕ

pub record CamFeed : Type 0 where
  pub id : String
  pub name : String
  pub location : String

abbrev pub cam_feeds : List CamFeed
cam_feeds =
    record {
      id = "CAM-01";
      name = "Cam 01: North Approach";
      location = "Intersection A-102 (Downtown)";
    }
    ∷ record {
      id = "CAM-02";
      name = "Cam 02: Ring Road Flyover";
      location = "NH-52 Expressway Hub";
    }
    ∷ record { id = "CAM-03"; name = "Cam 03: Cyber Boulevard"; location = "Sector 4 Junction" }
    ∷ []

abbrev box : String → String → ℕ → String → ℕ → ℕ → ℕ → ℕ → DetectionBox
box id label confidence color top left width height = record {
  id = id;
  label = label;
  confidence = confidence;
  color = color;
  top = top * percent;
  left = left * percent;
  width = width * percent;
  height = height * percent;
}

abbrev pub first_boxes : List DetectionBox
first_boxes =
    box "1" "CAR" 98 "#E5584D" 32 24 22 26
    ∷ box "2" "BUS" 91 "#0D0E11" 22 58 28 38
    ∷ box "3" "BIKE" 94 "#F59E0B" 62 16 14 20
    ∷ box "4" "CAR" 96 "#E5584D" 58 42 20 24
    ∷ box "5" "PEDESTRIAN" 95 "#22C55E" 48 88 8 22
    ∷ []

-- The frame rate is in tenths.
pub record Feed : Type 0 where
  pub active_cam : String
  pub fps : ℕ
  pub boxes : List DetectionBox

unfoldable pub initial : Feed
initial = record { active_cam = "CAM-01"; fps = 302; boxes = first_boxes }

unfoldable pub set_active_cam : String → Feed → Feed
set_active_cam id f = record f { active_cam = id }

-- The draws for a box.
pub record Draws : Type 0 where
  pub left : ℕ
  pub top : ℕ

abbrev pub jitter : Draws → DetectionBox → DetectionBox
jitter d b = record b {
  left = max (5 * percent) (min (85 * percent) (b.left + 10 * d.left - 5 * resolution));
  top = max (10 * percent) (min (75 * percent) (b.top + 8 * d.top - 4 * resolution));
}

abbrev pub jitter_from : (ℕ → Draws) → ℕ → List DetectionBox → List DetectionBox
jitter_from draws i [] = []
jitter_from draws i (b ∷ bs) = jitter (draws i) b ∷ jitter_from draws (suc i) bs

-- One tick of the interval, with the draws of the boxes and of the frame rate.
unfoldable pub track : (ℕ → Draws) → ℕ → Feed → Feed
track draws rate f = record f {
  boxes = jitter_from draws 0 f.boxes;
  fps = round (298 * resolution + 8 * rate) resolution;
}

-- A box whose upper left corner is in the part of the picture that boxes are kept in.
pub record InFrame (b : DetectionBox) : Type 0 where
  pub left : (5 * percent ≤ b.left) × (b.left ≤ 85 * percent)
  pub top : (10 * percent ≤ b.top) × (b.top ≤ 75 * percent)

jitter_from-InFrame :
    (draws : ℕ → Draws) (i : ℕ) (bs : List DetectionBox) → All InFrame (jitter_from draws i bs)
jitter_from-InFrame draws i [] = tt
jitter_from-InFrame draws i (b ∷ bs) = (
  record { left = (omega arith, omega arith); top = (omega arith, omega arith) },
  jitter_from-InFrame draws (suc i) bs,
)

length-jitter_from :
    (draws : ℕ → Draws) (i : ℕ) (bs : List DetectionBox)
    → length (jitter_from draws i bs) ≡ length bs
length-jitter_from draws i [] = refl
length-jitter_from draws i (b ∷ bs) = omega (arith, length-jitter_from draws (suc i) bs)

-- A tick keeps the number of the boxes and leaves every one within the picture, wherever it was; the
-- camera stays.
track_lem :
    (draws : ℕ → Draws) (rate : ℕ) (f : Feed)
    → All InFrame (track draws rate f).boxes
      × (length (track draws rate f).boxes ≡ length f.boxes)
      × ((track draws rate f).active_cam ≡ f.active_cam)
unfolding track
track_lem draws rate f =
    (jitter_from-InFrame draws 0 f.boxes, length-jitter_from draws 0 f.boxes, refl)
