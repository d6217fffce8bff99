-- ===== src/Command/Intersections.antt =====
-- The junctions of frontend/dashboard/src/components/CommandCenter/CityTrafficCanvas.tsx, and the window
-- that IntersectionModal.tsx opens on one.
pub mod Window
use surakshanet.Base.{
  ℕ, String, Bool, ◌&&◌, Option, none, some, List, [], ◌∷◌, str_eq, if◌then◌else◌,
}

pub data Level : Type 0 where
  critical moderate smooth : Level

pub data AiStatus : Type 0 where
  optimizing active standby : AiStatus

pub data Signal : Type 0 where
  red yellow green : Signal

pub record Lane : Type 0 where
  pub id : String
  pub traffic : ℕ
  pub signal : Signal

pub record IntersectionData : Type 0 where
  pub id : String
  pub name : String
  pub x : ℕ
  pub y : ℕ
  pub level : Level
  pub vehicles : ℕ
  pub speed : ℕ
  pub cycle : ℕ
  pub ai_status : AiStatus
  pub lanes : List Lane

abbrev lane : String → ℕ → Signal → Lane
lane id traffic signal = record { id = id; traffic = traffic; signal = signal }

abbrev pub downtown_hub : IntersectionData
downtown_hub = record {
  id = "A-102";
  name = "Intersection A-102 (Downtown Hub)";
  x = 350;
  y = 220;
  level = critical;
  vehicles = 1284;
  speed = 18;
  cycle = 120;
  ai_status = optimizing;
  lanes =
      lane "Lane 01 (North)" 87 red
      ∷ lane "Lane 02 (East)" 32 green
      ∷ lane "Lane 03 (South)" 61 yellow
      ∷ [];
}

abbrev pub initial_intersections : List IntersectionData
initial_intersections =
    downtown_hub
    ∷ record {
      id = "B-007";
      name = "Intersection 07 (Ring Road Expressway)";
      x = 680;
      y = 180;
      level = moderate;
      vehicles = 890;
      speed = 34;
      cycle = 90;
      ai_status = active;
      lanes = lane "Lane 01" 45 green ∷ lane "Lane 02" 58 green ∷ lane "Lane 03" 30 red ∷ [];
    }
    ∷ record {
      id = "C-042";
      name = "MG Boulevard - Cyber Junction";
      x = 480;
      y = 420;
      level = smooth;
      vehicles = 620;
      speed = 48;
      cycle = 75;
      ai_status = active;
      lanes = lane "Lane 01" 22 green ∷ lane "Lane 02" 28 green ∷ [];
    }
    ∷ record {
      id = "D-114";
      name = "NH-52 Sarita Expressway Corridor";
      x = 820;
      y = 380;
      level = critical;
      vehicles = 1450;
      speed = 14;
      cycle = 135;
      ai_status = optimizing;
      lanes = lane "Lane 01" 92 red ∷ lane "Lane 02" 40 green ∷ [];
    }
    ∷ record {
      id = "E-019";
      name = "Sector 4 Tech Corridor";
      x = 180;
      y = 360;
      level = smooth;
      vehicles = 410;
      speed = 52;
      cycle = 60;
      ai_status = active;
      lanes = lane "Lane 01" 18 green ∷ lane "Lane 02" 20 green ∷ [];
    }
    ∷ []

-- What the window shows of its junction.
pub record Shown : Type 0 where
  pub current_speed : ℕ
  pub current_vehicles : ℕ
  pub current_level : Level

unfoldable pub shown : Option IntersectionData → Bool → Option Shown
shown none is_optimized = none
shown (some i) is_optimized =
    if str_eq i.id "A-102" && is_optimized
    then some (record { current_speed = 42; current_vehicles = 480; current_level = smooth })
    else some
        (record { current_speed = i.speed; current_vehicles = i.vehicles; current_level = i.level })
