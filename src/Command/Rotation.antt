-- ===== src/Command/Rotation.antt =====
-- What turns in a circle: the insights of
-- frontend/dashboard/src/components/CommandCenter/AIInsightsTicker.tsx and the carousel of
-- frontend/dashboard/src/pages/StudioHomePage.tsx.
pub mod Studio
use surakshanet.Base.{
  ℕ, ◌+◌, ◌%◌, ◌<◌, ◌≡◌, String, Bool, true, false, ◌||◌, List, [], ◌∷◌, arith, ◌==◌, if◌then◌else◌,
  length, All, Bool-cases, inl, inr,
}

pub record Insight : Type 0 where
  pub id : ℕ
  pub category : String
  pub text : String
  pub kind : String
  pub timestamp : String
  pub impact : String

abbrev insight : ℕ → String → String → String → String → String → Insight
insight id category text kind timestamp impact = record {
  id = id;
  category = category;
  text = text;
  kind = kind;
  timestamp = timestamp;
  impact = impact;
}

abbrev pub live_insights : List Insight
live_insights =
    insight 1 "CONGESTION SPIKE"
      "Traffic congestion on Ring Road increased by 27% in the last 15 minutes." "warning"
      "Just now" "Signal +12s recommended"
    ∷ insight 2 "LANE UTILIZATION" "Lane 02 (Downtown East) is currently underutilized by 42%."
        "info" "1m ago" "Phase reallocation active"
    ∷ insight 3 "OPTIMIZATION OPPORTUNITY"
        "Recommended signal timing adjustment could reduce average waiting time by 18% on Corridor Alpha."
        "success" "3m ago" "High reward expected"
    ∷ insight 4 "RISK FORECAST"
        "Accident probability elevated near Intersection 07 due to wet pavement friction sensors."
        "danger" "5m ago" "VMS speed advisory posted"
    ∷ []

unfoldable pub ticker_tick : ℕ → ℕ
ticker_tick prev = (prev + 1) % length live_insights

pub record Project : Type 0 where
  pub num_left : String
  pub num_right : String
  pub title : String
  pub concept : String
  pub tag : String
  pub stats : String

abbrev project : String → String → String → String → String → String → Project
project num_left num_right title concept tag stats = record {
  num_left = num_left;
  num_right = num_right;
  title = title;
  concept = concept;
  tag = tag;
  stats = stats;
}

abbrev pub projects : List Project
projects =
    project "06" "04" "Discover Our\nNew Projects\nfrom ©2025"
      "Validation of Autonomous Ideas\nFrom Concept to POC,\nRapidly"
      "* Exclusive Prototyping\n   bringing visions to life in record time" "39.4% Delay Reduction"
    ∷ project "01" "08" "Edge Vision\nInfrastructure\nfrom ©2025"
        "Neural Vision Pipeline\nFor Connected Metropolitan\nCorridors"
        "* Sub-20ms Detection\n   real-time multi-lane classification" "99.2% Detection Precision"
    ∷ project "03" "12" "Emergency Priority\nProtocol\nfrom ©2025"
        "Zero-Latency Pre-Emption\nFor Ambulances &\nFirst Responders"
        "* Life-Critical Dispatch\n   automatic 24-signal green wave" "58% Transit Acceleration"
    ∷ project "05" "16" "Metropolitan\nUrban Grid\nfrom ©2025"
        "Intelligent Transport Systems\nDesigned for Smart Cities\nWorldwide"
        "* 150 Interconnected Nodes\n   dynamic predictive routing matrix"
        "150 Connected Intersections"
    ∷ []

-- What a timeout of the carousel will do.
pub data Timer : Type 0 where
  next : Timer
  to : ℕ → Timer

pub record Carousel : Type 0 where
  pub active_idx : ℕ
  pub fade : Bool
  pub timers : List Timer

unfoldable pub initial : Carousel
initial = record { active_idx = 0; fade = false; timers = [] }

unfoldable pub go_next : Carousel → Carousel
go_next c = if c.fade then c else record c { fade = true; timers = next ∷ c.timers }

unfoldable pub go_to : ℕ → Carousel → Carousel
go_to i c =
    if c.fade || (i == c.active_idx) then c else record c { fade = true; timers = to i ∷ c.timers }

abbrev target : Timer → ℕ → ℕ
target next idx = (idx + 1) % length projects
target (to i) idx = i

-- The first timeout fires.
unfoldable pub fires : Carousel → Carousel
fires c = elim c.timers [
  | [] ↦ c
  | t ∷ ts ↦ record c { active_idx = target t c.active_idx; fade = false; timers = ts }
]

pub data Event : Type 0 where
  nexts fading_ends : Event
  goes : ℕ → Event

unfoldable pub step : Carousel → Event → Carousel
step c nexts = go_next c
step c fading_ends = fires c
step c (goes i) = go_to i c

unfoldable pub run : Carousel → List Event → Carousel
run c [] = c
run c (e ∷ es) = run (step c e) es

-- The buttons of the carousel are those of the projects.
abbrev pub Shown : Event → Type 0
Shown nexts = Unit
Shown fading_ends = Unit
Shown (goes i) = i < 4

abbrev pub Within : Timer → Type 0
Within next = Unit
Within (to i) = i < 4

-- A project is shown, and a fade has exactly one timeout to end it.
pub data Turning : Carousel → Type 0 where
  still : {i : ℕ} → i < 4 → Turning (record { active_idx = i; fade = false; timers = [] })
  fading :
      {i : ℕ} {t : Timer}
      → i < 4
      → Within t
      → Turning (record { active_idx = i; fade = true; timers = t ∷ [] })

go_to-Turning :
    (i j : ℕ)
    → i < 4
    → j < 4
    → Turning (go_to i (record { active_idx = j; fade = false; timers = [] }))
unfolding go_to
go_to-Turning i j h k = elim (Bool-cases (i == j)) [
  | inl e ↦ rw e (still k)
  | inr e ↦ rw e (fading k h)
]

step-Turning : (c : Carousel) (e : Event) → Shown e → Turning c → Turning (step c e)
unfolding step go_next fires
step-Turning c nexts s (still h) = fading h tt
step-Turning c nexts s (fading h w) = fading h w
step-Turning c fading_ends s (still h) = still h
step-Turning c fading_ends s (fading {i = i} {t = next} h w) = still (omega arith)
step-Turning c fading_ends s (fading {t = to j} h w) = still w
step-Turning c (goes j) s (still {i = i} h) = go_to-Turning j i s h
step-Turning c (goes j) s (fading h w) = unfold go_to in fading h w

run_from-Turning : (c : Carousel) (es : List Event) → Turning c → All Shown es → Turning (run c es)
unfolding run
run_from-Turning c [] t s = t
run_from-Turning c (e ∷ es) t s = run_from-Turning (step c e) es (step-Turning c e s.0 t) s.1

-- After any clicks and timeouts the carousel shows one of the four projects, and it fades exactly while
-- one timeout is to end the fade.
run_carousel-Turning : (es : List Event) → All Shown es → Turning (run initial es)
unfolding initial
run_carousel-Turning es s = run_from-Turning initial es (still (omega arith)) s

-- Four ticks show every insight again.
ticker_tick_period :
    (idx : ℕ) → idx < 4 → ticker_tick (ticker_tick (ticker_tick (ticker_tick idx))) ≡ idx
unfolding ticker_tick
ticker_tick_period idx h = omega arith
