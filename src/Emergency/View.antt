-- ===== src/Emergency/View.antt =====
-- The markup of frontend/dashboard/src/pages/EmergencyPage.tsx. The junctions of the store are given by
-- their names.
use surakshanet.Base.{
  ℕ, ◌+◌, ◌≡◌, refl, String, ◌<>◌, Bool, true, false, Option, none, some, List, [], ◌∷◌, ◌++◌, map,
  count, length, arith, str_eq, if◌then◌else◌, min,
}
use surakshanet.Markup.{Mark, text, icon, tone, bar, Item, mark, button, marks}
use surakshanet.Emergency.{
  EmergencyType, ambulance, fire, police, Status, cleared, active_green, pre_empting, standard,
  is_cleared, JunctionStatus, default_route_junctions, Page, cleared_count,
}
use surakshanet.Emergency.Corridor.{advance_all, progression_refines}

pub data Click : Type 0 where
  chooses : EmergencyType → Click
  swaps toggles : Click
  -- an option of one of the two selections
  starts_at goes_to : String → Click

abbrev pub same_type : EmergencyType → EmergencyType → Bool
same_type ambulance ambulance = true
same_type fire fire = true
same_type police police = true
same_type _ _ = false

abbrev pub type_label : EmergencyType → String
type_label ambulance = "🚑 Ambulance"
type_label fire = "🚒 Fire Engine"
type_label police = "🚓 Police Escort"

abbrev pub type_button : EmergencyType → EmergencyType → Item Click
type_button selected type = button false (chooses type) (
    tone (
      if same_type selected type
      then "border-teal-500 bg-teal-50 text-teal-700 ring-2 ring-teal-200 ring-offset-1 font-bold"
      else "bg-white border-[#E2E8F0] text-slate-600 hover:bg-slate-50 font-medium")
    ∷ icon "Activity"
    ∷ tone (if same_type selected type then "text-teal-600" else "text-slate-400")
    ∷ text (type_label type)
    ∷ [])

abbrev pub option : (String → Click) → String → Item Click
option choose name = button false (choose name) (text name ∷ [])

-- The options of a selection. The one that stands in for an empty store has the text as its value.
abbrev pub options : (String → Click) → String → List String → List (Item Click)
options choose missing [] = option choose missing ∷ []
options choose missing (name ∷ names) = map (option choose) (name ∷ names)

unfoldable pub pathing : List String → Page → List (Item Click)
pathing names p =
    marks (text "Corridor Pathing" ∷ icon "MapPin" ∷ text "Origin Node" ∷ text p.origin ∷ [])
    ++ (options starts_at "Connaught Place Outer Circle" names
        ++ (button false swaps (icon "ArrowUpDown" ∷ [])
              ∷ marks (icon "Flag" ∷ text "Destination Hospital / Node" ∷ text p.destination ∷ [])
            ++ (options goes_to "AIIMS Flyover - Ring Road" names
                ++ marks (
                    icon "Clock"
                    ∷ text " Std. Travel Time"
                    ∷ text "42:15"
                    ∷ icon "Clock"
                    ∷ text " Green Corridor ETA"
                    ∷ text "16:30"
                    ∷ text "-61% Transit Time Optimization"
                    ∷ []))))

unfoldable pub dispatch : Page → List (Item Click)
dispatch p =
    marks (text "Critical Priority Dispatch" ∷ text "Auth: TRAFFIC_OP_ADMIN" ∷ [])
    ++ (button false toggles (
          if p.is_activated
          then tone
              "bg-emerald-600 text-white hover:bg-emerald-700 border border-emerald-700 animate-pulse"
            ∷ icon "CheckCircle2"
            ∷ text " CORRIDOR ACTIVE (CLICK TO STOP)"
            ∷ []
          else tone
              "bg-gradient-to-r from-red-600 to-rose-600 text-white hover:from-red-700 hover:to-rose-700 border border-red-700"
            ∷ icon "AlertTriangle"
            ∷ text " ACTIVATE GREEN CORRIDOR"
            ∷ [])
        ∷ marks (text "Overrides 5 key intersections along the primary hospital route." ∷ []))

unfoldable pub telemetry : (ℕ → String) → Page → List Mark
telemetry to_text p =
    text "Corridor Telemetry"
    ∷ tone (
        if p.is_activated then "bg-emerald-100 text-emerald-700" else "bg-slate-100 text-slate-500")
    ∷ text (if p.is_activated then "STATUS: ACTIVE" else "STATUS: STANDBY")
    ∷ text "Emergency Vehicle ID"
    ∷ text "AMB-DL-01-9421"
    ∷ text "Current Velocity"
    ∷ text (to_text p.speed <> " km/h")
    ∷ text "Preempted Intersections"
    ∷ text (if p.is_activated then to_text (length p.junctions) <> " Signals Hold" else "None")
    ∷ text "Route Distance"
    ∷ text "8.9 km"
    ∷ icon "Radio"
    ∷ text
        "NEMA Conflict Interlock guarantees minimum cross-street pedestrian clearance before pre-emption."
    ∷ []

abbrev pub status_tone : Status → String
status_tone cleared = "bg-slate-50 border-slate-200 opacity-60"
status_tone active_green = "bg-teal-50 border-teal-300 ring-1 ring-teal-300"
status_tone pre_empting = "bg-amber-50 border-amber-300"
status_tone standard = "bg-white border-slate-100"

abbrev pub status_marks : Status → List Mark
status_marks cleared = icon "CheckCircle2" ∷ text " Cleared" ∷ []
status_marks active_green = text "Active Green" ∷ []
status_marks pre_empting = text "Pre-empting" ∷ []
status_marks standard = text "Standby" ∷ []

-- `j.eta && …`
abbrev pub eta_marks : Option String → List Mark
eta_marks none = []
eta_marks (some eta) = if str_eq eta "" then [] else text ("ETA: " <> eta) ∷ []

abbrev pub card : JunctionStatus → List Mark
card j =
    tone (status_tone j.status)
    ∷ text j.name
    ∷ text j.id
    ∷ (status_marks j.status ++ eta_marks j.eta)

abbrev pub cards : List JunctionStatus → List Mark
cards [] = []
cards (j ∷ js) = card j ++ cards js

unfoldable pub clearance : (ℕ → String) → List JunctionStatus → List Mark
clearance to_text js =
    text "Signals Clearance"
    ∷ text (to_text (cleared_count js) <> (" / " <> (to_text (length js) <> " Passed")))
    ∷ cards js

unfoldable pub view : (ℕ → String) → List String → Page → List (Item Click)
view to_text names p =
    mark (text "Emergency Vehicle Type")
    ∷ type_button p.selected_type ambulance
    ∷ type_button p.selected_type fire
    ∷ type_button p.selected_type police
    ∷ (pathing names p
        ++ (dispatch p ++ (marks (telemetry to_text p) ++ marks (clearance to_text p.junctions))))

-- A card that shows its junction as cleared has the icon for it.
abbrev pub is_check : Mark → Bool
is_check (icon name) = str_eq name "CheckCircle2"
is_check (text t) = false
is_check (tone t) = false
is_check (bar n) = false

count-append : (q : Mark → Bool) (xs ys : List Mark) → count q (xs ++ ys) ≡ count q xs + count q ys
count-append q [] ys = omega arith
count-append q (x ∷ xs) ys = ground (arith, count-append q xs ys)

checks-status : (st : Status) → count is_check (status_marks st) ≡ (if is_cleared st then 1 else 0)
checks-status cleared = refl
checks-status active_green = refl
checks-status pre_empting = refl
checks-status standard = refl

checks-eta : (eta : Option String) → count is_check (eta_marks eta) ≡ 0
checks-eta none = refl
checks-eta (some eta) = ground arith

checks-card :
    (j : JunctionStatus) → count is_check (card j) ≡ (if is_cleared j.status then 1 else 0)
checks-card j = omega (
  arith,
  count-append is_check (status_marks j.status) (eta_marks j.eta),
  checks-status j.status,
  checks-eta j.eta,
)

checks-cards : (js : List JunctionStatus) → count is_check (cards js) ≡ cleared_count js
unfolding cleared_count
checks-cards [] = refl
checks-cards (j ∷ js) =
    ground (arith, count-append is_check (card j) (cards js), checks-card j, checks-cards js)

-- After any number of ticks the cards that show their junction as cleared are as many as the page says
-- to be passed: one for each tick, and at most five.
clearance-checks :
    (to_text : ℕ → String) (nows : List String)
    → let js = advance_all nows default_route_junctions in
      (count is_check (clearance to_text js) ≡ cleared_count js)
      × (cleared_count js ≡ min (length nows) 5)
unfolding clearance
clearance-checks to_text nows =
    (checks-cards (advance_all nows default_route_junctions), (progression_refines nows).1)
