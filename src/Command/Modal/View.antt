-- ===== src/Command/Modal/View.antt =====
-- The markup of frontend/dashboard/src/components/CommandCenter/GlobalEmergencyModal.tsx.
use surakshanet.Base.{
  String, Bool, true, false, Option, none, some, List, [], ◌∷◌, ◌++◌, if◌then◌else◌, is_some,
}
use surakshanet.Markup.{Mark, text, icon, tone, Item, mark, button, marks}
use surakshanet.Command.Modal.{
  EmergencyAction, green_corridor, all_red, Modal, Event, cancels, activates, resets, selects,
  confirm_disabled,
}

abbrev pub same_action : EmergencyAction → EmergencyAction → Bool
same_action green_corridor green_corridor = true
same_action all_red all_red = true
same_action _ _ = false

-- `selectedAction === action`
abbrev pub is_selected : EmergencyAction → Option EmergencyAction → Bool
is_selected action none = false
is_selected action (some a) = same_action a action

abbrev pub active_title : Option EmergencyAction → String
active_title o =
    if is_selected green_corridor o then "Green Corridor Activated" else "All-Red Hold Active"

abbrev pub active_text : Option EmergencyAction → String
active_text o =
    if is_selected green_corridor o
    then "All 24 signals along the corridor have been pre-empted. Emergency vehicle tracking is live."
    else "All intersections in the network are now holding red. Manual release required."

unfoldable pub activated : Modal → List (Item Event)
activated m =
    marks (
      icon "Radio"
      ∷ text (active_title m.selected_action)
      ∷ text (active_text m.selected_action)
      ∷ [])
    ++ (button false resets (text "Dismiss" ∷ []) ∷ [])

abbrev pub corridor_card : Bool → Item Event
corridor_card selected = button false (selects green_corridor) (
    tone (
      if selected
      then "border-teal-500 bg-teal-50 shadow-sm"
      else "border-slate-200 hover:border-slate-300 hover:bg-slate-50")
    ∷ icon "Siren"
    ∷ tone (if selected then "text-teal-600" else "text-slate-400")
    ∷ text "Green Corridor"
    ∷ text "Pre-empt signals along emergency route"
    ∷ [])

abbrev pub all_red_card : Bool → Item Event
all_red_card selected = button false (selects all_red) (
    tone (
      if selected
      then "border-red-500 bg-red-50 shadow-sm"
      else "border-slate-200 hover:border-slate-300 hover:bg-slate-50")
    ∷ icon "AlertTriangle"
    ∷ tone (if selected then "text-red-600" else "text-slate-400")
    ∷ text "All-Red Hold"
    ∷ text "Immediately stop all traffic city-wide"
    ∷ [])

unfoldable pub caution : Option EmergencyAction → List Mark
caution none = []
caution (some a) =
    icon "AlertTriangle"
    ∷ text "Caution:"
    ∷ text " This action will immediately override"
    ∷ text (
        if same_action a green_corridor
        then " 24+ signal controllers along the corridor."
        else " all signal controllers in the network.")
    ∷ text " Requires ADMIN authorization."
    ∷ []

unfoldable pub confirm : Modal → Item Event
confirm m = button (confirm_disabled m) activates (
    tone (
      if is_some m.selected_action
      then "bg-red-500 hover:bg-red-600 text-white shadow-lg shadow-red-500/25"
      else "bg-slate-200 text-slate-400 cursor-not-allowed")
    ∷ text (if m.is_confirming then "Activating..." else "Confirm & Activate")
    ∷ [])

unfoldable pub choosing : Modal → List (Item Event)
choosing m =
    mark (text "Select an emergency action to override normal traffic signal operations.")
    ∷ corridor_card (is_selected green_corridor m.selected_action)
    ∷ all_red_card (is_selected all_red m.selected_action)
    ∷ (marks (caution m.selected_action)
        ++ (button false cancels (text "Cancel" ∷ []) ∷ confirm m ∷ []))

-- The backdrop is clicked like a button.
unfoldable pub view : Modal → List (Item Event)
view m =
    if m.is_open
    then button false cancels []
      ∷ mark (icon "ShieldAlert")
      ∷ mark (text "Emergency Override")
      ∷ mark (text "Auth Level: ADMIN — Critical Actions")
      ∷ button false cancels (icon "X" ∷ [])
      ∷ (if m.is_activated then activated m else choosing m)
    else []
