-- ===== src/Signals/View.antt =====
-- The markup of frontend/dashboard/src/pages/SignalControlPage.tsx, with the junctions of the store. The
-- chart of the reward is left out.
use surakshanet.Base.{
  ℕ, String, Bool, true, false, not, Option, none, some, List, [], ◌∷◌, ◌++◌, map, str_eq,
  if◌then◌else◌,
}
use surakshanet.Stores.Types.{Junction}
use surakshanet.Markup.{Mark, text, icon, tone, Item, mark, button, marks}
use surakshanet.Signals.{Mode, marl, webster, manual, Page, selected_junction_name}

-- What the buttons do: an override has its action and its seconds, if any.
pub data Click : Type 0 where
  toggles : Click
  chooses : String → Click
  changes_mode : Mode → Click
  overrides : String → Option ℕ → Click

abbrev pub same_mode : Mode → Mode → Bool
same_mode marl marl = true
same_mode webster webster = true
same_mode manual manual = true
same_mode _ _ = false

abbrev pub junction_option : {F : Type 0} → String → Junction F → Item Click
junction_option selected j = button false (chooses j.id) (
    tone
      (if str_eq j.id selected then "font-bold text-teal-700 bg-teal-50/50" else "text-slate-700")
    ∷ text j.name
    ∷ (if str_eq j.id selected then icon "CheckCircle2" ∷ [] else []))

abbrev pub dropdown : {F : Type 0} → String → List (Junction F) → List (Item Click)
dropdown selected [] = mark (text "Loading corridors...") ∷ []
dropdown selected (j ∷ js) = map (junction_option selected) (j ∷ js)

unfoldable pub target_node : {F : Type 0} → List (Junction F) → Page → List (Item Click)
target_node store p =
    marks (icon "Grid" ∷ text "Target Node" ∷ [])
    ++ (button false toggles (text (selected_junction_name store p) ∷ icon "ChevronDown" ∷ [])
        ∷ (if p.is_dropdown_open then dropdown p.selected_junction_id store else []))

abbrev pub mode_tone : Mode → Bool → String
mode_tone marl chosen =
    if chosen
    then "bg-teal-50 text-teal-700 shadow-sm border border-teal-200"
    else "text-slate-600 hover:text-slate-900"
mode_tone webster chosen =
    if chosen then "bg-white text-slate-900 shadow-sm" else "text-slate-600 hover:text-slate-900"
mode_tone manual chosen =
    if chosen
    then "bg-red-50 text-red-600 shadow-sm border border-red-200"
    else "text-slate-600 hover:text-slate-900"

abbrev pub mode_label : Mode → String
mode_label marl = "● MARL Dynamic AI"
mode_label webster = "Webster (Static)"
mode_label manual = "Manual Control"

abbrev pub mode_button : Page → Mode → Item Click
mode_button p mode =
    button false (changes_mode mode)
      (tone (mode_tone mode (same_mode p.active_control mode)) ∷ text (mode_label mode) ∷ [])

unfoldable pub stream : Page → List Mark
stream p = icon "Radio" ∷ text "Agent Telemetry Stream" ∷ text "10Hz Stream" ∷ map text p.telemetry

abbrev pub rewards : List Mark
rewards =
    text "Instantaneous Reward"
    ∷ text "↗ 14% vs baseline"
    ∷ text "+14.2"
    ∷ text "Episode Reward"
    ∷ text "1,248"
    ∷ text "DQN Policy 500 eps"
    ∷ text "Delay vs Webster"
    ∷ text "-24.5%"
    ∷ text "Avg Delay: 18.2s"
    ∷ []

abbrev pub guardrails : List Mark
guardrails =
    icon "Shield"
    ∷ text "Safety Guardrails (NEMA/IRC)"
    ∷ text "Min Green Time (12s)"
    ∷ text "VALID"
    ∷ text "Amber Clearance (3.0s)"
    ∷ text "VALID"
    ∷ text "All-Red Clearance (2.0s)"
    ∷ text "VALID"
    ∷ text "Conflict Monitor (NEMA Interlock)"
    ∷ text "ONLINE"
    ∷ []

unfoldable pub console : List (Item Click)
console =
    marks (icon "AlertTriangle" ∷ text "Manual Override Console" ∷ [])
    ++ (button false (overrides "PHASE_SKIP" none) (icon "Play" ∷ text "Force Phase Skip" ∷ [])
        ∷ button false (overrides "EXTEND_GREEN" (some 5)) (icon "Plus" ∷ text "+5s Green" ∷ [])
        ∷ button false (overrides "SHORTEN_GREEN" (some 5)) (icon "Minus" ∷ text "-5s Green" ∷ [])
        ∷ button false (overrides "FLASH_ALL_RED" none)
            (icon "AlertTriangle" ∷ text "ALL RED (FLASH)" ∷ [])
        ∷ [])

unfoldable pub view : {F : Type 0} → List (Junction F) → Page → List (Item Click)
view store p =
    target_node store p
    ++ (mode_button p marl
        ∷ mode_button p webster
        ∷ mode_button p manual
        ∷ (marks (stream p) ++ (marks rewards ++ (marks guardrails ++ console))))

-- The two handlers of the choice of a junction.
unfoldable pub toggle_dropdown : Page → Page
toggle_dropdown p = record p { is_dropdown_open = not p.is_dropdown_open }

unfoldable pub choose : String → Page → Page
choose id p = record p { selected_junction_id = id; is_dropdown_open = false }
