-- ===== src/Pages/Settings.antt =====
-- frontend/dashboard/src/pages/SettingsPage.tsx. Nothing of the form is read or kept; the inputs are
-- uncontrolled, so what is given is what they start with.
use surakshanet.Base.{ℕ, suc, String, Bool, true, false, not, ◌==◌, List, [], ◌∷◌, ◌++◌}
use surakshanet.Markup.{Mark, text, icon}

-- A field of the form, with what it starts with.
pub data Field : Type 0 where
  shown : Mark → Field
  -- a text, and whether it can be changed
  input : String → Bool → Field
  -- the options, the first of which is chosen
  choice : List String → Field
  checkbox : Bool → Field
  action : String → Field

abbrev label : String → Field
label s = shown (text s)

unfoldable pub general : List Field
general =
    shown (icon "Settings")
    ∷ label "General"
    ∷ label "System Name"
    ∷ input "Surakshanet Production" true
    ∷ label "Timezone"
    ∷ choice ("Asia/Kolkata (UTC+5:30)" ∷ "UTC" ∷ "America/New_York (UTC-5:00)" ∷ [])
    ∷ label "Language"
    ∷ choice ("English (UK)" ∷ "English (US)" ∷ "Hindi" ∷ [])
    ∷ []

abbrev pub notification_items : List String
notification_items = "Email alerts" ∷ "SMS alerts" ∷ "Dashboard alerts" ∷ "Sound effects" ∷ []

-- The switches from the index `idx` on: all but the second start checked.
abbrev pub switches_from : ℕ → List String → List Field
switches_from idx [] = []
switches_from idx (item ∷ items) =
    label item ∷ checkbox (not (idx == 1)) ∷ switches_from (suc idx) items

unfoldable pub notifications : List Field
notifications = shown (icon "Bell") ∷ label "Notifications" ∷ switches_from 0 notification_items

unfoldable pub api_configuration : List Field
api_configuration =
    shown (icon "Code")
    ∷ label "API Configuration"
    ∷ label "API Endpoint"
    ∷ label "https://api.surakshanet.gov.in/v2"
    ∷ label "API Key"
    ∷ input "sk-live-1234567890abcdef" false
    ∷ action "Regenerate"
    ∷ label "Refresh Interval"
    ∷ choice ("Every 5 seconds" ∷ "Every 30 seconds" ∷ "Every 1 minute" ∷ "Manual only" ∷ [])
    ∷ []

unfoldable pub display : List Field
display =
    shown (icon "Monitor")
    ∷ label "Display"
    ∷ label "Theme"
    ∷ choice ("Light" ∷ "Dark" ∷ "System" ∷ [])
    ∷ label "Map Default Zoom"
    ∷ choice ("12x (City Level)" ∷ "15x (District Level)" ∷ "18x (Street Level)" ∷ [])
    ∷ label "Units"
    ∷ choice ("Metric (km, °C)" ∷ "Imperial (mi, °F)" ∷ [])
    ∷ []

unfoldable pub danger_zone : List Field
danger_zone =
    shown (icon "AlertTriangle")
    ∷ label "Danger Zone"
    ∷ action "Reset to Defaults"
    ∷ action "Clear All Data"
    ∷ []

unfoldable pub view : List Field
view =
    label "Settings" ∷ label "System Configuration" ∷ general
    ++ (notifications ++ (api_configuration ++ (display ++ danger_zone)))
