-- ===== src/Command/Incidents/View.antt =====
-- The markup of frontend/dashboard/src/components/CommandCenter/LiveIncidents.tsx.
use surakshanet.Base.{ℕ, String, ◌<>◌, Bool, true, false, List, [], ◌∷◌, ◌++◌, if◌then◌else◌}
use surakshanet.Markup.{Mark, text, icon, tone, Item, mark, button, marks, each}
use surakshanet.Command.Incidents.{
  IncidentItem, Severity, critical, high, warning, Status, pending, dispatched, resolved, Filter,
  all, only, same_severity, filtered,
}

pub data Click : Type 0 where
  filters : Filter → Click
  acts : String → Click

abbrev pub severity_text : Severity → String
severity_text critical = "CRITICAL"
severity_text high = "HIGH"
severity_text warning = "WARNING"

abbrev pub filter_text : Filter → String
filter_text all = "ALL"
filter_text (only s) = severity_text s

abbrev pub status_text : Status → String
status_text pending = "PENDING"
status_text dispatched = "DISPATCHED"
status_text resolved = "RESOLVED"

abbrev pub same_filter : Filter → Filter → Bool
same_filter all all = true
same_filter (only s) (only t) = same_severity s t
same_filter _ _ = false

-- One of the pills, under the filter that is chosen.
abbrev pub pill : Filter → Filter → Item Click
pill filter sev = button false (filters sev) (
    tone (
      if same_filter filter sev
      then "bg-studio-coral text-white shadow-sm"
      else "text-studio-text/70 hover:text-studio-coral")
    ∷ text (filter_text sev)
    ∷ [])

unfoldable pub header : Filter → List (Item Click)
header filter =
    marks (
      text "ROAD SAFETY INCIDENT MONITOR"
      ∷ icon "ShieldAlert"
      ∷ text "Live Incident Stream & Dispatch"
      ∷ [])
    ++ (pill filter all
        ∷ pill filter (only critical)
        ∷ pill filter (only high)
        ∷ pill filter (only warning)
        ∷ [])

abbrev pub card_tone : Severity → String
card_tone critical = "bg-red-50/70 border-red-200 hover:border-red-300"
card_tone high = "bg-amber-50/70 border-amber-200 hover:border-amber-300"
card_tone warning = "bg-studio-bgLight/60 border-studio-pink/30 hover:border-studio-pink/60"

abbrev pub card_icon : Severity → String
card_icon critical = "AlertOctagon"
card_icon high = "AlertTriangle"
card_icon warning = "AlertTriangle"

abbrev pub title_tone : Severity → String
title_tone critical = "text-red-700"
title_tone high = "text-amber-800"
title_tone warning = "text-studio-text"

abbrev pub status_tone : Status → String
status_tone resolved = "bg-emerald-100 text-emerald-800 border border-emerald-300"
status_tone dispatched = "bg-blue-100 text-blue-800 border border-blue-300"
status_tone pending = "bg-red-100 text-red-700 border border-red-300"

-- The upper part of a card, with the text of a confidence.
unfoldable pub card_top : (ℕ → String) → IncidentItem → List Mark
card_top to_text i =
    tone (card_tone i.severity)
    ∷ icon (card_icon i.severity)
    ∷ tone (title_tone i.severity)
    ∷ text i.title
    ∷ tone (status_tone i.status)
    ∷ text (status_text i.status)
    ∷ text i.location
    ∷ icon "Clock"
    ∷ text i.timestamp
    ∷ text "•"
    ∷ text ("CONFIDENCE: " <> (to_text i.confidence <> "%"))
    ∷ text "RECOMMENDED DISPATCH ACTION:"
    ∷ text i.action
    ∷ []

-- The button of a card, or what stands in its place.
abbrev pub act_item : String → Status → List (Item Click)
act_item id resolved = marks (icon "CheckCircle" ∷ text "Incident Closed" ∷ [])
act_item id pending =
    button false (acts id) (
      tone "bg-studio-coral hover:bg-studio-coralDark text-white"
      ∷ icon "Send"
      ∷ text "Dispatch Unit"
      ∷ [])
    ∷ []
act_item id dispatched =
    button false (acts id) (
      tone "bg-studio-black hover:bg-slate-900 text-white"
      ∷ icon "Send"
      ∷ text "Mark Resolved"
      ∷ [])
    ∷ []

unfoldable pub card : (ℕ → String) → IncidentItem → List (Item Click)
card to_text i =
    marks (card_top to_text i) ++ (mark (text ("ID: " <> i.id)) ∷ act_item i.id i.status)

unfoldable pub view : (ℕ → String) → Filter → List IncidentItem → List (Item Click)
view to_text filter incidents = header filter ++ each (card to_text) (filtered filter incidents)
