-- ===== src/Alerts/View.antt =====
-- The markup of frontend/dashboard/src/pages/AlertsPage.tsx. The first eight characters of an id and the
-- local form of a date are arguments.
use surakshanet.Base.{
  ℕ, String, ◌<>◌, false, Option, none, some, List, [], ◌∷◌, ◌++◌, str_eq, if◌then◌else◌,
}
use surakshanet.Markup.{Mark, text, icon, tone, Item, button, marks, each}
use surakshanet.Alerts.{
  AlertItem, Page, Icon, alert_triangle, alert_circle, info_circle, severity_styles,
  filtered_alerts, total_count, active_count, critical_count, resolved_count,
}

pub data Click : Type 0 where
  refreshes toggles : Click
  filters acknowledges : String → Click

abbrev pub stats : (ℕ → String) → Page → List Mark
stats to_text p =
    text "Total Alerts"
    ∷ text (to_text (total_count p))
    ∷ text "Active Alerts"
    ∷ text (to_text (active_count p))
    ∷ text "Critical Unresolved"
    ∷ text (to_text (critical_count p))
    ∷ text "Resolved"
    ∷ text (to_text (resolved_count p))
    ∷ []

unfoldable pub header : (ℕ → String) → Page → List (Item Click)
header to_text p =
    marks
      (text "System Alerts" ∷ text "Real-time monitoring & incident tracking from PostgreSQL" ∷ [])
    ++ (button false refreshes
          (icon "RefreshCw" ∷ tone (if p.loading then "animate-spin" else "") ∷ text "Refresh" ∷ [])
        ∷ marks (stats to_text p))

-- One of the filters, with its label.
abbrev pub filter_button : String → String → String → Item Click
filter_button chosen f label = button false (filters f) (
    tone (
      if str_eq chosen f
      then "bg-teal-600 text-white"
      else "bg-slate-100 text-slate-600 hover:bg-slate-200")
    ∷ text label
    ∷ [])

unfoldable pub controls : Page → List (Item Click)
controls p =
    filter_button p.filter "ALL" "All"
    ∷ filter_button p.filter "CRITICAL" "Critical"
    ∷ filter_button p.filter "WARNING" "Warning"
    ∷ filter_button p.filter "INFO" "Info"
    ∷ (marks (text "Show Acknowledged" ∷ [])
        ++ (button false toggles (
              tone (if p.show_acknowledged then "bg-teal-600" else "bg-slate-300")
              ∷ tone (if p.show_acknowledged then "translate-x-6" else "translate-x-1")
              ∷ [])
            ∷ []))

abbrev pub icon_name : Icon → String
icon_name alert_triangle = "AlertTriangle"
icon_name alert_circle = "AlertCircle"
icon_name info_circle = "Info"

-- `alert.junction_id && …`
abbrev pub junction_marks : (String → String) → Option String → List Mark
junction_marks short none = []
junction_marks short (some id) =
    if str_eq id "" then [] else text ("Junction: " <> (short id <> "...")) ∷ []

unfoldable pub card_marks : (String → String) → (String → String) → AlertItem → List Mark
card_marks short local a =
    let styles = severity_styles a.severity in
    tone styles.bg
    ∷ icon (icon_name styles.icon)
    ∷ tone styles.color
    ∷ text a.alert_type
    ∷ tone styles.bg
    ∷ tone styles.color
    ∷ text a.severity
    ∷ (junction_marks short a.junction_id
        ++ text a.message
          ∷ text (local a.created_at)
          ∷ (if a.is_acknowledged then icon "CheckCircle" ∷ text " Acknowledged" ∷ [] else []))

unfoldable pub card : (String → String) → (String → String) → AlertItem → List (Item Click)
card short local a =
    marks (card_marks short local a)
    ++ (if a.is_acknowledged
        then []
        else button false (acknowledges a.id) (text "Acknowledge" ∷ []) ∷ [])

abbrev pub no_alerts : List Mark
no_alerts =
    icon "CheckCircle"
    ∷ text "No Active Alerts"
    ∷ text "All corridor thresholds are within nominal bounds."
    ∷ []

unfoldable pub cards : (String → String) → (String → String) → List AlertItem → List (Item Click)
cards short local [] = marks no_alerts
cards short local (a ∷ alerts) = each (card short local) (a ∷ alerts)

unfoldable pub view :
    (ℕ → String) → (String → String) → (String → String) → Page → List (Item Click)
view to_text short local p =
    header to_text p ++ (controls p ++ cards short local (filtered_alerts p))
