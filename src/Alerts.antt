-- ===== src/Alerts.antt =====
-- frontend/dashboard/src/pages/AlertsPage.tsx: the page's state and handlers. A severity is the text
-- that the server sends, so that the `default` of the styles can be reached. Toasts and console output
-- are left out; what a request brings is an argument.
pub mod Counts
mod Tests
pub mod View
pub mod Offers
pub mod Polling
pub mod Acked
pub mod Honesty
use surakshanet.Base.{
  ℕ, ◌-◌, String, Bool, true, false, not, ◌&&◌, ◌||◌, Option, none, some, List, [], map, str_eq,
  if◌then◌else◌, length, count, filter,
}

pub record AlertItem : Type 0 where
  pub id : String
  pub junction_id : Option String
  pub alert_type : String
  pub severity : String
  pub message : String
  pub is_acknowledged : Bool
  pub created_at : String
  pub acknowledged_at : Option String

pub record Page : Type 0 where
  pub alerts : List AlertItem
  pub loading : Bool
  -- "ALL" or a severity
  pub filter : String
  pub show_acknowledged : Bool

unfoldable pub initial : Page
initial = record { alerts = []; loading = true; filter = "ALL"; show_acknowledged = true }

-- What `api.alerts.getAll()` brings: an array, something else, or an error.
pub data Fetched : Type 0 where
  array : List AlertItem → Fetched
  nothing failed : Fetched

unfoldable pub fetch_starts : Page → Page
fetch_starts p = record p { loading = true }

unfoldable pub fetch_alerts : Fetched → Page → Page
fetch_alerts (array alerts) p = record p { alerts = alerts; loading = false }
fetch_alerts nothing p = record p { loading = false }
fetch_alerts failed p = record p { loading = false }

abbrev pub mark : String → AlertItem → AlertItem
mark id a = if str_eq a.id id then record a { is_acknowledged = true } else a

-- `accepted` says whether the server's answer is a success.
unfoldable pub handle_acknowledge : String → Bool → Page → Page
handle_acknowledge id accepted p =
    if accepted then record p { alerts = map (mark id) p.alerts } else p

abbrev pub shows : String → Bool → AlertItem → Bool
shows wanted show_acknowledged a =
    if not (str_eq wanted "ALL") && not (str_eq a.severity wanted)
    then false
    else if not show_acknowledged && a.is_acknowledged
    then false
    else true

unfoldable pub filtered_alerts : Page → List AlertItem
filtered_alerts p = filter (shows p.filter p.show_acknowledged) p.alerts

pub data Icon : Type 0 where
  alert_triangle alert_circle info_circle : Icon

pub record Styles : Type 0 where
  pub icon : Icon
  pub color : String
  pub bg : String

unfoldable pub severity_styles : String → Styles
severity_styles severity =
    if str_eq severity "CRITICAL"
    then record { icon = alert_triangle; color = "text-red-600"; bg = "bg-red-50" }
    else if str_eq severity "WARNING"
    then record { icon = alert_circle; color = "text-amber-500"; bg = "bg-amber-50" }
    else if str_eq severity "INFO"
    then record { icon = info_circle; color = "text-teal-600"; bg = "bg-teal-50" }
    else record { icon = info_circle; color = "text-slate-600"; bg = "bg-slate-50" }

unfoldable pub total_count : Page → ℕ
total_count p = length p.alerts

unfoldable pub active_count : Page → ℕ
active_count p = length (filter (λ a. not a.is_acknowledged) p.alerts)

unfoldable pub critical_count : Page → ℕ
critical_count p =
    length (filter (λ a. str_eq a.severity "CRITICAL" && not a.is_acknowledged) p.alerts)

unfoldable pub resolved_count : Page → ℕ
resolved_count p = total_count p - active_count p
