-- ===== src/Alerts/Counts.antt =====
-- The counts at the top of frontend/dashboard/src/pages/AlertsPage.tsx.
use surakshanet.Base.{
  ℕ, ◌+◌, ◌≤◌, ◌≡◌, refl, String, Bool, true, false, not, ◌&&◌, List, [], ◌∷◌, map, arith, str_eq,
  if◌then◌else◌, length, filter, length-filter-le, length-map,
}
use surakshanet.Alerts.{
  AlertItem, Page, shows, mark, filtered_alerts, total_count, active_count, critical_count,
  resolved_count, handle_acknowledge,
}

-- What the page shows under a filter.
unfoldable pub shown : String → Bool → Page → ℕ
shown wanted show_acknowledged p =
    length (filtered_alerts (record p { filter = wanted; show_acknowledged = show_acknowledged }))

filter_ext :
    (p q : AlertItem → Bool) (xs : List AlertItem)
    → ((x : AlertItem) → p x ≡ q x)
    → length (filter p xs) ≡ length (filter q xs)
filter_ext p q [] h = refl
filter_ext p q (x ∷ xs) h = ground (arith, h x, filter_ext p q xs h)

all_shown : (xs : List AlertItem) → length (filter (shows "ALL" true) xs) ≡ length xs
all_shown [] = refl
all_shown (x ∷ xs) = ground (arith, all_shown xs)

-- The counts are those of the lists that the filters show: every alert, those that are open, and the
-- open critical ones; the resolved ones are the rest.
counts_lem :
    (p : Page)
    → (total_count p ≡ shown "ALL" true p)
      × (active_count p ≡ shown "ALL" false p)
      × (critical_count p ≡ shown "CRITICAL" false p)
      × (critical_count p ≤ active_count p)
      × (resolved_count p + active_count p ≡ total_count p)
unfolding shown total_count active_count critical_count resolved_count filtered_alerts
counts_lem p = (
  ground (arith, all_shown p.alerts),
  filter_ext (λ a. not a.is_acknowledged) (shows "ALL" false) p.alerts (λ a. ground arith),
  filter_ext (λ a. str_eq a.severity "CRITICAL" && not a.is_acknowledged) (shows "CRITICAL" false)
      p.alerts (λ a. ground arith),
  critical_le p.alerts,
  omega (arith, length-filter-le (λ (a : AlertItem). not a.is_acknowledged) p.alerts),
)
  where
    critical_le :
        (xs : List AlertItem)
        → length (filter (λ a. str_eq a.severity "CRITICAL" && not a.is_acknowledged) xs)
          ≤ length (filter (λ a. not a.is_acknowledged) xs)
    critical_le [] = omega arith
    critical_le (x ∷ xs) = ground (arith, critical_le xs)

-- The open alerts of an id.
unfoldable pub open_of : String → Page → ℕ
open_of id p = length (filter (λ a. str_eq a.id id && not a.is_acknowledged) p.alerts)

marked_active :
    (id : String) (xs : List AlertItem)
    → length (filter (λ a. not a.is_acknowledged) (map (mark id) xs))
        + length (filter (λ a. str_eq a.id id && not a.is_acknowledged) xs)
      ≡ length (filter (λ a. not a.is_acknowledged) xs)
marked_active id [] = refl
marked_active id (x ∷ xs) = ground (arith, marked_active id xs)

-- Acknowledging takes the open alerts of the id off the active count and adds them to the resolved
-- one where the server accepts it, and changes no count where it does not.
handle_acknowledge_lem :
    (id : String) (accepted : Bool) (p : Page)
    → let q = handle_acknowledge id accepted p in
      let gone = (if accepted then open_of id p else 0) in
      (active_count q + gone ≡ active_count p)
      × (resolved_count q ≡ resolved_count p + gone)
      × (total_count q ≡ total_count p)
unfolding handle_acknowledge active_count resolved_count total_count open_of
handle_acknowledge_lem id true p =
    let active = marked_active id p.alerts in
    let total = length-map (mark id) p.alerts in
    let fits = length-filter-le (λ (a : AlertItem). not a.is_acknowledged) p.alerts in
    (active, omega (arith, active, total, fits), total)
handle_acknowledge_lem id false p = (omega arith, omega arith, refl)
