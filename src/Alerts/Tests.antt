-- ===== src/Alerts/Tests.antt =====
-- The alerts page at concrete inputs.
use surakshanet.Base.{
  ℕ, String, List, map, take, All-take, ◌≡◌, refl, true, false, none, some, [], ◌∷◌,
}
use surakshanet.Alerts.{
  AlertItem, Page, initial, array, fetch_alerts, total_count, active_count, critical_count,
  resolved_count, handle_acknowledge, severity_styles, info_circle,
}
use surakshanet.Alerts
use surakshanet.Alerts.View.{view, header, controls, cards, card, card_marks}
use surakshanet.Alerts.Offers.{
  to_acknowledge, open_ids, acknowledge-offers, Change, wants, answered, fetch_starts, fetch_fails,
  flips, changes, among,
}
use surakshanet.Markup.{offered}
use surakshanet.Alerts.{mark}
use surakshanet.Alerts.Polling.{
  Net, Event, poll_starts, server_lists, poll_fails, poll_arrives, answers, arrives, clicks, raises,
  acked, run, IsHonest, new_net,
}
use surakshanet.Alerts.Honesty.{run-IsHonest, overtaken_poll}

abbrev spill : AlertItem
spill = record {
  id = "a1";
  junction_id = some "DEL-CP-01";
  alert_type = "SPILLBACK";
  severity = "CRITICAL";
  message = "Queue at capacity";
  is_acknowledged = false;
  created_at = "2026-01-01";
  acknowledged_at = none;
}

abbrev page : Page
page = fetch_alerts (array (spill ∷ record spill { id = "a2"; severity = "INFO" } ∷ [])) initial

unknown_style : (severity_styles "DEBUG").icon ≡ info_circle
unfolding severity_styles
unknown_style = refl

one_critical : critical_count page ≡ 1
unfolding critical_count fetch_alerts initial
one_critical = refl

abbrev ten : ℕ → String
ten n = "10"

abbrev same : String → String
same s = s

two_offered : to_acknowledge (offered (view ten same same page)) ≡ "a1" ∷ "a2" ∷ []
unfolding view header controls cards card card_marks offered Alerts.filtered_alerts fetch_alerts
    initial severity_styles
two_offered = refl

-- The filter, another acknowledgement and a fetch that fails come between.
abbrev meanwhile : List Change
meanwhile = wants "CRITICAL" ∷ answered "a2" true ∷ fetch_starts ∷ fetch_fails ∷ flips ∷ []

acknowledge-offers_example :
    let q = changes (handle_acknowledge "a1" true page) meanwhile in
    (to_acknowledge (offered (view ten same same page)) ≡ open_ids (Alerts.filtered_alerts page))
    × (among "a1" (to_acknowledge (offered (view ten same same q))) ≡ false)
acknowledge-offers_example = acknowledge-offers ten same same page "a1" meanwhile

-- A server that lists at most fifty alerts.
abbrev fifty : List AlertItem → List AlertItem
fifty s = take 50 s

abbrev busy : List Event
busy =
    poll_starts
    ∷ server_lists
    ∷ poll_arrives 0
    ∷ clicks "a1"
    ∷ server_lists
    ∷ answers 0
    ∷ arrives 0
    ∷ poll_arrives 0
    ∷ raises (record spill { id = "a3" })
    ∷ poll_fails
    ∷ []

run-IsHonest_example :
    IsHonest
      (run fifty busy (new_net (spill ∷ []))).server
      (run fifty busy (new_net (spill ∷ []))).page.alerts
run-IsHonest_example = run-IsHonest fifty (λ P s. All-take P 50 s) busy (spill ∷ [])

abbrev overtaken : Net
overtaken =
    run fifty
      (poll_starts ∷ server_lists ∷ clicks "a1" ∷ answers 0 ∷ arrives 0 ∷ poll_arrives 0 ∷ [])
      (record (new_net (spill ∷ [])) { page = page })

overtaken_poll_example :
    (overtaken.page.alerts ≡ fifty (spill ∷ []))
    × (acked overtaken.server "a1" ≡ true)
    × ((run fifty (poll_starts ∷ server_lists ∷ poll_arrives 0 ∷ []) overtaken).page.alerts
        ≡ fifty (map (mark "a1") (spill ∷ [])))
overtaken_poll_example = overtaken_poll fifty "a1" (spill ∷ []) page refl
