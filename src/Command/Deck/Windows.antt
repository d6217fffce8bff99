-- ===== src/Command/Deck/Windows.antt =====
-- The window of a junction on frontend/dashboard/src/pages/CommandCenterPage.tsx after its signals are
-- optimized.
use surakshanet.Base.{
  ℕ, ◌≡◌, refl, String, Bool, true, false, ◌&&◌, some, List, [], ◌∷◌, ◌++◌, str_eq, if◌then◌else◌,
  ap, sym, ◌∙◌,
}
use surakshanet.Markup.{Item, text, marks, offered, offered-marks}
use surakshanet.Command.Intersections.{IntersectionData, downtown_hub}
use surakshanet.Command.Intersections.Window.{
  Click, closes, optimizes, metrics, lanes_from, call_to_action, window, is_current_optimized, view,
}
use surakshanet.Command.Deck.{Page, handle_quick_optimize, set_active_tab, signal_control}

-- What the page shows in the window.
abbrev pub window_of : (ℕ → String) → (ℕ → String) → Page → List (Item Click)
window_of to_text locale p = view to_text locale p.is_optimized p.selected_intersection

offered-window :
    (to_text locale : ℕ → String) (optimized : Bool) (i : IntersectionData)
    → offered (window to_text locale optimized i)
      ≡ closes ∷ (if optimized then [] else optimizes i.id ∷ [])
unfolding window call_to_action offered
offered-window to_text locale optimized i =
    let below : List (Item Click) = call_to_action optimized i in
    let upper = metrics to_text locale optimized i in
    let lanes =
      text "LANE TELEMETRY" ∷ text "DENSITY / STATUS" ∷ lanes_from to_text optimized 0 i.lanes in
    ap (λ es. closes ∷ es)
      (offered-marks upper (marks lanes ++ below) ∙ (offered-marks lanes below ∙ last optimized))
  where
    last : (o : Bool) → offered (call_to_action o i) ≡ (if o then [] else optimizes i.id ∷ [])
    last true = refl
    last false = refl

-- Optimizing a junction other than A-102 from its window leaves that window as it was, so that it offers
-- to optimize again, while the page calls the signal optimized and the window of A-102 offers it no
-- more.
pub optimize_other :
    (to_text locale : ℕ → String) (p : Page) (node : IntersectionData)
    → p.selected_intersection ≡ some node
    → str_eq node.id "A-102" ≡ false
    → let q = handle_quick_optimize node.id p in
      (window_of to_text locale q ≡ window_of to_text locale p)
      × (offered (window_of to_text locale q) ≡ closes ∷ optimizes node.id ∷ [])
      × (q.is_optimized ≡ true)
      × (offered (view to_text locale q.is_optimized (some downtown_hub)) ≡ closes ∷ [])
unfolding handle_quick_optimize view is_current_optimized
optimize_other to_text locale p node e other =
    let plain : (b : Bool) → view to_text locale b (some node) ≡ window to_text locale false node =
      λ b. ap (λ o. window to_text locale (o && b) node) other in
    let next : handle_quick_optimize node.id p ≡ record p { is_optimized = true } =
      ap
        (λ b.
          if b
          then set_active_tab signal_control (record p { is_optimized = true })
          else record p { is_optimized = true })
        other in
    let after : window_of to_text locale (handle_quick_optimize node.id p)
        ≡ window to_text locale false node =
      ap (window_of to_text locale) next ∙ (ap (view to_text locale true) e ∙ plain true) in
    let before : window_of to_text locale p ≡ window to_text locale false node =
      ap (view to_text locale p.is_optimized) e ∙ plain p.is_optimized in
    let now : (handle_quick_optimize node.id p).is_optimized ≡ true =
      ap (λ (q : Page). q.is_optimized) next in
    (
      after ∙ sym before,
      ap offered after ∙ offered-window to_text locale false node,
      now,
      ap (λ b. offered (view to_text locale b (some downtown_hub))) now
          ∙ offered-window to_text locale true downtown_hub,
    )
