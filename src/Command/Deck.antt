-- ===== src/Command/Deck.antt =====
-- frontend/dashboard/src/pages/CommandCenterPage.tsx: the page that holds the components of the command
-- center, and the instance of SignalControlInteractive.tsx that a tab shows. Only the tabs "overview" and
-- "signal-control" show one, each its own, which is made anew when the tab is entered. An interval of an
-- instance that is gone is an orphan: whether React still runs its updater is an argument.
pub mod Agreement
pub mod Windows
pub mod Dashboard
pub mod View
use surakshanet.Base.{
  ℕ, zero, suc, ◌+◌, ◌-◌, ◌≤◌, ◌≡◌, refl, String, Bool, true, false, not, ◌&&◌, ◌||◌, Option, none,
  some, List, [], ◌∷◌, arith, str_eq, leb, if◌then◌else◌, or_else, Bool-cases, inl, inr,
}
use surakshanet.Command.Intersections.{IntersectionData, downtown_hub}
use surakshanet.Command.Optimizer
use surakshanet.Command.Optimizer.{State, tick, handle_apply_recommendation, handle_reset}

pub data CommandTab : Type 0 where
  overview live_map traffic_ai signal_control incidents analytics : CommandTab

pub record Page : Type 0 where
  pub active_tab : CommandTab
  pub selected_intersection : Option IntersectionData
  pub is_optimized : Bool
  -- the instance of the signal control that is shown, and the intervals of those that are gone
  pub control : Option State
  pub orphans : ℕ

-- What a tab shows of the signal control when it is entered.
abbrev pub mounted : CommandTab → Option State
mounted overview = some Optimizer.initial
mounted live_map = none
mounted traffic_ai = none
mounted signal_control = some Optimizer.initial
mounted incidents = none
mounted analytics = none

unfoldable pub initial : Page
initial = record {
  active_tab = overview;
  selected_intersection = none;
  is_optimized = false;
  control = mounted overview;
  orphans = 0;
}

abbrev pub same_tab : CommandTab → CommandTab → Bool
same_tab overview overview = true
same_tab live_map live_map = true
same_tab traffic_ai traffic_ai = true
same_tab signal_control signal_control = true
same_tab incidents incidents = true
same_tab analytics analytics = true
same_tab _ _ = false

abbrev pub is_running : Option State → Bool
is_running none = false
is_running (some c) = c.running

-- `setActiveTab`, and what React does with the signal control: none of its intervals is cleared.
unfoldable pub set_active_tab : CommandTab → Page → Page
set_active_tab tab p = if same_tab p.active_tab tab then p else record p {
  active_tab = tab;
  control = mounted tab;
  orphans = if is_running p.control then suc p.orphans else p.orphans;
}

unfoldable pub handle_select_intersection : IntersectionData → Page → Page
handle_select_intersection node p = record p { selected_intersection = some node }

unfoldable pub close_intersection : Page → Page
close_intersection p = record p { selected_intersection = none }

unfoldable pub handle_quick_optimize : String → Page → Page
handle_quick_optimize id p =
    let q : Page = record p { is_optimized = true } in
    if str_eq id "A-102" then set_active_tab signal_control q else q

-- `selectedIntersection?.id || 'A-102'`
abbrev pub selected_id : Page → String
selected_id p = elim p.selected_intersection [
  | none ↦ "A-102"
  | some node ↦ if str_eq node.id "" then "A-102" else node.id
]

-- What the instance that is shown has told the page, the last word of which stays.
abbrev pub heard : List Bool → Bool → Bool
heard [] was = was
heard (b ∷ bs) was = b

-- One of the handlers of the signal control, whose callback is `setIsOptimized`.
abbrev pub with_control : (State → State) → Page → Page
with_control f p = elim p.control [
  | none ↦ p
  | some c ↦
      let d : State = f (record c { told = [] }) in
      record p { control = some d; is_optimized = heard d.told p.is_optimized }
]

-- The button to apply is shown while the signal is not optimized and disabled while one is applied; the
-- one to reset is shown while it is optimized.
abbrev pub apply_click : State → State
apply_click c = if c.is_optimized || c.is_applying then c else handle_apply_recommendation c

abbrev pub reset_click : State → State
reset_click c = if c.is_optimized then handle_reset c else c

pub data Event : Type 0 where
  selects_tab : CommandTab → Event
  selects : IntersectionData → Event
  closes applies ticks resets : Event
  optimizes : String → Event
  -- the last tick of an orphan, and whether its updater is run
  orphan_ends : Bool → Event

unfoldable pub step : Page → Event → Page
step p (selects_tab tab) = set_active_tab tab p
step p (selects node) = handle_select_intersection node p
step p closes = close_intersection p
step p applies = with_control apply_click p
step p ticks = with_control tick p
step p resets = with_control reset_click p
step p (optimizes id) = handle_quick_optimize id p
step p (orphan_ends runs) =
    if leb 1 p.orphans && runs then record p { is_optimized = true; orphans = p.orphans - 1 } else p

unfoldable pub run : Page → List Event → Page
run p [] = p
run p (e ∷ es) = run (step p e) es

-- Whether the signal control that is shown, if one is, says that the signal is optimized.
abbrev pub shows_optimized : Option State → Bool
shows_optimized none = false
shows_optimized (some c) = c.is_optimized
