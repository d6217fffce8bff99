-- ===== src/Pages/Emissions.antt =====
-- frontend/dashboard/src/pages/EmissionsPage.tsx, which has no state.
use surakshanet.Base.{ℕ, suc, ◌%◌, String, ◌<>◌, List, [], ◌∷◌, ◌++◌, length, get_elem?, or_else}
use surakshanet.Markup.{Mark, text, icon, bar}

pub record Month : Type 0 where
  pub name : String
  pub before : ℕ
  pub after : ℕ

abbrev month : String → ℕ → ℕ → Month
month name before after = record { name = name; before = before; after = after }

abbrev pub mock_trend_data : List Month
mock_trend_data =
    month "Jan" 120 120
    ∷ month "Feb" 118 110
    ∷ month "Mar" 122 105
    ∷ month "Apr" 130 98
    ∷ month "May" 128 95
    ∷ month "Jun" 135 90
    ∷ month "Jul" 140 88
    ∷ month "Aug" 138 85
    ∷ []

abbrev pub mock_pie_data : List (String × ℕ)
mock_pie_data = ("Cars", 45) ∷ ("2W", 25) ∷ ("Buses", 15) ∷ ("Trucks", 15) ∷ []

abbrev pub colors : List String
colors = "#0284c7" ∷ "#10b981" ∷ "#f59e0b" ∷ "#ef4444" ∷ []

-- The cells of the pie from an index on: the name, the value and the fill of each.
abbrev pub cells_from : ℕ → List (String × ℕ) → List (String × ℕ × String)
cells_from index [] = []
cells_from index ((name, value) ∷ entries) =
    (name, value, or_else (get_elem? colors (index % length colors)) "")
    ∷ cells_from (suc index) entries

abbrev pub top_corridors : List (String × ℕ)
top_corridors =
    ("MG Road", 35)
    ∷ ("Ring Road Phase 1", 28)
    ∷ ("Airport Road", 25)
    ∷ ("Tech Park Avenue", 22)
    ∷ ("Old Madras Road", 18)
    ∷ []

unfoldable pub cards : List Mark
cards =
    text "Emissions Monitoring"
    ∷ text "CO₂ & Pollutant Tracking Dashboard"
    ∷ icon "Leaf"
    ∷ text "Total CO₂ Saved"
    ∷ text "12.4t"
    ∷ icon "ArrowUp"
    ∷ text "18%"
    ∷ text "vs baseline"
    ∷ icon "Wind"
    ∷ text "NOx Reduction"
    ∷ text "22%"
    ∷ text "Target: 20%"
    ∷ text "Monthly Average"
    ∷ icon "Activity"
    ∷ text "Fleet Efficiency"
    ∷ text "87%"
    ∷ icon "ArrowUp"
    ∷ text "Improving"
    ∷ text "Index Score"
    ∷ icon "Map"
    ∷ text "Green Zone Coverage"
    ∷ text "34"
    ∷ text "junctions"
    ∷ text "Active Zones"
    ∷ []

-- A row of the table for each of some corridors.
abbrev pub rows : (ℕ → String) → List (String × ℕ) → List Mark
rows to_text [] = []
rows to_text ((name, reduction) ∷ corridors) =
    text name ∷ bar reduction ∷ text (to_text reduction <> "%") ∷ rows to_text corridors

unfoldable pub view : (ℕ → String) → List Mark
view to_text =
    cards
    ++ (text "Monthly Emissions Trend (CO₂ tons)"
          ∷ text "Emissions by Vehicle Type"
          ∷ text "Top 5 Corridors by Emission Reduction"
          ∷ text "Corridor Name"
          ∷ text "Reduction Percentage"
          ∷ text "%"
          ∷ []
        ++ rows to_text top_corridors)
