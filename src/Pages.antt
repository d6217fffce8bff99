-- ===== src/Pages.antt =====
-- The smaller pages of frontend/dashboard/src/pages: what each keeps, shows and offers to be clicked. A
-- page module holds its own data and its view.
pub mod Simulation
pub mod Devices
pub mod Users
pub mod Settings
pub mod Analytics
pub mod Emissions
pub mod Landing
mod Tests
use surakshanet.Base.{String, List, [], ◌∷◌, map, false}
use surakshanet.Markup.{Item, text, button}

-- The options of a selection, for what choosing one does.
abbrev pub options : {E : Type 0} → (String → E) → List String → List (Item E)
options chooses values = map (λ value. button false (chooses value) (text value ∷ [])) values
