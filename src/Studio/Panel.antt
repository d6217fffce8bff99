-- ===== src/Studio/Panel.antt =====
-- frontend/dashboard/src/components/Studio/StudioRightPanel.tsx: the links to the command center and the
-- ticks that choose a project.
use surakshanet.Base.{ℕ, ◌==◌, false, List, [], ◌∷◌, if◌then◌else◌, map}
use surakshanet.Markup.{text, icon, tone, Item, button}

pub data Click : Type 0 where
  opens_command : Click
  selects_project : ℕ → Click

abbrev pub tick : ℕ → ℕ → Item Click
tick active_project_index idx = button false (selects_project idx) (
    if active_project_index == idx
    then tone "h-4 bg-studio-coral font-bold" ∷ tone "bg-studio-coral" ∷ []
    else tone "h-2.5 bg-studio-pink group-hover/tick:h-3.5" ∷ [])

unfoldable pub panel : ℕ → List (Item Click)
panel active_project_index =
    button false opens_command (text "Launch AI Deck" ∷ icon "ArrowUpRight" ∷ [])
    ∷ button false opens_command (text "Interactive Ops" ∷ [])
    ∷ map (tick active_project_index) (0 ∷ 1 ∷ 2 ∷ 3 ∷ [])
