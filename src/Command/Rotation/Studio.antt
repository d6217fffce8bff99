-- ===== src/Command/Rotation/Studio.antt =====
-- The markup of frontend/dashboard/src/pages/StudioHomePage.tsx, with the project that is shown and the
-- clock. The pictures are left out; what is clicked besides the carousel navigates to the application.
use surakshanet.Base.{
  ℕ, suc, ◌==◌, ◌≡◌, refl, String, ◌<>◌, false, List, [], ◌∷◌, ◌++◌, if◌then◌else◌,
}
use surakshanet.Markup.{Mark, text, icon, tone, Item, mark, button, marks, offered}
use surakshanet.Command.Rotation.{Project, projects, Carousel}

pub data Click : Type 0 where
  enters goes_next : Click
  goes_to : ℕ → Click

unfoldable pub top_row : Project → List Mark
top_row p =
    text p.num_left
    ∷ text "✻"
    ∷ text "Studio"
    ∷ text "One.Zer°"
    ∷ text p.concept
    ∷ text p.title
    ∷ text p.num_right
    ∷ []

-- The ticks of the projects from `i` on, with the label of each.
abbrev pub pagination : (ℕ → String) → ℕ → ℕ → List Project → List (Item Click)
pagination to_text active_idx i [] = []
pagination to_text active_idx i (p ∷ ps) =
    button false (goes_to i) (
      text ("Project " <> to_text (suc i))
      ∷ tone (
          if active_idx == i
          then "h-[18px] bg-[#B54840]"
          else "h-[10px] bg-[#E0C0BA] hover:h-[14px] hover:bg-[#D09890]")
      ∷ [])
    ∷ pagination to_text active_idx (suc i) ps

unfoldable pub middle : (ℕ → String) → ℕ → Project → List (Item Click)
middle to_text active_idx p =
    mark (text p.tag)
    ∷ button false enters (text "Enter Operations" ∷ icon "ArrowRight" ∷ [])
    ∷ mark (text p.stats)
    ∷ button false enters (text "Request A Prototype" ∷ icon "ArrowUpRight" ∷ [])
    ∷ button false enters (text "Interactive Ops" ∷ [])
    ∷ pagination to_text active_idx 0 projects

unfoldable pub bottom : String → List (Item Click)
bottom time =
    marks (text "AI SYSTEM: ACTIVE" ∷ text "•" ∷ text "150 NODES" ∷ text "•" ∷ text time ∷ [])
    ++ (button false goes_next (text "Next Innovation" ∷ icon "ChevronRight" ∷ [])
        ∷ button false enters (text "Launch SurakshaNet Ops" ∷ icon "ArrowRight" ∷ [])
        ∷ [])

unfoldable pub view : (ℕ → String) → String → Project → Carousel → List (Item Click)
view to_text time p c = marks (top_row p) ++ (middle to_text c.active_idx p ++ bottom time)

-- The carousel's buttons are those of its four projects and the one for the next.
offered-view :
    (to_text : ℕ → String) (time : String) (p : Project) (c : Carousel)
    → offered (view to_text time p c)
      ≡ enters
        ∷ enters
        ∷ enters
        ∷ goes_to 0
        ∷ goes_to 1
        ∷ goes_to 2
        ∷ goes_to 3
        ∷ goes_next
        ∷ enters
        ∷ []
unfolding view top_row middle bottom offered
offered-view to_text time p c = refl
