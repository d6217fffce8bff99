-- ===== src/Junctions/Cards.antt =====
-- Where the cards of frontend/dashboard/src/pages/JunctionsPage.tsx lead.
use surakshanet.Base.{ℕ, ◌≡◌, refl, String, List, [], ◌∷◌, ◌++◌, map, ap, ◌∙◌}
use surakshanet.Markup.{offered, offered-marks}
use surakshanet.Junctions.{CuratedJunction, Wanted, City, Status, filtered_junctions}
use surakshanet.Junctions.View.{
  Click, opens_map, opens, shows_city, shows_status, figures, filters, card, view,
}
use surakshanet.Shell.Routes.{Element, shows, junction_detail, route}
use surakshanet.Shell.Links.{junction_link}

-- Where a click that navigates leads.
abbrev pub leads : Click → List Element
leads opens_map = []
leads (opens id) = route (junction_link id) ∷ []
leads (shows_city c) = []
leads (shows_status s) = []

abbrev pub destinations : List Click → List Element
destinations [] = []
destinations (c ∷ cs) = leads c ++ destinations cs

destinations-cards :
    (to_text : ℕ → String) (js : List CuratedJunction)
    → destinations (offered (map (card to_text) js)) ≡ map (λ j. shows (junction_detail j.id)) js
unfolding card offered route
destinations-cards to_text [] = refl
destinations-cards to_text (j ∷ js) =
    ap (λ es. shows (junction_detail j.id) ∷ es) (destinations-cards to_text js)

-- Under any search and filters the cards of the page lead to the pages of exactly the junctions that are
-- left, each once and in their order.
destinations-view :
    (to_text : ℕ → String) (to_lower : String → String) (search : String) (status : Wanted Status)
    (city : Wanted City) (js : List CuratedJunction)
    → let shown = filtered_junctions to_lower search status city js in
      destinations (offered (view to_text search city js shown))
      ≡ map (λ (j : CuratedJunction). shows (junction_detail j.id)) shown
unfolding view filters offered
destinations-view to_text to_lower search status city js =
    let shown : List CuratedJunction = filtered_junctions to_lower search status city js in
    ap destinations (
      ap (λ cs. opens_map ∷ cs)
        (offered-marks (figures to_text js)
          (filters to_text search city shown ++ map (card to_text) shown)))
    ∙ destinations-cards to_text shown
