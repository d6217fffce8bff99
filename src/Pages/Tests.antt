-- ===== src/Pages/Tests.antt =====
-- The smaller pages at concrete inputs.
use surakshanet.Base.{Bool, true, false, ◌≡◌, refl, [], ◌∷◌, length, count}
use surakshanet.Markup.{offered}
use surakshanet.Shell.Routes.{route, shows, command}
use surakshanet.Pages.Devices.{online, warning, offline, EdgeDevice, mock_devices}
use surakshanet.Pages.Landing.{navigates, view, top, hero, closing, network, pillars}

abbrev is_online : EdgeDevice → Bool
is_online d = elim d.status [ online ↦ true | warning ↦ false | offline ↦ false ]

-- The page says that 142 of 150 devices are online; its list has three of six.
online_devices : (count is_online mock_devices ≡ 3) × (length mock_devices ≡ 6)
online_devices = (refl, refl)

-- What the landing page offers leads to the command center.
landing_offers :
    offered view
    ≡ navigates ("command" ∷ []) ∷ navigates ("command" ∷ []) ∷ navigates ("command" ∷ []) ∷ []
unfolding offered view top hero closing network pillars
landing_offers = refl

landing_route : route ("command" ∷ []) ≡ shows command
unfolding route
landing_route = refl
