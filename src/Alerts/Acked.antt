-- ===== src/Alerts/Acked.antt =====
-- What a server with the alerts of frontend/dashboard/src/pages/AlertsPage.tsx has acknowledged, as it
-- acknowledges more.
use surakshanet.Base.{◌≡◌, String, true, List, [], ◌∷◌, map, arith, str_eq_refl}
use surakshanet.Alerts.{AlertItem, mark}
use surakshanet.Alerts.Polling.{knows, acked, honest, IsHonest}

abbrev pub Grows : List AlertItem → List AlertItem → Type 0
Grows s s' = (id : String) → acked s id ≡ true → acked s' id ≡ true

pub acked-mark : (i : String) (s : List AlertItem) → Grows s (map (mark i) s)
acked-mark i [] id h = h
acked-mark i (a ∷ s) id h = ground (arith, acked-mark i s id)

pub knows-acked :
    (id : String) (s : List AlertItem) → knows s id ≡ true → acked (map (mark id) s) id ≡ true
knows-acked id [] h = cc
knows-acked id (a ∷ s) h = ground (arith, knows-acked id s)

pub acked-raise : (a : AlertItem) (s : List AlertItem) → Grows s (a ∷ s)
acked-raise a s id h = ground arith

honest-Grows :
    (s s' : List AlertItem) (a : AlertItem) → Grows s s' → honest s a ≡ true → honest s' a ≡ true
honest-Grows s s' a g h = ground (arith, g a.id)

pub IsHonest-Grows : (s s' xs : List AlertItem) → Grows s s' → IsHonest s xs → IsHonest s' xs
IsHonest-Grows s s' [] g h = tt
IsHonest-Grows s s' (x ∷ xs) g (h, hs) = (honest-Grows s s' x g h, IsHonest-Grows s s' xs g hs)

own_honest : (a : AlertItem) (s : List AlertItem) → honest (a ∷ s) a ≡ true
own_honest a s = rw (str_eq_refl a.id) (ground arith)

pub server-IsHonest : (s : List AlertItem) → IsHonest s s
server-IsHonest [] = tt
server-IsHonest (a ∷ s) =
    (own_honest a s, IsHonest-Grows s (a ∷ s) s (acked-raise a s) (server-IsHonest s))
