-- ===== src/Routing/Panels.antt =====
-- What frontend/dashboard/src/pages/RoutingPage.tsx says of the panels and of its routes.
use surakshanet.Base.{◌≡◌, refl, String, Bool, ◌∷◌, if◌then◌else◌, length, Bool-cases, inl, inr}
use surakshanet.Routing.{Page, new_broadcast, is_blank, handle_broadcast}

module _ (F : Type 0) {D : Type 0} (trim to_upper : String → String) where
  -- Unless a line is blank, one request is sent and its message is listed as active before the others,
  -- whether the server accepts it or not; otherwise nothing is sent and nothing listed.
  handle_broadcast_lem :
      (suffix : String) (accepted : Bool) (p : Page D)
      → let r = handle_broadcast trim to_upper {F = F} suffix accepted p in
        (length r.1 ≡ (if is_blank trim to_upper p then 0 else 1))
        × (r.0.broadcasts ≡ (
            if is_blank trim to_upper p
            then p.broadcasts
            else new_broadcast trim to_upper suffix p ∷ p.broadcasts))
  unfolding handle_broadcast
  handle_broadcast_lem suffix accepted p = elim (Bool-cases (is_blank trim to_upper p)) [
    | inl e ↦ rw e (refl, refl)
    | inr e ↦ elim (Bool-cases accepted) [
      | inl a ↦ rw (e, a) (refl, refl)
      | inr a ↦ rw (e, a) (refl, refl)
    ]
  ]
