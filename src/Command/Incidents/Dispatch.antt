-- ===== src/Command/Incidents/Dispatch.antt =====
-- The clicks that the incident list of
-- frontend/dashboard/src/components/CommandCenter/LiveIncidents.tsx offers come to an end.
use surakshanet.Base.{
  ℕ, ◌+◌, ◌≤◌, ◌<◌, ◌≡◌, refl, sym, ◌∙◌, ap, String, ◌<>◌, Bool, true, false, not, ◌&&◌, ◌||◌, List,
  [], ◌∷◌, ◌++◌, arith, ◌==◌, str_eq, str_eq_refl, ◌⊎◌, any, filter, length, All, Bool-cases, inl,
  inr,
}
use surakshanet.Markup.{Item, mark, text, marks, offered, offered-append, offered-marks, each}
use surakshanet.Command.Incidents.{
  IncidentItem, Status, pending, dispatched, resolved, Filter, all, only, same_severity, filtered,
  handle_action, steps_left, next_status,
}
use surakshanet.Command.Incidents.View.{
  Click, filters, acts, header, card, card_top, act_item, view,
}

-- Whether a click is that on the button of an incident.
abbrev pub is_act : String → Click → Bool
is_act id (filters f) = false
is_act id (acts id') = str_eq id' id

-- Whether the list, with a filter chosen, offers to act on an incident.
abbrev pub offers_act : (ℕ → String) → Filter → String → List IncidentItem → Bool
offers_act to_text f id incidents = any (is_act id) (offered (view to_text f incidents))

-- Clicks on buttons that are offered when they are clicked, whatever filters are chosen in between.
pub data Clicks (to_text : ℕ → String)
    : List IncidentItem → List String → List IncidentItem → Type 0 where
  rests : {incidents : List IncidentItem} → Clicks to_text incidents [] incidents
  clicks :
      {incidents after : List IncidentItem} {ids : List String} (f : Filter) (id : String)
      → offers_act to_text f id incidents ≡ true
      → Clicks to_text (handle_action id incidents) ids after
      → Clicks to_text incidents (id ∷ ids) after

-- How many clicks are left to do.
abbrev pub work : List IncidentItem → ℕ
work [] = 0
work (i ∷ is) = steps_left i.status + work is

any-append :
    {A : Type 0} (p : A → Bool) (xs ys : List A) → any p (xs ++ ys) ≡ (any p xs || any p ys)
any-append p [] ys = refl
any-append p (x ∷ xs) ys = ground (arith, any-append p xs ys)

-- A card that offers to act is of an incident with that id that is open.
abbrev is_open : String → IncidentItem → Bool
is_open id i = not (steps_left i.status == 0) && str_eq i.id id

any-act_item :
    (id iid : String) (st : Status)
    → any (is_act id) (offered (act_item iid st)) ≡ (not (steps_left st == 0) && str_eq iid id)
unfolding offered
any-act_item id iid pending = ground arith
any-act_item id iid dispatched = ground arith
any-act_item id iid resolved = refl

any-card :
    (to_text : ℕ → String) (id : String) (i : IncidentItem) (js : List (Item Click))
    → any (is_act id) (offered (card to_text i ++ js))
      ≡ (is_open id i || any (is_act id) (offered js))
unfolding card offered
any-card to_text id i js =
    let below : List (Item Click) = mark (text ("ID: " <> i.id)) ∷ act_item i.id i.status in
    ap (any (is_act id)) (offered-append (marks (card_top to_text i) ++ below) js)
    ∙ (any-append (is_act id) (offered (marks (card_top to_text i) ++ below)) (offered js)
        ∙ ap (λ b. b || any (is_act id) (offered js))
            (ap (any (is_act id)) (offered-marks (card_top to_text i) below)
              ∙ any-act_item id i.id i.status))

any-cards :
    (to_text : ℕ → String) (id : String) (is : List IncidentItem)
    → any (is_act id) (offered (each (card to_text) is)) ≡ any (is_open id) is
unfolding offered
any-cards to_text id [] = refl
any-cards to_text id (i ∷ is) =
    any-card to_text id i (each (card to_text) is)
    ∙ ap (λ b. is_open id i || b) (any-cards to_text id is)

-- The buttons that the list offers are those of the open incidents that the filter shows.
offers_act-open :
    (to_text : ℕ → String) (f : Filter) (id : String) (is : List IncidentItem)
    → offers_act to_text f id is ≡ any (is_open id) (filtered f is)
unfolding view header offered
offers_act-open to_text f id is = any-cards to_text id (filtered f is)

any-filter :
    {A : Type 0} (q r : A → Bool) (xs : List A) → any q (filter r xs) ≡ true → any q xs ≡ true
any-filter q r [] h = absurd (cc)
any-filter q r (x ∷ xs) h = elim (Bool-cases (r x)) [
  | inl e ↦ ground (arith, h, e, any-filter q r xs)
  | inr e ↦ ground (arith, h, e, any-filter q r xs)
]

any-filtered :
    (q : IncidentItem → Bool) (f : Filter) (is : List IncidentItem)
    → any q (filtered f is) ≡ true
    → any q is ≡ true
unfolding filtered
any-filtered q all is h = h
any-filtered q (only s) is h = any-filter q (λ i. same_severity i.severity s) is h

next-less : (st : Status) → steps_left (next_status st) ≤ steps_left st
next-less pending = omega arith
next-less dispatched = omega arith
next-less resolved = omega arith

next-lt : (st : Status) → (steps_left st == 0) ≡ false → steps_left (next_status st) < steps_left st
next-lt pending h = omega arith
next-lt dispatched h = omega arith
next-lt resolved h = absurd (cc)

work-act : (id : String) (is : List IncidentItem) → work (handle_action id is) ≤ work is
unfolding handle_action
work-act id [] = omega arith
work-act id (i ∷ is) = ground (arith, next-less i.status, work-act id is)

work-open :
    (id : String) (is : List IncidentItem)
    → any (is_open id) is ≡ true
    → work (handle_action id is) < work is
unfolding handle_action
work-open id [] h = absurd (cc)
work-open id (i ∷ is) h = elim (Bool-cases (is_open id i)) [
  | inl e ↦ ground (arith, e, next-lt i.status, work-act id is)
  | inr e ↦ ground (arith, h, e, next-less i.status, work-open id is)
]

clicks-work :
    (to_text : ℕ → String) (is : List IncidentItem) (ids : List String) (after : List IncidentItem)
    → Clicks to_text is ids after
    → length ids + work after ≤ work is
clicks-work to_text is [] after rests = omega arith
clicks-work to_text is (id ∷ ids) after (clicks f _ h more) =
    let offered_open = any-filtered (is_open id) f is (sym (offers_act-open to_text f id is) ∙ h) in
    omega (
      arith,
      work-open id is offered_open,
      clicks-work to_text (handle_action id is) ids after more,
    )

-- An incident that is resolved.
abbrev pub IsResolved : IncidentItem → Type 0
IsResolved i = i.status ≡ resolved

open_or_IsResolved :
    (is : List IncidentItem) → All IsResolved is ⊎ ((id : String) × (any (is_open id) is ≡ true))
open_or_IsResolved [] = inl tt
open_or_IsResolved (i ∷ is) = go i.status refl (open_or_IsResolved is)
  where
    go :
        (st : Status)
        → i.status ≡ st
        → All IsResolved is ⊎ ((id : String) × (any (is_open id) is ≡ true))
        → All IsResolved (i ∷ is) ⊎ ((id : String) × (any (is_open id) (i ∷ is) ≡ true))
    go pending e o = inr (i.id, rw (e, str_eq_refl i.id) refl)
    go dispatched e o = inr (i.id, rw (e, str_eq_refl i.id) refl)
    go resolved e (inl done) = inl (e, done)
    go resolved e (inr (id, h)) = inr (id, ground (arith, h))

-- Clicks on buttons that the list offers are at most as many as its incidents have steps left, whatever
-- filters are chosen in between; and after them every incident is resolved, or a button is offered, with
-- all severities shown, to act on one.
pub dispatch_terminates :
    (to_text : ℕ → String) (incidents after : List IncidentItem) (ids : List String)
    → Clicks to_text incidents ids after
    → (length ids + work after ≤ work incidents)
      × (All IsResolved after ⊎ ((id : String) × (offers_act to_text all id after ≡ true)))
unfolding filtered
dispatch_terminates to_text incidents after ids c =
    (clicks-work to_text incidents ids after c, go (open_or_IsResolved after))
  where
    go :
        All IsResolved after ⊎ ((id : String) × (any (is_open id) after ≡ true))
        → All IsResolved after ⊎ ((id : String) × (offers_act to_text all id after ≡ true))
    go (inl done) = inl done
    go (inr (id, h)) = inr (id, offers_act-open to_text all id after ∙ h)
