-- ===== src/Emergency/Corridor.antt =====
-- The progression of the green corridor in frontend/dashboard/src/pages/EmergencyPage.tsx against
-- its abstract form: some junctions cleared, one green, one pre-empting, the rest on standby.
use surakshanet.Base.{
  ℕ, zero, suc, ◌+◌, ◌≡◌, refl, ap, ◌∙◌, String, false, List, [], ◌∷◌, arith, min, if◌then◌else◌,
  length, Option-cases, inl, inr, replicate,
}
use native.Mathlib.Nat.{suc-add, add-suc, add-zero, zero-add}
use surakshanet.Emergency.{
  Status, cleared, active_green, pre_empting, standard, JunctionStatus, default_route_junctions,
  is_active_green, is_cleared, active_index, pre_empt, within, advance, cleared_count,
}

abbrev pub statuses : List JunctionStatus → List Status
statuses [] = []
statuses (j ∷ js) = j.status ∷ statuses js

-- The corridor of `n` junctions when the vehicle is at the first of them, and after `k` of them.
abbrev approach : ℕ → List Status
approach zero = []
approach (suc zero) = active_green ∷ []
approach (suc (suc n)) = active_green ∷ pre_empting ∷ replicate n standard

abbrev pub corridor : ℕ → ℕ → List Status
corridor zero n = approach n
corridor (suc k) zero = []
corridor (suc k) (suc n) = cleared ∷ corridor k n

within-cons :
    (i : ℕ) (f : JunctionStatus → JunctionStatus) (j : JunctionStatus) (js : List JunctionStatus)
    → within (suc i) f (j ∷ js) ≡ j ∷ within i f js
within-cons i f j js = ground arith

-- A first junction that is not green is left alone.
advance-cons :
    (now : String) (j : JunctionStatus) (js : List JunctionStatus)
    → is_active_green j.status ≡ false
    → advance now (j ∷ js) ≡ j ∷ advance now js
unfolding advance
advance-cons now j js h = elim (Option-cases (active_index js)) [
  | inl e ↦ rw (h, advance) (rw (e, advance))
  | inr (i, e) ↦
      rw (h, advance)
        (rw (e, advance)
          (rw (suc-add, suc-add) (rw within-cons (within-cons (i + 2) pre_empt j _))))
]

-- With the vehicle at the first junction, one tick clears it and moves the green on.
advance-approach :
    (now : String) (js : List JunctionStatus) (n : ℕ)
    → statuses js ≡ approach n
    → statuses (advance now js) ≡ corridor 1 n
unfolding advance
advance-approach now [] zero e = refl
advance-approach now [] (suc zero) e = cc
advance-approach now [] (suc (suc n)) e = cc
advance-approach now (j ∷ js) zero e = cc
advance-approach now (j ∷ []) (suc zero) e = ground arith
advance-approach now (j ∷ k ∷ js) (suc zero) e = cc
advance-approach now (j ∷ []) (suc (suc n)) e = cc
advance-approach now (j ∷ k ∷ []) (suc (suc zero)) e = ground arith
advance-approach now (j ∷ k ∷ []) (suc (suc (suc n))) e = cc
advance-approach now (j ∷ k ∷ l ∷ js) (suc (suc zero)) e = cc
advance-approach now (j ∷ k ∷ l ∷ js) (suc (suc (suc n))) e = ground arith

-- One tick of the progression moves the corridor on by one junction.
pub advance-corridor :
    (now : String) (js : List JunctionStatus) (k n : ℕ)
    → statuses js ≡ corridor k n
    → statuses (advance now js) ≡ corridor (suc k) n
advance-corridor now js zero n e = advance-approach now js n e
advance-corridor now [] (suc k) zero e = unfold advance in refl
advance-corridor now [] (suc k) (suc n) e = cc
advance-corridor now (j ∷ js) (suc k) zero e = cc
advance-corridor now (j ∷ js) (suc k) (suc n) e =
    rw (advance-cons now j js (ground arith)) (cc (advance-corridor now js k n (ground arith)))

-- The ticks of the progression at the given times of day.
unfoldable pub advance_all : List String → List JunctionStatus → List JunctionStatus
advance_all [] js = js
advance_all (now ∷ nows) js = advance_all nows (advance now js)

advance_all-corridor :
    (nows : List String) (js : List JunctionStatus) (k n : ℕ)
    → statuses js ≡ corridor k n
    → statuses (advance_all nows js) ≡ corridor (k + length nows) n
unfolding advance_all
advance_all-corridor [] js k n e = rw add-zero e
advance_all-corridor (now ∷ nows) js k n e =
    rw (add-suc, ← suc-add)
      (advance_all-corridor nows (advance now js) (suc k) n (advance-corridor now js k n e))

cleared_in : List Status → ℕ
cleared_in [] = 0
cleared_in (s ∷ ss) = let rest = cleared_in ss in if is_cleared s then suc rest else rest

cleared_count-statuses : (js : List JunctionStatus) → cleared_count js ≡ cleared_in (statuses js)
unfolding cleared_count cleared_in
cleared_count-statuses [] = refl
cleared_count-statuses (j ∷ js) = ground (arith, cleared_count-statuses js)

cleared_in-replicate : (n : ℕ) → cleared_in (replicate n standard) ≡ 0
unfolding cleared_in
cleared_in-replicate zero = refl
cleared_in-replicate (suc n) = cleared_in-replicate n

cleared_in-approach : (n : ℕ) → cleared_in (approach n) ≡ 0
unfolding cleared_in
cleared_in-approach zero = refl
cleared_in-approach (suc zero) = refl
cleared_in-approach (suc (suc n)) = cleared_in-replicate n

cleared_in-corridor : (k n : ℕ) → cleared_in (corridor k n) ≡ min k n
unfolding cleared_in
cleared_in-corridor zero n = omega (arith, cleared_in-approach n)
cleared_in-corridor (suc k) zero = omega arith
cleared_in-corridor (suc k) (suc n) = omega (arith, cleared_in-corridor k n)

-- From the route that the page starts with, `k` ticks lead to the corridor with `k` of its five
-- junctions cleared, the next one green and the one after it pre-empting, as far as there are such:
-- so after five ticks all are cleared, and no further tick changes a status.
pub progression_refines :
    (nows : List String)
    → let js = advance_all nows default_route_junctions in
      (statuses js ≡ corridor (length nows) 5) × (cleared_count js ≡ min (length nows) 5)
progression_refines nows =
    let js = advance_all nows default_route_junctions in
    let e : statuses js ≡ corridor (length nows) 5 =
      rw (← zero-add (length nows)) (advance_all-corridor nows default_route_junctions 0 5 refl) in
    (e, cleared_count-statuses js ∙ ap cleared_in e ∙ cleared_in-corridor (length nows) 5)
