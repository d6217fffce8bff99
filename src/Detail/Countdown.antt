-- ===== src/Detail/Countdown.antt =====
-- The countdown of frontend/dashboard/src/pages/JunctionDetailPage.tsx.
use surakshanet.Base.{
  ℕ, zero, suc, ◌+◌, ◌≤◌, ◌<◌, ◌≡◌, true, false, arith, String, Bool, List, some, str_eq, [], ◌∷◌,
}
use surakshanet.Detail.{Page, tick, handle_quick_action, Effect, succeeds}

module _ {F D : Type 0} where
  unfoldable pub ticks : ℕ → Page F D → Page F D
  ticks zero p = p
  ticks (suc n) p = ticks n (tick p)

  -- While it is above zero the countdown goes down by one.
  ticks-down : (n : ℕ) (p : Page F D) → n ≤ p.countdown → (ticks n p).countdown + n ≡ p.countdown
  unfolding ticks tick
  ticks-down zero p h = omega arith
  ticks-down (suc n) p h = ground (arith, ticks-down n (tick p))

  -- Once it has been at zero it goes down from thirty-five.
  ticks-wrap :
      (n : ℕ) (p : Page F D)
      → p.countdown < n
      → n ≤ p.countdown + 36
      → (ticks n p).countdown + n ≡ p.countdown + 36
  unfolding ticks tick
  ticks-wrap zero p h below = omega (arith, h)
  ticks-wrap (suc n) p h below = ground (arith, ticks-wrap n (tick p), ticks-down n (tick p))

  -- The countdown runs in a cycle of thirty-six seconds: from at most 35, it is back after them.
  countdown_period : (p : Page F D) → p.countdown ≤ 35 → (ticks 36 p).countdown ≡ p.countdown
  countdown_period p h = omega (arith, ticks-wrap 36 p (omega (arith, h)) (omega arith))

-- Whether the last thing that is done is to report a success.
abbrev pub ends_well : List Effect → Bool
ends_well [] = false
ends_well (succeeds s ∷ []) = true
ends_well (e ∷ es) = ends_well es

-- Where a junction is known, every quick action ends by reporting a success, whether the server
-- accepts the override or not.
handle_quick_action_lem :
    (action id : String) (accepted : Bool)
    → str_eq id "" ≡ false
    → ends_well (handle_quick_action action (some id) accepted) ≡ true
unfolding handle_quick_action
handle_quick_action_lem action id accepted h = ground arith
