-- ===== src/Command/Optimizer.antt =====
-- frontend/dashboard/src/components/CommandCenter/SignalControlInteractive.tsx and IntersectionModal.tsx:
-- the recommendation that is applied after a countdown.
pub mod View
pub mod Life
use surakshanet.Base.{
  ℕ, zero, suc, ◌+◌, ◌-◌, ◌≡◌, refl, String, Bool, true, false, Option, none, some, List, [], ◌∷◌,
  arith, leb, if◌then◌else◌,
}

pub record State : Type 0 where
  pub is_applying : Bool
  pub is_optimized : Bool
  pub countdown : Option ℕ
  -- the interval that the last click has started, until it is cleared
  pub running : Bool
  -- what `onOptimizedStateChange` has been told, the last first
  pub told : List Bool

unfoldable pub initial : State
initial = record {
  is_applying = false;
  is_optimized = false;
  countdown = none;
  running = false;
  told = [];
}

unfoldable pub lane1_density : State → ℕ
lane1_density s = if s.is_optimized then 24 else 87

unfoldable pub lane1_signal : State → String
lane1_signal s = if s.is_optimized then "GREEN" else "RED"

unfoldable pub lane1_speed : State → ℕ
lane1_speed s = if s.is_optimized then 44 else 12

unfoldable pub handle_apply_recommendation : State → State
handle_apply_recommendation s = record s { is_applying = true; countdown = some 3; running = true }

-- One tick of the interval. The updater gives none again where the countdown is none or 0.
unfoldable pub tick : State → State
tick s =
    if s.running
    then elim s.countdown [
      | none ↦ s
      | some n ↦
          if leb n 1
          then record s {
            is_applying = false;
            is_optimized = true;
            countdown = none;
            running = false;
            told = true ∷ s.told;
          }
          else record s { countdown = some (n - 1) }
    ]
    else s

unfoldable pub handle_reset : State → State
handle_reset s = record s { is_optimized = false; told = false ∷ s.told }

unfoldable pub ticks : ℕ → State → State
ticks zero s = s
ticks (suc n) s = ticks n (tick s)

-- An applied recommendation is in force after three ticks, not before, and its client is told so once;
-- further ticks change nothing.
handle_apply_recommendation_lem :
    (n : ℕ) (s : State)
    → (ticks (3 + n) (handle_apply_recommendation s) ≡ record {
      is_applying = false;
      is_optimized = true;
      countdown = none;
      running = false;
      told = true ∷ s.told;
    })
      × ((ticks 2 (handle_apply_recommendation s)).is_applying ≡ true)
      × ((ticks 2 (handle_apply_recommendation s)).is_optimized ≡ s.is_optimized)
unfolding ticks tick handle_apply_recommendation
handle_apply_recommendation_lem n s = (rw (sums n) (idle n), refl, refl)
  where
    done : State
    done = record {
      is_applying = false;
      is_optimized = true;
      countdown = none;
      running = false;
      told = true ∷ s.told;
    }

    sums : (m : ℕ) → 3 + m ≡ suc (suc (suc m))
    sums m = omega arith

    idle : (m : ℕ) → ticks m done ≡ done
    idle zero = refl
    idle (suc m) = idle m
