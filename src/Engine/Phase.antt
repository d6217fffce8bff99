-- ===== src/Engine/Phase.antt =====
-- The signal countdown of frontend/dashboard/src/hooks/useTrafficSimulationEngine.ts.
use surakshanet.Base.{ℕ, suc, ◌+◌, ◌%◌, ◌≤◌, ◌<◌, ◌≡◌, refl, List, [], ◌∷◌, arith, length, All}
use surakshanet.Realtime.Backoff.{resolution}
use surakshanet.Engine.{SignalPhase, phase_tick}
use surakshanet.Engine.Metrics.{random_between_bounds}

-- The ticks for the given draws.
unfoldable pub ticks : List ℕ → SignalPhase → SignalPhase
ticks [] s = s
ticks (random ∷ draws) s = ticks draws (phase_tick random s)

abbrev pub Drawn : ℕ → Type 0
Drawn random = random < resolution

-- While the countdown is above one, ticks only count down.
counts_down :
    (draws : List ℕ) (s : SignalPhase)
    → length draws < s.remaining
    → (ticks draws s).phase_id ≡ s.phase_id
unfolding ticks phase_tick
counts_down [] s h = refl
counts_down (random ∷ draws) s h = ground (arith, counts_down draws (phase_tick random s))

-- A phase lasts as many ticks as its countdown says: until then the phase stays, and the tick that
-- ends it moves to the next of the four phases, with a new countdown between 10 and 25.
pub phase_lasts :
    (draws : List ℕ) (last : ℕ) (s : SignalPhase)
    → suc (length draws) ≡ s.remaining
    → last < resolution
    → ((ticks draws s).phase_id ≡ s.phase_id)
      × ((phase_tick last (ticks draws s)).phase_id ≡ (s.phase_id + 1) % 4)
      × (10 ≤ (phase_tick last (ticks draws s)).remaining)
      × ((phase_tick last (ticks draws s)).remaining ≤ 25)
unfolding ticks phase_tick
phase_lasts [] last s h r = ground (arith, random_between_bounds 10 25 last)
phase_lasts (random ∷ draws) last s h r =
    ground (arith, phase_lasts draws last (phase_tick random s))

pub record InCycle (limit : ℕ) (s : SignalPhase) : Type 0 where
  pub phase : s.phase_id < 4
  pub bounded : s.remaining ≤ limit

phase_tick-InCycle :
    (limit random : ℕ) (s : SignalPhase)
    → 25 ≤ limit
    → random < resolution
    → InCycle limit s
    → InCycle limit (phase_tick random s)
unfolding phase_tick
phase_tick-InCycle limit random s h r v = ground (arith, random_between_bounds 10 25 random)

-- From a phase of the cycle on, the phase stays one of the four and the countdown never goes above
-- what it started with or 25.
pub ticks-InCycle :
    (limit : ℕ) (draws : List ℕ) (s : SignalPhase)
    → 25 ≤ limit
    → All Drawn draws
    → InCycle limit s
    → InCycle limit (ticks draws s)
unfolding ticks
ticks-InCycle limit [] s h r v = v
ticks-InCycle limit (random ∷ draws) s h r v =
    ticks-InCycle limit draws (phase_tick random s) h r.1
      (phase_tick-InCycle limit random s h r.0 v)
