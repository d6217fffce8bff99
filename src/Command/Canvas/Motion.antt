-- ===== src/Command/Canvas/Motion.antt =====
-- The vehicles of frontend/dashboard/src/components/CommandCenter/CityTrafficCanvas.tsx stay on their
-- roads.
use surakshanet.Base.{
  ℕ, zero, suc, ◌+◌, ◌-◌, ◌*◌, ◌%◌, ◌≤◌, ◌<◌, ◌≡◌, refl, min, max, Bool, List, [], ◌∷◌, map, arith,
  length, length-map, All, ◌∙◌,
}
use native.Mathlib.Nat.{mul-le-mul_right, mul-add}
use surakshanet.Realtime.Backoff.{resolution}
use surakshanet.Command.Canvas.{
  Vehicle, Draws, road_at, along, scale, new_vehicle, vehicles_from, initial_vehicles, moved, move,
  render,
}

-- Between two places, in pixels times `scale`.
pub record Between (a b v : ℕ) : Type 0 where
  pub least : min a b * scale ≤ v
  pub most : v ≤ max a b * scale

blend-Between :
    (a b q p s : ℕ) → q + p ≡ s → (min a b * s ≤ a * q + b * p) × (a * q + b * p ≤ max a b * s)
blend-Between a b q p s e =
    let least_a : min a b * q ≤ a * q = mul-le-mul_right q (omega arith) in
    let least_b : min a b * p ≤ b * p = mul-le-mul_right p (omega arith) in
    let most_a : a * q ≤ max a b * q = mul-le-mul_right q (omega arith) in
    let most_b : b * p ≤ max a b * p = mul-le-mul_right p (omega arith) in
    let split : (m : ℕ) → m * s ≡ m * q + m * p = λ m. rw (← e) (mul-add m q p) in
    (
      omega (arith, split (min a b), least_a, least_b),
      omega (arith, split (max a b), most_a, most_b),
    )

along-Between : (a b progress : ℕ) → progress ≤ scale → Between a b (along a b progress)
along-Between a b progress h =
    let both = blend-Between a b (scale - progress) progress scale (omega arith) in
    record { least = both.0; most = both.1 }

-- A vehicle that is on its way along its road, which is one of the eight.
pub record OnRoad (is_optimized : Bool) (veh : Vehicle) : Type 0 where
  pub index : veh.road_index < 8
  pub progress : veh.progress < scale
  pub across :
      Between
        (road_at is_optimized veh.road_index).from.x
        (road_at is_optimized veh.road_index).to.x
        veh.x
  pub down :
      Between
        (road_at is_optimized veh.road_index).from.y
        (road_at is_optimized veh.road_index).to.y
        veh.y

abbrev pub Drawn : Draws → Type 0
Drawn d = d.place < resolution

new_vehicle-OnRoad :
    (is_optimized : Bool) (d : Draws) (i : ℕ)
    → Drawn d
    → OnRoad is_optimized (new_vehicle is_optimized d.place d.pace i)
unfolding new_vehicle
new_vehicle-OnRoad is_optimized d i h =
    let road = road_at is_optimized (i % 8) in
    record {
      index = omega arith;
      progress = omega arith;
      across = along-Between road.from.x road.to.x (1000 * d.place) (omega arith);
      down = along-Between road.from.y road.to.y (1000 * d.place) (omega arith);
    }

vehicles_from-OnRoad :
    (is_optimized : Bool) (draws : ℕ → Draws) (n i : ℕ)
    → ((k : ℕ) → Drawn (draws k))
    → All (OnRoad is_optimized) (vehicles_from is_optimized draws n i)
vehicles_from-OnRoad is_optimized draws zero i h = tt
vehicles_from-OnRoad is_optimized draws (suc n) i h = (
  new_vehicle-OnRoad is_optimized (draws i) i (h i),
  vehicles_from-OnRoad is_optimized draws n (suc i) h,
)

length-vehicles_from :
    (is_optimized : Bool) (draws : ℕ → Draws) (n i : ℕ)
    → length (vehicles_from is_optimized draws n i) ≡ n
length-vehicles_from is_optimized draws zero i = refl
length-vehicles_from is_optimized draws (suc n) i =
    omega (arith, length-vehicles_from is_optimized draws n (suc i))

moved-lt : (veh : Vehicle) → moved veh < scale
moved-lt veh = ground arith

move-OnRoad :
    (is_optimized : Bool) (veh : Vehicle)
    → veh.road_index < 8
    → OnRoad is_optimized (move is_optimized veh)
unfolding move
move-OnRoad is_optimized veh h =
    let road = road_at is_optimized veh.road_index in
    record {
      index = h;
      progress = moved-lt veh;
      across = along-Between road.from.x road.to.x (moved veh) (omega (arith, moved-lt veh));
      down = along-Between road.from.y road.to.y (moved veh) (omega (arith, moved-lt veh));
    }

render-OnRoad :
    (is_optimized : Bool) (vs : List Vehicle)
    → All (OnRoad is_optimized) vs
    → All (OnRoad is_optimized) (render is_optimized vs)
unfolding render
render-OnRoad is_optimized [] h = tt
render-OnRoad is_optimized (v ∷ vs) (o, os) =
    (move-OnRoad is_optimized v o.index, render-OnRoad is_optimized vs os)

-- The vehicles after `n` frames.
unfoldable pub frames : Bool → ℕ → List Vehicle → List Vehicle
frames is_optimized zero vs = vs
frames is_optimized (suc n) vs = frames is_optimized n (render is_optimized vs)

frames_from-OnRoad :
    (is_optimized : Bool) (n : ℕ) (vs : List Vehicle)
    → All (OnRoad is_optimized) vs
    → All (OnRoad is_optimized) (frames is_optimized n vs)
unfolding frames
frames_from-OnRoad is_optimized zero vs h = h
frames_from-OnRoad is_optimized (suc n) vs h =
    frames_from-OnRoad is_optimized n (render is_optimized vs) (render-OnRoad is_optimized vs h)

length-frames :
    (is_optimized : Bool) (n : ℕ) (vs : List Vehicle)
    → length (frames is_optimized n vs) ≡ length vs
unfolding frames render
length-frames is_optimized zero vs = refl
length-frames is_optimized (suc n) vs =
    length-frames is_optimized n (map (move is_optimized) vs) ∙ length-map (move is_optimized) vs

-- After any number of frames there are the forty-eight vehicles that were made, and each is short of the
-- end of one of the eight roads, at a place between the ends of that road.
pub frames-OnRoad :
    (is_optimized : Bool) (draws : ℕ → Draws) (n : ℕ)
    → ((k : ℕ) → Drawn (draws k))
    → All (OnRoad is_optimized) (frames is_optimized n (initial_vehicles is_optimized draws))
      × (length (frames is_optimized n (initial_vehicles is_optimized draws)) ≡ 48)
unfolding initial_vehicles
frames-OnRoad is_optimized draws n h =
    let made : List Vehicle = vehicles_from is_optimized draws 48 0 in
    (
      frames_from-OnRoad is_optimized n made (vehicles_from-OnRoad is_optimized draws 48 0 h),
      length-frames is_optimized n made ∙ length-vehicles_from is_optimized draws 48 0,
    )
