-- ===== src/Command/Canvas/Pointing.antt =====
-- What the mouse points at in frontend/dashboard/src/components/CommandCenter/CityTrafficCanvas.tsx.
use surakshanet.Base.{
  ℕ, zero, suc, ◌+◌, ◌*◌, ◌≤◌, ◌<◌, ◌≡◌, ◌≢◌, ◌↔◌, refl, true, false, some, List, [], ◌∷◌, arith,
  ltb, leb, find?, get_elem?, sym, ◌∙◌, All, All-get, Bool-cases, inl, inr,
}
use mathlib.Core.Bool.{false≢true}
use mathlib.Core.Path.{subst}
use mathlib.Core.Option.{some_inj}
use native.Mathlib.Nat.{mul-le-mul_right, mul-le-mul, lt_of_mul-lt-mul_right}
use surakshanet.Command.Intersections.{IntersectionData, initial_intersections}
use surakshanet.Command.Canvas.{Mouse, gap, across, down, is_near, clicked, id_of, hovered_id}

lt_of_square : (a b : ℕ) → a * a < b * b → a < b
lt_of_square a b h = elim (Bool-cases (ltb a b)) [
  | inl yes' ↦ ground arith
  | inr no' ↦
      let le : b ≤ a = ground arith in
      absurd (omega (arith, mul-le-mul {n₁ = b} {m₁ = b} {n₂ = a} {m₂ = a} le le))
]

-- A mouse that is near a node is less than thirty pixels to its left or right, in the stretched rectangle.
near-across :
    (m : Mouse) (node : IntersectionData) → is_near m node ≡ true → across m node < 30 * m.width
unfolding is_near
near-across m node h =
    let a : ℕ = across m node * m.height in
    let b : ℕ = down m node * m.width in
    let sum : a * a + b * b < 30 * m.width * m.height * (30 * m.width * m.height) = ground arith in
    lt_of_mul-lt-mul_right m.height (lt_of_square a (30 * m.width * m.height) (omega (arith, sum)))

-- Two nodes whose places from left to right are sixty or more apart, and nodes that are so in pairs.
abbrev Apart : IntersectionData → IntersectionData → Type 0
Apart a b = 60 ≤ gap a.x b.x

abbrev Spread : List IntersectionData → Type 0
Spread [] = Unit
Spread (n ∷ ns) = All (Apart n) ns × Spread ns

right_of : (w x y l : ℕ) → x + 60 ≤ y → gap (x * w) l < 30 * w → gap (y * w) l < 30 * w → ⊥
right_of w x y l h p q =
    let far : (x + 60) * w ≤ y * w = mul-le-mul_right w h in omega (arith, far, p, q)

Apart-far :
    (m : Mouse) (a b : IntersectionData) → Apart a b → is_near m a ≡ true → is_near m b ≡ false
Apart-far m a b h p = elim (Bool-cases (is_near m b)) [
  | inr e ↦ e
  | inl e ↦
      let pa = near-across m a p in
      let pb = near-across m b e in
      absurd (elim (Bool-cases (leb (a.x + 60) b.x)) [
        | inl le ↦ right_of m.width a.x b.x (m.left * 1050) (ground arith) pa pb
        | inr gt ↦ right_of m.width b.x a.x (m.left * 1050) (ground arith) pb pa
      ])
]

find?-Spread :
    (m : Mouse) (ns : List IntersectionData) (i : ℕ) (node : IntersectionData)
    → Spread ns
    → get_elem? ns i ≡ some node
    → is_near m node ≡ true
    → find? (is_near m) ns ≡ some node
find?-Spread m [] i node h e p = absurd (cc)
find?-Spread m (n ∷ ns) zero node h e p =
    let same : n ≡ node = some_inj.0 e in let near : is_near m n ≡ true = cc in rw near e
find?-Spread m (n ∷ ns) (suc i) node h e p = elim (Bool-cases (is_near m n)) [
  | inl q ↦
      let far = Apart-far m n node (All-get (Apart n) ns i node h.0 e) q in
      absurd (false≢true (sym far ∙ p))
  | inr q ↦ rw q (find?-Spread m ns i node h.1 e p)
]

-- The straight distance of the mouse from a node is less than `r` where the canvas's rectangle is
-- stretched to 1050 by 550. All is squared, and times the width and the height of the rectangle.
abbrev pub Within : ℕ → Mouse → IntersectionData → Type 0
Within r m node =
    let dx : ℕ = gap (node.x * m.width) (m.left * 1050) * m.height in
    let dy : ℕ = gap (node.y * m.height) (m.top * 550) * m.width in
    dx * dx + dy * dy < r * m.width * m.height * (r * m.width * m.height)

near-Within : (m : Mouse) (node : IntersectionData) → is_near m node ≡ true ↔ Within 30 m node
unfolding is_near
near-Within m node = (λ h. ground (arith, h), λ h. ground (arith, h))

found-near :
    (m : Mouse) (ns : List IntersectionData) (node : IntersectionData)
    → find? (is_near m) ns ≡ some node
    → is_near m node ≡ true
found-near m [] node h = absurd (cc)
found-near m (n ∷ ns) node h = elim (Bool-cases (is_near m n)) [
  | inl e ↦ let same : n ≡ node = some_inj.0 (rw e at h) in subst (λ k. is_near m k ≡ true) same e
  | inr e ↦ found-near m ns node (rw e at h)
]

-- A click selects an intersection, and the mouse hovers it, exactly if it is less than thirty pixels
-- away, with the rectangle of the canvas stretched to 1050 by 550.
pub clicked_lem :
    (m : Mouse) (i : ℕ) (node : IntersectionData)
    → get_elem? initial_intersections i ≡ some node
    → (clicked m ≡ some node ↔ Within 30 m node) × (hovered_id m ≡ id_of (clicked m))
unfolding clicked hovered_id
clicked_lem m i node e = (
  (
    λ h. (near-Within m node).0 (found-near m initial_intersections node h),
    λ w. find?-Spread m initial_intersections i node (omega arith) e ((near-Within m node).1 w),
  ),
  refl,
)

-- `object-contain` draws the picture of 1050 by 550 unstretched, in the middle of the canvas. In a canvas
-- of 1050 k by 1100 k it is k times as large, with an empty strip of 275 k above it.
abbrev pub at_drawn : ℕ → IntersectionData → Mouse
at_drawn k node = record {
  left = node.x * k;
  top = (275 + node.y) * k;
  width = 1050 * k;
  height = 1100 * k;
}

-- How far below or above its drawing a node is looked for there.
drawn-down : (k y : ℕ) → 60 ≤ gap y 275 → 33000 * k ≤ gap (y * (1100 * k)) ((275 + y) * k * 550)
drawn-down k y far = elim (Bool-cases (leb 335 y)) [
  | inl e ↦
      let below : 335 ≤ y = ground (arith, e) in
      let le : 335 * k ≤ y * k = mul-le-mul_right k below in omega (arith, le)
  | inr e ↦
      let above : y + 60 ≤ 275 = ground (arith, e, far) in
      let le : (y + 60) * k ≤ 275 * k = mul-le-mul_right k above in omega (arith, le)
]

drawn_far :
    (k y : ℕ)
    → 60 ≤ gap y 275
    → 30 * (1050 * k) * (1100 * k) ≤ gap (y * (1100 * k)) ((275 + y) * k * 550) * (1050 * k)
drawn_far k y far =
    let le : 33000 * k * (1050 * k) ≤ gap (y * (1100 * k)) ((275 + y) * k * 550) * (1050 * k) =
      mul-le-mul_right (1050 * k) (drawn-down k y far) in
    omega (arith, le)

not_below : (x y z : ℕ) → z ≤ y → x + y < z → ⊥
not_below x y z h k = omega (arith, h, k)

-- In a canvas of 1050 k by 1100 k, a click right on the drawing of an intersection does not select it
-- unless its y is within sixty of 275, the middle of the picture: the handlers take no account of the
-- empty strips that `object-contain` leaves.
pub drawn_missed :
    (k i : ℕ) (node : IntersectionData)
    → get_elem? initial_intersections i ≡ some node
    → 60 ≤ gap node.y 275
    → clicked (at_drawn k node) ≢ some node
unfolding clicked is_near
drawn_missed k i node e far h =
    let m : Mouse = at_drawn k node in
    let near : Within 30 m node =
      (near-Within m node).0 (found-near m initial_intersections node h) in
    let dy : ℕ = down m node * m.width in
    let b : ℕ = 30 * m.width * m.height in
    let le : b ≤ dy = drawn_far k node.y far in
    let squares : b * b ≤ dy * dy = mul-le-mul {n₁ = b} {m₁ = b} {n₂ = dy} {m₂ = dy} le le in
    absurd (not_below _ (dy * dy) (b * b) squares near)
