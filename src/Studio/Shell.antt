-- ===== src/Studio/Shell.antt =====
-- The shell of frontend/dashboard/src/components/Studio/Studio3DSphere.tsx: which tiles are seen after a
-- frame, and where.
use surakshanet.Base.{
  ℕ, ◌*◌, ◌≤◌, ◌<◌, ◌≡◌, refl, ap, Option, none, some, List, [], ◌∷◌, map, arith, ltb, ◌==◌,
  if◌then◌else◌, ◌⊎◌,
}
use surakshanet.Studio.{
  Vec, Space, Pose, ShellTile, hole_radius, crater_radius, rim, full, new_tile, lift, rim_scale,
  broken, fracture, corners, fractured,
}

module _ {F : Type 0} (sp : Space F) where
  abbrev posed : ShellTile F → Pose F → ShellTile F
  posed tile p = record tile { pose = p }

  -- Frames change nothing of a tile but its pose.
  fractured-posed :
      (frames : List (F × Vec F)) (tile : ShellTile F)
      → (p : Pose F) × (fractured sp frames tile ≡ posed tile p)
  unfolding fractured fracture
  fractured-posed [] tile = (tile.pose, refl)
  fractured-posed ((t, ball) ∷ frames) tile = fractured-posed frames (fracture sp t ball tile)

  broken-intact :
      (t : F) (dist : ℕ) (tile : ShellTile F)
      → crater_radius ≤ dist
      → broken sp t dist tile
        ≡ record { position = tile.base_pos; rotation = tile.base_rot; scale = full }
  unfolding broken
  broken-intact t dist tile h = ground arith

  new_tile-intact :
      (i : ℕ) (v_a v_b v_c tilt : Vec F) (offset t : F) (p : Pose F) (ball : Vec F)
      → crater_radius ≤ sp.distance (new_tile sp i v_a v_b v_c tilt offset).base_pos ball
      → fracture sp t ball (posed (new_tile sp i v_a v_b v_c tilt offset) p)
        ≡ new_tile sp i v_a v_b v_c tilt offset
  unfolding new_tile fracture
  new_tile-intact i v_a v_b v_c tilt offset t p ball h =
      let made = new_tile sp i v_a v_b v_c tilt offset in
      rw (broken-intact t (sp.distance made.base_pos ball) (posed made p) h) refl

  -- However the ball has broken the shell in the frames before, a tile whose centre is now at least the
  -- radius of the crater away from the ball is the tile that was made: it has the place, the rotation
  -- and the full size that it was made with, so its corners stand where they stood then.
  pub shell_intact :
      (i : ℕ) (v_a v_b v_c tilt : Vec F) (offset : F) (frames : List (F × Vec F)) (t : F)
      (ball : Vec F)
      → crater_radius ≤ sp.distance (new_tile sp i v_a v_b v_c tilt offset).base_pos ball
      → let made = new_tile sp i v_a v_b v_c tilt offset in
        let now = fracture sp t ball (fractured sp frames made) in
        (now ≡ made) × (corners sp now ≡ corners sp made)
  shell_intact i v_a v_b v_c tilt offset frames t ball h =
      let made = new_tile sp i v_a v_b v_c tilt offset in
      let (p, same) = fractured-posed frames made in
      let back : fracture sp t ball (fractured sp frames made) ≡ made =
        rw same (new_tile-intact i v_a v_b v_c tilt offset t p ball h) in
      (back, ap (corners sp) back)

  -- What is seen of a tile: its corners, where it has a size.
  unfoldable pub seen : ShellTile F → Option (List (Vec F))
  seen tile = if tile.pose.scale == 0 then none else some (corners sp tile)

  seen-posed :
      (t : F) (ball : Vec F) (tile : ShellTile F) (p : Pose F)
      → seen (fracture sp t ball (posed tile p)) ≡ seen (fracture sp t ball tile)
  unfolding seen fracture broken corners
  seen-posed t ball tile p = ground arith

  seen-fractured :
      (frames : List (F × Vec F)) (t : F) (ball : Vec F) (tile : ShellTile F)
      → seen (fracture sp t ball (fractured sp frames tile)) ≡ seen (fracture sp t ball tile)
  seen-fractured frames t ball tile =
      let (p, same) = fractured-posed frames tile in rw same (seen-posed t ball tile p)

  -- The shell after some frames.
  unfoldable pub shell : List (F × Vec F) → List (ShellTile F) → List (ShellTile F)
  shell frames tiles = map (fractured sp frames) tiles

  -- What is seen of the shell after a frame does not depend on the frames before it.
  shell_forgets :
      (frames frames' : List (F × Vec F)) (t : F) (ball : Vec F) (tiles : List (ShellTile F))
      → map (λ tile. seen (fracture sp t ball tile)) (shell frames tiles)
        ≡ map (λ tile. seen (fracture sp t ball tile)) (shell frames' tiles)
  unfolding shell
  shell_forgets frames frames' t ball [] = refl
  shell_forgets frames frames' t ball (tile ∷ tiles) =
      rw
        (
          seen-fractured frames t ball tile,
          seen-fractured frames' t ball tile,
          shell_forgets frames frames' t ball tiles,
        )
        refl

  scale_lem :
      (t : F) (dist : ℕ) (tile : ShellTile F)
      → (broken sp t dist tile).scale ≡ (
          if ltb dist hole_radius
          then 0
          else if ltb dist crater_radius
          then rim_scale dist
          else full)
  unfolding broken
  scale_lem t dist tile = ground arith

  -- The further a tile is from the ball, the larger a frame makes it, from nothing in the hole over the
  -- rim of the crater to its full size; on the rim it has at least two fifths of its size, and is lifted
  -- by at most 0.42, the less the further it is from the ball.
  broken_bounds :
      (t t' : F) (near far : ℕ) (tile : ShellTile F)
      → near ≤ far
      → ((broken sp t near tile).scale ≤ (broken sp t' far tile).scale)
        × ((broken sp t' far tile).scale ≤ full)
        × ((near < hole_radius) ⊎ (400 * rim ≤ (broken sp t near tile).scale))
        × (lift far ≤ lift near)
        × (lift near ≤ 420 * rim)
  unfolding lift rim_scale
  broken_bounds t t' near far tile h =
      rw (scale_lem t near tile, scale_lem t' far tile) (ground arith)
