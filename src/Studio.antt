-- ===== src/Studio.antt =====
-- The two scenes of the Studio page that three.js draws:
-- frontend/dashboard/src/components/Studio/Studio3DSphere.tsx, a ball that breaks the shell of a globe
-- open, and frontend/dashboard/src/components/Studio/StudioRightTotem3D.tsx, a ring that turns about
-- three balls. This file holds what they take from JavaScript's numbers and from three.js, the tiles of
-- the shell and how a frame breaks them.
pub mod Shell
pub mod Sphere
pub mod Target
pub mod Totem
pub mod Stage
pub mod Scene
pub mod Panel
mod Tests
use surakshanet.Base.{
  ℕ, zero, suc, ◌+◌, ◌-◌, ◌*◌, ◌%◌, String, Bool, Option, List, [], ◌∷◌, ltb, if◌then◌else◌, map,
  length, get_elem?, or_else,
}
use surakshanet.Realtime.Backoff.{resolution}

-- `THREE.Vector3`, and `THREE.Euler`.
pub record Vec (F : Type 0) : Type 0 where
  pub x : F
  pub y : F
  pub z : F

-- What the scenes take from elsewhere: doubles and `Math` on `F`, and the operations of three.js.
-- `ratio a b` is the number a / b. `narrow` is what a `Float32Array` keeps of three numbers. `distance`
-- is a numerator over `resolution` thousandths. `placed` is where a point of a mesh stands in the mesh's
-- parent, for the mesh's position and rotation and its scale, a numerator over `full`.
pub record Space (F : Type 0) : Type 0 where
  pub ratio : ℕ → ℕ → F
  pub plus : F → F → F
  pub minus : F → F → F
  pub times : F → F → F
  pub sin : F → F
  pub cos : F → F
  pub pi : F
  pub add : Vec F → Vec F → Vec F
  pub sub : Vec F → Vec F → Vec F
  pub divide_scalar : Vec F → F → Vec F
  pub multiply_scalar : Vec F → F → Vec F
  pub normalize : Vec F → Vec F
  pub narrow : Vec F → Vec F
  pub cross : Vec F → Vec F → Vec F
  pub lerp : Vec F → Vec F → F → Vec F
  pub distance : Vec F → Vec F → ℕ
  pub placed : Vec F → Vec F → ℕ → Vec F → Vec F

-- Where a mesh stands: its `position`, `rotation` and `scale`, the scale as a numerator over `full`.
pub record Pose (F : Type 0) : Type 0 where
  pub position : Vec F
  pub rotation : Vec F
  pub scale : ℕ

-- A tile of the shell, with the geometry, the colour and the pose of its mesh.
pub record ShellTile (F : Type 0) : Type 0 where
  pub geometry : List (Vec F)
  pub color : String
  pub base_pos : Vec F
  pub normal : Vec F
  pub base_rot : Vec F
  pub random_tilt : Vec F
  pub random_offset : F
  pub pose : Pose F

abbrev pub hole_radius : ℕ
hole_radius = 950 * resolution

abbrev pub crater_radius : ℕ
crater_radius = 1650 * resolution

-- How wide the rim of the crater is; `rim_progress` is a numerator over it.
abbrev pub rim : ℕ
rim = crater_radius - hole_radius

-- The denominator of a lift and of a scale.
abbrev pub full : ℕ
full = 1000 * rim

abbrev pub tile_colors : List String
tile_colors = "0xD94F45" ∷ "0xE45D52" ∷ "0xC83B30" ∷ "0xDE564B" ∷ "0xEF6E63" ∷ "0xB83025" ∷ []

-- `1 - rimProgress`
abbrev pub rest_of_rim : ℕ → ℕ
rest_of_rim dist = rim - (dist - hole_radius)

unfoldable pub lift : ℕ → ℕ
lift dist = rest_of_rim dist * 420

unfoldable pub rim_scale : ℕ → ℕ
rim_scale dist = 400 * rim + (dist - hole_radius) * 600

module _ {F : Type 0} (sp : Space F) where
  abbrev pub zero_vec : Vec F
  zero_vec = record { x = sp.ratio 0 1; y = sp.ratio 0 1; z = sp.ratio 0 1 }

  -- `(Math.random() - 0.5) * spread`
  abbrev pub around : F → F → F
  around spread draw = sp.times (sp.minus draw (sp.ratio 1 2)) spread

  abbrev pub add_scaled_vector : Vec F → Vec F → F → Vec F
  add_scaled_vector v w s = sp.add v (sp.multiply_scalar w s)

  -- The face `i` of the icosahedron, with the draws for its tilt and its offset.
  unfoldable pub new_tile : ℕ → Vec F → Vec F → Vec F → Vec F → F → ShellTile F
  new_tile i v_a v_b v_c tilt offset =
      let center =
        sp.divide_scalar (sp.add (sp.add (sp.add zero_vec v_a) v_b) v_c) (sp.ratio 3 1) in
      record {
        geometry =
            sp.narrow (sp.sub v_a center)
            ∷ sp.narrow (sp.sub v_b center)
            ∷ sp.narrow (sp.sub v_c center)
            ∷ [];
        color = or_else (get_elem? tile_colors (i % length tile_colors)) "";
        base_pos = center;
        normal = sp.normalize center;
        base_rot = zero_vec;
        random_tilt = record {
          x = around (sp.ratio 8 10) tilt.x;
          y = around (sp.ratio 8 10) tilt.y;
          z = around (sp.ratio 8 10) tilt.z;
        };
        random_offset = offset;
        pose = record { position = center; rotation = zero_vec; scale = full };
      }

  -- `baseRot + randomTilt * (1 - rimProgress) * 1.3`, for one axis.
  abbrev tilted : ℕ → F → F → F
  tilted dist base tilt =
      sp.plus base (sp.times (sp.times tilt (sp.ratio (rest_of_rim dist) rim)) (sp.ratio 13 10))

  -- What a frame at the time `t` makes of the pose of a tile, for its distance from the ball.
  unfoldable pub broken : F → ℕ → ShellTile F → Pose F
  broken t dist tile =
      if ltb dist hole_radius
      then record tile.pose { scale = 0 }
      else if ltb dist crater_radius
      then record {
        position = add_scaled_vector tile.base_pos tile.normal (
            sp.plus (sp.ratio (lift dist) full) (
              sp.times (sp.sin (sp.plus (sp.times t (sp.ratio 2 1)) tile.random_offset))
                (sp.ratio 15 1000)));
        rotation = record {
          x = tilted dist tile.base_rot.x tile.random_tilt.x;
          y = tilted dist tile.base_rot.y tile.random_tilt.y;
          z = tilted dist tile.base_rot.z tile.random_tilt.z;
        };
        scale = rim_scale dist;
      }
      else record { position = tile.base_pos; rotation = tile.base_rot; scale = full }

  unfoldable pub fracture : F → Vec F → ShellTile F → ShellTile F
  fracture t ball tile = record tile { pose = broken t (sp.distance tile.base_pos ball) tile }

  -- The corners of a tile as it stands in the shell.
  unfoldable pub corners : ShellTile F → List (Vec F)
  corners tile = map (sp.placed tile.pose.position tile.pose.rotation tile.pose.scale) tile.geometry

  -- The tiles after some frames, each at a time and with a place of the ball.
  unfoldable pub fractured : List (F × Vec F) → ShellTile F → ShellTile F
  fractured [] tile = tile
  fractured ((t, ball) ∷ frames) tile = fractured frames (fracture t ball tile)
