-- ===== src/Studio/Sphere.antt =====
-- frontend/dashboard/src/components/Studio/Studio3DSphere.tsx after its scene is built: the mouse, the
-- ball, the debris and the frames.
use surakshanet.Base.{
  ℕ, zero, suc, Bool, true, false, Option, none, some, List, [], ◌∷◌, map, if◌then◌else◌,
}
use surakshanet.Studio.{Vec, Space, ShellTile, around, zero_vec, fracture}

-- A shard of the debris.
pub record Chip (F : Type 0) : Type 0 where
  pub rel_angle : F
  pub dist_offset : F
  pub lift : F
  pub rot_speed : Vec F
  pub position : Vec F
  pub rotation : Vec F

-- The draws of a shard.
pub record ChipDraws (F : Type 0) : Type 0 where
  pub angle : F
  pub offset : F
  pub lift : F
  pub speed : Vec F

-- Where the pointer is, from the left and the top of the container, and how large that is.
pub record Pointer : Type 0 where
  pub left : ℕ
  pub top : ℕ
  pub width : ℕ
  pub height : ℕ

pub record Sphere (F : Type 0) : Type 0 where
  pub mouse_x : F
  pub mouse_y : F
  pub has_mouse_interacted : Bool
  pub current_ball_pos : Vec F
  pub target_ball_pos : Vec F
  -- the position and the rotation of `ballMesh`
  pub ball_position : Vec F
  pub ball_rotation : Vec F
  pub group_rotation : Vec F
  pub camera_aspect : F
  pub shell_tiles : List (ShellTile F)
  pub debris_list : List (Chip F)

module _ {F : Type 0} (sp : Space F) where
  abbrev pub minus_ratio : ℕ → ℕ → F
  minus_ratio a b = sp.minus (sp.ratio 0 1) (sp.ratio a b)

  -- `OUTER_RADIUS`
  abbrev pub outer_radius : F
  outer_radius = sp.ratio 332 100

  -- `.normalize().multiplyScalar(OUTER_RADIUS * 0.96)`
  abbrev pub on_shell : Vec F → Vec F
  on_shell v = sp.multiply_scalar (sp.normalize v) (sp.times outer_radius (sp.ratio 96 100))

  unfoldable pub new_chip : ℕ → ChipDraws F → Chip F
  new_chip i draws = record {
    rel_angle =
        sp.plus (sp.times (sp.times (sp.ratio i 20) sp.pi) (sp.ratio 2 1))
          (around sp (sp.ratio 3 10) draws.angle);
    dist_offset = sp.plus (sp.ratio 85 100) (sp.times draws.offset (sp.ratio 45 100));
    lift = sp.plus (sp.ratio 8 100) (sp.times draws.lift (sp.ratio 2 10));
    rot_speed = record {
      x = around sp (sp.ratio 2 100) draws.speed.x;
      y = around sp (sp.ratio 2 100) draws.speed.y;
      z = around sp (sp.ratio 2 100) draws.speed.z;
    };
    position = zero_vec sp;
    rotation = zero_vec sp;
  }

  -- The `n` shards from `i` on; the code makes 20 from 0 on.
  abbrev pub chips_from : (ℕ → ChipDraws F) → ℕ → ℕ → List (Chip F)
  chips_from draws zero i = []
  chips_from draws (suc n) i = new_chip i (draws i) ∷ chips_from draws n (suc i)

  -- The ball before the first frame.
  abbrev pub first_ball_pos : Vec F
  first_ball_pos = record { x = minus_ratio 14 10; y = sp.ratio 23 10; z = sp.ratio 21 10 }

  -- The scene for a container of a width and a height, before the first frame.
  unfoldable pub initial : ℕ → ℕ → List (ShellTile F) → (ℕ → ChipDraws F) → Sphere F
  initial width height tiles draws = record {
    mouse_x = sp.ratio 0 1;
    mouse_y = sp.ratio 0 1;
    has_mouse_interacted = false;
    current_ball_pos = first_ball_pos;
    target_ball_pos = first_ball_pos;
    ball_position = zero_vec sp;
    ball_rotation = zero_vec sp;
    group_rotation = zero_vec sp;
    camera_aspect = sp.ratio width height;
    shell_tiles = tiles;
    debris_list = chips_from draws 20 0;
  }

  -- `((clientX - left) / width) * 2 - 1`
  abbrev normalized : ℕ → ℕ → F
  normalized at size = sp.minus (sp.times (sp.ratio at size) (sp.ratio 2 1)) (sp.ratio 1 1)

  abbrev hit_target : Option (Vec F) → Vec F → Vec F
  hit_target none target = target
  hit_target (some hit) target = on_shell hit

  -- `onPointerMove`, with the point of the globe under the pointer, in the coordinates of the group.
  unfoldable pub on_pointer_move : Pointer → Option (Vec F) → Sphere F → Sphere F
  on_pointer_move e hit s = record s {
    mouse_x = normalized e.left e.width;
    mouse_y = sp.minus (sp.ratio 0 1) (normalized e.top e.height);
    has_mouse_interacted = true;
    target_ball_pos = hit_target hit s.target_ball_pos;
  }

  unfoldable pub on_resize : ℕ → ℕ → Sphere F → Sphere F
  on_resize width height s = record s { camera_aspect = sp.ratio width height }

  abbrev orbit_phi : F → F
  orbit_phi t =
      sp.minus (sp.times (sp.sin (sp.times t (sp.ratio 45 100))) (sp.ratio 4 10)) (sp.ratio 15 100)

  abbrev orbit_theta : F → F
  orbit_theta t =
      sp.plus (sp.times sp.pi (sp.ratio 35 100))
        (sp.times (sp.cos (sp.times t (sp.ratio 38 100))) (sp.ratio 3 10))

  unfoldable pub orbit : F → Vec F
  orbit t = record {
    x =
        sp.minus (sp.times (sp.times outer_radius (sp.sin (orbit_theta t))) (sp.sin (orbit_phi t)))
          (sp.ratio 4 10);
    y = sp.plus (sp.times outer_radius (sp.cos (orbit_theta t))) (sp.ratio 11 10);
    z =
        sp.plus (sp.times (sp.times outer_radius (sp.sin (orbit_theta t))) (sp.cos (orbit_phi t)))
          (sp.ratio 8 10);
  }

  -- Where the ball goes while the pointer has not moved over the container.
  abbrev pub idle_target : F → Vec F
  idle_target t = on_shell (orbit t)

  abbrev next_target : F → Sphere F → Vec F
  next_target t s = if s.has_mouse_interacted then s.target_ball_pos else idle_target t

  -- A shard around the ball at the time `t`.
  unfoldable pub drift : F → Vec F → Chip F → Chip F
  drift t ball d =
      let ball_norm = sp.normalize ball in
      let up : Vec F = record { x = sp.ratio 0 1; y = sp.ratio 1 1; z = sp.ratio 0 1 } in
      let tangent_x = sp.normalize (sp.cross ball_norm up) in
      let tangent_y = sp.normalize (sp.cross ball_norm tangent_x) in
      let angle = sp.plus d.rel_angle (sp.times t (sp.ratio 18 100)) in
      let offset =
        sp.add
          (sp.add (sp.multiply_scalar tangent_x (sp.times (sp.cos angle) d.dist_offset))
            (sp.multiply_scalar tangent_y (sp.times (sp.sin angle) d.dist_offset)))
          (sp.multiply_scalar ball_norm d.lift) in
      record d {
        position = sp.add ball offset;
        rotation = record {
          x = sp.plus d.rotation.x d.rot_speed.x;
          y = sp.plus d.rotation.y d.rot_speed.y;
          z = sp.plus d.rotation.z d.rot_speed.z;
        };
      }

  -- `animate` at the time `t`, without the request for the next frame and the rendering.
  unfoldable pub animate : F → Sphere F → Sphere F
  animate t s =
      let ball = sp.lerp s.current_ball_pos (next_target t s) (sp.ratio 55 1000) in
      record s {
        target_ball_pos = next_target t s;
        current_ball_pos = ball;
        ball_position = ball;
        ball_rotation = record s.ball_rotation {
          x = sp.plus s.ball_rotation.x (sp.ratio 12 1000);
          y = sp.plus s.ball_rotation.y (sp.ratio 8 1000);
        };
        group_rotation = record s.group_rotation {
          x =
              sp.minus (sp.times (sp.cos (sp.times t (sp.ratio 5 100))) (sp.ratio 4 100))
                (sp.times s.mouse_y (sp.ratio 8 100));
          y =
              sp.plus (sp.times (sp.sin (sp.times t (sp.ratio 6 100))) (sp.ratio 6 100))
                (sp.times s.mouse_x (sp.ratio 12 100));
        };
        shell_tiles = map (fracture sp t ball) s.shell_tiles;
        debris_list = map (drift t ball) s.debris_list;
      }

pub data Event (F : Type 0) : Type 0 where
  pointer_move : Pointer → Option (Vec F) → Event F
  resize : ℕ → ℕ → Event F
  frame : F → Event F

module _ {F : Type 0} (sp : Space F) where
  unfoldable pub handle : Event F → Sphere F → Sphere F
  handle (pointer_move e hit) s = on_pointer_move sp e hit s
  handle (resize width height) s = on_resize sp width height s
  handle (frame t) s = animate sp t s

  unfoldable pub run : List (Event F) → Sphere F → Sphere F
  run [] s = s
  run (e ∷ es) s = run es (handle e s)
