-- ===== src/Studio/Totem.antt =====
-- frontend/dashboard/src/components/Studio/StudioRightTotem3D.tsx after its scene is built: the hover,
-- the turning of the ring and the breathing of the column.
use surakshanet.Base.{ℕ, suc, ◌+◌, ◌*◌, ◌≤◌, Bool, true, false, List, [], ◌∷◌, arith, if◌then◌else◌}
use surakshanet.Studio.{Space}

pub record Totem (F : Type 0) : Type 0 where
  pub is_hovered : Bool
  -- `spinningRing.rotation.z`, in thousandths
  pub ring_rotation : ℕ
  pub position_y : F
  pub rotation_y : F
  pub camera_aspect : F

pub data TotemEvent (F : Type 0) : Type 0 where
  mouse_enter mouse_leave : TotemEvent F
  turn_frame : F → TotemEvent F
  turn_resize : ℕ → ℕ → TotemEvent F

-- `isHovered ? 0.04 : 0.024`
abbrev pub speed : Bool → ℕ
speed is_hovered = if is_hovered then 40 else 24

module _ {F : Type 0} (sp : Space F) where
  -- The scene for a container of a width and a height, before the first frame.
  unfoldable pub initial_totem : ℕ → ℕ → Totem F
  initial_totem width height = record {
    is_hovered = false;
    ring_rotation = 0;
    position_y = sp.ratio 0 1;
    rotation_y = sp.ratio 0 1;
    camera_aspect = sp.ratio width height;
  }

  -- `animate` at the time `t`, without the request for the next frame and the rendering.
  unfoldable pub turn : F → Totem F → Totem F
  turn t s = record s {
    ring_rotation = s.ring_rotation + speed s.is_hovered;
    position_y = sp.times (sp.sin (sp.times t (sp.ratio 14 10))) (sp.ratio 4 100);
    rotation_y = sp.times (sp.sin (sp.times t (sp.ratio 8 10))) (sp.ratio 6 100);
  }

  unfoldable pub handle_totem : TotemEvent F → Totem F → Totem F
  handle_totem mouse_enter s = record s { is_hovered = true }
  handle_totem mouse_leave s = record s { is_hovered = false }
  handle_totem (turn_frame t) s = turn t s
  handle_totem (turn_resize width height) s = record s { camera_aspect = sp.ratio width height }

  unfoldable pub run_totem : List (TotemEvent F) → Totem F → Totem F
  run_totem [] s = s
  run_totem (e ∷ es) s = run_totem es (handle_totem e s)

  -- How many frames are among some events.
  unfoldable pub frame_count : List (TotemEvent F) → ℕ
  frame_count [] = 0
  frame_count (turn_frame t ∷ es) = suc (frame_count es)
  frame_count (mouse_enter ∷ es) = frame_count es
  frame_count (mouse_leave ∷ es) = frame_count es
  frame_count (turn_resize w h ∷ es) = frame_count es

  -- Every frame turns the ring by at least 0.024 and at most 0.04, however the pointer comes and goes.
  ring_bounds :
      (es : List (TotemEvent F)) (s : Totem F)
      → (s.ring_rotation + 24 * frame_count es ≤ (run_totem es s).ring_rotation)
        × ((run_totem es s).ring_rotation ≤ s.ring_rotation + 40 * frame_count es)
  unfolding run_totem handle_totem turn frame_count
  ring_bounds [] s = omega arith
  ring_bounds (turn_frame t ∷ es) s = ground (arith, ring_bounds es (turn t s))
  ring_bounds (mouse_enter ∷ es) s = ring_bounds es (record s { is_hovered = true })
  ring_bounds (mouse_leave ∷ es) s = ring_bounds es (record s { is_hovered = false })
  ring_bounds (turn_resize w h ∷ es) s = ring_bounds es (record s { camera_aspect = sp.ratio w h })
