-- ===== src/Studio/Tests.antt =====
-- Runs of the studio's scenes on concrete inputs, over whole numbers in place of doubles.
use mathlib.Core.Int.{ℤ, pos, ◌+ℤ◌, ◌-ℤ◌, ◌*ℤ◌}
use surakshanet.Base.{◌*◌, ◌/◌, ◌++◌, none, ◌≡◌, refl, some, List, [], ◌∷◌, arith, length}
use surakshanet.Realtime.Backoff.{resolution}
use surakshanet.Studio.{
  Vec, Space, ShellTile, crater_radius, full, new_tile, rim_scale, broken, fracture, fractured,
  corners,
}
use surakshanet.Studio.Shell.{shell_intact}
use surakshanet.Studio.Sphere.{
  Sphere, Pointer, ChipDraws, Event, pointer_move, resize, frame, initial, on_pointer_move,
  on_resize, animate, handle, run, chips_from,
}
use surakshanet.Studio.Totem.{
  TotemEvent, mouse_enter, mouse_leave, turn_frame, turn_resize, initial_totem, turn, handle_totem,
  run_totem,
}
use surakshanet.Studio.Stage.{Browser, window, IsFresh}
use surakshanet.Studio.Stage.Pair.{
  globe_frame, column_frame, mount_both, answer_every, leave, leave_restores,
}
use surakshanet.Studio.Stage.Cleanup.{Left}
use surakshanet.Studio.Scene.Globe.{inner_globe, ball}
use surakshanet.Studio.Scene.Column.{balls, add_highlights, teeth_from}

abbrev vec : ℤ → ℤ → ℤ → Vec ℤ
vec x y z = record { x = x; y = y; z = z }

abbrev both : (ℤ → ℤ → ℤ) → Vec ℤ → Vec ℤ → Vec ℤ
both f v w = vec (f v.x w.x) (f v.y w.y) (f v.z w.z)

-- Points are all taken to be as far apart as the crater is wide.
abbrev numbers : Space ℤ
numbers = record {
  ratio = λ a b. pos 0;
  plus = ◌+ℤ◌;
  minus = ◌-ℤ◌;
  times = ◌*ℤ◌;
  sin = λ x. x;
  cos = λ x. x;
  pi = pos 3;
  add = both ◌+ℤ◌;
  sub = both ◌-ℤ◌;
  divide_scalar = λ v s. v;
  multiply_scalar = λ v s. v;
  normalize = λ v. v;
  narrow = λ v. v;
  cross = both ◌*ℤ◌;
  lerp = λ v w s. w;
  distance = λ v w. crater_radius;
  placed = λ p r s v. both ◌+ℤ◌ p v;
}

abbrev some_tile : ShellTile ℤ
some_tile =
    new_tile numbers 7 (vec (pos 1) (pos 0) (pos 0)) (vec (pos 0) (pos 5) (pos 0))
      (vec (pos 2) (pos 0) (pos 9)) (vec (pos 0) (pos 1) (pos 0)) (pos 1)

shell_intact_example :
    let now =
      fracture numbers
        (pos 4)
        (vec (pos 1) (pos 2) (pos 3))
        (fractured numbers ((pos 2, vec (pos 1) (pos 1) (pos 1)) ∷ []) some_tile) in
    (now ≡ some_tile) × (corners numbers now ≡ corners numbers some_tile)
shell_intact_example =
    shell_intact numbers 7 (vec (pos 1) (pos 0) (pos 0)) (vec (pos 0) (pos 5) (pos 0))
      (vec (pos 2) (pos 0) (pos 9)) (vec (pos 0) (pos 1) (pos 0)) (pos 1)
      ((pos 2, vec (pos 1) (pos 1) (pos 1)) ∷ []) (pos 4) (vec (pos 1) (pos 2) (pos 3))
      (omega arith)

abbrev a_place : Vec ℤ
a_place = vec (pos 1) (pos 2) (pos 3)

abbrev another_place : Vec ℤ
another_place = vec (pos 3) (pos 2) (pos 1)

tile_color : some_tile.color ≡ "0xE45D52"
unfolding new_tile
tile_color = refl

half_scale : (broken numbers (pos 1) (1300 * resolution) some_tile).scale ≡ 700 * full / 1000
unfolding broken rim_scale
half_scale = refl

abbrev some_chip : ChipDraws ℤ
some_chip = record { angle = pos 1; offset = pos 0; lift = pos 0; speed = a_place }

abbrev centre : Pointer
centre = record { left = 300; top = 250; width = 600; height = 500 }

abbrev a_sphere : Sphere ℤ
a_sphere = initial numbers 600 500 (some_tile ∷ []) (λ i. some_chip)

abbrev touched : Sphere ℤ
touched = on_pointer_move numbers centre (some a_place) a_sphere

abbrev sphere_events : List (Event ℤ)
sphere_events =
    frame (pos 1)
    ∷ pointer_move centre none
    ∷ resize 800 600
    ∷ pointer_move centre (some another_place)
    ∷ frame (pos 2)
    ∷ []

pointer_leads : (run numbers sphere_events touched).target_ball_pos ≡ another_place
unfolding run handle on_pointer_move on_resize animate initial
pointer_leads = refl

debris_count : length (chips_from numbers (λ i. some_chip) 20 0) ≡ 20
debris_count = refl

abbrev totem_events : List (TotemEvent ℤ)
totem_events =
    turn_frame (pos 1) ∷ mouse_enter ∷ turn_frame (pos 2) ∷ mouse_leave ∷ turn_resize 300 200 ∷ []

ring_turned : (run_totem numbers totem_events (initial_totem numbers 300 250)).ring_rotation ≡ 64
unfolding run_totem initial_totem handle_totem turn
ring_turned = refl

-- A browser with another scene in it.
abbrev a_browser : Browser
a_browser = record {
  next = 3;
  frames = 2 ∷ [];
  listeners = record { target = window; event = "resize"; owner = 1 } ∷ [];
  canvases = 1 ∷ [];
  renderers = 1 ∷ [];
}

a_browser-IsFresh : IsFresh a_browser
a_browser-IsFresh = record {
  frames = (omega arith, tt);
  listeners = (omega arith, tt);
  canvases = (omega arith, tt);
  renderers = (omega arith, tt);
}

tooth_count : length (teeth_from numbers 18 0) ≡ 18
tooth_count = refl

meshes : length (balls numbers ++ inner_globe numbers ++ ball numbers) ≡ 18
unfolding balls add_highlights inner_globe ball
meshes = refl

leave_restores_example : Left a_browser (
    leave (
      answer_every
        (globe_frame ∷ column_frame ∷ column_frame ∷ globe_frame ∷ [])
        (mount_both a_browser)))
leave_restores_example =
    leave_restores a_browser (globe_frame ∷ column_frame ∷ column_frame ∷ globe_frame ∷ [])
      a_browser-IsFresh
