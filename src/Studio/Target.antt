-- ===== src/Studio/Target.antt =====
-- Where the ball of frontend/dashboard/src/components/Studio/Studio3DSphere.tsx goes.
use surakshanet.Base.{
  ℕ, ◌≡◌, refl, Bool, true, false, none, some, List, [], ◌∷◌, ap, ◌∙◌, if◌then◌else◌,
}
use surakshanet.Studio.{Vec, Space, ShellTile}
use surakshanet.Studio.Sphere.{
  Sphere, ChipDraws, Event, pointer_move, resize, frame, on_shell, initial, on_pointer_move,
  on_resize, idle_target, orbit, animate, handle, run,
}

module _ {F : Type 0} (sp : Space F) where
  -- The last target that the pointer has set.
  unfoldable pub last_target : List (Event F) → Vec F → Vec F
  last_target [] target = target
  last_target (pointer_move e none ∷ es) target = last_target es target
  last_target (pointer_move e (some hit) ∷ es) target = last_target es (on_shell sp hit)
  last_target (resize w h ∷ es) target = last_target es target
  last_target (frame t ∷ es) target = last_target es target

  -- Once the pointer has moved over the container, the ball's target is where the pointer last met the
  -- globe, or what it was where it has not met it since: no frame and no resize moves it.
  pointer_rules :
      (es : List (Event F)) (s : Sphere F)
      → s.has_mouse_interacted ≡ true
      → ((run sp es s).target_ball_pos ≡ last_target es s.target_ball_pos)
        × ((run sp es s).has_mouse_interacted ≡ true)
  unfolding last_target run handle on_pointer_move on_resize animate
  pointer_rules [] s h = (refl, h)
  pointer_rules (pointer_move e none ∷ es) s h = pointer_rules es (on_pointer_move sp e none s) refl
  pointer_rules (pointer_move e (some hit) ∷ es) s h =
      pointer_rules es (on_pointer_move sp e (some hit) s) refl
  pointer_rules (resize w h' ∷ es) s h = pointer_rules es (on_resize sp w h' s) h
  pointer_rules (frame t ∷ es) s h =
      let rest = pointer_rules es (animate sp t s) h in
      let aim : Bool → Vec F = λ b. if b then s.target_ball_pos else idle_target sp t in
      (rest.0 ∙ ap (λ b. last_target es (aim b)) h, rest.1)

  -- A point that the ball is sent to, on the sphere of 0.96 of the shell's radius.
  abbrev pub IsAimed : Sphere F → Type 0
  IsAimed s = (v : Vec F) × (s.target_ball_pos ≡ on_shell sp v)

  aimed_by :
      (b : Bool) (t : F) (target : Vec F)
      → ((v : Vec F) × (target ≡ on_shell sp v))
      → (v : Vec F) × ((if b then target else idle_target sp t) ≡ on_shell sp v)
  aimed_by true t target aimed = aimed
  aimed_by false t target aimed = (orbit sp t, refl)

  handle-IsAimed : (e : Event F) (s : Sphere F) → IsAimed s → IsAimed (handle sp e s)
  unfolding handle on_pointer_move on_resize animate
  handle-IsAimed (pointer_move e none) s h = h
  handle-IsAimed (pointer_move e (some hit)) s h = (hit, refl)
  handle-IsAimed (resize w h') s h = h
  handle-IsAimed (frame t) s h = aimed_by s.has_mouse_interacted t s.target_ball_pos h

  run_from-IsAimed : (es : List (Event F)) (s : Sphere F) → IsAimed s → IsAimed (run sp es s)
  unfolding run
  run_from-IsAimed [] s h = h
  run_from-IsAimed (e ∷ es) s h = run_from-IsAimed es (handle sp e s) (handle-IsAimed e s h)

  -- From the first frame on, which the mount makes, the ball is only ever sent to points at 0.96 of the
  -- shell's radius, whatever the pointer, the window and the clock do.
  run-IsAimed :
      (width height : ℕ) (tiles : List (ShellTile F)) (draws : ℕ → ChipDraws F) (t : F)
      (es : List (Event F))
      → IsAimed (run sp (frame t ∷ es) (initial sp width height tiles draws))
  unfolding run handle animate initial
  run-IsAimed width height tiles draws t es =
      run_from-IsAimed es (animate sp t (initial sp width height tiles draws)) (orbit sp t, refl)
