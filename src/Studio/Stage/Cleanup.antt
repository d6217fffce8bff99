-- ===== src/Studio/Stage/Cleanup.antt =====
-- What a scene of frontend/dashboard/src/components/Studio leaves in the browser when it is unmounted.
use surakshanet.Base.{
  ℕ, zero, suc, ◌+◌, ◌<◌, ◌≡◌, refl, ap, ◌∙◌, true, false, not, List, [], ◌∷◌, ◌++◌, arith, ◌==◌,
  filter, All, length, length-append,
}
use surakshanet.Studio.Stage.{
  Browser, Listener, Mounted, Scene, sphere, totem, same_listener, scene_listeners, append_canvas,
  add_listeners, request_frame, mount, without, animation_frame, animation_frames, remove_listeners,
  cleanup, IsFresh,
}

==-refl : (x : ℕ) → (x == x) ≡ true
==-refl x = ground arith

pub without-append :
    (x n : ℕ) (xs : List ℕ) → n < suc x → All (λ y. y < n) xs → without x (xs ++ x ∷ []) ≡ xs
without-append x n [] h all = rw (==-refl x) refl
without-append x n (y ∷ ys) h (lt, all) =
    let differs : (y == x) ≡ false = ground arith in
    rw differs (ap (λ zs. y ∷ zs) (without-append x n ys h all))

not_same : (l r : Listener) → l.owner < r.owner → same_listener l r ≡ false
not_same l r h = ground arith

-- Listeners of earlier closures stay when one is removed.
filter-append :
    (r : Listener) (ls added : List Listener)
    → All (λ l. l.owner < r.owner) ls
    → filter (λ l. not (same_listener l r)) (ls ++ added)
      ≡ ls ++ filter (λ l. not (same_listener l r)) added
filter-append r [] added all = refl
filter-append r (l ∷ ls) added (lt, all) =
    rw (not_same l r lt) (ap (λ zs. l ∷ zs) (filter-append r ls added all))

pub removed :
    (scene : Scene) (owner : ℕ) (ls : List Listener)
    → All (λ l. l.owner < owner) ls
    → remove_listeners (scene_listeners scene owner) (ls ++ scene_listeners scene owner) ≡ ls ++ []
unfolding remove_listeners
removed sphere owner ls all = simp (filter-append _ ls _ all, ==-refl)
removed totem owner ls all = simp (filter-append _ ls _ all, ==-refl)

-- A scene that is mounted in a browser that was `b`: what was there still is, and the scene has its
-- renderer, its listeners and one request for a frame besides.
pub record IsMounted (scene : Scene) (b : Browser) (m : Mounted) (now : Browser) : Type 0 where
  pub owner : m.owner ≡ b.next
  pub handle : b.next < m.anim_id
  pub frames : now.frames ≡ b.frames ++ m.anim_id ∷ []
  pub listeners : now.listeners ≡ b.listeners ++ scene_listeners scene b.next
  pub canvases : now.canvases ≡ b.canvases ++ b.next ∷ []
  pub renderers : now.renderers ≡ b.renderers ++ b.next ∷ []
  pub next : b.next < now.next

mount-IsMounted :
    (scene : Scene) (b : Browser) → IsMounted scene b (mount scene b).0 (mount scene b).1
unfolding mount append_canvas add_listeners request_frame
mount-IsMounted scene b = record {
  owner = refl;
  handle = omega arith;
  frames = refl;
  listeners = refl;
  canvases = refl;
  renderers = refl;
  next = omega arith;
}

frame-IsMounted :
    (scene : Scene) (b : Browser) (m : Mounted) (now : Browser)
    → IsFresh b
    → IsMounted scene b m now
    → IsMounted scene b (animation_frame (m, now)).0 (animation_frame (m, now)).1
unfolding animation_frame request_frame
frame-IsMounted scene b m now fresh at =
    let kept : without m.anim_id now.frames ≡ b.frames =
      rw at.frames
        (without-append m.anim_id b.next b.frames (omega (arith, at.handle)) fresh.frames) in
    record {
      owner = at.owner;
      handle = at.next;
      frames = ap (λ fs. fs ++ now.next ∷ []) kept;
      listeners = at.listeners;
      canvases = at.canvases;
      renderers = at.renderers;
      next = omega (arith, at.next);
    }

frames-IsMounted :
    (n : ℕ) (scene : Scene) (b : Browser) (m : Mounted) (now : Browser)
    → IsFresh b
    → IsMounted scene b m now
    → IsMounted scene b (animation_frames n (m, now)).0 (animation_frames n (m, now)).1
unfolding animation_frames
frames-IsMounted zero scene b m now fresh at = at
frames-IsMounted (suc n) scene b m now fresh at =
    let next = animation_frame (m, now) in
    frames-IsMounted n scene b next.0 next.1 fresh (frame-IsMounted scene b m now fresh at)

-- What a browser is left with, but for the numbers that it has handed out.
abbrev pub Left : Browser → Browser → Type 0
Left b b' =
    (b'.frames ≡ b.frames)
    × (b'.listeners ≡ b.listeners)
    × (b'.canvases ≡ b.canvases)
    × (b'.renderers ≡ b.renderers)

pub append-nil : (ls : List Listener) → ls ++ [] ≡ ls
append-nil [] = refl
append-nil (l ∷ ls) = ap (λ zs. l ∷ zs) (append-nil ls)

cleanup-Left :
    (scene : Scene) (b : Browser) (m : Mounted) (now : Browser)
    → IsFresh b
    → IsMounted scene b m now
    → Left b (cleanup scene (m, now))
unfolding cleanup
cleanup-Left scene b m now fresh at =
    rw (at.owner, at.frames, at.listeners, at.canvases, at.renderers)
      (
        without-append m.anim_id b.next b.frames (omega (arith, at.handle)) fresh.frames,
        removed scene b.next b.listeners fresh.listeners ∙ append-nil b.listeners,
        without-append b.next b.next b.canvases (omega arith) fresh.canvases,
        without-append b.next b.next b.renderers (omega arith) fresh.renderers,
      )

-- While a scene is mounted there is exactly one request for a frame more than before, whatever the
-- number of frames; and after the cleanup the requests, the listeners, the canvases and the renderers
-- are those from before the mount.
mount_restores :
    (scene : Scene) (b : Browser) (n : ℕ)
    → IsFresh b
    → (length (animation_frames n (mount scene b)).1.frames ≡ length b.frames + 1)
      × Left b (cleanup scene (animation_frames n (mount scene b)))
mount_restores scene b n fresh =
    let (m, now) = animation_frames n (mount scene b) in
    let at : IsMounted scene b m now =
      frames-IsMounted n scene b (mount scene b).0 (mount scene b).1 fresh
        (mount-IsMounted scene b) in
    (rw at.frames (length-append b.frames (m.anim_id ∷ [])), cleanup-Left scene b m now fresh at)
