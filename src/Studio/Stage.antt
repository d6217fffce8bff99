-- ===== src/Studio/Stage.antt =====
-- What Studio3DSphere.tsx and StudioRightTotem3D.tsx of frontend/dashboard/src/components/Studio ask of
-- the browser from mount to unmount: a renderer and its canvas, the listeners, and one animation frame
-- after the other.
pub mod Cleanup
pub mod Pair
use surakshanet.Base.{
  ℕ, zero, suc, ◌+◌, ◌<◌, ◌≡◌, refl, ap, ◌∙◌, String, Bool, true, false, not, ◌&&◌, List, [], ◌∷◌,
  ◌++◌, arith, ◌==◌, str_eq, filter, All, length, length-append,
}

pub data Target : Type 0 where
  container window : Target

-- A listener: what listens is the closure of a mount, by the mount's number.
pub record Listener : Type 0 where
  pub target : Target
  pub event : String
  pub owner : ℕ

-- The browser as far as the scenes use it. `frames` are the requests for an animation frame that have
-- not been answered, `canvases` the canvases in the containers, and `renderers` those that have not been
-- disposed. Handles and closures are numbers that are never used again.
pub record Browser : Type 0 where
  pub next : ℕ
  pub frames : List ℕ
  pub listeners : List Listener
  pub canvases : List ℕ
  pub renderers : List ℕ

-- The variables of a mounted scene: the closure it is, and `animId`.
pub record Mounted : Type 0 where
  pub owner : ℕ
  pub anim_id : ℕ

pub data Scene : Type 0 where
  sphere totem : Scene

abbrev pub same_target : Target → Target → Bool
same_target container container = true
same_target container window = false
same_target window container = false
same_target window window = true

abbrev pub same_listener : Listener → Listener → Bool
same_listener l l' =
    same_target l.target l'.target && (str_eq l.event l'.event && l.owner == l'.owner)

abbrev listen : Target → String → ℕ → Listener
listen target event owner = record { target = target; event = event; owner = owner }

-- The listeners that a scene adds, in the order in which the cleanup removes them.
abbrev pub scene_listeners : Scene → ℕ → List Listener
scene_listeners sphere owner =
    listen container "pointermove" owner ∷ listen window "resize" owner ∷ []
scene_listeners totem owner =
    listen container "mouseenter" owner
    ∷ listen container "mouseleave" owner
    ∷ listen window "resize" owner
    ∷ []

-- The number of a new closure, with the renderer made and its canvas appended.
unfoldable pub append_canvas : Browser → Browser
append_canvas b = record b {
  next = suc b.next;
  canvases = b.canvases ++ b.next ∷ [];
  renderers = b.renderers ++ b.next ∷ [];
}

unfoldable pub add_listeners : List Listener → Browser → Browser
add_listeners ls b = record b { listeners = b.listeners ++ ls }

-- What `animate` does first: `animId = requestAnimationFrame(animate)`.
unfoldable pub request_frame : ℕ → Browser → Mounted × Browser
request_frame owner b = (
  record { owner = owner; anim_id = b.next },
  record b { next = suc b.next; frames = b.frames ++ b.next ∷ [] },
)

-- The effect that mounts a scene, from the renderer on.
unfoldable pub mount : Scene → Browser → Mounted × Browser
mount scene b =
    request_frame b.next (add_listeners (scene_listeners scene b.next) (append_canvas b))

abbrev pub without : ℕ → List ℕ → List ℕ
without x xs = filter (λ y. not (y == x)) xs

-- The browser answers the request `animId`: `animate` runs, and asks for the next frame.
unfoldable pub animation_frame : Mounted × Browser → Mounted × Browser
animation_frame (m, b) = request_frame m.owner (record b { frames = without m.anim_id b.frames })

unfoldable pub animation_frames : ℕ → Mounted × Browser → Mounted × Browser
animation_frames zero mb = mb
animation_frames (suc n) mb = animation_frames n (animation_frame mb)

unfoldable pub remove_listeners : List Listener → List Listener → List Listener
remove_listeners [] ls = ls
remove_listeners (r ∷ rs) ls = remove_listeners rs (filter (λ l. not (same_listener l r)) ls)

-- The cleanup of the effect.
unfoldable pub cleanup : Scene → Mounted × Browser → Browser
cleanup scene (m, b) = record b {
  frames = without m.anim_id b.frames;
  listeners = remove_listeners (scene_listeners scene m.owner) b.listeners;
  canvases = without m.owner b.canvases;
  renderers = without m.owner b.renderers;
}

-- Every number in use was handed out before.
pub record IsFresh (b : Browser) : Type 0 where
  pub frames : All (λ x. x < b.next) b.frames
  pub listeners : All (λ l. l.owner < b.next) b.listeners
  pub canvases : All (λ x. x < b.next) b.canvases
  pub renderers : All (λ x. x < b.next) b.renderers
