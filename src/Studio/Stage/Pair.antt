-- ===== src/Studio/Stage/Pair.antt =====
-- The two scenes of frontend/dashboard/src/pages/StudioHomePage.tsx side by side: the page mounts the globe
-- and the totem, the browser answers their requests for frames in any order, and the page is left.
use surakshanet.Base.{
  ℕ, suc, ◌<◌, ◌≡◌, refl, ap, ◌∙◌, false, not, List, [], ◌∷◌, ◌++◌, arith, ◌==◌, filter, All,
  All-filter, All-append, All-imp, Bool-cases, inl, inr,
}
use surakshanet.Studio.Stage.{
  Browser, Listener, Mounted, sphere, totem, same_listener, scene_listeners, append_canvas,
  add_listeners, request_frame, mount, without, animation_frame, remove_listeners, cleanup, IsFresh,
}
use surakshanet.Studio.Stage.Cleanup.{without-append, removed, append-nil, Left}

-- What the page has mounted.
pub record Pair : Type 0 where
  pub globe : Mounted
  pub column : Mounted
  pub browser : Browser

pub data Frame : Type 0 where
  globe_frame column_frame : Frame

unfoldable pub mount_both : Browser → Pair
mount_both b =
    let (m, b') = mount sphere b in
    let (m', b'') = mount totem b' in record { globe = m; column = m'; browser = b'' }

unfoldable pub answer : Frame → Pair → Pair
answer globe_frame p =
    let (m, b) = animation_frame (p.globe, p.browser) in record p { globe = m; browser = b }
answer column_frame p =
    let (m, b) = animation_frame (p.column, p.browser) in record p { column = m; browser = b }

unfoldable pub answer_every : List Frame → Pair → Pair
answer_every [] p = p
answer_every (f ∷ fs) p = answer_every fs (answer f p)

unfoldable pub leave : Pair → Browser
leave p = cleanup totem (p.column, cleanup sphere (p.globe, p.browser))

abbrev Below : ℕ → List ℕ → Type 0
Below n xs = All (λ x. x < n) xs

Below-suc : (n : ℕ) (xs : List ℕ) → Below n xs → Below (suc n) xs
Below-suc n xs h = All-imp (λ x. x < n) (λ x. x < suc n) xs (λ x lt. omega arith) h

Below-added : (n : ℕ) (xs : List ℕ) → Below n xs → Below (suc n) (xs ++ n ∷ [])
Below-added n xs h = All-append (λ x. x < suc n) xs (n ∷ []) (Below-suc n xs h) (omega arith, tt)

Below-without : (n x : ℕ) (xs : List ℕ) → Below n xs → Below n (without x xs)
Below-without n x xs h = All-filter (λ y. y < n) (λ y. not (y == x)) xs h

without-later : (x y : ℕ) (xs : List ℕ) → x < y → without x (xs ++ y ∷ []) ≡ without x xs ++ y ∷ []
without-later x y [] h = let differs : (y == x) ≡ false = ground arith in rw differs refl
without-later x y (z ∷ xs) h = elim (Bool-cases (z == x)) [
  | inl same ↦ rw same (without-later x y xs h)
  | inr other ↦ rw other (ap (λ zs. z ∷ zs) (without-later x y xs h))
]

without-without : (x y : ℕ) (xs : List ℕ) → without x (without y xs) ≡ without y (without x xs)
without-without x y [] = refl
without-without x y (z ∷ xs) = elim (Bool-cases (z == x)) [
  | inl a ↦ elim (Bool-cases (z == y)) [
    | inl b ↦ rw (a, b) (without-without x y xs)
    | inr b ↦ rw (a, b) (rw a (without-without x y xs))
  ]
  | inr a ↦ elim (Bool-cases (z == y)) [
    | inl b ↦ rw (a, b) (without-without x y xs)
    | inr b ↦ rw (a, b) (rw a (ap (λ zs. z ∷ zs) (without-without x y xs)))
  ]
]

-- The page is mounted in a browser that was `b`: without the two requests of its scenes there are the
-- requests of before, and its scenes have their listeners, canvases and renderers.
record IsBoth (b : Browser) (p : Pair) : Type 0 where
  globe_owner : p.globe.owner ≡ b.next
  column_owner : p.column.owner ≡ suc (suc b.next)
  globe_handle : p.globe.anim_id < p.browser.next
  column_handle : p.column.anim_id < p.browser.next
  handed : Below p.browser.next p.browser.frames
  frames : without p.column.anim_id (without p.globe.anim_id p.browser.frames) ≡ b.frames
  listeners :
      p.browser.listeners
      ≡ (b.listeners ++ scene_listeners sphere b.next) ++ scene_listeners totem (suc (suc b.next))
  canvases : p.browser.canvases ≡ (b.canvases ++ b.next ∷ []) ++ suc (suc b.next) ∷ []
  renderers : p.browser.renderers ≡ (b.renderers ++ b.next ∷ []) ++ suc (suc b.next) ∷ []

twice-without :
    (x y n : ℕ) (xs : List ℕ)
    → x < y
    → n < suc x
    → Below n xs
    → without y (without x ((xs ++ x ∷ []) ++ y ∷ [])) ≡ xs
twice-without x y n xs lt h below =
    rw (without-later x y (xs ++ x ∷ []) lt, without-append x n xs h below)
      (without-append y n xs (omega arith) below)

mount-IsBoth : (b : Browser) → IsFresh b → IsBoth b (mount_both b)
unfolding mount_both mount append_canvas add_listeners request_frame
mount-IsBoth b fresh = record {
  globe_owner = refl;
  column_owner = refl;
  globe_handle = omega arith;
  column_handle = omega arith;
  handed = Below-added (suc (suc (suc b.next))) (b.frames ++ suc b.next ∷ []) (
      Below-suc (suc (suc b.next)) (b.frames ++ suc b.next ∷ [])
        (Below-added (suc b.next) b.frames (Below-suc b.next b.frames fresh.frames)));
  frames =
      twice-without (suc b.next) (suc (suc (suc b.next))) b.next b.frames (omega arith)
        (omega arith) fresh.frames;
  listeners = refl;
  canvases = refl;
  renderers = refl;
}

globe-IsBoth : (b : Browser) (p : Pair) → IsBoth b p → IsBoth b (answer globe_frame p)
unfolding answer animation_frame request_frame
globe-IsBoth b p h =
    let n = p.browser.next in
    let rest = without p.globe.anim_id p.browser.frames in
    let below : Below n rest = Below-without n p.globe.anim_id p.browser.frames h.handed in
    record {
      globe_owner = h.globe_owner;
      column_owner = h.column_owner;
      globe_handle = omega arith;
      column_handle = omega (arith, h.column_handle);
      handed = Below-added n rest below;
      frames = rw (without-append n n rest (omega arith) below) h.frames;
      listeners = h.listeners;
      canvases = h.canvases;
      renderers = h.renderers;
    }

column-IsBoth : (b : Browser) (p : Pair) → IsBoth b p → IsBoth b (answer column_frame p)
unfolding answer animation_frame request_frame
column-IsBoth b p h =
    let n = p.browser.next in
    let x = p.globe.anim_id in
    let y = p.column.anim_id in
    let rest = without y p.browser.frames in
    let below : Below n rest = Below-without n y p.browser.frames h.handed in
    record {
      globe_owner = h.globe_owner;
      column_owner = h.column_owner;
      globe_handle = omega (arith, h.globe_handle);
      column_handle = omega arith;
      handed = Below-added n rest below;
      frames =
          ap (without n) (without-later x n rest h.globe_handle)
          ∙ without-append n n (without x rest) (omega arith) (Below-without n x rest below)
          ∙ (without-without x y p.browser.frames ∙ h.frames);
      listeners = h.listeners;
      canvases = h.canvases;
      renderers = h.renderers;
    }

answer_every-IsBoth :
    (fs : List Frame) (b : Browser) (p : Pair) → IsBoth b p → IsBoth b (answer_every fs p)
unfolding answer_every
answer_every-IsBoth [] b p h = h
answer_every-IsBoth (globe_frame ∷ fs) b p h =
    answer_every-IsBoth fs b (answer globe_frame p) (globe-IsBoth b p h)
answer_every-IsBoth (column_frame ∷ fs) b p h =
    answer_every-IsBoth fs b (answer column_frame p) (column-IsBoth b p h)

remove-append :
    (rs ls ms : List Listener)
    → remove_listeners rs (ls ++ ms) ≡ remove_listeners rs ls ++ remove_listeners rs ms
unfolding remove_listeners
remove-append [] ls ms = refl
remove-append (r ∷ rs) ls ms = rw (filter_append r ls ms) (
    remove-append rs (filter (λ l. not (same_listener l r)) ls)
      (filter (λ l. not (same_listener l r)) ms))
  where
    filter_append :
        (r : Listener) (xs ys : List Listener)
        → filter (λ l. not (same_listener l r)) (xs ++ ys)
          ≡ filter (λ l. not (same_listener l r)) xs ++ filter (λ l. not (same_listener l r)) ys
    filter_append r [] ys = refl
    filter_append r (x ∷ xs) ys = elim (Bool-cases (same_listener x r)) [
      | inl same ↦ rw same (filter_append r xs ys)
      | inr other ↦ rw other (ap (λ zs. x ∷ zs) (filter_append r xs ys))
    ]

-- The globe's listeners are not the totem's.
kept :
    (o o' : ℕ)
    → o < o'
    → remove_listeners (scene_listeners sphere o) (scene_listeners totem o')
      ≡ scene_listeners totem o'
unfolding remove_listeners
kept o o' h = let differs : (o' == o) ≡ false = ground arith in rw differs refl

both_removed :
    (o o' : ℕ) (ls : List Listener)
    → o < o'
    → All (λ l. l.owner < o) ls
    → remove_listeners (scene_listeners totem o') (
        remove_listeners
          (scene_listeners sphere o)
          ((ls ++ scene_listeners sphere o) ++ scene_listeners totem o'))
      ≡ ls
both_removed o o' ls lt all =
    rw
      (
        remove-append (scene_listeners sphere o) (ls ++ scene_listeners sphere o)
            (scene_listeners totem o'),
        removed sphere o ls all,
        kept o o' lt,
        append-nil ls,
        removed totem o' ls
            (All-imp (λ l. l.owner < o) (λ l. l.owner < o') ls (λ l k. omega arith) all),
      )
      (append-nil ls)

-- However the browser interleaves the frames of the two scenes, once the page is left the requests for
-- frames, the listeners, the canvases and the renderers are those from before it was mounted.
pub leave_restores :
    (b : Browser) (fs : List Frame) → IsFresh b → Left b (leave (answer_every fs (mount_both b)))
unfolding leave cleanup
leave_restores b fs fresh =
    let h = answer_every-IsBoth fs b (mount_both b) (mount-IsBoth b fresh) in
    rw (h.globe_owner, h.column_owner, h.listeners, h.canvases, h.renderers)
      (
        h.frames,
        both_removed b.next (suc (suc b.next)) b.listeners (omega arith) fresh.listeners,
        twice-without b.next (suc (suc b.next)) b.next b.canvases (omega arith) (omega arith)
            fresh.canvases,
        twice-without b.next (suc (suc b.next)) b.next b.renderers (omega arith) (omega arith)
            fresh.renderers,
      )
