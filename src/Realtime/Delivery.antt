-- ===== src/Realtime/Delivery.antt =====
-- Subscriptions and message delivery of frontend/dashboard/src/services/websocket.ts.
use surakshanet.Base.{
  ℕ, ◌+◌, ◌≤◌, ◌≡◌, refl, String, Bool, true, false, Option, some, List, [], ◌∷◌, ◌++◌, map, arith,
  ◌==◌, ==_iff, or_else, any, count, All,
}
use surakshanet.Base.Dict
use surakshanet.Realtime.State.{Service}
use surakshanet.Realtime.Service.{add, delete, deliver, receive}

module _ {ℓ} {A : Type ℓ} (throws : ℕ → A → Bool) where
  abbrev pub QuietOn : A → ℕ → Type 0
  QuietOn x cb = throws cb x ≡ false

  pub deliver_every :
      (cbs : List ℕ) (x : A) → All (QuietOn x) cbs → deliver throws cbs x ≡ map (λ cb. (cb, x)) cbs
  unfolding deliver
  deliver_every [] x h = refl
  deliver_every (cb ∷ cbs) x (q, h) = rw (q, deliver_every cbs x h)

  deliver_until :
      (before after : List ℕ) (cb : ℕ) (x : A)
      → All (QuietOn x) before
      → throws cb x ≡ true
      → deliver throws (before ++ cb ∷ after) x ≡ map (λ c. (c, x)) (before ++ cb ∷ [])
  unfolding deliver
  deliver_until [] after cb x h t = rw t
  deliver_until (c ∷ before) after cb x (q, h) t = rw (q, deliver_until before after cb x h t)

  -- A message that parses is handed to every subscriber of its channel, in the order of
  -- subscription, if none of them throws.
  receive_every :
      (parse : String → Option A) (channel text : String) (s : Service) (x : A) (cbs : List ℕ)
      → parse text ≡ some x
      → Dict.get s.callbacks channel ≡ some cbs
      → All (QuietOn x) cbs
      → receive throws parse channel text s ≡ map (λ cb. (cb, x)) cbs
  unfolding receive
  receive_every parse channel text s x cbs p e h =
      rw (p, receive) (rw (e, receive) (deliver_every cbs x h))

  -- Where a subscriber throws, those before it and itself are handed the message, and none after it.
  pub receive_until :
      (parse : String → Option A) (channel text : String) (s : Service) (x : A)
      (before after : List ℕ) (cb : ℕ)
      → parse text ≡ some x
      → Dict.get s.callbacks channel ≡ some (before ++ cb ∷ after)
      → All (QuietOn x) before
      → throws cb x ≡ true
      → receive throws parse channel text s ≡ map (λ c. (c, x)) (before ++ cb ∷ [])
  unfolding receive
  receive_until parse channel text s x before after cb p e h t =
      rw (p, receive) (rw (e, receive) (deliver_until before after cb x h t))

-- How often a callback stands among a channel's subscribers.
abbrev pub times : ℕ → List ℕ → ℕ
times cb = count (λ c. c == cb)

abbrev pub subscribers : String → Service → List ℕ
subscribers channel s = or_else (Dict.get s.callbacks channel) []

pub times-append : (cb : ℕ) (xs ys : List ℕ) → times cb (xs ++ ys) ≡ times cb xs + times cb ys
times-append cb [] ys = omega arith
times-append cb (x ∷ xs) ys = ground (arith, times-append cb xs ys)

pub times_of_any : (cb : ℕ) (cbs : List ℕ) → any (λ c. c == cb) cbs ≡ false → times cb cbs ≡ 0
times_of_any cb [] h = refl
times_of_any cb (c ∷ cbs) h = ground (arith, times_of_any cb cbs)

pub times-add : (cb new_cb : ℕ) (cbs : List ℕ) → times cb cbs ≤ 1 → times cb (add new_cb cbs) ≤ 1
times-add cb new_cb cbs h =
    ground (arith, times-append cb cbs (new_cb ∷ []), times_of_any new_cb cbs, ==_iff new_cb cb)

pub times-delete : (cb gone : ℕ) (cbs : List ℕ) → times cb (delete gone cbs) ≤ times cb cbs
times-delete cb gone [] = omega arith
times-delete cb gone (c ∷ cbs) = ground (arith, times-delete cb gone cbs)

-- `subscribe` and then the function that it returned leave the subscribers as they were, if the
-- callback was not among them.
pub delete-add :
    (cb : ℕ) (cbs : List ℕ) → any (λ c. c == cb) cbs ≡ false → delete cb (add cb cbs) ≡ cbs
delete-add cb cbs h = rw h (gone cbs h)
  where
    gone : (xs : List ℕ) → any (λ c. c == cb) xs ≡ false → delete cb (xs ++ cb ∷ []) ≡ xs
    gone [] e = ground arith
    gone (x ∷ xs) e = ground (arith, gone xs)
