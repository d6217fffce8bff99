-- ===== src/Shell/Login/Settled.antt =====
-- How the login page of frontend/dashboard/src/pages/LoginPage.tsx ends, over any events.
use surakshanet.Base.{
  ℕ, zero, suc, ◌+◌, ◌≡◌, ◌≤◌, refl, String, Bool, true, false, Option, none, some, List, [], ◌∷◌,
  ◌++◌, arith, if◌then◌else◌, get_elem?, is_some, or_else, length, Bool-cases, Option-cases, inl,
  inr, ap, ◌∙◌, drop_at, not, ◌&&◌, str_eq, length-append,
}
use mathlib.Core.Bool.{false≢true}
use surakshanet.Stores.Session.{Session, LoginData, login_succeeds, login_fails}
use surakshanet.Shell.Routes.{home}
use surakshanet.Shell.Login.{
  Page, initial, handle_submit, submit_click, handle_demo_access, demo_fires, login, submit_fires,
  navigate, after_login, request_answered, Event, types_identifier, types_password, submits,
  accesses_demo, demo_timeout, submit_timeout, answered, step, run,
}

-- The submits that are not settled: their timeout has not fired, or their request is not answered.
abbrev pub waiting : Page → ℕ
waiting p = length p.submits + length p.requests

-- Whether the request succeeded, for an event that answers one.
abbrev pub verdict : Page → Event → Option Bool
verdict p (answered i answer) =
    if is_some (get_elem? p.requests i) then some (is_some answer) else none
verdict p _ = none

abbrev pub later : Option Bool → Option Bool → Option Bool
later v none = v
later v (some b) = some b

-- Whether the request that was answered last succeeded, after some events and before them `v`.
abbrev pub last_verdict : Option Bool → Page → List Event → Option Bool
last_verdict v p [] = v
last_verdict v p (e ∷ es) = last_verdict (later v (verdict p e)) (step p e) es

-- What the page shows of the last verdict, for a session that began signed in or not.
record Told (before : Bool) (v : Option Bool) (p : Page) : Type 0 where
  pub loads : p.is_loading ≡ true → 1 ≤ waiting p
  pub there : p.location ≡ (if is_some v then some home else none)
  pub signed : p.session.auth.is_authenticated ≡ or_else v before

same-Told :
    (before : Bool) (v : Option Bool) (p q : Page)
    → q.location ≡ p.location
    → q.session ≡ p.session
    → (q.is_loading ≡ true → 1 ≤ waiting q)
    → Told before v p
    → Told before v q
same-Told before v p q l s loads t = record {
  loads = loads;
  there = l ∙ t.there;
  signed = ap (λ u. u.auth.is_authenticated) s ∙ t.signed;
}

-- A submit waits.
handle_submit-waiting : (p : Page) → 1 ≤ waiting (handle_submit p)
unfolding handle_submit
handle_submit-waiting p = omega (arith, length-append p.submits ((p.identifier, p.password) ∷ []))

submit_click-Told :
    (before : Bool) (v : Option Bool) (p : Page) → Told before v p → Told before v (submit_click p)
unfolding submit_click
submit_click-Told before v p t =
    elim (Bool-cases
      (not p.is_loading && not (str_eq p.identifier "") && not (str_eq p.password ""))) [
        | inl e ↦ rw e (
            same-Told before v p (handle_submit p) (unfold handle_submit in refl)
              (unfold handle_submit in refl) (λ l. handle_submit-waiting p) t)
        | inr e ↦ rw e t
      ]

demo_fires-Told :
    (before : Bool) (v : Option Bool) (p : Page) → Told before v p → Told before v (demo_fires p)
unfolding demo_fires
demo_fires-Told before v p t = by_demos p.demos
  where
    by_demos :
        (n : ℕ)
        → Told before v (elim n [ zero ↦ p | suc m ↦ handle_submit (record p { demos = m }) ])
    by_demos zero = t
    by_demos (suc m) =
        let q : Page = record p { demos = m } in
        same-Told before v p (handle_submit q) (unfold handle_submit in refl)
          (unfold handle_submit in refl) (λ l. handle_submit-waiting q) t

submit_fires-Told :
    (before : Bool) (v : Option Bool) (p : Page) → Told before v p → Told before v (submit_fires p)
unfolding submit_fires
submit_fires-Told before v p t = by_submits p.submits t.loads
  where
    by_submits :
        (ss : List (String × String))
        → (p.is_loading ≡ true → 1 ≤ length ss + length p.requests)
        → Told before v (elim ss [
          | [] ↦ p
          | submit ∷ rest ↦ record p { submits = rest; requests = p.requests ++ submit ∷ [] }
        ])
    by_submits [] loads = t
    by_submits (submit ∷ rest) loads =
        same-Told before v p (record p { submits = rest; requests = p.requests ++ submit ∷ [] })
          refl refl (λ l. omega (arith, length-append p.requests (submit ∷ []))) t

request_answered-Told :
    (before : Bool) (v : Option Bool) (i : ℕ) (answer : Option LoginData) (p : Page)
    → Told before v p
    → Told before (later v (verdict p (answered i answer))) (request_answered i answer p)
unfolding request_answered after_login login navigate login_succeeds login_fails
request_answered-Told before v i answer p t = elim (Option-cases (get_elem? p.requests i)) [
  | inl e ↦ rw (request_answered, e) t
  | inr (request, e) ↦ rw (request_answered, e) (by_answer answer)
]
  where
    q : Page
    q = record p { requests = drop_at i p.requests }

    by_answer :
        (a : Option LoginData)
        → Told before
            (some (is_some a))
            (record (after_login (login a p.session) q) { is_loading = false })
    by_answer none = record { loads = λ l. absurd (false≢true l); there = refl; signed = refl }
    by_answer (some d) = record { loads = λ l. absurd (false≢true l); there = refl; signed = refl }

step-Told :
    (before : Bool) (v : Option Bool) (p : Page) (e : Event)
    → Told before v p
    → Told before (later v (verdict p e)) (step p e)
unfolding step
step-Told before v p (types_identifier text) t = record {
  loads = t.loads;
  there = t.there;
  signed = t.signed;
}
step-Told before v p (types_password text) t = record {
  loads = t.loads;
  there = t.there;
  signed = t.signed;
}
step-Told before v p submits t = submit_click-Told before v p t
step-Told before v p accesses_demo t =
    unfold handle_demo_access in record { loads = t.loads; there = t.there; signed = t.signed }
step-Told before v p demo_timeout t = demo_fires-Told before v p t
step-Told before v p submit_timeout t = submit_fires-Told before v p t
step-Told before v p (answered i answer) t = request_answered-Told before v i answer p t

run-Told :
    (before : Bool) (v : Option Bool) (p : Page) (es : List Event)
    → Told before v p
    → Told before (last_verdict v p es) (run p es)
unfolding run
run-Told before v p [] t = t
run-Told before v p (e ∷ es) t =
    run-Told before (later v (verdict p e)) (step p e) es (step-Told before v p e t)

-- Whatever is typed, clicked and answered, in any order: once no submit waits for its timeout or for its
-- answer, the page is not loading; it has navigated to `/app` exactly if some login request was
-- answered, be it with an error; and somebody is signed in exactly if the last answer was a success, or
-- as before if there was none.
pub login_settles :
    (session : Session) (es : List Event)
    → waiting (run (initial session) es) ≡ 0
    → let p = run (initial session) es in
      let v = last_verdict none (initial session) es in
      (p.is_loading ≡ false)
      × (p.location ≡ (if is_some v then some home else none))
      × (p.session.auth.is_authenticated ≡ or_else v session.auth.is_authenticated)
login_settles session es settled =
    let t =
      run-Told session.auth.is_authenticated none (initial session) es
        (record { loads = λ l. absurd (false≢true l); there = refl; signed = refl }) in
    (
      elim (Bool-cases (run (initial session) es).is_loading) [
        | inl e ↦ absurd (omega (arith, settled, t.loads e))
        | inr e ↦ e
      ],
      t.there,
      t.signed,
    )
