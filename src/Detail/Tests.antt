-- ===== src/Detail/Tests.antt =====
-- The page of a junction at concrete inputs.
use surakshanet.Base.{ℕ, ◌≤◌, arith, ◌≡◌, refl, none, some, []}
use surakshanet.Detail.{Page, initial, resolve, tick, on_plan, unnamed}
use surakshanet.Detail.Countdown.{ticks}

abbrev page : Page ℕ ℕ
page = on_plan (some 3) (resolve (some "J9") [] none initial)

page_name : page.junction_data ≡ unnamed "J9"
unfolding resolve on_plan initial
page_name = refl

page_wraps : (ticks 15 page).countdown ≡ 35
unfolding ticks tick resolve on_plan initial
page_wraps = refl

page_fits : page.countdown ≤ 35
unfolding resolve on_plan initial
page_fits = omega arith
