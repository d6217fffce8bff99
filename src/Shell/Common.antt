-- ===== src/Shell/Common.antt =====
-- What is shown in common: frontend/dashboard/src/components/ErrorBoundary.tsx,
-- TelemetrySourceBadge.tsx and common/StatusBadge.tsx. `View` is the type of what React shows, and `Error`
-- of what is thrown.
use surakshanet.Base.{
  ◌≡◌, refl, String, Bool, true, false, Option, none, some, List, [], ◌∷◌, str_eq, if◌then◌else◌,
}

-- The state of the boundary.
pub record Boundary (Error : Type 0) : Type 0 where
  pub has_error : Bool
  pub error : Option Error

-- What the boundary shows: its children, the fallback it was given, or its own message, whose button
-- retries.
pub data Shown (View : Type 0) : Type 0 where
  children : View → Shown View
  fallback : View → Shown View
  message : Shown View

-- The boundary over time: an error of the children, or a click to retry.
pub data Event (Error : Type 0) : Type 0 where
  throws : Error → Event Error
  retries : Event Error

module _ {Error : Type 0} where
  unfoldable pub initial : Boundary Error
  initial = record { has_error = false; error = none }

  unfoldable pub get_derived_state_from_error : Error → Boundary Error → Boundary Error
  get_derived_state_from_error e s = record { has_error = true; error = some e }

  -- `this.setState({ hasError: false })`, which keeps the error.
  unfoldable pub retry : Boundary Error → Boundary Error
  retry s = record s { has_error = false }

  unfoldable pub step : Boundary Error → Event Error → Boundary Error
  step s (throws e) = get_derived_state_from_error e s
  step s retries = retry s

  unfoldable pub run : Boundary Error → List (Event Error) → Boundary Error
  run s [] = s
  run s (e ∷ es) = run (step s e) es

-- `fallback` where it is given.
abbrev pub broken : {View : Type 0} → Option View → Shown View
broken none = message
broken (some view) = fallback view

unfoldable pub render : {View Error : Type 0} → Option View → View → Boundary Error → Shown View
render given view s = if s.has_error then broken given else children view

-- Whether the last event was an error, and before any of them.
abbrev pub failed : {Error : Type 0} → Bool → List (Event Error) → Bool
failed was [] = was
failed was (throws e ∷ es) = failed true es
failed was (retries ∷ es) = failed false es

has_error-run :
    {Error : Type 0} (s : Boundary Error) (es : List (Event Error))
    → (run s es).has_error ≡ failed s.has_error es
unfolding run step get_derived_state_from_error retry
has_error-run s [] = refl
has_error-run s (throws e ∷ es) = has_error-run (record { has_error = true; error = some e }) es
has_error-run s (retries ∷ es) = has_error-run (record s { has_error = false }) es

-- After any errors and retries the children are shown exactly when the last of these was a retry, or
-- there was none; otherwise the fallback is, or the message where none was given.
render-run :
    {View Error : Type 0} (given : Option View) (view : View) (es : List (Event Error))
    → render given view (run initial es) ≡ (if failed false es then broken given else children view)
unfolding render initial
render-run given view es = rw (has_error-run (record { has_error = false; error = none }) es) refl

pub record BadgeStyle : Type 0 where
  pub label : String
  pub bg_color : String
  pub text_color : String
  pub border_color : String
  pub dot_color : String

abbrev badge : String → String → String → String → String → BadgeStyle
badge label bg_color text_color border_color dot_color = record {
  label = label;
  bg_color = bg_color;
  text_color = text_color;
  border_color = border_color;
  dot_color = dot_color;
}

abbrev pub live_style : BadgeStyle
live_style = badge "LIVE" "bg-emerald-50" "text-emerald-700" "border-emerald-200" "bg-emerald-500"

-- `config[normSource] || config.live`; sources that are spelled like a member of every object, such as
-- "constructor", are left out.
abbrev pub config : String → BadgeStyle
config source =
    if str_eq source "live"
    then live_style
    else if str_eq source "sim"
    then badge "SIM" "bg-sky-50" "text-sky-700" "border-sky-200" "bg-sky-500"
    else if str_eq source "mock"
    then badge "MOCK" "bg-amber-50" "text-amber-700" "border-amber-200" "bg-amber-500"
    else live_style

-- `(source || 'live').toLowerCase()`, with `to_lower` for the latter.
abbrev pub norm_source : (String → String) → Option String → String
norm_source to_lower none = to_lower "live"
norm_source to_lower (some source) = to_lower (if str_eq source "" then "live" else source)

unfoldable pub telemetry_style : (String → String) → Option String → BadgeStyle
telemetry_style to_lower source = config (norm_source to_lower source)

pub data BadgeVariant : Type 0 where
  success warning error info default : BadgeVariant

unfoldable pub variant_styles : BadgeVariant → String
variant_styles success = "bg-green-100 text-green-800 border-green-200"
variant_styles warning = "bg-yellow-100 text-yellow-800 border-yellow-200"
variant_styles error = "bg-red-100 text-red-800 border-red-200"
variant_styles info = "bg-blue-100 text-blue-800 border-blue-200"
variant_styles default = "bg-gray-100 text-gray-800 border-gray-200"
