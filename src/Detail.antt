-- ===== src/Detail.antt =====
-- frontend/dashboard/src/pages/JunctionDetailPage.tsx: the page of one junction. Toasts are given as
-- their texts; what the server sends is an argument.
pub mod Countdown
pub mod View
mod Tests
use surakshanet.Base.{
  ℕ, ◌-◌, String, Bool, true, false, Option, none, some, List, [], ◌∷◌, str_eq, ltb, if◌then◌else◌,
  find?, ◌<>◌,
}
use surakshanet.Stores.Types.{Junction}

pub data ApproachDirection : Type 0 where
  north east south west : ApproachDirection

pub data Arrow : Type 0 where
  down left up right : Arrow

pub data Status : Type 0 where
  normal flowing congested high_vol : Status

pub record Share : Type 0 where
  pub kind : String
  pub percent : ℕ
  pub color : String

pub record ApproachData : Type 0 where
  pub direction : ApproachDirection
  pub label : String
  pub icon : Arrow
  pub status : Status
  pub pcu : ℕ
  pub breakdown : List Share
  pub queue_length : ℕ
  pub speed : ℕ

abbrev breakdown : ℕ → ℕ → ℕ → List Share
breakdown cars two_wheelers buses =
    record { kind = "CAR"; percent = cars; color = "bg-blue-500" }
    ∷ record { kind = "2W"; percent = two_wheelers; color = "bg-orange-400" }
    ∷ record { kind = "BUS"; percent = buses; color = "bg-purple-500" }
    ∷ []

abbrev pub default_approaches : List ApproachData
default_approaches =
    record {
      direction = north;
      label = "North Bound (Vikas Marg)";
      icon = down;
      status = high_vol;
      pcu = 342;
      breakdown = breakdown 60 30 10;
      queue_length = 45;
      speed = 22;
    }
    ∷ record {
      direction = east;
      label = "East Bound (Inner Circle)";
      icon = left;
      status = flowing;
      pcu = 184;
      breakdown = breakdown 45 45 10;
      queue_length = 12;
      speed = 38;
    }
    ∷ record {
      direction = south;
      label = "South Bound (Mathura Rd)";
      icon = up;
      status = normal;
      pcu = 245;
      breakdown = breakdown 55 40 5;
      queue_length = 28;
      speed = 28;
    }
    ∷ record {
      direction = west;
      label = "West Bound (Ring Road)";
      icon = right;
      status = congested;
      pcu = 412;
      breakdown = breakdown 70 20 10;
      queue_length = 85;
      speed = 12;
    }
    ∷ []

-- What the page knows of its junction: nothing, a junction of the store, what the server sent for the
-- id, or a name of its own.
pub data JunctionInfo (F D : Type 0) : Type 0 where
  unknown : JunctionInfo F D
  stored : Junction F → JunctionInfo F D
  sent : D → JunctionInfo F D
  unnamed : String → JunctionInfo F D

pub record Page (F D : Type 0) : Type 0 where
  pub countdown : ℕ
  pub junction_data : JunctionInfo F D
  pub signal_plan : Option D
  pub approaches : List ApproachData

module _ {F D : Type 0} where
  unfoldable pub initial : Page F D
  initial = record {
    countdown = 14;
    junction_data = unknown;
    signal_plan = none;
    approaches = default_approaches;
  }

  -- The junction of the route's id: from the store, or from what `getById` brings, none for an error.
  unfoldable pub resolve : Option String → List (Junction F) → Option D → Page F D → Page F D
  resolve none store answer p = p
  resolve (some id) store answer p = elim (find? (λ j. str_eq j.id id) store) [
    | some j ↦ record p { junction_data = stored j }
    | none ↦ if str_eq id "" then p else elim answer [
      | some d ↦ record p { junction_data = sent d }
      | none ↦ record p { junction_data = unnamed id }
    ]
  ]

  unfoldable pub on_plan : Option D → Page F D → Page F D
  on_plan none p = p
  on_plan (some plan) p = record p { signal_plan = some plan }

  -- One second.
  unfoldable pub tick : Page F D → Page F D
  tick p = record p { countdown = if ltb 0 p.countdown then p.countdown - 1 else 35 }

pub data Effect : Type 0 where
  override : String → String → Effect
  succeeds : String → Effect

-- What a quick action does, in order; `accepted` says whether the server's answer is a success.
unfoldable pub handle_quick_action : String → Option String → Bool → List Effect
handle_quick_action action id accepted =
    if str_eq action "sync"
    then succeeds "Edge node config synchronized with master coordinator." ∷ []
    else if str_eq action "flash"
    then flash id
    else succeeds ("Action executed: " <> action) ∷ []
  where
    flash : Option String → List Effect
    flash none = []
    flash (some i) =
        if str_eq i ""
        then []
        else if accepted
        then override i "FLASH_ALL_RED"
          ∷ succeeds "EMERGENCY ALL-RED override engaged on junction controller!"
          ∷ []
        else override i "FLASH_ALL_RED" ∷ succeeds "ALL-RED override engaged locally." ∷ []
