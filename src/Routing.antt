-- ===== src/Routing.antt =====
-- frontend/dashboard/src/pages/RoutingPage.tsx: routes between junctions, and messages to the panels.
-- `F` is the type of coordinates and `D` of a route that the server sends; `trim` and `to_upper` are the
-- methods of a string, and `suffix` is `Date.now().toString().slice(-4)`.
pub mod Panels
pub mod View
mod Tests
use surakshanet.Base.{
  String, Bool, true, false, not, ◌&&◌, ◌||◌, Option, none, some, List, [], ◌∷◌, str_eq,
  if◌then◌else◌, find?, ◌<>◌,
}
use surakshanet.Stores.Types.{Junction}

pub record BroadcastItem : Type 0 where
  pub id : String
  pub panel_cluster : String
  pub line1 : String
  pub line2 : String
  pub priority : String
  pub status : String
  pub time : String

-- A route: what the server sent, or the answer that the page falls back to.
pub data RouteResult (D : Type 0) : Type 0 where
  route : D → RouteResult D
  fallback : List String → String → String → String → RouteResult D

pub record Page (D : Type 0) : Type 0 where
  pub origin_id : String
  pub dest_id : String
  pub is_calculating : Bool
  pub route_result : Option (RouteResult D)
  pub cluster : String
  pub line1 : String
  pub line2 : String
  pub priority : String
  pub broadcasts : List BroadcastItem

abbrev pub first_broadcasts : List BroadcastItem
first_broadcasts =
    record {
      id = "vms-101";
      panel_cluster = "Cluster A (North Corridor) [4 Panels]";
      line1 = "HEAVY TRAFFIC AHEAD";
      line2 = "USE ALT ROUTE - RING ROAD";
      priority = "HIGH";
      status = "ACTIVE";
      time = "10m ago";
    }
    ∷ record {
      id = "vms-102";
      panel_cluster = "Cluster B (South Corridor) [2 Panels]";
      line1 = "ACCIDENT CLEARED";
      line2 = "RESUME NORMAL SPEED";
      priority = "NORMAL";
      status = "EXPIRED";
      time = "1h ago";
    }
    ∷ []

-- A request to the server.
pub data Request (F : Type 0) : Type 0 where
  get_route : F → F → F → F → Request F
  broadcast_vms : String → String → String → String → Request F

abbrev pub or_first : String → String → String
or_first id first = if str_eq id "" then first else id

module _ {D : Type 0} where
  unfoldable pub initial : Page D
  initial = record {
    origin_id = "";
    dest_id = "";
    is_calculating = false;
    route_result = none;
    cluster = "Cluster A (North Corridor) [4 Panels]";
    line1 = "HEAVY TRAFFIC AHEAD";
    line2 = "USE ALT ROUTE - RING ROAD";
    priority = "HIGH";
    broadcasts = first_broadcasts;
  }

  -- The effect of the store's junctions: where it has two, they fill what is not chosen yet.
  unfoldable pub on_junctions : {F : Type 0} → List (Junction F) → Page D → Page D
  on_junctions [] p = p
  on_junctions (j ∷ []) p = p
  on_junctions (j ∷ k ∷ js) p = record p {
    origin_id = or_first p.origin_id j.id;
    dest_id = or_first p.dest_id k.id;
  }

  unfoldable pub calculate_starts : Page D → Page D
  calculate_starts p = record p { is_calculating = true }

  -- The end of `handleCalculate`, with what `getRoute` brings, none for an error. The distance of the
  -- fallback is 8.9 and its duration 12.4.
  unfoldable pub calculate_ends : Option D → Page D → Page D
  calculate_ends (some found) p = record p {
    route_result = some (route found);
    is_calculating = false;
  }
  calculate_ends none p = record p {
    route_result =
        some (fallback ("DEL-CP-01" ∷ "DEL-ITO-02" ∷ "DEL-ASH-04" ∷ []) "8.9" "12.4" "MODERATE");
    is_calculating = false;
  }

-- The coordinates of a junction, or where the page starts.
abbrev pub latitude_of : {F : Type 0} → F → Option (Junction F) → F
latitude_of start none = start
latitude_of start (some j) = j.latitude

abbrev pub longitude_of : {F : Type 0} → F → Option (Junction F) → F
longitude_of start none = start
longitude_of start (some j) = j.longitude

-- The request of `handleCalculate`; `start` and `end` are the coordinates where there is no junction.
unfoldable pub calculate_request :
    {F D : Type 0} → F × F → F × F → List (Junction F) → Page D → Request F
calculate_request start end store p =
    get_route (latitude_of start.0 (find? (λ j. str_eq j.id p.origin_id) store))
      (longitude_of start.1 (find? (λ j. str_eq j.id p.origin_id) store))
      (latitude_of end.0 (find? (λ j. str_eq j.id p.dest_id) store))
      (longitude_of end.1 (find? (λ j. str_eq j.id p.dest_id) store))

module _ {D : Type 0} (trim to_upper : String → String) where
  abbrev pub new_broadcast : String → Page D → BroadcastItem
  new_broadcast suffix p = record {
    id = "vms-" <> suffix;
    panel_cluster = p.cluster;
    line1 = to_upper p.line1;
    line2 = to_upper p.line2;
    priority = p.priority;
    status = "ACTIVE";
    time = "Just now";
  }

  abbrev pub is_blank : Page D → Bool
  is_blank p = str_eq (trim p.line1) "" || str_eq (trim p.line2) ""

  -- `accepted` says whether the server's answer is a success. The handler returns its requests.
  unfoldable pub handle_broadcast :
      {F : Type 0} → String → Bool → Page D → Page D × List (Request F)
  handle_broadcast suffix accepted p =
      let request = broadcast_vms p.cluster (to_upper p.line1) (to_upper p.line2) p.priority ∷ [] in
      if is_blank p
      then (p, [])
      else if accepted
      then (record p { broadcasts = new_broadcast suffix p ∷ p.broadcasts }, request)
      else (record p { broadcasts = new_broadcast suffix p ∷ p.broadcasts }, request)
