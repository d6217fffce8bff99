-- ===== src/Junctions.antt =====
-- frontend/dashboard/src/pages/JunctionsPage.tsx: the registry of junctions that the page makes of the
-- store's, and its filters. `trim` and `to_lower` are the methods of a string, `to_text` is the text of
-- a number.
pub mod Registry
pub mod View
pub mod Cards
mod Tests
use surakshanet.Base.{
  ℕ, zero, suc, ◌+◌, ◌*◌, ◌%◌, String, Bool, true, false, not, ◌&&◌, ◌||◌, List, [], ◌∷◌, ◌++◌,
  str_eq, ltb, ◌==◌, if◌then◌else◌, length, filter, any, ◌<>◌, includes, starts_with,
}
use surakshanet.Stores.Types.{Junction}

pub data Status : Type 0 where
  normal congested marl_active offline : Status

pub data City : Type 0 where
  delhi_ncr bangalore sumo_twin : City

pub record CuratedJunction : Type 0 where
  pub id : String
  pub name : String
  pub city : City
  pub code : String
  pub status : Status
  pub pcu : ℕ
  pub speed : ℕ
  pub queue : ℕ
  pub approaches : ℕ

abbrev curated : String → String → City → String → Status → ℕ → ℕ → ℕ → CuratedJunction
curated id name city code status pcu speed queue = record {
  id = id;
  name = name;
  city = city;
  code = code;
  status = status;
  pcu = pcu;
  speed = speed;
  queue = queue;
  approaches = 4;
}

-- The four junctions of the SUMO twin, which stand in the defaults and are added where there are none.
abbrev pub sumo_junctions : List CuratedJunction
sumo_junctions =
    curated "J0" "Corridor Junction J0 (West Gateway)" sumo_twin "SUMO-J0" marl_active 295 34 11
    ∷ curated "J1" "Corridor Junction J1 (Central Sector)" sumo_twin "SUMO-J1" marl_active 320 28 15
    ∷ curated "J2" "Corridor Junction J2 (Hospital Crossing)" sumo_twin "SUMO-J2" marl_active 285 31
        12
    ∷ curated "J3" "Corridor Junction J3 (East Arterial Merge)" sumo_twin "SUMO-J3" marl_active 345
        26 20
    ∷ []

abbrev pub default_curated_junctions : List CuratedJunction
default_curated_junctions =
    curated "DEL-CP-01" "Connaught Place Outer Circle" delhi_ncr "DEL-01" marl_active 342 28 12
    ∷ curated "DEL-ITO-02" "ITO Crossing - Vikas Marg" delhi_ncr "DEL-02" congested 512 14 85
    ∷ curated "DEL-AIIMS-03" "AIIMS Flyover - Ring Road" delhi_ncr "DEL-03" marl_active 289 32 8
    ∷ curated "DEL-ASH-04" "Ashram Chowk - Mathura Road" delhi_ncr "DEL-04" congested 645 8 120
    ∷ curated "DEL-DHK-05" "Dhaula Kuan Interchange" delhi_ncr "DEL-05" normal 198 42 5
    ∷ curated "DEL-LAJ-06" "Lajpat Nagar Ring Road" delhi_ncr "DEL-06" normal 267 35 15
    ∷ curated "DEL-ISBT-07" "Kashmere Gate ISBT" delhi_ncr "DEL-07" congested 472 18 76
    ∷ curated "DEL-NZM-08" "Hazrat Nizamuddin West" delhi_ncr "DEL-08" normal 389 29 22
    ∷ curated "BLR-MGR-01" "MG Road - Brigade Junction" bangalore "BLR-01" marl_active 342 28 12
    ∷ curated "BLR-SLK-02" "Silk Board Junction" bangalore "BLR-02" congested 680 7 140
    ∷ curated "BLR-IND-03" "Indiranagar 100ft Road" bangalore "BLR-03" normal 240 34 14
    ∷ curated "BLR-KOR-04" "Koramangala Sony World Signal" bangalore "BLR-04" normal 310 29 18
    ∷ sumo_junctions

abbrev pub is_sumo : CuratedJunction → Bool
is_sumo j = elim j.city [ sumo_twin ↦ true | delhi_ncr ↦ false | bangalore ↦ false ]

abbrev pub city_name : City → String
city_name delhi_ncr = "Delhi NCR"
city_name bangalore = "Bangalore"
city_name sumo_twin = "SUMO Twin"

abbrev pub code_prefix : City → String
code_prefix delhi_ncr = "DEL"
code_prefix bangalore = "BLR"
code_prefix sumo_twin = "SUMO"

-- `statuses[idx % 3]`
abbrev pub seeded_status : ℕ → Status
seeded_status idx = if idx % 3 == 0 then normal else if idx % 3 == 1 then congested else marl_active

abbrev pub city_of : (String → String) → String → City
city_of to_lower name =
    if includes (to_lower name) "sumo"
      || starts_with name "J0"
      || starts_with name "J1"
      || starts_with name "J2"
      || starts_with name "J3"
    then sumo_twin
    else if includes name "MG Road"
        || includes name "Silk Board"
        || includes name "Indiranagar"
        || includes name "Koramangala"
    then bangalore
    else delhi_ncr

-- `String(idx + 1).padStart(2, '0')`
abbrev pub padded : (ℕ → String) → ℕ → String
padded to_text n = if ltb n 10 then "0" <> to_text n else to_text n

abbrev pub is_new : List String → String → Bool
is_new seen name =
    not (any (str_eq name) seen)
    && not (starts_with name "Reading")
    && not (starts_with name "Sensor")

abbrev pub with_sumo : List CuratedJunction → List CuratedJunction
with_sumo js = if any is_sumo js then js else js ++ sumo_junctions

module _ {F : Type 0} (trim to_lower : String → String) (to_text : ℕ → String) where
  abbrev pub curate : ℕ → Junction F → CuratedJunction
  curate idx j = record {
    id = j.id;
    name = j.name;
    city = city_of to_lower (trim j.name);
    code = code_prefix (city_of to_lower (trim j.name)) <> ("-" <> padded to_text (idx + 1));
    status = seeded_status idx;
    pcu = 260 + idx * 43 % 320;
    speed = 18 + idx * 7 % 25;
    queue = 10 + idx * 13 % 70;
    approaches = if j.num_approaches == 0 then 4 else j.num_approaches;
  }

  -- The loop over the store's junctions, from index `idx` on, with the names seen so far.
  abbrev pub unique_from : List String → ℕ → List (Junction F) → List CuratedJunction
  unique_from seen idx [] = []
  unique_from seen idx (j ∷ js) =
      let with_it = unique_from (trim j.name ∷ seen) (suc idx) js in
      let without_it = unique_from seen (suc idx) js in
      if is_new seen (trim j.name) then curate idx j ∷ with_it else without_it

  unfoldable pub registry : List (Junction F) → List CuratedJunction
  registry [] = default_curated_junctions
  registry (j ∷ js) =
      let made = with_sumo (unique_from [] 0 (j ∷ js)) in
      if ltb 0 (length made) then made else default_curated_junctions

-- The filters: a search, a status or all, a city or all.
pub data Wanted (A : Type 0) : Type 0 where
  all : Wanted A
  only : A → Wanted A

abbrev pub same_status : Status → Status → Bool
same_status normal normal = true
same_status congested congested = true
same_status marl_active marl_active = true
same_status offline offline = true
same_status _ _ = false

abbrev pub same_city : City → City → Bool
same_city delhi_ncr delhi_ncr = true
same_city bangalore bangalore = true
same_city sumo_twin sumo_twin = true
same_city _ _ = false

abbrev pub matches :
    (to_lower : String → String) → String → Wanted Status → Wanted City → CuratedJunction → Bool
matches to_lower search status city j =
    (includes (to_lower j.name) (to_lower search)
      || includes (to_lower j.code) (to_lower search)
      || includes (to_lower (city_name j.city)) (to_lower search))
    && elim status [ all ↦ true | only s ↦ same_status j.status s ]
    && elim city [ all ↦ true | only c ↦ same_city j.city c ]

unfoldable pub filtered_junctions :
    (String → String)
    → String
    → Wanted Status
    → Wanted City
    → List CuratedJunction
    → List CuratedJunction
filtered_junctions to_lower search status city js = filter (matches to_lower search status city) js

unfoldable pub status_badge : Status → String
status_badge normal = "bg-emerald-50 text-emerald-700 border-emerald-200"
status_badge congested = "bg-red-50 text-red-700 border-red-200"
status_badge marl_active = "bg-teal-50 text-teal-700 border-teal-200 font-semibold"
status_badge offline = "bg-slate-100 text-slate-600 border-slate-200"

-- The `default` of the code is for no city of the type.
unfoldable pub city_badge : City → String
city_badge delhi_ncr = "bg-blue-50 text-blue-700 border-blue-200"
city_badge bangalore = "bg-purple-50 text-purple-700 border-purple-200"
city_badge sumo_twin = "bg-teal-50 text-teal-700 border-teal-200"

unfoldable pub total_count : List CuratedJunction → ℕ
total_count js = length js

unfoldable pub marl_count : List CuratedJunction → ℕ
marl_count js = length (filter (λ j. same_status j.status marl_active) js)

unfoldable pub congested_count : List CuratedJunction → ℕ
congested_count js = length (filter (λ j. same_status j.status congested) js)
