-- ===== src/Junctions/Tests.antt =====
-- The registry at concrete inputs.
use surakshanet.Base.{ℕ, ◌≡◌, ◌≤◌, refl, true, String, List, [], ◌∷◌, length, map}
use surakshanet.Stores.Types.{Junction}
use surakshanet.Junctions.{
  all, sumo_twin, sumo_junctions, CuratedJunction, curate, registry, unique_from,
  filtered_junctions, only, marl_active, delhi_ncr, default_curated_junctions, total_count,
  marl_count, congested_count,
}
use surakshanet.Junctions.Registry.{named, unique_from_lem}

abbrev stored : String → Junction ℕ
stored name = record {
  id = "id";
  name = name;
  latitude = 0;
  longitude = 0;
  num_approaches = 0;
  is_active = true;
  created_at = "2026-01-01";
}

abbrev store : List (Junction ℕ)
store = stored "MG Road" ∷ stored "Sensor 4" ∷ stored "MG Road" ∷ stored "Lodhi Road" ∷ []

abbrev one : ℕ → String
one n = "1"

abbrev same : String → String
same s = s

made_codes :
    map (λ (j : CuratedJunction). j.code) (registry same same one store)
    ≡ "BLR-01" ∷ "DEL-01" ∷ "SUMO-J0" ∷ "SUMO-J1" ∷ "SUMO-J2" ∷ "SUMO-J3" ∷ []
unfolding registry
made_codes = refl

two_active :
    length
      (filtered_junctions same "" (only marl_active) (only delhi_ncr) default_curated_junctions)
    ≡ 2
unfolding filtered_junctions
two_active = refl

counted :
    (total_count default_curated_junctions ≡ 16)
    × (marl_count default_curated_junctions ≡ 7)
    × (congested_count default_curated_junctions ≡ 4)
unfolding total_count marl_count congested_count
counted = (refl, refl, refl)

ninth : (curate same same one 8 (stored "Lodhi Road")).pcu ≡ 284
ninth = refl

unique_from_lem_example : named same "MG Road" (unique_from same same one [] 0 store) ≤ 1
unique_from_lem_example = unique_from_lem same same one "MG Road" 0 store

abbrev number : ℕ → String
number n = "12"

abbrev lower : String → String
lower s = s

one_card : length (filtered_junctions lower "Gateway" all (only sumo_twin) sumo_junctions) ≡ 1
unfolding filtered_junctions
one_card = refl
