-- ===== src/Junctions/Registry.antt =====
-- What the registry of frontend/dashboard/src/pages/JunctionsPage.tsx holds.
use surakshanet.Base.{
  ℕ, suc, ◌≤◌, ◌≡◌, refl, String, true, false, List, [], ◌∷◌, ◌++◌, arith, str_eq, str_eq_of_true,
  sym, ltb, if◌then◌else◌, length, any, count, Bool-cases, inl, inr,
}
use mathlib.Core.Path.{subst}
use surakshanet.Stores.Types.{Junction}
use surakshanet.Junctions.{
  CuratedJunction, sumo_junctions, is_sumo, is_new, unique_from, with_sumo, registry,
}

any-append_last : (js : List CuratedJunction) → any is_sumo (js ++ sumo_junctions) ≡ true
any-append_last [] = refl
any-append_last (j ∷ js) = ground (arith, any-append_last js)

with_sumo-any : (js : List CuratedJunction) → any is_sumo (with_sumo js) ≡ true
with_sumo-any js = elim (Bool-cases (any is_sumo js)) [
  | inl e ↦ rw (e, e) refl
  | inr e ↦ rw e (any-append_last js)
]

-- How many junctions have a name, once trimmed.
abbrev pub named : (String → String) → String → List CuratedJunction → ℕ
named trim name = count (λ j. str_eq name (trim j.name))

-- Whether a name is new, with the reading and sensor names never so.
counted_once :
    (name x : String) (seen : List String)
    → is_new seen x ≡ true
    → str_eq name x ≡ true
    → any (str_eq name) seen ≡ false
counted_once name x seen new same =
    subst (λ n. any (str_eq n) seen ≡ false) (sym (str_eq_of_true same)) (ground arith)

module _ {F : Type 0} (trim to_lower : String → String) (to_text : ℕ → String) where
  -- Whatever the store holds, the registry has a junction of the SUMO twin, so it is never empty.
  registry_has_sumo :
      (store : List (Junction F)) → any is_sumo (registry trim to_lower to_text store) ≡ true
  unfolding registry
  registry_has_sumo [] = refl
  registry_has_sumo (j ∷ js) =
      let made : List CuratedJunction =
        with_sumo (unique_from trim to_lower to_text [] 0 (j ∷ js)) in
      elim (Bool-cases (ltb 0 (length made))) [
        | inl e ↦ rw e (with_sumo-any (unique_from trim to_lower to_text [] 0 (j ∷ js)))
        | inr e ↦ rw e refl
      ]

  unique_from-named :
      (name : String) (seen : List String) (idx : ℕ) (store : List (Junction F))
      → named trim name (unique_from trim to_lower to_text seen idx store)
        ≤ (if any (str_eq name) seen then 0 else 1)
  unique_from-named name seen idx [] = ground arith
  unique_from-named name seen idx (j ∷ js) =
      let old = unique_from-named name (trim j.name ∷ seen) (suc idx) js in
      let kept = unique_from-named name seen (suc idx) js in
      elim (Bool-cases (is_new seen (trim j.name))) [
        | inr e ↦ rw e kept
        | inl e ↦ rw e (elim (Bool-cases (str_eq name (trim j.name))) [
          | inl same ↦
              let first = counted_once name (trim j.name) seen e same in
              ground (arith, old, first, same)
          | inr other ↦ ground (arith, old, other)
        ])
      ]

  -- No two of the junctions that are taken from the store have the same name, once trimmed.
  pub unique_from_lem :
      (name : String) (idx : ℕ) (store : List (Junction F))
      → named trim name (unique_from trim to_lower to_text [] idx store) ≤ 1
  unique_from_lem name idx store = unique_from-named name [] idx store
