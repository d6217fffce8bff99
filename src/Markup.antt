-- ===== src/Markup.antt =====
-- What a component of frontend/dashboard/src shows: the texts, the icons, the bars and the controls of
-- its markup, in the order of the document. How they are nested is left out, and so are the class names
-- that do not depend on the state; those that do are tones.
use surakshanet.Base.{
  ℕ, ◌≡◌, refl, sym, ap, ◌∙◌, String, Bool, true, false, List, [], ◌∷◌, ◌++◌, map,
}

pub data Mark : Type 0 where
  text icon tone : String → Mark
  -- a bar, with its width in percent
  bar : ℕ → Mark

pub data Item (E : Type 0) : Type 0 where
  mark : Mark → Item E
  -- a button: whether it is disabled, what a click on it does, and what it shows
  button : Bool → E → List Mark → Item E

module _ {E : Type 0} where
  abbrev pub marks : List Mark → List (Item E)
  marks ms = map mark ms

  abbrev pub texts : List String → List (Item E)
  texts ss = map (λ s. mark (text s)) ss

  abbrev pub offered_by : Item E → List E
  offered_by (mark m) = []
  offered_by (button true e ms) = []
  offered_by (button false e ms) = e ∷ []

  -- What can be done with a component: the buttons that are enabled.
  unfoldable pub offered : List (Item E) → List E
  offered [] = []
  offered (i ∷ is) = offered_by i ++ offered is

  append_assoc : (xs ys zs : List E) → (xs ++ ys) ++ zs ≡ xs ++ (ys ++ zs)
  append_assoc [] ys zs = refl
  append_assoc (x ∷ xs) ys zs = ap (λ l. x ∷ l) (append_assoc xs ys zs)

  pub offered-append : (is js : List (Item E)) → offered (is ++ js) ≡ offered is ++ offered js
  unfolding offered
  offered-append [] js = refl
  offered-append (i ∷ is) js =
      ap (λ l. offered_by i ++ l) (offered-append is js)
      ∙ sym (append_assoc (offered_by i) (offered is) (offered js))

  -- Marks offer nothing.
  pub offered-marks : (ms : List Mark) (is : List (Item E)) → offered (marks ms ++ is) ≡ offered is
  unfolding offered
  offered-marks [] is = refl
  offered-marks (m ∷ ms) is = offered-marks ms is

-- The items of every element of a list, one after the other.
abbrev pub each : {A E : Type 0} → (A → List (Item E)) → List A → List (Item E)
each f [] = []
each f (x ∷ xs) = f x ++ each f xs

-- The same item, where a click on it means something else.
abbrev pub relabel : {A B : Type 0} → (A → B) → Item A → Item B
relabel f (mark m) = mark m
relabel f (button disabled e ms) = button disabled (f e) ms

pub offered-relabel :
    {A B : Type 0} (f : A → B) (is : List (Item A))
    → offered (map (relabel f) is) ≡ map f (offered is)
unfolding offered
offered-relabel f [] = refl
offered-relabel f (mark m ∷ is) = offered-relabel f is
offered-relabel f (button true e ms ∷ is) = offered-relabel f is
offered-relabel f (button false e ms ∷ is) = ap (λ es. f e ∷ es) (offered-relabel f is)
