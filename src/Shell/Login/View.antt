-- ===== src/Shell/Login/View.antt =====
-- The markup of frontend/dashboard/src/pages/LoginPage.tsx.
use surakshanet.Base.{
  ◌≡◌, refl, String, false, List, [], ◌∷◌, ◌++◌, if◌then◌else◌, Bool-cases, inl, inr,
}
use surakshanet.Markup.{text, icon, Item, button, marks, offered}
use surakshanet.Shell.Login.{Page}

pub data Click : Type 0 where
  accesses_demo submits : Click

unfoldable pub submit_button : Page → Item Click
submit_button p = button p.is_loading submits (
    if p.is_loading
    then icon "Loader2" ∷ []
    else text "Initialize Session" ∷ icon "ArrowRight" ∷ [])

-- The values of the two fields are shown, that of the password as dots; the links have no target.
unfoldable pub view : (String → String) → Page → List (Item Click)
view dots p =
    marks (
      icon "Shield"
      ∷ text "Surakshanet"
      ∷ text "Intelligent Traffic Operations"
      ∷ text "Operator ID / Email"
      ∷ [])
    ++ (button false accesses_demo (text "Demo Access" ∷ [])
          ∷ marks (
              icon "User"
              ∷ text p.identifier
              ∷ text "Access Key"
              ∷ text "Forgot Key?"
              ∷ icon "KeyRound"
              ∷ text (dots p.password)
              ∷ text "Maintain secure session"
              ∷ [])
        ++ (submit_button p
            ∷ marks (
                text "Connection Encrypted & Secure"
                ∷ text "System Status"
                ∷ text "•"
                ∷ text "Technical Support"
                ∷ [])))

-- The form can be submitted with its button exactly while none is under way.
offered-view :
    (dots : String → String) (p : Page)
    → offered (view dots p) ≡ accesses_demo ∷ (if p.is_loading then [] else submits ∷ [])
unfolding view submit_button offered
offered-view dots p = elim (Bool-cases p.is_loading) [ inl e ↦ rw e refl | inr e ↦ rw e refl ]
