-- ===== src/Pages/Users.antt =====
-- frontend/dashboard/src/pages/UserManagementPage.tsx. The buttons have no handler. The initials of a
-- name, `name.split(' ').map(n => n[0]).join('')`, are an argument.
use surakshanet.Base.{String, false, List, [], ◌∷◌, ◌++◌}
use surakshanet.Markup.{text, icon, tone, Item, button, marks, each}

pub data Role : Type 0 where
  admin operator viewer : Role

pub data Status : Type 0 where
  active inactive : Status

pub record User : Type 0 where
  pub id : String
  pub name : String
  pub email : String
  pub role : Role
  pub status : Status
  pub joined : String

abbrev pub user : String → String → String → Role → Status → String → User
user id name email role status joined = record {
  id = id;
  name = name;
  email = email;
  role = role;
  status = status;
  joined = joined;
}

abbrev pub mock_users : List User
mock_users =
    user "1" "Alok Sharma" "alok.s@surakshanet.in" admin active "Oct 12, 2025"
    ∷ user "2" "Priya Singh" "priya.singh@surakshanet.in" operator active "Nov 04, 2025"
    ∷ user "3" "Rahul Verma" "rahul.v@surakshanet.in" viewer inactive "Dec 15, 2025"
    ∷ []

abbrev pub role_tone : Role → String
role_tone admin = "bg-purple-100 text-purple-700"
role_tone operator = "bg-blue-100 text-blue-700"
role_tone viewer = "bg-slate-100 text-slate-700"

abbrev pub role_text : Role → String
role_text admin = "ADMIN"
role_text operator = "OPERATOR"
role_text viewer = "VIEWER"

abbrev pub status_tone : Status → String
status_tone active = "bg-emerald-100 text-emerald-700"
status_tone inactive = "bg-slate-100 text-slate-500"

abbrev pub status_text : Status → String
status_text active = "Active"
status_text inactive = "Inactive"

pub data Click : Type 0 where
  invites : Click
  opens_actions : String → Click

unfoldable pub row : (String → String) → User → List (Item Click)
row initials u =
    marks (
      text (initials u.name)
      ∷ text u.name
      ∷ text u.email
      ∷ tone (role_tone u.role)
      ∷ text (role_text u.role)
      ∷ tone (status_tone u.status)
      ∷ text (status_text u.status)
      ∷ text u.joined
      ∷ [])
    ++ button false (opens_actions u.id) (icon "MoreVertical" ∷ []) ∷ []

unfoldable pub view : (String → String) → List (Item Click)
view initials =
    marks (text "User Management" ∷ icon "Shield" ∷ text "Admin access only" ∷ [])
    ++ (button false invites (icon "Plus" ∷ text "Invite User" ∷ [])
          ∷ marks (text "User" ∷ text "Role" ∷ text "Status" ∷ text "Joined" ∷ text "Actions" ∷ [])
        ++ each (row initials) mock_users)
