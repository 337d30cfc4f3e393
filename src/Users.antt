-- ===== src/Users.antt =====
-- The users of the cloud (cloud/internal/api/users.go): inviting, changing roles, removing. The table `users` is a
-- list of rows; ids, organisations and emails are numbers. A caller is known by the id and the role of its token.
-- Passwords are left out, and so are the two handlers that only read.
pub mod Roles
mod Tests
use qube_enterprise_home.Prelude.{
  ℕ, suc, ◌+◌, Bool, true, false, not, ◌&&◌, ◌||◌, Option, none, some, List, [], ◌∷◌, ◌++◌, String,
  ◌==◌, if◌then◌else◌, str_eq,
}

pub record User : Type 0 where
  pub id : ℕ
  pub org : ℕ
  pub email : ℕ
  pub role : String

abbrev pub Users : Type 0
Users = List User

-- `SELECT org_id FROM users WHERE id = ...`; `none` is NULL.
unfoldable pub org_of : ℕ → Users → Option ℕ
org_of id [] = none
org_of id (u ∷ us) = let rest = org_of id us in if u.id == id then some u.org else rest

-- `org_id = (...)`, which NULL does not satisfy.
abbrev pub in_org : Option ℕ → User → Bool
in_org none u = false
in_org (some org) u = u.org == org

-- `validRoles`
unfoldable pub valid_role : String → String → Bool
valid_role caller_role role =
    str_eq role "viewer"
    || str_eq role "editor"
    || str_eq role "admin"
    || (str_eq caller_role "superadmin" && str_eq role "superadmin")

-- The rows that a change of role, or a removal, is for.
unfoldable pub is_target : Option ℕ → String → ℕ → User → Bool
is_target org caller_role target u =
    u.id == target
    && (in_org org u && (not (str_eq u.role "superadmin") || str_eq caller_role "superadmin"))

insert_user : Option ℕ → ℕ → ℕ → String → Users → ℕ × Users
insert_user none id email role us = (409, us)
insert_user (some org) id email role us =
    (201, us ++ (record { id = id; org = org; email = email; role = role } ∷ []))

-- `inviteUserHandler`, with an email; `inserts` is whether the insertion works otherwise. A caller that is not in
-- the table has no organisation, and then it does not.
unfoldable pub invite_user : Bool → ℕ → String → ℕ → ℕ → String → Users → ℕ × Users
unfolding insert_user
invite_user inserts caller caller_role id email role us =
    let given = if valid_role caller_role role then role else "viewer" in
    if inserts then insert_user (org_of caller us) id email given us else (409, us)

unfoldable pub set_role : (User → Bool) → String → Users → Users
set_role where' role [] = []
set_role where' role (u ∷ us) =
    (if where' u then record u { role = role } else u) ∷ set_role where' role us

unfoldable pub delete_users : (User → Bool) → Users → Users
delete_users where' [] = []
delete_users where' (u ∷ us) =
    let rest = delete_users where' us in if where' u then rest else u ∷ rest

unfoldable pub some_user : (User → Bool) → Users → Bool
some_user where' [] = false
some_user where' (u ∷ us) = where' u || some_user where' us

-- `updateUserRoleHandler`, for a body that decodes and a database that answers.
unfoldable pub update_user_role : ℕ → String → ℕ → String → Users → ℕ × Users
update_user_role caller caller_role target role us =
    let where' = is_target (org_of caller us) caller_role target in
    if caller == target || not (valid_role caller_role role)
    then (400, us)
    else if some_user where' us
    then (200, set_role where' role us)
    else (404, us)

-- `removeUserHandler`, for a database that answers.
unfoldable pub remove_user : ℕ → String → ℕ → Users → ℕ × Users
remove_user caller caller_role target us =
    let where' = is_target (org_of caller us) caller_role target in
    if caller == target
    then (400, us)
    else if some_user where' us
    then (200, delete_users where' us)
    else (404, us)
