-- ===== src/Users/Tests.antt =====
-- An admin and a superadmin of one organisation.
use qube_enterprise_home.Prelude.{◌≡◌, refl, true, [], ◌∷◌}
use qube_enterprise_home.Users.{
  User, Users, invite_user, update_user_role, remove_user, org_of, valid_role, is_target, some_user,
  set_role,
}
use qube_enterprise_home.Users.Roles.{superadmins, superadmins-stay}

abbrev owner : User
owner = record { id = 1; org = 5; email = 11; role = "superadmin" }

abbrev admin : User
admin = record { id = 2; org = 5; email = 12; role = "admin" }

abbrev users : Users
users = owner ∷ admin ∷ []

test-change :
    update_user_role 1 "superadmin" 2 "editor" users
    ≡ (200, owner ∷ record admin { role = "editor" } ∷ [])
unfolding update_user_role org_of valid_role is_target some_user set_role
test-change = refl

test-protected : (remove_user 2 "admin" 1 users).0 ≡ 404
unfolding remove_user org_of is_target some_user
test-protected = refl

superadmins-stay_example :
    (superadmins (invite_user true 2 "admin" 3 13 "superadmin" users).1 ≡ superadmins users)
    × (superadmins (update_user_role 2 "admin" 1 "superadmin" users).1 ≡ superadmins users)
    × (superadmins (remove_user 2 "admin" 1 users).1 ≡ superadmins users)
superadmins-stay_example = superadmins-stay "admin" refl true 2 1 3 13 "superadmin" users
