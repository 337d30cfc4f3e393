-- ===== src/Users/Roles.antt =====
-- Who can make, change and remove whom (cloud/internal/api/users.go).
use qube_enterprise_home.Prelude.{
  ℕ, ◌≡◌, refl, inl, inr, Bool, true, false, ◌||◌, Option, none, some, [], ◌∷◌, ◌++◌, String, ◌==◌,
  if◌then◌else◌, str_eq, arith, eq_iff, Bool-cases,
}
use qube_enterprise_home.Users.{
  User, Users, org_of, valid_role, is_target, insert_user, invite_user, set_role, delete_users,
  update_user_role, remove_user,
}

-- The superadmins, in the order of the table.
unfoldable pub superadmins : Users → Users
superadmins [] = []
superadmins (u ∷ us) =
    let rest = superadmins us in if str_eq u.role "superadmin" then u ∷ rest else rest

superadmins-append :
    (us : Users) (u : User)
    → str_eq u.role "superadmin" ≡ false
    → superadmins (us ++ (u ∷ [])) ≡ superadmins us
unfolding superadmins
superadmins-append [] u h = rw h refl
superadmins-append (v ∷ us) u h = elim (Bool-cases (str_eq v.role "superadmin")) [
  | inl super ↦ rw (super, superadmins-append us u h) refl
  | inr plain ↦ rw plain (superadmins-append us u h)
]

false-ne-true : false ≡ true → ⊥
false-ne-true h = cc

module _ (caller_role : String) (plain_caller : str_eq caller_role "superadmin" ≡ false) where
  valid_role-plain :
      (role : String) → valid_role caller_role role ≡ true → str_eq role "superadmin" ≡ false
  unfolding valid_role
  valid_role-plain role h = elim (Bool-cases (str_eq role "superadmin")) [
    | inl super ↦
        let same : role ≡ "superadmin" = (eq_iff role "superadmin").0 super in
        absurd (false-ne-true (rw (same, plain_caller) at h))
    | inr plain ↦ plain
  ]

  is_target-plain :
      (org : Option ℕ) (target : ℕ) (u : User)
      → is_target org caller_role target u ≡ true
      → str_eq u.role "superadmin" ≡ false
  unfolding is_target
  is_target-plain org target u h = ground arith

  superadmins-set_role :
      (org : Option ℕ) (target : ℕ) (role : String) (us : Users)
      → str_eq role "superadmin" ≡ false
      → superadmins (set_role (is_target org caller_role target) role us) ≡ superadmins us
  unfolding superadmins set_role
  superadmins-set_role org target role [] h = refl
  superadmins-set_role org target role (u ∷ us) h =
      elim (Bool-cases (is_target org caller_role target u)) [
        | inl hit ↦
            rw (hit, h, is_target-plain org target u hit)
              (superadmins-set_role org target role us h)
        | inr miss ↦ rw (miss, superadmins-set_role org target role us h) refl
      ]

  superadmins-delete_users :
      (org : Option ℕ) (target : ℕ) (us : Users)
      → superadmins (delete_users (is_target org caller_role target) us) ≡ superadmins us
  unfolding superadmins delete_users
  superadmins-delete_users org target [] = refl
  superadmins-delete_users org target (u ∷ us) =
      elim (Bool-cases (is_target org caller_role target u)) [
        | inl hit ↦
            rw (hit, is_target-plain org target u hit) (superadmins-delete_users org target us)
        | inr miss ↦ rw miss (rw (superadmins-delete_users org target us) refl)
      ]

  superadmins-insert_user :
      (org : Option ℕ) (id email : ℕ) (role : String) (us : Users)
      → str_eq role "superadmin" ≡ false
      → superadmins (insert_user org id email role us).1 ≡ superadmins us
  unfolding insert_user
  superadmins-insert_user none id email role us h = refl
  superadmins-insert_user (some org) id email role us h =
      superadmins-append us (record { id = id; org = org; email = email; role = role }) h

  given_role-plain :
      (role : String)
      → str_eq (if valid_role caller_role role then role else "viewer") "superadmin" ≡ false
  given_role-plain role = elim (Bool-cases (valid_role caller_role role)) [
    | inl good ↦ rw good (valid_role-plain role good)
    | inr bad ↦ rw bad refl
  ]

  superadmins-if :
      (b : Bool) (us : Users) (x y : ℕ × Users)
      → superadmins x.1 ≡ superadmins us
      → superadmins y.1 ≡ superadmins us
      → superadmins (if b then x else y).1 ≡ superadmins us
  superadmins-if true us x y h k = h
  superadmins-if false us x y h k = k

  unchanged :
      (b : Bool) (us : Users) (y : ℕ × Users)
      → superadmins (if b || true then (400, us) else y).1 ≡ superadmins us
  unchanged true us y = refl
  unchanged false us y = refl

  superadmins-invite_user :
      (inserts : Bool) (caller id email : ℕ) (role : String) (us : Users)
      → superadmins (invite_user inserts caller caller_role id email role us).1 ≡ superadmins us
  unfolding invite_user
  superadmins-invite_user inserts caller id email role us =
      superadmins-if inserts us _ _
        (superadmins-insert_user (org_of caller us) id email _ us (given_role-plain role)) refl

  superadmins-update_user_role :
      (caller target : ℕ) (role : String) (us : Users)
      → superadmins (update_user_role caller caller_role target role us).1 ≡ superadmins us
  unfolding update_user_role
  superadmins-update_user_role caller target role us =
      elim (Bool-cases (valid_role caller_role role)) [
        | inl good ↦
            superadmins-if _ us (400, us) _ refl
              (superadmins-if _ us
                (200, set_role (is_target (org_of caller us) caller_role target) role us) (404, us)
                (superadmins-set_role (org_of caller us) target role us
                  (valid_role-plain role good))
                refl)
        | inr bad ↦ rw bad (unchanged (caller == target) us _)
      ]

  superadmins-remove_user :
      (caller target : ℕ) (us : Users)
      → superadmins (remove_user caller caller_role target us).1 ≡ superadmins us
  unfolding remove_user
  superadmins-remove_user caller target us =
      superadmins-if _ us (400, us) _ refl
        (superadmins-if _ us
          (200, delete_users (is_target (org_of caller us) caller_role target) us) (404, us)
          (superadmins-delete_users (org_of caller us) target us) refl)

  -- Whatever a caller that is no superadmin asks for, to invite, to change a role or to remove, the superadmins
  -- of all organisations stay as they are: none is made, changed or removed.
  pub superadmins-stay :
      (inserts : Bool) (caller target id email : ℕ) (role : String) (us : Users)
      → (superadmins (invite_user inserts caller caller_role id email role us).1 ≡ superadmins us)
        × (superadmins (update_user_role caller caller_role target role us).1 ≡ superadmins us)
        × (superadmins (remove_user caller caller_role target us).1 ≡ superadmins us)
  superadmins-stay inserts caller target id email role us = (
    superadmins-invite_user inserts caller id email role us,
    superadmins-update_user_role caller target role us,
    superadmins-remove_user caller target us,
  )
