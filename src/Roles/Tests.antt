-- ===== src/Roles/Tests.antt =====
-- Grants and revocations on concrete accounts.
use awa_platform.Prelude.{ℕ, String, ◌≡◌, refl, true, none, List, [], ◌∷◌, arith}
use awa_platform.Exceptions.{raise, last_role_removal_error}
use awa_platform.Models.User.{User}
use awa_platform.Models.Role.{Role, UserRole}
use awa_platform.Session.{Db, Session, empty_db}
use awa_platform.Roles.{
  or_raise, find_role, get_role_by_name, longest_held, set_promoted, promote, revoke_target,
  revoke_found, revoke_role,
}
use awa_platform.Roles.Rows.{HasUniqueIds}
use awa_platform.Roles.Grant.{IsRoled}
use awa_platform.Roles.Revoke.{revoke_role-IsRoled}

abbrev role : ℕ → String → Role
role id name = record { id = id; name = name; description = none; is_active = true }

abbrev held : ℕ → ℕ → ℕ → UserRole
held id role_id t = record { id = id; user_id = 3; role_id = role_id; assigned_at = t }

abbrev member : User
member = record {
  id = 3;
  email = "";
  password_hash = "";
  first_name = "";
  last_name = "";
  phone = none;
  primary_role_id = 1;
  is_active = true;
  is_email_verified = true;
  failed_login_attempts = 0;
  locked_until = none;
  last_login_at = none;
}

abbrev with_roles : List UserRole → Session
with_roles rows =
    let db : Db = record empty_db {
      users = member ∷ [];
      roles = role 1 "Buyer" ∷ role 2 "Seller" ∷ role 3 "Inspector" ∷ [];
      user_roles = rows;
    } in
    record { working = db; stored = db }

abbrev three : Session
three = with_roles (held 12 3 30 ∷ held 11 2 20 ∷ held 10 1 10 ∷ [])

-- Revoking the primary role promotes the one that has been held longest.
revoke_primary :
    (revoke_role member "Buyer" three).1.working.users ≡ record member { primary_role_id = 2 } ∷ []
unfolding revoke_role revoke_found revoke_target promote set_promoted longest_held get_role_by_name
    or_raise find_role
revoke_primary = refl

revoke_last :
    revoke_role member "Buyer" (with_roles (held 10 1 10 ∷ []))
    ≡ (raise (last_role_removal_error 3), with_roles (held 10 1 10 ∷ []))
unfolding revoke_role revoke_found revoke_target promote set_promoted longest_held get_role_by_name
    or_raise find_role
revoke_last = refl

unique_rows : HasUniqueIds three.working.user_roles
unique_rows = (
  ((λ h. omega (arith, h)), ((λ h. omega (arith, h)), tt)),
  (((λ h. omega (arith, h)), tt), (tt, tt)),
)

revoke_role-IsRoled_example : IsRoled (revoke_role member "Buyer" three).1.working
unfolding revoke_role revoke_found revoke_target promote set_promoted longest_held get_role_by_name
    or_raise find_role
revoke_role-IsRoled_example =
    revoke_role-IsRoled member "Buyer" three (refl, tt) ((λ h. refl), tt) unique_rows refl
