-- ===== src/Roles/Grant.antt =====
-- Granting and revoking keep every user's primary role among the roles that the user holds.
use awa_platform.Prelude.{
  ℕ, String, ◌≡◌, refl, Bool, true, false, ◌&&◌, Option, none, some, List, [], ◌∷◌, ◌==◌, arith,
  if◌then◌else◌, ==_iff,
}
use awa_platform.Prelude.Lists.{All, find}
use awa_platform.Models.User.{User}
use awa_platform.Models.Role.{Role, UserRole}
use awa_platform.Session.{Db, Session}
use awa_platform.Exceptions.{Result, ok, raise}
use awa_platform.Roles.{get_role_by_name, holds, set_user, grant, assign_found, assign_role}
use awa_platform.Roles.Rows.{All-map, All-update}

-- The primary role of every user is one of the user's rows of `user_roles`, so each user holds at
-- least one role.
abbrev pub IsRoled : Db → Type 0
IsRoled db = All (λ (u : User). holds u.id u.primary_role_id db.user_roles ≡ true) db.users

holds_of_find :
    (uid rid : ℕ) (rows : List UserRole) {t : UserRole}
    → find (λ (r : UserRole). r.user_id == uid && r.role_id == rid) rows ≡ some t
    → holds uid rid rows ≡ true
holds_of_find uid rid [] e = absurd (cc)
holds_of_find uid rid (r ∷ rows) {t} e = ground (arith, holds_of_find uid rid rows {t = t})

pub holds-cons :
    (uid rid : ℕ) (new : UserRole) (rows : List UserRole)
    → holds uid rid rows ≡ true
    → holds uid rid (new ∷ rows) ≡ true
holds-cons uid rid new rows h = ground arith

-- Setting the primary role of one user to a role that the user holds.
pub set_primary-IsRoled :
    (uid rid : ℕ) (db : Db)
    → IsRoled db
    → holds uid rid db.user_roles ≡ true
    → IsRoled (set_user uid (λ u. record u { primary_role_id = rid }) db)
set_primary-IsRoled uid rid db h held =
    All-update (λ (u : User). holds u.id u.primary_role_id db.user_roles ≡ true)
      (λ (u : User). holds u.id u.primary_role_id db.user_roles ≡ true) (λ u. u.id == uid)
      (λ u. record u { primary_role_id = rid }) db.users
      (λ u k e. let same : u.id ≡ uid = (==_iff u.id uid).0 e in rw same held) (λ u k e. k) h

-- With or without a new primary role, once the role is held.
primary_if-IsRoled :
    (is_primary : Bool) (uid rid : ℕ) (db : Db)
    → IsRoled db
    → holds uid rid db.user_roles ≡ true
    → IsRoled (if is_primary then set_user uid (λ u. record u { primary_role_id = rid }) db else db)
primary_if-IsRoled true uid rid db h held = set_primary-IsRoled uid rid db h held
primary_if-IsRoled false uid rid db h held = h

pub cons-IsRoled :
    (new : UserRole) (db : Db)
    → IsRoled db
    → IsRoled (record db { user_roles = new ∷ db.user_roles })
cons-IsRoled new db h =
    All-map (λ (u : User). holds u.id u.primary_role_id db.user_roles ≡ true)
      (λ (u : User). holds u.id u.primary_role_id (new ∷ db.user_roles) ≡ true) db.users
      (λ u k. holds-cons u.id u.primary_role_id new db.user_roles k) h

holds_self :
    (id t uid rid : ℕ) (rows : List UserRole)
    → holds uid rid (record { id = id; user_id = uid; role_id = rid; assigned_at = t } ∷ rows)
      ≡ true
holds_self id t uid rid rows = ground arith

grant-IsRoled :
    (user : User) (role : Role) (is_primary : Bool) (id t : ℕ) (held : Option UserRole)
    (s : Session)
    → find (λ (r : UserRole). r.user_id == user.id && r.role_id == role.id) s.working.user_roles
      ≡ held
    → IsRoled s.working
    → IsRoled
        (grant user role is_primary
          (record { id = id; user_id = user.id; role_id = role.id; assigned_at = t })
          held
          s).1.working
unfolding grant
grant-IsRoled user role is_primary id t none s e h =
    let new : UserRole = record {
      id = id;
      user_id = user.id;
      role_id = role.id;
      assigned_at = t;
    } in
    primary_if-IsRoled is_primary user.id role.id
      (record s.working { user_roles = new ∷ s.working.user_roles }) (cons-IsRoled new s.working h)
      (holds_self id t user.id role.id s.working.user_roles)
grant-IsRoled user role is_primary id t (some row) s e h =
    primary_if-IsRoled is_primary user.id role.id s.working h
      (holds_of_find user.id role.id s.working.user_roles e)

assign_found-IsRoled :
    (id t : ℕ) (user : User) (is_primary : Bool) (r : Result Role) (s : Session)
    → IsRoled s.working
    → IsRoled (assign_found id t user is_primary r s).1.working
unfolding assign_found
assign_found-IsRoled id t user is_primary (raise e) s h = h
assign_found-IsRoled id t user is_primary (ok role) s h =
    grant-IsRoled user role is_primary id t _ s refl h

-- Granting a role to a user, as the primary one or not, keeps every user's primary role among the
-- roles that the user holds.
pub assign_role-IsRoled :
    (id t : ℕ) (user : User) (name : String) (is_primary : Bool) (s : Session)
    → IsRoled s.working
    → IsRoled (assign_role id t user name is_primary s).1.working
unfolding assign_role
assign_role-IsRoled id t user name is_primary s h =
    assign_found-IsRoled id t user is_primary (get_role_by_name name s.working) s h
