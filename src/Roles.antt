-- ===== src/Roles.antt =====
-- services/role_service.py and core/roles.py: which roles exist, and granting and revoking them.
pub mod Rows
pub mod Grant
pub mod Revoke
mod Tests
use awa_platform.Prelude.{
  ℕ, String, Bool, true, false, not, ◌&&◌, Option, none, some, List, [], ◌∷◌, ◌==◌, leb,
  if◌then◌else◌, str_eq, map, ◌≡◌,
}
use awa_platform.Prelude.Lists.{length, select, find, any, update}
use awa_platform.Exceptions.{
  Exception, Result, ok, raise, value_error, role_not_found_error, last_role_removal_error,
  assertion_error,
}
use awa_platform.Models.User.{User}
use awa_platform.Models.Role.{Role, UserRole}
use awa_platform.Session.{Db, Exec, gets}

abbrev pub staff_roles : List String
staff_roles = "Admin" ∷ "Manager" ∷ "Operations" ∷ "Accountant" ∷ "Inspector" ∷ "AuctionsHead" ∷ []

-- SECTION_ROLE_REQUIREMENTS.get(section)
unfoldable pub section_role_requirements : String → Option (List String)
section_role_requirements section =
    if str_eq section "management"
    then some ("Admin" ∷ "Manager" ∷ [])
    else (if str_eq section "accountant" then some ("Admin" ∷ "Accountant" ∷ []) else none)

-- `not held.isdisjoint(names)`
unfoldable pub meets : List String → List String → Bool
meets held names = any (λ h. any (λ n. str_eq h n) names) held

-- ORDER BY Role.name, in the collation of the database.
pub record Collation : Type 0 where
  pub by_name : List Role → List Role
  pub any-by_name : (p : Role → Bool) (roles : List Role) → any p (by_name roles) ≡ any p roles

unfoldable pub list_roles : Collation → (active_only : Bool) → Exec (List Role)
list_roles c active_only =
    gets λ db.
      c.by_name (if active_only then select (λ (r : Role). r.is_active) db.roles else db.roles)

unfoldable pub find_role : String → Db → Option Role
find_role name db = find (λ (r : Role). str_eq r.name name) db.roles

-- The row of a query, or an exception.
unfoldable pub or_raise : {A : Type 0} → Exception → Option A → Result A
or_raise e none = raise e
or_raise e (some a) = ok a

unfoldable pub get_role_by_name : String → Db → Result Role
unfolding or_raise
get_role_by_name name db = or_raise (role_not_found_error name) (find_role name db)

-- Whether a row of `user_roles` gives the role to the user.
abbrev pub holds : ℕ → ℕ → List UserRole → Bool
holds user_id role_id rows =
    any (λ (r : UserRole). r.user_id == user_id && r.role_id == role_id) rows

-- The join of `roles` with `user_roles`, where the constraint uq_user_roles_user_id_role_id leaves
-- at most one row for each role.
unfoldable pub get_user_roles : Collation → ℕ → Db → List Role
get_user_roles c user_id db =
    c.by_name (select (λ (r : Role). holds user_id r.id db.user_roles) db.roles)

abbrev pub role_names : List Role → List String
role_names = map (λ r. r.name)

abbrev pub set_user : ℕ → (User → User) → Db → Db
set_user user_id f db = record db { users = update (λ (u : User). u.id == user_id) f db.users }

-- `user.primary_role_id = role.id`, if `is_primary` is set.
abbrev pub point_primary : Bool → ℕ → ℕ → Db → Db
point_primary is_primary user_id role_id db =
    if is_primary then set_user user_id (λ u. record u { primary_role_id = role_id }) db else db

-- The grant, once the role and the existing row have been looked up. `new` is the row to add.
unfoldable pub grant :
    User → Role → (is_primary : Bool) → UserRole → Option UserRole → Exec UserRole
grant user role is_primary new (some row) s =
    (ok row, record s { working = point_primary is_primary user.id role.id s.working })
grant user role is_primary new none s = (
  ok new,
  record s {
    working =
        point_primary is_primary user.id role.id
          (record s.working { user_roles = new ∷ s.working.user_roles });
  },
)

unfoldable pub assign_found :
    (id assigned_at : ℕ) → User → (is_primary : Bool) → Result Role → Exec UserRole
unfolding grant
assign_found id assigned_at user is_primary (raise e) s = (raise e, s)
assign_found id assigned_at user is_primary (ok role) s =
    grant user role is_primary
      (record { id = id; user_id = user.id; role_id = role.id; assigned_at = assigned_at })
      (find (λ (r : UserRole). r.user_id == user.id && r.role_id == role.id) s.working.user_roles) s

-- `id` and `assigned_at` are those of a new row.
unfoldable pub assign_role :
    (id assigned_at : ℕ) → User → String → (is_primary : Bool) → Exec UserRole
unfolding assign_found
assign_role id assigned_at user role_name is_primary s =
    assign_found id assigned_at user is_primary (get_role_by_name role_name s.working) s

-- `min(remaining, key=lambda ur: ur.assigned_at)`: the first of the least.
unfoldable pub longest_held : UserRole → List UserRole → UserRole
longest_held best [] = best
longest_held best (r ∷ rows) =
    longest_held (if leb best.assigned_at r.assigned_at then best else r) rows

-- `promoted_role = await db.get(Role, ...)`, the assertion, and the new primary role.
unfoldable pub set_promoted : User → Option Role → Exec Unit
set_promoted user none s = (raise assertion_error, s)
set_promoted user (some role) s =
    (ok tt, record s { working = point_primary true user.id role.id s.working })

-- `min` of an empty sequence raises ValueError.
unfoldable pub promote : User → List UserRole → Exec Unit
unfolding set_promoted
promote user [] s = (raise value_error, s)
promote user (r ∷ rows) s =
    set_promoted user (find (λ (q : Role). q.id == (longest_held r rows).role_id) s.working.roles) s

abbrev pub delete_row : ℕ → Db → Db
delete_row id db = record db {
  user_roles = select (λ (r : UserRole). not (r.id == id)) db.user_roles;
}

unfoldable pub revoke_target : User → Role → List UserRole → Option UserRole → Exec Unit
unfolding promote
revoke_target user role current none s = (ok tt, s)
revoke_target user role current (some target) s =
    let deleted = record s { working = delete_row target.id s.working } in
    let promoted =
      promote user (select (λ (r : UserRole). not (r.id == target.id)) current) deleted in
    if length current == 1
    then (raise (last_role_removal_error user.id), s)
    else (if user.primary_role_id == role.id then promoted else (ok tt, deleted))

unfoldable pub revoke_found : User → Result Role → Exec Unit
unfolding revoke_target
revoke_found user (raise e) s = (raise e, s)
revoke_found user (ok role) s =
    let current = select (λ (r : UserRole). r.user_id == user.id) s.working.user_roles in
    revoke_target user role current (find (λ (r : UserRole). r.role_id == role.id) current) s

unfoldable pub revoke_role : User → String → Exec Unit
unfolding revoke_found
revoke_role user role_name s = revoke_found user (get_role_by_name role_name s.working) s
