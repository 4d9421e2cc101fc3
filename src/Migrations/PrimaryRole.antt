-- ===== src/Migrations/PrimaryRole.antt =====
-- alembic/versions/0030_users_primary_role_fk.py: `users.role` becomes a reference to `roles`, and
-- the mark of the primary row of `user_roles` goes.
pub mod Among
pub mod Links
pub mod RoundTrip
pub mod Chain
use awa_platform.Prelude.{
  ℕ, String, Bool, true, false, ◌&&◌, Option, none, some, List, [], ◌∷◌, map, ◌==◌, if◌then◌else◌,
}
use awa_platform.Prelude.Lists.{any, find}
use awa_platform.Exceptions.{Result, ok, raise, ◌>>=◌, integrity_error}
use awa_platform.Models.Role.{Role, UserRole}
use awa_platform.Migrations.Roles.{
  Account, Assignment, Tables, unique, both_primary, insert_assignments,
}

-- A row of `users` after the revision.
pub record Person (Columns : Type 0) : Type 0 where
  pub id : ℕ
  pub primary_role_id : ℕ
  pub columns : Columns

pub record Linked (Columns : Type 0) : Type 0 where
  pub users : List (Person Columns)
  pub roles : List Role
  pub user_roles : List UserRole

-- The join of a user with its primary row.
abbrev pub primary_row : ℕ → List Assignment → Option Assignment
primary_row user_id rows = find (λ (a : Assignment). a.user_id == user_id && a.is_primary) rows

-- The column is NOT NULL once it is filled: a user without a primary row stops the revision.
unfoldable pub link_user : {C : Type 0} → Account C → Option Assignment → Result (Person C)
link_user u none = raise integrity_error
link_user u (some a) = ok (record { id = u.id; primary_role_id = a.role_id; columns = u.columns })

unfoldable pub link_users :
    {C : Type 0} → List Assignment → List (Account C) → Result (List (Person C))
link_users rows [] = ok []
link_users rows (u ∷ users) =
    link_user u (primary_row u.id rows) >>= λ p. link_users rows users >>= λ people. ok (p ∷ people)

-- The foreign key fk_users_primary_role_id_roles.
unfoldable pub refer_to_roles : {C : Type 0} → List Role → List (Person C) → Bool
refer_to_roles roles [] = true
refer_to_roles roles (p ∷ people) =
    any (λ (r : Role). r.id == p.primary_role_id) roles && refer_to_roles roles people

-- A row without the column `is_primary`.
abbrev pub unmarked : Assignment → UserRole
unmarked a = record {
  id = a.id;
  user_id = a.user_id;
  role_id = a.role_id;
  assigned_at = a.assigned_at;
}

unfoldable pub upgrade_primary_role : {C : Type 0} → Tables C → Result (Linked C)
upgrade_primary_role t = link_users t.user_roles t.users >>= λ people.
    if refer_to_roles t.roles people
    then ok (record { users = people; roles = t.roles; user_roles = map unmarked t.user_roles })
    else raise integrity_error

-- The join of a row with the user whose primary role it gives.
abbrev pub marked : {C : Type 0} → List (Person C) → UserRole → Assignment
marked people r = record {
  id = r.id;
  user_id = r.user_id;
  role_id = r.role_id;
  is_primary = any (λ (p : Person _). p.id == r.user_id && p.primary_role_id == r.role_id) people;
  assigned_at = r.assigned_at;
}

-- The join of a user with its primary role.
unfoldable pub name_user : {C : Type 0} → Person C → Option Role → Result (Account C)
name_user p none = raise integrity_error
name_user p (some r) = ok (record { id = p.id; role = some r.name; columns = p.columns })

unfoldable pub name_users : {C : Type 0} → List Role → List (Person C) → Result (List (Account C))
name_users roles [] = ok []
name_users roles (p ∷ people) =
    name_user p (find (λ (r : Role). r.id == p.primary_role_id) roles) >>= λ u.
    name_users roles people >>= λ users. ok (u ∷ users)

-- The marks, and the index on them.
unfoldable pub mark_rows : {C : Type 0} → List (Person C) → List UserRole → Result (List Assignment)
mark_rows people rows =
    let after = map (marked people) rows in
    if unique both_primary after then ok after else raise integrity_error

-- `downgrade`
unfoldable pub downgrade_primary_role : {C : Type 0} → Linked C → Result (Tables C)
downgrade_primary_role l = mark_rows l.users l.user_roles >>= λ rows.
    name_users l.roles l.users >>= λ users.
    ok (record { users = users; roles = l.roles; user_roles = rows })
