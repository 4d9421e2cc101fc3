-- ===== src/Migrations/PrimaryRole/Chain.antt =====
-- The revisions 0029 and 0030 one after the other.
use awa_platform.Prelude.{
  ℕ, String, ◌≡◌, ◌∙◌, Bool, true, ◌&&◌, some, List, [], ◌∷◌, map, arith, ◌==◌, Bool-cases, inl,
  inr,
}
use awa_platform.Prelude.Lists.{All, All-map, any, any-map, find, select}
use awa_platform.Exceptions.{ok, ◌>>=◌}
use awa_platform.Models.Role.{Role, UserRole}
use awa_platform.Models.User.{User}
use awa_platform.Session.{Db}
use awa_platform.Roles.{holds}
use awa_platform.Roles.Grant.{IsRoled}
use awa_platform.Migrations.Roles.{Account, Assignment, upgrade_roles}
use awa_platform.Migrations.Roles.Collates.{TellsApart, all_names}
use awa_platform.Migrations.Roles.Known.{is_named, wanted}
use awa_platform.Migrations.Roles.Backfill.{HasUniqueIds, IsAssigned, upgrade_roles_assigns}
use awa_platform.Migrations.PrimaryRole.{
  Person, Linked, primary_row, unmarked, upgrade_primary_role,
}
use awa_platform.Migrations.PrimaryRole.Links.{
  HasRole, people_of, linked_tables, upgrade_primary_role-passes,
}
use awa_platform.Migrations.PrimaryRole.Among.{find-Among, any-Among}

-- The only row of a user is the primary one, if it is marked.
find-only :
    (p q : Assignment → Bool) (rows : List Assignment) (a : Assignment)
    → select p rows ≡ a ∷ []
    → q a ≡ true
    → find (λ x. p x && q x) rows ≡ some a
find-only p q [] a h k = absurd (cc)
find-only p q (x ∷ rows) a h k = elim (Bool-cases (p x)) [
  | inl e ↦ let same : x ≡ a = ground arith in rw same (ground arith)
  | inr e ↦ ground (arith, find-only p q rows a)
]

is_named-exists :
    (id : ℕ) (name : String) (roles : List Role)
    → is_named id name roles ≡ true
    → any (λ (r : Role). r.id == id) roles ≡ true
is_named-exists id name [] h = h
is_named-exists id name (r ∷ roles) h = ground (arith, is_named-exists id name roles)

module _ {C : Type 0} where
  IsAssigned-HasRole :
      (roles : List Role) (rows : List Assignment) (u : Account C)
      → IsAssigned roles rows u
      → HasRole roles rows u
  IsAssigned-HasRole roles rows u (a, one, p, named) = (
    a,
    find-only (λ (x : Assignment). x.user_id == u.id) (λ (x : Assignment). x.is_primary) rows a one
        p,
    is_named-exists a.role_id (wanted u.role) roles named,
  )

-- A row of `users` as models/user.py reads it, where `columns` has the columns that stay.
abbrev pub user_row : Person User → User
user_row p = record p.columns { id = p.id; primary_role_id = p.primary_role_id }

abbrev pub migrated : Db → Linked User → Db
migrated db l = record db {
  users = map user_row l.users;
  roles = l.roles;
  user_roles = l.user_roles;
}

-- The primary row of a user gives its primary role.
held :
    (rows : List Assignment) (u : Account User) (a : Assignment)
    → primary_row u.id rows ≡ some a
    → holds u.id a.role_id (map unmarked rows) ≡ true
held rows u a e =
    let (m, k) = find-Among (λ (x : Assignment). x.user_id == u.id && x.is_primary) rows a e in
    any-map (λ (r : UserRole). r.user_id == u.id && r.role_id == a.role_id) unmarked rows
    ∙ any-Among (λ (x : Assignment). x.user_id == u.id && x.role_id == a.role_id) rows a m
        (ground arith)

people-IsRoled :
    (roles : List Role) (rows : List Assignment) (users : List (Account User))
    → All (HasRole roles rows) users
    → All
        (λ (u : User). holds u.id u.primary_role_id (map unmarked rows) ≡ true)
        (map user_row (people_of rows users))
people-IsRoled roles rows [] h = tt
people-IsRoled roles rows (u ∷ users) ((a, e, f), hs) =
    (rw e (held rows u a e), people-IsRoled roles rows users hs)

-- From any table of users without repeated ids, if the collation takes no two different names for the
-- same, of those that 0029 seeds and those that the users have, the revisions 0029 and 0030 both
-- succeed, and every user then holds the role that is its primary one.
pub upgrades-IsRoled :
    (eq : String → String → Bool) (uuid : ℕ → ℕ) (now : ℕ) (before : String → String → Bool)
    (users : List (Account User)) (db : Db)
    → TellsApart eq (all_names users)
    → HasUniqueIds users
    → (l : Linked User) × ((upgrade_roles eq uuid now before users >>= upgrade_primary_role) ≡ ok l)
      × IsRoled (migrated db l)
upgrades-IsRoled eq uuid now before users db apart h =
    let (t, runs, same, assigned) = upgrade_roles_assigns eq uuid now before users apart h in
    let all : All (HasRole t.roles t.user_roles) t.users = rw same (
      All-map (IsAssigned t.roles t.user_roles) (HasRole t.roles t.user_roles) users
        (IsAssigned-HasRole t.roles t.user_roles) assigned) in
    (
      linked_tables t,
      rw runs (upgrade_primary_role-passes t all),
      people-IsRoled t.roles t.user_roles t.users all,
    )
