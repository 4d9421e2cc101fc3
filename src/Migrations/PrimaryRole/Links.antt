-- ===== src/Migrations/PrimaryRole/Links.antt =====
-- The revision 0030 Succeeds where every user has a primary row that refers to a role.
use awa_platform.Prelude.{◌≡◌, refl, true, Option, none, some, List, [], ◌∷◌, map, ◌==◌}
use awa_platform.Prelude.Lists.{All, any}
use awa_platform.Exceptions.{ok}
use awa_platform.Models.Role.{Role}
use awa_platform.Migrations.Roles.{Account, Assignment, Tables}
use awa_platform.Migrations.PrimaryRole.{
  Person, Linked, primary_row, link_user, link_users, refer_to_roles, unmarked,
  upgrade_primary_role,
}

module _ {C : Type 0} where
  -- The user has a primary row, and its role exists.
  abbrev pub HasRole : List Role → List Assignment → Account C → Type 0
  HasRole roles rows u =
      (a : Assignment) × (primary_row u.id rows ≡ some a)
      × (any (λ (r : Role). r.id == a.role_id) roles ≡ true)

  -- The user with a reference instead of the text.
  abbrev pub with_link : Account C → Option Assignment → Person C
  with_link u none = record { id = u.id; primary_role_id = 0; columns = u.columns }
  with_link u (some a) = record { id = u.id; primary_role_id = a.role_id; columns = u.columns }

  abbrev pub people_of : List Assignment → List (Account C) → List (Person C)
  people_of rows users = map (λ (u : Account C). with_link u (primary_row u.id rows)) users

  abbrev pub linked_tables : Tables C → Linked C
  linked_tables t = record {
    users = people_of t.user_roles t.users;
    roles = t.roles;
    user_roles = map unmarked t.user_roles;
  }

  link_users-passes :
      (roles : List Role) (rows : List Assignment) (users : List (Account C))
      → All (HasRole roles rows) users
      → link_users rows users ≡ ok (people_of rows users)
  unfolding link_users link_user
  link_users-passes roles rows [] h = refl
  link_users-passes roles rows (u ∷ users) ((a, e, f), hs) =
      rw (e, link_users-passes roles rows users hs) refl

  refer_to_roles-passes :
      (roles : List Role) (rows : List Assignment) (users : List (Account C))
      → All (HasRole roles rows) users
      → refer_to_roles roles (people_of rows users) ≡ true
  unfolding refer_to_roles
  refer_to_roles-passes roles rows [] h = refl
  refer_to_roles-passes roles rows (u ∷ users) ((a, e, f), hs) =
      rw (e, f, refer_to_roles-passes roles rows users hs) refl

  pub upgrade_primary_role-passes :
      (t : Tables C)
      → All (HasRole t.roles t.user_roles) t.users
      → upgrade_primary_role t ≡ ok (linked_tables t)
  unfolding upgrade_primary_role
  upgrade_primary_role-passes t h =
      rw
        (
          link_users-passes t.roles t.user_roles t.users h,
          refer_to_roles-passes t.roles t.user_roles t.users h,
        )
        refl
