-- ===== src/Migrations/PrimaryRole/RoundTrip.antt =====
-- The revision 0030 and back again.
use awa_platform.Prelude.{
  String, ◌≡◌, refl, sym, ap, ◌∙◌, subst, Bool, true, ◌&&◌, Option, some, List, [], ◌∷◌, map, arith,
  ◌==◌, Bool-cases, inl, inr,
}
use awa_platform.Prelude.Lists.{All, All-map, any, find, any-map}
use awa_platform.Exceptions.{ok}
use awa_platform.Models.Role.{Role}
use awa_platform.Migrations.Roles.{Account, Assignment, Tables, unique, same_pair, both_primary}
use awa_platform.Migrations.PrimaryRole.{
  Person, Linked, primary_row, unmarked, upgrade_primary_role, marked, name_user, name_users,
  mark_rows, downgrade_primary_role,
}
use awa_platform.Migrations.PrimaryRole.Links.{
  HasRole, with_link, people_of, linked_tables, upgrade_primary_role-passes,
}
use awa_platform.Migrations.PrimaryRole.Among.{
  Among, any-Among, element_of_any, find-Among, All-Among, All_of_among, unique-Among,
}

map_twice :
    {A B : Type 0} (f : A → B) (g : B → A) (xs : List A)
    → All (λ x. g (f x) ≡ x) xs
    → map g (map f xs) ≡ xs
map_twice f g [] h = refl
map_twice f g (x ∷ xs) (h, hs) = rw (h, map_twice f g xs hs) refl

module _ {C : Type 0} where
  -- The text in `users.role` is the name of the role of the user's primary row.
  abbrev pub IsNamed : List Role → List Assignment → Account C → Type 0
  IsNamed roles rows u =
      (a : Assignment) × (r : Role) × (primary_row u.id rows ≡ some a)
      × (find (λ (x : Role). x.id == a.role_id) roles ≡ some r)
      × (u.role ≡ some r.name)

  -- The row refers to a user.
  abbrev pub HasUser : List (Account C) → Assignment → Type 0
  HasUser users a = any (λ (u : Account C). u.id == a.user_id) users ≡ true

  -- What the constraints of the tables and the mirrored column promise.
  pub record IsMirrored (t : Tables C) : Type 0 where
    pub names : All (IsNamed t.roles t.user_roles) t.users
    pub owned : All (HasUser t.users) t.user_roles
    pub pairs : unique same_pair t.user_roles ≡ true
    pub primaries : unique both_primary t.user_roles ≡ true

  IsNamed-HasRole :
      (roles : List Role) (rows : List Assignment) (u : Account C)
      → IsNamed roles rows u
      → HasRole roles rows u
  IsNamed-HasRole roles rows u (a, r, e, f, g) =
      let (m, k) = find-Among (λ (x : Role). x.id == a.role_id) roles r f in
      (a, e, any-Among (λ (x : Role). x.id == a.role_id) roles r m k)

  -- Each user gets the text back.
  name_users-passes :
      (roles : List Role) (rows : List Assignment) (users : List (Account C))
      → All (IsNamed roles rows) users
      → name_users roles (people_of rows users) ≡ ok users
  unfolding name_users name_user
  name_users-passes roles rows [] h = refl
  name_users-passes roles rows (u ∷ users) ((a, r, e, f, g), hs) =
      rw (e, f, name_users-passes roles rows users hs)
        (ap
          (λ (x : Option String). ok (record { id = u.id; role = x; columns = u.columns } ∷ users))
          (sym g))

  -- The user is the one whose primary role the row gives.
  abbrev points : List Assignment → Assignment → Account C → Bool
  points rows a u =
      (with_link u (primary_row u.id rows)).id == a.user_id
      && (with_link u (primary_row u.id rows)).primary_role_id == a.role_id

  module _ (t : Tables C) (h : IsMirrored t) (a : Assignment) (m : Among a t.user_roles) where
    -- The row of a user that is found is the given one, if both are primary.
    points_of_primary :
        (u : Account C)
        → (u.id == a.user_id) ≡ true
        → IsNamed t.roles t.user_roles u
        → a.is_primary ≡ true
        → points t.user_roles a u ≡ true
    points_of_primary u same (b, r, e, f, g) p =
        let (n, k) =
          find-Among (λ (x : Assignment). x.user_id == u.id && x.is_primary) t.user_roles b e in
        let one : b ≡ a =
          unique-Among both_primary t.user_roles b a (λ x y. ground arith) h.primaries n m
            (ground arith) in
        rw (e, same) (ground arith)

    -- A row that gives a user's primary role is the one that is found.
    primary_of_points :
        (u : Account C)
        → IsNamed t.roles t.user_roles u
        → points t.user_roles a u ≡ true
        → a.is_primary ≡ true
    primary_of_points u (b, r, e, f, g) k =
        let k' : (u.id == a.user_id && b.role_id == a.role_id) ≡ true =
          subst
            (λ (o : Option Assignment).
              ((with_link u o).id == a.user_id && (with_link u o).primary_role_id == a.role_id)
              ≡ true)
            e k in
        let (n, found) =
          find-Among (λ (x : Assignment). x.user_id == u.id && x.is_primary) t.user_roles b e in
        let one : b ≡ a =
          unique-Among same_pair t.user_roles b a (λ x y. ground arith) h.pairs n m
            (ground arith) in
        subst (λ (x : Assignment). x.is_primary ≡ true) one (ground arith)

    -- A row is marked again if it was, and only then.
    marked-primary : any (points t.user_roles a) t.users ≡ a.is_primary
    marked-primary = elim (Bool-cases a.is_primary) [
      | inl p ↦
          let (u, mu, same) =
            element_of_any (λ (u : Account C). u.id == a.user_id) t.users
              (All-Among (HasUser t.users) t.user_roles a h.owned m) in
          any-Among (points t.user_roles a) t.users u mu (
            points_of_primary u same (All-Among (IsNamed t.roles t.user_roles) t.users u h.names mu)
              p)
          ∙ sym p
      | inr p ↦ elim (Bool-cases (any (points t.user_roles a) t.users)) [
        | inl e ↦
            let (u, mu, k) = element_of_any (points t.user_roles a) t.users e in
            let q : a.is_primary ≡ true =
              primary_of_points u (All-Among (IsNamed t.roles t.user_roles) t.users u h.names mu)
                k in
            absurd (cc)
        | inr e ↦ e ∙ sym p
      ]
    ]

  marked_rows :
      (t : Tables C)
      → IsMirrored t
      → map (marked (people_of t.user_roles t.users)) (map unmarked t.user_roles) ≡ t.user_roles
  marked_rows t h = map_twice unmarked (marked (people_of t.user_roles t.users)) t.user_roles (
      All_of_among _ t.user_roles (λ a m.
        ap
          (λ (b : Bool). record {
            id = a.id;
            user_id = a.user_id;
            role_id = a.role_id;
            is_primary = b;
            assigned_at = a.assigned_at;
          })
          (any-map (λ (p : Person C). p.id == a.user_id && p.primary_role_id == a.role_id)
              (λ (u : Account C). with_link u (primary_row u.id t.user_roles)) t.users
            ∙ marked-primary t h a m)))

  -- On tables where `users.role` mirrors the primary rows, the revision Succeeds, and its downgrade
  -- then restores every row of `users`, `roles` and `user_roles`.
  pub downgrade-upgrade_primary_role :
      (t : Tables C)
      → IsMirrored t
      → (l : Linked C) × (upgrade_primary_role t ≡ ok l) × (downgrade_primary_role l ≡ ok t)
  unfolding downgrade_primary_role mark_rows
  downgrade-upgrade_primary_role t h = (
    linked_tables t,
    upgrade_primary_role-passes t (
        All-map (IsNamed t.roles t.user_roles) (HasRole t.roles t.user_roles) t.users
          (IsNamed-HasRole t.roles t.user_roles) h.names),
    rw (marked_rows t h, h.primaries, name_users-passes t.roles t.user_roles t.users h.names) refl,
  )
