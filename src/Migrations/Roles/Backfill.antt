-- ===== src/Migrations/Roles/Backfill.antt =====
-- What the revision 0029 leaves behind for each user.
use awa_platform.Prelude.{
  ℕ, String, ◌+◌, ◌≡◌, refl, sym, subst, Bool, true, false, ◌&&◌, some, List, [], ◌∷◌, map, arith,
  ◌==◌, ==_iff, str_eq,
}
use awa_platform.Prelude.Lists.{All, All-map, length, any, select}
use awa_platform.Exceptions.{ok}
use awa_platform.Models.Role.{Role}
use awa_platform.Migrations.Roles.{
  Account, Assignment, Tables, unique, given_roles, unseeded_names, role_ids, role_id_for,
  assignment_rows, insert_assignments, buyer_role_id, assign_all, upgrade_roles,
}
use awa_platform.Migrations.Roles.Collates.{
  TellsApart, all_names, unseeded_apart, unique_seeded, unique_after,
}
use awa_platform.Migrations.Roles.Known.{
  names_after, roles_after, name-roles_after, seed_and_legacy_roles-passes, role_ids-named,
  given-names_after, wanted, is_named, IsGiven, All-IsGiven, wanted_known, role_id_for-named,
}

-- The rows of one user.
abbrev pub rows_of : ℕ → List Assignment → List Assignment
rows_of user_id rows = select (λ (a : Assignment). a.user_id == user_id) rows

All-both :
    {A : Type 0} (P Q R : A → Type 0) (xs : List A)
    → ((x : A) → P x → Q x → R x)
    → All P xs
    → All Q xs
    → All R xs
All-both P Q R [] f h k = tt
All-both P Q R (x ∷ xs) f (h, hs) (k, ks) = (f x h k, All-both P Q R xs f hs ks)

module _ {C : Type 0} where
  -- No two users have the same id.
  abbrev pub HasUniqueIds : List (Account C) → Type 0
  HasUniqueIds users = unique ◌==◌ (map (λ (u : Account C). u.id) users) ≡ true

  -- The user has exactly one row; it is primary, and its role has the wanted name.
  abbrev pub IsAssigned : List Role → List Assignment → Account C → Type 0
  IsAssigned roles rows u =
      (a : Assignment) × (rows_of u.id rows ≡ a ∷ [])
      × (a.is_primary ≡ true)
      × (is_named a.role_id (wanted u.role) roles ≡ true)

  module _ (uuid : ℕ → ℕ) (now : ℕ) (roles : List Role) (buyer_id : ℕ) where
    abbrev rows : ℕ → List (Account C) → List Assignment
    rows start users = assignment_rows uuid now start roles buyer_id users

    abbrev row_of : ℕ → Account C → Assignment
    row_of start u = record {
      id = uuid start;
      user_id = u.id;
      role_id = role_id_for roles buyer_id u.role;
      is_primary = true;
      assigned_at = now;
    }

    -- A test that asks for a user who is not there finds no row.
    none_of :
        (q : Assignment → Bool) (id start : ℕ) (users : List (Account C))
        → any (◌==◌ id) (map (λ (u : Account C). u.id) users) ≡ false
        → any (λ (a : Assignment). id == a.user_id && q a) (rows start users) ≡ false
    unfolding assignment_rows
    none_of q id start [] h = refl
    none_of q id start (u ∷ users) h = ground (arith, none_of q id (start + 1) users)

    unique-rows :
        (q : Assignment → Assignment → Bool) (start : ℕ) (users : List (Account C))
        → HasUniqueIds users
        → unique (λ (a b : Assignment). a.user_id == b.user_id && q a b) (rows start users) ≡ true
    unfolding assignment_rows
    unique-rows q start [] h = refl
    unique-rows q start (u ∷ users) h = ground (
      arith,
      none_of (q (row_of start u)) u.id (start + 1) users,
      unique-rows q (start + 1) users,
    )

    rows_of_absent :
        (id start : ℕ) (users : List (Account C))
        → any (◌==◌ id) (map (λ (u : Account C). u.id) users) ≡ false
        → rows_of id (rows start users) ≡ []
    unfolding assignment_rows
    rows_of_absent id start [] h = refl
    rows_of_absent id start (u ∷ users) h = ground (arith, rows_of_absent id (start + 1) users)

    -- What each user's row must be like, once the names of the roles are known.
    module _ (buyer : role_ids roles "Buyer" ≡ some buyer_id) where
      abbrev IsKnown : Account C → Type 0
      IsKnown u = any (str_eq (wanted u.role)) (map (λ (r : Role). r.name) roles) ≡ true

      others :
          (u : Account C) (users : List (Account C))
          → any (◌==◌ u.id) (map (λ (v : Account C). v.id) users) ≡ false
          → All (λ (v : Account C). (u.id == v.id) ≡ false) users
      others u [] h = tt
      others u (v ∷ users) h = (ground arith, others u users (ground arith))

      -- A row of another user changes nothing.
      keeps-IsAssigned :
          (r : Assignment) (rest : List Assignment) (u : Account C)
          → (r.user_id == u.id) ≡ false
          → IsAssigned roles rest u
          → IsAssigned roles (r ∷ rest) u
      keeps-IsAssigned r rest u e (a, one, p, k) = (a, rw e one, p, k)

      assigns :
          (start : ℕ) (users : List (Account C))
          → HasUniqueIds users
          → All IsKnown users
          → All (IsAssigned roles (rows start users)) users
      unfolding assignment_rows
      assigns start [] h k = tt
      assigns start (u ∷ users) h (k, ks) =
          let fresh : any (◌==◌ u.id) (map (λ (v : Account C). v.id) users) ≡ false =
            ground arith in
          (
            (
              row_of start u,
              rw ((==_iff u.id u.id).1 refl, rows_of_absent u.id (start + 1) users fresh) refl,
              refl,
              role_id_for-named roles buyer_id u.role buyer k,
            ),
            All-both (λ (v : Account C). (u.id == v.id) ≡ false)
                (IsAssigned roles (rows (start + 1) users))
                (IsAssigned roles (rows start (u ∷ users))) users
                (λ v e a. keeps-IsAssigned (row_of start u) (rows (start + 1) users) v e a)
                (others u users fresh) (assigns (start + 1) users (ground arith) ks),
          )

-- The insert passes both indexes, since each user has one row.
insert_assignments-passes :
    {C : Type 0} (uuid : ℕ → ℕ) (now start : ℕ) (roles : List Role) (buyer_id : ℕ)
    (users : List (Account C))
    → HasUniqueIds users
    → insert_assignments (assignment_rows uuid now start roles buyer_id users)
      ≡ ok (assignment_rows uuid now start roles buyer_id users)
unfolding insert_assignments
insert_assignments-passes uuid now start roles buyer_id users h =
    rw
      (
        unique-rows uuid now roles buyer_id (λ a b. a.role_id == b.role_id) start users h,
        unique-rows uuid now roles buyer_id (λ a b. a.is_primary && b.is_primary) start users h,
      )
      refl

-- The rows of all users, once the roles are there.
assign_all-assigns :
    {C : Type 0} (uuid : ℕ → ℕ) (now start : ℕ) (users : List (Account C)) (roles : List Role)
    (names : List String)
    → HasUniqueIds users
    → map (λ (r : Role). r.name) roles ≡ names
    → any (str_eq "Buyer") names ≡ true
    → All (IsGiven names) users
    → (t : Tables C) × (assign_all uuid now start users roles ≡ ok t)
      × (t.users ≡ users)
      × All (IsAssigned t.roles t.user_roles) users
unfolding assign_all buyer_role_id
assign_all-assigns uuid now start users roles names h e b given =
    let (buyer_id, buyer, _) =
      role_ids-named roles "Buyer" (subst (λ ns. any (str_eq "Buyer") ns ≡ true) (sym e) b) in
    (
      record {
        users = users;
        roles = roles;
        user_roles = assignment_rows uuid now start roles buyer_id users;
      },
      rw
          (
            assign_all,
            buyer_role_id,
            buyer,
            insert_assignments-passes uuid now start roles buyer_id users h,
          )
          refl,
      refl,
      assigns uuid now roles buyer_id buyer start users h (
          All-map (IsGiven names) _ users
            (λ u k.
              subst (λ ns. any (str_eq (wanted u.role)) ns ≡ true) (sym e)
                (wanted_known names u.role b k))
            given),
    )

-- If the collation takes no two different names for the same, of those that are seeded and those that
-- the users have, then after the revision every user has exactly one row in `user_roles`; it is primary,
-- and it names a role with the text that the user had, or Buyer for none.
pub upgrade_roles_assigns :
    {C : Type 0} (eq : String → String → Bool) (uuid : ℕ → ℕ) (now : ℕ)
    (before : String → String → Bool) (users : List (Account C))
    → TellsApart eq (all_names users)
    → HasUniqueIds users
    → (t : Tables C) × (upgrade_roles eq uuid now before users ≡ ok t)
      × (t.users ≡ users)
      × All (IsAssigned t.roles t.user_roles) users
unfolding upgrade_roles
upgrade_roles_assigns eq uuid now before users apart h =
    let names = unseeded_names str_eq before users in
    let (t, runs, same, assigned) =
      assign_all-assigns uuid now (8 + length names) users (roles_after uuid names)
        (names_after before users) h (name-roles_after uuid names) refl
        (All-map (IsGiven (given_roles users)) (IsGiven (names_after before users)) users
          (λ u k n e. given-names_after before users n (k n e)) (All-IsGiven users)) in
    (
      t,
      rw
          (
            upgrade_roles,
            unseeded_apart eq before users apart,
            seed_and_legacy_roles-passes eq uuid names (unique_seeded eq before users apart)
                (unique_after eq before users apart),
          )
          runs,
      same,
      assigned,
    )
