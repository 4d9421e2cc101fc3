-- ===== src/Migrations/Roles.antt =====
-- alembic/versions/0029_roles.py: the tables `roles` and `user_roles`, filled from the text in
-- `users.role`. `eq` is how the database's collation compares names, in DISTINCT and in an index; Python
-- compares letter by letter.
pub mod Names
pub mod Known
pub mod Collates
pub mod Backfill
use awa_platform.Prelude.{
  ℕ, String, ◌+◌, Bool, true, false, not, ◌&&◌, ◌||◌, Option, none, some, List, [], ◌∷◌, ◌++◌, map,
  ◌==◌, if◌then◌else◌, str_eq,
}
use awa_platform.Prelude.Lists.{length, any, select}
use awa_platform.Models.Role.{Role}
use awa_platform.Exceptions.{Result, ok, raise, ◌>>=◌, integrity_error, key_error}

-- A row of `users` before 0030. The columns that the revisions do not touch are one value.
pub record Account (Columns : Type 0) : Type 0 where
  pub id : ℕ
  pub role : Option String
  pub columns : Columns

-- A row of `user_roles` before 0030.
pub record Assignment : Type 0 where
  pub id : ℕ
  pub user_id : ℕ
  pub role_id : ℕ
  pub is_primary : Bool
  pub assigned_at : ℕ

pub record Tables (Columns : Type 0) : Type 0 where
  pub users : List (Account Columns)
  pub roles : List Role
  pub user_roles : List Assignment

module _ {A : Type 0} where
  -- What a unique index on a list of values asks for.
  abbrev pub unique : (A → A → Bool) → List A → Bool
  unique eq [] = true
  unique eq (x ∷ xs) = not (any (eq x) xs) && unique eq xs

  -- SELECT DISTINCT
  unfoldable pub distinct_by : (A → A → Bool) → List A → List A
  distinct_by eq [] = []
  distinct_by eq (x ∷ xs) =
      let rest = distinct_by eq xs in if any (eq x) rest then rest else x ∷ rest

  unfoldable pub insert_sorted : (A → A → Bool) → A → List A → List A
  insert_sorted before x [] = x ∷ []
  insert_sorted before x (y ∷ ys) =
      let later = insert_sorted before x ys in if before x y then x ∷ y ∷ ys else y ∷ later

  -- `sorted(...)`
  unfoldable pub sorted : (A → A → Bool) → List A → List A
  unfolding insert_sorted
  sorted before [] = []
  sorted before (x ∷ xs) = insert_sorted before x (sorted before xs)

abbrev pub seed_roles : List (String × String)
seed_roles =
    ("Buyer", "Bids on and purchases vehicles in auctions.")
    ∷ ("Seller", "Lists vehicles for sale/auction.")
    ∷ ("Admin", "Full administrative access to the admin dashboard.")
    ∷ ("Accountant", "Finance/billing staff - admin Accountant section (invoices, payments).")
    ∷ ("Inspector", "Performs and reports on vehicle inspections.")
    ∷ ("Manager", "Admin Management section (penalties, subscriptions, etc.).")
    ∷ ("Operations", "Admin Operations section (inspection service scheduling, operation logs).")
    ∷ (
      "AuctionsHead",
      "Elevated bidding rights alongside Buyer - see services/bid_service.REQUIRED_BID_ROLES.",
    )
    ∷ []

-- `uuid n` is the id that the n-th call of uuid4 returns.
unfoldable pub role_rows : (uuid : ℕ → ℕ) (start : ℕ) → List (String × String) → List Role
role_rows uuid start [] = []
role_rows uuid start ((name, description) ∷ rest) =
    record { id = uuid start; name = name; description = some description; is_active = true }
    ∷ role_rows uuid (start + 1) rest

-- op.bulk_insert into `roles`, under the index uq_roles_name.
unfoldable pub insert_roles :
    (eq : String → String → Bool) → List Role → List Role → Result (List Role)
insert_roles eq new rows =
    let after = rows ++ new in
    if unique eq (map (λ (r : Role). r.name) after) then ok after else raise integrity_error

-- The values of `users.role` that are not NULL.
unfoldable pub given_roles : {C : Type 0} → List (Account C) → List String
given_roles [] = []
given_roles (u ∷ users) = elim u.role [ none ↦ given_roles users | some r ↦ r ∷ given_roles users ]

abbrev pub seeded_names : List String
seeded_names = map (λ (s : String × String). s.0) seed_roles

-- `sorted(legacy_names - seeded_names)`
unfoldable pub unseeded_names :
    {C : Type 0} (eq before : String → String → Bool) → List (Account C) → List String
unseeded_names eq before users =
    sorted before
      (select (λ n. not (any (str_eq n) seeded_names)) (distinct_by eq (given_roles users)))

abbrev pub legacy_description : String
legacy_description = "Auto-created from a pre-existing users.role value not in the seed list."

-- `role_ids.get(name)`: of the rows with one name, the dict keeps the last.
unfoldable pub role_ids : List Role → String → Option ℕ
role_ids [] name = none
role_ids (r ∷ rows) name =
    let later = role_ids rows name in
    elim later [ some id ↦ some id | none ↦ if str_eq r.name name then some r.id else none ]

-- `role_ids.get(role_name, buyer_id) if role_name else buyer_id`
unfoldable pub role_id_for : List Role → (buyer_id : ℕ) → Option String → ℕ
role_id_for roles buyer_id none = buyer_id
role_id_for roles buyer_id (some name) =
    if str_eq name ""
    then buyer_id
    else elim (role_ids roles name) [ some id ↦ id | none ↦ buyer_id ]

-- `now` is the time of the migration, the default of assigned_at.
unfoldable pub assignment_rows :
    {C : Type 0} (uuid : ℕ → ℕ) (now start : ℕ)
    → List Role
    → (buyer_id : ℕ) → List (Account C)
    → List Assignment
assignment_rows uuid now start roles buyer_id [] = []
assignment_rows uuid now start roles buyer_id (u ∷ users) =
    record {
      id = uuid start;
      user_id = u.id;
      role_id = role_id_for roles buyer_id u.role;
      is_primary = true;
      assigned_at = now;
    }
    ∷ assignment_rows uuid now (start + 1) roles buyer_id users

-- The indexes uq_user_roles_user_id_role_id and uq_user_roles_one_primary_per_user.
abbrev pub same_pair : Assignment → Assignment → Bool
same_pair a b = a.user_id == b.user_id && a.role_id == b.role_id

abbrev pub both_primary : Assignment → Assignment → Bool
both_primary a b = a.user_id == b.user_id && (a.is_primary && b.is_primary)

unfoldable pub insert_assignments : List Assignment → Result (List Assignment)
insert_assignments rows =
    if unique same_pair rows && unique both_primary rows then ok rows else raise integrity_error

-- `role_ids["Buyer"]`
unfoldable pub buyer_role_id : List Role → Result ℕ
buyer_role_id roles = elim (role_ids roles "Buyer") [ some id ↦ ok id | none ↦ raise key_error ]

-- `_seed_roles` and the first half of `_backfill_user_roles`.
unfoldable pub seed_and_legacy_roles :
    (eq : String → String → Bool) (uuid : ℕ → ℕ) → List String → Result (List Role)
seed_and_legacy_roles eq uuid names = insert_roles eq (role_rows uuid 0 seed_roles) [] >>= λ seeded.
    insert_roles eq (role_rows uuid 8 (map (λ n. (n, legacy_description)) names)) seeded

-- The second half of `_backfill_user_roles`, where `first` ids have been made.
unfoldable pub assign_all :
    {C : Type 0} (uuid : ℕ → ℕ) (now first : ℕ) → List (Account C) → List Role → Result (Tables C)
assign_all uuid now first users roles = buyer_role_id roles >>= λ buyer_id.
    insert_assignments (assignment_rows uuid now first roles buyer_id users) >>= λ rows.
    ok (record { users = users; roles = roles; user_roles = rows })

-- `upgrade`: the eight seeded rows, one for each unseeded name, and one for each user have ids.
unfoldable pub upgrade_roles :
    {C : Type 0} (eq : String → String → Bool) (uuid : ℕ → ℕ) (now : ℕ)
    (before : String → String → Bool)
    → List (Account C)
    → Result (Tables C)
upgrade_roles eq uuid now before users =
    let names = unseeded_names eq before users in
    seed_and_legacy_roles eq uuid names >>= assign_all uuid now (8 + length names) users
