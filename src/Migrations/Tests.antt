-- ===== src/Migrations/Tests.antt =====
-- The revisions on small databases.
use awa_platform.Prelude.{
  str_eq, ◌||◌, ◌&&◌, map, ℕ, String, ◌+◌, ◌≡◌, refl, Bool, true, false, Option, none, some, List,
  [], ◌∷◌, map, arith,
}
use awa_platform.Prelude.Int.{pos}
use awa_platform.Prelude.Lists.{All, length}
use awa_platform.Exceptions.{ok, raise, integrity_error, ◌>>=◌}
use awa_platform.Models.User.{User}
use awa_platform.Models.Role.{Role}
use awa_platform.Session.{Db, empty_db}
use awa_platform.Roles.{holds, or_raise}
use awa_platform.Roles.Grant.{IsRoled}
use awa_platform.Admin.{AdminNavItem}
use awa_platform.Migrations.Roles.{
  Account, Assignment, Tables, seed_roles, role_rows, role_ids, distinct_by, insert_sorted, sorted,
  given_roles, unseeded_names, seed_and_legacy_roles, insert_roles, upgrade_roles,
}
use awa_platform.Migrations.Roles.Backfill.{IsAssigned, upgrade_roles_assigns}
use awa_platform.Migrations.PrimaryRole.{Linked, upgrade_primary_role, downgrade_primary_role}
use awa_platform.Migrations.PrimaryRole.RoundTrip.{IsMirrored, downgrade-upgrade_primary_role}
use awa_platform.Migrations.PrimaryRole.Chain.{migrated, upgrades-IsRoled}
use awa_platform.Migrations.Featured.{Card, Placed, upgrade_listings, drop_card_columns}
use awa_platform.Migrations.Featured.Split.{seen, seen_placed, split_keeps_cards}
use awa_platform.Migrations.Demo.{
  split_space, split_name, upgrade_demo_users, run_migrations, seed_each, seed_demo_user,
  role_id_of, insert_demo_user, insert_demo_role, scalar_one, add_second_role,
}
use awa_platform.Migrations.Demo.Seeded.{upgrade_demo_users-IsRoled}
use awa_platform.Migrations.Dashboard.{
  described_rows, upgrade_admin_dashboard, upgrade_seller_images, downgrade_seller_images,
  upgrade_seller_icons, downgrade_seller_icons,
}
use awa_platform.Migrations.Dashboard.Sellers.{seller_cards_undone}
use awa_platform.Migrations.Dashboard.Undo.{upgrade_sections, downgrade_sections, sections_undone}
use awa_platform.Migrations.Dashboard.Overview.{
  insert_or_update, place_admin, admin_id_of, place_child, upgrade_overview,
}
use awa_platform.Migrations.Dashboard.Overview.Linked.{IsOverview, upgrade_overview-IsOverview}

abbrev ids : ℕ → ℕ
ids n = n + 100

abbrev any_order : String → String → Bool
any_order a b = true

abbrev person : ℕ → String → User
person id email = record {
  id = id;
  email = email;
  password_hash = "";
  first_name = "";
  last_name = "";
  phone = none;
  primary_role_id = 100;
  is_active = true;
  is_email_verified = true;
  failed_login_attempts = 0;
  locked_until = none;
  last_login_at = none;
}

abbrev account : ℕ → Option String → Account User
account id role = record { id = id; role = role; columns = person id "a@example.com" }

abbrev accounts : List (Account User)
accounts =
    account 1 (some "Admin")
    ∷ account 2 (some "Dealer")
    ∷ account 3 none
    ∷ account 4 (some "Dealer")
    ∷ []

-- The legacy name gets one row.
legacy_names : unseeded_names str_eq any_order accounts ≡ "Dealer" ∷ []
unfolding unseeded_names sorted insert_sorted distinct_by given_roles
legacy_names = refl

upgrade_roles_assigns_example :
    (t : Tables User) × (upgrade_roles str_eq ids 5 any_order accounts ≡ ok t)
    × (t.users ≡ accounts)
    × All (IsAssigned t.roles t.user_roles) accounts
upgrade_roles_assigns_example =
    upgrade_roles_assigns str_eq ids 5 any_order accounts (λ s t d e. refl) refl

-- Under a collation that ignores case, a user with the role "buyer" makes the revision fail.
buyer_fails :
    upgrade_roles
      (λ s t. str_eq s t || (str_eq s "Buyer" && str_eq t "buyer"))
      ids
      5
      any_order
      (map (λ (u : Account User). record u { role = some "buyer" }) accounts)
    ≡ raise integrity_error
unfolding upgrade_roles unseeded_names given_roles sorted insert_sorted distinct_by
    seed_and_legacy_roles insert_roles role_rows
buyer_fails = refl

upgrades-IsRoled_example :
    (l : Linked User) × ((upgrade_roles str_eq ids 5 any_order accounts >>= upgrade_primary_role)
      ≡ ok l)
    × IsRoled (migrated empty_db l)
upgrades-IsRoled_example =
    upgrades-IsRoled str_eq ids 5 any_order accounts empty_db (λ s t d e. refl) refl

abbrev role : ℕ → String → Role
role id name = record { id = id; name = name; description = none; is_active = true }

abbrev assignment : ℕ → ℕ → ℕ → Bool → Assignment
assignment id user_id role_id is_primary = record {
  id = id;
  user_id = user_id;
  role_id = role_id;
  is_primary = is_primary;
  assigned_at = 5;
}

-- A buyer who also sells, and an administrator.
abbrev mirrored : Tables User
mirrored = record {
  users = account 1 (some "Buyer") ∷ account 2 (some "Admin") ∷ [];
  roles = role 10 "Buyer" ∷ role 11 "Seller" ∷ role 12 "Admin" ∷ [];
  user_roles = assignment 20 1 11 false ∷ assignment 21 1 10 true ∷ assignment 22 2 12 true ∷ [];
}

mirrored-IsMirrored : IsMirrored mirrored
mirrored-IsMirrored = record {
  names = (
    (assignment 21 1 10 true, role 10 "Buyer", refl, refl, refl),
    ((assignment 22 2 12 true, role 12 "Admin", refl, refl, refl), tt),
  );
  owned = (refl, (refl, (refl, tt)));
  pairs = refl;
  primaries = refl;
}

downgrade-upgrade_primary_role_example :
    (l : Linked User) × (upgrade_primary_role mirrored ≡ ok l)
    × (downgrade_primary_role l ≡ ok mirrored)
downgrade-upgrade_primary_role_example = downgrade-upgrade_primary_role mirrored mirrored-IsMirrored

abbrev card : String → Option String → Card
card title detail_url = record {
  title_en = title;
  title_ar = title;
  image_url = none;
  detail_url = detail_url;
  lot_number = none;
  mileage = none;
  location_en = none;
  location_ar = none;
  bid_amount = none;
  countdown_label = none;
}

abbrev featured : List (Placed String)
featured =
    record { id = 1; card = card "Patrol" (some "/patrol"); columns = "x" }
    ∷ record { id = 2; card = card "Corolla" none; columns = "y" }
    ∷ []

split_keeps_cards_example :
    map
      (seen (upgrade_listings ids featured).0)
      (drop_card_columns (upgrade_listings ids featured).1)
    ≡ map seen_placed featured
split_keeps_cards_example = split_keeps_cards ids featured (λ i j e. omega arith) refl

-- A database where somebody has signed up with the address of a demo account.
abbrev signed_up : Db
signed_up = record empty_db {
  users = person 3 "admin1@gmail.com" ∷ [];
  roles = role_rows ids 0 seed_roles;
  user_roles = record { id = 20; user_id = 3; role_id = 100; assigned_at = 4 } ∷ [];
}

abbrev demo_ids : ℕ → ℕ → ℕ
demo_ids k j = 1000 + k + k + k + j

two_names : split_name (λ s. s) "Buyer One" ≡ ("Buyer", "One")
unfolding split_name split_space
two_names = refl

upgrade_demo_users-IsRoled_example :
    IsRoled (run_migrations (upgrade_demo_users (λ s. s) "hash" 6 demo_ids) signed_up)
upgrade_demo_users-IsRoled_example =
    upgrade_demo_users-IsRoled (λ s. s) "hash" 6 demo_ids signed_up (refl, tt)

-- The account that was there before holds the role of an administrator now.
made_admin :
    holds 3
      (ids 2)
      (run_migrations (upgrade_demo_users (λ s. s) "hash" 6 demo_ids) signed_up).user_roles
    ≡ true
unfolding run_migrations upgrade_demo_users seed_each seed_demo_user role_id_of or_raise role_ids
    role_rows insert_demo_user insert_demo_role scalar_one add_second_role split_name split_space
made_admin = refl

abbrev entry : ℕ → String → AdminNavItem
entry id url = record {
  id = id;
  parent_id = none;
  label_en = "";
  label_ar = "";
  icon_class = none;
  url = url;
  sort_order = pos 0;
  is_active = false;
}

-- A navigation without the entry of the store.
abbrev navigation : List AdminNavItem
navigation = entry 1 "/" ∷ entry 2 "/admin" ∷ entry 3 "/admin/dashboard" ∷ []

one_more : length (upgrade_overview ids navigation) ≡ 4
unfolding upgrade_overview place_child place_admin admin_id_of insert_or_update
one_more = refl

upgrade_overview-IsOverview_example : IsOverview (upgrade_overview ids navigation)
upgrade_overview-IsOverview_example =
    upgrade_overview-IsOverview ids navigation refl (refl, refl, refl, refl, refl, refl)

-- The cards that 0010 inserts are as 0024 and 0025 expect them.
seeded_cards_undone :
    (downgrade_seller_images (upgrade_seller_images (λ s. s) (upgrade_admin_dashboard ids).cards)
      ≡ (upgrade_admin_dashboard ids).cards)
    × (downgrade_seller_icons (upgrade_seller_icons (upgrade_admin_dashboard ids).cards)
        ≡ (upgrade_admin_dashboard ids).cards)
unfolding upgrade_admin_dashboard described_rows
seeded_cards_undone =
    seller_cards_undone (λ s. s) (upgrade_admin_dashboard ids).cards
      (
        (refl, λ e. absurd (cc)),
        (
          (refl, λ e. absurd (cc)),
          (
            (refl, λ e. refl),
            (
              (refl, λ e. refl),
              (
                (refl, λ e. refl),
                (
                  (refl, λ e. refl),
                  (
                    (refl, λ e. refl),
                    (
                      (refl, λ e. refl),
                      (
                        (refl, λ e. refl),
                        (
                          (refl, λ e. refl),
                          ((refl, λ e. refl), ((refl, λ e. refl), ((refl, λ e. refl), tt))),
                        ),
                      ),
                    ),
                  ),
                ),
              ),
            ),
          ),
        ),
      )

-- None of them is in a section that 0012 to 0016 fill.
seeded_sections_undone :
    downgrade_sections
      (λ s. s)
      demo_ids
      (upgrade_sections (λ s. s) demo_ids (upgrade_admin_dashboard ids).cards)
    ≡ (upgrade_admin_dashboard ids).cards
unfolding upgrade_admin_dashboard described_rows
seeded_sections_undone =
    sections_undone (λ s. s) demo_ids (upgrade_admin_dashboard ids).cards
      (
        refl,
        (
          refl,
          (
            refl,
            (refl, (refl, (refl, (refl, (refl, (refl, (refl, (refl, (refl, (refl, tt)))))))))),
          ),
        ),
      )
      (refl, refl, refl, refl, refl)
