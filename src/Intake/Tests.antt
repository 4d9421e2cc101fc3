-- ===== src/Intake/Tests.antt =====
-- Submissions to a small yard.
use awa_platform.Prelude.{not, ℕ, String, ◌≡◌, refl, true, none, some, List, [], ◌∷◌, str_eq, map}
use awa_platform.Prelude.Int.{pos}
use awa_platform.Prelude.Lists.{length}
use awa_platform.Exceptions.{data_error, ok, raise, vehicle_lookup_not_found_error}
use awa_platform.Models.User.{User}
use awa_platform.Roles.{or_raise}
use awa_platform.Intake.{
  optional_eq, Lookup, Yard, Text, get_active, get_active_model, find_lookup_by_label,
  find_model_by_label, find_client_by_name, find_sub_seller_by_name, parse_decimal, parse_year,
}
use awa_platform.Intake.Create.{
  VehicleSubmissionCreate, check_submission, add_listing, create_checked, create_vehicle_submission,
}
use awa_platform.Intake.Sheet.{VehicleBulkRowInput, read_cells}
use awa_platform.Intake.Bulk.{
  VehicleBulkRowResult, failing, bulk_listing, commit_row, insert_row, finish_row, create_bulk_row,
  then_row, bulk_create_vehicle_submissions,
}
use awa_platform.Content.{Sql}
use awa_platform.Intake.Options.{Search}
use awa_platform.Intake.Resolved.{AllReported, bulk_create_reports}

abbrev plain : Text
plain = record {
  strip = λ s. s;
  lower = λ s. s;
  sql_lower = λ s. s;
  sql_eq = λ s t. str_eq s t;
  concat = λ parts. "";
  str_year = λ y. "";
  str_uuid = λ n. "";
  decimal = λ s. some (pos 1);
  int = λ s. some (pos 2020);
  fits = λ l. not (optional_eq l.chassis_number (some "C17"));
}

abbrev row : ℕ → String → Lookup
row id name = record { id = id; name_en = name; name_ar = name; sort_order = 0; is_active = true }

abbrev client : User
client = record {
  id = 3;
  email = "client";
  password_hash = "";
  first_name = "";
  last_name = "";
  phone = none;
  primary_role_id = 1;
  is_active = true;
  is_email_verified = true;
  failed_login_attempts = 0;
  locked_until = none;
  last_login_at = none;
}

abbrev yard : Yard
yard = record {
  makes = row 1 "Toyota" ∷ [];
  models = record { lookup = row 2 "Camry"; make_id = 1 } ∷ [];
  branches = row 3 "Dubai" ∷ [];
  colors = row 4 "White" ∷ [];
  key_options = row 5 "1" ∷ [];
  fuel_types = row 6 "Petrol" ∷ [];
  bidding_models = [];
  users = client ∷ [];
  roles = record { id = 1; name = "Seller"; description = none; is_active = true } ∷ [];
  user_roles = record { id = 10; user_id = 3; role_id = 1; assigned_at = 0 } ∷ [];
  sub_sellers = [];
  listings = [];
}

abbrev submission : VehicleSubmissionCreate
submission = record {
  chassis_number = "C1";
  make_id = 1;
  model_id = 2;
  branch_id = 3;
  color_id = 4;
  keys_option_id = 5;
  fuel_type_id = 6;
  bidding_model_id = none;
  year = pos 2020;
  target_selling_price = pos 10;
  minimum_selling_price = pos 5;
  previous_number_plate = "P";
  client_id = 3;
  sub_seller_id = none;
  mulkhiya_document_url = none;
  terms_accepted = true;
}

abbrev sheet_row : ℕ → String → VehicleBulkRowInput
sheet_row n chassis = record {
  row_number = n;
  chassis_number = chassis;
  make = "Toyota";
  model = "Camry";
  branch = "Dubai";
  year = "2020";
  keys_option = "1";
  fuel_type = "Petrol";
  color = "White";
  target_selling_price = "1";
  minimum_selling_price = "1";
  client = "client";
  sub_client = "";
  previous_number_plate = "P";
  bidding_model = "";
}

abbrev sheet : List (ℕ × VehicleBulkRowInput)
sheet =
    (21, sheet_row 1 "C1")
    ∷ (22, sheet_row 2 "C1")
    ∷ (23, record (sheet_row 3 "C3") { make = "Tesla" })
    ∷ (24, sheet_row 4 "C4")
    ∷ []

-- A repeated chassis number and an unknown make do not stop the rows after them.
statuses :
    elim (bulk_create_vehicle_submissions plain 9 sheet yard).0 as (λ _. List String) [
      | ok rs ↦ map (λ (r : VehicleBulkRowResult). r.status) rs
      | raise e ↦ []
    ]
    ≡ "created" ∷ "error" ∷ "error" ∷ "created" ∷ []
unfolding bulk_create_vehicle_submissions create_bulk_row then_row finish_row insert_row commit_row
    add_listing failing read_cells bulk_listing or_raise find_lookup_by_label find_model_by_label
    find_client_by_name find_sub_seller_by_name parse_decimal parse_year
statuses = refl

unknown_color :
    create_vehicle_submission plain 21 9 (record submission { color_id = 8 }) yard
    ≡ (raise (vehicle_lookup_not_found_error "color_id" 8), yard)
unfolding create_vehicle_submission create_checked check_submission or_raise get_active
    get_active_model
unknown_color = refl

bulk_create_reports_example :
    AllReported plain 9 sheet yard (bulk_create_vehicle_submissions plain 9 sheet yard)
bulk_create_reports_example = bulk_create_reports plain 9 sheet yard

-- A value that its column does not take ends the upload, and the rows before it stay.
unfit_row :
    let (r, y') =
      bulk_create_vehicle_submissions plain 9
        ((21, sheet_row 1 "C1") ∷ (22, sheet_row 2 "C17") ∷ (23, sheet_row 3 "C3") ∷ [])
        yard in
    (r ≡ raise data_error) × (length y'.listings ≡ 1)
unfolding bulk_create_vehicle_submissions create_bulk_row then_row finish_row insert_row commit_row
    add_listing failing read_cells bulk_listing or_raise find_lookup_by_label find_model_by_label
    find_client_by_name find_sub_seller_by_name parse_decimal parse_year
unfit_row = (refl, refl)

-- No order, and ILIKE as equality.
abbrev sql : Sql
sql = record {
  order_by = λ columns rows. rows;
  text_eq = str_eq;
  any-order_by = λ p columns rows. refl;
}

abbrev search : Search
search = record {
  ilike = λ column q. str_eq column q;
  by_first_name = λ rows. rows;
  by_name = λ rows. rows;
  any-by_first_name = λ p rows. refl;
  any-by_name = λ p rows. refl;
}
