-- ===== src/Intake/Create.antt =====
-- vehicle_intake_service.create_vehicle_submission.
use awa_platform.Prelude.{
  ℕ, String, Bool, true, false, Option, none, some, List, [], ◌∷◌, if◌then◌else◌, is_some,
}
use awa_platform.Prelude.Int.{ℤ}
use awa_platform.Exceptions.{
  Result, ok, raise, vehicle_lookup_not_found_error, duplicate_chassis_number_error, ◌>>=◌,
}
use awa_platform.Roles.{or_raise}
use awa_platform.Intake.{
  Lookup, VehicleModel, VehicleListing, Yard, Text, listing_clash, get_active, get_active_model,
  user_exists, is_sub_seller_of_client,
}

pub record VehicleSubmissionCreate : Type 0 where
  pub chassis_number : String
  pub make_id : ℕ
  pub model_id : ℕ
  pub branch_id : ℕ
  pub color_id : ℕ
  pub keys_option_id : ℕ
  pub fuel_type_id : ℕ
  pub bidding_model_id : Option ℕ
  pub year : ℤ
  pub target_selling_price : ℤ
  pub minimum_selling_price : ℤ
  pub previous_number_plate : String
  pub client_id : ℕ
  pub sub_seller_id : Option ℕ
  pub mulkhiya_document_url : Option String
  pub terms_accepted : Bool

-- `if not ok: raise VehicleLookupNotFoundError(field, value)`
abbrev pub require : Bool → (field : String) → (value : ℕ) → Result (Unit {0})
require true field value = ok tt
require false field value = raise (vehicle_lookup_not_found_error field value)

-- A check that an id which is None passes.
abbrev pub if_given : (ℕ → Bool) → Option ℕ → (field : String) → Result (Unit {0})
if_given p none field = ok tt
if_given p (some value) field = require (p value) field value

abbrev pub lookup_exists : List Lookup → ℕ → Bool
lookup_exists rows value = is_some (get_active value rows)

-- The checks of the ids, in their order; the result is the make, the model and the branch.
unfoldable pub check_submission :
    VehicleSubmissionCreate → Yard → Result (Lookup × VehicleModel × Lookup)
check_submission p y = do
  make ←
      or_raise (vehicle_lookup_not_found_error "make_id" p.make_id) (get_active p.make_id y.makes)
  model ←
      or_raise (vehicle_lookup_not_found_error "model_id" p.model_id)
        (get_active_model p.model_id y.models)
  branch ←
      or_raise (vehicle_lookup_not_found_error "branch_id" p.branch_id)
        (get_active p.branch_id y.branches)
  _ ← require (lookup_exists y.colors p.color_id) "color_id" p.color_id
  _ ← require (lookup_exists y.key_options p.keys_option_id) "keys_option_id" p.keys_option_id
  _ ← require (lookup_exists y.fuel_types p.fuel_type_id) "fuel_type_id" p.fuel_type_id
  _ ← if_given (lookup_exists y.bidding_models) p.bidding_model_id "bidding_model_id"
  _ ← require (user_exists p.client_id y) "client_id" p.client_id
  _ ← if_given (λ id. is_sub_seller_of_client id p.client_id y) p.sub_seller_id "sub_seller_id"
  ok (make, model, branch)

module _ (text : Text) where
  abbrev pub title : String → String → ℤ → String
  title make model year = text.concat (make ∷ " " ∷ model ∷ " " ∷ text.str_year year ∷ [])

  abbrev pub new_listing :
      (id created_by_id : ℕ)
      → VehicleSubmissionCreate
      → Lookup × VehicleModel × Lookup
      → VehicleListing
  new_listing id created_by_id p (make, model, branch) = record {
    id = id;
    status = "submitted";
    is_active = false;
    chassis_number = some (text.strip p.chassis_number);
    title_en = title make.name_en model.lookup.name_en p.year;
    title_ar = title make.name_ar model.lookup.name_ar p.year;
    detail_url = text.concat ("/admin/sellers/vehicle/" ∷ text.str_uuid id ∷ []);
    location_en = some branch.name_en;
    location_ar = some branch.name_ar;
    make_id = some p.make_id;
    model_id = some p.model_id;
    branch_id = some p.branch_id;
    color_id = some p.color_id;
    keys_option_id = some p.keys_option_id;
    fuel_type_id = some p.fuel_type_id;
    bidding_model_id = p.bidding_model_id;
    year = some p.year;
    target_selling_price = some p.target_selling_price;
    minimum_selling_price = some p.minimum_selling_price;
    previous_number_plate = some (text.strip p.previous_number_plate);
    seller_id = some p.client_id;
    sub_seller_id = p.sub_seller_id;
    created_by_id = some created_by_id;
    mulkhiya_document_url = p.mulkhiya_document_url;
    terms_accepted = p.terms_accepted;
  }

-- `db.add(listing)` and the commit: `none` is the rollback after an IntegrityError.
unfoldable pub add_listing : VehicleListing → Yard → Option Yard
add_listing listing y =
    if listing_clash listing y.listings
    then none
    else some (record y { listings = listing ∷ y.listings })

abbrev pub or_duplicate :
    String → VehicleListing → Yard → Option Yard → Result VehicleListing × Yard
or_duplicate chassis listing y none = (raise (duplicate_chassis_number_error chassis), y)
or_duplicate chassis listing y (some y') = (ok listing, y')

unfoldable pub create_checked :
    Text
    → (id created_by_id : ℕ) → VehicleSubmissionCreate
    → Result (Lookup × VehicleModel × Lookup)
    → Yard
    → Result VehicleListing × Yard
create_checked text id created_by_id p (raise e) y = (raise e, y)
create_checked text id created_by_id p (ok rows) y =
    let listing = new_listing text id created_by_id p rows in
    or_duplicate p.chassis_number listing y (add_listing listing y)

unfoldable pub create_vehicle_submission :
    Text → (id created_by_id : ℕ) → VehicleSubmissionCreate → Yard → Result VehicleListing × Yard
unfolding create_checked
create_vehicle_submission text id created_by_id p y =
    create_checked text id created_by_id p (check_submission p y) y
