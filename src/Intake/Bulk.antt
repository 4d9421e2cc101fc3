-- ===== src/Intake/Bulk.antt =====
-- vehicle_intake_service._create_bulk_row and bulk_create_vehicle_submissions, and the counts of
-- the endpoint in api/v1/vehicle_intake.py.
use awa_platform.Prelude.{
  ℕ, String, Bool, true, false, Option, none, some, List, [], ◌∷◌, if◌then◌else◌, str_eq,
}
use awa_platform.Prelude.Lists.{length, select}
use awa_platform.Exceptions.{Result, ok, raise, assertion_error, data_error, ◌>>=◌}
use awa_platform.Roles.{or_raise}
use awa_platform.Intake.{VehicleListing, Yard, Text}
use awa_platform.Intake.Create.{title, add_listing}
use awa_platform.Intake.Sheet.{VehicleBulkRowInput, Cells, read_cells, checks}

pub record VehicleBulkRowResult : Type 0 where
  pub row_number : ℕ
  pub status : String
  pub chassis_number : Option String
  pub vehicle_id : Option ℕ
  pub errors : Option (List (String × String))

-- `raw or None`
abbrev pub or_none : String → Option String
or_none s = if str_eq s "" then none else some s

module _ (text : Text) where
  -- The dictionary `errors`, in the order of the checks.
  unfoldable pub failing : List (Bool × String × String) → List (String × String)
  failing [] = []
  failing ((fails, key, message) ∷ cs) =
      let rest = failing cs in if fails then (key, message) ∷ rest else rest

  -- The assertion, and the listing of a row without errors.
  unfoldable pub bulk_listing :
      (id created_by_id : ℕ) → VehicleBulkRowInput → Cells → Result VehicleListing
  bulk_listing id created_by_id row c = do
    make ← or_raise assertion_error c.make
    model ← or_raise assertion_error c.model
    branch ← or_raise assertion_error c.branch
    color ← or_raise assertion_error c.color
    keys_option ← or_raise assertion_error c.keys_option
    fuel_type ← or_raise assertion_error c.fuel_type
    client ← or_raise assertion_error c.client
    year ← or_raise assertion_error c.year
    ok (record {
      id = id;
      status = "submitted";
      is_active = false;
      chassis_number = some (text.strip row.chassis_number);
      title_en = title text make.name_en model.lookup.name_en year;
      title_ar = title text make.name_ar model.lookup.name_ar year;
      detail_url = text.concat ("/admin/sellers/vehicle/" ∷ text.str_uuid id ∷ []);
      location_en = some branch.name_en;
      location_ar = some branch.name_ar;
      make_id = some make.id;
      model_id = some model.lookup.id;
      branch_id = some branch.id;
      color_id = some color.id;
      keys_option_id = some keys_option.id;
      fuel_type_id = some fuel_type.id;
      bidding_model_id = elim c.bidding_model [ none ↦ none | some b ↦ some b.id ];
      year = some year;
      target_selling_price = c.target_price;
      minimum_selling_price = c.min_price;
      previous_number_plate = some (text.strip row.previous_number_plate);
      seller_id = some client.id;
      sub_seller_id = elim c.sub_seller [ none ↦ none | some s ↦ some s.id ];
      created_by_id = some created_by_id;
      mulkhiya_document_url = none;
      terms_accepted = true;
    })

  abbrev pub error_result : VehicleBulkRowInput → List (String × String) → VehicleBulkRowResult
  error_result row errors = record {
    row_number = row.row_number;
    status = "error";
    chassis_number = or_none row.chassis_number;
    vehicle_id = none;
    errors = some errors;
  }

  unfoldable pub commit_row :
      VehicleBulkRowInput → VehicleListing → Yard → Option Yard → VehicleBulkRowResult × Yard
  commit_row row listing y none = (
    error_result row (
        (
          "chassis_number",
          text.concat ("Chassis number already submitted: " ∷ row.chassis_number ∷ []),
        )
        ∷ []),
    y,
  )
  commit_row row listing y (some y') = (
    record {
      row_number = row.row_number;
      status = "created";
      chassis_number = listing.chassis_number;
      vehicle_id = some listing.id;
      errors = none;
    },
    y',
  )

  -- Only IntegrityError is caught: a DataError leaves the loop, after the commits of earlier rows.
  unfoldable pub insert_row :
      VehicleBulkRowInput → Result VehicleListing → Yard → Result VehicleBulkRowResult × Yard
  unfolding commit_row
  insert_row row (raise e) y = (raise e, y)
  insert_row row (ok listing) y =
      let (r, y') = commit_row row listing y (add_listing listing y) in
      if text.fits listing then (ok r, y') else (raise data_error, y)

  unfoldable pub finish_row :
      (id created_by_id : ℕ)
      → VehicleBulkRowInput
      → Cells
      → List (String × String)
      → Yard
      → Result VehicleBulkRowResult × Yard
  unfolding insert_row
  finish_row id created_by_id row c [] y = insert_row row (bulk_listing id created_by_id row c) y
  finish_row id created_by_id row c (e ∷ errors) y = (ok (error_result row (e ∷ errors)), y)

  -- `_create_bulk_row`
  unfoldable pub create_bulk_row :
      (id created_by_id : ℕ) → VehicleBulkRowInput → Yard → Result VehicleBulkRowResult × Yard
  unfolding finish_row
  create_bulk_row id created_by_id row y =
      let c = read_cells text row y in
      finish_row id created_by_id row c (failing (checks text row c)) y

  unfoldable pub then_row :
      VehicleBulkRowResult
      → Result (List VehicleBulkRowResult) × Yard
      → Result (List VehicleBulkRowResult) × Yard
  then_row r (ok rs, y) = (ok (r ∷ rs), y)
  then_row r (raise e, y) = (raise e, y)

  -- The rows with the ids that are drawn for them. An exception would leave the rows after it out.
  unfoldable pub bulk_create_vehicle_submissions :
      (created_by_id : ℕ)
      → List (ℕ × VehicleBulkRowInput)
      → Yard
      → Result (List VehicleBulkRowResult) × Yard
  unfolding then_row
  bulk_create_vehicle_submissions created_by_id [] y = (ok [], y)
  bulk_create_vehicle_submissions created_by_id ((id, row) ∷ rows) y =
      let (r, y') = create_bulk_row id created_by_id row y in
      let rest = bulk_create_vehicle_submissions created_by_id rows y' in
      elim r [ ok x ↦ then_row x rest | raise e ↦ (raise e, y') ]

abbrev pub is_created : VehicleBulkRowResult → Bool
is_created r = str_eq r.status "created"

-- `sum(1 for r in results if r.status == "created")`
abbrev pub created_count : List VehicleBulkRowResult → ℕ
created_count rs = length (select is_created rs)
