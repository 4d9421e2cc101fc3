-- ===== src/Intake/Endpoints.antt =====
-- api/v1/vehicle_intake.py: the endpoints that add vehicles, for members of the staff. The others call
-- the functions of Intake.Options, the searches and the upload also for the staff only.
use awa_platform.Prelude.{ℕ, ◌-◌, List}
use awa_platform.Prelude.Lists.{length}
use awa_platform.Exceptions.{
  Exception, Result, ok, raise, vehicle_lookup_not_found_error, duplicate_chassis_number_error,
}
use awa_platform.Models.User.{User}
use awa_platform.Api.{Reply, reply, http_exception, unhandled}
use awa_platform.Intake.{VehicleListing, Yard, Text}
use awa_platform.Intake.Create.{VehicleSubmissionCreate, create_vehicle_submission}
use awa_platform.Intake.Sheet.{VehicleBulkRowInput}
use awa_platform.Intake.Bulk.{VehicleBulkRowResult, bulk_create_vehicle_submissions, created_count}

pub record VehicleBulkSubmitResult : Type 0 where
  pub total : ℕ
  pub created_count : ℕ
  pub error_count : ℕ
  pub results : List VehicleBulkRowResult

abbrev pub vehicle_error : {A : Type 0} → Exception → Reply A
vehicle_error (vehicle_lookup_not_found_error field value) = http_exception 404
vehicle_error (duplicate_chassis_number_error chassis) = http_exception 409
vehicle_error e = unhandled e

abbrev pub vehicle_reply : Result VehicleListing × Yard → Reply VehicleListing × Yard
vehicle_reply (ok listing, y) = (reply listing, y)
vehicle_reply (raise e, y) = (vehicle_error e, y)

-- For the user that the dependency on the staff has returned, or its answer.
unfoldable pub create_vehicle_endpoint :
    Text → (id : ℕ) → VehicleSubmissionCreate → Reply User → Yard → Reply VehicleListing × Yard
create_vehicle_endpoint text id payload (reply user) y =
    vehicle_reply (create_vehicle_submission text id user.id payload y)
create_vehicle_endpoint text id payload (http_exception status) y = (http_exception status, y)
create_vehicle_endpoint text id payload (unhandled e) y = (unhandled e, y)

abbrev pub bulk_result : List VehicleBulkRowResult → VehicleBulkSubmitResult
bulk_result results = record {
  total = length results;
  created_count = created_count results;
  error_count = length results - created_count results;
  results = results;
}

abbrev pub bulk_reply :
    Result (List VehicleBulkRowResult) × Yard → Reply VehicleBulkSubmitResult × Yard
bulk_reply (ok results, y) = (reply (bulk_result results), y)
bulk_reply (raise e, y) = (unhandled e, y)

-- The rows come with the ids that they draw.
unfoldable pub create_vehicles_bulk :
    Text → List (ℕ × VehicleBulkRowInput) → Reply User → Yard → Reply VehicleBulkSubmitResult × Yard
create_vehicles_bulk text rows (reply user) y =
    bulk_reply (bulk_create_vehicle_submissions text user.id rows y)
create_vehicles_bulk text rows (http_exception status) y = (http_exception status, y)
create_vehicles_bulk text rows (unhandled e) y = (unhandled e, y)
