-- ===== src/Intake/Chassis.antt =====
-- No chassis number is submitted twice.
use awa_platform.Prelude.{
  String, ℕ, ◌≡◌, false, Option, none, some, List, [], ◌∷◌, Bool-cases, inl, inr, if_intro,
}
use awa_platform.Exceptions.{Result, ok, raise, data_error}
use awa_platform.Intake.{Lookup, VehicleModel, VehicleListing, Yard, Text, listing_clash}
use awa_platform.Intake.Create.{
  VehicleSubmissionCreate, new_listing, add_listing, or_duplicate, check_submission, create_checked,
  create_vehicle_submission,
}
use awa_platform.Intake.Sheet.{VehicleBulkRowInput, Cells, checks, read_cells}
use awa_platform.Intake.Bulk.{
  VehicleBulkRowResult, failing, bulk_listing, commit_row, insert_row, finish_row, create_bulk_row,
  then_row, bulk_create_vehicle_submissions,
}

-- No two listings have the same id or the same chassis number.
abbrev pub HasUniqueListings : List VehicleListing → Type 0
HasUniqueListings [] = Unit
HasUniqueListings (l ∷ ls) = (listing_clash l ls ≡ false) × HasUniqueListings ls

-- What a step leaves where the commit may have been rolled back.
abbrev IsKept : Option Yard → Type 0
IsKept none = Unit
IsKept (some y) = HasUniqueListings y.listings

add_listing-IsKept :
    (l : VehicleListing) (y : Yard) → HasUniqueListings y.listings → IsKept (add_listing l y)
unfolding add_listing
add_listing-IsKept l y h = elim (Bool-cases (listing_clash l y.listings)) [
  | inl e ↦ rw e tt
  | inr e ↦ rw e (e, h)
]

or_duplicate_unique :
    (chassis : String) (l : VehicleListing) (y : Yard) (o : Option Yard)
    → HasUniqueListings y.listings
    → IsKept o
    → HasUniqueListings (or_duplicate chassis l y o).1.listings
or_duplicate_unique chassis l y none h k = h
or_duplicate_unique chassis l y (some y') h k = k

create_checked_unique :
    (text : Text) (id by : ℕ) (p : VehicleSubmissionCreate)
    (r : Result (Lookup × VehicleModel × Lookup)) (y : Yard)
    → HasUniqueListings y.listings
    → HasUniqueListings (create_checked text id by p r y).1.listings
unfolding create_checked
create_checked_unique text id by p (raise e) y h = h
create_checked_unique text id by p (ok rows) y h =
    let l = new_listing text id by p rows in
    or_duplicate_unique p.chassis_number l y (add_listing l y) h (add_listing-IsKept l y h)

-- The form "Add a New Car" keeps ids and chassis numbers unique, whatever is submitted.
create_vehicle_submission_unique :
    (text : Text) (id by : ℕ) (p : VehicleSubmissionCreate) (y : Yard)
    → HasUniqueListings y.listings
    → HasUniqueListings (create_vehicle_submission text id by p y).1.listings
unfolding create_vehicle_submission
create_vehicle_submission_unique text id by p y h =
    create_checked_unique text id by p (check_submission p y) y h

module _ (text : Text) where
  commit_row_unique :
      (row : VehicleBulkRowInput) (l : VehicleListing) (y : Yard) (o : Option Yard)
      → HasUniqueListings y.listings
      → IsKept o
      → HasUniqueListings (commit_row text row l y o).1.listings
  unfolding commit_row
  commit_row_unique row l y none h k = h
  commit_row_unique row l y (some y') h k = k

  insert_row_unique :
      (row : VehicleBulkRowInput) (r : Result VehicleListing) (y : Yard)
      → HasUniqueListings y.listings
      → HasUniqueListings (insert_row text row r y).1.listings
  unfolding insert_row
  insert_row_unique row (raise e) y h = h
  insert_row_unique row (ok l) y h =
      let (r, y') = commit_row text row l y (add_listing l y) in
      if_intro (λ (s : Result VehicleBulkRowResult × Yard). HasUniqueListings s.1.listings)
        (text.fits l) (ok r, y') (raise data_error, y)
        (commit_row_unique row l y (add_listing l y) h (add_listing-IsKept l y h)) h

  finish_row_unique :
      (id by : ℕ) (row : VehicleBulkRowInput) (c : Cells) (errors : List (String × String))
      (y : Yard)
      → HasUniqueListings y.listings
      → HasUniqueListings (finish_row text id by row c errors y).1.listings
  unfolding finish_row
  finish_row_unique id by row c [] y h = insert_row_unique row (bulk_listing text id by row c) y h
  finish_row_unique id by row c (e ∷ errors) y h = h

  next_unique :
      (r : Result VehicleBulkRowResult) (rest : Result (List VehicleBulkRowResult) × Yard)
      (y : Yard)
      → HasUniqueListings y.listings
      → HasUniqueListings rest.1.listings
      → HasUniqueListings
          (elim r as (λ _. Result (List VehicleBulkRowResult) × Yard) [
            | ok x ↦ then_row text x rest
            | raise e ↦ (raise e, y)
          ]).1.listings
  unfolding then_row
  next_unique (ok x) (ok rs, z) y h k = k
  next_unique (ok x) (raise e, z) y h k = k
  next_unique (raise e) rest y h k = h

  -- A bulk upload keeps ids and chassis numbers unique, whatever its rows hold.
  bulk_create_unique :
      (by : ℕ) (rows : List (ℕ × VehicleBulkRowInput)) (y : Yard)
      → HasUniqueListings y.listings
      → HasUniqueListings (bulk_create_vehicle_submissions text by rows y).1.listings
  unfolding bulk_create_vehicle_submissions create_bulk_row
  bulk_create_unique by [] y h = h
  bulk_create_unique by ((id, row) ∷ rows) y h =
      let c = read_cells text row y in
      let done = finish_row_unique id by row c (failing text (checks text row c)) y h in
      next_unique (create_bulk_row text id by row y).0
        (bulk_create_vehicle_submissions text by rows (create_bulk_row text id by row y).1)
        (create_bulk_row text id by row y).1 done
        (bulk_create_unique by rows (create_bulk_row text id by row y).1 done)
