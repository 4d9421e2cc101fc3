-- ===== src/Intake/Sheet.antt =====
-- vehicle_intake_service._create_bulk_row: the cells of a row of the sheet, and the checks on them.
use awa_platform.Prelude.{
  ℕ, String, Bool, ◌&&◌, not, Option, none, some, List, [], ◌∷◌, if◌then◌else◌, is_some, str_eq,
}
use awa_platform.Prelude.Int.{ℤ}
use awa_platform.Models.User.{User}
use awa_platform.Intake.{
  Lookup, VehicleModel, SubSeller, Yard, Text, find_lookup_by_label, find_model_by_label,
  find_client_by_name, find_sub_seller_by_name, parse_decimal, parse_year,
}

pub record VehicleBulkRowInput : Type 0 where
  pub row_number : ℕ
  pub chassis_number : String
  pub make : String
  pub model : String
  pub branch : String
  pub year : String
  pub keys_option : String
  pub fuel_type : String
  pub color : String
  pub target_selling_price : String
  pub minimum_selling_price : String
  pub client : String
  pub sub_client : String
  pub previous_number_plate : String
  pub bidding_model : String

-- What the cells of a row resolve to.
pub record Cells : Type 0 where
  pub make : Option Lookup
  pub model : Option VehicleModel
  pub branch : Option Lookup
  pub color : Option Lookup
  pub keys_option : Option Lookup
  pub fuel_type : Option Lookup
  pub bidding_model : Option Lookup
  pub year : Option ℤ
  pub target_price : Option ℤ
  pub min_price : Option ℤ
  pub client : Option User
  pub sub_seller : Option SubSeller

module _ (text : Text) where
  -- `cell.strip()` is empty.
  abbrev pub blank : String → Bool
  blank cell = str_eq (text.strip cell) ""

  -- `await _find_lookup_by_label(...) if cell.strip() else None`
  abbrev pub lookup_cell : String → List Lookup → Option Lookup
  lookup_cell cell rows = if blank cell then none else find_lookup_by_label text cell rows

  abbrev pub model_cell : String → Option Lookup → List VehicleModel → Option VehicleModel
  model_cell cell none rows = none
  model_cell cell (some make) rows =
      if blank cell then none else find_model_by_label text cell make.id rows

  abbrev pub sub_client_cell : String → Option User → Yard → Option SubSeller
  sub_client_cell cell none y = none
  sub_client_cell cell (some client) y =
      if blank cell then none else find_sub_seller_by_name text client.id cell y

  unfoldable pub read_cells : VehicleBulkRowInput → Yard → Cells
  read_cells row y =
      let make = lookup_cell row.make y.makes in
      let client = if blank row.client then none else find_client_by_name text row.client y in
      record {
        make = make;
        model = model_cell row.model make y.models;
        branch = lookup_cell row.branch y.branches;
        color = lookup_cell row.color y.colors;
        keys_option = lookup_cell row.keys_option y.key_options;
        fuel_type = lookup_cell row.fuel_type y.fuel_types;
        bidding_model = lookup_cell row.bidding_model y.bidding_models;
        year = parse_year text row.year;
        target_price = parse_decimal text row.target_selling_price;
        min_price = parse_decimal text row.minimum_selling_price;
        client = client;
        sub_seller = sub_client_cell row.sub_client client y;
      }

  abbrev pub unknown : List String → String
  unknown = text.concat

  -- The message for the model: a blank cell, no make to look it up for, or no such model.
  abbrev pub model_message : VehicleBulkRowInput → Option Lookup → String
  model_message row make =
      if blank row.model
      then "Required"
      else (if is_some make
          then unknown ("Unknown model for " ∷ row.make ∷ ": " ∷ row.model ∷ [])
          else unknown ("Unknown model: " ∷ row.model ∷ []))

  -- Each check of the row: whether it fails, and the entry of `errors` that it makes.
  abbrev pub checks : VehicleBulkRowInput → Cells → List (Bool × String × String)
  checks row c =
      (blank row.chassis_number, "chassis_number", "Required")
      ∷ (blank row.previous_number_plate, "previous_number_plate", "Required")
      ∷ (not (is_some c.make), "make", unknown ("Unknown make: " ∷ row.make ∷ []))
      ∷ (not (is_some c.model), "model", model_message row c.make)
      ∷ (not (is_some c.branch), "branch", unknown ("Unknown branch: " ∷ row.branch ∷ []))
      ∷ (not (is_some c.color), "color", unknown ("Unknown color: " ∷ row.color ∷ []))
      ∷ (
        not (is_some c.keys_option),
        "keys_option",
        unknown ("Unknown keys option: " ∷ row.keys_option ∷ []),
      )
      ∷ (
        not (is_some c.fuel_type),
        "fuel_type",
        unknown ("Unknown fuel type: " ∷ row.fuel_type ∷ []),
      )
      ∷ (
        not (blank row.bidding_model) && not (is_some c.bidding_model),
        "bidding_model",
        unknown ("Unknown bidding model: " ∷ row.bidding_model ∷ []),
      )
      ∷ (not (is_some c.year), "year", unknown ("Invalid year: " ∷ row.year ∷ []))
      ∷ (
        not (is_some c.target_price),
        "target_selling_price",
        unknown ("Invalid amount: " ∷ row.target_selling_price ∷ []),
      )
      ∷ (
        not (is_some c.min_price),
        "minimum_selling_price",
        unknown ("Invalid amount: " ∷ row.minimum_selling_price ∷ []),
      )
      ∷ (not (is_some c.client), "client", unknown ("Unknown client: " ∷ row.client ∷ []))
      ∷ (
        not (blank row.sub_client) && (is_some c.client && not (is_some c.sub_seller)),
        "sub_client",
        unknown ("Unknown sub client for " ∷ row.client ∷ ": " ∷ row.sub_client ∷ []),
      )
      ∷ []
