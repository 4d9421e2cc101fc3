-- ===== src/Intake.antt =====
-- models/vehicle_intake.py, models/sub_seller.py, the intake columns of models/content.py, and the
-- queries of services/vehicle_intake_service.py that look up one row.
pub mod Create
pub mod Options
pub mod Form
pub mod Endpoints
pub mod Sheet
pub mod Bulk
pub mod Chassis
pub mod Resolved
mod Tests
use awa_platform.Prelude.{
  ℕ, String, ◌≡◌, Bool, true, ◌&&◌, ◌||◌, not, Option, none, some, List, [], ◌∷◌, false, ◌==◌,
  if◌then◌else◌, str_eq,
}
use awa_platform.Prelude.Int.{ℤ}
use awa_platform.Prelude.Lists.{find, any, select}
use awa_platform.Models.User.{User}
use awa_platform.Models.Role.{Role, UserRole}
use awa_platform.Roles.{holds}

-- A row of one of the lookup tables.
pub record Lookup : Type 0 where
  pub id : ℕ
  pub name_en : String
  pub name_ar : String
  pub sort_order : ℕ
  pub is_active : Bool

pub record VehicleModel : Type 0 where
  pub lookup : Lookup
  pub make_id : ℕ

pub record SubSeller : Type 0 where
  pub id : ℕ
  pub seller_id : ℕ
  pub name : String
  pub is_active : Bool

pub record VehicleListing : Type 0 where
  pub id : ℕ
  pub status : String
  pub is_active : Bool
  pub chassis_number : Option String
  pub title_en : String
  pub title_ar : String
  pub detail_url : String
  pub location_en : Option String
  pub location_ar : Option String
  pub make_id : Option ℕ
  pub model_id : Option ℕ
  pub branch_id : Option ℕ
  pub color_id : Option ℕ
  pub keys_option_id : Option ℕ
  pub fuel_type_id : Option ℕ
  pub bidding_model_id : Option ℕ
  pub year : Option ℤ
  pub target_selling_price : Option ℤ
  pub minimum_selling_price : Option ℤ
  pub previous_number_plate : Option String
  pub seller_id : Option ℕ
  pub sub_seller_id : Option ℕ
  pub created_by_id : Option ℕ
  pub mulkhiya_document_url : Option String
  pub terms_accepted : Bool

pub record Yard : Type 0 where
  pub makes : List Lookup
  pub models : List VehicleModel
  pub branches : List Lookup
  pub colors : List Lookup
  pub key_options : List Lookup
  pub fuel_types : List Lookup
  pub bidding_models : List Lookup
  pub users : List User
  pub roles : List Role
  pub user_roles : List UserRole
  pub sub_sellers : List SubSeller
  pub listings : List VehicleListing

-- Functions of Python and of the database: `str.strip`, `str.lower`, `func.lower`, `=` of the
-- collation, `str` of a year, and the readings of a number, with `none` for an error that is caught. `fits` tells
-- whether the columns take the values of a listing; where one is too long or out of range, the flush
-- raises DataError.
pub record Text : Type 0 where
  pub strip : String → String
  pub lower : String → String
  pub sql_lower : String → String
  pub sql_eq : String → String → Bool
  pub concat : List String → String
  pub str_year : ℤ → String
  pub str_uuid : ℕ → String
  pub decimal : String → Option ℤ
  pub int : String → Option ℤ
  pub fits : VehicleListing → Bool

abbrev pub optional_eq : Option String → Option String → Bool
optional_eq (some a) (some b) = str_eq a b
optional_eq _ _ = false

-- The unique columns of `vehicle_listings`; nulls are distinct.
abbrev pub listing_clash : VehicleListing → List VehicleListing → Bool
listing_clash new =
    any λ (l : VehicleListing). l.id == new.id || optional_eq l.chassis_number new.chassis_number

-- `_get_active`
unfoldable pub get_active : ℕ → List Lookup → Option Lookup
get_active value_id = find λ (r : Lookup). r.id == value_id && r.is_active

unfoldable pub get_active_model : ℕ → List VehicleModel → Option VehicleModel
get_active_model value_id = find λ (r : VehicleModel). r.lookup.id == value_id && r.lookup.is_active

-- `_user_exists` and `_is_sub_seller_of_client`
unfoldable pub user_exists : ℕ → Yard → Bool
user_exists user_id y = any (λ (u : User). u.id == user_id && u.is_active) y.users

unfoldable pub is_sub_seller_of_client : (sub_seller_id client_id : ℕ) → Yard → Bool
is_sub_seller_of_client sub_seller_id client_id y =
    any (λ (s : SubSeller). s.id == sub_seller_id && (s.is_active && s.seller_id == client_id))
      y.sub_sellers

module _ (text : Text) where
  abbrev pub named : String → Lookup → Bool
  named label r =
      r.is_active
      && (text.sql_eq (text.sql_lower r.name_en) (text.lower label)
          || text.sql_eq (text.sql_lower r.name_ar) (text.lower label))

  -- `_find_lookup_by_label`, without and with a make
  unfoldable pub find_lookup_by_label : String → List Lookup → Option Lookup
  find_lookup_by_label label = find (named label)

  unfoldable pub find_model_by_label : String → ℕ → List VehicleModel → Option VehicleModel
  find_model_by_label label make_id =
      find λ (r : VehicleModel). named label r.lookup && r.make_id == make_id

  -- The user holds the role "Seller".
  abbrev pub is_seller : Yard → User → Bool
  is_seller y u = any (λ (r : Role). str_eq r.name "Seller" && holds u.id r.id y.user_roles) y.roles

  -- `_find_client_by_name`
  unfoldable pub find_client_by_name : String → Yard → Option User
  find_client_by_name name y =
      find
        (λ (u : User).
          u.is_active
          && (is_seller y u
              && (text.sql_eq (text.sql_lower (text.concat (u.first_name ∷ " " ∷ u.last_name ∷ [])))
                    (text.lower name)
                  || text.sql_eq (text.sql_lower u.email) (text.lower name))))
        y.users

  -- `_find_sub_seller_by_name`
  unfoldable pub find_sub_seller_by_name : (client_id : ℕ) → String → Yard → Option SubSeller
  find_sub_seller_by_name client_id name y =
      find
        (λ (s : SubSeller).
          s.is_active
          && (s.seller_id == client_id && text.sql_eq (text.sql_lower s.name) (text.lower name)))
        y.sub_sellers

  -- `_parse_decimal` and `_parse_year`
  unfoldable pub parse_decimal : String → Option ℤ
  parse_decimal raw = text.decimal (text.strip raw)

  unfoldable pub parse_year : String → Option ℤ
  parse_year raw = text.int (text.strip raw)
