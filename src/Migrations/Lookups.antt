-- ===== src/Migrations/Lookups.antt =====
-- alembic/versions/0019_vehicle_lookup_tables.py: the lookup tables of the vehicle intake with their
-- rows. `uuid n` is the id that the n-th call of uuid4 returns after the start of a table.
pub mod Seeds
pub mod Models
use awa_platform.Prelude.{ℕ, String, ◌+◌, true, List, [], ◌∷◌, ◌++◌, if◌then◌else◌, str_eq}
use awa_platform.Prelude.Int.{pos}
use awa_platform.Intake.{Lookup, VehicleModel}
use awa_platform.Intake.Options.{VehicleYear}
use awa_platform.Migrations.Lookups.Seeds.{
  branch_seeds, color_seeds, key_option_seeds, fuel_type_seeds, bidding_model_seeds, year_seeds,
  make_seeds, models_by_make,
}

abbrev pub lookup_row : (id : ℕ) (name_en name_ar : String) (sort_order : ℕ) → Lookup
lookup_row id name_en name_ar sort_order = record {
  id = id;
  name_en = name_en;
  name_ar = name_ar;
  sort_order = sort_order;
  is_active = true;
}

-- `_seed`
unfoldable pub seed_rows : (uuid : ℕ → ℕ) (n order : ℕ) → List (String × String) → List Lookup
seed_rows uuid n order [] = []
seed_rows uuid n order ((name_en, name_ar) ∷ rest) =
    lookup_row (uuid n) name_en name_ar order ∷ seed_rows uuid (n + 1) (order + 1) rest

-- The model of a year has no id.
unfoldable pub year_rows : (order : ℕ) → List ℕ → List VehicleYear
year_rows order [] = []
year_rows order (year ∷ rest) =
    record { year = pos year; sort_order = order; is_active = true } ∷ year_rows (order + 1) rest

-- `_MODELS_BY_MAKE.get(make_en, [])`
unfoldable pub models_of : List (String × List (String × String)) → String → List (String × String)
models_of [] make = []
models_of ((key, models) ∷ rest) make =
    let later = models_of rest make in if str_eq key make then models else later

unfoldable pub model_rows :
    (uuid : ℕ → ℕ) (n order make_id : ℕ) → List (String × String) → List VehicleModel
model_rows uuid n order make_id [] = []
model_rows uuid n order make_id ((name_en, name_ar) ∷ rest) =
    record { lookup = lookup_row (uuid n) name_en name_ar order; make_id = make_id }
    ∷ model_rows uuid (n + 1) (order + 1) make_id rest

-- The loop over the makes: the k-th make takes its id from `uuid k 0`, and its models the next ones.
unfoldable pub make_rows :
    (uuid : ℕ → ℕ → ℕ) (k : ℕ)
    → List (String × List (String × String))
    → List String
    → List Lookup × List VehicleModel
make_rows uuid k models [] = ([], [])
make_rows uuid k models (make ∷ rest) =
    let (makes, rows) = make_rows uuid (k + 1) models rest in
    (
      lookup_row (uuid k 0) make make (k + 1) ∷ makes,
      model_rows (uuid k) 1 1 (uuid k 0) (models_of models make) ++ rows,
    )

pub record LookupTables : Type 0 where
  pub makes : List Lookup
  pub models : List VehicleModel
  pub branches : List Lookup
  pub colors : List Lookup
  pub key_options : List Lookup
  pub fuel_types : List Lookup
  pub bidding_models : List Lookup
  pub years : List VehicleYear

-- `upgrade`: `uuid t` makes the ids of the t-th table, and `make_uuid` those of makes and models.
unfoldable pub upgrade_lookup_tables : (uuid : ℕ → ℕ → ℕ) (make_uuid : ℕ → ℕ → ℕ) → LookupTables
upgrade_lookup_tables uuid make_uuid =
    let (makes, models) = make_rows make_uuid 0 models_by_make make_seeds in
    record {
      makes = makes;
      models = models;
      branches = seed_rows (uuid 0) 0 1 branch_seeds;
      colors = seed_rows (uuid 1) 0 1 color_seeds;
      key_options = seed_rows (uuid 2) 0 1 key_option_seeds;
      fuel_types = seed_rows (uuid 3) 0 1 fuel_type_seeds;
      bidding_models = seed_rows (uuid 4) 0 1 bidding_model_seeds;
      years = year_rows 1 year_seeds;
    }
