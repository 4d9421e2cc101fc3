-- ===== src/Migrations/Lookups/Models.antt =====
-- The models refer to their makes.
use awa_platform.Prelude.{
  ℕ, String, ◌+◌, ◌≡◌, refl, Bool, true, ◌&&◌, List, [], ◌∷◌, ◌==◌, ==_iff, arith, str_eq,
}
use awa_platform.Prelude.Lists.{All, All-map, All-append, any}
use awa_platform.Intake.{Lookup, VehicleModel}
use awa_platform.Migrations.Roles.Names.{str_eq_refl}
use awa_platform.Migrations.Lookups.Seeds.{make_seeds, models_by_make}
use awa_platform.Migrations.Lookups.{
  lookup_row, models_of, model_rows, make_rows, upgrade_lookup_tables,
}

-- Whether the name is among the names that a make lists.
abbrev pub lists : List (String × List (String × String)) → String → String → Bool
lists models make name = any (λ (p : String × String). str_eq p.0 name) (models_of models make)

-- The model's make is there, and lists the model.
abbrev pub HasMake : List (String × List (String × String)) → List Lookup → VehicleModel → Type 0
HasMake models makes m =
    any (λ (k : Lookup). k.id == m.make_id && lists models k.name_en m.lookup.name_en) makes ≡ true

-- The rows of one make.
rows-HasMake :
    (models : List (String × List (String × String))) (uuid : ℕ → ℕ) (n order k sort : ℕ)
    (make : String) (makes : List Lookup) (seeds : List (String × String))
    → All (λ (p : String × String). lists models make p.0 ≡ true) seeds
    → All (HasMake models (lookup_row k make make sort ∷ makes)) (model_rows uuid n order k seeds)
unfolding model_rows
rows-HasMake models uuid n order k sort make makes [] h = tt
rows-HasMake models uuid n order k sort make makes ((en, ar) ∷ seeds) (h, hs) = (
  rw ((==_iff k k).1 refl, h) refl,
  rows-HasMake models uuid (n + 1) (order + 1) k sort make makes seeds hs,
)

listed_each :
    (seeds all : List (String × String))
    → All (λ (p : String × String). any (λ (q : String × String). str_eq q.0 p.0) all ≡ true) seeds
    → (x : String × String)
    → All
        (λ (p : String × String). any (λ (q : String × String). str_eq q.0 p.0) (x ∷ all) ≡ true)
        seeds
listed_each seeds all h x = All-map _ _ seeds (λ p k. rw k (ground arith)) h

-- Each name that a make lists is listed.
all_listed :
    (seeds : List (String × String))
    → All
        (λ (p : String × String). any (λ (q : String × String). str_eq q.0 p.0) seeds ≡ true)
        seeds
all_listed [] = tt
all_listed (p ∷ seeds) = (rw (str_eq_refl p.0) refl, listed_each seeds seeds (all_listed seeds) p)

make_rows-HasMake :
    (models : List (String × List (String × String))) (uuid : ℕ → ℕ → ℕ) (k : ℕ)
    (names : List String)
    → All (HasMake models (make_rows uuid k models names).0) (make_rows uuid k models names).1
unfolding make_rows
make_rows-HasMake models uuid k [] = tt
make_rows-HasMake models uuid k (make ∷ names) =
    All-append (HasMake models (make_rows uuid k models (make ∷ names)).0) _ _
      (rows-HasMake models (uuid k) 1 1 (uuid k 0) (k + 1) make
        (make_rows uuid (k + 1) models names).0 (models_of models make)
        (all_listed (models_of models make)))
      (All-map _ _ (make_rows uuid (k + 1) models names).1 (λ m h. rw h (ground arith))
        (make_rows-HasMake models uuid (k + 1) names))

-- After the revision every row of `vehicle_models` refers to a row of `vehicle_makes` whose name lists
-- the model, whatever ids are made.
pub upgrade_lookup_tables-HasMake :
    (uuid make_uuid : ℕ → ℕ → ℕ)
    → All
        (HasMake models_by_make (upgrade_lookup_tables uuid make_uuid).makes)
        (upgrade_lookup_tables uuid make_uuid).models
unfolding upgrade_lookup_tables
upgrade_lookup_tables-HasMake uuid make_uuid =
    make_rows-HasMake models_by_make make_uuid 0 make_seeds
