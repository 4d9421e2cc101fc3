-- ===== src/Intake/Options.antt =====
-- vehicle_intake_service.py: the drop-downs and the two searches of the form, and the document that
-- goes with it.
use awa_platform.Prelude.{
  ℕ, String, Bool, true, ◌&&◌, ◌||◌, Option, none, some, List, [], ◌∷◌, ◌==◌, if◌then◌else◌, str_eq,
  map, ◌≡◌,
}
use awa_platform.Prelude.Int.{ℤ, pos}
use awa_platform.Prelude.Lists.{select, take, any}
use awa_platform.Models.User.{User}
use awa_platform.Content.{Sql, Lang, en, ar}
use awa_platform.Intake.{Lookup, VehicleModel, SubSeller, Yard, Text, is_seller}

pub record LookupOptionRead : Type 0 where
  pub id : ℕ
  pub label : String
  pub sort_order : ℕ

pub record UserLookupRead : Type 0 where
  pub id : ℕ
  pub name : String
  pub email : String

pub record SubSellerRead : Type 0 where
  pub id : ℕ
  pub name : String

pub record VehicleYear : Type 0 where
  pub year : ℤ
  pub sort_order : ℕ
  pub is_active : Bool

-- `column.ilike(f"%{q}%")`, and the orders by a name, which keep the rows.
pub record Search : Type 0 where
  pub ilike : (column q : String) → Bool
  pub by_first_name : List User → List User
  pub by_name : List SubSeller → List SubSeller
  pub any-by_first_name :
      (p : User → Bool) (rows : List User) → any p (by_first_name rows) ≡ any p rows
  pub any-by_name :
      (p : SubSeller → Bool) (rows : List SubSeller) → any p (by_name rows) ≡ any p rows

abbrev pub pick_name : Lookup → Lang → String
pick_name row en = row.name_en
pick_name row ar = if str_eq row.name_ar "" then row.name_en else row.name_ar

abbrev pub option_of : Lang → Lookup → LookupOptionRead
option_of lang row = record { id = row.id; label = pick_name row lang; sort_order = row.sort_order }

module _ (sql : Sql) (lang : Lang) where
  unfoldable pub active_lookup_options : List Lookup → List LookupOptionRead
  active_lookup_options rows = map (option_of lang) (
      sql.order_by (λ (r : Lookup). pos r.sort_order ∷ [])
        (select (λ (r : Lookup). r.is_active) rows))

  unfoldable pub get_models : (make_id : ℕ) → List VehicleModel → List LookupOptionRead
  get_models make_id rows =
      map (λ (r : VehicleModel). option_of lang r.lookup)
        (sql.order_by (λ (r : VehicleModel). pos r.lookup.sort_order ∷ [])
          (select (λ (r : VehicleModel). r.lookup.is_active && r.make_id == make_id) rows))

  abbrev pub get_makes : Yard → List LookupOptionRead
  get_makes y = active_lookup_options y.makes

  abbrev pub get_branches : Yard → List LookupOptionRead
  get_branches y = active_lookup_options y.branches

  abbrev pub get_colors : Yard → List LookupOptionRead
  get_colors y = active_lookup_options y.colors

  abbrev pub get_key_options : Yard → List LookupOptionRead
  get_key_options y = active_lookup_options y.key_options

  abbrev pub get_fuel_types : Yard → List LookupOptionRead
  get_fuel_types y = active_lookup_options y.fuel_types

  abbrev pub get_bidding_models : Yard → List LookupOptionRead
  get_bidding_models y = active_lookup_options y.bidding_models

unfoldable pub get_years : Sql → List VehicleYear → List ℤ
get_years sql rows =
    map (λ (r : VehicleYear). r.year)
      (sql.order_by (λ (r : VehicleYear). pos r.sort_order ∷ [])
        (select (λ (r : VehicleYear). r.is_active) rows))

module _ (text : Text) (search : Search) where
  -- An empty search does not restrict the query.
  abbrev pub matches_client : String → User → Bool
  matches_client q u =
      if str_eq q ""
      then true
      else search.ilike u.first_name q || (search.ilike u.last_name q || search.ilike u.email q)

  abbrev pub client_read : User → UserLookupRead
  client_read u = record {
    id = u.id;
    name = text.strip (text.concat (u.first_name ∷ " " ∷ u.last_name ∷ []));
    email = u.email;
  }

  unfoldable pub search_clients : String → Yard → List UserLookupRead
  search_clients q y = map client_read (
      take 20 (
        search.by_first_name (
          select (λ (u : User). u.is_active && (is_seller text y u && matches_client q u))
            y.users)))

  abbrev pub matches_name : String → SubSeller → Bool
  matches_name q s = if str_eq q "" then true else search.ilike s.name q

  unfoldable pub search_sub_sellers : (client_id : ℕ) → String → Yard → List SubSellerRead
  search_sub_sellers client_id q y =
      map (λ (s : SubSeller). record { id = s.id; name = s.name })
        (take 20 (
          search.by_name (
            select
              (λ (s : SubSeller). s.is_active && (s.seller_id == client_id && matches_name q s))
              y.sub_sellers)))

abbrev pub allowed_document_extensions : List String
allowed_document_extensions = ".pdf" ∷ ".jpg" ∷ ".jpeg" ∷ ".png" ∷ []

-- The suffix of the stored file; `suffix` is `Path(...).suffix`, of the empty name where there is none.
unfoldable pub document_suffix :
    Text → (suffix : String → String) → (filename : Option String) → String
document_suffix text suffix filename =
    let s = text.lower (suffix (elim filename [ none ↦ "" | some name ↦ name ])) in
    if any (λ allowed. str_eq s allowed) allowed_document_extensions then s else ".pdf"

-- The files of the directory `mulkhiya`, by name, newest first.
unfoldable pub save_mulkhiya_document :
    {Bytes : Type 0}
    → Text
    → (suffix : String → String) → (upload_base_url : String) → (uuid : ℕ) → Option String
    → Bytes
    → List (String × Bytes)
    → String × List (String × Bytes)
save_mulkhiya_document text suffix upload_base_url uuid filename contents files =
    let name = text.concat (text.str_uuid uuid ∷ document_suffix text suffix filename ∷ []) in
    (text.concat (upload_base_url ∷ "/mulkhiya/" ∷ name ∷ []), (name, contents) ∷ files)
