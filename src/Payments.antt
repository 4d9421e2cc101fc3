-- ===== src/Payments.antt =====
-- models/vehicle_payment.py and services/vehicle_payment_service.py: the paged reports on vehicles
-- and payments. The collation of the database, its ILIKE and its ORDER BY, is a parameter.
pub mod Pages
pub mod Counts
mod Tests
use awa_platform.Prelude.{
  ℕ, String, ◌+◌, ◌-◌, ◌*◌, ◌/◌, ◌≡◌, Bool, true, false, not, ◌&&◌, ◌||◌, Option, none, some, List,
  [], ◌∷◌, leb, if◌then◌else◌, str_eq, map,
}
use awa_platform.Prelude.Int.{ℤ, pos, negsuc}
use awa_platform.Prelude.Lists.{length, take, drop, select}

pub record VehiclePaymentRecord : Type 0 where
  pub id : ℕ
  pub lot_no : String
  pub chassis_number : String
  pub title : String
  pub year_of_make : ℕ
  pub buyer_name : String
  pub buyer_email : String
  pub seller_name : String
  pub seller_email : String
  pub payment_status : String
  pub payment_due_date : Option ℕ
  pub location : String
  pub max_bid : ℤ

-- The columns that a report is sorted by.
pub data Column : Type 0 where
  lot_no_column chassis_number_column title_column location_column : Column

-- `column.ilike(f"%{text}%")`, and the rows of a query, by its number, in the order of a column. The
-- columns are not unique, and rows with the same value may come in another order in another query.
-- Ordering keeps every row as often as it is there.
pub record Sql : Type 0 where
  pub ilike : (column text : String) → Bool
  pub order_by :
      (query : ℕ) → Column → (desc : Bool) → List VehiclePaymentRecord → List VehiclePaymentRecord
  pub length-order_by :
      (query : ℕ) (c : Column) (desc : Bool) (rows : List VehiclePaymentRecord)
      → length (order_by query c desc rows) ≡ length rows
  pub count-order_by :
      (p : VehiclePaymentRecord → Bool) (query : ℕ) (c : Column) (desc : Bool)
      (rows : List VehiclePaymentRecord)
      → length (select p (order_by query c desc rows)) ≡ length (select p rows)

pub record Page (A : Type 0) : Type 0 where
  pub records : List A
  pub total : ℕ
  pub page : ℕ
  pub page_size : ℕ
  pub total_pages : ℕ

-- `max(page, 1)` of a Python int.
abbrev pub clamp_page : ℤ → ℕ
clamp_page (pos n) = if leb n 1 then 1 else n
clamp_page (negsuc n) = 1

-- `max(min(page_size, 200), 1)`
abbrev pub clamp_size : ℤ → ℕ
clamp_size (pos n) = if leb 200 n then 200 else (if leb n 1 then 1 else n)
clamp_size (negsuc n) = 1

-- `max((total + page_size - 1) // page_size, 1)`
abbrev pub pages_of : ℕ → ℕ → ℕ
pages_of total size = let n = (total + size - 1) / size in if leb n 1 then 1 else n

-- OFFSET and LIMIT.
abbrev pub slice : {A : Type 0} → (page size : ℕ) → List A → List A
slice page size rows = take size (drop ((page - 1) * size) rows)

-- The page of the rows that a query has counted and those that it has ordered.
unfoldable pub page_of : {A : Type 0} → (page page_size : ℤ) → (counted : ℕ) → List A → Page A
page_of page page_size counted ordered = record {
  records = slice (clamp_page page) (clamp_size page_size) ordered;
  total = counted;
  page = clamp_page page;
  page_size = clamp_size page_size;
  total_pages = pages_of counted (clamp_size page_size);
}

module _ (sql : Sql) where
  -- A filter that is left empty does not restrict the query.
  abbrev pub matches : (text column : String) → Bool
  matches text column = if str_eq text "" then true else sql.ilike column text

  abbrev pub has_status : String → VehiclePaymentRecord → Bool
  has_status status row =
      if str_eq status "" || str_eq status "ALL" then true else str_eq row.payment_status status

  pub record PaymentFilter : Type 0 where
    pub status : String
    pub lot_no : String
    pub chassis_number : String
    pub buyer_name : String
    pub seller_name : String

  unfoldable pub payment_query :
      PaymentFilter → List VehiclePaymentRecord → List VehiclePaymentRecord
  payment_query f = select λ row.
      has_status f.status row
      && (matches f.lot_no row.lot_no
          && (matches f.chassis_number row.chassis_number
              && (matches f.buyer_name row.buyer_name && matches f.seller_name row.seller_name)))

  unfoldable pub get_vehicle_payment_records :
      (query : ℕ)
      → PaymentFilter
      → (page page_size : ℤ) → List VehiclePaymentRecord
      → Page VehiclePaymentRecord
  unfolding page_of
  get_vehicle_payment_records query f page page_size rows =
      page_of page page_size (length (payment_query f rows))
        (sql.order_by query lot_no_column false (payment_query f rows))

  pub record InStoreFilter : Type 0 where
    pub id_search : String
    pub chassis_number : String
    pub seller_name : String
    pub location : String

  pub record VehicleInStoreRecord : Type 0 where
    pub id : String
    pub chassis_number : String
    pub title : String
    pub location : String

  unfoldable pub in_store_query :
      InStoreFilter → List VehiclePaymentRecord → List VehiclePaymentRecord
  in_store_query f = select λ row.
      matches f.id_search row.lot_no
      && (matches f.chassis_number row.chassis_number
          && (matches f.seller_name row.seller_name && matches f.location row.location))

  -- `_IN_STORE_SORT_COLUMNS.get(sort_by, VehiclePaymentRecord.lot_no)`
  unfoldable pub sort_column : String → Column
  sort_column sort_by =
      if str_eq sort_by "chassis_number"
      then chassis_number_column
      else (if str_eq sort_by "title"
          then title_column
          else (if str_eq sort_by "location" then location_column else lot_no_column))

  abbrev pub in_store_row : VehiclePaymentRecord → VehicleInStoreRecord
  in_store_row row = record {
    id = row.lot_no;
    chassis_number = row.chassis_number;
    title = row.title;
    location = row.location;
  }

  abbrev pub map_page : {A B : Type 0} → (A → B) → Page A → Page B
  map_page f p = record {
    records = map f p.records;
    total = p.total;
    page = p.page;
    page_size = p.page_size;
    total_pages = p.total_pages;
  }

  unfoldable pub get_vehicle_in_store_records :
      (query : ℕ)
      → InStoreFilter
      → (sort_by sort_dir : String) → (page page_size : ℤ) → List VehiclePaymentRecord
      → Page VehicleInStoreRecord
  unfolding page_of
  get_vehicle_in_store_records query f sort_by sort_dir page page_size rows =
      map_page in_store_row (
        page_of page page_size (length (in_store_query f rows)) (
          sql.order_by query (sort_column sort_by) (str_eq sort_dir "desc")
            (in_store_query f rows)))

-- The rows of `GROUP BY payment_status` with their counts.
unfoldable pub count_in : String → List (String × ℕ) → List (String × ℕ)
count_in status [] = (status, 1) ∷ []
count_in status ((s, n) ∷ groups) =
    let rest = count_in status groups in
    if str_eq s status then (s, n + 1) ∷ groups else (s, n) ∷ rest

unfoldable pub group_counts : List VehiclePaymentRecord → List (String × ℕ)
group_counts [] = []
group_counts (row ∷ rows) = count_in row.payment_status (group_counts rows)

-- `counts.get(key, 0)`
unfoldable pub count_of : String → List (String × ℕ) → ℕ
count_of key [] = 0
count_of key ((s, n) ∷ groups) = let rest = count_of key groups in if str_eq s key then n else rest

abbrev pub status_keys : List String
status_keys =
    "paid_awaiting_documents" ∷ "paid_documents_ready_pending_deliver" ∷ "pending_buyer_payment"
    ∷ "pending_seller_payment" ∷ []

unfoldable pub get_vehicle_payment_status_counts : List VehiclePaymentRecord → List (String × ℕ)
get_vehicle_payment_status_counts rows =
    map (λ key. (key, count_of key (group_counts rows))) status_keys
