-- ===== src/Payments/Tests.antt =====
-- A report on three vehicles.
use awa_platform.Prelude.{ℕ, String, ◌≡◌, ◌≤◌, refl, true, none, List, [], ◌∷◌, str_eq, map}
use awa_platform.Prelude.Int.{pos, negsuc}
use awa_platform.Prelude.Lists.{length, select}
use awa_platform.Payments.{
  VehiclePaymentRecord, Sql, PaymentFilter, payment_query, page_of, get_vehicle_payment_records,
  get_vehicle_payment_status_counts, group_counts, count_in, count_of,
}
use awa_platform.Payments.Pages.{all_pages, payment_pages_whole, payment_page_bounds}

abbrev vehicle : ℕ → String → VehiclePaymentRecord
vehicle id status = record {
  id = id;
  lot_no = "L";
  chassis_number = "C";
  title = "";
  year_of_make = 2020;
  buyer_name = "B";
  buyer_email = "";
  seller_name = "S";
  seller_email = "";
  payment_status = status;
  payment_due_date = none;
  location = "";
  max_bid = pos 0;
}

-- No order, and ILIKE as equality.
abbrev sql : Sql
sql = record {
  ilike = λ column text. str_eq column text;
  order_by = λ query c desc rows. rows;
  length-order_by = λ query c desc rows. refl;
  count-order_by = λ p query c desc rows. refl;
}

abbrev every : PaymentFilter sql
every = record {
  status = "ALL";
  lot_no = "";
  chassis_number = "";
  buyer_name = "";
  seller_name = "";
}

abbrev rows : List VehiclePaymentRecord
rows =
    vehicle 1 "pending_buyer_payment"
    ∷ vehicle 2 "pending_seller_payment"
    ∷ vehicle 3 "pending_buyer_payment"
    ∷ []

second_page :
    map
      (λ (r : VehiclePaymentRecord). r.id)
      (get_vehicle_payment_records sql 0 every (pos 2) (pos 2) rows).records
    ≡ 3 ∷ []
unfolding get_vehicle_payment_records page_of payment_query
second_page = refl

counted :
    get_vehicle_payment_status_counts rows
    ≡ ("paid_awaiting_documents", 0)
      ∷ ("paid_documents_ready_pending_deliver", 0)
      ∷ ("pending_buyer_payment", 2)
      ∷ ("pending_seller_payment", 1)
      ∷ []
unfolding get_vehicle_payment_status_counts group_counts count_in count_of
counted = refl

payment_pages_whole_example :
    let page_at = λ (i : ℕ). get_vehicle_payment_records sql i every (pos i) (pos 2) rows in
    let report = all_pages (λ i. (page_at i).records) (page_at 1).total_pages in
    (report ≡ payment_query sql every rows)
    × (length (select (λ r. true) report)
        ≡ length (select (λ r. true) (payment_query sql every rows)))
payment_pages_whole_example = payment_pages_whole sql every (pos 2) rows (λ r. true) (λ query. refl)

payment_page_bounds_example :
    let p = get_vehicle_payment_records sql 0 every (negsuc 4) (pos 1000) rows in
    (length p.records ≤ p.page_size)
    × (p.page_size ≤ 200)
    × (1 ≤ p.page)
    × (1 ≤ p.total_pages)
    × (p.total ≡ length (payment_query sql every rows))
payment_page_bounds_example = payment_page_bounds sql 0 every (negsuc 4) (pos 1000) rows
