-- ===== src/Admin/Reports.antt =====
-- api/v1/admin.py: the reports of services/vehicle_payment_service.py, for members of the staff. A page
-- or a page size outside its bounds is answered with 422, once the dependencies have let the user in.
use awa_platform.Prelude.{ℕ, String, Bool, not, ◌&&◌, ◌||◌, Option, List, if◌then◌else◌}
use awa_platform.Prelude.Int.{ℤ, pos, ltb_ℤ}
use awa_platform.Session.{Db}
use awa_platform.Roles.{Collation}
use awa_platform.Auth.Base.{Settings}
use awa_platform.Api.{Verifier, Reply, reply, http_exception}
use awa_platform.Payments.{
  VehiclePaymentRecord, Sql, Page, PaymentFilter, InStoreFilter, VehicleInStoreRecord,
  get_vehicle_payment_records, get_vehicle_in_store_records, get_vehicle_payment_status_counts,
}
use awa_platform.Admin.Access.{for_staff, require_staff}

-- `Query(ge=1)` and `Query(ge=1, le=200)`
abbrev pub is_paging : (page page_size : ℤ) → Bool
is_paging page page_size =
    not (ltb_ℤ page (pos 1)) && not (ltb_ℤ page_size (pos 1) || ltb_ℤ (pos 200) page_size)

module _ (jose : Verifier) (col : Collation) (settings : Settings) (sql : Sql) (now : ℕ)
    (credentials : Option String) (db : Db) (rows : List VehiclePaymentRecord) where
  unfoldable pub payment_status_count_endpoint : Reply (List (String × ℕ))
  payment_status_count_endpoint =
      for_staff (require_staff jose col settings now credentials db)
        λ user. reply (get_vehicle_payment_status_counts rows)

  unfoldable pub payment_status_endpoint :
      (query : ℕ) → PaymentFilter sql → (page page_size : ℤ) → Reply (Page VehiclePaymentRecord)
  payment_status_endpoint query f page page_size =
      for_staff (require_staff jose col settings now credentials db) λ user.
        if is_paging page page_size
        then reply (get_vehicle_payment_records sql query f page page_size rows)
        else http_exception 422

  unfoldable pub in_store_endpoint :
      (query : ℕ)
      → InStoreFilter sql
      → (sort_by sort_dir : String) → (page page_size : ℤ) → Reply (Page (VehicleInStoreRecord sql))
  in_store_endpoint query f sort_by sort_dir page page_size =
      for_staff (require_staff jose col settings now credentials db) λ user.
        if is_paging page page_size
        then reply (get_vehicle_in_store_records sql query f sort_by sort_dir page page_size rows)
        else http_exception 422
