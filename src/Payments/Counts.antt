-- ===== src/Payments/Counts.antt =====
-- The counts of the payment report.
use awa_platform.Prelude.{
  ℕ, String, ◌+◌, ◌≡◌, refl, ◌∙◌, List, [], ◌∷◌, if◌then◌else◌, str_eq, eq_iff, arith, map,
}
use awa_platform.Prelude.Lists.{length, select}
use awa_platform.Payments.{
  VehiclePaymentRecord, count_in, group_counts, count_of, status_keys,
  get_vehicle_payment_status_counts,
}

count_of-count_in :
    (key status : String) (groups : List (String × ℕ))
    → count_of key (count_in status groups)
      ≡ (if str_eq status key then count_of key groups + 1 else count_of key groups)
unfolding count_of count_in
count_of-count_in key status [] = ground arith
count_of-count_in key status ((s, n) ∷ groups) =
    ground
      (arith, eq_iff s status, eq_iff s key, eq_iff status key, count_of-count_in key status groups)

count_of-group_counts :
    (key : String) (rows : List VehiclePaymentRecord)
    → count_of key (group_counts rows)
      ≡ length (select (λ (r : VehiclePaymentRecord). str_eq r.payment_status key) rows)
unfolding count_of group_counts
count_of-group_counts key [] = refl
count_of-group_counts key (row ∷ rows) =
    count_of-count_in key row.payment_status (group_counts rows)
    ∙ ground (arith, count_of-group_counts key rows)

keys_exact :
    (keys : List String) (rows : List VehiclePaymentRecord)
    → map {B = String × ℕ} (λ key. (key, count_of key (group_counts rows))) keys
      ≡ map {B = String × ℕ}
          (λ key.
            (key, length (select (λ (r : VehiclePaymentRecord). str_eq r.payment_status key) rows)))
          keys
keys_exact [] rows = refl
keys_exact (k ∷ keys) rows = rw (count_of-group_counts k rows, keys_exact keys rows)

-- The report gives for each of its four keys the number of vehicles that have this payment status.
status_counts_exact :
    (rows : List VehiclePaymentRecord)
    → get_vehicle_payment_status_counts rows
      ≡ map {B = String × ℕ}
          (λ key.
            (key, length (select (λ (r : VehiclePaymentRecord). str_eq r.payment_status key) rows)))
          status_keys
unfolding get_vehicle_payment_status_counts
status_counts_exact rows = keys_exact status_keys rows
