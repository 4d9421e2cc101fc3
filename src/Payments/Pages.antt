-- ===== src/Payments/Pages.antt =====
-- The pages of a report put together are the whole report.
use awa_platform.Prelude.{
  ℕ, zero, suc, ◌+◌, ◌-◌, ◌*◌, ◌≤◌, ◌<◌, ◌≡◌, refl, sym, ap, ◌∙◌, Bool, false, List, [], ◌∷◌, ◌++◌,
  arith,
}
use mathlib.Core.Path.{fun_ext}
use native.Mathlib.Nat.{div-add-mod, mod-lt}
use awa_platform.Prelude.Int.{ℤ, pos, negsuc}
use mathlib.Core.List.{append-nil}
use awa_platform.Prelude.Lists.{drop_of_length-le, take-append-drop, length, take, drop, select}
use awa_platform.Payments.{
  VehiclePaymentRecord, lot_no_column, Sql, clamp_page, clamp_size, pages_of, slice, page_of,
  PaymentFilter, payment_query, get_vehicle_payment_records,
}

clamp_page_pos : (n : ℕ) → clamp_page (pos (suc n)) - 1 ≡ n
clamp_page_pos n = ground arith

module _ {A : Type 0} where
  take-nil : (n : ℕ) → take {A = A} n [] ≡ []
  take-nil zero = refl
  take-nil (suc n) = refl

  take-add : (m n : ℕ) (xs : List A) → take m xs ++ take n (drop m xs) ≡ take (m + n) xs
  take-add zero n xs = ap (λ k. take k xs) (omega arith)
  take-add (suc m) n [] = take-nil n ∙ sym (take-nil (suc m + n))
  take-add (suc m) n (x ∷ xs) =
      ap (◌∷◌ x) (take-add m n xs)
      ∙ ap (λ k. take k (x ∷ xs)) {x = suc (m + n)} {y = suc m + n} (omega arith)

  -- A prefix that is long enough is the whole list.
  take_whole : (size : ℕ) (rows : List A) → length rows ≤ size → take size rows ≡ rows
  take_whole size rows enough =
      sym (append-nil (take size rows))
      ∙ ap (λ rest. take size rows ++ rest) (sym (drop_of_length-le size rows enough))
      ∙ take-append-drop size rows

  take_bound : (size : ℕ) (rows : List A) → length (take size rows) ≤ size
  take_bound zero rows = omega arith
  take_bound (suc k) [] = omega arith
  take_bound (suc k) (row ∷ rows) = omega (arith, take_bound k rows)

  -- The records of the pages 1 to n, one page after the other.
  unfoldable pub all_pages : (ℕ → List A) → ℕ → List A
  all_pages records zero = []
  all_pages records (suc n) = all_pages records n ++ records (suc n)

  all_pages-take :
      (n size : ℕ) (xs : List A)
      → all_pages (λ i. slice (clamp_page (pos i)) size xs) n ≡ take (n * size) xs
  unfolding all_pages
  all_pages-take zero size xs = ap (λ k. take k xs) {x = 0} {y = 0 * size} (omega arith)
  all_pages-take (suc n) size xs =
      ap (λ p. p ++ slice (clamp_page (pos (suc n))) size xs) (all_pages-take n size xs)
      ∙ ap (λ k. take (n * size) xs ++ take size (drop (k * size) xs)) (clamp_page_pos n)
      ∙ take-add (n * size) size xs
      ∙ ap (λ k. take k xs) {x = n * size + size} {y = suc n * size} (grind arith)

-- The last page ends behind the last row.
pages_of_enough : (total size : ℕ) → 0 < size → total ≤ pages_of total size * size
pages_of_enough total size h =
    grind (arith, div-add-mod (total + size - 1) size, mod-lt (total + size - 1) h)

clamp_size_bounds : (size : ℤ) → (0 < clamp_size size) × (clamp_size size ≤ 200)
clamp_size_bounds (pos n) = ground arith
clamp_size_bounds (negsuc n) = (omega arith, omega arith)

-- If the database gives the rows that the filters let through in the same order to the query of every
-- page, the pages 1 to `total_pages` of the payment report, one after the other, are all these rows in
-- the order of the lot number, each as often as it is there, whatever page size is asked for.
pub payment_pages_whole :
    (sql : Sql) (f : PaymentFilter sql) (size : ℤ) (rows : List VehiclePaymentRecord)
    (p : VehiclePaymentRecord → Bool)
    → let found = payment_query sql f rows in
      ((query : ℕ)
        → sql.order_by query lot_no_column false found ≡ sql.order_by 0 lot_no_column false found)
      → let page_at = λ (i : ℕ). get_vehicle_payment_records sql i f (pos i) size rows in
        let report = all_pages (λ i. (page_at i).records) (page_at 1).total_pages in
        (report ≡ sql.order_by 0 lot_no_column false (payment_query sql f rows))
        × (length (select p report) ≡ length (select p (payment_query sql f rows)))
unfolding get_vehicle_payment_records page_of
payment_pages_whole sql f size rows p alike =
    let found = payment_query sql f rows in
    let ordered = sql.order_by 0 lot_no_column false found in
    let n = pages_of (length found) (clamp_size size) in
    let whole =
      ap (λ (g : ℕ → List VehiclePaymentRecord). all_pages g n)
        (fun_ext λ i. ap (slice (clamp_page (pos i)) (clamp_size size)) (alike i))
      ∙ all_pages-take n (clamp_size size) ordered
      ∙ take_whole (n * clamp_size size) ordered (
          rw (sql.length-order_by 0 lot_no_column false found)
            (pages_of_enough (length found) (clamp_size size) (clamp_size_bounds size).0)) in
    (
      whole,
      ap (λ (rs : List VehiclePaymentRecord). length (select p rs)) whole
          ∙ sql.count-order_by p 0 lot_no_column false found,
    )

page_pos : (page : ℤ) → 1 ≤ clamp_page page
page_pos (pos n) = ground arith
page_pos (negsuc n) = omega arith

-- Whatever page and page size are asked for, a page of the payment report holds at most 200 records
-- and at most its page size, its page number and number of pages are at least 1, and `total` is the
-- number of rows that the filters let through.
pub payment_page_bounds :
    (sql : Sql) (query : ℕ) (f : PaymentFilter sql) (page size : ℤ)
    (rows : List VehiclePaymentRecord)
    → let p = get_vehicle_payment_records sql query f page size rows in
      (length p.records ≤ p.page_size)
      × (p.page_size ≤ 200)
      × (1 ≤ p.page)
      × (1 ≤ p.total_pages)
      × (p.total ≡ length (payment_query sql f rows))
unfolding get_vehicle_payment_records page_of
payment_page_bounds sql query f page size rows =
    (take_bound (clamp_size size) _, (clamp_size_bounds size).1, page_pos page, ground arith, refl)
