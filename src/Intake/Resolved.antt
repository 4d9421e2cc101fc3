-- ===== src/Intake/Resolved.antt =====
-- What a bulk upload reports: every row gets its result, and the counts agree with the table.
use awa_platform.Prelude.{
  ℕ, String, ◌+◌, ◌≡◌, refl, Bool, false, not, Option, none, some, List, [], ◌∷◌, if◌then◌else◌,
  is_some, Bool-cases, subst, sym, inl, inr, if_split, arith, map,
}
use awa_platform.Prelude.Lists.{All, length}
use awa_platform.Exceptions.{Result, ok, raise, assertion_error, data_error, ◌>>=◌}
use awa_platform.Roles.{or_raise}
use awa_platform.Intake.{VehicleListing, Yard, Text, listing_clash}
use awa_platform.Intake.Create.{add_listing}
use awa_platform.Intake.Sheet.{VehicleBulkRowInput, Cells, checks, read_cells}
use awa_platform.Intake.Bulk.{
  VehicleBulkRowResult, failing, bulk_listing, commit_row, insert_row, finish_row, create_bulk_row,
  then_row, bulk_create_vehicle_submissions, is_created, created_count,
}

abbrev IsOk : {A : Type 0} → Result A → Type 0
IsOk {A} r = (a : A) × (r ≡ ok a)

ok_inj : {A : Type 0} {a b : A} → ok a ≡ ok b → a ≡ b
ok_inj h = cc

then_some :
    {A B : Type 0} (o : Option A) (k : A → Result B)
    → not (is_some o) ≡ false
    → ((a : A) → IsOk (k a))
    → IsOk (or_raise assertion_error o >>= k)
unfolding or_raise
then_some none k h all = absurd (cc)
then_some (some a) k h all = all a

module _ (text : Text) where
  failing_none :
      (cs : List (Bool × String × String))
      → failing text cs ≡ []
      → All (λ (c : Bool × String × String). c.0 ≡ false) cs
  unfolding failing
  failing_none [] h = tt
  failing_none ((b, key, message) ∷ cs) h = elim (Bool-cases b) [
    | inl e ↦ absurd (ground arith)
    | inr e ↦ (e, failing_none cs (rw e at h))
  ]

  -- A row without errors passes the assertion.
  bulk_listing-IsOk :
      (id by : ℕ) (row : VehicleBulkRowInput) (c : Cells)
      → failing text (checks text row c) ≡ []
      → IsOk (bulk_listing text id by row c)
  unfolding bulk_listing
  bulk_listing-IsOk id by row c h =
      let (
        _,
        (
          _,
          (
            make,
            (model, (branch, (color, (keys, (fuel, (_, (year, (_, (_, (client, (_, _))))))))))),
          ),
        ),
      ) =
        failing_none (checks text row c) h in
      then_some c.make _ make λ m. then_some c.model _ model λ mo. then_some c.branch _ branch λ b.
        then_some c.color _ color λ co. then_some c.keys_option _ keys λ k.
          then_some c.fuel_type _ fuel
            λ f. then_some c.client _ client λ cl. then_some c.year _ year λ y. (_, refl)

  -- A row has no errors, and its listing has a value that its column does not take.
  abbrev IsUnfit : (by : ℕ) → ℕ × VehicleBulkRowInput → Yard → Type 0
  IsUnfit by (id, row) y =
      (failing text (checks text row (read_cells text row y)) ≡ [])
      × ((l : VehicleListing) × (bulk_listing text id by row (read_cells text row y) ≡ ok l)
          × (text.fits l ≡ false))

  -- What a row reports: its own number, and whether the table has grown by a listing; or DataError.
  abbrev Reports :
      (by : ℕ) → ℕ × VehicleBulkRowInput → Yard → Result VehicleBulkRowResult × Yard → Type 0
  Reports by e y (ok x, y') =
      (x.row_number ≡ e.1.row_number)
      × (length y'.listings ≡ length y.listings + (if is_created x then 1 else 0))
  Reports by e y (raise x, y') = (x ≡ data_error) × IsUnfit by e y

  commit_row-Reports :
      (by id : ℕ) (row : VehicleBulkRowInput) (l : VehicleListing) (y : Yard)
      → let (r, y') = commit_row text row l y (add_listing l y) in Reports by (id, row) y (ok r, y')
  unfolding commit_row add_listing
  commit_row-Reports by id row l y = elim (Bool-cases (listing_clash l y.listings)) [
    | inl e ↦ rw e (refl, omega arith)
    | inr e ↦ rw e (refl, omega arith)
  ]

  insert_row-Reports :
      (by id : ℕ) (row : VehicleBulkRowInput) (r : Result VehicleListing) (y : Yard)
      → failing text (checks text row (read_cells text row y)) ≡ []
      → bulk_listing text id by row (read_cells text row y) ≡ r
      → IsOk r
      → Reports by (id, row) y (insert_row text row r y)
  unfolding insert_row
  insert_row-Reports by id row (raise e) y none_fail made (l, h) = absurd (cc)
  insert_row-Reports by id row (ok l) y none_fail made h =
      let (r, y') = commit_row text row l y (add_listing l y) in
      if_split (Reports by (id, row) y) (text.fits l) (ok r, y') (raise data_error, y)
        (λ e. commit_row-Reports by id row l y) (λ e. (refl, (none_fail, (l, made, e))))

  finish_row-Reports :
      (by id : ℕ) (row : VehicleBulkRowInput) (errors : List (String × String)) (y : Yard)
      → failing text (checks text row (read_cells text row y)) ≡ errors
      → Reports by (id, row) y (finish_row text id by row (read_cells text row y) errors y)
  unfolding finish_row
  finish_row-Reports by id row [] y h =
      let c = read_cells text row y in
      insert_row-Reports by id row (bulk_listing text id by row c) y h refl
        (bulk_listing-IsOk id by row c h)
  finish_row-Reports by id row (e ∷ errors) y h = (refl, omega arith)

  abbrev row_of : ℕ × VehicleBulkRowInput → ℕ
  row_of e = e.1.row_number

  -- Some row is unfit for the tables that the rows before it have left.
  pub data HasUnfit (by : ℕ) : List (ℕ × VehicleBulkRowInput) → Yard → Type 0 where
    unfit_here :
        (e : ℕ × VehicleBulkRowInput) (rows : List (ℕ × VehicleBulkRowInput)) (y : Yard)
        → IsUnfit by e y
        → HasUnfit by (e ∷ rows) y
    unfit_later :
        (e : ℕ × VehicleBulkRowInput) (rows : List (ℕ × VehicleBulkRowInput)) (y : Yard)
        → HasUnfit by rows (create_bulk_row text e.0 by e.1 y).1
        → HasUnfit by (e ∷ rows) y

  -- What an upload comes to: a result for each row, in order and with its number, and a table that has
  -- grown by as many listings as are counted as created; or DataError, for a row that is unfit.
  abbrev pub AllReported :
      (by : ℕ)
      → List (ℕ × VehicleBulkRowInput)
      → Yard
      → Result (List VehicleBulkRowResult) × Yard
      → Type 0
  AllReported by rows y (ok rs, y') =
      (map (λ (x : VehicleBulkRowResult). x.row_number) rs ≡ map row_of rows)
      × (length y'.listings ≡ length y.listings + created_count rs)
  AllReported by rows y (raise e, y') = (e ≡ data_error) × HasUnfit by rows y

  next-AllReported :
      (by : ℕ) (e : ℕ × VehicleBulkRowInput) (rows : List (ℕ × VehicleBulkRowInput)) (y : Yard)
      (r : Result VehicleBulkRowResult) (y' : Yard)
      (rest : Result (List VehicleBulkRowResult) × Yard)
      → (create_bulk_row text e.0 by e.1 y).1 ≡ y'
      → Reports by e y (r, y')
      → AllReported by rows y' rest
      → AllReported by (e ∷ rows) y (elim r as (λ _. Result (List VehicleBulkRowResult) × Yard) [
        | ok x ↦ then_row text x rest
        | raise x ↦ (raise x, y')
      ])
  unfolding then_row
  next-AllReported by e rows y (raise x) y' rest left (same, unfit) k =
      (same, unfit_here e rows y unfit)
  next-AllReported by e rows y (ok x) y' (raise d, z) left h (same, later) =
      (same, unfit_later e rows y (subst (HasUnfit by rows) (sym left) later))
  next-AllReported by e rows y (ok x) y' (ok rs, z) left (number, grown) (numbers, total) =
      (rw (number, numbers) refl, ground (arith, grown, total))

  -- A bulk upload gives one result for each row, in the order of the rows and with their numbers, and
  -- the table grows by as many listings as the report counts as created; or else it ends with the
  -- database's DataError, and only if some row without errors has a value that its column does not
  -- take. Nothing else ends it.
  pub bulk_create_reports :
      (by : ℕ) (rows : List (ℕ × VehicleBulkRowInput)) (y : Yard)
      → AllReported by rows y (bulk_create_vehicle_submissions text by rows y)
  unfolding bulk_create_vehicle_submissions create_bulk_row
  bulk_create_reports by [] y = (refl, omega arith)
  bulk_create_reports by ((id, row) ∷ rows) y =
      let (r, y') = create_bulk_row text id by row y in
      next-AllReported by (id, row) rows y r y' (bulk_create_vehicle_submissions text by rows y')
        refl
        (finish_row-Reports by id row (failing text (checks text row (read_cells text row y))) y
          refl)
        (bulk_create_reports by rows y')
