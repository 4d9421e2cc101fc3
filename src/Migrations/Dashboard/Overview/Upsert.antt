-- ===== src/Migrations/Dashboard/Overview/Upsert.antt =====
-- A row that is inserted if no row has its address, and updated else.
use awa_platform.Prelude.{
  ℕ, String, ◌≡◌, refl, sym, ap, ◌∙◌, subst, Bool, true, false, ◌||◌, Option, none, some, List, [],
  ◌∷◌, ◌++◌, ◌==◌, if◌then◌else◌, str_eq, eq_iff, ==_iff, arith, Bool-cases, Option-cases, inl, inr,
}
use awa_platform.Prelude.Lists.{any, find, update, find-update}
use awa_platform.Admin.{AdminNavItem}
use awa_platform.Migrations.Roles.{unique}
use awa_platform.Migrations.PrimaryRole.Among.{find-Among, unique-Among}
use awa_platform.Migrations.Dashboard.Overview.{has_url, insert_or_update}

abbrev pub same_id : AdminNavItem → AdminNavItem → Bool
same_id i j = i.id == j.id

abbrev pub has_id : ℕ → List AdminNavItem → Bool
has_id id items = any (λ (i : AdminNavItem). id == i.id) items

find-append :
    (p : AdminNavItem → Bool) (xs : List AdminNavItem) (y : AdminNavItem)
    → find p xs ≡ none
    → find p (xs ++ y ∷ []) ≡ (if p y then some y else none)
find-append p [] y h = refl
find-append p (x ∷ xs) y h = ground (arith, find-append p xs y)

find-append_other :
    (p : AdminNavItem → Bool) (xs : List AdminNavItem) (y : AdminNavItem)
    → p y ≡ false
    → find p (xs ++ y ∷ []) ≡ find p xs
find-append_other p [] y h = ground arith
find-append_other p (x ∷ xs) y h = ground (arith, find-append_other p xs y h)

has_id-append :
    (id : ℕ) (xs : List AdminNavItem) (y : AdminNavItem)
    → has_id id (xs ++ y ∷ []) ≡ (has_id id xs || id == y.id)
has_id-append id [] y = ground arith
has_id-append id (x ∷ xs) y = ground (arith, has_id-append id xs y)

unique-append_one :
    (xs : List AdminNavItem) (y : AdminNavItem)
    → unique same_id xs ≡ true
    → has_id y.id xs ≡ false
    → unique same_id (xs ++ y ∷ []) ≡ true
unique-append_one [] y h k = refl
unique-append_one (x ∷ xs) y h k = ground (arith, has_id-append x.id xs y, unique-append_one xs y)

has_id-update :
    (id : ℕ) (q : AdminNavItem → Bool) (set : AdminNavItem → AdminNavItem) (xs : List AdminNavItem)
    → ((i : AdminNavItem) → (set i).id ≡ i.id)
    → has_id id (update q set xs) ≡ has_id id xs
has_id-update id q set [] h = refl
has_id-update id q set (x ∷ xs) h = ground (arith, h x, has_id-update id q set xs h)

unique-update :
    (q : AdminNavItem → Bool) (set : AdminNavItem → AdminNavItem) (xs : List AdminNavItem)
    → ((i : AdminNavItem) → (set i).id ≡ i.id)
    → unique same_id xs ≡ true
    → unique same_id (update q set xs) ≡ true
unique-update q set [] h k = refl
unique-update q set (x ∷ xs) h k =
    ground (arith, h x, has_id-update x.id q set xs h, unique-update q set xs h)

-- One step, with the row that it may insert and the columns that it sets.
module _ (url : String) (new : AdminNavItem) (set : AdminNavItem → AdminNavItem)
    (set_id : (i : AdminNavItem) → (set i).id ≡ i.id)
    (set_url : (i : AdminNavItem) → (set i).url ≡ i.url) (items : List AdminNavItem)
    (ids : unique same_id items ≡ true) where
  abbrev step : List AdminNavItem
  step = insert_or_update (find (has_url url) items) new set items

  pub unique-step : has_id new.id items ≡ false → unique same_id step ≡ true
  unfolding insert_or_update
  unique-step fresh = elim (Option-cases (find (has_url url) items)) [
    | inl e ↦ rw e (unique-append_one items new ids fresh)
    | inr (row, e) ↦
        rw e (unique-update (λ (i : AdminNavItem). i.id == row.id) set items set_id ids)
  ]

  -- An id that is neither there nor that of the new row stays away.
  pub has_id-step :
      (id : ℕ) → has_id id items ≡ false → (id == new.id) ≡ false → has_id id step ≡ false
  unfolding insert_or_update
  has_id-step id h k = elim (Option-cases (find (has_url url) items)) [
    | inl e ↦ rw (e, has_id-append id items new, h, k) refl
    | inr (row, e) ↦
        rw (e, has_id-update id (λ (i : AdminNavItem). i.id == row.id) set items set_id) h
  ]

  abbrev found : Option AdminNavItem → AdminNavItem
  found none = new
  found (some row) = set row

  -- Then the address has a row: the new one, or the old one with its new columns.
  pub find-step :
      str_eq new.url url ≡ true → find (has_url url) step ≡ some (found (find (has_url url) items))
  unfolding insert_or_update
  find-step h = elim (Option-cases (find (has_url url) items)) [
    | inl e ↦ rw (e, find-append (has_url url) items new e, h) refl
    | inr (row, e) ↦
        rw
          (
            e,
            find-update (has_url url) (λ (i : AdminNavItem). i.id == row.id) set items
                (λ i. ap (λ u. str_eq u url) (set_url i)),
            e,
            (==_iff row.id row.id).1 refl,
          )
          refl
  ]

  -- Rows with two different addresses have different ids.
  apart :
      (other : String) (row y : AdminNavItem)
      → str_eq url other ≡ false
      → find (has_url url) items ≡ some row
      → find (has_url other) items ≡ some y
      → (y.id == row.id) ≡ false
  apart other row y k e d = elim (Bool-cases (y.id == row.id)) [
    | inl same ↦
        let (m, p) = find-Among (has_url url) items row e in
        let (n, q) = find-Among (has_url other) items y d in
        let one : y ≡ row = unique-Among same_id items y row (λ i j. ground arith) ids n m same in
        let q' : str_eq row.url other ≡ true =
          subst (λ (i : AdminNavItem). has_url other i ≡ true) one q in
        let both : url ≡ other = sym ((eq_iff row.url url).0 p) ∙ (eq_iff row.url other).0 q' in
        let eq : str_eq url other ≡ true = (eq_iff url other).1 both in absurd (cc)
    | inr other_id ↦ other_id
  ]

  -- The rows of other addresses stay.
  pub find-step_other :
      (other : String)
      → str_eq new.url other ≡ false
      → str_eq url other ≡ false
      → find (has_url other) step ≡ find (has_url other) items
  unfolding insert_or_update
  find-step_other other h k = elim (Option-cases (find (has_url url) items)) [
    | inl e ↦ rw e (find-append_other (has_url other) items new h)
    | inr (row, e) ↦ rw e (
        find-update (has_url other) (λ (i : AdminNavItem). i.id == row.id) set items
          (λ i. ap (λ u. str_eq u other) (set_url i))
        ∙ elim (Option-cases (find (has_url other) items)) [
          | inl d ↦ rw d refl
          | inr (y, d) ↦ rw (d, apart other row y k e d) refl
        ])
  ]
