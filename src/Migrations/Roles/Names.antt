-- ===== src/Migrations/Roles/Names.antt =====
-- Names that occur once: in the result of `sorted`, of SELECT DISTINCT, and of a selection.
use awa_platform.Prelude.{
  String, ◌≡◌, refl, sym, ap, ◌∙◌, subst, Bool, true, false, ◌||◌, List, [], ◌∷◌, ◌++◌, arith,
  Bool-cases, inl, inr, str_eq, eq_iff, if_split, if_intro,
}
use awa_platform.Prelude.Lists.{any, select}
use awa_platform.Migrations.Roles.{unique, distinct_by, insert_sorted, sorted}

pub str_eq_refl : (s : String) → str_eq s s ≡ true
str_eq_refl s = (eq_iff s s).1 refl

pub str_eq_sym : (s t : String) → str_eq s t ≡ str_eq t s
str_eq_sym s t = elim (Bool-cases (str_eq s t)) [
  | inl e ↦ subst (λ x. str_eq s x ≡ str_eq x s) ((eq_iff s t).0 e) refl
  | inr e ↦ elim (Bool-cases (str_eq t s)) [
    | inl d ↦ subst (λ x. str_eq x t ≡ str_eq t x) ((eq_iff t s).0 d) refl
    | inr d ↦ e ∙ sym d
  ]
]

pub any_nothing :
    {A : Type 0} (p : A → Bool) (xs : List A) → ((x : A) → p x ≡ false) → any p xs ≡ false
any_nothing p [] h = refl
any_nothing p (x ∷ xs) h = rw (h x, any_nothing p xs h) refl

pub any-append :
    {A : Type 0} (p : A → Bool) (xs ys : List A) → any p (xs ++ ys) ≡ (any p xs || any p ys)
any-append p [] ys = refl
any-append p (x ∷ xs) ys = ground (arith, any-append p xs ys)

module _ (before : String → String → Bool) where
  any-insert_sorted :
      (p : String → Bool) (x : String) (ys : List String)
      → any p (insert_sorted before x ys) ≡ (p x || any p ys)
  unfolding insert_sorted
  any-insert_sorted p x [] = refl
  any-insert_sorted p x (y ∷ ys) =
      if_intro (λ zs. any p zs ≡ (p x || (p y || any p ys))) (before x y) (x ∷ y ∷ ys)
        (y ∷ insert_sorted before x ys) refl (ground (arith, any-insert_sorted p x ys))

  pub any-sorted : (p : String → Bool) (xs : List String) → any p (sorted before xs) ≡ any p xs
  unfolding sorted
  any-sorted p [] = refl
  any-sorted p (x ∷ xs) =
      any-insert_sorted p x (sorted before xs) ∙ ap (λ b. p x || b) (any-sorted p xs)

  unique-insert_sorted :
      (x : String) (ys : List String)
      → any (str_eq x) ys ≡ false
      → unique str_eq ys ≡ true
      → unique str_eq (insert_sorted before x ys) ≡ true
  unfolding insert_sorted
  unique-insert_sorted x [] h k = refl
  unique-insert_sorted x (y ∷ ys) h k =
      if_intro (λ zs. unique str_eq zs ≡ true) (before x y) (x ∷ y ∷ ys)
        (y ∷ insert_sorted before x ys) (ground arith)
        (ground
          (arith, any-insert_sorted (str_eq y) x ys, str_eq_sym x y, unique-insert_sorted x ys))

  pub unique-sorted :
      (xs : List String) → unique str_eq xs ≡ true → unique str_eq (sorted before xs) ≡ true
  unfolding sorted
  unique-sorted [] h = refl
  unique-sorted (x ∷ xs) h =
      unique-insert_sorted x (sorted before xs) (any-sorted (str_eq x) xs ∙ (ground arith))
        (unique-sorted xs (ground arith))

pub unique-select :
    (q : String → Bool) (xs : List String)
    → unique str_eq xs ≡ true
    → unique str_eq (select q xs) ≡ true
unique-select q [] h = refl
unique-select q (x ∷ xs) h =
    if_intro (λ zs. unique str_eq zs ≡ true) (q x) (x ∷ select q xs) (select q xs)
      (ground (arith, any_false-select (str_eq x) xs, unique-select q xs))
      (unique-select q xs (ground arith))
  where
    any_false-select :
        (p : String → Bool) (ys : List String) → any p ys ≡ false → any p (select q ys) ≡ false
    any_false-select p [] k = refl
    any_false-select p (y ∷ ys) k = ground (arith, any_false-select p ys)

pub unique-distinct_by : (xs : List String) → unique str_eq (distinct_by str_eq xs) ≡ true
unfolding distinct_by
unique-distinct_by [] = refl
unique-distinct_by (x ∷ xs) =
    if_split (λ zs. unique str_eq zs ≡ true) (any (str_eq x) (distinct_by str_eq xs))
      (distinct_by str_eq xs) (x ∷ distinct_by str_eq xs) (λ e. unique-distinct_by xs)
      (λ e. rw (e, unique-distinct_by xs) refl)

-- A name that is found later may be left out.
any_found_later :
    (n x : String) (xs : List String)
    → any (str_eq x) xs ≡ true
    → any (str_eq n) xs ≡ (str_eq n x || any (str_eq n) xs)
any_found_later n x xs e = elim (Bool-cases (str_eq n x)) [
  | inl d ↦ rw (d, subst (λ y. any (str_eq y) xs ≡ true) (sym ((eq_iff n x).0 d)) e) refl
  | inr d ↦ rw d refl
]

-- A name that occurs somewhere in a list still does, when each name is taken once.
pub any-distinct_by :
    (n : String) (xs : List String) → any (str_eq n) (distinct_by str_eq xs) ≡ any (str_eq n) xs
unfolding distinct_by
any-distinct_by n [] = refl
any-distinct_by n (x ∷ xs) =
    if_split (λ zs. any (str_eq n) zs ≡ (str_eq n x || any (str_eq n) xs))
      (any (str_eq x) (distinct_by str_eq xs)) (distinct_by str_eq xs) (x ∷ distinct_by str_eq xs)
      (λ e. any-distinct_by n xs ∙ any_found_later n x xs (sym (any-distinct_by x xs) ∙ e))
      (λ e. ap (λ b. str_eq n x || b) (any-distinct_by n xs))

-- Two lists without a common name.
pub unique-append :
    (xs ys : List String)
    → unique str_eq xs ≡ true
    → unique str_eq ys ≡ true
    → ((n : String) → any (str_eq n) xs ≡ true → any (str_eq n) ys ≡ false)
    → unique str_eq (xs ++ ys) ≡ true
unique-append [] ys h k apart = k
unique-append (x ∷ xs) ys h k apart = ground (
  arith,
  any-append (str_eq x) xs ys,
  apart x (rw (str_eq_refl x) refl),
  unique-append xs ys (ground arith) k (λ n e. apart n (rw e (ground arith))),
)
