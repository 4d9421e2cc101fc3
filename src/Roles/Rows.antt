-- ===== src/Roles/Rows.antt =====
-- Rows found, removed and changed: what the grants of roles need of the tables.
use awa_platform.Prelude.{
  ℕ, ◌≡◌, refl, Bool, true, false, ◌&&◌, some, List, [], ◌∷◌, arith, Bool-cases, inl, inr, ◌≢◌, sym,
}
use awa_platform.Prelude.Lists.{All, All-find, select, find, any, update}
use awa_platform.Models.Role.{UserRole}

module _ {ℓ} {A : Type ℓ} where
  -- A row that passes `p`, all of which pass `q`, is still there among the rows that pass `q`.
  pub any-select :
      (p q : A → Bool) (xs : List A)
      → All (λ x. p x ≡ true → q x ≡ true) xs
      → any p xs ≡ true
      → any p (select q xs) ≡ true
  any-select p q [] h e = e
  any-select p q (x ∷ xs) h e = ground (arith, any-select p q xs h.1)

  pub any-select_same :
      (p q : A → Bool) (xs : List A) → any p (select q xs) ≡ true → any p xs ≡ true
  any-select_same p q [] e = e
  any-select_same p q (x ∷ xs) e = ground (arith, any-select_same p q xs)

  pub find-select :
      (p q : A → Bool) (xs : List A) → find q (select p xs) ≡ find (λ x. p x && q x) xs
  find-select p q [] = refl
  find-select p q (x ∷ xs) = ground (arith, find-select p q xs)

  pub All-map {κ κ'} :
      (P : A → Type κ) (Q : A → Type κ') (xs : List A) → ((x : A) → P x → Q x) → All P xs → All Q xs
  All-map P Q [] f h = tt
  All-map P Q (x ∷ xs) f h = (f x h.0, All-map P Q xs f h.1)

  pub All-zip {κ κ' μ} :
      (P : A → Type κ) (P' : A → Type κ') (Q : A → Type μ) (xs : List A)
      → ((x : A) → P x → P' x → Q x)
      → All P xs
      → All P' xs
      → All Q xs
  All-zip P P' Q [] f h k = tt
  All-zip P P' Q (x ∷ xs) f h k = (f x h.0 k.0, All-zip P P' Q xs f h.1 k.1)

  pub All-select {κ} :
      (P : A → Type κ) (q : A → Bool) (xs : List A) → All P xs → All P (select q xs)
  All-select P q [] h = tt
  All-select P q (x ∷ xs) h = elim (Bool-cases (q x)) [
    | inl e ↦ rw e (h.0, All-select P q xs h.1)
    | inr e ↦ rw e (All-select P q xs h.1)
  ]

  -- What `select` keeps passes its test.
  pub All-select_test : (q : A → Bool) (xs : List A) → All (λ x. q x ≡ true) (select q xs)
  All-select_test q [] = tt
  All-select_test q (x ∷ xs) = elim (Bool-cases (q x)) [
    | inl e ↦ rw e (e, All-select_test q xs)
    | inr e ↦ rw e (All-select_test q xs)
  ]

  pub All-update {κ κ'} :
      (P : A → Type κ) (Q : A → Type κ') (p : A → Bool) (f : A → A) (xs : List A)
      → ((x : A) → P x → p x ≡ true → Q (f x))
      → ((x : A) → P x → p x ≡ false → Q x)
      → All P xs
      → All Q (update p f xs)
  All-update P Q p f [] hit miss h = tt
  All-update P Q p f (x ∷ xs) hit miss h = elim (Bool-cases (p x)) [
    | inl e ↦ rw e (hit x h.0 e, All-update P Q p f xs hit miss h.1)
    | inr e ↦ rw e (miss x h.0 e, All-update P Q p f xs hit miss h.1)
  ]

-- The primary key of `user_roles`.
abbrev pub HasUniqueIds : List UserRole → Type 0
HasUniqueIds [] = Unit
HasUniqueIds (r ∷ rows) = All (λ (q : UserRole). q.id ≢ r.id) rows × HasUniqueIds rows

absent_id :
    (t : UserRole) (p : UserRole → Bool) (rows : List UserRole) (i : ℕ)
    → All (λ (q : UserRole). q.id ≢ i) rows
    → find p rows ≡ some t
    → t.id ≢ i
absent_id t p rows i h e = All-find (λ (q : UserRole). q.id ≢ i) p rows h e

-- The rows with the id of a row that has been found are that row.
pub found_unique :
    (t : UserRole) (p : UserRole → Bool) (rows : List UserRole)
    → HasUniqueIds rows
    → find p rows ≡ some t
    → All (λ (q : UserRole). q.id ≡ t.id → q ≡ t) rows
found_unique t p [] u e = tt
found_unique t p (r ∷ rows) u e = elim (Bool-cases (p r)) [
  | inl h ↦
      let same : r ≡ t = ground arith in
      (
        λ _. same,
        All-map (λ (q : UserRole). q.id ≢ r.id) (λ (q : UserRole). q.id ≡ t.id → q ≡ t) rows
            (λ q ne i. absurd (ne (cc))) u.0,
      )
  | inr h ↦
      let later : find p rows ≡ some t = rw h at e in
      (λ i. absurd (absent_id t p rows r.id u.0 later (sym i)), found_unique t p rows u.1 later)
]

module _ {ℓ} {A : Type ℓ} where
  pub All-select_of {κ κ'} :
      (P : A → Type κ) (Q : A → Type κ') (q : A → Bool) (xs : List A)
      → ((x : A) → P x → q x ≡ true → Q x)
      → All P xs
      → All Q (select q xs)
  All-select_of P Q q [] f h = tt
  All-select_of P Q q (x ∷ xs) f h = elim (Bool-cases (q x)) [
    | inl e ↦ rw e (f x h.0 e, All-select_of P Q q xs f h.1)
    | inr e ↦ rw e (All-select_of P Q q xs f h.1)
  ]
