-- ===== src/Migrations/PrimaryRole/Among.antt =====
-- The elements of a list.
use awa_platform.Prelude.{
  ◌≡◌, ◌⊎◌, inl, inr, refl, sym, ◌∙◌, Bool, true, some, List, [], ◌∷◌, arith, Bool-cases,
}
use awa_platform.Prelude.Lists.{All, any, find}
use awa_platform.Migrations.Roles.{unique}

module _ {A : Type 0} where
  abbrev pub Among : A → List A → Type 0
  Among a [] = ⊥
  Among a (x ∷ xs) = (a ≡ x) ⊎ Among a xs

  pub any-Among : (p : A → Bool) (xs : List A) (a : A) → Among a xs → p a ≡ true → any p xs ≡ true
  any-Among p [] a m h = absurd m
  any-Among p (x ∷ xs) a (inl e) h = rw (← e, h) refl
  any-Among p (x ∷ xs) a (inr m) h = rw (any-Among p xs a m h) (ground arith)

  pub element_of_any :
      (p : A → Bool) (xs : List A) → any p xs ≡ true → (a : A) × Among a xs × (p a ≡ true)
  element_of_any p [] h = absurd (cc)
  element_of_any p (x ∷ xs) h = elim (Bool-cases (p x)) [
    | inl e ↦ (x, inl refl, e)
    | inr e ↦ let (a, m, k) = element_of_any p xs (ground arith) in (a, inr m, k)
  ]

  pub find-Among :
      (p : A → Bool) (xs : List A) (a : A) → find p xs ≡ some a → Among a xs × (p a ≡ true)
  find-Among p [] a h = absurd (cc)
  find-Among p (x ∷ xs) a h = elim (Bool-cases (p x)) [
    | inl e ↦ let same : x ≡ a = ground arith in (inl (sym same), rw (← same) e)
    | inr e ↦ let (m, k) = find-Among p xs a (ground arith) in (inr m, k)
  ]

  pub All-Among : (P : A → Type 0) (xs : List A) (a : A) → All P xs → Among a xs → P a
  All-Among P [] a h m = absurd m
  All-Among P (x ∷ xs) a (h, hs) (inl e) = rw e h
  All-Among P (x ∷ xs) a (h, hs) (inr m) = All-Among P xs a hs m

  pub All_of_among : (P : A → Type 0) (xs : List A) → ((a : A) → Among a xs → P a) → All P xs
  All_of_among P [] f = tt
  All_of_among P (x ∷ xs) f = (f x (inl refl), All_of_among P xs (λ a m. f a (inr m)))

  -- Two elements that a unique index cannot tell apart are one.
  pub unique-Among :
      (eq : A → A → Bool) (xs : List A) (a b : A)
      → ((x y : A) → eq x y ≡ eq y x)
      → unique eq xs ≡ true
      → Among a xs
      → Among b xs
      → eq a b ≡ true
      → a ≡ b
  unique-Among eq [] a b s h m n e = absurd m
  unique-Among eq (x ∷ xs) a b s h (inl p) (inl q) e = p ∙ sym q
  unique-Among eq (x ∷ xs) a b s h (inl p) (inr n) e =
      let found : any (eq x) xs ≡ true = any-Among (eq x) xs b n (rw (← p) e) in
      absurd (ground arith)
  unique-Among eq (x ∷ xs) a b s h (inr m) (inl q) e =
      let found : any (eq x) xs ≡ true = any-Among (eq x) xs a m (rw (← q) (s b a ∙ e)) in
      absurd (ground arith)
  unique-Among eq (x ∷ xs) a b s h (inr m) (inr n) e = unique-Among eq xs a b s (ground arith) m n e
