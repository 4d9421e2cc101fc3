-- ===== src/Migrations/Roles/Collates.antt =====
-- A collation that tells the names of the revision 0029 apart does what a comparison letter by letter
-- does.
use awa_platform.Prelude.{
  String, ◌≡◌, refl, sym, ap, ◌∙◌, Bool, true, not, ◌||◌, List, [], ◌∷◌, ◌++◌, arith, Bool-cases,
  inl, inr, str_eq,
}
use awa_platform.Prelude.Lists.{any, select}
use awa_platform.Migrations.Roles.{
  Account, unique, distinct_by, sorted, seeded_names, given_roles, unseeded_names,
}
use awa_platform.Migrations.Roles.Names.{str_eq_refl, any-append, any-distinct_by}
use awa_platform.Migrations.Roles.Known.{names_after, unique-names_after, unseeded-given}

-- The names that are seeded and those that the users have.
abbrev pub all_names : {C : Type 0} → List (Account C) → List String
all_names users = seeded_names ++ given_roles users

module _ (eq : String → String → Bool) where
  -- Of these names the collation takes two for the same only if they are.
  abbrev pub TellsApart : List String → Type 0
  TellsApart names =
      (s t : String)
      → any (str_eq s) names ≡ true
      → any (str_eq t) names ≡ true
      → eq s t ≡ str_eq s t

  any_apart :
      (x : String) (ys : List String)
      → ((t : String) → any (str_eq t) ys ≡ true → eq x t ≡ str_eq x t)
      → any (eq x) ys ≡ any (str_eq x) ys
  any_apart x [] h = refl
  any_apart x (y ∷ ys) h =
      rw (h y (rw (str_eq_refl y) refl), any_apart x ys (λ t e. h t (rw e (ground arith)))) refl

  unique_apart : (xs : List String) → TellsApart xs → unique eq xs ≡ unique str_eq xs
  unique_apart [] h = refl
  unique_apart (x ∷ xs) h =
      rw
        (
          any_apart x xs (λ t e. h x t (rw (str_eq_refl x) refl) (rw e (ground arith))),
          unique_apart xs (λ s t d e. h s t (rw d (ground arith)) (rw e (ground arith))),
        )
        refl

  distinct_apart : (xs : List String) → TellsApart xs → distinct_by eq xs ≡ distinct_by str_eq xs
  unfolding distinct_by
  distinct_apart [] h = refl
  distinct_apart (x ∷ xs) h =
      rw
        (
          distinct_apart xs (λ s t d e. h s t (rw d (ground arith)) (rw e (ground arith))),
          any_apart x (distinct_by str_eq xs) (λ t e.
              h x t (rw (str_eq_refl x) refl) (rw (sym (any-distinct_by t xs) ∙ e) (ground arith))),
        )
        refl

  module _ {C : Type 0} (before : String → String → Bool) (users : List (Account C)) where
    of_names_after :
        (n : String)
        → any (str_eq n) (names_after before users) ≡ true
        → any (str_eq n) (all_names users) ≡ true
    of_names_after n h =
        any-append (str_eq n) seeded_names (given_roles users)
        ∙ elim (Bool-cases (any (str_eq n) seeded_names)) [
          | inl e ↦ rw e refl
          | inr e ↦
              ap (λ b. any (str_eq n) seeded_names || b) (sym (unseeded-given before users n e))
              ∙ sym (any-append (str_eq n) seeded_names (unseeded_names str_eq before users))
              ∙ h
        ]

    module _ (apart : TellsApart (all_names users)) where
      pub unseeded_apart : unseeded_names eq before users ≡ unseeded_names str_eq before users
      unfolding unseeded_names
      unseeded_apart =
          ap (λ ns. sorted before (select (λ n. not (any (str_eq n) seeded_names)) ns))
            (distinct_apart (given_roles users) (λ s t d e. apart s t (given s d) (given t e)))
        where
          given :
              (n : String)
              → any (str_eq n) (given_roles users) ≡ true
              → any (str_eq n) (all_names users) ≡ true
          given n e = any-append (str_eq n) seeded_names (given_roles users) ∙ rw e (ground arith)

      pub unique_seeded : unique eq seeded_names ≡ true
      unique_seeded = unique_apart seeded_names (λ s t d e. apart s t (seeded s d) (seeded t e))
        where
          seeded :
              (n : String)
              → any (str_eq n) seeded_names ≡ true
              → any (str_eq n) (all_names users) ≡ true
          seeded n e = any-append (str_eq n) seeded_names (given_roles users) ∙ rw e (ground arith)

      pub unique_after : unique eq (names_after before users) ≡ true
      unique_after =
          unique_apart (names_after before users)
            (λ s t d e. apart s t (of_names_after s d) (of_names_after t e))
          ∙ unique-names_after before users
