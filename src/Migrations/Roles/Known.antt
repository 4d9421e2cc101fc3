-- ===== src/Migrations/Roles/Known.antt =====
-- The rows of `roles` that the revision 0029 makes: each name once, and each user's role among them.
use awa_platform.Prelude.{
  ℕ, String, ◌+◌, ◌≡◌, ◌≢◌, refl, ap, ◌∙◌, subst, Bool, true, false, not, ◌&&◌, Option, none, some,
  List, [], ◌∷◌, ◌++◌, map, arith, ◌==◌, if◌then◌else◌, Bool-cases, Option-cases, inl, inr, str_eq,
  eq_iff, if_intro,
}
use awa_platform.Prelude.Lists.{All, All-map, any, any-select, any_ext}
use awa_platform.Exceptions.{ok}
use awa_platform.Models.Role.{Role}
use awa_platform.Migrations.Roles.{
  Account, unique, distinct_by, seed_roles, seeded_names, role_rows, insert_roles, given_roles,
  unseeded_names, legacy_description, role_ids, role_id_for, seed_and_legacy_roles,
}
use awa_platform.Migrations.Roles.Names.{
  str_eq_refl, str_eq_sym, any_nothing, any-append, any-sorted, unique-sorted, unique-select,
  unique-distinct_by, any-distinct_by, unique-append,
}

-- The names of the rows of `roles` when the revision has run.
abbrev pub names_after : {C : Type 0} → (String → String → Bool) → List (Account C) → List String
names_after before users = seeded_names ++ unseeded_names str_eq before users

pub unique-names_after :
    {C : Type 0} (before : String → String → Bool) (users : List (Account C))
    → unique str_eq (names_after before users) ≡ true
unfolding unseeded_names
unique-names_after before users =
    unique-append seeded_names (unseeded_names str_eq before users) refl
      (unique-sorted before _ (
        unique-select (λ x. not (any (str_eq x) seeded_names))
          (distinct_by str_eq (given_roles users)) (unique-distinct_by (given_roles users))))
      λ n e.
        any-sorted before (str_eq n) _
        ∙ any-select (str_eq n) _ (distinct_by str_eq (given_roles users))
        ∙ any_nothing _ (distinct_by str_eq (given_roles users)) (λ x. apart n x e)
  where
    apart :
        (n x : String)
        → any (str_eq n) seeded_names ≡ true
        → (not (any (str_eq x) seeded_names) && str_eq n x) ≡ false
    apart n x e = elim (Bool-cases (str_eq n x)) [
      | inl d ↦
          subst (λ y. (not (any (str_eq y) seeded_names) && str_eq n y) ≡ false) ((eq_iff n x).0 d)
            (rw e refl)
      | inr d ↦ rw d (ground arith)
    ]

name-role_rows :
    (uuid : ℕ → ℕ) (start : ℕ) (roles : List (String × String))
    → map (λ (r : Role). r.name) (role_rows uuid start roles)
      ≡ map (λ (s : String × String). s.0) roles
unfolding role_rows
name-role_rows uuid start [] = refl
name-role_rows uuid start ((n, d) ∷ roles) = ap (◌∷◌ n) (name-role_rows uuid (start + 1) roles)

map_described :
    (d : String) (names : List String)
    → map (λ (s : String × String). s.0) (map (λ n. (n, d)) names) ≡ names
map_described d [] = refl
map_described d (n ∷ names) = ap (◌∷◌ n) (map_described d names)

map-append : {A B : Type 0} (f : A → B) (xs ys : List A) → map f (xs ++ ys) ≡ map f xs ++ map f ys
map-append f [] ys = refl
map-append f (x ∷ xs) ys = ap (◌∷◌ (f x)) (map-append f xs ys)

-- The rows of `roles` when the revision has run.
abbrev pub roles_after : (ℕ → ℕ) → List String → List Role
roles_after uuid names =
    role_rows uuid 0 seed_roles ++ role_rows uuid 8 (map (λ n. (n, legacy_description)) names)

pub name-roles_after :
    (uuid : ℕ → ℕ) (names : List String)
    → map (λ (r : Role). r.name) (roles_after uuid names) ≡ seeded_names ++ names
name-roles_after uuid names =
    map-append (λ (r : Role). r.name) (role_rows uuid 0 seed_roles) _
    ∙ (rw
        (
          name-role_rows uuid 0 seed_roles,
          name-role_rows uuid 8 (map (λ n. (n, legacy_description)) names),
          map_described legacy_description names,
        )
        refl)

-- No name repeats for the collation, so the two inserts pass the index.
pub seed_and_legacy_roles-passes :
    (eq : String → String → Bool) (uuid : ℕ → ℕ) (names : List String)
    → unique eq seeded_names ≡ true
    → unique eq (seeded_names ++ names) ≡ true
    → seed_and_legacy_roles eq uuid names ≡ ok (roles_after uuid names)
unfolding seed_and_legacy_roles insert_roles
seed_and_legacy_roles-passes eq uuid names seeded h =
    let k : unique eq (map (λ (r : Role). r.name) (roles_after uuid names)) ≡ true =
      rw (name-roles_after uuid names) h in
    let first : unique eq (map (λ (r : Role). r.name) (role_rows uuid 0 seed_roles)) ≡ true =
      rw (name-role_rows uuid 0 seed_roles) seeded in
    rw (first, k) refl

-- Whether a row has this id and this name.
abbrev pub is_named : (role_id : ℕ) → String → List Role → Bool
is_named role_id name roles = any (λ (r : Role). r.id == role_id && str_eq r.name name) roles

named_of_id :
    (roles : List Role) (name : String) (id : ℕ)
    → role_ids roles name ≡ some id
    → is_named id name roles ≡ true
unfolding role_ids
named_of_id [] name id e = absurd (cc)
named_of_id (r ∷ roles) name id e = elim (Option-cases (role_ids roles name)) [
  | inl d ↦ ground (arith, d)
  | inr (later, d) ↦ ground (arith, d, named_of_id roles name later d)
]

id_of_name :
    (roles : List Role) (name : String)
    → any (str_eq name) (map (λ (r : Role). r.name) roles) ≡ true
    → role_ids roles name ≢ none
unfolding role_ids
id_of_name [] name h e = absurd (cc)
id_of_name (r ∷ roles) name h e = ground (arith, str_eq_sym name r.name, id_of_name roles name)

-- A name that some row has gets the id of a row with that name.
pub role_ids-named :
    (roles : List Role) (name : String)
    → any (str_eq name) (map (λ (r : Role). r.name) roles) ≡ true
    → (id : ℕ) × (role_ids roles name ≡ some id) × (is_named id name roles ≡ true)
role_ids-named roles name h = elim (Option-cases (role_ids roles name)) [
  | inl e ↦ absurd (id_of_name roles name h e)
  | inr (id, e) ↦ (id, e, named_of_id roles name id e)
]

-- The role that the row of a user names: an empty one stands for the buyer.
abbrev pub wanted : Option String → String
wanted none = "Buyer"
wanted (some name) = if str_eq name "" then "Buyer" else name

-- Of the names that are not seeded, those of the users all get a row.
pub unseeded-given :
    {C : Type 0} (before : String → String → Bool) (users : List (Account C)) (n : String)
    → any (str_eq n) seeded_names ≡ false
    → any (str_eq n) (unseeded_names str_eq before users) ≡ any (str_eq n) (given_roles users)
unfolding unseeded_names
unseeded-given before users n h =
    any-sorted before (str_eq n) _
    ∙ any-select (str_eq n) _ (distinct_by str_eq (given_roles users))
    ∙ any_ext _ (str_eq n) (distinct_by str_eq (given_roles users)) same
    ∙ any-distinct_by n (given_roles users)
  where
    same : (x : String) → (not (any (str_eq x) seeded_names) && str_eq n x) ≡ str_eq n x
    same x = elim (Bool-cases (str_eq n x)) [
      | inl d ↦
          subst (λ y. (not (any (str_eq y) seeded_names) && str_eq n y) ≡ str_eq n y)
            ((eq_iff n x).0 d) (rw h refl)
      | inr d ↦ rw d (ground arith)
    ]

-- The names that the users have are among those of the rows.
pub given-names_after :
    {C : Type 0} (before : String → String → Bool) (users : List (Account C)) (n : String)
    → any (str_eq n) (given_roles users) ≡ true
    → any (str_eq n) (names_after before users) ≡ true
given-names_after before users n h =
    any-append (str_eq n) seeded_names (unseeded_names str_eq before users)
    ∙ elim (Bool-cases (any (str_eq n) seeded_names)) [
      | inl e ↦ rw e refl
      | inr e ↦ rw (unseeded-given before users n e, h) (ground arith)
    ]

-- Every user's wanted role is among the names of the rows.
module _ {C : Type 0} where
  abbrev pub IsGiven : List String → Account C → Type 0
  IsGiven names u = (n : String) → u.role ≡ some n → any (str_eq n) names ≡ true

  given_cons :
      (u : Account C) (users : List (Account C)) (n : String)
      → any (str_eq n) (given_roles users) ≡ true
      → any (str_eq n) (given_roles (u ∷ users)) ≡ true
  unfolding given_roles
  given_cons u users n h = ground arith

  IsGiven-first : (u : Account C) (users : List (Account C)) → IsGiven (given_roles (u ∷ users)) u
  unfolding given_roles
  IsGiven-first u users n e = rw (e, str_eq_refl n) refl

  pub All-IsGiven : (users : List (Account C)) → All (IsGiven (given_roles users)) users
  All-IsGiven [] = tt
  All-IsGiven (u ∷ users) = (
    IsGiven-first u users,
    All-map (IsGiven (given_roles users)) (IsGiven (given_roles (u ∷ users))) users
        (λ v k n e. given_cons u users n (k n e)) (All-IsGiven users),
  )

pub wanted_known :
    (names : List String) (role : Option String)
    → any (str_eq "Buyer") names ≡ true
    → ((n : String) → role ≡ some n → any (str_eq n) names ≡ true)
    → any (str_eq (wanted role)) names ≡ true
wanted_known names none b h = b
wanted_known names (some n) b h =
    if_intro (λ w. any (str_eq w) names ≡ true) (str_eq n "") "Buyer" n b (h n refl)

-- The id that a user's row gets is that of a row with the wanted name.
pub role_id_for-named :
    (roles : List Role) (buyer_id : ℕ) (role : Option String)
    → role_ids roles "Buyer" ≡ some buyer_id
    → any (str_eq (wanted role)) (map (λ (r : Role). r.name) roles) ≡ true
    → is_named (role_id_for roles buyer_id role) (wanted role) roles ≡ true
unfolding role_id_for
role_id_for-named roles buyer_id none b h = named_of_id roles "Buyer" buyer_id b
role_id_for-named roles buyer_id (some n) b h = elim (Bool-cases (str_eq n "")) [
  | inl e ↦ rw e (named_of_id roles "Buyer" buyer_id b)
  | inr e ↦
      let h' : any (str_eq n) (map (λ (r : Role). r.name) roles) ≡ true =
        subst
          (λ t. any (str_eq (if t then "Buyer" else n)) (map (λ (r : Role). r.name) roles) ≡ true) e
          h in
      let (id, found, named) = role_ids-named roles n h' in rw (e, found) named
]
