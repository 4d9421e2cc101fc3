-- ===== src/Admin/Counts.antt =====
-- The headcounts of the back office.
use awa_platform.Prelude.{
  ℕ, String, ◌+◌, ◌≡◌, refl, sym, ap, ◌∙◌, Bool, true, false, ◌&&◌, ◌||◌, List, [], ◌∷◌, map, arith,
  if◌then◌else◌, ◌==◌, str_eq, ==_iff, Bool-cases, inl, inr, subst, if_split, if_intro,
}
use awa_platform.Prelude.Lists.{
  All, length, any, select, any-select, any_ext, any-map, any-map-select, any_swap,
}
use awa_platform.Models.User.{User}
use awa_platform.Models.Role.{Role, UserRole}
use awa_platform.Session.{Db}
use awa_platform.Roles.{Collation, meets, holds, get_user_roles, role_names}
use awa_platform.Admin.{distinct, joins, count_users_with_roles}

All-map-select :
    (P : ℕ → Type 0) (q : UserRole → Bool) (rows : List UserRole)
    → All (λ (r : UserRole). P r.user_id) rows
    → All P (map (λ (r : UserRole). r.user_id) (select q rows))
All-map-select P q [] h = tt
All-map-select P q (r ∷ rows) (h, hs) =
    if_intro (λ rs. All P (map (λ (x : UserRole). x.user_id) rs)) (q r) (r ∷ select q rows)
      (select q rows) (h, All-map-select P q rows hs) (All-map-select P q rows hs)

-- No two users have the same id.
abbrev pub AreKeyed : List User → Type 0
AreKeyed [] = Unit
AreKeyed (u ∷ users) = (any (λ (v : User). v.id == u.id) users ≡ false) × AreKeyed users

abbrev pub has_user : ℕ → List User → Bool
has_user id users = any (λ (u : User). u.id == id) users

-- The number of users whose id passes a test.
abbrev number : (ℕ → Bool) → List User → ℕ
number f users = length (select (λ (u : User). f u.id) users)

number_ext :
    (f g : ℕ → Bool) (users : List User) → ((i : ℕ) → f i ≡ g i) → number f users ≡ number g users
number_ext f g [] h = refl
number_ext f g (u ∷ users) h = ground (arith, h u.id, number_ext f g users h)

-- One more id that is not there changes nothing.
number_absent :
    (f : ℕ → Bool) (k : ℕ) (users : List User)
    → has_user k users ≡ false
    → number (λ i. i == k || f i) users ≡ number f users
number_absent f k [] h = refl
number_absent f k (u ∷ users) h = ground (arith, number_absent f k users)

number_first :
    (f : ℕ → Bool) (u : User) (users : List User)
    → has_user u.id users ≡ false
    → number (λ i. i == u.id || f i) (u ∷ users) ≡ number f (u ∷ users) + (if f u.id then 0 else 1)
number_first f u users d =
    rw ((==_iff u.id u.id).1 refl) (ground (arith, number_absent f u.id users d))

-- One more id that is there counts, if it has not passed before.
number_present :
    (f : ℕ → Bool) (k : ℕ) (users : List User)
    → AreKeyed users
    → has_user k users ≡ true
    → number (λ i. i == k || f i) users ≡ number f users + (if f k then 0 else 1)
number_present f k [] d h = absurd (cc)
number_present f k (u ∷ users) (d, ds) h = elim (Bool-cases (u.id == k)) [
  | inl e ↦
      subst
        (λ j.
          number (λ i. i == j || f i) (u ∷ users) ≡ number f (u ∷ users) + (if f j then 0 else 1))
        ((==_iff u.id k).0 e) (number_first f u users d)
  | inr e ↦ ground (arith, number_present f k users ds)
]

any_member :
    (p : ℕ → Bool) (i : ℕ) (xs : List ℕ)
    → any (λ j. i == j) xs ≡ true
    → any p xs ≡ (p i || any p xs)
any_member p i [] h = absurd (cc)
any_member p i (x ∷ xs) h = elim (Bool-cases (i == x)) [
  | inl e ↦
      subst (λ j. (p j || any p xs) ≡ (p i || (p j || any p xs))) ((==_iff i x).0 e) (ground arith)
  | inr e ↦ ground (arith, any_member p i xs)
]

any-distinct : (p : ℕ → Bool) (ids : List ℕ) → any p (distinct ids) ≡ any p ids
unfolding distinct
any-distinct p [] = refl
any-distinct p (i ∷ ids) =
    if_split (λ xs. any p xs ≡ (p i || any p ids)) (any (λ j. i == j) (distinct ids)) (distinct ids)
      (i ∷ distinct ids)
      (λ e. any_member p i (distinct ids) e ∙ ap (λ b. p i || b) (any-distinct p ids))
      (λ e. ap (λ b. p i || b) (any-distinct p ids))

length-if :
    {A : Type 0} (b : Bool) (x : A) (xs : List A)
    → length (if b then xs else x ∷ xs) ≡ length xs + (if b then 0 else 1)
length-if true x xs = omega arith
length-if false x xs = omega arith

-- The distinct ids of rows that refer to users are as many as the users that a row refers to.
length-distinct :
    (users : List User) (ids : List ℕ)
    → AreKeyed users
    → All (λ i. has_user i users ≡ true) ids
    → length (distinct ids) ≡ number (λ i. any (λ j. i == j) ids) users
unfolding distinct
length-distinct users [] d h = sym (number_none users)
  where
    number_none : (us : List User) → number (λ i. false) us ≡ 0
    number_none [] = refl
    number_none (u ∷ us) = number_none us
length-distinct users (i ∷ ids) d (h, hs) =
    length-if (any (λ j. i == j) (distinct ids)) i (distinct ids)
    ∙ rw (any-distinct (λ j. i == j) ids, length-distinct users ids d hs)
        (sym (number_present (λ k. any (λ j. k == j) ids) i users d h))

module _ (col : Collation) (names : List String) (db : Db) where
  -- The user of the row has one of the roles.
  abbrev holds_one : ℕ → Bool
  holds_one id = meets (role_names (get_user_roles col id db)) names

  holds-and :
      (id : ℕ) (q : Role) (b : Bool) (rows : List UserRole)
      → (holds id q.id rows && b)
        ≡ any (λ (r : UserRole). (r.role_id == q.id && b) && id == r.user_id) rows
  holds-and id q b [] = ground arith
  holds-and id q b (r ∷ rows) = ground (arith, holds-and id q b rows)

  and-any :
      (p : Role → Bool) (b : Bool) (roles : List Role)
      → any (λ q. p q && b) roles ≡ (any p roles && b)
  and-any p b [] = refl
  and-any p b (q ∷ roles) = ground (arith, and-any p b roles)

  meets-joins :
      (id : ℕ)
      → holds_one id
        ≡ any
            (λ j. id == j)
            (map (λ (r : UserRole). r.user_id) (select (joins names db.roles) db.user_roles))
  unfolding meets get_user_roles
  meets-joins id =
      any-map (λ h. any (λ n. str_eq h n) names) (λ (q : Role). q.name)
        (col.by_name (select (λ (q : Role). holds id q.id db.user_roles) db.roles))
      ∙ col.any-by_name (λ (q : Role). any (λ n. str_eq q.name n) names)
          (select (λ (q : Role). holds id q.id db.user_roles) db.roles)
      ∙ any-select (λ (q : Role). any (λ n. str_eq q.name n) names)
          (λ (q : Role). holds id q.id db.user_roles) db.roles
      ∙ any_ext (λ (q : Role). holds id q.id db.user_roles && any (λ n. str_eq q.name n) names)
          (λ (q : Role).
            any
              (λ (r : UserRole).
                (r.role_id == q.id && any (λ n. str_eq q.name n) names) && id == r.user_id)
              db.user_roles)
          db.roles (λ q. holds-and id q (any (λ n. str_eq q.name n) names) db.user_roles)
      ∙ any_swap
          (λ (q : Role) (r : UserRole).
            (r.role_id == q.id && any (λ n. str_eq q.name n) names) && id == r.user_id)
          db.roles db.user_roles
      ∙ any_ext
          (λ (r : UserRole).
            any
              (λ (q : Role).
                (r.role_id == q.id && any (λ n. str_eq q.name n) names) && id == r.user_id)
              db.roles)
          (λ (r : UserRole). joins names db.roles r && id == r.user_id) db.user_roles
          (λ r.
            and-any (λ (q : Role). r.role_id == q.id && any (λ n. str_eq q.name n) names)
              (id == r.user_id) db.roles)
      ∙ sym (
          any-map-select (λ j. id == j) (λ (r : UserRole). r.user_id) (joins names db.roles)
            db.user_roles)

  -- Where ids are unique and every grant refers to a user, the headcount of some roles is the number
  -- of users that the check of these roles lets through.
  pub headcount_exact :
      AreKeyed db.users
      → All (λ (r : UserRole). has_user r.user_id db.users ≡ true) db.user_roles
      → count_users_with_roles names db
        ≡ length
            (select (λ (u : User). meets (role_names (get_user_roles col u.id db)) names) db.users)
  unfolding count_users_with_roles
  headcount_exact d h =
      length-distinct db.users
        (map (λ (r : UserRole). r.user_id) (select (joins names db.roles) db.user_roles)) d
        (All-map-select (λ i. has_user i db.users ≡ true) (joins names db.roles) db.user_roles h)
      ∙ number_ext
          (λ i.
            any (λ j. i == j)
              (map (λ (r : UserRole). r.user_id) (select (joins names db.roles) db.user_roles)))
          holds_one db.users (λ i. sym (meets-joins i))
