-- ===== src/Roles/Revoke/Left.antt =====
-- The rows of user_roles that a revocation leaves.
use awa_platform.Prelude.{
  ℕ, ◌≡◌, ◌≢◌, true, not, ◌&&◌, List, [], ◌∷◌, ◌==◌, arith, leb, if◌then◌else◌, ==_iff, if_intro,
  Bool-cases, inl, inr, ap, subst,
}
use awa_platform.Prelude.Lists.{All, select}
use awa_platform.Models.Role.{UserRole}
use awa_platform.Roles.{holds, longest_held}
use awa_platform.Roles.Rows.{any-select, All-map, All-select_of}
use awa_platform.Roles.Grant.{holds-cons}

kept :
    (q t : UserRole) (uid rid : ℕ)
    → (q.id ≡ t.id → q ≡ t)
    → (uid ≡ t.user_id → rid ≢ t.role_id)
    → (q.user_id == uid && q.role_id == rid) ≡ true
    → not (q.id == t.id) ≡ true
kept q t uid rid same ne p = elim (Bool-cases (q.id == t.id)) [
  | inl e ↦
      let eq : q ≡ t = same ((==_iff q.id t.id).0 e) in
      absurd (
        ground
          (arith, ne, ap (λ (r : UserRole). r.user_id) eq, ap (λ (r : UserRole). r.role_id) eq))
  | inr e ↦ rw e
]

-- The rows of a user and a role, but for one id.
pub delete_keeps :
    (uid rid : ℕ) (t : UserRole) (rows : List UserRole)
    → All (λ (q : UserRole). q.id ≡ t.id → q ≡ t) rows
    → (uid ≡ t.user_id → rid ≢ t.role_id)
    → holds uid rid rows ≡ true
    → holds uid rid (select (λ (r : UserRole). not (r.id == t.id)) rows) ≡ true
delete_keeps uid rid t rows u ne h =
    any-select (λ (r : UserRole). r.user_id == uid && r.role_id == rid)
      (λ (r : UserRole). not (r.id == t.id)) rows
      (All-map (λ (q : UserRole). q.id ≡ t.id → q ≡ t)
        (λ (q : UserRole).
          (q.user_id == uid && q.role_id == rid) ≡ true → not (q.id == t.id) ≡ true)
        rows (λ q same p. kept q t uid rid same ne p) u)
      h

pub longest_held_all :
    (P : UserRole → Type 0) (r : UserRole) (rows : List UserRole)
    → P r
    → All P rows
    → P (longest_held r rows)
unfolding longest_held
longest_held_all P r [] h k = h
longest_held_all P r (q ∷ rows) h k =
    longest_held_all P (if leb r.assigned_at q.assigned_at then r else q) rows
      (if_intro P (leb r.assigned_at q.assigned_at) r q h k.0) k.1

abbrev pub left : ℕ → List UserRole → List UserRole
left i = select (λ (r : UserRole). not (r.id == i))

abbrev pub of_user : ℕ → List UserRole → List UserRole
of_user uid = select (λ (r : UserRole). r.user_id == uid)

holds_head : (r : UserRole) (rows : List UserRole) → holds r.user_id r.role_id (r ∷ rows) ≡ true
holds_head r rows = ground arith

-- A row that is kept gives its role to its user in the table that is left.
left_held :
    (i : ℕ) (rows : List UserRole)
    → All
        (λ (x : UserRole). not (x.id == i) ≡ true → holds x.user_id x.role_id (left i rows) ≡ true)
        rows
left_held i [] = tt
left_held i (r ∷ rows) = (
  λ keep. rw keep (holds_head r (left i rows)),
  All-map
      (λ (x : UserRole). not (x.id == i) ≡ true → holds x.user_id x.role_id (left i rows) ≡ true)
      (λ (x : UserRole).
        not (x.id == i) ≡ true → holds x.user_id x.role_id (left i (r ∷ rows)) ≡ true)
      rows
      (λ x h k.
        if_intro (λ l. holds x.user_id x.role_id l ≡ true) (not (r.id == i)) (r ∷ left i rows)
          (left i rows) (holds-cons x.user_id x.role_id r (left i rows) (h k)) (h k))
      (left_held i rows),
)

-- The rows that remain give their roles to the user in the table that remains.
pub remaining_held :
    (uid i : ℕ) (rows : List UserRole)
    → All (λ (x : UserRole). holds uid x.role_id (left i rows) ≡ true) (left i (of_user uid rows))
remaining_held uid i rows =
    All-select_of
      (λ (x : UserRole). not (x.id == i) ≡ true → holds uid x.role_id (left i rows) ≡ true)
      (λ (x : UserRole). holds uid x.role_id (left i rows) ≡ true)
      (λ (r : UserRole). not (r.id == i)) (of_user uid rows) (λ x h k. h k)
      (All-select_of
        (λ (x : UserRole). not (x.id == i) ≡ true → holds x.user_id x.role_id (left i rows) ≡ true)
        (λ (x : UserRole). not (x.id == i) ≡ true → holds uid x.role_id (left i rows) ≡ true)
        (λ (r : UserRole). r.user_id == uid) rows
        (λ x h mine k.
          let same : x.user_id ≡ uid = (==_iff x.user_id uid).0 mine in
          subst (λ u. holds u x.role_id (left i rows) ≡ true) same (h k))
        (left_held i rows))
