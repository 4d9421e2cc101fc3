-- ===== src/Bids/Ledger.antt =====
-- What the accepted rows of `bids` look like after any sequence of decisions.
use awa_platform.Prelude.{
  ℕ, ◌≡◌, true, false, Option, none, some, List, [], ◌∷◌, ◌==◌, arith, Bool-cases, Option-cases,
  inl, inr, ◌||◌,
}
use awa_platform.Prelude.Int.{ℤ, pos, ◌<ℤ◌, ◌≤ℤ◌}
use awa_platform.Prelude.Lists.{All, any, find}
use awa_platform.Models.Auction.{Auction, Bid, is_accepted, same_position}
use awa_platform.Session.{Db}
use awa_platform.Bids.Decide.{counts, max_amount, highest, verdict}

-- An amount is higher than every accepted bid for an auction.
abbrev pub Beats : ℕ → ℤ → List Bid → Type 0
Beats a x [] = Unit
Beats a x (b ∷ bids) = (counts a b ≡ true → b.amount <ℤ x) × Beats a x bids

-- Higher than the highest, if there is one.
abbrev pub Above : ℤ → Option ℤ → Type 0
Above x none = Unit
Above x (some h) = h <ℤ x

pub Above-max : (x y : ℤ) (o : Option ℤ) → Above x (some (max_amount y o)) → (y <ℤ x) × Above x o
Above-max x y none h = (h, tt)
Above-max x y (some z) h = ground arith

pub max-Above : (x y : ℤ) (o : Option ℤ) → y <ℤ x → Above x o → Above x (some (max_amount y o))
max-Above x y none h k = h
max-Above x y (some z) h k = ground arith

pub Beats-of_highest : (a : ℕ) (x : ℤ) (bids : List Bid) → Above x (highest a bids) → Beats a x bids
unfolding highest
Beats-of_highest a x [] h = tt
Beats-of_highest a x (b ∷ bids) h = elim (Bool-cases (counts a b)) [
  | inl e ↦
      let k = Above-max x b.amount (highest a bids) (rw e at h) in
      (λ _. k.0, Beats-of_highest a x bids k.1)
  | inr e ↦ (λ t. cc, Beats-of_highest a x bids (rw e at h))
]

pub highest_of_Beats : (a : ℕ) (x : ℤ) (bids : List Bid) → Beats a x bids → Above x (highest a bids)
unfolding highest
highest_of_Beats a x [] h = tt
highest_of_Beats a x (b ∷ bids) h = elim (Bool-cases (counts a b)) [
  | inl e ↦ rw e (max-Above x b.amount (highest a bids) (h.0 e) (highest_of_Beats a x bids h.1))
  | inr e ↦ rw e (highest_of_Beats a x bids h.1)
]

-- Every amount is positive, as the check constraint of the table demands.
abbrev pub IsPositive : List Bid → Type 0
IsPositive = All (λ b. pos 0 <ℤ b.amount)

pub highest_positive :
    (a : ℕ) (bids : List Bid) (h : ℤ) → IsPositive bids → highest a bids ≡ some h → pos 0 <ℤ h
unfolding highest
highest_positive a [] h p e = absurd (cc)
highest_positive a (b ∷ bids) h p e = elim (Option-cases (highest a bids)) [
  | inl n ↦ ground arith
  | inr (k, s) ↦ ground (arith, highest_positive a bids k p.1 s)
]

-- Each accepted bid is higher than every bid that was accepted before it for its auction. The
-- newest row stands first.
abbrev pub IsIncreasing : List Bid → Type 0
IsIncreasing [] = Unit
IsIncreasing (b ∷ bids) =
    (is_accepted b.status ≡ true → Beats b.auction_id b.amount bids) × IsIncreasing bids

-- Each accepted bid is higher than the starting price of its auction.
abbrev pub IsAboveStart : List Auction → List Bid → Type 0
IsAboveStart auctions = All λ b.
    is_accepted b.status ≡ true
    → (a : Auction) → find (λ (r : Auction). r.id == b.auction_id) auctions ≡ some a
    → a.starting_price <ℤ b.amount

-- No Kafka position and no id occurs twice.
abbrev pub HasUniquePositions : List Bid → Type 0
HasUniquePositions [] = Unit
HasUniquePositions (b ∷ bids) =
    (any (λ r. r.id == b.id || same_position b r) bids ≡ false) × HasUniquePositions bids

pub record IsLedger (db : Db) : Type 0 where
  pub positive : IsPositive db.bids
  pub increasing : IsIncreasing db.bids
  pub above_start : IsAboveStart db.auctions db.bids
  pub unique : HasUniquePositions db.bids

-- A bid that the decision accepts is above the highest bid and above the starting price.
pub verdict_accepted :
    (id : ℕ) (o : Option Auction) (x : ℤ) (bids : List Bid)
    → IsPositive bids
    → is_accepted (verdict id o x bids).0 ≡ true
    → Above x (highest id bids)
unfolding verdict
verdict_accepted id none x bids p h = absurd (cc)
verdict_accepted id (some a) x bids p h = elim (Option-cases (highest id bids)) [
  | inl n ↦ rw n tt
  | inr (k, s) ↦ rw s (ground (arith, highest_positive id bids k p s))
]

-- The same for the starting price, if the accepted rows are above it.
pub verdict_above_start :
    (id : ℕ) (a : Auction) (x : ℤ) (bids : List Bid)
    → IsPositive bids
    → ((k : ℤ) → highest id bids ≡ some k → a.starting_price <ℤ k)
    → is_accepted (verdict id (some a) x bids).0 ≡ true
    → a.starting_price <ℤ x
unfolding verdict
verdict_above_start id a x bids p start h = elim (Option-cases (highest id bids)) [
  | inl n ↦ ground arith
  | inr (k, s) ↦ ground (arith, highest_positive id bids k p s, start k s)
]

counts_split :
    (id : ℕ) (b : Bid) → counts id b ≡ true → (b.auction_id ≡ id) × (is_accepted b.status ≡ true)
counts_split id b h = ground arith

max_bound : (y k : ℤ) (o : Option ℤ) → some (max_amount y o) ≡ some k → y ≤ℤ k
max_bound y k none e = ground arith
max_bound y k (some z) e = ground arith

-- The highest accepted bid is one of the rows, so it is above the starting price.
pub highest_above_start :
    (auctions : List Auction) (id : ℕ) (a : Auction) (bids : List Bid) (k : ℤ)
    → IsAboveStart auctions bids
    → find (λ (r : Auction). r.id == id) auctions ≡ some a
    → highest id bids ≡ some k
    → a.starting_price <ℤ k
unfolding highest
highest_above_start auctions id a [] k h f e = absurd (cc)
highest_above_start auctions id a (b ∷ bids) k h f e = elim (Bool-cases (counts id b)) [
  | inl t ↦
      let (same_id, acc) = counts_split id b t in
      let le : b.amount ≤ℤ k = max_bound b.amount k (highest id bids) (rw t at e) in
      let lt : a.starting_price <ℤ b.amount = h.0 acc a (rw same_id f) in omega arith
  | inr n ↦ highest_above_start auctions id a bids k h.1 f (rw n at e)
]
