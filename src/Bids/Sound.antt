-- ===== src/Bids/Sound.antt =====
-- The decision keeps the table of bids sound.
use awa_platform.Prelude.{
  ℕ, ap, ◌∙◌, ◌≡◌, true, false, some, ◌∷◌, ◌==◌, arith, if◌then◌else◌, is_some, Bool-cases, inl,
  inr, none, subst, sym, Option-cases, ◌||◌,
}
use awa_platform.Prelude.Int.{ℤ, pos, ◌<ℤ◌}
use awa_platform.Prelude.Lists.{any}
use awa_platform.Exceptions.{raise, data_error}
use awa_platform.Models.Auction.{Auction, Bid, is_accepted, insertable, same_position}
use awa_platform.Session.{Db}
use awa_platform.Bids.World.{
  World, Faults, BidResult, try_accept_bid, publish_bid_update, publish_result,
}
use awa_platform.Bids.Decide.{
  Driver, Envelope, find_auction, bid_row, takes_row, announce, record_bid, flush_bid, decide_bid,
}
use awa_platform.Bids.Ledger.{
  Beats, Beats-of_highest, IsLedger, verdict_accepted, verdict_above_start, highest_above_start,
}

-- The announcement does not touch the database.
pub db-announce :
    (faults : Faults) (event : BidResult) (w : World) → (announce faults event w).1.db ≡ w.db
unfolding announce try_accept_bid publish_bid_update publish_result
db-announce faults event w = ground arith

-- The column keeps the amount as it is, if it takes it: it has no digits beyond the hundredths.
abbrev pub IsStorable : Driver → ℤ → Type 0
IsStorable driver x = (y : ℤ) → driver.column x ≡ some y → y ≡ x

-- The column takes the amount and keeps it as it is.
abbrev pub IsExact : Driver → ℤ → Type 0
IsExact driver x = driver.column x ≡ some x

pub exact-IsStorable : (driver : Driver) (x : ℤ) → IsExact driver x → IsStorable driver x
exact-IsStorable driver x exact y e = let same : some y ≡ some x = sym e ∙ exact in cc

module _ (driver : Driver) (faults : Faults) (t : ℕ) (env : Envelope) (p o : ℕ) (w : World) where
  -- Where the column takes the amount, the decision goes on to the flush.
  pub decide_bid-record_bid :
      (y : ℤ)
      → driver.column env.amount ≡ some y
      → decide_bid driver faults t env p o w ≡ record_bid driver faults t env y p o w
  unfolding decide_bid flush_bid
  decide_bid-record_bid y e = ap (λ c. flush_bid driver faults t env c p o w) e

  -- Where it does not, nothing changes.
  pub decide_bid_out_of_range :
      driver.column env.amount ≡ none → decide_bid driver faults t env p o w ≡ (raise data_error, w)
  unfolding decide_bid flush_bid
  decide_bid_out_of_range e = ap (λ c. flush_bid driver faults t env c p o w) e

  -- What holds of the unchanged world and of the flush with the amount as it is holds of a decision
  -- about an amount of whole hundredths.
  pub decide_bid_storable :
      (P : World → Type 0)
      → IsStorable driver env.amount
      → P w
      → P (record_bid driver faults t env env.amount p o w).1
      → P (decide_bid driver faults t env p o w).1
  decide_bid_storable P storable same recorded = elim (Option-cases (driver.column env.amount)) [
    | inl n ↦ rw (decide_bid_out_of_range n) same
    | inr (y, e) ↦
        rw (decide_bid-record_bid y e)
          (subst (λ x. P (record_bid driver faults t env x p o w).1) (sym (storable y e)) recorded)
  ]

  -- The flush adds the row, or leaves the database alone.
  pub db-record_bid :
      (y : ℤ)
      → (record_bid driver faults t env y p o w).1.db ≡ (
          if takes_row w.db (bid_row env y p o w.db)
          then record w.db { bids = bid_row env y p o w.db ∷ w.db.bids }
          else w.db)
  unfolding record_bid
  db-record_bid y = elim (Bool-cases (takes_row w.db (bid_row env y p o w.db))) [
    | inl e ↦ rw e (db-announce _ _ _)
    | inr e ↦ rw e
  ]

  -- A decision about an amount of whole hundredths adds its row, or leaves the database alone.
  pub db-decide_bid :
      IsExact driver env.amount
      → (decide_bid driver faults t env p o w).1.db ≡ (
          if takes_row w.db (bid_row env env.amount p o w.db)
          then record w.db { bids = bid_row env env.amount p o w.db ∷ w.db.bids }
          else w.db)
  db-decide_bid exact = rw (decide_bid-record_bid env.amount exact) (db-record_bid env.amount)

-- The conditions that a row of the table has met.
pub takes_row_facts :
    (db : Db) (row : Bid)
    → takes_row db row ≡ true
    → (pos 0 <ℤ row.amount)
      × (any (λ r. r.id == row.id || same_position row r) db.bids ≡ false)
      × (is_some (find_auction row.auction_id db) ≡ true)
unfolding insertable
takes_row_facts db row h = ground arith

module _ (env : Envelope) (p o : ℕ) (db : Db) (ledger : IsLedger db) where
  -- What the decision writes keeps every part of the invariant.
  bid_row_increasing :
      is_accepted (bid_row env env.amount p o db).status ≡ true
      → Beats env.auction_id env.amount db.bids
  bid_row_increasing h = Beats-of_highest env.auction_id env.amount db.bids (
      verdict_accepted env.auction_id (find_auction env.auction_id db) env.amount db.bids
        ledger.positive h)

  bid_row_above_start :
      is_accepted (bid_row env env.amount p o db).status ≡ true
      → (a : Auction) → find_auction env.auction_id db ≡ some a
      → a.starting_price <ℤ env.amount
  bid_row_above_start h a f =
      verdict_above_start env.auction_id a env.amount db.bids ledger.positive
        (λ k e. highest_above_start db.auctions env.auction_id a db.bids k ledger.above_start f e)
        (rw f at h)

  bid_row-IsLedger :
      takes_row db (bid_row env env.amount p o db) ≡ true
      → IsLedger (record db { bids = bid_row env env.amount p o db ∷ db.bids })
  bid_row-IsLedger h =
      let (amount_positive, fresh, known) = takes_row_facts db (bid_row env env.amount p o db) h in
      record {
        positive = (amount_positive, ledger.positive);
        increasing = (bid_row_increasing, ledger.increasing);
        above_start = (bid_row_above_start, ledger.above_start);
        unique = (fresh, ledger.unique);
      }

-- Whatever the envelope, the Kafka position and the faults, if the column `amount` either refuses the
-- amount or keeps it as it is, a decision keeps the invariant of the table `bids`: amounts are
-- positive, each accepted bid is higher than all that were accepted for its auction before it and than
-- the starting price, and no id or Kafka position occurs twice.
pub decide_bid-IsLedger :
    (driver : Driver) (faults : Faults) (t : ℕ) (env : Envelope) (p o : ℕ) (w : World)
    → IsStorable driver env.amount
    → IsLedger w.db
    → IsLedger (decide_bid driver faults t env p o w).1.db
decide_bid-IsLedger driver faults t env p o w storable h =
    decide_bid_storable driver faults t env p o w (λ v. IsLedger v.db) storable h
      (rw (db-record_bid driver faults t env p o w env.amount)
        (elim (Bool-cases (takes_row w.db (bid_row env env.amount p o w.db))) [
          | inl e ↦ rw e (bid_row-IsLedger env p o w.db h e)
          | inr e ↦ rw e h
        ]))
